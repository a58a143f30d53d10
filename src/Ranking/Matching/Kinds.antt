-- ===== src/Ranking/Matching/Kinds.antt =====
-- The result of a match, of purr/src/ranking/matching.rs.
use clipkitty.Base.{ℕ}

pub record TokenMatchSpan : Type 0 where
  pub start : ℕ
  pub len : ℕ

pub data WordMatchKind : Type 0 where
  none : WordMatchKind
  exact : WordMatchKind
  prefix : TokenMatchSpan → WordMatchKind
  subword_prefix : TokenMatchSpan → WordMatchKind
  infix_substring : TokenMatchSpan → WordMatchKind
  fuzzy : ℕ → WordMatchKind
  subsequence : ℕ → WordMatchKind
