-- ===== src/Highlight/Types.antt =====
-- The highlights of purr/src/search.rs, and the data of purr/src/interface.rs that show them.
use clipkitty.Base.{ℕ, Option, List}
use clipkitty.Ranking.Chars.{Text}

pub data HighlightKind : Type 0 where
  exact : HighlightKind
  prefix : HighlightKind
  prefix_tail : HighlightKind
  subword_prefix : HighlightKind
  substring : HighlightKind
  fuzzy : HighlightKind
  subsequence : HighlightKind

-- A range of characters of a content.
pub record HighlightRange : Type 0 where
  pub start : ℕ
  pub end : ℕ
  pub kind : HighlightKind

pub record HighlightAnalysis : Type 0 where
  pub highlights : List HighlightRange
  pub initial_scroll_highlight_index : Option ℕ

pub record Utf16HighlightRange : Type 0 where
  pub utf16_start : ℕ
  pub utf16_end : ℕ
  pub kind : HighlightKind

pub record MatchedExcerpt : Type 0 where
  pub text : Text
  pub highlights : List Utf16HighlightRange
  pub line_number : ℕ

pub record PreviewDecoration : Type 0 where
  pub highlights : List Utf16HighlightRange
  pub initial_scroll_highlight_index : Option ℕ

pub data ListPresentationProfile : Type 0 where
  compact_row : ListPresentationProfile
  card : ListPresentationProfile
