-- ===== src/Ranking/Folding/Laws.antt =====
-- Folding keeps the count of the characters, on which the spans of purr/src/ranking rest.
use clipkitty.Base.{length, ◌≡◌, inl, inr, Bool-cases}
use clipkitty.Ranking.Chars.{Text, Unicode, is_ascii, to_ascii_lowercase}
use clipkitty.Ranking.Chars.Laws.{length-map}
use clipkitty.Ranking.Folding.{fold_char, fold_str}

-- A string that is folded has as many characters as before, whatever the Unicode tables say.
pub length-fold_str : (u : Unicode) (s : Text) → length (fold_str u s) ≡ length s
unfolding fold_str
length-fold_str u s = elim (Bool-cases (is_ascii s)) [
  | inl ascii ↦ rw (ascii, fold_str) (length-map to_ascii_lowercase s)
  | inr other ↦ rw (other, fold_str) (length-map (fold_char u) s)
]
