-- ===== src/Ranking/Chars/Trim.antt =====
-- Trimming.
use clipkitty.Base.{ℕ, false, ◌&&◌, [], ◌∷◌, is_empty, ◌≡◌, refl, inl, inr, Bool-cases, arith}
use clipkitty.Ranking.Chars.{Text, Unicode, trim_start, trim_end, trim}

module _ (u : Unicode) where
  trim_end-trim_end : (s : Text) → trim_end u (trim_end u s) ≡ trim_end u s
  unfolding trim_end
  trim_end-trim_end [] = refl
  trim_end-trim_end (c ∷ s) = elim (Bool-cases (is_empty (trim_end u s) && u.is_whitespace c)) [
    | inl e ↦ rw e refl
    | inr e ↦ rw (e, trim_end) (rw (trim_end-trim_end s, e) refl)
  ]

  trim_start-kept :
      (c : ℕ) (s : Text)
      → u.is_whitespace c ≡ false
      → trim_start u (trim_end u (c ∷ s)) ≡ trim_end u (c ∷ s)
  unfolding trim_start trim_end
  trim_start-kept c s e = ground arith

  -- A text whose first character is no space starts with it when its end is trimmed, too.
  trim_start-trim_end :
      (s : Text) → trim_start u (trim_end u (trim_start u s)) ≡ trim_end u (trim_start u s)
  unfolding trim_start trim_end
  trim_start-trim_end [] = refl
  trim_start-trim_end (c ∷ s) = elim (Bool-cases (u.is_whitespace c)) [
    | inl e ↦ rw e (trim_start-trim_end s)
    | inr e ↦ rw e (trim_start-kept c s e)
  ]

  pub trim-trim : (s : Text) → trim u (trim u s) ≡ trim u s
  unfolding trim
  trim-trim s = rw (trim_start-trim_end s) (trim_end-trim_end (trim_start u s))
