-- ===== src/Ranking/Folding.antt =====
-- Diacritic folding, of purr/src/ranking/folding.rs.
pub mod Laws
use clipkitty.Base.{
  ℕ, Bool, true, false, List, [], ◌∷◌, Option, none, some, map, all, if◌then◌else◌, ◌≡◌, refl,
  arith, length, suc,
}
use clipkitty.Ranking.Chars.{Text, Unicode, is_ascii, is_ascii_char, to_ascii_lowercase}

-- Lowercase where that is one character.
unfoldable pub lowercase_single : Unicode → ℕ → ℕ
lowercase_single u c = elim (u.to_lowercase c) [
  | [] ↦ c
  | single ∷ more ↦ elim more [ [] ↦ single | _ ∷ _ ↦ c ]
]

-- The first character of the decomposition, if there is one and the others are all marks.
unfoldable pub fold_base : Unicode → ℕ → List ℕ → ℕ
fold_base u c [] = c
fold_base u c (base ∷ tail) = if all u.is_combining_mark tail then base else c

unfoldable pub fold_char : Unicode → ℕ → ℕ
fold_char u c =
    if is_ascii_char c
    then to_ascii_lowercase c
    else lowercase_single u (fold_base u c (u.decompose_canonical c))

unfoldable pub fold_str : Unicode → Text → Text
fold_str u s = if is_ascii s then map to_ascii_lowercase s else map (fold_char u) s
