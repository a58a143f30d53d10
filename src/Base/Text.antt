-- ===== src/Base/Text.antt =====
-- The order of texts: `Ord for str` compares UTF-8 bytes, which is the order of the code points,
-- and so does SQLite's default collation.
use Prim.Native.Nat.{ℕ}
use Prim.Native.Char.{code}
use Prim.Native.String.{String}
use mathlib.Core.Bool.{Bool, true, false}
use mathlib.Core.List.{List, [], ◌∷◌}
use clipkitty.Base.Tests.{ltb, ◌==◌, if◌then◌else◌}

abbrev pub codes : String → List ℕ
codes String.[] = []
codes (String.◌∷◌ c s) = code c ∷ codes s

pub codes_leb : List ℕ → List ℕ → Bool
codes_leb [] ys = true
codes_leb (x ∷ xs) [] = false
codes_leb (x ∷ xs) (y ∷ ys) =
    let rest = codes_leb xs ys in if ltb x y then true else if x == y then rest else false

unfoldable pub str_leb : String → String → Bool
unfolding codes_leb
str_leb a b = codes_leb (codes a) (codes b)
