-- ===== src/Ranking/Chars.antt =====
-- Characters are code points and strings are lists of them. What the Rust library and the crates
-- unicode_normalization, strsim and triple_accel say of them is a parameter.
pub mod Laws
pub mod Trim
pub mod Samples
use clipkitty.Base.{
  ℕ, zero, suc, ◌+◌, ltb, leb, ◌==◌, Bool, true, false, ◌&&◌, ◌||◌, Option, none, some, List, [],
  ◌∷◌, if◌then◌else◌, all, is_empty,
}

abbrev pub Text : Type 0
Text = List ℕ

pub record Unicode : Type 0 where
  pub is_alphabetic : ℕ → Bool
  pub is_numeric : ℕ → Bool
  pub is_lowercase : ℕ → Bool
  pub is_uppercase : ℕ → Bool
  pub is_whitespace : ℕ → Bool
  pub to_lowercase : ℕ → List ℕ
  pub decompose_canonical : ℕ → List ℕ
  pub is_combining_mark : ℕ → Bool
  pub osa_distance : Text → Text → ℕ
  -- `levenshtein_simd_k_with_opts` under the Damerau costs: the distance, if it is within `k`.
  pub levenshtein_simd_k : Text → Text → ℕ → Option ℕ

abbrev pub is_alphanumeric : Unicode → ℕ → Bool
is_alphanumeric u c = u.is_alphabetic c || u.is_numeric c

abbrev pub is_ascii_char : ℕ → Bool
is_ascii_char c = ltb c 128

-- `str::is_ascii`.
abbrev pub is_ascii : Text → Bool
is_ascii s = all is_ascii_char s

-- `u8::to_ascii_lowercase`: A to Z are 65 to 90.
unfoldable pub to_ascii_lowercase : ℕ → ℕ
to_ascii_lowercase c = if leb 65 c && leb c 90 then c + 32 else c

-- `char::len_utf8`.
unfoldable pub len_utf8 : ℕ → ℕ
len_utf8 c = if ltb c 128 then 1 else if ltb c 2048 then 2 else if ltb c 65536 then 3 else 4

-- `str::len`.
unfoldable pub byte_len : Text → ℕ
byte_len [] = 0
byte_len (c ∷ s) = len_utf8 c + byte_len s

-- Equality of strings.
unfoldable pub text_eq : Text → Text → Bool
text_eq [] [] = true
text_eq [] (_ ∷ _) = false
text_eq (_ ∷ _) [] = false
text_eq (a ∷ s) (b ∷ t) = a == b && text_eq s t

-- `haystack.starts_with(needle)`.
unfoldable pub starts_with : Text → Text → Bool
starts_with haystack [] = true
starts_with [] (_ ∷ _) = false
starts_with (a ∷ s) (b ∷ t) = a == b && starts_with s t

-- `haystack.contains(needle)`.
unfoldable pub contains : Text → Text → Bool
unfolding starts_with
contains [] needle = starts_with [] needle
contains (a ∷ s) needle = starts_with (a ∷ s) needle || contains s needle

-- `str::trim_start`, `str::trim_end` and `str::trim`.
unfoldable pub trim_start : Unicode → Text → Text
trim_start u [] = []
trim_start u (c ∷ s) = let rest = trim_start u s in if u.is_whitespace c then rest else c ∷ s

unfoldable pub trim_end : Unicode → Text → Text
trim_end u [] = []
trim_end u (c ∷ s) =
    let rest = trim_end u s in if is_empty rest && u.is_whitespace c then [] else c ∷ rest

unfoldable pub trim : Unicode → Text → Text
unfolding trim_start trim_end
trim u s = trim_end u (trim_start u s)
