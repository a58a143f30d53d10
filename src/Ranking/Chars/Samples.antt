-- ===== src/Ranking/Chars/Samples.antt =====
-- Small tables of characters for the tests.
use clipkitty.Base.{◌+◌, leb, ◌==◌, false, none, [], ◌∷◌, length}
use clipkitty.Ranking.Chars.{Unicode}

-- Tables that know small letters and the space.
abbrev pub test_unicode : Unicode
test_unicode = record {
  is_alphabetic = λ c. leb 97 c;
  is_numeric = λ c. false;
  is_lowercase = λ c. leb 97 c;
  is_uppercase = λ c. false;
  is_whitespace = λ c. c == 32;
  to_lowercase = λ c. c ∷ [];
  decompose_canonical = λ c. c ∷ [];
  is_combining_mark = λ c. false;
  osa_distance = λ a b. length a + length b;
  levenshtein_simd_k = λ a b k. none;
}
