-- ===== src/Ranking/Matching/Distance.antt =====
-- The bounded edit distance of purr/src/ranking/matching.rs.
use clipkitty.Base.{ℕ, ◌+◌, ◌-◌, ◌≤◌, ◌<◌, some, length, ◌≡◌, arith}
use clipkitty.Ranking.Chars.{Text, Unicode}
use clipkitty.Ranking.Matching.Edits.{
  edit_distance_bounded, edit_distance_bounded_ascii, edit_distance_bounded_unicode,
  first_char_penalty, abs_diff, within,
}

-- The distances of the two crates: the bounded one is the other one where it is within the bound.
abbrev pub Agrees : Unicode → Text → Text → Type 0
Agrees u a b = (k : ℕ) → u.levenshtein_simd_k a b k ≡ within k (u.osa_distance a b)

pub edit_distance_bounded-le :
    (u : Unicode) (a b : Text) (max_dist dist : ℕ)
    → edit_distance_bounded u a b max_dist ≡ some dist
    → dist ≤ max_dist
unfolding edit_distance_bounded edit_distance_bounded_ascii edit_distance_bounded_unicode
edit_distance_bounded-le u a b max_dist dist e = ground arith

first_char_penalty-le : (a b : Text) → first_char_penalty a b ≤ 1
unfolding first_char_penalty
first_char_penalty-le a b = ground arith

edit_distance_bounded_ascii-edit_distance_bounded_unicode :
    (u : Unicode) (a b : Text) (max_dist : ℕ)
    → Agrees u a b
    → edit_distance_bounded_ascii u a b max_dist ≡ edit_distance_bounded_unicode u a b max_dist
unfolding edit_distance_bounded_ascii edit_distance_bounded_unicode
edit_distance_bounded_ascii-edit_distance_bounded_unicode u a b max_dist agrees =
    ground (arith, agrees (max_dist - first_char_penalty a b), first_char_penalty-le a b)

-- Where the two crates' distances agree and a distance is never below the difference of the lengths,
-- the bounded distance of two words that are not empty is their distance and the penalty on the
-- first character, where that is within the bound, and otherwise there is none: pruning by length
-- and the smaller budget of the ASCII routine lose no result.
pub edit_distance_bounded-osa_distance :
    (u : Unicode) (a b : Text) (max_dist : ℕ)
    → Agrees u a b
    → abs_diff (length a) (length b) ≤ u.osa_distance a b
    → 0 < length a
    → 0 < length b
    → edit_distance_bounded u a b max_dist
      ≡ within max_dist (u.osa_distance a b + first_char_penalty a b)
unfolding edit_distance_bounded edit_distance_bounded_unicode
edit_distance_bounded-osa_distance u a b max_dist agrees lengths pa pb =
    ground (arith, edit_distance_bounded_ascii-edit_distance_bounded_unicode u a b max_dist agrees)
