-- ===== src/Ranking/Matching/Edits.antt =====
-- Edit distances and the kinds of edits, of purr/src/ranking/matching.rs.
use clipkitty.Base.{
  ℕ, ◌+◌, ◌-◌, max, ltb, leb, ◌==◌, Bool, true, false, ◌&&◌, ◌||◌, not, Option, none, some, [], ◌∷◌,
  length, is_empty, if◌then◌else◌,
}
use clipkitty.Ranking.Chars.{Text, Unicode, is_ascii, text_eq}

pub data FuzzyEditKind : Type 0 where
  common_transposition : FuzzyEditKind
  repeated_char_edit : FuzzyEditKind
  insertion_or_deletion : FuzzyEditKind
  substitution : FuzzyEditKind
  multi_edit : FuzzyEditKind

-- The first difference of two words of one length is two characters that are swapped, and nothing
-- differs after them.
unfoldable pub is_swap : Text → Text → Bool
is_swap (a ∷ s) (b ∷ t) = elim (a == b) [
  | true ↦ is_swap s t
  | false ↦ elim s [
    | [] ↦ false
    | a' ∷ s' ↦ elim t [ [] ↦ false | b' ∷ t' ↦ a == b' && a' == b && text_eq s' t' ]
  ]
]
is_swap _ _ = false

unfoldable pub is_adjacent_transposition : Text → Text → Bool
is_adjacent_transposition a b =
    if not (length a == length b) || ltb (length a) 2 then false else is_swap a b

-- The loop of `classify_single_insert_delete` on what is left of the two words, after the last
-- character of the longer one that was passed. Before a character is skipped, the result says
-- whether the one skipped equals a neighbour; `rest_equal` is the loop after that.
abbrev pub is_head : ℕ → Text → Bool
is_head c [] = false
is_head c (d ∷ _) = d == c

abbrev pub is_last_passed : ℕ → Option ℕ → Bool
is_last_passed c none = false
is_last_passed c (some d) = d == c

unfoldable pub single_skip : Option ℕ → Text → Text → Option Bool
single_skip prev s [] = none
single_skip prev [] (c ∷ rest) = some (is_last_passed c prev || is_head c rest)
single_skip prev (a ∷ s) (c ∷ rest) = elim (a == c) [
  | true ↦ single_skip (some c) s rest
  | false ↦ if text_eq (a ∷ s) rest then some (is_last_passed c prev || is_head c rest) else none
]

unfoldable pub classify_single_insert_delete : Text → Text → Option Bool
classify_single_insert_delete a b =
    let shorter = if leb (length a) (length b) then a else b in
    let longer = if leb (length a) (length b) then b else a in
    if not (length longer == length shorter + 1) then none else single_skip none shorter longer

unfoldable pub classify_fuzzy_edit : Text → Text → ℕ → FuzzyEditKind
classify_fuzzy_edit query target dist =
    if is_adjacent_transposition query target
    then common_transposition
    else if dist == 1
    then elim (classify_single_insert_delete query target) [
      | some repeated ↦ if repeated then repeated_char_edit else insertion_or_deletion
      | none ↦ substitution
    ]
    else multi_edit

abbrev pub is_first_char_transposed : Text → Text → Bool
is_first_char_transposed (a ∷ a' ∷ _) (b ∷ b' ∷ _) = a == b' && a' == b
is_first_char_transposed _ _ = false

abbrev pub same_first_char : Text → Text → Bool
same_first_char (a ∷ _) (b ∷ _) = a == b
same_first_char _ _ = false

-- `usize::from(…)` of the first-character rule.
unfoldable pub first_char_penalty : Text → Text → ℕ
first_char_penalty a b = if same_first_char a b || is_first_char_transposed a b then 0 else 1

abbrev pub abs_diff : ℕ → ℕ → ℕ
abs_diff a b = (a - b) + (b - a)

abbrev pub within : ℕ → ℕ → Option ℕ
within max_dist dist = if leb dist max_dist then some dist else none

unfoldable pub edit_distance_bounded_ascii : Unicode → Text → Text → ℕ → Option ℕ
edit_distance_bounded_ascii u a b max_dist =
    let penalty = first_char_penalty a b in
    if is_empty a || is_empty b
    then within max_dist (max (length a) (length b))
    else if ltb max_dist (abs_diff (length a) (length b) + penalty)
    then none
    else elim (u.levenshtein_simd_k a b (max_dist - penalty)) [
      | none ↦ none
      | some dist ↦ within max_dist (dist + penalty)
    ]

unfoldable pub edit_distance_bounded_unicode : Unicode → Text → Text → ℕ → Option ℕ
edit_distance_bounded_unicode u a b max_dist =
    let penalty = first_char_penalty a b in
    if is_empty a || is_empty b
    then within max_dist (max (length a) (length b))
    else if ltb max_dist (abs_diff (length a) (length b) + penalty)
    then none
    else within max_dist (u.osa_distance a b + penalty)

unfoldable pub edit_distance_bounded : Unicode → Text → Text → ℕ → Option ℕ
edit_distance_bounded u a b max_dist =
    if is_ascii a && is_ascii b
    then edit_distance_bounded_ascii u a b max_dist
    else edit_distance_bounded_unicode u a b max_dist
