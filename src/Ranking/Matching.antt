-- ===== src/Ranking/Matching.antt =====
-- The match of one query word against one document word, of purr/src/ranking/matching.rs.
pub mod Kinds
pub mod Edits
pub mod Fast
pub mod Subsequences
pub mod Distance
pub mod Swaps
pub mod Meaning
use clipkitty.Base.{
  ℕ, zero, suc, ◌+◌, ◌-◌, ◌*◌, ltb, leb, ◌==◌, Bool, true, false, ◌&&◌, ◌||◌, not, Option, none,
  some, List, [], ◌∷◌, length, map, any, all, drop, if◌then◌else◌,
}
use clipkitty.Ranking.Chars.{
  Text, Unicode, is_alphanumeric, is_ascii, to_ascii_lowercase, text_eq, starts_with,
}
use clipkitty.Ranking.Folding.{fold_str}
use Kinds.{TokenMatchSpan, WordMatchKind}
use Edits.{edit_distance_bounded, classify_fuzzy_edit, FuzzyEditKind}

pub data PrefixMatch : Type 0 where
  disabled : PrefixMatch
  enabled : ℕ → PrefixMatch  -- min_query_chars

abbrev pub non_final_prefix_min_query_chars : ℕ
non_final_prefix_min_query_chars = 3

unfoldable pub prefix_match_for_query_word : ℕ → ℕ → Bool → PrefixMatch
prefix_match_for_query_word count index last_word_is_prefix =
    if not (index + 1 == count)
    then enabled non_final_prefix_min_query_chars
    else if not last_word_is_prefix
    then disabled
    else enabled (if ltb 1 count then 1 else 2)

abbrev pub at_start : ℕ → TokenMatchSpan
at_start n = record { start = 0; len = n }

unfoldable pub prefix_match_span : Text → Text → PrefixMatch → Option TokenMatchSpan
prefix_match_span qw dw disabled = none
prefix_match_span qw dw (enabled min_query_chars) =
    if leb min_query_chars (length qw) && starts_with dw qw
    then some (at_start (length qw))
    else none

-- The character at an index.
abbrev pub char_at : ℕ → Text → Option ℕ
char_at n [] = none
char_at zero (c ∷ s) = some c
char_at (suc n) (c ∷ s) = char_at n s

abbrev pub next_is_lowercase : Unicode → Option ℕ → Bool
next_is_lowercase u none = false
next_is_lowercase u (some c) = u.is_lowercase c

-- The four boundaries between a character and the next, with the one after it.
unfoldable pub is_boundary : Unicode → ℕ → ℕ → Option ℕ → Bool
is_boundary u prev curr next =
    (u.is_lowercase prev && u.is_uppercase curr)
    || (u.is_alphabetic prev && u.is_numeric curr)
    || (u.is_numeric prev && u.is_alphabetic curr)
    || (u.is_uppercase prev && u.is_uppercase curr && next_is_lowercase u next)

unfoldable pub is_subword_boundary : Unicode → Text → ℕ → Bool
is_subword_boundary u doc_raw zero = false
is_subword_boundary u doc_raw (suc before) = elim (char_at before doc_raw) [
  | none ↦ false
  | some prev ↦ elim (char_at (suc before) doc_raw) [
    | none ↦ false
    | some curr ↦ is_boundary u prev curr (char_at (suc (suc before)) doc_raw)
  ]
]

-- The loop over the starts: `count` of them are left. A slice equals the query where what follows
-- the start starts with it.
unfoldable pub find_from : Text → Text → ℕ → ℕ → Option ℕ
find_from query doc start zero = none
find_from query doc start (suc count) = elim (starts_with (drop start doc) query) [
  | true ↦ some start
  | false ↦ find_from query doc (suc start) count
]

unfoldable pub classify_contained_match : Unicode → Text → Text → Text → Option WordMatchKind
classify_contained_match u qw dw raw =
    if ltb (length qw) 3 || leb (length dw) (length qw)
    then none
    else if not (length raw == length dw)
    then none
    else elim (find_from qw dw 1 (length dw - length qw)) [
      | none ↦ none
      | some start ↦
          let span : TokenMatchSpan = record { start = start; len = length qw } in
          some (
            if is_subword_boundary u raw start
            then WordMatchKind.subword_prefix span
            else WordMatchKind.infix_substring span)
    ]

abbrev pub saturating_suc : ℕ → ℕ
saturating_suc gaps = if ltb gaps 255 then gaps + 1 else 255

-- The loop over the document's characters: the rest of the query, whether it has begun, the gaps,
-- and whether the last character matched.
unfoldable pub subsequence_gaps : Text → Text → Bool → ℕ → Bool → Option ℕ
subsequence_gaps [] target started gaps prev_matched = some gaps
subsequence_gaps (q ∷ qs) [] started gaps prev_matched = none
subsequence_gaps (q ∷ qs) (t ∷ ts) started gaps prev_matched = elim (t == q) [
  | true ↦
      subsequence_gaps qs ts true
        (if not prev_matched && started then saturating_suc gaps else gaps) true
  | false ↦ subsequence_gaps (q ∷ qs) ts started gaps false
]

abbrev pub same_first : Text → Text → Bool
same_first (a ∷ _) (b ∷ _) = a == b
same_first _ _ = false

unfoldable pub subsequence_match : Text → Text → Option ℕ
subsequence_match query target =
    if leb (length query) 3
    then none
    else if leb (length target) (length query)
    then none
    else if ltb (length query * 2) (length target)
    then none
    else if not (same_first query target)
    then none
    else subsequence_gaps query target false 0 false

unfoldable pub max_edit_distance : ℕ → ℕ
max_edit_distance n = if ltb n 3 then 0 else if leb n 8 then 1 else 2

unfoldable pub is_wordlike_fuzzy_token : Unicode → Text → Bool
is_wordlike_fuzzy_token u token = any u.is_alphabetic token && all (is_alphanumeric u) token

unfoldable pub query_allows_fuzzy_recall : Unicode → Text → Bool
query_allows_fuzzy_recall u query = leb 3 (length query) && is_wordlike_fuzzy_token u query

unfoldable pub allows_short_fuzzy_match : Text → Text → ℕ → Bool
allows_short_fuzzy_match query target dist = elim (classify_fuzzy_edit query target dist) [
  | FuzzyEditKind.substitution ↦ false
  | FuzzyEditKind.multi_edit ↦ false
  | _ ↦ true
]

unfoldable pub allows_fuzzy_match : Unicode → Text → Text → ℕ → Bool
allows_fuzzy_match u query target dist =
    if not (query_allows_fuzzy_recall u query) || not (is_wordlike_fuzzy_token u target)
    then false
    else if length query == 3
    then allows_short_fuzzy_match query target dist
    else true

-- The fuzzy arm of `does_word_match`.
unfoldable pub fuzzy_match : Unicode → Text → Text → Option ℕ
fuzzy_match u qw dw =
    let max_typo = max_edit_distance (length qw) in
    if max_typo == 0 then none else elim (edit_distance_bounded u qw dw max_typo) [
      | none ↦ none
      | some dist ↦ if ltb 0 dist && allows_fuzzy_match u qw dw dist then some dist else none
    ]

unfoldable pub does_word_match : Unicode → Text → Text → Text → PrefixMatch → WordMatchKind
does_word_match u qw dw raw prefix_match =
    if text_eq dw qw then WordMatchKind.exact else elim (prefix_match_span qw dw prefix_match) [
      | some span ↦ WordMatchKind.prefix span
      | none ↦ elim (classify_contained_match u qw dw raw) [
        | some contained ↦ contained
        | none ↦ elim (fuzzy_match u qw dw) [
          | some dist ↦ WordMatchKind.fuzzy dist
          | none ↦ elim (subsequence_match qw dw) [
            | some gaps ↦ WordMatchKind.subsequence gaps
            | none ↦ WordMatchKind.none
          ]
        ]
      ]
    ]

unfoldable pub match_fast_folded : Text → Text → PrefixMatch → WordMatchKind
match_fast_folded qw dw prefix_match =
    if text_eq dw qw then WordMatchKind.exact else elim (prefix_match_span qw dw prefix_match) [
      | some span ↦ WordMatchKind.prefix span
      | none ↦ WordMatchKind.none
    ]

-- `eq_ignore_ascii_case`, and the same of a prefix.
abbrev pub eq_ignore_ascii_case : Text → Text → Bool
eq_ignore_ascii_case s t = text_eq (map to_ascii_lowercase s) (map to_ascii_lowercase t)

abbrev pub ascii_starts_with_ignore_case : Text → Text → Bool
ascii_starts_with_ignore_case haystack needle =
    starts_with (map to_ascii_lowercase haystack) (map to_ascii_lowercase needle)

unfoldable pub ascii_prefix_match_span : Text → Text → PrefixMatch → Option TokenMatchSpan
ascii_prefix_match_span qw raw disabled = none
ascii_prefix_match_span qw raw (enabled min_query_chars) =
    if leb min_query_chars (length qw) && ascii_starts_with_ignore_case raw qw
    then some (at_start (length qw))
    else none

unfoldable pub does_word_match_fast_raw : Unicode → Text → Text → PrefixMatch → WordMatchKind
does_word_match_fast_raw u qw raw prefix_match =
    if is_ascii qw && is_ascii raw
    then (if eq_ignore_ascii_case raw qw
        then WordMatchKind.exact
        else elim (ascii_prefix_match_span qw raw prefix_match) [
          | some span ↦ WordMatchKind.prefix span
          | none ↦ WordMatchKind.none
        ])
    else match_fast_folded qw (fold_str u raw) prefix_match
