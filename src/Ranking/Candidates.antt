-- ===== src/Ranking/Candidates.antt =====
-- The candidates of a query word: `trim_match_candidates` of purr/src/ranking/alignment.rs and the
-- collection of purr/src/ranking.rs.
pub mod Trim
use clipkitty.Base.{
  take, ℕ, zero, suc, ◌+◌, ◌-◌, leb, Bool, true, false, Option, none, some, List, [], ◌∷◌, ◌++◌,
  length, u64_max, if◌then◌else◌,
}
use Prim.Native.Nat.{compare, Ordering}
use clipkitty.Base.Table.{order_by}
use clipkitty.Ranking.Order.{then_with}
use clipkitty.Ranking.Chars.{Text, Unicode}
use clipkitty.Ranking.Matches.{
  TypoClass, common_transposition, repeated_char_edit, insertion_or_deletion, substitution,
  multi_edit, WordMatch, WordMatchState, word_match, doc_word_pos, match_class_score,
  matched_weight, edit_distance,
}
use clipkitty.Ranking.Matching.{PrefixMatch, does_word_match, does_word_match_fast_raw}
use clipkitty.Ranking.Matching.Kinds.{WordMatchKind}
use clipkitty.Ranking.Matching.Edits.{FuzzyEditKind, classify_fuzzy_edit}
use clipkitty.Ranking.Tokens.{raw_token_from}
use clipkitty.Ranking.Document.{PreparedDocument, small, large_fast, fast_tokens}
use clipkitty.Ranking.Alignment.{holds}

abbrev pub kind_rank : WordMatchState → ℕ
kind_rank (WordMatchState.exact _) = 6
kind_rank (WordMatchState.prefix _) = 5
kind_rank (WordMatchState.subword_prefix _) = 4
kind_rank (WordMatchState.infix_substring _) = 3
kind_rank (WordMatchState.fuzzy _ _ _) = 2
kind_rank (WordMatchState.subsequence _ _) = 1
kind_rank WordMatchState.unmatched = 0

-- `doc_word_pos().unwrap_or(usize::MAX)`.
abbrev pub position_key : WordMatch → ℕ
position_key m = elim (doc_word_pos m) [ none ↦ u64_max | some p ↦ p ]

-- The order of the keys, the last one reversed.
unfoldable pub cmp_quality_key : WordMatch → WordMatch → Ordering
cmp_quality_key a b = then_with (compare (kind_rank a.state) (kind_rank b.state)) (
    then_with (compare (match_class_score a.state) (match_class_score b.state)) (
      then_with (compare (matched_weight a) (matched_weight b)) (
        then_with (compare (255 - edit_distance a) (255 - edit_distance b))
          (compare (position_key b) (position_key a)))))

unfoldable pub candidate_quality_cmp : WordMatch → WordMatch → Ordering
candidate_quality_cmp a b = cmp_quality_key b a

abbrev pub not_greater : Ordering → Bool
not_greater o = elim o [ Ordering.gt ↦ false | _ ↦ true ]

-- The sorts are stable.
abbrev pub by_quality : List WordMatch → List WordMatch
by_quality = order_by (λ a b. not_greater (candidate_quality_cmp a b))

abbrev pub by_pos : List WordMatch → List WordMatch
by_pos = order_by (λ a b. leb (position_key a) (position_key b))

abbrev pub reversed : {A : Type 0} → List A → List A
reversed [] = []
reversed (x ∷ xs) = reversed xs ++ x ∷ []

-- The candidates that are chosen, and the positions that are seen.
pub record Trimmed : Type 0 where
  pub chosen : List WordMatch
  pub seen_positions : List ℕ

unfoldable pub choose : WordMatch → Trimmed → Trimmed
choose m t = elim (doc_word_pos m) [
  | none ↦ t
  | some p ↦
      if holds p t.seen_positions
      then t
      else record { chosen = t.chosen ++ m ∷ []; seen_positions = p ∷ t.seen_positions }
]

unfoldable pub choose_all : List WordMatch → Trimmed → Trimmed
choose_all [] t = t
choose_all (m ∷ ms) t = choose_all ms (choose m t)

abbrev pub max_candidates_per_query_word : ℕ
max_candidates_per_query_word = 8

-- The last loop, which stops where enough are chosen.
unfoldable pub fill : List WordMatch → Trimmed → Trimmed
fill [] t = t
fill (m ∷ ms) t =
    let rest = fill ms (choose m t) in
    if leb max_candidates_per_query_word (length t.chosen) then t else rest

unfoldable pub trim_match_candidates : List WordMatch → List WordMatch
trim_match_candidates ms =
    let best = by_quality ms in
    let ordered = by_pos ms in
    let start : Trimmed = record { chosen = []; seen_positions = [] } in
    let ends = take 2 ordered ++ take 2 (reversed ordered) in
    if leb (length ms) max_candidates_per_query_word
    then ms
    else (fill best (choose_all ends (choose_all (take 4 best) start))).chosen

unfoldable pub classify_fuzzy_typo : Text → Text → ℕ → TypoClass
classify_fuzzy_typo query target dist = elim (classify_fuzzy_edit query target dist) [
  | FuzzyEditKind.common_transposition ↦ common_transposition
  | FuzzyEditKind.repeated_char_edit ↦ repeated_char_edit
  | FuzzyEditKind.insertion_or_deletion ↦ insertion_or_deletion
  | FuzzyEditKind.substitution ↦ substitution
  | FuzzyEditKind.multi_edit ↦ multi_edit
]

-- The closure of the small document, on one of its tokens.
unfoldable pub classify_match_candidate :
    Unicode → Text → Text → Text → Text → ℕ → PrefixMatch → Option WordMatch
classify_match_candidate u query_word qw raw dw pos prefix_match =
    let found : WordMatchState → Option WordMatch = λ state. some (word_match u query_word state) in
    elim (does_word_match u qw dw raw prefix_match) [
      | WordMatchKind.exact ↦ found (WordMatchState.exact pos)
      | WordMatchKind.prefix _ ↦ found (WordMatchState.prefix pos)
      | WordMatchKind.subword_prefix _ ↦ found (WordMatchState.subword_prefix pos)
      | WordMatchKind.infix_substring _ ↦ found (WordMatchState.infix_substring pos)
      | WordMatchKind.fuzzy dist ↦
          found (WordMatchState.fuzzy pos dist (classify_fuzzy_typo qw dw dist))
      | WordMatchKind.subsequence gaps ↦ found (WordMatchState.subsequence pos gaps)
      | WordMatchKind.none ↦ none
    ]

unfoldable pub classify_fast_match_candidate :
    Unicode → Text → Text → Text → ℕ → PrefixMatch → Option WordMatch
classify_fast_match_candidate u query_word qw raw pos prefix_match =
    elim (does_word_match_fast_raw u qw raw prefix_match) [
      | WordMatchKind.exact ↦ some (word_match u query_word (WordMatchState.exact pos))
      | WordMatchKind.prefix _ ↦ some (word_match u query_word (WordMatchState.prefix pos))
      | _ ↦ none
    ]

-- `filter_map` over the tokens with their positions from one on.
abbrev pub collect_from : {A : Type 0} → (A → ℕ → Option WordMatch) → ℕ → List A → List WordMatch
collect_from f pos [] = []
collect_from f pos (x ∷ xs) =
    let rest = collect_from f (suc pos) xs in elim (f x pos) [ none ↦ rest | some m ↦ m ∷ rest ]

-- The raw and the folded token at each position of a small document.
abbrev pub paired : {A B : Type 0} → List A → List B → List (A × B)
paired (x ∷ xs) (y ∷ ys) = (x, y) ∷ paired xs ys
paired _ _ = []

unfoldable pub collect_match_candidates :
    Unicode → Text → Text → PreparedDocument → PrefixMatch → List WordMatch
collect_match_candidates u query_word qw (small content _ spans folded) prefix_match =
    trim_match_candidates (
      collect_from
        (λ (t, dw) pos.
          classify_match_candidate u query_word qw (raw_token_from content t) dw pos prefix_match)
        0 (paired spans folded))
collect_match_candidates u query_word qw (large_fast content spans mode) prefix_match =
    trim_match_candidates (
      collect_from (λ raw pos. classify_fast_match_candidate u query_word qw raw pos prefix_match) 0
        (fast_tokens (large_fast content spans mode)))

-- The closure's state: the first exact match ends the visit, the first prefix match is kept.
abbrev pub first_fast_match :
    (Text → ℕ → Option WordMatch) → Option WordMatch → ℕ → List Text → Option WordMatch
first_fast_match classify best_prefix pos [] = best_prefix
first_fast_match classify best_prefix pos (raw ∷ tokens) = elim (classify raw pos) [
  | none ↦ first_fast_match classify best_prefix (suc pos) tokens
  | some m ↦ elim m.state [
    | WordMatchState.exact _ ↦ some m
    | WordMatchState.prefix _ ↦
        first_fast_match classify (elim best_prefix [ none ↦ some m | some p ↦ some p ]) (suc pos)
          tokens
    | _ ↦ first_fast_match classify best_prefix (suc pos) tokens
  ]
]

unfoldable pub match_single_query_word_fast :
    Unicode → PreparedDocument → Text → Text → PrefixMatch → WordMatch
match_single_query_word_fast u doc query_word qw prefix_match =
    elim (first_fast_match
      (λ raw pos. classify_fast_match_candidate u query_word qw raw pos prefix_match) none 0
      (fast_tokens doc)) [ some m ↦ m | none ↦ word_match u query_word WordMatchState.unmatched ]
