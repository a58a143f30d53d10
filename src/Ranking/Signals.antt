-- ===== src/Ranking/Signals.antt =====
-- The quality signals of an alignment, of purr/src/ranking.rs, and the exactness signals of
-- purr/src/ranking/alignment.rs. A sum of weights that does not fit aborts the
-- program; here it is the wrapped number, and theorems assume that it fits.
pub mod Weights
pub mod ClassScore
use clipkitty.Base.{
  ℕ, zero, suc, ◌+◌, ◌-◌, ◌*◌, ◌/◌, ◌%◌, ◌^◌, max, min, ltb, leb, ◌==◌, Bool, true, false, ◌&&◌,
  not, Option, none, some, List, [], ◌∷◌, length, map, keep, all, any, if◌then◌else◌,
}
use clipkitty.Ranking.Types.{
  LiteralMatch, ExactnessSignals, MatchSpanStats, QualityTier, QualityDetail,
}
use clipkitty.Ranking.Matches.{
  WordMatch, WordMatchState, doc_word_pos, edit_distance, is_matched, is_exact, match_class_score,
  matched_weight, saturating_add_u8,
}
use clipkitty.Ranking.Policy.{compute_quality_tier, compute_quality_detail}

abbrev pub matched_words : List WordMatch → List WordMatch
matched_words = keep is_matched

-- The positions of the matched words, in the order of the query.
abbrev pub positions : List WordMatch → List ℕ
positions [] = []
positions (m ∷ ms) =
    let rest = positions ms in elim (doc_word_pos m) [ none ↦ rest | some p ↦ p ∷ rest ]

-- `Iterator::min` and `Iterator::max` with `unwrap_or(0)`.
abbrev pub min_pos : List ℕ → ℕ
min_pos [] = 0
min_pos (p ∷ ps) = elim ps [ [] ↦ p | _ ∷ _ ↦ min p (min_pos ps) ]

abbrev pub max_pos : List ℕ → ℕ
max_pos [] = 0
max_pos (p ∷ ps) = max p (max_pos ps)

-- The loop over the positions: each is after the last one.
abbrev pub ascending_from : ℕ → List ℕ → Bool
ascending_from prev [] = true
ascending_from prev (p ∷ ps) = ltb prev p && ascending_from p ps

abbrev pub ascending : List ℕ → Bool
ascending [] = true
ascending (p ∷ ps) = ascending_from p ps

unfoldable pub compute_match_span_stats : List WordMatch → Option MatchSpanStats
compute_match_span_stats ms = elim (matched_words ms) [
  | [] ↦ none
  | _ ∷ _ ↦ some record {
    matched_count = length (matched_words ms);
    span = max_pos (positions ms) - min_pos (positions ms) + 1;
    in_sequence = ascending (positions ms);
    all_matched = all is_matched ms;
  }
]

unfoldable pub sum_u16 : List ℕ → ℕ
sum_u16 [] = 0
sum_u16 (n ∷ ns) = (n + sum_u16 ns) % 2 ^ 16

unfoldable pub total_query_weight : List WordMatch → ℕ
unfolding sum_u16
total_query_weight ms = sum_u16 (map (λ m. m.query_weight) ms)

unfoldable pub words_matched_weight : List WordMatch → ℕ
unfolding sum_u16
words_matched_weight ms = sum_u16 (map matched_weight ms)

-- The loop's three variables, over the matched words.
abbrev pub class_weight : List WordMatch → ℕ
class_weight [] = 0
class_weight (m ∷ ms) = (max m.query_weight 1 + class_weight ms) % 2 ^ 32

abbrev pub class_sum : List WordMatch → ℕ
class_sum [] = 0
class_sum (m ∷ ms) = (max m.query_weight 1 * match_class_score m.state + class_sum ms) % 2 ^ 32

abbrev pub worst_class : List WordMatch → Option ℕ
worst_class [] = none
worst_class (m ∷ ms) = elim (worst_class ms) [
  | none ↦ some (match_class_score m.state)
  | some worst ↦ some (min (match_class_score m.state) worst)
]

abbrev pub worst_case_slack : ℕ
worst_case_slack = 64

unfoldable pub compute_match_class_score : List WordMatch → ℕ
compute_match_class_score all_words =
    let ms = matched_words all_words in
    let weight = class_weight ms in
    elim (worst_class ms) [
      | none ↦ 0
      | some worst ↦
          min (if weight == 0 then worst else class_sum ms / weight % 2 ^ 8)
            (saturating_add_u8 worst worst_case_slack)
    ]

pub record QualitySignals : Type 0 where
  pub query_word_count : ℕ
  pub query_weight : ℕ  -- total_query_weight
  pub matched_weight : ℕ  -- words_matched_weight
  pub prefix_preference_score : ℕ
  pub exactness : ExactnessSignals
  pub class_score : ℕ  -- match_class_score
  pub span_stats : Option MatchSpanStats

unfoldable pub quality_tier_of : QualitySignals → QualityTier
quality_tier_of q =
    compute_quality_tier q.query_word_count q.query_weight q.matched_weight q.exactness q.span_stats

unfoldable pub quality_detail_of : QualitySignals → QualityDetail
quality_detail_of q =
    compute_quality_detail q.prefix_preference_score q.class_score q.query_weight q.matched_weight
      q.exactness q.span_stats

unfoldable pub build_quality_signals : List WordMatch → ℕ → ℕ → ExactnessSignals → QualitySignals
build_quality_signals ms total preference exactness = record {
  query_word_count = length ms;
  query_weight = total;
  matched_weight = words_matched_weight ms;
  prefix_preference_score = preference;
  exactness = exactness;
  class_score = compute_match_class_score ms;
  span_stats = compute_match_span_stats ms;
}

abbrev pub no_signals : ExactnessSignals
no_signals = record {
  literal_match = LiteralMatch.none;
  content_prefix = false;
  anchored_sequence = false;
  query_substring = false;
  all_exact = false;
  all_zero_cost = false;
  any_zero_cost = false;
}

abbrev pub is_zero_cost : WordMatch → Bool
is_zero_cost m = edit_distance m == 0

unfoldable pub alignment_zero_cost_signals : List WordMatch → ExactnessSignals
alignment_zero_cost_signals ms = record no_signals {
  all_exact = all is_exact (matched_words ms);
  all_zero_cost = all is_zero_cost (matched_words ms);
  any_zero_cost = any is_zero_cost (matched_words ms);
}

-- `windows(2)`, with a test on the two positions that fails where one is missing.
abbrev pub pair_test : (ℕ → ℕ → Bool) → Option ℕ → Option ℕ → Bool
pair_test test none _ = false
pair_test test (some _) none = false
pair_test test (some left) (some right) = test left right

abbrev pub adjacent_pairs : (ℕ → ℕ → Bool) → List WordMatch → Bool
adjacent_pairs test [] = true
adjacent_pairs test (a ∷ ms) = elim ms [
  | [] ↦ true
  | b ∷ _ ↦ pair_test test (doc_word_pos a) (doc_word_pos b) && adjacent_pairs test ms
]

abbrev pub follows : ℕ → ℕ → Bool
follows left right = ltb left right

abbrev pub follows_directly : ℕ → ℕ → Bool
follows_directly left right = right == left + 1

unfoldable pub alignment_exactness_signals : List WordMatch → ExactnessSignals
alignment_exactness_signals ms =
    let count = length (matched_words ms) in
    if count == 0
    then no_signals
    else if ltb count 2
    then alignment_zero_cost_signals ms
    else if all is_matched ms && adjacent_pairs follows ms
    then (if adjacent_pairs follows_directly ms
        then record (alignment_zero_cost_signals ms) { query_substring = true }
        else record no_signals {
          all_zero_cost = all is_zero_cost ms;
          any_zero_cost = any is_zero_cost ms;
          all_exact = all is_exact ms;
        })
    else alignment_zero_cost_signals ms

unfoldable pub compute_alignment_quality_signals : List WordMatch → ℕ → QualitySignals
compute_alignment_quality_signals ms total =
    build_quality_signals ms total 0 (alignment_exactness_signals ms)

-- `[word_match]` at the start of the document.
unfoldable pub has_single_word_content_prefix : List WordMatch → Bool
has_single_word_content_prefix (m ∷ []) = elim m.state [
  | WordMatchState.exact p ↦ p == 0
  | WordMatchState.prefix p ↦ p == 0
  | _ ↦ false
]
has_single_word_content_prefix _ = false
