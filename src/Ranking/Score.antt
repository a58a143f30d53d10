-- ===== src/Ranking/Score.antt =====
-- The bucket score of a document, of purr/src/ranking.rs.
pub mod Laws
pub mod Fits
use clipkitty.Base.{
  ℕ, zero, suc, ltb, ◌==◌, Bool, true, false, ◌&&◌, ◌||◌, not, ℤ, Option, none, some, List, [], ◌∷◌,
  length, map, all, any, is_empty, if◌then◌else◌,
}
use clipkitty.Ranking.Types.{
  QualityTier, RecencyBucket, PrefixPreferenceBand, CoverageBand, PhraseShapeBand, MatchClassBand,
  QualityDetail, BucketScore, LiteralMatch, ExactnessSignals,
}
use clipkitty.Ranking.Policy.{compute_recency_bucket}
use clipkitty.Ranking.Chars.{Unicode}
use clipkitty.Ranking.Matches.{WordMatch, WordMatchState, word_match, is_matched, is_exact}
use clipkitty.Ranking.Matching.{prefix_match_for_query_word}
use clipkitty.Ranking.Signals.{
  QualitySignals, quality_tier_of, quality_detail_of, build_quality_signals, total_query_weight,
  matched_words, no_signals, is_zero_cost, adjacent_pairs, follows, alignment_exactness_signals,
  has_single_word_content_prefix,
}
use clipkitty.Ranking.Document.{
  PreparedQuery, PreparedQueryToken, PreparedDocument, PrefixPreferenceQuery, is_fast_mode,
  last_word_is_prefix, has_literal_sequence, starts_with_case_insensitive,
  contains_case_insensitive, compute_prefix_preference_score,
}
use clipkitty.Ranking.Candidates.{collect_match_candidates, match_single_query_word_fast}
use clipkitty.Ranking.Alignment.{choose_best_alignment}

-- The first word's match is exact or a prefix at the start of the document.
abbrev pub is_anchored : List WordMatch → Bool
is_anchored [] = false
is_anchored (m ∷ _) = elim m.state [
  | WordMatchState.exact p ↦ p == 0
  | WordMatchState.prefix p ↦ p == 0
  | _ ↦ false
]

abbrev pub literal_match_of : Bool → Bool → Bool → LiteralMatch
literal_match_of literal content_prefix query_substring =
    if literal && content_prefix
    then LiteralMatch.content_prefix
    else if literal && query_substring
    then LiteralMatch.substring
    else LiteralMatch.none

unfoldable pub compute_exactness_signals :
    Unicode → PreparedDocument → PreparedQuery → List WordMatch → ExactnessSignals
compute_exactness_signals u doc query ms =
    let given = not (is_empty query.folded_text) in
    let prefix = given && starts_with_case_insensitive u doc query.folded_text in
    let substring = given && contains_case_insensitive u doc query.folded_text in
    let literal = literal_match_of (has_literal_sequence u query) prefix substring in
    let matched = matched_words ms in
    if is_empty matched
    then record no_signals {
      literal_match = literal;
      content_prefix = prefix;
      query_substring = substring;
    }
    else record {
      literal_match = literal;
      content_prefix = prefix;
      anchored_sequence =
          all is_matched ms && ltb 1 (length ms) && is_anchored ms && adjacent_pairs follows ms;
      query_substring = substring;
      all_exact = all is_exact matched;
      all_zero_cost = all is_zero_cost matched;
      any_zero_cost = any is_zero_cost matched;
    }

unfoldable pub compute_fast_quality_signals :
    Unicode → PreparedDocument → PreparedQuery → ℕ → List WordMatch → QualitySignals
compute_fast_quality_signals u doc query preference ms =
    let exactness =
      if has_literal_sequence u query
      then compute_exactness_signals u doc query ms
      else alignment_exactness_signals ms in
    build_quality_signals ms (total_query_weight ms) preference record exactness {
      content_prefix = exactness.content_prefix || has_single_word_content_prefix ms;
    }

pub data DocumentQualityPlan : Type 0 where
  fast : QualitySignals → DocumentQualityPlan
  detailed : ℕ → DocumentQualityPlan  -- prefix_preference_score

unfoldable pub plan_document_quality_signals :
    Unicode
    → PreparedDocument
    → PreparedQuery
    → Option PrefixPreferenceQuery
    → List WordMatch
    → DocumentQualityPlan
plan_document_quality_signals u doc query preference ms =
    let score = compute_prefix_preference_score u doc preference in
    if is_fast_mode doc
    then fast (compute_fast_quality_signals u doc query score ms)
    else detailed score

unfoldable pub compute_document_quality_signals :
    Unicode
    → PreparedDocument
    → PreparedQuery
    → Option PrefixPreferenceQuery
    → List WordMatch
    → QualitySignals
compute_document_quality_signals u doc query preference ms =
    elim (plan_document_quality_signals u doc query preference ms) [
      | fast signals ↦ signals
      | detailed score ↦
          build_quality_signals ms (total_query_weight ms) score
            (compute_exactness_signals u doc query ms)
    ]

abbrev pub default_match : Unicode → PreparedQueryToken → WordMatch
default_match u token = word_match u token.raw WordMatchState.unmatched

-- The candidates of each query word, from the index of the first.
abbrev pub candidate_lists_from :
    Unicode → PreparedDocument → PreparedQuery → ℕ → List PreparedQueryToken → List (List WordMatch)
candidate_lists_from u doc query index [] = []
candidate_lists_from u doc query index (token ∷ tokens) =
    collect_match_candidates u token.raw token.folded doc
      (prefix_match_for_query_word (length query.tokens) index (last_word_is_prefix u query))
    ∷ candidate_lists_from u doc query (suc index) tokens

pub data MatchQueryPlan : Type 0 where
  single_fast : WordMatch → MatchQueryPlan
  aligned : List WordMatch → List (List WordMatch) → MatchQueryPlan  -- defaults, candidate_lists

-- A query of one word on a document in the fast mode.
abbrev pub single_token : PreparedDocument → List PreparedQueryToken → Option PreparedQueryToken
single_token doc (token ∷ []) = if is_fast_mode doc then some token else none
single_token doc _ = none

unfoldable pub build_match_query_plan : Unicode → PreparedDocument → PreparedQuery → MatchQueryPlan
build_match_query_plan u doc query = elim (single_token doc query.tokens) [
  | some token ↦ single_fast (
      match_single_query_word_fast u doc token.raw token.folded
        (prefix_match_for_query_word 1 0 (last_word_is_prefix u query)))
  | none ↦
      aligned (map (default_match u) query.tokens) (candidate_lists_from u doc query 0 query.tokens)
]

unfoldable pub match_query_words : Unicode → PreparedDocument → PreparedQuery → List WordMatch
match_query_words u doc query = elim (build_match_query_plan u doc query) [
  | single_fast m ↦ m ∷ []
  | aligned defaults lists ↦ choose_best_alignment lists defaults
]

pub record ScoringContext : Type 0 where
  pub document : PreparedDocument
  pub query : PreparedQuery
  pub prefix_preference : Option PrefixPreferenceQuery
  pub timestamp : ℤ
  pub now : ℤ

-- `QualityDetail::default`.
abbrev pub default_detail : QualityDetail
default_detail = record {
  prefix_preference = PrefixPreferenceBand.none;
  coverage = CoverageBand.none;
  phrase_shape = PhraseShapeBand.none;
  match_class = MatchClassBand.none;
}

pub record RankingBreakdown : Type 0 where
  pub quality_signals : QualitySignals
  pub recency_bucket : RecencyBucket

unfoldable pub into_bucket_score : RankingBreakdown → ℤ → BucketScore
into_bucket_score r timestamp = record {
  quality_tier = quality_tier_of r.quality_signals;
  recency_bucket = r.recency_bucket;
  quality_detail = quality_detail_of r.quality_signals;
  recency = timestamp;
}

unfoldable pub build_ranking_breakdown : Unicode → ScoringContext → RankingBreakdown
build_ranking_breakdown u ctx = record {
  quality_signals =
      compute_document_quality_signals u ctx.document ctx.query ctx.prefix_preference
        (match_query_words u ctx.document ctx.query);
  recency_bucket = compute_recency_bucket ctx.timestamp ctx.now;
}

unfoldable pub compute_bucket_score : Unicode → ScoringContext → BucketScore
compute_bucket_score u ctx =
    if is_empty ctx.query.tokens
    then record {
      quality_tier = QualityTier.no_match;
      recency_bucket = compute_recency_bucket ctx.timestamp ctx.now;
      quality_detail = default_detail;
      recency = ctx.timestamp;
    }
    else into_bucket_score (build_ranking_breakdown u ctx) ctx.timestamp
