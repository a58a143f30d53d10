-- ===== src/Ranking/Policy.antt =====
-- The quality tier, the detail bands and the recency bucket of purr/src/ranking/policy.rs.
pub mod Bands
use clipkitty.Base.{
  ℕ, zero, suc, ◌+◌, ◌*◌, ◌/◌, ◌%◌, ◌^◌, leb, ltb, ◌==◌, Bool, true, false, ◌&&◌, ◌||◌, not, ℤ, pos,
  negsuc, sub_i64, pos_part, Option, none, some, if◌then◌else◌,
}
use clipkitty.Ranking.Types.{
  QualityTier, RecencyBucket, stale, last_quarter, last_month, last_week, last_day, last_hour,
  ExactnessBand, exactness_rank, PrefixPreferenceBand, stripped_content_prefix, raw_query_contains,
  raw_query_content_prefix, MatchClassBand, multi_edit_typo, weak_typo, common_typo, CoverageBand,
  weak, adequate, strong, full, PhraseShapeBand, scattered, forward, tight_forward, contiguous,
  QualityDetail, LiteralMatch, ExactnessSignals, MatchSpanStats,
}

unfoldable pub band : ExactnessSignals → ExactnessBand
band s =
    if s.content_prefix
    then ExactnessBand.content_prefix
    else if s.anchored_sequence
    then ExactnessBand.anchored_sequence
    else if s.query_substring
    then ExactnessBand.query_substring
    else if s.all_exact
    then ExactnessBand.all_exact
    else if s.all_zero_cost
    then ExactnessBand.all_zero_cost
    else if s.any_zero_cost
    then ExactnessBand.mixed_zero_cost
    else ExactnessBand.fuzzy_only

-- The percentage of two `u16` weights, whose product with 100 is a `u32`, cast to a `u8`.
unfoldable pub coverage_pct : ℕ → ℕ → ℕ
coverage_pct total matched = matched * 100 / total % 2 ^ 8

abbrev pub dense_forward : MatchSpanStats → Bool
dense_forward s = leb 2 s.matched_count && (s.in_sequence && leb s.span (s.matched_count + 1))

abbrev pub compact_full_match : MatchSpanStats → Bool
compact_full_match s = s.all_matched && (s.in_sequence && leb s.span (s.matched_count * 2))

-- The tests on the matched words, after the literal match is ruled out.
unfoldable pub tier_of_stats : ℕ → ExactnessSignals → MatchSpanStats → QualityTier
tier_of_stats pct e s =
    if s.all_matched && e.content_prefix
    then QualityTier.content_prefix
    else if (leb 60 pct && dense_forward s)
        || (leb (exactness_rank ExactnessBand.query_substring) (exactness_rank (band e))
            && compact_full_match s)
    then QualityTier.dense
    else if leb 60 pct || s.all_matched
    then QualityTier.basic
    else QualityTier.no_match

unfoldable pub tier_without_literal :
    ℕ → ℕ → ℕ → ExactnessSignals → Option MatchSpanStats → QualityTier
tier_without_literal words total matched e stats =
    if matched == 0
    then QualityTier.no_match
    else if ltb words 2
    then QualityTier.basic
    else elim stats [
      | none ↦ QualityTier.no_match
      | some s ↦ tier_of_stats (if total == 0 then 100 else coverage_pct total matched) e s
    ]

unfoldable pub compute_quality_tier :
    ℕ → ℕ → ℕ → ExactnessSignals → Option MatchSpanStats → QualityTier
compute_quality_tier words total matched e stats = elim e.literal_match [
  | LiteralMatch.content_prefix ↦ QualityTier.content_prefix
  | LiteralMatch.substring ↦ QualityTier.dense
  | LiteralMatch.none ↦ tier_without_literal words total matched e stats
]

unfoldable pub compute_prefix_preference_band : ℕ → PrefixPreferenceBand
compute_prefix_preference_band score =
    if score == 0
    then PrefixPreferenceBand.none
    else if score == 1
    then stripped_content_prefix
    else if score == 2
    then raw_query_contains
    else raw_query_content_prefix

unfoldable pub compute_match_class_band : ℕ → MatchClassBand
compute_match_class_band score =
    if score == 0
    then MatchClassBand.none
    else if leb score 107
    then MatchClassBand.subsequence
    else if leb score 131
    then multi_edit_typo
    else if leb score 167
    then weak_typo
    else if leb score 183
    then MatchClassBand.infix_substring
    else if leb score 215
    then common_typo
    else if leb score 231
    then MatchClassBand.subword_prefix
    else if leb score 247
    then MatchClassBand.prefix
    else MatchClassBand.exact

-- The match on the percentage.
unfoldable pub band_of_pct : ℕ → CoverageBand
band_of_pct pct =
    if pct == 0
    then CoverageBand.none
    else if leb pct 59
    then weak
    else if leb pct 79
    then adequate
    else if leb pct 94
    then strong
    else full

unfoldable pub compute_coverage_band : ℕ → ℕ → CoverageBand
compute_coverage_band total matched =
    if matched == 0
    then CoverageBand.none
    else if total == 0
    then full
    else band_of_pct (coverage_pct total matched)

-- The bands of the positions of the matched words.
unfoldable pub shape_of_stats : Option MatchSpanStats → PhraseShapeBand
shape_of_stats none = PhraseShapeBand.none
shape_of_stats (some s) =
    if ltb s.matched_count 2
    then PhraseShapeBand.none
    else if not s.in_sequence
    then scattered
    else if s.span == s.matched_count
    then contiguous
    else if leb s.span (s.matched_count * 2)
    then tight_forward
    else forward

abbrev pub matched_count_of : Option MatchSpanStats → ℕ
matched_count_of none = 0
matched_count_of (some s) = s.matched_count

abbrev pub is_substring : LiteralMatch → Bool
is_substring LiteralMatch.none = false
is_substring LiteralMatch.substring = true
is_substring LiteralMatch.content_prefix = false

unfoldable pub compute_phrase_shape_band :
    ExactnessSignals → Option MatchSpanStats → PhraseShapeBand
compute_phrase_shape_band e stats =
    let count = matched_count_of stats in
    elim (band e) [
      | ExactnessBand.content_prefix ↦ PhraseShapeBand.content_prefix
      | ExactnessBand.anchored_sequence ↦
          if leb 2 count then PhraseShapeBand.anchored_sequence else shape_of_stats stats
      | ExactnessBand.query_substring ↦
          if is_substring e.literal_match || leb 2 count
          then PhraseShapeBand.query_substring
          else shape_of_stats stats
      | _ ↦ shape_of_stats stats
    ]

unfoldable pub compute_quality_detail :
    ℕ → ℕ → ℕ → ℕ → ExactnessSignals → Option MatchSpanStats → QualityDetail
compute_quality_detail preference class total matched e stats = record {
  prefix_preference = compute_prefix_preference_band preference;
  coverage = compute_coverage_band total matched;
  phrase_shape = compute_phrase_shape_band e stats;
  match_class = compute_match_class_band class;
}

abbrev pub last_hour_max_age_secs : ℕ
last_hour_max_age_secs = 3600

abbrev pub last_day_max_age_secs : ℕ
last_day_max_age_secs = 86400

abbrev pub last_week_max_age_secs : ℕ
last_week_max_age_secs = 7 * last_day_max_age_secs

abbrev pub last_month_max_age_secs : ℕ
last_month_max_age_secs = 30 * last_day_max_age_secs

abbrev pub last_quarter_max_age_secs : ℕ
last_quarter_max_age_secs = 90 * last_day_max_age_secs

-- The match on the age.
unfoldable pub bucket_of_age : ℕ → RecencyBucket
bucket_of_age age =
    if leb age last_hour_max_age_secs
    then last_hour
    else if leb age last_day_max_age_secs
    then last_day
    else if leb age last_week_max_age_secs
    then last_week
    else if leb age last_month_max_age_secs
    then last_month
    else if leb age last_quarter_max_age_secs
    then last_quarter
    else stale

-- `pos_part` is `max(0)`.
unfoldable pub compute_recency_bucket : ℤ → ℤ → RecencyBucket
compute_recency_bucket timestamp now = bucket_of_age (pos_part (sub_i64 now timestamp))
