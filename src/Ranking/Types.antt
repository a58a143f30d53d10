-- ===== src/Ranking/Types.antt =====
-- The ordered score types of purr/src/ranking/policy.rs, and the signals of purr/src/ranking.rs
-- that they are computed from. A derived `Ord` of an enum compares the discriminants.
use clipkitty.Base.{ℕ, Bool, ℤ}

pub data QualityTier : Type 0 where
  no_match : QualityTier
  basic : QualityTier
  dense : QualityTier
  content_prefix : QualityTier

abbrev pub tier_rank : QualityTier → ℕ
tier_rank QualityTier.no_match = 0
tier_rank QualityTier.basic = 1
tier_rank QualityTier.dense = 2
tier_rank QualityTier.content_prefix = 3

pub data RecencyBucket : Type 0 where
  stale : RecencyBucket
  last_quarter : RecencyBucket
  last_month : RecencyBucket
  last_week : RecencyBucket
  last_day : RecencyBucket
  last_hour : RecencyBucket

abbrev pub recency_rank : RecencyBucket → ℕ
recency_rank stale = 0
recency_rank last_quarter = 1
recency_rank last_month = 2
recency_rank last_week = 3
recency_rank last_day = 4
recency_rank last_hour = 5

pub data ExactnessBand : Type 0 where
  fuzzy_only : ExactnessBand
  mixed_zero_cost : ExactnessBand
  all_zero_cost : ExactnessBand
  all_exact : ExactnessBand
  query_substring : ExactnessBand
  anchored_sequence : ExactnessBand
  content_prefix : ExactnessBand

abbrev pub exactness_rank : ExactnessBand → ℕ
exactness_rank ExactnessBand.fuzzy_only = 0
exactness_rank ExactnessBand.mixed_zero_cost = 1
exactness_rank ExactnessBand.all_zero_cost = 2
exactness_rank ExactnessBand.all_exact = 3
exactness_rank ExactnessBand.query_substring = 4
exactness_rank ExactnessBand.anchored_sequence = 5
exactness_rank ExactnessBand.content_prefix = 6

pub data PrefixPreferenceBand : Type 0 where
  none : PrefixPreferenceBand
  stripped_content_prefix : PrefixPreferenceBand
  raw_query_contains : PrefixPreferenceBand
  raw_query_content_prefix : PrefixPreferenceBand

abbrev pub preference_rank : PrefixPreferenceBand → ℕ
preference_rank PrefixPreferenceBand.none = 0
preference_rank stripped_content_prefix = 1
preference_rank raw_query_contains = 2
preference_rank raw_query_content_prefix = 3

pub data MatchClassBand : Type 0 where
  none : MatchClassBand
  subsequence : MatchClassBand
  multi_edit_typo : MatchClassBand
  weak_typo : MatchClassBand
  infix_substring : MatchClassBand
  common_typo : MatchClassBand
  subword_prefix : MatchClassBand
  prefix : MatchClassBand
  exact : MatchClassBand

abbrev pub class_rank : MatchClassBand → ℕ
class_rank MatchClassBand.none = 0
class_rank MatchClassBand.subsequence = 1
class_rank multi_edit_typo = 2
class_rank weak_typo = 3
class_rank MatchClassBand.infix_substring = 4
class_rank common_typo = 5
class_rank MatchClassBand.subword_prefix = 6
class_rank MatchClassBand.prefix = 7
class_rank MatchClassBand.exact = 8

pub data CoverageBand : Type 0 where
  none : CoverageBand
  weak : CoverageBand
  adequate : CoverageBand
  strong : CoverageBand
  full : CoverageBand

abbrev pub coverage_rank : CoverageBand → ℕ
coverage_rank CoverageBand.none = 0
coverage_rank weak = 1
coverage_rank adequate = 2
coverage_rank strong = 3
coverage_rank full = 4

pub data PhraseShapeBand : Type 0 where
  none : PhraseShapeBand
  scattered : PhraseShapeBand
  forward : PhraseShapeBand
  tight_forward : PhraseShapeBand
  contiguous : PhraseShapeBand
  query_substring : PhraseShapeBand
  anchored_sequence : PhraseShapeBand
  content_prefix : PhraseShapeBand

abbrev pub phrase_rank : PhraseShapeBand → ℕ
phrase_rank PhraseShapeBand.none = 0
phrase_rank scattered = 1
phrase_rank forward = 2
phrase_rank tight_forward = 3
phrase_rank contiguous = 4
phrase_rank PhraseShapeBand.query_substring = 5
phrase_rank PhraseShapeBand.anchored_sequence = 6
phrase_rank PhraseShapeBand.content_prefix = 7

pub record QualityDetail : Type 0 where
  pub prefix_preference : PrefixPreferenceBand
  pub coverage : CoverageBand
  pub phrase_shape : PhraseShapeBand
  pub match_class : MatchClassBand

pub record BucketScore : Type 0 where
  pub quality_tier : QualityTier
  pub recency_bucket : RecencyBucket
  pub quality_detail : QualityDetail
  pub recency : ℤ

pub data LiteralMatch : Type 0 where
  none : LiteralMatch
  substring : LiteralMatch
  content_prefix : LiteralMatch

pub record ExactnessSignals : Type 0 where
  pub literal_match : LiteralMatch
  pub content_prefix : Bool
  pub anchored_sequence : Bool
  pub query_substring : Bool
  pub all_exact : Bool
  pub all_zero_cost : Bool
  pub any_zero_cost : Bool

pub record MatchSpanStats : Type 0 where
  pub matched_count : ℕ
  pub span : ℕ
  pub in_sequence : Bool
  pub all_matched : Bool
