-- ===== src/Ranking/ScoreOrder.antt =====
-- The order of `BucketScore` in purr/src/ranking/policy.rs is total and transitive.
use clipkitty.Base.{ℕ, zero, suc, List, [], ◌∷◌, ℤ, ◌≡◌, refl, ◌⊎◌, inl, inr, arith}
use Prim.Native.Nat.{compare, Ordering}
use clipkitty.Ranking.Types.{
  QualityTier, RecencyBucket, PrefixPreferenceBand, CoverageBand, PhraseShapeBand, MatchClassBand,
  QualityDetail, BucketScore, tier_rank, recency_rank, preference_rank, coverage_rank, phrase_rank,
  class_rank,
}
use clipkitty.Ranking.Order.{
  cmp_detail, cmp_score, IsOrder, lex-IsOrder, key-IsOrder, compare-IsOrder, cmp_i64-IsOrder,
  Ordering-cases,
}

-- The entry of a list at an index, a default past its end.
abbrev entry : {A : Type 0} → A → List A → ℕ → A
entry d [] n = d
entry d (x ∷ xs) zero = x
entry d (x ∷ xs) (suc n) = entry d xs n

abbrev tier_of : ℕ → QualityTier
tier_of =
    entry QualityTier.no_match (
      QualityTier.no_match ∷ QualityTier.basic ∷ QualityTier.dense ∷ QualityTier.content_prefix
      ∷ [])

tier_of-tier_rank : (x : QualityTier) → tier_of (tier_rank x) ≡ x
tier_of-tier_rank QualityTier.no_match = refl
tier_of-tier_rank QualityTier.basic = refl
tier_of-tier_rank QualityTier.dense = refl
tier_of-tier_rank QualityTier.content_prefix = refl

pub tier-IsOrder : IsOrder (λ a b. compare (tier_rank a) (tier_rank b))
tier-IsOrder = key-IsOrder tier_rank tier_of tier_of-tier_rank compare-IsOrder

abbrev recency_of : ℕ → RecencyBucket
recency_of = entry RecencyBucket.stale (
    RecencyBucket.stale ∷ RecencyBucket.last_quarter ∷ RecencyBucket.last_month
    ∷ RecencyBucket.last_week ∷ RecencyBucket.last_day ∷ RecencyBucket.last_hour ∷ [])

recency_of-recency_rank : (x : RecencyBucket) → recency_of (recency_rank x) ≡ x
recency_of-recency_rank RecencyBucket.stale = refl
recency_of-recency_rank RecencyBucket.last_quarter = refl
recency_of-recency_rank RecencyBucket.last_month = refl
recency_of-recency_rank RecencyBucket.last_week = refl
recency_of-recency_rank RecencyBucket.last_day = refl
recency_of-recency_rank RecencyBucket.last_hour = refl

recency-IsOrder : IsOrder (λ a b. compare (recency_rank a) (recency_rank b))
recency-IsOrder = key-IsOrder recency_rank recency_of recency_of-recency_rank compare-IsOrder

abbrev preference_of : ℕ → PrefixPreferenceBand
preference_of = entry PrefixPreferenceBand.none (
    PrefixPreferenceBand.none ∷ PrefixPreferenceBand.stripped_content_prefix
    ∷ PrefixPreferenceBand.raw_query_contains ∷ PrefixPreferenceBand.raw_query_content_prefix ∷ [])

preference_of-preference_rank : (x : PrefixPreferenceBand) → preference_of (preference_rank x) ≡ x
preference_of-preference_rank PrefixPreferenceBand.none = refl
preference_of-preference_rank PrefixPreferenceBand.stripped_content_prefix = refl
preference_of-preference_rank PrefixPreferenceBand.raw_query_contains = refl
preference_of-preference_rank PrefixPreferenceBand.raw_query_content_prefix = refl

preference-IsOrder : IsOrder (λ a b. compare (preference_rank a) (preference_rank b))
preference-IsOrder =
    key-IsOrder preference_rank preference_of preference_of-preference_rank compare-IsOrder

abbrev class_of : ℕ → MatchClassBand
class_of = entry MatchClassBand.none (
    MatchClassBand.none ∷ MatchClassBand.subsequence ∷ MatchClassBand.multi_edit_typo
    ∷ MatchClassBand.weak_typo ∷ MatchClassBand.infix_substring ∷ MatchClassBand.common_typo
    ∷ MatchClassBand.subword_prefix ∷ MatchClassBand.prefix ∷ MatchClassBand.exact ∷ [])

class_of-class_rank : (x : MatchClassBand) → class_of (class_rank x) ≡ x
class_of-class_rank MatchClassBand.none = refl
class_of-class_rank MatchClassBand.subsequence = refl
class_of-class_rank MatchClassBand.multi_edit_typo = refl
class_of-class_rank MatchClassBand.weak_typo = refl
class_of-class_rank MatchClassBand.infix_substring = refl
class_of-class_rank MatchClassBand.common_typo = refl
class_of-class_rank MatchClassBand.subword_prefix = refl
class_of-class_rank MatchClassBand.prefix = refl
class_of-class_rank MatchClassBand.exact = refl

class-IsOrder : IsOrder (λ a b. compare (class_rank a) (class_rank b))
class-IsOrder = key-IsOrder class_rank class_of class_of-class_rank compare-IsOrder

abbrev coverage_of : ℕ → CoverageBand
coverage_of = entry CoverageBand.none (
    CoverageBand.none ∷ CoverageBand.weak ∷ CoverageBand.adequate ∷ CoverageBand.strong
    ∷ CoverageBand.full ∷ [])

coverage_of-coverage_rank : (x : CoverageBand) → coverage_of (coverage_rank x) ≡ x
coverage_of-coverage_rank CoverageBand.none = refl
coverage_of-coverage_rank CoverageBand.weak = refl
coverage_of-coverage_rank CoverageBand.adequate = refl
coverage_of-coverage_rank CoverageBand.strong = refl
coverage_of-coverage_rank CoverageBand.full = refl

coverage-IsOrder : IsOrder (λ a b. compare (coverage_rank a) (coverage_rank b))
coverage-IsOrder = key-IsOrder coverage_rank coverage_of coverage_of-coverage_rank compare-IsOrder

abbrev phrase_of : ℕ → PhraseShapeBand
phrase_of = entry PhraseShapeBand.none (
    PhraseShapeBand.none ∷ PhraseShapeBand.scattered ∷ PhraseShapeBand.forward
    ∷ PhraseShapeBand.tight_forward ∷ PhraseShapeBand.contiguous ∷ PhraseShapeBand.query_substring
    ∷ PhraseShapeBand.anchored_sequence ∷ PhraseShapeBand.content_prefix ∷ [])

phrase_of-phrase_rank : (x : PhraseShapeBand) → phrase_of (phrase_rank x) ≡ x
phrase_of-phrase_rank PhraseShapeBand.none = refl
phrase_of-phrase_rank PhraseShapeBand.scattered = refl
phrase_of-phrase_rank PhraseShapeBand.forward = refl
phrase_of-phrase_rank PhraseShapeBand.tight_forward = refl
phrase_of-phrase_rank PhraseShapeBand.contiguous = refl
phrase_of-phrase_rank PhraseShapeBand.query_substring = refl
phrase_of-phrase_rank PhraseShapeBand.anchored_sequence = refl
phrase_of-phrase_rank PhraseShapeBand.content_prefix = refl

phrase-IsOrder : IsOrder (λ a b. compare (phrase_rank a) (phrase_rank b))
phrase-IsOrder = key-IsOrder phrase_rank phrase_of phrase_of-phrase_rank compare-IsOrder

abbrev DetailKey : Type 0
DetailKey = PrefixPreferenceBand × (CoverageBand × (PhraseShapeBand × MatchClassBand))

abbrev detail_key : QualityDetail → DetailKey
detail_key d = (d.prefix_preference, (d.coverage, (d.phrase_shape, d.match_class)))

abbrev detail_of : DetailKey → QualityDetail
detail_of (p, (c, (s, m))) = record {
  prefix_preference = p;
  coverage = c;
  phrase_shape = s;
  match_class = m;
}

pub cmp_detail-IsOrder : IsOrder cmp_detail
unfolding cmp_detail
cmp_detail-IsOrder =
    key-IsOrder detail_key detail_of (λ d. refl)
      (lex-IsOrder preference-IsOrder
        (lex-IsOrder coverage-IsOrder (lex-IsOrder phrase-IsOrder class-IsOrder)))

abbrev ScoreKey : Type 0
ScoreKey = QualityTier × (RecencyBucket × (QualityDetail × ℤ))

abbrev score_key : BucketScore → ScoreKey
score_key s = (s.quality_tier, (s.recency_bucket, (s.quality_detail, s.recency)))

abbrev score_of : ScoreKey → BucketScore
score_of (t, (b, (d, r))) = record {
  quality_tier = t;
  recency_bucket = b;
  quality_detail = d;
  recency = r;
}

cmp_score-IsOrder : IsOrder cmp_score
unfolding cmp_score
cmp_score-IsOrder =
    key-IsOrder score_key score_of (λ s. refl)
      (lex-IsOrder tier-IsOrder
        (lex-IsOrder recency-IsOrder (lex-IsOrder cmp_detail-IsOrder cmp_i64-IsOrder)))

-- Of two scores that are not equal, exactly one is below the other: one comparison says less, and
-- the comparison the other way round says greater.
pub cmp_score_total :
    (a b : BucketScore)
    → (a ≡ b)
      ⊎ ((cmp_score a b ≡ Ordering.lt) × (cmp_score b a ≡ Ordering.gt))
      ⊎ ((cmp_score a b ≡ Ordering.gt) × (cmp_score b a ≡ Ordering.lt))
cmp_score_total a b =
    let s = cmp_score-IsOrder.swap a b in
    elim (Ordering-cases (cmp_score a b)) [
      | inl e ↦ inr (inl (e, ground arith))
      | inr (inl e) ↦ inl (cmp_score-IsOrder.same a b e)
      | inr (inr e) ↦ inr (inr (e, ground arith))
    ]

-- A score below a second, which is below a third, is below the third.
pub cmp_score_trans :
    (a b c : BucketScore)
    → cmp_score a b ≡ Ordering.lt
    → cmp_score b c ≡ Ordering.lt
    → cmp_score a c ≡ Ordering.lt
cmp_score_trans = cmp_score-IsOrder.trans
