-- ===== src/Ranking/Score/Laws.antt =====
-- The matched words and the score of a document, of purr/src/ranking.rs.
use clipkitty.Base.{
  ℕ, suc, ◌+◌, ◌<◌, ◌^◌, pos_part, neg_part, true, false, Option, none, List, [], ◌∷◌, length, map,
  is_empty, All, ◌≡◌, refl, arith, inl, inr, Bool-cases,
}
use clipkitty.Ranking.Types.{
  QualityTier, LiteralMatch, ExactnessSignals, QualityDetail, BucketScore,
}
use clipkitty.Ranking.Policy.{compute_quality_tier}
use clipkitty.Ranking.Chars.{Unicode}
use clipkitty.Ranking.Matches.{WordMatch, word_match, doc_word_pos}
use clipkitty.Ranking.Signals.{quality_tier_of, build_quality_signals}
use clipkitty.Ranking.Alignment.Valid.{Picks, Fresh}
use clipkitty.Ranking.Signals.Weights.{query_weights}
use clipkitty.Ranking.Alignment.Fits.{query_weights-heaviest}
use clipkitty.Ranking.Score.Fits.{typed_weight, heaviest-typed_weight}
use clipkitty.Ranking.Alignment.{choose_best_alignment}
use clipkitty.Ranking.Alignment.Choice.{choose_best_alignment-Picks}
use clipkitty.Ranking.Document.{
  PreparedQuery, PreparedQueryToken, PreparedDocument, is_fast_mode, has_literal_sequence,
  starts_with_case_insensitive,
}
use clipkitty.Ranking.Score.{
  candidate_lists_from, default_match, build_match_query_plan, match_query_words, single_token,
  compute_exactness_signals, compute_fast_quality_signals, plan_document_quality_signals,
  compute_document_quality_signals, build_ranking_breakdown, into_bucket_score,
  compute_bucket_score, ScoringContext,
}

length-candidate_lists_from :
    (u : Unicode) (doc : PreparedDocument) (query : PreparedQuery) (index : ℕ)
    (tokens : List PreparedQueryToken)
    → length (candidate_lists_from u doc query index tokens) ≡ length (map (default_match u) tokens)
length-candidate_lists_from u doc query index [] = refl
length-candidate_lists_from u doc query index (_ ∷ tokens) =
    omega (arith, length-candidate_lists_from u doc query (suc index) tokens)

default_match-unmatched :
    (u : Unicode) (tokens : List PreparedQueryToken)
    → All (λ d. doc_word_pos d ≡ none) (map (default_match u) tokens)
unfolding word_match
default_match-unmatched u [] = tt
default_match-unmatched u (_ ∷ tokens) = (refl, default_match-unmatched u tokens)

-- Where the weights of the query's words fit into a `u16`, and the query is not one word on a document
-- in the fast mode, each query word is matched with one of the candidates collected for it or with
-- none, no document word is matched twice, and the weights that the score adds up fit.
pub match_query_words-Picks :
    (u : Unicode) (doc : PreparedDocument) (query : PreparedQuery)
    → typed_weight u query.tokens < 2 ^ 16
    → single_token doc query.tokens ≡ none
    → Picks
        (candidate_lists_from u doc query 0 query.tokens)
        (map (default_match u) query.tokens)
        (match_query_words u doc query)
      × Fresh [] (match_query_words u doc query)
      × (query_weights (match_query_words u doc query) < 2 ^ 16)
unfolding match_query_words build_match_query_plan
match_query_words-Picks u doc query fits several =
    let lists : List (List WordMatch) = candidate_lists_from u doc query 0 query.tokens in
    let defaults : List WordMatch = map (default_match u) query.tokens in
    let (picks, fresh) =
      choose_best_alignment-Picks lists defaults
        (length-candidate_lists_from u doc query 0 query.tokens)
        (default_match-unmatched u query.tokens) in
    rw (several, match_query_words, build_match_query_plan)
      (
        picks,
        fresh,
        omega (
          arith,
          query_weights-heaviest lists defaults (choose_best_alignment lists defaults) picks,
          heaviest-typed_weight u doc query 0 query.tokens,
        ),
      )

literal_tier :
    (words total matched : ℕ) (e : ExactnessSignals)
    (stats : Option clipkitty.Ranking.Types.MatchSpanStats)
    → e.literal_match ≡ LiteralMatch.content_prefix
    → compute_quality_tier words total matched e stats ≡ QualityTier.content_prefix
unfolding compute_quality_tier
literal_tier words total matched e stats same = rw (same, compute_quality_tier) refl

literal_signal :
    (u : Unicode) (doc : PreparedDocument) (query : PreparedQuery) (ms : List WordMatch)
    → has_literal_sequence u query ≡ true
    → is_empty query.folded_text ≡ false
    → starts_with_case_insensitive u doc query.folded_text ≡ true
    → (compute_exactness_signals u doc query ms).literal_match ≡ LiteralMatch.content_prefix
unfolding compute_exactness_signals
literal_signal u doc query ms literal given prefix = ground arith

-- Where the weights of the query's words fit into a `u16`, and the age of the item into an `i64`, a
-- query that has a symbol, on a document that starts with the folded query, is in the highest tier,
-- however its words match and however large the document is.
pub compute_bucket_score-content_prefix :
    (u : Unicode) (ctx : ScoringContext)
    → typed_weight u ctx.query.tokens < 2 ^ 16
    → pos_part ctx.now + neg_part ctx.timestamp < 2 ^ 63
    → neg_part ctx.now + pos_part ctx.timestamp < 2 ^ 63
    → is_empty ctx.query.tokens ≡ false
    → has_literal_sequence u ctx.query ≡ true
    → is_empty ctx.query.folded_text ≡ false
    → starts_with_case_insensitive u ctx.document ctx.query.folded_text ≡ true
    → (compute_bucket_score u ctx).quality_tier ≡ QualityTier.content_prefix
unfolding compute_bucket_score into_bucket_score build_ranking_breakdown
    compute_document_quality_signals plan_document_quality_signals quality_tier_of
    compute_fast_quality_signals build_quality_signals
compute_bucket_score-content_prefix u ctx fits young old tokens literal given prefix =
    let signal =
      literal_signal u ctx.document ctx.query (match_query_words u ctx.document ctx.query) literal
        given prefix in
    elim (Bool-cases (is_fast_mode ctx.document)) [
      | inl quick ↦
          rw
            (
              tokens, quick, literal, compute_bucket_score, into_bucket_score,
              build_ranking_breakdown, compute_document_quality_signals,
              plan_document_quality_signals, quality_tier_of, compute_fast_quality_signals,
              build_quality_signals,
            )
            (literal_tier _ _ _ _ _ signal)
      | inr slow ↦
          rw
            (
              tokens, slow, compute_bucket_score, into_bucket_score, build_ranking_breakdown,
              compute_document_quality_signals, plan_document_quality_signals, quality_tier_of,
              build_quality_signals,
            )
            (literal_tier _ _ _ _ _ signal)
    ]
