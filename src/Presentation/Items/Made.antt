-- ===== src/Presentation/Items/Made.antt =====
-- What is shown of items and matches is made, whatever the cache holds: no index is out of range.
use clipkitty.Base.{none, some, String, ◌≡◌, refl, inl, inr, Option-cases}
use clipkitty.Ranking.Chars.{Text, Unicode}
use clipkitty.Search.Admission.{SearchMatchContext, whole_item, chunk}
use clipkitty.Highlight.Types.{MatchedExcerpt, ListPresentationProfile}
use clipkitty.Highlight.Analysis.Excerpts.{
  create_matched_excerpt-some, generate_preview_for_profile-some,
}
use clipkitty.Presentation.Context.{cached_content}
use clipkitty.Presentation.Cache.{get_compatible_ready_match_context}
use clipkitty.Presentation.Items.{
  State, ExcerptPlaceholder, no_excerpt, baseline, compatible_cached, provisional,
  analysis_for_cached_match_context, matched_excerpt_for_cached_match,
  placeholder_for_deferred_match,
}

module _ (u : Unicode) (item_id : String) (query : Text) where
  pub matched_excerpt_for_cached_match-some :
      (profile : ListPresentationProfile) (s : State)
      → (e : MatchedExcerpt) × ((matched_excerpt_for_cached_match u item_id query profile s).0
          ≡ some e)
  unfolding matched_excerpt_for_cached_match
  matched_excerpt_for_cached_match-some profile s =
      elim (Option-cases (analysis_for_cached_match_context u item_id query s).0) [
        | inl e ↦ rw (e, matched_excerpt_for_cached_match) (no_excerpt, refl)
        | inr ((context, analysis), e) ↦
            let (excerpt, made) =
              create_matched_excerpt-some u (cached_content context) analysis.highlights profile in
            rw (e, matched_excerpt_for_cached_match) (excerpt, made)
      ]

  -- A placeholder where no other query has an analysis.
  module _ (parent_hash : String) (baseline_excerpt : Text) (profile : ListPresentationProfile)
      (s : State)
      (nothing_ready : get_compatible_ready_match_context u query item_id parent_hash s
        ≡ none) where
    new_placeholder-some :
        (match_context : SearchMatchContext)
        → (p : ExcerptPlaceholder) × (placeholder_for_deferred_match u item_id query parent_hash
              baseline_excerpt match_context profile s
            ≡ some p)
    unfolding placeholder_for_deferred_match
    new_placeholder-some (whole_item _ _) =
        rw (nothing_ready, placeholder_for_deferred_match) (baseline baseline_excerpt, refl)
    new_placeholder-some (chunk content _ _ _ _) =
        let (text, made) = generate_preview_for_profile-some u content profile in
        rw (nothing_ready, placeholder_for_deferred_match, made) (provisional text, refl)

  pub placeholder_for_deferred_match-some :
      (parent_hash : String) (baseline_excerpt : Text) (match_context : SearchMatchContext)
      (profile : ListPresentationProfile) (s : State)
      → (p : ExcerptPlaceholder) × (placeholder_for_deferred_match u item_id query parent_hash
            baseline_excerpt match_context profile s
          ≡ some p)
  unfolding placeholder_for_deferred_match
  placeholder_for_deferred_match-some parent_hash baseline_excerpt match_context profile s =
      elim (Option-cases (get_compatible_ready_match_context u query item_id parent_hash s)) [
        | inl e ↦ new_placeholder-some parent_hash baseline_excerpt profile s e match_context
        | inr ((source_query, context, analysis), e) ↦
            let (excerpt, made) =
              create_matched_excerpt-some u (cached_content context) analysis.highlights profile in
            rw (e, placeholder_for_deferred_match, made)
              (compatible_cached source_query excerpt, refl)
      ]
