-- ===== src/Presentation/Items.antt =====
-- `MatchPresentation` of purr/src/match_presentation.rs: what is shown of items and matches, with the
-- cache as a state. What the database answers is an argument.
pub mod Made
pub mod Transparent
use clipkitty.Base.{
  ℕ, Bool, true, false, not, Option, none, some, String, str_eq, List, [], ◌∷◌, is_some, is_empty,
  filter_map, if◌then◌else◌,
}
use clipkitty.Base.Map.{lookup}
use clipkitty.Ranking.Chars.{Text, Unicode, trim}
use clipkitty.Search.Admission.{SearchMatchContext, whole_item, chunk, content_of}
use clipkitty.Highlight.Types.{
  HighlightAnalysis, MatchedExcerpt, PreviewDecoration, ListPresentationProfile,
}
use clipkitty.Highlight.Analysis.{
  analyze_content_for_query, analyze_content_word_match, compute_matched_excerpt,
  create_preview_decoration,
}
use clipkitty.Highlight.Snippet.{create_matched_excerpt, generate_preview_for_profile}
use clipkitty.Presentation.Context.{
  CachedMatchContext, full, word_match, cached_content, strategy_of, cached_analysis,
  matches_parent_hash, is_chunk_region, preview_decoration,
}
use clipkitty.Presentation.Cache.{
  HighlightAnalysisCacheState, get, insert_analysis, get_match_context, set_match_context_analysis,
  get_compatible_ready_match_context, find_map,
}

abbrev pub State : Type 0
State = HighlightAnalysisCacheState

pub record MatchedExcerptRequest : Type 0 where
  pub item_id : String
  pub query : Text
  pub presentation_profile : ListPresentationProfile
  pub content_hash : String

pub data ExcerptUnavailableReason : Type 0 where
  item_missing : ExcerptUnavailableReason
  content_changed : ExcerptUnavailableReason
  empty_query : ExcerptUnavailableReason

pub data ExcerptPlaceholder : Type 0 where
  baseline : Text → ExcerptPlaceholder
  compatible_cached : Text → MatchedExcerpt → ExcerptPlaceholder
  provisional : Text → ExcerptPlaceholder

pub data MatchedExcerptResolution : Type 0 where
  ready : String → MatchedExcerpt → MatchedExcerptResolution
  unavailable : String → ExcerptUnavailableReason → MatchedExcerptResolution

-- The result of `resolve_matched_excerpts`: its resolutions, or the text of the database's error.
pub data ResolvedExcerpts : Type 0 where
  all_resolved : List MatchedExcerptResolution → ResolvedExcerpts
  database_failed : String → ResolvedExcerpts

abbrev pub map_option : {A B : Type 0} → (A → B) → Option A → Option B
map_option f none = none
map_option f (some a) = some (f a)

abbrev pub no_excerpt : MatchedExcerpt
no_excerpt = record { text = []; highlights = []; line_number = 0 }

-- The excerpt of an analysis, or computed anew. `none` is a panic of `compute_matched_excerpt`.
abbrev pub excerpt_from :
    Unicode
    → Text
    → Text
    → ListPresentationProfile
    → Option HighlightAnalysis
    → Option MatchedExcerpt
excerpt_from u content query profile (some analysis) =
    create_matched_excerpt u content analysis.highlights profile
excerpt_from u content query profile none = compute_matched_excerpt u content query profile

module _ (u : Unicode) (content_hash_of : Text → ℕ) where
  unfoldable pub analysis_for_item : String → Text → Text → State → Option HighlightAnalysis × State
  analysis_for_item item_id content query s =
      let (cached, s') = get u content_hash_of query item_id content s in
      elim cached [
        | some analysis ↦ (some analysis, s')
        | none ↦ elim (analyze_content_for_query u content query) [
          | none ↦ (none, s')
          | some analysis ↦
              (some analysis, insert_analysis u content_hash_of query item_id content analysis s')
        ]
      ]

  unfoldable pub matched_excerpt_for_item :
      String → Text → Text → ListPresentationProfile → State → Option MatchedExcerpt × State
  matched_excerpt_for_item item_id content query profile s =
      let (found, s') = analysis_for_item item_id content query s in
      (excerpt_from u content query profile found, s')

module _ (u : Unicode) where
  abbrev pub analyze_context : CachedMatchContext → Text → Option HighlightAnalysis
  analyze_context context query = elim (strategy_of context) [
    | full ↦ analyze_content_for_query u (cached_content context) query
    | word_match ↦ analyze_content_word_match u (cached_content context) query
  ]

  unfoldable pub analysis_for_cached_match_context :
      String → Text → State → Option (CachedMatchContext × HighlightAnalysis) × State
  analysis_for_cached_match_context item_id query s =
      let (found, s') = get_match_context u query item_id s in
      elim found [
        | none ↦ (none, s')
        | some context ↦ elim (cached_analysis context) [
          | some analysis ↦ (some (context, analysis), s')
          | none ↦ elim (analyze_context context query) [
            | none ↦ (none, s')
            | some analysis ↦
                let stored = set_match_context_analysis u query item_id analysis s' in
                let (again, s'') = get_match_context u query item_id stored in
                (
                  elim again [
                    | none ↦ some (context, analysis)
                    | some updated ↦ some (updated, analysis)
                  ],
                  s'',
                )
          ]
        ]
      ]

  -- `none` is a panic of the excerpt, here and in the functions that call it.
  unfoldable pub matched_excerpt_for_cached_match :
      String → Text → ListPresentationProfile → State → Option MatchedExcerpt × State
  unfolding analysis_for_cached_match_context
  matched_excerpt_for_cached_match item_id query profile s =
      let (found, s') = analysis_for_cached_match_context item_id query s in
      (
        elim found [
          | none ↦ some no_excerpt
          | some (context, analysis) ↦
              create_matched_excerpt u (cached_content context) analysis.highlights profile
        ],
        s',
      )

  unfoldable pub placeholder_for_deferred_match :
      String
      → Text
      → String
      → Text
      → SearchMatchContext
      → ListPresentationProfile
      → State
      → Option ExcerptPlaceholder
  placeholder_for_deferred_match item_id query parent_hash baseline_excerpt match_context profile
        s =
      elim (get_compatible_ready_match_context u query item_id parent_hash s) [
        | some (source_query, context, analysis) ↦
            map_option (compatible_cached source_query)
              (create_matched_excerpt u (cached_content context) analysis.highlights profile)
        | none ↦ elim match_context [
          | chunk content _ _ _ _ ↦
              map_option provisional (generate_preview_for_profile u content profile)
          | whole_item _ _ ↦ some (baseline baseline_excerpt)
        ]
      ]

-- The text of the error of each of the two queries, where it fails, and the rows and the items that the
-- database gives for an identifier. A row has the hash of its
-- content, and an item has its content.
pub record Stored : Type 0 where
  pub rows_failure : Option String
  pub items_failure : Option String
  pub row_hash : String → Option String
  pub item_content : String → Option Text

module _ (u : Unicode) (content_hash_of : Text → ℕ) (db : Stored) where
  -- The context of the request's item, if it is of the content that the request names.
  abbrev pub has_context : Option CachedMatchContext → String → Bool
  has_context none request_hash = false
  has_context (some context) request_hash = matches_parent_hash context request_hash

  -- Whether the content of a request's item is to be fetched, in the filter before the requests are
  -- resolved.
  unfoldable pub is_missing : MatchedExcerptRequest → State → Bool × State
  is_missing r s = elim (db.row_hash r.item_id) [
    | none ↦ (true, s)
    | some row_hash ↦
        let (context, s') = get_match_context u r.query r.item_id s in
        if not (str_eq row_hash r.content_hash)
        then (false, s)
        else (not (has_context context r.content_hash), s')
  ]

  unfoldable pub missing_item_ids : List MatchedExcerptRequest → State → List String × State
  unfolding is_missing
  missing_item_ids [] s = ([], s)
  missing_item_ids (r ∷ rs) s =
      let (missing, s') = is_missing r s in
      let (ids, s'') = missing_item_ids rs s' in (if missing then r.item_id ∷ ids else ids, s'')

  -- `item_map`: the items of the identifiers that were asked for.
  abbrev pub fetched : List String → String → Option Text
  fetched [] item_id = none
  fetched (id ∷ ids) item_id =
      if str_eq id item_id then db.item_content item_id else fetched ids item_id

  -- A request with a row of its content: the excerpt comes from the cached context, or else from the
  -- item. The inner `none` of the result is a panic of `compute_matched_excerpt`.
  unfoldable pub resolve_current :
      List String → MatchedExcerptRequest → State → Option MatchedExcerptResolution × State
  unfolding matched_excerpt_for_cached_match matched_excerpt_for_item
  resolve_current ids r s =
      let (context, s') = get_match_context u r.query r.item_id s in
      let (cached, s'') =
        matched_excerpt_for_cached_match u r.item_id r.query r.presentation_profile s' in
      if has_context context r.content_hash
      then (map_option (ready r.item_id) cached, s'')
      else elim (fetched ids r.item_id) [
        | none ↦ (some (unavailable r.item_id item_missing), s')
        | some content ↦
            let (excerpt, s''') =
              matched_excerpt_for_item u content_hash_of r.item_id content r.query
                r.presentation_profile s' in
            (map_option (ready r.item_id) excerpt, s''')
      ]

  unfoldable pub resolve_request :
      List String → MatchedExcerptRequest → State → Option MatchedExcerptResolution × State
  unfolding resolve_current
  resolve_request ids r s =
      if is_empty (trim u r.query)
      then (some (unavailable r.item_id empty_query), s)
      else elim (db.row_hash r.item_id) [
        | none ↦ (some (unavailable r.item_id item_missing), s)
        | some row_hash ↦
            let current = resolve_current ids r s in
            if not (str_eq row_hash r.content_hash)
            then (some (unavailable r.item_id content_changed), s)
            else current
      ]

  -- The requests one after the other: one of the orders in which the parallel iterator may take the
  -- lock of the cache.
  unfoldable pub resolve_requests :
      List String
      → List MatchedExcerptRequest
      → State
      → Option (List MatchedExcerptResolution) × State
  unfolding resolve_request
  resolve_requests ids [] s = (some [], s)
  resolve_requests ids (r ∷ rs) s =
      let (resolved, s') = resolve_request ids r s in
      let (more, s'') = resolve_requests ids rs s' in
      (
        elim resolved [
          | none ↦ none
          | some resolution ↦ elim more [
            | none ↦ none
            | some resolutions ↦ some (resolution ∷ resolutions)
          ]
        ],
        s'',
      )

  abbrev pub as_result : Option (List MatchedExcerptResolution) → Option ResolvedExcerpts
  as_result none = none
  as_result (some resolutions) = some (all_resolved resolutions)

  unfoldable pub resolve_matched_excerpts :
      List MatchedExcerptRequest → State → Option ResolvedExcerpts × State
  unfolding missing_item_ids resolve_requests
  resolve_matched_excerpts [] s = (some (all_resolved []), s)
  resolve_matched_excerpts (r ∷ rs) s =
      let (ids, s') = missing_item_ids (r ∷ rs) s in
      let (resolutions, s'') = resolve_requests ids (r ∷ rs) s' in
      elim db.rows_failure [
        | some text ↦ (some (database_failed text), s)
        | none ↦ elim db.items_failure [
          | some text ↦ (some (database_failed text), s')
          | none ↦ (as_result resolutions, s'')
        ]
      ]
