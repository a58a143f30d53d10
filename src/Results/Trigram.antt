-- ===== src/Results/Trigram.antt =====
-- The results of a query of three characters or more: `search_trigram_query` of
-- purr/src/search_result_builder.rs. What the index and the database answer is an argument.
pub mod Metadata
pub mod Served
use clipkitty.Base.{
  ℕ, suc, ◌+◌, leb, ltb, Bool, true, false, ◌&&◌, ◌||◌, Option, none, some, String, str_eq, List,
  [], ◌∷◌, map, keep, any, is_empty, if◌then◌else◌,
}
use clipkitty.Base.Map.{lookup, insert}
use clipkitty.Ranking.Chars.{Text, Unicode, byte_len}
use clipkitty.Search.Admission.{SearchCandidate, content_of}
use clipkitty.Highlight.Types.{MatchedExcerpt, ListPresentationProfile}
use clipkitty.Presentation.Cache.{insert_match_context}
use clipkitty.Presentation.Items.{
  State, MatchedExcerptRequest, ExcerptUnavailableReason, ExcerptPlaceholder,
  matched_excerpt_for_cached_match, placeholder_for_deferred_match,
}
use clipkitty.Results.Query.{SearchQuery, raw_text, ContentTypeFilter, matches_db_type, ItemTag}
use clipkitty.Results.Outcome.{
  ClipKittyError, index_error, Result, ok, err, Token, Progress, M, ◌>>=◌, ◌>>◌, pure, check,
  cached, Answer, value, failure, from_database, or_abort,
}

abbrev pub eager_match_data_count : ℕ
eager_match_data_count = 1

abbrev pub short_content_threshold : ℕ
short_content_threshold = 1024

abbrev pub eager_short_match_window : ℕ
eager_short_match_window = 24

-- A row of the database, with those fields of the metadata that the code reads.
pub record SearchRowMetadata : Type 0 where
  pub item_id : String
  pub content_hash : String
  pub db_type : String
  pub baseline_excerpt : Text

pub data RowPresentation : Type 0 where
  baseline : Text → RowPresentation
  matched : MatchedExcerpt → RowPresentation
  deferred : MatchedExcerptRequest → ExcerptPlaceholder → RowPresentation
  unavailable : Text → ExcerptUnavailableReason → RowPresentation

pub record ItemMatch : Type 0 where
  pub item_metadata : SearchRowMetadata
  pub presentation : RowPresentation

abbrev pub metadata_matches_filter : Option ContentTypeFilter → SearchRowMetadata → Bool
metadata_matches_filter none row = true
metadata_matches_filter (some filter) row = matches_db_type filter row.db_type

abbrev pub has_tag : Option (List String) → SearchRowMetadata → Bool
has_tag none row = true
has_tag (some ids) row = any (λ id. str_eq id row.item_id) ids

-- `collect` into a map: a later row of an item replaces an earlier one.
abbrev pub RowMap : Type 0
RowMap = List (String × SearchRowMetadata)

unfoldable pub collect_rows : RowMap → List SearchRowMetadata → RowMap
collect_rows m [] = m
collect_rows m (row ∷ rows) = collect_rows (insert str_eq row.item_id row m) rows

unfoldable pub metadata_map :
    Option ContentTypeFilter → Option (List String) → List SearchRowMetadata → RowMap
unfolding collect_rows
metadata_map filter tagged_ids rows =
    collect_rows [] (keep (metadata_matches_filter filter) (keep (has_tag tagged_ids) rows))

-- What the index and the database answer, and how often the index asks the token meanwhile.
pub record Answers : Type 0 where
  pub index_checks : ℕ
  pub candidates : Answer (List SearchCandidate)
  pub rows : List String → Answer (List SearchRowMetadata)
  pub tagged : List String → ItemTag → Answer (List String)

-- The index asks the token itself; what it then returns is part of its answer.
abbrev pub asked_by_index : ℕ → M (Unit {0})
asked_by_index n p = (ok tt, record p { checks = p.checks + n })

abbrev pub answered : Token → Answer (List SearchCandidate) → M (List SearchCandidate)
answered token (value candidates) = do check token; pure candidates
answered token (failure text) = do check token; (λ p. (err (index_error text), p))

-- `search_trigram_lazy` of purr/src/search.rs.
unfoldable pub search_trigram_lazy : Token → SearchQuery → Answers → M (List SearchCandidate)
search_trigram_lazy token query a =
    if is_empty (raw_text query)
    then pure []
    else (do asked_by_index a.index_checks; answered token a.candidates)

-- The first row and the early rows of short contents have their excerpts at once.
unfoldable pub is_eager : ℕ → SearchCandidate → Bool
is_eager eager_index c =
    ltb eager_index eager_match_data_count
    || (leb (byte_len (content_of c.match_context)) short_content_threshold
        && ltb eager_index eager_short_match_window)

module _ (u : Unicode) (token : Token) (query : Text) (profile : ListPresentationProfile) where
  unfoldable pub eager_match : SearchCandidate → SearchRowMetadata → M ItemMatch
  eager_match c row = do
    check token
    made ← cached (matched_excerpt_for_cached_match u c.id query profile)
    excerpt ← or_abort made
    pure (record { item_metadata = row; presentation = matched excerpt })

  abbrev pub request_for : SearchCandidate → SearchRowMetadata → MatchedExcerptRequest
  request_for c row = record {
    item_id = c.id;
    query = query;
    presentation_profile = profile;
    content_hash = row.content_hash;
  }

  unfoldable pub deferred_match : SearchCandidate → SearchRowMetadata → M ItemMatch
  deferred_match c row = do
    made ← cached (λ s. (
      placeholder_for_deferred_match u c.id query row.content_hash row.baseline_excerpt
          c.match_context profile s,
      s,
    ))
    placeholder ← or_abort made
    pure (record { item_metadata = row; presentation = deferred (request_for c row) placeholder })

  unfoldable pub item_match : ℕ → SearchCandidate → SearchRowMetadata → M ItemMatch
  unfolding eager_match deferred_match is_eager
  item_match eager_index c row =
      if is_eager eager_index c then eager_match c row else deferred_match c row

  -- `cache_match_context`.
  abbrev pub cache_context : SearchCandidate → SearchRowMetadata → State → Unit {0} × State
  cache_context c row s =
      (tt, insert_match_context u query c.id row.content_hash c.match_context c.scoring_phase s)

  -- The loop over the candidates.
  unfoldable pub build_rows : RowMap → ℕ → List SearchCandidate → M (List ItemMatch)
  unfolding item_match
  build_rows rows eager_index [] = pure []
  build_rows rows eager_index (c ∷ cs) = do
    check token
    elim (lookup str_eq c.id rows) [
      | none ↦ build_rows rows eager_index cs
      | some row ↦ do
        cached (cache_context c row)
        m ← item_match eager_index c row
        check token
        ms ← build_rows rows (suc eager_index) cs
        pure (m ∷ ms)
    ]

abbrev pub ids_of : List SearchCandidate → List String
ids_of = map (λ c. c.id)

abbrev pub tagged_ids_of : Answers → List String → Option ItemTag → M (Option (List String))
tagged_ids_of a ids none = pure none
tagged_ids_of a ids (some tag) = do
  tagged_ids ← from_database (a.tagged ids tag)
  pure (some tagged_ids)

unfoldable pub rows_of_candidates :
    Unicode
    → Token
    → SearchQuery
    → ListPresentationProfile
    → Option ContentTypeFilter
    → Option ItemTag
    → Answers
    → List SearchCandidate
    → M (List ItemMatch)
unfolding metadata_map build_rows
rows_of_candidates u token query profile filter tag a candidates = do
  rows ← from_database (a.rows (ids_of candidates))
  check token
  tagged_ids ← tagged_ids_of a (ids_of candidates) tag
  build_rows u token (raw_text query) profile (metadata_map filter tagged_ids rows) 0 candidates

unfoldable pub search_trigram_query :
    Unicode
    → Token
    → SearchQuery
    → ListPresentationProfile
    → Option ContentTypeFilter
    → Option ItemTag
    → Answers
    → M (List ItemMatch)
unfolding search_trigram_lazy rows_of_candidates
search_trigram_query u token query profile filter tag a = do
  check token
  candidates ← search_trigram_lazy token query a
  (if is_empty candidates
      then pure []
      else rows_of_candidates u token query profile filter tag a candidates)
