-- ===== src/Presentation/Cache.antt =====
-- `HighlightAnalysisCache` of purr/src/match_presentation.rs. A method returns its result and the
-- state that it leaves.
pub mod Bounded
pub mod Calls
pub mod Sound
use clipkitty.Base.{
  ℕ, zero, suc, leb, ltb, ◌==◌, Bool, true, false, ◌&&◌, ◌||◌, not, Option, none, some, String,
  str_eq, List, [], ◌∷◌, ◌++◌, length, is_some, is_empty, if◌then◌else◌,
}
use clipkitty.Base.Map.{lookup, insert, remove}
use clipkitty.Ranking.Chars.{Text, Unicode, trim, text_eq, starts_with}
use clipkitty.Ranking.Candidates.{reversed}
use clipkitty.Search.Admission.{SearchMatchContext, ScoringPhase}
use clipkitty.Highlight.Types.{HighlightAnalysis}
use clipkitty.Presentation.Context.{
  CachedMatchContext, from_search_match_context, cached_analysis, matches_parent_hash, set_analysis,
}

abbrev pub max_cached_queries : ℕ
max_cached_queries = 4

abbrev pub max_cached_items_per_query : ℕ
max_cached_items_per_query = 256

pub record CachedHighlightAnalysis : Type 0 where
  pub content_hash : ℕ
  pub analysis : HighlightAnalysis

-- A map of items, and one of queries.
abbrev pub Items : Type 0 → Type 0
Items V = List (String × V)

abbrev pub ByQuery : Type 0 → Type 0
ByQuery V = List (Text × Items V)

pub record HighlightAnalysisCacheState : Type 0 where
  pub query_order : List Text
  pub entries_by_query : ByQuery CachedHighlightAnalysis
  pub match_contexts_by_query : ByQuery CachedMatchContext

abbrev pub empty_state : HighlightAnalysisCacheState
empty_state = record { query_order = []; entries_by_query = []; match_contexts_by_query = [] }

unfoldable pub normalized_query : Unicode → Text → Option Text
normalized_query u query =
    let trimmed : Text = trim u query in if is_empty trimmed then none else some trimmed

-- `position` and `remove`: without the first entry that is the query.
unfoldable pub remove_first : Text → List Text → List Text
remove_first query_key [] = []
remove_first query_key (q ∷ qs) = if text_eq q query_key then qs else q ∷ remove_first query_key qs

-- The `while` loop over the order of the queries.
unfoldable pub evict : List Text → HighlightAnalysisCacheState → HighlightAnalysisCacheState
evict [] s = record s { query_order = [] }
evict (oldest ∷ newer) s =
    let evicted = evict newer (record s {
      entries_by_query = remove text_eq oldest s.entries_by_query;
      match_contexts_by_query = remove text_eq oldest s.match_contexts_by_query;
    }) in
    if ltb max_cached_queries (length (oldest ∷ newer))
    then evicted
    else record s { query_order = oldest ∷ newer }

unfoldable pub touch_query : Text → HighlightAnalysisCacheState → HighlightAnalysisCacheState
unfolding remove_first evict
touch_query query_key s = evict (remove_first query_key s.query_order ++ query_key ∷ []) s

abbrev pub or_default : {V : Type 0} → Option (Items V) → Items V
or_default none = []
or_default (some items) = items

-- An item that is new is not taken where the map is full.
unfoldable pub insert_item : {V : Type 0} → String → V → Items V → Items V
insert_item item_id v items =
    if not (is_some (lookup str_eq item_id items)) && leb max_cached_items_per_query (length items)
    then items
    else insert str_eq item_id v items

-- `entry(query_key).or_default()`, and the insertion into it.
unfoldable pub insert_for_query : {V : Type 0} → Text → String → V → ByQuery V → ByQuery V
unfolding insert_item
insert_for_query query_key item_id v by_query =
    insert text_eq query_key
      (insert_item item_id v (or_default (lookup text_eq query_key by_query))) by_query

-- The lookup of an item's entry for a query.
abbrev pub item_in : {V : Type 0} → String → Option (Items V) → Option V
item_in item_id none = none
item_in item_id (some items) = lookup str_eq item_id items

abbrev pub find_item : {V : Type 0} → Text → String → ByQuery V → Option V
find_item query_key item_id by_query = item_in item_id (lookup text_eq query_key by_query)

-- What `get` makes of the entries of the query: an entry of another content is removed.
unfoldable pub get_entry :
    ℕ
    → String
    → Items CachedHighlightAnalysis
    → Option HighlightAnalysis × Items CachedHighlightAnalysis
get_entry content_hash item_id entries = elim (lookup str_eq item_id entries) [
  | none ↦ (none, entries)
  | some entry ↦
      if entry.content_hash == content_hash
      then (some entry.analysis, entries)
      else (none, remove str_eq item_id entries)
]

-- A hit touches the query.
abbrev pub touch_on_hit :
    {A : Type 0} → Text → Option A → HighlightAnalysisCacheState → HighlightAnalysisCacheState
touch_on_hit query_key hit s = if is_some hit then touch_query query_key s else s

module _ (u : Unicode) (content_hash_of : Text → ℕ) where
  unfoldable pub get :
      Text
      → String
      → Text
      → HighlightAnalysisCacheState
      → Option HighlightAnalysis × HighlightAnalysisCacheState
  unfolding get_entry
  get query item_id content s = elim (normalized_query u query) [
    | none ↦ (none, s)
    | some query_key ↦ elim (lookup text_eq query_key s.entries_by_query) [
      | none ↦ (none, s)
      | some entries ↦
          let found = get_entry (content_hash_of content) item_id entries in
          let s' : HighlightAnalysisCacheState = record s {
            entries_by_query = insert text_eq query_key found.1 s.entries_by_query;
          } in
          (found.0, touch_on_hit query_key found.0 s')
    ]
  ]

  unfoldable pub insert_analysis :
      Text
      → String
      → Text
      → HighlightAnalysis
      → HighlightAnalysisCacheState
      → HighlightAnalysisCacheState
  unfolding insert_for_query
  insert_analysis query item_id content analysis s = elim (normalized_query u query) [
    | none ↦ s
    | some query_key ↦
        let touched : HighlightAnalysisCacheState = touch_query query_key s in
        let entry : CachedHighlightAnalysis = record {
          content_hash = content_hash_of content;
          analysis = analysis;
        } in
        record touched {
          entries_by_query = insert_for_query query_key item_id entry touched.entries_by_query;
        }
  ]

module _ (u : Unicode) where
  unfoldable pub get_match_context :
      Text
      → String
      → HighlightAnalysisCacheState
      → Option CachedMatchContext × HighlightAnalysisCacheState
  get_match_context query item_id s = elim (normalized_query u query) [
    | none ↦ (none, s)
    | some query_key ↦
        let cached : Option CachedMatchContext =
          find_item query_key item_id s.match_contexts_by_query in
        (cached, touch_on_hit query_key cached s)
  ]

  unfoldable pub insert_match_context :
      Text
      → String
      → String
      → SearchMatchContext
      → ScoringPhase
      → HighlightAnalysisCacheState
      → HighlightAnalysisCacheState
  unfolding insert_for_query
  insert_match_context query item_id parent_hash match_context phase s =
      elim (normalized_query u query) [
        | none ↦ s
        | some query_key ↦
            let touched : HighlightAnalysisCacheState = touch_query query_key s in
            let context : CachedMatchContext =
              from_search_match_context parent_hash match_context phase in
            record touched {
              match_contexts_by_query =
                  insert_for_query query_key item_id context touched.match_contexts_by_query;
            }
      ]

  unfoldable pub set_match_context_analysis :
      Text → String → HighlightAnalysis → HighlightAnalysisCacheState → HighlightAnalysisCacheState
  set_match_context_analysis query item_id analysis s = elim (normalized_query u query) [
    | none ↦ s
    | some query_key ↦ elim (lookup text_eq query_key s.match_contexts_by_query) [
      | none ↦ s
      | some entries ↦ elim (lookup str_eq item_id entries) [
        | none ↦ s
        | some entry ↦
            let entries' : Items CachedMatchContext =
              insert str_eq item_id (set_analysis analysis entry) entries in
            touch_query query_key (record s {
              match_contexts_by_query = insert text_eq query_key entries' s.match_contexts_by_query;
            })
      ]
    ]
  ]

-- One text begins with the other.
abbrev pub queries_are_compatible : Text → Text → Bool
queries_are_compatible source target = starts_with source target || starts_with target source

-- The context of another, compatible query that is ready, of the newest such query.
abbrev pub Compatible : Type 0
Compatible = Text × CachedMatchContext × HighlightAnalysis

unfoldable pub compatible_at :
    HighlightAnalysisCacheState → Text → String → String → Text → Option Compatible
compatible_at s query_key item_id parent_hash source =
    if text_eq source query_key || not (queries_are_compatible source query_key)
    then none
    else elim (find_item source item_id s.match_contexts_by_query) [
      | none ↦ none
      | some context ↦
          if not (matches_parent_hash context parent_hash)
          then none
          else elim (cached_analysis context) [
            | none ↦ none
            | some analysis ↦ some (source, context, analysis)
          ]
    ]

-- `find_map`.
abbrev pub find_map : {A B : Type 0} → (A → Option B) → List A → Option B
find_map f [] = none
find_map f (a ∷ more) = let rest = find_map f more in elim (f a) [ none ↦ rest | some b ↦ some b ]

unfoldable pub get_compatible_ready_match_context :
    Unicode → Text → String → String → HighlightAnalysisCacheState → Option Compatible
unfolding compatible_at
get_compatible_ready_match_context u query item_id parent_hash s = elim (normalized_query u query) [
  | none ↦ none
  | some query_key ↦
      find_map (compatible_at s query_key item_id parent_hash) (reversed s.query_order)
]
