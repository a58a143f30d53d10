-- ===== src/Presentation/Cache/Calls.antt =====
-- The methods of the cache keep it bounded.
use clipkitty.Base.{
  ℕ, ◌≤◌, ◌==◌, true, Option, none, some, String, str_eq, List, [], ◌∷◌, length, ◌≡◌, refl, inl,
  inr, Bool-cases, Option-cases, arith,
}
use clipkitty.Base.Map.{lookup, insert, length-insert, length-remove-le}
use clipkitty.Ranking.Chars.{Text, Unicode, text_eq}
use clipkitty.Search.Admission.{SearchMatchContext, ScoringPhase}
use clipkitty.Highlight.Types.{HighlightAnalysis}
use clipkitty.Presentation.Context.{set_analysis}
use clipkitty.Presentation.Cache.{
  HighlightAnalysisCacheState, empty_state, CachedHighlightAnalysis, Items, ByQuery,
  normalized_query, touch_query, or_default, insert_item, insert_for_query, find_item, get_entry,
  touch_on_hit, get, insert_analysis, get_match_context, insert_match_context,
  set_match_context_analysis,
}
use clipkitty.Presentation.Cache.Bounded.{
  has, Listed, IsBounded, touch_query-IsBounded, touch_query-has, length-insert_item, Listed-insert,
}

touch_on_hit-IsBounded :
    {A : Type 0} (k : Text) (hit : Option A) (s : HighlightAnalysisCacheState)
    → IsBounded s
    → IsBounded (touch_on_hit k hit s)
touch_on_hit-IsBounded k none s b = b
touch_on_hit-IsBounded k (some a) s b = touch_query-IsBounded k s b

Listed-insert_for_query :
    {V : Type 0} (order : List Text) (k : Text) (item_id : String) (v : V) (m : ByQuery V)
    → has order k ≡ true
    → Listed order m
    → Listed order (insert_for_query k item_id v m)
unfolding insert_for_query
Listed-insert_for_query order k item_id v m has_k h =
    let items = or_default (lookup text_eq k m) in
    Listed-insert order k (insert_item item_id v items) m has_k
      (length-insert_item item_id v items (h k).1) h

-- A map of a query that is there is replaced by one that is no larger.
Listed-replace :
    {V : Type 0} (order : List Text) (k : Text) (items items' : Items V) (m : ByQuery V)
    → lookup text_eq k m ≡ some items
    → length items' ≤ length items
    → Listed order m
    → Listed order (insert text_eq k items' m)
Listed-replace order k items items' m found le h =
    let (listed, size) = h k in
    let bound : length items ≤ 256 = rw found at size in
    Listed-insert order k items' m (listed (rw found refl)) (omega arith) h

get_entry-length :
    (hash : ℕ) (item_id : String) (items : Items CachedHighlightAnalysis)
    → length (get_entry hash item_id items).1 ≤ length items
unfolding get_entry
get_entry-length hash item_id items = elim (Option-cases (lookup str_eq item_id items)) [
  | inl e ↦ rw (e, get_entry) (omega arith)
  | inr (entry, e) ↦ elim (Bool-cases (entry.content_hash == hash)) [
    | inl fresh ↦ rw (e, fresh, get_entry) (omega arith)
    | inr stale ↦ rw (e, stale, get_entry) (length-remove-le str_eq item_id items)
  ]
]

module _ (u : Unicode) (hash : Text → ℕ) (s : HighlightAnalysisCacheState) (b : IsBounded s) where
  get-IsBounded :
      (query : Text) (item_id : String) (content : Text)
      → IsBounded (get u hash query item_id content s).1
  unfolding get
  get-IsBounded query item_id content = elim (Option-cases (normalized_query u query)) [
    | inl e ↦ rw (e, get) b
    | inr (k, e) ↦ elim (Option-cases (lookup text_eq k s.entries_by_query)) [
      | inl f ↦ rw (e, f, get) b
      | inr (items, f) ↦
          let found = get_entry (hash content) item_id items in
          rw (e, f, get)
            (touch_on_hit-IsBounded k found.0 _ (record {
              few = b.few;
              once = b.once;
              entries =
                  Listed-replace s.query_order k items found.1 s.entries_by_query f
                    (get_entry-length (hash content) item_id items) b.entries;
              contexts = b.contexts;
            }))
    ]
  ]

  insert_analysis-IsBounded :
      (query : Text) (item_id : String) (content : Text) (analysis : HighlightAnalysis)
      → IsBounded (insert_analysis u hash query item_id content analysis s)
  unfolding insert_analysis
  insert_analysis-IsBounded query item_id content analysis =
      elim (Option-cases (normalized_query u query)) [
        | inl e ↦ rw (e, insert_analysis) b
        | inr (k, e) ↦
            let touched = touch_query k s in
            let t = touch_query-IsBounded k s b in
            rw (e, insert_analysis)
              (record {
                few = t.few;
                once = t.once;
                entries =
                    Listed-insert_for_query touched.query_order k item_id _ touched.entries_by_query
                      (touch_query-has k s) t.entries;
                contexts = t.contexts;
              })
      ]

  get_match_context-IsBounded :
      (query : Text) (item_id : String) → IsBounded (get_match_context u query item_id s).1
  unfolding get_match_context
  get_match_context-IsBounded query item_id = elim (Option-cases (normalized_query u query)) [
    | inl e ↦ rw (e, get_match_context) b
    | inr (k, e) ↦
        rw (e, get_match_context)
          (touch_on_hit-IsBounded k (find_item k item_id s.match_contexts_by_query) s b)
  ]

  insert_match_context-IsBounded :
      (query : Text) (item_id parent_hash : String) (match_context : SearchMatchContext)
      (phase : ScoringPhase)
      → IsBounded (insert_match_context u query item_id parent_hash match_context phase s)
  unfolding insert_match_context
  insert_match_context-IsBounded query item_id parent_hash match_context phase =
      elim (Option-cases (normalized_query u query)) [
        | inl e ↦ rw (e, insert_match_context) b
        | inr (k, e) ↦
            let touched = touch_query k s in
            let t = touch_query-IsBounded k s b in
            rw (e, insert_match_context)
              (record {
                few = t.few;
                once = t.once;
                entries = t.entries;
                contexts =
                    Listed-insert_for_query touched.query_order k item_id _
                      touched.match_contexts_by_query (touch_query-has k s) t.contexts;
              })
      ]

  set_match_context_analysis-IsBounded :
      (query : Text) (item_id : String) (analysis : HighlightAnalysis)
      → IsBounded (set_match_context_analysis u query item_id analysis s)
  unfolding set_match_context_analysis
  set_match_context_analysis-IsBounded query item_id analysis =
      elim (Option-cases (normalized_query u query)) [
        | inl e ↦ rw (e, set_match_context_analysis) b
        | inr (k, e) ↦ elim (Option-cases (lookup text_eq k s.match_contexts_by_query)) [
          | inl f ↦ rw (e, f, set_match_context_analysis) b
          | inr (items, f) ↦ elim (Option-cases (lookup str_eq item_id items)) [
            | inl g ↦ rw (e, f, g, set_match_context_analysis) b
            | inr (entry, g) ↦
                let size : length (insert str_eq item_id (set_analysis analysis entry) items)
                    ≤ length items =
                  ground
                    (arith, length-insert str_eq item_id (set_analysis analysis entry) items) in
                rw (e, f, g, set_match_context_analysis)
                  (touch_query-IsBounded k _ (record {
                    few = b.few;
                    once = b.once;
                    entries = b.entries;
                    contexts =
                        Listed-replace s.query_order k items _ s.match_contexts_by_query f size
                          b.contexts;
                  }))
          ]
        ]
      ]

-- A call of a method of the cache, with its arguments.
pub data Call : Type 0 where
  get_call : Text → String → Text → Call
  insert_call : Text → String → Text → HighlightAnalysis → Call
  get_context_call : Text → String → Call
  insert_context_call : Text → String → String → SearchMatchContext → ScoringPhase → Call
  set_analysis_call : Text → String → HighlightAnalysis → Call

unfoldable pub step :
    Unicode → (Text → ℕ) → Call → HighlightAnalysisCacheState → HighlightAnalysisCacheState
step u hash (get_call query item_id content) s = (get u hash query item_id content s).1
step u hash (insert_call query item_id content analysis) s =
    insert_analysis u hash query item_id content analysis s
step u hash (get_context_call query item_id) s = (get_match_context u query item_id s).1
step u hash (insert_context_call query item_id parent_hash match_context phase) s =
    insert_match_context u query item_id parent_hash match_context phase s
step u hash (set_analysis_call query item_id analysis) s =
    set_match_context_analysis u query item_id analysis s

unfoldable pub run :
    Unicode → (Text → ℕ) → List Call → HighlightAnalysisCacheState → HighlightAnalysisCacheState
run u hash [] s = s
run u hash (c ∷ cs) s = run u hash cs (step u hash c s)

step-IsBounded :
    (u : Unicode) (hash : Text → ℕ) (c : Call) (s : HighlightAnalysisCacheState)
    → IsBounded s
    → IsBounded (step u hash c s)
unfolding step
step-IsBounded u hash (get_call query item_id content) s b =
    get-IsBounded u hash s b query item_id content
step-IsBounded u hash (insert_call query item_id content analysis) s b =
    insert_analysis-IsBounded u hash s b query item_id content analysis
step-IsBounded u hash (get_context_call query item_id) s b =
    get_match_context-IsBounded u hash s b query item_id
step-IsBounded u hash (insert_context_call query item_id parent_hash match_context phase) s b =
    insert_match_context-IsBounded u hash s b query item_id parent_hash match_context phase
step-IsBounded u hash (set_analysis_call query item_id analysis) s b =
    set_match_context_analysis-IsBounded u hash s b query item_id analysis

keeps_IsBounded :
    (u : Unicode) (hash : Text → ℕ) (cs : List Call) (s : HighlightAnalysisCacheState)
    → IsBounded s
    → IsBounded (run u hash cs s)
unfolding run
keeps_IsBounded u hash [] s b = b
keeps_IsBounded u hash (c ∷ cs) s b =
    keeps_IsBounded u hash cs (step u hash c s) (step-IsBounded u hash c s b)

empty_state-IsBounded : IsBounded empty_state
unfolding lookup
empty_state-IsBounded = record {
  few = omega arith;
  once = refl;
  entries = λ k. (λ e. absurd (cc e), omega arith);
  contexts = λ k. (λ e. absurd (cc e), omega arith);
}

-- Whatever calls are made of a cache that was empty, it knows four queries at most, each once; its
-- two maps hold items for these queries only, and for each query 256 at most.
pub run-IsBounded :
    (u : Unicode) (hash : Text → ℕ) (cs : List Call) → IsBounded (run u hash cs empty_state)
run-IsBounded u hash cs = keeps_IsBounded u hash cs empty_state empty_state-IsBounded
