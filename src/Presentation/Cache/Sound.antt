-- ===== src/Presentation/Cache/Sound.antt =====
-- What the cache holds: analyses that some content has for the query.
use clipkitty.Base.{
  ℕ, ltb, Option, none, some, String, str_eq, eq_iff, List, [], ◌∷◌, ◌++◌, length, ◌≡◌, refl, sym,
  ap, ◌∙◌, ◌⊎◌, inl, inr, Bool-cases, Option-cases, arith,
}
use mathlib.Core.Path.{subst}
use clipkitty.Base.Map.{IsEq, lookup, insert, remove, lookup-insert, lookup-remove}
use clipkitty.Ranking.Chars.{Text, Unicode, text_eq, trim}
use clipkitty.Ranking.Chars.Trim.{trim-trim}
use clipkitty.Highlight.Types.{HighlightAnalysis}
use clipkitty.Highlight.Analysis.{analyze_content_for_query}
use clipkitty.Presentation.Cache.{
  HighlightAnalysisCacheState, CachedHighlightAnalysis, Items, ByQuery, max_cached_queries,
  normalized_query, evict, remove_first, touch_query, or_default, insert_item, insert_for_query,
  item_in, find_item, get_entry, touch_on_hit, get, insert_analysis,
}
use clipkitty.Presentation.Cache.Bounded.{text_eq-IsEq}

str_eq-IsEq : IsEq str_eq
str_eq-IsEq = record { eq_iff = λ a b. eq_iff a b }

-- An entry that is found after a query was touched was there before.
evict-find :
    (order : List Text) (s : HighlightAnalysisCacheState) (k : Text) (id : String)
    (e : CachedHighlightAnalysis)
    → find_item k id (evict order s).entries_by_query ≡ some e
    → find_item k id s.entries_by_query ≡ some e
unfolding evict
evict-find [] s k id e h = h
evict-find (oldest ∷ newer) s k id e h =
    elim (Bool-cases (ltb max_cached_queries (length (oldest ∷ newer)))) [
      | inl many ↦
          let rest =
            evict-find newer
              (record s {
                entries_by_query = remove text_eq oldest s.entries_by_query;
                match_contexts_by_query = remove text_eq oldest s.match_contexts_by_query;
              })
              k id e (rw (many, evict) at h) in
          ground (arith, rest, lookup-remove text_eq text_eq-IsEq oldest k s.entries_by_query)
      | inr few ↦ rw (few, evict) at h
    ]

insert_item-lookup :
    {V : Type 0} (id j : String) (v e : V) (items : Items V)
    → lookup str_eq j (insert_item id v items) ≡ some e
    → ((id ≡ j) × (v ≡ e)) ⊎ (lookup str_eq j items ≡ some e)
unfolding insert_item
insert_item-lookup id j v e items h =
    ground (arith, lookup-insert str_eq str_eq-IsEq id j v items, eq_iff id j, h)

item_in-or_default :
    {V : Type 0} (j : String) (found : Option (Items V)) (e : V)
    → lookup str_eq j (or_default found) ≡ some e
    → item_in j found ≡ some e
unfolding lookup
item_in-or_default j none e h = cc
item_in-or_default j (some items) e h = h

insert_for_query-find :
    {V : Type 0} (k q : Text) (id j : String) (v e : V) (m : ByQuery V)
    → find_item q j (insert_for_query k id v m) ≡ some e
    → ((k ≡ q) × (v ≡ e)) ⊎ (find_item q j m ≡ some e)
unfolding insert_for_query
insert_for_query-find k q id j v e m h =
    let items = or_default (lookup text_eq k m) in
    let found = lookup-insert text_eq text_eq-IsEq k q (insert_item id v items) m in
    elim (Bool-cases (text_eq k q)) [
      | inr other ↦
          let old : find_item q j m ≡ some e = sym (rw other at (ap (item_in j) found)) ∙ h in
          inr old
      | inl equal ↦
          let new : lookup str_eq j (insert_item id v items) ≡ some e =
            sym (rw equal at (ap (item_in j) found)) ∙ h in
          let same : k ≡ q = (text_eq-IsEq.eq_iff k q).0 equal in
          elim (insert_item-lookup id j v e items new) [
            | inl (_, eq) ↦ inl (same, eq)
            | inr old ↦ inr (
                subst (λ t. find_item t j m ≡ some e) same
                  (item_in-or_default j (lookup text_eq k m) e old))
          ]
    ]

-- `Seen` holds of the contents that were analysed.
module _ (u : Unicode) (hash : Text → ℕ) (Seen : Text → Type 0) where
  -- The content, one of those seen, that has this analysis for the query.
  abbrev pub HasContent : Text → CachedHighlightAnalysis → Type 0
  HasContent query e =
      (c : Text) × Seen c
      × (hash c ≡ e.content_hash)
      × (analyze_content_for_query u c query ≡ some e.analysis)

  -- Each entry is the analysis of some content seen, with the entry's hash.
  pub record IsSound (s : HighlightAnalysisCacheState) : Type 0 where
    pub entries :
        (k : Text) (id : String) (e : CachedHighlightAnalysis)
        → find_item k id s.entries_by_query ≡ some e
        → HasContent k e

  touch_query-IsSound :
      (k : Text) (s : HighlightAnalysisCacheState) → IsSound s → IsSound (touch_query k s)
  unfolding touch_query
  touch_query-IsSound k s h = record {
    entries = λ q id e found.
        h.entries q id e (evict-find (remove_first k s.query_order ++ k ∷ []) s q id e found);
  }

  touch_on_hit-IsSound :
      {A : Type 0} (k : Text) (hit : Option A) (s : HighlightAnalysisCacheState)
      → IsSound s
      → IsSound (touch_on_hit k hit s)
  touch_on_hit-IsSound k none s h = h
  touch_on_hit-IsSound k (some a) s h = touch_query-IsSound k s h

  insert_for_query-IsSound :
      (k : Text) (id : String) (v : CachedHighlightAnalysis) (s : HighlightAnalysisCacheState)
      → HasContent k v
      → IsSound s
      → IsSound (record s { entries_by_query = insert_for_query k id v s.entries_by_query })
  insert_for_query-IsSound k id v s content h = record {
    entries = λ q j e found. elim (insert_for_query-find k q id j v e s.entries_by_query found) [
      | inl (same, eq) ↦ subst (λ t. HasContent t e) same (subst (HasContent k) eq content)
      | inr before ↦ h.entries q j e before
    ];
  }

  normalized_query-trim :
      (query k : Text)
      → normalized_query u query ≡ some k
      → (content : Text)
      → analyze_content_for_query u content k ≡ analyze_content_for_query u content query
  unfolding normalized_query analyze_content_for_query
  normalized_query-trim query k e content =
      let same : trim u query ≡ k = ground arith in rw (← same, trim-trim u query) refl

  get_entry-lookup :
      (h : ℕ) (id j : String) (items : Items CachedHighlightAnalysis) (e : CachedHighlightAnalysis)
      → lookup str_eq j (get_entry h id items).1 ≡ some e
      → lookup str_eq j items ≡ some e
  unfolding get_entry
  get_entry-lookup h id j items e found =
      ground (arith, lookup-remove str_eq str_eq-IsEq id j items, found)

  get_entry-hit :
      (h : ℕ) (id : String) (items : Items CachedHighlightAnalysis) (a : HighlightAnalysis)
      → (get_entry h id items).0 ≡ some a
      → (e : CachedHighlightAnalysis) × (lookup str_eq id items ≡ some e)
        × (e.content_hash ≡ h)
        × (e.analysis ≡ a)
  unfolding get_entry
  get_entry-hit h id items a hit = elim (Option-cases (lookup str_eq id items)) [
    | inl none_there ↦ ground arith
    | inr (e, there) ↦ (e, there, ground (arith, hit, there), ground (arith, hit, there))
  ]

  -- A map of a query that is there is replaced by one that has no other entry.
  replace-find :
      (k q : Text) (j : String) (items items' : Items CachedHighlightAnalysis)
      (m : ByQuery CachedHighlightAnalysis) (e : CachedHighlightAnalysis)
      → lookup text_eq k m ≡ some items
      → (lookup str_eq j items' ≡ some e → lookup str_eq j items ≡ some e)
      → find_item q j (insert text_eq k items' m) ≡ some e
      → find_item q j m ≡ some e
  replace-find k q j items items' m e there fewer h =
      let found = lookup-insert text_eq text_eq-IsEq k q items' m in
      elim (Bool-cases (text_eq k q)) [
        | inr other ↦
            let old : find_item q j m ≡ some e = sym (rw other at (ap (item_in j) found)) ∙ h in old
        | inl equal ↦
            let new : lookup str_eq j items' ≡ some e =
              sym (rw equal at (ap (item_in j) found)) ∙ h in
            let same : k ≡ q = (text_eq-IsEq.eq_iff k q).0 equal in
            subst (λ t. find_item t j m ≡ some e) same (ap (item_in j) there ∙ fewer new)
      ]

  pub get-IsSound :
      (query : Text) (id : String) (content : Text) (s : HighlightAnalysisCacheState)
      → IsSound s
      → IsSound (get u hash query id content s).1
  unfolding get
  get-IsSound query id content s h = elim (Option-cases (normalized_query u query)) [
    | inl e ↦ rw (e, get) h
    | inr (k, e) ↦ elim (Option-cases (lookup text_eq k s.entries_by_query)) [
      | inl f ↦ rw (e, f, get) h
      | inr (items, f) ↦
          let found = get_entry (hash content) id items in
          rw (e, f, get)
            (touch_on_hit-IsSound k found.0 _ (record {
              entries = λ q j entry there. h.entries q j entry (
                  replace-find k q j items found.1 s.entries_by_query entry f
                    (get_entry-lookup (hash content) id j items entry) there);
            }))
    ]
  ]

  -- A hit is the analysis of a content seen, with the same hash.
  pub get-hit :
      (query : Text) (id : String) (content : Text) (s : HighlightAnalysisCacheState)
      (a : HighlightAnalysis)
      → IsSound s
      → (get u hash query id content s).0 ≡ some a
      → (c : Text) × Seen c
        × (hash c ≡ hash content)
        × (analyze_content_for_query u c query ≡ some a)
  unfolding get
  get-hit query id content s a h hit = elim (Option-cases (normalized_query u query)) [
    | inl e ↦ absurd (ground (arith, (rw (e, get) at hit)))
    | inr (k, e) ↦ elim (Option-cases (lookup text_eq k s.entries_by_query)) [
      | inl f ↦ absurd (ground (arith, (rw (e, f, get) at hit)))
      | inr (items, f) ↦
          let (entry, there, same_hash, same_analysis) =
            get_entry-hit (hash content) id items a (rw (e, f, get) at hit) in
          let (c, seen, hashed, analyzed) = h.entries k id entry (ap (item_in id) f ∙ there) in
          (
            c,
            seen,
            hashed ∙ same_hash,
            sym (normalized_query-trim query k e c) ∙ analyzed ∙ ap some same_analysis,
          )
    ]
  ]

  pub insert_analysis-IsSound :
      (query : Text) (id : String) (content : Text) (a : HighlightAnalysis)
      (s : HighlightAnalysisCacheState)
      → Seen content
      → analyze_content_for_query u content query ≡ some a
      → IsSound s
      → IsSound (insert_analysis u hash query id content a s)
  unfolding insert_analysis
  insert_analysis-IsSound query id content a s seen analyzed h =
      elim (Option-cases (normalized_query u query)) [
        | inl e ↦ rw (e, insert_analysis) h
        | inr (k, e) ↦
            rw (e, insert_analysis)
              (insert_for_query-IsSound k id (record { content_hash = hash content; analysis = a })
                (touch_query k s)
                (content, seen, refl, normalized_query-trim query k e content ∙ analyzed)
                (touch_query-IsSound k s h))
      ]
