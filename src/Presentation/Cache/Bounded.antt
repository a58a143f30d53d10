-- ===== src/Presentation/Cache/Bounded.antt =====
-- The size of the cache: it holds no more queries than are allowed, each once, and its maps hold
-- nothing for another query, and for each no more items than are allowed.
use clipkitty.Base.{
  ◌≤◌, ltb, Bool, true, false, ◌&&◌, ◌||◌, not, String, str_eq, List, [], ◌∷◌, ◌++◌, length, any,
  is_some, ◌≡◌, ◌↔◌, refl, ◌∙◌, inl, inr, Bool-cases, arith,
}
use mathlib.Core.Path.{subst}
use clipkitty.Base.Map.{IsEq, lookup, insert, remove, lookup-insert, lookup-remove, length-insert}
use clipkitty.Ranking.Chars.{Text, text_eq}
use clipkitty.Ranking.Chars.Laws.{text_eq_sound, text_eq_refl}
use clipkitty.Presentation.Cache.{
  HighlightAnalysisCacheState, Items, ByQuery, max_cached_queries, max_cached_items_per_query,
  remove_first, evict, touch_query, or_default, insert_item,
}

-- `text_eq` tells equality.
pub text_eq-IsEq : IsEq text_eq
text_eq-IsEq = record {
  eq_iff = λ a b. (text_eq_sound a b, λ e. subst (λ t. text_eq a t ≡ true) e (text_eq_refl a));
}

abbrev pub has : List Text → Text → Bool
has order k = any (λ q. text_eq q k) order

abbrev pub distinct : List Text → Bool
distinct [] = true
distinct (q ∷ qs) = not (has qs q) && distinct qs

-- The queries of a map are in the order, and none has too many items.
abbrev pub Listed : {V : Type 0} → List Text → ByQuery V → Type 0
Listed order m =
    (k : Text)
    → (is_some (lookup text_eq k m) ≡ true → has order k ≡ true)
      × (length (or_default (lookup text_eq k m)) ≤ max_cached_items_per_query)

pub record IsBounded (s : HighlightAnalysisCacheState) : Type 0 where
  pub few : length s.query_order ≤ max_cached_queries
  pub once : distinct s.query_order ≡ true
  pub entries : Listed s.query_order s.entries_by_query
  pub contexts : Listed s.query_order s.match_contexts_by_query

Listed-remove :
    {V : Type 0} (oldest : Text) (newer : List Text) (m : ByQuery V)
    → Listed (oldest ∷ newer) m
    → Listed newer (remove text_eq oldest m)
Listed-remove oldest newer m h k =
    let (listed, size) = h k in
    (
      λ e. ground (arith, lookup-remove text_eq text_eq-IsEq oldest k m, listed),
      ground (arith, lookup-remove text_eq text_eq-IsEq oldest k m, size),
    )

evict-IsBounded :
    (order : List Text) (s : HighlightAnalysisCacheState)
    → distinct order ≡ true
    → Listed order s.entries_by_query
    → Listed order s.match_contexts_by_query
    → IsBounded (evict order s)
unfolding evict
evict-IsBounded [] s d e c = record { few = omega arith; once = refl; entries = e; contexts = c }
evict-IsBounded (oldest ∷ newer) s d e c =
    elim (Bool-cases (ltb max_cached_queries (length (oldest ∷ newer)))) [
      | inl many ↦ rw many (
          evict-IsBounded newer _ (ground arith) (Listed-remove oldest newer s.entries_by_query e)
            (Listed-remove oldest newer s.match_contexts_by_query c))
      | inr few ↦ rw few (record { few = ground arith; once = d; entries = e; contexts = c })
    ]

has-append : (xs : List Text) (k j : Text) → has (xs ++ k ∷ []) j ≡ (has xs j || text_eq k j)
has-append [] k j = ground arith
has-append (x ∷ xs) k j = ground (arith, has-append xs k j)

module _ (k : Text) where
  same : (a b : Text) → (text_eq a b ≡ true) ↔ (a ≡ b)
  same = text_eq-IsEq.eq_iff

  has-remove_first :
      (qs : List Text) (j : Text)
      → has qs j ≡ true
      → (has (remove_first k qs) j || text_eq k j) ≡ true
  unfolding remove_first
  has-remove_first [] j h = ground arith
  has-remove_first (q ∷ qs) j h =
      ground (arith, same q k, same q j, same k j, has-remove_first qs j)

  has-remove_first-le :
      (qs : List Text) (j : Text) → has qs j ≡ false → has (remove_first k qs) j ≡ false
  unfolding remove_first
  has-remove_first-le [] j h = refl
  has-remove_first-le (q ∷ qs) j h = ground (arith, has-remove_first-le qs j)

  has-remove_first_self : (qs : List Text) → distinct qs ≡ true → has (remove_first k qs) k ≡ false
  unfolding remove_first
  has-remove_first_self [] d = refl
  has-remove_first_self (q ∷ qs) d = elim (Bool-cases (text_eq q k)) [
    | inl e ↦ let eq : q ≡ k = (same q k).0 e in rw e (rw (← eq) (ground arith))
    | inr e ↦ rw e (ground (arith, e, has-remove_first_self qs))
  ]

  distinct-remove_first :
      (qs : List Text) → distinct qs ≡ true → distinct (remove_first k qs) ≡ true
  unfolding remove_first
  distinct-remove_first [] d = refl
  distinct-remove_first (q ∷ qs) d =
      ground (arith, distinct-remove_first qs, has-remove_first-le qs q)

  distinct-append :
      (qs : List Text) → distinct qs ≡ true → has qs k ≡ false → distinct (qs ++ k ∷ []) ≡ true
  distinct-append [] d h = refl
  distinct-append (q ∷ qs) d h =
      ground (arith, same q k, same k q, has-append qs k q, distinct-append qs)

  evict-has :
      (xs : List Text) (s : HighlightAnalysisCacheState)
      → has (evict (xs ++ k ∷ []) s).query_order k ≡ true
  unfolding evict
  evict-has [] s = ground (arith, text_eq_refl k)
  evict-has (x ∷ xs) s = elim (Bool-cases (ltb max_cached_queries (length (x ∷ xs ++ k ∷ [])))) [
    | inl many ↦ rw many (evict-has xs _)
    | inr few ↦ rw few (ground (arith, has-append xs k k, text_eq_refl k))
  ]

  Listed-touched :
      {V : Type 0} (order : List Text) (m : ByQuery V)
      → Listed order m
      → Listed (remove_first k order ++ k ∷ []) m
  Listed-touched order m h j =
      let (listed, size) = h j in
      (λ e. has-append (remove_first k order) k j ∙ has-remove_first order j (listed e), size)

  pub touch_query-IsBounded :
      (s : HighlightAnalysisCacheState) → IsBounded s → IsBounded (touch_query k s)
  unfolding touch_query
  touch_query-IsBounded s b =
      evict-IsBounded (remove_first k s.query_order ++ k ∷ []) s
        (distinct-append (remove_first k s.query_order) (distinct-remove_first s.query_order b.once)
          (has-remove_first_self s.query_order b.once))
        (Listed-touched s.query_order s.entries_by_query b.entries)
        (Listed-touched s.query_order s.match_contexts_by_query b.contexts)

  pub touch_query-has :
      (s : HighlightAnalysisCacheState) → has (touch_query k s).query_order k ≡ true
  unfolding touch_query
  touch_query-has s = evict-has (remove_first k s.query_order) s

pub length-insert_item :
    {V : Type 0} (item_id : String) (v : V) (items : Items V)
    → length items ≤ max_cached_items_per_query
    → length (insert_item item_id v items) ≤ max_cached_items_per_query
unfolding insert_item
length-insert_item item_id v items h = ground (arith, length-insert str_eq item_id v items)

-- A map for a query that is in the order stays listed when the items of the query change.
pub Listed-insert :
    {V : Type 0} (order : List Text) (k : Text) (items : Items V) (m : ByQuery V)
    → has order k ≡ true
    → length items ≤ max_cached_items_per_query
    → Listed order m
    → Listed order (insert text_eq k items m)
Listed-insert order k items m has_k size h j =
    let (listed, few) = h j in
    let eq = text_eq-IsEq.eq_iff k j in
    let found = lookup-insert text_eq text_eq-IsEq k j items m in
    elim (Bool-cases (text_eq k j)) [
      | inl e ↦ rw (found, e) (λ _. subst (λ t. has order t ≡ true) (eq.0 e) has_k, size)
      | inr e ↦ rw (found, e) (listed, few)
    ]
