-- ===== src/Sync/Replay/TailCount.antt =====
-- Counting what `events_after_checkpoints` of purr-sync/src/replay.rs returns.
use clipkitty.Base.{
  ℕ, zero, suc, ◌+◌, ◌≤◌, ◌≡◌, refl, Bool, true, String, Option, none, some, List, [], ◌∷◌, ◌++◌,
  arith, length-append, length, drop, if◌then◌else◌,
}
use clipkitty.Base.Table.{order_by, insert_by}
use clipkitty.Sync.Event.{ItemEvent, ItemSnapshot}
use clipkitty.Sync.Replay.Tail.{
  watermark, push_event, group_by_item, event_order, position, position_of, skip_through,
  after_watermark, filter_groups, events_after_checkpoints,
}

-- How many rows pass a test.
abbrev pub count : {A : Type 0} → (A → Bool) → List A → ℕ
count p [] = 0
count p (x ∷ xs) = (if p x then 1 else 0) + count p xs

module _ {A : Type 0} (p : A → Bool) where
  pub count-++ : (xs ys : List A) → count p (xs ++ ys) ≡ count p xs + count p ys
  count-++ [] ys = omega arith
  count-++ (x ∷ xs) ys = ground (arith, count-++ xs ys)

  count-insert_by :
      (le : A → A → Bool) (x : A) (xs : List A) → count p (insert_by le x xs) ≡ count p (x ∷ xs)
  unfolding insert_by
  count-insert_by le x [] = refl
  count-insert_by le x (y ∷ ys) = ground (arith, count-insert_by le x ys)

  pub count-order_by : (le : A → A → Bool) (xs : List A) → count p (order_by le xs) ≡ count p xs
  unfolding order_by
  count-order_by le [] = refl
  count-order_by le (x ∷ xs) =
      ground (arith, count-insert_by le x (order_by le xs), count-order_by le xs)

  count-drop : (n : ℕ) (xs : List A) → count p (drop n xs) ≤ count p xs
  count-drop zero xs = omega arith
  count-drop (suc n) [] = omega arith
  count-drop (suc n) (x ∷ xs) = ground (arith, count-drop n xs)

abbrev pub grouped : (ItemEvent → Bool) → List (String × List ItemEvent) → ℕ
grouped p [] = 0
grouped p ((k, es) ∷ groups) = count p es + grouped p groups

module _ (p : ItemEvent → Bool) where
  grouped-push_event :
      (e : ItemEvent) (groups : List (String × List ItemEvent))
      → grouped p (push_event e groups) ≡ count p (e ∷ []) + grouped p groups
  unfolding push_event
  grouped-push_event e [] = ground arith
  grouped-push_event e ((k, es) ∷ groups) =
      ground (arith, count-++ p es (e ∷ []), grouped-push_event e groups)

  pub grouped-group_by_item :
      (groups : List (String × List ItemEvent)) (es : List ItemEvent)
      → grouped p (group_by_item groups es) ≡ grouped p groups + count p es
  unfolding group_by_item
  grouped-group_by_item groups [] = ground arith
  grouped-group_by_item groups (e ∷ es) =
      ground (arith, grouped-group_by_item (push_event e groups) es, grouped-push_event e groups)

  pub count-skip_through :
      (o : Option ℕ) (es : List ItemEvent) → count p (skip_through o es).0 ≤ count p es
  unfolding skip_through
  count-skip_through none es = omega arith
  count-skip_through (some i) es = count-drop p (i + 1) es

  count-after_watermark :
      (mark : Option String) (es : List ItemEvent)
      → count p (after_watermark mark es).0 ≤ count p es
  unfolding after_watermark
  count-after_watermark mark es = count-skip_through (position_of mark es) es

  count-filter_groups :
      (cs : List ItemSnapshot) (groups : List (String × List ItemEvent))
      → count p (filter_groups cs groups).0 ≤ grouped p groups
  unfolding filter_groups
  count-filter_groups cs [] = omega arith
  count-filter_groups cs ((k, es) ∷ groups) =
      let sorted = order_by event_order es in
      let kept = (after_watermark (watermark cs k) sorted).0 in
      ground (
        arith,
        count-++ p kept (filter_groups cs groups).0,
        count-after_watermark (watermark cs k) sorted,
        count-order_by p event_order es,
        count-filter_groups cs groups,
      )

-- Every event is replayed or covered.
abbrev anything : ItemEvent → Bool
anything _ = true

count-anything : (es : List ItemEvent) → count anything es ≡ length es
count-anything [] = refl
count-anything (e ∷ es) = ground (arith, count-anything es)

length-drop : (n : ℕ) (es : List ItemEvent) → n ≤ length es → length (drop n es) + n ≡ length es
length-drop zero es h = omega arith
length-drop (suc n) [] h = absurd (omega arith)
length-drop (suc n) (e ∷ es) h = ground (arith, length-drop n es)

InRange : Option ℕ → List ItemEvent → Type 0
InRange none es = Unit
InRange (some i) es = i + 1 ≤ length es

position-InRange : (i : String) (es : List ItemEvent) → InRange (position i es) es
unfolding position InRange
position-InRange i [] = tt
position-InRange i (e ∷ es) = ground (arith, position-InRange i es)

position_of-InRange :
    (mark : Option String) (es : List ItemEvent) → InRange (position_of mark es) es
unfolding InRange
position_of-InRange none es = tt
position_of-InRange (some i) es = position-InRange i es

length-skip_through :
    (o : Option ℕ) (es : List ItemEvent)
    → InRange o es
    → length (skip_through o es).0 + (skip_through o es).1 ≡ length es
unfolding skip_through InRange
length-skip_through none es h = omega arith
length-skip_through (some i) es h = length-drop (i + 1) es h

length-order_by : (es : List ItemEvent) → length (order_by event_order es) ≡ length es
length-order_by es = ground (
  arith,
  count-order_by anything event_order es,
  count-anything es,
  count-anything (order_by event_order es),
)

length-filter_groups :
    (cs : List ItemSnapshot) (groups : List (String × List ItemEvent))
    → length (filter_groups cs groups).0 + (filter_groups cs groups).1 ≡ grouped anything groups
unfolding filter_groups after_watermark
length-filter_groups cs [] = refl
length-filter_groups cs ((k, es) ∷ groups) =
    let sorted = order_by event_order es in
    let o = position_of (watermark cs k) sorted in
    ground (
      arith,
      length-skip_through o sorted (position_of-InRange (watermark cs k) sorted),
      length-append (skip_through o sorted).0 (filter_groups cs groups).0,
      length-order_by es,
      count-anything es,
      length-filter_groups cs groups,
    )

-- The events that a full resync replays and the number that its checkpoints cover add up to the
-- tail, and no event stands among the replayed ones more often than in the tail, by any test.
pub events_after_checkpoints-count :
    (cs : List ItemSnapshot) (tail : List ItemEvent) (p : ItemEvent → Bool)
    → let (kept, covered) = events_after_checkpoints cs tail in
      (length kept + covered ≡ length tail) × (count p kept ≤ count p tail)
unfolding events_after_checkpoints
events_after_checkpoints-count cs tail p = (
  ground (
    arith,
    length-filter_groups cs (group_by_item [] tail),
    grouped-group_by_item anything [] tail,
    count-anything tail,
  ),
  ground (arith, count-filter_groups p cs (group_by_item [] tail), grouped-group_by_item p [] tail),
)
