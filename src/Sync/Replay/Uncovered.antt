-- ===== src/Sync/Replay/Uncovered.antt =====
-- The items that no checkpoint covers, in `events_after_checkpoints` of purr-sync/src/replay.rs.
use clipkitty.Base.{
  ◌≡◌, refl, Bool, false, ◌&&◌, String, none, List, [], ◌∷◌, ◌++◌, All, arith, Bool-cases, inl, inr,
  ap, ◌∙◌, str_eq, eq_iff,
}
use clipkitty.Base.Table.{order_by}
use clipkitty.Sync.Event.{ItemEvent, ItemSnapshot}
use clipkitty.Sync.Replay.Tail.{
  watermark, push_event, group_by_item, event_order, position_of, skip_through, after_watermark,
  filter_groups, events_after_checkpoints,
}
use clipkitty.Sync.Replay.TailCount.{
  count, count-++, count-order_by, grouped, grouped-group_by_item, count-skip_through,
}

-- The events of each group are of the item that is the group's key.
HasKeys : List (String × List ItemEvent) → Type 0
HasKeys [] = Unit
HasKeys ((k, es) ∷ groups) = All (λ e. e.item_id ≡ k) es × HasKeys groups

All-append :
    (P : ItemEvent → Type 0) (es : List ItemEvent) (e : ItemEvent)
    → All P es
    → P e
    → All P (es ++ e ∷ [])
All-append P [] e h p = (p, tt)
All-append P (x ∷ xs) e (h, hs) p = (h, All-append P xs e hs p)

push_event-HasKeys :
    (e : ItemEvent) (groups : List (String × List ItemEvent))
    → HasKeys groups
    → HasKeys (push_event e groups)
unfolding push_event HasKeys
push_event-HasKeys e [] h = ((refl, tt), tt)
push_event-HasKeys e ((k, es) ∷ groups) (h, hs) =
    let append = λ (q : e.item_id ≡ k). All-append (λ x. x.item_id ≡ k) es e h q in
    ground (arith, append, push_event-HasKeys e groups hs, eq_iff k e.item_id, h, hs)

group_by_item-HasKeys :
    (groups : List (String × List ItemEvent)) (es : List ItemEvent)
    → HasKeys groups
    → HasKeys (group_by_item groups es)
unfolding group_by_item
group_by_item-HasKeys groups [] h = h
group_by_item-HasKeys groups (e ∷ es) h =
    group_by_item-HasKeys (push_event e groups) es (push_event-HasKeys e groups h)

-- The events of an item that pass a test.
abbrev pub of_item : String → (ItemEvent → Bool) → ItemEvent → Bool
of_item i p e = str_eq e.item_id i && p e

module _ (i : String) (p : ItemEvent → Bool) where
  count-of_item :
      (k : String) (es : List ItemEvent)
      → All (λ e. e.item_id ≡ k) es
      → str_eq k i ≡ false
      → count (of_item i p) es ≡ 0
  count-of_item k [] h n = refl
  count-of_item k (e ∷ es) (h, hs) n = ground (arith, count-of_item k es hs n, h, n)

  count-uncovered :
      (cs : List ItemSnapshot) (k : String) (es : List ItemEvent)
      → watermark cs i ≡ none
      → All (λ e. e.item_id ≡ k) es
      → let sorted = order_by event_order es in
        count (of_item i p) (after_watermark (watermark cs k) sorted).0 ≡ count (of_item i p) es
  unfolding after_watermark skip_through
  count-uncovered cs k es none_covers h =
      let q = of_item i p in
      let sorted = order_by event_order es in
      elim (Bool-cases (str_eq k i)) [
        | inl e ↦
            rw (ap (watermark cs) ((eq_iff k i).0 e) ∙ none_covers)
              (count-order_by q event_order es)
        | inr n ↦ ground (
          arith,
          count-skip_through q (position_of (watermark cs k) sorted) sorted,
          count-order_by q event_order es,
          count-of_item k es h n,
        )
      ]

  count-filter_groups_uncovered :
      (cs : List ItemSnapshot) (groups : List (String × List ItemEvent))
      → watermark cs i ≡ none
      → HasKeys groups
      → count (of_item i p) (filter_groups cs groups).0 ≡ grouped (of_item i p) groups
  unfolding filter_groups HasKeys
  count-filter_groups_uncovered cs [] w h = refl
  count-filter_groups_uncovered cs ((k, es) ∷ groups) w (h, hs) =
      let q = of_item i p in
      let kept = (after_watermark (watermark cs k) (order_by event_order es)).0 in
      ground (
        arith,
        count-++ q kept (filter_groups cs groups).0,
        count-uncovered cs k es w h,
        count-filter_groups_uncovered cs groups w hs,
      )

  -- Where no checkpoint names a covering event for an item, every event of the item in the tail is
  -- replayed, as often as it stands there, by any test.
  pub events_after_checkpoints-uncovered :
      (cs : List ItemSnapshot) (tail : List ItemEvent)
      → watermark cs i ≡ none
      → count (of_item i p) (events_after_checkpoints cs tail).0 ≡ count (of_item i p) tail
  unfolding events_after_checkpoints HasKeys
  events_after_checkpoints-uncovered cs tail w =
      let groups = group_by_item [] tail in
      ground (
        arith,
        grouped-group_by_item (of_item i p) [] tail,
        count-filter_groups_uncovered cs groups w (group_by_item-HasKeys [] tail tt),
      )
