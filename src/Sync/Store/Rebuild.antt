-- ===== src/Sync/Store/Rebuild.antt =====
-- What the index queue reads after it was replaced by a full rebuild.
use clipkitty.Base.{
  take, All-take, ℕ, suc, ℤ, ◌≡◌, refl, ap, ◌∙◌, true, false, String, Option, some, none, List, [],
  ◌∷◌, All, arith, str_eq, is_some, ◌==◌,
}
use clipkitty.Base.Table.{order_by, insert_by, upsert, All-order_by}
use clipkitty.Sync.Types.{IndexQueueEntry, IndexQueueOperation}
use clipkitty.Sync.Event.{ok}
use clipkitty.Sync.Db.{Env, World, QueueRow}
use clipkitty.Sync.Monad.{IsQuiet, read, write, exec, statement}
use clipkitty.Sync.Store.Queue.{
  index_queue_reset_key, as_str, from_str, queue_key, reset_row, item_row, queue_order,
  decode_operation, entry_of_queue_row, collect_entries, upsert_items, fetch_index_queue,
  replace_index_queue_with_full_rebuild,
}

abbrev pub IsUpsert : IndexQueueEntry → Type 0
IsUpsert (IndexQueueEntry.upsert _) = Unit
IsUpsert _ = ⊥

-- A row that asks for an item to be indexed.
abbrev IsUpsertRow : QueueRow → Type 0
IsUpsertRow r = (r.operation ≡ "upsert") × (is_some r.item_id ≡ true)

module _ {A : Type 0} (P : A → Type 0) where
  All-upsert : (key : A → String) (r : A) (rs : List A) → P r → All P rs → All P (upsert key r rs)
  unfolding upsert
  All-upsert key r [] p h = (p, tt)
  All-upsert key r (s ∷ rs) p (h, hs) = ground (arith, All-upsert key r rs p hs, p, h, hs)

upsert_items-IsUpsertRow :
    (now : ℤ) (ids : List String) (rows : List QueueRow)
    → All IsUpsertRow rows
    → All IsUpsertRow (upsert_items now ids rows)
unfolding upsert_items item_row as_str
upsert_items-IsUpsertRow now [] rows h = h
upsert_items-IsUpsertRow now (i ∷ ids) rows h = upsert_items-IsUpsertRow now ids _ (
    All-upsert IsUpsertRow queue_key (item_row now i IndexQueueOperation.upsert) rows (refl, refl)
      h)

upsert_items-reset_row :
    (now : ℤ) (ids : List String) (rows : List QueueRow)
    → All (λ i. str_eq index_queue_reset_key i ≡ false) ids
    → upsert_items now ids (reset_row now ∷ rows) ≡ reset_row now ∷ upsert_items now ids rows
unfolding upsert_items upsert reset_row item_row
upsert_items-reset_row now [] rows h = refl
upsert_items-reset_row now (i ∷ ids) rows (h, hs) = rw h (
    upsert_items-reset_row now ids
      (upsert queue_key (item_row now i IndexQueueOperation.upsert) rows) hs)

insert_by-reset_row :
    (now : ℤ) (rows : List QueueRow)
    → All IsUpsertRow rows
    → insert_by queue_order (reset_row now) rows ≡ reset_row now ∷ rows
unfolding insert_by reset_row as_str
insert_by-reset_row now [] h = refl
insert_by-reset_row now (r ∷ rs) ((o, s), hs) = rw o refl

some_item : (o : Option String) → is_some o ≡ true → (i : String) × (o ≡ some i)
some_item none e = absurd cc
some_item (some i) e = (i, refl)

entry_of_queue_row-upsert :
    (r : QueueRow) (i : String)
    → r.operation ≡ "upsert"
    → r.item_id ≡ some i
    → entry_of_queue_row r ≡ ok (IndexQueueEntry.upsert i)
unfolding entry_of_queue_row decode_operation from_str
entry_of_queue_row-upsert r i o e = rw (o, e) refl

collect_entries-cons :
    (r : QueueRow) (rs : List QueueRow) (e : IndexQueueEntry) (es : List IndexQueueEntry)
    → entry_of_queue_row r ≡ ok e
    → collect_entries rs ≡ ok es
    → collect_entries (r ∷ rs) ≡ ok (e ∷ es)
unfolding collect_entries entry_of_queue_row
collect_entries-cons r rs e es x y = ground arith

collect_entries-IsUpsert :
    (rows : List QueueRow)
    → All IsUpsertRow rows
    → (es : List IndexQueueEntry) × (collect_entries rows ≡ ok es) × All IsUpsert es
unfolding collect_entries
collect_entries-IsUpsert [] h = ([], refl, tt)
collect_entries-IsUpsert (r ∷ rs) ((o, s), hs) =
    let (i, item) = some_item r.item_id s in
    let (es, read_back, h) = collect_entries-IsUpsert rs hs in
    (
      IndexQueueEntry.upsert i ∷ es,
      collect_entries-cons r rs (IndexQueueEntry.upsert i) es (entry_of_queue_row-upsert r i o item)
          read_back,
      (tt, h),
    )

collect_entries-reset_row :
    (now : ℤ) (rows : List QueueRow) (es : List IndexQueueEntry)
    → collect_entries rows ≡ ok es
    → collect_entries (reset_row now ∷ rows) ≡ ok (IndexQueueEntry.reset ∷ es)
unfolding collect_entries entry_of_queue_row decode_operation from_str reset_row as_str
collect_entries-reset_row now rows es e = rw e refl

-- What the rebuilt queue holds, in the order in which it is read.
rebuilt_rows :
    (now : ℤ) (ids : List String)
    → All (λ i. str_eq index_queue_reset_key i ≡ false) ids
    → order_by queue_order (upsert_items now ids (reset_row now ∷ []))
      ≡ reset_row now ∷ order_by queue_order (upsert_items now ids [])
unfolding order_by
rebuilt_rows now ids h =
    ap (order_by queue_order) (upsert_items-reset_row now ids [] h)
    ∙ insert_by-reset_row now (order_by queue_order (upsert_items now ids []))
        (All-order_by IsUpsertRow queue_order _ (upsert_items-IsUpsertRow now ids [] tt))

module _ {J : Type 0} (env : Env J) where
  -- Where no statement fails and no item has the key of the reset, the queue reads back after a
  -- full rebuild, whatever it held before: a reset comes first, and all else are upserts.
  pub fetch_index_queue-rebuilt :
      (ids : List String) (limit : ℕ) (w : World J)
      → IsQuiet env
      → All (λ i. str_eq index_queue_reset_key i ≡ false) ids
      → let w' = (replace_index_queue_with_full_rebuild env ids w).1 in
        (es : List IndexQueueEntry) × ((fetch_index_queue env (suc limit) w').0
          ≡ ok (IndexQueueEntry.reset ∷ es))
        × All IsUpsert es
  unfolding replace_index_queue_with_full_rebuild fetch_index_queue read write exec statement upsert
  fetch_index_queue-rebuilt ids limit w quiet h =
      let now = env.clock w.ticks in
      let positive : (suc limit == 0) ≡ false = ground arith in
      let rows = order_by queue_order (upsert_items now ids []) in
      let (es, read_back, upserts) = collect_entries-IsUpsert (take limit rows) (
        All-take IsUpsertRow limit rows
          (All-order_by IsUpsertRow queue_order _ (upsert_items-IsUpsertRow now ids [] tt))) in
      (
        es,
        rw (quiet w.ticks, positive, quiet (suc w.ticks), rebuilt_rows now ids h)
            (collect_entries-reset_row now (take limit rows) es read_back),
        upserts,
      )
