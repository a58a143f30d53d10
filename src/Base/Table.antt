-- ===== src/Base/Table.antt =====
-- SQLite tables as lists of rows in insertion order, and the statements that the code makes on a
-- table whose primary key is a text.
use clipkitty.Base.{
  ◌≡◌, refl, ap, Bool, true, false, ◌||◌, String, Option, none, some, List, [], ◌∷◌, ◌++◌, arith,
  All, str_eq, eq_iff, if◌then◌else◌, any, is_some,
}

module _ {ℓ} {A : Type ℓ} where
  -- SELECT … WHERE key = k, of which there is one row at most.
  unfoldable pub find : (A → String) → String → List A → Option A
  find key k [] = none
  find key k (r ∷ rs) = if str_eq (key r) k then some r else find key k rs

  -- INSERT … ON CONFLICT(key) DO UPDATE SET every column.
  unfoldable pub upsert : (A → String) → A → List A → List A
  upsert key r [] = r ∷ []
  upsert key r (s ∷ rs) = if str_eq (key s) (key r) then r ∷ rs else s ∷ upsert key r rs

  -- INSERT OR IGNORE.
  unfoldable pub insert_ignore : (A → String) → A → List A → List A
  unfolding find
  insert_ignore key r rs = if is_some (find key (key r) rs) then rs else rs ++ r ∷ []

  -- DELETE … WHERE key = k.
  unfoldable pub delete : (A → String) → String → List A → List A
  delete key k [] = []
  delete key k (r ∷ rs) = let rest = delete key k rs in if str_eq (key r) k then rest else r ∷ rest

  -- INSERT OR REPLACE: the old row goes, and the new one stands last.
  unfoldable pub replace : (A → String) → A → List A → List A
  unfolding delete
  replace key r rs = delete key (key r) rs ++ r ∷ []

  -- UPDATE … SET … WHERE test.
  unfoldable pub update_where : (A → Bool) → (A → A) → List A → List A
  update_where test set [] = []
  update_where test set (r ∷ rs) = (if test r then set r else r) ∷ update_where test set rs

  -- ORDER BY: an insertion sort, in which rows that compare equal keep the order of the table.
  unfoldable pub insert_by : (A → A → Bool) → A → List A → List A
  insert_by le r [] = r ∷ []
  insert_by le r (s ∷ rs) = if le r s then r ∷ s ∷ rs else s ∷ insert_by le r rs

  unfoldable pub order_by : (A → A → Bool) → List A → List A
  unfolding insert_by
  order_by le [] = []
  order_by le (r ∷ rs) = insert_by le r (order_by le rs)

-- column IN (…).
unfoldable pub contains : List String → String → Bool
contains ks k = any (λ j. str_eq j k) ks

module _ {ℓ} {A : Type ℓ} (key : A → String) where
  pub find-upsert :
      (r : A) (rs : List A) (k : String)
      → find key k (upsert key r rs) ≡ (if str_eq (key r) k then some r else find key k rs)
  unfolding find upsert
  find-upsert r [] k = refl
  find-upsert r (s ∷ rs) k =
      ground (arith, eq_iff (key s) (key r), eq_iff (key s) k, eq_iff (key r) k, find-upsert r rs k)

  pub find-upsert_eq :
      (r : A) (rs : List A) (k : String)
      → str_eq (key r) k ≡ true
      → find key k (upsert key r rs) ≡ some r
  find-upsert_eq r rs k e = rw (find-upsert r rs k, e)

  pub find-upsert_ne :
      (r : A) (rs : List A) (k : String)
      → str_eq (key r) k ≡ false
      → find key k (upsert key r rs) ≡ find key k rs
  find-upsert_ne r rs k e = rw (find-upsert r rs k, e)

  pub find-delete :
      (j : String) (rs : List A) (k : String)
      → find key k (delete key j rs) ≡ (if str_eq j k then none else find key k rs)
  unfolding find delete
  find-delete j [] k = ground arith
  find-delete j (s ∷ rs) k =
      ground (arith, eq_iff (key s) j, eq_iff (key s) k, eq_iff j k, find-delete j rs k)

  pub find-append_one :
      (r : A) (rs : List A) (k : String)
      → find key k (rs ++ r ∷ []) ≡ (
          if is_some (find key k rs)
          then find key k rs
          else if str_eq (key r) k
          then some r
          else none)
  unfolding find
  find-append_one r [] k = ground arith
  find-append_one r (s ∷ rs) k = ground (arith, find-append_one r rs k)

  pub find-insert_ignore :
      (r : A) (rs : List A) (k : String)
      → is_some (find key k (insert_ignore key r rs))
        ≡ (str_eq (key r) k || is_some (find key k rs))
  unfolding insert_ignore
  find-insert_ignore r rs k =
      ground (arith, find-append_one r rs k, eq_iff (key r) k, ap (λ j. find key j rs))

  pub find-replace :
      (r : A) (rs : List A) (k : String)
      → is_some (find key k (replace key r rs)) ≡ (str_eq (key r) k || is_some (find key k rs))
  unfolding replace
  find-replace r rs k =
      ground (arith, find-append_one r (delete key (key r) rs) k, find-delete (key r) rs k)

module _ {A : Type 0} (P : A → Type 0) where
  All-insert_by :
      (le : A → A → Bool) (r : A) (rs : List A) → P r → All P rs → All P (insert_by le r rs)
  unfolding insert_by
  All-insert_by le r [] p h = (p, tt)
  All-insert_by le r (s ∷ rs) p (h, hs) = ground (arith, All-insert_by le r rs p hs, p, h, hs)

  pub All-order_by : (le : A → A → Bool) (rs : List A) → All P rs → All P (order_by le rs)
  unfolding order_by
  All-order_by le [] h = tt
  All-order_by le (r ∷ rs) (h, hs) = All-insert_by le r (order_by le rs) h (All-order_by le rs hs)
