-- ===== src/Base/Map.antt =====
-- A `HashMap` as an association list with one entry for a key, over a test of keys for equality.
use clipkitty.Base.{
  suc, ◌≤◌, Bool, true, Option, none, some, List, [], ◌∷◌, length, is_some, ◌≡◌, ◌↔◌, refl, arith,
  if◌then◌else◌,
}

-- The test is equality.
pub record IsEq {ℓ} {K : Type ℓ} (eq : K → K → Bool) : Type ℓ where
  pub eq_iff : (a b : K) → (eq a b ≡ true) ↔ (a ≡ b)

module _ {K V : Type 0} (eq : K → K → Bool) where
  -- `HashMap::get`.
  unfoldable pub lookup : K → List (K × V) → Option V
  lookup key [] = none
  lookup key ((found, value) ∷ entries) =
      let further = lookup key entries in if eq found key then some value else further

  -- `HashMap::insert`.
  unfoldable pub insert : K → V → List (K × V) → List (K × V)
  insert key value [] = (key, value) ∷ []
  insert key value ((found, old) ∷ entries) =
      let others = insert key value entries in
      if eq found key then (key, value) ∷ entries else (found, old) ∷ others

  -- `HashMap::remove`.
  unfoldable pub remove : K → List (K × V) → List (K × V)
  remove key [] = []
  remove key ((found, value) ∷ entries) =
      let others = remove key entries in if eq found key then others else (found, value) ∷ others

  module _ (law : IsEq eq) where
    pub lookup-insert :
        (key asked : K) (value : V) (entries : List (K × V))
        → lookup asked (insert key value entries)
          ≡ (if eq key asked then some value else lookup asked entries)
    unfolding lookup insert
    lookup-insert key asked value [] = refl
    lookup-insert key asked value ((found, old) ∷ entries) =
        let further = lookup-insert key asked value entries in
        ground (arith, further, law.eq_iff found asked, law.eq_iff found key, law.eq_iff key asked)

    pub lookup-remove :
        (key asked : K) (entries : List (K × V))
        → lookup asked (remove key entries) ≡ (if eq key asked then none else lookup asked entries)
    unfolding lookup remove
    lookup-remove key asked [] = ground arith
    lookup-remove key asked ((found, value) ∷ entries) =
        let further = lookup-remove key asked entries in
        ground (arith, further, law.eq_iff found asked, law.eq_iff found key, law.eq_iff key asked)

  pub length-insert :
      (key : K) (value : V) (entries : List (K × V))
      → length (insert key value entries)
        ≡ (if is_some (lookup key entries) then length entries else suc (length entries))
  unfolding lookup insert
  length-insert key value [] = refl
  length-insert key value ((found, old) ∷ entries) = ground (arith, length-insert key value entries)

  pub length-remove-le :
      (key : K) (entries : List (K × V)) → length (remove key entries) ≤ length entries
  unfolding remove
  length-remove-le key [] = omega arith
  length-remove-le key ((found, value) ∷ entries) = ground (arith, length-remove-le key entries)
