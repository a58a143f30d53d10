-- ===== src/Base/Lists.antt =====
-- Lists measured and indexed by native numbers, under the library's names.
use Prim.Native.Nat.{ℕ, zero, suc, ◌+◌, ◌-◌, ◌≤◌, ◌<◌}
use mathlib.Core.Path.{◌≡◌, refl, sym, ap, ◌∙◌, subst}
use mathlib.Core.Bool.{Bool, true, false, ◌&&◌, ◌||◌}
use mathlib.Core.List.{List, [], ◌∷◌, ◌++◌, map}
use mathlib.Core.Option.{Option, none, some, some-injective}
use native.Mathlib.Omega.{arith}
use mathlib.Core.Logic.{inl, inr}
use clipkitty.Base.Tests.{if◌then◌else◌, Option-cases}

module _ {ℓ} {A : Type ℓ} where
  abbrev pub length : List A → ℕ
  length [] = 0
  length (x ∷ xs) = suc (length xs)

  -- `Iterator::filter` with a Boolean test.
  abbrev pub keep : (A → Bool) → List A → List A
  keep p [] = []
  keep p (x ∷ xs) = let rest = keep p xs in if p x then x ∷ rest else rest

  -- `Iterator::any`, `Iterator::all`.
  abbrev pub any : (A → Bool) → List A → Bool
  any p [] = false
  any p (x ∷ xs) = p x || any p xs

  abbrev pub all : (A → Bool) → List A → Bool
  all p [] = true
  all p (x ∷ xs) = p x && all p xs

  abbrev pub is_empty : List A → Bool
  is_empty [] = true
  is_empty (_ ∷ _) = false

  abbrev pub drop : ℕ → List A → List A
  drop zero xs = xs
  drop (suc n) [] = []
  drop (suc n) (x ∷ xs) = drop n xs

  abbrev pub take : ℕ → List A → List A
  take zero xs = []
  take (suc n) [] = []
  take (suc n) (x ∷ xs) = x ∷ take n xs

  -- `slice::get`.
  abbrev pub get_elem? : List A → ℕ → Option A
  get_elem? [] i = none
  get_elem? (x ∷ xs) zero = some x
  get_elem? (x ∷ xs) (suc i) = get_elem? xs i

  abbrev pub head? : List A → Option A
  head? [] = none
  head? (x ∷ _) = some x

  -- `slice::last`.
  abbrev pub last? : List A → Option A
  last? [] = none
  last? (x ∷ xs) = elim xs [ [] ↦ some x | _ ∷ _ ↦ last? xs ]

module _ {ℓ} {A : Type ℓ} where
  pub length-append : (xs ys : List A) → length (xs ++ ys) ≡ length xs + length ys
  length-append [] ys = omega arith
  length-append (x ∷ xs) ys = omega (arith, length-append xs ys)

  pub get_elem?-take :
      (n : ℕ) (xs : List A) (i : ℕ) → i < n → get_elem? (take n xs) i ≡ get_elem? xs i
  get_elem?-take zero xs i h = absurd (omega arith)
  get_elem?-take (suc n) [] i h = refl
  get_elem?-take (suc n) (x ∷ xs) zero h = refl
  get_elem?-take (suc n) (x ∷ xs) (suc i) h = get_elem?-take n xs i (omega arith)

  pub get_elem?-drop :
      (n : ℕ) (xs : List A) (i : ℕ) → get_elem? (drop n xs) i ≡ get_elem? xs (n + i)
  get_elem?-drop zero xs i = ground arith
  get_elem?-drop (suc n) [] i = ground arith
  get_elem?-drop (suc n) (x ∷ xs) i = ground (arith, get_elem?-drop n xs i)

  pub lt-length_of_get_elem? :
      (xs : List A) (i : ℕ) {x : A} → get_elem? xs i ≡ some x → i < length xs
  lt-length_of_get_elem? [] i h = cc
  lt-length_of_get_elem? (x ∷ xs) zero h = omega arith
  lt-length_of_get_elem? (x ∷ xs) (suc i) h = omega (arith, lt-length_of_get_elem? xs i h)

  pub get_elem?-some : (xs : List A) (i : ℕ) → i < length xs → (x : A) × (get_elem? xs i ≡ some x)
  get_elem?-some [] i h = absurd (omega arith)
  get_elem?-some (x ∷ xs) zero h = (x, refl)
  get_elem?-some (x ∷ xs) (suc i) h = get_elem?-some xs i (omega arith)

  pub length-take : (n : ℕ) (xs : List A) → n ≤ length xs → length (take n xs) ≡ n
  length-take zero xs h = refl
  length-take (suc n) [] h = absurd (omega arith)
  length-take (suc n) (x ∷ xs) h = omega (arith, length-take n xs (omega arith))

  pub length-take-le : (n : ℕ) (xs : List A) → length (take n xs) ≤ n
  length-take-le zero xs = omega arith
  length-take-le (suc n) [] = omega arith
  length-take-le (suc n) (x ∷ xs) = omega (arith, length-take-le n xs)

  pub length-drop : (n : ℕ) (xs : List A) → length (drop n xs) ≡ length xs - n
  length-drop zero xs = omega arith
  length-drop (suc n) [] = omega arith
  length-drop (suc n) (x ∷ xs) = omega (arith, length-drop n xs)

  take_nil : (k : ℕ) → take {A = A} k [] ≡ []
  take_nil zero = refl
  take_nil (suc k) = refl

  drop_nil : (k : ℕ) → drop {A = A} k [] ≡ []
  drop_nil zero = refl
  drop_nil (suc k) = refl

  pub drop-add : (n k : ℕ) (xs : List A) → drop (n + k) xs ≡ drop k (drop n xs)
  drop-add zero k xs = ap (λ i. drop i xs) (omega arith)
  drop-add (suc n) k [] = drop_nil (suc n + k) ∙ sym (drop_nil k)
  drop-add (suc n) k (x ∷ xs) =
      let shift : suc n + k ≡ suc (n + k) = omega arith in rw shift (drop-add n k xs)

  pub drop-take : (k n : ℕ) (xs : List A) → drop k (take n xs) ≡ take (n - k) (drop k xs)
  drop-take zero n xs = ap (λ i. take i xs) (omega arith)
  drop-take (suc k) zero xs = ground (arith, drop_nil k)
  drop-take (suc k) (suc n) [] = ground (arith, take_nil (n - k))
  drop-take (suc k) (suc n) (x ∷ xs) = ground (arith, drop-take k n xs)

  -- The indices of the elements that pass, counted from `index`: `enumerate`, `filter` and `map`.
  abbrev pub indices_where : (A → Bool) → ℕ → List A → List ℕ
  indices_where test index [] = []
  indices_where test index (x ∷ xs) =
      let rest = indices_where test (suc index) xs in if test x then index ∷ rest else rest

  pub take-length : (xs : List A) → take (length xs) xs ≡ xs
  take-length [] = refl
  take-length (x ∷ xs) = ap (x ∷◌) (take-length xs)

-- `Iterator::filter_map`.
abbrev pub filter_map {ℓ κ} : {A : Type ℓ} {B : Type κ} → (A → Option B) → List A → List B
filter_map f [] = []
filter_map f (x ∷ xs) = let rest = filter_map f xs in elim (f x) [ none ↦ rest | some y ↦ y ∷ rest ]

-- A predicate by recursion computes to tuples, which the tactics read and build.
abbrev pub All {ℓ κ} : {A : Type ℓ} → (A → Type κ) → List A → Type κ
All P [] = Unit
All P (x ∷ xs) = P x × All P xs

pub filter_map-map-keep {ℓ} :
    {A B : Type ℓ} (f : A → Option B) (p : A → Bool) (g : A → B)
    → ((a : A) → f a ≡ (if p a then some (g a) else none))
    → (xs : List A) → filter_map f xs ≡ map g (keep p xs)
filter_map-map-keep f p g h [] = refl
filter_map-map-keep f p g h (x ∷ xs) = ground (arith, h x, filter_map-map-keep f p g h xs)

pub All-filter_map {ℓ κ ι θ} :
    {A : Type ℓ} {B : Type κ} (P : A → Type ι) (Q : B → Type θ) (f : A → Option B)
    → ((a : A) (b : B) → P a → f a ≡ some b → Q b)
    → (xs : List A) → All P xs
    → All Q (filter_map f xs)
All-filter_map P Q f h [] ps = tt
All-filter_map P Q f h (x ∷ xs) (p, ps) = elim (Option-cases (f x)) [
  | inl e ↦ rw (e, filter_map) (All-filter_map P Q f h xs ps)
  | inr (y, e) ↦ rw (e, filter_map) (h x y p e, All-filter_map P Q f h xs ps)
]

pub All-take {ℓ κ} :
    {A : Type ℓ} (P : A → Type κ) (n : ℕ) (xs : List A) → All P xs → All P (take n xs)
All-take P zero xs h = tt
All-take P (suc n) [] h = tt
All-take P (suc n) (x ∷ xs) (p, h) = (p, All-take P n xs h)

pub All-drop {ℓ κ} :
    {A : Type ℓ} (P : A → Type κ) (n : ℕ) (xs : List A) → All P xs → All P (drop n xs)
All-drop P zero xs h = h
All-drop P (suc n) [] h = tt
All-drop P (suc n) (x ∷ xs) (p, h) = All-drop P n xs h

pub All-get_elem? {ℓ κ} :
    {A : Type ℓ} (P : A → Type κ) (xs : List A) (i : ℕ) {y : A}
    → get_elem? xs i ≡ some y
    → All P xs
    → P y
All-get_elem? P [] i at h = cc
All-get_elem? P (x ∷ xs) zero {y} at (p, h) = subst P (some-injective x y at) p
All-get_elem? P (x ∷ xs) (suc i) at (p, h) = All-get_elem? P xs i at h
