-- ===== src/Ranking/Order.antt =====
-- The derived order of `BucketScore` in purr/src/ranking/policy.rs.
use clipkitty.Base.{
  ℕ, ◌+◌, ℤ, pos, negsuc, pos_part, neg_part, ◌≡◌, refl, ap, sym, ◌∙◌, arith, ◌⊎◌, inl, inr, ◌≢◌,
}
use Prim.Native.Nat.{compare, Ordering}
use clipkitty.Ranking.Types.{
  QualityDetail, BucketScore, tier_rank, recency_rank, preference_rank, coverage_rank, phrase_rank,
  class_rank,
}

-- `Ordering::then`.
abbrev pub then_with : Ordering → Ordering → Ordering
then_with Ordering.lt o = Ordering.lt
then_with Ordering.eq o = o
then_with Ordering.gt o = Ordering.gt

-- `Ordering::reverse`.
abbrev pub reverse : Ordering → Ordering
reverse Ordering.lt = Ordering.gt
reverse Ordering.eq = Ordering.eq
reverse Ordering.gt = Ordering.lt

-- `i64::cmp`.
abbrev pub cmp_i64 : ℤ → ℤ → Ordering
cmp_i64 a b = compare (pos_part a + neg_part b) (pos_part b + neg_part a)

unfoldable pub cmp_detail : QualityDetail → QualityDetail → Ordering
cmp_detail a b =
    then_with (compare (preference_rank a.prefix_preference) (preference_rank b.prefix_preference))
      (then_with (compare (coverage_rank a.coverage) (coverage_rank b.coverage)) (
        then_with (compare (phrase_rank a.phrase_shape) (phrase_rank b.phrase_shape))
          (compare (class_rank a.match_class) (class_rank b.match_class))))

unfoldable pub cmp_score : BucketScore → BucketScore → Ordering
cmp_score a b = then_with (compare (tier_rank a.quality_tier) (tier_rank b.quality_tier)) (
    then_with (compare (recency_rank a.recency_bucket) (recency_rank b.recency_bucket))
      (then_with (cmp_detail a.quality_detail b.quality_detail) (cmp_i64 a.recency b.recency)))

compare_swap : (a b : ℕ) → compare b a ≡ reverse (compare a b)
compare_swap a b = ground arith

compare_trans :
    (a b c : ℕ) → compare a b ≡ Ordering.lt → compare b c ≡ Ordering.lt → compare a c ≡ Ordering.lt
compare_trans a b c p q = ground arith

pub Ordering-cases : (o : Ordering) → (o ≡ Ordering.lt) ⊎ (o ≡ Ordering.eq) ⊎ (o ≡ Ordering.gt)
Ordering-cases Ordering.lt = inl refl
Ordering-cases Ordering.eq = inr (inl refl)
Ordering-cases Ordering.gt = inr (inr refl)

-- The laws of `Ord`.
pub record IsOrder {A : Type 0} (f : A → A → Ordering) : Type 0 where
  pub same : (a b : A) → f a b ≡ Ordering.eq → a ≡ b
  pub swap : (a b : A) → f b a ≡ reverse (f a b)
  pub trans : (a b c : A) → f a b ≡ Ordering.lt → f b c ≡ Ordering.lt → f a c ≡ Ordering.lt

module _ {A B : Type 0} {f : A → A → Ordering} {g : B → B → Ordering} where
  lex_trans :
      IsOrder f
      → IsOrder g
      → (a1 a2 a3 : A) (b1 b2 b3 : B) → then_with (f a1 a2) (g b1 b2) ≡ Ordering.lt
      → then_with (f a2 a3) (g b2 b3) ≡ Ordering.lt
      → then_with (f a1 a3) (g b1 b3) ≡ Ordering.lt
  lex_trans F G a1 a2 a3 b1 b2 b3 p q =
      let s12 = F.same a1 a2 in
      let s23 = F.same a2 a3 in
      let t = F.trans a1 a2 a3 in
      let u = G.trans b1 b2 b3 in
      elim (Ordering-cases (f a1 a2)) [
        | inl x ↦ elim (Ordering-cases (f a2 a3)) [
          | inl y ↦ ground (arith, t x y)
          | inr (inl y) ↦ ground (arith, s23 y)
          | inr (inr y) ↦ ground arith
        ]
        | inr (inl x) ↦ elim (Ordering-cases (f a2 a3)) [
          | inl y ↦ ground (arith, s12 x)
          | inr (inl y) ↦ ground (arith, s12 x, s23 y)
          | inr (inr y) ↦ ground arith
        ]
        | inr (inr x) ↦ ground arith
      ]

  lex-swap :
      IsOrder f
      → IsOrder g
      → (a1 a2 : A) (b1 b2 : B)
      → then_with (f a2 a1) (g b2 b1) ≡ reverse (then_with (f a1 a2) (g b1 b2))
  lex-swap F G a1 a2 b1 b2 =
      let s = F.swap a1 a2 in
      let t = G.swap b1 b2 in
      elim (Ordering-cases (f a1 a2)) [
        | inl x ↦ ground arith
        | inr (inl x) ↦ ground arith
        | inr (inr x) ↦ ground arith
      ]

  lex-same :
      IsOrder f
      → IsOrder g
      → (a1 a2 : A) (b1 b2 : B) → then_with (f a1 a2) (g b1 b2) ≡ Ordering.eq
      → Path (A × B) (a1, b1) (a2, b2)
  lex-same F G a1 a2 b1 b2 p = elim (Ordering-cases (f a1 a2)) [
    | inl x ↦ ground arith
    | inr (inl x) ↦
        let q : g b1 b2 ≡ Ordering.eq = ground arith in rw (F.same a1 a2 x, G.same b1 b2 q)
    | inr (inr x) ↦ ground arith
  ]

abbrev pub lex :
    {A B : Type 0} → (A → A → Ordering) → (B → B → Ordering) → (A × B) → (A × B) → Ordering
lex f g p q = then_with (f p.0 q.0) (g p.1 q.1)

pub lex-IsOrder :
    {A B : Type 0} {f : A → A → Ordering} {g : B → B → Ordering}
    → IsOrder f
    → IsOrder g
    → IsOrder (lex f g)
lex-IsOrder F G = record {
  same = λ p q. lex-same F G p.0 q.0 p.1 q.1;
  swap = λ p q. lex-swap F G p.0 q.0 p.1 q.1;
  trans = λ p q r. lex_trans F G p.0 q.0 r.0 p.1 q.1 r.1;
}

-- An order on keys, where a key determines the value.
pub key-IsOrder :
    {A B : Type 0} {g : B → B → Ordering} (key : A → B) (back : B → A)
    → ((a : A) → back (key a) ≡ a)
    → IsOrder g
    → IsOrder (λ a b. g (key a) (key b))
key-IsOrder key back inverse G = record {
  same = λ a b p. sym (inverse a) ∙ ap back (G.same (key a) (key b) p) ∙ inverse b;
  swap = λ a b. G.swap (key a) (key b);
  trans = λ a b c. G.trans (key a) (key b) (key c);
}

pub compare-IsOrder : IsOrder compare
compare-IsOrder = record {
  same = λ a b p. ground arith;
  swap = compare_swap;
  trans = compare_trans;
}

cmp_i64-same : (a b : ℤ) → cmp_i64 a b ≡ Ordering.eq → a ≡ b
cmp_i64-same (pos m) (pos n) p = let q : m ≡ n = ground arith in rw q
cmp_i64-same (pos m) (negsuc n) p = ground arith
cmp_i64-same (negsuc m) (pos n) p = ground arith
cmp_i64-same (negsuc m) (negsuc n) p = let q : m ≡ n = ground arith in rw q

pub cmp_i64-IsOrder : IsOrder cmp_i64
cmp_i64-IsOrder = record {
  same = cmp_i64-same;
  swap = λ a b. compare_swap _ _;
  trans = λ a b c p q. ground arith;
}

-- Not above.
module _ {A : Type 0} {f : A → A → Ordering} (F : IsOrder f) where
  pub upto_trans : (a b c : A) → f a b ≢ Ordering.gt → f b c ≢ Ordering.gt → f a c ≢ Ordering.gt
  upto_trans a b c p q above =
      let t = F.trans a b c in
      elim (Ordering-cases (f a b)) [
        | inl x ↦ elim (Ordering-cases (f b c)) [
          | inl y ↦ ground (arith, t x y)
          | inr (inl y) ↦ ground (arith, rw (F.same b c y) at x)
          | inr (inr y) ↦ absurd (q y)
        ]
        | inr (inl x) ↦ q (rw (sym (F.same a b x)) above)
        | inr (inr x) ↦ absurd (p x)
      ]

  pub upto_refl : (a : A) → f a a ≢ Ordering.gt
  upto_refl a above = let s = F.swap a a in ground arith

  pub above-upto : (a b : A) → f a b ≡ Ordering.gt → f b a ≢ Ordering.gt
  above-upto a b above also = let s = F.swap a b in ground arith
