-- ===== src/Ranking/Matching/Swaps.antt =====
-- The adjacent transposition and the single insertion of purr/src/ranking/matching.rs.
use clipkitty.Base.{
  ℕ, suc, ◌+◌, ◌≤◌, ◌==◌, Bool, true, ◌&&◌, Option, none, some, is_some, [], ◌∷◌, ◌++◌, length,
  length-append, ◌≡◌, ◌≢◌, refl, sym, ap, ◌∙◌, ◌↔◌, inl, inr, arith, Bool-cases, Option-cases,
}
use mathlib.Core.Path.{subst}
use clipkitty.Ranking.Chars.{Text, text_eq}
use clipkitty.Ranking.Chars.Laws.{text_eq_sound, text_eq_refl}
use clipkitty.Ranking.Matching.Edits.{
  is_swap, is_adjacent_transposition, single_skip, classify_single_insert_delete,
}

-- The second text is the first with two adjacent characters swapped, which differ.
abbrev pub Swapped : Text → Text → Type 0
Swapped s t =
    (before : Text) × (x : ℕ) × (y : ℕ) × (after : Text) × (s ≡ before ++ (x ∷ y ∷ after))
    × (t ≡ before ++ (y ∷ x ∷ after))
    × (x ≢ y)

is_swap-Swapped : (s t : Text) → is_swap s t ≡ true → Swapped s t
unfolding is_swap
is_swap-Swapped [] t e = ground arith
is_swap-Swapped (_ ∷ _) [] e = ground arith
is_swap-Swapped (a ∷ []) (b ∷ []) e = absurd (ground arith)
is_swap-Swapped (a ∷ []) (b ∷ b' ∷ t) e = absurd (ground arith)
is_swap-Swapped (a ∷ a' ∷ s) (b ∷ []) e = absurd (ground arith)
is_swap-Swapped (a ∷ a' ∷ s) (b ∷ b' ∷ t) e = elim (Bool-cases (a == b)) [
  | inl same ↦
      let (before, x, y, after, p, q, d) =
        is_swap-Swapped (a' ∷ s) (b' ∷ t) (rw (same, is_swap) at e) in
      let ab : a ≡ b = ground arith in
      (a ∷ before, x, y, after, ap (λ r. a ∷ r) p, rw (← ab) (ap (λ r. a ∷ r) q), d)
  | inr other ↦
      let f : (a == b' && a' == b && text_eq s t) ≡ true = rw (other, is_swap) at e in
      let ab : a ≡ b' = ground arith in
      let ba : a' ≡ b = ground arith in
      let st : s ≡ t = text_eq_sound s t (ground arith) in
      ([], a, b, t, rw (ba, st) refl, rw ab refl, λ same. ground arith)
]

is_swap-append :
    (before after : Text) (x y : ℕ)
    → x ≢ y
    → is_swap (before ++ (x ∷ y ∷ after)) (before ++ (y ∷ x ∷ after)) ≡ true
unfolding is_swap
is_swap-append [] after x y d = ground (arith, text_eq_refl after)
is_swap-append (c ∷ before) after x y d = ground (arith, is_swap-append before after x y d)

-- Two words are an adjacent transposition exactly where one is the other with two adjacent
-- characters swapped that differ.
pub is_adjacent_transposition-Swapped :
    (s t : Text) → (is_adjacent_transposition s t ≡ true) ↔ Swapped s t
unfolding is_adjacent_transposition
is_adjacent_transposition-Swapped s t = (
  λ e. is_swap-Swapped s t (ground arith),
  λ (before, x, y, after, p, q, d).
      let a : length s ≡ length before + suc (suc (length after)) =
        ap length p ∙ length-append before (x ∷ y ∷ after) in
      let b : length t ≡ length before + suc (suc (length after)) =
        ap length q ∙ length-append before (y ∷ x ∷ after) in
      let h : is_swap s t ≡ true = rw (p, q) (is_swap-append before after x y d) in ground arith,
)

-- The second text is the first with one character more.
abbrev pub Inserted : Text → Text → Type 0
Inserted s t =
    (before : Text) × (c : ℕ) × (after : Text) × (s ≡ before ++ after) × (t ≡ before ++ (c ∷ after))

single_skip-Inserted :
    (prev : Option ℕ) (s t : Text) (r : Bool)
    → length t ≡ suc (length s)
    → single_skip prev s t ≡ some r
    → Inserted s t
unfolding single_skip
single_skip-Inserted prev s [] r l e = ground arith
single_skip-Inserted prev [] (c ∷ []) r l e = ([], c, [], refl, refl)
single_skip-Inserted prev [] (c ∷ _ ∷ _) r l e = ground arith
single_skip-Inserted prev (a ∷ s) (c ∷ t) r l e = elim (Bool-cases (a == c)) [
  | inl same ↦
      let (before, x, after, p, q) =
        single_skip-Inserted (some c) s t r (omega arith) (rw (same, single_skip) at e) in
      let ac : a ≡ c = ground arith in
      (a ∷ before, x, after, ap (λ r. a ∷ r) p, rw (← ac) (ap (λ r. a ∷ r) q))
  | inr other ↦ elim (Bool-cases (text_eq (a ∷ s) t)) [
    | inl h ↦ ([], c, a ∷ s, refl, rw (text_eq_sound (a ∷ s) t h) refl)
    | inr h ↦ absurd (ground (arith, rw (other, h, single_skip) at e))
  ]
]

single_skip-append :
    (prev : Option ℕ) (before after : Text) (c : ℕ)
    → is_some (single_skip prev (before ++ after) (before ++ (c ∷ after))) ≡ true
unfolding single_skip
single_skip-append prev [] [] c = refl
single_skip-append prev [] (a ∷ after) c = elim (Bool-cases (a == c)) [
  | inl same ↦
      let ac : a ≡ c = ground arith in
      rw (same, single_skip)
        (subst (λ x. is_some (single_skip (some c) after (x ∷ after)) ≡ true) (sym ac)
          (single_skip-append (some c) [] after c))
  | inr other ↦ let eq = text_eq_refl (a ∷ after) in rw (other, eq, single_skip) refl
]
single_skip-append prev (b ∷ before) after c =
    let eq : (b == b) ≡ true = ground arith in
    rw (eq, single_skip) (single_skip-append (some b) before after c)

-- Two words, the second not the shorter, are a single insertion exactly where the second is the
-- first with one character more.
pub classify_single_insert_delete-Inserted :
    (s t : Text)
    → length s ≤ length t
    → (is_some (classify_single_insert_delete s t) ≡ true) ↔ Inserted s t
unfolding classify_single_insert_delete
classify_single_insert_delete-Inserted s t h = (
  λ e. elim (Option-cases (single_skip none s t)) [
    | inl missing ↦ absurd (ground arith)
    | inr (r, found) ↦ single_skip-Inserted none s t r (ground arith) found
  ],
  λ (before, c, after, p, q).
      let a = ap length p ∙ length-append before after in
      let b = ap length q ∙ length-append before (c ∷ after) in
      let found : is_some (single_skip none s t) ≡ true =
        rw (p, q) (single_skip-append none before after c) in
      ground arith,
)
