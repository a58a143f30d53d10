-- ===== src/Ranking/Alignment/Indexed.antt =====
-- The recursion on bit masks against the one on a set of positions, of
-- purr/src/ranking/alignment.rs.
use clipkitty.Base.{
  ℕ, suc, ◌^◌, ◌==◌, true, false, ◌||◌, none, some, List, [], ◌∷◌, ◌++◌, ◌≡◌, refl, ap, ◌∙◌, inl,
  inr, arith, Option-cases, Bool-cases, All,
}
use Prim.Native.Nat.{bit_or}
use clipkitty.Base.Bits.{meets, meets_zero, meets-bit_or}
use clipkitty.Ranking.Matches.{WordMatch, doc_word_pos}
use clipkitty.Ranking.Alignment.{
  Best, holds, add_position, add_positions, unique_positions, index_of, index_candidate,
  index_candidates, index_lists, try_at, try_candidates, try_masked, try_indexed,
  recursive_fallback, recursive_indexed,
}

index_of_inj : (p q i : ℕ) (u : List ℕ) → index_of p u ≡ some i → index_of q u ≡ some i → p ≡ q
index_of_inj p q i [] e f = ground arith
index_of_inj p q i (x ∷ u) e f = elim (Option-cases (index_of p u)) [
  | inl a ↦ elim (Option-cases (index_of q u)) [ inl b ↦ ground arith | inr (k, b) ↦ ground arith ]
  | inr (j, a) ↦ elim (Option-cases (index_of q u)) [
    | inl b ↦ ground arith
    | inr (k, b) ↦ ground (arith, index_of_inj p q j u a)
  ]
]

holds-index_of_none : (p : ℕ) (u : List ℕ) → index_of p u ≡ none → holds p u ≡ false
holds-index_of_none p [] e = refl
holds-index_of_none p (x ∷ u) e = elim (Option-cases (index_of p u)) [
  | inl missing ↦ ground (arith, holds-index_of_none p u missing)
  | inr (i, f) ↦ ground arith
]

holds-index_of : (p : ℕ) (u : List ℕ) → holds p u ≡ true → (i : ℕ) × (index_of p u ≡ some i)
holds-index_of p [] h = ground arith
holds-index_of p (x ∷ u) h = elim (Option-cases (index_of p u)) [
  | inl missing ↦ (0, ground (arith, holds-index_of_none p u missing))
  | inr (i, e) ↦ elim (Bool-cases (x == p)) [
    | inl same ↦ (0, rw (same, index_of) refl)
    | inr other ↦ (suc i, rw (other, e, index_of) refl)
  ]
]

-- The mask has the bits of the positions that are used.
abbrev Masks : List ℕ → List ℕ → ℕ → Type 0
Masks unique used mask = (p i : ℕ) → index_of p unique ≡ some i → meets mask (2 ^ i) ≡ holds p used

Masks-zero : (unique : List ℕ) → Masks unique [] 0
Masks-zero unique p i e = meets_zero i

Masks-bit_or :
    (unique used : List ℕ) (mask p i : ℕ)
    → index_of p unique ≡ some i
    → Masks unique used mask
    → Masks unique (p ∷ used) (bit_or mask (2 ^ i))
Masks-bit_or unique used mask p i e m q j f =
    meets-bit_or mask i j ∙ ground (arith, m q j f, index_of_inj p q i unique e)

-- The candidates' positions stand in the list.
abbrev Known : List ℕ → List WordMatch → Type 0
Known unique = All (λ m. (p : ℕ) → doc_word_pos m ≡ some p → holds p unique ≡ true)

module _ (unique : List ℕ) {indexed : ℕ → List WordMatch → Best → Best}
    {next : List ℕ → List WordMatch → Best → Best}
    (agree : (used : List ℕ) (mask : ℕ) (current : List WordMatch) (b : Best)
      → Masks unique used mask
      → indexed mask current b ≡ next used current b)
    (used : List ℕ) (mask : ℕ) (m : Masks unique used mask) (current : List WordMatch) where
  try_masked-try_at :
      (x : WordMatch) (p i : ℕ) (b : Best)
      → index_of p unique ≡ some i
      → try_masked indexed mask current record { position_mask = 2 ^ i; word_match = x } b
        ≡ try_at next used current x (some p) b
  try_masked-try_at x p i b e = elim (Bool-cases (holds p used)) [
    | inl h ↦ rw (m p i e, h, try_masked, try_at) refl
    | inr h ↦
        rw (m p i e, h, try_masked, try_at)
          (agree (p ∷ used) (bit_or mask (2 ^ i)) _ b (Masks-bit_or unique used mask p i e m))
  ]

  try_indexed-try_candidates :
      (xs : List WordMatch) (b : Best)
      → Known unique xs
      → try_indexed indexed mask current (index_candidates unique xs) b
        ≡ try_candidates next used current xs b
  try_indexed-try_candidates [] b known = refl
  try_indexed-try_candidates (x ∷ xs) b (here, known) = elim (Option-cases (doc_word_pos x)) [
    | inl missing ↦
        rw (missing, index_candidates, index_candidate, try_candidates, try_at)
          (try_indexed-try_candidates xs b known)
    | inr (p, at) ↦
        let (i, e) = holds-index_of p unique (here p at) in
        rw (at, e, index_candidates, index_candidate, try_candidates)
          (ap (try_indexed indexed mask current (index_candidates unique xs))
              (try_masked-try_at x p i b e)
            ∙ try_indexed-try_candidates xs (try_at next used current x (some p) b) known)
  ]

recursive_indexed-recursive_fallback :
    (total : ℕ) (unique : List ℕ) (lists : List (List WordMatch)) (defaults : List WordMatch)
    → All (Known unique) lists
    → (used : List ℕ) (mask : ℕ) (current : List WordMatch) (b : Best) → Masks unique used mask
    → recursive_indexed total (index_lists unique lists) defaults mask current b
      ≡ recursive_fallback total lists defaults used current b
unfolding recursive_indexed recursive_fallback
recursive_indexed-recursive_fallback total u [] ds known used mask current b m = refl
recursive_indexed-recursive_fallback total u (_ ∷ _) [] known used mask current b m = refl
recursive_indexed-recursive_fallback total u (xs ∷ lists) (d ∷ ds) (k, known) used mask current b
      m =
    let agree = recursive_indexed-recursive_fallback total u lists ds known in
    ap
      (try_indexed (recursive_indexed total (index_lists u lists) ds) mask current
        (index_candidates u xs))
      (agree used mask (current ++ d ∷ []) b m)
    ∙ try_indexed-try_candidates u agree used mask m current xs _ k

holds-append : (p q : ℕ) (ps : List ℕ) → holds p (ps ++ q ∷ []) ≡ (holds p ps || p == q)
holds-append p q [] = ground arith
holds-append p q (x ∷ ps) = ground (arith, holds-append p q ps)

-- What is in the list of positions stays in it.
add_position-keeps :
    (p : ℕ) (ps : List ℕ) (x : WordMatch) → holds p ps ≡ true → holds p (add_position ps x) ≡ true
add_position-keeps p ps x h = elim (Option-cases (doc_word_pos x)) [
  | inl missing ↦ rw (missing, add_position) h
  | inr (q, at) ↦ elim (Bool-cases (holds q ps)) [
    | inl old ↦ rw (at, old, add_position) h
    | inr new ↦ rw (at, new, add_position) (ground (arith, holds-append p q ps))
  ]
]

add_position-Known :
    (p : ℕ) (ps : List ℕ) (x : WordMatch)
    → doc_word_pos x ≡ some p
    → holds p (add_position ps x) ≡ true
add_position-Known p ps x at = elim (Bool-cases (holds p ps)) [
  | inl old ↦ rw (at, old, add_position) old
  | inr new ↦ rw (at, new, add_position) (ground (arith, holds-append p p ps))
]

add_positions-keeps :
    (p : ℕ) (ps : List ℕ) (xs : List WordMatch)
    → holds p ps ≡ true
    → holds p (add_positions ps xs) ≡ true
add_positions-keeps p ps [] h = h
add_positions-keeps p ps (x ∷ xs) h =
    add_positions-keeps p (add_position ps x) xs (add_position-keeps p ps x h)

unique_positions-keeps :
    (p : ℕ) (ps : List ℕ) (lists : List (List WordMatch))
    → holds p ps ≡ true
    → holds p (unique_positions ps lists) ≡ true
unique_positions-keeps p ps [] h = h
unique_positions-keeps p ps (xs ∷ lists) h =
    unique_positions-keeps p (add_positions ps xs) lists (add_positions-keeps p ps xs h)

add_positions-Known :
    (ps : List ℕ) (xs : List WordMatch) (unique : List ℕ)
    → ((p : ℕ) → holds p (add_positions ps xs) ≡ true → holds p unique ≡ true)
    → Known unique xs
add_positions-Known ps [] unique keeps = tt
add_positions-Known ps (x ∷ xs) unique keeps = (
  λ p at. keeps p (add_positions-keeps p (add_position ps x) xs (add_position-Known p ps x at)),
  add_positions-Known (add_position ps x) xs unique keeps,
)

unique_positions-Known :
    (ps : List ℕ) (lists : List (List WordMatch)) → All (Known (unique_positions ps lists)) lists
unique_positions-Known ps [] = tt
unique_positions-Known ps (xs ∷ lists) = (
  add_positions-Known ps xs _ (λ p. unique_positions-keeps p (add_positions ps xs) lists),
  unique_positions-Known (add_positions ps xs) lists,
)

-- The recursion on bit masks, over the lists that are built for it, finds the alignment that the
-- recursion on the set of positions finds.
pub indexed-fallback :
    (total : ℕ) (lists : List (List WordMatch)) (defaults : List WordMatch) (b : Best)
    → recursive_indexed total (index_lists (unique_positions [] lists) lists) defaults 0 [] b
      ≡ recursive_fallback total lists defaults [] [] b
indexed-fallback total lists defaults b =
    recursive_indexed-recursive_fallback total (unique_positions [] lists) lists defaults
      (unique_positions-Known [] lists) [] 0 [] b (Masks-zero _)
