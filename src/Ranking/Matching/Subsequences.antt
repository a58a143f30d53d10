-- ===== src/Ranking/Matching/Subsequences.antt =====
-- The subsequence match of purr/src/ranking/matching.rs finds what it should.
use clipkitty.Base.{
  ℕ, ◌*◌, ◌≤◌, ◌<◌, ◌==◌, Bool, true, false, some, is_some, [], ◌∷◌, length, ◌≡◌, refl, ◌⊎◌, ◌↔◌,
  inl, inr, arith, Bool-cases, Option-cases,
}
use clipkitty.Ranking.Chars.{Text}
use clipkitty.Ranking.Matching.{subsequence_gaps, subsequence_match, same_first}

-- The characters of the first text stand in the second in their order.
abbrev pub Subsequence : Text → Text → Type 0
Subsequence [] t = Unit
Subsequence (_ ∷ _) [] = ⊥
Subsequence (q ∷ qs) (t ∷ ts) = ((t ≡ q) × Subsequence qs ts) ⊎ Subsequence (q ∷ qs) ts

Subsequence-tail : (q : ℕ) (qs ts : Text) → Subsequence (q ∷ qs) ts → Subsequence qs ts
Subsequence-tail q [] ts h = tt
Subsequence-tail q (r ∷ qs) [] h = absurd h
Subsequence-tail q (r ∷ qs) (t ∷ ts) (inl (e, h)) = inr h
Subsequence-tail q (r ∷ qs) (t ∷ ts) (inr h) = inr (Subsequence-tail q (r ∷ qs) ts h)

pub subsequence_gaps_sound :
    (qs ts : Text) (started prev : Bool) (gaps n : ℕ)
    → subsequence_gaps qs ts started gaps prev ≡ some n
    → Subsequence qs ts
unfolding subsequence_gaps
subsequence_gaps_sound [] ts started prev gaps n e = tt
subsequence_gaps_sound (q ∷ qs) [] started prev gaps n e = ground arith
subsequence_gaps_sound (q ∷ qs) (t ∷ ts) started prev gaps n e = elim (Bool-cases (t == q)) [
  | inl same ↦
      inl (
        ground arith,
        subsequence_gaps_sound qs ts true true _ n (rw (same, subsequence_gaps) at e),
      )
  | inr other ↦
      inr (
        subsequence_gaps_sound (q ∷ qs) ts started false gaps n (rw (other, subsequence_gaps) at e))
]

subsequence_gaps_complete :
    (qs ts : Text) (started prev : Bool) (gaps : ℕ)
    → Subsequence qs ts
    → is_some (subsequence_gaps qs ts started gaps prev) ≡ true
unfolding subsequence_gaps
subsequence_gaps_complete [] ts started prev gaps h = refl
subsequence_gaps_complete (q ∷ qs) [] started prev gaps h = absurd h
subsequence_gaps_complete (q ∷ qs) (t ∷ ts) started prev gaps h = elim (Bool-cases (t == q)) [
  | inl same ↦
      let later : Subsequence qs ts = elim h [
        | inl (e, h) ↦ h
        | inr h ↦ Subsequence-tail q qs ts h
      ] in
      rw (same, subsequence_gaps) (subsequence_gaps_complete qs ts true true _ later)
  | inr other ↦
      let later : Subsequence (q ∷ qs) ts = elim h [ inl (e, h) ↦ ground arith | inr h ↦ h ] in
      rw (other, subsequence_gaps) (subsequence_gaps_complete (q ∷ qs) ts started false gaps later)
]

-- The subsequence match succeeds exactly where the query has at least four characters, is shorter
-- than the document word, covers at least half of it, begins with the same character, and its
-- characters stand in the document word in their order.
pub subsequence_match-Subsequence :
    (query target : Text)
    → (is_some (subsequence_match query target) ≡ true) ↔ (
        (3 < length query)
        × (length query < length target)
        × (length target ≤ length query * 2)
        × (same_first query target ≡ true)
        × Subsequence query target)
unfolding subsequence_match
subsequence_match-Subsequence query target = (
  λ found. elim (Option-cases (subsequence_gaps query target false 0 false)) [
    | inl missing ↦ ground arith
    | inr (n, e) ↦ (
      ground arith,
      ground arith,
      ground arith,
      ground arith,
      subsequence_gaps_sound query target false false 0 n e,
    )
  ],
  λ (long, shorter, half, first, h).
      let found = subsequence_gaps_complete query target false false 0 h in ground arith,
)
