-- ===== src/Ranking/Alignment/Search.antt =====
-- What the loops of purr/src/ranking/alignment.rs leave as the best alignment.
use clipkitty.Base.{
  ℕ, false, Option, none, some, List, [], ◌∷◌, ◌++◌, ◌≡◌, refl, ap, ◌∙◌, ◌⊎◌, inl, inr, arith,
  Bool-cases,
}
use mathlib.Core.Path.{subst}
use Prim.Native.Nat.{Ordering}
use clipkitty.Ranking.Order.{upto_trans, upto_refl, above-upto}
use clipkitty.Ranking.Matches.{WordMatch, doc_word_pos}
use clipkitty.Ranking.Alignment.{
  cmp_alignment, score_alignment, holds, Best, replace_best, consider, try_at, try_candidates,
}
use clipkitty.Ranking.Alignment.Valid.{cmp_alignment-IsOrder, Upto, Among}

-- The search went from one best alignment to another, over the alignments of P.
pub record Searched (total : ℕ) (P : List WordMatch → Type 0) (b c : Best) : Type 0 where
  pub improves : Upto b.best_score c.best_score
  pub covers : (rs : List WordMatch) → P rs → Upto (score_alignment rs total) c.best_score
  pub found :
      (c ≡ b)
      ⊎ ((rs : List WordMatch) × (P rs
            × ((c.best ≡ rs) × (c.best_score ≡ score_alignment rs total))))

module _ (total : ℕ) where
  Searched-none :
      {P : List WordMatch → Type 0} (b : Best)
      → ((rs : List WordMatch) → P rs → ⊥)
      → Searched total P b b
  Searched-none b never = record {
    improves = upto_refl cmp_alignment-IsOrder _;
    covers = λ rs h. absurd (never rs h);
    found = inl refl;
  }

  pub Searched-map :
      {P R : List WordMatch → Type 0} {b c : Best}
      → Searched total P b c
      → ((rs : List WordMatch) → R rs → P rs)
      → ((rs : List WordMatch) → P rs → R rs)
      → Searched total R b c
  Searched-map S into out = record {
    improves = S.improves;
    covers = λ rs r. S.covers rs (into rs r);
    found = elim S.found [ inl old ↦ inl old | inr (rs, (p, e)) ↦ inr (rs, (out rs p, e)) ];
  }

  pub Searched-then :
      {P Q R : List WordMatch → Type 0} {a b c : Best}
      → Searched total P a b
      → Searched total Q b c
      → ((rs : List WordMatch) → R rs → P rs ⊎ Q rs)
      → ((rs : List WordMatch) → P rs ⊎ Q rs → R rs)
      → Searched total R a c
  Searched-then S T split join = record {
    improves = upto_trans cmp_alignment-IsOrder _ _ _ S.improves T.improves;
    covers = λ rs r. elim (split rs r) [
      | inl p ↦ upto_trans cmp_alignment-IsOrder _ _ _ (S.covers rs p) T.improves
      | inr q ↦ T.covers rs q
    ];
    found = elim T.found [
      | inl same ↦ elim S.found [
        | inl old ↦ inl (same ∙ old)
        | inr (rs, (p, (e, s))) ↦
            inr
              (rs, (join rs (inl p), (ap (λ x. x.best) same ∙ e, ap (λ x. x.best_score) same ∙ s)))
      ]
      | inr (rs, (q, e)) ↦ inr (rs, (join rs (inr q), e))
    ];
  }

  replace_best-Searched :
      (o : Ordering) (current : List WordMatch) (b : Best)
      → cmp_alignment (score_alignment current total) b.best_score ≡ o
      → Searched total
          (λ rs. rs ≡ current)
          b
          (replace_best o current (score_alignment current total) b)
  unfolding replace_best
  replace_best-Searched Ordering.gt current b e = record {
    improves = above-upto cmp_alignment-IsOrder _ _ e;
    covers = λ rs same. rw same (upto_refl cmp_alignment-IsOrder _);
    found = inr (current, (refl, (refl, refl)));
  }
  replace_best-Searched Ordering.lt current b e = record {
    improves = upto_refl cmp_alignment-IsOrder _;
    covers = λ rs same above. ground (arith, rw same at above);
    found = inl refl;
  }
  replace_best-Searched Ordering.eq current b e = record {
    improves = upto_refl cmp_alignment-IsOrder _;
    covers = λ rs same above. ground (arith, rw same at above);
    found = inl refl;
  }

  pub consider-Searched :
      (current : List WordMatch) (b : Best)
      → Searched total (λ rs. rs ≡ current) b (consider total current b)
  unfolding consider
  consider-Searched current b = replace_best-Searched _ current b refl

  -- The alignments that the loop over the candidates of a word reaches.
  abbrev pub Tried :
      (List ℕ → List WordMatch → List WordMatch → Type 0)
      → List ℕ
      → List WordMatch
      → List WordMatch
      → List WordMatch
      → Type 0
  Tried N used current ms rs =
      (m : WordMatch) × (p : ℕ) × Among m ms
      × (doc_word_pos m ≡ some p)
      × (holds p used ≡ false)
      × N (p ∷ used) (current ++ m ∷ []) rs

  -- The loop, where `S` says what the recursion does.
  module _ {N : List ℕ → List WordMatch → List WordMatch → Type 0}
      {next : List ℕ → List WordMatch → Best → Best}
      (S : (used : List ℕ) (current : List WordMatch) (b : Best)
        → Searched total (N used current) b (next used current b))
      (used : List ℕ) (current : List WordMatch) where
    -- A used position is skipped, one that is not used is searched.
    try_at-Searched :
        (m : WordMatch) (o : Option ℕ) (b : Best)
        → doc_word_pos m ≡ o
        → Searched total (Tried N used current (m ∷ [])) b (try_at next used current m o b)
    try_at-Searched m none b e = Searched-none b (λ rs (x, p, among, at, free, n). ground arith)
    try_at-Searched m (some p) b e = elim (Bool-cases (holds p used)) [
      | inl h ↦
          rw (h, try_at)
            (Searched-none b (λ rs (x, q, among, at, free, n). elim among [
              | inl same ↦
                  let pq : q ≡ p = ground (arith, ap doc_word_pos same) in
                  ground (arith, rw pq at free)
              | inr never ↦ absurd never
            ]))
      | inr h ↦
          rw (h, try_at)
            (Searched-map (S (p ∷ used) (current ++ m ∷ []) b)
              (λ rs (x, q, among, at, free, n). elim among [
                | inl same ↦
                    let pq : q ≡ p = ground (arith, ap doc_word_pos same) in
                    subst (λ y. N (p ∷ used) (current ++ y ∷ []) rs) same
                      (subst (λ y. N (y ∷ used) (current ++ x ∷ []) rs) pq n)
                | inr never ↦ absurd never
              ])
              (λ rs n. (m, p, inl refl, e, h, n)))
    ]

    pub try_candidates-Searched :
        (ms : List WordMatch) (b : Best)
        → Searched total (Tried N used current ms) b (try_candidates next used current ms b)
    try_candidates-Searched [] b = Searched-none b (λ rs (m, p, among, at, free, n). among)
    try_candidates-Searched (m ∷ ms) b =
        Searched-then (try_at-Searched m (doc_word_pos m) b refl)
          (try_candidates-Searched ms (try_at next used current m (doc_word_pos m) b))
          (λ rs (x, p, among, at, free, n). elim among [
            | inl same ↦ inl (x, p, inl same, at, free, n)
            | inr later ↦ inr (x, p, later, at, free, n)
          ])
          (λ rs reached. elim reached [
            | inl (x, p, inl same, at, free, n) ↦ (x, p, inl same, at, free, n)
            | inl (x, p, inr never, at, free, n) ↦ absurd never
            | inr (x, p, later, at, free, n) ↦ (x, p, inr later, at, free, n)
          ])
