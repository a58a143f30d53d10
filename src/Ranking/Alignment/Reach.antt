-- ===== src/Ranking/Alignment/Reach.antt =====
-- The alignments that the recursion of purr/src/ranking/alignment.rs reaches.
use clipkitty.Base.{
  ℕ, length, false, none, List, [], ◌∷◌, ◌++◌, ◌≡◌, refl, sym, ap, ◌∙◌, ◌⊎◌, inl, inr, arith,
  Option-cases, All,
}
use mathlib.Core.List.{append_assoc}
use clipkitty.Ranking.Matches.{WordMatch, doc_word_pos}
use clipkitty.Ranking.Alignment.{holds, Best, recursive_fallback}
use clipkitty.Ranking.Alignment.Valid.{Picks, Fresh}
use clipkitty.Ranking.Alignment.Search.{
  Searched, Searched-map, Searched-then, consider-Searched, Tried, try_candidates-Searched,
}

module _ (total : ℕ) where
  -- The alignments that the recursion reaches from the words that are set.
  abbrev pub Reaches :
      List (List WordMatch) → List WordMatch → List ℕ → List WordMatch → List WordMatch → Type 0
  Reaches lists defaults used current rs =
      (tail : List WordMatch) × (rs ≡ current ++ tail) × Picks lists defaults tail × Fresh used tail

  Reaches-nil :
      (used : List ℕ) (current rs : List WordMatch)
      → Reaches [] [] used current rs
      → rs ≡ current ++ []
  Reaches-nil used current rs ([], e, picks, fresh) = e
  Reaches-nil used current rs (_ ∷ _, e, picks, fresh) = absurd picks

  Reaches-split :
      (ms : List WordMatch) (lists : List (List WordMatch)) (d : WordMatch) (ds : List WordMatch)
      (used : List ℕ) (current rs : List WordMatch)
      → doc_word_pos d ≡ none
      → Reaches (ms ∷ lists) (d ∷ ds) used current rs
      → Reaches lists ds used (current ++ d ∷ []) rs
        ⊎ Tried total (Reaches lists ds) used current ms rs
  Reaches-split ms lists d ds used current rs u (r ∷ tail, e, (inl default, picks), fresh) =
      let at : doc_word_pos r ≡ none = ap doc_word_pos default ∙ u in
      inl (
        tail,
        e ∙ sym (append_assoc current (d ∷ []) tail ∙ ap (λ x. current ++ x ∷ tail) (sym default)),
        picks,
        rw (at, Fresh) at fresh,
      )
  Reaches-split ms lists d ds used current rs u (r ∷ tail, e, (inr (among, has), picks), fresh) =
      elim (Option-cases (doc_word_pos r)) [
        | inl missing ↦ ground (arith, rw missing at has)
        | inr (p, at) ↦
            let (free, later) : (holds p used ≡ false) × Fresh (p ∷ used) tail =
              rw (at, Fresh) at fresh in
            inr (
              r,
              p,
              among,
              at,
              free,
              (tail, e ∙ sym (append_assoc current (r ∷ []) tail), picks, later),
            )
      ]
  Reaches-split ms lists d ds used current rs u ([], e, picks, fresh) = absurd picks

  Reaches-join :
      (ms : List WordMatch) (lists : List (List WordMatch)) (d : WordMatch) (ds : List WordMatch)
      (used : List ℕ) (current rs : List WordMatch)
      → doc_word_pos d ≡ none
      → Reaches lists ds used (current ++ d ∷ []) rs
        ⊎ Tried total (Reaches lists ds) used current ms rs
      → Reaches (ms ∷ lists) (d ∷ ds) used current rs
  Reaches-join ms lists d ds used current rs u (inl (tail, e, picks, fresh)) =
      (d ∷ tail, e ∙ append_assoc current (d ∷ []) tail, (inl refl, picks), rw (u, Fresh) fresh)
  Reaches-join ms lists d ds used current rs u
        (inr (r, p, among, at, free, (tail, e, picks, fresh))) =
      (
        r ∷ tail,
        e ∙ append_assoc current (r ∷ []) tail,
        (inr (among, rw at refl), picks),
        rw (at, Fresh) (free, fresh),
      )

  pub recursive_fallback-Searched :
      (lists : List (List WordMatch)) (defaults : List WordMatch)
      → length lists ≡ length defaults
      → All (λ d. doc_word_pos d ≡ none) defaults
      → (used : List ℕ) (current : List WordMatch) (b : Best)
      → Searched total
          (Reaches lists defaults used current)
          b
          (recursive_fallback total lists defaults used current b)
  unfolding recursive_fallback
  recursive_fallback-Searched [] [] same un used current b =
      Searched-map total (consider-Searched total (current ++ []) b)
        (λ rs reached. Reaches-nil used current rs reached) (λ rs e. ([], e, tt, tt))
  recursive_fallback-Searched [] (_ ∷ _) same un used current b = ground arith
  recursive_fallback-Searched (_ ∷ _) [] same un used current b = ground arith
  recursive_fallback-Searched (ms ∷ lists) (d ∷ ds) same (u, un) used current b =
      let next = recursive_fallback-Searched lists ds (omega arith) un in
      Searched-then total (next used (current ++ d ∷ []) b)
        (try_candidates-Searched total next used current ms _)
        (λ rs. Reaches-split ms lists d ds used current rs u)
        (λ rs. Reaches-join ms lists d ds used current rs u)
