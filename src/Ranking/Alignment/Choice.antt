-- ===== src/Ranking/Alignment/Choice.antt =====
-- `choose_best_alignment` of purr/src/ranking/alignment.rs.
use clipkitty.Base.{
  length, none, List, [], ◌∷◌, ◌≡◌, refl, ap, inl, inr, arith, All, Bool-cases, ltb, ◌<◌, ◌^◌,
}
use clipkitty.Ranking.Matches.{WordMatch, doc_word_pos}
use clipkitty.Ranking.Signals.{total_query_weight}
use clipkitty.Ranking.Alignment.{
  Best, score_alignment, default_best, recursive_fallback, unique_positions,
  build_indexed_candidate_lists, choose_best_alignment,
}
use clipkitty.Ranking.Alignment.Valid.{Upto, Picks, Fresh}
use clipkitty.Ranking.Alignment.Fits.{heaviest, query_weights-heaviest}
use clipkitty.Ranking.Signals.Weights.{query_weights}
use clipkitty.Ranking.Alignment.Search.{Searched}
use clipkitty.Ranking.Alignment.Reach.{Reaches, recursive_fallback-Searched}
use clipkitty.Ranking.Alignment.Indexed.{indexed-fallback}

abbrev fallback_best : List (List WordMatch) → List WordMatch → Best
fallback_best lists defaults =
    recursive_fallback (total_query_weight defaults) lists defaults [] [] (default_best defaults)

choose_best_alignment-fallback :
    (lists : List (List WordMatch)) (defaults : List WordMatch)
    → choose_best_alignment lists defaults ≡ (fallback_best lists defaults).best
unfolding choose_best_alignment build_indexed_candidate_lists
choose_best_alignment-fallback lists defaults =
    elim (Bool-cases (ltb 64 (length (unique_positions [] lists)))) [
      | inl many ↦ rw (many, choose_best_alignment, build_indexed_candidate_lists) refl
      | inr few ↦
          rw (few, choose_best_alignment, build_indexed_candidate_lists)
            (ap (λ b. b.best)
              (indexed-fallback (total_query_weight defaults) lists defaults
                (default_best defaults)))
    ]

-- Where the weights of the words fit into a `u16`, the alignment chosen is the one that the recursion
-- on a set of positions finds, whether or not the candidates' positions fit into the bits of a mask.
pub choose_best_alignment-recursive_fallback :
    (lists : List (List WordMatch)) (defaults : List WordMatch)
    → heaviest lists defaults < 2 ^ 16
    → choose_best_alignment lists defaults
      ≡ (recursive_fallback
          (total_query_weight defaults)
          lists
          defaults
          []
          []
          (default_best defaults)).best
choose_best_alignment-recursive_fallback lists defaults fits =
    choose_best_alignment-fallback lists defaults

module _ (lists : List (List WordMatch)) (defaults : List WordMatch)
    (same : length lists ≡ length defaults) (un : All (λ d. doc_word_pos d ≡ none) defaults) where
  searched :
      Searched
        (total_query_weight defaults)
        (Reaches (total_query_weight defaults) lists defaults [] [])
        (default_best defaults)
        (fallback_best lists defaults)
  searched =
      recursive_fallback-Searched (total_query_weight defaults) lists defaults same un [] []
        (default_best defaults)

defaults-Picks :
    (lists : List (List WordMatch)) (defaults : List WordMatch)
    → length lists ≡ length defaults
    → Picks lists defaults defaults
defaults-Picks [] [] same = tt
defaults-Picks [] (_ ∷ _) same = ground arith
defaults-Picks (_ ∷ _) [] same = ground arith
defaults-Picks (_ ∷ lists) (d ∷ ds) same = (inl refl, defaults-Picks lists ds (ground arith))

defaults-Fresh :
    (defaults : List WordMatch) → All (λ d. doc_word_pos d ≡ none) defaults → Fresh [] defaults
defaults-Fresh [] un = tt
defaults-Fresh (d ∷ ds) (u, un) = rw (u, Fresh) (defaults-Fresh ds un)

-- Where every query word has a list of candidates and an unmatched default, each word of the chosen
-- alignment is its default or one of its candidates, and no position is taken twice.
pub choose_best_alignment-Picks :
    (lists : List (List WordMatch)) (defaults : List WordMatch)
    → length lists ≡ length defaults
    → All (λ d. doc_word_pos d ≡ none) defaults
    → Picks lists defaults (choose_best_alignment lists defaults)
      × Fresh [] (choose_best_alignment lists defaults)
choose_best_alignment-Picks lists defaults same un =
    rw (choose_best_alignment-fallback lists defaults)
      (elim (searched lists defaults same un).found [
        | inl old ↦ rw old (defaults-Picks lists defaults same, defaults-Fresh defaults un)
        | inr (rs, ((tail, e, picks, fresh), (best, s))) ↦ rw (best, e) (picks, fresh)
      ])

-- Where the weights of the words fit into a `u16`, and every query word has a list of candidates and an
-- unmatched default, no alignment that takes for each word its default or a candidate, and no position
-- twice, scores above the chosen one, and the weights of neither add up to more than a `u16` holds.
pub choose_best_alignment-Upto :
    (lists : List (List WordMatch)) (defaults : List WordMatch)
    → length lists ≡ length defaults
    → All (λ d. doc_word_pos d ≡ none) defaults
    → heaviest lists defaults < 2 ^ 16
    → (other : List WordMatch) → Picks lists defaults other
    → Fresh [] other
    → Upto
        (score_alignment other (total_query_weight defaults))
        (score_alignment (choose_best_alignment lists defaults) (total_query_weight defaults))
      × (query_weights other < 2 ^ 16)
      × (query_weights (choose_best_alignment lists defaults) < 2 ^ 16)
choose_best_alignment-Upto lists defaults same un fits other picks fresh =
    let s = searched lists defaults same un in
    let covered = s.covers other (other, refl, picks, fresh) in
    let (chosen, _) = choose_best_alignment-Picks lists defaults same un in
    (
      rw (choose_best_alignment-fallback lists defaults) (elim s.found [
        | inl old ↦ rw old (rw old at covered)
        | inr (rs, (reached, (best, score))) ↦ rw best (rw score at covered)
      ]),
      omega (arith, query_weights-heaviest lists defaults other picks),
      omega (
        arith,
        query_weights-heaviest lists defaults (choose_best_alignment lists defaults) chosen,
      ),
    )
