-- ===== src/Ranking/Alignment/Valid.antt =====
-- The order of the scores of purr/src/ranking/alignment.rs, and which alignments are allowed.
use clipkitty.Base.{ℕ, true, false, none, some, is_some, List, [], ◌∷◌, ◌≡◌, ◌≢◌, refl, ◌⊎◌}
use Prim.Native.Nat.{Ordering}
use clipkitty.Ranking.Order.{IsOrder, lex-IsOrder, key-IsOrder, compare-IsOrder}
use clipkitty.Ranking.ScoreOrder.{tier-IsOrder, cmp_detail-IsOrder}
use clipkitty.Ranking.Types.{QualityTier, QualityDetail}
use clipkitty.Ranking.Matches.{WordMatch, doc_word_pos}
use clipkitty.Ranking.Alignment.{AlignmentScore, cmp_alignment, holds}

abbrev ScoreKey : Type 0
ScoreKey = QualityTier × (ℕ × (ℕ × QualityDetail))

abbrev score_key : AlignmentScore → ScoreKey
score_key s = (s.quality_tier, (s.words_weight, (s.matched_query_mask, s.quality_detail)))

abbrev score_of : ScoreKey → AlignmentScore
score_of (t, (w, (m, d))) = record {
  quality_tier = t;
  words_weight = w;
  matched_query_mask = m;
  quality_detail = d;
}

pub cmp_alignment-IsOrder : IsOrder cmp_alignment
unfolding cmp_alignment
cmp_alignment-IsOrder =
    key-IsOrder score_key score_of (λ s. refl)
      (lex-IsOrder tier-IsOrder
        (lex-IsOrder compare-IsOrder (lex-IsOrder compare-IsOrder cmp_detail-IsOrder)))

-- The first score is not above the second.
abbrev pub Upto : AlignmentScore → AlignmentScore → Type 0
Upto a b = cmp_alignment a b ≢ Ordering.gt

abbrev pub Among : WordMatch → List WordMatch → Type 0
Among m [] = ⊥
Among m (x ∷ xs) = (m ≡ x) ⊎ Among m xs

-- Each word is its default or a candidate that has a position.
abbrev pub Picks : List (List WordMatch) → List WordMatch → List WordMatch → Type 0
Picks [] [] [] = Unit
Picks (ms ∷ lists) (d ∷ ds) (r ∷ rs) =
    ((r ≡ d) ⊎ (Among r ms × (is_some (doc_word_pos r) ≡ true))) × Picks lists ds rs
Picks _ _ _ = ⊥

-- The positions are different from each other and from those that are used.
abbrev pub Fresh : List ℕ → List WordMatch → Type 0
Fresh used [] = Unit
Fresh used (r ∷ rs) = elim (doc_word_pos r) [
  | none ↦ Fresh used rs
  | some p ↦ (holds p used ≡ false) × Fresh (p ∷ used) rs
]
