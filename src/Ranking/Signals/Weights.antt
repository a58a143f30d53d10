-- ===== src/Ranking/Signals/Weights.antt =====
-- The weights of the matched words against those of the query, of purr/src/ranking.rs.
use clipkitty.Base.{ℕ, ◌+◌, ◌^◌, ◌≤◌, ◌<◌, List, [], ◌∷◌, map, ◌≡◌, refl, arith}
use native.Mathlib.Nat.{mul-le-mul_left}
use clipkitty.Ranking.Matches.{
  WordMatch, WordMatchState, TypoClass, common_transposition, repeated_char_edit,
  insertion_or_deletion, substitution, multi_edit, matched_weight, scaled_match_weight,
  weight_multiplier, typo_weight_multiplier,
}
use clipkitty.Ranking.Signals.{sum_u16, total_query_weight, words_matched_weight}

scaled_match_weight-le :
    (weight multiplier : ℕ) → multiplier ≤ 256 → scaled_match_weight weight multiplier ≤ weight
unfolding scaled_match_weight
scaled_match_weight-le weight multiplier h = ground (arith, mul-le-mul_left weight h)

typo_weight_multiplier-le : (typo : TypoClass) (len : ℕ) → typo_weight_multiplier typo len ≤ 160
typo_weight_multiplier-le common_transposition len = ground arith
typo_weight_multiplier-le repeated_char_edit len = ground arith
typo_weight_multiplier-le insertion_or_deletion len = ground arith
typo_weight_multiplier-le substitution len = ground arith
typo_weight_multiplier-le multi_edit len = ground arith
typo_weight_multiplier-le TypoClass.subsequence len = ground arith

-- The sum of the query weights, without the wrap of a `u16`.
abbrev pub query_weights : List WordMatch → ℕ
query_weights [] = 0
query_weights (m ∷ ms) = m.query_weight + query_weights ms

matched_weight-le :
    (w n : ℕ) (state : WordMatchState)
    → matched_weight record { query_weight = w; query_char_len = n; state = state } ≤ w
unfolding matched_weight
matched_weight-le w n WordMatchState.unmatched = ground arith
matched_weight-le w n (WordMatchState.exact _) = ground arith
matched_weight-le w n (WordMatchState.prefix _) = ground arith
matched_weight-le w n (WordMatchState.subword_prefix _) =
    scaled_match_weight-le w 176 (ground arith)
matched_weight-le w n (WordMatchState.infix_substring _) =
    scaled_match_weight-le w 112 (ground arith)
matched_weight-le w n (WordMatchState.fuzzy _ _ typo) =
    scaled_match_weight-le w (typo_weight_multiplier typo n)
      (ground (arith, typo_weight_multiplier-le typo n))
matched_weight-le w n (WordMatchState.subsequence p g) =
    scaled_match_weight-le w (weight_multiplier (WordMatchState.subsequence p g) n) (ground arith)

sums :
    (ms : List WordMatch)
    → query_weights ms < 2 ^ 16
    → (sum_u16 (map matched_weight ms) ≤ sum_u16 (map (λ m. m.query_weight) ms))
      × (sum_u16 (map (λ m. m.query_weight) ms) ≡ query_weights ms)
unfolding sum_u16
sums [] h = (omega arith, refl)
sums (m ∷ ms) h =
    let (le, same) = sums ms (omega arith) in
    let here : matched_weight m ≤ m.query_weight =
      matched_weight-le m.query_weight m.query_char_len m.state in
    (omega arith, omega arith)

-- Where the query weights fit into a `u16`, the weight that is matched is at most that of the query.
pub words_matched_weight-total_query_weight :
    (ms : List WordMatch)
    → query_weights ms < 2 ^ 16
    → words_matched_weight ms ≤ total_query_weight ms
unfolding words_matched_weight total_query_weight sum_u16
words_matched_weight-total_query_weight ms h = (sums ms h).0
