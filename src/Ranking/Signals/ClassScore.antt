-- ===== src/Ranking/Signals/ClassScore.antt =====
-- The class score of an alignment, of purr/src/ranking.rs, stays near its weakest match.
use clipkitty.Base.{
  ℕ, ◌+◌, ◌*◌, ◌/◌, ◌^◌, ◌≤◌, ◌<◌, max, min, some, List, [], ◌∷◌, ◌≡◌, arith, inl, inr,
  Option-cases,
}
use native.Mathlib.Nat.{div-le_of_le-mul, le-div_iff_mul-le, mul-le-mul_left}
use clipkitty.Ranking.Matches.{
  WordMatch, WordMatchState, TypoClass, common_transposition, repeated_char_edit,
  insertion_or_deletion, substitution, multi_edit, match_class_score, typo_class_score,
  saturating_add_u8,
}
use clipkitty.Ranking.Signals.{
  matched_words, class_weight, class_sum, worst_class, compute_match_class_score,
}

-- The weights of the words, without the wrap of a `u32`.
abbrev pub class_weights : List WordMatch → ℕ
class_weights [] = 0
class_weights (m ∷ ms) = max m.query_weight 1 + class_weights ms

typo_class_score-le : (typo : TypoClass) → typo_class_score typo ≤ 255
typo_class_score-le common_transposition = omega arith
typo_class_score-le repeated_char_edit = omega arith
typo_class_score-le insertion_or_deletion = omega arith
typo_class_score-le substitution = omega arith
typo_class_score-le multi_edit = omega arith
typo_class_score-le TypoClass.subsequence = omega arith

match_class_score-le : (s : WordMatchState) → match_class_score s ≤ 255
match_class_score-le WordMatchState.unmatched = omega arith
match_class_score-le (WordMatchState.exact _) = omega arith
match_class_score-le (WordMatchState.prefix _) = omega arith
match_class_score-le (WordMatchState.subword_prefix _) = omega arith
match_class_score-le (WordMatchState.infix_substring _) = omega arith
match_class_score-le (WordMatchState.fuzzy _ _ typo) = typo_class_score-le typo
match_class_score-le (WordMatchState.subsequence _ _) = omega arith

weighted_low :
    (worst s rest w ws total : ℕ)
    → worst ≤ s
    → worst ≤ rest
    → rest * ws ≤ total
    → worst * (w + ws) ≤ w * s + total
weighted_low worst s rest w ws total a b h =
    let here : w * worst ≤ w * s = mul-le-mul_left w a in
    let later : ws * worst ≤ ws * rest = mul-le-mul_left ws b in grind arith

-- The two sums do not wrap, and their quotient lies between the worst score and 255.
class_sums :
    (ms : List WordMatch) (worst : ℕ)
    → class_weights ms < 2 ^ 24
    → worst_class ms ≡ some worst
    → (class_weight ms ≡ class_weights ms)
      × (0 < class_weights ms)
      × (worst * class_weights ms ≤ class_sum ms)
      × (class_sum ms ≤ 255 * class_weights ms)
class_sums [] worst h e = ground arith
class_sums (m ∷ []) worst h e =
    let w = max m.query_weight 1 in
    let top : w * match_class_score m.state ≤ w * 255 =
      mul-le-mul_left w (match_class_score-le m.state) in
    let same : match_class_score m.state ≡ worst = ground arith in
    let low =
      weighted_low worst (match_class_score m.state) worst w 0 0 (omega arith) (omega arith)
        (omega arith) in
    (omega arith, omega arith, omega arith, omega arith)
class_sums (m ∷ n ∷ ms) worst h e =
    let w = max m.query_weight 1 in
    let ws = class_weights (n ∷ ms) in
    let s = match_class_score m.state in
    let top : w * s ≤ w * 255 = mul-le-mul_left w (match_class_score-le m.state) in
    elim (Option-cases (worst_class (n ∷ ms))) [
      | inl missing ↦ absurd (ground arith)
      | inr (rest, f) ↦
          let (same, positive, low, high) = class_sums (n ∷ ms) rest (omega arith) f in
          let smallest : worst ≡ min s rest = ground arith in
          let low' =
            weighted_low worst s rest w ws (class_sum (n ∷ ms)) (omega arith) (omega arith) low in
          (omega arith, omega arith, omega arith, omega arith)
    ]

worst_class-le : (ms : List WordMatch) (worst : ℕ) → worst_class ms ≡ some worst → worst ≤ 255
worst_class-le [] worst e = ground arith
worst_class-le (m ∷ ms) worst e = ground (arith, match_class_score-le m.state)

-- Where the weights of the matched words add up to less than 2 ^ 24, the class score of an alignment
-- is at least the score of its weakest match, at most 64 above that, and fits into a `u8`.
pub compute_match_class_score-worst_class :
    (ms : List WordMatch) (worst : ℕ)
    → class_weights (matched_words ms) < 2 ^ 24
    → worst_class (matched_words ms) ≡ some worst
    → (worst ≤ compute_match_class_score ms)
      × (compute_match_class_score ms ≤ worst + 64)
      × (compute_match_class_score ms ≤ 255)
unfolding compute_match_class_score saturating_add_u8
compute_match_class_score-worst_class ms worst h e =
    let (same, positive, low, high) = class_sums (matched_words ms) worst h e in
    let weights = class_weight (matched_words ms) in
    let sum = class_sum (matched_words ms) in
    let here : 0 < weights = omega arith in
    let least : worst ≤ sum / weights = (le-div_iff_mul-le here).1 (rw same low) in
    let top : sum ≤ weights * 255 = rw same (omega arith) in
    let most : sum / weights ≤ 255 = div-le_of_le-mul weights top in
    let bound = worst_class-le (matched_words ms) worst e in
    rw (e, compute_match_class_score) (ground arith)
