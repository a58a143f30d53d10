-- ===== src/Search/Tail/Budget.antt =====
-- The budget of the tail scan, of purr/src/search_admission.rs.
use clipkitty.Base.{
  ℕ, ◌+◌, ◌-◌, ◌*◌, ◌≤◌, ltb, leb, ◌==◌, Bool, true, false, some, List, [], ◌∷◌, length, is_empty,
  ◌≡◌, ◌≢◌, ◌⊎◌, refl, arith, inl, inr, Bool-cases,
}
use native.Mathlib.Nat.{mul-le-mul_left, mul-le-mul_right}
use clipkitty.Ranking.Chars.{Text, Unicode, byte_len}
use clipkitty.Ranking.Matches.{is_word_token}
use clipkitty.Ranking.Matching.{does_word_match}
use clipkitty.Ranking.Folding.{fold_str}
use clipkitty.Ranking.Document.{large_doc_threshold_bytes}
use clipkitty.Ranking.Tokens.{tokenize_words}
use clipkitty.Search.Tail.{
  TailEvidence, verified, no_evidence, budget_exhausted, TailVerifyWord, Flagged, Pass, ended,
  passed, with_flag, is_match, try_charge, pass_one_hit, pass_one, pass_two_words, pass_two,
  after_pass_one, saturating_mul, verify_tail_word_evidence,
}

abbrev units : Pass → ℕ
units (ended e left) = left
units (passed fs count left) = left

-- A pass that has not run out of its budget.
abbrev Funded : Pass → Type 0
Funded (ended e left) = e ≢ budget_exhausted
Funded (passed fs count left) = Unit

with_flag-units : (f : Flagged) (p : Pass) → units (with_flag f p) ≡ units p
with_flag-units f (ended e left) = refl
with_flag-units f (passed fs count left) = refl

with_flag-Funded : (f : Flagged) (p : Pass) → Funded p → Funded (with_flag f p)
with_flag-Funded f (ended e left) h = h
with_flag-Funded f (passed fs count left) h = h

verified-exhausted : verified ≢ budget_exhausted
verified-exhausted e = ground arith

no_evidence-exhausted : no_evidence ≢ budget_exhausted
no_evidence-exhausted e = ground arith

try_charge-le : (cost left : ℕ) → cost ≤ left → try_charge cost left ≡ some (left - cost)
unfolding try_charge
try_charge-le cost left h = ground arith

module _ (u : Unicode) (content : Text) (required : Bool) (least : ℕ) where
  pass_one-Funded :
      (ws : List TailVerifyWord) (count left : ℕ)
      → length ws * byte_len content ≤ left
      → Funded (pass_one u content required least count ws left)
        × (left
            ≤ units (pass_one u content required least count ws left)
              + length ws * byte_len content)
  unfolding pass_one
  pass_one-Funded [] count left h = (tt, omega arith)
  pass_one-Funded (w ∷ ws) count left h =
      let size = byte_len content in
      let paid : try_charge size left ≡ some (left - size) =
        try_charge-le size left (grind arith) in
      let rest : length ws * size ≤ left - size = grind arith in
      elim (Bool-cases (pass_one_hit u content w required)) [
        | inl hit ↦ elim (Bool-cases (leb least (count + 1))) [
          | inl done ↦ rw (paid, hit, done, pass_one) (verified-exhausted, grind arith)
          | inr more ↦
              let (funded, bound) = pass_one-Funded ws (count + 1) (left - size) rest in
              let p = pass_one u content required least (count + 1) ws (left - size) in
              rw (paid, hit, more, pass_one)
                (with_flag-Funded (w, true) p funded, grind (arith, with_flag-units (w, true) p))
        ]
        | inr miss ↦
            let (funded, bound) = pass_one-Funded ws count (left - size) rest in
            let p = pass_one u content required least count ws (left - size) in
            rw (paid, miss, pass_one)
              (with_flag-Funded (w, false) p funded, grind (arith, with_flag-units (w, false) p))
      ]

module _ (u : Unicode) (token : Text) (least : ℕ) where
  pass_two_words-Funded :
      (fs : List Flagged) (count left : ℕ) → Funded (pass_two_words u token least count fs left)
  unfolding pass_two_words
  pass_two_words-Funded [] count left = tt
  pass_two_words-Funded ((w, true) ∷ fs) count left =
      with_flag-Funded (w, true) _ (pass_two_words-Funded fs count left)
  pass_two_words-Funded ((w, false) ∷ fs) count left =
      let kind = does_word_match u w.word_folded (fold_str u token) token w.prefix_match in
      elim (Bool-cases (is_match kind)) [
        | inl hit ↦ elim (Bool-cases (leb least (count + 1))) [
          | inl done ↦ rw (hit, done, pass_two_words) verified-exhausted
          | inr more ↦
              rw (hit, more, pass_two_words)
                (with_flag-Funded (w, true) _ (pass_two_words-Funded fs (count + 1) left))
        ]
        | inr miss ↦
            rw (miss, pass_two_words)
              (with_flag-Funded (w, false) _ (pass_two_words-Funded fs count left))
      ]

Pass-cases :
    (p : Pass)
    → ((e : TailEvidence) × (left : ℕ) × (p ≡ ended e left))
      ⊎ ((fs : List Flagged) × (count : ℕ) × (left : ℕ) × (p ≡ passed fs count left))
Pass-cases (ended e left) = inl (e, left, refl)
Pass-cases (passed fs count left) = inr (fs, count, left, refl)

pass_two-Funded :
    (u : Unicode) (least : ℕ) (tokens : List Text) (count : ℕ) (fs : List Flagged) (left : ℕ)
    → (pass_two u least tokens count fs left).0 ≢ budget_exhausted
unfolding pass_two
pass_two-Funded u least [] count fs left = no_evidence-exhausted
pass_two-Funded u least (token ∷ tokens) count fs left = elim (Bool-cases (is_word_token u token)) [
  | inr skip ↦ rw (skip, pass_two) (pass_two-Funded u least tokens count fs left)
  | inl word ↦
      let funded = pass_two_words-Funded u token least fs count left in
      elim (Pass-cases (pass_two_words u token least count fs left)) [
        | inl (e, left', same) ↦ rw (word, same, pass_two) (rw same at funded)
        | inr (fs', count', left', same) ↦
            rw (word, same, pass_two) (pass_two-Funded u least tokens count' fs' left')
      ]
]

charge_bound :
    (size words count left : ℕ)
    → size * words * 8 ≤ left
    → saturating_mul (saturating_mul size 8) (words - count) ≤ left
charge_bound size words count left h =
    let some_words : size * 8 * (words - count) ≤ size * 8 * words =
      mul-le-mul_left (size * 8) (omega arith) in
    let less : saturating_mul size 8 * (words - count) ≤ size * 8 * (words - count) =
      mul-le-mul_right (words - count) (omega arith) in
    grind arith

-- Where the budget covers the flat cost of a candidate and nine times the size of its content for
-- every word, the scan of the candidate decides: it does not end for lack of budget.
pub verify_tail_word_evidence-budget_exhausted :
    (u : Unicode) (content : Text) (words : List TailVerifyWord) (least left : ℕ)
    → 512 + byte_len content * length words * 9 ≤ left
    → (verify_tail_word_evidence u content words least left).0 ≢ budget_exhausted
unfolding verify_tail_word_evidence after_pass_one
verify_tail_word_evidence-budget_exhausted u content words least left h =
    let size = byte_len content in
    let required = ltb large_doc_threshold_bytes size in
    let paid : try_charge 512 left ≡ some (left - 512) = try_charge-le 512 left (omega arith) in
    let (funded, bound) =
      pass_one-Funded u content required least words 0 (left - 512) (grind arith) in
    elim (Bool-cases (least == 0)) [
      | inl zero_words ↦ rw (zero_words, verify_tail_word_evidence) verified-exhausted
      | inr some_words ↦ elim (Bool-cases (is_empty words)) [
        | inl nothing ↦ rw (some_words, nothing, verify_tail_word_evidence) no_evidence-exhausted
        | inr given ↦ elim (Pass-cases (pass_one u content required least 0 words (left - 512))) [
          | inl (e, left', same) ↦
              rw (some_words, given, paid, same, verify_tail_word_evidence, after_pass_one)
                (rw same at funded)
          | inr (fs, count, left', same) ↦ elim (Bool-cases required) [
            | inl large ↦
                rw (some_words, given, paid, same, verify_tail_word_evidence, after_pass_one, large)
                  no_evidence-exhausted
            | inr small ↦
                let kept : left - 512 ≤ left' + length words * size = rw same at bound in
                let cost = saturating_mul (saturating_mul size 8) (length words - count) in
                let again : try_charge cost left' ≡ some (left' - cost) =
                  try_charge-le cost left'
                    (charge_bound size (length words) count left' (grind arith)) in
                rw
                  (
                    some_words, given, paid, same, verify_tail_word_evidence, after_pass_one, small,
                    again,
                  )
                  (pass_two-Funded u least (tokenize_words u content) count fs (left' - cost))
          ]
        ]
      ]
    ]
