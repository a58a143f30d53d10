-- ===== src/Search/Admission/Head.antt =====
-- The head of the second phase, of purr/src/search_admission.rs.
use clipkitty.Base.{
  take, length-take-le, ◌-◌, ◌≤◌, true, false, List, length, length-append, arith, inl, inr,
  Option-cases,
}
use clipkitty.Search.Admission.{
  SearchCandidate, indexed_where, nth, indices, reaching, select_phase_two_head,
}

-- At most 72 candidates go to the second phase, however many there are.
pub length-select_phase_two_head :
    (cs : List SearchCandidate) → length (select_phase_two_head cs) ≤ 72
unfolding select_phase_two_head
length-select_phase_two_head cs =
    let regular = indexed_where false 0 cs in
    let large = indexed_where true 0 cs in
    let head = take 64 (indices regular) in
    elim (Option-cases (nth 63 regular)) [
      | inr ((i, c), full) ↦
          let more = take 8 (indices (reaching c.phase_one_score large)) in
          rw (full, select_phase_two_head)
            (omega (
              arith,
              length-append head more,
              length-take-le 64 (indices regular),
              length-take-le 8 (indices (reaching c.phase_one_score large)),
            ))
      | inl few ↦
          let more = take (72 - length head) (indices large) in
          rw (few, select_phase_two_head)
            (omega (
              arith,
              length-append head more,
              length-take-le 64 (indices regular),
              length-take-le (72 - length head) (indices large),
            ))
    ]
