-- ===== src/Ranking/Candidates/Trim.antt =====
-- The trimming of candidates, of purr/src/ranking/alignment.rs.
use clipkitty.Base.{
  ℕ, zero, suc, ◌+◌, ◌≤◌, leb, Bool, List, [], ◌∷◌, ◌++◌, length, length-append, refl, ◌⊎◌, inl,
  inr, arith, Bool-cases, Option-cases,
}
use clipkitty.Base.Table.{insert_by, order_by}
use clipkitty.Ranking.Matches.{WordMatch, doc_word_pos}
use clipkitty.Ranking.Alignment.{holds}
use clipkitty.Ranking.Alignment.Valid.{Among}
use clipkitty.Ranking.Candidates.{
  take, reversed, by_quality, by_pos, Trimmed, choose, choose_all, fill, trim_match_candidates,
}

length-choose : (m : WordMatch) (t : Trimmed) → length (choose m t).chosen ≤ suc (length t.chosen)
unfolding choose
length-choose m t = elim (Option-cases (doc_word_pos m)) [
  | inl missing ↦ rw (missing, choose) (omega arith)
  | inr (p, at) ↦ elim (Bool-cases (holds p t.seen_positions)) [
    | inl seen ↦ rw (at, seen, choose) (omega arith)
    | inr new ↦ rw (at, new, choose) (omega (arith, length-append t.chosen (m ∷ [])))
  ]
]

length-choose_all :
    (ms : List WordMatch) (t : Trimmed)
    → length (choose_all ms t).chosen ≤ length ms + length t.chosen
unfolding choose_all
length-choose_all [] t = omega arith
length-choose_all (m ∷ ms) t = omega (arith, length-choose m t, length-choose_all ms (choose m t))

length-fill :
    (ms : List WordMatch) (t : Trimmed) → length t.chosen ≤ 8 → length (fill ms t).chosen ≤ 8
unfolding fill
length-fill [] t h = h
length-fill (m ∷ ms) t h = elim (Bool-cases (leb 8 (length t.chosen))) [
  | inl full ↦ rw (full, fill) h
  | inr more ↦
      let next : length (choose m t).chosen ≤ 8 = ground (arith, length-choose m t) in
      rw (more, fill) (length-fill ms (choose m t) next)
]

length-take : (n : ℕ) (ms : List WordMatch) → length (take n ms) ≤ n
length-take zero ms = omega arith
length-take (suc n) [] = omega arith
length-take (suc n) (m ∷ ms) = omega (arith, length-take n ms)

-- No query word keeps more than eight candidates.
pub length-trim_match_candidates : (ms : List WordMatch) → length (trim_match_candidates ms) ≤ 8
unfolding trim_match_candidates
length-trim_match_candidates ms =
    let best = by_quality ms in
    let ordered = by_pos ms in
    let start : Trimmed = record { chosen = []; seen_positions = [] } in
    let ends = take 2 ordered ++ take 2 (reversed ordered) in
    let first = choose_all (take 4 best) start in
    elim (Bool-cases (leb (length ms) 8)) [
      | inl few ↦ rw (few, trim_match_candidates) (ground arith)
      | inr many ↦
          let enough : length (choose_all ends first).chosen ≤ 8 = omega (
            arith,
            length-choose_all ends first,
            length-choose_all (take 4 best) start,
            length-take 4 best,
            length-take 2 ordered,
            length-take 2 (reversed ordered),
            length-append (take 2 ordered) (take 2 (reversed ordered)),
          ) in
          rw (many, trim_match_candidates) (length-fill best (choose_all ends first) enough)
    ]

-- Everything in one list stands in another.
abbrev Within : List WordMatch → List WordMatch → Type 0
Within xs ms = (m : WordMatch) → Among m xs → Among m ms

Among-append :
    (m : WordMatch) (xs ys : List WordMatch) → Among m (xs ++ ys) → Among m xs ⊎ Among m ys
Among-append m [] ys h = inr h
Among-append m (x ∷ xs) ys (inl e) = inl (inl e)
Among-append m (x ∷ xs) ys (inr h) = elim (Among-append m xs ys h) [
  | inl a ↦ inl (inr a)
  | inr b ↦ inr b
]

insert_by-Within :
    (le : WordMatch → WordMatch → Bool) (x : WordMatch) (xs : List WordMatch)
    → Within (insert_by le x xs) (x ∷ xs)
unfolding insert_by
insert_by-Within le x [] m h = h
insert_by-Within le x (y ∷ ys) m h = elim (Bool-cases (le x y)) [
  | inl before ↦ rw (before, insert_by) at h
  | inr after ↦ elim (rw (after, insert_by) at h) [
    | inl e ↦ inr (inl e)
    | inr later ↦ elim (insert_by-Within le x ys m later) [ inl e ↦ inl e | inr a ↦ inr (inr a) ]
  ]
]

order_by-Within :
    (le : WordMatch → WordMatch → Bool) (xs : List WordMatch) → Within (order_by le xs) xs
unfolding order_by
order_by-Within le [] m h = h
order_by-Within le (x ∷ xs) m h = elim (insert_by-Within le x (order_by le xs) m h) [
  | inl e ↦ inl e
  | inr a ↦ inr (order_by-Within le xs m a)
]

take-Within : (n : ℕ) (xs : List WordMatch) → Within (take n xs) xs
take-Within zero xs m h = absurd h
take-Within (suc n) [] m h = absurd h
take-Within (suc n) (x ∷ xs) m (inl e) = inl e
take-Within (suc n) (x ∷ xs) m (inr h) = inr (take-Within n xs m h)

reversed-Within : (xs : List WordMatch) → Within (reversed xs) xs
reversed-Within [] m h = h
reversed-Within (x ∷ xs) m h = elim (Among-append m (reversed xs) (x ∷ []) h) [
  | inl a ↦ inr (reversed-Within xs m a)
  | inr (inl e) ↦ inl e
  | inr (inr never) ↦ absurd never
]

module _ (all : List WordMatch) where
  choose-Within :
      (m : WordMatch) (t : Trimmed)
      → Among m all
      → Within t.chosen all
      → Within (choose m t).chosen all
  unfolding choose
  choose-Within m t a w = elim (Option-cases (doc_word_pos m)) [
    | inl missing ↦ rw (missing, choose) w
    | inr (p, at) ↦ elim (Bool-cases (holds p t.seen_positions)) [
      | inl seen ↦ rw (at, seen, choose) w
      | inr new ↦
          rw (at, new, choose)
            (λ x h. elim (Among-append x t.chosen (m ∷ []) h) [
              | inl old ↦ w x old
              | inr (inl e) ↦ rw e a
              | inr (inr never) ↦ absurd never
            ])
    ]
  ]

  choose_all-Within :
      (ms : List WordMatch) (t : Trimmed)
      → Within ms all
      → Within t.chosen all
      → Within (choose_all ms t).chosen all
  unfolding choose_all
  choose_all-Within [] t h w = w
  choose_all-Within (m ∷ ms) t h w =
      choose_all-Within ms (choose m t) (λ x a. h x (inr a)) (choose-Within m t (h m (inl refl)) w)

  fill-Within :
      (ms : List WordMatch) (t : Trimmed)
      → Within ms all
      → Within t.chosen all
      → Within (fill ms t).chosen all
  unfolding fill
  fill-Within [] t h w = w
  fill-Within (m ∷ ms) t h w = elim (Bool-cases (leb 8 (length t.chosen))) [
    | inl full ↦ rw (full, fill) w
    | inr more ↦
        rw (more, fill)
          (fill-Within ms (choose m t) (λ x a. h x (inr a)) (choose-Within m t (h m (inl refl)) w))
  ]

trim_match_candidates-Within : (ms : List WordMatch) → Within (trim_match_candidates ms) ms
unfolding trim_match_candidates
trim_match_candidates-Within ms =
    let best = by_quality ms in
    let ordered = by_pos ms in
    let start : Trimmed = record { chosen = []; seen_positions = [] } in
    let ends = take 2 ordered ++ take 2 (reversed ordered) in
    let sorted : Within best ms = order_by-Within _ ms in
    let placed : Within ordered ms = order_by-Within _ ms in
    let outer : Within ends ms = λ m h. elim (Among-append m (take 2 ordered) _ h) [
      | inl a ↦ placed m (take-Within 2 ordered m a)
      | inr b ↦ placed m (reversed-Within ordered m (take-Within 2 (reversed ordered) m b))
    ] in
    elim (Bool-cases (leb (length ms) 8)) [
      | inl few ↦ rw (few, trim_match_candidates) (λ m h. h)
      | inr many ↦
          rw (many, trim_match_candidates)
            (fill-Within ms best _ sorted (
              choose_all-Within ms ends _ outer (
                choose_all-Within ms (take 4 best) start (λ m h. sorted m (take-Within 4 best m h))
                  (λ m h. absurd h))))
    ]

-- Each candidate that a query word keeps is one of those it had.
pub trim_match_candidates-Among :
    (ms : List WordMatch) (m : WordMatch) → Among m (trim_match_candidates ms) → Among m ms
trim_match_candidates-Among ms = trim_match_candidates-Within ms
