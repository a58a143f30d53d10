-- ===== src/Highlight/Excerpt/Breaks.antt =====
-- The line breaks that an excerpt keeps before its match.
use clipkitty.Base.{
  ℕ, zero, suc, ◌+◌, ◌-◌, ◌≤◌, ◌<◌, ltb, ◌==◌, Bool, true, false, some, List, [], ◌∷◌, length, take,
  drop, drop-add, drop-take, length-take-le, get_elem?-take, get_elem?-drop, keep, any, get_elem?,
  indices_where, get_elem?-some, ◌≡◌, refl, ap, ◌∙◌, ◌⊎◌, ◌≢◌, inl, inr, Bool-cases, arith,
}
use clipkitty.Ranking.Chars.{Text}
use clipkitty.Highlight.Excerpt.{
  skip_breaks, break_positions_of, after_breaks, clamp_leading_line_breaks,
}

abbrev is_break : ℕ → Bool
is_break c = c == 10

-- The line breaks of a text.
abbrev pub breaks_in : Text → ℕ
breaks_in s = length (keep (λ c. c == 10) s)

length-indices_where : (w : ℕ) (s : Text) → length (indices_where is_break w s) ≡ breaks_in s
length-indices_where w [] = refl
length-indices_where w (c ∷ s) = ground (arith, length-indices_where (suc w) s)

break_first :
    (w c : ℕ) (s : Text) (j q : ℕ)
    → is_break c ≡ true
    → get_elem? (indices_where is_break w (c ∷ s)) j ≡ some q
    → ((i r : ℕ)
        → get_elem? (indices_where is_break (suc w) s) i ≡ some r
        → (k : ℕ) × (r ≡ suc w + k)
          × (k < length s)
          × (breaks_in (drop (suc k) s) + suc i ≡ breaks_in s))
    → (k : ℕ) × (q ≡ w + k)
      × (k < suc (length s))
      × (breaks_in (drop k s) + suc j ≡ breaks_in (c ∷ s))
break_first w c s zero q e at ih = (0, ground arith, omega arith, ground arith)
break_first w c s (suc j) q e at ih =
    let (k, place, inside, count) = ih j q (ground arith) in
    (suc k, omega arith, omega arith, ground arith)

-- After the index that an entry of the list gives, the breaks of the later entries stand.
breaks_after_index :
    (w : ℕ) (s : Text) (j q : ℕ)
    → get_elem? (indices_where is_break w s) j ≡ some q
    → (k : ℕ) × (q ≡ w + k) × (k < length s) × (breaks_in (drop (suc k) s) + suc j ≡ breaks_in s)
breaks_after_index w [] j q at = cc
breaks_after_index w (c ∷ s) j q at = elim (Bool-cases (is_break c)) [
  | inl e ↦ break_first w c s j q e at (breaks_after_index (suc w) s)
  | inr e ↦
      let (k, place, inside, count) = breaks_after_index (suc w) s j q (ground arith) in
      (suc k, omega arith, omega arith, ground arith)
]

breaks_in-drop-le : (k : ℕ) (s : Text) → breaks_in (drop k s) ≤ breaks_in s
breaks_in-drop-le zero s = omega arith
breaks_in-drop-le (suc k) [] = omega arith
breaks_in-drop-le (suc k) (c ∷ s) = ground (arith, breaks_in-drop-le k s)

-- Where the skipping starts, few enough breaks stand.
after_breaks_few :
    (w max_breaks : ℕ) (s : Text)
    → (k : ℕ) × (after_breaks (indices_where is_break w s) w max_breaks ≡ w + k)
      × (k ≤ length s)
      × (breaks_in (drop k s) ≤ max_breaks)
unfolding after_breaks
after_breaks_few w max_breaks s =
    let positions : List ℕ = indices_where is_break w s in
    let count : length positions ≡ breaks_in s = length-indices_where w s in
    elim (Bool-cases (ltb max_breaks (length positions))) [
      | inr few ↦ (0, ground arith, omega arith, ground arith)
      | inl many ↦
          let i : ℕ = length positions - 1 - max_breaks in
          let (q, at) = get_elem?-some positions i (ground arith) in
          let (k, place, inside, after) = breaks_after_index w s i q at in
          (suc k, rw (many, at) (omega arith), inside, ground arith)
    ]

any-indices_where :
    (w : ℕ) (s : Text) (k : ℕ)
    → get_elem? s k ≡ some 10
    → any (λ b. b == w + k) (indices_where is_break w s) ≡ true
any-indices_where w [] k at = cc
any-indices_where w (c ∷ s) zero at = ground arith
any-indices_where w (c ∷ s) (suc k) at = ground (arith, any-indices_where (suc w) s k)

skip_breaks_bounds :
    (rounds : ℕ) (positions : List ℕ) (start : ℕ)
    → (start ≤ skip_breaks rounds positions start)
      × (skip_breaks rounds positions start ≤ start + rounds)
unfolding skip_breaks
skip_breaks_bounds zero positions start = ground arith
skip_breaks_bounds (suc rounds) positions start =
    ground (arith, skip_breaks_bounds rounds positions (suc start))

-- Where it stops before the rounds are used up, no break stands.
skip_breaks_stops :
    (rounds : ℕ) (positions : List ℕ) (start : ℕ)
    → skip_breaks rounds positions start < start + rounds
    → any (λ b. b == skip_breaks rounds positions start) positions ≡ false
unfolding skip_breaks
skip_breaks_stops zero positions start h = absurd (omega arith)
skip_breaks_stops (suc rounds) positions start h =
    elim (Bool-cases (any (λ b. b == start) positions)) [
      | inl e ↦ rw e (skip_breaks_stops rounds positions (suc start) (ground arith))
      | inr e ↦ rw e e
    ]

-- The text between a position and the match, as a part of the text before the match.
lead_from :
    (content : Text) (w k m : ℕ)
    → take (m - (w + k)) (drop (w + k) content) ≡ drop k (take (m - w) (drop w content))
lead_from content w k m =
    rw (drop-add w k content, drop-take k (m - w) (drop w content))
      (ap (λ n. take n (drop k (drop w content))) (omega arith))

breaks_in_lead :
    (content : Text) (w k e m : ℕ)
    → breaks_in (take (m - (w + (k + e))) (drop (w + (k + e)) content))
      ≤ breaks_in (drop k (take (m - w) (drop w content)))
breaks_in_lead content w k e m =
    let lead : Text = take (m - w) (drop w content) in
    rw (lead_from content w (k + e) m, drop-add k e lead) (breaks_in-drop-le e (drop k lead))

-- A break at a position before the match is in the list.
break_in_list :
    (content : Text) (w k m : ℕ)
    → w + k < m
    → get_elem? content (w + k) ≡ some 10
    → any (λ b. b == w + k) (break_positions_of content w m) ≡ true
break_in_list content w k m before at =
    any-indices_where w (take (m - w) (drop w content)) k
      (get_elem?-take (m - w) (drop w content) k (omega arith) ∙ get_elem?-drop w content k ∙ at)

break_at :
    (content : Text) (w r m : ℕ)
    → w ≤ r
    → r < m
    → get_elem? content r ≡ some 10
    → any (λ b. b == r) (break_positions_of content w m) ≡ true
break_at content w r m low before at =
    let place : w + (r - w) ≡ r = omega arith in
    let found : any (λ b. b == w + (r - w)) (break_positions_of content w m) ≡ true =
      break_in_list content w (r - w) m (omega arith) (rw place at) in
    rw (← place) found

-- The line breaks between the start of the excerpt and the match are no more than is allowed. The
-- start is not moved back, nor past the match; it is the match, or no line break stands at it.
pub clamp_leading_line_breaks-few :
    (content : Text) (window_start match_start max_line_breaks : ℕ)
    → window_start ≤ match_start
    → (start : ℕ) × (clamp_leading_line_breaks content window_start match_start max_line_breaks
        ≡ start)
      × (window_start ≤ start)
      × (start ≤ match_start)
      × (breaks_in (take (match_start - start) (drop start content)) ≤ max_line_breaks)
      × ((start ≡ match_start) ⊎ (get_elem? content start ≢ some 10))
unfolding clamp_leading_line_breaks
clamp_leading_line_breaks-few content w m max_breaks le =
    let lead : Text = take (m - w) (drop w content) in
    let positions : List ℕ = indices_where is_break w lead in
    let (k, place, inside, few) = after_breaks_few w max_breaks lead in
    let r : ℕ = skip_breaks (m - (w + k)) positions (w + k) in
    let (low, high) = skip_breaks_bounds (m - (w + k)) positions (w + k) in
    let size : length lead ≤ m - w = length-take-le (m - w) (drop w content) in
    let e : ℕ = r - (w + k) in
    let split : r ≡ w + (k + e) = omega arith in
    (
      r,
      rw (place) refl,
      omega arith,
      omega arith,
      rw split (omega (arith, breaks_in_lead content w k e m)),
      elim (Bool-cases (ltb r m)) [
        | inl before ↦
            let stops : any (λ b. b == r) positions ≡ false =
              skip_breaks_stops (m - (w + k)) positions (w + k) (ground arith) in
            let earlier : r < m = ground arith in
            inr (λ at. cc (break_at content w r m (omega arith) earlier at, stops))
        | inr end ↦ inl (ground arith)
      ],
    )
