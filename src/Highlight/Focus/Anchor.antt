-- ===== src/Highlight/Focus/Anchor.antt =====
-- What a preview shows: that `limit_preview_highlights` does not panic, and that the highlight to
-- scroll to is among those that it keeps.
use clipkitty.Base.{
  ℕ, zero, suc, ◌+◌, ◌-◌, ◌/◌, ◌^◌, ◌≤◌, ◌<◌, ltb, leb, Bool, true, false, Option, some, List, [],
  ◌∷◌, length, take, drop, last?, get_elem?, is_empty, indices_where, lt-length_of_get_elem?,
  length-take, take-length, length-drop, get_elem?-take, get_elem?-drop, ◌≡◌, refl, sym, ap, ◌∙◌,
  inl, inr, Bool-cases, arith, if◌then◌else◌,
}
use clipkitty.Highlight.Types.{HighlightRange, HighlightAnalysis}
use clipkitty.Highlight.Focus.{
  get_slice, is_visible, anchor_index_of, visible_slice, narrow_slice, limited_anchor, focus_window,
  limit_preview_highlights,
}

-- The first and the last index that passes enclose each that does.
Encloses : ℕ → ℕ → List ℕ → Type 0
Encloses k n [] = ⊥
Encloses k n (first ∷ rest) =
    (l : ℕ) × (last? (first ∷ rest) ≡ some l) × (first ≤ k) × (k ≤ l) × (l < n)

Encloses-cons : (j k n : ℕ) (is : List ℕ) → j ≤ k → Encloses k n is → Encloses k n (j ∷ is)
unfolding Encloses
Encloses-cons j k n [] le h = absurd h
Encloses-cons j k n (i ∷ is) le (l, is_last, low, high, bound) = (l, is_last, le, high, bound)

Encloses-eq : (k k' n n' : ℕ) (is : List ℕ) → k ≡ k' → n ≡ n' → Encloses k n is → Encloses k' n' is
unfolding Encloses
Encloses-eq k k' n n' [] p q h = absurd h
Encloses-eq k k' n n' (i ∷ is) p q (l, is_last, low, high, bound) =
    (l, is_last, omega arith, omega arith, omega arith)

module _ {A : Type 0} (test : A → Bool) where
  -- The last of an index and those that follow it.
  last?-indices_where :
      (j k : ℕ) (xs : List A)
      → j < k
      → (l : ℕ) × (last? (j ∷ indices_where test k xs) ≡ some l) × (j ≤ l) × (l < k + length xs)
  last?-indices_where j k [] h = (j, refl, omega arith, omega arith)
  last?-indices_where j k (x ∷ xs) h = elim (Bool-cases (test x)) [
    | inl e ↦
        let (l, is_last, above, below) = last?-indices_where k (suc k) xs (omega arith) in
        (l, rw e is_last, omega arith, omega arith)
    | inr e ↦
        let (l, is_last, above, below) = last?-indices_where j (suc k) xs (omega arith) in
        (l, rw e is_last, omega arith, omega arith)
  ]

  Encloses-indices_where :
      (k : ℕ) (xs : List A) (i : ℕ) {x : A}
      → get_elem? xs i ≡ some x
      → test x ≡ true
      → Encloses (k + i) (k + length xs) (indices_where test k xs)
  unfolding Encloses
  Encloses-indices_where k [] i at pass = cc
  Encloses-indices_where k (x ∷ xs) zero at pass =
      let e : test x ≡ true = ground arith in
      let (l, is_last, above, below) = last?-indices_where k (suc k) xs (omega arith) in
      rw e (l, is_last, omega arith, omega arith, omega arith)
  Encloses-indices_where k (x ∷ xs) (suc i) at pass =
      let rest : List ℕ = indices_where test (suc k) xs in
      let moved : Encloses (k + suc i) (k + suc (length xs)) rest =
        Encloses-eq (suc k + i) (k + suc i) (suc k + length xs) (k + suc (length xs)) rest
          (omega arith) (omega arith) (Encloses-indices_where (suc k) xs i at pass) in
      elim (Bool-cases (test x)) [
        | inl e ↦ rw e (Encloses-cons k (k + suc i) _ _ (omega arith) moved)
        | inr e ↦ rw e moved
      ]

-- The slice holds the index, and lies within the list.
abbrev Holds : ℕ → ℕ → ℕ × ℕ → Type 0
Holds i n slice = (slice.0 ≤ i) × (i < slice.1) × (slice.1 ≤ n)

visible_slice-Holds :
    (anchor i n : ℕ) (is : List ℕ) → Encloses i n is → Holds i n (visible_slice anchor is)
unfolding visible_slice Encloses
visible_slice-Holds anchor i n [] h = absurd h
visible_slice-Holds anchor i n (first ∷ rest) (l, is_last, low, high, bound) =
    rw (is_last, visible_slice) (low, omega arith, omega arith)

-- `clamp` does not panic, and the slice keeps the index.
narrow_slice-Holds :
    (i max_highlights n start end : ℕ)
    → 0 < max_highlights
    → Holds i n (start, end)
    → (start' end' : ℕ) × (narrow_slice i max_highlights (start, end) ≡ some (start', end'))
      × Holds i n (start', end')
      × (end' - start' ≤ max_highlights)
unfolding narrow_slice
narrow_slice-Holds i m n start end pos (low, high, bound) =
    elim (Bool-cases (ltb m (end - start))) [
      | inl e ↦
          let x : ℕ = i - m / 2 in
          let c : ℕ = if ltb x start then start else if ltb (end - m) x then end - m else x in
          (c, c + m, ground arith, (ground arith, ground arith, ground arith), omega arith)
      | inr e ↦ (start, end, rw e refl, (low, high, bound), ground arith)
    ]

is_empty-false {ℓ} : {A : Type ℓ} (xs : List A) → 0 < length xs → is_empty xs ≡ false
is_empty-false [] h = absurd (omega arith)
is_empty-false (x ∷ xs) h = refl

-- The anchor stands in its own window.
is_visible-anchor :
    (context_chars : ℕ) (h : HighlightRange)
    → h.start ≤ h.end
    → h.end < 2 ^ 64
    → is_visible context_chars h h ≡ true
unfolding is_visible
is_visible-anchor context_chars h le bound = ground arith

-- The highlights that are kept, a part without gaps and no more than are allowed, with the index of
-- the anchor among them.
abbrev pub Kept :
    List HighlightRange → ℕ → HighlightRange → Option (List HighlightRange × Option ℕ) → Type 0
Kept highlights max_highlights anchor result =
    (limited : List HighlightRange) × (j : ℕ) × (result ≡ some (limited, some j))
    × (length limited ≤ max_highlights)
    × (get_elem? limited j ≡ some anchor)
    × (first : ℕ) × (count : ℕ) × (limited ≡ take count (drop first highlights))

abbrev pub focused_on : List HighlightRange → ℕ → HighlightAnalysis
focused_on highlights index = record {
  highlights = highlights;
  initial_scroll_highlight_index = some index;
}

module _ (highlights : List HighlightRange) (i max_highlights context_chars : ℕ)
    {anchor : HighlightRange} (at : get_elem? highlights i ≡ some anchor)
    (le : anchor.start ≤ anchor.end) (bound : anchor.end < 2 ^ 64) (pos : 0 < max_highlights) where
  keep_slice :
      (start end : ℕ)
      → Holds i (length highlights) (start, end)
      → end - start ≤ max_highlights
      → (limited : List HighlightRange) × (get_slice start end highlights ≡ some limited)
        × (length limited ≡ end - start)
        × (get_elem? limited (i - start) ≡ some anchor)
        × (limited ≡ take (end - start) (drop start highlights))
  keep_slice start end (low, high, within) size =
      let limited : List HighlightRange = take (end - start) (drop start highlights) in
      let index : start + (i - start) ≡ i = omega arith in
      (
        limited,
        ground arith,
        length-take (end - start) (drop start highlights)
            (omega (arith, length-drop start highlights)),
        get_elem?-take (end - start) (drop start highlights) (i - start) (omega arith)
            ∙ get_elem?-drop start highlights (i - start)
            ∙ ap (get_elem? highlights) index
            ∙ at,
        refl,
      )

  focus_window-eq :
      (start end : ℕ) (limited : List HighlightRange)
      → narrow_slice i max_highlights
          (visible_slice i (indices_where (is_visible context_chars anchor) 0 highlights))
        ≡ some (start, end)
      → get_slice start end highlights ≡ some limited
      → limited_anchor i start (length limited) ≡ some (i - start)
      → focus_window highlights i max_highlights context_chars ≡ some (limited, some (i - start))
  unfolding focus_window
  focus_window-eq start end limited narrowed sliced anchored =
      rw (at, narrowed, sliced, anchored) refl

  limited_anchor-some :
      (start len : ℕ) → start ≤ i → i - start < len → limited_anchor i start len ≡ some (i - start)
  unfolding limited_anchor
  limited_anchor-some start len low high = ground arith

  focus_window-Kept :
      Kept highlights max_highlights anchor (focus_window highlights i max_highlights context_chars)
  focus_window-Kept =
      let visible : List ℕ = indices_where (is_visible context_chars anchor) 0 highlights in
      let holds : Holds i (length highlights) (visible_slice i visible) =
        visible_slice-Holds i i (length highlights) visible (
          Encloses-eq (0 + i) i (0 + length highlights) (length highlights) visible (omega arith)
            (omega arith)
            (Encloses-indices_where (is_visible context_chars anchor) 0 highlights i at
              (is_visible-anchor context_chars anchor le bound))) in
      let whole : ℕ × ℕ = visible_slice i visible in
      let (start, end, narrowed, (low, high, within), size) =
        narrow_slice-Holds i max_highlights (length highlights) whole.0 whole.1 pos holds in
      let (limited, sliced, len, kept, part) = keep_slice start end (low, high, within) size in
      (
        limited,
        i - start,
        focus_window-eq start end limited narrowed sliced
            (limited_anchor-some start (length limited) low (omega arith)),
        omega arith,
        kept,
        start,
        end - start,
        part,
      )

  limit_preview_highlights-few :
      (index : ℕ)
      → is_empty highlights ≡ false
      → leb (length highlights) max_highlights ≡ true
      → limit_preview_highlights (focused_on highlights index) max_highlights context_chars
        ≡ some (highlights, some index)
  unfolding limit_preview_highlights
  limit_preview_highlights-few index e few = ground arith

  limit_preview_highlights-many :
      (index : ℕ)
      → index < length highlights
      → is_empty highlights ≡ false
      → leb (length highlights) max_highlights ≡ false
      → limit_preview_highlights (focused_on highlights index) max_highlights context_chars
        ≡ focus_window highlights index max_highlights context_chars
  unfolding limit_preview_highlights anchor_index_of
  limit_preview_highlights-many index inside e many = ground arith

  -- Where the highlight to scroll to is a range within the numbers of 64 bits and some highlight may
  -- be shown, nothing panics, a part of the highlights without gaps and with no more than that many is
  -- kept, and the index that comes with them is that of the highlight to scroll to.
  pub limit_preview_highlights-anchor :
      Kept highlights max_highlights anchor
        (limit_preview_highlights (focused_on highlights i) max_highlights context_chars)
  limit_preview_highlights-anchor =
      let inside : i < length highlights = lt-length_of_get_elem? highlights i at in
      let some_first : is_empty highlights ≡ false = is_empty-false highlights (omega arith) in
      elim (Bool-cases (leb (length highlights) max_highlights)) [
        | inl few ↦ (
          highlights,
          i,
          limit_preview_highlights-few i (some_first) few,
          ground arith,
          at,
          0,
          length highlights,
          sym (take-length highlights),
        )
        | inr many ↦
            let (limited, j, result, size, kept, first, count, part) = focus_window-Kept in
            (
              limited,
              j,
              limit_preview_highlights-many i inside some_first many ∙ result,
              size,
              kept,
              first,
              count,
              part,
            )
      ]
