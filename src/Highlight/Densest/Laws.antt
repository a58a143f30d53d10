-- ===== src/Highlight/Densest/Laws.antt =====
-- That the sliding window of `find_densest_highlight` does not leave the list.
use clipkitty.Base.{
  ℕ, suc, ◌+◌, ◌-◌, ◌^◌, ◌≤◌, ◌<◌, leb, Bool, true, false, Option, some, List, [], ◌∷◌, ◌++◌, All,
  length, all, get_elem?, ◌≡◌, refl, sym, ap, ◌∙◌, ◌⊎◌, inl, inr, Bool-cases, arith,
}
use clipkitty.Base.Table.{insert_by, order_by, All-order_by}
use clipkitty.Highlight.Types.{HighlightRange}
use clipkitty.Highlight.Densest.{
  Entry, is_prefix_tail, indexed_from, by_start, len_of, shrink, Best, cluster_beats_best,
  highlight_match_score, consider, slide_step, slide, slide_over, densest_of,
  find_densest_highlight, earlier_cluster_coverage_tolerance,
}
use mathlib.Core.Path.{subst}
use mathlib.Core.List.{append_assoc}

slide_step-cons :
    (right : Entry) (best : Best) (shrunk : ℕ × List Entry) (c : ℕ) (left : Entry)
    (more : List Entry)
    → shrunk ≡ (c, left ∷ more)
    → slide_step right best shrunk
      ≡ some (c + len_of right.1, left ∷ more, consider (c + len_of right.1) left best)
unfolding slide_step
slide_step-cons right best shrunk c left more e = rw e refl

-- The index of an entry with the property.
abbrev Found : (Entry → Type 0) → Option ℕ → Type 0
Found P o = (e : Entry) × (o ≡ some e.0) × P e

-- The window keeps the entry at its right end, and its entries stay those of the list.
module _ (P : Entry → Type 0) (window_size : ℕ) (pos : 0 < window_size) where
  shrink-All :
      (right : Entry) (rights : List Entry) (coverage : ℕ) (ls : List Entry)
      → All P (ls ++ right ∷ rights)
      → (coverage' : ℕ) × (ls' : List Entry) × (shrink window_size right.1.start coverage
            (ls ++ right ∷ rights)
          ≡ (coverage', ls' ++ right ∷ rights))
        × All P (ls' ++ right ∷ rights)
  unfolding shrink
  shrink-All right rights coverage [] h = (coverage, [], ground arith, h)
  shrink-All right rights coverage (l ∷ ls) h =
      elim (Bool-cases (leb (l.1.start + window_size) right.1.start)) [
        | inl e ↦
            let (c, ls', eq, all) = shrink-All right rights (coverage - len_of l.1) ls h.1 in
            (c, ls', rw e eq, all)
        | inr e ↦ (coverage, l ∷ ls, rw e refl, h)
      ]

  consider-entry :
      (coverage : ℕ) (left : Entry) (best : Best)
      → P left
      → P best.entry
      → P (consider coverage left best).entry
  unfolding consider
  consider-entry coverage left best p q =
      elim (Bool-cases (
        cluster_beats_best coverage (highlight_match_score left.1.kind) left.1.start best.coverage
          best.anchor_score best.entry.1.start)) [ inl e ↦ rw e p | inr e ↦ rw e q ]

  slide-next :
      (right : Entry) (rights : List Entry) (coverage c : ℕ) (from_left ls : List Entry)
      (best : Best)
      → shrink window_size right.1.start coverage from_left ≡ (c, ls ++ right ∷ rights)
      → All P (ls ++ right ∷ rights)
      → P best.entry
      → ((cov : ℕ) (ls' left' : List Entry) (b : Best)
          → left' ≡ ls' ++ rights
          → All P left'
          → P b.entry
          → Found P (slide window_size rights cov left' b))
      → Found P (slide window_size (right ∷ rights) coverage from_left best)
  unfolding slide
  slide-next right rights coverage c from_left [] best eq kept p ih =
      rw (slide_step-cons right best _ c right rights eq, slide)
        (ih (c + len_of right.1) (right ∷ []) (right ∷ rights)
          (consider (c + len_of right.1) right best) refl kept
          (consider-entry (c + len_of right.1) right best kept.0 p))
  slide-next right rights coverage c from_left (l ∷ ls) best eq kept p ih =
      rw (slide_step-cons right best _ c l (ls ++ right ∷ rights) eq, slide)
        (ih (c + len_of right.1) (l ∷ (ls ++ right ∷ [])) (l ∷ (ls ++ right ∷ rights))
          (consider (c + len_of right.1) l best) (sym (append_assoc (l ∷ ls) (right ∷ []) rights))
          kept (consider-entry (c + len_of right.1) l best kept.0 p))

  slide-Found :
      (rights : List Entry) (coverage : ℕ) (ls from_left : List Entry) (best : Best)
      → from_left ≡ ls ++ rights
      → All P from_left
      → P best.entry
      → Found P (slide window_size rights coverage from_left best)
  unfolding slide
  slide-Found [] coverage ls from_left best split all p = (best.entry, refl, p)
  slide-Found (right ∷ rights) coverage ls from_left best split all p =
      let (c, ls', eq, kept) = shrink-All right rights coverage ls (subst (All P) split all) in
      slide-next right rights coverage c from_left ls' best (rw split eq) kept p
        (slide-Found rights)

  slide_over-Found :
      (es : List Entry) → All P es → 0 < length es → Found P (slide_over window_size es)
  unfolding slide_over
  slide_over-Found [] all h = absurd (omega arith)
  slide_over-Found (e ∷ es) all h =
      slide-Found (e ∷ es) 0 [] (e ∷ es) (record { coverage = 0; anchor_score = 0; entry = e }) refl
        all all.0

nonempty-insert_by :
    (le : Entry → Entry → Bool) (x : Entry) (xs : List Entry) → 0 < length (insert_by le x xs)
unfolding insert_by
nonempty-insert_by le x [] = omega arith
nonempty-insert_by le x (y ∷ ys) = ground arith

-- An entry is an index with its highlight, which is no tail.
abbrev IsEntry : List HighlightRange → Entry → Type 0
IsEntry hs e = (get_elem? hs e.0 ≡ some e.1) × (is_prefix_tail e.1.kind ≡ false)

indexed_from-IsEntry :
    (whole : List HighlightRange) (index : ℕ) (hs : List HighlightRange)
    → ((i : ℕ) → get_elem? whole (index + i) ≡ get_elem? hs i)
    → All (IsEntry whole) (indexed_from index hs)
indexed_from-IsEntry whole index [] at = tt
indexed_from-IsEntry whole index (h ∷ hs) at =
    let rest : All (IsEntry whole) (indexed_from (suc index) hs) =
      indexed_from-IsEntry whole (suc index) hs
        (λ i. ap (get_elem? whole) (omega arith) ∙ at (suc i)) in
    let here : get_elem? whole index ≡ some h = ap (get_elem? whole) (omega arith) ∙ at 0 in
    elim (Bool-cases (is_prefix_tail h.kind)) [
      | inl tail ↦ rw tail rest
      | inr other ↦ rw other ((here, other), rest)
    ]

densest_of-Found :
    (P : Entry → Type 0) (window_size : ℕ)
    → 0 < window_size
    → (e : Entry) (es : List Entry) → All P (e ∷ es)
    → Found P (densest_of window_size (e ∷ es))
unfolding densest_of order_by
densest_of-Found P window_size pos e [] all = (e, refl, all.0)
densest_of-Found P window_size pos e (f ∷ es) all =
    slide_over-Found P window_size pos (by_start (e ∷ f ∷ es))
      (All-order_by P (λ a b. leb a.1.start b.1.start) (e ∷ f ∷ es) all)
      (nonempty-insert_by (λ a b. leb a.1.start b.1.start) e (by_start (f ∷ es)))

indexed_from-nil :
    (index : ℕ) (hs : List HighlightRange)
    → indexed_from index hs ≡ []
    → all (λ h. is_prefix_tail h.kind) hs ≡ true
indexed_from-nil index [] e = refl
indexed_from-nil index (h ∷ hs) e = ground (arith, indexed_from-nil (suc index) hs)

-- What is found in a list that is not empty.
abbrev pub Anchors : List HighlightRange → Option ℕ → Type 0
Anchors hs result =
    (i : ℕ) × (h : HighlightRange) × (result ≡ some i)
    × (get_elem? hs i ≡ some h)
    × ((is_prefix_tail h.kind ≡ false) ⊎ (all (λ other. is_prefix_tail other.kind) hs ≡ true))

Anchors-entries :
    (window_size : ℕ) (h : HighlightRange) (hs : List HighlightRange) (es : List Entry)
    → 0 < window_size
    → indexed_from 0 (h ∷ hs) ≡ es
    → All (IsEntry (h ∷ hs)) es
    → Anchors (h ∷ hs) (densest_of window_size es)
unfolding densest_of
Anchors-entries window_size h hs [] pos eq entries =
    (0, h, refl, refl, inr (indexed_from-nil 0 (h ∷ hs) eq))
Anchors-entries window_size h hs (e ∷ es) pos eq entries =
    let (found, is_found, (at, other)) =
      densest_of-Found (IsEntry (h ∷ hs)) window_size pos e es entries in
    (found.0, found.1, is_found, at, inl other)

pub found_highlight-Anchors :
    (h : HighlightRange) (hs : List HighlightRange) (window_size : ℕ)
    → 0 < window_size
    → Anchors (h ∷ hs) (find_densest_highlight (h ∷ hs) window_size)
unfolding find_densest_highlight
found_highlight-Anchors h hs window_size pos =
    Anchors-entries window_size h hs (indexed_from 0 (h ∷ hs)) pos refl
      (indexed_from-IsEntry (h ∷ hs) 0 (h ∷ hs) (λ i. ap (get_elem? (h ∷ hs)) (omega arith)))

-- What the highlights cover, each counted for itself.
abbrev pub covered_by : List HighlightRange → ℕ
covered_by [] = 0
covered_by (h ∷ hs) = (h.end - h.start) + covered_by hs

-- A range whose window does not go past a `u64`.
abbrev pub HasWindow : ℕ → HighlightRange → Type 0
HasWindow window_size h = (h.start ≤ h.end) × (h.start + window_size < 2 ^ 64)

-- In a list of ranges that is not empty, with a window that is not, where neither the windows nor what
-- the ranges cover goes past a `u64`, the search finds the index of a highlight without leaving the
-- list, and that highlight is no tail of a prefix unless all of them are.
pub find_densest_highlight-Anchors :
    (h : HighlightRange) (hs : List HighlightRange) (window_size : ℕ)
    → 0 < window_size
    → All (HasWindow window_size) (h ∷ hs)
    → covered_by (h ∷ hs) + earlier_cluster_coverage_tolerance < 2 ^ 64
    → Anchors (h ∷ hs) (find_densest_highlight (h ∷ hs) window_size)
find_densest_highlight-Anchors h hs window_size pos windows small =
    found_highlight-Anchors h hs window_size pos
