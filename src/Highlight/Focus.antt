-- ===== src/Highlight/Focus.antt =====
-- `limit_preview_highlights` of purr/src/search.rs: a preview shows the highlights near the one that
-- it scrolls to. `none` is a panic, of an index, a slice or `clamp`.
pub mod Anchor
use clipkitty.Base.{
  ℕ, suc, ◌+◌, ◌-◌, ◌/◌, ◌^◌, min, ltb, leb, ◌==◌, Bool, true, false, ◌&&◌, ◌||◌, Option, none,
  some, List, [], ◌∷◌, length, take, drop, head?, last?, get_elem?, is_empty, indices_where,
  if◌then◌else◌,
}
use clipkitty.Highlight.Types.{HighlightRange, HighlightAnalysis}

abbrev pub u64_max : ℕ
u64_max = 2 ^ 64 - 1

infixl 5 ◌>>=◌
abbrev pub ◌>>=◌ {ℓ κ} : {A : Type ℓ} {B : Type κ} → Option A → (A → Option B) → Option B
none >>= f = none
some a >>= f = f a

-- `&xs[start..end]`.
abbrev pub get_slice : {A : Type 0} → ℕ → ℕ → List A → Option (List A)
get_slice start end xs =
    if leb start end && leb end (length xs) then some (take (end - start) (drop start xs)) else none

-- `Ord::clamp`.
abbrev pub clamp : ℕ → ℕ → ℕ → Option ℕ
clamp x low high =
    if ltb high low then none else some (if ltb x low then low else if ltb high x then high else x)

-- The window of a highlight, with `saturating_sub` and `saturating_add`.
unfoldable pub is_visible : ℕ → HighlightRange → HighlightRange → Bool
is_visible context_chars anchor h =
    leb (anchor.start - context_chars) h.end
    && leb h.start (min (anchor.end + context_chars) u64_max)

unfoldable pub anchor_index_of : HighlightAnalysis → ℕ
anchor_index_of a = elim a.initial_scroll_highlight_index [
  | none ↦ 0
  | some index ↦ if ltb index (length a.highlights) then index else 0
]

-- The first index and that after the last.
unfoldable pub visible_slice : ℕ → List ℕ → ℕ × ℕ
visible_slice anchor_index visible = elim (head? visible) [
  | none ↦ (anchor_index, anchor_index + 1)
  | some first ↦ elim (last? visible) [
    | none ↦ (anchor_index, anchor_index + 1)
    | some last ↦ (first, last + 1)
  ]
]

-- A slice that is too long shrinks to the most that is shown, with the anchor in its middle where
-- that fits.
unfoldable pub narrow_slice : ℕ → ℕ → ℕ × ℕ → Option (ℕ × ℕ)
narrow_slice anchor_index max_highlights (start, end) =
    if ltb max_highlights (end - start)
    then (do
      narrowed ← clamp (anchor_index - max_highlights / 2) start (end - max_highlights)
      some (narrowed, narrowed + max_highlights))
    else some (start, end)

-- `checked_sub`, and the filter on the length.
unfoldable pub limited_anchor : ℕ → ℕ → ℕ → Option ℕ
limited_anchor anchor_index start len =
    if leb start anchor_index && ltb (anchor_index - start) len
    then some (anchor_index - start)
    else none

unfoldable pub focus_window :
    List HighlightRange → ℕ → ℕ → ℕ → Option (List HighlightRange × Option ℕ)
focus_window highlights anchor_index max_highlights context_chars = do
  anchor ← get_elem? highlights anchor_index
  let visible = indices_where (is_visible context_chars anchor) 0 highlights
  (start, end) ← narrow_slice anchor_index max_highlights (visible_slice anchor_index visible)
  limited ← get_slice start end highlights
  some (limited, limited_anchor anchor_index start (length limited))

unfoldable pub limit_preview_highlights :
    HighlightAnalysis → ℕ → ℕ → Option (List HighlightRange × Option ℕ)
limit_preview_highlights a max_highlights context_chars =
    if is_empty a.highlights || max_highlights == 0
    then some ([], none)
    else if leb (length a.highlights) max_highlights
    then some (a.highlights, a.initial_scroll_highlight_index)
    else focus_window a.highlights (anchor_index_of a) max_highlights context_chars
