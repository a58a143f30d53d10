-- ===== src/Highlight/Snippet/Bounds.antt =====
-- The length of a snippet, and where its highlights stand.
use clipkitty.Base.{
  ℕ, ◌+◌, ◌-◌, ◌≤◌, ◌<◌, ltb, Bool, true, false, some, List, [], ◌∷◌, All, length, length-append,
  get_elem?, All-filter_map, ◌≡◌, refl, inl, inr, Option-cases, arith,
}
use clipkitty.Ranking.Chars.{Text, Unicode}
use clipkitty.Highlight.Types.{HighlightRange}
use clipkitty.Highlight.Excerpt.{ExcerptPolicy, WhitespaceMode, normalize_snippet_with_mapping_ws}
use clipkitty.Highlight.Excerpt.Whitespace.{
  Ascending, Ascending-mono, normalize_snippet_with_mapping_ws-bounds,
}
use mathlib.Core.Path.{subst}
use clipkitty.Highlight.Densest.Laws.{found_highlight-Anchors}
use clipkitty.Highlight.Snippet.{
  Snippet, get_or, leading_snippet, snippet_around, one_if, adjust_highlight, with_ellipses,
  window_snippet, center_of, snippet_start_of, snippet_end_of, generate_snippet_with_policy,
}

abbrev pub IsOrdered : HighlightRange → Type 0
IsOrdered h = h.start ≤ h.end

length-with_ellipses :
    (a b : Bool) (text : Text) → length (with_ellipses a b text) ≡ one_if a + length text + one_if b
length-with_ellipses true true text = omega (arith, length-append text (8230 ∷ []))
length-with_ellipses true false text = omega (arith, length-append text [])
length-with_ellipses false true text = omega (arith, length-append text (8230 ∷ []))
length-with_ellipses false false text = omega (arith, length-append text [])

one_if-le : (b : Bool) → one_if b ≤ 1
one_if-le true = omega arith
one_if-le false = omega arith

window_snippet-length :
    (content : Text) (highlights : List HighlightRange) (policy : ExcerptPolicy)
    (center : HighlightRange) (start end : ℕ)
    → 2 ≤ policy.max_chars
    → length (window_snippet content highlights policy center start end).0 ≤ policy.max_chars
unfolding window_snippet
window_snippet-length content highlights policy center start end two =
    let a : Bool = ltb 0 start in
    let b : Bool = ltb end (length content) in
    let limit : ℕ = policy.max_chars - (one_if a + one_if b) in
    let out : Text × List ℕ =
      normalize_snippet_with_mapping_ws content start end limit policy.whitespace_mode in
    let (size, _, _) =
      normalize_snippet_with_mapping_ws-bounds content start end limit policy.whitespace_mode in
    omega (arith, length-with_ellipses a b out.0, one_if-le a, one_if-le b)

-- Where at least two characters are allowed, a snippet with its ellipses has no more characters than
-- the policy allows.
pub generate_snippet_with_policy-length :
    (u : Unicode) (content : Text) (highlights : List HighlightRange) (policy : ExcerptPolicy)
    (s : Snippet)
    → 2 ≤ policy.max_chars
    → generate_snippet_with_policy u content highlights policy ≡ some s
    → length s.0 ≤ policy.max_chars
unfolding generate_snippet_with_policy leading_snippet snippet_around
generate_snippet_with_policy-length u content [] policy s two e =
    subst (λ o. length (get_or s o).0 ≤ policy.max_chars) e
      (normalize_snippet_with_mapping_ws-bounds content 0 (length content) policy.max_chars
        policy.whitespace_mode).0
generate_snippet_with_policy-length u content (h ∷ hs) policy s two e =
    elim (Option-cases (center_of h hs policy.context_chars)) [
      | inl stopped ↦ absurd (cc (rw (stopped, generate_snippet_with_policy) at e))
      | inr (center, found) ↦
          subst (λ o. length (get_or s o).0 ≤ policy.max_chars)
            (rw (found, generate_snippet_with_policy) at e)
            (window_snippet-length content (h ∷ hs) policy center
              (snippet_start_of u content policy center) (snippet_end_of content policy center) two)
    ]

-- A range within a text.
abbrev pub InText : Text → HighlightRange → Type 0
InText text h = (h.start ≤ h.end) × (h.start < length text) × (h.end ≤ length text)

-- A highlight of the snippet does not end before it starts, whatever its characters are.
adjust_highlight-IsOrdered :
    (start prefix high : ℕ) (snippet : Text) (pos_map : List ℕ) (h r : HighlightRange)
    → Ascending 0 high pos_map
    → h.start ≤ h.end
    → adjust_highlight start prefix snippet pos_map h ≡ some r
    → IsOrdered r
unfolding adjust_highlight
adjust_highlight-IsOrdered start prefix high snippet pos_map h r ascends le e =
    elim (Option-cases (get_elem? pos_map (h.start - start))) [
      | inl past ↦ ground arith
      | inr (a, at_start) ↦ elim (Option-cases (get_elem? pos_map (h.end - start))) [
        | inl past ↦ ground arith
        | inr (b, at_end) ↦
            let order : a ≤ b =
              Ascending-mono 0 high pos_map (h.start - start) (h.end - start) ascends (omega arith)
                at_start at_end in
            ground arith
      ]
    ]

window_snippet-IsOrdered :
    (content : Text) (highlights : List HighlightRange) (policy : ExcerptPolicy)
    (center : HighlightRange) (start end : ℕ)
    → All IsOrdered highlights
    → All IsOrdered (window_snippet content highlights policy center start end).1
unfolding window_snippet
window_snippet-IsOrdered content highlights policy center start end ordered =
    let a : Bool = ltb 0 start in
    let b : Bool = ltb end (length content) in
    let limit : ℕ = policy.max_chars - (one_if a + one_if b) in
    let mode : WhitespaceMode = policy.whitespace_mode in
    let out : Text × List ℕ = normalize_snippet_with_mapping_ws content start end limit mode in
    let (_, _, ascends) = normalize_snippet_with_mapping_ws-bounds content start end limit mode in
    All-filter_map IsOrdered IsOrdered (adjust_highlight start (one_if a) out.0 out.1)
      (λ h r le e. adjust_highlight-IsOrdered start (one_if a) limit out.0 out.1 h r ascends le e)
      highlights ordered

pub generate_snippet_with_policy-IsOrdered :
    (u : Unicode) (content : Text) (highlights : List HighlightRange) (policy : ExcerptPolicy)
    (s : Snippet)
    → All IsOrdered highlights
    → generate_snippet_with_policy u content highlights policy ≡ some s
    → All IsOrdered s.1
unfolding generate_snippet_with_policy leading_snippet snippet_around
generate_snippet_with_policy-IsOrdered u content [] policy s ordered e =
    subst (λ o. All IsOrdered (get_or s o).1) e tt
generate_snippet_with_policy-IsOrdered u content (h ∷ hs) policy s ordered e =
    elim (Option-cases (center_of h hs policy.context_chars)) [
      | inl stopped ↦ absurd (cc (rw (stopped, generate_snippet_with_policy) at e))
      | inr (center, found) ↦
          subst (λ o. All IsOrdered (get_or s o).1) (rw (found, generate_snippet_with_policy) at e)
            (window_snippet-IsOrdered content (h ∷ hs) policy center
              (snippet_start_of u content policy center) (snippet_end_of content policy center)
              ordered)
    ]

center_of-some :
    (h : HighlightRange) (hs : List HighlightRange) (window_size : ℕ)
    → 0 < window_size
    → (center : HighlightRange) × (center_of h hs window_size ≡ some center)
unfolding center_of
center_of-some h hs window_size pos =
    let (i, center, found, at, _) = found_highlight-Anchors h hs window_size pos in
    (center, rw (found, center_of) at)

-- Where a character of context is allowed, nothing panics.
pub generate_snippet_with_policy-some :
    (u : Unicode) (content : Text) (highlights : List HighlightRange) (policy : ExcerptPolicy)
    → 0 < policy.context_chars
    → (s : Snippet) × (generate_snippet_with_policy u content highlights policy ≡ some s)
unfolding generate_snippet_with_policy
generate_snippet_with_policy-some u content [] policy pos = (leading_snippet content policy, refl)
generate_snippet_with_policy-some u content (h ∷ hs) policy pos =
    let (center, found) = center_of-some h hs policy.context_chars pos in
    (snippet_around u content (h ∷ hs) policy center, rw (found, generate_snippet_with_policy) refl)
