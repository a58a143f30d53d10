-- ===== src/Highlight/Snippet.antt =====
-- The snippet around the densest cluster of highlights, of purr/src/search.rs.
pub mod Bounds
use clipkitty.Base.{
  ℕ, zero, suc, ◌+◌, ◌-◌, ◌/◌, min, ltb, leb, ◌==◌, Bool, true, false, Option, none, some, List, [],
  ◌∷◌, ◌++◌, length, take, drop, keep, last?, get_elem?, indices_where, filter_map, if◌then◌else◌,
}
use clipkitty.Ranking.Chars.{Text, Unicode, byte_len, trim_start}
use clipkitty.Highlight.Types.{HighlightRange, MatchedExcerpt, ListPresentationProfile}
use clipkitty.Highlight.Utf16.{scalar_highlights_to_utf16}
use clipkitty.Highlight.Densest.{find_densest_highlight}
use clipkitty.Highlight.Excerpt.{
  ExcerptPolicy, WhitespaceMode, collapse_all, snippet_context_chars, for_profile,
  normalize_snippet_with_mapping_ws, clamp_leading_line_breaks,
}

-- A snippet: its text, its highlights and the number of the line of the match.
abbrev pub Snippet : Type 0
Snippet = Text × List HighlightRange × ℕ

abbrev pub get_or : {A : Type 0} → A → Option A → A
get_or default none = default
get_or default (some a) = a

-- The highlight at the index that the search finds. The list is not empty, so that the search has an
-- index unless it panics, and `unwrap_or(0)` has no effect; an index out of range is a panic too.
unfoldable pub center_of : HighlightRange → List HighlightRange → ℕ → Option HighlightRange
center_of h hs window_size = elim (find_densest_highlight (h ∷ hs) window_size) [
  | none ↦ none
  | some center_idx ↦ get_elem? (h ∷ hs) center_idx
]

-- `context_before` and `context_after`.
unfoldable pub context_before_of : ExcerptPolicy → HighlightRange → ℕ
context_before_of policy center =
    let remaining_space : ℕ = policy.max_chars - (center.end - center.start) in
    min (min (remaining_space / 2) policy.leading_context_chars) center.start

unfoldable pub context_after_of : ExcerptPolicy → HighlightRange → ℕ → ℕ
context_after_of policy center content_char_len =
    let remaining_space : ℕ = policy.max_chars - (center.end - center.start) in
    min (remaining_space - context_before_of policy center) (content_char_len - center.end)

-- The window starts after the last whitespace of the ten characters before it, if there is one.
unfoldable pub after_space : Unicode → Text → ℕ → ℕ → ℕ
after_space u content snippet_start latest =
    let search_start : ℕ = snippet_start - 10 in
    let search_range : Text = take (snippet_start - search_start) (drop search_start content) in
    elim (last? (indices_where u.is_whitespace 0 search_range)) [
      | none ↦ snippet_start
      | some char_offset ↦
          let new_start : ℕ = search_start + char_offset + 1 in
          if leb new_start latest then new_start else snippet_start
    ]

unfoldable pub snippet_start_of : Unicode → Text → ExcerptPolicy → HighlightRange → ℕ
unfolding after_space context_before_of
snippet_start_of u content policy center =
    let before : ℕ = center.start - context_before_of policy center in
    let start : ℕ = if ltb 0 before then after_space u content before before else before in
    elim policy.max_leading_line_breaks [
      | none ↦ start
      | some max_breaks ↦ clamp_leading_line_breaks content start center.start max_breaks
    ]

unfoldable pub snippet_end_of : Text → ExcerptPolicy → HighlightRange → ℕ
unfolding context_after_of
snippet_end_of content policy center =
    min (center.end + context_after_of policy center (length content)) (length content)

abbrev pub one_if : Bool → ℕ
one_if b = if b then 1 else 0

-- A highlight in the snippet. The bounds are the length of the snippet in bytes, as in the code.
unfoldable pub adjust_highlight : ℕ → ℕ → Text → List ℕ → HighlightRange → Option HighlightRange
adjust_highlight snippet_start prefix_offset snippet pos_map h =
    if ltb h.start snippet_start then none else elim (get_elem? pos_map (h.start - snippet_start)) [
      | none ↦ none
      | some norm_start ↦
          let norm_end : ℕ =
            get_or (byte_len snippet) (get_elem? pos_map (h.end - snippet_start)) in
          if ltb norm_start (byte_len snippet)
          then some (record {
            start = norm_start + prefix_offset;
            end = min norm_end (byte_len snippet) + prefix_offset;
            kind = h.kind;
          })
          else none
    ]

abbrev pub line_number_of : Text → ℕ → ℕ
line_number_of content match_start =
    length (keep (λ c. c == 10) (take (min match_start (length content)) content)) + 1

-- U+2026.
abbrev pub ellipsis : ℕ
ellipsis = 8230

-- The text with an ellipsis at each end that is cut off.
abbrev pub with_ellipses : Bool → Bool → Text → Text
with_ellipses from_start from_end text =
    (if from_start then ellipsis ∷ text else text) ++ (if from_end then ellipsis ∷ [] else [])

-- The snippet of the window from `start` to `end`.
unfoldable pub window_snippet :
    Text → List HighlightRange → ExcerptPolicy → HighlightRange → ℕ → ℕ → Snippet
unfolding adjust_highlight
window_snippet content highlights policy center start end =
    let cut_start : Bool = ltb 0 start in
    let cut_end : Bool = ltb end (length content) in
    let effective_max_len : ℕ = policy.max_chars - (one_if cut_start + one_if cut_end) in
    let (normalized, pos_map) =
      normalize_snippet_with_mapping_ws content start end effective_max_len
        policy.whitespace_mode in
    (
      with_ellipses cut_start cut_end normalized,
      filter_map (adjust_highlight start (one_if cut_start) normalized pos_map) highlights,
      line_number_of content center.start,
    )

-- The snippet of a content that is shown from its start.
unfoldable pub leading_snippet : Text → ExcerptPolicy → Snippet
leading_snippet content policy =
    let (preview, _) =
      normalize_snippet_with_mapping_ws content 0 (length content) policy.max_chars
        policy.whitespace_mode in
    (preview, [], 0)

unfoldable pub snippet_around :
    Unicode → Text → List HighlightRange → ExcerptPolicy → HighlightRange → Snippet
unfolding snippet_start_of snippet_end_of window_snippet
snippet_around u content highlights policy center =
    window_snippet content highlights policy center (snippet_start_of u content policy center)
      (snippet_end_of content policy center)

-- `none` is a panic.
unfoldable pub generate_snippet_with_policy :
    Unicode → Text → List HighlightRange → ExcerptPolicy → Option Snippet
unfolding center_of leading_snippet snippet_around
generate_snippet_with_policy u content [] policy = some (leading_snippet content policy)
generate_snippet_with_policy u content (h ∷ hs) policy =
    elim (center_of h hs policy.context_chars) [
      | none ↦ none
      | some center ↦ some (snippet_around u content (h ∷ hs) policy center)
    ]

unfoldable pub generate_snippet : Unicode → Text → List HighlightRange → ℕ → Option Snippet
generate_snippet u content highlights max_len =
    generate_snippet_with_policy u content highlights (record {
      whitespace_mode = collapse_all;
      max_chars = max_len;
      context_chars = snippet_context_chars;
      leading_context_chars = snippet_context_chars;
      max_leading_line_breaks = none;
    })

-- The excerpt of a snippet.
abbrev pub excerpt_of : Snippet → MatchedExcerpt
excerpt_of (text, adjusted, line_number) = record {
  text = text;
  highlights = scalar_highlights_to_utf16 text adjusted;
  line_number = line_number;
}

unfoldable pub create_matched_excerpt :
    Unicode → Text → List HighlightRange → ListPresentationProfile → Option MatchedExcerpt
create_matched_excerpt u content highlights profile =
    elim (generate_snippet_with_policy u content highlights (for_profile profile)) [
      | none ↦ none
      | some snippet ↦ some (excerpt_of snippet)
    ]

abbrev pub text_of : Option Snippet → Option Text
text_of none = none
text_of (some snippet) = some snippet.0

unfoldable pub generate_preview : Unicode → Text → ℕ → Option Text
generate_preview u content max_chars =
    text_of (generate_snippet u (trim_start u content) [] max_chars)

unfoldable pub generate_preview_for_profile : Unicode → Text → ListPresentationProfile → Option Text
generate_preview_for_profile u content profile =
    text_of (generate_snippet_with_policy u (trim_start u content) [] (for_profile profile))
