-- ===== src/Highlight/Tests.antt =====
-- The theorems on purr/src/search.rs at concrete contents, highlights and queries.
use clipkitty.Base.{
  ℕ, ◌-◌, ◌≤◌, some, List, [], ◌∷◌, length, take, drop, get_elem?, map, keep, ◌≡◌, ◌≢◌, refl, ◌⊎◌,
  arith,
}
use clipkitty.Base.Text.{codes}
use clipkitty.Ranking.Chars.{Text}
use clipkitty.Ranking.Chars.Samples.{test_unicode}
use clipkitty.Highlight.Types.{
  HighlightKind, HighlightRange, HighlightAnalysis, MatchedExcerpt, compact_row,
}
use clipkitty.Highlight.Utf16.{
  scalar_highlights_to_utf16, in_utf16, is_within, scalar_highlights_to_utf16-in_utf16,
}
use clipkitty.Highlight.Focus.{limit_preview_highlights}
use clipkitty.Highlight.Focus.Anchor.{Kept, focused_on, limit_preview_highlights-anchor}
use clipkitty.Highlight.Densest.{find_densest_highlight}
use clipkitty.Highlight.Densest.Laws.{Anchors, find_densest_highlight-Anchors}
use clipkitty.Highlight.Excerpt.{clamp_leading_line_breaks}
use clipkitty.Highlight.Excerpt.Breaks.{breaks_in, clamp_leading_line_breaks-few}
use clipkitty.Highlight.Snippet.{Snippet}
use clipkitty.Highlight.Words.{highlight}
use clipkitty.Highlight.Words.Ranges.{Chain}
use clipkitty.Highlight.Analysis.{
  compute_scalar_highlights, analysis_of, create_preview_decoration, compute_matched_excerpt,
}
use clipkitty.Highlight.Analysis.Ranges.{compute_scalar_highlights-Chain}
use clipkitty.Highlight.Analysis.Previews.{Shown, analyze_content_for_query-Shown}
use clipkitty.Highlight.Analysis.Excerpts.{IsExcerpt, compute_matched_excerpt-IsExcerpt}

abbrev content : Text
content = codes "a clip of a clip"

abbrev first_clip : HighlightRange
first_clip = highlight 2 6 HighlightKind.exact

abbrev second_clip : HighlightRange
second_clip = highlight 12 16 HighlightKind.exact

abbrev two_clips : List HighlightRange
two_clips = first_clip ∷ second_clip ∷ []

scalar_highlights_to_utf16-in_utf16_example :
    scalar_highlights_to_utf16 content two_clips
    ≡ map (in_utf16 content) (keep (is_within content) two_clips)
scalar_highlights_to_utf16-in_utf16_example = scalar_highlights_to_utf16-in_utf16 content two_clips

limit_preview_highlights-anchor_example :
    Kept two_clips 1 second_clip (limit_preview_highlights (focused_on two_clips 1) 1 100)
limit_preview_highlights-anchor_example =
    limit_preview_highlights-anchor two_clips 1 1 100 refl (omega arith) (omega arith) (omega arith)

find_densest_highlight-Anchors_example : Anchors two_clips (find_densest_highlight two_clips 5)
find_densest_highlight-Anchors_example =
    find_densest_highlight-Anchors first_clip (second_clip ∷ []) 5 (omega arith)
      ((omega arith, omega arith), ((omega arith, omega arith), tt)) (omega arith)

-- The lines "ab", "c" and "clip".
abbrev lines : Text
lines = 97 ∷ 98 ∷ 10 ∷ 99 ∷ 10 ∷ 99 ∷ 108 ∷ 105 ∷ 112 ∷ []

clamp_leading_line_breaks-few_example :
    (start : ℕ) × (clamp_leading_line_breaks lines 0 5 1 ≡ start)
    × (0 ≤ start)
    × (start ≤ 5)
    × (breaks_in (take (5 - start) (drop start lines)) ≤ 1)
    × ((start ≡ 5) ⊎ (get_elem? lines start ≢ some 10))
clamp_leading_line_breaks-few_example = clamp_leading_line_breaks-few lines 0 5 1 (omega arith)

compute_scalar_highlights-Chain_example :
    Chain 0 (length content) (compute_scalar_highlights test_unicode content (codes "clip"))
compute_scalar_highlights-Chain_example =
    compute_scalar_highlights-Chain test_unicode content (codes "clip")

abbrev clip_analysis : HighlightAnalysis
clip_analysis = analysis_of (compute_scalar_highlights test_unicode content (codes "clip"))

analyze_content_for_query-Shown_example :
    Shown content clip_analysis (create_preview_decoration content clip_analysis)
unfolding clipkitty.Highlight.Analysis.analyze_content_for_query clipkitty.Ranking.Chars.trim
analyze_content_for_query-Shown_example =
    analyze_content_for_query-Shown test_unicode content (codes "clip") clip_analysis (omega arith)
      refl

compute_matched_excerpt-IsExcerpt_example :
    (e : MatchedExcerpt) × (compute_matched_excerpt test_unicode content (codes "clip") compact_row
      ≡ some e)
    × IsExcerpt compact_row e
compute_matched_excerpt-IsExcerpt_example =
    compute_matched_excerpt-IsExcerpt test_unicode content (codes "clip") compact_row (omega arith)
