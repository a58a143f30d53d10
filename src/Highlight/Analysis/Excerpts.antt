-- ===== src/Highlight/Analysis/Excerpts.antt =====
-- The excerpt of a content for a query.
use clipkitty.Base.{
  ◌<◌, ◌^◌, ◌≤◌, false, some, List, [], ◌∷◌, All, map, keep, length, is_empty, ◌≡◌, refl, inl, inr,
  Bool-cases, arith,
}
use clipkitty.Ranking.Chars.{Text, Unicode, trim, trim_start}
use clipkitty.Ranking.Chars.Trim.{trim-trim}
use clipkitty.Highlight.Types.{
  HighlightRange, MatchedExcerpt, ListPresentationProfile, compact_row, card,
}
use clipkitty.Highlight.Utf16.{is_within, in_utf16, scalar_highlights_to_utf16-in_utf16}
use clipkitty.Highlight.Excerpt.{ExcerptPolicy, for_profile}
use clipkitty.Highlight.Snippet.{excerpt_of, create_matched_excerpt, generate_preview_for_profile}
use clipkitty.Highlight.Snippet.Bounds.{
  IsOrdered, generate_snippet_with_policy-length, generate_snippet_with_policy-some,
  generate_snippet_with_policy-IsOrdered,
}
use clipkitty.Highlight.Analysis.{
  analysis_of, compute_scalar_highlights, analyze_content_for_query, compute_matched_excerpt,
}
use clipkitty.Highlight.Analysis.Ranges.{compute_scalar_highlights-Chain}
use clipkitty.Highlight.Analysis.Previews.{
  IsRange, IsUtf16Range, Chain-IsRange, utf16_len-take, utf16_len-take_mono,
}

IsRange-IsOrdered :
    (text : Text) (hs : List HighlightRange) → All (IsRange text) hs → All IsOrdered hs
IsRange-IsOrdered text [] h = tt
IsRange-IsOrdered text (x ∷ xs) ((le, _), h) = (le, IsRange-IsOrdered text xs h)

-- What is shown of highlights that do not end before they start.
in_utf16-IsUtf16Range :
    (text : Text) (hs : List HighlightRange)
    → All IsOrdered hs
    → All (IsUtf16Range text) (map (in_utf16 text) (keep (is_within text) hs))
in_utf16-IsUtf16Range text [] h = tt
in_utf16-IsUtf16Range text (x ∷ xs) (le, h) = elim (Bool-cases (is_within text x)) [
  | inl e ↦ rw e (
    (utf16_len-take_mono x.start x.end text le, utf16_len-take x.end text),
    in_utf16-IsUtf16Range text xs h,
  )
  | inr e ↦ rw e (in_utf16-IsUtf16Range text xs h)
]

-- An excerpt no longer than its profile allows, whose highlights are ranges within it.
abbrev pub IsExcerpt : ListPresentationProfile → MatchedExcerpt → Type 0
IsExcerpt profile e =
    (length e.text ≤ (for_profile profile).max_chars) × All (IsUtf16Range e.text) e.highlights

for_profile-room : (profile : ListPresentationProfile) → 2 ≤ (for_profile profile).max_chars
unfolding for_profile
for_profile-room compact_row = omega arith
for_profile-room card = omega arith

for_profile-context : (profile : ListPresentationProfile) → 0 < (for_profile profile).context_chars
unfolding for_profile
for_profile-context compact_row = omega arith
for_profile-context card = omega arith

-- Whatever the highlights are, the excerpt is made.
pub create_matched_excerpt-some :
    (u : Unicode) (content : Text) (hs : List HighlightRange) (profile : ListPresentationProfile)
    → (e : MatchedExcerpt) × (create_matched_excerpt u content hs profile ≡ some e)
unfolding create_matched_excerpt
create_matched_excerpt-some u content hs profile =
    let (snippet, made) =
      generate_snippet_with_policy-some u content hs (for_profile profile)
        (for_profile-context profile) in
    (excerpt_of snippet, rw (made, create_matched_excerpt) refl)

pub generate_preview_for_profile-some :
    (u : Unicode) (content : Text) (profile : ListPresentationProfile)
    → (text : Text) × (generate_preview_for_profile u content profile ≡ some text)
unfolding generate_preview_for_profile
generate_preview_for_profile-some u content profile =
    let (snippet, made) =
      generate_snippet_with_policy-some u (trim_start u content) [] (for_profile profile)
        (for_profile-context profile) in
    (snippet.0, rw (made, generate_preview_for_profile) refl)

create_matched_excerpt-IsExcerpt :
    (u : Unicode) (content : Text) (hs : List HighlightRange) (profile : ListPresentationProfile)
    → All IsOrdered hs
    → (e : MatchedExcerpt) × (create_matched_excerpt u content hs profile ≡ some e)
      × IsExcerpt profile e
unfolding create_matched_excerpt
create_matched_excerpt-IsExcerpt u content hs profile ordered =
    let policy : ExcerptPolicy = for_profile profile in
    let (snippet, made) =
      generate_snippet_with_policy-some u content hs policy (for_profile-context profile) in
    (
      excerpt_of snippet,
      rw (made, create_matched_excerpt) refl,
      (
        generate_snippet_with_policy-length u content hs policy snippet (for_profile-room profile)
            made,
        rw (scalar_highlights_to_utf16-in_utf16 snippet.0 snippet.1) (
            in_utf16-IsUtf16Range snippet.0 snippet.1
              (generate_snippet_with_policy-IsOrdered u content hs policy snippet ordered made)),
      ),
    )

analyze_content_for_query-some :
    (u : Unicode) (content query : Text)
    → is_empty (trim u query) ≡ false
    → analyze_content_for_query u content query
      ≡ some (analysis_of (compute_scalar_highlights u content (trim u query)))
unfolding analyze_content_for_query
analyze_content_for_query-some u content query e = rw e refl

-- Every content of less than 2 to the 63 characters has an excerpt for every query, blank or not: no
-- index is out of range and no analysis is missing, the text is no longer than the profile allows,
-- and each highlight is a range within the text in UTF-16.
pub compute_matched_excerpt-IsExcerpt :
    (u : Unicode) (content query : Text) (profile : ListPresentationProfile)
    → length content < 2 ^ 63
    → (e : MatchedExcerpt) × (compute_matched_excerpt u content query profile ≡ some e)
      × IsExcerpt profile e
unfolding compute_matched_excerpt
compute_matched_excerpt-IsExcerpt u content query profile small =
    let trimmed : Text = trim u query in
    let policy : ExcerptPolicy = for_profile profile in
    elim (Bool-cases (is_empty trimmed)) [
      | inl blank ↦
          let (snippet, made) =
            generate_snippet_with_policy-some u content [] policy (for_profile-context profile) in
          (
            record { text = snippet.0; highlights = []; line_number = 0 },
            rw (blank, made) refl,
            (
              generate_snippet_with_policy-length u content [] policy snippet
                  (for_profile-room profile) made,
              tt,
            ),
          )
      | inr some_text ↦
          let hs : List HighlightRange = compute_scalar_highlights u content (trim u trimmed) in
          let ranges =
            Chain-IsRange content 0 hs
              (compute_scalar_highlights-Chain u content (trim u trimmed)) in
          rw
            (
              some_text,
              analyze_content_for_query-some u content trimmed (rw (trim-trim u query) some_text),
            )
            (create_matched_excerpt-IsExcerpt u content hs profile
              (IsRange-IsOrdered content hs ranges))
    ]
