-- ===== src/Highlight/Analysis/Previews.antt =====
-- The preview of an analysis.
use clipkitty.Base.{
  ℕ, zero, suc, ◌^◌, ◌≤◌, ◌<◌, Option, none, some, List, [], ◌∷◌, All, All-take, All-drop, map,
  keep, length, take, drop, All-get_elem?, lt-length_of_get_elem?, is_empty, ◌≡◌, refl, ap, ◌∙◌,
  ◌⊎◌, inl, inr, Bool-cases, arith,
}
use clipkitty.Ranking.Chars.{Text, Unicode, trim}
use clipkitty.Highlight.Types.{
  HighlightRange, HighlightAnalysis, Utf16HighlightRange, PreviewDecoration,
}
use clipkitty.Highlight.Utf16.{
  utf16_len, is_within, in_utf16, scalar_highlights_to_utf16, scalar_highlights_to_utf16-in_utf16,
}
use clipkitty.Highlight.Focus.{limit_preview_highlights}
use clipkitty.Highlight.Focus.Anchor.{limit_preview_highlights-anchor}
use clipkitty.Highlight.Densest.{find_densest_highlight}
use clipkitty.Highlight.Densest.Laws.{found_highlight-Anchors}
use clipkitty.Highlight.Words.Ranges.{Chain}
use clipkitty.Highlight.Analysis.{
  analysis_of, create_preview_decoration, compute_scalar_highlights, analyze_content_for_query,
  preview_max_highlights, preview_highlight_context_chars,
}
use clipkitty.Highlight.Analysis.Ranges.{compute_scalar_highlights-Chain}

pub utf16_len-take : (n : ℕ) (s : Text) → utf16_len (take n s) ≤ utf16_len s
utf16_len-take zero s = omega arith
utf16_len-take (suc n) [] = omega arith
utf16_len-take (suc n) (c ∷ s) = omega (arith, utf16_len-take n s)

pub utf16_len-take_mono : (m n : ℕ) (s : Text) → m ≤ n → utf16_len (take m s) ≤ utf16_len (take n s)
utf16_len-take_mono zero n s h = omega arith
utf16_len-take_mono (suc m) zero s h = absurd (omega arith)
utf16_len-take_mono (suc m) (suc n) [] h = omega arith
utf16_len-take_mono (suc m) (suc n) (c ∷ s) h =
    omega (arith, utf16_len-take_mono m n s (omega arith))

-- A range of characters within a text, and one of UTF-16 code units.
abbrev pub IsRange : Text → HighlightRange → Type 0
IsRange text h = (h.start ≤ h.end) × (h.end ≤ length text)

abbrev pub IsUtf16Range : Text → Utf16HighlightRange → Type 0
IsUtf16Range text r = (r.utf16_start ≤ r.utf16_end) × (r.utf16_end ≤ utf16_len text)

Chain-end : (from to : ℕ) (hs : List HighlightRange) → Chain from to hs → from ≤ to
Chain-end from to [] c = c
Chain-end from to (h ∷ hs) (p, q, c) = omega (arith, Chain-end h.end to hs c)

pub Chain-IsRange :
    (text : Text) (from : ℕ) (hs : List HighlightRange)
    → Chain from (length text) hs
    → All (IsRange text) hs
Chain-IsRange text from [] c = tt
Chain-IsRange text from (h ∷ hs) (p, q, c) =
    ((q, Chain-end h.end (length text) hs c), Chain-IsRange text h.end hs c)

-- All ranges within the text are shown, as ranges of the text in UTF-16.
keep-IsRange :
    (text : Text) (hs : List HighlightRange)
    → All (IsRange text) hs
    → (keep (is_within text) hs ≡ hs) × All (IsUtf16Range text) (map (in_utf16 text) hs)
keep-IsRange text [] h = (refl, tt)
keep-IsRange text (h ∷ hs) ((le, inside), rest) =
    let (kept, ranges) = keep-IsRange text hs rest in
    (
      ground (arith, kept),
      ((utf16_len-take_mono h.start h.end text le, utf16_len-take h.end text), ranges),
    )

length-map {ℓ κ} :
    {A : Type ℓ} {B : Type κ} (f : A → B) (xs : List A) → length (map f xs) ≡ length xs
length-map f [] = refl
length-map f (x ∷ xs) = omega (arith, length-map f xs)

-- A preview without a panic: it has no more highlights than are allowed, each is a range within the
-- content, and if the analysis has highlights, the preview scrolls to one that it has.
abbrev pub Shown : Text → HighlightAnalysis → Option PreviewDecoration → Type 0
Shown content a result =
    (d : PreviewDecoration) × (result ≡ some d)
    × (length d.highlights ≤ preview_max_highlights)
    × All (IsUtf16Range content) d.highlights
    × ((a.highlights ≡ [])
        ⊎ ((j : ℕ) × (d.initial_scroll_highlight_index ≡ some j) × (j < length d.highlights)))

create_preview_decoration-eq :
    (content : Text) (a : HighlightAnalysis) (limited : List HighlightRange) (index : Option ℕ)
    → limit_preview_highlights a preview_max_highlights preview_highlight_context_chars
      ≡ some (limited, index)
    → create_preview_decoration content a
      ≡ some (record {
        highlights = scalar_highlights_to_utf16 content limited;
        initial_scroll_highlight_index = index;
      })
unfolding create_preview_decoration
create_preview_decoration-eq content a limited index e = rw e refl

-- The highlights of a part within the content are all shown.
shown_part :
    (content : Text) (limited : List HighlightRange)
    → All (IsRange content) limited
    → (length (scalar_highlights_to_utf16 content limited) ≡ length limited)
      × All (IsUtf16Range content) (scalar_highlights_to_utf16 content limited)
shown_part content limited ranges =
    let (kept, shown) = keep-IsRange content limited ranges in
    rw (scalar_highlights_to_utf16-in_utf16 content limited, kept)
      (length-map (in_utf16 content) limited, shown)

preview_of_none :
    (content : Text)
    → create_preview_decoration content (analysis_of [])
      ≡ some (record { highlights = []; initial_scroll_highlight_index = none })
unfolding create_preview_decoration limit_preview_highlights find_densest_highlight
    scalar_highlights_to_utf16
preview_of_none content = refl

analysis_of-Shown :
    (content : Text) (hs : List HighlightRange)
    → Chain 0 (length content) hs
    → length content < 2 ^ 64
    → Shown content (analysis_of hs) (create_preview_decoration content (analysis_of hs))
analysis_of-Shown content [] chain small = (
  record { highlights = []; initial_scroll_highlight_index = none },
  preview_of_none content,
  omega arith,
  tt,
  inl refl,
)
analysis_of-Shown content (h ∷ hs) chain small =
    let (i, anchor, found, at, _) = found_highlight-Anchors h hs 200 (omega arith) in
    let ranges : All (IsRange content) (h ∷ hs) = Chain-IsRange content 0 (h ∷ hs) chain in
    let (le, inside) = All-get_elem? (IsRange content) (h ∷ hs) i at ranges in
    let (limited, j, result, size, kept, first, count, part) =
      limit_preview_highlights-anchor (h ∷ hs) i 64 2048 at le (omega arith) (omega arith) in
    let within : All (IsRange content) limited = rw part (
      All-take (IsRange content) count (drop first (h ∷ hs))
        (All-drop (IsRange content) first (h ∷ hs) ranges)) in
    let (as_many, shown) = shown_part content limited within in
    (
      record {
        highlights = scalar_highlights_to_utf16 content limited;
        initial_scroll_highlight_index = some j;
      },
      create_preview_decoration-eq content (analysis_of (h ∷ hs)) limited (some j) (
          ap
            (λ (o : Option ℕ).
              limit_preview_highlights
                (record { highlights = h ∷ hs; initial_scroll_highlight_index = o }) 64 2048)
            found
          ∙ result),
      omega arith,
      shown,
      inr (j, refl, omega (arith, lt-length_of_get_elem? limited j kept)),
    )

-- The analysis of a content shorter than 2 to the 64 characters has a preview: nothing panics, it has
-- 64 highlights at most, each a range within the content in UTF-16, and unless the analysis has no
-- highlight, the preview scrolls to one that it has.
pub analyze_content_for_query-Shown :
    (u : Unicode) (content query : Text) (a : HighlightAnalysis)
    → length content < 2 ^ 64
    → analyze_content_for_query u content query ≡ some a
    → Shown content a (create_preview_decoration content a)
unfolding analyze_content_for_query
analyze_content_for_query-Shown u content query a small e =
    let trimmed : Text = trim u query in
    let hs : List HighlightRange = compute_scalar_highlights u content trimmed in
    elim (Bool-cases (is_empty trimmed)) [
      | inl blank ↦ absurd (ground arith)
      | inr some_text ↦
          let same : analysis_of hs ≡ a = ground arith in
          rw (← same)
            (analysis_of-Shown content hs (compute_scalar_highlights-Chain u content trimmed) small)
    ]
