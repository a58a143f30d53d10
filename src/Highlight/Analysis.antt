-- ===== src/Highlight/Analysis.antt =====
-- The analysis of a content for a query, its excerpts and its previews, of purr/src/search.rs.
pub mod Ranges
pub mod Previews
pub mod Excerpts
use clipkitty.Base.{
  ℕ, suc, ◌+◌, ◌-◌, ltb, leb, ◌==◌, Bool, true, false, ◌&&◌, not, Option, none, some, List, [], ◌∷◌,
  map, length, is_empty, last?, if◌then◌else◌,
}
use clipkitty.Ranking.Chars.{
  Text, Unicode, is_alphanumeric, byte_len, starts_with, trim, trim_start,
}
use clipkitty.Ranking.Folding.{fold_str}
use clipkitty.Ranking.Matches.{is_word_token}
use clipkitty.Ranking.Matching.{
  prefix_match_for_query_word, does_word_match, does_word_match_fast_raw, find_from,
}
use clipkitty.Ranking.Matching.Kinds.{WordMatchKind}
use clipkitty.Ranking.Tokens.{TokenSpan, tokenize_words, is_symbol_bearing_query}
use clipkitty.Ranking.Document.{large_doc_threshold_bytes}
use clipkitty.Highlight.Types.{
  HighlightKind, HighlightRange, HighlightAnalysis, MatchedExcerpt, PreviewDecoration,
  ListPresentationProfile,
}
use clipkitty.Highlight.Utf16.{scalar_highlights_to_utf16}
use clipkitty.Highlight.Focus.{◌>>=◌, limit_preview_highlights}
use clipkitty.Highlight.Densest.{find_densest_highlight}
use clipkitty.Highlight.Excerpt.{snippet_context_chars, for_profile}
use clipkitty.Highlight.Snippet.{Snippet, generate_snippet_with_policy, create_matched_excerpt}
use clipkitty.Highlight.Words.{
  highlight, append_word_highlight, sort_by_start, DocWord, doc_words_of, flat_map,
  highlight_candidate,
}

abbrev pub min_trigram_query_len : ℕ
min_trigram_query_len = 3

abbrev pub preview_max_highlights : ℕ
preview_max_highlights = 64

abbrev pub preview_highlight_context_chars : ℕ
preview_highlight_context_chars = 2048

-- `str::find`, as the index of a character.
abbrev pub find_text : Text → Text → Option ℕ
find_text content query = find_from query content 0 (suc (length content))

unfoldable pub literal_start : Text → Text → Bool → Option ℕ
literal_start content_folded query_folded prefer_prefix =
    if prefer_prefix && starts_with content_folded query_folded
    then some 0
    else find_text content_folded query_folded

abbrev pub literal_highlight : ℕ → Bool → ℕ → HighlightRange
literal_highlight query_char_len prefer_prefix start =
    highlight start (start + query_char_len)
      (if start == 0 && prefer_prefix then HighlightKind.prefix else HighlightKind.exact)

abbrev pub literal_highlights : ℕ → Bool → Option ℕ → List HighlightRange
literal_highlights query_char_len prefer_prefix none = []
literal_highlights query_char_len prefer_prefix (some start) =
    literal_highlight query_char_len prefer_prefix start ∷ []

unfoldable pub short_query_highlights : Unicode → Text → Text → Bool → List HighlightRange
short_query_highlights u content query prefer_prefix =
    let trimmed : Text = trim u query in
    if is_empty trimmed
    then []
    else literal_highlights (length trimmed) prefer_prefix
        (literal_start (fold_str u content) (fold_str u trimmed) prefer_prefix)

-- `ends_with` an alphanumeric character.
abbrev pub ends_alphanumeric : Unicode → Text → Bool
ends_alphanumeric u s = elim (last? s) [ none ↦ false | some c ↦ is_alphanumeric u c ]

-- The literal highlights of a query with symbols, or else those of its words.
abbrev pub literal_or : Unicode → Text → Text → List HighlightRange → List HighlightRange
literal_or u content query words =
    let literal : List HighlightRange = short_query_highlights u content query true in
    if is_symbol_bearing_query u query && not (is_empty literal) then literal else words

unfoldable pub compute_scalar_highlights : Unicode → Text → Text → List HighlightRange
compute_scalar_highlights u content query =
    let trimmed : Text = trim u query in
    if is_empty trimmed
    then []
    else if ltb (length trimmed) min_trigram_query_len
    then short_query_highlights u content trimmed true
    else literal_or u content trimmed (
        highlight_candidate u content (doc_words_of u content) (tokenize_words u trimmed)
          (ends_alphanumeric u trimmed))

-- The first query word, itself a word and not symbols, that matches a token.
abbrev pub first_word_match :
    (ℕ → Text → WordMatchKind) → Unicode → ℕ → List Text → List Text → Option WordMatchKind
first_word_match matches u qi [] folded = none
first_word_match matches u qi (w ∷ ws) [] = none
first_word_match matches u qi (w ∷ ws) (f ∷ fs) =
    let rest = first_word_match matches u (suc qi) ws fs in
    if is_word_token u w
    then (elim (matches qi f) [ WordMatchKind.none ↦ rest | kind ↦ some kind ])
    else rest

unfoldable pub word_match_of : Unicode → Bool → Bool → List Text → Text → Option WordMatchKind
word_match_of u use_full_matching last_word_is_prefix query_words doc_word =
    first_word_match
      (λ qi qw_folded.
        let prefix_match =
          prefix_match_for_query_word (length query_words) qi last_word_is_prefix in
        if use_full_matching
        then does_word_match u qw_folded (fold_str u doc_word) doc_word prefix_match
        else does_word_match_fast_raw u qw_folded doc_word prefix_match)
      u 0 query_words (map (fold_str u) query_words)

unfoldable pub word_highlights : TokenSpan → Option WordMatchKind → List HighlightRange
word_highlights span none = []
word_highlights span (some kind) = append_word_highlight span.start span.end kind

abbrev pub word_match_highlights : Unicode → Bool → Bool → List Text → DocWord → List HighlightRange
word_match_highlights u use_full_matching last_word_is_prefix query_words (span, doc_word) =
    word_highlights span (
      if is_word_token u doc_word
      then word_match_of u use_full_matching last_word_is_prefix query_words doc_word
      else none)

unfoldable pub compute_word_match_highlights : Unicode → Text → Text → List HighlightRange
unfolding word_match_of word_highlights
compute_word_match_highlights u content query =
    let use_full_matching : Bool = leb (byte_len content) large_doc_threshold_bytes in
    literal_or u content query (
      sort_by_start (
        flat_map
          (word_match_highlights u use_full_matching (ends_alphanumeric u query)
            (tokenize_words u query))
          (doc_words_of u content)))

-- The highlights with the index of the densest cluster.
abbrev pub analysis_of : List HighlightRange → HighlightAnalysis
analysis_of highlights = record {
  highlights = highlights;
  initial_scroll_highlight_index = find_densest_highlight highlights snippet_context_chars;
}

unfoldable pub analyze_content_for_query : Unicode → Text → Text → Option HighlightAnalysis
analyze_content_for_query u content query =
    let trimmed : Text = trim u query in
    if is_empty trimmed
    then none
    else some (analysis_of (compute_scalar_highlights u content trimmed))

unfoldable pub analyze_content_word_match : Unicode → Text → Text → Option HighlightAnalysis
analyze_content_word_match u content query =
    let trimmed : Text = trim u query in
    if is_empty trimmed
    then none
    else some (analysis_of (compute_word_match_highlights u content trimmed))

-- The excerpt of a blank query has no highlights.
abbrev pub plain_excerpt : Option Snippet → Option MatchedExcerpt
plain_excerpt none = none
plain_excerpt (some snippet) = some (record { text = snippet.0; highlights = []; line_number = 0 })

-- `none` is a panic, of `expect` or of the snippet.
unfoldable pub compute_matched_excerpt :
    Unicode → Text → Text → ListPresentationProfile → Option MatchedExcerpt
compute_matched_excerpt u content query profile =
    let trimmed : Text = trim u query in
    if is_empty trimmed
    then plain_excerpt (generate_snippet_with_policy u content [] (for_profile profile))
    else elim (analyze_content_for_query u content trimmed) [
      | none ↦ none
      | some analysis ↦ create_matched_excerpt u content analysis.highlights profile
    ]

-- `none` is a panic, of `limit_preview_highlights`.
unfoldable pub create_preview_decoration : Text → HighlightAnalysis → Option PreviewDecoration
create_preview_decoration content analysis = do
  (highlights, index) ←
      limit_preview_highlights analysis preview_max_highlights preview_highlight_context_chars
  some (record {
    highlights = scalar_highlights_to_utf16 content highlights;
    initial_scroll_highlight_index = index;
  })

abbrev pub shifted : ℕ → HighlightRange → HighlightRange
shifted char_offset h = record h { start = h.start + char_offset; end = h.end + char_offset }

unfoldable pub create_preview_decoration_with_char_offset :
    Text → HighlightAnalysis → ℕ → Option PreviewDecoration
create_preview_decoration_with_char_offset content analysis char_offset = do
  (focused, index) ←
      limit_preview_highlights analysis preview_max_highlights preview_highlight_context_chars
  some (record {
    highlights = scalar_highlights_to_utf16 content (map (shifted char_offset) focused);
    initial_scroll_highlight_index = index;
  })
