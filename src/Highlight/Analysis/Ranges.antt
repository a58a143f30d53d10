-- ===== src/Highlight/Analysis/Ranges.antt =====
-- Where the highlights of an analysis stand.
use clipkitty.Base.{
  ℕ, suc, ◌+◌, ◌≤◌, ltb, leb, Bool, true, ◌&&◌, not, Option, none, some, List, [], ◌∷◌, map, length,
  drop, is_empty, ◌≡◌, refl, inl, inr, Bool-cases, arith,
}
use clipkitty.Ranking.Chars.{Text, Unicode, is_alphanumeric, starts_with, trim, byte_len}
use clipkitty.Ranking.Chars.Laws.{starts_with-length, length-drop}
use clipkitty.Ranking.Folding.{fold_str}
use clipkitty.Ranking.Folding.Laws.{length-fold_str}
use clipkitty.Ranking.Matching.Kinds.{WordMatchKind}
use clipkitty.Ranking.Matching.Meaning.{find_from-starts_with}
use clipkitty.Ranking.Tokens.{
  TokenSpan, tokenize_from, tokenize_words, is_symbol_bearing_query, slices,
}
use clipkitty.Ranking.Tokens.Spans.{InOrder, total, tokenize_from-InOrder}
use clipkitty.Ranking.Document.{large_doc_threshold_bytes}
use clipkitty.Highlight.Types.{HighlightRange}
use clipkitty.Highlight.Words.{
  DocWord, paired, doc_words_of, flat_map, candidate_word_highlights, candidate_match, bridge,
  highlight_candidate,
}
use clipkitty.Highlight.Words.Ranges.{
  Chain, flat_map-Chain, highlight_match-Chain, sort_by_start-Chain, bridge_from-Chain,
  append_word_highlight-Chain,
}
use clipkitty.Highlight.Analysis.{
  find_text, literal_start, literal_highlights, short_query_highlights, literal_or,
  compute_scalar_highlights, word_highlights, word_match_highlights, compute_word_match_highlights,
  ends_alphanumeric, min_trigram_query_len,
}

find_text-within :
    (content query : Text) (i : ℕ)
    → find_text content query ≡ some i
    → i + length query ≤ length content
find_text-within content query i e =
    let (_, before, here) = find_from-starts_with query content 0 (suc (length content)) i e in
    let size = starts_with-length (drop i content) query here in
    omega (arith, length-drop i content (omega arith))

literal_start-within :
    (content query : Text) (prefer : Bool) (i : ℕ)
    → literal_start content query prefer ≡ some i
    → i + length query ≤ length content
unfolding literal_start
literal_start-within content query prefer i e =
    elim (Bool-cases (prefer && starts_with content query)) [
      | inl h ↦
          let at_start : i ≡ 0 = ground arith in
          omega (arith, starts_with-length content query (ground arith))
      | inr h ↦ find_text-within content query i (ground arith)
    ]

literal_highlights-Chain :
    (to size : ℕ) (prefer : Bool) (found : Option ℕ)
    → ((i : ℕ) → found ≡ some i → i + size ≤ to)
    → Chain 0 to (literal_highlights size prefer found)
literal_highlights-Chain to size prefer none h = omega arith
literal_highlights-Chain to size prefer (some i) h = (omega arith, omega arith, h i refl)

module _ (u : Unicode) where
  abbrev chars_of : Text → List TokenSpan
  chars_of content = tokenize_from u.is_whitespace (is_alphanumeric u) (λ c. 1) 0 none content

  total-length : (s : Text) → total (λ c. 1) s ≡ length s
  total-length [] = refl
  total-length (c ∷ s) = omega (arith, total-length s)

  doc_words-InOrder : (content : Text) → InOrder 0 (length content) (chars_of content)
  doc_words-InOrder content =
      let size : 0 + total (λ c. 1) content ≡ length content =
        omega (arith, total-length content) in
      rw size at (
        tokenize_from-InOrder u.is_whitespace (is_alphanumeric u) (λ c. 1) (λ c. omega arith)
          content 0 none tt)

  short_query_highlights-Chain :
      (content query : Text) (prefer : Bool)
      → Chain 0 (length content) (short_query_highlights u content query prefer)
  unfolding short_query_highlights
  short_query_highlights-Chain content query prefer =
      let trimmed : Text = trim u query in
      elim (Bool-cases (is_empty trimmed)) [
        | inl e ↦ rw e (omega arith)
        | inr e ↦ rw e (
            literal_highlights-Chain (length content) (length trimmed) prefer
              (literal_start (fold_str u content) (fold_str u trimmed) prefer)
              (λ i found. omega (
                arith,
                literal_start-within (fold_str u content) (fold_str u trimmed) prefer i found,
                length-fold_str u content,
                length-fold_str u trimmed,
              )))
      ]

  bridge-Chain :
      (content : Text) (from to : ℕ) (hs : List HighlightRange)
      → Chain from to hs
      → Chain from to (bridge u content hs)
  unfolding bridge
  bridge-Chain content from to [] c = c
  bridge-Chain content from to (h ∷ hs) c = bridge_from-Chain u content from to h hs c

  highlight_candidate-Chain :
      (content : Text) (query_words : List Text) (last : Bool)
      → Chain 0
          (length content)
          (highlight_candidate u content (doc_words_of u content) query_words last)
  unfolding highlight_candidate doc_words_of
  highlight_candidate-Chain content query_words last =
      let large : Bool = ltb large_doc_threshold_bytes (byte_len content) in
      let folded : List Text = map (fold_str u) query_words in
      let f : DocWord → List HighlightRange = candidate_word_highlights u large last folded in
      let words : List DocWord = paired (chars_of content) (slices content (chars_of content)) in
      let chain : Chain 0 (length content) (flat_map f words) =
        flat_map-Chain f
          (λ span word h. highlight_match-Chain u span (candidate_match u large last folded word) h)
          0 (length content) (chars_of content) (slices content (chars_of content))
          (doc_words-InOrder content) in
      rw (sort_by_start-Chain 0 (length content) (flat_map f words) chain)
        (bridge-Chain content 0 (length content) (flat_map f words) chain)

  word_highlights-Chain :
      (span : TokenSpan) (found : Option WordMatchKind)
      → span.start ≤ span.end
      → Chain span.start span.end (word_highlights span found)
  unfolding word_highlights
  word_highlights-Chain span none h = h
  word_highlights-Chain span (some kind) h = append_word_highlight-Chain span.start span.end kind h

  literal_or-Chain :
      (content query : Text) (words : List HighlightRange)
      → Chain 0 (length content) words
      → Chain 0 (length content) (literal_or u content query words)
  literal_or-Chain content query words h =
      elim (Bool-cases (
        is_symbol_bearing_query u query
        && not (is_empty (short_query_highlights u content query true)))) [
          | inl e ↦ rw e (short_query_highlights-Chain content query true)
          | inr e ↦ rw e h
        ]

  -- The highlights of a query in a content stand in their order, do not overlap, and end within the
  -- characters of the content.
  pub compute_scalar_highlights-Chain :
      (content query : Text) → Chain 0 (length content) (compute_scalar_highlights u content query)
  unfolding compute_scalar_highlights
  compute_scalar_highlights-Chain content query =
      let trimmed : Text = trim u query in
      elim (Bool-cases (is_empty trimmed)) [
        | inl e ↦ rw e (omega arith)
        | inr e ↦ elim (Bool-cases (ltb (length trimmed) min_trigram_query_len)) [
          | inl short ↦ rw (e, short) (short_query_highlights-Chain content trimmed true)
          | inr long ↦
              rw (e, long)
                (literal_or-Chain content trimmed _ (
                  highlight_candidate-Chain content (tokenize_words u trimmed)
                    (ends_alphanumeric u trimmed)))
        ]
      ]

  pub compute_word_match_highlights-Chain :
      (content query : Text)
      → Chain 0 (length content) (compute_word_match_highlights u content query)
  unfolding compute_word_match_highlights doc_words_of
  compute_word_match_highlights-Chain content query =
      let full : Bool = leb (byte_len content) large_doc_threshold_bytes in
      let last : Bool = ends_alphanumeric u query in
      let f : DocWord → List HighlightRange =
        word_match_highlights u full last (tokenize_words u query) in
      let words : List DocWord = paired (chars_of content) (slices content (chars_of content)) in
      let chain : Chain 0 (length content) (flat_map f words) =
        flat_map-Chain f (λ span word h. word_highlights-Chain span _ h) 0 (length content)
          (chars_of content) (slices content (chars_of content)) (doc_words-InOrder content) in
      rw (sort_by_start-Chain 0 (length content) (flat_map f words) chain)
        (literal_or-Chain content query (flat_map f words) chain)
