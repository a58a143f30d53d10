-- ===== src/Highlight/Words.antt =====
-- The highlights of the words of a query in a content, of purr/src/search.rs.
pub mod Ranges
use clipkitty.Base.{
  ℕ, zero, suc, ◌+◌, ◌-◌, min, max, ltb, leb, ◌==◌, Bool, true, false, ◌&&◌, ◌||◌, not, Option,
  none, some, List, [], ◌∷◌, ◌++◌, map, length, take, drop, all, is_empty, last?, if◌then◌else◌,
}
use clipkitty.Base.Table.{order_by}
use clipkitty.Ranking.Chars.{Text, Unicode, is_alphanumeric, byte_len, starts_with}
use clipkitty.Ranking.Folding.{fold_str}
use clipkitty.Ranking.Matches.{is_word_token}
use clipkitty.Ranking.Matching.{
  prefix_match_for_query_word, does_word_match, match_fast_folded, does_word_match_fast_raw,
  find_from,
}
use clipkitty.Ranking.Matching.Kinds.{TokenMatchSpan, WordMatchKind}
use clipkitty.Ranking.Tokens.{TokenSpan, tokenize_from, token_step, slices, is_symbol_bearing_query}
use clipkitty.Ranking.Document.{large_doc_threshold_bytes}
use clipkitty.Highlight.Types.{HighlightKind, HighlightRange}

abbrev pub highlight : ℕ → ℕ → HighlightKind → HighlightRange
highlight start end kind = record { start = start; end = end; kind = kind }

unfoldable pub word_match_to_highlight_kind : WordMatchKind → HighlightKind
word_match_to_highlight_kind WordMatchKind.exact = HighlightKind.exact
word_match_to_highlight_kind (WordMatchKind.prefix _) = HighlightKind.prefix
word_match_to_highlight_kind (WordMatchKind.subword_prefix _) = HighlightKind.subword_prefix
word_match_to_highlight_kind (WordMatchKind.infix_substring _) = HighlightKind.substring
word_match_to_highlight_kind (WordMatchKind.fuzzy _) = HighlightKind.fuzzy
word_match_to_highlight_kind (WordMatchKind.subsequence _) = HighlightKind.subsequence
word_match_to_highlight_kind WordMatchKind.none = HighlightKind.exact

unfoldable pub token_span_bounds : ℕ → ℕ → TokenMatchSpan → ℕ × ℕ
token_span_bounds char_start char_end span =
    let token_len : ℕ = char_end - char_start in
    let relative_start : ℕ = min span.start token_len in
    let relative_end : ℕ = max (min (span.start + span.len) token_len) relative_start in
    (char_start + relative_start, char_start + relative_end)

unfoldable pub highlight_bounds : ℕ → ℕ → WordMatchKind → ℕ × ℕ
unfolding token_span_bounds
highlight_bounds char_start char_end (WordMatchKind.prefix span) =
    token_span_bounds char_start char_end span
highlight_bounds char_start char_end (WordMatchKind.subword_prefix span) =
    token_span_bounds char_start char_end span
highlight_bounds char_start char_end (WordMatchKind.infix_substring span) =
    token_span_bounds char_start char_end span
highlight_bounds char_start char_end WordMatchKind.exact = (char_start, char_end)
highlight_bounds char_start char_end (WordMatchKind.fuzzy _) = (char_start, char_end)
highlight_bounds char_start char_end (WordMatchKind.subsequence _) = (char_start, char_end)
highlight_bounds char_start char_end WordMatchKind.none = (char_start, char_end)

abbrev pub is_prefix : WordMatchKind → Bool
is_prefix (WordMatchKind.prefix _) = true
is_prefix _ = false

-- What is pushed: a prefix match is followed by the tail of its word.
unfoldable pub append_word_highlight : ℕ → ℕ → WordMatchKind → List HighlightRange
unfolding highlight_bounds word_match_to_highlight_kind
append_word_highlight char_start char_end kind =
    let (start, end) = highlight_bounds char_start char_end kind in
    highlight start end (word_match_to_highlight_kind kind)
    ∷ (if is_prefix kind && ltb end char_end
        then highlight end char_end HighlightKind.prefix_tail ∷ []
        else [])

abbrev pub is_tail : HighlightKind → Bool
is_tail HighlightKind.prefix_tail = true
is_tail _ = false

unfoldable pub should_bridge_highlights : Unicode → HighlightKind → HighlightKind → Text → Bool
should_bridge_highlights u previous next gap =
    if is_tail previous || is_tail next
    then false
    else all (λ c. not (is_alphanumeric u c) && not (u.is_whitespace c)) gap

abbrev pub can_bridge : Unicode → Text → HighlightRange → HighlightRange → Bool
can_bridge u content last h =
    leb last.end h.start
    && leb h.start (length content)
    && should_bridge_highlights u last.kind h.kind
        (take (h.start - last.end) (drop last.end content))

-- The loop that merges a highlight into the last one where it can.
unfoldable pub bridge_from :
    Unicode → Text → HighlightRange → List HighlightRange → List HighlightRange
bridge_from u content last [] = last ∷ []
bridge_from u content last (h ∷ hs) =
    let bridges : Bool = can_bridge u content last h in
    let next : HighlightRange = if bridges then record last { end = h.end } else h in
    (if bridges then [] else last ∷ []) ++ bridge_from u content next hs

unfoldable pub bridge : Unicode → Text → List HighlightRange → List HighlightRange
unfolding bridge_from
bridge u content [] = []
bridge u content (h ∷ hs) = bridge_from u content h hs

-- The starts of highlights differ, so the order in which an unstable sort leaves equal ones is none.
abbrev pub sort_by_start : List HighlightRange → List HighlightRange
sort_by_start = order_by (λ a b. leb a.start b.start)

-- The first query word that matches, with its index; `matches` is the test that the caller makes.
abbrev pub first_match : (ℕ → Text → WordMatchKind) → ℕ → List Text → Option (Text × WordMatchKind)
first_match matches qi [] = none
first_match matches qi (qw ∷ qws) =
    let rest = first_match matches (suc qi) qws in
    elim (matches qi qw) [ WordMatchKind.none ↦ rest | kind ↦ some (qw, kind) ]

-- The tokens with the texts that they span.
abbrev pub DocWord : Type 0
DocWord = TokenSpan × Text

abbrev pub paired : List TokenSpan → List Text → List DocWord
paired [] ts = []
paired (s ∷ ss) [] = []
paired (s ∷ ss) (t ∷ ts) = (s, t) ∷ paired ss ts

-- `tokenize_words`, with the offsets.
unfoldable pub doc_words_of : Unicode → Text → List DocWord
unfolding tokenize_from token_step
doc_words_of u content =
    let spans : List TokenSpan =
      tokenize_from u.is_whitespace (is_alphanumeric u) (λ c. 1) 0 none content in
    paired spans (slices content spans)

-- The test of a query word against a token, with the matcher for the content's size.
unfoldable pub candidate_match :
    Unicode → Bool → Bool → List Text → Text → Option (Text × WordMatchKind)
candidate_match u is_large_doc last_word_is_prefix query_folded doc_word =
    let folded : Text = fold_str u doc_word in
    first_match
      (λ qi qw.
        let prefix_match =
          prefix_match_for_query_word (length query_folded) qi last_word_is_prefix in
        if is_large_doc
        then match_fast_folded qw folded prefix_match
        else does_word_match u qw folded doc_word prefix_match)
      0 query_folded

-- A query token of symbols is left to the bridging.
unfoldable pub highlight_match :
    Unicode → TokenSpan → Option (Text × WordMatchKind) → List HighlightRange
unfolding append_word_highlight
highlight_match u span none = []
highlight_match u span (some (qw, kind)) =
    if is_word_token u qw then append_word_highlight span.start span.end kind else []

abbrev pub candidate_word_highlights :
    Unicode → Bool → Bool → List Text → DocWord → List HighlightRange
candidate_word_highlights u is_large_doc last_word_is_prefix query_folded (span, doc_word) =
    highlight_match u span
      (candidate_match u is_large_doc last_word_is_prefix query_folded doc_word)

abbrev pub flat_map : {A B : Type 0} → (A → List B) → List A → List B
flat_map f [] = []
flat_map f (a ∷ as') = f a ++ flat_map f as'

unfoldable pub highlight_candidate :
    Unicode → Text → List DocWord → List Text → Bool → List HighlightRange
unfolding candidate_match highlight_match bridge
highlight_candidate u content doc_words query_words last_word_is_prefix =
    let query_folded : List Text = map (fold_str u) query_words in
    let is_large_doc : Bool = ltb large_doc_threshold_bytes (byte_len content) in
    bridge u content (
      sort_by_start (
        flat_map (candidate_word_highlights u is_large_doc last_word_is_prefix query_folded)
          doc_words))
