-- ===== src/Ranking/Tests.antt =====
-- The theorems on purr/src/ranking at concrete words, alignments and documents.
use clipkitty.Base.{
  ℕ, zero, suc, ◌+◌, ◌^◌, ◌≤◌, ◌<◌, leb, ◌==◌, Bool, true, false, ◌&&◌, ◌||◌, pos, none, is_some,
  List, [], ◌∷◌, map, length, ◌≡◌, refl, ◌↔◌, inl, inr, arith, if◌then◌else◌,
}
use clipkitty.Base.Text.{codes}
use clipkitty.Ranking.Types.{QualityTier}
use clipkitty.Ranking.Chars.{Text, Unicode, to_ascii_lowercase, is_alphanumeric, byte_len}
use clipkitty.Ranking.Folding.{fold_str}
use clipkitty.Ranking.Signals.Weights.{query_weights}
use clipkitty.Ranking.Matches.{base_match_weight, is_word_token, WordMatch, WordMatchState}
use clipkitty.Ranking.Matching.{
  enabled, does_word_match, does_word_match_fast_raw, subsequence_match, same_first,
}
use clipkitty.Ranking.Matching.Edits.{edit_distance_bounded, first_char_penalty, within}
use clipkitty.Ranking.Matching.Meaning.{Means, does_word_match-Means}
use clipkitty.Ranking.Matching.Fast.{only_fast, does_word_match_fast_raw-only_fast}
use clipkitty.Ranking.Matching.Distance.{edit_distance_bounded-osa_distance}
use clipkitty.Ranking.Matching.Subsequences.{Subsequence, subsequence_match-Subsequence}
use clipkitty.Ranking.Signals.{total_query_weight, words_matched_weight, compute_match_class_score}
use clipkitty.Ranking.Signals.Weights.{words_matched_weight-total_query_weight}
use clipkitty.Ranking.Signals.ClassScore.{compute_match_class_score-worst_class}
use clipkitty.Ranking.Alignment.{
  score_alignment, choose_best_alignment, recursive_fallback, default_best,
}
use clipkitty.Ranking.Alignment.Valid.{Upto, Picks, Fresh}
use clipkitty.Ranking.Alignment.Choice.{
  choose_best_alignment-Upto, choose_best_alignment-recursive_fallback,
}
use clipkitty.Ranking.Tokens.{tokenize_for_ranking}
use clipkitty.Ranking.Tokens.Spans.{InOrder, tokenize_for_ranking-InOrder}
use clipkitty.Ranking.Document.{
  PreparedQuery, PreparedDocument, small, large_fast, ascii, is_fast_mode,
}
use clipkitty.Ranking.Score.{
  ScoringContext, compute_bucket_score, match_query_words, candidate_lists_from, default_match,
}
use clipkitty.Ranking.Score.Laws.{match_query_words-Picks, compute_bucket_score-content_prefix}

abbrev is_letter : ℕ → Bool
is_letter c = (leb 65 c && leb c 90) || (leb 97 c && leb c 122)

-- The positions at which two words differ.
abbrev differences : Text → Text → ℕ
differences [] t = length t
differences (a ∷ s) [] = suc (length s)
differences (a ∷ s) (b ∷ t) = (if a == b then 0 else 1) + differences s t

-- Tables for ASCII alone.
abbrev test_unicode : Unicode
test_unicode = record {
  is_alphabetic = is_letter;
  is_numeric = λ c. leb 48 c && leb c 57;
  is_lowercase = λ c. leb 97 c && leb c 122;
  is_uppercase = λ c. leb 65 c && leb c 90;
  is_whitespace = λ c. c == 32 || (leb 9 c && leb c 13);
  to_lowercase = λ c. to_ascii_lowercase c ∷ [];
  decompose_canonical = λ c. c ∷ [];
  is_combining_mark = λ c. false;
  osa_distance = differences;
  levenshtein_simd_k = λ a b k. within k (differences a b);
}

abbrev clip : Text
clip = codes "clip"

abbrev clipboard : Text
clipboard = codes "clipboard"

abbrev ms : WordMatchState → ℕ → WordMatch
ms state weight = record { query_weight = weight; query_char_len = 4; state = state }

abbrev two_defaults : List WordMatch
two_defaults = ms WordMatchState.unmatched 16 ∷ ms WordMatchState.unmatched 25 ∷ []

-- Both words match the first document word, the first one the second too.
abbrev two_lists : List (List WordMatch)
two_lists =
    (ms (WordMatchState.exact 0) 16 ∷ ms (WordMatchState.prefix 1) 16 ∷ [])
    ∷ (ms (WordMatchState.exact 0) 25 ∷ [])
    ∷ []

abbrev other_alignment : List WordMatch
other_alignment = ms (WordMatchState.prefix 1) 16 ∷ ms WordMatchState.unmatched 25 ∷ []

does_word_match-Means_example :
    Means clip clipboard (does_word_match test_unicode clip clipboard clipboard (enabled 1))
does_word_match-Means_example =
    does_word_match-Means test_unicode clip clipboard clipboard (enabled 1)

does_word_match_fast_raw-only_fast_example :
    does_word_match_fast_raw test_unicode clip (codes "ClipBoard") (enabled 1)
    ≡ only_fast (
        does_word_match test_unicode clip
          (fold_str test_unicode (codes "ClipBoard"))
          (codes "ClipBoard")
          (enabled 1))
unfolding to_ascii_lowercase
does_word_match_fast_raw-only_fast_example =
    does_word_match_fast_raw-only_fast test_unicode clip (codes "ClipBoard") (enabled 1) refl

edit_distance_bounded-osa_distance_example :
    edit_distance_bounded test_unicode clip (codes "clap") 1
    ≡ within 1 (differences clip (codes "clap") + first_char_penalty clip (codes "clap"))
edit_distance_bounded-osa_distance_example =
    edit_distance_bounded-osa_distance test_unicode clip (codes "clap") 1 (λ k. refl) (omega arith)
      (omega arith) (omega arith)

subsequence_match-Subsequence_example :
    (is_some (subsequence_match (codes "clbr") clipboard) ≡ true) ↔ (
      (3 < 4)
      × (4 < 9)
      × (9 ≤ 8)
      × (same_first (codes "clbr") clipboard ≡ true)
      × Subsequence (codes "clbr") clipboard)
subsequence_match-Subsequence_example = subsequence_match-Subsequence (codes "clbr") clipboard

choose_best_alignment-Upto_example :
    Upto (score_alignment other_alignment (total_query_weight two_defaults)) (
      score_alignment
        (choose_best_alignment two_lists two_defaults)
        (total_query_weight two_defaults))
    × (query_weights other_alignment < 2 ^ 16)
    × (query_weights (choose_best_alignment two_lists two_defaults) < 2 ^ 16)
choose_best_alignment-Upto_example =
    choose_best_alignment-Upto two_lists two_defaults refl (refl, (refl, tt)) (omega arith)
      other_alignment (inr (inr (inl refl), refl), (inl refl, tt)) (refl, tt)

choose_best_alignment-recursive_fallback_example :
    choose_best_alignment two_lists two_defaults
    ≡ (recursive_fallback
        (total_query_weight two_defaults)
        two_lists
        two_defaults
        []
        []
        (default_best two_defaults)).best
choose_best_alignment-recursive_fallback_example =
    choose_best_alignment-recursive_fallback two_lists two_defaults (omega arith)

words_matched_weight-total_query_weight_example :
    words_matched_weight (ms (WordMatchState.infix_substring 3) 16 ∷ two_defaults)
    ≤ total_query_weight (ms (WordMatchState.infix_substring 3) 16 ∷ two_defaults)
words_matched_weight-total_query_weight_example =
    words_matched_weight-total_query_weight
      (ms (WordMatchState.infix_substring 3) 16 ∷ two_defaults) (omega arith)

compute_match_class_score-worst_class_example :
    (176 ≤ compute_match_class_score (ms (WordMatchState.infix_substring 3) 16 ∷ other_alignment))
    × (compute_match_class_score (ms (WordMatchState.infix_substring 3) 16 ∷ other_alignment)
        ≤ 176 + 64)
    × (compute_match_class_score (ms (WordMatchState.infix_substring 3) 16 ∷ other_alignment) ≤ 255)
compute_match_class_score-worst_class_example =
    compute_match_class_score-worst_class
      (ms (WordMatchState.infix_substring 3) 16 ∷ other_alignment) 176 (omega arith) refl

tokenize_for_ranking-InOrder_example :
    InOrder 0 (byte_len (codes "a://b c")) (tokenize_for_ranking test_unicode (codes "a://b c"))
tokenize_for_ranking-InOrder_example = tokenize_for_ranking-InOrder test_unicode (codes "a://b c")

abbrev many : ℕ → List WordMatch
many zero = []
many (suc n) = ms (WordMatchState.prefix n) 16 ∷ many n

abbrev url_query : PreparedQuery
url_query = record {
  raw_text = codes "a:b";
  folded_text = codes "a:b";
  tokens =
      record { raw = codes "a"; folded = codes "a" }
      ∷ record { raw = codes ":"; folded = codes ":" }
      ∷ record { raw = codes "b"; folded = codes "b" }
      ∷ [];
}

abbrev url_document : PreparedDocument
url_document =
    small (codes "A:b c") (codes "a:b c")
      (record { start = 0; end = 1 }
        ∷ record { start = 1; end = 2 }
        ∷ record { start = 2; end = 3 }
        ∷ record { start = 4; end = 5 }
        ∷ [])
      (codes "a" ∷ codes ":" ∷ codes "b" ∷ codes "c" ∷ [])

abbrev url_context : ScoringContext
url_context = record {
  document = url_document;
  query = url_query;
  prefix_preference = none;
  timestamp = pos 100;
  now = pos 200;
}

match_query_words-Picks_example :
    Picks
      (candidate_lists_from test_unicode url_document url_query 0 url_query.tokens)
      (map (default_match test_unicode) url_query.tokens)
      (match_query_words test_unicode url_document url_query)
    × Fresh [] (match_query_words test_unicode url_document url_query)
    × (query_weights (match_query_words test_unicode url_document url_query) < 2 ^ 16)
unfolding base_match_weight is_word_token byte_len clipkitty.Ranking.Chars.len_utf8 is_alphanumeric
match_query_words-Picks_example =
    match_query_words-Picks test_unicode url_document url_query (omega arith) refl

compute_bucket_score-content_prefix_example :
    (compute_bucket_score test_unicode url_context).quality_tier ≡ QualityTier.content_prefix
unfolding clipkitty.Ranking.Document.has_literal_sequence
    clipkitty.Ranking.Tokens.is_symbol_bearing_query
    clipkitty.Ranking.Document.starts_with_case_insensitive clipkitty.Ranking.Chars.starts_with
    base_match_weight is_word_token byte_len clipkitty.Ranking.Chars.len_utf8 is_alphanumeric
compute_bucket_score-content_prefix_example =
    compute_bucket_score-content_prefix test_unicode url_context (omega arith) (omega arith)
      (omega arith) refl refl refl refl
