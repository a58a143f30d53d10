-- ===== src/Ranking/Document.antt =====
-- `PreparedDocument` and `PreparedQuery` of purr/src/ranking.rs.
use clipkitty.Base.{
  ℕ, ◌-◌, ◌*◌, ltb, leb, ◌==◌, Bool, true, false, ◌&&◌, ◌||◌, not, Option, none, some, List, [],
  ◌∷◌, ◌++◌, map, keep, last?, if◌then◌else◌,
}
use clipkitty.Ranking.Chars.{
  Text, Unicode, is_alphanumeric, is_ascii, byte_len, to_ascii_lowercase, starts_with, contains,
}
use clipkitty.Ranking.Folding.{fold_str}
use clipkitty.Ranking.Matches.{is_word_token}
use clipkitty.Ranking.Tokens.{
  TokenSpan, tokenize_for_ranking, raw_token_from, tokenize_words, is_symbol_bearing_query,
}

pub record PreparedQueryToken : Type 0 where
  pub raw : Text
  pub folded : Text

pub record PreparedQuery : Type 0 where
  pub raw_text : Text
  pub folded_text : Text
  pub tokens : List PreparedQueryToken

-- `split_whitespace` and `join(" ")` in one pass: a space is owed where white space follows a part.
abbrev pub join_parts : Unicode → Bool → Bool → Text → Text
join_parts u begun owed [] = []
join_parts u begun owed (c ∷ s) = elim (u.is_whitespace c) [
  | true ↦ join_parts u begun begun s
  | false ↦ (if owed then 32 ∷ c ∷ [] else c ∷ []) ++ join_parts u true false s
]

abbrev pub query_token : Unicode → Text → PreparedQueryToken
query_token u raw = record { raw = raw; folded = fold_str u raw }

-- `PreparedQuery::new`.
unfoldable pub new_query : Unicode → Text → PreparedQuery
new_query u raw_text = record {
  raw_text = raw_text;
  folded_text =
      if is_symbol_bearing_query u raw_text
      then fold_str u raw_text
      else fold_str u (join_parts u false false raw_text);
  tokens = map (query_token u) (tokenize_words u raw_text);
}

unfoldable pub word_texts : Unicode → PreparedQuery → List Text
word_texts u q = keep (is_word_token u) (map (λ t. t.raw) q.tokens)

unfoldable pub last_word_is_prefix : Unicode → PreparedQuery → Bool
last_word_is_prefix u q = elim (last? q.raw_text) [ none ↦ false | some c ↦ is_alphanumeric u c ]

-- `literal_sequence().is_some()`.
unfoldable pub has_literal_sequence : Unicode → PreparedQuery → Bool
has_literal_sequence u q = is_symbol_bearing_query u q.raw_text

pub data CaseMode : Type 0 where
  ascii : CaseMode
  unicode : CaseMode

-- The fields of both variants, in their order.
pub data PreparedDocument : Type 0 where
  small : Text → Text → List TokenSpan → List Text → PreparedDocument
  large_fast : Text → List TokenSpan → CaseMode → PreparedDocument

abbrev pub large_doc_threshold_bytes : ℕ
large_doc_threshold_bytes = 32 * 1024

unfoldable pub prepare_document_for_ranking : Unicode → Text → PreparedDocument
prepare_document_for_ranking u content =
    let spans = tokenize_for_ranking u content in
    if ltb large_doc_threshold_bytes (byte_len content)
    then large_fast content spans (if is_ascii content then ascii else unicode)
    else small content (fold_str u content) spans
        (map (λ t. fold_str u (raw_token_from content t)) spans)

abbrev pub is_fast_mode : PreparedDocument → Bool
is_fast_mode (small _ _ _ _) = false
is_fast_mode (large_fast _ _ _) = true

-- The tokens that `for_each_fast_token` visits.
abbrev pub fast_tokens : PreparedDocument → List Text
fast_tokens (small _ _ _ _) = []
fast_tokens (large_fast content spans _) = map (raw_token_from content) spans

unfoldable pub starts_with_ignore_ascii_case : Text → Text → Bool
starts_with_ignore_ascii_case content needle =
    if not (is_ascii needle)
    then false
    else starts_with (map to_ascii_lowercase content) (map to_ascii_lowercase needle)

-- The first byte is the needle's first or its capital.
unfoldable pub to_ascii_uppercase : ℕ → ℕ
to_ascii_uppercase c = if leb 97 c && leb c 122 then c - 32 else c

abbrev pub is_first_byte : ℕ → ℕ → Bool
is_first_byte first_lower first = first == first_lower || first == to_ascii_uppercase first_lower

-- The loop over the starts at which the needle fits, for a needle with a first byte.
unfoldable pub contains_from : ℕ → Text → Text → Bool
contains_from first needle [] = false
contains_from first needle (c ∷ s) =
    let later = contains_from first needle s in
    (is_first_byte first c
      && starts_with (map to_ascii_lowercase (c ∷ s)) (map to_ascii_lowercase needle))
    || later

unfoldable pub contains_ignore_ascii_case : Text → Text → Bool
contains_ignore_ascii_case content [] = true
contains_ignore_ascii_case content (first ∷ needle) =
    if not (is_ascii (first ∷ needle))
    then false
    else if ltb (byte_len content) (byte_len (first ∷ needle))
    then false
    else contains_from first (first ∷ needle) content

unfoldable pub starts_with_case_insensitive : Unicode → PreparedDocument → Text → Bool
starts_with_case_insensitive u (small _ folded _ _) needle = starts_with folded needle
starts_with_case_insensitive u (large_fast content _ ascii) needle =
    starts_with_ignore_ascii_case content needle
starts_with_case_insensitive u (large_fast content _ unicode) needle =
    starts_with (fold_str u content) needle

unfoldable pub contains_case_insensitive : Unicode → PreparedDocument → Text → Bool
contains_case_insensitive u (small _ folded _ _) needle = contains folded needle
contains_case_insensitive u (large_fast content _ ascii) needle =
    contains_ignore_ascii_case content needle
contains_case_insensitive u (large_fast content _ unicode) needle =
    contains (fold_str u content) needle

-- `PrefixPreferenceQuery`.
pub record PrefixPreferenceQuery : Type 0 where
  pub raw_query_folded : Text
  pub stripped_query_folded : Text

unfoldable pub compute_prefix_preference_score :
    Unicode → PreparedDocument → Option PrefixPreferenceQuery → ℕ
compute_prefix_preference_score u doc none = 0
compute_prefix_preference_score u doc (some q) =
    if starts_with_case_insensitive u doc q.raw_query_folded
    then 3
    else if contains_case_insensitive u doc q.raw_query_folded
    then 2
    else if starts_with_case_insensitive u doc q.stripped_query_folded
    then 1
    else 0
