-- ===== src/Search/Tail.antt =====
-- The evidence of the words in a candidate of the tail, of purr/src/search_admission.rs.
pub mod Budget
use clipkitty.Base.{
  ℕ, zero, suc, ◌+◌, ◌-◌, ◌*◌, min, ltb, leb, ◌==◌, Bool, true, false, ◌&&◌, ◌||◌, not, Option,
  none, some, List, [], ◌∷◌, length, map, is_empty, u64_max, if◌then◌else◌,
}
use clipkitty.Ranking.Chars.{
  Text, Unicode, is_alphanumeric, is_ascii, to_ascii_lowercase, byte_len, starts_with,
}
use clipkitty.Ranking.Folding.{fold_str}
use clipkitty.Ranking.Matches.{is_word_token}
use clipkitty.Ranking.Matching.{
  PrefixMatch, disabled, enabled, prefix_match_for_query_word, non_final_prefix_min_query_chars,
  does_word_match, char_at,
}
use clipkitty.Ranking.Matching.Kinds.{WordMatchKind}
use clipkitty.Ranking.Tokens.{tokenize_words, is_ascii_alphanumeric}
use clipkitty.Base.{take}
use clipkitty.Ranking.Document.{large_doc_threshold_bytes}

abbrev pub max_weak_signal_words : ℕ
max_weak_signal_words = 9

abbrev pub pass_two_cost_multiplier : ℕ
pass_two_cost_multiplier = 8

abbrev pub per_candidate_cost_units : ℕ
per_candidate_cost_units = 512

-- The units that are left; a charge that is too large fails and takes nothing.
unfoldable pub try_charge : ℕ → ℕ → Option ℕ
try_charge units left = if ltb left units then none else some (left - units)

pub data TailEvidence : Type 0 where
  verified : TailEvidence
  no_evidence : TailEvidence
  budget_exhausted : TailEvidence

pub record TailVerifyWord : Type 0 where
  pub word_folded : Text
  pub char_count : ℕ
  pub prefix_match : PrefixMatch

abbrev pub allows_inner_hit : TailVerifyWord → Bool
allows_inner_hit w = leb non_final_prefix_min_query_chars w.char_count

abbrev pub allows_prefix_hit : TailVerifyWord → Bool
allows_prefix_hit w = elim w.prefix_match [
  | disabled ↦ false
  | enabled least ↦ leb least w.char_count
]

-- `filter_map` over the words from an index.
abbrev pub verify_words_from : Unicode → ℕ → Bool → ℕ → ℕ → List Text → List TailVerifyWord
verify_words_from u count last_word_is_prefix least index [] = []
verify_words_from u count last_word_is_prefix least index (word ∷ words) =
    let rest = verify_words_from u count last_word_is_prefix least (suc index) words in
    if leb least (length word)
    then record {
      word_folded = fold_str u word;
      char_count = length word;
      prefix_match = prefix_match_for_query_word count index last_word_is_prefix;
    }
      ∷ rest
    else rest

-- `TailVerifyQuery::new`.
unfoldable pub new_verify_query : Unicode → List Text → Bool → ℕ → List TailVerifyWord
new_verify_query u words last_word_is_prefix least =
    take max_weak_signal_words
      (verify_words_from u (length words) last_word_is_prefix least 0 words)

unfoldable pub hit_accepted : TailVerifyWord → Bool → Bool → Bool → Bool
hit_accepted word at_token_start at_token_end token_start_required =
    if token_start_required && not at_token_start
    then false
    else if allows_inner_hit word && not token_start_required
    then true
    else at_token_start && (at_token_end || allows_prefix_hit word)

abbrev pub byte_is_alphanumeric : ℕ → Bool
byte_is_alphanumeric b = is_ascii_alphanumeric b || leb 128 b

-- No character, or one that is not of a word.
abbrev pub is_edge : (ℕ → Bool) → Option ℕ → Bool
is_edge is_word none = true
is_edge is_word (some c) = not (is_word c)

-- The loop over the starts, after the character before.
abbrev pub ascii_evidence_from : TailVerifyWord → Bool → Option ℕ → Text → Bool
ascii_evidence_from word required before [] = false
ascii_evidence_from word required before (c ∷ s) =
    let later = ascii_evidence_from word required (some c) s in
    let start = is_edge byte_is_alphanumeric before in
    let end = is_edge byte_is_alphanumeric (char_at (length word.word_folded) (c ∷ s)) in
    (starts_with (map to_ascii_lowercase (c ∷ s)) (map to_ascii_lowercase word.word_folded)
      && hit_accepted word start end required)
    || later

unfoldable pub ascii_substring_evidence : Text → TailVerifyWord → Bool → Bool
ascii_substring_evidence haystack word required =
    if is_empty word.word_folded then false else ascii_evidence_from word required none haystack

-- `match_indices` skips the characters of a match, which `skip` counts; a word is not empty.
abbrev pub folded_evidence_from : Unicode → TailVerifyWord → Bool → Option ℕ → ℕ → Text → Bool
folded_evidence_from u word required before skip [] = false
folded_evidence_from u word required before (suc skip) (c ∷ s) =
    folded_evidence_from u word required (some c) skip s
folded_evidence_from u word required before zero (c ∷ s) =
    let start = is_edge (is_alphanumeric u) before in
    let end = is_edge (is_alphanumeric u) (char_at (length word.word_folded) (c ∷ s)) in
    elim (starts_with (c ∷ s) word.word_folded) [
      | true ↦
          hit_accepted word start end required
          || folded_evidence_from u word required (some c) (length word.word_folded - 1) s
      | false ↦ folded_evidence_from u word required (some c) zero s
    ]

unfoldable pub folded_substring_evidence : Unicode → Text → TailVerifyWord → Bool → Bool
folded_substring_evidence u content word required =
    folded_evidence_from u word required none zero content

unfoldable pub pass_one_hit : Unicode → Text → TailVerifyWord → Bool → Bool
pass_one_hit u content word required =
    if is_ascii content
    then ascii_substring_evidence content word required
    else folded_substring_evidence u (fold_str u content) word required

-- A word of the query with its entry of `matched`.
abbrev pub Flagged : Type 0
Flagged = TailVerifyWord × Bool

-- A pass ends with evidence, or with the flags, the count and the budget.
pub data Pass : Type 0 where
  ended : TailEvidence → ℕ → Pass
  passed : List Flagged → ℕ → ℕ → Pass  -- matched, matched_count, units left

abbrev pub with_flag : Flagged → Pass → Pass
with_flag f (ended e left) = ended e left
with_flag f (passed fs count left) = passed (f ∷ fs) count left

-- The loop of the first pass.
unfoldable pub pass_one : Unicode → Text → Bool → ℕ → ℕ → List TailVerifyWord → ℕ → Pass
pass_one u content required least count [] left = passed [] count left
pass_one u content required least count (w ∷ ws) left = elim (try_charge (byte_len content) left) [
  | none ↦ ended budget_exhausted left
  | some left' ↦ elim (pass_one_hit u content w required) [
    | true ↦ elim (leb least (count + 1)) [
      | true ↦ ended verified left'
      | false ↦ with_flag (w, true) (pass_one u content required least (count + 1) ws left')
    ]
    | false ↦ with_flag (w, false) (pass_one u content required least count ws left')
  ]
]

abbrev pub is_match : WordMatchKind → Bool
is_match kind = elim kind [ WordMatchKind.none ↦ false | _ ↦ true ]

-- The loop of the second pass over the words, on one token. The units left do not change.
unfoldable pub pass_two_words : Unicode → Text → ℕ → ℕ → List Flagged → ℕ → Pass
pass_two_words u token least count [] left = passed [] count left
pass_two_words u token least count ((w, true) ∷ fs) left =
    with_flag (w, true) (pass_two_words u token least count fs left)
pass_two_words u token least count ((w, false) ∷ fs) left =
    elim (is_match (does_word_match u w.word_folded (fold_str u token) token w.prefix_match)) [
      | true ↦ elim (leb least (count + 1)) [
        | true ↦ ended verified left
        | false ↦ with_flag (w, true) (pass_two_words u token least (count + 1) fs left)
      ]
      | false ↦ with_flag (w, false) (pass_two_words u token least count fs left)
    ]

-- The loop over the tokens.
unfoldable pub pass_two : Unicode → ℕ → List Text → ℕ → List Flagged → ℕ → TailEvidence × ℕ
pass_two u least [] count fs left = (no_evidence, left)
pass_two u least (token ∷ tokens) count fs left = elim (is_word_token u token) [
  | false ↦ pass_two u least tokens count fs left
  | true ↦ elim (pass_two_words u token least count fs left) [
    | ended e left' ↦ (e, left')
    | passed fs' count' left' ↦ pass_two u least tokens count' fs' left'
  ]
]

-- `saturating_mul` on a `usize`.
abbrev pub saturating_mul : ℕ → ℕ → ℕ
saturating_mul a b = min (a * b) u64_max

-- What follows the first pass.
unfoldable pub after_pass_one :
    Unicode → Text → Bool → ℕ → List TailVerifyWord → Pass → TailEvidence × ℕ
after_pass_one u content required least words (ended e left) = (e, left)
after_pass_one u content required least words (passed fs count left) =
    if required
    then (no_evidence, left)
    else elim (try_charge
        (saturating_mul (saturating_mul (byte_len content) pass_two_cost_multiplier)
          (length words - count))
        left) [
          | none ↦ (budget_exhausted, left)
          | some left' ↦ pass_two u least (tokenize_words u content) count fs left'
        ]

-- The result, and the units that are left of the budget.
unfoldable pub verify_tail_word_evidence :
    Unicode → Text → List TailVerifyWord → ℕ → ℕ → TailEvidence × ℕ
verify_tail_word_evidence u content words least left =
    let required = ltb large_doc_threshold_bytes (byte_len content) in
    if least == 0
    then (verified, left)
    else if is_empty words
    then (no_evidence, left)
    else elim (try_charge per_candidate_cost_units left) [
      | none ↦ (budget_exhausted, left)
      | some left' ↦
          after_pass_one u content required least words
            (pass_one u content required least 0 words left')
    ]
