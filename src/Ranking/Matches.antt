-- ===== src/Ranking/Matches.antt =====
-- The match of a query word, `WordMatch` of purr/src/ranking.rs, and its weights.
use clipkitty.Base.{
  ℕ, ◌+◌, ◌-◌, ◌*◌, ◌/◌, ◌%◌, ◌^◌, max, min, leb, ◌==◌, Bool, true, false, Option, none, some, [],
  ◌∷◌, length, if◌then◌else◌,
}
use clipkitty.Ranking.Chars.{Text, Unicode, is_alphanumeric, byte_len}

pub data TypoClass : Type 0 where
  common_transposition : TypoClass
  repeated_char_edit : TypoClass
  insertion_or_deletion : TypoClass
  substitution : TypoClass
  multi_edit : TypoClass
  subsequence : TypoClass

pub data WordMatchState : Type 0 where
  unmatched : WordMatchState
  exact : ℕ → WordMatchState  -- doc_word_pos, as are the first fields of the others
  prefix : ℕ → WordMatchState
  subword_prefix : ℕ → WordMatchState
  infix_substring : ℕ → WordMatchState
  fuzzy : ℕ → ℕ → TypoClass → WordMatchState  -- edit_dist, typo_class
  subsequence : ℕ → ℕ → WordMatchState  -- gaps

pub record WordMatch : Type 0 where
  pub query_weight : ℕ
  pub query_char_len : ℕ
  pub state : WordMatchState

-- `is_word_token` of purr/src/search.rs.
unfoldable pub is_word_token : Unicode → Text → Bool
is_word_token u [] = false
is_word_token u (c ∷ _) = is_alphanumeric u c

abbrev pub u16_max : ℕ
u16_max = 2 ^ 16 - 1

-- `as u16`, then `saturating_mul`.
unfoldable pub base_match_weight : Unicode → Text → ℕ
base_match_weight u word =
    let n = byte_len word % 2 ^ 16 in if is_word_token u word then min (n * n) u16_max else 0

-- The seven constructor functions of `WordMatch`, which differ in the state.
unfoldable pub word_match : Unicode → Text → WordMatchState → WordMatch
word_match u word state = record {
  query_weight = base_match_weight u word;
  query_char_len = length word;
  state = state;
}

abbrev pub position_of : WordMatchState → Option ℕ
position_of WordMatchState.unmatched = none
position_of (WordMatchState.exact p) = some p
position_of (WordMatchState.prefix p) = some p
position_of (WordMatchState.subword_prefix p) = some p
position_of (WordMatchState.infix_substring p) = some p
position_of (WordMatchState.fuzzy p _ _) = some p
position_of (WordMatchState.subsequence p _) = some p

abbrev pub doc_word_pos : WordMatch → Option ℕ
doc_word_pos m = position_of m.state

-- `saturating_add` on a `u8`.
unfoldable pub saturating_add_u8 : ℕ → ℕ → ℕ
saturating_add_u8 a b = min (a + b) 255

unfoldable pub edit_distance : WordMatch → ℕ
edit_distance m = elim m.state [
  | WordMatchState.fuzzy _ dist _ ↦ dist
  | WordMatchState.subsequence _ gaps ↦ saturating_add_u8 gaps 1
  | _ ↦ 0
]

abbrev pub is_matched : WordMatch → Bool
is_matched m = elim m.state [ WordMatchState.unmatched ↦ false | _ ↦ true ]

abbrev pub is_exact : WordMatch → Bool
is_exact m = elim m.state [ WordMatchState.exact _ ↦ true | _ ↦ false ]

abbrev pub typo_class_score : TypoClass → ℕ
typo_class_score common_transposition = 208
typo_class_score repeated_char_edit = 192
typo_class_score insertion_or_deletion = 160
typo_class_score substitution = 144
typo_class_score multi_edit = 120
typo_class_score TypoClass.subsequence = 96

abbrev pub match_class_score : WordMatchState → ℕ
match_class_score WordMatchState.unmatched = 0
match_class_score (WordMatchState.exact _) = 255
match_class_score (WordMatchState.prefix _) = 240
match_class_score (WordMatchState.subword_prefix _) = 224
match_class_score (WordMatchState.infix_substring _) = 176
match_class_score (WordMatchState.fuzzy _ _ typo) = typo_class_score typo
match_class_score (WordMatchState.subsequence _ _) = typo_class_score TypoClass.subsequence

abbrev pub match_weight_scale : ℕ
match_weight_scale = 256

-- The multipliers for a query word of three characters.
abbrev pub short_multiplier : TypoClass → ℕ
short_multiplier common_transposition = 96
short_multiplier repeated_char_edit = 80
short_multiplier insertion_or_deletion = 64
short_multiplier substitution = 48
short_multiplier multi_edit = 32
short_multiplier TypoClass.subsequence = 32

abbrev pub long_multiplier : TypoClass → ℕ
long_multiplier common_transposition = 160
long_multiplier repeated_char_edit = 144
long_multiplier insertion_or_deletion = 128
long_multiplier substitution = 112
long_multiplier multi_edit = 96
long_multiplier TypoClass.subsequence = 96

abbrev pub typo_weight_multiplier : TypoClass → ℕ → ℕ
typo_weight_multiplier typo len = if len == 3 then short_multiplier typo else long_multiplier typo

abbrev pub weight_multiplier : WordMatchState → ℕ → ℕ
weight_multiplier (WordMatchState.subword_prefix _) len = 176
weight_multiplier (WordMatchState.infix_substring _) len = 112
weight_multiplier (WordMatchState.subsequence _ _) len =
    if leb len 4 then 48 else typo_weight_multiplier TypoClass.subsequence len
weight_multiplier _ len = match_weight_scale

unfoldable pub scaled_match_weight : ℕ → ℕ → ℕ
scaled_match_weight weight multiplier =
    if weight == 0
    then 0
    else max ((weight * multiplier + match_weight_scale / 2) / match_weight_scale) 1 % 2 ^ 16

unfoldable pub matched_weight : WordMatch → ℕ
matched_weight m = elim m.state [
  | WordMatchState.unmatched ↦ 0
  | WordMatchState.exact _ ↦ m.query_weight
  | WordMatchState.prefix _ ↦ m.query_weight
  | WordMatchState.fuzzy _ _ typo ↦
      scaled_match_weight m.query_weight (typo_weight_multiplier typo m.query_char_len)
  | state ↦ scaled_match_weight m.query_weight (weight_multiplier state m.query_char_len)
]
