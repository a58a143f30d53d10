-- ===== src/Highlight/Excerpt.antt =====
-- The excerpts of purr/src/search.rs: the window around a match, and its whitespace.
pub mod Breaks
pub mod Whitespace
pub mod Tidy
use clipkitty.Base.{
  ℕ, zero, suc, ◌+◌, ◌-◌, ◌*◌, ◌/◌, min, ltb, leb, ◌==◌, Bool, true, false, ◌&&◌, ◌||◌, Option,
  none, some, List, [], ◌∷◌, ◌++◌, length, take, drop, keep, any, is_empty, last?, get_elem?,
  indices_where, filter_map, if◌then◌else◌,
}
use clipkitty.Ranking.Chars.{Text, Unicode, byte_len}
use clipkitty.Highlight.Types.{
  HighlightRange, MatchedExcerpt, ListPresentationProfile, compact_row, card,
}
use clipkitty.Highlight.Utf16.{scalar_highlights_to_utf16}
use clipkitty.Highlight.Densest.{find_densest_highlight}

abbrev pub snippet_context_chars : ℕ
snippet_context_chars = 200

abbrev pub card_max_leading_line_breaks : ℕ
card_max_leading_line_breaks = 1

abbrev pub card_leading_context_chars : ℕ
card_leading_context_chars = 36

pub data WhitespaceMode : Type 0 where
  collapse_all : WhitespaceMode
  preserve_line_breaks : WhitespaceMode

pub record ExcerptPolicy : Type 0 where
  pub whitespace_mode : WhitespaceMode
  pub max_chars : ℕ
  pub context_chars : ℕ
  pub leading_context_chars : ℕ
  pub max_leading_line_breaks : Option ℕ

unfoldable pub for_profile : ListPresentationProfile → ExcerptPolicy
for_profile compact_row = record {
  whitespace_mode = collapse_all;
  max_chars = snippet_context_chars * 2;
  context_chars = snippet_context_chars;
  leading_context_chars = snippet_context_chars;
  max_leading_line_breaks = none;
}
for_profile card = record {
  whitespace_mode = preserve_line_breaks;
  max_chars = snippet_context_chars * 4;
  context_chars = snippet_context_chars * 2;
  leading_context_chars = card_leading_context_chars;
  max_leading_line_breaks = some card_max_leading_line_breaks;
}

-- The variables of the loop that normalizes.
pub record Normalizing : Type 0 where
  pub last_was_space : Bool
  pub consecutive_newlines : ℕ
  pub norm_idx : ℕ

abbrev pub initial : Normalizing
initial = record { last_was_space = false; consecutive_newlines = 0; norm_idx = 0 }

-- A character is written unless it is a space after a space.
unfoldable pub write_char : ℕ → Normalizing → Text × Normalizing
write_char c n =
    if c == 32 && n.last_was_space
    then ([], n)
    else (c ∷ [], record n { last_was_space = c == 32; norm_idx = n.norm_idx + 1 })

-- A round below the limit: line feed, carriage return and tab are 10, 13 and 9.
unfoldable pub normalize_char : WhitespaceMode → ℕ → Normalizing → Text × Normalizing
unfolding write_char
normalize_char collapse_all c n = write_char (if c == 10 || c == 9 || c == 13 then 32 else c) n
normalize_char preserve_line_breaks c n =
    if c == 10
    then (let newlines : ℕ = suc n.consecutive_newlines in
        if leb newlines 2
        then (
          10 ∷ [],
          record {
            last_was_space = false;
            consecutive_newlines = newlines;
            norm_idx = n.norm_idx + 1;
          },
        )
        else (
          [],
          record { last_was_space = false; consecutive_newlines = newlines; norm_idx = n.norm_idx },
        ))
    else if c == 13
    then ([], n)
    else write_char (if c == 9 then 32 else c) (record n { consecutive_newlines = 0 })

-- The loop, with the text and the positions that it appends.
unfoldable pub normalize_from : WhitespaceMode → ℕ → Text → Normalizing → Text × List ℕ
unfolding normalize_char
normalize_from mode max_chars [] n = ([], n.norm_idx ∷ [])
normalize_from mode max_chars (c ∷ s) n =
    let (written, next) = if leb max_chars n.norm_idx then ([], n) else normalize_char mode c n in
    let (text, positions) = normalize_from mode max_chars s next in
    (written ++ text, n.norm_idx ∷ positions)

-- The loop that pops spaces and line feeds from the end.
unfoldable pub trim_trailing : Text → Text
trim_trailing [] = []
trim_trailing (c ∷ s) =
    let rest = trim_trailing s in if is_empty rest && (c == 32 || c == 10) then [] else c ∷ rest

unfoldable pub normalize_snippet_with_mapping_ws : Text → ℕ → ℕ → ℕ → WhitespaceMode → Text × List ℕ
unfolding normalize_from trim_trailing
normalize_snippet_with_mapping_ws content start end max_chars mode =
    if leb end start
    then ([], 0 ∷ [])
    else (let (text, positions) =
          normalize_from mode max_chars (take (end - start) (drop start content)) initial in
        (trim_trailing text, positions))

-- The `while` loop that skips line feeds. The rounds left are those to the start of the match;
-- `binary_search` finds a position in the ascending list where it stands there.
unfoldable pub skip_breaks : ℕ → List ℕ → ℕ → ℕ
skip_breaks zero break_positions start = start
skip_breaks (suc rounds) break_positions start =
    let further = skip_breaks rounds break_positions (suc start) in
    if any (λ b. b == start) break_positions then further else start

abbrev pub break_positions_of : Text → ℕ → ℕ → List ℕ
break_positions_of content window_start match_start =
    indices_where (λ c. c == 10) window_start
      (take (match_start - window_start) (drop window_start content))

-- The index is within the list where the test says that there are more.
unfoldable pub after_breaks : List ℕ → ℕ → ℕ → ℕ
after_breaks break_positions window_start max_line_breaks =
    if ltb max_line_breaks (length break_positions)
    then elim (get_elem? break_positions (length break_positions - 1 - max_line_breaks)) [
      | none ↦ window_start
      | some position ↦ position + 1
    ]
    else window_start

unfoldable pub clamp_leading_line_breaks : Text → ℕ → ℕ → ℕ → ℕ
unfolding skip_breaks after_breaks
clamp_leading_line_breaks content window_start match_start max_line_breaks =
    let break_positions : List ℕ = break_positions_of content window_start match_start in
    let start : ℕ = after_breaks break_positions window_start max_line_breaks in
    skip_breaks (match_start - start) break_positions start
