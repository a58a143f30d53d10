-- ===== src/Highlight/Utf16.antt =====
-- The offsets of UTF-16 in purr/src/search.rs, in which the applications count.
use clipkitty.Base.{
  ℕ, zero, suc, ◌+◌, ltb, leb, Bool, ◌&&◌, Option, none, some, List, [], ◌∷◌, map, length, take,
  keep, get_elem?, filter_map, filter_map-map-keep, ◌≡◌, arith, if◌then◌else◌,
}
use clipkitty.Ranking.Chars.{Text}
use clipkitty.Highlight.Types.{HighlightRange, Utf16HighlightRange}

-- `char::len_utf16`.
unfoldable pub len_utf16 : ℕ → ℕ
len_utf16 c = if ltb c 65536 then 1 else 2

unfoldable pub offsets_from : ℕ → Text → List ℕ
offsets_from utf16_pos [] = utf16_pos ∷ []
offsets_from utf16_pos (c ∷ s) = utf16_pos ∷ offsets_from (utf16_pos + len_utf16 c) s

unfoldable pub utf16_offset_table : Text → List ℕ
unfolding offsets_from
utf16_offset_table text = offsets_from 0 text

-- The closure over one highlight: `?` leaves it where an end is not in the table. A `usize` has the
-- 64 bits of a `u64`.
unfoldable pub to_utf16 : List ℕ → HighlightRange → Option Utf16HighlightRange
to_utf16 offsets h = elim (get_elem? offsets h.start) [
  | none ↦ none
  | some utf16_start ↦ elim (get_elem? offsets h.end) [
    | none ↦ none
    | some utf16_end ↦
        some (record { utf16_start = utf16_start; utf16_end = utf16_end; kind = h.kind })
  ]
]

unfoldable pub scalar_highlights_to_utf16 : Text → List HighlightRange → List Utf16HighlightRange
unfolding utf16_offset_table to_utf16
scalar_highlights_to_utf16 text highlights =
    filter_map (to_utf16 (utf16_offset_table text)) highlights

-- The length of a text in UTF-16 code units.
abbrev pub utf16_len : Text → ℕ
utf16_len [] = 0
utf16_len (c ∷ s) = len_utf16 c + utf16_len s

-- The table has at `i` the length of the first `i` characters, and nothing past the end.
get_elem?-offsets_from :
    (pos : ℕ) (s : Text) (i : ℕ)
    → get_elem? (offsets_from pos s) i
      ≡ (if leb i (length s) then some (pos + utf16_len (take i s)) else none)
unfolding offsets_from
get_elem?-offsets_from pos [] zero = ground arith
get_elem?-offsets_from pos [] (suc i) = ground arith
get_elem?-offsets_from pos (c ∷ s) zero = ground arith
get_elem?-offsets_from pos (c ∷ s) (suc i) =
    ground (arith, get_elem?-offsets_from (pos + len_utf16 c) s i)

-- A highlight with both ends within the text.
abbrev pub is_within : Text → HighlightRange → Bool
is_within text h = leb h.start (length text) && leb h.end (length text)

abbrev pub in_utf16 : Text → HighlightRange → Utf16HighlightRange
in_utf16 text h = record {
  utf16_start = utf16_len (take h.start text);
  utf16_end = utf16_len (take h.end text);
  kind = h.kind;
}

to_utf16-in_utf16 :
    (text : Text) (h : HighlightRange)
    → to_utf16 (utf16_offset_table text) h
      ≡ (if is_within text h then some (in_utf16 text h) else none)
unfolding to_utf16 utf16_offset_table
to_utf16-in_utf16 text h =
    ground (arith, get_elem?-offsets_from 0 text h.start, get_elem?-offsets_from 0 text h.end)

-- The ranges shown are those highlights that lie within the text, in their order, each from the
-- length in UTF-16 of what stands before it to that of what stands before its end.
pub scalar_highlights_to_utf16-in_utf16 :
    (text : Text) (highlights : List HighlightRange)
    → scalar_highlights_to_utf16 text highlights
      ≡ map (in_utf16 text) (keep (is_within text) highlights)
unfolding scalar_highlights_to_utf16
scalar_highlights_to_utf16-in_utf16 text highlights =
    filter_map-map-keep _ (is_within text) (in_utf16 text) (to_utf16-in_utf16 text) highlights
