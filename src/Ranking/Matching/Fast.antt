-- ===== src/Ranking/Matching/Fast.antt =====
-- The matcher for large documents, `does_word_match_fast_raw` of purr/src/ranking/matching.rs,
-- against the full one.
use clipkitty.Base.{true, ◌&&◌, some, map, ◌≡◌, refl, inl, inr, arith, Bool-cases, Option-cases}
use clipkitty.Ranking.Chars.{Text, Unicode, is_ascii, to_ascii_lowercase}
use clipkitty.Ranking.Folding.{fold_str}
use clipkitty.Ranking.Matching.{
  PrefixMatch, disabled, enabled, does_word_match, does_word_match_fast_raw, match_fast_folded,
  prefix_match_span, ascii_prefix_match_span, classify_contained_match,
}
use clipkitty.Ranking.Matching.Kinds.{WordMatchKind}

-- The kinds that the fast matcher tells apart.
abbrev pub only_fast : WordMatchKind → WordMatchKind
only_fast WordMatchKind.exact = WordMatchKind.exact
only_fast (WordMatchKind.prefix span) = WordMatchKind.prefix span
only_fast _ = WordMatchKind.none

fold_str-is_ascii :
    (u : Unicode) (s : Text) → is_ascii s ≡ true → fold_str u s ≡ map to_ascii_lowercase s
unfolding fold_str
fold_str-is_ascii u s ascii = ground arith

-- A contained match is neither exact nor a prefix.
only_fast-classify_contained_match :
    (u : Unicode) (qw dw raw : Text) (kind : WordMatchKind)
    → classify_contained_match u qw dw raw ≡ some kind
    → only_fast kind ≡ WordMatchKind.none
unfolding classify_contained_match
only_fast-classify_contained_match u qw dw raw kind e = ground arith

match_fast_folded-only_fast :
    (u : Unicode) (qw dw raw : Text) (p : PrefixMatch)
    → match_fast_folded qw dw p ≡ only_fast (does_word_match u qw dw raw p)
unfolding match_fast_folded does_word_match
match_fast_folded-only_fast u qw dw raw p =
    elim (Option-cases (classify_contained_match u qw dw raw)) [
      | inl missing ↦ ground arith
      | inr (kind, e) ↦ ground (arith, only_fast-classify_contained_match u qw dw raw kind e)
    ]

does_word_match_fast_raw-match_fast_folded :
    (u : Unicode) (qw raw : Text) (p : PrefixMatch)
    → map to_ascii_lowercase qw ≡ qw
    → (is_ascii qw && is_ascii raw) ≡ true
    → does_word_match_fast_raw u qw raw p ≡ match_fast_folded qw (fold_str u raw) p
unfolding does_word_match_fast_raw match_fast_folded prefix_match_span ascii_prefix_match_span
does_word_match_fast_raw-match_fast_folded u qw raw disabled lower ascii =
    rw (fold_str-is_ascii u raw (ground arith), ascii, lower) refl
does_word_match_fast_raw-match_fast_folded u qw raw (enabled n) lower ascii =
    rw (fold_str-is_ascii u raw (ground arith), ascii, lower) refl

-- For a query word without capitals A to Z, the matcher for large documents gives on a raw document
-- word what the full matcher gives on the folded one, where that is exact or a prefix, and no match
-- where it is anything else.
pub does_word_match_fast_raw-only_fast :
    (u : Unicode) (qw raw : Text) (p : PrefixMatch)
    → map to_ascii_lowercase qw ≡ qw
    → does_word_match_fast_raw u qw raw p ≡ only_fast (does_word_match u qw (fold_str u raw) raw p)
unfolding does_word_match_fast_raw
does_word_match_fast_raw-only_fast u qw raw p lower =
    rw (← match_fast_folded-only_fast u qw (fold_str u raw) raw p)
      (elim (Bool-cases (is_ascii qw && is_ascii raw)) [
        | inl ascii ↦ does_word_match_fast_raw-match_fast_folded u qw raw p lower ascii
        | inr other ↦ rw (other, does_word_match_fast_raw) refl
      ])
