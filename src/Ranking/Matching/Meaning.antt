-- ===== src/Ranking/Matching/Meaning.antt =====
-- What the kinds of `does_word_match` of purr/src/ranking/matching.rs mean.
use clipkitty.Base.{
  ℕ, zero, suc, ◌+◌, ◌-◌, ◌≤◌, ◌<◌, leb, true, ◌&&◌, some, [], ◌∷◌, ◌++◌, length, drop, ◌≡◌, refl,
  ap, ◌∙◌, inl, inr, arith, Bool-cases, Option-cases,
}
use clipkitty.Ranking.Chars.{Text, Unicode, text_eq, starts_with}
use clipkitty.Ranking.Chars.Laws.{text_eq_sound, starts_with-append}
use clipkitty.Ranking.Matching.{
  PrefixMatch, disabled, enabled, does_word_match, prefix_match_span, classify_contained_match,
  find_from, is_subword_boundary, fuzzy_match, subsequence_match, max_edit_distance, at_start,
}
use clipkitty.Ranking.Matching.Edits.{edit_distance_bounded}
use clipkitty.Ranking.Matching.Distance.{edit_distance_bounded-le}
use clipkitty.Ranking.Matching.Kinds.{WordMatchKind, TokenMatchSpan}
use clipkitty.Ranking.Matching.Subsequences.{Subsequence, subsequence_match-Subsequence}

-- The document word has the query word at the span.
abbrev pub Spans : Text → Text → TokenMatchSpan → Type 0
Spans qw dw s =
    (before : Text) × (after : Text) × (dw ≡ before ++ (qw ++ after))
    × (length before ≡ s.start)
    × (s.len ≡ length qw)

-- A kind of match says of the query word and the document word what it should.
abbrev pub Means : Text → Text → WordMatchKind → Type 0
Means qw dw WordMatchKind.none = Unit
Means qw dw WordMatchKind.exact = dw ≡ qw
Means qw dw (WordMatchKind.prefix s) = Spans qw dw s × (s.start ≡ 0)
Means qw dw (WordMatchKind.subword_prefix s) = Spans qw dw s × (0 < s.start)
Means qw dw (WordMatchKind.infix_substring s) = Spans qw dw s × (0 < s.start)
Means qw dw (WordMatchKind.fuzzy dist) = (0 < dist) × (dist ≤ max_edit_distance (length qw))
Means qw dw (WordMatchKind.subsequence gaps) = Subsequence qw dw

drop-append :
    (n : ℕ) (s : Text)
    → n ≤ length s
    → (before : Text) × (s ≡ before ++ drop n s) × (length before ≡ n)
drop-append zero s h = ([], refl, refl)
drop-append (suc n) [] h = ground arith
drop-append (suc n) (c ∷ s) h =
    let (before, e, l) = drop-append n s (omega arith) in
    (c ∷ before, ap (λ r. c ∷ r) e, omega arith)

pub find_from-starts_with :
    (query doc : Text) (start count i : ℕ)
    → find_from query doc start count ≡ some i
    → (start ≤ i) × (i < start + count) × (starts_with (drop i doc) query ≡ true)
unfolding find_from
find_from-starts_with query doc start zero i e = ground arith
find_from-starts_with query doc start (suc count) i e =
    elim (Bool-cases (starts_with (drop start doc) query)) [
      | inl h ↦
          let same : start ≡ i = ground (arith, rw (h, find_from) at e) in
          (omega arith, omega arith, rw same at h)
      | inr h ↦
          let (a, b, c) =
            find_from-starts_with query doc (suc start) count i (rw (h, find_from) at e) in
          (omega arith, omega arith, c)
    ]

Spans-drop :
    (qw dw : Text) (i : ℕ)
    → i ≤ length dw
    → starts_with (drop i dw) qw ≡ true
    → Spans qw dw record { start = i; len = length qw }
Spans-drop qw dw i h e =
    let (before, split, l) = drop-append i dw h in
    let (after, rest) = starts_with-append (drop i dw) qw e in
    (before, after, split ∙ ap (λ r. before ++ r) rest, l, refl)

prefix_match_span-Means :
    (qw dw : Text) (p : PrefixMatch) (s : TokenMatchSpan)
    → prefix_match_span qw dw p ≡ some s
    → Means qw dw (WordMatchKind.prefix s)
unfolding prefix_match_span
prefix_match_span-Means qw dw disabled s e = ground arith
prefix_match_span-Means qw dw (enabled n) s e =
    elim (Bool-cases (leb n (length qw) && starts_with dw qw)) [
      | inl h ↦
          let same : at_start (length qw) ≡ s = ground arith in
          rw (← same) (Spans-drop qw dw 0 (omega arith) (ground arith), refl)
      | inr h ↦ ground arith
    ]

classify_contained_match-Means :
    (u : Unicode) (qw dw raw : Text) (kind : WordMatchKind)
    → classify_contained_match u qw dw raw ≡ some kind
    → Means qw dw kind
unfolding classify_contained_match
classify_contained_match-Means u qw dw raw kind e =
    elim (Option-cases (find_from qw dw 1 (length dw - length qw))) [
      | inl missing ↦ ground arith
      | inr (i, found) ↦
          let (a, b, h) = find_from-starts_with qw dw 1 (length dw - length qw) i found in
          let spans = Spans-drop qw dw i (omega arith) h in
          elim (Bool-cases (is_subword_boundary u raw i)) [
            | inl boundary ↦
                let same : WordMatchKind.subword_prefix record { start = i; len = length qw }
                    ≡ kind =
                  ground arith in
                rw (← same) (spans, omega arith)
            | inr inside ↦
                let same : WordMatchKind.infix_substring record { start = i; len = length qw }
                    ≡ kind =
                  ground arith in
                rw (← same) (spans, omega arith)
          ]
    ]

fuzzy_match-Means :
    (u : Unicode) (qw dw : Text) (dist : ℕ)
    → fuzzy_match u qw dw ≡ some dist
    → Means qw dw (WordMatchKind.fuzzy dist)
unfolding fuzzy_match
fuzzy_match-Means u qw dw dist e =
    elim (Option-cases (edit_distance_bounded u qw dw (max_edit_distance (length qw)))) [
      | inl missing ↦ ground arith
      | inr (d, found) ↦
          let bound = edit_distance_bounded-le u qw dw (max_edit_distance (length qw)) d found in
          (ground arith, ground arith)
    ]

-- What the full matcher answers holds of the two words: an exact match is equality; a prefix, a
-- subword prefix and an infix have the query word in the document word at the span given, a prefix
-- at 0 and the other two after it; a fuzzy match has a distance between 1 and the most that is
-- allowed at the query word's length; a subsequence match has the query's characters in their order.
pub does_word_match-Means :
    (u : Unicode) (qw dw raw : Text) (p : PrefixMatch) → Means qw dw (does_word_match u qw dw raw p)
unfolding does_word_match
does_word_match-Means u qw dw raw p = elim (Bool-cases (text_eq dw qw)) [
  | inl same ↦ rw (same, does_word_match) (text_eq_sound dw qw same)
  | inr other ↦ elim (Option-cases (prefix_match_span qw dw p)) [
    | inr (s, e) ↦ rw (other, e, does_word_match) (prefix_match_span-Means qw dw p s e)
    | inl a ↦ elim (Option-cases (classify_contained_match u qw dw raw)) [
      | inr (kind, e) ↦
          rw (other, a, e, does_word_match) (classify_contained_match-Means u qw dw raw kind e)
      | inl b ↦ elim (Option-cases (fuzzy_match u qw dw)) [
        | inr (dist, e) ↦ rw (other, a, b, e, does_word_match) (fuzzy_match-Means u qw dw dist e)
        | inl c ↦ elim (Option-cases (subsequence_match qw dw)) [
          | inr (gaps, e) ↦
              rw (other, a, b, c, e, does_word_match)
                ((subsequence_match-Subsequence qw dw).0 (ground arith)).4
          | inl d ↦ rw (other, a, b, c, d, does_word_match) tt
        ]
      ]
    ]
  ]
]
