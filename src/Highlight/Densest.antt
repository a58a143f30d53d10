-- ===== src/Highlight/Densest.antt =====
-- `find_densest_highlight` of purr/src/search.rs. Positions and lengths are natural numbers: a sum or a
-- difference that does not fit a `u64`, which aborts the program, is not told apart here, so theorems
-- that say that a highlight is found assume ranges whose windows and coverage fit.
pub mod Laws
use clipkitty.Base.{
  ℕ, suc, ◌+◌, ◌-◌, ltb, leb, Bool, true, false, Option, none, some, List, [], ◌∷◌, if◌then◌else◌,
}
use clipkitty.Base.Table.{order_by}
use clipkitty.Highlight.Types.{
  HighlightKind, exact, prefix, prefix_tail, subword_prefix, substring, fuzzy, subsequence,
  HighlightRange,
}

abbrev pub Entry : Type 0
Entry = ℕ × HighlightRange

abbrev pub is_prefix_tail : HighlightKind → Bool
is_prefix_tail prefix_tail = true
is_prefix_tail _ = false

abbrev pub earlier_cluster_coverage_tolerance : ℕ
earlier_cluster_coverage_tolerance = 2

abbrev pub earlier_cluster_match_score_tolerance : ℕ
earlier_cluster_match_score_tolerance = 1

unfoldable pub highlight_match_score : HighlightKind → ℕ
highlight_match_score exact = 6
highlight_match_score prefix = 5
highlight_match_score prefix_tail = 0
highlight_match_score subword_prefix = 4
highlight_match_score substring = 3
highlight_match_score fuzzy = 2
highlight_match_score subsequence = 1

unfoldable pub cluster_beats_best : ℕ → ℕ → ℕ → ℕ → ℕ → ℕ → Bool
cluster_beats_best coverage anchor_score start best_coverage best_anchor_score best_start =
    if ltb (best_coverage + earlier_cluster_coverage_tolerance) coverage
    then true
    else if ltb (coverage + earlier_cluster_coverage_tolerance) best_coverage
    then false
    else if ltb (best_anchor_score + earlier_cluster_match_score_tolerance) anchor_score
    then true
    else if ltb (anchor_score + earlier_cluster_match_score_tolerance) best_anchor_score
    then false
    else ltb start best_start

-- The highlights that are no tail of a prefix, with their indices.
abbrev pub indexed_from : ℕ → List HighlightRange → List Entry
indexed_from index [] = []
indexed_from index (h ∷ hs) =
    let rest = indexed_from (suc index) hs in
    if is_prefix_tail h.kind then rest else (index, h) ∷ rest

-- `sort_by_key`.
abbrev pub by_start : List Entry → List Entry
by_start = order_by (λ a b. leb a.1.start b.1.start)

abbrev pub len_of : HighlightRange → ℕ
len_of h = h.end - h.start

-- The `while` loop. The entries from `left` on are a list, whose end is an index out of range.
unfoldable pub shrink : ℕ → ℕ → ℕ → List Entry → ℕ × List Entry
shrink window_size right_start coverage [] = (coverage, [])
shrink window_size right_start coverage (l ∷ ls) =
    let shrunk = shrink window_size right_start (coverage - len_of l.1) ls in
    if leb (l.1.start + window_size) right_start then shrunk else (coverage, l ∷ ls)

pub record Best : Type 0 where
  pub coverage : ℕ
  pub anchor_score : ℕ
  pub entry : Entry

unfoldable pub consider : ℕ → Entry → Best → Best
consider coverage left best =
    if cluster_beats_best coverage (highlight_match_score left.1.kind) left.1.start best.coverage
      best.anchor_score best.entry.1.start
    then record {
      coverage = coverage;
      anchor_score = highlight_match_score left.1.kind;
      entry = left;
    }
    else best

-- The rest of a round, with the coverage and the entries that `shrink` leaves. `none` is an index out
-- of range.
unfoldable pub slide_step : Entry → Best → ℕ × List Entry → Option (ℕ × List Entry × Best)
slide_step right best (coverage, []) = none
slide_step right best (coverage, left ∷ more) =
    let covered : ℕ = coverage + len_of right.1 in
    some (covered, left ∷ more, consider covered left best)

-- The `for` loop over `right`.
unfoldable pub slide : ℕ → List Entry → ℕ → List Entry → Best → Option ℕ
slide window_size [] coverage from_left best = some best.entry.0
slide window_size (right ∷ rights) coverage from_left best =
    elim (slide_step right best (shrink window_size right.1.start coverage from_left)) [
      | none ↦ none
      | some (covered, left, best') ↦ slide window_size rights covered left best'
    ]

unfoldable pub slide_over : ℕ → List Entry → Option ℕ
slide_over window_size [] = none
slide_over window_size (e ∷ es) =
    slide window_size (e ∷ es) 0 (e ∷ es) (record { coverage = 0; anchor_score = 0; entry = e })

unfoldable pub densest_of : ℕ → List Entry → Option ℕ
densest_of window_size [] = some 0
densest_of window_size (e ∷ []) = some e.0
densest_of window_size (e ∷ f ∷ es) = slide_over window_size (by_start (e ∷ f ∷ es))

unfoldable pub find_densest_highlight : List HighlightRange → ℕ → Option ℕ
find_densest_highlight [] window_size = none
find_densest_highlight (h ∷ hs) window_size = densest_of window_size (indexed_from 0 (h ∷ hs))
