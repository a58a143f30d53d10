-- ===== src/Ranking/Alignment.antt =====
-- The choice of an alignment, of purr/src/ranking/alignment.rs.
pub mod Valid
pub mod Fits
pub mod Search
pub mod Reach
pub mod Indexed
pub mod Choice
use clipkitty.Base.{
  ℕ, zero, suc, ◌+◌, ◌-◌, ◌^◌, min, ltb, leb, ◌==◌, Bool, true, false, ◌||◌, Option, none, some,
  List, [], ◌∷◌, ◌++◌, length, any, if◌then◌else◌, u64_max,
}
use Prim.Native.Nat.{compare, Ordering, bit_or}
use clipkitty.Base.Bits.{meets}
use clipkitty.Ranking.Types.{QualityTier, QualityDetail, tier_rank}
use clipkitty.Ranking.Order.{then_with, cmp_detail}
use clipkitty.Ranking.Matches.{
  WordMatch, WordMatchState, doc_word_pos, is_matched, match_class_score, matched_weight,
  edit_distance,
}
use clipkitty.Ranking.Signals.{
  compute_alignment_quality_signals, quality_tier_of, quality_detail_of, words_matched_weight,
  sum_u16, total_query_weight,
}

pub record AlignmentScore : Type 0 where
  pub quality_tier : QualityTier
  pub words_weight : ℕ  -- words_matched_weight
  pub matched_query_mask : ℕ
  pub quality_detail : QualityDetail

-- The derived `Ord`.
unfoldable pub cmp_alignment : AlignmentScore → AlignmentScore → Ordering
cmp_alignment a b = then_with (compare (tier_rank a.quality_tier) (tier_rank b.quality_tier)) (
    then_with (compare a.words_weight b.words_weight) (
      then_with (compare a.matched_query_mask b.matched_query_mask)
        (cmp_detail a.quality_detail b.quality_detail)))

-- The fold over the words, from the index of the first; `63 - i` stops at 0.
abbrev pub query_mask_from : ℕ → ℕ → List WordMatch → ℕ
query_mask_from i mask [] = mask
query_mask_from i mask (m ∷ ms) =
    query_mask_from (suc i) (if is_matched m then bit_or mask (2 ^ (63 - i)) else mask) ms

unfoldable pub alignment_matched_query_mask : List WordMatch → ℕ
alignment_matched_query_mask = query_mask_from 0 0

unfoldable pub score_alignment : List WordMatch → ℕ → AlignmentScore
score_alignment ms total =
    let signals = compute_alignment_quality_signals ms total in
    record {
      quality_tier = quality_tier_of signals;
      words_weight = signals.matched_weight;
      matched_query_mask = alignment_matched_query_mask ms;
      quality_detail = quality_detail_of signals;
    }

-- `Vec::contains` and `HashSet::contains` on positions.
abbrev pub holds : ℕ → List ℕ → Bool
holds p = any (λ q. p == q)

-- The best alignment so far with its score.
pub record Best : Type 0 where
  pub best : List WordMatch
  pub best_score : AlignmentScore

-- The alignment replaces the best one where its score is above.
unfoldable pub replace_best : Ordering → List WordMatch → AlignmentScore → Best → Best
replace_best Ordering.gt current score b = record { best = current; best_score = score }
replace_best _ current score b = b

-- The end of the recursion, where every word of `current` is set.
unfoldable pub consider : ℕ → List WordMatch → Best → Best
consider total current b =
    let score = score_alignment current total in
    replace_best (cmp_alignment score b.best_score) current score b

-- One candidate: it is skipped where it has no position or its position is used. The position is
-- out of the set again after the recursion.
abbrev pub try_at :
    (List ℕ → List WordMatch → Best → Best)
    → List ℕ
    → List WordMatch
    → WordMatch
    → Option ℕ
    → Best
    → Best
try_at next used current m none b = b
try_at next used current m (some p) b = elim (holds p used) [
  | true ↦ b
  | false ↦ next (p ∷ used) (current ++ m ∷ []) b
]

-- The loop over the candidates of one query word; `next` is the recursion on the words that follow.
abbrev pub try_candidates :
    (List ℕ → List WordMatch → Best → Best) → List ℕ → List WordMatch → List WordMatch → Best → Best
try_candidates next used current [] b = b
try_candidates next used current (m ∷ ms) b =
    try_candidates next used current ms (try_at next used current m (doc_word_pos m) b)

-- `current` is the slice up to `qi`: what stands after it is set before it is read. Where a query
-- word has no default the source panics; the two lists have one entry for each query word.
unfoldable pub recursive_fallback :
    ℕ → List (List WordMatch) → List WordMatch → List ℕ → List WordMatch → Best → Best
recursive_fallback total [] defaults used current b = consider total (current ++ defaults) b
recursive_fallback total (_ ∷ _) [] used current b = b
recursive_fallback total (ms ∷ lists) (d ∷ defaults) used current b =
    try_candidates (recursive_fallback total lists defaults) used current ms
      (recursive_fallback total lists defaults used (current ++ d ∷ []) b)

pub record IndexedCandidate : Type 0 where
  pub position_mask : ℕ
  pub word_match : WordMatch

-- The positions of the candidates, each once.
abbrev pub add_position : List ℕ → WordMatch → List ℕ
add_position ps m = elim (doc_word_pos m) [
  | none ↦ ps
  | some p ↦ if holds p ps then ps else ps ++ p ∷ []
]

abbrev pub add_positions : List ℕ → List WordMatch → List ℕ
add_positions ps [] = ps
add_positions ps (m ∷ ms) = add_positions (add_position ps m) ms

abbrev pub unique_positions : List ℕ → List (List WordMatch) → List ℕ
unique_positions ps [] = ps
unique_positions ps (ms ∷ lists) = unique_positions (add_positions ps ms) lists

-- `Iterator::position`.
abbrev pub index_of : ℕ → List ℕ → Option ℕ
index_of p [] = none
index_of p (q ∷ qs) =
    let rest = index_of p qs in
    if q == p then some 0 else elim rest [ none ↦ none | some i ↦ some (suc i) ]

abbrev pub index_candidate : List ℕ → WordMatch → Option IndexedCandidate
index_candidate unique m = elim (doc_word_pos m) [
  | none ↦ none
  | some p ↦ elim (index_of p unique) [
    | none ↦ none
    | some i ↦ some record { position_mask = 2 ^ i; word_match = m }
  ]
]

abbrev pub index_candidates : List ℕ → List WordMatch → List IndexedCandidate
index_candidates unique [] = []
index_candidates unique (m ∷ ms) =
    let rest = index_candidates unique ms in
    elim (index_candidate unique m) [ none ↦ rest | some c ↦ c ∷ rest ]

abbrev pub index_lists : List ℕ → List (List WordMatch) → List (List IndexedCandidate)
index_lists unique [] = []
index_lists unique (ms ∷ lists) = index_candidates unique ms ∷ index_lists unique lists

unfoldable pub build_indexed_candidate_lists :
    List (List WordMatch) → Option (List (List IndexedCandidate))
build_indexed_candidate_lists lists =
    let unique = unique_positions [] lists in
    if ltb 64 (length unique) then none else some (index_lists unique lists)

abbrev pub try_masked :
    (ℕ → List WordMatch → Best → Best) → ℕ → List WordMatch → IndexedCandidate → Best → Best
try_masked next mask current c b = elim (meets mask c.position_mask) [
  | true ↦ b
  | false ↦ next (bit_or mask c.position_mask) (current ++ c.word_match ∷ []) b
]

abbrev pub try_indexed :
    (ℕ → List WordMatch → Best → Best) → ℕ → List WordMatch → List IndexedCandidate → Best → Best
try_indexed next mask current [] b = b
try_indexed next mask current (c ∷ cs) b =
    try_indexed next mask current cs (try_masked next mask current c b)

unfoldable pub recursive_indexed :
    ℕ → List (List IndexedCandidate) → List WordMatch → ℕ → List WordMatch → Best → Best
recursive_indexed total [] defaults mask current b = consider total (current ++ defaults) b
recursive_indexed total (_ ∷ _) [] mask current b = b
recursive_indexed total (cs ∷ lists) (d ∷ defaults) mask current b =
    try_indexed (recursive_indexed total lists defaults) mask current cs
      (recursive_indexed total lists defaults mask (current ++ d ∷ []) b)

-- The start of both recursions.
abbrev pub default_best : List WordMatch → Best
default_best defaults = record {
  best = defaults;
  best_score = score_alignment defaults (total_query_weight defaults);
}

unfoldable pub choose_best_alignment : List (List WordMatch) → List WordMatch → List WordMatch
choose_best_alignment lists defaults =
    let total = total_query_weight defaults in
    elim (build_indexed_candidate_lists lists) [
      | some indexed ↦ (recursive_indexed total indexed defaults 0 [] (default_best defaults)).best
      | none ↦ (recursive_fallback total lists defaults [] [] (default_best defaults)).best
    ]
