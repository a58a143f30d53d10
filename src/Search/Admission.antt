-- ===== src/Search/Admission.antt =====
-- Search candidates of purr/src/candidate.rs and their admission to the second phase, of
-- purr/src/search_admission.rs.
pub mod Head
use clipkitty.Base.{
  take, ℕ, zero, suc, ◌+◌, ◌-◌, ◌*◌, ltb, leb, ◌==◌, Bool, true, false, ◌&&◌, not, ℤ, Option, none,
  some, String, List, [], ◌∷◌, ◌++◌, length, if◌then◌else◌,
}
use Prim.Native.Nat.{compare, Ordering}
use clipkitty.Ranking.Order.{then_with}
use clipkitty.Ranking.Chars.{Text}
use clipkitty.Ranking.Candidates.{not_greater}

abbrev pub chunk_parent_threshold_bytes : ℕ
chunk_parent_threshold_bytes = 128 * 1024

pub record PhaseOneBlendedScore : Type 0 where
  pub literal_sequence_match : Bool
  pub word_match_count : ℕ
  pub weak_word_match_count : ℕ
  pub proximity_tier : ℕ
  pub evidence_density_score : ℕ
  pub recency_score : ℕ
  pub bm25_remainder : ℕ

abbrev pub bool_rank : Bool → ℕ
bool_rank false = 0
bool_rank true = 1

-- The derived `Ord`.
unfoldable pub cmp_phase_one : PhaseOneBlendedScore → PhaseOneBlendedScore → Ordering
cmp_phase_one a b =
    then_with (compare (bool_rank a.literal_sequence_match) (bool_rank b.literal_sequence_match)) (
      then_with (compare a.word_match_count b.word_match_count) (
        then_with (compare a.weak_word_match_count b.weak_word_match_count) (
          then_with (compare a.proximity_tier b.proximity_tier) (
            then_with (compare a.evidence_density_score b.evidence_density_score) (
              then_with (compare a.recency_score b.recency_score)
                (compare a.bm25_remainder b.bm25_remainder))))))

pub data SearchMatchContext : Type 0 where
  whole_item : Text → ℕ → SearchMatchContext  -- content, parent_len
  chunk : Text → ℕ → ℕ → ℕ → ℕ → SearchMatchContext  -- then chunk_index, chunk_start, chunk_end

abbrev pub content_of : SearchMatchContext → Text
content_of (whole_item content _) = content
content_of (chunk content _ _ _ _) = content

abbrev pub parent_len_of : SearchMatchContext → ℕ
parent_len_of (whole_item _ len) = len
parent_len_of (chunk _ len _ _ _) = len

abbrev pub chunk_range : SearchMatchContext → Option (ℕ × ℕ)
chunk_range (whole_item _ _) = none
chunk_range (chunk _ _ _ start end) = some (start, end)

abbrev pub chunk_index : SearchMatchContext → Option ℕ
chunk_index (whole_item _ _) = none
chunk_index (chunk _ _ index _ _) = some index

pub data ScoringPhase : Type 0 where
  phase_two_scored : ScoringPhase
  phase_one_only : ScoringPhase

pub record SearchCandidate : Type 0 where
  pub id : String
  pub timestamp : ℤ
  pub phase_one_score : PhaseOneBlendedScore
  pub match_context : SearchMatchContext
  pub scoring_phase : ScoringPhase

-- `SearchCandidate::new`.
unfoldable pub new_candidate :
    String → ℤ → PhaseOneBlendedScore → SearchMatchContext → SearchCandidate
new_candidate id timestamp score context = record {
  id = id;
  timestamp = timestamp;
  phase_one_score = score;
  match_context = context;
  scoring_phase = phase_one_only;
}

unfoldable pub set_scoring_phase : ScoringPhase → SearchCandidate → SearchCandidate
set_scoring_phase phase c = record c { scoring_phase = phase }

abbrev pub regular_head_limit : ℕ
regular_head_limit = 64

abbrev pub large_head_limit : ℕ
large_head_limit = 8

abbrev pub total_head_limit : ℕ
total_head_limit = regular_head_limit + large_head_limit

abbrev pub is_large_parent : ℕ → Bool
is_large_parent parent_len = ltb chunk_parent_threshold_bytes parent_len

abbrev pub is_large : SearchCandidate → Bool
is_large c = is_large_parent (parent_len_of c.match_context)

-- The indices of the candidates that are large or that are not, with the candidates.
abbrev pub indexed_where : Bool → ℕ → List SearchCandidate → List (ℕ × SearchCandidate)
indexed_where large index [] = []
indexed_where large index (c ∷ cs) =
    let rest = indexed_where large (suc index) cs in
    elim (is_large c) [
      | true ↦ if large then (index, c) ∷ rest else rest
      | false ↦ if large then rest else (index, c) ∷ rest
    ]

abbrev pub nth : ℕ → List (ℕ × SearchCandidate) → Option (ℕ × SearchCandidate)
nth n [] = none
nth zero (x ∷ xs) = some x
nth (suc n) (x ∷ xs) = nth n xs

unfoldable pub regular_threshold : List SearchCandidate → Option PhaseOneBlendedScore
regular_threshold cs = elim (nth (regular_head_limit - 1) (indexed_where false 0 cs)) [
  | none ↦ none
  | some (_, c) ↦ some c.phase_one_score
]

-- Scores below the threshold without evidence of a word.
unfoldable pub is_past_evidence : PhaseOneBlendedScore → PhaseOneBlendedScore → Bool
is_past_evidence threshold s =
    elim (cmp_phase_one s threshold) [ Ordering.lt ↦ true | _ ↦ false ]
    && s.word_match_count == 0
    && s.weak_word_match_count == 0
    && not s.literal_sequence_match

unfoldable pub should_stop_recall : List SearchCandidate → Option PhaseOneBlendedScore → Bool
should_stop_recall cs last_score =
    if ltb (length cs) total_head_limit then false else elim (regular_threshold cs) [
      | none ↦ false
      | some threshold ↦ elim last_score [ none ↦ false | some s ↦ is_past_evidence threshold s ]
    ]

abbrev pub indices : List (ℕ × SearchCandidate) → List ℕ
indices [] = []
indices ((index, _) ∷ xs) = index ∷ indices xs

abbrev pub reaching : PhaseOneBlendedScore → List (ℕ × SearchCandidate) → List (ℕ × SearchCandidate)
reaching threshold [] = []
reaching threshold ((index, c) ∷ xs) =
    let rest = reaching threshold xs in
    if not_greater (cmp_phase_one threshold c.phase_one_score) then (index, c) ∷ rest else rest

unfoldable pub select_phase_two_head : List SearchCandidate → List ℕ
select_phase_two_head cs =
    let regular = indexed_where false 0 cs in
    let large = indexed_where true 0 cs in
    let head = take regular_head_limit (indices regular) in
    elim (nth (regular_head_limit - 1) regular) [
      | some (_, c) ↦ head ++ take large_head_limit (indices (reaching c.phase_one_score large))
      | none ↦ head ++ take (total_head_limit - length head) (indices large)
    ]
