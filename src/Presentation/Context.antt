-- ===== src/Presentation/Context.antt =====
-- The cached context of a match, `CachedMatchContext` of purr/src/match_presentation.rs.
use clipkitty.Base.{
  ℕ, suc, ◌-◌, leb, ltb, ◌==◌, Bool, true, false, ◌&&◌, Option, none, some, String, str_eq, [], ◌∷◌,
  is_some, if◌then◌else◌,
}
use clipkitty.Ranking.Chars.{Text, byte_len, len_utf8}
use clipkitty.Search.Admission.{
  SearchMatchContext, whole_item, chunk, ScoringPhase, phase_two_scored, phase_one_only,
}
use clipkitty.Highlight.Types.{HighlightAnalysis, PreviewDecoration}
use clipkitty.Highlight.Analysis.{
  create_preview_decoration, create_preview_decoration_with_char_offset,
}

pub data HighlightStrategy : Type 0 where
  full : HighlightStrategy
  word_match : HighlightStrategy

pub data HighlightReadiness : Type 0 where
  pending : HighlightReadiness
  ready : HighlightAnalysis → HighlightReadiness

pub data CachedMatchContext : Type 0 where
  -- parent_content_hash, content
  whole_content : String → Text → HighlightStrategy → HighlightReadiness → CachedMatchContext
  -- parent_content_hash, chunk_content, chunk_start, chunk_end
  chunk_region : String → Text → ℕ → ℕ → HighlightStrategy → HighlightReadiness → CachedMatchContext

abbrev pub strategy_for : ScoringPhase → HighlightStrategy
strategy_for phase_two_scored = full
strategy_for phase_one_only = word_match

unfoldable pub from_search_match_context :
    String → SearchMatchContext → ScoringPhase → CachedMatchContext
from_search_match_context parent_hash (whole_item content _) phase =
    whole_content parent_hash content (strategy_for phase) pending
from_search_match_context parent_hash (chunk content _ _ chunk_start chunk_end) phase =
    chunk_region parent_hash content chunk_start chunk_end (strategy_for phase) pending

abbrev pub cached_content : CachedMatchContext → Text
cached_content (whole_content _ content _ _) = content
cached_content (chunk_region _ content _ _ _ _) = content

abbrev pub strategy_of : CachedMatchContext → HighlightStrategy
strategy_of (whole_content _ _ strategy _) = strategy
strategy_of (chunk_region _ _ _ _ strategy _) = strategy

abbrev pub analysis_if_ready : HighlightReadiness → Option HighlightAnalysis
analysis_if_ready pending = none
analysis_if_ready (ready analysis) = some analysis

abbrev pub cached_analysis : CachedMatchContext → Option HighlightAnalysis
cached_analysis (whole_content _ _ _ readiness) = analysis_if_ready readiness
cached_analysis (chunk_region _ _ _ _ _ readiness) = analysis_if_ready readiness

unfoldable pub set_analysis : HighlightAnalysis → CachedMatchContext → CachedMatchContext
set_analysis analysis (whole_content hash content strategy _) =
    whole_content hash content strategy (ready analysis)
set_analysis analysis (chunk_region hash content start end strategy _) =
    chunk_region hash content start end strategy (ready analysis)

abbrev pub parent_hash_of : CachedMatchContext → String
parent_hash_of (whole_content hash _ _ _) = hash
parent_hash_of (chunk_region hash _ _ _ _ _) = hash

abbrev pub matches_parent_hash : CachedMatchContext → String → Bool
matches_parent_hash context parent_hash = str_eq (parent_hash_of context) parent_hash

abbrev pub is_chunk_region : CachedMatchContext → Bool
is_chunk_region (whole_content _ _ _ _) = false
is_chunk_region (chunk_region _ _ _ _ _ _) = true

-- `text[..n].chars().count()`, where the byte `n` is the end of a character or of the text:
-- `is_char_boundary`.
abbrev pub chars_before : ℕ → Text → Option ℕ
chars_before n [] = if n == 0 then some 0 else none
chars_before n (c ∷ s) =
    let rest = chars_before (n - len_utf8 c) s in
    if n == 0
    then some 0
    else if ltb n (len_utf8 c)
    then none
    else (elim rest [ none ↦ none | some k ↦ some (suc k) ])

-- The outer option is the code's; the inner `none` is a panic of `limit_preview_highlights`.
unfoldable pub preview_decoration :
    CachedMatchContext → Text → HighlightAnalysis → Option (Option PreviewDecoration)
preview_decoration (whole_content _ _ _ _) full_content analysis =
    some (create_preview_decoration full_content analysis)
preview_decoration (chunk_region _ _ chunk_start chunk_end _ _) full_content analysis =
    if leb chunk_start chunk_end
      && leb chunk_end (byte_len full_content)
      && is_some (chars_before chunk_end full_content)
    then elim (chars_before chunk_start full_content) [
      | none ↦ none
      | some char_offset ↦
          some (create_preview_decoration_with_char_offset full_content analysis char_offset)
    ]
    else none
