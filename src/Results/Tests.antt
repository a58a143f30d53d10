-- ===== src/Results/Tests.antt =====
-- The theorems on purr/src/search_result_builder.rs at a concrete search.
use clipkitty.Base.{false, none, some, refl, [], ◌∷◌, pos}
use clipkitty.Base.Text.{codes}
use clipkitty.Ranking.Chars.Samples.{test_unicode}
use clipkitty.Search.Admission.{PhaseOneBlendedScore, whole_item, SearchCandidate, new_candidate}
use clipkitty.Highlight.Types.{compact_row}
use clipkitty.Presentation.Cache.{empty_state}
use clipkitty.Results.Query.{SearchQuery, plain, text}
use clipkitty.Results.Outcome.{Progress, value}
use clipkitty.Results.Trigram.{SearchRowMetadata, Answers, search_trigram_query}
use clipkitty.Results.Trigram.Metadata.{row_shown}
use clipkitty.Results.Trigram.Served.{never, placed, Serves, search_trigram_query-Serves}

abbrev plain_score : PhaseOneBlendedScore
plain_score = record {
  literal_sequence_match = false;
  word_match_count = 1;
  weak_word_match_count = 0;
  proximity_tier = 0;
  evidence_density_score = 1000;
  recency_score = 10;
  bm25_remainder = 5;
}

abbrev one_hit : SearchCandidate
one_hit = new_candidate "a" (pos 10) plain_score (whole_item (codes "a clip") 6)

abbrev one_row : SearchRowMetadata
one_row = record {
  item_id = "a";
  content_hash = "h";
  db_type = "text";
  baseline_excerpt = codes "a clip";
}

abbrev one_candidate : Answers
one_candidate = record {
  index_checks = 2;
  candidates = value (one_hit ∷ []);
  rows = λ ids. value (one_row ∷ []);
  tagged = λ ids tag. value [];
}

abbrev start : Progress
start = record { checks = 0; cache = empty_state }

abbrev clip_query : SearchQuery
clip_query = plain (codes "clip")

search_trigram_query-Serves_example :
    Serves
      (codes "clip")
      compact_row
      (placed (row_shown (some text) none (one_row ∷ [])) 0 (one_hit ∷ []))
      (search_trigram_query test_unicode never clip_query compact_row
        (some text)
        none
        one_candidate
        start)
search_trigram_query-Serves_example =
    search_trigram_query-Serves test_unicode clip_query compact_row (some text) none one_candidate
      (one_hit ∷ []) (one_row ∷ []) none refl refl refl refl start
