-- ===== src/Presentation/Tests.antt =====
-- The theorems on purr/src/match_presentation.rs at concrete caches, items and requests.
use clipkitty.Base.{
  ℕ, ◌⊎◌, inl, inr, ap, true, some, none, String, List, [], ◌∷◌, length, ◌≡◌, refl, if◌then◌else◌,
  arith,
}
use clipkitty.Base.Text.{codes}
use clipkitty.Ranking.Chars.{Text}
use clipkitty.Ranking.Chars.Samples.{test_unicode}
use clipkitty.Search.Admission.{whole_item, phase_one_only}
use clipkitty.Highlight.Analysis.{analyze_content_for_query}
use clipkitty.Presentation.Cache.{empty_state}
use clipkitty.Presentation.Cache.Bounded.{IsBounded}
use clipkitty.Presentation.Cache.Calls.{
  Call, get_call, insert_call, insert_context_call, run, run-IsBounded,
}
use clipkitty.Presentation.Cache.Sound.{IsSound}
use clipkitty.Presentation.Items.{State, analysis_for_item}
use clipkitty.Presentation.Items.Transparent.{analysis_for_item-transparent}

abbrev three_calls : List Call
three_calls =
    insert_call (codes "clip") "a" (codes "a clip")
      (record { highlights = []; initial_scroll_highlight_index = none })
    ∷ get_call (codes "clip") "a" (codes "a clip")
    ∷ insert_context_call (codes "clips") "b" "h" (whole_item (codes "clips") 5) phase_one_only
    ∷ []

run-IsBounded_example : IsBounded (run test_unicode length three_calls empty_state)
run-IsBounded_example = run-IsBounded test_unicode length three_calls

-- Two contents, which their lengths tell from each other.
abbrev Seen : Text → Type 0
Seen c = (c ≡ codes "a clip") ⊎ (c ≡ codes "clips")

nothing_cached-IsSound : IsSound test_unicode length Seen empty_state
unfolding clipkitty.Base.Map.lookup
nothing_cached-IsSound = record { entries = λ k id e found. absurd (cc found) }

no_collision : (c : Text) → Seen c → length c ≡ length (codes "a clip") → c ≡ codes "a clip"
no_collision c (inl same) e = same
no_collision c (inr other) e = absurd (omega (arith, ap (length {A = ℕ}) other, e))

-- The cache after the analysis was asked for once.
abbrev asked_once : State
asked_once =
    (analysis_for_item test_unicode length "a" (codes "a clip") (codes "clip") empty_state).1

asked_once-IsSound : IsSound test_unicode length Seen asked_once
asked_once-IsSound =
    (analysis_for_item-transparent test_unicode length Seen "a" (codes "a clip") (codes "clip")
      empty_state nothing_cached-IsSound (inl refl) no_collision).1

analysis_for_item-transparent_example :
    ((analysis_for_item test_unicode length "a" (codes "a clip") (codes "clip") asked_once).0
      ≡ analyze_content_for_query test_unicode (codes "a clip") (codes "clip"))
    × IsSound test_unicode length Seen
        (analysis_for_item test_unicode length "a" (codes "a clip") (codes "clip") asked_once).1
analysis_for_item-transparent_example =
    analysis_for_item-transparent test_unicode length Seen "a" (codes "a clip") (codes "clip")
      asked_once asked_once-IsSound (inl refl) no_collision
