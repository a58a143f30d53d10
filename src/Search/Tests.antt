-- ===== src/Search/Tests.antt =====
-- The theorems on purr/src/search_admission.rs and purr/src/content_detection.rs at concrete texts and
-- candidates.
use clipkitty.Base.{List, [], ◌∷◌, ◌≢◌, arith}
use clipkitty.Base.Text.{codes}
use clipkitty.Ranking.Chars.{Text}
use clipkitty.Ranking.Chars.Samples.{test_unicode}
use clipkitty.Ranking.Matching.{enabled}
use clipkitty.Search.Tail.{budget_exhausted, TailVerifyWord, verify_tail_word_evidence}
use clipkitty.Search.Tail.Budget.{verify_tail_word_evidence-budget_exhausted}

abbrev tail_words : List TailVerifyWord
tail_words =
    record { word_folded = codes "clip"; char_count = 4; prefix_match = enabled 3 }
    ∷ record { word_folded = codes "cat"; char_count = 3; prefix_match = enabled 2 }
    ∷ []

verify_tail_word_evidence-budget_exhausted_example :
    (verify_tail_word_evidence test_unicode (codes "a clip") tail_words 2 620).0 ≢ budget_exhausted
unfolding clipkitty.Ranking.Chars.byte_len clipkitty.Ranking.Chars.len_utf8
verify_tail_word_evidence-budget_exhausted_example =
    verify_tail_word_evidence-budget_exhausted test_unicode (codes "a clip") tail_words 2 620
      (omega arith)
