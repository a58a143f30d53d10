-- ===== src/Ranking/Score/Fits.antt =====
-- Queries whose weights fit: each candidate of a query word has the weight of the word.
use clipkitty.Base.{
  ℕ, suc, ◌+◌, max, Option, some, List, [], ◌∷◌, map, length, ◌∙◌, ◌≡◌, refl, ap, inl, inr,
  Option-cases, arith,
}
use clipkitty.Ranking.Chars.{Text, Unicode}
use clipkitty.Ranking.Matches.{WordMatch, base_match_weight, word_match}
use clipkitty.Ranking.Matching.{PrefixMatch, prefix_match_for_query_word}
use clipkitty.Ranking.Tokens.{TokenSpan, raw_token_from}
use clipkitty.Ranking.Document.{
  PreparedDocument, PreparedQuery, PreparedQueryToken, small, large_fast, fast_tokens,
  last_word_is_prefix,
}
use clipkitty.Ranking.Alignment.Valid.{Among}
use clipkitty.Ranking.Alignment.Fits.{heaviest_of, heaviest}
use clipkitty.Ranking.Candidates.{
  paired, collect_from, collect_match_candidates, classify_match_candidate,
  classify_fast_match_candidate,
}
use clipkitty.Ranking.Candidates.Trim.{trim_match_candidates-Among}
use clipkitty.Ranking.Score.{default_match, candidate_lists_from}

-- The weights of the query's words, each counted as one at least.
abbrev pub typed_weight : Unicode → List PreparedQueryToken → ℕ
typed_weight u [] = 0
typed_weight u (token ∷ tokens) = max (base_match_weight u token.raw) 1 + typed_weight u tokens

module _ (weight : ℕ) where
  abbrev AllWeigh : List WordMatch → Type 0
  AllWeigh ms = (m : WordMatch) → Among m ms → m.query_weight ≡ weight

  collect_from-AllWeigh :
      {A : Type 0} (f : A → ℕ → Option WordMatch) (pos : ℕ) (xs : List A)
      → ((x : A) (p : ℕ) (m : WordMatch) → f x p ≡ some m → m.query_weight ≡ weight)
      → AllWeigh (collect_from f pos xs)
  collect_from-AllWeigh f pos [] h m among = absurd among
  collect_from-AllWeigh f pos (x ∷ xs) h m among = elim (Option-cases (f x pos)) [
    | inl missed ↦ collect_from-AllWeigh f (suc pos) xs h m (rw (missed, collect_from) at among)
    | inr (found, e) ↦ elim (rw (e, collect_from) at among) [
      | inl same ↦ ap (λ y. y.query_weight) same ∙ h x pos found e
      | inr later ↦ collect_from-AllWeigh f (suc pos) xs h m later
    ]
  ]

  heaviest_of-AllWeigh :
      (ms : List WordMatch) → AllWeigh ms → heaviest_of (max weight 1) ms ≡ max weight 1
  heaviest_of-AllWeigh [] h = refl
  heaviest_of-AllWeigh (m ∷ ms) h =
      let first : m.query_weight ≡ weight = h m (inl refl) in
      let rest = heaviest_of-AllWeigh ms (λ x among. h x (inr among)) in ground (arith, first, rest)

classify_match_candidate-weight :
    (u : Unicode) (word qw raw dw : Text) (pos : ℕ) (prefix_match : PrefixMatch) (m : WordMatch)
    → classify_match_candidate u word qw raw dw pos prefix_match ≡ some m
    → m.query_weight ≡ base_match_weight u word
unfolding classify_match_candidate word_match
classify_match_candidate-weight u word qw raw dw pos prefix_match m e = ground arith

classify_fast_match_candidate-weight :
    (u : Unicode) (word qw raw : Text) (pos : ℕ) (prefix_match : PrefixMatch) (m : WordMatch)
    → classify_fast_match_candidate u word qw raw pos prefix_match ≡ some m
    → m.query_weight ≡ base_match_weight u word
unfolding classify_fast_match_candidate word_match
classify_fast_match_candidate-weight u word qw raw pos prefix_match m e = ground arith

collect_match_candidates-AllWeigh :
    (u : Unicode) (word qw : Text) (doc : PreparedDocument) (prefix_match : PrefixMatch)
    → AllWeigh (base_match_weight u word) (collect_match_candidates u word qw doc prefix_match)
unfolding collect_match_candidates
collect_match_candidates-AllWeigh u word qw (small content _ spans folded) prefix_match m among =
    let classify : TokenSpan × Text → ℕ → Option WordMatch = λ (t, dw) pos.
      classify_match_candidate u word qw (raw_token_from content t) dw pos prefix_match in
    collect_from-AllWeigh (base_match_weight u word) classify 0 (paired spans folded)
      (λ x pos found e.
        classify_match_candidate-weight u word qw (raw_token_from content x.0) x.1 pos prefix_match
          found e)
      m (trim_match_candidates-Among (collect_from classify 0 (paired spans folded)) m among)
collect_match_candidates-AllWeigh u word qw (large_fast content spans mode) prefix_match m among =
    let classify : Text → ℕ → Option WordMatch =
      λ raw pos. classify_fast_match_candidate u word qw raw pos prefix_match in
    let tokens : List Text = fast_tokens (large_fast content spans mode) in
    collect_from-AllWeigh (base_match_weight u word) classify 0 tokens
      (λ raw pos found e.
        classify_fast_match_candidate-weight u word qw raw pos prefix_match found e)
      m (trim_match_candidates-Among (collect_from classify 0 tokens) m among)

-- What the words of an alignment weigh at most is what the query's words weigh.
pub heaviest-typed_weight :
    (u : Unicode) (doc : PreparedDocument) (query : PreparedQuery) (index : ℕ)
    (tokens : List PreparedQueryToken)
    → heaviest (candidate_lists_from u doc query index tokens) (map (default_match u) tokens)
      ≡ typed_weight u tokens
unfolding word_match
heaviest-typed_weight u doc query index [] = refl
heaviest-typed_weight u doc query index (token ∷ tokens) = omega (
  arith,
  heaviest_of-AllWeigh (base_match_weight u token.raw) _ (
      collect_match_candidates-AllWeigh u token.raw token.folded doc
        (prefix_match_for_query_word (length query.tokens) index (last_word_is_prefix u query))),
  heaviest-typed_weight u doc query (suc index) tokens,
)
