-- ===== src/Ranking/Alignment/Fits.antt =====
-- Weights that fit: no sum of weights of purr/src/ranking.rs over an alignment goes past a `u16`.
use clipkitty.Base.{ℕ, ◌+◌, ◌≤◌, max, List, [], ◌∷◌, ap, inl, inr, arith}
use clipkitty.Ranking.Matches.{WordMatch}
use clipkitty.Ranking.Signals.Weights.{query_weights}
use clipkitty.Ranking.Alignment.Valid.{Among, Picks}

-- The weight of a word, counted as one at least, as in the class score.
abbrev pub weight_of : WordMatch → ℕ
weight_of m = max m.query_weight 1

abbrev pub heaviest_of : ℕ → List WordMatch → ℕ
heaviest_of least [] = least
heaviest_of least (m ∷ ms) = max (weight_of m) (heaviest_of least ms)

-- The most that the words of an alignment weigh.
abbrev pub heaviest : List (List WordMatch) → List WordMatch → ℕ
heaviest lists [] = 0
heaviest [] (d ∷ ds) = weight_of d + heaviest [] ds
heaviest (ms ∷ lists) (d ∷ ds) = heaviest_of (weight_of d) ms + heaviest lists ds

heaviest_of-least : (least : ℕ) (ms : List WordMatch) → least ≤ heaviest_of least ms
heaviest_of-least least [] = omega arith
heaviest_of-least least (m ∷ ms) = ground (arith, heaviest_of-least least ms)

heaviest_of-Among :
    (least : ℕ) (m : WordMatch) (ms : List WordMatch)
    → Among m ms
    → weight_of m ≤ heaviest_of least ms
heaviest_of-Among least m [] h = absurd h
heaviest_of-Among least m (x ∷ ms) (inl e) = rw e (ground arith)
heaviest_of-Among least m (x ∷ ms) (inr h) = ground (arith, heaviest_of-Among least m ms h)

pub query_weights-heaviest :
    (lists : List (List WordMatch)) (defaults rs : List WordMatch)
    → Picks lists defaults rs
    → query_weights rs ≤ heaviest lists defaults
query_weights-heaviest [] [] [] h = omega arith
query_weights-heaviest (ms ∷ lists) (d ∷ ds) (r ∷ rs) (inl e, h) = ground (
  arith,
  query_weights-heaviest lists ds rs h,
  heaviest_of-least (weight_of d) ms,
  ap (λ m. m.query_weight) e,
)
query_weights-heaviest (ms ∷ lists) (d ∷ ds) (r ∷ rs) (inr (among, at), h) =
    ground (arith, query_weights-heaviest lists ds rs h, heaviest_of-Among (weight_of d) r ms among)
query_weights-heaviest [] [] (r ∷ rs) h = absurd h
query_weights-heaviest [] (d ∷ ds) rs h = absurd h
query_weights-heaviest (ms ∷ lists) [] rs h = absurd h
query_weights-heaviest (ms ∷ lists) (d ∷ ds) [] h = absurd h
