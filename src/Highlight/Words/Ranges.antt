-- ===== src/Highlight/Words/Ranges.antt =====
-- Where the highlights of words stand.
use clipkitty.Base.{
  ℕ, ◌≤◌, ltb, ◌&&◌, Option, none, some, List, [], ◌∷◌, ◌++◌, ◌≡◌, refl, inl, inr, Bool-cases,
  arith,
}
use clipkitty.Base.Table.{insert_by, order_by}
use clipkitty.Ranking.Chars.{Text, Unicode}
use clipkitty.Ranking.Matches.{is_word_token}
use clipkitty.Ranking.Matching.Kinds.{TokenMatchSpan, WordMatchKind}
use clipkitty.Ranking.Tokens.{TokenSpan}
use clipkitty.Ranking.Tokens.Spans.{InOrder}
use clipkitty.Highlight.Types.{HighlightRange}
use clipkitty.Highlight.Words.{
  token_span_bounds, highlight_bounds, append_word_highlight, is_prefix, highlight_match,
  bridge_from, can_bridge, sort_by_start, DocWord, paired, flat_map,
}

-- Highlights begin at a position or later, do not overlap, stand in their order and end at another
-- position at the latest.
abbrev pub Chain : ℕ → ℕ → List HighlightRange → Type 0
Chain from to [] = from ≤ to
Chain from to (h ∷ hs) = (from ≤ h.start) × (h.start ≤ h.end) × Chain h.end to hs

pub Chain-widen :
    (a b c d : ℕ) (hs : List HighlightRange) → a ≤ b → c ≤ d → Chain b c hs → Chain a d hs
Chain-widen a b c d [] h k i = omega arith
Chain-widen a b c d (x ∷ xs) h k (p, q, i) =
    (omega arith, q, Chain-widen x.end x.end c d xs (omega arith) k i)

Chain-append :
    (a b c : ℕ) (xs ys : List HighlightRange) → Chain a b xs → Chain b c ys → Chain a c (xs ++ ys)
Chain-append a b c [] ys h i = Chain-widen a b c c ys h (omega arith) i
Chain-append a b c (x ∷ xs) ys (p, q, h) i = (p, q, Chain-append x.end b c xs ys h i)

token_span_bounds-le :
    (s e : ℕ) (span : TokenMatchSpan)
    → s ≤ e
    → (s ≤ (token_span_bounds s e span).0)
      × ((token_span_bounds s e span).0 ≤ (token_span_bounds s e span).1)
      × ((token_span_bounds s e span).1 ≤ e)
unfolding token_span_bounds
token_span_bounds-le s e span h = ground arith

highlight_bounds-le :
    (s e : ℕ) (kind : WordMatchKind)
    → s ≤ e
    → (s ≤ (highlight_bounds s e kind).0)
      × ((highlight_bounds s e kind).0 ≤ (highlight_bounds s e kind).1)
      × ((highlight_bounds s e kind).1 ≤ e)
unfolding highlight_bounds
highlight_bounds-le s e (WordMatchKind.prefix span) h = token_span_bounds-le s e span h
highlight_bounds-le s e (WordMatchKind.subword_prefix span) h = token_span_bounds-le s e span h
highlight_bounds-le s e (WordMatchKind.infix_substring span) h = token_span_bounds-le s e span h
highlight_bounds-le s e WordMatchKind.exact h = omega arith
highlight_bounds-le s e (WordMatchKind.fuzzy _) h = omega arith
highlight_bounds-le s e (WordMatchKind.subsequence _) h = omega arith
highlight_bounds-le s e WordMatchKind.none h = omega arith

pub append_word_highlight-Chain :
    (s e : ℕ) (kind : WordMatchKind) → s ≤ e → Chain s e (append_word_highlight s e kind)
unfolding append_word_highlight
append_word_highlight-Chain s e kind h =
    let (low, mid, high) = highlight_bounds-le s e kind h in
    elim (Bool-cases (is_prefix kind && ltb (highlight_bounds s e kind).1 e)) [
      | inl tail ↦ rw tail (low, mid, (omega arith, high, omega arith))
      | inr no_tail ↦ rw no_tail (low, mid, high)
    ]

pub highlight_match-Chain :
    (u : Unicode) (span : TokenSpan) (found : Option (Text × WordMatchKind))
    → span.start ≤ span.end
    → Chain span.start span.end (highlight_match u span found)
unfolding highlight_match
highlight_match-Chain u span none h = h
highlight_match-Chain u span (some (qw, kind)) h = elim (Bool-cases (is_word_token u qw)) [
  | inl word ↦ rw word (append_word_highlight-Chain span.start span.end kind h)
  | inr symbol ↦ rw symbol h
]

InOrder-end : (from to : ℕ) (ts : List TokenSpan) → InOrder from to ts → from ≤ to
InOrder-end from to [] h = h
InOrder-end from to (t ∷ ts) (p, q, h) = omega (arith, InOrder-end t.end to ts h)

-- What each token yields stands within the token.
pub flat_map-Chain :
    (f : DocWord → List HighlightRange)
    → ((span : TokenSpan) (word : Text)
        → span.start ≤ span.end
        → Chain span.start span.end (f (span, word)))
    → (from to : ℕ) (spans : List TokenSpan) (words : List Text) → InOrder from to spans
    → Chain from to (flat_map f (paired spans words))
flat_map-Chain f within from to [] words h = h
flat_map-Chain f within from to (s ∷ ss) [] (p, q, h) = omega (arith, InOrder-end s.end to ss h)
flat_map-Chain f within from to (s ∷ ss) (w ∷ ws) (p, q, h) =
    Chain-append from s.end to (f (s, w)) (flat_map f (paired ss ws))
      (Chain-widen from s.start s.end s.end (f (s, w)) p (omega arith) (within s w (omega arith)))
      (flat_map-Chain f within s.end to ss ws h)

-- Highlights in their order stay where they are.
pub sort_by_start-Chain :
    (from to : ℕ) (hs : List HighlightRange) → Chain from to hs → sort_by_start hs ≡ hs
unfolding order_by insert_by
sort_by_start-Chain from to [] c = refl
sort_by_start-Chain from to (h ∷ []) c = refl
sort_by_start-Chain from to (h ∷ k ∷ hs) (p, q, (r, s, c)) =
    rw (sort_by_start-Chain h.end to (k ∷ hs) (r, s, c)) (ground arith)

pub bridge_from-Chain :
    (u : Unicode) (content : Text) (from to : ℕ) (last : HighlightRange) (hs : List HighlightRange)
    → Chain from to (last ∷ hs)
    → Chain from to (bridge_from u content last hs)
unfolding bridge_from
bridge_from-Chain u content from to last [] c = c
bridge_from-Chain u content from to last (h ∷ hs) (p, q, (r, s, c)) =
    elim (Bool-cases (can_bridge u content last h)) [
      | inl merged ↦
          rw merged (
            bridge_from-Chain u content from to (record last { end = h.end }) hs
              (p, omega arith, c))
      | inr apart ↦ rw apart (p, q, bridge_from-Chain u content last.end to h hs (r, s, c))
    ]
