-- ===== src/Ranking/Tokens/Spans.antt =====
-- The spans of the tokenizers of purr/src/ranking.rs.
use clipkitty.Base.{
  ℕ, ◌+◌, ◌≤◌, ◌<◌, Bool, true, none, some, List, [], ◌∷◌, ◌++◌, All, ◌≡◌, ◌≢◌, refl, ap, arith,
  inl, inr, Bool-cases,
}
use clipkitty.Ranking.Chars.{Text, Unicode, is_alphanumeric, is_ascii, len_utf8, byte_len}
use clipkitty.Ranking.Tokens.{
  TokenSpan, OpenToken, close, continues, token_step, is_ascii_whitespace, is_ascii_alphanumeric,
  tokenize_from, tokenize_for_ranking_ascii, tokenize_for_ranking_unicode, tokenize_for_ranking,
}

-- Two tokenizers that make the same tests of every character of the text.
module _ (space space' : ℕ → Bool) (word word' : ℕ → Bool) (len len' : ℕ → ℕ) where
  token_step-same :
      (pos : ℕ) (token : OpenToken) (c : ℕ)
      → space c ≡ space' c
      → word c ≡ word' c
      → token_step space word len pos token c ≡ token_step space' word' len' pos token c
  unfolding token_step
  token_step-same pos token c a b = rw (a, b, token_step) refl

  tokenize_from-same :
      (s : Text)
      → All (λ c. (space c ≡ space' c) × (word c ≡ word' c) × (len c ≡ len' c)) s
      → (pos : ℕ) (token : OpenToken)
      → tokenize_from space word len pos token s ≡ tokenize_from space' word' len' pos token s
  unfolding tokenize_from
  tokenize_from-same [] h pos token = refl
  tokenize_from-same (c ∷ s) ((a, b, d), h) pos token =
      let step = token_step space' word' len' pos token c in
      rw (token_step-same pos token c a b, d, tokenize_from)
        (ap (λ r. step.0 ++ r) (tokenize_from-same s h (pos + len' c) step.1))

-- The Unicode tables on ASCII characters, the vertical tab apart.
abbrev pub AsciiTables : Unicode → Type 0
AsciiTables u =
    (c : ℕ)
    → c < 128
    → c ≢ 11
    → (is_ascii_whitespace c ≡ u.is_whitespace c) × (is_ascii_alphanumeric c ≡ is_alphanumeric u c)

ascii_tests :
    (u : Unicode)
    → AsciiTables u
    → (s : Text) → All (λ c. (c < 128) × (c ≢ 11)) s
    → All
        (λ c.
          (is_ascii_whitespace c ≡ u.is_whitespace c)
          × (is_ascii_alphanumeric c ≡ is_alphanumeric u c)
          × (1 ≡ len_utf8 c))
        s
unfolding len_utf8
ascii_tests u tables [] h = tt
ascii_tests u tables (c ∷ s) ((below, tab), h) =
    let (a, b) = tables c below tab in ((a, b, ground arith), ascii_tests u tables s h)

-- On ASCII text without a vertical tab, where the Unicode tables agree with the ASCII classes, the
-- two tokenizers find the same tokens.
pub tokenize_for_ranking_ascii-tokenize_for_ranking_unicode :
    (u : Unicode) (s : Text)
    → AsciiTables u
    → All (λ c. (c < 128) × (c ≢ 11)) s
    → tokenize_for_ranking_ascii s ≡ tokenize_for_ranking_unicode u s
unfolding tokenize_for_ranking_ascii tokenize_for_ranking_unicode
tokenize_for_ranking_ascii-tokenize_for_ranking_unicode u s tables h =
    tokenize_from-same _ _ _ _ _ _ s (ascii_tests u tables s h) 0 none

-- The spans begin at a position or later, are not empty, do not overlap, stand in their order and
-- end at another position at the latest.
abbrev pub InOrder : ℕ → ℕ → List TokenSpan → Type 0
InOrder from to [] = from ≤ to
InOrder from to (t ∷ ts) = (from ≤ t.start) × (t.start < t.end) × InOrder t.end to ts

InOrder-le : (a b to : ℕ) (ts : List TokenSpan) → a ≤ b → InOrder b to ts → InOrder a to ts
InOrder-le a b to [] h i = omega arith
InOrder-le a b to (t ∷ ts) h (x, y, i) = (omega arith, y, i)

len_utf8_pos : (c : ℕ) → 0 < len_utf8 c
unfolding len_utf8
len_utf8_pos c = ground arith

-- The first position that the open token, if there is one, leaves free.
abbrev pub start_of : ℕ → OpenToken → ℕ
start_of pos none = pos
start_of pos (some (start, w)) = start

abbrev pub OpenBefore : ℕ → OpenToken → Type 0
OpenBefore pos none = Unit
OpenBefore pos (some (start, w)) = start < pos

close-InOrder :
    (pos to : ℕ) (token : OpenToken) (rest : List TokenSpan)
    → OpenBefore pos token
    → InOrder pos to rest
    → InOrder (start_of pos token) to (close pos token ++ rest)
close-InOrder pos to none rest h i = i
close-InOrder pos to (some (start, w)) rest h i = (omega arith, h, i)

continues-OpenBefore :
    (word : Bool) (pos next : ℕ) (token : OpenToken)
    → pos ≤ next
    → continues word token ≡ true
    → OpenBefore pos token
    → (start_of pos token ≡ start_of next token) × OpenBefore next token
continues-OpenBefore word pos next none h e b = ground arith
continues-OpenBefore word pos next (some (start, w)) h e b = (refl, omega arith)

-- The length of a text whose characters have lengths.
abbrev pub total : (ℕ → ℕ) → Text → ℕ
total len [] = 0
total len (c ∷ s) = len c + total len s

total-len_utf8 : (s : Text) → total len_utf8 s ≡ byte_len s
unfolding byte_len
total-len_utf8 [] = refl
total-len_utf8 (c ∷ s) = omega (arith, total-len_utf8 s)

module _ (space : ℕ → Bool) (word : ℕ → Bool) (len : ℕ → ℕ) (len_pos : (c : ℕ) → 0 < len c) where
  pub tokenize_from-InOrder :
      (s : Text) (pos : ℕ) (token : OpenToken)
      → OpenBefore pos token
      → InOrder (start_of pos token) (pos + total len s) (tokenize_from space word len pos token s)
  unfolding tokenize_from token_step
  tokenize_from-InOrder [] pos none h = omega arith
  tokenize_from-InOrder [] pos (some (start, w)) h = (omega arith, h, omega arith)
  tokenize_from-InOrder (c ∷ s) pos token h =
      let next = pos + len c in
      let rest = tokenize_from-InOrder s next in
      let to : next + total len s ≡ pos + total len (c ∷ s) = omega arith in
      elim (Bool-cases (space c)) [
        | inl e ↦
            rw (e, tokenize_from, token_step)
              (close-InOrder pos _ token _ h
                (InOrder-le pos next _ _ (omega arith) (rw to at (rest none tt))))
        | inr e ↦ elim (Bool-cases (continues (word c) token)) [
          | inl f ↦
              let (same, before) = continues-OpenBefore (word c) pos next token (omega arith) f h in
              rw (e, f, same, tokenize_from, token_step) (rw to at (rest token before))
          | inr f ↦
              rw (e, f, tokenize_from, token_step)
                (close-InOrder pos _ token _ h
                  (rw to at (rest (some (pos, word c)) (omega (arith, len_pos c)))))
        ]
      ]

ascii_lengths :
    (s : Text)
    → is_ascii s ≡ true
    → All
        (λ c.
          (is_ascii_whitespace c ≡ is_ascii_whitespace c)
          × (is_ascii_alphanumeric c ≡ is_ascii_alphanumeric c)
          × (1 ≡ len_utf8 c))
        s
unfolding len_utf8
ascii_lengths [] h = tt
ascii_lengths (c ∷ s) h = ((refl, refl, ground arith), ascii_lengths s (ground arith))

-- The tokens of a document are not empty, stand in their order without overlap, and end within its
-- bytes, whichever tokenizer is chosen.
pub tokenize_for_ranking-InOrder :
    (u : Unicode) (s : Text) → InOrder 0 (byte_len s) (tokenize_for_ranking u s)
unfolding tokenize_for_ranking tokenize_for_ranking_unicode tokenize_for_ranking_ascii
tokenize_for_ranking-InOrder u s =
    let none_yet : 0 + total len_utf8 s ≡ byte_len s = omega (arith, total-len_utf8 s) in
    elim (Bool-cases (is_ascii s)) [
      | inl ascii ↦
          rw (ascii, tokenize_for_ranking, tokenize_for_ranking_ascii)
            (rw (tokenize_from-same _ _ _ _ _ _ s (ascii_lengths s ascii) 0 none) (
              rw none_yet at (
                tokenize_from-InOrder is_ascii_whitespace is_ascii_alphanumeric len_utf8
                  len_utf8_pos s 0 none tt)))
      | inr other ↦
          rw (other, tokenize_for_ranking, tokenize_for_ranking_unicode)
            (rw none_yet at (
              tokenize_from-InOrder u.is_whitespace (is_alphanumeric u) len_utf8 len_utf8_pos s 0
                none tt))
    ]
