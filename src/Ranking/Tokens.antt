-- ===== src/Ranking/Tokens.antt =====
-- The tokenizers of purr/src/ranking.rs, and `tokenize_words` of purr/src/search.rs.
pub mod Spans
use clipkitty.Base.{
  ℕ, zero, suc, ◌+◌, ◌-◌, ltb, leb, ◌==◌, Bool, true, false, ◌&&◌, ◌||◌, not, Option, none, some,
  List, [], ◌∷◌, ◌++◌, any, if◌then◌else◌,
}
use clipkitty.Ranking.Chars.{Text, Unicode, is_alphanumeric, is_ascii, len_utf8}

pub record TokenSpan : Type 0 where
  pub start : ℕ
  pub end : ℕ

abbrev pub span : ℕ → ℕ → TokenSpan
span start end = record { start = start; end = end }

-- `u8::is_ascii_whitespace`: space, tab, line feed, form feed and carriage return.
abbrev pub is_ascii_whitespace : ℕ → Bool
is_ascii_whitespace c = c == 32 || c == 9 || c == 10 || c == 12 || c == 13

abbrev pub is_ascii_alphanumeric : ℕ → Bool
is_ascii_alphanumeric c =
    (leb 48 c && leb c 57) || (leb 65 c && leb c 90) || (leb 97 c && leb c 122)

abbrev pub same_bool : Bool → Bool → Bool
same_bool true b = b
same_bool false b = not b

-- The token that is open: its start and whether it is a word.
abbrev pub OpenToken : Type 0
OpenToken = Option (ℕ × Bool)

-- The open token ends before a position.
abbrev pub close : ℕ → OpenToken → List TokenSpan
close pos none = []
close pos (some (start, word)) = span start pos ∷ []

-- A character of the open token's kind.
abbrev pub continues : Bool → OpenToken → Bool
continues word none = false
continues word (some (_, kind)) = same_bool word kind

-- The two nested loops of a tokenizer as one pass, with the tests that it makes of a character. The
-- open token ends before a space and before a character of the other kind.
module _ (is_space : ℕ → Bool) (is_word : ℕ → Bool) (len : ℕ → ℕ) where
  unfoldable pub token_step : ℕ → OpenToken → ℕ → List TokenSpan × OpenToken
  token_step pos token c =
      if is_space c
      then (close pos token, none)
      else if continues (is_word c) token
      then ([], token)
      else (close pos token, some (pos, is_word c))

  unfoldable pub tokenize_from : ℕ → OpenToken → Text → List TokenSpan
  tokenize_from pos token [] = close pos token
  tokenize_from pos token (c ∷ s) =
      let (ended, next) = token_step pos token c in ended ++ tokenize_from (pos + len c) next s

unfoldable pub tokenize_for_ranking_ascii : Text → List TokenSpan
unfolding token_step tokenize_from
tokenize_for_ranking_ascii = tokenize_from is_ascii_whitespace is_ascii_alphanumeric (λ c. 1) 0 none

unfoldable pub tokenize_for_ranking_unicode : Unicode → Text → List TokenSpan
unfolding token_step tokenize_from
tokenize_for_ranking_unicode u = tokenize_from u.is_whitespace (is_alphanumeric u) len_utf8 0 none

unfoldable pub tokenize_for_ranking : Unicode → Text → List TokenSpan
tokenize_for_ranking u content =
    if is_ascii content
    then tokenize_for_ranking_ascii content
    else tokenize_for_ranking_unicode u content

-- `&content[start..end]`, by bytes. A span's ends are ends of characters.
unfoldable pub skip_bytes : ℕ → Text → Text
skip_bytes n [] = []
skip_bytes n (c ∷ s) = if n == 0 then c ∷ s else skip_bytes (n - len_utf8 c) s

unfoldable pub take_bytes : ℕ → Text → Text
take_bytes n [] = []
take_bytes n (c ∷ s) = if n == 0 then [] else c ∷ take_bytes (n - len_utf8 c) s

unfoldable pub raw_token_from : Text → TokenSpan → Text
unfolding skip_bytes take_bytes
raw_token_from content t = take_bytes (t.end - t.start) (skip_bytes t.start content)

-- `tokenize_words` counts characters, and its tokens are texts.
abbrev pub slice : ℕ → ℕ → Text → Text
slice zero zero s = []
slice zero (suc n) [] = []
slice zero (suc n) (c ∷ s) = c ∷ slice zero n s
slice (suc k) n [] = []
slice (suc k) n (c ∷ s) = slice k n s

abbrev pub slices : Text → List TokenSpan → List Text
slices content [] = []
slices content (t ∷ ts) = slice t.start (t.end - t.start) content ∷ slices content ts

unfoldable pub tokenize_words : Unicode → Text → List Text
unfolding token_step tokenize_from
tokenize_words u content =
    slices content (tokenize_from u.is_whitespace (is_alphanumeric u) (λ c. 1) 0 none content)

unfoldable pub is_symbol_bearing_query : Unicode → Text → Bool
is_symbol_bearing_query u = any (λ c. not (is_alphanumeric u c) && not (u.is_whitespace c))
