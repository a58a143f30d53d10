-- ===== src/Search/Detection.antt =====
-- The detection of content types, of purr/src/content_detection.rs. The functions of the Rust library
-- on strings and the crates validator and csscolorparser are parameters.
use clipkitty.Base.{
  ℕ, ◌*◌, ◌^◌, ◌≤◌, ltb, ◌==◌, Bool, true, false, ◌&&◌, ◌||◌, not, Option, none, some, is_some,
  List, [], ◌∷◌, any, ◌≡◌, refl, inl, inr, arith, Bool-cases, Option-cases, if◌then◌else◌,
}
use Prim.Native.Nat.{bit_or}
use clipkitty.Base.Text.{codes}
use clipkitty.Ranking.Chars.{Text, byte_len, starts_with}

-- The four bytes of a colour.
abbrev pub Rgba : Type 0
Rgba = ℕ × ℕ × ℕ × ℕ

pub record Detector : Type 0 where
  pub trim : Text → Text
  pub to_lowercase : Text → Text
  pub validate_url : Text → Bool
  pub parse_color : Text → Option Rgba

abbrev pub link_protocols : List Text
link_protocols = codes "http://" ∷ codes "https://" ∷ codes "ftp://" ∷ codes "ftps://" ∷ []

unfoldable pub is_valid_url : Detector → Text → Bool
is_valid_url d text =
    let trimmed = d.trim text in
    if ltb 2000 (byte_len trimmed) || any (λ c. c == 10) trimmed
    then false
    else if not (any (λ p. starts_with (d.to_lowercase trimmed) p) link_protocols)
    then false
    else d.validate_url trimmed

-- The three beginnings of an explicit colour, of the trimmed text.
abbrev pub looks_like_color : Detector → Text → Bool
looks_like_color d trimmed =
    starts_with trimmed (codes "#")
    || starts_with (d.to_lowercase trimmed) (codes "rgb")
    || starts_with (d.to_lowercase trimmed) (codes "hsl")

unfoldable pub is_color : Detector → Text → Bool
is_color d text =
    let trimmed = d.trim text in
    if looks_like_color d trimmed then is_some (d.parse_color trimmed) else false

abbrev pub rgba_word : Rgba → ℕ
rgba_word (r, g, b, a) = bit_or (bit_or (bit_or (r * 2 ^ 24) (g * 2 ^ 16)) (b * 2 ^ 8)) a

unfoldable pub parse_color_to_rgba : Detector → Text → Option ℕ
parse_color_to_rgba d text =
    let trimmed = d.trim text in
    if not (looks_like_color d trimmed)
    then none
    else elim (d.parse_color trimmed) [ none ↦ none | some color ↦ some (rgba_word color) ]

-- The results of the detection, where `plain_text` is `Text`; the metadata of a link is pending.
pub data ClipboardContent : Type 0 where
  color : Text → ClipboardContent
  link : Text → ClipboardContent
  plain_text : Text → ClipboardContent

unfoldable pub detect_content : Detector → Text → ClipboardContent
detect_content d text =
    let trimmed = d.trim text in
    if is_color d trimmed
    then color trimmed
    else if not (starts_with (d.to_lowercase trimmed) (codes "mailto:")) && is_valid_url d trimmed
    then link trimmed
    else plain_text text

-- What the kind of a content says of its text.
abbrev pub Detected : Detector → Text → ClipboardContent → Type 0
Detected d text (color value) =
    (value ≡ d.trim text) × (is_some (parse_color_to_rgba d value) ≡ true)
Detected d text (link url) =
    (url ≡ d.trim text)
    × (is_color d url ≡ false)
    × (byte_len url ≤ 2000)
    × (any (λ c. c == 10) url ≡ false)
    × (starts_with (d.to_lowercase url) (codes "mailto:") ≡ false)
    × (d.validate_url url ≡ true)
Detected d text (plain_text value) = value ≡ text

is_color-parse_color_to_rgba :
    (d : Detector) (text : Text)
    → is_color d text ≡ true
    → is_some (parse_color_to_rgba d text) ≡ true
unfolding is_color parse_color_to_rgba
is_color-parse_color_to_rgba d text h = elim (Option-cases (d.parse_color (d.trim text))) [
  | inl missing ↦ ground arith
  | inr (c, e) ↦ ground arith
]

-- Where trimming twice is trimming once: what is detected as a colour is the trimmed text, and it can
-- be parsed to a colour; what is detected as a link is the trimmed text, no colour, at most 2000 bytes
-- long, on one line, not a mail link, and a valid URL; and any other text is kept as it is.
pub detect_content-Detected :
    (d : Detector) (text : Text)
    → ((s : Text) → d.trim (d.trim s) ≡ d.trim s)
    → Detected d text (detect_content d text)
unfolding detect_content is_valid_url
detect_content-Detected d text twice =
    let again = twice text in
    elim (Bool-cases (is_color d (d.trim text))) [
      | inl c ↦ rw (c, detect_content) (refl, is_color-parse_color_to_rgba d (d.trim text) c)
      | inr n ↦
          elim (Bool-cases (
            not (starts_with (d.to_lowercase (d.trim text)) (codes "mailto:"))
            && is_valid_url d (d.trim text))) [
              | inl l ↦
                  rw (n, l, detect_content)
                    (let valid : is_valid_url d (d.trim text) ≡ true = ground arith in
                      let v = rw (again, is_valid_url) at valid in
                      (refl, n, ground arith, ground arith, ground arith, ground arith))
              | inr m ↦ rw (n, m, detect_content) refl
            ]
    ]
