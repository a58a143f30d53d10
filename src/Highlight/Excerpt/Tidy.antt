-- ===== src/Highlight/Excerpt/Tidy.antt =====
-- The whitespace of a normalized text.
use clipkitty.Base.{
  ℕ, suc, ◌-◌, min, ltb, leb, ◌==◌, Bool, true, false, ◌&&◌, ◌||◌, not, [], ◌∷◌, ◌++◌, take, drop,
  is_empty, ◌≡◌, refl, inl, inr, Bool-cases, arith, if◌then◌else◌,
}
use clipkitty.Ranking.Chars.{Text}
use clipkitty.Highlight.Excerpt.{
  WhitespaceMode, collapse_all, preserve_line_breaks, Normalizing, initial, normalize_char,
  normalize_from, trim_trailing, normalize_snippet_with_mapping_ws,
}

-- No tab and no carriage return, no space after a space, and no line feed, or with line breaks
-- preserved none after two; given whether a space stands before, and how many line feeds.
abbrev pub tidy : WhitespaceMode → Bool → ℕ → Text → Bool
tidy mode space feeds [] = true
tidy collapse_all space feeds (c ∷ s) =
    not (c == 9)
    && not (c == 10)
    && not (c == 13)
    && not (c == 32 && space)
    && tidy collapse_all (c == 32) feeds s
tidy preserve_line_breaks space feeds (c ∷ s) =
    not (c == 9)
    && not (c == 13)
    && not (c == 32 && space)
    && not (c == 10 && leb 2 feeds)
    && tidy preserve_line_breaks (c == 32) (if c == 10 then suc feeds else 0) s

-- Neither a space nor a line feed stands at the end.
abbrev pub ends_clean : Text → Bool
ends_clean [] = true
ends_clean (c ∷ s) = ends_clean s && not (is_empty s && (c == 32 || c == 10))

abbrev IsSettled : Normalizing → Type 0
IsSettled n = (n.last_was_space && ltb 0 n.consecutive_newlines) ≡ false

abbrev tidy_after : WhitespaceMode → Normalizing → Text → Bool
tidy_after mode n text = tidy mode n.last_was_space (min n.consecutive_newlines 2) text

Settles : WhitespaceMode → Normalizing → Type 0
Settles collapse_all n = Unit {0}
Settles preserve_line_breaks n = IsSettled n

Settles-initial : (mode : WhitespaceMode) → Settles mode initial
unfolding Settles
Settles-initial collapse_all = tt
Settles-initial preserve_line_breaks = refl

normalize_char-Settles :
    (mode : WhitespaceMode) (c : ℕ) (n : Normalizing)
    → Settles mode n
    → Settles mode (normalize_char mode c n).1
unfolding normalize_char Settles
normalize_char-Settles collapse_all c n h = tt
normalize_char-Settles preserve_line_breaks c n h = ground arith

normalize_char-tidy :
    (mode : WhitespaceMode) (c : ℕ) (n : Normalizing) (text : Text)
    → Settles mode n
    → tidy_after mode (normalize_char mode c n).1 text ≡ true
    → tidy_after mode n ((normalize_char mode c n).0 ++ text) ≡ true
unfolding normalize_char Settles
normalize_char-tidy collapse_all c n text h t = ground arith
normalize_char-tidy preserve_line_breaks c n text h t = ground arith

normalize_from-tidy :
    (mode : WhitespaceMode) (max_chars : ℕ) (s : Text) (n : Normalizing)
    → Settles mode n
    → tidy_after mode n (normalize_from mode max_chars s n).0 ≡ true
unfolding normalize_from
normalize_from-tidy mode max_chars [] n h = refl
normalize_from-tidy mode max_chars (c ∷ s) n h = elim (Bool-cases (leb max_chars n.norm_idx)) [
  | inl full ↦ rw full (normalize_from-tidy mode max_chars s n h)
  | inr more ↦ rw more (
      normalize_char-tidy mode c n (normalize_from mode max_chars s (normalize_char mode c n).1).0 h
        (normalize_from-tidy mode max_chars s (normalize_char mode c n).1
          (normalize_char-Settles mode c n h)))
]

-- What is left by trimming is a beginning of the text.
trim_trailing-tidy :
    (mode : WhitespaceMode) (space : Bool) (feeds : ℕ) (s : Text)
    → tidy mode space feeds s ≡ true
    → tidy mode space feeds (trim_trailing s) ≡ true
unfolding trim_trailing
trim_trailing-tidy mode space feeds [] t = refl
trim_trailing-tidy collapse_all space feeds (c ∷ s) t =
    ground (arith, trim_trailing-tidy collapse_all (c == 32) feeds s)
trim_trailing-tidy preserve_line_breaks space feeds (c ∷ s) t =
    ground (
      arith,
      trim_trailing-tidy preserve_line_breaks (c == 32) (if c == 10 then suc feeds else 0) s,
    )

trim_trailing-ends_clean : (s : Text) → ends_clean (trim_trailing s) ≡ true
unfolding trim_trailing
trim_trailing-ends_clean [] = refl
trim_trailing-ends_clean (c ∷ s) = ground (arith, trim_trailing-ends_clean s)

-- A normalized text has no tab and no carriage return, no space after a space, no line feed or, with
-- line breaks preserved, no third one in a row, and ends in neither a space nor a line feed.
pub normalize_snippet_with_mapping_ws-tidy :
    (content : Text) (start end max_chars : ℕ) (mode : WhitespaceMode)
    → (tidy mode false 0 (normalize_snippet_with_mapping_ws content start end max_chars mode).0
        ≡ true)
      × (ends_clean (normalize_snippet_with_mapping_ws content start end max_chars mode).0 ≡ true)
unfolding normalize_snippet_with_mapping_ws
normalize_snippet_with_mapping_ws-tidy content start end max_chars mode =
    let text : Text =
      (normalize_from mode max_chars (take (end - start) (drop start content)) initial).0 in
    elim (Bool-cases (leb end start)) [
      | inl nothing ↦ rw nothing (refl, refl)
      | inr something ↦ rw something (
        trim_trailing-tidy mode false 0 text (
            normalize_from-tidy mode max_chars (take (end - start) (drop start content)) initial
              (Settles-initial mode)),
        trim_trailing-ends_clean text,
      )
    ]
