-- ===== src/Highlight/Excerpt/Whitespace.antt =====
-- The text of an excerpt, and the positions that its loop notes down.
use clipkitty.Base.{
  ℕ, zero, suc, ◌+◌, ◌-◌, ◌≤◌, leb, some, List, [], ◌∷◌, ◌++◌, length, length-append, take, drop,
  get_elem?, ◌≡◌, refl, inl, inr, Bool-cases, arith, if◌then◌else◌,
}
use clipkitty.Ranking.Chars.{Text}
use clipkitty.Highlight.Excerpt.{
  WhitespaceMode, collapse_all, preserve_line_breaks, Normalizing, initial, normalize_char,
  normalize_from, trim_trailing, normalize_snippet_with_mapping_ws,
}

-- A round: the characters that it writes, and the state after it.
abbrev round : WhitespaceMode → ℕ → ℕ → Normalizing → Text × Normalizing
round mode max_chars c n = if leb max_chars n.norm_idx then ([], n) else normalize_char mode c n

-- A round writes one character at most, and counts it.
normalize_char_counts :
    (mode : WhitespaceMode) (c : ℕ) (n : Normalizing)
    → ((normalize_char mode c n).1.norm_idx ≡ n.norm_idx + length (normalize_char mode c n).0)
      × (length (normalize_char mode c n).0 ≤ 1)
unfolding normalize_char
normalize_char_counts collapse_all c n = ground arith
normalize_char_counts preserve_line_breaks c n = ground arith

round_counts :
    (mode : WhitespaceMode) (max_chars c : ℕ) (n : Normalizing)
    → ((round mode max_chars c n).1.norm_idx ≡ n.norm_idx + length (round mode max_chars c n).0)
      × (n.norm_idx ≤ max_chars → (round mode max_chars c n).1.norm_idx ≤ max_chars)
round_counts mode max_chars c n = elim (Bool-cases (leb max_chars n.norm_idx)) [
  | inl full ↦ rw full (omega arith, λ h. h)
  | inr more ↦
      let (counted, one) = normalize_char_counts mode c n in
      rw more (counted, λ h. ground (arith, counted, one))
]

-- The positions ascend between two bounds.
abbrev pub Ascending : ℕ → ℕ → List ℕ → Type 0
Ascending low high [] = Unit
Ascending low high (p ∷ ps) = (low ≤ p) × (p ≤ high) × Ascending p high ps

Ascending-widen :
    (low low' high high' : ℕ) (ps : List ℕ)
    → low' ≤ low
    → high ≤ high'
    → Ascending low high ps
    → Ascending low' high' ps
Ascending-widen low low' high high' [] le le' h = tt
Ascending-widen low low' high high' (p ∷ ps) le le' (above, below, rest) =
    (omega arith, omega arith, Ascending-widen p p high high' ps (omega arith) le' rest)

pub Ascending-get_elem? :
    (low high : ℕ) (ps : List ℕ) (i : ℕ) {a : ℕ}
    → Ascending low high ps
    → get_elem? ps i ≡ some a
    → (low ≤ a) × (a ≤ high)
Ascending-get_elem? low high [] i h at = cc
Ascending-get_elem? low high (p ∷ ps) zero (above, below, rest) at = ground arith
Ascending-get_elem? low high (p ∷ ps) (suc i) {a} (above, below, rest) at =
    let (low_a, high_a) = Ascending-get_elem? p high ps i {a = a} rest at in (omega arith, high_a)

pub Ascending-mono :
    (low high : ℕ) (ps : List ℕ) (i j : ℕ) {a b : ℕ}
    → Ascending low high ps
    → i ≤ j
    → get_elem? ps i ≡ some a
    → get_elem? ps j ≡ some b
    → a ≤ b
Ascending-mono low high [] i j h le p q = cc
Ascending-mono low high (x ∷ ps) zero zero h le p q = ground arith
Ascending-mono low high (x ∷ ps) zero (suc j) {a} {b} (above, below, rest) le p q =
    ground (arith, Ascending-get_elem? x high ps j {a = b} rest q)
Ascending-mono low high (x ∷ ps) (suc i) zero h le p q = absurd (omega arith)
Ascending-mono low high (x ∷ ps) (suc i) (suc j) (above, below, rest) le p q =
    Ascending-mono x high ps i j rest (omega arith) p q

-- What the loop returns, from a state on.
record Normalized (s : Text) (n : Normalizing) (max_chars : ℕ) (out : Text × List ℕ) : Type 0 where
  count : length out.1 ≡ suc (length s)
  size : n.norm_idx + length out.0 ≤ max_chars
  ascends : Ascending n.norm_idx (n.norm_idx + length out.0) out.1

normalize_from-Normalized :
    (mode : WhitespaceMode) (max_chars : ℕ) (s : Text) (n : Normalizing)
    → n.norm_idx ≤ max_chars
    → Normalized s n max_chars (normalize_from mode max_chars s n)
unfolding normalize_from
normalize_from-Normalized mode max_chars [] n h = omega arith
normalize_from-Normalized mode max_chars (c ∷ s) n h =
    let (written, next) = round mode max_chars c n in
    let (counted, within) = round_counts mode max_chars c n in
    let ih = normalize_from-Normalized mode max_chars s next (within h) in
    let text : Text = (normalize_from mode max_chars s next).0 in
    let size : length (written ++ text) ≡ length written + length text =
      length-append written text in
    record {
      count = omega (arith, ih.count);
      size = omega (arith, ih.size);
      ascends = (
        omega arith,
        omega arith,
        Ascending-widen next.norm_idx n.norm_idx (next.norm_idx + length text)
            (n.norm_idx + length (written ++ text)) (normalize_from mode max_chars s next).1
            (omega arith) (omega arith) ih.ascends,
      );
    }

trim_trailing-length : (s : Text) → length (trim_trailing s) ≤ length s
unfolding trim_trailing
trim_trailing-length [] = omega arith
trim_trailing-length (c ∷ s) = ground (arith, trim_trailing-length s)

-- The normalized text is no longer than is allowed; there is a position for each character of the
-- window and one more; and the positions ascend, and go no further than is allowed.
pub normalize_snippet_with_mapping_ws-bounds :
    (content : Text) (start end max_chars : ℕ) (mode : WhitespaceMode)
    → (length (normalize_snippet_with_mapping_ws content start end max_chars mode).0 ≤ max_chars)
      × (length (normalize_snippet_with_mapping_ws content start end max_chars mode).1
          ≡ suc (length (take (end - start) (drop start content))))
      × Ascending 0 max_chars (normalize_snippet_with_mapping_ws content start end max_chars mode).1
unfolding normalize_snippet_with_mapping_ws
normalize_snippet_with_mapping_ws-bounds content start end max_chars mode =
    let window : Text = take (end - start) (drop start content) in
    let out : Text × List ℕ = normalize_from mode max_chars window initial in
    let loop = normalize_from-Normalized mode max_chars window initial (omega arith) in
    let size : 0 + length out.0 ≤ max_chars = loop.size in
    elim (Bool-cases (leb end start)) [
      | inl none_left ↦
          let nothing : end - start ≡ 0 = ground arith in
          rw (none_left, nothing) (omega arith, refl, (omega arith, omega arith, tt))
      | inr some_left ↦ rw some_left (
        omega (arith, trim_trailing-length out.0),
        loop.count,
        Ascending-widen 0 0 (0 + length out.0) max_chars out.1 (omega arith) (omega arith)
            loop.ascends,
      )
    ]
