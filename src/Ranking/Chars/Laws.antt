-- ===== src/Ranking/Chars/Laws.antt =====
-- Equality and prefixes of strings.
use clipkitty.Base.{
  ℕ, zero, suc, ◌+◌, ◌≤◌, true, [], ◌∷◌, ◌++◌, length, map, drop, ◌≡◌, refl, arith,
}
use clipkitty.Ranking.Chars.{Text, text_eq, starts_with}

pub text_eq_sound : (s t : Text) → text_eq s t ≡ true → s ≡ t
unfolding text_eq
text_eq_sound [] [] e = refl
text_eq_sound [] (_ ∷ _) e = ground arith
text_eq_sound (_ ∷ _) [] e = ground arith
text_eq_sound (a ∷ s) (b ∷ t) e =
    let same : a ≡ b = ground arith in
    let rest : s ≡ t = text_eq_sound s t (ground arith) in rw (same, rest) refl

pub text_eq_refl : (s : Text) → text_eq s s ≡ true
unfolding text_eq
text_eq_refl [] = refl
text_eq_refl (a ∷ s) = ground (arith, text_eq_refl s)

pub starts_with-append : (s p : Text) → starts_with s p ≡ true → (rest : Text) × (s ≡ p ++ rest)
unfolding starts_with
starts_with-append s [] e = (s, refl)
starts_with-append [] (_ ∷ _) e = ground arith
starts_with-append (a ∷ s) (b ∷ p) e =
    let same : a ≡ b = ground arith in
    let (rest, tail) = starts_with-append s p (ground arith) in (rest, rw (same, tail) refl)

pub starts_with-length : (s p : Text) → starts_with s p ≡ true → length p ≤ length s
unfolding starts_with
starts_with-length s [] e = omega arith
starts_with-length [] (_ ∷ _) e = ground arith
starts_with-length (a ∷ s) (b ∷ p) e = ground (arith, starts_with-length s p)

pub length-drop : (n : ℕ) (s : Text) → n ≤ length s → length (drop n s) + n ≡ length s
length-drop zero s h = omega arith
length-drop (suc n) [] h = ground arith
length-drop (suc n) (_ ∷ s) h = omega (arith, length-drop n s (omega arith))

pub length-map : (f : ℕ → ℕ) (s : Text) → length (map f s) ≡ length s
length-map f [] = refl
length-map f (_ ∷ s) = omega (arith, length-map f s)
