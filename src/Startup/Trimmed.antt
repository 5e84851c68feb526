-- ===== src/Startup/Trimmed.antt =====
-- Trimming a text twice is trimming it once.
use payments_engine.Base.{
  ℕ, false, [], ◌∷◌, ◌++◌, Text, ◌≡◌, refl, ap, ◌∙◌, ◌⊎◌, inl, inr, Bool-cases,
}
use payments_engine.Base.Strings.{is_space, trim_left, trim_space}
use mathlib.Core.List.{reverse, reverse-cons, reverse-append, reverse-reverse}

-- the last character stays where it is no space
trim_left-snoc :
    (s : Text) (c : ℕ) → is_space c ≡ false → trim_left (s ++ (c ∷ [])) ≡ trim_left s ++ (c ∷ [])
unfolding trim_left
trim_left-snoc [] c h = rw h refl
trim_left-snoc (d ∷ s) c h = elim (Bool-cases (is_space d)) [
  | inl space ↦ rw space (trim_left-snoc s c h)
  | inr letter ↦ rw letter refl
]

trim_left-cons : (c : ℕ) (s : Text) → is_space c ≡ false → trim_left (c ∷ s) ≡ c ∷ s
unfolding trim_left
trim_left-cons c s h = rw h refl

trim_left-trim_left : (s : Text) → trim_left (trim_left s) ≡ trim_left s
unfolding trim_left
trim_left-trim_left [] = refl
trim_left-trim_left (c ∷ s) = elim (Bool-cases (is_space c)) [
  | inl space ↦ rw space (trim_left-trim_left s)
  | inr letter ↦ rw (letter, letter) refl
]

-- a text that starts with no space, trimmed on the right
trim_right-cons :
    (c : ℕ) (s : Text)
    → is_space c ≡ false
    → reverse (trim_left (reverse (c ∷ s))) ≡ c ∷ reverse (trim_left (reverse s))
trim_right-cons c s h =
    ap (λ (t : Text). reverse (trim_left t)) (reverse-cons c s)
    ∙ ap reverse (trim_left-snoc (reverse s) c h)
    ∙ reverse-append (trim_left (reverse s)) (c ∷ [])

trim_left-cases :
    (s : Text)
    → (trim_left s ≡ []) ⊎ ((c : ℕ) × (t : Text) × (trim_left s ≡ c ∷ t) × (is_space c ≡ false))
unfolding trim_left
trim_left-cases [] = inl refl
trim_left-cases (c ∷ s) = elim (Bool-cases (is_space c)) [
  | inl space ↦ rw space (trim_left-cases s)
  | inr letter ↦ inr (c, s, rw letter refl, letter)
]

trim_space-cons :
    (c : ℕ) (s : Text)
    → is_space c ≡ false
    → trim_space (c ∷ s) ≡ c ∷ reverse (trim_left (reverse s))
unfolding trim_space
trim_space-cons c s h =
    ap (λ (t : Text). reverse (trim_left (reverse t))) (trim_left-cons c s h)
    ∙ trim_right-cons c s h

right_again :
    (s : Text)
    → reverse (trim_left (reverse (reverse (trim_left (reverse s)))))
      ≡ reverse (trim_left (reverse s))
right_again s =
    ap (λ (t : Text). reverse (trim_left t)) (reverse-reverse (trim_left (reverse s)))
    ∙ ap reverse (trim_left-trim_left (reverse s))

trim_space_from : (s t : Text) → trim_left s ≡ t → trim_space s ≡ reverse (trim_left (reverse t))
unfolding trim_space
trim_space_from s t e = ap (λ (x : Text). reverse (trim_left (reverse x))) e

trim_space_nil : trim_space [] ≡ []
unfolding trim_space trim_left
trim_space_nil = refl

nothing_left : reverse (trim_left (reverse [])) ≡ []
unfolding trim_left
nothing_left = refl

pub trim_space-trim_space : (s : Text) → trim_space (trim_space s) ≡ trim_space s
trim_space-trim_space s = elim (trim_left-cases s) [
  | inl e ↦ rw (trim_space_from s [] e ∙ nothing_left) trim_space_nil
  | inr (c, t, e, letter) ↦ rw (trim_space_from s (c ∷ t) e ∙ trim_right-cons c t letter) (
      trim_space-cons c (reverse (trim_left (reverse t))) letter
      ∙ ap (λ (u : Text). c ∷ u) (right_again t))
]
