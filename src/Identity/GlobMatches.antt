-- ===== src/Identity/GlobMatches.antt =====
-- What `glob` of internal/control/sqlite/store.go decides: a star stands for any run of characters,
-- a question mark for one.
use autback.Prelude.{
  ℕ, ◌≡◌, refl, ◌⊎◌, inl, inr, ◌↔◌, Bool, true, false, ◌&&◌, not, [], ◌∷◌, ◌==◌, arith,
}
use autback.Identity.Glob.{Runes, star, tail, only_stars, accepts}

pub data Matches : Runes → Runes → Type 0 where
  done : Matches [] []
  one : {a c : ℕ} {p s : Runes} → accepts a c ≡ true → Matches p s → Matches (a ∷ p) (c ∷ s)
  skip : {a : ℕ} {p s : Runes} → (a == star) ≡ true → Matches p s → Matches (a ∷ p) s
  take : {a c : ℕ} {p s : Runes} → (a == star) ≡ true → Matches (a ∷ p) s → Matches (a ∷ p) (c ∷ s)

abbrev pub star_free : Runes → Bool
star_free [] = true
star_free (c ∷ s) = not (c == star) && star_free s

pub only_stars-Matches : (p : Runes) → (only_stars p ≡ true) ↔ Matches p []
only_stars-Matches [] = (λ _. done, λ _. refl)
only_stars-Matches (a ∷ p) =
    let (sound, complete) = only_stars-Matches p in
    (λ h. skip (ground arith) (sound (ground arith)), backward complete)
  where
    backward : (Matches p [] → only_stars p ≡ true) → Matches (a ∷ p) [] → only_stars (a ∷ p) ≡ true
    backward k (skip h d) = ground (arith, k d)

-- A rune that is no star takes one character.
pub one_inv :
    {a c : ℕ} {p s : Runes}
    → (a == star) ≡ false
    → Matches (a ∷ p) (c ∷ s)
    → (accepts a c ≡ true) × Matches p s
one_inv h (one e d) = (e, d)
one_inv h (skip e d) = absurd (ground arith)
one_inv h (take e d) = absurd (ground arith)

pub pattern_end : {s : Runes} → Matches [] s → s ≡ []
pattern_end done = refl

-- A star that stops nowhere here takes a character.
pub star_inv :
    {a : ℕ} {p s : Runes}
    → (a == star) ≡ true
    → star_free s ≡ true
    → Matches (a ∷ p) s
    → Matches p s ⊎ Matches (a ∷ p) (tail s)
star_inv h free (one e d) = absurd (ground arith)
star_inv h free (skip e d) = inl d
star_inv h free (take e d) = inr d

-- Behind a star, a rune that takes one character may be left out with the character.
pub star_drop :
    {a b c : ℕ} {p : Runes} (s : Runes)
    → (a == star) ≡ true
    → (b == star) ≡ false
    → star_free (c ∷ s) ≡ true
    → Matches (a ∷ b ∷ p) (c ∷ s)
    → Matches (a ∷ p) s
star_drop s h k free (one e d) = absurd (ground arith)
star_drop s h k free (skip e d) = skip h (one_inv k d).1
star_drop [] h k free (take e (skip e' (skip e'' d))) = absurd (ground arith)
star_drop (c' ∷ s) h k free (take e d) = take h (star_drop s h k (ground arith) d)

-- Of two stars, one is enough.
pub star_star :
    {a b : ℕ} {p : Runes} (s : Runes)
    → (a == star) ≡ true
    → (b == star) ≡ true
    → star_free s ≡ true
    → Matches (a ∷ b ∷ p) s
    → Matches (b ∷ p) s
star_star [] h k free (skip e d) = d
star_star (c ∷ s) h k free (one e d) = absurd (ground arith)
star_star (c ∷ s) h k free (skip e d) = d
star_star (c ∷ s) h k free (take e d) = take k (star_star s h k (ground arith) d)
