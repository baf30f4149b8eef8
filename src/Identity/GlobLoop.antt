-- ===== src/Identity/GlobLoop.antt =====
-- The loop of `glob` of internal/control/sqlite/store.go ends within its fuel, and what it answers.
use autback.Prelude.{
  ℕ, zero, suc, ◌+◌, ◌*◌, ◌≤◌, ◌<◌, ◌≡◌, refl, sym, subst, inl, inr, ◌↔◌, String, Bool, true, false,
  Option, none, some, [], ◌∷◌, ◌==◌, if◌then◌else◌, length, arith,
}
use autback.Identity.Glob.{Runes, runes, star, Back, retry, only_stars, accepts, glob_from, glob}
use autback.Identity.GlobMatches.{
  Matches, one, skip, take, star_free, only_stars-Matches, one_inv, pattern_end, star_inv,
  star_drop, star_star,
}

-- An answer, which is right about `G`: a `true` always is, a `false` under `Free`.
abbrev pub Answers : Type 0 → Type 0 → Option Bool → Type 0
Answers G Free r = (b : Bool) × (r ≡ some b) × (b ≡ true → G) × (Free → G → b ≡ true)

Matches-star : {a b : ℕ} {p s : Runes} → a ≡ b → Matches (a ∷ p) s → Matches (b ∷ p) s
Matches-star {p} {s} e d = subst (λ x. Matches (x ∷ p) s) e d

end_inv : {a : ℕ} {p : Runes} → Matches (a ∷ p) [] → Matches p []
end_inv (skip h d) = d

not_at_end : {c : ℕ} {s : Runes} → ¬ Matches [] (c ∷ s)
not_at_end d = absurd (ground (arith, pattern_end d))

Answers-if :
    (G Free : Type 0) (b : Bool) (r t : Option Bool)
    → (b ≡ true → Answers G Free r)
    → (b ≡ false → Answers G Free t)
    → Answers G Free (if b then r else t)
Answers-if G Free true r t h k = h refl
Answers-if G Free false r t h k = k refl

is_star : {a : ℕ} → (a == star) ≡ true → star ≡ a
is_star e = ground arith

not_accepted : {b : Bool} → b ≡ false → b ≡ true → ⊥
not_accepted n e = ground arith

accepted_plain :
    (a c : ℕ) (s : Runes) → accepts a c ≡ true → star_free (c ∷ s) ≡ true → (a == star) ≡ false
accepted_plain a c s e free = ground arith

-- `G` is the question asked at the start, `Free` says that the value has no star, and every pattern
-- in play is shorter than `k`.
module _ (G Free : Type 0) (k : ℕ) where
  -- What is known of the position to go back to. `m` bounds the value that is left there.
  abbrev Saved : ℕ → Runes → Runes → Back → Type 0
  Saved m p s none = Free → G → Matches p s
  Saved m p s (some (bp, bs)) =
      (Matches (star ∷ bp) bs → G)
      × (Free → G → Matches (star ∷ bp) bs)
      × (Free → Matches bp bs → Matches p s)
      × (Free → star_free bs ≡ true)
      × (length s ≤ length bs)
      × (length bs ≤ m)
      × (length bp < k)

  record Holds (f m : ℕ) (p s : Runes) (back : Back) : Type 0 where
    now : Matches p s → G
    behind_star : Free → G → Matches (star ∷ p) s
    free : Free → star_free s ≡ true
    saved : Saved m p s back
    value_bound : length s ≤ m
    pattern_bound : length p < k
    fuel : m * k + length p < f

  Saved-forward :
      (m a c : ℕ) (p s : Runes) (back : Back)
      → accepts a c ≡ true
      → (Free → (a == star) ≡ false)
      → Saved m (a ∷ p) (c ∷ s) back
      → Saved m p s back
  Saved-forward m a c p s none e plain h = λ x g. (one_inv (plain x) (h x g)).1
  Saved-forward m a c p s (some (bp, bs)) e plain (found, kept, down, free, shorter, hs, hp) =
      (found, kept, λ x d. (one_inv (plain x) (down x d)).1, free, omega arith, hs, hp)

  -- The case that takes one character.
  Holds-forward :
      {f m a c : ℕ} {p s : Runes} {back : Back}
      → accepts a c ≡ true
      → Holds (suc f) m (a ∷ p) (c ∷ s) back
      → Holds f m p s back
  Holds-forward {m} {a} {c} {p} {s} {back} e h =
      let plain = accepted_plain a c s e in
      record {
        now = λ d. h.now (one e d);
        behind_star = λ x g. star_drop s refl (plain (h.free x)) (h.free x) (h.behind_star x g);
        free = λ x. ground (arith, h.free x);
        saved = Saved-forward m a c p s back e (λ x. plain (h.free x)) h.saved;
        value_bound = omega (arith, h.value_bound);
        pattern_bound = omega (arith, h.pattern_bound);
        fuel = omega (arith, h.fuel);
      }

  -- A start right behind a star.
  Holds-restart :
      {f m : ℕ} {p s : Runes}
      → (Matches (star ∷ p) s → G)
      → (Free → G → Matches (star ∷ p) s)
      → (Free → star_free s ≡ true)
      → length s ≤ m
      → length p < k
      → m * k + length p < f
      → Holds f m p s (some (p, s))
  Holds-restart found kept free hs hp hf = record {
    now = λ d. found (skip refl d);
    behind_star = kept;
    free = free;
    saved = (found, kept, λ x d. d, free, omega arith, hs, hp);
    value_bound = hs;
    pattern_bound = hp;
    fuel = hf;
  }

  -- The case that remembers a star.
  Holds-at_star :
      {f m a c : ℕ} {p s : Runes} {back : Back}
      → (a == star) ≡ true
      → Holds (suc f) m (a ∷ p) (c ∷ s) back
      → Holds f m p (c ∷ s) (some (p, c ∷ s))
  Holds-at_star {c} {s} e h =
      Holds-restart (λ d. h.now (Matches-star (is_star e) d))
        (λ x g.
          Matches-star (sym (is_star e)) (star_star (c ∷ s) refl e (h.free x) (h.behind_star x g)))
        h.free h.value_bound (omega (arith, h.pattern_bound)) (omega (arith, h.fuel))

  retry-Answers :
      {f c : ℕ} {p s : Runes} (m : ℕ) (back : Back)
      → ((m' : ℕ) (p' s' : Runes) (b : Back)
          → Holds f m' p' s' b
          → Answers G Free (glob_from f p' s' b))
      → Holds (suc f) m p (c ∷ s) back
      → (Free → ¬ Matches p (c ∷ s))
      → Answers G Free (retry back (glob_from f))
  retry-Answers m none ih h no_match =
      (false, refl, λ e. absurd (ground arith), λ x g. absurd (no_match x (h.saved x g)))
  retry-Answers m (some (bp, [])) ih h no_match = absurd (omega (arith, h.saved.4))
  retry-Answers zero (some (bp, x ∷ bs)) ih h no_match = absurd (omega (arith, h.saved.5))
  retry-Answers (suc m) (some (bp, x ∷ bs)) ih h no_match =
      let (found, kept, down, free, _, hs, hp) = h.saved in
      ih m bp bs (some (bp, bs)) (
        Holds-restart (λ d. found (take refl d))
          (λ y g. elim (star_inv refl (free y) (kept y g)) [
            | inl d ↦ absurd (no_match y (down y d))
            | inr d ↦ d
          ])
          (λ y. ground (arith, free y)) (omega arith) hp (omega (arith, h.fuel)))

  glob_from-Answers :
      (f m : ℕ) (p s : Runes) (back : Back)
      → Holds f m p s back
      → Answers G Free (glob_from f p s back)
  unfolding glob_from
  glob_from-Answers zero m p s back h = absurd (omega (arith, h.fuel))
  glob_from-Answers (suc f) m p [] back h =
      let (sound, complete) = only_stars-Matches p in
      (only_stars p, refl, λ e. h.now (sound e), λ x g. complete (end_inv (h.behind_star x g)))
  glob_from-Answers (suc f) m [] (c ∷ s) back h =
      retry-Answers m back (glob_from-Answers f) h λ x d. not_at_end d
  glob_from-Answers (suc f) m (a ∷ p) (c ∷ s) back h =
      Answers-if G Free (accepts a c) _ _ (λ e. glob_from-Answers f m p s back (Holds-forward e h))
        λ n.
          Answers-if G Free (a == star) _ _
            (λ e. glob_from-Answers f m p (c ∷ s) (some (p, c ∷ s)) (Holds-at_star e h))
            (λ e.
              retry-Answers m back (glob_from-Answers f) h λ x d. not_accepted n (one_inv e d).0)

Holds-start :
    (G Free : Type 0) (p s : Runes)
    → ((Free → star_free s ≡ true))
    → G ↔ Matches p s
    → Holds G Free (length p + 1) ((length s + 1) * (length p + 1)) (length s) p s none
Holds-start G Free p s free e = record {
  now = e.1;
  behind_star = λ x g. skip refl (e.0 g);
  free = free;
  saved = λ x g. e.0 g;
  value_bound = omega arith;
  pattern_bound = omega arith;
  fuel = ground arith;
}

-- `glob` ends within its fuel for every pattern and value. It answers `true` only if the value
-- matches the pattern, and if no character of the value is a star, it answers `true` whenever the
-- value matches.
pub glob-Answers :
    (pattern value : String)
    → (b : Bool) × (glob pattern value ≡ some b)
      × (b ≡ true → Matches (runes pattern) (runes value))
      × (star_free (runes value) ≡ true → Matches (runes pattern) (runes value) → b ≡ true)
unfolding glob
glob-Answers pattern value =
    glob_from-Answers (Matches (runes pattern) (runes value)) (star_free (runes value) ≡ true) _ _ _
      (runes pattern) (runes value) none
      (Holds-start _ _ (runes pattern) (runes value) (λ x. x) (λ d. d, λ d. d))
