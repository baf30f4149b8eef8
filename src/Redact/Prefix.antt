-- ===== src/Redact/Prefix.antt =====
-- What matchPrefix of internal/operation/redact/writer.go computes.
use autback.Prelude.{
  ℕ, ◌≡◌, refl, Bool, true, false, ◌&&◌, ◌||◌, List, [], ◌∷◌, ◌++◌, arith, length, take, ltb, leb,
  ◌==◌, if◌then◌else◌, max,
}
use autback.Redact.{Bytes, bytes_eq, match_secret, match_from, match_prefix}

-- The text begins with the secret.
abbrev pub begins : Bytes → Bytes → Bool
begins [] text = true
begins (a ∷ secret) [] = false
begins (a ∷ secret) (b ∷ text) = a == b && begins secret text

-- The text is shorter than the secret, and the secret begins with it.
abbrev pub may_become : Bytes → Bytes → Bool
may_become [] text = false
may_become (a ∷ secret) [] = true
may_become (a ∷ secret) (b ∷ text) = a == b && may_become secret text

begins_lem :
    (s p : Bytes) → (leb (length s) (length p) && bytes_eq (take (length s) p) s) ≡ begins s p
unfolding bytes_eq
begins_lem [] p = ground arith
begins_lem (a ∷ s) [] = ground arith
begins_lem (a ∷ s) (b ∷ p) = ground (arith, begins_lem s p)

may_become_lem :
    (s p : Bytes) → (ltb (length p) (length s) && bytes_eq p (take (length p) s)) ≡ may_become s p
unfolding bytes_eq
may_become_lem [] p = ground arith
may_become_lem (a ∷ s) [] = ground arith
may_become_lem (a ∷ s) (b ∷ p) = ground (arith, may_become_lem s p)

-- More text does not change whether it begins with a secret, unless it may become that secret.
pub begins-append : (s p f : Bytes) → may_become s p ≡ false → begins s (p ++ f) ≡ begins s p
begins-append [] p f h = refl
begins-append (a ∷ s) [] f h = absurd (ground arith)
begins-append (a ∷ s) (b ∷ p) f h = ground (arith, begins-append s p f)

begins-not_may_become : (s p : Bytes) → begins s p ≡ true → may_become s p ≡ false
begins-not_may_become [] p h = refl
begins-not_may_become (a ∷ s) [] h = absurd (ground arith)
begins-not_may_become (a ∷ s) (b ∷ p) h = ground (arith, begins-not_may_become s p)

-- The length of the longest secret that the text begins with.
abbrev pub longest : List Bytes → Bytes → ℕ
longest [] text = 0
longest (s ∷ ss) text = if begins s text then max (length s) (longest ss text) else longest ss text

abbrev pub any_may_become : List Bytes → Bytes → Bool
any_may_become [] text = false
any_may_become (s ∷ ss) text = may_become s text || any_may_become ss text

match_secret_lem :
    (p s : Bytes) (e : ℕ) (b : Bool)
    → match_secret p s (e, b) ≡ ((if begins s p then max e (length s) else e), b || may_become s p)
unfolding match_secret
match_secret_lem p s e b =
    ground (arith, begins_lem s p, may_become_lem s p, begins-not_may_become s p)

match_from_lem :
    (ss : List Bytes) (p : Bytes) (e : ℕ) (b : Bool)
    → match_from (e, b) ss p ≡ (max e (longest ss p), b || any_may_become ss p)
unfolding match_from
match_from_lem [] p e b = ground arith
match_from_lem (s ∷ ss) p e b = ground (
  arith,
  match_secret_lem p s e b,
  match_from_lem ss p (if begins s p then max e (length s) else e) (b || may_become s p),
)

pub match_prefix_lem :
    (ss : List Bytes) (p : Bytes) → match_prefix ss p ≡ (longest ss p, any_may_become ss p)
unfolding match_prefix
match_prefix_lem ss p = ground (arith, match_from_lem ss p 0 false)

-- A text that cannot become a longer secret shows its longest secret, whatever follows.
pub longest-append :
    (ss : List Bytes) (p f : Bytes)
    → any_may_become ss p ≡ false
    → longest ss (p ++ f) ≡ longest ss p
longest-append [] p f h = refl
longest-append (s ∷ ss) p f h = ground (arith, begins-append s p f, longest-append ss p f)
