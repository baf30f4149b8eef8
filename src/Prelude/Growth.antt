-- ===== src/Prelude/Growth.antt =====
-- A table that loses no row: each row is related to the one that stands in its place later, and
-- new rows come at the end.
use mathlib.Core.Path.{◌≡◌, refl}
use mathlib.Core.Bool.{Bool, true, false}
use mathlib.Core.Option.{some}
use mathlib.Core.List.{List, [], ◌∷◌, ◌++◌}
use native.Mathlib.Omega.{arith}
use autback.Prelude.Tests.{if◌then◌else◌}
use autback.Prelude.Lists.{All}
use autback.Prelude.Rows.{update_where, find_where}

pub data Grows {ℓ κ} {A : Type ℓ} (R : A → A → Type κ) : List A → List A → Type (ℓ ⊔ κ) where
  fresh : (rows : List A) → Grows R [] rows
  keep : {r s : A} {rs ss : List A} → R r s → Grows R rs ss → Grows R (r ∷ rs) (s ∷ ss)

module _ {ℓ κ} {A : Type ℓ} (R : A → A → Type κ) where
  pub Grows-append : (same : (r : A) → R r r) (rows added : List A) → Grows R rows (rows ++ added)
  Grows-append same [] added = fresh added
  Grows-append same (r ∷ rs) added = keep (same r) (Grows-append same rs added)

  pub Grows-refl : (same : (r : A) → R r r) (rows : List A) → Grows R rows rows
  Grows-refl same [] = fresh []
  Grows-refl same (r ∷ rs) = keep (same r) (Grows-refl same rs)

  pub Grows-trans :
      (joins : (r s t : A) → R r s → R s t → R r t) {xs ys zs : List A}
      → Grows R xs ys
      → Grows R ys zs
      → Grows R xs zs
  Grows-trans joins (fresh ys) k = fresh _
  Grows-trans joins (keep a g) (keep b k) = keep (joins _ _ _ a b) (Grows-trans joins g k)

  pub Grows-update_where :
      (same : (r : A) → R r r) (p : A → Bool) (f : A → A) (rows : List A)
      → All (λ r. p r ≡ true → R r (f r)) rows
      → Grows R rows (update_where p f rows)
  unfolding update_where
  Grows-update_where same p f [] h = fresh []
  Grows-update_where same p f (r ∷ rs) h =
      keep (one (p r) (h.0)) (Grows-update_where same p f rs h.1)
    where
      one : (b : Bool) → (b ≡ true → R r (f r)) → R r (if b then f r else r)
      one true k = k refl
      one false k = same r

  -- A row found by a test that R keeps is found again, in its later form.
  pub find_where-Grows :
      (p : A → Bool) (keeps : (r s : A) → R r s → p s ≡ p r) {xs ys : List A} (r : A)
      → Grows R xs ys
      → find_where p xs ≡ some r
      → (s : A) × (find_where p ys ≡ some s) × R r s
  unfolding find_where
  find_where-Grows p keeps r (fresh rows) h = absurd (cc)
  find_where-Grows p keeps r (keep {r = x} {s = y} {rs} {ss} a g) h =
      one (p x) refl h (find_where-Grows p keeps r g)
    where
      one :
          (b : Bool)
          → p x ≡ b
          → (if b then some x else find_where p rs) ≡ some r
          → (find_where p rs ≡ some r → (s : A) × (find_where p ss ≡ some s) × R r s)
          → (s : A) × ((if p y then some y else find_where p ss) ≡ some s) × R r s
      one true e k ih = (y, ground (arith, keeps x y a), subst_left (ground arith) a)
        where
          subst_left : x ≡ r → R x y → R r y
          subst_left q u = rw (← q) u
      one false e k ih = let (s, found, related) = ih k in (s, ground (arith, keeps x y a), related)

pub All-map {ℓ κ ι} :
    {A : Type ℓ} (P : A → Type κ) (Q : A → Type ι) (xs : List A)
    → ((a : A) → P a → Q a)
    → All P xs
    → All Q xs
All-map P Q [] f h = tt
All-map P Q (x ∷ xs) f h = (f x h.0, All-map P Q xs f h.1)

pub All-every {ℓ κ} : {A : Type ℓ} (P : A → Type κ) (xs : List A) → ((a : A) → P a) → All P xs
All-every P [] f = tt
All-every P (x ∷ xs) f = (f x, All-every P xs f)
