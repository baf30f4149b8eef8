-- ===== src/Prelude/Counts.antt =====
-- How many rows a WHERE clause selects, before and after an UPDATE.
use Prim.Native.Nat.{◌+◌, ◌≤◌}
use mathlib.Core.Path.{◌≡◌, refl}
use mathlib.Core.Bool.{Bool, true, false}
use mathlib.Core.Option.{none, some}
use mathlib.Core.List.{List, [], ◌∷◌, ◌++◌}
use native.Mathlib.Omega.{arith}
use autback.Prelude.Tests.{if◌then◌else◌}
use autback.Prelude.Lists.{All}
use autback.Prelude.Rows.{update_where, count_where, find_where}

module _ {ℓ} {A : Type ℓ} where
  pub count_where-append :
      (p : A → Bool) (xs ys : List A)
      → count_where p (xs ++ ys) ≡ count_where p xs + count_where p ys
  unfolding count_where
  count_where-append p [] ys = omega arith
  count_where-append p (x ∷ xs) ys = omega (arith, count_where-append p xs ys)

  -- An update that the test q does not see leaves its count.
  pub count_where-update_where_same :
      (q p : A → Bool) (f : A → A) (rows : List A)
      → All (λ r. p r ≡ true → q (f r) ≡ q r) rows
      → count_where q (update_where p f rows) ≡ count_where q rows
  unfolding count_where update_where
  count_where-update_where_same q p f [] h = refl
  count_where-update_where_same q p f (r ∷ rs) h =
      ground (arith, h.0, count_where-update_where_same q p f rs h.1)

  pub update_where-none :
      (p : A → Bool) (f : A → A) (rows : List A)
      → count_where p rows ≡ 0
      → update_where p f rows ≡ rows
  unfolding count_where update_where
  update_where-none p f [] h = refl
  update_where-none p f (r ∷ rs) h = ground (arith, update_where-none p f rs)

  -- An update of rows that did not pass q adds at most the rows that it changes.
  pub count_where-update_where_le :
      (q p : A → Bool) (f : A → A) (rows : List A)
      → count_where q (update_where p f rows) ≤ count_where q rows + count_where p rows
  unfolding count_where update_where
  count_where-update_where_le q p f [] = omega arith
  count_where-update_where_le q p f (r ∷ rs) = ground (arith, count_where-update_where_le q p f rs)

  pub count_where-le :
      (q p : A → Bool) (rows : List A)
      → ((r : A) → q r ≡ true → p r ≡ true)
      → count_where q rows ≤ count_where p rows
  unfolding count_where
  count_where-le q p [] h = omega arith
  count_where-le q p (r ∷ rs) h = ground (arith, h r, count_where-le q p rs h)

  pub find_where-none :
      (p : A → Bool) (rows : List A) → count_where p rows ≡ 0 → find_where p rows ≡ none
  unfolding count_where find_where
  find_where-none p [] h = refl
  find_where-none p (r ∷ rs) h = ground (arith, find_where-none p rs)

  pub find_where-test :
      (p : A → Bool) (rows : List A) (r : A) → find_where p rows ≡ some r → p r ≡ true
  unfolding find_where
  find_where-test p [] r h = cc
  find_where-test p (s ∷ rs) r h = ground (arith, find_where-test p rs r)

  -- Rows that begin to pass q under the update are added to its count.
  pub count_where-update_where_gain :
      (q p : A → Bool) (f : A → A) (rows : List A)
      → All (λ r. p r ≡ true → (q r ≡ false) × (q (f r) ≡ true)) rows
      → count_where q (update_where p f rows) ≡ count_where q rows + count_where p rows
  unfolding count_where update_where
  count_where-update_where_gain q p f [] h = refl
  count_where-update_where_gain q p f (r ∷ rs) h =
      ground (arith, h.0, count_where-update_where_gain q p f rs h.1)

  -- Rows that stop to pass q are taken from it.
  pub count_where-update_where_loss :
      (q p : A → Bool) (f : A → A) (rows : List A)
      → All (λ r. p r ≡ true → (q r ≡ true) × (q (f r) ≡ false)) rows
      → count_where q (update_where p f rows) + count_where p rows ≡ count_where q rows
  unfolding count_where update_where
  count_where-update_where_loss q p f [] h = refl
  count_where-update_where_loss q p f (r ∷ rs) h =
      ground (arith, h.0, count_where-update_where_loss q p f rs h.1)

  pub find_where-append_new :
      (p : A → Bool) (rows : List A) (r : A)
      → find_where p rows ≡ none
      → p r ≡ true
      → find_where p (rows ++ r ∷ []) ≡ some r
  unfolding find_where
  find_where-append_new p [] r h t = ground arith
  find_where-append_new p (s ∷ rs) r h t = ground (arith, find_where-append_new p rs r)

  pub find_where-update_where :
      (q p : A → Bool) (f : A → A) (rows : List A) (r : A)
      → All (λ s. p s ≡ true → q (f s) ≡ q s) rows
      → find_where q rows ≡ some r
      → find_where q (update_where p f rows) ≡ some (if p r then f r else r)
  unfolding find_where update_where
  find_where-update_where q p f [] r h e = absurd (cc)
  find_where-update_where q p f (s ∷ rs) r h e =
      ground (arith, h.0, find_where-update_where q p f rs r h.1)
