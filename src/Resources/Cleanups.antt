-- ===== src/Resources/Cleanups.antt =====
-- What Cleanup of internal/operation/cleanup/resources.go removes, and what it leaves.
use autback.Prelude.{
  ◌≡◌, refl, String, Bool, true, false, ◌&&◌, Option, none, some, List, [], ◌∷◌, ◌++◌, ◌⊎◌, inl,
  inr, All, Bool-cases, arith,
}
use autback.Control.{Operation}
use autback.Resources.{
  ResourceSet, BaselineRow, Runtime, Fault, verify, resource_baseline, is_owned, is_none, is_empty,
  difference, remove_owned, remaining, verified, verify_after, counted, graced, grace, cleanup,
}
use autback.Resources.Sets.{none_owned}

append_none : {A : Type 0} (xs ys : List A) → xs ++ ys ≡ [] → ys ≡ []
append_none [] ys e = e
append_none (x ∷ xs) ys e = absurd (cc)

is_none-lem : (xs : List String) → is_none xs ≡ true → xs ≡ []
is_none-lem [] e = refl
is_none-lem (x ∷ xs) e = absurd (cc)

-- None of the resources is owned by the operation with the baseline.
abbrev pub NoneOwned : ResourceSet → ResourceSet → Type 0
NoneOwned b r =
    All (λ id. is_owned b.services id ≡ false) r.services
    × All (λ id. is_owned b.containers id ≡ false) r.containers
    × All (λ id. is_owned b.networks id ≡ false) r.networks
    × All (λ id. is_owned b.volumes id ≡ false) r.volumes

all_none :
    (p q r s : Bool) → (p && q && r && s) ≡ true → (p ≡ true) × (q ≡ true) × (r ≡ true) × (s ≡ true)
all_none p q r s h = ground arith

empty_difference : (r b : ResourceSet) → is_empty (difference r b) ≡ true → NoneOwned b r
empty_difference r b e =
    let (s, c, n, v) = all_none _ _ _ _ e in
    (
      none_owned r.services b.services (is_none-lem _ s),
      none_owned r.containers b.containers (is_none-lem _ c),
      none_owned r.networks b.networks (is_none-lem _ n),
      none_owned r.volumes b.volumes (is_none-lem _ v),
    )

module _ {W E : Type 0} (rt : Runtime W E) (b : ResourceSet) where
  -- The last thing done was an inventory, and it shows nothing that the operation owns.
  abbrev pub ShowsNone : W → Type 0
  ShowsNone w' = (w : W) × ((r : ResourceSet) × (rt.inventory w ≡ (inr r, w')) × NoneOwned b r)

  abbrev IsChecked : List (Fault E) × W → Type 0
  IsChecked x = x.0 ≡ [] → ShowsNone x.1

  remaining_none : (r : ResourceSet) → remaining rt r ≡ [] → is_empty r ≡ true
  remaining_none r = elim (Bool-cases (is_empty r)) [
    | inl e ↦ λ h. e
    | inr e ↦ rw e (λ h. absurd (cc))
  ]

  verified-IsChecked :
      (es : List (Fault E)) (w : W) (x : (E ⊎ ResourceSet) × W)
      → rt.inventory w ≡ x
      → IsChecked (verified rt b es x)
  verified-IsChecked es w (inl e, w') k h = absurd (cc (append_none es (verify e ∷ []) h))
  verified-IsChecked es w (inr r, w') k h =
      (w, (r, k, empty_difference r b (remaining_none (difference r b) (append_none es _ h))))

  verify_after-IsChecked : (x : List (Fault E) × W) → IsChecked (verify_after rt b x)
  verify_after-IsChecked (es, w) = verified-IsChecked es w (rt.inventory w) refl

  counted-IsChecked : (x : (E ⊎ ResourceSet) × W) → IsChecked (counted rt b x)
  counted-IsChecked (inl e, w) h = absurd (cc)
  counted-IsChecked (inr r, w) h = verify_after-IsChecked (remove_owned rt (difference r b) w) h

  graced-IsChecked : (x : Option E × W) → IsChecked (graced rt b x)
  graced-IsChecked (none, w) h = counted-IsChecked (rt.inventory w) h
  graced-IsChecked (some e, w) h = absurd (cc)

-- A cleanup without an error of an operation with a baseline ends with an inventory of Docker that
-- shows nothing that the operation owns: every resource that it lists was there when the baseline was
-- taken. So the worker is not freed while something is left.
pub clean_cleanup_leaves_nothing :
    {W E : Type 0} (rt : Runtime W E) (op : Operation) (rows : List BaselineRow) (b : ResourceSet)
    (w : W)
    → resource_baseline op.kind op.id rows ≡ some b
    → (cleanup rt op rows w).0 ≡ []
    → ShowsNone rt b (cleanup rt op rows w).1
unfolding cleanup
clean_cleanup_leaves_nothing rt op rows b w e =
    rw e (graced-IsChecked rt b (grace rt op.kind (rt.limit rt.timeout w)))
