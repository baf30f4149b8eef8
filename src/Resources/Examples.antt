-- ===== src/Resources/Examples.antt =====
-- The theorems on internal/operation/cleanup/resources.go at a small Docker.
use autback.Prelude.{
  ◌≡◌, refl, ap, String, true, false, not, none, some, List, [], ◌∷◌, str_eq, inr, find_where,
  select_where, insert_by, order_by, Bool-cases, inl, eq_iff, eq_refl,
}
use autback.Control.{Operation, OperationKind, OperationState}
use autback.Resources.{
  ResourceSet, BaselineRow, Runtime, has_text, is_owned, resource_baseline, cleanup, remove_owned,
  remove_each, unique_sorted, unique_from,
}
use autback.Resources.Cleanups.{ShowsNone, clean_cleanup_leaves_nothing}
use autback.Resources.Owned.{cleanup_spares_baseline}

abbrev drop_text : String → List String → List String
drop_text id xs = select_where (λ x. not (str_eq x id)) xs

-- The world is what Docker holds; every removal succeeds.
abbrev docker : Runtime ResourceSet String
docker = record {
  grace_period = 10;
  timeout = 100;
  limit = λ d w. w;
  wait = λ d w. (none, w);
  inventory = λ w. (inr w, w);
  remove_service = λ id w. (none, record w { services = drop_text id w.services });
  remove_container = λ id w. (none, record w { containers = drop_text id w.containers });
  remove_network = λ id w. (none, record w { networks = drop_text id w.networks });
  remove_volume = λ id w. (none, record w { volumes = drop_text id w.volumes });
}

abbrev before : ResourceSet
before = record { services = []; containers = "c1" ∷ []; networks = []; volumes = "v1" ∷ [] }

abbrev after : ResourceSet
after = record {
  services = "s2" ∷ [];
  containers = "c2" ∷ "c1" ∷ [];
  networks = [];
  volumes = "v1" ∷ "v2" ∷ [];
}

abbrev op : Operation
op = record {
  kind = OperationKind.job;
  id = "a";
  state = OperationState.cleaning;
  accepted_at = 1;
  leased_at = none;
  cleanup_attempts = 1;
  cleanup_error = "";
  cleanup_updated_at = none;
}

abbrev rows : List BaselineRow
rows = record { kind = OperationKind.job; operation_id = "a"; resources = before } ∷ []

found_baseline : resource_baseline OperationKind.job "a" rows ≡ some before
unfolding resource_baseline find_where
found_baseline = refl

cleans_up : cleanup docker op rows after ≡ ([], before)
unfolding cleanup resource_baseline find_where remove_owned remove_each has_text unique_from
    unique_sorted select_where insert_by order_by
cleans_up = refl

clean_cleanup_leaves_nothing_example : ShowsNone docker before (cleanup docker op rows after).1
clean_cleanup_leaves_nothing_example =
    clean_cleanup_leaves_nothing docker op rows before after found_baseline
      (ap (λ x. x.0) cleans_up)

abbrev HasC1 : ResourceSet → Type 0
HasC1 w = has_text "c1" w.containers ≡ true

drop_text_keeps :
    (x id : String) (xs : List String)
    → str_eq x id ≡ false
    → has_text x xs ≡ true
    → has_text x (drop_text id xs) ≡ true
unfolding has_text select_where
drop_text_keeps x id [] n = λ h. h
drop_text_keeps x id (y ∷ ys) n = elim (Bool-cases (str_eq y x)) [
  | inl e ↦ rw ((eq_iff y x).0 e, n, eq_refl x) (λ h. refl)
  | inr e ↦ rw e (elim (Bool-cases (str_eq y id)) [
    | inl k ↦ rw k (λ h. drop_text_keeps x id ys n h)
    | inr k ↦ rw (k, e) (λ h. drop_text_keeps x id ys n h)
  ])
]

other_than_c1 : (id : String) → is_owned before.containers id ≡ true → str_eq "c1" id ≡ false
unfolding has_text
other_than_c1 id = elim (Bool-cases (str_eq "c1" id)) [
  | inl e ↦ rw e (λ o. absurd (cc))
  | inr e ↦ λ o. e
]

HasC1-after : HasC1 after
unfolding has_text
HasC1-after = refl

cleanup_spares_baseline_example : HasC1 (cleanup docker op rows after).1
cleanup_spares_baseline_example =
    cleanup_spares_baseline docker HasC1 before (λ w v. v) (λ id w o v. v)
      (λ id w o v. drop_text_keeps "c1" id w.containers (other_than_c1 id o) v) (λ id w o v. v)
      (λ id w o v. v) op rows after (λ d w v. v) (λ d w v. v) found_baseline HasC1-after
