-- ===== src/Resources/Owned.antt =====
-- Which resources Cleanup of internal/operation/cleanup/resources.go removes.
use autback.Prelude.{ℕ, ◌≡◌, String, true, Option, none, some, List, [], ◌∷◌, ◌⊎◌, inl, inr, All}
use autback.Control.{Operation, OperationKind}
use autback.Resources.{
  ResourceSet, BaselineRow, Runtime, Fault, resource_baseline, is_owned, difference, removed,
  remove_each, remove_owned, verified, verify_after, counted, graced, grace, cleanup,
}
use autback.Resources.Sets.{owned_listed}

module _ {W E : Type 0} (rt : Runtime W E) (P : W → Type 0) where
  removed-Holds :
      (id : String) (x : Option E × W) (es : List (Fault E)) → P x.1 → P (removed rt id x es).1
  removed-Holds id (none, w) es v = v
  removed-Holds id (some e, w) es v = v

  remove_each-Holds :
      (f : String → W → Option E × W) (b ids : List String) (x : List (Fault E) × W)
      → ((id : String) (w : W) → is_owned b id ≡ true → P w → P (f id w).1)
      → All (λ id. is_owned b id ≡ true) ids
      → P x.1
      → P (remove_each rt f ids x).1
  unfolding remove_each
  remove_each-Holds f b [] x k o v = v
  remove_each-Holds f b (id ∷ ids) (es, w) k (o, os) v =
      remove_each-Holds f b ids (removed rt id (f id w) es) k os
        (removed-Holds id (f id w) es (k id w o v))

  module _ (b : ResourceSet) (inventory_keeps : (w : W) → P w → P (rt.inventory w).1)
      (services_keep : (id : String) (w : W)
        → is_owned b.services id ≡ true
        → P w
        → P (rt.remove_service id w).1)
      (containers_keep : (id : String) (w : W)
        → is_owned b.containers id ≡ true
        → P w
        → P (rt.remove_container id w).1)
      (networks_keep : (id : String) (w : W)
        → is_owned b.networks id ≡ true
        → P w
        → P (rt.remove_network id w).1)
      (volumes_keep : (id : String) (w : W)
        → is_owned b.volumes id ≡ true
        → P w
        → P (rt.remove_volume id w).1) where
    owned-Holds : (r : ResourceSet) (w : W) → P w → P (remove_owned rt (difference r b) w).1
    unfolding remove_owned
    owned-Holds r w v =
        remove_each-Holds rt.remove_volume b.volumes _ _ volumes_keep
          (owned_listed r.volumes b.volumes)
          (remove_each-Holds rt.remove_network b.networks _ _ networks_keep
            (owned_listed r.networks b.networks)
            (remove_each-Holds rt.remove_container b.containers _ _ containers_keep
              (owned_listed r.containers b.containers)
              (remove_each-Holds rt.remove_service b.services _ _ services_keep
                (owned_listed r.services b.services) v)))

    verified-Holds :
        (es : List (Fault E)) (x : (E ⊎ ResourceSet) × W) → P x.1 → P (verified rt b es x).1
    verified-Holds es (inl e, w) v = v
    verified-Holds es (inr r, w) v = v

    verify_after-Holds : (x : List (Fault E) × W) → P x.1 → P (verify_after rt b x).1
    verify_after-Holds (es, w) v = verified-Holds es (rt.inventory w) (inventory_keeps w v)

    counted-Holds : (x : (E ⊎ ResourceSet) × W) → P x.1 → P (counted rt b x).1
    counted-Holds (inl e, w) v = v
    counted-Holds (inr r, w) v =
        verify_after-Holds (remove_owned rt (difference r b) w) (owned-Holds r w v)

    graced-Holds : (x : Option E × W) → P x.1 → P (graced rt b x).1
    graced-Holds (none, w) v = counted-Holds (rt.inventory w) (inventory_keeps w v)
    graced-Holds (some e, w) v = v

    grace-Holds :
        (kind : OperationKind) (w : W)
        → ((d : ℕ) (u : W) → P u → P (rt.wait d u).1)
        → P w
        → P (grace rt kind w).1
    grace-Holds OperationKind.job w k v = k rt.grace_period w v
    grace-Holds OperationKind.build w k v = v

    -- Cleanup removes nothing but what the operation owns: a resource that was not there when the
    -- baseline was taken. Every property of Docker that the inventory, the wait, the deadline and each
    -- removal of an owned service, container, network or volume keep is kept by the cleanup.
    pub cleanup_spares_baseline :
        (op : Operation) (rows : List BaselineRow) (w : W)
        → ((d : ℕ) (u : W) → P u → P (rt.wait d u).1)
        → ((d : ℕ) (u : W) → P u → P (rt.limit d u))
        → resource_baseline op.kind op.id rows ≡ some b
        → P w
        → P (cleanup rt op rows w).1
    unfolding cleanup
    cleanup_spares_baseline op rows w waits limits e v = rw e (
        graced-Holds (grace rt op.kind (rt.limit rt.timeout w))
          (grace-Holds op.kind (rt.limit rt.timeout w) waits (limits rt.timeout w v)))
