-- ===== src/Resources.antt =====
-- internal/operation/cleanup/resources.go: the resource manager, over Docker as a parameter, and the
-- baselines of internal/control/sqlite/store.go, whose JSON columns are kept decoded.
use autback.Prelude.{
  ℕ, ◌*◌, String, Bool, true, false, ◌&&◌, not, Option, none, some, List, [], ◌∷◌, ◌++◌, ◌==◌,
  str_eq, if◌then◌else◌, ◌⊎◌, inl, inr, find_where, select_where, order_by, text_pair_lt,
}
use autback.Control.{Operation, OperationKind, kind_eq}
pub mod Sets
pub mod Cleanups
pub mod Owned
pub mod Examples

pub record ResourceSet : Type 0 where
  pub services : List String
  pub containers : List String
  pub networks : List String
  pub volumes : List String

-- operation_resource_baselines
pub record BaselineRow : Type 0 where
  pub kind : OperationKind
  pub operation_id : String
  pub resources : ResourceSet

abbrev pub has_baseline : OperationKind → String → BaselineRow → Bool
has_baseline kind id r = kind_eq r.kind kind && str_eq r.operation_id id

abbrev pub baseline_of : Option BaselineRow → Option ResourceSet
baseline_of none = none
baseline_of (some r) = some r.resources

-- ResourceBaseline, where `none` is ErrNotFound.
unfoldable pub resource_baseline : OperationKind → String → List BaselineRow → Option ResourceSet
resource_baseline kind id rows = baseline_of (find_where (has_baseline kind id) rows)

abbrev pub add_baseline : BaselineRow → Option BaselineRow → List BaselineRow → List BaselineRow
add_baseline new none rows = rows ++ new ∷ []
add_baseline new (some r) rows = rows

-- SaveResourceBaseline: ON CONFLICT(kind,operation_id) DO NOTHING
unfoldable pub save_resource_baseline :
    OperationKind → String → ResourceSet → List BaselineRow → List BaselineRow
save_resource_baseline kind id resources rows =
    add_baseline (record { kind = kind; operation_id = id; resources = resources })
      (find_where (has_baseline kind id) rows) rows

unfoldable pub has_text : String → List String → Bool
has_text id [] = false
has_text id (x ∷ xs) = let rest = has_text id xs in if str_eq x id then true else rest

-- What subtract keeps.
abbrev pub is_owned : List String → String → Bool
is_owned baseline id = not (has_text id baseline) && not (str_eq id "")

abbrev pub subtract : List String → List String → List String
subtract current baseline = select_where (is_owned baseline) current

-- The loop of uniqueSorted.
unfoldable pub unique_from : List String → List String → List String
unique_from seen [] = []
unique_from seen (v ∷ vs) =
    let fresh = not (str_eq v "") && not (has_text v seen) in
    let rest = unique_from (if fresh then v ∷ seen else seen) vs in if fresh then v ∷ rest else rest

abbrev pub text_lt : String → String → Bool
text_lt a b = text_pair_lt a "" b ""

unfoldable pub unique_sorted : List String → List String
unique_sorted values = order_by text_lt (unique_from [] values)

abbrev pub normalize : ResourceSet → ResourceSet
normalize r = record {
  services = unique_sorted r.services;
  containers = unique_sorted r.containers;
  networks = unique_sorted r.networks;
  volumes = unique_sorted r.volumes;
}

abbrev pub difference : ResourceSet → ResourceSet → ResourceSet
difference current baseline = normalize (record {
  services = subtract current.services baseline.services;
  containers = subtract current.containers baseline.containers;
  networks = subtract current.networks baseline.networks;
  volumes = subtract current.volumes baseline.volumes;
})

abbrev pub is_none : List String → Bool
is_none [] = true
is_none (x ∷ xs) = false

abbrev pub is_empty : ResourceSet → Bool
is_empty r = is_none r.services && is_none r.containers && is_none r.networks && is_none r.volumes

-- ResourceRuntime, the wait, and the context with the timeout; the world is W.
pub record Runtime (W E : Type 0) : Type 0 where
  pub grace_period : ℕ
  pub timeout : ℕ
  pub limit : ℕ → W → W  -- context.WithTimeout
  pub wait : ℕ → W → Option E × W
  pub inventory : W → (E ⊎ ResourceSet) × W
  pub remove_service : String → W → Option E × W
  pub remove_container : String → W → Option E × W
  pub remove_network : String → W → Option E × W
  pub remove_volume : String → W → Option E × W

-- NewResourceManager, in nanoseconds.
abbrev pub or_default : ℕ → ℕ → ℕ
or_default d n = if n == 0 then d else n

unfoldable pub new_resource_manager : {W E : Type 0} → Runtime W E → Runtime W E
new_resource_manager rt = record rt {
  grace_period = or_default (10 * 1000000000) rt.grace_period;
  timeout = or_default (120 * 1000000000) rt.timeout;
}

-- One of the errors that errors.Join joins.
pub data Fault (E : Type 0) : Type 0 where
  inventory waits verify : E → Fault E
  removes : String → E → Fault E
  remain : ResourceSet → Fault E

module _ {W E : Type 0} (rt : Runtime W E) where
  abbrev pub inventoried :
      Operation → List BaselineRow → (E ⊎ ResourceSet) × W → List (Fault E) × List BaselineRow × W
  inventoried op rows (inl e, w) = (inventory e ∷ [], rows, w)
  inventoried op rows (inr r, w) = ([], save_resource_baseline op.kind op.id (normalize r) rows, w)

  abbrev pub prepared :
      Operation → List BaselineRow → Option ResourceSet → W → List (Fault E) × List BaselineRow × W
  prepared op rows (some b) w = ([], rows, w)
  prepared op rows none w = inventoried op rows (rt.inventory w)

  -- Prepare
  unfoldable pub prepare : Operation → List BaselineRow → W → List (Fault E) × List BaselineRow × W
  prepare op rows w = prepared op rows (resource_baseline op.kind op.id rows) w

  abbrev pub removed : String → Option E × W → List (Fault E) → List (Fault E) × W
  removed id (none, w) es = (es, w)
  removed id (some e, w) es = (es ++ removes id e ∷ [], w)

  unfoldable pub remove_each :
      (String → W → Option E × W) → List String → List (Fault E) × W → List (Fault E) × W
  remove_each f [] x = x
  remove_each f (id ∷ ids) (es, w) = remove_each f ids (removed id (f id w) es)

  unfoldable pub remove_owned : ResourceSet → W → List (Fault E) × W
  remove_owned owned w = remove_each rt.remove_volume owned.volumes (
      remove_each rt.remove_network owned.networks (
        remove_each rt.remove_container owned.containers
          (remove_each rt.remove_service owned.services ([], w))))

  abbrev pub remaining : ResourceSet → List (Fault E)
  remaining r = if is_empty r then [] else remain r ∷ []

  abbrev pub verified : ResourceSet → List (Fault E) → (E ⊎ ResourceSet) × W → List (Fault E) × W
  verified baseline es (inl e, w) = (es ++ verify e ∷ [], w)
  verified baseline es (inr r, w) = (es ++ remaining (difference r baseline), w)

  abbrev pub verify_after : ResourceSet → List (Fault E) × W → List (Fault E) × W
  verify_after baseline (es, w) = verified baseline es (rt.inventory w)

  abbrev pub counted : ResourceSet → (E ⊎ ResourceSet) × W → List (Fault E) × W
  counted baseline (inl e, w) = (inventory e ∷ [], w)
  counted baseline (inr r, w) = verify_after baseline (remove_owned (difference r baseline) w)

  abbrev pub graced : ResourceSet → Option E × W → List (Fault E) × W
  graced baseline (none, w) = counted baseline (rt.inventory w)
  graced baseline (some e, w) = (waits e ∷ [], w)

  abbrev pub grace : OperationKind → W → Option E × W
  grace OperationKind.job w = rt.wait rt.grace_period w
  grace OperationKind.build w = (none, w)

  abbrev pub cleaned : OperationKind → Option ResourceSet → W → List (Fault E) × W
  cleaned kind none w = ([], w)
  cleaned kind (some b) w = graced b (grace kind w)

  -- Cleanup
  unfoldable pub cleanup : Operation → List BaselineRow → W → List (Fault E) × W
  cleanup op rows w = cleaned op.kind (resource_baseline op.kind op.id rows) (rt.limit rt.timeout w)
