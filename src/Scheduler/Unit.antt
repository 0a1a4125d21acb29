-- ===== src/Scheduler/Unit.antt =====
-- pkg/controllers/scheduler/schedulingunit.go: the scheduling unit of a federated object, from its
-- policy and from the annotations that override it. What reads JSON, a number or the template is the
-- interface `Decoders`. The resource requests and the labels of the unit are left out.
pub mod Annotations
pub mod Build
pub mod Current
pub mod Counts
mod Tests
use kubeadmiral.Base.{
  ℕ, String, Option, none, some, Bool, true, false, List, [], ◌∷◌, ◌==◌, string_eq, ◌||◌, ◌&&◌, not,
  any, eqb, length, if◌then◌else◌,
}
use Prim.Native.String.{◌++◌ as text_append}
use kubeadmiral.Base.Int.{ℤ, pos, ltb_ℤ}
use kubeadmiral.Base.Assoc.{Map, lookup, insert, has, is_some}
use kubeadmiral.Base.Sets.{new_set}
use kubeadmiral.Util.ClusterSelector.{ClusterSelectorTerm}
use kubeadmiral.FedObject.{
  Placement, ClusterPatches, Entry, get_controller_placement, get_controller_overrides,
}
use kubeadmiral.Scheduler.Types.{
  Toleration, Affinity, ClusterAffinity, CustomMigrationInfo, AutoMigrationInfo, AutoMigration,
  ApiResource, SchedulingMode, duplicate, divide, ReplicasStrategy, spread, binpack, SchedulingUnit,
}
use kubeadmiral.Scheduler.Triggers.{ReschedulePolicy}

-- `Preferences` and `DesiredPlacement`.
pub record Preferences : Type 0 where
  pub min_replicas : ℤ
  pub max_replicas : Option ℤ
  pub weight : Option ℤ
  pub priority : Option ℤ

pub record DesiredPlacement : Type 0 where
  pub cluster : String
  pub preferences : Preferences

-- What is read of `PropagationPolicySpec`; of `AutoMigration` its `KeepUnschedulableReplicas`.
pub record PolicySpec : Type 0 where
  pub scheduling_mode : String
  pub replicas_strategy : Option String
  pub cluster_selector : Map String String
  pub cluster_affinity : List ClusterSelectorTerm
  pub tolerations : List Toleration
  pub max_clusters : Option ℤ
  pub placements : List DesiredPlacement
  pub auto_migration : Option Bool
  pub reschedule_policy : Option ReschedulePolicy

-- `OverridePatch`, with its raw value.
pub record Patch : Type 0 where
  pub path : String
  pub op : String
  pub value : String

-- `replicas` is the answer of `GetInt64FromPath` at the replicas path: `none` is an error, and inner
-- `none` a missing value. `requests` says that `getResourceRequest` returns no error.
pub record Template : Type 0 where
  pub namespace : String
  pub name : String
  pub replicas : Option (Option ℤ)
  pub requests : Bool

pub record FederatedObject : Type 0 where
  pub template : Option Template
  pub annotations : Map String String
  pub placements : List Placement
  pub overrides : List (Entry (ClusterPatches (List Patch)))

-- `FederatedTypeConfig`: the source type, the replicas path, and that path with slashes.
pub record TypeConfig : Type 0 where
  pub source_type : ApiResource
  pub replicas_spec : String
  pub replicas_path : String

-- `json.Unmarshal` into each type, and `strconv.Atoi`.
pub record Decoders : Type 0 where
  pub count : String → Option ℤ
  pub cluster_selector : String → Option (Map String String)
  pub affinity : String → Option Affinity
  pub tolerations : String → Option (List Toleration)
  pub placements : String → Option (List DesiredPlacement)
  pub cluster_references : String → Option (List String)
  pub auto_migration_info : String → Option AutoMigrationInfo
  pub custom_migration_info : String → Option CustomMigrationInfo
  pub atoi : String → Option ℤ

abbrev pub prefixed_global_scheduler_name : String
prefixed_global_scheduler_name = "kubeadmiral.io/global-scheduler"

-- Every cluster of the placement, with no count.
unfoldable pub placed : List String → Map String (Option ℤ) → Map String (Option ℤ)
placed [] res = res
placed (cluster ∷ more) res = placed more (insert cluster none res)

module _ (d : Decoders) where
  -- The count of the first patch of the replicas that can be read.
  unfoldable pub patched_replicas : String → List Patch → Option ℤ
  patched_replicas replicas_path [] = none
  patched_replicas replicas_path (p ∷ ps) =
      let rest = patched_replicas replicas_path ps in
      if p.path == replicas_path && (p.op == "replace" || p.op == "")
      then elim (d.count p.value) [ none ↦ rest | some n ↦ some n ]
      else rest

  abbrev pub write_count : String → Option ℤ → Map String (Option ℤ) → Map String (Option ℤ)
  write_count cluster none res = res
  write_count cluster (some n) res = insert cluster (some n) res

  unfoldable pub override_replicas :
      String → List (ClusterPatches (List Patch)) → Map String (Option ℤ) → Map String (Option ℤ)
  override_replicas replicas_path [] res = res
  override_replicas replicas_path (o ∷ os) res = override_replicas replicas_path os (
      if is_some (lookup o.cluster res)
      then write_count o.cluster (patched_replicas replicas_path o.patches) res
      else res)

  unfoldable pub get_current_replicas_from_object :
      TypeConfig → FederatedObject → Map String (Option ℤ)
  get_current_replicas_from_object ftc fed_object =
      override_replicas ftc.replicas_path
        (get_controller_overrides fed_object.overrides prefixed_global_scheduler_name)
        (placed (get_controller_placement fed_object.placements prefixed_global_scheduler_name) [])

-- The getters of the policy.
unfoldable pub get_scheduling_mode_from_policy : PolicySpec → SchedulingMode
get_scheduling_mode_from_policy policy =
    if policy.scheduling_mode == "Duplicate"
    then duplicate
    else if policy.scheduling_mode == "Divide"
    then divide
    else duplicate

abbrev pub strategy_of : Option String → ReplicasStrategy
strategy_of none = spread
strategy_of (some s) = if s == "Binpack" then binpack else spread

unfoldable pub get_replicas_strategy_from_policy : PolicySpec → ReplicasStrategy
get_replicas_strategy_from_policy policy = strategy_of policy.replicas_strategy

abbrev pub disables : Option ReschedulePolicy → Bool
disables none = false
disables (some rp) = rp.disable_rescheduling

unfoldable pub get_is_sticky_cluster_from_policy : PolicySpec → Bool
get_is_sticky_cluster_from_policy policy = disables policy.reschedule_policy

abbrev pub or_false : Option Bool → Bool
or_false none = false
or_false (some b) = b

abbrev pub avoids : Option ReschedulePolicy → Bool
avoids none = false
avoids (some rp) = or_false rp.replica_rescheduling

unfoldable pub get_avoid_disruption_from_policy : PolicySpec → Bool
get_avoid_disruption_from_policy policy = avoids policy.reschedule_policy

unfoldable pub get_affinity_from_policy : PolicySpec → Option Affinity
get_affinity_from_policy policy =
    if eqb (length policy.cluster_affinity) 0
    then none
    else some
        (record { cluster_affinity = some (record { required = some policy.cluster_affinity }) })

-- The loops over the placements: the counts that the preferences have, and the names.
unfoldable pub collect :
    (Preferences → Option ℤ) → List DesiredPlacement → Map String ℤ → Map String ℤ
collect pick [] acc = acc
collect pick (p ∷ ps) acc =
    collect pick ps (elim (pick p.preferences) [ none ↦ acc | some n ↦ insert p.cluster n acc ])

abbrev pub names_of : List DesiredPlacement → List String
names_of [] = []
names_of (p ∷ ps) = p.cluster ∷ names_of ps

abbrev pub get_weights_from_policy : PolicySpec → Map String ℤ
get_weights_from_policy policy = collect (λ p. p.weight) policy.placements []

abbrev pub get_priorities_from_policy : PolicySpec → Map String ℤ
get_priorities_from_policy policy = collect (λ p. p.priority) policy.placements []

abbrev pub get_min_replicas_from_policy : PolicySpec → Map String ℤ
get_min_replicas_from_policy policy = collect (λ p. some p.min_replicas) policy.placements []

abbrev pub get_max_replicas_from_policy : PolicySpec → Map String ℤ
get_max_replicas_from_policy policy = collect (λ p. p.max_replicas) policy.placements []

abbrev pub get_cluster_names_from_policy : PolicySpec → List String
get_cluster_names_from_policy policy = new_set (names_of policy.placements)
