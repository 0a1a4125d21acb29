-- ===== src/Scheduler/Unit/Annotations.antt =====
-- The getters of pkg/controllers/scheduler/schedulingunit.go that read the object's annotations. `none`
-- stands for the result `false`: there is no annotation, or no valid one.
use kubeadmiral.Base.{
  String, Option, none, some, Bool, true, false, List, [], ◌==◌, string_eq, any, if◌then◌else◌,
}
use kubeadmiral.Base.Int.{ℤ, pos, ltb_ℤ}
use kubeadmiral.Base.Assoc.{Map, lookup}
use kubeadmiral.Base.Chain.{◌>>=◌}
use kubeadmiral.Base.Sets.{new_set}
use kubeadmiral.Scheduler.Types.{
  Toleration, Affinity, CustomMigrationInfo, AutoMigrationInfo, SchedulingMode, duplicate, divide,
}
use kubeadmiral.Scheduler.Unit.{Preferences, Decoders, collect}

abbrev pub scheduling_mode_annotation : String
scheduling_mode_annotation = "kubeadmiral.io/scheduling-mode"

abbrev pub sticky_cluster_annotation : String
sticky_cluster_annotation = "kubeadmiral.io/sticky-cluster"

abbrev pub tolerations_annotations : String
tolerations_annotations = "kubeadmiral.io/tolerations"

abbrev pub placements_annotations : String
placements_annotations = "kubeadmiral.io/placements"

abbrev pub cluster_selector_annotations : String
cluster_selector_annotations = "kubeadmiral.io/clusterSelector"

abbrev pub affinity_annotations : String
affinity_annotations = "kubeadmiral.io/affinity"

abbrev pub max_clusters_annotations : String
max_clusters_annotations = "kubeadmiral.io/maxClusters"

abbrev pub auto_migration_info_annotation : String
auto_migration_info_annotation = "kubeadmiral.io/auto-migration-info"

abbrev pub applied_migration_configuration_annotation : String
applied_migration_configuration_annotation = "kubeadmiral.io/applied-migration-configuration"

abbrev pub mode_of : String → Option SchedulingMode
mode_of value =
    if value == "Duplicate" then some duplicate else if value == "Divide" then some divide else none

unfoldable pub get_scheduling_mode_from_object : Map String String → Option SchedulingMode
get_scheduling_mode_from_object annotations = do
  value ← lookup scheduling_mode_annotation annotations
  mode_of value

abbrev pub flag_of : String → Option Bool
flag_of value = if value == "true" then some true else if value == "false" then some false else none

unfoldable pub get_is_sticky_cluster_from_object : Map String String → Option Bool
get_is_sticky_cluster_from_object annotations = do
  value ← lookup sticky_cluster_annotation annotations
  flag_of value

-- No annotation is no information; one that cannot be read is an error, the outer `none`.
abbrev pub info_from : {I : Type 0} → (String → Option I) → Option String → Option (Option I)
info_from decode none = some none
info_from decode (some value) = elim (decode value) [ none ↦ none | some info ↦ some (some info) ]

-- The additional validation: no count is negative.
abbrev pub if_valid : Map String ℤ → Option (Map String ℤ)
if_valid counts = if any (λ (e : String × ℤ). ltb_ℤ e.1 (pos 0)) counts then none else some counts

abbrev pub if_valid_maximum : ℤ → Option (Option ℤ)
if_valid_maximum n = if ltb_ℤ n (pos 0) then none else some (some n)

module _ (d : Decoders) where
  unfoldable pub get_auto_migration_info : Map String String → Option (Option AutoMigrationInfo)
  get_auto_migration_info annotations =
      info_from d.auto_migration_info (lookup auto_migration_info_annotation annotations)

  unfoldable pub get_custom_migration_info : Map String String → Option (Option CustomMigrationInfo)
  get_custom_migration_info annotations =
      info_from d.custom_migration_info
        (lookup applied_migration_configuration_annotation annotations)

  unfoldable pub get_cluster_selector_from_object : Map String String → Option (Map String String)
  get_cluster_selector_from_object annotations = do
    value ← lookup cluster_selector_annotations annotations
    d.cluster_selector value

  unfoldable pub get_affinity_from_object : Map String String → Option (Option Affinity)
  get_affinity_from_object annotations = do
    value ← lookup affinity_annotations annotations
    affinity ← d.affinity value
    some (some affinity)

  unfoldable pub get_tolerations_from_object : Map String String → Option (List Toleration)
  get_tolerations_from_object annotations = do
    value ← lookup tolerations_annotations annotations
    d.tolerations value

  unfoldable pub get_max_clusters_from_object : Map String String → Option (Option ℤ)
  get_max_clusters_from_object annotations = do
    value ← lookup max_clusters_annotations annotations
    n ← d.atoi value
    if_valid_maximum n

  -- What the getters of the weights, the priorities and the two bounds of the replicas share.
  unfoldable pub counts_from_object :
      (Preferences → Option ℤ) → Map String String → Option (Map String ℤ)
  counts_from_object pick annotations = do
    value ← lookup placements_annotations annotations
    placements ← d.placements value
    if_valid (collect pick placements [])

  abbrev pub get_weights_from_object : Map String String → Option (Map String ℤ)
  get_weights_from_object = counts_from_object (λ p. p.weight)

  abbrev pub get_priorities_from_object : Map String String → Option (Map String ℤ)
  get_priorities_from_object = counts_from_object (λ p. p.priority)

  abbrev pub get_min_replicas_from_object : Map String String → Option (Map String ℤ)
  get_min_replicas_from_object = counts_from_object (λ p. some p.min_replicas)

  abbrev pub get_max_replicas_from_object : Map String String → Option (Map String ℤ)
  get_max_replicas_from_object = counts_from_object (λ p. p.max_replicas)

  unfoldable pub get_cluster_names_from_object : Map String String → Option (List String)
  get_cluster_names_from_object annotations = do
    value ← lookup placements_annotations annotations
    references ← d.cluster_references value
    some (new_set references)
