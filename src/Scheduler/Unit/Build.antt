-- ===== src/Scheduler/Unit/Build.antt =====
-- `schedulingUnitForFedObject` of pkg/controllers/scheduler/schedulingunit.go; `none` is an error.
use kubeadmiral.Base.{String, Option, none, some, Bool, ◌==◌, string_eq, if◌then◌else◌}
use Prim.Native.String.{◌++◌ as text_append}
use kubeadmiral.Base.Int.{ℤ}
use kubeadmiral.Base.Assoc.{Map}
use kubeadmiral.Base.Chain.{◌>>=◌}
use kubeadmiral.Scheduler.Types.{
  CustomMigrationInfo, AutoMigration, SchedulingMode, duplicate, divide, SchedulingUnit,
}
use kubeadmiral.Scheduler.Unit.{
  PolicySpec, Template, FederatedObject, TypeConfig, Decoders, get_current_replicas_from_object,
  get_scheduling_mode_from_policy, get_replicas_strategy_from_policy,
  get_is_sticky_cluster_from_policy, get_avoid_disruption_from_policy, get_affinity_from_policy,
  get_weights_from_policy, get_priorities_from_policy, get_min_replicas_from_policy,
  get_max_replicas_from_policy, get_cluster_names_from_policy,
}
use kubeadmiral.Scheduler.Unit.Annotations.{
  get_scheduling_mode_from_object, get_is_sticky_cluster_from_object, get_auto_migration_info,
  get_custom_migration_info, get_cluster_selector_from_object, get_affinity_from_object,
  get_tolerations_from_object, get_max_clusters_from_object, get_weights_from_object,
  get_priorities_from_object, get_min_replicas_from_object, get_max_replicas_from_object,
  get_cluster_names_from_object,
}

-- `if exists { unit.X = override }`
abbrev pub override_with : {A : Type 0} → Option A → A → A
override_with none value = value
override_with (some override) value = override

-- The mode that counts: only what has a replicas path is divided.
abbrev pub effective_mode : SchedulingMode → String → SchedulingMode
effective_mode duplicate replicas_spec = duplicate
effective_mode divide replicas_spec = if replicas_spec == "" then duplicate else divide

-- The desired replicas: a missing value is an error too.
abbrev pub desired_replicas : SchedulingMode → Option (Option ℤ) → Option (Option ℤ)
desired_replicas duplicate replicas = some none
desired_replicas divide none = none
desired_replicas divide (some none) = none
desired_replicas divide (some (some n)) = some (some n)

-- `SchedulingUnit.Key`
abbrev pub key_of : Template → String
key_of t = if t.namespace == "" then t.name else text_append t.namespace (text_append "/" t.name)

module _ (d : Decoders) where
  abbrev pub auto_migration_of : Option Bool → Map String String → Option (Option AutoMigration)
  auto_migration_of none annotations = some none
  auto_migration_of (some keep) annotations = do
    info ← get_auto_migration_info d annotations
    some (some (record { info = info; keep_unschedulable_replicas = keep }))

  abbrev pub mode_for : TypeConfig → FederatedObject → PolicySpec → SchedulingMode
  mode_for ftc o policy =
      effective_mode
        (override_with (get_scheduling_mode_from_object o.annotations)
          (get_scheduling_mode_from_policy policy))
        ftc.replicas_spec

  -- The unit, once everything that may fail is there.
  unfoldable pub assemble :
      TypeConfig
      → FederatedObject
      → PolicySpec
      → Template
      → Option ℤ
      → Option AutoMigration
      → Option CustomMigrationInfo
      → SchedulingUnit
  assemble ftc o policy template desired auto custom = record {
    key = key_of template;
    desired_replicas = desired;
    current_clusters = get_current_replicas_from_object d ftc o;
    scheduling_mode = mode_for ftc o policy;
    sticky_cluster =
        override_with (get_is_sticky_cluster_from_object o.annotations)
          (get_is_sticky_cluster_from_policy policy);
    tolerations = override_with (get_tolerations_from_object d o.annotations) policy.tolerations;
    max_clusters = override_with (get_max_clusters_from_object d o.annotations) policy.max_clusters;
    resource = ftc.source_type;
    cluster_names =
        override_with (get_cluster_names_from_object d o.annotations)
          (get_cluster_names_from_policy policy);
    cluster_selector =
        override_with (get_cluster_selector_from_object d o.annotations) policy.cluster_selector;
    affinity =
        override_with (get_affinity_from_object d o.annotations) (get_affinity_from_policy policy);
    custom_migration = custom;
    auto_migration = auto;
    avoid_disruption = get_avoid_disruption_from_policy policy;
    min_replicas =
        override_with (get_min_replicas_from_object d o.annotations)
          (get_min_replicas_from_policy policy);
    max_replicas =
        override_with (get_max_replicas_from_object d o.annotations)
          (get_max_replicas_from_policy policy);
    weights =
        override_with (get_weights_from_object d o.annotations) (get_weights_from_policy policy);
    priorities =
        override_with (get_priorities_from_object d o.annotations)
          (get_priorities_from_policy policy);
    replicas_strategy = get_replicas_strategy_from_policy policy;
  }

  unfoldable pub scheduling_unit_for_fed_object :
      TypeConfig → FederatedObject → PolicySpec → Option SchedulingUnit
  scheduling_unit_for_fed_object ftc o policy = do
    template ← o.template
    desired ← desired_replicas (mode_for ftc o policy) template.replicas
    auto ← auto_migration_of policy.auto_migration o.annotations
    custom ← get_custom_migration_info d o.annotations
    (if template.requests then some (assemble ftc o policy template desired auto custom) else none)
