-- ===== src/BinPack/Plugin.antt =====
-- `ReplicaScheduling` of
-- pkg/controllers/scheduler/framework/plugins/preferencebinpack/preference_bin_pack.go: the replica
-- plugin PreferenceBinPack. `Plan` never returns an error.
pub mod Narrows
pub mod Within
use kubeadmiral.Base.{
  ℕ, String, Option, none, some, Bool, true, false, ◌||◌, ◌&&◌, not, List, [], ◌∷◌, if◌then◌else◌,
  string_eq,
}
use kubeadmiral.Base.Int.{ℤ, pos, ◌+ℤ◌, ltb_ℤ, eqb_ℤ}
use kubeadmiral.Base.Assoc.{Map, lookup, insert, is_some}
use kubeadmiral.Scheduler.Types.{
  Taint, Toleration, Cluster, SchedulingUnit, CustomMigrationInfo, AutoMigration, AutoMigrationInfo,
  Result, success, new_result, ClusterReplicas, ReplicasPlugin,
}
use kubeadmiral.Scheduler.Taints.{is_no_schedule, find_matching_untolerated_taint}
use kubeadmiral.BinPack.{ClusterPreferences, ReplicaSchedulingPreference, or_zero_ℤ, is_over, plan}

-- `currentReplicas`: a cluster with no count has them all.
abbrev pub replicas_or : ℤ → Option ℤ → ℤ
replicas_or total_replicas none = total_replicas
replicas_or total_replicas (some n) = n

unfoldable pub current_replicas : ℤ → Map String (Option ℤ) → Map String ℤ
current_replicas total_replicas [] = []
current_replicas total_replicas ((cluster, replicas) ∷ more) =
    (cluster, replicas_or total_replicas replicas) ∷ current_replicas total_replicas more

-- A maximum that is missing or above the current count becomes the current count.
abbrev pub cap_maximum : Option ℤ → ℤ → Option ℤ
cap_maximum none now = some now
cap_maximum (some m) now = if ltb_ℤ now m then some now else some m

module _ (tolerates_taint : Toleration → Taint → Bool) where
  -- A cluster with an untolerated NoSchedule taint gets no new replicas.
  unfoldable pub cluster_preference : SchedulingUnit → Map String ℤ → Cluster → ClusterPreferences
  cluster_preference su current cluster =
      let max = lookup cluster.name su.max_replicas in
      record {
        min_replicas = or_zero_ℤ (lookup cluster.name su.min_replicas);
        max_replicas =
            if is_some (
              find_matching_untolerated_taint tolerates_taint cluster.taints su.tolerations
                (λ t. is_no_schedule t.effect))
            then cap_maximum max (or_zero_ℤ (lookup cluster.name current))
            else max;
      }

  unfoldable pub cluster_preferences :
      SchedulingUnit
      → Map String ℤ
      → List Cluster
      → Map String ClusterPreferences
      → Map String ClusterPreferences
  cluster_preferences su current [] acc = acc
  cluster_preferences su current (c ∷ cs) acc =
      cluster_preferences su current cs (insert c.name (cluster_preference su current c) acc)

-- The estimated capacities that are not negative.
unfoldable pub estimates : Map String ℤ → Map String ℤ
estimates [] = []
estimates ((cluster, ec) ∷ more) =
    let rest = estimates more in if ltb_ℤ ec (pos 0) then rest else (cluster, ec) ∷ rest

abbrev pub info_of : Option AutoMigration → Option AutoMigrationInfo
info_of none = none
info_of (some a) = a.info

abbrev pub estimated_capacity : Option AutoMigrationInfo → Map String ℤ
estimated_capacity none = []
estimated_capacity (some info) = estimates info.estimated_capacity

abbrev pub scheduled_replicas : Option AutoMigrationInfo → Map String ℤ
scheduled_replicas none = []
scheduled_replicas (some info) = info.scheduled_replicas

abbrev pub keep_unschedulable : Option AutoMigration → Bool
keep_unschedulable none = false
keep_unschedulable (some a) = a.keep_unschedulable_replicas

abbrev pub limited_capacity : Option CustomMigrationInfo → Map String ℤ
limited_capacity none = []
limited_capacity (some info) = info.limited_capacity

-- `for clusterName, replicas := range overflow { result[clusterName] += replicas }`
unfoldable pub add_overflow : (overflow result : Map String ℤ) → Map String ℤ
add_overflow [] result = result
add_overflow ((cluster, replicas) ∷ more) result =
    add_overflow more (insert cluster (or_zero_ℤ (lookup cluster result) +ℤ replicas) result)

abbrev pub with_replicas : Cluster → Option ℤ → List ClusterReplicas → List ClusterReplicas
with_replicas cluster none rest = rest
with_replicas cluster (some n) rest =
    if eqb_ℤ n (pos 0) then rest else record { cluster = cluster; replicas = n } ∷ rest

-- The last loop: the clusters with a count that is not 0.
unfoldable pub to_cluster_replicas : Map String ℤ → List Cluster → List ClusterReplicas
to_cluster_replicas result [] = []
to_cluster_replicas result (c ∷ cs) =
    with_replicas c (lookup c.name result) (to_cluster_replicas result cs)

-- `framework.ExtractClusterNames`
abbrev pub extract_cluster_names : List Cluster → List String
extract_cluster_names [] = []
extract_cluster_names (c ∷ cs) = c.name ∷ extract_cluster_names cs

module _ (tolerates_taint : Toleration → Taint → Bool) where
  -- The call of `Plan`.
  unfoldable pub bin_pack : SchedulingUnit → List Cluster → Map String ℤ × Map String ℤ
  bin_pack su clusters =
      let total_replicas = or_zero_ℤ su.desired_replicas in
      let current = current_replicas total_replicas su.current_clusters in
      let info = info_of su.auto_migration in
      plan (record { clusters = cluster_preferences tolerates_taint su current clusters [] })
        total_replicas (extract_cluster_names clusters) current (estimated_capacity info)
        (limited_capacity su.custom_migration) su.avoid_disruption
        (keep_unschedulable su.auto_migration) (scheduled_replicas info)

  unfoldable pub replica_scheduling :
      SchedulingUnit → List Cluster → List ClusterReplicas × Option Result
  replica_scheduling su clusters =
      let p = bin_pack su clusters in
      (to_cluster_replicas (add_overflow p.1 p.0) clusters, new_result success [])

  abbrev pub preference_bin_pack : ReplicasPlugin
  preference_bin_pack = record {
    name = "PreferenceBinPack";
    replica_scheduling = replica_scheduling;
  }
