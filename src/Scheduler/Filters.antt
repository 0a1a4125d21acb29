-- ===== src/Scheduler/Filters.antt =====
-- The filter plugins that are enabled by default (pkg/apis/core/v1alpha1/extensions_schedulingprofile.go),
-- from pkg/controllers/scheduler/framework/plugins: apiresources, placement, clusteraffinity,
-- clusterready, clusterterminating and clusterevicted; tainttoleration is in Scheduler/Taints. Their
-- `PreCheck` only tests for nil pointers. The clock is the parameter `now`.
pub mod Passes
pub mod Suitable
use kubeadmiral.Base.{
  ℕ, String, Option, none, some, Bool, true, false, List, [], ◌∷◌, ◌==◌, string_eq, ltb, length,
  eqb, not, ◌&&◌, ◌||◌, any, if◌then◌else◌,
}
use kubeadmiral.Base.Assoc.{Map, lookup, has}
use kubeadmiral.Util.ClusterSelector.{Selectors, ClusterSelectorTerm, match_cluster_selector_terms}
use kubeadmiral.Scheduler.Types.{
  Cluster, ClusterCondition, ApiResource, UnavailableCluster, Affinity, ClusterAffinity,
  SchedulingUnit, Result, success, unschedulable, new_result, FilterPlugin, Toleration, Taint,
}
use kubeadmiral.Scheduler.Taints.{is_scheduled, taint_filter}

-- `enabledGVK == gvk`
abbrev pub same_gvk : ApiResource → ApiResource → Bool
same_gvk a b = a.group == b.group && (a.version == b.version && a.kind == b.kind)

-- The loop of `APIResources.Filter`.
unfoldable pub api_resources_filter : SchedulingUnit → Cluster → Option Result
api_resources_filter su cluster =
    if any (λ r. same_gvk r su.resource) cluster.api_resource_types
    then new_result success []
    else new_result unschedulable ("cluster(s) didn't support this APIVersion" ∷ [])

unfoldable pub placement_filter : SchedulingUnit → Cluster → Option Result
placement_filter su cluster =
    if eqb (length su.cluster_names) 0
    then new_result success []
    else if not (has cluster.name su.cluster_names)
    then new_result unschedulable ("cluster(s) were not in placement list" ∷ [])
    else new_result success []

-- `IsClusterReady` of pkg/util/cluster/util.go.
unfoldable pub is_cluster_ready : List ClusterCondition → Bool
is_cluster_ready [] = false
is_cluster_ready (c ∷ cs) =
    let rest = is_cluster_ready cs in
    if c.condition_type == "Ready" then (if c.status == "True" then true else rest) else rest

unfoldable pub cluster_ready_filter : SchedulingUnit → Cluster → Option Result
cluster_ready_filter su cluster =
    if not (is_scheduled su.current_clusters cluster.name)
      && not (is_cluster_ready cluster.conditions)
    then new_result unschedulable ("cluster(s) were unready" ∷ [])
    else new_result success []

unfoldable pub cluster_terminating_filter : SchedulingUnit → Cluster → Option Result
cluster_terminating_filter su cluster =
    if cluster.terminating
    then new_result unschedulable ("cluster(s) were terminating" ∷ [])
    else new_result success []

-- The loop of `ClusterEvicted.Filter`, at the time `now`.
unfoldable pub evict : ℕ → String → List UnavailableCluster → Option Result
evict now name [] = new_result success []
evict now name (u ∷ us) =
    let rest = evict now name us in
    if name == u.cluster && ltb now u.valid_until
    then new_result unschedulable
        ("cluster(s) were evicted due to custom migration configuration" ∷ [])
    else rest

unfoldable pub cluster_evicted_filter : ℕ → SchedulingUnit → Cluster → Option Result
cluster_evicted_filter now su cluster = elim su.custom_migration [
  | none ↦ new_result success []
  | some info ↦ evict now cluster.name info.unavailable_clusters
]

abbrev pub affinity_mismatch : Option Result
affinity_mismatch = new_result unschedulable ("cluster(s) didn't match cluster selector" ∷ [])

module _ (s : Selectors) where
  -- The affinity part of `ClusterAffinity.Filter`.
  unfoldable pub filter_affinity : Option Affinity → Cluster → Option Result
  filter_affinity affinity cluster = elim affinity [
    | none ↦ new_result success []
    | some a ↦ elim a.cluster_affinity [
      | none ↦ new_result success []
      | some ca ↦ elim ca.required [
        | none ↦ new_result success []
        | some terms ↦ elim (match_cluster_selector_terms s terms cluster.labels cluster.name) [
          | none ↦ affinity_mismatch
          | some false ↦ affinity_mismatch
          | some true ↦ new_result success []
        ]
      ]
    ]
  ]

  unfoldable pub cluster_affinity_filter : SchedulingUnit → Cluster → Option Result
  cluster_affinity_filter su cluster =
      if ltb 0 (length su.cluster_selector)
        && not (s.matches (s.selector_from_set su.cluster_selector) cluster.labels)
      then affinity_mismatch
      else filter_affinity su.affinity cluster

module _ (s : Selectors) (tolerates_taint : Toleration → Taint → Bool) (now : ℕ) where
  -- The filter plugins of `inTreeRegistry` that are modelled.
  unfoldable pub in_tree_filters : Map String (Option FilterPlugin)
  in_tree_filters =
      plugin "APIResources" api_resources_filter
      ∷ plugin "ClusterReady" cluster_ready_filter
      ∷ plugin "ClusterTerminating" cluster_terminating_filter
      ∷ plugin "ClusterAffinity" (cluster_affinity_filter s)
      ∷ plugin "PlacementFilter" placement_filter
      ∷ plugin "TaintToleration" (taint_filter tolerates_taint)
      ∷ plugin "ClusterEvicted" (cluster_evicted_filter now)
      ∷ []
    where
      plugin : String → (SchedulingUnit → Cluster → Option Result) → String × Option FilterPlugin
      plugin name f = (name, some (record { name = name; filter = f }))

-- `GetDefaultEnabledPlugins().FilterPlugins`
abbrev pub default_filter_plugins : List String
default_filter_plugins =
    "APIResources" ∷ "TaintToleration" ∷ "PlacementFilter" ∷ "ClusterAffinity" ∷ "ClusterReady"
    ∷ "ClusterTerminating" ∷ "ClusterEvicted" ∷ []
