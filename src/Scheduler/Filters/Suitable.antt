-- ===== src/Scheduler/Filters/Suitable.antt =====
-- Which clusters the default filter plugins let pass together, and what that says of a scheduling.
use kubeadmiral.Base.{
  ◌≡◌, ◌↔◌, refl, sym, subst, ℕ, String, Option, Bool, ◌∙◌, false, true, List, [], ◌∷◌, All,
  All-map,
}
use kubeadmiral.Base.Int.{ℤ}
use kubeadmiral.Base.Assoc.{Map}
use mathlib.Core.List.{Mem}
use kubeadmiral.Util.ClusterSelector.{Selectors}
use kubeadmiral.Scheduler.Types.{
  Cluster, SchedulingUnit, is_success, FilterPlugin, Toleration, Taint,
}
use kubeadmiral.Scheduler.Taints.{taint_filter}
use kubeadmiral.Scheduler.Taints.Plugin.{AllTolerated, Matters, taint_filter-is_success}
use kubeadmiral.Scheduler.Runtime.{run_filter_plugins, add_plugins, registered}
use kubeadmiral.Scheduler.Runtime.Filter.{Passes, run_filter_plugins-is_success}
use kubeadmiral.Scheduler.Generic.{Framework, schedule, scheduled, is_sticky}
use kubeadmiral.Scheduler.Generic.Narrowing.{SelectNarrows, ReplicasNarrows}
use kubeadmiral.Scheduler.Generic.Feasible.{schedule-IsFeasible}
use kubeadmiral.Scheduler.Filters.{
  api_resources_filter, placement_filter, cluster_affinity_filter, cluster_ready_filter,
  cluster_terminating_filter, cluster_evicted_filter, in_tree_filters, default_filter_plugins,
}
use kubeadmiral.Scheduler.Filters.Passes.{
  Supported, api_resources-passes, Placed, placement-passes, Ready, cluster_ready-passes,
  cluster_terminating-passes, NotEvicted, unavailable, cluster_evicted-passes, Matched,
  cluster_affinity-passes,
}

module _ (s : Selectors) (tolerates_taint : Toleration → Taint → Bool) (now : ℕ) where
  -- What the default filter plugins ask of a cluster.
  pub record IsSuitable (su : SchedulingUnit) (c : Cluster) : Type 0 where
    pub supported : Supported su c
    pub tolerated : AllTolerated tolerates_taint (Matters su c) su.tolerations c.taints
    pub placed : Placed su c
    pub matched : Matched s su c
    pub ready : Ready su c
    pub not_terminating : c.terminating ≡ false
    pub not_evicted : NotEvicted now c.name (unavailable su.custom_migration)

  -- The plugins that the default names stand for.
  abbrev pub default_filters : List FilterPlugin
  default_filters =
      record { name = "APIResources"; filter = api_resources_filter }
      ∷ record { name = "TaintToleration"; filter = taint_filter tolerates_taint }
      ∷ record { name = "PlacementFilter"; filter = placement_filter }
      ∷ record { name = "ClusterAffinity"; filter = cluster_affinity_filter s }
      ∷ record { name = "ClusterReady"; filter = cluster_ready_filter }
      ∷ record { name = "ClusterTerminating"; filter = cluster_terminating_filter }
      ∷ record { name = "ClusterEvicted"; filter = cluster_evicted_filter now }
      ∷ []

  pub default_filters-registered :
      add_plugins (in_tree_filters s tolerates_taint now) default_filter_plugins [] []
      ≡ registered default_filters
  unfolding add_plugins in_tree_filters
  default_filters-registered = refl

  registered_eq : (xs ys : List FilterPlugin) → registered xs ≡ registered ys → xs ≡ ys
  registered_eq xs ys h = cc

  default_filters-IsSuitable :
      (su : SchedulingUnit) (c : Cluster) → All (Passes su c) default_filters ↔ IsSuitable su c
  default_filters-IsSuitable su c = (
    λ p. record {
      supported = (api_resources-passes su c).0 p.0;
      tolerated = (taint_filter-is_success tolerates_taint su c).0 p.1.0;
      placed = (placement-passes su c).0 p.1.1.0;
      matched = (cluster_affinity-passes s su c).0 p.1.1.1.0;
      ready = (cluster_ready-passes su c).0 p.1.1.1.1.0;
      not_terminating = (cluster_terminating-passes su c).0 p.1.1.1.1.1.0;
      not_evicted = (cluster_evicted-passes now su c).0 p.1.1.1.1.1.1.0;
    },
    λ h. (
      (api_resources-passes su c).1 h.supported,
      (
        (taint_filter-is_success tolerates_taint su c).1 h.tolerated,
        (
          (placement-passes su c).1 h.placed,
          (
            (cluster_affinity-passes s su c).1 h.matched,
            (
              (cluster_ready-passes su c).1 h.ready,
              (
                (cluster_terminating-passes su c).1 h.not_terminating,
                ((cluster_evicted-passes now su c).1 h.not_evicted, tt),
              ),
            ),
          ),
        ),
      ),
    ),
  )

  module _ (su : SchedulingUnit) (pls : List FilterPlugin)
      (enabled : add_plugins (in_tree_filters s tolerates_taint now) default_filter_plugins [] []
        ≡ registered pls) where
    same_plugins : pls ≡ default_filters
    same_plugins = registered_eq _ _ (sym enabled ∙ default_filters-registered)

    -- A run of the plugins that the default names register succeeds exactly for a cluster
    -- that is suitable for the unit.
    pub run_filter_plugins-IsSuitable :
        (c : Cluster) → (is_success (run_filter_plugins pls su c) ≡ true) ↔ IsSuitable su c
    run_filter_plugins-IsSuitable c = rw same_plugins (
      λ h.
          (default_filters-IsSuitable su c).0
            ((run_filter_plugins-is_success su c default_filters).0 h),
      λ h.
          (run_filter_plugins-is_success su c default_filters).1
            ((default_filters-IsSuitable su c).1 h),
    )

    -- Where the default names of filter plugins register those of the framework, and its
    -- select and replica plugins name only clusters that they were given, unless the clusters
    -- are sticky each suggested cluster has the name of one of the clusters that is suitable
    -- for the unit: it supports the kind, its taints that matter are tolerated, it is in the
    -- unit's placement unless that is empty, it matches the selector and the required terms,
    -- it is ready or has the unit already, it is not terminating, and no eviction from it is
    -- in force.
    pub schedule-IsSuitable :
        (fwk : Framework) (clusters : List Cluster) (m : Map String (Option ℤ))
        → fwk.filter_plugins ≡ pls
        → All SelectNarrows fwk.select_plugins
        → All ReplicasNarrows fwk.replicas_plugins
        → is_sticky su ≡ false
        → schedule fwk su clusters ≡ scheduled m
        → All (λ e. (c : Cluster) × Mem c clusters × (c.name ≡ e.0) × IsSuitable su c) m
    schedule-IsSuitable fwk clusters m same sel rep sticky h =
        All-map
          (λ e f. (
            f.0,
            f.1,
            f.2,
            (default_filters-IsSuitable su f.0).0
                (subst (All (Passes su f.0)) (same ∙ same_plugins) f.3),
          ))
          m (schedule-IsFeasible fwk su clusters m sel rep sticky h)
