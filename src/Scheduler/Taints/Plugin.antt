-- ===== src/Scheduler/Taints/Plugin.antt =====
-- The filter of the plugin TaintToleration lets a cluster pass exactly when no taint that matters
-- is left untolerated.
use kubeadmiral.Base.{
  ◌≡◌, refl, ◌↔◌, none, Bool, true, List, [], ◌∷◌, arith, select, All, any, String, Option, ◌⊎◌,
  ◌||◌, if◌then◌else◌, string_eq,
}
use kubeadmiral.Base.Int.{ℤ}
use kubeadmiral.Base.Assoc.{Map, lookup, is_some}
use kubeadmiral.Scheduler.Types.{
  Effect, no_effect, no_schedule, prefer_no_schedule, no_execute, Taint, Toleration, Cluster,
  SchedulingUnit, is_success,
}
use kubeadmiral.Scheduler.Taints.{
  tolerations_tolerate_taint, first_untolerated, find_matching_untolerated_taint, is_scheduled,
  filter_predicate, taint_filter, is_no_execute, is_no_schedule,
}

-- NoExecute matters always, NoSchedule unless the unit is scheduled to the cluster already.
abbrev pub Matters : SchedulingUnit → Cluster → Taint → Type 0
Matters su cluster t =
    (t.effect ≡ no_execute)
    ⊎ ((t.effect ≡ no_schedule) × (lookup cluster.name su.current_clusters ≡ none))

pub is_scheduled-lookup :
    (current : Map String (Option ℤ)) (name : String)
    → is_scheduled current name ≡ is_some (lookup name current)
is_scheduled-lookup [] name = refl
is_scheduled-lookup ((c, r) ∷ rest) name = ground (arith, is_scheduled-lookup rest name)

effect-Matters :
    (e : Effect) (o : Option (Option ℤ))
    → ((if is_some o then is_no_execute e else is_no_schedule e || is_no_execute e) ≡ true)
      ↔ ((e ≡ no_execute) ⊎ ((e ≡ no_schedule) × (o ≡ none)))
effect-Matters no_execute o = ground arith
effect-Matters no_schedule o = ground arith
effect-Matters prefer_no_schedule o = ground arith
effect-Matters no_effect o = ground arith

filter_predicate-Matters :
    (su : SchedulingUnit) (cluster : Cluster) (t : Taint)
    → (filter_predicate (is_scheduled su.current_clusters cluster.name) t ≡ true)
      ↔ Matters su cluster t
filter_predicate-Matters su cluster t =
    rw (is_scheduled-lookup su.current_clusters cluster.name)
      (effect-Matters t.effect (lookup cluster.name su.current_clusters))

module _ (tolerates_taint : Toleration → Taint → Bool) where
  -- Some toleration tolerates the taint.
  abbrev pub Tolerated : List Toleration → Taint → Type 0
  Tolerated tolerations taint = any (λ t. tolerates_taint t taint) tolerations ≡ true

  tolerate_any :
      (ts : List Toleration) (taint : Taint)
      → tolerations_tolerate_taint tolerates_taint ts taint ≡ any (λ t. tolerates_taint t taint) ts
  unfolding tolerations_tolerate_taint
  tolerate_any [] taint = refl
  tolerate_any (t ∷ ts) taint = rw (tolerate_any ts taint)

  -- Every taint that matters is tolerated.
  abbrev pub AllTolerated : (Taint → Type 0) → List Toleration → List Taint → Type 0
  AllTolerated matters tolerations = All (λ t. matters t → Tolerated tolerations t)

  first_untolerated-none :
      (p : Taint → Bool) (matters : Taint → Type 0) (tolerations : List Toleration)
      (taints : List Taint)
      → ((t : Taint) → (p t ≡ true) ↔ matters t)
      → (first_untolerated tolerates_taint (select p taints) tolerations ≡ none)
        ↔ AllTolerated matters tolerations taints
  unfolding first_untolerated
  first_untolerated-none p matters tolerations [] k = (λ h. tt, λ h. refl)
  first_untolerated-none p matters tolerations (t ∷ ts) k =
      ground
        (arith, first_untolerated-none p matters tolerations ts k, tolerate_any tolerations t, k t)

  -- The filter succeeds exactly when every taint is tolerated that matters for the cluster:
  -- those with NoExecute, and those with NoSchedule unless the unit is scheduled to the cluster
  -- already.
  pub taint_filter-is_success :
      (su : SchedulingUnit) (cluster : Cluster)
      → (is_success (taint_filter tolerates_taint su cluster) ≡ true)
        ↔ AllTolerated (Matters su cluster) su.tolerations cluster.taints
  unfolding taint_filter find_matching_untolerated_taint
  taint_filter-is_success su cluster = ground (
    arith,
    first_untolerated-none (filter_predicate (is_scheduled su.current_clusters cluster.name))
        (Matters su cluster) su.tolerations cluster.taints (filter_predicate-Matters su cluster),
  )
