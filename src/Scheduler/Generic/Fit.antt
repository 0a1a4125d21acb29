-- ===== src/Scheduler/Generic/Fit.antt =====
-- When the algorithm answers that no cluster fits.
use kubeadmiral.Base.{
  ◌≡◌, ◌≢◌, ◌↔◌, refl, sym, subst, ◌∙◌, ℕ, true, false, List, [], ◌∷◌, inl, inr, Bool-cases,
  Option-cases, All, length, select,
}
use kubeadmiral.Scheduler.Types.{Cluster, SchedulingUnit, is_success, ClusterScore}
use kubeadmiral.Scheduler.Runtime.{
  run_score_plugins, run_select_clusters_plugin, run_replicas_plugin,
}
use kubeadmiral.Scheduler.Runtime.Filter.{run_filter_plugins-is_success}
use kubeadmiral.Scheduler.Generic.{
  Framework, Diagnosis, Outcome, fit_error, find_clusters_that_fit_workload, empty_diagnosis,
  sum_scores, is_sticky, is_duplicate, divide_replicas, select_and_assign, score_and_assign,
  on_feasible, schedule,
}
use kubeadmiral.Scheduler.Generic.Narrowing.{Feasible, find_fitting-select, fits}
use kubeadmiral.Scheduler.Generic.Feasible.{List-cases}

cons≢nil : {x : Cluster} {xs : List Cluster} → x ∷ xs ≢ []
cons≢nil h = cc

-- The outcome is no fit error.
abbrev Fitted : Outcome → Type 0
Fitted (fit_error n d) = ⊥
Fitted _ = Unit

module _ (fwk : Framework) (su : SchedulingUnit) where
  select_and_assign-Fitted : (scores : List ClusterScore) → Fitted (select_and_assign fwk su scores)
  unfolding select_and_assign divide_replicas
  select_and_assign-Fitted scores =
      let selected = (run_select_clusters_plugin fwk.select_plugins su scores).0 in
      elim (Bool-cases (is_success (run_select_clusters_plugin fwk.select_plugins su scores).1)) [
        | inr e ↦ rw (select_and_assign, e) tt
        | inl e ↦ elim (Bool-cases (is_duplicate su.scheduling_mode)) [
          | inl f ↦ rw (select_and_assign, e, f) tt
          | inr f ↦
              elim (Bool-cases
                (is_success (run_replicas_plugin fwk.replicas_plugins su selected).1)) [
                  | inl g ↦ rw (select_and_assign, divide_replicas, e, f, g) tt
                  | inr g ↦ rw (select_and_assign, divide_replicas, e, f, g) tt
                ]
        ]
      ]

  score_and_assign-Fitted : (cs : List Cluster) → Fitted (score_and_assign fwk su cs)
  unfolding score_and_assign
  score_and_assign-Fitted cs =
      let s = run_score_plugins fwk.score_plugins su cs [] in
      elim (Bool-cases (is_success s.1)) [
        | inr e ↦ rw (score_and_assign, e) tt
        | inl e ↦ elim (Option-cases (sum_scores 0 cs s.0)) [
          | inl f ↦ rw (score_and_assign, e, f) tt
          | inr (scores, f) ↦ rw (score_and_assign, e, f) (select_and_assign-Fitted scores)
        ]
      ]

  select-nil :
      (cs : List Cluster) → (select (fits fwk su) cs ≡ []) ↔ All (λ c. ¬ Feasible fwk su c) cs
  select-nil [] = (λ h. tt, λ h. refl)
  select-nil (c ∷ cs) = elim (Bool-cases (fits fwk su c)) [
    | inl e ↦ (
      λ h. absurd (cons≢nil (rw e at h)),
      λ h. absurd (h.0 ((run_filter_plugins-is_success su c fwk.filter_plugins).0 e)),
    )
    | inr e ↦ (
      λ h. (
        λ k. clash (sym e ∙ (run_filter_plugins-is_success su c fwk.filter_plugins).1 k),
        (select-nil cs).0 (rw e at h),
      ),
      λ h. rw e ((select-nil cs).1 h.1),
    )
  ]
    where
      clash : false ≢ true
      clash h = cc

  -- Unless the clusters are sticky, the outcome is a fit error exactly when each cluster is
  -- rejected by some filter plugin.
  pub schedule-fit_error :
      (clusters : List Cluster)
      → is_sticky su ≡ false
      → ((n : ℕ) × (d : Diagnosis) × (schedule fwk su clusters ≡ fit_error n d))
        ↔ All (λ c. ¬ Feasible fwk su c) clusters
  unfolding schedule on_feasible
  schedule-fit_error clusters sticky =
      let fit = find_clusters_that_fit_workload fwk su clusters in
      let kept = find_fitting-select fwk su clusters [] empty_diagnosis in
      elim (List-cases fit.0) [
        | inl e ↦ (
          λ h. (select-nil clusters).0 (sym kept ∙ e),
          λ h. (length clusters, fit.1, rw (schedule, sticky, on_feasible, e) refl),
        )
        | inr (c, cs, e) ↦ (
          λ h. absurd (
              subst Fitted (rw (schedule, sticky, on_feasible, e) at h.2)
                (score_and_assign-Fitted (c ∷ cs))),
          λ h. absurd (cons≢nil (sym e ∙ kept ∙ (select-nil clusters).1 h)),
        )
      ]
