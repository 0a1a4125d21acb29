-- ===== src/Scheduler/Generic/Feasible.antt =====
-- Which clusters the algorithm may suggest, and when it finds none.
use kubeadmiral.Base.{
  ◌≡◌, ◌≢◌, ◌⊎◌, refl, sym, subst, ℕ, String, Option, false, List, [], ◌∷◌, inl, inr, Bool-cases,
  Option-cases, All, All-map,
}
use kubeadmiral.Base.Int.{ℤ}
use kubeadmiral.Base.Assoc.{Map}
use mathlib.Core.List.{Mem, mem-cons_self, mem-cons_of_mem}
use kubeadmiral.Scheduler.Types.{Cluster, SchedulingUnit, Result, is_success, ClusterScore}
use kubeadmiral.Scheduler.Runtime.{
  clusters_of, run_score_plugins, run_select_clusters_plugin, run_replicas_plugin,
}
use kubeadmiral.Scheduler.Generic.{
  Framework, Diagnosis, scheduled, fit_error, score_failed, select_failed, replicas_failed,
  panicked, find_clusters_that_fit_workload, empty_diagnosis, sum_scores, is_sticky, is_duplicate,
  divide_replicas, select_and_assign, score_and_assign, on_feasible, schedule,
}
use kubeadmiral.Scheduler.Generic.Narrowing.{
  SelectNarrows, ReplicasNarrows, Feasible, find_fitting-select, select-All, sum_scores-clusters,
  select-narrows, replicas-narrows, suggest_all-All, suggest_replicas-All,
}

scheduled_eq : {a b : Map String (Option ℤ)} → scheduled a ≡ scheduled b → a ≡ b
scheduled_eq h = cc

module _ (fwk : Framework) (su : SchedulingUnit) (sel : All SelectNarrows fwk.select_plugins)
    (rep : All ReplicasNarrows fwk.replicas_plugins) (Q : String → Type 0)
    (m : Map String (Option ℤ)) where
  divide_replicas-All :
      (cs : List Cluster)
      → All (λ c. Q c.name) cs
      → divide_replicas fwk su cs ≡ scheduled m
      → All (λ e. Q e.0) m
  unfolding divide_replicas
  divide_replicas-All cs h k =
      elim (Bool-cases (is_success (run_replicas_plugin fwk.replicas_plugins su cs).1)) [
        | inl e ↦ subst (All (λ x. Q x.0)) (scheduled_eq (rw (divide_replicas, e) at k)) (
            suggest_replicas-All fwk su Q _ []
              (replicas-narrows fwk su (λ c. Q c.name) fwk.replicas_plugins cs rep h) tt)
        | inr e ↦ absurd (clash (rw (divide_replicas, e) at k))
      ]
    where
      clash : {r : Option Result} → replicas_failed r ≢ scheduled m
      clash h = cc

  select_and_assign-All :
      (scores : List ClusterScore)
      → All (λ c. Q c.name) (clusters_of scores)
      → select_and_assign fwk su scores ≡ scheduled m
      → All (λ e. Q e.0) m
  unfolding select_and_assign
  select_and_assign-All scores h k =
      let below = select-narrows fwk su (λ c. Q c.name) fwk.select_plugins scores sel h in
      elim (Bool-cases (is_success (run_select_clusters_plugin fwk.select_plugins su scores).1)) [
        | inl e ↦ elim (Bool-cases (is_duplicate su.scheduling_mode)) [
          | inl f ↦
              subst (All (λ x. Q x.0)) (scheduled_eq (rw (select_and_assign, e, f) at k))
                (suggest_all-All fwk su Q _ [] below tt)
          | inr f ↦ divide_replicas-All _ below (rw (select_and_assign, e, f) at k)
        ]
        | inr e ↦ absurd (clash (rw (select_and_assign, e) at k))
      ]
    where
      clash : {r : Option Result} → select_failed r ≢ scheduled m
      clash h = cc

  score_and_assign-All :
      (cs : List Cluster)
      → All (λ c. Q c.name) cs
      → score_and_assign fwk su cs ≡ scheduled m
      → All (λ e. Q e.0) m
  unfolding score_and_assign
  score_and_assign-All cs h k =
      let s = run_score_plugins fwk.score_plugins su cs [] in
      elim (Bool-cases (is_success s.1)) [
        | inl e ↦ elim (Option-cases (sum_scores 0 cs s.0)) [
          | inl f ↦ absurd (panics (rw (score_and_assign, e, f) at k))
          | inr (scores, f) ↦
              select_and_assign-All scores
                (subst (All (λ c. Q c.name)) (sym (sum_scores-clusters fwk su 0 cs s.0 scores f)) h)
                (rw (score_and_assign, e, f) at k)
        ]
        | inr e ↦ absurd (clash (rw (score_and_assign, e) at k))
      ]
    where
      clash : {r : Option Result} → score_failed r ≢ scheduled m
      clash h = cc

      panics : panicked ≢ scheduled m
      panics h = cc

All-Mem : (cs : List Cluster) → All (λ c. Mem c cs) cs
All-Mem [] = tt
All-Mem (c ∷ cs) = (mem-cons_self, All-map (λ x h. mem-cons_of_mem c h) cs (All-Mem cs))

pub List-cases :
    (cs : List Cluster) → (cs ≡ []) ⊎ ((c : Cluster) × (rest : List Cluster) × (cs ≡ c ∷ rest))
List-cases [] = inl refl
List-cases (c ∷ rest) = inr (c, rest, refl)

module _ (fwk : Framework) (su : SchedulingUnit) (clusters : List Cluster) where
  -- A cluster of this name is among the clusters, and every filter plugin lets it pass.
  abbrev pub IsFeasible : String → Type 0
  IsFeasible name = (c : Cluster) × Mem c clusters × (c.name ≡ name) × Feasible fwk su c

  Feasible-All :
      All
        (λ c. Mem c clusters × Feasible fwk su c)
        (find_clusters_that_fit_workload fwk su clusters).0
  Feasible-All =
      subst (All (λ c. Mem c clusters × Feasible fwk su c))
        (sym (find_fitting-select fwk su clusters [] empty_diagnosis))
        (select-All fwk su (λ c. Mem c clusters) clusters (All-Mem clusters))

  -- Unless the clusters are sticky, each cluster that is suggested has the name of one of the
  -- clusters, which every filter plugin lets pass, if the select and replica plugins name only
  -- clusters that they were given.
  pub schedule-IsFeasible :
      (m : Map String (Option ℤ))
      → All SelectNarrows fwk.select_plugins
      → All ReplicasNarrows fwk.replicas_plugins
      → is_sticky su ≡ false
      → schedule fwk su clusters ≡ scheduled m
      → All (λ e. IsFeasible e.0) m
  unfolding schedule on_feasible
  schedule-IsFeasible m sel rep sticky h =
      let fit = find_clusters_that_fit_workload fwk su clusters in
      elim (List-cases fit.0) [
        | inl e ↦ absurd (clash (rw (schedule, sticky, on_feasible, e) at h))
        | inr (c, cs, e) ↦
            score_and_assign-All fwk su sel rep IsFeasible m (c ∷ cs)
              (All-map (λ x k. (x, k.0, refl, k.1)) (c ∷ cs)
                (subst (All (λ c. Mem c clusters × Feasible fwk su c)) e Feasible-All))
              (rw (schedule, sticky, on_feasible, e) at h)
      ]
    where
      clash : {n : ℕ} {d : Diagnosis} → fit_error n d ≢ scheduled m
      clash h = cc
