-- ===== src/Scheduler/Generic.antt =====
-- pkg/controllers/scheduler/core/generic_scheduler.go: the scheduling algorithm over a framework of
-- plugins. The `error`s that it wraps are the results that they are made of.
pub mod Narrowing
pub mod Feasible
pub mod Fit
pub mod Panics
use kubeadmiral.Base.{
  ℕ, zero, suc, ◌+◌, String, Option, none, some, Bool, true, false, List, [], ◌∷◌, ◌++◌, ◌||◌, ◌&&◌,
  not, ltb, length, if◌then◌else◌, ◌==◌, string_eq,
}
use kubeadmiral.Base.Int.{ℤ, pos}
use kubeadmiral.Base.Assoc.{Map, lookup, insert, has, or_zero}
use kubeadmiral.Scheduler.Types.{
  Cluster, SchedulingUnit, Result, is_success, failed_plugin_of, ClusterScore, ClusterReplicas,
  FilterPlugin, ScorePlugin, SelectPlugin, ReplicasPlugin, duplicate, divide, SchedulingMode,
}
use kubeadmiral.Scheduler.Runtime.{
  run_filter_plugins, run_score_plugins, run_select_clusters_plugin, run_replicas_plugin,
}

-- The plugins of a framework, by extension point.
pub record Framework : Type 0 where
  pub filter_plugins : List FilterPlugin
  pub score_plugins : List ScorePlugin
  pub select_plugins : List SelectPlugin
  pub replicas_plugins : List ReplicasPlugin

-- `Diagnosis`
pub record Diagnosis : Type 0 where
  pub cluster_to_result_map : Map String (Option Result)
  pub unschedulable_plugins : List String

-- What `Schedule` returns: `SuggestedClusters`, or one of its errors.
pub data Outcome : Type 0 where
  scheduled : Map String (Option ℤ) → Outcome
  fit_error : (num_all_clusters : ℕ) → Diagnosis → Outcome
  score_failed select_failed replicas_failed : Option Result → Outcome
  panicked : Outcome

abbrev pub empty_diagnosis : Diagnosis
empty_diagnosis = record { cluster_to_result_map = []; unschedulable_plugins = [] }

-- `UnschedulablePlugins.Insert`
abbrev pub add_plugin : String → List String → List String
add_plugin plugin plugins = if has plugin plugins then plugins else plugins ++ plugin ∷ []

abbrev pub reject : Diagnosis → String → Option Result → Diagnosis
reject d name result = record {
  cluster_to_result_map = insert name result d.cluster_to_result_map;
  unschedulable_plugins = add_plugin (failed_plugin_of result) d.unschedulable_plugins;
}

-- The loop of `findClustersThatFitWorkload`.
unfoldable pub find_fitting :
    Framework → SchedulingUnit → List Cluster → List Cluster → Diagnosis → List Cluster × Diagnosis
find_fitting fwk su [] ret d = (ret, d)
find_fitting fwk su (cluster ∷ clusters) ret d =
    let result = run_filter_plugins fwk.filter_plugins su cluster in
    let fits = is_success result in
    find_fitting fwk su clusters (if fits then ret ++ cluster ∷ [] else ret)
      (if fits then d else reject d cluster.name result)

abbrev pub find_clusters_that_fit_workload :
    Framework → SchedulingUnit → List Cluster → List Cluster × Diagnosis
find_clusters_that_fit_workload fwk su clusters = find_fitting fwk su clusters [] empty_diagnosis

-- `scores[j][i].Score`, added up over the plugins `j`. Go panics where a list is too short.
unfoldable pub score_at : ℕ → List ClusterScore → Option ℕ
score_at i [] = none
score_at zero (s ∷ ss) = some s.score
score_at (suc i) (s ∷ ss) = score_at i ss

unfoldable pub total_at : ℕ → Map String (List ClusterScore) → Option ℕ
total_at i [] = some 0
total_at i ((_, scores) ∷ rest) = elim (score_at i scores) [
  | none ↦ none
  | some s ↦ elim (total_at i rest) [ none ↦ none | some t ↦ some (s + t) ]
]

-- The loop of `scoreClusters`, from the index `i` on; `none` is a panic.
unfoldable pub sum_scores :
    ℕ → List Cluster → Map String (List ClusterScore) → Option (List ClusterScore)
sum_scores i [] scores = some []
sum_scores i (cluster ∷ clusters) scores = elim (total_at i scores) [
  | none ↦ none
  | some t ↦ elim (sum_scores (suc i) clusters scores) [
    | none ↦ none
    | some rest ↦ some (record { cluster = cluster; score = t } ∷ rest)
  ]
]

-- `result.SuggestedClusters`, written from the clusters in their order.
abbrev pub suggest_all : List Cluster → Map String (Option ℤ) → Map String (Option ℤ)
suggest_all [] m = m
suggest_all (c ∷ cs) m = suggest_all cs (insert c.name none m)

abbrev pub suggest_replicas : List ClusterReplicas → Map String (Option ℤ) → Map String (Option ℤ)
suggest_replicas [] m = m
suggest_replicas (r ∷ rs) m = suggest_replicas rs (insert r.cluster.name (some r.replicas) m)

abbrev pub is_duplicate : SchedulingMode → Bool
is_duplicate duplicate = true
is_duplicate divide = false

-- `Schedule` from `replicaScheduling` on.
unfoldable pub divide_replicas : Framework → SchedulingUnit → List Cluster → Outcome
divide_replicas fwk su selected =
    let r = run_replicas_plugin fwk.replicas_plugins su selected in
    if is_success r.1 then scheduled (suggest_replicas r.0 []) else replicas_failed r.1

-- `Schedule` from `selectClusters` on.
unfoldable pub select_and_assign : Framework → SchedulingUnit → List ClusterScore → Outcome
select_and_assign fwk su scores =
    let s = run_select_clusters_plugin fwk.select_plugins su scores in
    if is_success s.1
    then (if is_duplicate su.scheduling_mode
        then scheduled (suggest_all s.0 [])
        else divide_replicas fwk su s.0)
    else select_failed s.1

-- `Schedule` from `scoreClusters` on, for the feasible clusters.
unfoldable pub score_and_assign : Framework → SchedulingUnit → List Cluster → Outcome
score_and_assign fwk su feasible =
    let s = run_score_plugins fwk.score_plugins su feasible [] in
    if is_success s.1
    then elim (sum_scores 0 feasible s.0) [
      | none ↦ panicked
      | some scores ↦ select_and_assign fwk su scores
    ]
    else score_failed s.1

-- `Schedule` after its filters have run.
unfoldable pub on_feasible : Framework → SchedulingUnit → ℕ → Diagnosis → List Cluster → Outcome
on_feasible fwk su all_clusters d [] = fit_error all_clusters d
on_feasible fwk su all_clusters d (c ∷ cs) = score_and_assign fwk su (c ∷ cs)

-- `schedulingUnit.StickyCluster && len(schedulingUnit.CurrentClusters) > 0`
abbrev pub is_sticky : SchedulingUnit → Bool
is_sticky su = su.sticky_cluster && ltb 0 (length su.current_clusters)

-- `genericScheduler.Schedule`
unfoldable pub schedule : Framework → SchedulingUnit → List Cluster → Outcome
schedule fwk su clusters =
    let fit = find_clusters_that_fit_workload fwk su clusters in
    if is_sticky su
    then scheduled su.current_clusters
    else on_feasible fwk su (length clusters) fit.1 fit.0
