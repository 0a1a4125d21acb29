-- ===== src/Scheduler/Runtime.antt =====
-- pkg/controllers/scheduler/framework/runtime/framework.go: how the plugins are registered and run.
-- A plugin is a parameter; metrics and logging are left out.
pub mod Filter
pub mod Register
use kubeadmiral.Base.{
  ℕ, zero, suc, ◌+◌, String, Option, none, some, Bool, true, false, List, [], ◌∷◌, ◌++◌, ◌||◌, not,
  eqb, map, if◌then◌else◌, ◌==◌, string_eq,
}
use kubeadmiral.Base.Int.{ℤ, pos, negsuc}
use kubeadmiral.Base.Assoc.{Map, lookup, insert, has}
use kubeadmiral.Scheduler.Types.{
  Cluster, SchedulingUnit, Result, Code, success, error, new_result, is_success, set_failed_plugin,
  reasons_of, ClusterScore, ClusterReplicas, FilterPlugin, ScorePlugin, SelectPlugin,
  ReplicasPlugin,
}

-- `addPlugins`, over the plugins of one extension point. `lookup_plugin` is the map of plugins with
-- the test that the plugin implements the point: outer `none` for an unknown name, inner `none` for
-- a plugin of another kind.
pub data RegisterError : Type 0 where
  does_not_exist does_not_implement already_registered : String → RegisterError

pub data Registered (P : Type 0) : Type 0 where
  registered : List P → Registered P
  refused : RegisterError → Registered P

module _ {P : Type 0} (plugins : Map String (Option P)) where
  unfoldable pub add_plugins : List String → (seen : List String) → (acc : List P) → Registered P
  add_plugins [] seen acc = registered acc
  add_plugins (name ∷ names) seen acc = elim (lookup name plugins) [
    | none ↦ refused (does_not_exist name)
    | some none ↦ refused (does_not_implement name)
    | some (some plugin) ↦
        let rest = add_plugins names (name ∷ seen) (acc ++ plugin ∷ []) in
        if has name seen then refused (already_registered name) else rest
  ]

-- `RunFilterPlugins` and `runFilterPlugin`
unfoldable pub run_filter_plugins : List FilterPlugin → SchedulingUnit → Cluster → Option Result
run_filter_plugins [] su cluster = new_result success []
run_filter_plugins (pl ∷ pls) su cluster =
    let rest = run_filter_plugins pls su cluster in
    let result = pl.filter su cluster in
    if is_success result then rest else set_failed_plugin pl.name result

-- The inner loop of `RunScorePlugins`: the scores, or the result that was no success.
pub data Scored : Type 0 where
  scored : List ClusterScore → Scored
  not_scored : Option Result → Scored

unfoldable pub score_all : ScorePlugin → SchedulingUnit → List Cluster → Scored
score_all plugin su [] = scored []
score_all plugin su (cluster ∷ clusters) =
    let rest = score_all plugin su clusters in
    let s = plugin.score su cluster in
    if is_success s.1
    then elim rest [
      | scored scores ↦ scored (record { cluster = cluster; score = s.0 } ∷ scores)
      | not_scored r ↦ not_scored r
    ]
    else not_scored s.1

-- The score extension of a plugin, where it has one.
unfoldable pub normalized : ScorePlugin → List ClusterScore → Scored
normalized plugin scores = elim plugin.normalize_score [
  | none ↦ scored scores
  | some normalize ↦
      let n = normalize scores in if is_success n.1 then scored n.0 else not_scored n.1
]

-- `RunScorePlugins`: a map from plugin names to scores and a nil result, or the error.
unfoldable pub run_score_plugins :
    List ScorePlugin
    → SchedulingUnit
    → List Cluster
    → Map String (List ClusterScore)
    → Map String (List ClusterScore) × Option Result
run_score_plugins [] su clusters acc = (acc, none)
run_score_plugins (plugin ∷ plugins) su clusters acc = elim (score_all plugin su clusters) [
  | not_scored r ↦ ([], new_result error (plugin.name ∷ su.key ∷ reasons_of r))
  | scored scores ↦ elim (normalized plugin scores) [
    | not_scored r ↦ ([], new_result error (plugin.name ∷ su.key ∷ reasons_of r))
    | scored scores' ↦ run_score_plugins plugins su clusters (insert plugin.name scores' acc)
  ]
]

abbrev pub clusters_of : List ClusterScore → List Cluster
clusters_of = map (λ (s : ClusterScore). s.cluster)

-- The loop over the select plugins. The `result` that it assigns is its own, so that the function
-- returns the nil result after it.
unfoldable pub run_select_loop :
    List SelectPlugin → SchedulingUnit → List ClusterScore → List Cluster × Option Result
run_select_loop [] su scores = (clusters_of scores, none)
run_select_loop (plugin ∷ plugins) su scores =
    let selected = plugin.select_clusters su scores in
    let rest = run_select_loop plugins su selected.0 in
    if is_success selected.1
    then rest
    else ([], new_result error (plugin.name ∷ su.key ∷ reasons_of selected.1))

-- `RunSelectClustersPlugin`
unfoldable pub run_select_clusters_plugin :
    List SelectPlugin → SchedulingUnit → List ClusterScore → List Cluster × Option Result
run_select_clusters_plugin [] su scores = (clusters_of scores, new_result success [])
run_select_clusters_plugin (p ∷ ps) su scores = run_select_loop (p ∷ ps) su scores

-- `schedulingUnit.DesiredReplicas == nil || *schedulingUnit.DesiredReplicas <= 0`
abbrev pub no_replicas : Option ℤ → Bool
no_replicas none = true
no_replicas (some (negsuc k)) = true
no_replicas (some (pos n)) = eqb n 0

-- `RunReplicasPlugin`: only the first plugin is ever asked.
unfoldable pub run_replicas_plugin :
    List ReplicasPlugin → SchedulingUnit → List Cluster → List ClusterReplicas × Option Result
run_replicas_plugin plugins su [] =
    ([], new_result success ("unnecessary to schedule due to no clusters" ∷ []))
run_replicas_plugin [] su (c ∷ cs) = (
  [],
  new_result success (
      (if no_replicas su.desired_replicas
        then "unnecessary to schedule due to replicas less or equal zero"
        else "no replicas plugin registered in the framework")
      ∷ []),
)
run_replicas_plugin (plugin ∷ plugins) su (c ∷ cs) =
    let scheduled = plugin.replica_scheduling su (c ∷ cs) in
    if no_replicas su.desired_replicas
    then (
      [],
      new_result success ("unnecessary to schedule due to replicas less or equal zero" ∷ []),
    )
    else (if is_success scheduled.1
        then scheduled
        else (scheduled.0, new_result error (plugin.name ∷ su.key ∷ reasons_of scheduled.1)))
