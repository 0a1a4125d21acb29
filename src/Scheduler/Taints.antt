-- ===== src/Scheduler/Taints.antt =====
-- Taints and tolerations: `TolerationsTolerateTaint`, `FindMatchingUntoleratedTaint`,
-- `getFilteredTaints` and `DefaultNormalizeScore` of pkg/controllers/scheduler/framework/util.go, and
-- the plugin of framework/plugins/tainttoleration/taint_toleration.go. `ToleratesTaint` belongs to
-- k8s.io/api and is a parameter.
pub mod Plugin
pub mod Score
use kubeadmiral.Base.{
  ℕ, zero, suc, ◌-◌, ◌*◌, ◌/◌, ◌+◌, String, Option, none, some, Bool, true, false, List, [], ◌∷◌,
  ◌||◌, not, ltb, eqb, any, select, map, if◌then◌else◌, ◌==◌, string_eq,
}
use kubeadmiral.Base.Int.{ℤ, pos}
use kubeadmiral.Scheduler.Types.{
  Effect, no_effect, no_schedule, prefer_no_schedule, no_execute, Taint, Toleration, Cluster,
  SchedulingUnit, Result, Code, success, unschedulable, new_result, ClusterScore,
}

abbrev pub is_no_execute : Effect → Bool
is_no_execute no_execute = true
is_no_execute _ = false

abbrev pub is_no_schedule : Effect → Bool
is_no_schedule no_schedule = true
is_no_schedule _ = false

abbrev pub is_prefer_no_schedule : Effect → Bool
is_prefer_no_schedule prefer_no_schedule = true
is_prefer_no_schedule _ = false

abbrev pub is_no_effect : Effect → Bool
is_no_effect no_effect = true
is_no_effect _ = false

abbrev pub is_scheduled : List (String × Option ℤ) → String → Bool
is_scheduled [] name = false
is_scheduled ((c, _) ∷ rest) name = c == name || is_scheduled rest name

-- A cluster that is scheduled already only minds NoExecute.
abbrev pub filter_predicate : Bool → Taint → Bool
filter_predicate scheduled t =
    if scheduled then is_no_execute t.effect else is_no_schedule t.effect || is_no_execute t.effect

module _ (tolerates_taint : Toleration → Taint → Bool) where
  unfoldable pub tolerations_tolerate_taint : List Toleration → Taint → Bool
  tolerations_tolerate_taint [] taint = false
  tolerations_tolerate_taint (t ∷ ts) taint =
      tolerates_taint t taint || tolerations_tolerate_taint ts taint

  -- The loop of `FindMatchingUntoleratedTaint`.
  unfoldable pub first_untolerated : List Taint → List Toleration → Option Taint
  first_untolerated [] tolerations = none
  first_untolerated (taint ∷ taints) tolerations =
      let rest = first_untolerated taints tolerations in
      if tolerations_tolerate_taint tolerations taint then rest else some taint

  -- `inclusionFilter` is never nil in the calls.
  unfoldable pub find_matching_untolerated_taint :
      List Taint → List Toleration → (Taint → Bool) → Option Taint
  find_matching_untolerated_taint taints tolerations inclusion_filter =
      first_untolerated (select inclusion_filter taints) tolerations

  -- `TaintToleration.Filter`. `PreCheck` only tests for nil pointers.
  unfoldable pub taint_filter : SchedulingUnit → Cluster → Option Result
  taint_filter su cluster =
      elim (find_matching_untolerated_taint cluster.taints su.tolerations
        (filter_predicate (is_scheduled su.current_clusters cluster.name))) [
          | none ↦ new_result success []
          | some taint ↦ new_result unschedulable (taint.key ∷ taint.value ∷ [])
        ]

  -- `getTolerationsPreferNoSchedule`
  abbrev pub tolerations_prefer_no_schedule : List Toleration → List Toleration
  tolerations_prefer_no_schedule =
      select (λ t. is_no_effect t.effect || is_prefer_no_schedule t.effect)

  -- `countIntolerableTaintsPreferNoSchedule`
  unfoldable pub count_intolerable : List Taint → List Toleration → ℕ
  count_intolerable [] tolerations = 0
  count_intolerable (taint ∷ taints) tolerations =
      let rest = count_intolerable taints tolerations in
      if not (is_prefer_no_schedule taint.effect)
      then rest
      else (if tolerations_tolerate_taint tolerations taint then rest else suc rest)

  -- `TaintToleration.Score`
  unfoldable pub taint_score : SchedulingUnit → Cluster → ℕ × Option Result
  taint_score su cluster = (
    count_intolerable cluster.taints (tolerations_prefer_no_schedule su.tolerations),
    new_result success [],
  )

-- The first loop of `DefaultNormalizeScore`.
unfoldable pub max_score : ℕ → List ClusterScore → ℕ
max_score max_count [] = max_count
max_score max_count (s ∷ ss) = max_score (if ltb max_count s.score then s.score else max_count) ss

-- `maxPriority - score` is exact: a score is at most `maxCount`.
unfoldable pub default_normalize_score : ℕ → Bool → List ClusterScore → List ClusterScore
default_normalize_score max_priority reverse scores =
    let max_count = max_score 0 scores in
    if eqb max_count 0
    then (if reverse
        then map (λ (s : ClusterScore). record s { score = max_priority }) scores
        else scores)
    else map
        (λ (s : ClusterScore).
          let score = max_priority * s.score / max_count in
          record s { score = if reverse then max_priority - score else score })
        scores

-- `MaxClusterScore`
abbrev pub max_cluster_score : ℕ
max_cluster_score = 100

-- `TaintToleration.NormalizeScore`
unfoldable pub taint_normalize_score : List ClusterScore → List ClusterScore × Option Result
taint_normalize_score scores = (default_normalize_score max_cluster_score true scores, none)
