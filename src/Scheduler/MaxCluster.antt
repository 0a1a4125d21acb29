-- ===== src/Scheduler/MaxCluster.antt =====
-- pkg/controllers/scheduler/framework/plugins/maxcluster/max_cluster.go: the plugin that keeps the
-- clusters with the best scores.
use kubeadmiral.Base.{
  ◌≡◌, ◌≤◌, ℕ, String, Option, none, some, Bool, List, [], ◌∷◌, ltb, if◌then◌else◌, length, take,
  ◌++◌, ◌⊎◌, zero, suc,
}
use kubeadmiral.Base.Sorting.{sort, Sorted}
use mathlib.Core.List.{Perm}
use kubeadmiral.Base.Int.{ℤ, pos, negsuc}
use kubeadmiral.Scheduler.Types.{
  SchedulingUnit, Result, success, unschedulable, new_result, ClusterScore,
}

-- The `Less` of the sort: the better score first.
abbrev pub better : ClusterScore → ClusterScore → Bool
better a b = ltb b.score a.score

-- The length that is kept of a list of `n`.
abbrev pub kept : Option ℤ → ℕ → ℕ
kept (some (pos m)) n = if ltb m n then m else n
kept _ n = n

abbrev pub max_cluster_err_reason : String
max_cluster_err_reason = "max cluster is less than 0"

-- `MaxCluster.SelectClusters`
unfoldable pub max_cluster_select :
    SchedulingUnit → List ClusterScore → List ClusterScore × Option Result
max_cluster_select su scores = elim su.max_clusters [
  | none ↦ (take (length scores) (sort better scores), new_result success [])
  | some (negsuc k) ↦ ([], new_result unschedulable (max_cluster_err_reason ∷ []))
  | some (pos m) ↦
      (take (kept (some (pos m)) (length scores)) (sort better scores), new_result success [])
]

-- What `take` leaves.
abbrev drop : ℕ → List ClusterScore → List ClusterScore
drop zero xs = xs
drop (suc n) [] = []
drop (suc n) (x ∷ xs) = drop n xs

-- As many as the maximum allows of a list of `n`: all, or the maximum where that is less.
abbrev pub AsManyAsAllowed : Option ℤ → ℕ → ℕ → Type 0
AsManyAsAllowed none n k = k ≡ n
AsManyAsAllowed (some (pos m)) n k = (k ≤ m) × (k ≤ n) × ((k ≡ m) ⊎ (k ≡ n))
AsManyAsAllowed (some (negsuc m)) n k = ⊥

-- `selected` is the beginning of a list that holds the same scores in falling order.
abbrev pub Best : List ClusterScore → List ClusterScore → Type 0
Best scores selected =
    (rest : List ClusterScore) × Perm (selected ++ rest) scores × Sorted better (selected ++ rest)
