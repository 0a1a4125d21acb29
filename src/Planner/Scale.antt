-- ===== src/Planner/Scale.antt =====
-- `scaleUp`, `scaleDown` and `Plan` of pkg/controllers/scheduler/planner/planner.go.
--
-- A count is a natural number, and the planner's comment leaves negative ones to its caller. Where
-- the code subtracts two counts that nothing orders, the model tests: `none` says that the count
-- would be negative. `fnv`'s `Write` never returns an error, so the error results are left out.
pub mod Counts
pub mod Excess
pub mod Outcome
pub mod Whole
use kubeadmiral.Base.{
  ℕ, ◌+◌, ◌-◌, String, Option, none, some, Bool, true, false, List, [], ◌∷◌, ltb, leb, eqb,
  if◌then◌else◌, string_eq,
}
use kubeadmiral.Base.Assoc.{Map, lookup, insert, or_zero, total}
use kubeadmiral.Base.Chain.{◌>>=◌}
use kubeadmiral.Planner.Preferences.{
  ClusterPreferences, ReplicaSchedulingPreference, NamedClusterPreferences, get_named_preferences,
}
use kubeadmiral.Planner.Desired.{get_desired_plan, cap_at}

-- `x - y`, if that is no negative number.
abbrev pub checked_sub : ℕ → ℕ → Option ℕ
checked_sub x y = if leb y x then some (x - y) else none

abbrev pub max_of : Option ClusterPreferences → Option ℕ
max_of none = none
max_of (some p) = p.max_replicas

-- `*MaxReplicas - current`, where there is a maximum.
abbrev pub max_left : Option ℕ → ℕ → Option (Option ℕ)
max_left none current = some none
max_left (some m) current = do left ← checked_sub m current; some (some left)

module _ (rsp : ReplicaSchedulingPreference) (current : Map String ℕ) where
  -- The first loop of `scaleUp`.
  unfoldable pub scale_up_preferences : Map String ℕ → Option (Map String ClusterPreferences)
  scale_up_preferences [] = some []
  scale_up_preferences ((cluster, desired) ∷ more) = do
    rest ← scale_up_preferences more
    (if ltb (or_zero (lookup cluster current)) desired
        then (max_left (max_of (lookup cluster rsp.clusters)) (or_zero (lookup cluster current))
            >>= λ max. some (
                (
                  cluster,
                  record {
                    min_replicas = 0;
                    max_replicas = max;
                    weight = desired - or_zero (lookup cluster current);
                  },
                )
                ∷ rest))
        else some rest)

-- The first loop of `scaleDown`.
unfoldable pub scale_down_preferences :
    (current desired : Map String ℕ) → Map String ClusterPreferences
scale_down_preferences current [] = []
scale_down_preferences current ((cluster, desired) ∷ more) =
    let rest = scale_down_preferences current more in
    if ltb desired (or_zero (lookup cluster current))
    then (
      cluster,
      record {
        min_replicas = 0;
        max_replicas = some (or_zero (lookup cluster current));
        weight = or_zero (lookup cluster current) - desired;
      },
    )
      ∷ rest
    else rest

-- `for cluster, count := range counts { current[cluster] += count }`
unfoldable pub add_counts : (counts current : Map String ℕ) → Map String ℕ
add_counts [] current = current
add_counts ((cluster, count) ∷ more) current =
    add_counts more (insert cluster (or_zero (lookup cluster current) + count) current)

-- `for cluster, count := range counts { current[cluster] -= count }`
unfoldable pub sub_counts : (counts current : Map String ℕ) → Option (Map String ℕ)
sub_counts [] current = some current
sub_counts ((cluster, count) ∷ more) current = do
  left ← checked_sub (or_zero (lookup cluster current)) count
  sub_counts more (insert cluster left current)

module _ (hash : String → String → ℕ) where
  unfoldable pub scale_up :
      ReplicaSchedulingPreference
      → (current desired : Map String ℕ) → ℕ
      → String
      → Option (Map String ℕ)
  scale_up rsp current desired count key = do
    preferences ← scale_up_preferences rsp current desired
    let named = get_named_preferences hash key preferences
    some (add_counts (get_desired_plan [] [] named count false).0 current)

  unfoldable pub scale_down : (current desired : Map String ℕ) → ℕ → String → Option (Map String ℕ)
  scale_down current desired count key =
      let named = get_named_preferences hash key (scale_down_preferences current desired) in
      sub_counts (get_desired_plan [] [] named count false).0 current

-- The preferences of the clusters at hand: their own, or those of "*".
unfoldable pub available_preferences :
    ReplicaSchedulingPreference
    → List String
    → Map String ClusterPreferences
    → Map String ClusterPreferences
available_preferences rsp [] acc = acc
available_preferences rsp (cluster ∷ more) acc =
    available_preferences rsp more (elim (lookup cluster rsp.clusters) [
      | some preference ↦ insert cluster preference acc
      | none ↦ elim (lookup "*" rsp.clusters) [
        | some preference ↦ insert cluster preference acc
        | none ↦ acc
      ]
    ])

-- The loop that builds `currentPlan`.
unfoldable pub current_plan :
    (current estimated limited : Map String ℕ)
    → List NamedClusterPreferences
    → Map String ℕ
    → Map String ℕ
current_plan current estimated limited [] acc = acc
current_plan current estimated limited (p ∷ ps) acc = current_plan current estimated limited ps (
    insert p.cluster_name
      (cap_at (lookup p.cluster_name estimated)
        (cap_at (lookup p.cluster_name limited) (or_zero (lookup p.cluster_name current))))
      acc)

module _ (hash : String → String → ℕ) where
  -- The final `switch`. `currentTotalOkReplicas` is the sum of `currentPlan`.
  unfoldable pub avoid_disruption_plan :
      ReplicaSchedulingPreference
      → (current desired : Map String ℕ) → String
      → Option (Map String ℕ)
  avoid_disruption_plan rsp current desired key =
      if eqb (total current) (total desired)
      then some current
      else (if ltb (total desired) (total current)
          then scale_down hash current desired (total current - total desired) key
          else scale_up hash rsp current desired (total desired - total current) key)

  unfoldable pub plan :
      ReplicaSchedulingPreference
      → ℕ
      → List String
      → (current estimated limited : Map String ℕ) → String
      → (avoid_disruption keep_unschedulable : Bool) → Option (Map String ℕ × Map String ℕ)
  plan rsp total_replicas available current estimated limited key avoid_disruption keep =
      let named = get_named_preferences hash key (available_preferences rsp available []) in
      let keep' = if avoid_disruption then keep else true in
      let desired = get_desired_plan estimated limited named total_replicas keep' in
      if avoid_disruption
      then (avoid_disruption_plan rsp (current_plan current estimated limited named []) desired.0
            key
          >>= λ result. some (result, desired.1))
      else some desired
