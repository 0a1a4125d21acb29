-- ===== src/BinPack.antt =====
-- pkg/controllers/scheduler/framework/plugins/preferencebinpack/planner.go: the planner that fills the
-- clusters one after the other. Its counts are integers, since the code subtracts counts that nothing
-- orders. `Plan` and its helpers never return an error.
pub mod Limits
pub mod Surplus
pub mod Plugin
mod Tests
use kubeadmiral.Base.{
  ℕ, String, Option, none, some, Bool, true, false, ◌&&◌, ◌||◌, not, List, [], ◌∷◌, ◌++◌,
  if◌then◌else◌, string_eq, any, all,
}
use kubeadmiral.Base.Int.{ℤ, pos, ◌+ℤ◌, ◌-ℤ◌, ltb_ℤ, eqb_ℤ}
use kubeadmiral.Base.Assoc.{Map, lookup, insert, has}

pub record ClusterPreferences : Type 0 where
  pub min_replicas : ℤ
  pub max_replicas : Option ℤ

pub record ReplicaSchedulingPreference : Type 0 where
  pub clusters : Map String ClusterPreferences

pub record NamedClusterPreferences : Type 0 where
  pub cluster_name : String
  pub preferences : ClusterPreferences

-- The zero values that a look-up of a missing key gives.
abbrev pub or_zero_ℤ : Option ℤ → ℤ
or_zero_ℤ none = pos 0
or_zero_ℤ (some n) = n

abbrev pub or_zero_preferences : Option ClusterPreferences → ClusterPreferences
or_zero_preferences none = record { min_replicas = pos 0; max_replicas = none }
or_zero_preferences (some p) = p

-- `MinInt64` and `MaxInt64` of the framework.
abbrev pub min_ℤ : ℤ → ℤ → ℤ
min_ℤ a b = if ltb_ℤ a b then a else b

abbrev pub max_ℤ : ℤ → ℤ → ℤ
max_ℤ a b = if ltb_ℤ b a then a else b

-- `if limit exists && x > limit { x = limit }`, and the condition of that `if`.
abbrev pub limit_to : Option ℤ → ℤ → ℤ
limit_to none x = x
limit_to (some c) x = if ltb_ℤ c x then c else x

abbrev pub is_over : Option ℤ → ℤ → Bool
is_over none x = false
is_over (some c) x = ltb_ℤ c x

-- The variables of `getDesiredPlan`.
pub record Assigned : Type 0 where
  pub remaining : ℤ
  pub plan : Map String ℤ
  pub overflow : Map String ℤ

module _ (estimated limited : Map String ℤ) where
  -- The bodies of its two loops.
  unfoldable pub assign_min : NamedClusterPreferences → Assigned → Assigned
  assign_min p s =
      let name = p.cluster_name in
      let allowed = limit_to (lookup name limited) (min_ℤ p.preferences.min_replicas s.remaining) in
      let placed = limit_to (lookup name estimated) allowed in
      record {
        remaining = s.remaining -ℤ placed;
        plan = insert name placed s.plan;
        overflow =
            if is_over (lookup name estimated) allowed
            then insert name (allowed -ℤ placed) s.overflow
            else s.overflow;
      }

  unfoldable pub assign_rest : NamedClusterPreferences → Assigned → Assigned
  assign_rest p s =
      let name = p.cluster_name in
      let start = or_zero_ℤ (lookup name s.plan) in
      let allowed =
        limit_to (lookup name limited)
          (limit_to p.preferences.max_replicas (start +ℤ s.remaining)) in
      let placed = limit_to (lookup name estimated) allowed in
      record {
        remaining = s.remaining -ℤ (placed -ℤ start);
        plan = insert name placed s.plan;
        overflow =
            if is_over (lookup name estimated) allowed
            then insert name (max_ℤ (allowed -ℤ placed) (or_zero_ℤ (lookup name s.overflow)))
                s.overflow
            else s.overflow;
      }

  unfoldable pub assign_mins : List NamedClusterPreferences → Assigned → Assigned
  assign_mins [] s = s
  assign_mins (p ∷ ps) s = assign_mins ps (assign_min p s)

  unfoldable pub assign_rests : List NamedClusterPreferences → Assigned → Assigned
  assign_rests [] s = s
  assign_rests (p ∷ ps) s = assign_rests ps (assign_rest p s)

  -- Both loops.
  unfoldable pub assign : List NamedClusterPreferences → ℤ → Assigned
  assign preferences total_replicas =
      assign_rests preferences
        (assign_mins preferences (record { remaining = total_replicas; plan = []; overflow = [] }))

  unfoldable pub get_desired_plan : List NamedClusterPreferences → ℤ → Map String ℤ × Map String ℤ
  unfolding assign
  get_desired_plan preferences total_replicas =
      let s = assign preferences total_replicas in (s.plan, s.overflow)

-- `for cluster, count := range counts { current[cluster] += count }`, and with `-=`.
unfoldable pub add_all : (counts current : Map String ℤ) → Map String ℤ
add_all [] current = current
add_all ((cluster, count) ∷ more) current =
    add_all more (insert cluster (or_zero_ℤ (lookup cluster current) +ℤ count) current)

unfoldable pub sub_all : (counts current : Map String ℤ) → Map String ℤ
sub_all [] current = current
sub_all ((cluster, count) ∷ more) current =
    sub_all more (insert cluster (or_zero_ℤ (lookup cluster current) -ℤ count) current)

-- `max := *rsp.Clusters[cluster].MaxReplicas - current`, where there is a maximum.
abbrev pub room : Option ℤ → ℤ → Option ℤ
room none current = none
room (some m) current = some (m -ℤ current)

-- The first loop of `scaleUp`.
unfoldable pub to_raise :
    ReplicaSchedulingPreference
    → (current desired : Map String ℤ) → List String
    → List NamedClusterPreferences
to_raise rsp current desired [] = []
to_raise rsp current desired (cluster ∷ more) =
    let rest = to_raise rsp current desired more in
    let now = or_zero_ℤ (lookup cluster current) in
    let own = or_zero_preferences (lookup cluster rsp.clusters) in
    if ltb_ℤ now (or_zero_ℤ (lookup cluster desired))
    then record {
      cluster_name = cluster;
      preferences = record {
        min_replicas = own.min_replicas;
        max_replicas = room own.max_replicas now;
      };
    }
      ∷ rest
    else rest

-- The first loop of `scaleDown`, which puts each cluster before the others.
unfoldable pub to_lower :
    (current desired : Map String ℤ)
    → List String
    → List NamedClusterPreferences
    → List NamedClusterPreferences
to_lower current desired [] acc = acc
to_lower current desired (cluster ∷ more) acc =
    let now = or_zero_ℤ (lookup cluster current) in
    to_lower current desired more (
      if ltb_ℤ (or_zero_ℤ (lookup cluster desired)) now
      then record {
        cluster_name = cluster;
        preferences = record { min_replicas = pos 0; max_replicas = some now };
      }
        ∷ acc
      else acc)

unfoldable pub scale_up :
    ReplicaSchedulingPreference
    → (current desired limited : Map String ℤ) → ℤ
    → List String
    → Map String ℤ
scale_up rsp current desired limited count available =
    add_all (get_desired_plan [] limited (to_raise rsp current desired available) count).0 current

unfoldable pub scale_down : (current desired : Map String ℤ) → ℤ → List String → Map String ℤ
scale_down current desired count available =
    sub_all (get_desired_plan [] [] (to_lower current desired available []) count).0 current

unfoldable pub is_scheduled_clusters_removed : List String → Map String ℤ → Bool
is_scheduled_clusters_removed available current =
    any (λ (x : String × ℤ). not (has x.0 available)) current

-- One turn of the loop of `isEstimatedCapacityAvailable`: whether the count is known.
abbrev pub is_settled : Option ℤ → (replicas now : ℤ) → Bool
is_settled (some capacity) replicas now = eqb_ℤ capacity replicas
is_settled none replicas now = eqb_ℤ replicas now

unfoldable pub is_estimated_capacity_available : (current estimated scheduled : Map String ℤ) → Bool
is_estimated_capacity_available current estimated scheduled =
    all (λ (x : String × ℤ). is_settled (lookup x.0 estimated) x.1 (or_zero_ℤ (lookup x.0 current)))
      scheduled

unfoldable pub should_plan :
    List String → (current limited estimated scheduled : Map String ℤ) → Bool
should_plan available current limited estimated scheduled =
    if is_scheduled_clusters_removed available current
    then true
    else if any (λ (x : String × ℤ). is_over (lookup x.0 limited) x.1) current
    then true
    else is_estimated_capacity_available current estimated scheduled

unfoldable pub named_preferences :
    ReplicaSchedulingPreference → List String → List NamedClusterPreferences
named_preferences rsp [] = []
named_preferences rsp (cluster ∷ more) =
    record {
      cluster_name = cluster;
      preferences = or_zero_preferences (lookup cluster rsp.clusters);
    }
    ∷ named_preferences rsp more

-- `currentPlan`, `currentTotalOkReplicas` and `currentTotalScheduledReplicas`.
pub record Running : Type 0 where
  pub plan : Map String ℤ
  pub ok : ℤ
  pub scheduled : ℤ

abbrev pub counted : (limit scheduled : Option ℤ) → ℤ
counted limit none = pos 0
counted limit (some n) = limit_to limit n

unfoldable pub running :
    (current estimated limited scheduled : Map String ℤ)
    → List NamedClusterPreferences
    → Running
    → Running
running current estimated limited scheduled [] r = r
running current estimated limited scheduled (p ∷ ps) r =
    let name = p.cluster_name in
    let replicas =
      limit_to (lookup name limited)
        (limit_to (lookup name estimated) (or_zero_ℤ (lookup name current))) in
    running current estimated limited scheduled ps (record {
      plan = insert name replicas r.plan;
      ok = r.ok +ℤ replicas;
      scheduled = r.scheduled +ℤ counted (lookup name limited) (lookup name scheduled);
    })

unfoldable pub sum_ℤ : Map String ℤ → ℤ
sum_ℤ [] = pos 0
sum_ℤ ((_, n) ∷ more) = n +ℤ sum_ℤ more

-- The overflow cut to the replicas that are not scheduled.
unfoldable pub cap_overflow : ℤ → Map String ℤ → Map String ℤ
cap_overflow unscheduled [] = []
cap_overflow unscheduled ((key, value) ∷ more) =
    let rest = cap_overflow unscheduled more in
    let v = min_ℤ value unscheduled in if ltb_ℤ (pos 0) v then (key, v) ∷ rest else rest

-- The final `switch`.
unfoldable pub adjust :
    ReplicaSchedulingPreference
    → Running
    → (desired limited : Map String ℤ) → ℤ
    → List String
    → Map String ℤ
adjust rsp r desired limited total_replicas available =
    if eqb_ℤ r.ok (sum_ℤ desired)
    then r.plan
    else if ltb_ℤ (sum_ℤ desired) r.ok
    then scale_down r.plan desired (r.ok -ℤ total_replicas) available
    else scale_up rsp r.plan desired limited (total_replicas -ℤ r.ok) available

unfoldable pub plan :
    ReplicaSchedulingPreference
    → ℤ
    → List String
    → (current estimated limited : Map String ℤ) → (avoid_disruption keep_unschedulable : Bool)
    → (scheduled : Map String ℤ) → Map String ℤ × Map String ℤ
plan rsp total_replicas available current estimated limited avoid_disruption keep scheduled =
    let named = named_preferences rsp available in
    let keep' = if avoid_disruption then keep else true in
    let desired = get_desired_plan estimated limited named total_replicas in
    let r =
      running current estimated limited scheduled named
        (record { plan = []; ok = pos 0; scheduled = pos 0 }) in
    if not (should_plan available current limited estimated scheduled)
    then (current, [])
    else if not keep' && eqb_ℤ r.scheduled total_replicas
    then (scheduled, [])
    else if not avoid_disruption
    then desired
    else (
      adjust rsp r desired.0 limited total_replicas available,
      if keep' then desired.1 else cap_overflow (total_replicas -ℤ r.scheduled) desired.1,
    )
