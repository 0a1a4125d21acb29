-- ===== src/Planner/Tests.antt =====
-- The planner on two clusters: "a" has a preference of its own and an estimated capacity, "b" that
-- of "*".
use kubeadmiral.Base.{
  ℕ, String, Option, none, some, true, false, List, [], ◌∷◌, if◌then◌else◌, ◌==◌, string_eq, arith,
  inl, refl, ◌≡◌, ◌≤◌, All,
}
use kubeadmiral.Base.Assoc.{Map, total, lookup}
use kubeadmiral.Planner.Preferences.{
  ClusterPreferences, ReplicaSchedulingPreference, NamedClusterPreferences, named,
  get_named_preferences,
}
use kubeadmiral.Planner.Preferences.Order.{DistinctNames}
use kubeadmiral.Planner.Desired.{
  fill, get_desired_plan, distribute_rounds, assign_minimums, assign_minimum, cut, distribute_pass,
  distribute_one, share, is_full, trim_overflow,
}
use kubeadmiral.Planner.Desired.Steps.{Within}
use kubeadmiral.Planner.Desired.Limits.{Describes, MinFitsMax}
use kubeadmiral.Planner.Desired.Rounds.{Ended, fill-Ended}
use kubeadmiral.Planner.Desired.Complete.{IsOpen, Occurs}
use kubeadmiral.Planner.Scale.{
  plan, available_preferences, scale_up, avoid_disruption_plan, current_plan, add_counts,
  scale_up_preferences,
}
use kubeadmiral.Planner.Scale.Counts.{at}
use kubeadmiral.Planner.Scale.Outcome.{Reaches}
use kubeadmiral.Planner.Scale.Whole.{MinsFitMaxes, plan_preferences, plan-Reaches}
use kubeadmiral.Planner.Promise.{plan-total-le, plan-total, plan_within}

abbrev toy_hash : String → String → ℕ
toy_hash name key = if name == "a" then 1 else 0

abbrev own : ClusterPreferences
own = record { min_replicas = 1; max_replicas = some 5; weight = 1 }

abbrev wildcard : ClusterPreferences
wildcard = record { min_replicas = 0; max_replicas = none; weight = 2 }

abbrev two_clusters : ReplicaSchedulingPreference
two_clusters = record { clusters = ("a", own) ∷ ("*", wildcard) ∷ [] }

abbrev names : List String
names = "a" ∷ "b" ∷ []

abbrev running : Map String ℕ
running = ("a", 4) ∷ ("c", 2) ∷ []

abbrev capacity : Map String ℕ
capacity = ("a", 3) ∷ []

abbrev planned : Map String ℕ
planned = ("b", 7) ∷ ("a", 3) ∷ []

avoiding :
    plan toy_hash two_clusters 10 names running capacity [] "key" true false ≡ some (planned, [])
unfolding plan avoid_disruption_plan current_plan get_named_preferences available_preferences
    get_desired_plan distribute_rounds assign_minimums assign_minimum cut distribute_pass
    distribute_one share is_full scale_up scale_up_preferences add_counts trim_overflow fill
avoiding = refl

following :
    plan toy_hash two_clusters 10 names running capacity [] "key" false true
    ≡ some (planned, ("a", 1) ∷ [])
unfolding plan avoid_disruption_plan current_plan get_named_preferences available_preferences
    get_desired_plan distribute_rounds assign_minimums assign_minimum cut distribute_pass
    distribute_one share is_full scale_up scale_up_preferences add_counts trim_overflow fill
following = refl

abbrev a_preference : NamedClusterPreferences
a_preference = named toy_hash "key" "a" own

abbrev b_preference : NamedClusterPreferences
b_preference = named toy_hash "key" "b" wildcard

abbrev preferences : List NamedClusterPreferences
preferences = b_preference ∷ a_preference ∷ []

abbrev maximum : String → Option ℕ
maximum name = if name == "a" then some 5 else none

b_IsOpen : IsOpen capacity [] b_preference
b_IsOpen = record {
  no_maximum = refl;
  no_limited = refl;
  no_estimated = refl;
  weighs = omega arith;
}

b-Occurs : Occurs b_preference (plan_preferences toy_hash "key" two_clusters names)
unfolding get_named_preferences available_preferences
b-Occurs = inl refl

two_clusters-MinsFitMaxes : MinsFitMaxes two_clusters
two_clusters-MinsFitMaxes = (omega arith, (tt, tt))

preferences-DistinctNames : DistinctNames preferences
preferences-DistinctNames = ((λ e. ground (arith, string_eq.reflects "b" "a"), tt), (tt, tt))

preferences-Describes : All (Describes capacity [] maximum) preferences
preferences-Describes = (refl, (refl, tt))

preferences-MinFitsMax : All (MinFitsMax capacity [] maximum) preferences
preferences-MinFitsMax = (tt, (omega arith, tt))

plan-total-le_example : total planned ≤ 10
plan-total-le_example =
    plan-total-le toy_hash "key" two_clusters names two_clusters-MinsFitMaxes 10 running capacity []
      true false planned [] avoiding

plan-total_example : total planned ≡ 10
plan-total_example =
    plan-total toy_hash "key" two_clusters names two_clusters-MinsFitMaxes 10 running capacity []
      true false planned [] b_preference avoiding b_IsOpen b-Occurs

plan_within_example : Within none (at planned "a") × Within (lookup "a" capacity) (at planned "a")
plan_within_example =
    plan_within toy_hash "key" two_clusters names two_clusters-MinsFitMaxes 10 running capacity []
      true false planned [] avoiding "a"

plan-Reaches_example :
    (r o' : Map String ℕ) × (plan toy_hash two_clusters 10 names running capacity [] "key" true true
      ≡ some (r, o'))
    × Reaches
        (current_plan running capacity [] (plan_preferences toy_hash "key" two_clusters names) [])
        planned
        r
plan-Reaches_example =
    plan-Reaches toy_hash "key" two_clusters names 10 running capacity [] true
      two_clusters-MinsFitMaxes planned (("a", 1) ∷ []) following

fill-Ended_example : Ended capacity [] (fill capacity [] preferences 10)
fill-Ended_example = fill-Ended capacity [] preferences 10
