-- ===== src/Planner/Desired.antt =====
-- `getDesiredPlan` of pkg/controllers/scheduler/planner/planner.go. Its two maps and the variable
-- `remainingReplicas` are a record that each step of a loop returns anew.
pub mod Steps
pub mod Conservation
pub mod Limits
pub mod Rounds
pub mod Complete
pub mod Modest
pub mod Keys
use kubeadmiral.Base.{
  ℕ, zero, suc, ◌+◌, ◌-◌, ◌*◌, ◌/◌, String, Option, none, some, Bool, true, false, ◌&&◌, ◌||◌, List,
  [], ◌∷◌, ◌++◌, ltb, length, sum_of, if◌then◌else◌, string_eq,
}
use kubeadmiral.Base.Assoc.{Map, lookup, insert, or_zero}
use kubeadmiral.Planner.Preferences.{NamedClusterPreferences}

-- `minInt64`
abbrev pub min_int64 : ℕ → ℕ → ℕ
min_int64 a b = if ltb a b then a else b

-- `if limit exists && x > limit { x = limit }`, for a limit that may be absent.
abbrev pub cap_at : Option ℕ → ℕ → ℕ
cap_at none x = x
cap_at (some c) x = if ltb c x then c else x

-- The condition of that `if`.
abbrev pub exceeds : Option ℕ → ℕ → Bool
exceeds none x = false
exceeds (some c) x = ltb c x

-- The three `if`s that cut a total to the preference's maximum and to the two capacities: what
-- is left of the total, and whether one of them fired.
unfoldable pub cut : (max limited estimated : Option ℕ) → ℕ → ℕ
cut max limited estimated total = cap_at estimated (cap_at limited (cap_at max total))

unfoldable pub is_full : (max limited estimated : Option ℕ) → ℕ → Bool
is_full max limited estimated total =
    exceeds max total
    || exceeds limited (cap_at max total)
    || exceeds estimated (cap_at limited (cap_at max total))

-- `(distributeInThisLoop * weight + weightSum - 1) / weightSum`, at most what remains.
unfoldable pub share : (distribute weight sum remaining : ℕ) → ℕ
share distribute weight sum remaining = min_int64 ((distribute * weight + sum - 1) / sum) remaining

pub record Progress : Type 0 where
  pub remaining : ℕ
  pub plan : Map String ℕ
  pub overflow : Map String ℕ

-- What one pass of the outer loop keeps besides.
pub record Pass : Type 0 where
  pub progress : Progress
  pub modified : Bool
  pub new_preferences : List NamedClusterPreferences

abbrev pub weight_of : NamedClusterPreferences → ℕ
weight_of p = p.preferences.weight

abbrev pub weight_sum : List NamedClusterPreferences → ℕ
weight_sum preferences = sum_of weight_of preferences

-- What the outer loop tests: its condition, and the `break` when no weight is left.
abbrev pub goes_on : Bool → List NamedClusterPreferences → Progress → Bool
goes_on modified preferences s = modified && ltb 0 s.remaining && ltb 0 (weight_sum preferences)

-- The overflow cut to what could not be placed, as the last loop does.
unfoldable pub trim_overflow : ℕ → Map String ℕ → Map String ℕ
trim_overflow remaining [] = []
trim_overflow remaining ((key, value) ∷ rest) =
    let value' = min_int64 value remaining in
    let rest' = trim_overflow remaining rest in
    if ltb 0 value' then (key, value') ∷ rest' else rest'

module _ (estimated limited : Map String ℕ) where
  -- The body of the first loop: the minimum that the cluster asked for.
  unfoldable pub assign_minimum : NamedClusterPreferences → Progress → Progress
  assign_minimum p s =
      let name = p.cluster_name in
      let wanted = min_int64 p.preferences.min_replicas s.remaining in
      let allowed = cap_at (lookup name limited) wanted in
      let placed = cut none (lookup name limited) (lookup name estimated) wanted in
      record {
        remaining = s.remaining - placed;
        plan = insert name placed s.plan;
        overflow =
            if exceeds (lookup name estimated) allowed
            then insert name (allowed - placed) s.overflow
            else s.overflow;
      }

  unfoldable pub assign_minimums : List NamedClusterPreferences → Progress → Progress
  assign_minimums [] s = s
  assign_minimums (p ∷ ps) s = assign_minimums ps (assign_minimum p s)

  -- The body of the inner loop, `distribute` and `sum` being `distributeInThisLoop` and
  -- `weightSum`. `remaining + start - total` is exact: `total` is at most `start + extra`.
  unfoldable pub distribute_one : (distribute sum : ℕ) → NamedClusterPreferences → Pass → Pass
  distribute_one distribute sum p t =
      let s = t.progress in
      let name = p.cluster_name in
      let max = p.preferences.max_replicas in
      let start = or_zero (lookup name s.plan) in
      let most = start + share distribute p.preferences.weight sum s.remaining in
      let within = cap_at (lookup name limited) (cap_at max most) in
      let placed = cut max (lookup name limited) (lookup name estimated) most in
      let full = is_full max (lookup name limited) (lookup name estimated) most in
      record {
        progress = record {
          remaining = s.remaining + start - placed;
          plan = insert name placed s.plan;
          overflow =
              if exceeds (lookup name estimated) within
              then insert name (or_zero (lookup name s.overflow) + (within - placed)) s.overflow
              else s.overflow;
        };
        modified = t.modified || ltb start placed;
        new_preferences = if full then t.new_preferences else t.new_preferences ++ p ∷ [];
      }

  unfoldable pub distribute_pass : (distribute sum : ℕ) → List NamedClusterPreferences → Pass → Pass
  distribute_pass distribute sum [] t = t
  distribute_pass distribute sum (p ∷ ps) t =
      distribute_pass distribute sum ps (distribute_one distribute sum p t)

  -- One pass of the outer loop, from `modified = false` on.
  abbrev pub one_round : List NamedClusterPreferences → Progress → Pass
  one_round preferences s =
      distribute_pass s.remaining (weight_sum preferences) preferences
        (record { progress = s; modified = false; new_preferences = [] })

  -- The outer loop. `fuel` bounds the number of passes.
  unfoldable pub distribute_rounds : ℕ → Pass → Pass
  distribute_rounds zero t = t
  distribute_rounds (suc fuel) t =
      let next = distribute_rounds fuel (one_round t.new_preferences t.progress) in
      if goes_on t.modified t.new_preferences t.progress then next else t

  -- Both loops. Every pass distributes all that remains or drops a preference, so one pass more
  -- than there are preferences is enough.
  unfoldable pub fill : List NamedClusterPreferences → ℕ → Pass
  fill preferences total_replicas = distribute_rounds (suc (length preferences)) (record {
    progress =
        assign_minimums preferences
          (record { remaining = total_replicas; plan = []; overflow = [] });
    modified = true;
    new_preferences = preferences;
  })

  unfoldable pub get_desired_plan :
      List NamedClusterPreferences → ℕ → Bool → Map String ℕ × Map String ℕ
  unfolding fill
  get_desired_plan preferences total_replicas keep_unschedulable =
      let s = (fill preferences total_replicas).progress in
      (s.plan, if keep_unschedulable then s.overflow else trim_overflow s.remaining s.overflow)
