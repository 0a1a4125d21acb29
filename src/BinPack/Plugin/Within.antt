-- ===== src/BinPack/Plugin/Within.antt =====
-- What PreferenceBinPack gives without auto-migration, where disruptions need not be avoided.
use kubeadmiral.Base.{
  ◌≡◌, refl, sym, ap, subst, ◌∙◌, String, Option, none, some, Bool, true, false, List, [], ◌∷◌, All,
  arith, inl, inr, Bool-cases, if◌then◌else◌, ◌==◌, string_eq,
}
use kubeadmiral.Base.Int.{ℤ, pos, ◌≤ℤ◌, ltb_ℤ}
use kubeadmiral.Base.Assoc.{Map, lookup, All-insert}
use kubeadmiral.Scheduler.Types.{Taint, Toleration, Cluster, SchedulingUnit, AutoMigrationInfo}
use kubeadmiral.BinPack.{
  ClusterPreferences, ReplicaSchedulingPreference, or_zero_ℤ, or_zero_preferences, get_desired_plan,
  is_estimated_capacity_available, should_plan, named_preferences, plan,
}
use kubeadmiral.BinPack.Limits.{
  NonNegative, OptNonNegative, lookup-NonNegative, Fits, Valid, get_desired_plan-Fits,
}
use kubeadmiral.BinPack.Plugin.{
  info_of, estimated_capacity, scheduled_replicas, limited_capacity, replicas_or, cap_maximum,
  cluster_preference, cluster_preferences, current_replicas, extract_cluster_names, add_overflow,
  bin_pack, replica_scheduling,
}
use kubeadmiral.BinPack.Plugin.Narrows.{
  IsWithin, to_cluster_replicas-IsWithin, get_desired_plan-overflow,
}

-- No count of the scheduling unit is negative.
pub record IsNonNegative (su : SchedulingUnit) : Type 0 where
  pub desired : pos 0 ≤ℤ or_zero_ℤ su.desired_replicas
  pub current : All (λ e. OptNonNegative e.1) su.current_clusters
  pub mins : NonNegative su.min_replicas
  pub maxes : NonNegative su.max_replicas
  pub limits : NonNegative (limited_capacity su.custom_migration)

or_zero_nonneg : (o : Option ℤ) → OptNonNegative o → pos 0 ≤ℤ or_zero_ℤ o
or_zero_nonneg none h = omega arith
or_zero_nonneg (some n) h = h

abbrev NotNegative : ClusterPreferences → Type 0
NotNegative p = (pos 0 ≤ℤ p.min_replicas) × OptNonNegative p.max_replicas

replicas_or-nonneg :
    (n : ℤ) (o : Option ℤ) → pos 0 ≤ℤ n → OptNonNegative o → pos 0 ≤ℤ replicas_or n o
replicas_or-nonneg n none h k = h
replicas_or-nonneg n (some m) h k = k

current_replicas-NonNegative :
    (n : ℤ) (m : Map String (Option ℤ))
    → pos 0 ≤ℤ n
    → All (λ e. OptNonNegative e.1) m
    → NonNegative (current_replicas n m)
unfolding current_replicas
current_replicas-NonNegative n [] h k = tt
current_replicas-NonNegative n ((c, r) ∷ more) h k =
    (replicas_or-nonneg n r h k.0, current_replicas-NonNegative n more h k.1)

cap_maximum-nonneg :
    (max : Option ℤ) (now : ℤ)
    → OptNonNegative max
    → pos 0 ≤ℤ now
    → OptNonNegative (cap_maximum max now)
cap_maximum-nonneg none now h k = k
cap_maximum-nonneg (some m) now h k = elim (Bool-cases (ltb_ℤ now m)) [
  | inl e ↦ rw e k
  | inr e ↦ rw e h
]

if_nonneg :
    (b : Bool) (x y : Option ℤ)
    → OptNonNegative x
    → OptNonNegative y
    → OptNonNegative (if b then x else y)
if_nonneg true x y h k = h
if_nonneg false x y h k = k

module _ (tolerates_taint : Toleration → Taint → Bool) (su : SchedulingUnit)
    (h : IsNonNegative su) where
  cluster_preference-NotNegative :
      (current : Map String ℤ) (c : Cluster)
      → NonNegative current
      → NotNegative (cluster_preference tolerates_taint su current c)
  unfolding cluster_preference
  cluster_preference-NotNegative current c k = (
    or_zero_nonneg _ (lookup-NonNegative c.name su.min_replicas h.mins),
    if_nonneg _ _ _
        (cap_maximum-nonneg _ _ (lookup-NonNegative c.name su.max_replicas h.maxes)
          (or_zero_nonneg _ (lookup-NonNegative c.name current k)))
        (lookup-NonNegative c.name su.max_replicas h.maxes),
  )

  cluster_preferences-NotNegative :
      (current : Map String ℤ) (cs : List Cluster) (acc : Map String ClusterPreferences)
      → NonNegative current
      → All (λ e. NotNegative e.1) acc
      → All (λ e. NotNegative e.1) (cluster_preferences tolerates_taint su current cs acc)
  unfolding cluster_preferences
  cluster_preferences-NotNegative current [] acc k a = a
  cluster_preferences-NotNegative current (c ∷ cs) acc k a =
      cluster_preferences-NotNegative current cs _ k (
        All-insert (λ e. NotNegative e.1) c.name _ acc (cluster_preference-NotNegative current c k)
          a)

or_zero_preferences-NotNegative :
    (name : String) (m : Map String ClusterPreferences)
    → All (λ e. NotNegative e.1) m
    → NotNegative (or_zero_preferences (lookup name m))
or_zero_preferences-NotNegative name [] h = (omega arith, tt)
or_zero_preferences-NotNegative name ((j, p) ∷ m) h = elim (Bool-cases (j == name)) [
  | inl e ↦ rw e h.0
  | inr e ↦ rw e (or_zero_preferences-NotNegative name m h.1)
]

named_preferences-Valid :
    (limited : Map String ℤ) (lim : NonNegative limited) (m : Map String ClusterPreferences)
    (names : List String)
    → All (λ e. NotNegative e.1) m
    → All (Valid [] limited tt lim) (named_preferences (record { clusters = m }) names)
unfolding named_preferences
named_preferences-Valid limited lim m [] h = tt
named_preferences-Valid limited lim m (c ∷ cs) h =
    (or_zero_preferences-NotNegative c m h, named_preferences-Valid limited lim m cs h)

-- With nothing known of the capacities, the planner plans.
should_plan-unknown :
    (available : List String) (current limited : Map String ℤ)
    → should_plan available current limited [] [] ≡ true
unfolding should_plan is_estimated_capacity_available
should_plan-unknown available current limited = ground arith

plan-desired :
    (rsp : ReplicaSchedulingPreference) (n : ℤ) (available : List String)
    (current limited : Map String ℤ) (avoid keep : Bool) (info : Option AutoMigrationInfo)
    → avoid ≡ false
    → info ≡ none
    → plan rsp n available current
        (estimated_capacity info)
        limited
        avoid
        keep
        (scheduled_replicas info)
      ≡ get_desired_plan [] limited (named_preferences rsp available) n
unfolding plan
plan-desired rsp n available current limited avoid keep info h k =
    rw (h, k, plan, should_plan-unknown available current limited) refl

add_overflow-nil : (result : Map String ℤ) → add_overflow [] result ≡ result
unfolding add_overflow
add_overflow-nil result = refl

-- Where no count of the unit is negative, disruptions are allowed and there is no auto-migration,
-- each cluster's count is positive and within its limited capacity, where it has one.
pub replica_scheduling-IsWithin :
    (tolerates_taint : Toleration → Taint → Bool) (su : SchedulingUnit) (clusters : List Cluster)
    → IsNonNegative su
    → su.avoid_disruption ≡ false
    → info_of su.auto_migration ≡ none
    → All
        (IsWithin (limited_capacity su.custom_migration))
        (replica_scheduling tolerates_taint su clusters).0
unfolding replica_scheduling bin_pack
replica_scheduling-IsWithin tolerates_taint su clusters h avoid info =
    let limited = limited_capacity su.custom_migration in
    let n = or_zero_ℤ su.desired_replicas in
    let current = current_replicas n su.current_clusters in
    let prefs = cluster_preferences tolerates_taint su current clusters [] in
    let named = named_preferences (record { clusters = prefs }) (extract_cluster_names clusters) in
    let planned : bin_pack tolerates_taint su clusters ≡ get_desired_plan [] limited named n =
      plan-desired (record { clusters = prefs }) n (extract_cluster_names clusters) current limited
        _ _ _ avoid info in
    to_cluster_replicas-IsWithin limited _ clusters (
      subst (All (Fits [] limited))
        (sym (
          ap (λ (p : Map String ℤ × Map String ℤ). add_overflow p.1 p.0) planned
          ∙ ap (λ o. add_overflow o (get_desired_plan [] limited named n).0)
              (get_desired_plan-overflow limited named n)
          ∙ add_overflow-nil (get_desired_plan [] limited named n).0))
        (get_desired_plan-Fits [] limited tt h.limits named n
          (named_preferences-Valid limited h.limits prefs (extract_cluster_names clusters) (
            cluster_preferences-NotNegative tolerates_taint su h current clusters []
              (current_replicas-NonNegative n su.current_clusters h.desired h.current) tt))
          h.desired).1)
