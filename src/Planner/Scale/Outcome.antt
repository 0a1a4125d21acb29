-- ===== src/Planner/Scale/Outcome.antt =====
-- `scaleUp` and `scaleDown` reach the desired number of replicas and move none: a cluster only goes
-- towards what is desired of it.
use kubeadmiral.Base.{
  ℕ, ◌+◌, ◌-◌, ◌≤◌, ◌≡◌, refl, inl, inr, String, some, [], true, false, arith, string_eq,
  Bool-cases, eqb, eqb→eq, ltb, All, All-map,
}
use kubeadmiral.Base.Assoc.{Map, lookup, total, UniqueKeys}
use kubeadmiral.Planner.Preferences.{
  ClusterPreferences, ReplicaSchedulingPreference, get_named_preferences,
}
use kubeadmiral.Planner.Preferences.Order.{
  get_named_preferences-DistinctNames, get_named_preferences-All, get_named_preferences-sum,
}
use kubeadmiral.Planner.Desired.{weight_of, get_desired_plan}
use kubeadmiral.Planner.Desired.Steps.{Within}
use kubeadmiral.Planner.Desired.Conservation.{fill-held}
use kubeadmiral.Planner.Desired.Keys.{fill-UniqueKeys}
use kubeadmiral.Planner.Desired.Modest.{IsModest, modest_fill}
use kubeadmiral.Planner.Scale.{
  scale_up, scale_down, scale_down_preferences, max_of, avoid_disruption_plan, add_counts,
}
use kubeadmiral.Planner.Scale.Counts.{
  at, at_keys, at_keys-le, at_keys-ge, Covers, entries-at, total-add_counts, at-add_counts,
  sub_counts_lem,
}
use kubeadmiral.Planner.Scale.Excess.{Excess, scale_down-Excess, scale_up-Excess}

-- The result takes each cluster from `from` towards `to`, and not past it.
pub record Towards (from to r : ℕ) : Type 0 where
  pub rises : from ≤ to → (from ≤ r) × (r ≤ to)
  pub falls : to ≤ from → (to ≤ r) × (r ≤ from)

-- A result with the desired total that takes every cluster towards what is desired of it.
pub record Reaches (current desired r : Map String ℕ) : Type 0 where
  pub same_total : total r ≡ total desired
  pub towards : (k : String) → Towards (at current k) (at desired k) (at r k)

below : (a b : ℕ) → ltb a b ≡ true → a ≤ b
below a b h = ground arith

not_below : (a b : ℕ) → ltb a b ≡ false → b ≤ a
not_below a b h = ground arith

module _ (hash : String → String → ℕ) (key : String) where
  -- The plan for preferences with an excess hands out all of it.
  Excess-plan :
      (bound : String → ℕ) (hi lo n : ℕ) (d : Map String ℕ) (prefs : Map String ClusterPreferences)
      → Excess hash key bound hi lo d prefs
      → n + lo ≤ hi
      → let p = (get_desired_plan [] [] (get_named_preferences hash key prefs) n false).0 in
        (total p ≡ n) × ((k : String) → at p k ≤ bound k) × UniqueKeys p
  unfolding get_desired_plan
  Excess-plan bound hi lo n d prefs x le =
      let ps = get_named_preferences hash key prefs in
      let distinct = get_named_preferences-DistinctNames hash key prefs x.unique in
      let (bd, left) =
        modest_fill bound ps n
          (omega (arith, x.enough, get_named_preferences-sum hash key weight_of prefs)) distinct
          (get_named_preferences-All hash key IsModest prefs x.modest)
          (get_named_preferences-All hash key (λ p. p.preferences.weight ≤ bound p.cluster_name)
            prefs x.bounded) in
      (omega (arith, left, fill-held [] [] ps n distinct), bd, fill-UniqueKeys [] [] ps n)

  module _ (current desired : Map String ℕ) (unique : UniqueKeys desired) where
    pub scale_down-Reaches :
        UniqueKeys current
        → Covers desired current
        → total desired ≤ total current
        → (r : Map String ℕ) × (scale_down hash current desired (total current - total desired) key
            ≡ some r)
          × Reaches current desired r
    unfolding scale_down
    scale_down-Reaches uc covers le =
        let bound : String → ℕ = λ k. at current k - at desired k in
        let x =
          scale_down-Excess hash key bound current desired unique
            (All-map (λ e h. omega (arith, h)) desired (entries-at desired unique)) in
        let n = total current - total desired in
        let (t, bd, up) =
          Excess-plan bound (at_keys current desired) (total desired) n desired
            (scale_down_preferences current desired) x
            (omega (arith, at_keys-ge desired current unique uc covers)) in
        let (r, e, tr, f) = sub_counts_lem _ current up (λ k. omega (arith, bd k)) in
        (
          r,
          e,
          record {
            same_total = omega (arith, tr, t);
            towards = λ k. record {
              rises = λ h. (omega (arith, f k, bd k), omega (arith, f k, bd k));
              falls = λ h. (omega (arith, f k, bd k), omega (arith, f k, bd k));
            };
          },
        )

    pub scale_up-Reaches :
        (rsp : ReplicaSchedulingPreference)
        → All (λ e. Within (max_of (lookup e.0 rsp.clusters)) e.1) desired
        → total current ≤ total desired
        → (r : Map String ℕ) × (scale_up hash rsp current desired
              (total desired - total current)
              key
            ≡ some r)
          × Reaches current desired r
    unfolding scale_up
    scale_up-Reaches rsp fits le =
        let bound : String → ℕ = λ k. at desired k - at current k in
        let (prefs, e, x) =
          scale_up-Excess hash key bound current rsp desired unique
            (All-map (λ e h. omega (arith, h)) desired (entries-at desired unique)) fits in
        let n = total desired - total current in
        let (t, bd, up) =
          Excess-plan bound (total desired) (at_keys current desired) n desired prefs x
            (omega (arith, at_keys-le desired current unique)) in
        let p = (get_desired_plan [] [] (get_named_preferences hash key prefs) n false).0 in
        (
          add_counts p current,
          rw e refl,
          record {
            same_total = omega (arith, total-add_counts p current, t);
            towards = λ k. record {
              rises = λ h. (
                omega (arith, at-add_counts p current k up, bd k),
                omega (arith, at-add_counts p current k up, bd k),
              );
              falls = λ h. (
                omega (arith, at-add_counts p current k up, bd k),
                omega (arith, at-add_counts p current k up, bd k),
              );
            };
          },
        )

    -- Whatever the switch chooses, there is a result, and it reaches the desired total.
    pub avoid_disruption_plan-Reaches :
        (rsp : ReplicaSchedulingPreference)
        → UniqueKeys current
        → Covers desired current
        → All (λ e. Within (max_of (lookup e.0 rsp.clusters)) e.1) desired
        → (r : Map String ℕ) × (avoid_disruption_plan hash rsp current desired key ≡ some r)
          × Reaches current desired r
    unfolding avoid_disruption_plan
    avoid_disruption_plan-Reaches rsp uc covers fits =
        elim (Bool-cases (eqb (total current) (total desired))) [
          | inl same ↦ (
            current,
            rw same refl,
            record {
              same_total = eqb→eq (total current) (total desired) same;
              towards =
                  λ k. record { rises = λ h. (omega arith, h); falls = λ h. (h, omega arith) };
            },
          )
          | inr differ ↦ elim (Bool-cases (ltb (total desired) (total current))) [
            | inl less ↦
                let (r, e, reaches) =
                  scale_down-Reaches uc covers (below (total desired) (total current) less) in
                (r, rw (differ, less) e, reaches)
            | inr more ↦
                let (r, e, reaches) =
                  scale_up-Reaches rsp fits (not_below (total desired) (total current) more) in
                (r, rw (differ, more) e, reaches)
          ]
        ]
