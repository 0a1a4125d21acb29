-- ===== src/Planner/Promise.antt =====
-- What `Plan` promises its caller, the replica plugin ClusterCapacityWeight, in both of its modes.
use native.Mathlib.Decide.{dec_le}
use kubeadmiral.Base.{
  ℕ, ◌≤◌, ◌≡◌, refl, sym, ap, subst, ◌∙◌, ◌⊎◌, inl, inr, String, Option, none, some, List, [], ◌∷◌,
  ◌==◌, true, false, arith, string_eq, if◌then◌else◌, Bool,
}
use kubeadmiral.Base.Assoc.{Map, lookup, insert, or_zero, total, lookup-insert}
use kubeadmiral.Base.Chain.{>>=-eq-some, some_eq}
use kubeadmiral.Planner.Preferences.{ReplicaSchedulingPreference, NamedClusterPreferences}
use kubeadmiral.Planner.Desired.{get_desired_plan, cap_at, cut}
use kubeadmiral.Planner.Desired.Steps.{Within, cut-Within}
use kubeadmiral.Planner.Desired.Limits.{fill-Fits, Within-le, Within-zero}
use kubeadmiral.Planner.Desired.Conservation.{fill-held}
use kubeadmiral.Planner.Desired.Complete.{IsOpen, Occurs, fill-remaining}
use kubeadmiral.Planner.Scale.{current_plan, avoid_disruption_plan, plan}
use kubeadmiral.Planner.Scale.Counts.{at}
use kubeadmiral.Planner.Scale.Outcome.{Towards}
use kubeadmiral.Planner.Scale.Whole.{
  MinsFitMaxes, plan_preferences, plan_maximum, plan_preferences-DistinctNames, plan-Describes,
  plan-MinFitsMax, filled, filled-Reaches, desired_filled,
}

within_if :
    (lim est : Option ℕ) (b : Bool) (o : Option ℕ) (v : ℕ)
    → (b ≡ true → Within lim v × Within est v)
    → Within lim (or_zero o) × Within est (or_zero o)
    → Within lim (or_zero (if b then some v else o))
      × Within est (or_zero (if b then some v else o))
within_if lim est true o v h k = h refl
within_if lim est false o v h k = k

capped_within :
    (current estimated limited : Map String ℕ) (k name : String) (acc : Map String ℕ)
    → Within (lookup k limited) (at acc k) × Within (lookup k estimated) (at acc k)
    → let v =
        cap_at
          (lookup name estimated)
          (cap_at (lookup name limited) (or_zero (lookup name current))) in
      Within (lookup k limited) (at (insert name v acc) k)
      × Within (lookup k estimated) (at (insert name v acc) k)
unfolding cut
capped_within current estimated limited k name acc h =
    let v =
      cap_at (lookup name estimated)
        (cap_at (lookup name limited) (or_zero (lookup name current))) in
    let w =
      cut-Within none (lookup name limited) (lookup name estimated)
        (or_zero (lookup name current)) in
    rw (lookup-insert name k v acc) (
      within_if (lookup k limited) (lookup k estimated) (name == k) (lookup k acc) v
        (λ e.
          subst (λ (x : String). Within (lookup x limited) v × Within (lookup x estimated) v)
            ((string_eq.reflects name k).0 e) (w.1, w.2))
        h)

-- The replicas that count as running lie within both capacities.
current_plan_within :
    (current estimated limited : Map String ℕ) (k : String) (ps : List NamedClusterPreferences)
    (acc : Map String ℕ)
    → Within (lookup k limited) (at acc k) × Within (lookup k estimated) (at acc k)
    → Within (lookup k limited) (at (current_plan current estimated limited ps acc) k)
      × Within (lookup k estimated) (at (current_plan current estimated limited ps acc) k)
unfolding current_plan
current_plan_within current estimated limited k [] acc h = h
current_plan_within current estimated limited k (p ∷ ps) acc h =
    current_plan_within current estimated limited k ps _
      (capped_within current estimated limited k p.cluster_name acc h)

Towards-le : (from to r : ℕ) → Towards from to r → (r ≤ to) ⊎ (r ≤ from)
Towards-le from to r t = elim (dec_le from to) [
  | yes h ↦ inl (t.rises h).1
  | no h ↦ inr (t.falls (omega arith)).1
]

module _ (hash : String → String → ℕ) (key : String) (rsp : ReplicaSchedulingPreference)
    (available : List String) (valid : MinsFitMaxes rsp) (n : ℕ)
    (current estimated limited : Map String ℕ) where
  abbrev desired : Map String ℕ
  desired = filled hash key rsp available valid estimated limited n

  abbrev running : Map String ℕ
  running = current_plan current estimated limited (plan_preferences hash key rsp available) []

  -- A result has the total of the desired plan, and no cluster more than is desired or runs.
  plan_result :
      (avoid keep : Bool) (r o : Map String ℕ)
      → plan hash rsp n available current estimated limited key avoid keep ≡ some (r, o)
      → (total r ≡ total desired)
        × ((k : String) → (at r k ≤ at desired k) ⊎ (at r k ≤ at running k))
  unfolding plan
  plan_result false keep r o h =
      let same : desired ≡ r =
        sym (desired_filled estimated limited (plan_preferences hash key rsp available) n true)
        ∙ ap (λ (t : Map String ℕ × Map String ℕ). t.0) (some_eq h) in
      subst
        (λ (x : Map String ℕ).
          (total x ≡ total desired)
          × ((k : String) → (at x k ≤ at desired k) ⊎ (at x k ≤ at running k)))
        same (refl, λ k. inl (omega arith))
  plan_result true keep r o h =
      let (a, e, f) =
        >>=-eq-some
          (avoid_disruption_plan hash rsp running
            (get_desired_plan estimated limited (plan_preferences hash key rsp available) n keep).0
            key)
          _ h in
      let (r', e', reaches) =
        filled-Reaches hash key rsp available valid estimated limited n current in
      let same : r' ≡ r =
        some_eq (sym e' ∙ (rw (desired_filled estimated limited _ n keep) at e))
        ∙ ap (λ (t : Map String ℕ × Map String ℕ). t.0) (some_eq f) in
      subst
        (λ (x : Map String ℕ).
          (total x ≡ total desired)
          × ((k : String) → (at x k ≤ at desired k) ⊎ (at x k ≤ at running k)))
        same
        (
          reaches.same_total,
          λ k. Towards-le (at running k) (at desired k) (at r' k) (reaches.towards k),
        )

  -- Where no minimum passes its maximum, the replicas of a result of `Plan` add up to at most
  -- the replicas that were asked for, with disruptions avoided or not.
  pub plan-total-le :
      (avoid keep : Bool) (r o : Map String ℕ)
      → plan hash rsp n available current estimated limited key avoid keep ≡ some (r, o)
      → total r ≤ n
  plan-total-le avoid keep r o h = omega (
    arith,
    (plan_result avoid keep r o h).0,
    fill-held estimated limited (plan_preferences hash key rsp available) n
        (plan_preferences-DistinctNames hash key rsp available),
  )

  -- Where no minimum passes its maximum, the replicas of a result of `Plan` add up to the
  -- replicas that were asked for if one of its preferences is open: it has a weight and no
  -- maximum, and its cluster no capacity. Disruptions may be avoided or not.
  pub plan-total :
      (avoid keep : Bool) (r o : Map String ℕ) (u : NamedClusterPreferences)
      → plan hash rsp n available current estimated limited key avoid keep ≡ some (r, o)
      → IsOpen estimated limited u
      → Occurs u (plan_preferences hash key rsp available)
      → total r ≡ n
  plan-total avoid keep r o u h free occurs =
      let ps = plan_preferences hash key rsp available in
      omega (
        arith,
        (plan_result avoid keep r o h).0,
        fill-held estimated limited ps n (plan_preferences-DistinctNames hash key rsp available),
        fill-remaining estimated limited (plan_maximum hash key rsp available) u free ps n
            (plan-Describes hash key rsp available valid estimated limited)
            (plan-MinFitsMax hash key rsp available valid estimated limited) occurs,
      )

  -- Where no minimum passes its maximum, what a result of `Plan` gives to a cluster lies within
  -- its limited and within its estimated capacity, where it has one, with disruptions avoided
  -- or not.
  pub plan_within :
      (avoid keep : Bool) (r o : Map String ℕ)
      → plan hash rsp n available current estimated limited key avoid keep ≡ some (r, o)
      → (k : String) → Within (lookup k limited) (at r k) × Within (lookup k estimated) (at r k)
  plan_within avoid keep r o h k =
      let ps = plan_preferences hash key rsp available in
      let fits =
        fill-Fits estimated limited (plan_maximum hash key rsp available) ps n
          (plan-Describes hash key rsp available valid estimated limited)
          (plan-MinFitsMax hash key rsp available valid estimated limited) k in
      let now =
        current_plan_within current estimated limited k ps []
          (Within-zero (lookup k limited), Within-zero (lookup k estimated)) in
      elim ((plan_result avoid keep r o h).1 k) [
        | inl le ↦ (
          Within-le (lookup k limited) le fits.within_limited,
          Within-le (lookup k estimated) le fits.within_estimated,
        )
        | inr le ↦ (Within-le (lookup k limited) le now.0, Within-le (lookup k estimated) le now.1)
      ]
