-- ===== src/BinPack/Surplus.antt =====
-- Where avoiding disruptions gives a cluster more than its limit.
use kubeadmiral.Base.{
  ◌≡◌, refl, ℕ, ◌+◌, ◌-◌, ◌≤◌, ◌<◌, String, Option, none, some, true, false, List, [], ◌∷◌, ◌==◌,
  string_eq, arith, if◌then◌else◌, ltb,
}
use kubeadmiral.Base.Int.{ℤ, pos, negsuc, ◌+ℤ◌, ◌-ℤ◌, ltb_ℤ, eqb_ℤ}
use kubeadmiral.BinPack.{
  ReplicaSchedulingPreference, NamedClusterPreferences, assign_min, assign_rest, assign_mins,
  assign_rests, assign, get_desired_plan, sum_ℤ, add_all, sub_all, to_raise, to_lower, scale_up,
  scale_down, is_scheduled_clusters_removed, is_estimated_capacity_available, should_plan,
  named_preferences, Running, running, adjust, plan,
}

-- One cluster that may have a maximum.
abbrev pub one_cluster : String → Option ℤ → ReplicaSchedulingPreference
one_cluster c max = record {
  clusters = (c, record { min_replicas = pos 0; max_replicas = max }) ∷ [];
}

module _ (c : String) (n : ℕ) (now : ℕ) where
  less : (a b : ℕ) → a < b → ltb_ℤ (pos a) (pos b) ≡ true
  less a b h = ground arith

  not_less : (a b : ℕ) → a ≤ b → ltb_ℤ (pos b) (pos a) ≡ false
  not_less a b h = ground arith

  smaller : (a b : ℕ) → a < b → (if ltb a b then a else b) ≡ a
  smaller a b h = ground arith

  same : c == c ≡ true
  same = (string_eq.reflects c c).1 refl

  abbrev alone : Option ℤ → List NamedClusterPreferences
  alone max =
      record { cluster_name = c; preferences = record { min_replicas = pos 0; max_replicas = max } }
      ∷ []

  desired-limited :
      (limit m : ℕ)
      → get_desired_plan [] ((c, pos limit) ∷ []) (alone none) (pos m)
        ≡ ((c, pos (if ltb limit m then limit else m)) ∷ [], [])
  unfolding get_desired_plan assign assign_mins assign_min assign_rests assign_rest ◌+ℤ◌ ◌-ℤ◌
  desired-limited limit m = rw same (ground arith)

  desired-maximum :
      (max m : ℕ)
      → get_desired_plan [] [] (alone (some (pos max))) (pos m)
        ≡ ((c, pos (if ltb max m then max else m)) ∷ [], [])
  unfolding get_desired_plan assign assign_mins assign_min assign_rests assign_rest ◌+ℤ◌ ◌-ℤ◌
  desired-maximum max m = rw same (ground arith)

  -- A negative count is given away as it is.
  desired-negative :
      (max d : ℕ)
      → get_desired_plan [] [] (alone (some (pos max))) (negsuc d) ≡ ((c, negsuc d) ∷ [], [])
  unfolding get_desired_plan assign assign_mins assign_min assign_rests assign_rest ◌+ℤ◌ ◌-ℤ◌
  desired-negative max d = rw same (ground arith)

  abbrev now_running : Running
  now_running = record { plan = (c, pos now) ∷ []; ok = pos now; scheduled = pos 0 }

  abbrev nothing_yet : Running
  nothing_yet = record { plan = []; ok = pos 0; scheduled = pos 0 }

  running-limited :
      (limit : ℕ)
      → now < limit
      → running ((c, pos now) ∷ []) [] ((c, pos limit) ∷ []) [] (alone none) nothing_yet
        ≡ now_running
  unfolding running ◌+ℤ◌
  running-limited limit h = rw same (ground arith)

  running-free :
      (max : Option ℤ) → running ((c, pos now) ∷ []) [] [] [] (alone max) nothing_yet ≡ now_running
  unfolding running ◌+ℤ◌
  running-free max = rw same (ground arith)

  sum-one : (m : ℕ) → sum_ℤ ((c, pos m) ∷ []) ≡ pos m
  unfolding sum_ℤ ◌+ℤ◌
  sum-one m = ground arith

  to_raise-one :
      (limit : ℕ)
      → now < limit
      → to_raise (one_cluster c none) ((c, pos now) ∷ []) ((c, pos limit) ∷ []) (c ∷ [])
        ≡ alone none
  unfolding to_raise
  to_raise-one limit h = rw same (ground arith)

  to_lower-one :
      (max : ℕ)
      → max < now
      → to_lower ((c, pos now) ∷ []) ((c, pos max) ∷ []) (c ∷ []) [] ≡ alone (some (pos now))
  unfolding to_lower
  to_lower-one max h = rw same (ground arith)

  add_all-one : (m : ℕ) → add_all ((c, pos m) ∷ []) ((c, pos now) ∷ []) ≡ (c, pos (now + m)) ∷ []
  unfolding add_all ◌+ℤ◌
  add_all-one m = rw same (ground arith)

  sub_all-one :
      now < n → sub_all ((c, negsuc (n - now - 1)) ∷ []) ((c, pos now) ∷ []) ≡ (c, pos n) ∷ []
  unfolding sub_all ◌-ℤ◌
  sub_all-one h = rw same (ground arith)

  minus : now < n → pos n -ℤ pos now ≡ pos (n - now)
  unfolding ◌-ℤ◌
  minus h = ground arith

  minus_negative : now < n → pos now -ℤ pos n ≡ negsuc (n - now - 1)
  unfolding ◌-ℤ◌
  minus_negative h = ground arith

  scale_up-one :
      (limit : ℕ)
      → now < limit
      → now < n
      → scale_up
          (one_cluster c none)
          ((c, pos now) ∷ [])
          ((c, pos limit) ∷ [])
          ((c, pos limit) ∷ [])
          (pos n -ℤ pos now)
          (c ∷ [])
        ≡ (c, pos (now + (if ltb limit (n - now) then limit else n - now))) ∷ []
  unfolding scale_up
  scale_up-one limit h k =
      rw (scale_up, to_raise-one limit h, minus k, desired-limited limit (n - now)) (add_all-one _)

  scale_down-one :
      (max : ℕ)
      → max < now
      → now < n
      → scale_down ((c, pos now) ∷ []) ((c, pos max) ∷ []) (pos now -ℤ pos n) (c ∷ [])
        ≡ (c, pos n) ∷ []
  unfolding scale_down
  scale_down-one max h k =
      rw (scale_down, to_lower-one max h, minus_negative k, desired-negative now (n - now - 1))
        (sub_all-one k)

  differs : (a b : ℕ) → a < b → (eqb_ℤ (pos a) (pos b) ≡ false) × (eqb_ℤ (pos b) (pos a) ≡ false)
  differs a b h = (ground arith, ground arith)

  adjust-up :
      (limit : ℕ)
      → now < limit
      → limit < n
      → adjust
          (one_cluster c none)
          now_running
          ((c, pos limit) ∷ [])
          ((c, pos limit) ∷ [])
          (pos n)
          (c ∷ [])
        ≡ (c, pos (now + (if ltb limit (n - now) then limit else n - now))) ∷ []
  unfolding adjust
  adjust-up limit h k =
      rw (adjust, sum-one limit, (differs now limit h).0, not_less now limit (omega arith))
        (scale_up-one limit h (omega arith))

  adjust-down :
      (max : ℕ)
      → max < now
      → now < n
      → adjust (one_cluster c (some (pos max))) now_running ((c, pos max) ∷ []) [] (pos n) (c ∷ [])
        ≡ (c, pos n) ∷ []
  unfolding adjust
  adjust-down max h k =
      rw (adjust, sum-one max, (differs max now h).1, less max now h) (scale_down-one max h k)

  planned-limited :
      (limit : ℕ)
      → now < limit
      → should_plan (c ∷ []) ((c, pos now) ∷ []) ((c, pos limit) ∷ []) [] [] ≡ true
  unfolding should_plan is_scheduled_clusters_removed is_estimated_capacity_available
  planned-limited limit h = rw same (ground arith)

  planned-free : should_plan (c ∷ []) ((c, pos now) ∷ []) [] [] [] ≡ true
  unfolding should_plan is_scheduled_clusters_removed is_estimated_capacity_available
  planned-free = rw same refl

  named-one : (max : Option ℤ) → named_preferences (one_cluster c max) (c ∷ []) ≡ alone max
  unfolding named_preferences
  named-one max = rw same refl

  plan-raised :
      (limit : ℕ)
      → now < limit
      → limit < n
      → (plan
          (one_cluster c none)
          (pos n)
          (c ∷ [])
          ((c, pos now) ∷ [])
          []
          ((c, pos limit) ∷ [])
          true
          true
          []).0
        ≡ (c, pos (now + (if ltb limit (n - now) then limit else n - now))) ∷ []
  unfolding plan
  plan-raised limit h k =
      rw
        (
          plan,
          planned-limited limit h,
          named-one none,
          running-limited limit h,
          desired-limited limit n,
          smaller limit n k,
        )
        (adjust-up limit h k)

  -- With one cluster, whose preference has the minimum 0 and no maximum, which runs some
  -- replicas, but fewer than its limited capacity, which is below the replicas asked for, and
  -- with no estimated capacity and no scheduled replicas known, `plan` gives it more than that
  -- limited capacity when disruptions are avoided and unschedulable replicas are kept.
  pub plan-exceeds_limited :
      (limit : ℕ)
      → 0 < now
      → now < limit
      → limit < n
      → (v : ℕ) × ((plan
            (one_cluster c none)
            (pos n)
            (c ∷ [])
            ((c, pos now) ∷ [])
            []
            ((c, pos limit) ∷ [])
            true
            true
            []).0
          ≡ (c, pos v) ∷ [])
        × (limit < v)
  plan-exceeds_limited limit some_run h k =
      (now + (if ltb limit (n - now) then limit else n - now), plan-raised limit h k, ground arith)

  -- With one cluster, whose preference has the minimum 0, which runs more replicas than its
  -- maximum, but fewer than those asked for, and with neither limited nor estimated capacity
  -- and no scheduled replicas known, `plan` gives it all replicas asked for when disruptions
  -- are avoided and unschedulable replicas are kept.
  pub plan-exceeds_maximum :
      (max : ℕ)
      → max < now
      → now < n
      → (plan
          (one_cluster c (some (pos max)))
          (pos n)
          (c ∷ [])
          ((c, pos now) ∷ [])
          []
          []
          true
          true
          []).0
        ≡ (c, pos n) ∷ []
  unfolding plan
  plan-exceeds_maximum max h k =
      rw
        (
          plan,
          planned-free,
          named-one (some (pos max)),
          running-free (some (pos max)),
          desired-maximum max n,
          smaller max n (omega arith),
        )
        (adjust-down max h k)
