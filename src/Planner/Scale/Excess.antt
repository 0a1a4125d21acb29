-- ===== src/Planner/Scale/Excess.antt =====
-- The preferences that `scaleUp` and `scaleDown` build: modest ones, whose weights make up for the
-- difference of the two plans.
use kubeadmiral.Base.{
  ℕ, ◌+◌, ◌-◌, ◌≤◌, ◌<◌, ◌≡◌, refl, inl, inr, String, Option, none, some, [], ◌∷◌, false, arith,
  string_eq, Bool-cases, ltb, All, ltb→lt,
}
use kubeadmiral.Base.Assoc.{Map, lookup, total, UniqueKeys}
use kubeadmiral.Planner.Preferences.{
  ClusterPreferences, ReplicaSchedulingPreference, named, named_all,
}
use kubeadmiral.Planner.Desired.{weight_sum}
use kubeadmiral.Planner.Desired.Steps.{Within}
use kubeadmiral.Planner.Desired.Modest.{IsModest}
use kubeadmiral.Planner.Scale.{scale_up_preferences, scale_down_preferences, max_of, max_left}
use kubeadmiral.Planner.Scale.Counts.{at, at_keys, le→leb}

not_less : (a b : ℕ) → ltb a b ≡ false → b ≤ a
not_less a b h = ground arith

-- `note that max is always positive because MaxReplicas >= desired > current`
max_left_lem :
    (max : Option ℕ) (current desired : ℕ)
    → current < desired
    → Within max desired
    → (left : Option ℕ) × (max_left max current ≡ some left) × Within left (desired - current)
max_left_lem none current desired lt w = (none, refl, tt)
max_left_lem (some m) current desired lt w =
    (some (m - current), rw (le→leb current m (omega arith)), omega arith)

module _ (hash : String → String → ℕ) (key : String) (bound : String → ℕ) where
  -- `hi` passes `lo` by no more than the weights of the preferences built from the entries of `d`.
  pub record Excess (hi lo : ℕ) (d : Map String ℕ) (prefs : Map String ClusterPreferences)
      : Type 0 where
    pub keys : (k : String) → lookup k d ≡ none → lookup k prefs ≡ none
    pub unique : UniqueKeys prefs
    pub modest : All IsModest (named_all hash key prefs)
    pub bounded : All (λ p. p.preferences.weight ≤ bound p.cluster_name) (named_all hash key prefs)
    pub enough : hi ≤ lo + weight_sum (named_all hash key prefs)

  Excess-nil : Excess 0 0 [] []
  Excess-nil = record {
    keys = λ k h. refl;
    unique = tt;
    modest = tt;
    bounded = tt;
    enough = omega arith;
  }

  -- An entry that calls for no preference.
  Excess-skip :
      (hi lo a b : ℕ) (k : String) (v : ℕ) (d : Map String ℕ)
      (prefs : Map String ClusterPreferences)
      → a ≤ b
      → Excess hi lo d prefs
      → Excess (a + hi) (b + lo) ((k, v) ∷ d) prefs
  Excess-skip hi lo a b k v d prefs le x = record {
    keys = λ j h. x.keys j (ground arith);
    unique = x.unique;
    modest = x.modest;
    bounded = x.bounded;
    enough = omega (arith, x.enough);
  }

  Excess-cons :
      (hi lo a b : ℕ) (k : String) (v : ℕ) (d : Map String ℕ) (pref : ClusterPreferences)
      (prefs : Map String ClusterPreferences)
      → lookup k d ≡ none
      → IsModest (named hash key k pref)
      → pref.weight ≤ bound k
      → a ≤ b + pref.weight
      → Excess hi lo d prefs
      → Excess (a + hi) (b + lo) ((k, v) ∷ d) ((k, pref) ∷ prefs)
  Excess-cons hi lo a b k v d pref prefs new m bd le x = record {
    keys = λ j h. ground (arith, x.keys j);
    unique = (x.keys k new, x.unique);
    modest = (m, x.modest);
    bounded = (bd, x.bounded);
    enough = omega (arith, x.enough);
  }

  module _ (current : Map String ℕ) where
    -- What `scaleDown` takes from: the clusters with more than is desired.
    pub scale_down-Excess :
        (d : Map String ℕ)
        → UniqueKeys d
        → All (λ e. at current e.0 - e.1 ≤ bound e.0) d
        → Excess (at_keys current d) (total d) d (scale_down_preferences current d)
    unfolding scale_down_preferences
    scale_down-Excess [] u b = Excess-nil
    scale_down-Excess ((k, v) ∷ d) u b = elim (Bool-cases (ltb v (at current k))) [
      | inl more ↦ rw more (
          Excess-cons (at_keys current d) (total d) (at current k) v k v d _
            (scale_down_preferences current d) u.0
            (record { no_minimum = refl; max_fits = omega arith }) b.0 (omega arith)
            (scale_down-Excess d u.1 b.1))
      | inr rest ↦ rw rest (
          Excess-skip (at_keys current d) (total d) (at current k) v k v d
            (scale_down_preferences current d) (not_less v (at current k) rest)
            (scale_down-Excess d u.1 b.1))
    ]

    -- What `scaleUp` adds to: the clusters with less, as long as what is desired of each keeps to
    -- the maximum that the scheduling preference states.
    pub scale_up-Excess :
        (rsp : ReplicaSchedulingPreference) (d : Map String ℕ)
        → UniqueKeys d
        → All (λ e. e.1 - at current e.0 ≤ bound e.0) d
        → All (λ e. Within (max_of (lookup e.0 rsp.clusters)) e.1) d
        → (prefs : Map String ClusterPreferences) × (scale_up_preferences rsp current d
            ≡ some prefs)
          × Excess (total d) (at_keys current d) d prefs
    unfolding scale_up_preferences
    scale_up-Excess rsp [] u b w = ([], refl, Excess-nil)
    scale_up-Excess rsp ((k, v) ∷ d) u b w =
        let (prefs, e, x) = scale_up-Excess rsp d u.1 b.1 w.1 in
        elim (Bool-cases (ltb (at current k) v)) [
          | inl more ↦
              let (max, em, fits) =
                max_left_lem (max_of (lookup k rsp.clusters)) (at current k) v (ltb→lt _ _ more)
                  w.0 in
              let pref : ClusterPreferences = record {
                min_replicas = 0;
                max_replicas = max;
                weight = v - at current k;
              } in
              (
                (k, pref) ∷ prefs,
                rw e (rw more (rw em)),
                Excess-cons (total d) (at_keys current d) v (at current k) k v d pref prefs u.0
                    (record { no_minimum = refl; max_fits = fits }) b.0 (omega arith) x,
              )
          | inr rest ↦ (
            prefs,
            rw e (rw rest),
            Excess-skip (total d) (at_keys current d) v (at current k) k v d prefs
                (not_less (at current k) v rest) x,
          )
        ]
