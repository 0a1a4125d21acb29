-- ===== src/Planner/Scale/Whole.antt =====
-- `Plan` with disruptions avoided against `Plan` without.
use kubeadmiral.Base.{
  ℕ, ◌≡◌, refl, sym, ap, subst, ◌∙◌, inl, inr, String, Option, none, some, List, [], ◌∷◌, true,
  false, arith, string_eq, All, All-map, Bool, Option-cases,
}
use kubeadmiral.Base.Assoc.{
  Map, lookup, insert, or_zero, UniqueKeys, insert-UniqueKeys, All-insert, All-lookup,
  entries-lookup, is_some, lookup-insert,
}
use kubeadmiral.Base.Chain.{some_eq}
use kubeadmiral.Planner.Preferences.{
  ClusterPreferences, ReplicaSchedulingPreference, NamedClusterPreferences, named, named_all,
  get_named_preferences,
}
use kubeadmiral.Planner.Preferences.Order.{
  DistinctNames, get_named_preferences-DistinctNames, get_named_preferences-All,
}
use kubeadmiral.Planner.Desired.{get_desired_plan, fill, cap_at}
use kubeadmiral.Planner.Desired.Steps.{Within}
use kubeadmiral.Planner.Desired.Limits.{fill-Fits, Describes, MinFitsMax}
use kubeadmiral.Planner.Desired.Keys.{fill-UniqueKeys, fill-Holds}
use kubeadmiral.Planner.Scale.{
  max_of, available_preferences, current_plan, avoid_disruption_plan, plan,
}
use kubeadmiral.Planner.Scale.Counts.{Covers}
use kubeadmiral.Planner.Scale.Outcome.{Reaches, avoid_disruption_plan-Reaches}

-- No minimum passes its maximum.
abbrev pub MinsFitMaxes : ReplicaSchedulingPreference → Type 0
MinsFitMaxes rsp = All (λ e. Within e.1.max_replicas e.1.min_replicas) rsp.clusters

module _ (rsp : ReplicaSchedulingPreference) (valid : MinsFitMaxes rsp) where
  -- A preference that fits, and is the cluster's own where the scheduling preference has one.
  record IsOwn (e : String × ClusterPreferences) : Type 0 where
    fits : Within e.1.max_replicas e.1.min_replicas
    own : (q : ClusterPreferences) → lookup e.0 rsp.clusters ≡ some q → e.1 ≡ q

  available-IsOwn :
      (available : List String) (acc : Map String ClusterPreferences)
      → All IsOwn acc
      → All IsOwn (available_preferences rsp available acc)
  unfolding available_preferences
  available-IsOwn [] acc h = h
  available-IsOwn (c ∷ more) acc h = elim (Option-cases (lookup c rsp.clusters)) [
    | inr (p, e) ↦ rw e (
        available-IsOwn more (insert c p acc) (
          All-insert IsOwn c p acc
            (record {
              fits =
                  All-lookup (λ x. Within x.1.max_replicas x.1.min_replicas) c p rsp.clusters valid
                    e;
              own = λ q h'. cc;
            })
            h))
    | inl e ↦ elim (Option-cases (lookup "*" rsp.clusters)) [
      | inr (p, e') ↦
          rw (e, e')
            (available-IsOwn more (insert c p acc) (
              All-insert IsOwn c p acc
                (record {
                  fits =
                      All-lookup (λ x. Within x.1.max_replicas x.1.min_replicas) "*" p rsp.clusters
                        valid e';
                  own = λ q h'. cc;
                })
                h))
      | inl e' ↦ rw (e, e') (available-IsOwn more acc h)
    ]
  ]

available-UniqueKeys :
    (rsp : ReplicaSchedulingPreference) (available : List String)
    (acc : Map String ClusterPreferences)
    → UniqueKeys acc
    → UniqueKeys (available_preferences rsp available acc)
unfolding available_preferences
available-UniqueKeys rsp [] acc u = u
available-UniqueKeys rsp (c ∷ more) acc u = elim (Option-cases (lookup c rsp.clusters)) [
  | inr (p, e) ↦ rw e (available-UniqueKeys rsp more (insert c p acc) (insert-UniqueKeys c p acc u))
  | inl e ↦ elim (Option-cases (lookup "*" rsp.clusters)) [
    | inr (p, e') ↦
        rw (e, e') (available-UniqueKeys rsp more (insert c p acc) (insert-UniqueKeys c p acc u))
    | inl e' ↦ rw (e, e') (available-UniqueKeys rsp more acc u)
  ]
]

module _ (current estimated limited : Map String ℕ) where
  current_plan-UniqueKeys :
      (ps : List NamedClusterPreferences) (acc : Map String ℕ)
      → UniqueKeys acc
      → UniqueKeys (current_plan current estimated limited ps acc)
  unfolding current_plan
  current_plan-UniqueKeys [] acc u = u
  current_plan-UniqueKeys (p ∷ ps) acc u =
      current_plan-UniqueKeys ps _ (insert-UniqueKeys p.cluster_name _ acc u)

  -- The current plan names no cluster that the desired one does not.
  current_plan-Covers :
      (d : Map String ℕ) (ps : List NamedClusterPreferences) (acc : Map String ℕ)
      → All (λ p. is_some (lookup p.cluster_name d) ≡ true) ps
      → Covers d acc
      → Covers d (current_plan current estimated limited ps acc)
  unfolding current_plan
  current_plan-Covers d [] acc h c = c
  current_plan-Covers d (p ∷ ps) acc h c =
      let v =
        cap_at (lookup p.cluster_name estimated)
          (cap_at (lookup p.cluster_name limited) (or_zero (lookup p.cluster_name current))) in
      current_plan-Covers d ps _ h.1 (λ k e. ground (
        arith,
        c k e,
        h.0,
        string_eq.reflects p.cluster_name k,
        lookup-insert p.cluster_name k v acc,
      ))

abbrev pub max_or : Option ClusterPreferences → Option ℕ → Option ℕ
max_or (some p) m = p.max_replicas
max_or none m = m

Within-max_or :
    (o : Option ClusterPreferences) (r : Option ClusterPreferences) (v : ℕ)
    → ((p q : ClusterPreferences) → o ≡ some p → r ≡ some q → p ≡ q)
    → Within (max_or o (max_of r)) v
    → Within (max_of r) v
Within-max_or none r v same w = w
Within-max_or (some p) none v same w = tt
Within-max_or (some p) (some q) v same w =
    subst (λ (x : ClusterPreferences). Within x.max_replicas v) (same p q refl refl) w

pub desired_filled :
    (estimated limited : Map String ℕ) (ps : List NamedClusterPreferences) (n : ℕ) (keep : Bool)
    → (get_desired_plan estimated limited ps n keep).0 ≡ (fill estimated limited ps n).progress.plan
unfolding get_desired_plan
desired_filled estimated limited ps n keep = refl

module _ (hash : String → String → ℕ) (key : String) (rsp : ReplicaSchedulingPreference)
    (available : List String) where
  -- The preferences that `Plan` works with.
  abbrev pub plan_preferences : List NamedClusterPreferences
  plan_preferences = get_named_preferences hash key (available_preferences rsp available [])

  pub plan_preferences-DistinctNames : DistinctNames plan_preferences
  plan_preferences-DistinctNames =
      get_named_preferences-DistinctNames hash key _ (available-UniqueKeys rsp available [] tt)

  -- The maximum of a cluster: that of its preference, or else what the scheduling preference says.
  abbrev pub plan_maximum : String → Option ℕ
  plan_maximum k =
      max_or (lookup k (available_preferences rsp available [])) (max_of (lookup k rsp.clusters))

  module _ (valid : MinsFitMaxes rsp) where
    owns : All (IsOwn rsp valid) (available_preferences rsp available [])
    owns = available-IsOwn rsp valid available [] tt

    named_all-All :
        (P : NamedClusterPreferences → Type 0) (m : Map String ClusterPreferences)
        → All (λ e. P (named hash key e.0 e.1)) m
        → All P (named_all hash key m)
    named_all-All P [] h = tt
    named_all-All P ((k, p) ∷ m) h = (h.0, named_all-All P m h.1)

    plan_maximum_entry :
        (k : String) (p : ClusterPreferences)
        → lookup k (available_preferences rsp available []) ≡ some p
        → plan_maximum k ≡ p.max_replicas
    plan_maximum_entry k p e = ap (λ o. max_or o (max_of (lookup k rsp.clusters))) e

    module _ (estimated limited : Map String ℕ) where
      pub plan-Describes : All (Describes estimated limited plan_maximum) plan_preferences
      plan-Describes =
          get_named_preferences-All hash key (Describes estimated limited plan_maximum) _ (
            named_all-All (Describes estimated limited plan_maximum) _ (
              All-map (λ e. plan_maximum_entry e.0 e.1) _
                (entries-lookup _ (available-UniqueKeys rsp available [] tt))))

      pub plan-MinFitsMax : All (MinFitsMax estimated limited plan_maximum) plan_preferences
      plan-MinFitsMax =
          get_named_preferences-All hash key (MinFitsMax estimated limited plan_maximum) _ (
            named_all-All (MinFitsMax estimated limited plan_maximum) _
              (All-map (λ e h. h.fits) _ owns))

      own_maximum :
          (k : String) (v : ℕ)
          → Within (plan_maximum k) v
          → Within (max_of (lookup k rsp.clusters)) v
      own_maximum k v w =
          Within-max_or (lookup k (available_preferences rsp available [])) (lookup k rsp.clusters)
            v (λ p q e e'. (All-lookup (IsOwn rsp valid) k p _ owns e).own q e') w

      module _ (n : ℕ) where
        abbrev pub filled : Map String ℕ
        filled = (fill estimated limited plan_preferences n).progress.plan

        filled_entry :
            (k : String) (v : ℕ)
            → lookup k filled ≡ some v
            → Within (max_of (lookup k rsp.clusters)) v
        filled_entry k v e = own_maximum k v (
            subst (Within (plan_maximum k)) (ap or_zero e)
              (fill-Fits estimated limited plan_maximum plan_preferences n plan-Describes
                plan-MinFitsMax k).within_maximum)

        pub filled-Reaches :
            (current : Map String ℕ)
            → (r : Map String ℕ) × (avoid_disruption_plan hash rsp
                  (current_plan current estimated limited plan_preferences [])
                  filled
                  key
                ≡ some r)
              × Reaches (current_plan current estimated limited plan_preferences []) filled r
        filled-Reaches current =
            avoid_disruption_plan-Reaches hash key
              (current_plan current estimated limited plan_preferences []) filled
              (fill-UniqueKeys estimated limited plan_preferences n) rsp
              (current_plan-UniqueKeys current estimated limited plan_preferences [] tt)
              (current_plan-Covers current estimated limited filled plan_preferences []
                (fill-Holds estimated limited plan_preferences n) (λ k e. refl))
              (All-map (λ e h. filled_entry e.0 e.1 h) filled
                (entries-lookup filled (fill-UniqueKeys estimated limited plan_preferences n)))

  -- Where no minimum passes its maximum and `Plan` returns a plan with disruptions allowed, it
  -- also has a result with disruptions avoided. That result has the same total, and each
  -- cluster's count lies between what runs there and that plan.
  pub plan-Reaches :
      (n : ℕ) (current estimated limited : Map String ℕ) (keep : Bool)
      → MinsFitMaxes rsp
      → (d o : Map String ℕ)
      → plan hash rsp n available current estimated limited key false keep ≡ some (d, o)
      → (r o' : Map String ℕ) × (plan hash rsp n available current estimated limited key true keep
          ≡ some (r, o'))
        × Reaches (current_plan current estimated limited plan_preferences []) d r
  unfolding plan
  plan-Reaches n current estimated limited keep valid d o h =
      let (r, e, reaches) = filled-Reaches valid estimated limited n current in
      let same : (fill estimated limited plan_preferences n).progress.plan ≡ d =
        sym (desired_filled estimated limited plan_preferences n true)
        ∙ ap (λ (t : Map String ℕ × Map String ℕ). t.0) (some_eq h) in
      (
        r,
        (get_desired_plan estimated limited plan_preferences n keep).1,
        rw (desired_filled estimated limited plan_preferences n keep, e) refl,
        subst
            (λ (x : Map String ℕ).
              Reaches (current_plan current estimated limited plan_preferences []) x r)
            same reaches,
      )
