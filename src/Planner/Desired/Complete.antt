-- ===== src/Planner/Desired/Complete.antt =====
-- `getDesiredPlan` places every replica as soon as one cluster with a weight has no limit.
use kubeadmiral.Base.{
  ℕ, zero, suc, ◌+◌, ◌*◌, ◌≤◌, ◌<◌, ◌≡◌, refl, sym, ◌∙◌, ◌⊎◌, subst, inl, inr, String, Option, none,
  List, [], ◌∷◌, ◌++◌, true, false, ◌||◌, arith, string_eq, Bool-cases, length, Bool, All, ap, ltb,
}
use kubeadmiral.Base.Assoc.{Map, lookup}
use kubeadmiral.Planner.Preferences.{NamedClusterPreferences}
use kubeadmiral.Planner.Desired.{
  Pass, Progress, cut, is_full, share, weight_sum, distribute_one, distribute_pass, one_round,
  goes_on, distribute_rounds, fill,
}
use kubeadmiral.Planner.Desired.Steps.{
  goes_on-remaining, goes_on-weight, share_enough, round_most, start_of, distribute_pass-All,
}
use kubeadmiral.Planner.Desired.Limits.{
  Fits, Describes, MinFitsMax, distribute_one-Fits, distribute_pass-Fits, cut-ge,
  assign_minimums-Fits, Fits-empty,
}
use kubeadmiral.Planner.Desired.Rounds.{fill-Ended, Ended}

-- `u` is one of the preferences.
abbrev pub Occurs : NamedClusterPreferences → List NamedClusterPreferences → Type 0
Occurs u [] = ⊥
Occurs u (p ∷ ps) = (u ≡ p) ⊎ Occurs u ps

Occurs-append_left :
    (u : NamedClusterPreferences) (ps qs : List NamedClusterPreferences)
    → Occurs u ps
    → Occurs u (ps ++ qs)
Occurs-append_left u [] qs o = elim o [ ]
Occurs-append_left u (p ∷ ps) qs (inl e) = inl e
Occurs-append_left u (p ∷ ps) qs (inr o) = inr (Occurs-append_left u ps qs o)

Occurs-snoc :
    (u : NamedClusterPreferences) (ps : List NamedClusterPreferences) → Occurs u (ps ++ u ∷ [])
Occurs-snoc u [] = inl refl
Occurs-snoc u (p ∷ ps) = inr (Occurs-snoc u ps)

Occurs-weight :
    (u : NamedClusterPreferences) (ps : List NamedClusterPreferences)
    → Occurs u ps
    → u.preferences.weight ≤ weight_sum ps
Occurs-weight u [] o = elim o [ ]
Occurs-weight u (p ∷ ps) (inl e) =
    omega (arith, ap (λ (q : NamedClusterPreferences). q.preferences.weight) e)
Occurs-weight u (p ∷ ps) (inr o) = omega (arith, Occurs-weight u ps o)

not_zero : (d w : ℕ) → 0 < d → 0 < w → ¬ (d * w ≤ 0)
not_zero d w pd pw = grind arith

share_zero : (d w sum r : ℕ) → 0 < d → 0 < w → 0 < sum → share d w sum r ≡ 0 → r ≡ 0
share_zero d w sum r pd pw ps h = elim (share_enough d w sum r ps) [
  | inl enough ↦ absurd (not_zero d w pd pw (omega (arith, enough, ap (λ (x : ℕ). x * sum) h)))
  | inr last ↦ sym last ∙ h
]

no_share : (start s : ℕ) (m : Bool) → (m || ltb start (start + s)) ≡ false → s ≡ 0
no_share start s m h = ground arith

module _ (estimated limited : Map String ℕ) where
  -- No maximum, no capacity, and a weight.
  pub record IsOpen (u : NamedClusterPreferences) : Type 0 where
    pub no_maximum : u.preferences.max_replicas ≡ none
    pub no_limited : lookup u.cluster_name limited ≡ none
    pub no_estimated : lookup u.cluster_name estimated ≡ none
    pub weighs : 0 < u.preferences.weight

  module _ (u : NamedClusterPreferences) (free : IsOpen u) where
    -- The cuts leave an open cluster's total alone, and it is never full.
    open_cut :
        (n : ℕ)
        → (cut u.preferences.max_replicas
              (lookup u.cluster_name limited)
              (lookup u.cluster_name estimated)
              n
            ≡ n)
          × (is_full u.preferences.max_replicas
                (lookup u.cluster_name limited)
                (lookup u.cluster_name estimated)
                n
              ≡ false)
    unfolding cut is_full
    open_cut n = rw (free.no_maximum, free.no_limited, free.no_estimated) (refl, refl)

    distribute_one_open :
        (d sum : ℕ) (t : Pass)
        → Occurs u (distribute_one estimated limited d sum u t).new_preferences
    unfolding distribute_one
    distribute_one_open d sum t =
        rw (open_cut (round_most estimated limited d sum u t.progress)).1
          (Occurs-snoc u t.new_preferences)

    distribute_one-Occurs :
        (d sum : ℕ) (p : NamedClusterPreferences) (t : Pass)
        → Occurs u t.new_preferences
        → Occurs u (distribute_one estimated limited d sum p t).new_preferences
    unfolding distribute_one
    distribute_one-Occurs d sum p t o =
        elim (Bool-cases (
          is_full p.preferences.max_replicas (lookup p.cluster_name limited)
            (lookup p.cluster_name estimated) (round_most estimated limited d sum p t.progress))) [
              | inl e ↦ rw e o
              | inr e ↦ rw e (Occurs-append_left u t.new_preferences (p ∷ []) o)
            ]

    distribute_pass-Occurs :
        (d sum : ℕ) (ps : List NamedClusterPreferences) (t : Pass)
        → Occurs u ps ⊎ Occurs u t.new_preferences
        → Occurs u (distribute_pass estimated limited d sum ps t).new_preferences
    unfolding distribute_pass
    distribute_pass-Occurs d sum [] t (inl o) = elim o [ ]
    distribute_pass-Occurs d sum [] t (inr o) = o
    distribute_pass-Occurs d sum (p ∷ ps) t (inl (inl e)) =
        distribute_pass-Occurs d sum ps (distribute_one estimated limited d sum p t) (
          inr (
            subst (λ q. Occurs u (distribute_one estimated limited d sum q t).new_preferences) e
              (distribute_one_open d sum t)))
    distribute_pass-Occurs d sum (p ∷ ps) t (inl (inr o)) =
        distribute_pass-Occurs d sum ps (distribute_one estimated limited d sum p t) (inl o)
    distribute_pass-Occurs d sum (p ∷ ps) t (inr o) =
        distribute_pass-Occurs d sum ps (distribute_one estimated limited d sum p t)
          (inr (distribute_one-Occurs d sum p t o))

    -- An open cluster that is given nothing saw nothing left.
    distribute_one_still :
        (d sum : ℕ) (t : Pass)
        → 0 < d
        → 0 < sum
        → (distribute_one estimated limited d sum u t).modified ≡ false
        → t.progress.remaining ≡ 0
    unfolding distribute_one
    distribute_one_still d sum t pd ps h =
        share_zero d u.preferences.weight sum t.progress.remaining pd free.weighs ps (
          no_share (start_of estimated limited u t.progress)
            (share d u.preferences.weight sum t.progress.remaining) t.modified
            (rw (open_cut (round_most estimated limited d sum u t.progress)).0 at h))

  module _ (maximum : String → Option ℕ) where
    abbrev Fit : Progress → Type 0
    Fit = Fits estimated limited maximum

    abbrev Describe : NamedClusterPreferences → Type 0
    Describe = Describes estimated limited maximum

    distribute_one-remaining-le :
        (d sum : ℕ) (p : NamedClusterPreferences) (t : Pass)
        → Describe p
        → Fit t.progress
        → (distribute_one estimated limited d sum p t).progress.remaining ≤ t.progress.remaining
    unfolding distribute_one
    distribute_one-remaining-le d sum p t e f =
        let at_start = f p.cluster_name in
        omega (
          arith,
          cut-ge p.preferences.max_replicas (lookup p.cluster_name limited)
              (lookup p.cluster_name estimated) (start_of estimated limited p t.progress)
              (round_most estimated limited d sum p t.progress) (omega arith)
              (rw e at at_start.within_maximum) at_start.within_limited at_start.within_estimated,
        )

    distribute_pass-remaining-le :
        (d sum : ℕ) (ps : List NamedClusterPreferences) (t : Pass)
        → All Describe ps
        → Fit t.progress
        → (distribute_pass estimated limited d sum ps t).progress.remaining ≤ t.progress.remaining
    unfolding distribute_pass
    distribute_pass-remaining-le d sum [] t e f = omega arith
    distribute_pass-remaining-le d sum (p ∷ ps) t e f = omega (
      arith,
      distribute_one-remaining-le d sum p t e.0 f,
      distribute_pass-remaining-le d sum ps (distribute_one estimated limited d sum p t) e.1
          (distribute_one-Fits estimated limited maximum d sum p t e.0 f),
    )

    -- A pass never takes `modified` back.
    distribute_one-modified :
        (d sum : ℕ) (p : NamedClusterPreferences) (t : Pass)
        → (distribute_one estimated limited d sum p t).modified ≡ false
        → t.modified ≡ false
    unfolding distribute_one
    distribute_one-modified d sum p t h = ground arith

    distribute_pass-modified :
        (d sum : ℕ) (ps : List NamedClusterPreferences) (t : Pass)
        → (distribute_pass estimated limited d sum ps t).modified ≡ false
        → t.modified ≡ false
    unfolding distribute_pass
    distribute_pass-modified d sum [] t h = h
    distribute_pass-modified d sum (p ∷ ps) t h =
        distribute_one-modified d sum p t
          (distribute_pass-modified d sum ps (distribute_one estimated limited d sum p t) h)

    module _ (u : NamedClusterPreferences) (free : IsOpen u) where
      distribute_pass_still :
          (d sum : ℕ) (ps : List NamedClusterPreferences) (t : Pass)
          → 0 < d
          → 0 < sum
          → All Describe ps
          → Fit t.progress
          → Occurs u ps
          → (distribute_pass estimated limited d sum ps t).modified ≡ false
          → (distribute_pass estimated limited d sum ps t).progress.remaining ≡ 0
      unfolding distribute_pass
      distribute_pass_still d sum [] t pd pos e f o h = elim o [ ]
      distribute_pass_still d sum (p ∷ ps) t pd pos e f (inl same) h =
          let mid = distribute_one estimated limited d sum p t in
          omega (
            arith,
            distribute_pass-remaining-le d sum ps mid e.1
                (distribute_one-Fits estimated limited maximum d sum p t e.0 f),
            distribute_one-remaining-le d sum p t e.0 f,
            distribute_one_still u free d sum t pd pos
                (rw (← same) at (distribute_pass-modified d sum ps mid h)),
          )
      distribute_pass_still d sum (p ∷ ps) t pd pos e f (inr o) h =
          distribute_pass_still d sum ps (distribute_one estimated limited d sum p t) pd pos e.1
            (distribute_one-Fits estimated limited maximum d sum p t e.0 f) o h

      -- What holds between two passes.
      record Ready (t : Pass) : Type 0 where
        described : All Describe t.new_preferences
        fits : Fit t.progress
        occurs : Occurs u t.new_preferences
        still : t.modified ≡ false → t.progress.remaining ≡ 0

      one_round-Ready :
          (t : Pass)
          → goes_on t.modified t.new_preferences t.progress ≡ true
          → Ready t
          → Ready (one_round estimated limited t.new_preferences t.progress)
      one_round-Ready t more r = record {
        described =
            distribute_pass-All estimated limited Describe _ _ t.new_preferences _ r.described tt;
        fits =
            distribute_pass-Fits estimated limited maximum _ _ t.new_preferences _ r.described
              r.fits;
        occurs = distribute_pass-Occurs u free _ _ t.new_preferences _ (inl r.occurs);
        still =
            distribute_pass_still t.progress.remaining (weight_sum t.new_preferences)
              t.new_preferences
              (record { progress = t.progress; modified = false; new_preferences = [] })
              (goes_on-remaining t more) (goes_on-weight t more) r.described r.fits r.occurs;
      }

      distribute_rounds-Ready :
          (fuel : ℕ) (t : Pass) → Ready t → Ready (distribute_rounds estimated limited fuel t)
      unfolding distribute_rounds
      distribute_rounds-Ready zero t r = r
      distribute_rounds-Ready (suc fuel) t r =
          elim (Bool-cases (goes_on t.modified t.new_preferences t.progress)) [
            | inl more ↦ rw more (
                distribute_rounds-Ready fuel
                  (one_round estimated limited t.new_preferences t.progress)
                  (one_round-Ready t more r))
            | inr done ↦ rw done r
          ]

      Ready-Ended : (t : Pass) → Ready t → Ended estimated limited t → t.progress.remaining ≡ 0
      Ready-Ended t r h =
          ground (arith, r.still, Occurs-weight u t.new_preferences r.occurs, free.weighs)

      -- Where each preference has its cluster's maximum and no minimum passes it, nothing
      -- remains to be placed if an open preference occurs among the preferences.
      pub fill-remaining :
          (ps : List NamedClusterPreferences) (n : ℕ)
          → All Describe ps
          → All (MinFitsMax estimated limited maximum) ps
          → Occurs u ps
          → (fill estimated limited ps n).progress.remaining ≡ 0
      unfolding fill
      fill-remaining ps n e m o =
          Ready-Ended (fill estimated limited ps n)
            (distribute_rounds-Ready (suc (length ps)) _ (record {
              described = e;
              fits =
                  assign_minimums-Fits estimated limited maximum ps _ e m
                    (Fits-empty estimated limited maximum n);
              occurs = o;
              still = λ b. cc;
            }))
            (fill-Ended estimated limited ps n)
