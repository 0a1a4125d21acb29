-- ===== src/Planner/Desired/Limits.antt =====
-- `getDesiredPlan` keeps each cluster within its maximum and its two capacities, and never takes
-- back what a cluster was given.
use kubeadmiral.Base.{
  ℕ, zero, suc, ◌≤◌, ◌≡◌, refl, inl, inr, String, Option, none, some, List, [], ◌∷◌, ◌==◌, true,
  false, arith, string_eq, All, Bool-cases, length, Bool, if◌then◌else◌,
}
use kubeadmiral.Base.Assoc.{Map, lookup, insert, or_zero, lookup-insert}
use kubeadmiral.Planner.Preferences.{NamedClusterPreferences}
use kubeadmiral.Planner.Desired.{
  Progress, Pass, cut, min_int64, assign_minimum, assign_minimums, distribute_one, distribute_pass,
  one_round, goes_on, distribute_rounds, fill,
}
use kubeadmiral.Planner.Desired.Steps.{
  Within, cut-Within, cut-le, min_int64-le_left, distribute_pass-All, minimum_placed, round_most,
}

-- What the plan gives to a cluster, zero if it does not name it.
abbrev pub given : Progress → String → ℕ
given s k = or_zero (lookup k s.plan)

pub Within-le : (limit : Option ℕ) {m n : ℕ} → m ≤ n → Within limit n → Within limit m
Within-le none h w = tt
Within-le (some c) h w = omega arith

pub Within-zero : (limit : Option ℕ) → Within limit 0
Within-zero none = tt
Within-zero (some c) = omega arith

minimum_placed-le :
    (estimated limited : Map String ℕ) (p : NamedClusterPreferences) (s : Progress)
    → minimum_placed estimated limited p s ≤ p.preferences.min_replicas
minimum_placed-le estimated limited p s = omega (
  arith,
  cut-le none (lookup p.cluster_name limited) (lookup p.cluster_name estimated)
      (min_int64 p.preferences.min_replicas s.remaining),
  min_int64-le_left p.preferences.min_replicas s.remaining,
)

pub cut-ge :
    (max limited estimated : Option ℕ) (m n : ℕ)
    → m ≤ n
    → Within max m
    → Within limited m
    → Within estimated m
    → m ≤ cut max limited estimated n
unfolding cut
cut-ge none none none m n h a b c = ground arith
cut-ge none none (some e) m n h a b c = ground arith
cut-ge none (some l) none m n h a b c = ground arith
cut-ge none (some l) (some e) m n h a b c = ground arith
cut-ge (some x) none none m n h a b c = ground arith
cut-ge (some x) none (some e) m n h a b c = ground arith
cut-ge (some x) (some l) none m n h a b c = ground arith
cut-ge (some x) (some l) (some e) m n h a b c = ground arith

module _ (estimated limited : Map String ℕ) (maximum : String → Option ℕ) where
  -- The limits of one cluster, and a count that keeps within all three.
  pub record FitsAt (k : String) (n : ℕ) : Type 0 where
    pub within_maximum : Within (maximum k) n
    pub within_limited : Within (lookup k limited) n
    pub within_estimated : Within (lookup k estimated) n

  abbrev pub Fits : Progress → Type 0
  Fits s = (k : String) → FitsAt k (given s k)

  -- `maximum` says of each preference what its own fields say.
  abbrev pub Describes : NamedClusterPreferences → Type 0
  Describes p = maximum p.cluster_name ≡ p.preferences.max_replicas

  -- A preference whose minimum does not pass its maximum.
  abbrev pub MinFitsMax : NamedClusterPreferences → Type 0
  MinFitsMax p = Within p.preferences.max_replicas p.preferences.min_replicas

  FitsAt-if :
      (b : Bool) (k : String) (o : Option ℕ) (v : ℕ)
      → (b ≡ true → FitsAt k v)
      → FitsAt k (or_zero o)
      → FitsAt k (or_zero (if b then some v else o))
  FitsAt-if true k o v h f = h refl
  FitsAt-if false k o v h f = f

  insert-Fits :
      (name : String) (v : ℕ) (m : Map String ℕ)
      → FitsAt name v
      → ((k : String) → FitsAt k (or_zero (lookup k m)))
      → (k : String) → FitsAt k (or_zero (lookup k (insert name v m)))
  insert-Fits name v m h f k =
      rw (lookup-insert name k v m) (
        FitsAt-if (name == k) k (lookup k m) v (λ e. rw (← (string_eq.reflects name k).0 e) h)
          (f k))

  assign_minimum-Fits :
      (p : NamedClusterPreferences) (s : Progress)
      → Describes p
      → MinFitsMax p
      → Fits s
      → Fits (assign_minimum estimated limited p s)
  unfolding assign_minimum
  assign_minimum-Fits p s e m f =
      let w =
        cut-Within none (lookup p.cluster_name limited) (lookup p.cluster_name estimated)
          (min_int64 p.preferences.min_replicas s.remaining) in
      insert-Fits p.cluster_name _ s.plan
        (record {
          within_maximum =
              rw e
                (Within-le p.preferences.max_replicas (minimum_placed-le estimated limited p s) m);
          within_limited = w.1;
          within_estimated = w.2;
        })
        f

  pub assign_minimums-Fits :
      (ps : List NamedClusterPreferences) (s : Progress)
      → All Describes ps
      → All MinFitsMax ps
      → Fits s
      → Fits (assign_minimums estimated limited ps s)
  unfolding assign_minimums
  assign_minimums-Fits [] s d m f = f
  assign_minimums-Fits (p ∷ ps) s d m f =
      assign_minimums-Fits ps (assign_minimum estimated limited p s) d.1 m.1
        (assign_minimum-Fits p s d.0 m.0 f)

  pub distribute_one-Fits :
      (d sum : ℕ) (p : NamedClusterPreferences) (t : Pass)
      → Describes p
      → Fits t.progress
      → Fits (distribute_one estimated limited d sum p t).progress
  unfolding distribute_one
  distribute_one-Fits d sum p t e f =
      let w =
        cut-Within p.preferences.max_replicas (lookup p.cluster_name limited)
          (lookup p.cluster_name estimated) (round_most estimated limited d sum p t.progress) in
      insert-Fits p.cluster_name _ t.progress.plan
        (record { within_maximum = rw e w.0; within_limited = w.1; within_estimated = w.2 }) f

  pub distribute_pass-Fits :
      (d sum : ℕ) (ps : List NamedClusterPreferences) (t : Pass)
      → All Describes ps
      → Fits t.progress
      → Fits (distribute_pass estimated limited d sum ps t).progress
  unfolding distribute_pass
  distribute_pass-Fits d sum [] t e f = f
  distribute_pass-Fits d sum (p ∷ ps) t e f =
      distribute_pass-Fits d sum ps (distribute_one estimated limited d sum p t) e.1
        (distribute_one-Fits d sum p t e.0 f)

  -- An invariant of the passes is one of the outer loop.
  distribute_rounds-Fits :
      (fuel : ℕ) (t : Pass)
      → All Describes t.new_preferences
      → Fits t.progress
      → Fits (distribute_rounds estimated limited fuel t).progress
  unfolding distribute_rounds
  distribute_rounds-Fits zero t e f = f
  distribute_rounds-Fits (suc fuel) t e f =
      elim (Bool-cases (goes_on t.modified t.new_preferences t.progress)) [
        | inl more ↦ rw more (
            distribute_rounds-Fits fuel (one_round estimated limited t.new_preferences t.progress)
              (distribute_pass-All estimated limited Describes _ _ t.new_preferences _ e tt)
              (distribute_pass-Fits _ _ t.new_preferences _ e f))
        | inr done ↦ rw done f
      ]

  pub Fits-empty : (n : ℕ) → Fits (record { remaining = n; plan = []; overflow = [] })
  Fits-empty n k = record {
    within_maximum = Within-zero (maximum k);
    within_limited = Within-zero (lookup k limited);
    within_estimated = Within-zero (lookup k estimated);
  }

  -- Where each preference has its cluster's maximum and no minimum passes it, each planned
  -- count lies within its cluster's maximum and within both of its capacities, where they
  -- exist.
  pub fill-Fits :
      (ps : List NamedClusterPreferences) (n : ℕ)
      → All Describes ps
      → All MinFitsMax ps
      → Fits (fill estimated limited ps n).progress
  unfolding fill
  fill-Fits ps n e m =
      distribute_rounds-Fits (suc (length ps)) _ e (assign_minimums-Fits ps _ e m (Fits-empty n))
