-- ===== src/Planner/Desired/Keys.antt =====
-- The keys of the map that `getDesiredPlan` returns: each stands once, and every preference's
-- cluster is among them.
use kubeadmiral.Base.{
  ℕ, zero, suc, ◌≡◌, String, List, [], ◌∷◌, true, arith, string_eq, Bool-cases, inl, inr, All,
  All-map, length,
}
use kubeadmiral.Base.Assoc.{
  Map, lookup, insert, is_some, UniqueKeys, insert-UniqueKeys, lookup-insert,
}
use kubeadmiral.Planner.Preferences.{NamedClusterPreferences}
use kubeadmiral.Planner.Desired.{
  Progress, Pass, assign_minimum, assign_minimums, distribute_one, distribute_pass, one_round,
  goes_on, distribute_rounds, fill,
}
use kubeadmiral.Planner.Desired.Steps.{minimum_placed, round_placed}

module _ (estimated limited : Map String ℕ) where
  -- What every step keeps of the plan, the loops keep.
  module _ (P : Map String ℕ → Type 0)
      (step : (name : String) (v : ℕ) (m : Map String ℕ) → P m → P (insert name v m)) where
    distribute_pass_inv :
        (d sum : ℕ) (ps : List NamedClusterPreferences) (t : Pass)
        → P t.progress.plan
        → P (distribute_pass estimated limited d sum ps t).progress.plan
    unfolding distribute_pass distribute_one
    distribute_pass_inv d sum [] t h = h
    distribute_pass_inv d sum (p ∷ ps) t h =
        distribute_pass_inv d sum ps (distribute_one estimated limited d sum p t) (
          step p.cluster_name (round_placed estimated limited d sum p t.progress) t.progress.plan h)

    distribute_rounds_inv :
        (fuel : ℕ) (t : Pass)
        → P t.progress.plan
        → P (distribute_rounds estimated limited fuel t).progress.plan
    unfolding distribute_rounds
    distribute_rounds_inv zero t h = h
    distribute_rounds_inv (suc fuel) t h =
        elim (Bool-cases (goes_on t.modified t.new_preferences t.progress)) [
          | inl more ↦ rw more (
              distribute_rounds_inv fuel (one_round estimated limited t.new_preferences t.progress)
                (distribute_pass_inv _ _ t.new_preferences _ h))
          | inr done ↦ rw done h
        ]

    assign_minimums_inv :
        (ps : List NamedClusterPreferences) (s : Progress)
        → P s.plan
        → P (assign_minimums estimated limited ps s).plan
    unfolding assign_minimums assign_minimum
    assign_minimums_inv [] s h = h
    assign_minimums_inv (p ∷ ps) s h =
        assign_minimums_inv ps (assign_minimum estimated limited p s)
          (step p.cluster_name (minimum_placed estimated limited p s) s.plan h)

  pub fill-UniqueKeys :
      (ps : List NamedClusterPreferences) (n : ℕ)
      → UniqueKeys (fill estimated limited ps n).progress.plan
  unfolding fill
  fill-UniqueKeys ps n =
      distribute_rounds_inv UniqueKeys insert-UniqueKeys (suc (length ps)) _
        (assign_minimums_inv UniqueKeys insert-UniqueKeys ps _ tt)

  abbrev Holds : String → Map String ℕ → Type 0
  Holds k m = is_some (lookup k m) ≡ true

  Holds-insert :
      (k name : String) (v : ℕ) (m : Map String ℕ) → Holds k m → Holds k (insert name v m)
  Holds-insert k name v m h = ground (arith, lookup-insert name k v m)

  Holds-insert_self : (k : String) (v : ℕ) (m : Map String ℕ) → Holds k (insert k v m)
  Holds-insert_self k v m = ground (arith, lookup-insert k k v m, string_eq.reflects k k)

  assign_minimums-Holds :
      (ps : List NamedClusterPreferences) (s : Progress)
      → All (λ p. Holds p.cluster_name (assign_minimums estimated limited ps s).plan) ps
  unfolding assign_minimums assign_minimum
  assign_minimums-Holds [] s = tt
  assign_minimums-Holds (p ∷ ps) s = (
    assign_minimums_inv (Holds p.cluster_name) (Holds-insert p.cluster_name) ps
        (assign_minimum estimated limited p s)
        (Holds-insert_self p.cluster_name (minimum_placed estimated limited p s) s.plan),
    assign_minimums-Holds ps (assign_minimum estimated limited p s),
  )

  -- Every cluster with a preference has an entry.
  pub fill-Holds :
      (ps : List NamedClusterPreferences) (n : ℕ)
      → All
          (λ p. is_some (lookup p.cluster_name (fill estimated limited ps n).progress.plan) ≡ true)
          ps
  unfolding fill
  fill-Holds ps n =
      All-map
        (λ p.
          distribute_rounds_inv (Holds p.cluster_name) (Holds-insert p.cluster_name)
            (suc (length ps)) _)
        ps (assign_minimums-Holds ps _)
