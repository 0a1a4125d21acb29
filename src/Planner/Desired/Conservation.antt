-- ===== src/Planner/Desired/Conservation.antt =====
-- `getDesiredPlan` loses and invents no replica.
use kubeadmiral.Base.{
  ℕ, zero, suc, ◌+◌, ◌≡◌, refl, ◌∙◌, ◌≢◌, String, none, List, [], ◌∷◌, arith, string_eq, All,
  length, Bool,
}
use kubeadmiral.Base.Assoc.{Map, lookup, total, lookup-insert_ne}
use kubeadmiral.Planner.Preferences.{NamedClusterPreferences}
use kubeadmiral.Planner.Preferences.Order.{DistinctNames}
use kubeadmiral.Planner.Desired.{
  Progress, Pass, assign_minimum, assign_minimums, distribute_one, distribute_pass, one_round,
  distribute_rounds, fill,
}
use kubeadmiral.Planner.Desired.Steps.{assign_minimum-total, distribute_one-total, minimum_placed}

abbrev pub held : Progress → ℕ
held s = s.remaining + total s.plan

module _ (estimated limited : Map String ℕ) where
  -- The clusters of `ps` have no entry in the plan.
  abbrev Fresh : Progress → List NamedClusterPreferences → Type 0
  Fresh s = All (λ p. lookup p.cluster_name s.plan ≡ none)

  assign_minimum-Fresh :
      (p : NamedClusterPreferences) (s : Progress) (ps : List NamedClusterPreferences)
      → All (λ q. p.cluster_name ≢ q.cluster_name) ps
      → Fresh s ps
      → Fresh (assign_minimum estimated limited p s) ps
  unfolding assign_minimum
  assign_minimum-Fresh p s [] d f = tt
  assign_minimum-Fresh p s (q ∷ ps) d f = (
    lookup-insert_ne p.cluster_name q.cluster_name (minimum_placed estimated limited p s) s.plan d.0
        ∙ f.0,
    assign_minimum-Fresh p s ps d.1 f.1,
  )

  assign_minimums-held :
      (ps : List NamedClusterPreferences) (s : Progress)
      → DistinctNames ps
      → Fresh s ps
      → held (assign_minimums estimated limited ps s) ≡ held s
  unfolding assign_minimums
  assign_minimums-held [] s d f = refl
  assign_minimums-held (p ∷ ps) s d f =
      assign_minimums-held ps (assign_minimum estimated limited p s) d.1
        (assign_minimum-Fresh p s ps d.0 f.1)
      ∙ assign_minimum-total estimated limited p s f.0

  pub distribute_pass-held :
      (d sum : ℕ) (ps : List NamedClusterPreferences) (t : Pass)
      → held (distribute_pass estimated limited d sum ps t).progress ≡ held t.progress
  unfolding distribute_pass
  distribute_pass-held d sum [] t = refl
  distribute_pass-held d sum (p ∷ ps) t =
      distribute_pass-held d sum ps (distribute_one estimated limited d sum p t)
      ∙ distribute_one-total estimated limited d sum p t

  distribute_rounds-held :
      (fuel : ℕ) (t : Pass)
      → held (distribute_rounds estimated limited fuel t).progress ≡ held t.progress
  unfolding distribute_rounds
  distribute_rounds-held zero t = refl
  distribute_rounds-held (suc fuel) t =
      let next = one_round estimated limited t.new_preferences t.progress in
      ground
        (arith, distribute_rounds-held fuel next ∙ distribute_pass-held _ _ t.new_preferences _)

  Fresh-empty :
      (n : ℕ) (ps : List NamedClusterPreferences)
      → Fresh (record { remaining = n; plan = []; overflow = [] }) ps
  Fresh-empty n [] = tt
  Fresh-empty n (p ∷ ps) = (refl, Fresh-empty n ps)

  -- Where the clusters' names are distinct, what is planned and what remains add up to the
  -- replicas that were asked for.
  pub fill-held :
      (ps : List NamedClusterPreferences) (n : ℕ)
      → DistinctNames ps
      → held (fill estimated limited ps n).progress ≡ n
  unfolding fill
  fill-held ps n d =
      let s0 : Progress = record { remaining = n; plan = []; overflow = [] } in
      omega (
        arith,
        distribute_rounds-held (suc (length ps)) (record {
          progress = assign_minimums estimated limited ps s0;
          modified = Bool.true;
          new_preferences = ps;
        }),
        assign_minimums-held ps s0 d (Fresh-empty n ps),
      )
