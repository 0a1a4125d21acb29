-- ===== src/Planner/Desired/Modest.antt =====
-- `getDesiredPlan` as `scaleUp` and `scaleDown` call it: no capacities, no minimums, every maximum
-- at least the weight, and no more replicas than the weights add up to. One pass hands out all of
-- them, and no cluster more than its weight.
use kubeadmiral.Base.{
  ℕ, suc, ◌+◌, ◌-◌, ◌*◌, ◌/◌, ◌≤◌, ◌<◌, ◌≡◌, ◌≢◌, refl, ◌∙◌, inl, inr, String, Option, none, some,
  List, [], ◌∷◌, ◌==◌, true, false, arith, string_eq, Bool-cases, length, length-append, All, ap,
  if◌then◌else◌,
}
use kubeadmiral.Base.Assoc.{Map, lookup, insert, or_zero, lookup-insert, lookup-insert_ne}
use kubeadmiral.Planner.Preferences.{NamedClusterPreferences}
use kubeadmiral.Planner.Preferences.Order.{DistinctNames}
use kubeadmiral.Planner.Desired.{
  Pass, Progress, cut, is_full, share, weight_sum, min_int64, assign_minimum, assign_minimums,
  distribute_one, distribute_pass, one_round, goes_on, distribute_rounds, fill,
}
use kubeadmiral.Planner.Desired.Steps.{goes_on-weight, Within, round_placed, round_most}
use kubeadmiral.Planner.Desired.Limits.{given}
use kubeadmiral.Planner.Desired.Rounds.{one_round_kept, distribute_rounds_done, nothing_left}

pub record IsModest (p : NamedClusterPreferences) : Type 0 where
  pub no_minimum : p.preferences.min_replicas ≡ 0
  pub max_fits : Within p.preferences.max_replicas p.preferences.weight

mul_mono : (d w sum : ℕ) → d ≤ sum → d * w ≤ w * sum
mul_mono d w sum h = grind arith

ceil_div-le : (n w sum : ℕ) → 0 < sum → n ≤ w * sum → (n + sum - 1) / sum ≤ w
ceil_div-le n w sum pos h = grind arith

share-le_weight : (d w sum r : ℕ) → d ≤ sum → 0 < sum → share d w sum r ≤ w
unfolding share
share-le_weight d w sum r h pos = ground (arith, ceil_div-le (d * w) w sum pos (mul_mono d w sum h))

cut_modest :
    (max : Option ℕ) (w n : ℕ)
    → Within max w
    → n ≤ w
    → (cut max none none n ≡ n) × (is_full max none none n ≡ false)
unfolding cut is_full
cut_modest none w n h le = (refl, refl)
cut_modest (some m) w n h le = (ground arith, ground arith)

abbrev Blank : Progress → Type 0
Blank s = (k : String) → given s k ≡ 0

given-insert :
    (name k : String) (v : ℕ) (m : Map String ℕ)
    → or_zero (lookup k (insert name v m)) ≡ (if name == k then v else or_zero (lookup k m))
given-insert name k v m = ground (arith, lookup-insert name k v m)

assign_minimum_none :
    (p : NamedClusterPreferences) (s : Progress)
    → p.preferences.min_replicas ≡ 0
    → Blank s
    → Blank (assign_minimum [] [] p s) × ((assign_minimum [] [] p s).remaining ≡ s.remaining)
unfolding assign_minimum cut
assign_minimum_none p s e b = (
  λ k. ground (
    arith,
    given-insert p.cluster_name k (min_int64 p.preferences.min_replicas s.remaining) s.plan,
    b k,
  ),
  ground arith,
)

assign_minimums_none :
    (ps : List NamedClusterPreferences) (s : Progress)
    → All IsModest ps
    → Blank s
    → Blank (assign_minimums [] [] ps s) × ((assign_minimums [] [] ps s).remaining ≡ s.remaining)
unfolding assign_minimums
assign_minimums_none [] s m b = (b, refl)
assign_minimums_none (p ∷ ps) s m b =
    let (b', e) = assign_minimum_none p s m.0.no_minimum b in
    let (b'', e') = assign_minimums_none ps (assign_minimum [] [] p s) m.1 b' in (b'', e' ∙ e)

no_weight :
    (ps : List NamedClusterPreferences) (s : Progress)
    → s.remaining ≤ weight_sum ps
    → goes_on true ps s ≡ false
    → s.remaining ≡ 0
no_weight ps s le h = ground arith

bound_if :
    (bound : String → ℕ) (name k : String) (v w : ℕ)
    → v ≤ bound name
    → w ≤ bound k
    → (if name == k then v else w) ≤ bound k
bound_if bound name k v w h h' = elim (Bool-cases (name == k)) [
  | inl e ↦ rw e (rw ((string_eq.reflects name k).0 e) at h)
  | inr e ↦ rw e h'
]

module _ (bound : String → ℕ) where
  abbrev Bounded : Progress → Type 0
  Bounded s = (k : String) → given s k ≤ bound k

  abbrev Unstarted : Progress → List NamedClusterPreferences → Type 0
  Unstarted s = All (λ p. given s p.cluster_name ≡ 0)

  distribute_one_modest :
      (d sum : ℕ) (p : NamedClusterPreferences) (t : Pass)
      → d ≤ sum
      → 0 < sum
      → IsModest p
      → given t.progress p.cluster_name ≡ 0
      → p.preferences.weight ≤ bound p.cluster_name
      → Bounded t.progress
      → Bounded (distribute_one [] [] d sum p t).progress
        × (length (distribute_one [] [] d sum p t).new_preferences ≡ length t.new_preferences + 1)
  unfolding distribute_one
  distribute_one_modest d sum p t le pos m start b bd =
      let most = round_most [] [] d sum p t.progress in
      let fits : most ≤ p.preferences.weight =
        omega
          (arith, start, share-le_weight d p.preferences.weight sum t.progress.remaining le pos) in
      let (whole, not_full) =
        cut_modest p.preferences.max_replicas p.preferences.weight most m.max_fits fits in
      (
        λ k.
            rw
              (given-insert p.cluster_name k (round_placed [] [] d sum p t.progress)
                t.progress.plan)
              (bound_if bound p.cluster_name k (round_placed [] [] d sum p t.progress)
                (given t.progress k) (omega arith) (bd k)),
        rw not_full (length-append t.new_preferences (p ∷ []) ∙ omega arith),
      )

  Unstarted-distribute_one :
      (d sum : ℕ) (p : NamedClusterPreferences) (t : Pass) (ps : List NamedClusterPreferences)
      → All (λ q. p.cluster_name ≢ q.cluster_name) ps
      → Unstarted t.progress ps
      → Unstarted (distribute_one [] [] d sum p t).progress ps
  unfolding distribute_one
  Unstarted-distribute_one d sum p t [] ne u = tt
  Unstarted-distribute_one d sum p t (q ∷ ps) ne u = (
    ap or_zero (
          lookup-insert_ne p.cluster_name q.cluster_name (round_placed [] [] d sum p t.progress)
            t.progress.plan ne.0)
        ∙ u.0,
    Unstarted-distribute_one d sum p t ps ne.1 u.1,
  )

  modest_pass :
      (d sum : ℕ) (ps : List NamedClusterPreferences) (t : Pass)
      → d ≤ sum
      → 0 < sum
      → DistinctNames ps
      → All IsModest ps
      → All (λ p. p.preferences.weight ≤ bound p.cluster_name) ps
      → Unstarted t.progress ps
      → Bounded t.progress
      → Bounded (distribute_pass [] [] d sum ps t).progress
        × (length (distribute_pass [] [] d sum ps t).new_preferences
            ≡ length t.new_preferences + length ps)
  unfolding distribute_pass
  modest_pass d sum [] t le pos dn m b u bd = (bd, omega arith)
  modest_pass d sum (p ∷ ps) t le pos dn m b u bd =
      let (bd', len) = distribute_one_modest d sum p t le pos m.0 u.0 b.0 bd in
      let (bd'', len') =
        modest_pass d sum ps (distribute_one [] [] d sum p t) le pos dn.1 m.1 b.1
          (Unstarted-distribute_one d sum p t ps dn.0 u.1) bd' in
      (bd'', omega (arith, len, len'))

  Blank-Unstarted : (s : Progress) (ps : List NamedClusterPreferences) → Blank s → Unstarted s ps
  Blank-Unstarted s [] b = tt
  Blank-Unstarted s (p ∷ ps) b = (b p.cluster_name, Blank-Unstarted s ps b)

  modest_rounds :
      (ps : List NamedClusterPreferences) (fuel : ℕ) (s : Progress)
      → s.remaining ≤ weight_sum ps
      → DistinctNames ps
      → All IsModest ps
      → All (λ p. p.preferences.weight ≤ bound p.cluster_name) ps
      → Blank s
      → Bounded
          (distribute_rounds [] []
            (suc fuel)
            (record { progress = s; modified = true; new_preferences = ps })).progress
        × ((distribute_rounds [] []
              (suc fuel)
              (record { progress = s; modified = true; new_preferences = ps })).progress.remaining
            ≡ 0)
  unfolding distribute_rounds
  modest_rounds ps fuel s le dn m b blank =
      let t : Pass = record { progress = s; modified = true; new_preferences = ps } in
      let next = one_round [] [] ps s in
      elim (Bool-cases (goes_on true ps s)) [
        | inl more ↦
            let pos = goes_on-weight t more in
            let (bd, len) =
              modest_pass s.remaining (weight_sum ps) ps
                (record { progress = s; modified = false; new_preferences = [] }) le pos dn m b
                (Blank-Unstarted s ps blank) (λ k. omega (arith, blank k)) in
            let left : next.progress.remaining ≡ 0 =
              one_round_kept [] [] ps t pos (len ∙ omega arith) in
            rw more (
              rw (distribute_rounds_done [] [] fuel next (nothing_left [] [] next left)) (bd, left))
        | inr done ↦ rw done (λ k. omega (arith, blank k), no_weight ps s le done)
      ]

  -- Nothing remains, and no cluster has more than its bound.
  pub modest_fill :
      (ps : List NamedClusterPreferences) (n : ℕ)
      → n ≤ weight_sum ps
      → DistinctNames ps
      → All IsModest ps
      → All (λ p. p.preferences.weight ≤ bound p.cluster_name) ps
      → Bounded (fill [] [] ps n).progress × ((fill [] [] ps n).progress.remaining ≡ 0)
  unfolding fill
  modest_fill ps n le dn m b =
      let s0 : Progress = record { remaining = n; plan = []; overflow = [] } in
      let (blank, same) = assign_minimums_none ps s0 m (λ k. refl) in
      modest_rounds ps (length ps) (assign_minimums [] [] ps s0) (omega (arith, same)) dn m b blank
