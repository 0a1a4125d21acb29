-- ===== src/Planner/Desired/Rounds.antt =====
-- The outer loop of `getDesiredPlan` ends: a pass that drops no preference leaves no replica.
use native.Mathlib.Decide.{dec_lt}
use kubeadmiral.Base.{
  ap, ℕ, zero, suc, ◌+◌, ◌-◌, ◌*◌, ◌≤◌, ◌<◌, ◌≡◌, refl, ◌∙◌, ◌⊎◌, inl, inr, String, List, [], ◌∷◌,
  false, arith, string_eq, Bool-cases, length, length-append,
}
use kubeadmiral.Base.Assoc.{Map, lookup}
use kubeadmiral.Planner.Preferences.{NamedClusterPreferences}
use kubeadmiral.Planner.Desired.{
  Pass, is_full, share, weight_sum, distribute_one, distribute_pass, one_round, goes_on,
  distribute_rounds, fill,
}
use kubeadmiral.Planner.Desired.Steps.{
  cut_not_full, goes_on-weight, share-le, share_enough, round_most,
}

zero_of_mul : (m n k : ℕ) → 0 < n → k + m * n ≤ k → m ≡ 0
zero_of_mul zero n k h le = refl
zero_of_mul (suc m) n k h le = absurd (omega arith)

-- What is left after a part that makes up for the weight.
mul_part : (c a m r sum : ℕ) → c ≤ a * sum → a ≤ r → m ≡ r - a → c + m * sum ≤ r * sum
mul_part c a m r sum h le e =
    let e' : m + a ≡ r = omega arith in omega (arith, ap (λ (x : ℕ). x * sum) e')

-- The arithmetic of the induction below: the remainders before, after one preference, and after all.
pass_kept_step :
    (d w ws sum r mid res kept kept_mid kept_res n : ℕ)
    → 0 < sum
    → kept_res ≡ kept + suc n
    → (kept_mid ≡ kept) ⊎ (kept_mid ≡ kept + 1) × (mid ≡ r - share d w sum r)
    → kept_res ≤ kept_mid + n
    → (kept_res ≡ kept_mid + n → (res ≡ 0) ⊎ (d * ws + res * sum ≤ mid * sum))
    → (res ≡ 0) ⊎ (d * (w + ws) + res * sum ≤ r * sum)
pass_kept_step d w ws sum r mid res kept kept_mid kept_res n pos e one le ih = elim one [
  | inl same ↦ absurd (omega arith)
  | inr (longer, taken) ↦ elim (ih (omega arith)) [
    | inl none_left ↦ inl none_left
    | inr part ↦ elim (share_enough d w sum r pos) [
      | inl enough ↦ inr (
          omega (
            arith,
            part,
            mul_part (d * w) (share d w sum r) mid r sum enough (share-le d w sum r) taken,
          ))
      | inr last ↦
          let gone : mid ≡ 0 = omega arith in
          inl (zero_of_mul res sum 0 pos (omega (arith, part, ap (λ (x : ℕ). x * sum) gone)))
    ]
  ]
]

module _ (estimated limited : Map String ℕ) where
  distribute_one_kept :
      (d sum : ℕ) (p : NamedClusterPreferences) (t : Pass)
      → (length (distribute_one estimated limited d sum p t).new_preferences
          ≡ length t.new_preferences)
        ⊎ (length (distribute_one estimated limited d sum p t).new_preferences
            ≡ length t.new_preferences + 1)
          × ((distribute_one estimated limited d sum p t).progress.remaining
              ≡ t.progress.remaining - share d p.preferences.weight sum t.progress.remaining)
  unfolding distribute_one
  distribute_one_kept d sum p t =
      let max = p.preferences.max_replicas in
      let lim = lookup p.cluster_name limited in
      let est = lookup p.cluster_name estimated in
      let most = round_most estimated limited d sum p t.progress in
      elim (Bool-cases (is_full max lim est most)) [
        | inl e ↦ inl (rw e)
        | inr e ↦ inr (
          rw e (length-append t.new_preferences (p ∷ []) ∙ omega arith),
          omega (
            arith,
            cut_not_full max lim est most e,
            share-le d p.preferences.weight sum t.progress.remaining,
          ),
        )
      ]

  length-distribute_pass :
      (d sum : ℕ) (ps : List NamedClusterPreferences) (t : Pass)
      → length (distribute_pass estimated limited d sum ps t).new_preferences
        ≤ length t.new_preferences + length ps
  unfolding distribute_pass
  length-distribute_pass d sum [] t = omega arith
  length-distribute_pass d sum (p ∷ ps) t =
      let mid = distribute_one estimated limited d sum p t in
      omega (arith, length-distribute_pass d sum ps mid, distribute_one_kept d sum p t)

  -- With every preference kept, what was given out makes up for the weights.
  pass_kept :
      (d sum : ℕ) (ps : List NamedClusterPreferences) (t : Pass)
      → 0 < sum
      → length (distribute_pass estimated limited d sum ps t).new_preferences
        ≡ length t.new_preferences + length ps
      → ((distribute_pass estimated limited d sum ps t).progress.remaining ≡ 0)
        ⊎ (d * weight_sum ps
              + (distribute_pass estimated limited d sum ps t).progress.remaining * sum
            ≤ t.progress.remaining * sum)
  unfolding distribute_pass
  pass_kept d sum [] t pos h = inr (omega arith)
  pass_kept d sum (p ∷ ps) t pos h =
      let mid = distribute_one estimated limited d sum p t in
      let res = distribute_pass estimated limited d sum ps mid in
      pass_kept_step d p.preferences.weight (weight_sum ps) sum t.progress.remaining
        mid.progress.remaining res.progress.remaining (length t.new_preferences)
        (length mid.new_preferences) (length res.new_preferences) (length ps) pos h
        (distribute_one_kept d sum p t) (length-distribute_pass d sum ps mid)
        (pass_kept d sum ps mid pos)

  -- A pass that drops nothing distributes everything.
  pub one_round_kept :
      (ps : List NamedClusterPreferences) (t : Pass)
      → 0 < weight_sum ps
      → length (one_round estimated limited ps t.progress).new_preferences ≡ length ps
      → (one_round estimated limited ps t.progress).progress.remaining ≡ 0
  one_round_kept ps t pos h =
      elim (pass_kept t.progress.remaining (weight_sum ps) ps
        (record { progress = t.progress; modified = false; new_preferences = [] }) pos
        (h ∙ omega arith)) [
          | inl z ↦ z
          | inr le ↦ zero_of_mul _ (weight_sum ps) (t.progress.remaining * weight_sum ps) pos le
        ]

  length-one_round :
      (ps : List NamedClusterPreferences) (t : Pass)
      → length (one_round estimated limited ps t.progress).new_preferences ≤ length ps
  length-one_round ps t = omega (
    arith,
    length-distribute_pass t.progress.remaining (weight_sum ps) ps
        (record { progress = t.progress; modified = false; new_preferences = [] }),
  )

  pub distribute_rounds_done :
      (fuel : ℕ) (t : Pass)
      → goes_on t.modified t.new_preferences t.progress ≡ false
      → distribute_rounds estimated limited fuel t ≡ t
  unfolding distribute_rounds
  distribute_rounds_done zero t h = refl
  distribute_rounds_done (suc fuel) t h = rw h

  abbrev pub Ended : Pass → Type 0
  Ended t = goes_on t.modified t.new_preferences t.progress ≡ false

  pub nothing_left : (t : Pass) → t.progress.remaining ≡ 0 → Ended t
  nothing_left t h = ground arith

  distribute_rounds-Ended :
      (fuel : ℕ) (t : Pass)
      → length t.new_preferences < fuel
      → Ended (distribute_rounds estimated limited fuel t)
  unfolding distribute_rounds
  distribute_rounds-Ended zero t h = elim h [ ]
  distribute_rounds-Ended (suc fuel) t h =
      let next = one_round estimated limited t.new_preferences t.progress in
      elim (Bool-cases (goes_on t.modified t.new_preferences t.progress)) [
        | inr done ↦ rw done done
        | inl more ↦ rw more (elim (dec_lt (length next.new_preferences) fuel) [
          | yes shorter ↦ distribute_rounds-Ended fuel next shorter
          | no same ↦
              let done = nothing_left next (
                one_round_kept t.new_preferences t (goes_on-weight t more)
                  (omega (arith, length-one_round t.new_preferences t))) in
              rw (distribute_rounds_done fuel next done) done
        ])
      ]

  -- The passes that `fill` allows for are enough: the distribution loop stops by its own test.
  pub fill-Ended : (ps : List NamedClusterPreferences) (n : ℕ) → Ended (fill estimated limited ps n)
  unfolding fill
  fill-Ended ps n = distribute_rounds-Ended (suc (length ps)) _ (omega arith)
