-- ===== src/Planner/Desired/Steps.antt =====
-- What one body of the two loops of `getDesiredPlan` does.
use kubeadmiral.Base.{
  ℕ, ap, ◌+◌, ◌*◌, ◌≤◌, ◌<◌, ◌≡◌, true, ◌⊎◌, inl, inr, String, Option, none, some, false, List, [],
  ◌∷◌, arith, string_eq, All, All-append, Bool-cases,
}
use kubeadmiral.Base.Assoc.{Map, lookup, or_zero, total, total-insert}
use kubeadmiral.Planner.Preferences.{NamedClusterPreferences}
use kubeadmiral.Planner.Desired.{
  min_int64, cut, is_full, share, Progress, Pass, assign_minimum, goes_on, weight_sum,
  distribute_one, distribute_pass,
}

pub cut-le : (max limited estimated : Option ℕ) (n : ℕ) → cut max limited estimated n ≤ n
unfolding cut
cut-le max limited estimated n = ground arith

-- What is cut to an absent or a present limit lies within it.
abbrev pub Within : Option ℕ → ℕ → Type 0
Within none n = Unit
Within (some c) n = n ≤ c

pub cut-Within :
    (max limited estimated : Option ℕ) (n : ℕ)
    → Within max (cut max limited estimated n)
      × Within limited (cut max limited estimated n)
      × Within estimated (cut max limited estimated n)
unfolding cut
cut-Within none none none n = ground arith
cut-Within none none (some e) n = ground arith
cut-Within none (some l) none n = ground arith
cut-Within none (some l) (some e) n = ground arith
cut-Within (some m) none none n = ground arith
cut-Within (some m) none (some e) n = ground arith
cut-Within (some m) (some l) none n = ground arith
cut-Within (some m) (some l) (some e) n = ground arith

pub cut_not_full :
    (max limited estimated : Option ℕ) (n : ℕ)
    → is_full max limited estimated n ≡ false
    → cut max limited estimated n ≡ n
unfolding cut is_full
cut_not_full max limited estimated n h = ground arith

pub share-le : (d w sum r : ℕ) → share d w sum r ≤ r
unfolding share
share-le d w sum r = ground arith

-- Rounding up gives a cluster at least its part, unless it takes all that remains.
pub share_enough :
    (d w sum r : ℕ) → 0 < sum → (d * w ≤ share d w sum r * sum) ⊎ (share d w sum r ≡ r)
unfolding share
share_enough d w sum r h = ground arith

pub min_int64-le : (a b : ℕ) → min_int64 a b ≤ b
min_int64-le a b = ground arith

pub min_int64-le_left : (a b : ℕ) → min_int64 a b ≤ a
min_int64-le_left a b = ground arith

pub goes_on-remaining :
    (t : Pass) → goes_on t.modified t.new_preferences t.progress ≡ true → 0 < t.progress.remaining
goes_on-remaining t h = ground arith

pub goes_on-weight :
    (t : Pass)
    → goes_on t.modified t.new_preferences t.progress ≡ true
    → 0 < weight_sum t.new_preferences
goes_on-weight t h = ground arith

module _ (estimated limited : Map String ℕ) where
  -- What `assignMinimum` and `distributeOne` write into the plan.
  abbrev pub minimum_placed : NamedClusterPreferences → Progress → ℕ
  minimum_placed p s =
      cut none (lookup p.cluster_name limited) (lookup p.cluster_name estimated)
        (min_int64 p.preferences.min_replicas s.remaining)

  abbrev pub start_of : NamedClusterPreferences → Progress → ℕ
  start_of p s = or_zero (lookup p.cluster_name s.plan)

  abbrev pub round_most : (d sum : ℕ) → NamedClusterPreferences → Progress → ℕ
  round_most d sum p s = start_of p s + share d p.preferences.weight sum s.remaining

  abbrev pub round_placed : (d sum : ℕ) → NamedClusterPreferences → Progress → ℕ
  round_placed d sum p s =
      cut p.preferences.max_replicas (lookup p.cluster_name limited)
        (lookup p.cluster_name estimated) (round_most d sum p s)

  pub assign_minimum-total :
      (p : NamedClusterPreferences) (s : Progress)
      → lookup p.cluster_name s.plan ≡ none
      → (assign_minimum estimated limited p s).remaining
          + total (assign_minimum estimated limited p s).plan
        ≡ s.remaining + total s.plan
  unfolding assign_minimum
  assign_minimum-total p s h = omega (
    arith,
    total-insert p.cluster_name (minimum_placed p s) s.plan,
    ap or_zero h,
    cut-le none (lookup p.cluster_name limited) (lookup p.cluster_name estimated)
        (min_int64 p.preferences.min_replicas s.remaining),
    min_int64-le p.preferences.min_replicas s.remaining,
  )

  pub distribute_one-total :
      (d sum : ℕ) (p : NamedClusterPreferences) (t : Pass)
      → (distribute_one estimated limited d sum p t).progress.remaining
          + total (distribute_one estimated limited d sum p t).progress.plan
        ≡ t.progress.remaining + total t.progress.plan
  unfolding distribute_one
  distribute_one-total d sum p t =
      let s = t.progress in
      omega (
        arith,
        total-insert p.cluster_name (round_placed d sum p s) s.plan,
        cut-le p.preferences.max_replicas (lookup p.cluster_name limited)
            (lookup p.cluster_name estimated) (round_most d sum p s),
        share-le d p.preferences.weight sum s.remaining,
      )

  -- A pass keeps only preferences that it was handed.
  distribute_one-All :
      (P : NamedClusterPreferences → Type 0) (d sum : ℕ) (p : NamedClusterPreferences) (t : Pass)
      → P p
      → All P t.new_preferences
      → All P (distribute_one estimated limited d sum p t).new_preferences
  unfolding distribute_one
  distribute_one-All P d sum p t h k =
      elim (Bool-cases (
        is_full p.preferences.max_replicas (lookup p.cluster_name limited)
          (lookup p.cluster_name estimated) (round_most d sum p t.progress))) [
            | inl e ↦ rw e k
            | inr e ↦ rw e (All-append P t.new_preferences (p ∷ []) k (h, tt))
          ]

  pub distribute_pass-All :
      (P : NamedClusterPreferences → Type 0) (d sum : ℕ) (ps : List NamedClusterPreferences)
      (t : Pass)
      → All P ps
      → All P t.new_preferences
      → All P (distribute_pass estimated limited d sum ps t).new_preferences
  unfolding distribute_pass
  distribute_pass-All P d sum [] t h k = k
  distribute_pass-All P d sum (p ∷ ps) t h k =
      distribute_pass-All P d sum ps (distribute_one estimated limited d sum p t) h.1
        (distribute_one-All P d sum p t h.0 k)
