-- ===== src/PolicyCount/Counter.antt =====
-- pkg/controllers/policyrc/counter.go: how many objects refer to each policy. A method holds the lock
-- for all that touches the maps, so it is one step; `flagPolicyNeedUpdate` is called after it, with
-- the policies that the step returns.
pub mod References
use kubeadmiral.Base.{
  ℕ, zero, suc, ◌+◌, Option, none, some, Bool, true, false, List, [], ◌∷◌, ◌++◌, length, ltb, map,
  if◌then◌else◌,
}
use kubeadmiral.Base.Equality.{Comparable}
use kubeadmiral.Base.Assoc.{Map, lookup, insert, erase, or_zero}
use kubeadmiral.Base.Sets.{or_nil}
use kubeadmiral.Base.Chain.{◌>>=◌}

pub record Counter (O P : Type 0) : Type 0 where
  pub known_policies : Map O (List P)
  pub policy_counts : Map P ℕ

module _ {O P : Type 0} ⦃eo : Comparable O⦄ ⦃ep : Comparable P⦄ where
  abbrev pub new_counter : Counter O P
  new_counter = record { known_policies = []; policy_counts = [] }

  -- `if len(newPolicies) > 0 { … } else { delete(…) }`
  unfoldable pub remember : O → List P → Map O (List P) → Map O (List P)
  remember object [] known = erase object known
  remember object (p ∷ ps) known = insert object (p ∷ ps) known

module _ {P : Type 0} ⦃ep : Comparable P⦄ where
  -- The first loop of `Update`: `none` is its panic, at a count below zero.
  unfoldable pub decrease : List P → Map P ℕ → Option (Map P ℕ)
  decrease [] counts = some counts
  decrease (p ∷ ps) counts = elim (or_zero (lookup p counts)) [
    | zero ↦ none
    | suc n ↦ decrease ps (insert p n counts)
  ]

  -- The second loop.
  unfoldable pub increase : List P → Map P ℕ → Map P ℕ
  increase [] counts = counts
  increase (p ∷ ps) counts = increase ps (insert p (or_zero (lookup p counts) + 1) counts)

  unfoldable pub get_policy_counts : {O : Type 0} → List P → Counter O P → List ℕ
  get_policy_counts keys c = map (λ key. or_zero (lookup key c.policy_counts)) keys

module _ {O P : Type 0} ⦃eo : Comparable O⦄ ⦃ep : Comparable P⦄ where
  -- `Update`: the counter after it, and the flagged policies.
  unfoldable pub update_counter : O → List P → Counter O P → Option (Counter O P × List P)
  update_counter object new_policies c =
      let previous_policies = or_nil (lookup object c.known_policies) in
      decrease previous_policies c.policy_counts >>= λ counts. some (
        record {
          known_policies = remember object new_policies c.known_policies;
          policy_counts = increase new_policies counts;
        },
        previous_policies ++ new_policies,
      )
