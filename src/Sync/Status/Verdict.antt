-- ===== src/Sync/Status/Verdict.antt =====
-- What the condition Propagated says after `update`.
use kubeadmiral.Base.{
  ◌≡◌, ◌≢◌, ◌↔◌, refl, sym, ◌∙◌, ℕ, String, Option, none, some, Bool, true, false, List, [], ◌∷◌,
  not, any, ◌==◌, string_eq, arith, inl, inr, Bool-cases, All, if◌then◌else◌,
}
use kubeadmiral.Base.Assoc.{Map}
use kubeadmiral.Sync.Status.{
  Condition, ObjectStatus, Collected, propagated, touch, set_condition, new_status_of, final_reason,
  update, aggregate_success, cluster_propagation_ok, check_clusters,
}
use kubeadmiral.Sync.Status.Outcome.{touch-Says}

-- The condition of the type Propagated that a reader finds.
abbrev pub find_propagated : List Condition → Option Condition
find_propagated [] = none
find_propagated (c ∷ cs) = if c.kind == propagated then some c else find_propagated cs

set_condition-find :
    (now : ℕ) (st r : String) (ch : Bool) (cs : List Condition)
    → (c : Condition) × (find_propagated (set_condition now st r ch cs).0 ≡ some c)
      × (c.status ≡ st)
unfolding set_condition
set_condition-find now st r ch [] = (_, refl, refl)
set_condition-find now st r ch (c ∷ cs) = elim (Bool-cases (c.kind == propagated)) [
  | inl e ↦
      let says = touch-Says st r now ch c in
      ((touch now st r ch c).0, rw (set_condition, e, says.1, e) refl, says.0.0)
  | inr e ↦ let (d, f, g) = set_condition-find now st r ch cs in (d, rw (set_condition, e, e) f, g)
]

any-ok :
    (m : Map String String)
    → (any (λ x. not (x.1 == cluster_propagation_ok)) m ≡ false)
      ↔ All (λ x. x.1 ≡ cluster_propagation_ok) m
any-ok [] = (λ h. tt, λ h. refl)
any-ok ((k, v) ∷ m) = ground (arith, any-ok m, string_eq.reflects v cluster_propagation_ok)

verdict :
    (reason : String) (m : Map String String)
    → (new_status_of (final_reason reason m) ≡ "True")
      ↔ (reason ≡ aggregate_success) × All (λ x. x.1 ≡ cluster_propagation_ok) m
unfolding final_reason
verdict reason m = elim (Bool-cases (reason == aggregate_success)) [
  | inl e ↦ elim (Bool-cases (any (λ x. not (x.1 == cluster_propagation_ok)) m)) [
    | inl f ↦
        rw (final_reason, e, f)
          (λ h. absurd (False≢True h), λ h. absurd (true≢false (sym f ∙ (any-ok m).1 h.1)))
    | inr f ↦
        rw (final_reason, e, f, e)
          (λ h. ((string_eq.reflects reason aggregate_success).0 e, (any-ok m).0 f), λ h. refl)
  ]
  | inr e ↦
      rw (final_reason, e, e)
        (
          λ h. absurd (False≢True h),
          λ h. absurd (true≢false (sym ((string_eq.reflects reason aggregate_success).1 h.0) ∙ e)),
        )
]
  where
    true≢false : true ≢ false
    true≢false h = cc

    False≢True : new_status_of check_clusters ≢ new_status_of aggregate_success
    False≢True h = ground (arith, h, string_eq.reflects "False" "True")

-- After `update` a reader finds a condition of the type Propagated, and its status is True
-- exactly when the reason is success and the status of each collected cluster is OK.
pub update-verdict :
    (now : ℕ) (s : ObjectStatus) (generation : ℕ) (reason : String) (collected : Collected)
    → (c : Condition) × (find_propagated (update now s generation reason collected).0.conditions
        ≡ some c)
      × ((c.status ≡ "True")
          ↔ (reason ≡ aggregate_success)
            × All (λ x. x.1 ≡ cluster_propagation_ok) collected.status_map)
unfolding update
update-verdict now s generation reason collected =
    let r = final_reason reason collected.status_map in
    let (c, found, says) = set_condition-find now (new_status_of r) r _ s.conditions in
    let v = verdict reason collected.status_map in
    (c, found, (λ h. v.0 (sym says ∙ h), λ h. says ∙ v.1 h))
