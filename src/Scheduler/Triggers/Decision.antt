-- ===== src/Scheduler/Triggers/Decision.antt =====
-- When the triggers ask for a new scheduling.
use kubeadmiral.Base.{
  ◌≡◌, ◌≢◌, ◌↔◌, refl, sym, ◌∙◌, String, Option, none, some, true, false, arith, inl, inr,
  Bool-cases, Option-cases, string_eq,
}
use kubeadmiral.Scheduler.Triggers.Stable.{
  AllKept, is_cluster_trigger_changed-false, Stable, compare_stable_triggers-Stable, Joined,
  is_cluster_joined-false,
}
use kubeadmiral.Scheduler.Triggers.{
  Triggers, RescheduleTrigger, ReschedulePolicy, Policy, compare_stable_triggers, decide_by_trigger,
  decide,
}

module _ (new_triggers old_triggers : Triggers) where
  -- Nothing that the policy's trigger minds has changed, and no taint.
  abbrev pub Unminded : RescheduleTrigger → Type 0
  Unminded t =
      (t.policy_content_changed ≡ true
        → new_triggers.policy_scheduling_content_hash ≡ old_triggers.policy_scheduling_content_hash)
      × (t.cluster_labels_changed ≡ true
          → AllKept new_triggers.cluster_labels_hashes old_triggers.cluster_labels_hashes)
      × AllKept new_triggers.cluster_taints_hashes old_triggers.cluster_taints_hashes
      × (t.cluster_api_resources_changed ≡ true
          → AllKept new_triggers.cluster_api_resource_types_hashes
              old_triggers.cluster_api_resource_types_hashes)
      × (t.cluster_joined ≡ true → ¬ Joined new_triggers.clusters old_triggers.clusters)

  abbrev pub UnmindedByTrigger : Option RescheduleTrigger → Type 0
  UnmindedByTrigger none = Unit
  UnmindedByTrigger (some t) = Unminded t

  -- Rescheduling is disabled or not asked for, or nothing that is minded has changed.
  abbrev pub UnmindedByPolicy : Option ReschedulePolicy → Type 0
  UnmindedByPolicy none = Unit
  UnmindedByPolicy (some rp) = rp.disable_rescheduling ≡ false → UnmindedByTrigger rp.trigger

  decide_by_trigger-Unminded :
      (text old : String) (t : RescheduleTrigger)
      → ((decide_by_trigger text old new_triggers old_triggers t).triggers_changed ≡ false)
        ↔ Unminded t
  unfolding decide_by_trigger
  decide_by_trigger-Unminded text old t = ground (
    arith,
    string_eq.reflects new_triggers.policy_scheduling_content_hash
        old_triggers.policy_scheduling_content_hash,
    is_cluster_trigger_changed-false new_triggers.cluster_labels_hashes
        old_triggers.cluster_labels_hashes,
    is_cluster_trigger_changed-false new_triggers.cluster_taints_hashes
        old_triggers.cluster_taints_hashes,
    is_cluster_trigger_changed-false new_triggers.cluster_api_resource_types_hashes
        old_triggers.cluster_api_resource_types_hashes,
    is_cluster_joined-false new_triggers.clusters old_triggers.clusters,
  )

  -- The triggers are unchanged exactly when two things hold. First, the hash of the scheduling
  -- annotations, the replica count, the resource request, the policy's name and the migration
  -- info are equal. Second, there is no policy of rescheduling, it is disabled, or it has no
  -- trigger, or else each old cluster has the taint hash that it had, and, each where the
  -- trigger minds it, the policy's content hash is what it was, each old cluster has its label
  -- hash and its resource type hash, and no cluster has joined while every old one is still
  -- there.
  pub decide-settled :
      (text old : String) (policy : Policy)
      → ((decide text old new_triggers old_triggers policy).triggers_changed ≡ false)
        ↔ (Stable new_triggers old_triggers × UnmindedByPolicy policy.reschedule_policy)
  unfolding decide
  decide-settled text old policy =
      elim (Bool-cases (compare_stable_triggers new_triggers old_triggers)) [
        | inl e ↦
            rw (decide, e)
              (
                λ h. absurd (true≢false h),
                λ h. absurd (
                    true≢false
                      (sym e ∙ (compare_stable_triggers-Stable new_triggers old_triggers).1 h.0)),
              )
        | inr e ↦
            let stable = (compare_stable_triggers-Stable new_triggers old_triggers).0 e in
            elim (Option-cases policy.reschedule_policy) [
              | inl f ↦ rw (decide, e, f) (λ h. (stable, tt), λ h. refl)
              | inr (rp, f) ↦ elim (Bool-cases rp.disable_rescheduling) [
                | inl g ↦
                    rw (decide, e, f, g) (λ h. (stable, λ k. absurd (true≢false k)), λ h. refl)
                | inr g ↦ elim (Option-cases rp.trigger) [
                  | inl none_set ↦
                      rw (decide, e, f, g, none_set) (λ h. (stable, λ k. tt), λ h. refl)
                  | inr (t, set) ↦
                      let by_trigger = decide_by_trigger-Unminded text old t in
                      rw (decide, e, f, g, set)
                        (λ h. (stable, λ k. by_trigger.0 h), λ h. by_trigger.1 (h.1 refl))
                ]
              ]
            ]
      ]
    where
      true≢false : true ≢ false
      true≢false h = cc
