-- ===== src/Scheduler/Triggers/Settled.antt =====
-- What computing the annotations again finds, once they were computed and written.
use kubeadmiral.Base.{
  ◌≡◌, ◌≢◌, refl, sym, ap, ◌∙◌, String, Option, none, some, true, false, [], ◌∷◌, ◌||◌, not, inl,
  inr, Bool-cases, Option-cases, if◌then◌else◌, ◌==◌, string_eq, arith,
}
use kubeadmiral.Base.Assoc.{Map, lookup}
use kubeadmiral.Util.Annotation.{annotations_of}
use kubeadmiral.Util.Annotation.Lookup.{
  add_annotation-lookup, add_annotation-other, remove_annotation-other, add_annotation-answers,
  add_annotation-present,
}
use kubeadmiral.Scheduler.Triggers.{
  Triggers, RescheduleTrigger, Policy, Computed, scheduling_triggers_annotation,
  scheduling_deferred_reasons_annotation, decide_by_trigger, decide, compare_stable_triggers,
  compute_from, compute_scheduling_annotations, update_scheduling_annotations,
}

-- Either the new text is to be written, or the old one is and nothing changed.
abbrev KeptOr : String → String → Computed → Type 0
KeptOr text old c = c.triggers ≡ (if c.triggers_changed then text else old)

none≢some : {a : String} → none ≢ some a
none≢some h = cc

false≢true : false ≢ true
false≢true h = cc

module _ (text old : String) (new_triggers old_triggers : Triggers) where
  decide_by_trigger-kept :
      (t : RescheduleTrigger)
      → KeptOr text old (decide_by_trigger text old new_triggers old_triggers t)
  unfolding decide_by_trigger
  decide_by_trigger-kept t = ground arith

  decide-kept :
      (policy : Policy) → KeptOr text old (decide text old new_triggers old_triggers policy)
  unfolding decide
  decide-kept policy = elim (Bool-cases (compare_stable_triggers new_triggers old_triggers)) [
    | inl e ↦ rw (decide, e) refl
    | inr e ↦ elim (Option-cases policy.reschedule_policy) [
      | inl f ↦ rw (decide, e, f) refl
      | inr (rp, f) ↦ elim (Bool-cases rp.disable_rescheduling) [
        | inl g ↦ rw (decide, e, f, g) refl
        | inr g ↦ elim (Option-cases rp.trigger) [
          | inl h ↦ rw (decide, e, f, g, h) refl
          | inr (t, h) ↦ rw (decide, e, f, g, h) (decide_by_trigger-kept t)
        ]
      ]
    ]
  ]

update-lookup :
    (annotations : Map String String) (triggers deferred : String)
    → lookup scheduling_triggers_annotation
        (annotations_of (update_scheduling_annotations triggers deferred (some annotations)).0)
      ≡ some triggers
unfolding update_scheduling_annotations
update-lookup annotations triggers deferred =
    let a = add_annotation-answers annotations scheduling_triggers_annotation triggers refl in
    let p = add_annotation-present annotations scheduling_triggers_annotation triggers in
    let l = add_annotation-lookup annotations scheduling_triggers_annotation triggers refl in
    elim (Bool-cases (deferred == "")) [
      | inl e ↦
          rw (update_scheduling_annotations, a.1, e, p)
            (remove_annotation-other _ scheduling_deferred_reasons_annotation
                scheduling_triggers_annotation refl
              ∙ l)
      | inr e ↦
          rw (update_scheduling_annotations, a.1, e, p)
            (add_annotation-other _ scheduling_deferred_reasons_annotation
                scheduling_triggers_annotation deferred refl
              ∙ l)
    ]

module _ (marshal : Triggers → String) (unmarshal : String → Option Triggers) where
  same_or_new : (old text : String) → text ≡ (if not (old == text) then text else old)
  same_or_new old text = ground (arith, string_eq.reflects old text)

  compute_from-kept :
      (new_triggers : Triggers) (old : String) (policy : Option Policy)
      → KeptOr (marshal new_triggers) old (compute_from marshal unmarshal new_triggers old policy)
  unfolding compute_from
  compute_from-kept new_triggers old none = same_or_new old (marshal new_triggers)
  compute_from-kept new_triggers old (some policy) =
      elim (Bool-cases (old == "" || old == marshal new_triggers)) [
        | inl e ↦ rw (compute_from, e) (same_or_new old (marshal new_triggers))
        | inr e ↦ elim (Option-cases (unmarshal old)) [
          | inl f ↦ rw (compute_from, e, f) refl
          | inr (old_triggers, f) ↦
              rw (compute_from, e, f)
                (decide-kept (marshal new_triggers) old new_triggers old_triggers policy)
        ]
      ]

  -- What stands in the annotation, "" where nothing does.
  abbrev or_empty : Option String → String
  or_empty none = ""
  or_empty (some s) = s

  compute-kept :
      (new_triggers : Triggers) (annotations : Map String String) (policy : Option Policy)
      → KeptOr
          (marshal new_triggers)
          (or_empty (lookup scheduling_triggers_annotation annotations))
          (compute_scheduling_annotations marshal unmarshal new_triggers annotations policy)
  unfolding compute_scheduling_annotations
  compute-kept new_triggers [] policy = refl
  compute-kept new_triggers (a ∷ more) policy =
      elim (Option-cases (lookup scheduling_triggers_annotation (a ∷ more))) [
        | inl e ↦ rw (compute_scheduling_annotations, e) (same_or_new "" (marshal new_triggers))
        | inr (old, e) ↦
            rw (compute_scheduling_annotations, e) (compute_from-kept new_triggers old policy)
      ]

  -- With a text in the annotation, only that text is read.
  compute_some :
      (new_triggers : Triggers) (annotations : Map String String) (policy : Option Policy)
      (old : String)
      → lookup scheduling_triggers_annotation annotations ≡ some old
      → compute_scheduling_annotations marshal unmarshal new_triggers annotations policy
        ≡ compute_from marshal unmarshal new_triggers old policy
  unfolding compute_scheduling_annotations
  compute_some new_triggers [] policy old e = absurd (none≢some e)
  compute_some new_triggers (a ∷ more) policy old e = rw (compute_scheduling_annotations, e) refl

  compute_none :
      (new_triggers : Triggers) (annotations : Map String String) (policy : Option Policy)
      → lookup scheduling_triggers_annotation annotations ≡ none
      → (compute_scheduling_annotations marshal unmarshal new_triggers annotations policy).triggers
        ≡ marshal new_triggers
  unfolding compute_scheduling_annotations
  compute_none new_triggers [] policy e = refl
  compute_none new_triggers (a ∷ more) policy e = rw (compute_scheduling_annotations, e) refl

  compute_from-fresh :
      (new_triggers : Triggers) (policy : Option Policy)
      → (compute_from marshal unmarshal new_triggers (marshal new_triggers) policy).triggers_changed
        ≡ false
  unfolding compute_from
  compute_from-fresh new_triggers none =
      ground (arith, string_eq.reflects (marshal new_triggers) (marshal new_triggers))
  compute_from-fresh new_triggers (some policy) = rw (compute_from, same) (ground (arith, same))
    where
      same : marshal new_triggers == marshal new_triggers ≡ true
      same = (string_eq.reflects (marshal new_triggers) (marshal new_triggers)).1 refl

  -- Once the scheduling annotations are computed and written into the object, computing them
  -- again with the same triggers and policy finds no trigger changed.
  pub update_scheduling_annotations-settled :
      (new_triggers : Triggers) (annotations : Map String String) (policy : Option Policy)
      → (compute_scheduling_annotations marshal unmarshal new_triggers
          (annotations_of
            (update_scheduling_annotations
              (compute_scheduling_annotations marshal unmarshal new_triggers annotations
                policy).triggers
              (compute_scheduling_annotations marshal unmarshal new_triggers annotations
                policy).deferred_reasons
              (some annotations)).0)
          policy).triggers_changed
        ≡ false
  update_scheduling_annotations-settled new_triggers annotations policy =
      ap (λ x. x.triggers_changed)
        (compute_some new_triggers
          (annotations_of
            (update_scheduling_annotations c.triggers c.deferred_reasons (some annotations)).0)
          policy c.triggers (update-lookup annotations c.triggers c.deferred_reasons))
      ∙ elim (Bool-cases c.triggers_changed) [
        | inl e ↦ fresh (rw e at kept)
        | inr e ↦ elim (Option-cases (lookup scheduling_triggers_annotation annotations)) [
          | inl f ↦ fresh (compute_none new_triggers annotations policy f)
          | inr (old, f) ↦
              ap (λ t. (compute_from marshal unmarshal new_triggers t policy).triggers_changed)
                (rw (e, f) at kept)
              ∙ ap (λ x. x.triggers_changed)
                  (sym (compute_some new_triggers annotations policy old f))
              ∙ e
        ]
      ]
    where
      c : Computed
      c = compute_scheduling_annotations marshal unmarshal new_triggers annotations policy

      kept :
          KeptOr
            (marshal new_triggers)
            (or_empty (lookup scheduling_triggers_annotation annotations))
            c
      kept = compute-kept new_triggers annotations policy

      fresh :
          c.triggers ≡ marshal new_triggers
          → (compute_from marshal unmarshal new_triggers c.triggers policy).triggers_changed ≡ false
      fresh h = rw h (compute_from-fresh new_triggers policy)
