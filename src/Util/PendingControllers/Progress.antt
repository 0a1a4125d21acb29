-- ===== src/Util/PendingControllers/Progress.antt =====
-- What the annotation holds after it is set and updated.
use kubeadmiral.Base.{
  ◌≡◌, ◌≢◌, refl, sym, ap, ◌∙◌, String, Option, none, some, Bool, true, false, List, [], ◌∷◌,
  string_eq, if◌then◌else◌, inl, inr, Option-cases,
}
use kubeadmiral.Base.Chain.{some_eq}
use kubeadmiral.Base.Assoc.{Map, lookup}
use kubeadmiral.Util.Annotation.{annotations_of, Object, Answer}
use kubeadmiral.Util.Annotation.Lookup.{add_annotation-lookup}
use kubeadmiral.Util.PendingControllers.{
  PendingControllers, pending_controllers_annotation, normalize_controllers,
  get_downstream_controllers, remove_controller, next_controllers, get_pending_controllers,
  set_pending_controllers, update_pending_controllers,
}

false≢true : false ≢ true
false≢true h = cc

nil≢cons {ℓ} : {A : Type ℓ} {x : A} {xs : List A} → [] ≢ x ∷ xs
nil≢cons h = cc

cons_eq {ℓ} : {A : Type ℓ} {x y : A} {xs ys : List A} → x ∷ xs ≡ y ∷ ys → xs ≡ ys
cons_eq h = cc

none≢some {ℓ} : {A : Type ℓ} {a : A} → none ≢ some a
none≢some h = cc

-- Normalizing twice is normalizing once.
pub normalize-normalize :
    (cs : PendingControllers)
    → normalize_controllers (normalize_controllers cs) ≡ normalize_controllers cs
unfolding normalize_controllers
normalize-normalize [] = refl
normalize-normalize ([] ∷ rest) = normalize-normalize rest
normalize-normalize ((c ∷ inner) ∷ rest) = ap (λ t. (c ∷ inner) ∷ t) (normalize-normalize rest)

module _ (marshal : PendingControllers → String)
    (unmarshal : String → Option PendingControllers) where
  -- What is marshalled is what is unmarshalled.
  abbrev pub RoundTrips : PendingControllers → Type 0
  RoundTrips cs = unmarshal (marshal cs) ≡ some cs

  -- The controllers that are set are read back without their empty groups, if the encoding
  -- round-trips on them.
  pub set_pending_controllers-get :
      (annotations : Map String String) (controllers : PendingControllers)
      → RoundTrips (normalize_controllers controllers)
      → get_pending_controllers marshal unmarshal
          (set_pending_controllers marshal unmarshal (some annotations) controllers).0
        ≡ some (normalize_controllers controllers)
  unfolding get_pending_controllers set_pending_controllers
  set_pending_controllers-get annotations controllers round_trip =
      rw
        (
          get_pending_controllers,
          add_annotation-lookup annotations pending_controllers_annotation
              (marshal (normalize_controllers controllers)) refl,
          round_trip,
        )
        (ap some (normalize-normalize controllers))

-- The pending groups once a group has become this: a group that is empty is done.
abbrev pub after : List String → PendingControllers → PendingControllers
after [] groups = groups
after (c ∷ cs) groups = (c ∷ cs) ∷ groups

pub normalize-after :
    (group : List String) (groups : PendingControllers)
    → normalize_controllers (group ∷ groups) ≡ after group (normalize_controllers groups)
unfolding normalize_controllers
normalize-after [] groups = refl
normalize-after (c ∷ cs) groups = refl

normalized-rest :
    (group : List String) (groups : PendingControllers) (cs : PendingControllers)
    → normalize_controllers cs ≡ group ∷ groups
    → normalize_controllers groups ≡ groups
unfolding normalize_controllers
normalized-rest group groups [] h = absurd (nil≢cons h)
normalized-rest group groups ([] ∷ cs) h = normalized-rest group groups cs h
normalized-rest group groups ((c ∷ inner) ∷ cs) h =
    ap normalize_controllers (sym (cons_eq h)) ∙ normalize-normalize cs ∙ cons_eq h

module _ (marshal : PendingControllers → String)
    (unmarshal : String → Option PendingControllers) where
  pub get-normalized :
      (object : Object) (group : List String) (groups : PendingControllers)
      → get_pending_controllers marshal unmarshal object ≡ some (group ∷ groups)
      → normalize_controllers groups ≡ groups
  unfolding get_pending_controllers
  get-normalized object group groups h =
      elim (Option-cases (lookup pending_controllers_annotation (annotations_of object))) [
        | inl e ↦ absurd (none≢some (rw (get_pending_controllers, e) at h))
        | inr (value, e) ↦ elim (Option-cases (unmarshal value)) [
          | inl f ↦ absurd (none≢some (rw (get_pending_controllers, e, f) at h))
          | inr (cs, f) ↦
              normalized-rest group groups cs (some_eq (rw (get_pending_controllers, e, f) at h))
        ]
      ]

  -- The groups that are written, in the code's own terms.
  pub update_pending_controllers-next :
      (annotations : Map String String) (group : List String) (groups : PendingControllers)
      (controller : String) (downstream : Bool) (all_controllers : PendingControllers)
      → get_pending_controllers marshal unmarshal (some annotations) ≡ some (group ∷ groups)
      → RoundTrips marshal unmarshal (
          normalize_controllers
            (next_controllers (group ∷ groups) controller downstream all_controllers))
      → (object : Object) × (result : Answer) × (update_pending_controllers marshal unmarshal
            (some annotations)
            controller
            downstream
            all_controllers
          ≡ some (object, result))
        × (get_pending_controllers marshal unmarshal object
            ≡ some (
                after (remove_controller controller group) (
                  if downstream
                  then normalize_controllers (get_downstream_controllers all_controllers controller)
                  else groups)))
  unfolding update_pending_controllers next_controllers
  update_pending_controllers-next annotations group groups controller downstream all_controllers h
        round_trip =
      let next = next_controllers (group ∷ groups) controller downstream all_controllers in
      let set = set_pending_controllers marshal unmarshal (some annotations) next in
      (
        set.0,
        set.1,
        rw (update_pending_controllers, h) refl,
        set_pending_controllers-get marshal unmarshal annotations next round_trip
            ∙ ap some (
                normalize-after (remove_controller controller group) _
                ∙ ap (after (remove_controller controller group)) (follows downstream)),
      )
    where
      follows :
          (b : Bool)
          → normalize_controllers
              (if b then get_downstream_controllers all_controllers controller else groups)
            ≡ (if b
                then normalize_controllers (get_downstream_controllers all_controllers controller)
                else groups)
      follows true = refl
      follows false = get-normalized (some annotations) group groups h
