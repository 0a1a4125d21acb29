-- ===== src/Util/PendingControllers/Finish.antt =====
-- An object stops waiting once every controller it waits for has had its turn.
use kubeadmiral.Base.{
  ◌≡◌, ◌≢◌, refl, sym, ap, ◌∙◌, subst, String, Option, none, some, true, false, List, [], ◌∷◌, ◌++◌,
  string_eq, inl, inr, Option-cases,
}
use kubeadmiral.Base.Assoc.{Map, lookup, has}
use kubeadmiral.Base.Chain.{some_eq}
use kubeadmiral.Util.Annotation.{Object, Answer, annotations_of}
use kubeadmiral.Util.Annotation.Lookup.{add_annotation-present}
use kubeadmiral.Util.PendingControllers.{
  PendingControllers, pending_controllers_annotation, normalize_controllers, remove_controller,
  next_controllers, get_pending_controllers, set_pending_controllers, update_pending_controllers,
  controller_dependencies_fulfilled,
}
use kubeadmiral.Util.PendingControllers.Progress.{
  RoundTrips, after, get-normalized, normalize-after, update_pending_controllers-next,
}

none≢some : {A : Type 0} {a : A} → none ≢ some a
none≢some h = cc

-- The controllers of the groups, one after the other.
abbrev pub in_order : PendingControllers → List String
in_order [] = []
in_order (group ∷ groups) = group ++ in_order groups

remove_controller-first : (c : String) (cs : List String) → remove_controller c (c ∷ cs) ≡ cs
unfolding remove_controller
remove_controller-first c cs = rw ((string_eq.reflects c c).1 refl) refl

has-first : (c : String) (cs : List String) → has c (c ∷ cs) ≡ true
has-first c cs = rw ((string_eq.reflects c c).1 refl) refl

-- A normalized list has no empty group in front.
normalized-front : (cs groups : PendingControllers) → normalize_controllers cs ≢ [] ∷ groups
unfolding normalize_controllers
normalized-front [] groups h = cc
normalized-front ([] ∷ cs) groups h = normalized-front cs groups h
normalized-front ((c ∷ inner) ∷ cs) groups h = cc

module _ (marshal : PendingControllers → String) (unmarshal : String → Option PendingControllers)
    (all_controllers : PendingControllers) where
  -- The controllers act in this order, each in its turn: its dependencies are fulfilled, and it
  -- updates the annotation without asking for the controllers downstream.
  pub data Turns : List String → Object → Object → Type 0 where
    finished : {object : Object} → Turns [] object object
    turn :
        {controller : String} {controllers : List String} {object next last : Object}
        {result : Answer}
        → controller_dependencies_fulfilled marshal unmarshal object controller ≡ some true
        → update_pending_controllers marshal unmarshal object controller false all_controllers
          ≡ some (next, result)
        → Turns controllers next last
        → Turns (controller ∷ controllers) object last

  -- The encoding round-trips on what is left of the groups after each turn.
  abbrev pub GroupTrips : List String → PendingControllers → Type 0
  GroupTrips [] groups = Unit
  GroupTrips (c ∷ cs) groups = RoundTrips marshal unmarshal (after cs groups) × GroupTrips cs groups

  abbrev pub Trips : PendingControllers → Type 0
  Trips [] = Unit
  Trips (group ∷ groups) = GroupTrips group groups × Trips groups

  abbrev Waits : Object → PendingControllers → Type 0
  Waits object pending = get_pending_controllers marshal unmarshal object ≡ some pending

  abbrev Done : Object → List String → Type 0
  Done object controllers = (last : Object) × Turns controllers object last × Waits last []

  get-front : (object : Object) (groups : PendingControllers) → ¬ Waits object ([] ∷ groups)
  unfolding get_pending_controllers
  get-front object groups h =
      elim (Option-cases (lookup pending_controllers_annotation (annotations_of object))) [
        | inl e ↦ absurd (none≢some (rw (get_pending_controllers, e) at h))
        | inr (value, e) ↦ elim (Option-cases (unmarshal value)) [
          | inl f ↦ absurd (none≢some (rw (get_pending_controllers, e, f) at h))
          | inr (cs, f) ↦
              normalized-front cs groups (some_eq (rw (get_pending_controllers, e, f) at h))
        ]
      ]

  fulfilled :
      (object : Object) (c : String) (cs : List String) (groups : PendingControllers)
      → Waits object ((c ∷ cs) ∷ groups)
      → controller_dependencies_fulfilled marshal unmarshal object c ≡ some true
  unfolding controller_dependencies_fulfilled
  fulfilled object c cs groups h =
      rw (controller_dependencies_fulfilled, h) (ap some (has-first c cs))

  -- The first controller of the groups that wait acts.
  one_turn :
      (annotations : Map String String) (c : String) (cs : List String)
      (groups : PendingControllers)
      → Waits (some annotations) ((c ∷ cs) ∷ groups)
      → RoundTrips marshal unmarshal (after cs groups)
      → (next : Map String String) × (result : Answer) × (update_pending_controllers marshal
            unmarshal
            (some annotations)
            c
            false
            all_controllers
          ≡ some (some next, result))
        × Waits (some next) (after cs groups)
  unfolding update_pending_controllers set_pending_controllers next_controllers
  one_turn annotations c cs groups h trip =
      let written = next_controllers ((c ∷ cs) ∷ groups) c false all_controllers in
      let present =
        add_annotation-present annotations pending_controllers_annotation
          (marshal (normalize_controllers written)) in
      let same : normalize_controllers written ≡ after cs groups =
        ap (λ xs. normalize_controllers (xs ∷ groups)) (remove_controller-first c cs)
        ∙ normalize-after cs groups
        ∙ ap (after cs) (get-normalized marshal unmarshal (some annotations) (c ∷ cs) groups h) in
      let (object, result, e, waits) =
        update_pending_controllers-next marshal unmarshal annotations (c ∷ cs) groups c false
          all_controllers h (rw same trip) in
      let set = set_pending_controllers marshal unmarshal (some annotations) written in
      let set_eq : update_pending_controllers marshal unmarshal (some annotations) c false
            all_controllers
          ≡ some set =
        rw (update_pending_controllers, h) refl in
      let object_eq : object ≡ some (annotations_of set.0) =
        ap (λ (x : Object × Answer). x.0) (some_eq (sym e ∙ set_eq)) ∙ present in
      (
        annotations_of set.0,
        set.1,
        set_eq ∙ ap (λ o. some (o, set.1)) present,
        subst (λ o. Waits o (after cs groups)) object_eq
            (waits ∙ ap (λ xs. some (after xs groups)) (remove_controller-first c cs)),
      )

  finish_group :
      (groups : PendingControllers)
      → ((annotations : Map String String)
          → Waits (some annotations) groups
          → Done (some annotations) (in_order groups))
      → (c : String) (cs : List String) (annotations : Map String String)
      → GroupTrips (c ∷ cs) groups
      → Waits (some annotations) ((c ∷ cs) ∷ groups)
      → Done (some annotations) ((c ∷ cs) ++ in_order groups)
  finish_group groups others c [] annotations trips h =
      let (next, result, e, waits) = one_turn annotations c [] groups h trips.0 in
      let (last, turns, finally) = others next waits in
      (last, turn (fulfilled (some annotations) c [] groups h) e turns, finally)
  finish_group groups others c (d ∷ ds) annotations trips h =
      let (next, result, e, waits) = one_turn annotations c (d ∷ ds) groups h trips.0 in
      let (last, turns, finally) = finish_group groups others d ds next trips.1 waits in
      (last, turn (fulfilled (some annotations) c (d ∷ ds) groups h) e turns, finally)

  -- Where the encoding round-trips on what is left at each turn, the pending controllers can
  -- act one after the other in the order of their groups, each when it is its turn, and
  -- afterwards nothing is pending.
  pub update_pending_controllers-finishes :
      (groups : PendingControllers) (annotations : Map String String)
      → Trips groups
      → get_pending_controllers marshal unmarshal (some annotations) ≡ some groups
      → (last : Object) × Turns (in_order groups) (some annotations) last
        × (get_pending_controllers marshal unmarshal last ≡ some [])
  update_pending_controllers-finishes [] annotations trips h = (some annotations, finished, h)
  update_pending_controllers-finishes ([] ∷ groups) annotations trips h =
      absurd (get-front (some annotations) groups h)
  update_pending_controllers-finishes ((c ∷ cs) ∷ groups) annotations trips h =
      finish_group groups
        (λ next waits. update_pending_controllers-finishes groups next trips.1 waits) c cs
        annotations trips.0 h
