-- ===== src/Util/PendingControllers.antt =====
-- pkg/util/pendingcontrollers/pendingcontrollers.go: the groups of controllers that a federated
-- object still waits for, kept as JSON in an annotation. `json.Marshal` and `json.Unmarshal` of the
-- groups are the parameters `marshal` and `unmarshal`; marshalling strings does not fail.
pub mod Progress
pub mod Finish
pub mod Update
use kubeadmiral.Base.{
  String, Option, none, some, Bool, true, false, List, [], ◌∷◌, ◌==◌, string_eq, if◌then◌else◌, any,
}
use kubeadmiral.Base.Assoc.{Map, lookup, has}
use kubeadmiral.Util.Annotation.{
  Object, annotations_of, Answer, answer, nil_pointer, empty_key, add_annotation,
}

abbrev pub PendingControllers : Type 0
PendingControllers = List (List String)

abbrev pub pending_controllers_annotation : String
pending_controllers_annotation = "kubeadmiral.io/pending-controllers"

-- `NormalizeControllers`
unfoldable pub normalize_controllers : PendingControllers → PendingControllers
normalize_controllers [] = []
normalize_controllers ([] ∷ rest) = normalize_controllers rest
normalize_controllers ((c ∷ inner) ∷ rest) = (c ∷ inner) ∷ normalize_controllers rest

-- `GetDownstreamControllers`: the groups after the first one that holds the controller.
unfoldable pub get_downstream_controllers : PendingControllers → String → PendingControllers
get_downstream_controllers [] current = []
get_downstream_controllers (group ∷ groups) current =
    if has current group then groups else get_downstream_controllers groups current

-- The loop of `UpdatePendingControllers` that cuts the controller out of its group.
unfoldable pub remove_controller : String → List String → List String
remove_controller controller [] = []
remove_controller controller (c ∷ cs) =
    let rest = remove_controller controller cs in if c == controller then cs else c ∷ rest

abbrev pub first_group : PendingControllers → List String
first_group [] = []
first_group (group ∷ groups) = group

abbrev pub rest_groups : PendingControllers → PendingControllers
rest_groups [] = []
rest_groups (group ∷ groups) = groups

-- The groups that `UpdatePendingControllers` writes, before they are normalized.
unfoldable pub next_controllers :
    PendingControllers → String → Bool → PendingControllers → PendingControllers
next_controllers pending to_remove should_set_downstream all_controllers =
    let downstream = get_downstream_controllers all_controllers to_remove in
    remove_controller to_remove (first_group pending)
    ∷ (if should_set_downstream then downstream else rest_groups pending)

module _ (marshal : PendingControllers → String)
    (unmarshal : String → Option PendingControllers) where
  -- `none` is an error.
  unfoldable pub get_pending_controllers : Object → Option PendingControllers
  get_pending_controllers object =
      elim (lookup pending_controllers_annotation (annotations_of object)) [
        | none ↦ none
        | some value ↦ elim (unmarshal value) [
          | none ↦ none
          | some controllers ↦ some (normalize_controllers controllers)
        ]
      ]

  unfoldable pub set_pending_controllers : Object → PendingControllers → Object × Answer
  set_pending_controllers object controllers =
      add_annotation object pending_controllers_annotation
        (marshal (normalize_controllers controllers))

  -- `none` is the error of `GetPendingControllers`.
  unfoldable pub update_pending_controllers :
      Object → String → Bool → PendingControllers → Option (Object × Answer)
  update_pending_controllers object to_remove should_set_downstream all_controllers =
      elim (get_pending_controllers object) [
        | none ↦ none
        | some pending ↦ some (
            set_pending_controllers object
              (next_controllers pending to_remove should_set_downstream all_controllers))
      ]

  -- Of the groups that are pending.
  abbrev pub is_turn_of : String → PendingControllers → Bool
  is_turn_of controller [] = true
  is_turn_of controller (group ∷ groups) = has controller group

  unfoldable pub controller_dependencies_fulfilled : Object → String → Option Bool
  controller_dependencies_fulfilled object controller = elim (get_pending_controllers object) [
    | none ↦ none
    | some pending ↦ some (is_turn_of controller pending)
  ]
