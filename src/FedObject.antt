-- ===== src/FedObject.antt =====
-- pkg/apis/core/v1alpha1/extensions_federatedobject.go: the placements and overrides that the
-- controllers write into the spec of a federated object. A method that changes the spec returns the
-- changed list. A patch is a parameter with an equality, `reflect.DeepEqual`; that the sort of
-- `SetControllerOverrides` also reorders the caller's slice is left out.
pub mod Entries
mod Tests
use kubeadmiral.Base.{
  ℕ, String, Bool, true, false, List, [], ◌∷◌, ◌++◌, if◌then◌else◌, ◌==◌, Comparable, string_eq,
  string_less, length, eqb,
}
use kubeadmiral.Base.Equality.{list_eq}
use kubeadmiral.Base.Assoc.{has}
use kubeadmiral.Base.Sorting.{sort}

-- `PlacementWithController` and `OverrideWithController`: what one controller wrote. A
-- `ClusterReference` is the name that it holds.
pub record Entry (V : Type 0) : Type 0 where
  pub controller : String
  pub values : List V

module _ {V : Type 0} where
  -- The values of the first entry of the controller, or the nil slice.
  unfoldable pub values_of : List (Entry V) → String → List V
  values_of [] controller = []
  values_of (p ∷ ps) controller =
      if p.controller == controller then p.values else values_of ps controller

  -- The first entry of the controller is cut out.
  unfoldable pub delete_entry : List (Entry V) → String → List (Entry V) × Bool
  delete_entry [] controller = ([], false)
  delete_entry (p ∷ ps) controller =
      let rest = delete_entry ps controller in
      if p.controller == controller then (ps, true) else (p ∷ rest.0, rest.1)

  module _ ⦃e : Comparable V⦄ where
    -- The first entry of the controller is overwritten, where it differs; without one, one is added.
    unfoldable pub set_entry : List (Entry V) → String → List V → List (Entry V) × Bool
    set_entry [] controller values =
        (record { controller = controller; values = values } ∷ [], true)
    set_entry (p ∷ ps) controller values =
        let rest = set_entry ps controller values in
        if p.controller == controller
        then (if p.values == values
            then (p ∷ ps, false)
            else (record { controller = controller; values = values } ∷ ps, true))
        else (p ∷ rest.0, rest.1)

-- Placements.
abbrev pub Placement : Type 0
Placement = Entry String

unfoldable pub insert_names : List String → List String → List String
insert_names [] set = set
insert_names (c ∷ cs) set = insert_names cs (if has c set then set else set ++ c ∷ [])

unfoldable pub union_from : List Placement → List String → List String
union_from [] set = set
union_from (p ∷ ps) set = union_from ps (insert_names p.values set)

-- `GetPlacementUnion`
abbrev pub get_placement_union : List Placement → List String
get_placement_union placements = union_from placements []

abbrev pub get_controller_placement : List Placement → String → List String
get_controller_placement = values_of

abbrev pub delete_controller_placement : List Placement → String → List Placement × Bool
delete_controller_placement = delete_entry

unfoldable pub set_controller_placement :
    List Placement → String → List String → List Placement × Bool
set_controller_placement placements controller [] =
    delete_controller_placement placements controller
set_controller_placement placements controller (c ∷ cs) =
    set_entry placements controller (sort string_less (c ∷ cs))

-- Overrides: `ClusterReferenceWithPatches`.
pub record ClusterPatches (P : Type 0) : Type 0 where
  pub cluster : String
  pub patches : P

abbrev pub cluster_less : {P : Type 0} → ClusterPatches P → ClusterPatches P → Bool
cluster_less a b = string_less a.cluster b.cluster

module _ {P : Type 0} where
  abbrev pub get_controller_overrides :
      List (Entry (ClusterPatches P)) → String → List (ClusterPatches P)
  get_controller_overrides = values_of

  abbrev pub delete_controller_overrides :
      List (Entry (ClusterPatches P)) → String → List (Entry (ClusterPatches P)) × Bool
  delete_controller_overrides = delete_entry

  module _ ⦃e : Comparable (ClusterPatches P)⦄ where
    unfoldable pub set_controller_overrides :
        List (Entry (ClusterPatches P))
        → String
        → List (ClusterPatches P)
        → List (Entry (ClusterPatches P)) × Bool
    set_controller_overrides overrides controller [] =
        delete_controller_overrides overrides controller
    set_controller_overrides overrides controller (c ∷ cs) =
        set_entry overrides controller (sort cluster_less (c ∷ cs))
