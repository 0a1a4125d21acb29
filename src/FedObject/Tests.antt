-- ===== src/FedObject/Tests.antt =====
-- The placements of two controllers.
use kubeadmiral.Base.{false, List, [], ◌∷◌, ◌≡◌, ◌↔◌, refl, any, string_eq}
use kubeadmiral.Base.Assoc.{has}
use kubeadmiral.FedObject.{
  Placement, set_controller_placement, get_controller_placement, get_placement_union, set_entry,
  values_of,
}
use kubeadmiral.FedObject.Entries.{
  UniqueControllers, set_controller_placement-get, set_controller_placement-same,
  get_placement_union-has,
}

abbrev placements : List Placement
placements =
    record { controller = "scheduler"; values = "a" ∷ "b" ∷ [] }
    ∷ record { controller = "follower"; values = "c" ∷ [] }
    ∷ []

placements-UniqueControllers : UniqueControllers placements
placements-UniqueControllers = ((refl, tt), (tt, tt))

sorted :
    get_controller_placement
      (set_controller_placement placements "scheduler" ("d" ∷ "b" ∷ [])).0
      "scheduler"
    ≡ "b" ∷ "d" ∷ []
unfolding set_controller_placement set_entry values_of
sorted = refl

set_controller_placement-get_example :
    get_controller_placement (set_controller_placement placements "scheduler" []).0 "follower"
    ≡ get_controller_placement placements "follower"
set_controller_placement-get_example =
    set_controller_placement-get placements "scheduler" "follower" [] placements-UniqueControllers

set_controller_placement-same_example :
    ((set_controller_placement placements "scheduler" ("b" ∷ "a" ∷ [])).1 ≡ false)
    ↔ ((set_controller_placement placements "scheduler" ("b" ∷ "a" ∷ [])).0 ≡ placements)
set_controller_placement-same_example =
    set_controller_placement-same placements "scheduler" ("b" ∷ "a" ∷ [])

get_placement_union-has_example :
    has "c" (get_placement_union placements) ≡ any (λ p. has "c" p.values) placements
get_placement_union-has_example = get_placement_union-has placements "c"
