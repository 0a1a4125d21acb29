-- ===== src/Util/Tests.antt =====
-- Two maps of each kind, and the pending controllers under a toy encoding.
use kubeadmiral.Base.{inl, inr}
use kubeadmiral.Base.{ℕ, String, none, some, ◌≡◌, refl, string_eq, nat_eq, arith}
use kubeadmiral.Util.Bijection
use kubeadmiral.Util.Bijection.{Bijection, new_bijection, lookup_by_t1, lookup_by_t2}
use kubeadmiral.Util.Bijection.Inverse.{IsInverse, add-IsInverse, delete-IsInverse, add_found}
use kubeadmiral.Util.MultiMap
use kubeadmiral.Util.MultiMap.{MultiMap, new_multi_map}
use kubeadmiral.Util.MultiMap.Relation.{IsConsistent, add-IsConsistent, delete-IsConsistent}
use kubeadmiral.Base.{Option, some, none, false, [], ◌∷◌, if◌then◌else◌, ◌==◌}
use kubeadmiral.Base.Assoc.{Map}
use kubeadmiral.Util.Annotation.{Object, Answer}
use kubeadmiral.Util.PendingControllers.{
  PendingControllers, pending_controllers_annotation, normalize_controllers,
  get_pending_controllers, update_pending_controllers,
}
use kubeadmiral.Util.PendingControllers.Progress.{RoundTrips}
use kubeadmiral.Util.PendingControllers.Update.{update_pending_controllers-get}
use kubeadmiral.Base.{List}
use kubeadmiral.Util.PendingControllers.Finish.{Turns, update_pending_controllers-finishes}

abbrev empty_bijection : Bijection ℕ String
empty_bijection = new_bijection

empty-IsInverse : IsInverse empty_bijection
empty-IsInverse a b = ground arith

added : (Bijection.add 1 "one" empty_bijection).1 ≡ none
unfolding Bijection.add
added = refl

add-IsInverse_example : IsInverse (Bijection.add 1 "one" empty_bijection).0
add-IsInverse_example = add-IsInverse 1 "one" empty_bijection empty-IsInverse

one_pair-IsInverse : IsInverse (Bijection.add 1 "one" empty_bijection).0
one_pair-IsInverse = add-IsInverse 1 "one" empty_bijection empty-IsInverse

delete-IsInverse_example :
    IsInverse (Bijection.delete_t1 1 (Bijection.add 1 "one" empty_bijection).0).0
    × IsInverse (Bijection.delete_t2 "two" (Bijection.add 1 "one" empty_bijection).0).0
delete-IsInverse_example =
    delete-IsInverse 1 "two" (Bijection.add 1 "one" empty_bijection).0 one_pair-IsInverse

abbrev pair_added : Bijection ℕ String
pair_added = (Bijection.add 1 "one" empty_bijection).0

add_found_example :
    (lookup_by_t1 1 pair_added ≡ some "one")
    × (lookup_by_t2 "one" pair_added ≡ some 1)
    × (lookup_by_t1 1 (Bijection.delete_t2 "one" pair_added).0 ≡ none)
    × (lookup_by_t2 "one" (Bijection.delete_t1 1 pair_added).0 ≡ none)
    × (lookup_by_t1 1 (Bijection.delete_t1 1 pair_added).0 ≡ none)
    × (lookup_by_t2 "one" (Bijection.delete_t2 "one" pair_added).0 ≡ none)
add_found_example = add_found 1 "one" empty_bijection added

abbrev empty_multi_map : MultiMap ℕ String
empty_multi_map = new_multi_map

empty-IsConsistent : IsConsistent empty_multi_map
empty-IsConsistent a b = ground arith

add-IsConsistent_example : IsConsistent (MultiMap.add 1 "one" empty_multi_map).0
add-IsConsistent_example = add-IsConsistent 1 "one" empty_multi_map empty-IsConsistent

one_value-IsConsistent : IsConsistent (MultiMap.add 1 "one" empty_multi_map).0
one_value-IsConsistent = add-IsConsistent 1 "one" empty_multi_map empty-IsConsistent

delete-IsConsistent_example :
    IsConsistent (MultiMap.delete_t1 1 (MultiMap.add 1 "one" empty_multi_map).0).0
    × IsConsistent (MultiMap.delete_t2 "one" (MultiMap.add 1 "one" empty_multi_map).0).0
delete-IsConsistent_example =
    delete-IsConsistent 1 "one" (MultiMap.add 1 "one" empty_multi_map).0 one_value-IsConsistent

-- Enough of an encoding for two values.
abbrev toy_marshal : PendingControllers → String
toy_marshal [] = "none"
toy_marshal (group ∷ []) = "one"
toy_marshal (group ∷ more ∷ groups) = "two"

abbrev toy_unmarshal : String → Option PendingControllers
toy_unmarshal value =
    if value == "one"
    then some (("b" ∷ []) ∷ [])
    else (if value == "two" then some (("a" ∷ []) ∷ ("b" ∷ []) ∷ []) else none)

abbrev waiting : Map String String
waiting = (pending_controllers_annotation, "two") ∷ []

waiting_for :
    get_pending_controllers toy_marshal toy_unmarshal (some waiting)
    ≡ some (("a" ∷ []) ∷ ("b" ∷ []) ∷ [])
unfolding get_pending_controllers normalize_controllers
waiting_for = refl

set_round_trip : RoundTrips toy_marshal toy_unmarshal (normalize_controllers (("b" ∷ []) ∷ [] ∷ []))
unfolding normalize_controllers
set_round_trip = refl

update_pending_controllers-get_example :
    (object : Object) × (result : Answer) × (update_pending_controllers toy_marshal toy_unmarshal
        (some waiting)
        "a"
        false
        []
      ≡ some (object, result))
    × (get_pending_controllers toy_marshal toy_unmarshal object ≡ some (("b" ∷ []) ∷ []))
update_pending_controllers-get_example =
    update_pending_controllers-get toy_marshal toy_unmarshal waiting ("a" ∷ []) [] (("b" ∷ []) ∷ [])
      [] "a" false [] waiting_for (inr ([], [], refl, refl, refl)) (inl (tt, refl)) refl

abbrev empty_marshal : PendingControllers → String
empty_marshal [] = "none"
empty_marshal (group ∷ groups) = toy_marshal (group ∷ groups)

abbrev empty_unmarshal : String → Option PendingControllers
empty_unmarshal value = if value == "none" then some [] else toy_unmarshal value

update_pending_controllers-finishes_example :
    (last : Object) × Turns empty_marshal empty_unmarshal [] ("a" ∷ "b" ∷ []) (some waiting) last
    × (get_pending_controllers empty_marshal empty_unmarshal last ≡ some [])
unfolding get_pending_controllers normalize_controllers
update_pending_controllers-finishes_example =
    update_pending_controllers-finishes empty_marshal empty_unmarshal []
      (("a" ∷ []) ∷ ("b" ∷ []) ∷ []) waiting ((refl, tt), ((refl, tt), tt)) refl

abbrev finalizers : List String
finalizers = "sync" ∷ "dispatch" ∷ []
