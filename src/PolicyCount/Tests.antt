-- ===== src/PolicyCount/Tests.antt =====
-- One object that refers to two policies.
use kubeadmiral.Base.{◌≡◌, refl, String, some, [], ◌∷◌, ◌++◌, ◌==◌, string_eq, map, if◌then◌else◌}
use kubeadmiral.Base.Assoc.{lookup}
use kubeadmiral.Base.Sets.{or_nil}
use kubeadmiral.PolicyCount.Counter.{
  Counter, new_counter, remember, decrease, increase, get_policy_counts, update_counter,
}
use kubeadmiral.PolicyCount.Counter.References.{
  references, Reached, fresh, updated, get_policy_counts-references, update_counter-returns,
}

abbrev empty_counter : Counter String String
empty_counter = new_counter

abbrev one_object : Counter String String
one_object = record {
  known_policies = ("app", "policy" ∷ "other" ∷ []) ∷ [];
  policy_counts = ("policy", 1) ∷ ("other", 1) ∷ [];
}

counted :
    update_counter "app" ("policy" ∷ "other" ∷ []) empty_counter
    ≡ some (one_object, "policy" ∷ "other" ∷ [])
unfolding update_counter remember decrease increase
counted = refl

one_object-Reached : Reached one_object
one_object-Reached = updated "app" ("policy" ∷ "other" ∷ []) ("policy" ∷ "other" ∷ []) fresh counted

get_policy_counts-references_example :
    get_policy_counts ("policy" ∷ "none" ∷ []) one_object
    ≡ map (λ p. references p one_object.known_policies) ("policy" ∷ "none" ∷ [])
get_policy_counts-references_example =
    get_policy_counts-references one_object ("policy" ∷ "none" ∷ []) one_object-Reached

update_counter-returns_example :
    (c' : Counter String String) × (update_counter "app" ("other" ∷ []) one_object
      ≡ some (c', or_nil (lookup {K = String} "app" one_object.known_policies) ++ "other" ∷ []))
    × (or_nil (lookup {K = String} "app" c'.known_policies) ≡ (
        if ◌==◌ {A = String} "app" "app"
        then "other" ∷ []
        else or_nil (lookup {K = String} "app" one_object.known_policies)))
update_counter-returns_example =
    update_counter-returns one_object "app" "app" ("other" ∷ []) one_object-Reached
