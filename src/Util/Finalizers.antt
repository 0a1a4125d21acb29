-- ===== src/Util/Finalizers.antt =====
-- pkg/util/finalizers/finalizers.go: the finalizers of an object, which are passed in and returned. A
-- set of `k8s.io/apimachinery` is a list without repetitions; `sets.List` sorts it.
pub mod Members
use kubeadmiral.Base.{
  String, Bool, true, false, List, [], ◌∷◌, ◌++◌, not, all, any, select, if◌then◌else◌, ◌==◌,
  string_eq, string_less,
}
use kubeadmiral.Base.Assoc.{has}
use kubeadmiral.Base.Sets.{new_set}
use kubeadmiral.Base.Sorting.{sort}

unfoldable pub has_finalizer : List String → String → Bool
has_finalizer finalizers finalizer = has finalizer (new_set finalizers)

unfoldable pub add_finalizers : List String → List String → List String × Bool
add_finalizers finalizers new_finalizers =
    let old_finalizers = new_set finalizers in
    if all (λ f. has f old_finalizers) new_finalizers
    then (finalizers, false)
    else (sort string_less (new_set (old_finalizers ++ new_finalizers)), true)

unfoldable pub remove_finalizers : List String → List String → List String × Bool
remove_finalizers finalizers removed =
    let old_finalizers = new_set finalizers in
    if any (λ f. has f removed) old_finalizers
    then (sort string_less (select (λ f. not (has f removed)) old_finalizers), true)
    else (finalizers, false)
