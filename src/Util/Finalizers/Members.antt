-- ===== src/Util/Finalizers/Members.antt =====
-- Which finalizers an object has after some are added or removed.
use kubeadmiral.Base.{
  ◌≡◌, ◌≢◌, refl, ◌∙◌, String, true, false, List, [], ◌∷◌, ◌++◌, not, all, any, select, string_eq,
  string_less, ◌||◌, ◌&&◌, arith, Bool-cases, inl, inr,
}
use kubeadmiral.Base.Assoc.{has}
use kubeadmiral.Base.Sorting.{sort, place}
use kubeadmiral.Base.Sets.{new_set, has-new_set, has-select}
use kubeadmiral.Util.Finalizers.{has_finalizer, add_finalizers, remove_finalizers}

false≢true : false ≢ true
false≢true h = cc

module _ (x : String) where
  has-place : (y : String) (s : List String) → has x (place string_less y s) ≡ has x (y ∷ s)
  has-place y [] = refl
  has-place y (z ∷ s) = ground (arith, has-place y s)

  has-sort : (s : List String) → has x (sort string_less s) ≡ has x s
  has-sort [] = refl
  has-sort (y ∷ s) = ground (arith, has-place y (sort string_less s), has-sort s)

  has-join : (s t : List String) → has x (s ++ t) ≡ (has x s || has x t)
  has-join [] t = refl
  has-join (y ∷ s) t = ground (arith, has-join s t)

  all-has : (s t : List String) → all (λ f. has f t) s ≡ true → has x s ≡ true → has x t ≡ true
  all-has [] t h k = absurd (false≢true k)
  all-has (y ∷ s) t h k = ground (arith, h, k, all-has s t, string_eq.reflects y x)

  any-has : (s t : List String) → any (λ f. has f t) s ≡ false → has x s ≡ true → has x t ≡ false
  any-has [] t h k = absurd (false≢true k)
  any-has (y ∷ s) t h k = ground (arith, h, k, any-has s t, string_eq.reflects y x)

-- After finalizers are added an object has those that it had and those that were added, and no
-- other.
pub add_finalizers-has :
    (finalizers added : List String) (x : String)
    → has_finalizer (add_finalizers finalizers added).0 x
      ≡ (has_finalizer finalizers x || has x added)
unfolding add_finalizers has_finalizer
add_finalizers-has finalizers added x =
    elim (Bool-cases (all (λ f. has f (new_set finalizers)) added)) [
      | inl e ↦ rw (add_finalizers, e) (ground (arith, all-has x added (new_set finalizers) e))
      | inr e ↦
          rw (add_finalizers, e)
            (has-new_set {B = String} x (sort string_less (new_set (new_set finalizers ++ added)))
              ∙ has-sort x (new_set (new_set finalizers ++ added))
              ∙ has-new_set {B = String} x (new_set finalizers ++ added)
              ∙ has-join x (new_set finalizers) added)
    ]

-- After finalizers are removed an object has those that it had and that were not removed, and no
-- other.
pub remove_finalizers-has :
    (finalizers removed : List String) (x : String)
    → has_finalizer (remove_finalizers finalizers removed).0 x
      ≡ (has_finalizer finalizers x && not (has x removed))
unfolding remove_finalizers has_finalizer
remove_finalizers-has finalizers removed x =
    let kept = select (λ f. not (has f removed)) (new_set finalizers) in
    elim (Bool-cases (any (λ f. has f removed) (new_set finalizers))) [
      | inl e ↦
          rw (remove_finalizers, e)
            (has-new_set {B = String} x (sort string_less kept)
              ∙ has-sort x kept
              ∙ has-select {B = String} x (λ f. not (has f removed)) (new_set finalizers))
      | inr e ↦ rw (remove_finalizers, e) (ground (arith, any-has x (new_set finalizers) removed e))
    ]
