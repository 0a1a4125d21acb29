-- ===== src/Base/Sorting.antt =====
-- Go's `sort` package, for a `Less` that is a strict order. Where `Less` tells two elements apart
-- in neither direction Go leaves their order open; this one keeps it.
use kubeadmiral.Base.Tests.{if◌then◌else◌, Bool-cases}
use kubeadmiral.Base.Lists.{length, sum_of, All, All-map}
use Prim.Native.Nat.{ℕ, suc, ◌+◌}
use mathlib.Core.Path.{◌≡◌}
use mathlib.Core.Logic.{inl, inr}
use mathlib.Core.Bool.{Bool, true, false}
use mathlib.Core.List.Perm
use mathlib.Core.List.{List, [], ◌∷◌, Perm}
use native.Mathlib.Omega.{arith}

module _ {ℓ} {A : Type ℓ} (less : A → A → Bool) where
  -- `x` goes before the first element that is not less than it.
  abbrev pub place : A → List A → List A
  place x [] = x ∷ []
  place x (y ∷ ys) = if less y x then y ∷ place x ys else x ∷ y ∷ ys

  abbrev pub sort : List A → List A
  sort [] = []
  sort (x ∷ xs) = place x (sort xs)

  -- No element is less than one that stands before it.
  abbrev pub Sorted : List A → Type ℓ
  Sorted [] = Unit
  Sorted (x ∷ xs) = All (λ y. less y x ≡ false) xs × Sorted xs

  pub length-place : (x : A) (xs : List A) → length (place x xs) ≡ suc (length xs)
  length-place x [] = omega arith
  length-place x (y ∷ ys) = ground (arith, length-place x ys)

  pub length-sort : (xs : List A) → length (sort xs) ≡ length xs
  length-sort [] = omega arith
  length-sort (x ∷ xs) = omega (arith, length-place x (sort xs), length-sort xs)

  pub sum_of-place : (f : A → ℕ) (x : A) (xs : List A) → sum_of f (place x xs) ≡ f x + sum_of f xs
  sum_of-place f x [] = omega arith
  sum_of-place f x (y ∷ ys) = ground (arith, sum_of-place f x ys)

  pub sum_of-sort : (f : A → ℕ) (xs : List A) → sum_of f (sort xs) ≡ sum_of f xs
  sum_of-sort f [] = omega arith
  sum_of-sort f (x ∷ xs) = omega (arith, sum_of-place f x (sort xs), sum_of-sort f xs)

  pub All-place {κ} : (P : A → Type κ) (x : A) (xs : List A) → P x → All P xs → All P (place x xs)
  All-place P x [] h k = (h, tt)
  All-place P x (y ∷ ys) h k = elim (Bool-cases (less y x)) [
    | inl e ↦ rw e (k.0, All-place P x ys h k.1)
    | inr e ↦ rw e (h, k)
  ]

  pub All-sort {κ} : (P : A → Type κ) (xs : List A) → All P xs → All P (sort xs)
  All-sort P [] h = tt
  All-sort P (x ∷ xs) h = All-place P x (sort xs) h.0 (All-sort P xs h.1)

  -- The result of a sort holds the same elements, each as often.
  pub place-perm : (x : A) (xs : List A) → Perm (place x xs) (x ∷ xs)
  place-perm x [] = Perm.refl _
  place-perm x (y ∷ ys) = elim (Bool-cases (less y x)) [
    | inl e ↦ rw e (Perm.trans (Perm.cons y (place-perm x ys)) (Perm.swap x y ys))
    | inr e ↦ rw e (Perm.refl _)
  ]

  pub sort-perm : (xs : List A) → Perm (sort xs) xs
  sort-perm [] = Perm.refl _
  sort-perm (x ∷ xs) = Perm.trans (place-perm x (sort xs)) (Perm.cons x (sort-perm xs))

  module _ (asym : (x y : A) → less x y ≡ true → less y x ≡ false)
      (trans : (x y z : A) → less y x ≡ false → less z y ≡ false → less z x ≡ false) where
    pub place-Sorted : (x : A) (xs : List A) → Sorted xs → Sorted (place x xs)
    place-Sorted x [] h = (tt, tt)
    place-Sorted x (y ∷ ys) h = elim (Bool-cases (less y x)) [
      | inl e ↦
          rw e (All-place (λ z. less z y ≡ false) x ys (asym y x e) h.0, place-Sorted x ys h.1)
      | inr e ↦ rw e ((e, All-map (λ z k. trans x y z e k) ys h.0), h)
    ]

    pub sort-Sorted : (xs : List A) → Sorted (sort xs)
    sort-Sorted [] = tt
    sort-Sorted (x ∷ xs) = place-Sorted x (sort xs) (sort-Sorted xs)
