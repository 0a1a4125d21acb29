-- ===== src/Base/Sets.antt =====
-- Sets of keys (`sets.Set` of k8s.io/apimachinery) as lists, and the maps of sets.
use kubeadmiral.Base.Tests.{if◌then◌else◌}
use kubeadmiral.Base.Lists.{select}
use kubeadmiral.Base.Equality.{Comparable, ◌==◌}
use kubeadmiral.Base.Assoc.{has}
use mathlib.Core.Path.{◌≡◌, refl, ap}
use mathlib.Core.Bool.{Bool, true, false, not, ◌&&◌}
use mathlib.Core.Option.{Option, none, some}
use mathlib.Core.List.{List, [], ◌∷◌}
use native.Mathlib.Omega.{arith}

-- A look-up in a map of slices or sets: a missing key gives nil.
abbrev pub or_nil {ℓ} : {B : Type ℓ} → Option (List B) → List B
or_nil none = []
or_nil (some s) = s

abbrev pub is_empty {ℓ} : {B : Type ℓ} → List B → Bool
is_empty [] = true
is_empty (x ∷ s) = false

-- `Insert`, `Delete` and `Difference`
module _ {ℓ} {B : Type ℓ} ⦃e : Comparable B⦄ where
  abbrev pub insert_set : B → List B → List B
  insert_set x s = if has x s then s else x ∷ s

  abbrev pub delete_set : B → List B → List B
  delete_set x s = select (λ y. not (y == x)) s

  abbrev pub difference : List B → List B → List B
  difference s t = select (λ y. not (has y t)) s

-- `New`
module _ {ℓ} {B : Type ℓ} ⦃e : Comparable B⦄ where
  unfoldable pub new_set : List B → List B
  new_set [] = []
  new_set (x ∷ xs) = let rest = new_set xs in if has x rest then rest else x ∷ rest

module _ {ℓ} {B : Type ℓ} ⦃eb : Comparable B⦄ where
  pub has-insert_set :
      (x y : B) (s : List B) → has y (insert_set x s) ≡ (if x == y then true else has y s)
  has-insert_set x y s = ground (arith, eb.reflects x y, has_same s)
    where
      has_same : (s : List B) → x ≡ y → has x s ≡ has y s
      has_same s e = ap (λ z. has z s) e

  pub has-delete_set :
      (x y : B) (s : List B) → has y (delete_set x s) ≡ (if x == y then false else has y s)
  has-delete_set x y [] = ground arith
  has-delete_set x y (z ∷ s) =
      ground (arith, eb.reflects x y, eb.reflects z x, eb.reflects z y, has-delete_set x y s)

  has_same_key : (x y : B) (s : List B) → x ≡ y → has x s ≡ has y s
  has_same_key x y s e = ap (λ z. has z s) e

  pub has-select : (x : B) (p : B → Bool) (s : List B) → has x (select p s) ≡ (has x s && p x)
  has-select x p [] = refl
  has-select x p (y ∷ s) = ground (arith, has-select x p s, eb.reflects y x, same_test)
    where
      same_test : y ≡ x → p y ≡ p x
      same_test e = ap p e

  pub has-new_set : (x : B) (s : List B) → has x (new_set s) ≡ has x s
  unfolding new_set
  has-new_set x [] = refl
  has-new_set x (y ∷ s) =
      ground (arith, has-new_set x s, eb.reflects y x, has_same_key y x (new_set s))
