-- ===== src/Base/Subset.antt =====
-- Lists as sets: when one is among another, and what their lengths say of that.
use kubeadmiral.Base.Tests.{if◌then◌else◌, Bool-cases}
use kubeadmiral.Base.Lists.{length, all, any}
use kubeadmiral.Base.Equality.{Comparable, ◌==◌}
use kubeadmiral.Base.Assoc.{has}
use kubeadmiral.Base.Sets.{new_set, has-new_set}
use Prim.Native.Nat.{suc, ◌≤◌}
use mathlib.Core.Path.{◌≡◌, refl, sym, ap, ◌∙◌}
use mathlib.Core.Logic.{◌↔◌, inl, inr}
use mathlib.Core.Bool.{true, false, not}
use mathlib.Core.List.{List, [], ◌∷◌}
use native.Mathlib.Omega.{arith}

module _ {ℓ} {A : Type ℓ} ⦃e : Comparable A⦄ where
  -- No element stands twice.
  abbrev pub Distinct : List A → Type 0
  Distinct [] = Unit
  Distinct (x ∷ s) = (has x s ≡ false) × Distinct s

  -- Each element of the first is in the second.
  abbrev pub Subset : List A → List A → Type ℓ
  Subset s t = (y : A) → has y s ≡ true → has y t ≡ true

  has_same : (x y : A) (s : List A) → x ≡ y → has x s ≡ has y s
  has_same x y s h = ap (λ z. has z s) h

  abbrev drop_one : A → List A → List A
  drop_one x [] = []
  drop_one x (y ∷ t) = let rest = drop_one x t in if y == x then t else y ∷ rest

  length-drop_one : (x : A) (t : List A) → has x t ≡ true → suc (length (drop_one x t)) ≡ length t
  length-drop_one x [] h = ground (arith, h)
  length-drop_one x (y ∷ t) h = ground (arith, h, length-drop_one x t)

  has-drop_one : (x y : A) (t : List A) → x == y ≡ false → has y (drop_one x t) ≡ has y t
  has-drop_one x y [] h = refl
  has-drop_one x y (z ∷ t) h =
      ground (arith, h, has-drop_one x y t h, e.reflects z x, e.reflects z y, e.reflects x y)

  tail_among : (x : A) (s t : List A) → has x s ≡ false → Subset (x ∷ s) t → Subset s (drop_one x t)
  tail_among x s t new h y k = elim (Bool-cases (x == y)) [
    | inl same ↦ ground (arith, new, k, has_same x y s ((e.reflects x y).0 same))
    | inr other ↦ has-drop_one x y t other ∙ h y (ground (arith, k, other))
  ]

  pub length-Subset : (s t : List A) → Distinct s → Subset s t → length s ≤ length t
  length-Subset [] t d h = omega arith
  length-Subset (x ∷ s) t d h =
      let long = length-drop_one x t (h x (ground (arith, e.reflects x x))) in
      omega (arith, long, length-Subset s (drop_one x t) d.1 (tail_among x s t d.0 h))

  -- A set that is among one no longer is all of it.
  pub Subset-full : (s t : List A) → Distinct s → Subset s t → length t ≤ length s → Subset t s
  Subset-full [] [] d h le y k = k
  Subset-full [] (z ∷ t) d h le y k = ground (arith, le)
  Subset-full (x ∷ s) t d h le y k = elim (Bool-cases (x == y)) [
    | inl same ↦ ground (arith, same)
    | inr other ↦
        let long = length-drop_one x t (h x (ground (arith, e.reflects x x))) in
        let rest =
          Subset-full s (drop_one x t) d.1 (tail_among x s t d.0 h) (omega (arith, le, long)) in
        ground (arith, other, rest y (has-drop_one x y t other ∙ k))
  ]

  pub all-Subset : (s t : List A) → (all (λ c. has c t) s ≡ true) ↔ Subset s t
  all-Subset s t = (there s, back s)
    where
      there : (s : List A) → all (λ c. has c t) s ≡ true → Subset s t
      there [] h y k = ground (arith, k)
      there (x ∷ s) h y k = elim (Bool-cases (x == y)) [
        | inl same ↦ ground (arith, h, has_same x y t ((e.reflects x y).0 same))
        | inr other ↦ there s (ground (arith, h)) y (ground (arith, k, other))
      ]

      back : (s : List A) → Subset s t → all (λ c. has c t) s ≡ true
      back [] h = refl
      back (x ∷ s) h =
          ground
            (arith, h x (ground (arith, e.reflects x x)), back s (λ y k. h y (ground (arith, k))))

  pub any-not : (s t : List A) → any (λ c. not (has c t)) s ≡ not (all (λ c. has c t) s)
  any-not [] t = refl
  any-not (x ∷ s) t = ground (arith, any-not s t)

  pub new_set-Distinct : (xs : List A) → Distinct (new_set xs)
  unfolding new_set
  new_set-Distinct [] = tt
  new_set-Distinct (x ∷ xs) = elim (Bool-cases (has x (new_set xs))) [
    | inl h ↦ rw (new_set, h) (new_set-Distinct xs)
    | inr h ↦ rw (new_set, h) (h, new_set-Distinct xs)
  ]

  pub new_set-Subset : (s t : List A) → Subset (new_set s) (new_set t) ↔ Subset s t
  new_set-Subset s t = (
    λ h y k. sym (has-new_set y t) ∙ h y (has-new_set y s ∙ k),
    λ h y k. has-new_set y t ∙ h y (sym (has-new_set y s) ∙ k),
  )
