-- ===== src/Base/Equality.antt =====
-- Go's comparable types: a Boolean test that decides equality.
use Prim.Native.Nat.{ℕ, Ordering}
use Prim.Native.String.{String, compare}
use mathlib.Core.Path.{◌≡◌, refl, sym}
use mathlib.Core.Logic.{◌↔◌, ◌≢◌}
use mathlib.Core.Bool.{Bool, true, false, ◌&&◌}
use mathlib.Core.List.{List, [], ◌∷◌}
use native.Mathlib.Omega.{arith}
use text.Mathlib.Text.{◌==◌ as str_eq}
use text.Mathlib.TextEquality.{eq_iff}
use kubeadmiral.Base.Tests.{eqb}

pub record Comparable {ℓ} (A : Type ℓ) : Type ℓ where
  pub same : A → A → Bool
  pub reflects : (a b : A) → (same a b ≡ true) ↔ (a ≡ b)

infix 50 ◌==◌
abbrev pub ◌==◌ {ℓ} : {A : Type ℓ} ⦃e : Comparable A⦄ → A → A → Bool
◌==◌ ⦃e⦄ = e.same

pub eqb_iff : (a b : ℕ) → (eqb a b ≡ true) ↔ (a ≡ b)
eqb_iff a b = ground arith

instance abbrev pub nat_eq : Comparable ℕ
nat_eq = record { same = eqb; reflects = eqb_iff }

instance abbrev pub string_eq : Comparable String
string_eq = record { same = str_eq; reflects = eq_iff }

-- `<` on strings.
abbrev pub string_less : String → String → Bool
string_less a b = elim (compare a b) [ Ordering.lt ↦ true | _ ↦ false ]

-- `reflect.DeepEqual` on two slices that are not nil.
abbrev pub list_beq {ℓ} : {A : Type ℓ} ⦃e : Comparable A⦄ → List A → List A → Bool
list_beq [] [] = true
list_beq [] (y ∷ ys) = false
list_beq (x ∷ xs) [] = false
list_beq (x ∷ xs) (y ∷ ys) = x == y && list_beq xs ys

false≢true : false ≢ true
false≢true h = cc

nil≢cons {ℓ} : {A : Type ℓ} {x : A} {xs : List A} → [] ≢ x ∷ xs
nil≢cons h = cc

cons_eq {ℓ} : {A : Type ℓ} {x y : A} {xs ys : List A} → x ∷ xs ≡ y ∷ ys → (x ≡ y) × (xs ≡ ys)
cons_eq h = (cc, cc)

pub list_beq_iff {ℓ} :
    {A : Type ℓ} ⦃e : Comparable A⦄ (xs ys : List A) → (list_beq xs ys ≡ true) ↔ (xs ≡ ys)
list_beq_iff [] [] = (λ h. refl, λ h. refl)
list_beq_iff [] (y ∷ ys) = (λ h. absurd (false≢true h), λ h. absurd (nil≢cons h))
list_beq_iff (x ∷ xs) [] = (λ h. absurd (false≢true h), λ h. absurd (nil≢cons (sym h)))
list_beq_iff ⦃e⦄ (x ∷ xs) (y ∷ ys) = (
  λ h. ground (arith, h, e.reflects x y, list_beq_iff xs ys),
  λ h. ground (arith, cons_eq h, e.reflects x y, list_beq_iff xs ys),
)

instance abbrev pub list_eq {ℓ} : {A : Type ℓ} ⦃e : Comparable A⦄ → Comparable (List A)
list_eq = record { same = list_beq; reflects = list_beq_iff }
