-- ===== src/Base/Assoc.antt =====
-- Go's maps as association lists. A write to a present key keeps its place, a write to a new key
-- goes last, and a loop over a map is a loop over the list: what is proved of every list holds of
-- every order in which Go may walk the map.
use kubeadmiral.Base.Tests.{if◌then◌else◌, Bool-cases}
use kubeadmiral.Base.Lists.{sum_of, All}
use kubeadmiral.Base.Chain.{some_eq}
use kubeadmiral.Base.Equality.{Comparable, ◌==◌}
use Prim.Native.Nat.{ℕ, ◌+◌, ◌≤◌}
use mathlib.Core.Path.{◌≡◌, refl, ap, subst₂}
use mathlib.Core.Logic.{◌≢◌, inl, inr}
use mathlib.Core.Bool.{Bool, true, false, ◌||◌}
use mathlib.Core.Option.{Option, none, some}
use mathlib.Core.List.{List, [], ◌∷◌}
use native.Mathlib.Omega.{arith}

abbrev pub Map {ℓ κ} : Type ℓ → Type κ → Type (ℓ ⊔ κ)
Map K V = List (K × V)

abbrev pub is_some {ℓ} : {A : Type ℓ} → Option A → Bool
is_some none = false
is_some (some _) = true

-- What `m[k]` gives on a missing key: the zero value.
abbrev pub or_zero : Option ℕ → ℕ
or_zero none = 0
or_zero (some n) = n

none≢some {ℓ} : {A : Type ℓ} {a : A} → none ≢ some a
none≢some h = cc

module _ {ℓ κ} {K : Type ℓ} {V : Type κ} ⦃e : Comparable K⦄ where
  abbrev pub lookup : K → Map K V → Option V
  lookup k [] = none
  lookup k ((j, v) ∷ m) = if j == k then some v else lookup k m

  abbrev pub insert : K → V → Map K V → Map K V
  insert k v [] = (k, v) ∷ []
  insert k v ((j, w) ∷ m) = if j == k then (j, v) ∷ m else (j, w) ∷ insert k v m

  abbrev pub erase : K → Map K V → Map K V
  erase k [] = []
  erase k ((j, w) ∷ m) = let rest = erase k m in if j == k then rest else (j, w) ∷ rest

  pub lookup-insert :
      (k j : K) (v : V) (m : Map K V)
      → lookup j (insert k v m) ≡ (if k == j then some v else lookup j m)
  lookup-insert k j v [] = refl
  lookup-insert k j v ((i, w) ∷ m) =
      ground (arith, e.reflects k j, e.reflects i k, e.reflects i j, lookup-insert k j v m)

  pub lookup-erase :
      (k j : K) (m : Map K V) → lookup j (erase k m) ≡ (if k == j then none else lookup j m)
  lookup-erase k j [] = ground arith
  lookup-erase k j ((i, w) ∷ m) =
      ground (arith, e.reflects k j, e.reflects i k, e.reflects i j, lookup-erase k j m)

  pub lookup-insert_self : (k : K) (v : V) (m : Map K V) → lookup k (insert k v m) ≡ some v
  lookup-insert_self k v m = ground (arith, e.reflects k k, lookup-insert k k v m)

  pub lookup-insert_ne :
      (k j : K) (v : V) (m : Map K V) → k ≢ j → lookup j (insert k v m) ≡ lookup j m
  lookup-insert_ne k j v m h = ground (arith, e.reflects k j, lookup-insert k j v m)

  -- Every key stands once, as in Go's maps.
  abbrev pub UniqueKeys : Map K V → Type κ
  UniqueKeys [] = Unit
  UniqueKeys ((k, v) ∷ m) = (lookup k m ≡ none) × UniqueKeys m

  pub insert-UniqueKeys : (k : K) (v : V) (m : Map K V) → UniqueKeys m → UniqueKeys (insert k v m)
  insert-UniqueKeys k v [] u = (refl, tt)
  insert-UniqueKeys k v ((j, w) ∷ m) u = elim (Bool-cases (j == k)) [
    | inl same ↦ rw same u
    | inr other ↦ rw other (
      ground (arith, u.0, other, e.reflects k j, e.reflects j k, lookup-insert k j v m),
      insert-UniqueKeys k v m u.1,
    )
  ]

  pub erase-UniqueKeys : (k : K) (m : Map K V) → UniqueKeys m → UniqueKeys (erase k m)
  erase-UniqueKeys k [] u = tt
  erase-UniqueKeys k ((j, w) ∷ m) u = elim (Bool-cases (j == k)) [
    | inl same ↦ rw same (erase-UniqueKeys k m u.1)
    | inr other ↦ rw other (
      ground (arith, u.0, other, e.reflects k j, e.reflects j k, lookup-erase k j m),
      erase-UniqueKeys k m u.1,
    )
  ]

module _ {ℓ κ} {K : Type ℓ} {V : Type κ} ⦃e : Comparable K⦄ where
  entries-lookup_cons :
      (k : K) (v : V) (d rest : Map K V)
      → lookup k rest ≡ none
      → All (λ x. lookup x.0 d ≡ some x.1) rest
      → All (λ x. lookup x.0 ((k, v) ∷ d) ≡ some x.1) rest
  entries-lookup_cons k v d [] new h = tt
  entries-lookup_cons k v d ((j, w) ∷ rest) new h = (
    ground (arith, h.0, new, e.reflects j k, e.reflects k j),
    entries-lookup_cons k v d rest (ground (arith, new)) h.1,
  )

  -- Each entry of a map is what a look-up finds.
  pub entries-lookup : (d : Map K V) → UniqueKeys d → All (λ x. lookup x.0 d ≡ some x.1) d
  entries-lookup [] u = tt
  entries-lookup ((k, v) ∷ d) u =
      (ground (arith, e.reflects k k), entries-lookup_cons k v d d u.0 (entries-lookup d u.1))

  pub All-insert {μ} :
      (P : K × V → Type μ) (k : K) (v : V) (m : Map K V) → P (k, v) → All P m → All P (insert k v m)
  All-insert P k v [] h a = (h, tt)
  All-insert P k v ((j, w) ∷ m) h a = elim (Bool-cases (j == k)) [
    | inl same ↦ rw same (rw ((e.reflects j k).0 same) h, a.1)
    | inr other ↦ rw other (a.0, All-insert P k v m h a.1)
  ]

  pub All-lookup {μ} :
      (P : K × V → Type μ) (k : K) (v : V) (m : Map K V) → All P m → lookup k m ≡ some v → P (k, v)
  All-lookup P k v [] a h = absurd (none≢some h)
  All-lookup P k v ((j, w) ∷ m) a h = elim (Bool-cases (j == k)) [
    | inl same ↦ subst₂ (λ x y. P (x, y)) ((e.reflects j k).0 same) (some_eq (rw same at h)) a.0
    | inr other ↦ All-lookup P k v m a.1 (rw other at h)
  ]

-- A set of keys, as a map to the empty struct is.
module _ {ℓ} {K : Type ℓ} ⦃e : Comparable K⦄ where
  abbrev pub has : K → List K → Bool
  has k [] = false
  has k (j ∷ s) = j == k || has k s

  -- The sum of the values of a map of numbers.
  abbrev pub total : Map K ℕ → ℕ
  total m = sum_of (λ x. x.1) m

  pub total-insert :
      (k : K) (v : ℕ) (m : Map K ℕ) → total (insert k v m) + or_zero (lookup k m) ≡ total m + v
  total-insert k v [] = omega arith
  total-insert k v ((j, w) ∷ m) = ground (arith, total-insert k v m)

  pub total-erase : (k : K) (m : Map K ℕ) → total (erase k m) + or_zero (lookup k m) ≤ total m
  total-erase k [] = omega arith
  total-erase k ((j, w) ∷ m) = ground (arith, total-erase k m)

  pub total-erase_unique :
      (k : K) (m : Map K ℕ) → UniqueKeys m → total m ≡ total (erase k m) + or_zero (lookup k m)
  total-erase_unique k [] u = omega arith
  total-erase_unique k ((j, w) ∷ m) u =
      ground (arith, total-erase_unique k m u.1, u.0, e.reflects j k, ap or_zero (u.0))
