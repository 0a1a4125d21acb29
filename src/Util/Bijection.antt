-- ===== src/Util/Bijection.antt =====
-- pkg/util/bijection/bijection.go: a one-to-one relation kept as two maps. Every method takes the
-- lock for its whole body, so a method is one step; a method that changes the maps returns them.
pub mod Inverse
use kubeadmiral.Base.{Option, none, some, Bool, true, false, []}
use kubeadmiral.Base.Equality.{Comparable}
use kubeadmiral.Base.Assoc.{Map, lookup, insert, erase}

pub record Bijection {ℓ} (A B : Type ℓ) : Type ℓ where
  pub t1_to_t2 : Map A B
  pub t2_to_t1 : Map B A

-- The error of `Add`: which of the two is mapped already, and to what.
pub data AddError {ℓ} (A B : Type ℓ) : Type ℓ where
  t1_mapped : A → B → AddError A B
  t2_mapped : B → A → AddError A B

module _ {ℓ} {A B : Type ℓ} ⦃ea : Comparable A⦄ ⦃eb : Comparable B⦄ where
  abbrev pub new_bijection : Bijection A B
  new_bijection = record { t1_to_t2 = []; t2_to_t1 = [] }

  abbrev pub lookup_by_t1 : A → Bijection A B → Option B
  lookup_by_t1 key m = lookup key m.t1_to_t2

  abbrev pub lookup_by_t2 : B → Bijection A B → Option A
  lookup_by_t2 key m = lookup key m.t2_to_t1

  unfoldable pub add : A → B → Bijection A B → Bijection A B × Option (AddError A B)
  add t1 t2 m = elim (lookup t1 m.t1_to_t2) [
    | some val ↦ (m, some (t1_mapped t1 val))
    | none ↦ elim (lookup t2 m.t2_to_t1) [
      | some val ↦ (m, some (t2_mapped t2 val))
      | none ↦
          (record { t1_to_t2 = insert t1 t2 m.t1_to_t2; t2_to_t1 = insert t2 t1 m.t2_to_t1 }, none)
    ]
  ]

  unfoldable pub delete_t1 : A → Bijection A B → Bijection A B × Bool
  delete_t1 key m = elim (lookup key m.t1_to_t2) [
    | none ↦ (m, false)
    | some val ↦ (record { t1_to_t2 = erase key m.t1_to_t2; t2_to_t1 = erase val m.t2_to_t1 }, true)
  ]

  unfoldable pub delete_t2 : B → Bijection A B → Bijection A B × Bool
  delete_t2 key m = elim (lookup key m.t2_to_t1) [
    | none ↦ (m, false)
    | some val ↦ (record { t1_to_t2 = erase val m.t1_to_t2; t2_to_t1 = erase key m.t2_to_t1 }, true)
  ]
