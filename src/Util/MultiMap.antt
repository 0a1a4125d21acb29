-- ===== src/Util/MultiMap.antt =====
-- pkg/util/multimap/multi_map.go: a many-to-one relation kept as a map of sets and a map back.
-- Every method takes the lock for its whole body, so a method is one step.
pub mod Relation
use kubeadmiral.Base.{
  Option, none, some, Bool, true, false, List, [], ◌∷◌, not, ◌==◌, select, if◌then◌else◌,
}
use kubeadmiral.Base.Equality.{Comparable}
use kubeadmiral.Base.Assoc.{Map, lookup, insert, erase, has}
use kubeadmiral.Base.Sets.{or_nil, is_empty, insert_set, delete_set}

pub record MultiMap {ℓ} (A B : Type ℓ) : Type ℓ where
  pub t1_to_t2 : Map A (List B)
  pub t2_to_t1 : Map B A

-- The errors of `Add`: the pair is there, or the second is mapped to another.
pub data AddError {ℓ} (A B : Type ℓ) : Type ℓ where
  pair_mapped : A → B → AddError A B
  t2_mapped : B → A → AddError A B

module _ {ℓ} {A B : Type ℓ} ⦃ea : Comparable A⦄ ⦃eb : Comparable B⦄ where
  abbrev pub new_multi_map : MultiMap A B
  new_multi_map = record { t1_to_t2 = []; t2_to_t1 = [] }

  abbrev pub lookup_by_t1 : A → MultiMap A B → Option (List B)
  lookup_by_t1 key m = lookup key m.t1_to_t2

  abbrev pub lookup_by_t2 : B → MultiMap A B → Option A
  lookup_by_t2 key m = lookup key m.t2_to_t1

  unfoldable pub add : A → B → MultiMap A B → MultiMap A B × Option (AddError A B)
  add t1 t2 m =
      if has t2 (or_nil (lookup t1 m.t1_to_t2))
      then (m, some (pair_mapped t1 t2))
      else elim (lookup t2 m.t2_to_t1) [
        | some val ↦ (m, some (t2_mapped t2 val))
        | none ↦ (
          record {
            t1_to_t2 = insert t1 (insert_set t2 (or_nil (lookup t1 m.t1_to_t2))) m.t1_to_t2;
            t2_to_t1 = insert t2 t1 m.t2_to_t1;
          },
          none,
        )
      ]

  -- `for subVal := range val { delete(o.t2ToT1Map, subVal) }`
  unfoldable pub erase_all : List B → Map B A → Map B A
  erase_all [] m = m
  erase_all (x ∷ s) m = erase_all s (erase x m)

  unfoldable pub delete_t1 : A → MultiMap A B → MultiMap A B × Bool
  delete_t1 key m = elim (lookup key m.t1_to_t2) [
    | none ↦ (m, false)
    | some val ↦
        (record { t1_to_t2 = erase key m.t1_to_t2; t2_to_t1 = erase_all val m.t2_to_t1 }, true)
  ]

  -- `o.t1ToT2Map[val].Delete(key)`, and the entry goes with its last value.
  unfoldable pub drop_value : A → B → Map A (List B) → Map A (List B)
  drop_value val key m =
      let left = delete_set key (or_nil (lookup val m)) in
      if is_empty left then erase val m else insert val left m

  unfoldable pub delete_t2 : B → MultiMap A B → MultiMap A B × Bool
  delete_t2 key m = elim (lookup key m.t2_to_t1) [
    | none ↦ (m, false)
    | some val ↦
        (record { t1_to_t2 = drop_value val key m.t1_to_t2; t2_to_t1 = erase key m.t2_to_t1 }, true)
  ]
