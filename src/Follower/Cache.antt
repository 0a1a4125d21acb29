-- ===== src/Follower/Cache.antt =====
-- pkg/controllers/follower/bidirectional_cache.go: a many-to-many relation kept as two maps of sets.
-- Every method holds the lock for its whole body, so a method is one step. `update` keeps the set
-- that it is handed, which its callers make afresh.
pub mod Mirror
use kubeadmiral.Base.{
  Option, none, some, Bool, true, false, List, [], ◌∷◌, not, ◌==◌, select, if◌then◌else◌,
}
use kubeadmiral.Base.Equality.{Comparable}
use kubeadmiral.Base.Assoc.{Map, lookup, insert, erase, has}
use kubeadmiral.Base.Sets.{or_nil, is_empty, insert_set, delete_set, difference}

pub record BidirectionalCache (A B : Type 0) : Type 0 where
  pub cache : Map A (List B)
  pub reverse_cache : Map B (List A)

module _ {A B : Type 0} ⦃ea : Comparable A⦄ ⦃eb : Comparable B⦄ where
  abbrev pub new_bidirectional_cache : BidirectionalCache A B
  new_bidirectional_cache = record { cache = []; reverse_cache = [] }

  abbrev pub lookup_values : A → BidirectionalCache A B → List B
  lookup_values key c = or_nil (lookup key c.cache)

  abbrev pub reverse_lookup : B → BidirectionalCache A B → List A
  reverse_lookup key c = or_nil (lookup key c.reverse_cache)

  unfoldable pub store_values : A → List B → Map A (List B) → Map A (List B)
  store_values key new_values cache =
      if is_empty new_values then erase key cache else insert key new_values cache

  -- The body of the loop over the stale values.
  unfoldable pub drop_key : A → B → Map B (List A) → Map B (List A)
  drop_key key value reverse = elim (lookup value reverse) [
    | none ↦ reverse
    | some key_set ↦
        let left = delete_set key key_set in
        if is_empty left then erase value reverse else insert value left reverse
  ]

  unfoldable pub drop_stale : A → List B → Map B (List A) → Map B (List A)
  drop_stale key [] reverse = reverse
  drop_stale key (v ∷ vs) reverse = drop_stale key vs (drop_key key v reverse)

  -- The loop over the added values.
  unfoldable pub add_new : A → List B → Map B (List A) → Map B (List A)
  add_new key [] reverse = reverse
  add_new key (v ∷ vs) reverse =
      add_new key vs (insert v (insert_set key (or_nil (lookup v reverse))) reverse)

  unfoldable pub update_cache : A → List B → BidirectionalCache A B → BidirectionalCache A B
  update_cache key new_values c =
      let old_values = or_nil (lookup key c.cache) in
      record {
        cache = store_values key new_values c.cache;
        reverse_cache =
            add_new key (difference new_values old_values)
              (drop_stale key (difference old_values new_values) c.reverse_cache);
      }
