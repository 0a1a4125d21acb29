-- ===== src/Util/MultiMap/Relation.antt =====
-- The two maps of a multimap tell the same relation.
use kubeadmiral.Base.{
  ◌≡◌, ◌↔◌, refl, none, some, Bool, true, ◌==◌, arith, Option-cases, inl, inr, if◌then◌else◌, List,
  [], ◌∷◌,
}
use kubeadmiral.Base.Equality.{Comparable}
use kubeadmiral.Base.Assoc.{Map, lookup, erase, has, lookup-insert, lookup-erase}
use kubeadmiral.Util.MultiMap.{
  MultiMap, lookup_by_t1, lookup_by_t2, add, delete_t1, delete_t2, erase_all, drop_value,
}
use kubeadmiral.Base.Sets.{or_nil, insert_set, delete_set, has-insert_set, has-delete_set}

module _ {ℓ} {A B : Type ℓ} ⦃ea : Comparable A⦄ ⦃eb : Comparable B⦄ where
  -- The set of `a` holds `b`.
  abbrev pub related : A → B → MultiMap A B → Bool
  related a b m = has b (or_nil (lookup_by_t1 a m))

  -- `b` is in the set of `a` exactly when the map back sends `b` to `a`.
  abbrev pub IsConsistent : MultiMap A B → Type ℓ
  IsConsistent m = (a : A) (b : B) → (related a b m ≡ true) ↔ (lookup_by_t2 b m ≡ some a)

  lookup-erase_all :
      (b : B) (s : List B) (m : Map B A)
      → lookup b (erase_all s m) ≡ (if has b s then none else lookup b m)
  unfolding erase_all
  lookup-erase_all b [] m = refl
  lookup-erase_all b (x ∷ s) m =
      ground (arith, lookup-erase_all b s (erase x m), lookup-erase x b m)

  lookup-drop_value :
      (val a : A) (key b : B) (m : Map A (List B))
      → has b (or_nil (lookup a (drop_value val key m))) ≡ (
          if val == a
          then has b (delete_set key (or_nil (lookup val m)))
          else has b (or_nil (lookup a m)))
  unfolding drop_value
  lookup-drop_value val a key b m =
      ground (
        arith,
        lookup-erase val a m,
        lookup-insert val a (delete_set key (or_nil (lookup val m))) m,
      )

  -- `Add` keeps the two maps of a multimap telling one relation, whether it adds or refuses.
  pub add-IsConsistent :
      (t1 : A) (t2 : B) (m : MultiMap A B) → IsConsistent m → IsConsistent (add t1 t2 m).0
  unfolding add
  add-IsConsistent t1 t2 m h a b =
      let s = or_nil (lookup t1 m.t1_to_t2) in
      ground (
        arith,
        h a b,
        h t1 b,
        ea.reflects t1 a,
        eb.reflects t2 b,
        lookup-insert t1 a (insert_set t2 s) m.t1_to_t2,
        lookup-insert t2 b t1 m.t2_to_t1,
        has-insert_set t2 b s,
      )

  delete_t1-IsConsistent :
      (t1 : A) (m : MultiMap A B) → IsConsistent m → IsConsistent (delete_t1 t1 m).0
  unfolding delete_t1
  delete_t1-IsConsistent t1 m h a b = elim (Option-cases (lookup t1 m.t1_to_t2)) [
    | inl e ↦ rw (e, delete_t1) (h a b)
    | inr (val, e) ↦
        rw (e, delete_t1)
          (ground (
            arith,
            e,
            h a b,
            h t1 b,
            ea.reflects t1 a,
            lookup-erase t1 a m.t1_to_t2,
            lookup-erase_all b val m.t2_to_t1,
          ))
  ]

  delete_t2-IsConsistent :
      (t2 : B) (m : MultiMap A B) → IsConsistent m → IsConsistent (delete_t2 t2 m).0
  unfolding delete_t2
  delete_t2-IsConsistent t2 m h a b = elim (Option-cases (lookup t2 m.t2_to_t1)) [
    | inl e ↦ rw (e, delete_t2) (h a b)
    | inr (val, e) ↦
        rw (e, delete_t2)
          (ground (
            arith,
            e,
            h a b,
            h a t2,
            h val t2,
            ea.reflects val a,
            eb.reflects t2 b,
            lookup-erase t2 b m.t2_to_t1,
            lookup-drop_value val a t2 b m.t1_to_t2,
            has-delete_set t2 b (or_nil (lookup val m.t1_to_t2)),
          ))
  ]

  -- `DeleteT1` and `DeleteT2` keep the two maps of a multimap telling one relation.
  pub delete-IsConsistent :
      (t1 : A) (t2 : B) (m : MultiMap A B)
      → IsConsistent m
      → IsConsistent (delete_t1 t1 m).0 × IsConsistent (delete_t2 t2 m).0
  delete-IsConsistent t1 t2 m h = (delete_t1-IsConsistent t1 m h, delete_t2-IsConsistent t2 m h)
