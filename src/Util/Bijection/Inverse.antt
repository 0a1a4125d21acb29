-- ===== src/Util/Bijection/Inverse.antt =====
-- The two maps of a bijection stay inverse to one another.
use kubeadmiral.Base.{◌≡◌, ◌↔◌, none, some, arith, Option-cases, inl, inr}
use kubeadmiral.Base.Equality.{Comparable}
use kubeadmiral.Base.Assoc.{lookup, insert, erase, lookup-insert, lookup-erase}
use kubeadmiral.Util.Bijection.{Bijection, lookup_by_t1, lookup_by_t2, add, delete_t1, delete_t2}

module _ {ℓ} {A B : Type ℓ} ⦃ea : Comparable A⦄ ⦃eb : Comparable B⦄ where
  -- The first map sends `a` to `b` exactly when the second sends `b` to `a`.
  abbrev pub IsInverse : Bijection A B → Type ℓ
  IsInverse m = (a : A) (b : B) → (lookup_by_t1 a m ≡ some b) ↔ (lookup_by_t2 b m ≡ some a)

  -- `Add` keeps the two maps of a bijection inverse to one another, whether it adds or refuses.
  pub add-IsInverse :
      (t1 : A) (t2 : B) (m : Bijection A B) → IsInverse m → IsInverse (add t1 t2 m).0
  unfolding add
  add-IsInverse t1 t2 m h a b = ground (
    arith,
    h a b,
    h a t2,
    h t1 b,
    ea.reflects t1 a,
    eb.reflects t2 b,
    lookup-insert t1 a t2 m.t1_to_t2,
    lookup-insert t2 b t1 m.t2_to_t1,
  )

  -- Dropping both ends of one pair.
  erase_pair :
      (t1 : A) (t2 : B) (m : Bijection A B)
      → IsInverse m
      → lookup t1 m.t1_to_t2 ≡ some t2
      → IsInverse (record { t1_to_t2 = erase t1 m.t1_to_t2; t2_to_t1 = erase t2 m.t2_to_t1 })
  erase_pair t1 t2 m h e a b = ground (
    arith,
    e,
    h a b,
    h a t2,
    h t1 b,
    h t1 t2,
    ea.reflects t1 a,
    eb.reflects t2 b,
    eb.reflects t2 t2,
    ea.reflects a t1,
    eb.reflects b t2,
    lookup-erase t1 a m.t1_to_t2,
    lookup-erase t2 b m.t2_to_t1,
  )

  -- In inverse maps a pair stands in both.
  flip_pair :
      (t1 : A) (t2 : B) (m : Bijection A B)
      → IsInverse m
      → lookup t2 m.t2_to_t1 ≡ some t1
      → lookup t1 m.t1_to_t2 ≡ some t2
  flip_pair t1 t2 m h e = (h t1 t2).1 e

  -- `DeleteT1` and `DeleteT2` keep the two maps of a bijection inverse to one another.
  pub delete-IsInverse :
      (t1 : A) (t2 : B) (m : Bijection A B)
      → IsInverse m
      → IsInverse (delete_t1 t1 m).0 × IsInverse (delete_t2 t2 m).0
  unfolding delete_t1 delete_t2
  delete-IsInverse t1 t2 m h = (
    elim (Option-cases (lookup t1 m.t1_to_t2)) [
      | inl e ↦ rw (e, delete_t1) h
      | inr (val, e) ↦ rw (e, delete_t1) (erase_pair t1 val m h e)
    ],
    elim (Option-cases (lookup t2 m.t2_to_t1)) [
      | inl e ↦ rw (e, delete_t2) h
      | inr (val, e) ↦ rw (e, delete_t2) (erase_pair val t2 m h (flip_pair val t2 m h e))
    ],
  )

  -- A pair that `Add` accepts is found from both ends, and deleting it by either end removes it
  -- from both maps.
  pub add_found :
      (t1 : A) (t2 : B) (m : Bijection A B)
      → (add t1 t2 m).1 ≡ none
      → let m' = (add t1 t2 m).0 in
        (lookup_by_t1 t1 m' ≡ some t2)
        × (lookup_by_t2 t2 m' ≡ some t1)
        × (lookup_by_t1 t1 (delete_t2 t2 m').0 ≡ none)
        × (lookup_by_t2 t2 (delete_t1 t1 m').0 ≡ none)
        × (lookup_by_t1 t1 (delete_t1 t1 m').0 ≡ none)
        × (lookup_by_t2 t2 (delete_t2 t2 m').0 ≡ none)
  unfolding add delete_t1 delete_t2
  add_found t1 t2 m h = ground (
    arith,
    ea.reflects t1 t1,
    eb.reflects t2 t2,
    lookup-insert t1 t1 t2 m.t1_to_t2,
    lookup-insert t2 t2 t1 m.t2_to_t1,
    lookup-erase t1 t1 (insert t1 t2 m.t1_to_t2),
    lookup-erase t2 t2 (insert t2 t1 m.t2_to_t1),
  )
