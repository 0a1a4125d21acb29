-- ===== src/Follower/Cache/Mirror.antt =====
-- The two maps tell one relation, whatever is updated.
use kubeadmiral.Base.{
  ◌≡◌, refl, sym, ◌∙◌, Bool, true, false, List, [], ◌∷◌, not, ◌==◌, ◌&&◌, arith, inl, inr,
  Bool-cases, Option-cases, if◌then◌else◌,
}
use kubeadmiral.Base.Equality.{Comparable}
use kubeadmiral.Base.Assoc.{Map, lookup, insert, has, lookup-insert, lookup-erase}
use kubeadmiral.Base.Sets.{
  or_nil, is_empty, insert_set, delete_set, difference, has-insert_set, has-delete_set, has-select,
}
use kubeadmiral.Follower.Cache.{
  BidirectionalCache, new_bidirectional_cache, lookup_values, reverse_lookup, store_values,
  drop_key, drop_stale, add_new, update_cache,
}

has_empty :
    {A : Type 0} ⦃ea : Comparable A⦄ (x : A) (s : List A) → is_empty s ≡ true → has x s ≡ false
has_empty x [] h = refl
has_empty x (y ∷ s) h = cc

module _ {A B : Type 0} ⦃ea : Comparable A⦄ ⦃eb : Comparable B⦄ where
  -- `b` is among the values of `a`.
  abbrev pub holds : A → B → BidirectionalCache A B → Bool
  holds a b c = has b (lookup_values a c)

  -- `a` is among the keys of `b`.
  abbrev pub holds_back : A → B → BidirectionalCache A B → Bool
  holds_back a b c = has a (reverse_lookup b c)

  abbrev pub IsMirrored : BidirectionalCache A B → Type 0
  IsMirrored c = (a : A) (b : B) → holds a b c ≡ holds_back a b c

  store_values-lookup :
      (key a : A) (vs : List B) (m : Map A (List B))
      → or_nil (lookup a (store_values key vs m)) ≡ (if key == a then vs else or_nil (lookup a m))
  unfolding store_values
  store_values-lookup key a [] m = ground (arith, lookup-erase key a m)
  store_values-lookup key a (v ∷ vs) m = ground (arith, lookup-insert key a (v ∷ vs) m)

  drop_key-has :
      (key a : A) (v b : B) (m : Map B (List A))
      → has a (or_nil (lookup b (drop_key key v m)))
        ≡ (if key == a && v == b then false else has a (or_nil (lookup b m)))
  unfolding drop_key
  drop_key-has key a v b m = elim (Option-cases (lookup v m)) [
    | inl e ↦ rw (drop_key, e) (ground (arith, e, eb.reflects v b))
    | inr (s, e) ↦ elim (Bool-cases (is_empty (delete_set key s))) [
      | inl f ↦
          rw (drop_key, e, f)
            (ground (
              arith,
              e,
              f,
              eb.reflects v b,
              lookup-erase v b m,
              has-delete_set key a s,
              has_empty a (delete_set key s) f,
            ))
      | inr f ↦
          rw (drop_key, e, f)
            (ground (
              arith,
              e,
              eb.reflects v b,
              lookup-insert v b (delete_set key s) m,
              has-delete_set key a s,
            ))
    ]
  ]

  drop_stale-has :
      (key a : A) (vs : List B) (b : B) (m : Map B (List A))
      → has a (or_nil (lookup b (drop_stale key vs m)))
        ≡ (if key == a && has b vs then false else has a (or_nil (lookup b m)))
  unfolding drop_stale
  drop_stale-has key a [] b m = ground arith
  drop_stale-has key a (v ∷ vs) b m =
      ground (arith, drop_stale-has key a vs b (drop_key key v m), drop_key-has key a v b m)

  add_new-has :
      (key a : A) (vs : List B) (b : B) (m : Map B (List A))
      → has a (or_nil (lookup b (add_new key vs m)))
        ≡ (if key == a && has b vs then true else has a (or_nil (lookup b m)))
  unfolding add_new
  add_new-has key a [] b m = ground arith
  add_new-has key a (v ∷ vs) b m =
      let s = insert_set key (or_nil (lookup v m)) in
      ground (
        arith,
        add_new-has key a vs b (insert v s m),
        lookup-insert v b s m,
        eb.reflects v b,
        has-insert_set key a (or_nil (lookup v m)),
      )

  update_cache-IsMirrored :
      (key a : A) (b : B) (new_values : List B) (c : BidirectionalCache A B)
      → IsMirrored c
      → (holds a b (update_cache key new_values c)
          ≡ (if key == a then has b new_values else holds a b c))
        × (holds_back a b (update_cache key new_values c)
            ≡ (if key == a then has b new_values else holds a b c))
  unfolding update_cache
  update_cache-IsMirrored key a b vs c h =
      let old = or_nil (lookup key c.cache) in
      let stale = difference old vs in
      (
        ground (arith, store_values-lookup key a vs c.cache),
        ground (
          arith,
          h a b,
          ea.reflects key a,
          add_new-has key a (difference vs old) b (drop_stale key stale c.reverse_cache),
          drop_stale-has key a stale b c.reverse_cache,
          has-select b (λ (y : B). not (has y vs)) old,
          has-select b (λ (y : B). not (has y old)) vs,
        ),
      )

  -- The caches that a run of updates leads to, from the new one.
  pub data Cached : BidirectionalCache A B → Type 0 where
    fresh : Cached new_bidirectional_cache
    updated :
        {c : BidirectionalCache A B} (key : A) (values : List B)
        → Cached c
        → Cached (update_cache key values c)

  Cached-IsMirrored : (c : BidirectionalCache A B) → Cached c → IsMirrored c
  Cached-IsMirrored c fresh a b = refl
  Cached-IsMirrored c (updated {c = before} key values r) a b =
      let (there, back) =
        update_cache-IsMirrored key a b values before (Cached-IsMirrored before r) in
      there ∙ sym back

  -- After an update of a cache that updates reach, in both directions the key is related to
  -- exactly the new values, and every other key to what it was related to.
  pub update_cache-holds :
      (key a : A) (b : B) (new_values : List B) (c : BidirectionalCache A B)
      → Cached c
      → (holds a b (update_cache key new_values c)
          ≡ (if key == a then has b new_values else holds a b c))
        × (holds_back a b (update_cache key new_values c)
            ≡ (if key == a then has b new_values else holds_back a b c))
  update_cache-holds key a b vs c r =
      let mirrored = Cached-IsMirrored c r in
      let h = update_cache-IsMirrored key a b vs c mirrored in ground (arith, h, mirrored a b)
