-- ===== src/Sync/Status/Outcome.antt =====
-- What the two halves of `update`, `setClusters` and `setPropagationCondition`, leave behind.
use kubeadmiral.Base.{
  ◌≡◌, ◌≢◌, ◌↔◌, refl, sym, ap, ◌∙◌, ℕ, String, Bool, true, false, List, [], ◌∷◌, ◌||◌, ◌&&◌, any,
  map, length, ◌==◌, string_eq, string_less, arith, inl, inr, Bool-cases, All,
}
use kubeadmiral.Base.Assoc.{Map, lookup, or_zero}
use kubeadmiral.Base.Sorting.{sort, length-sort}
use kubeadmiral.Sync.Status.{
  PropagationStatus, Condition, propagated, or_empty, status_differs, clusters_differ, status_of,
  set_clusters, touch, set_condition,
}

-- The entry says of its cluster what the maps say.
abbrev pub Agrees : Map String String → Map String ℕ → PropagationStatus → Type 0
Agrees status_map generation_map s =
    (or_empty (lookup s.cluster status_map) ≡ s.status)
    × (or_zero (lookup s.cluster generation_map) ≡ s.last_observed_generation)

-- The list has an entry for each entry of the status map, and each agrees with the maps.
abbrev pub Mirrors : Map String String → Map String ℕ → List PropagationStatus → Type 0
Mirrors status_map generation_map clusters =
    (length clusters ≡ length status_map) × All (Agrees status_map generation_map) clusters

true≢false : true ≢ false
true≢false h = cc

or-true : (b : Bool) → (b || true) ≡ true
or-true true = refl
or-true false = refl

module _ (sm : Map String String) (gm : Map String ℕ) where
  any-Agrees :
      (cs : List PropagationStatus)
      → (any (status_differs sm gm) cs ≡ false) ↔ All (Agrees sm gm) cs
  any-Agrees [] = (λ h. tt, λ h. refl)
  any-Agrees (c ∷ cs) =
      ground (arith, any-Agrees cs, string_eq.reflects (or_empty (lookup c.cluster sm)) c.status)

  map-Agrees : (names : List String) → All (Agrees sm gm) (map (status_of sm gm) names)
  map-Agrees [] = tt
  map-Agrees (n ∷ ns) = ((refl, refl), map-Agrees ns)

  length-map : {A B : Type 0} (f : A → B) (xs : List A) → length (map f xs) ≡ length xs
  length-map f [] = refl
  length-map f (x ∷ xs) = omega (arith, length-map f xs)

  written-Mirrors : Mirrors sm gm (map (status_of sm gm) (sort string_less (map (λ x. x.0) sm)))
  written-Mirrors = (
    length-map (status_of sm gm) (sort string_less (map (λ x. x.0) sm))
        ∙ length-sort string_less (map (λ x. x.0) sm)
        ∙ length-map (λ x. x.0) sm,
    map-Agrees (sort string_less (map (λ x. x.0) sm)),
  )

  pub clusters_differ-Mirrors :
      (cs : List PropagationStatus)
      → Mirrors sm gm cs
      → length sm ≡ length gm
      → clusters_differ cs sm gm ≡ false
  unfolding clusters_differ
  clusters_differ-Mirrors cs m h = ground (arith, m.0, h, (any-Agrees cs).1 m.1)

  pub set_clusters-differs :
      (cs : List PropagationStatus) → (set_clusters cs sm gm).1 ≡ clusters_differ cs sm gm
  unfolding set_clusters
  set_clusters-differs cs = ground arith

  pub set_clusters-same :
      (cs : List PropagationStatus)
      → (set_clusters cs sm gm).1 ≡ false
      → (set_clusters cs sm gm).0 ≡ cs
  unfolding set_clusters
  set_clusters-same cs h = ground (arith, h)

  pub set_clusters-Mirrors : (cs : List PropagationStatus) → Mirrors sm gm (set_clusters cs sm gm).0
  unfolding set_clusters clusters_differ
  set_clusters-Mirrors cs = elim (Bool-cases (clusters_differ cs sm gm)) [
    | inl e ↦ rw (set_clusters, e) written-Mirrors
    | inr e ↦ rw (set_clusters, e) (ground (arith, e), (any-Agrees cs).0 (ground (arith, e)))
  ]

module _ (st r : String) where
  touch-same :
      (now : ℕ) (ch : Bool) (c : Condition)
      → (touch now st r ch c).1 ≡ false
      → (ch ≡ false) × ((touch now st r ch c).0 ≡ c)
  unfolding touch
  touch-same now ch c h = elim (Bool-cases (c.status == st && c.reason == r)) [
    | inl e ↦ elim (Bool-cases ch) [
      | inl f ↦ absurd (true≢false (rw (touch, e, f) at h))
      | inr f ↦ (f, rw (touch, e, f) refl)
    ]
    | inr e ↦ absurd (true≢false (sym (or-true ch) ∙ rw (touch, e) at h))
  ]

  pub set_condition-same :
      (now : ℕ) (ch : Bool) (cs : List Condition)
      → (set_condition now st r ch cs).1 ≡ false
      → (ch ≡ false) × ((set_condition now st r ch cs).0 ≡ cs)
  unfolding set_condition
  set_condition-same now ch [] h = absurd (true≢false h)
  set_condition-same now ch (c ∷ cs) h = elim (Bool-cases (c.kind == propagated)) [
    | inl e ↦
        let t = touch-same now ch c (rw (set_condition, e) at h) in
        (t.0, rw (set_condition, e) (ap (λ x. x ∷ cs) t.1))
    | inr e ↦
        let t = set_condition-same now ch cs (rw (set_condition, e) at h) in
        (t.0, rw (set_condition, e) (ap (λ x. c ∷ x) t.1))
  ]

  -- What a touched condition says.
  abbrev pub Says : Condition → Type 0
  Says c = (c.status ≡ st) × (c.reason ≡ r)

  pub touch-Says :
      (now : ℕ) (ch : Bool) (c : Condition)
      → Says (touch now st r ch c).0 × ((touch now st r ch c).0.kind ≡ c.kind)
  unfolding touch
  touch-Says now ch c = elim (Bool-cases (c.status == st && c.reason == r)) [
    | inl e ↦ elim (Bool-cases ch) [
      | inl f ↦
          rw (touch, e, f)
            (ground (arith, e, string_eq.reflects c.status st, string_eq.reflects c.reason r))
      | inr f ↦
          rw (touch, e, f)
            (ground (arith, e, string_eq.reflects c.status st, string_eq.reflects c.reason r))
    ]
    | inr e ↦ elim (Bool-cases ch) [
      | inl f ↦ rw (touch, e, f) ((refl, refl), refl)
      | inr f ↦ rw (touch, e, f) ((refl, refl), refl)
    ]
  ]

  touch-settled : (now : ℕ) (c : Condition) → Says c → (touch now st r false c).1 ≡ false
  unfolding touch
  touch-settled now c h =
      ground (arith, h, string_eq.reflects c.status st, string_eq.reflects c.reason r)

  pub set_condition-settled :
      (now now' : ℕ) (ch : Bool) (cs : List Condition)
      → (set_condition now' st r false (set_condition now st r ch cs).0).1 ≡ false
  unfolding set_condition
  set_condition-settled now now' ch [] = touch-settled now' _ (refl, refl)
  set_condition-settled now now' ch (c ∷ cs) = elim (Bool-cases (c.kind == propagated)) [
    | inl e ↦
        let says = touch-Says now ch c in
        rw (set_condition, e, says.1, e) (touch-settled now' _ says.0)
    | inr e ↦ rw (set_condition, e, set_condition, e) (set_condition-settled now now' ch cs)
  ]
