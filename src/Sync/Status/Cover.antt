-- ===== src/Sync/Status/Cover.antt =====
-- The clusters of the status are those that were collected, each once.
use kubeadmiral.Base.{
  ◌≡◌, ◌≢◌, refl, sym, ap, subst, ◌∙◌, ℕ, String, Option, none, some, true, false, List, [], ◌∷◌,
  map, length, ◌==◌, string_eq, string_less, arith, inl, inr, Bool-cases, Option-cases, All,
  if◌then◌else◌,
}
use kubeadmiral.Base.Assoc.{Map, lookup, has, is_some, or_zero, UniqueKeys}
use kubeadmiral.Base.Subset.{Distinct, Subset, Subset-full}
use kubeadmiral.Base.Sorting.{sort, place}
use kubeadmiral.Sync.Status.{
  PropagationStatus, ObjectStatus, Collected, clusters_differ, status_of, or_empty, set_clusters,
  update,
}
use kubeadmiral.Sync.Status.Outcome.{Agrees, Mirrors, set_clusters-Mirrors}

abbrev pub names_of : List PropagationStatus → List String
names_of = map (λ (c : PropagationStatus). c.cluster)

abbrev pub keys : Map String String → List String
keys = map (λ (x : String × String). x.0)

-- No cluster stands twice, and none has an empty status.
abbrev pub WellFormed : List PropagationStatus → Type 0
WellFormed cs = Distinct (names_of cs) × All (λ (c : PropagationStatus). c.status ≢ "") cs

-- What the status reports of a cluster.
abbrev pub reported : String → List PropagationStatus → Option (String × ℕ)
reported name [] = none
reported name (c ∷ cs) =
    if c.cluster == name then some (c.status, c.last_observed_generation) else reported name cs

-- What was collected of a cluster; a missing generation counts as 0.
abbrev pub with_generation : ℕ → Option String → Option (String × ℕ)
with_generation generation none = none
with_generation generation (some status) = some (status, generation)

has-place :
    (x y : String) (s : List String)
    → has x (place string_less y s) ≡ (if y == x then true else has x s)
has-place x y [] = ground arith
has-place x y (z ∷ s) = elim (Bool-cases (string_less z y)) [
  | inl e ↦ rw e (ground (arith, has-place x y s))
  | inr e ↦ rw e (ground arith)
]

pub has-sort : (x : String) (s : List String) → has x (sort string_less s) ≡ has x s
has-sort x [] = refl
has-sort x (y ∷ s) = has-place x y (sort string_less s) ∙ ground (arith, has-sort x s)

place-Distinct :
    (y : String) (s : List String) → has y s ≡ false → Distinct s → Distinct (place string_less y s)
place-Distinct y [] h d = (refl, tt)
place-Distinct y (z ∷ s) h d = elim (Bool-cases (string_less z y)) [
  | inl e ↦ rw e (
    has-place z y s ∙ ground (arith, h, d.0, string_eq.reflects y z, string_eq.reflects z y),
    place-Distinct y s (ground (arith, h)) d.1,
  )
  | inr e ↦ rw e (h, d)
]

sort-Distinct : (s : List String) → Distinct s → Distinct (sort string_less s)
sort-Distinct [] d = tt
sort-Distinct (y ∷ s) d =
    place-Distinct y (sort string_less s) (has-sort y s ∙ d.0) (sort-Distinct s d.1)

has-keys : (x : String) (m : Map String String) → has x (keys m) ≡ is_some (lookup x m)
has-keys x [] = refl
has-keys x ((k, v) ∷ m) = ground (arith, has-keys x m)

keys-Distinct : (m : Map String String) → UniqueKeys m → Distinct (keys m)
keys-Distinct [] u = tt
keys-Distinct ((k, v) ∷ m) u = (has-keys k m ∙ ap is_some u.0, keys-Distinct m u.1)

length-map : {A B : Type 0} (f : A → B) (xs : List A) → length (map f xs) ≡ length xs
length-map f [] = refl
length-map f (x ∷ xs) = omega (arith, length-map f xs)

module _ (sm : Map String String) (gm : Map String ℕ) where
  entry-lookup :
      (c : PropagationStatus) → Agrees sm gm c → c.status ≢ "" → lookup c.cluster sm ≡ some c.status
  entry-lookup c a ne = elim (Option-cases (lookup c.cluster sm)) [
    | inl e ↦ absurd (ne (sym a.0 ∙ ap or_empty e))
    | inr (st, e) ↦ e ∙ ap some (sym (ap or_empty e) ∙ a.0)
  ]

  names-Subset :
      (cs : List PropagationStatus)
      → All (Agrees sm gm) cs
      → All (λ (c : PropagationStatus). c.status ≢ "") cs
      → Subset (names_of cs) (keys sm)
  names-Subset [] a ne x h = ground (arith, h)
  names-Subset (c ∷ cs) a ne x h = elim (Bool-cases (c.cluster == x)) [
    | inl same ↦
        has-keys x sm
        ∙ ap (λ k. is_some (lookup k sm)) (sym ((string_eq.reflects c.cluster x).0 same))
        ∙ ap is_some (entry-lookup c a.0 ne.0)
    | inr other ↦ names-Subset cs a.1 ne.1 x (ground (arith, h, other))
  ]

  reported-some :
      (name : String) (cs : List PropagationStatus)
      → All (Agrees sm gm) cs
      → All (λ (c : PropagationStatus). c.status ≢ "") cs
      → has name (names_of cs) ≡ true
      → reported name cs ≡ with_generation (or_zero (lookup name gm)) (lookup name sm)
  reported-some name [] a ne h = ground (arith, h)
  reported-some name (c ∷ cs) a ne h = elim (Bool-cases (c.cluster == name)) [
    | inl same ↦ rw same (
        sym (ap (λ g. some (c.status, g)) a.0.1)
        ∙ sym (ap (with_generation (or_zero (lookup c.cluster gm))) (entry-lookup c a.0 ne.0))
        ∙ ap (λ k. with_generation (or_zero (lookup k gm)) (lookup k sm))
            ((string_eq.reflects c.cluster name).0 same))
    | inr other ↦ rw other (reported-some name cs a.1 ne.1 (ground (arith, h, other)))
  ]

  reported-none :
      (name : String) (cs : List PropagationStatus)
      → has name (names_of cs) ≡ false
      → reported name cs ≡ none
  reported-none name [] h = refl
  reported-none name (c ∷ cs) h = ground (arith, h, reported-none name cs)

  reported-lem :
      (cs : List PropagationStatus)
      → All (Agrees sm gm) cs
      → All (λ (c : PropagationStatus). c.status ≢ "") cs
      → Subset (keys sm) (names_of cs)
      → (name : String)
      → reported name cs ≡ with_generation (or_zero (lookup name gm)) (lookup name sm)
  reported-lem cs a ne all_there name = elim (Bool-cases (has name (names_of cs))) [
    | inl e ↦ reported-some name cs a ne e
    | inr e ↦ elim (Option-cases (lookup name sm)) [
      | inl f ↦ reported-none name cs e ∙ sym (ap (with_generation (or_zero (lookup name gm))) f)
      | inr (st, f) ↦
          absurd (true≢false (sym (all_there name (has-keys name sm ∙ ap is_some f)) ∙ e))
    ]
  ]
    where
      true≢false : true ≢ false
      true≢false h = cc

  names-written : (names : List String) → names_of (map (status_of sm gm) names) ≡ names
  names-written [] = refl
  names-written (n ∷ names) = ap (λ t. n ∷ t) (names-written names)

  known_status :
      (m : Map String String) (name : String)
      → All (λ (x : String × String). x.1 ≢ "") m
      → is_some (lookup name m) ≡ true
      → or_empty (lookup name m) ≢ ""
  known_status [] name v h = ground (arith, h)
  known_status ((k, st) ∷ m) name v h = elim (Bool-cases (k == name)) [
    | inl same ↦ rw same v.0
    | inr other ↦ rw other (known_status m name v.1 (ground (arith, h, other)))
  ]

  written_statuses :
      (names : List String)
      → All (λ (x : String × String). x.1 ≢ "") sm
      → Subset names (keys sm)
      → All (λ (c : PropagationStatus). c.status ≢ "") (map (status_of sm gm) names)
  written_statuses [] v h = tt
  written_statuses (n ∷ names) v h = (
    known_status sm n v (sym (has-keys n sm) ∙ h n (ground (arith, string_eq.reflects n n))),
    written_statuses names v (λ x k. h x (ground (arith, k))),
  )

  set_clusters-covers :
      (cs : List PropagationStatus)
      → UniqueKeys sm
      → All (λ (x : String × String). x.1 ≢ "") sm
      → WellFormed cs
      → WellFormed (set_clusters cs sm gm).0 × Subset (keys sm) (names_of (set_clusters cs sm gm).0)
  unfolding set_clusters
  set_clusters-covers cs u v w =
      let mirrors = set_clusters-Mirrors sm gm cs in
      elim (Bool-cases (clusters_differ cs sm gm)) [
        | inl e ↦
            let names = sort string_less (keys sm) in
            rw (set_clusters, e)
              (
                (
                  subst Distinct (sym (names-written names))
                      (sort-Distinct (keys sm) (keys-Distinct sm u)),
                  written_statuses names v (λ x h. sym (has-sort x (keys sm)) ∙ h),
                ),
                λ x h. ap (has x) (names-written names) ∙ has-sort x (keys sm) ∙ h,
              )
        | inr e ↦
            let kept : Mirrors sm gm cs = rw (set_clusters, e) at mirrors in
            rw (set_clusters, e)
              (
                w,
                Subset-full (names_of cs) (keys sm) w.0 (names-Subset cs kept.1 w.1) (
                    omega (
                      arith,
                      kept.0,
                      length-map (λ (x : String × String). x.0) sm,
                      length-map (λ (c : PropagationStatus). c.cluster) cs,
                    )),
              )
      ]

module _ (now : ℕ) (s : ObjectStatus) (generation : ℕ) (reason : String)
    (collected : Collected) where
  -- Where the collected statuses stand under distinct clusters and none is empty, and the
  -- clusters of the status are distinct and no status of theirs is empty, the same holds of the
  -- clusters after `update`. Then the status reports of each name the status and the generation
  -- that were collected for it, 0 for a missing generation, and nothing of a name for which no
  -- status was collected.
  pub update-covers :
      UniqueKeys collected.status_map
      → All (λ (x : String × String). x.1 ≢ "") collected.status_map
      → WellFormed s.clusters
      → WellFormed (update now s generation reason collected).0.clusters
        × ((name : String)
            → reported name (update now s generation reason collected).0.clusters
              ≡ with_generation
                  (or_zero (lookup name collected.generation_map))
                  (lookup name collected.status_map))
  unfolding update
  update-covers u v w =
      let sm = collected.status_map in
      let gm = collected.generation_map in
      let (well, all_there) = set_clusters-covers sm gm s.clusters u v w in
      (well, reported-lem sm gm _ (set_clusters-Mirrors sm gm s.clusters).1 well.1 all_there)
