-- ===== src/Scheduler/Unit/Current.antt =====
-- Which clusters a federated object is scheduled to.
use kubeadmiral.Base.{
  ◌≡◌, refl, sym, ◌∙◌, String, Option, none, some, Bool, true, false, List, [], ◌∷◌, ◌==◌,
  string_eq, ◌||◌, arith, inl, inr, Bool-cases, Option-cases, if◌then◌else◌,
}
use kubeadmiral.Base.Int.{ℤ}
use kubeadmiral.Base.Assoc.{Map, lookup, insert, has, is_some, lookup-insert}
use kubeadmiral.FedObject.{ClusterPatches, get_controller_placement}
use kubeadmiral.Scheduler.Unit.{
  Patch, FederatedObject, TypeConfig, Decoders, prefixed_global_scheduler_name, placed,
  patched_replicas, override_replicas, get_current_replicas_from_object,
}

-- The cluster is a key of the map.
abbrev is_key : String → Map String (Option ℤ) → Bool
is_key c m = is_some (lookup c m)

insert-key :
    (c k : String) (v : Option ℤ) (m : Map String (Option ℤ))
    → is_key c (insert k v m) ≡ (k == c || is_key c m)
insert-key c k v m = rw (lookup-insert k c v m) (split (k == c))
  where
    split : (b : Bool) → is_some (if b then some v else lookup c m) ≡ (b || is_key c m)
    split true = refl
    split false = refl

placed-key :
    (c : String) (names : List String) (m : Map String (Option ℤ))
    → is_key c (placed names m) ≡ (has c names || is_key c m)
unfolding placed
placed-key c [] m = refl
placed-key c (n ∷ ns) m = placed-key c ns _ ∙ ground (arith, insert-key c n none m)

-- A write to a cluster that is there adds no key.
present-key :
    (c k : String) (v : Option ℤ) (m : Map String (Option ℤ))
    → is_key k m ≡ true
    → is_key c (insert k v m) ≡ is_key c m
present-key c k v m h = insert-key c k v m ∙ elim (Bool-cases (k == c)) [
  | inl e ↦ rw e (sym (rw ((string_eq.reflects k c).0 e) at h))
  | inr e ↦ rw e refl
]

module _ (d : Decoders) (replicas_path : String) where
  override_replicas-key :
      (c : String) (os : List (ClusterPatches (List Patch))) (m : Map String (Option ℤ))
      → is_key c (override_replicas d replicas_path os m) ≡ is_key c m
  unfolding override_replicas
  override_replicas-key c [] m = refl
  override_replicas-key c (o ∷ os) m = elim (Bool-cases (is_key o.cluster m)) [
    | inl e ↦ elim (Option-cases (patched_replicas d replicas_path o.patches)) [
      | inl f ↦ rw (override_replicas, e, f) (override_replicas-key c os m)
      | inr (n, f) ↦
          rw (override_replicas, e, f)
            (override_replicas-key c os (insert o.cluster (some n) m)
              ∙ present-key c o.cluster (some n) m e)
    ]
    | inr e ↦ rw (override_replicas, e) (override_replicas-key c os m)
  ]

-- A cluster is among the current clusters exactly when the global scheduler's placement lists it,
-- whatever the overrides hold.
pub get_current_replicas_from_object-keys :
    (d : Decoders) (ftc : TypeConfig) (o : FederatedObject) (c : String)
    → is_some (lookup c (get_current_replicas_from_object d ftc o))
      ≡ has c (get_controller_placement o.placements prefixed_global_scheduler_name)
unfolding get_current_replicas_from_object
get_current_replicas_from_object-keys d ftc o c =
    override_replicas-key d ftc.replicas_path c _ _
    ∙ placed-key c (get_controller_placement o.placements prefixed_global_scheduler_name) []
    ∙ or_false_right (has c (get_controller_placement o.placements prefixed_global_scheduler_name))
  where
    or_false_right : (b : Bool) → (b || false) ≡ b
    or_false_right true = refl
    or_false_right false = refl
