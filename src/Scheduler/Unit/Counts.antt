-- ===== src/Scheduler/Unit/Counts.antt =====
-- No count of a scheduling unit that comes from its placements is negative.
use kubeadmiral.Base.{
  ◌≡◌, ◌≢◌, refl, subst, String, Option, none, some, false, List, [], ◌∷◌, string_eq, any, arith,
  inl, inr, All, All-map, Bool-cases, Option-cases,
}
use kubeadmiral.Base.Int.{ℤ, pos, ◌≤ℤ◌, ltb_ℤ}
use kubeadmiral.Base.Assoc.{Map, lookup, insert, All-insert}
use kubeadmiral.Base.Chain.{>>=-eq-some, some_eq}
use kubeadmiral.BinPack.Limits.{NonNegative, OptNonNegative}
use kubeadmiral.Scheduler.Types.{AutoMigration, CustomMigrationInfo, SchedulingUnit}
use kubeadmiral.Scheduler.Unit.{
  Preferences, DesiredPlacement, PolicySpec, Template, FederatedObject, TypeConfig, Decoders,
  collect,
}
use kubeadmiral.Scheduler.Unit.Annotations.{
  placements_annotations, max_clusters_annotations, get_custom_migration_info, counts_from_object,
  if_valid, if_valid_maximum, get_max_clusters_from_object,
}
use kubeadmiral.Scheduler.Unit.Build.{
  override_with, desired_replicas, mode_for, auto_migration_of, assemble,
  scheduling_unit_for_fed_object,
}

-- What the validation of the policy's resource demands of its preferences.
pub record IsValidated (p : Preferences) : Type 0 where
  pub min_replicas : pos 0 ≤ℤ p.min_replicas
  pub max_replicas : OptNonNegative p.max_replicas
  pub weight : OptNonNegative p.weight
  pub priority : OptNonNegative p.priority

collect-NonNegative :
    (pick : Preferences → Option ℤ) (ps : List DesiredPlacement) (acc : Map String ℤ)
    → All (λ p. OptNonNegative (pick p.preferences)) ps
    → NonNegative acc
    → NonNegative (collect pick ps acc)
unfolding collect
collect-NonNegative pick [] acc h k = k
collect-NonNegative pick (p ∷ ps) acc h k = elim (Option-cases (pick p.preferences)) [
  | inl e ↦ rw (collect, e) (collect-NonNegative pick ps acc h.1 k)
  | inr (n, e) ↦
      rw (collect, e)
        (collect-NonNegative pick ps (insert p.cluster n acc) h.1
          (All-insert (λ x. pos 0 ≤ℤ x.1) p.cluster n acc (rw e at h.0) k))
]

none_negative :
    (m : Map String ℤ) → any (λ (e : String × ℤ). ltb_ℤ e.1 (pos 0)) m ≡ false → NonNegative m
none_negative [] h = tt
none_negative ((c, n) ∷ m) h = (ground (arith, h), none_negative m (ground (arith, h)))

if_valid-NonNegative : (m n : Map String ℤ) → if_valid m ≡ some n → NonNegative n
if_valid-NonNegative m n h = elim (Bool-cases (any (λ (e : String × ℤ). ltb_ℤ e.1 (pos 0)) m)) [
  | inl e ↦ absurd (none≢some (rw e at h))
  | inr e ↦ subst NonNegative (some_eq (rw e at h)) (none_negative m e)
]
  where
    none≢some : none ≢ some n
    none≢some h = cc

if_valid_maximum-nonneg : (n : ℤ) (r : Option ℤ) → if_valid_maximum n ≡ some r → OptNonNegative r
if_valid_maximum-nonneg n r h = elim (Bool-cases (ltb_ℤ n (pos 0))) [
  | inl e ↦ absurd (none≢some (rw e at h))
  | inr e ↦ subst OptNonNegative (some_eq (rw e at h)) (not_below n e)
]
  where
    none≢some : none ≢ some r
    none≢some h = cc

    not_below : (n : ℤ) → ltb_ℤ n (pos 0) ≡ false → pos 0 ≤ℤ n
    not_below n h = ground (arith, h)

override_with-keeps :
    {A : Type 0} (P : A → Type 0) (o : Option A) (v : A)
    → ((m : A) → o ≡ some m → P m)
    → P v
    → P (override_with o v)
override_with-keeps P none v h k = k
override_with-keeps P (some m) v h k = h m refl

module _ (d : Decoders) where
  counts_from_object-NonNegative :
      (pick : Preferences → Option ℤ) (annotations : Map String String) (m : Map String ℤ)
      → counts_from_object d pick annotations ≡ some m
      → NonNegative m
  unfolding counts_from_object
  counts_from_object-NonNegative pick annotations m h =
      let (value, e, f) = >>=-eq-some (lookup placements_annotations annotations) _ h in
      let (placements, e', f') = >>=-eq-some (d.placements value) _ f in
      if_valid-NonNegative (collect pick placements []) m f'

  max_clusters-nonneg :
      (annotations : Map String String) (r : Option ℤ)
      → get_max_clusters_from_object d annotations ≡ some r
      → OptNonNegative r
  unfolding get_max_clusters_from_object
  max_clusters-nonneg annotations r h =
      let (value, e, f) = >>=-eq-some (lookup max_clusters_annotations annotations) _ h in
      let (n, e', f') = >>=-eq-some (d.atoi value) _ f in if_valid_maximum-nonneg n r f'

  -- A unit that is returned was assembled.
  assembled :
      (ftc : TypeConfig) (o : FederatedObject) (policy : PolicySpec) (u : SchedulingUnit)
      → scheduling_unit_for_fed_object d ftc o policy ≡ some u
      → (template : Template) × (desired : Option ℤ) × (auto : Option AutoMigration)
        × (custom : Option CustomMigrationInfo) × (assemble d ftc o policy template desired auto
              custom
            ≡ u)
  unfolding scheduling_unit_for_fed_object
  assembled ftc o policy u h =
      let (template, e1, f1) = >>=-eq-some o.template _ h in
      let (desired, e2, f2) =
        >>=-eq-some (desired_replicas (mode_for d ftc o policy) template.replicas) _ f1 in
      let (auto, e3, f3) =
        >>=-eq-some (auto_migration_of d policy.auto_migration o.annotations) _ f2 in
      let (custom, e4, f4) = >>=-eq-some (get_custom_migration_info d o.annotations) _ f3 in
      elim (Bool-cases template.requests) [
        | inl e ↦ (template, desired, auto, custom, some_eq (rw e at f4))
        | inr e ↦ absurd (none≢some (rw e at f4))
      ]
    where
      none≢some : none ≢ some u
      none≢some h = cc

  counts-keep :
      (pick : Preferences → Option ℤ) (annotations : Map String String) (ps : List DesiredPlacement)
      → All (λ p. OptNonNegative (pick p.preferences)) ps
      → NonNegative (override_with (counts_from_object d pick annotations) (collect pick ps []))
  counts-keep pick annotations ps h =
      override_with-keeps NonNegative (counts_from_object d pick annotations) _
        (counts_from_object-NonNegative pick annotations) (collect-NonNegative pick ps [] h tt)

  -- What is promised of a scheduling unit.
  pub record HasNoNegative (u : SchedulingUnit) : Type 0 where
    pub mins : NonNegative u.min_replicas
    pub maxes : NonNegative u.max_replicas
    pub weights : NonNegative u.weights
    pub priorities : NonNegative u.priorities
    pub max_clusters : OptNonNegative u.max_clusters

  -- Where the policy's preferences were validated and its maximum of clusters is not negative,
  -- no minimum, maximum, weight, priority or maximum of clusters of the resulting unit is
  -- negative, whatever the annotations say.
  pub scheduling_unit_for_fed_object-HasNoNegative :
      (ftc : TypeConfig) (o : FederatedObject) (policy : PolicySpec) (u : SchedulingUnit)
      → All (λ p. IsValidated p.preferences) policy.placements
      → OptNonNegative policy.max_clusters
      → scheduling_unit_for_fed_object d ftc o policy ≡ some u
      → HasNoNegative u
  unfolding assemble
  scheduling_unit_for_fed_object-HasNoNegative ftc o policy u valid max h =
      let (template, desired, auto, custom, e) = assembled ftc o policy u h in
      subst HasNoNegative e (record {
        mins =
            counts-keep (λ p. some p.min_replicas) o.annotations policy.placements
              (All-map (λ p v. v.min_replicas) policy.placements valid);
        maxes =
            counts-keep (λ p. p.max_replicas) o.annotations policy.placements
              (All-map (λ p v. v.max_replicas) policy.placements valid);
        weights =
            counts-keep (λ p. p.weight) o.annotations policy.placements
              (All-map (λ p v. v.weight) policy.placements valid);
        priorities =
            counts-keep (λ p. p.priority) o.annotations policy.placements
              (All-map (λ p v. v.priority) policy.placements valid);
        max_clusters =
            override_with-keeps OptNonNegative (get_max_clusters_from_object d o.annotations)
              policy.max_clusters (max_clusters-nonneg o.annotations) max;
      })
