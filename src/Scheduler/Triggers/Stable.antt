-- ===== src/Scheduler/Triggers/Stable.antt =====
-- What it means that triggers differ.
use kubeadmiral.Base.{
  ◌≡◌, ◌≢◌, ◌↔◌, ◌≤◌, List, refl, sym, ap, ◌∙◌, String, Option, none, some, true, false, [], ◌∷◌,
  ◌&&◌, not, eqb, arith, inl, inr, Bool-cases, Option-cases, All, length, all, ℕ, any, ◌==◌,
  string_eq,
}
use kubeadmiral.Base.Assoc.{Map, lookup, has}
use kubeadmiral.Base.Chain.{some_eq}
use kubeadmiral.Base.Sets.{new_set}
use kubeadmiral.Base.Subset.{
  all-Subset, new_set-Subset, new_set-Distinct, length-Subset, Subset-full, any-not,
}
use kubeadmiral.Scheduler.Triggers.{
  Resource, same_value, same_map, same_resource, info_differs, Triggers, some_trigger_differs,
  is_cluster_trigger_changed, compare_stable_triggers, is_cluster_joined,
}

-- Each old cluster is there still, with the trigger that it had.
abbrev pub AllKept : Map String String → Map String String → Type 0
AllKept new_clusters old_clusters = All (λ e. lookup e.0 new_clusters ≡ some e.1) old_clusters

some_trigger_differs-false :
    (new_clusters old_clusters : Map String String)
    → (some_trigger_differs new_clusters old_clusters ≡ false) ↔ AllKept new_clusters old_clusters
unfolding some_trigger_differs
some_trigger_differs-false new_clusters [] = (λ h. tt, λ h. refl)
some_trigger_differs-false new_clusters ((c, t) ∷ more) =
    elim (Option-cases (lookup c new_clusters)) [
      | inl e ↦
          rw (some_trigger_differs, e) (λ h. absurd (true≢false h), λ h. absurd (none≢some h.0))
      | inr (u, e) ↦ elim (Bool-cases (u == t)) [
        | inl f ↦
            rw (some_trigger_differs, e, f)
              (
                λ h. (
                  ap some ((string_eq.reflects u t).0 f),
                  (some_trigger_differs-false new_clusters more).0 h,
                ),
                λ h. (some_trigger_differs-false new_clusters more).1 h.1,
              )
        | inr f ↦
            rw (some_trigger_differs, e, f)
              (
                λ h. absurd (true≢false h),
                λ h. absurd (true≢false (sym ((string_eq.reflects u t).1 (some_eq h.0)) ∙ f)),
              )
      ]
    ]
  where
    true≢false : true ≢ false
    true≢false h = cc

    none≢some : {a : String} → none ≢ some a
    none≢some h = cc

-- No cluster trigger is changed exactly when every hash is kept, as `AllKept` says.
pub is_cluster_trigger_changed-false :
    (new_clusters old_clusters : Map String String)
    → (is_cluster_trigger_changed new_clusters old_clusters ≡ false)
      ↔ AllKept new_clusters old_clusters
unfolding is_cluster_trigger_changed some_trigger_differs
is_cluster_trigger_changed-false [] [] = (λ h. tt, λ h. refl)
is_cluster_trigger_changed-false [] (o ∷ os) = (λ h. ground (arith, h), λ h. ground (arith, h))
is_cluster_trigger_changed-false (n ∷ ns) os =
    rw (is_cluster_trigger_changed, more) (some_trigger_differs-false (n ∷ ns) os)
  where
    more : eqb (length (n ∷ ns)) 0 ≡ false
    more = ground arith

-- Nothing that is stable differs: scalar resources are compared as maps.
abbrev pub SameResource : Resource → Resource → Type 0
SameResource a b =
    (a.milli_cpu ≡ b.milli_cpu)
    × (a.memory ≡ b.memory)
    × (a.ephemeral_storage ≡ b.ephemeral_storage)
    × (length a.scalar_resources ≡ length b.scalar_resources)
    × All (λ x. lookup x.0 b.scalar_resources ≡ some x.1) a.scalar_resources

abbrev pub Stable : Triggers → Triggers → Type 0
Stable a b =
    (a.scheduling_annotations_hash ≡ b.scheduling_annotations_hash)
    × (a.replica_count ≡ b.replica_count)
    × SameResource a.resource_request b.resource_request
    × (a.policy_name ≡ b.policy_name)
    × (a.auto_migration_info ≡ b.auto_migration_info)

same_value-eq : (n : ℕ) (o : Option ℕ) → (same_value n o ≡ true) ↔ (o ≡ some n)
same_value-eq n none = ground arith
same_value-eq n (some m) = ground arith

same_entries :
    (a b : Map String ℕ)
    → (all (λ (x : String × ℕ). same_value x.1 (lookup x.0 b)) a ≡ true)
      ↔ All (λ x. lookup x.0 b ≡ some x.1) a
same_entries [] b = (λ h. tt, λ h. refl)
same_entries ((k, n) ∷ a) b = ground (arith, same_entries a b, same_value-eq n (lookup k b))

same_resource-SameResource : (a b : Resource) → (same_resource a b ≡ true) ↔ SameResource a b
unfolding same_resource same_map
same_resource-SameResource a b = ground (arith, same_entries a.scalar_resources b.scalar_resources)

info_differs-eq : (a b : Option String) → (info_differs a b ≡ false) ↔ (a ≡ b)
info_differs-eq none none = ground arith
info_differs-eq none (some b) = ground arith
info_differs-eq (some a) none = ground arith
info_differs-eq (some a) (some b) = ground (arith, string_eq.reflects b a)

pub compare_stable_triggers-Stable :
    (a b : Triggers) → (compare_stable_triggers a b ≡ false) ↔ Stable a b
unfolding compare_stable_triggers
compare_stable_triggers-Stable a b = ground (
  arith,
  string_eq.reflects a.scheduling_annotations_hash b.scheduling_annotations_hash,
  string_eq.reflects a.policy_name b.policy_name,
  same_resource-SameResource a.resource_request b.resource_request,
  info_differs-eq a.auto_migration_info b.auto_migration_info,
)

is_cluster_joined-Subset :
    (new_clusters old_clusters : List String)
    → is_cluster_joined new_clusters old_clusters ≡ (
        all (λ c. has c new_clusters) old_clusters
        && any (λ c. not (has c old_clusters)) new_clusters)
unfolding is_cluster_joined
is_cluster_joined-Subset ns os = elim (Bool-cases (all (λ c. has c ns) os)) [
  | inl e ↦
      let among = (all-Subset os ns).0 e in
      let sets = (new_set-Subset os ns).1 among in
      let long = length-Subset (new_set os) (new_set ns) (new_set-Distinct os) sets in
      ground (
        arith,
        e,
        any-not ns os,
        (all-Subset (new_set os) (new_set ns)).1 sets,
        long,
        λ (h : all (λ c. has c os) ns ≡ true).
            length-Subset (new_set ns) (new_set os) (new_set-Distinct ns)
              ((new_set-Subset ns os).1 ((all-Subset ns os).0 h)),
        λ (h : length (new_set ns) ≤ length (new_set os)). (all-Subset ns os).1 (
            (new_set-Subset ns os).0
              (Subset-full (new_set os) (new_set ns) (new_set-Distinct os) sets h)),
      )
  | inr e ↦ ground (
    arith,
    e,
    λ (h : all (λ c. has c (new_set ns)) (new_set os) ≡ true).
        (all-Subset os ns).1
          ((new_set-Subset os ns).0 ((all-Subset (new_set os) (new_set ns)).0 h)),
  )
]

-- Every old cluster is there still, and a new one with them.
abbrev pub Joined : List String → List String → Type 0
Joined new_clusters old_clusters =
    All (λ c. has c new_clusters ≡ true) old_clusters
    × (any (λ c. not (has c old_clusters)) new_clusters ≡ true)

all-has : (s t : List String) → (all (λ c. has c t) s ≡ true) ↔ All (λ c. has c t ≡ true) s
all-has [] t = (λ h. tt, λ h. refl)
all-has (x ∷ s) t = ground (arith, all-has s t)

pub is_cluster_joined-false :
    (new_clusters old_clusters : List String)
    → (is_cluster_joined new_clusters old_clusters ≡ false) ↔ ¬ Joined new_clusters old_clusters
is_cluster_joined-false ns os = ground (arith, is_cluster_joined-Subset ns os, all-has os ns)
