-- ===== src/Scheduler/Filters/Passes.antt =====
-- Which clusters each of the default filter plugins lets pass.
use kubeadmiral.Base.{
  ◌≡◌, ◌≢◌, ◌↔◌, ◌⊎◌, ◌≤◌, refl, sym, ap, ◌∙◌, ℕ, String, Option, none, some, Bool, true, false,
  List, [], ◌∷◌, ◌==◌, string_eq, ltb, any, ◌&&◌, length, eqb, not, arith, inl, inr, Bool-cases,
  Option-cases, All,
}
use kubeadmiral.Base.Assoc.{Map, has, lookup, is_some}
use kubeadmiral.Base.Chain.{some_eq}
use mathlib.Core.List.{Mem, mem-cons_self, mem-cons_of_mem, not-mem-nil, eq-or-mem_of_mem-cons}
use mathlib.Core.Logic.Or
use kubeadmiral.Util.ClusterSelector.{Selectors, ClusterSelectorTerm, match_cluster_selector_terms}
use kubeadmiral.Util.ClusterSelector.Terms.{
  Selected, match_cluster_selector_terms-Selected, Selected-match,
}
use kubeadmiral.Scheduler.Types.{
  Cluster, ClusterCondition, ApiResource, UnavailableCluster, CustomMigrationInfo, Affinity,
  ClusterAffinity, SchedulingUnit, is_success,
}
use kubeadmiral.Scheduler.Taints.Plugin.{is_scheduled-lookup}
use kubeadmiral.Scheduler.Filters.{
  same_gvk, api_resources_filter, placement_filter, is_cluster_ready, cluster_ready_filter,
  cluster_terminating_filter, evict, cluster_evicted_filter, filter_affinity,
  cluster_affinity_filter,
}

same_gvk-reflects : (a b : ApiResource) → (same_gvk a b ≡ true) ↔ (a ≡ b)
same_gvk-reflects a b = (
  λ h. ground (
    arith,
    h,
    string_eq.reflects a.group b.group,
    string_eq.reflects a.version b.version,
    string_eq.reflects a.kind b.kind,
  ),
  λ h. rw h (
      ground (
        arith,
        string_eq.reflects b.group b.group,
        string_eq.reflects b.version b.version,
        string_eq.reflects b.kind b.kind,
      )),
)

none≢some : {A : Type 0} {a : A} → none ≢ some a
none≢some h = cc

false≢true : false ≢ true
false≢true h = cc

-- A test for being `r` finds `r` exactly where it is.
any-Mem :
    {A : Type 0} (test : A → Bool) (r : A)
    → ((x : A) → (test x ≡ true) ↔ (x ≡ r))
    → (xs : List A) → (any test xs ≡ true) ↔ Mem r xs
any-Mem test r reflects [] = (λ h. absurd (false≢true h), λ h. absurd (not-mem-nil h))
any-Mem test r reflects (x ∷ xs) =
    let rest = any-Mem test r reflects xs in
    (
      λ h. elim (Bool-cases (test x)) [
        | inl e ↦ rw ((reflects x).0 e) mem-cons_self
        | inr e ↦ mem-cons_of_mem x (rest.0 (rw e at h))
      ],
      λ h.
          Or.elim (hlevel) (eq-or-mem_of_mem-cons h) (λ e. ground (arith, (reflects x).1 (sym e)))
            (λ m. ground (arith, rest.1 m)),
    )

abbrev pub Supported : SchedulingUnit → Cluster → Type 0
Supported su cluster = Mem su.resource cluster.api_resource_types

pub api_resources-passes :
    (su : SchedulingUnit) (c : Cluster)
    → (is_success (api_resources_filter su c) ≡ true) ↔ Supported su c
unfolding api_resources_filter
api_resources-passes su c = ground (
  arith,
  any-Mem (λ r. same_gvk r su.resource) su.resource (λ r. same_gvk-reflects r su.resource)
      c.api_resource_types,
)

abbrev pub Placed : SchedulingUnit → Cluster → Type 0
Placed su cluster = (su.cluster_names ≡ []) ⊎ (has cluster.name su.cluster_names ≡ true)

pub placement-passes :
    (su : SchedulingUnit) (c : Cluster) → (is_success (placement_filter su c) ≡ true) ↔ Placed su c
unfolding placement_filter
placement-passes su c = elim (Bool-cases (eqb (length su.cluster_names) 0)) [
  | inl e ↦ rw (placement_filter, e) (λ h. inl (nil_of_length su.cluster_names e), λ h. refl)
  | inr e ↦
      rw (placement_filter, e)
        (
          λ h. inr (ground (arith, h)),
          λ h. elim h [
            | inl n ↦ absurd (false≢true (sym e ∙ ap (λ (xs : List String). eqb (length xs) 0) n))
            | inr m ↦ ground (arith, m)
          ],
        )
]
  where
    nil_of_length : (xs : List String) → eqb (length xs) 0 ≡ true → xs ≡ []
    nil_of_length [] h = refl
    nil_of_length (x ∷ xs) h = absurd (false≢true (ground (arith, h)))

-- The cluster has the unit already, or says that it is ready.
abbrev pub Ready : SchedulingUnit → Cluster → Type 0
Ready su cluster =
    (is_some (lookup cluster.name su.current_clusters) ≡ true)
    ⊎ Mem (record { condition_type = "Ready"; status = "True" }) cluster.conditions

abbrev says_ready : ClusterCondition → Bool
says_ready c = c.condition_type == "Ready" && c.status == "True"

says_ready-reflects :
    (c : ClusterCondition)
    → (says_ready c ≡ true) ↔ (c ≡ record { condition_type = "Ready"; status = "True" })
says_ready-reflects c = (
  λ h.
      ground
        (arith, h, string_eq.reflects c.condition_type "Ready", string_eq.reflects c.status "True"),
  λ h. rw h refl,
)

is_cluster_ready-any : (cs : List ClusterCondition) → is_cluster_ready cs ≡ any says_ready cs
unfolding is_cluster_ready
is_cluster_ready-any [] = refl
is_cluster_ready-any (c ∷ cs) = ground (arith, is_cluster_ready-any cs)

pub cluster_ready-passes :
    (su : SchedulingUnit) (c : Cluster)
    → (is_success (cluster_ready_filter su c) ≡ true) ↔ Ready su c
unfolding cluster_ready_filter
cluster_ready-passes su c = ground (
  arith,
  is_cluster_ready-any c.conditions,
  is_scheduled-lookup su.current_clusters c.name,
  any-Mem says_ready (record { condition_type = "Ready"; status = "True" }) says_ready-reflects
      c.conditions,
)

pub cluster_terminating-passes :
    (su : SchedulingUnit) (c : Cluster)
    → (is_success (cluster_terminating_filter su c) ≡ true) ↔ (c.terminating ≡ false)
unfolding cluster_terminating_filter
cluster_terminating-passes su c = ground arith

-- No eviction of the cluster is in force at this time.
abbrev pub NotEvicted : ℕ → String → List UnavailableCluster → Type 0
NotEvicted now name = All (λ u. name ≡ u.cluster → u.valid_until ≤ now)

evict-passes :
    (now : ℕ) (name : String) (us : List UnavailableCluster)
    → (is_success (evict now name us) ≡ true) ↔ NotEvicted now name us
unfolding evict
evict-passes now name [] = (λ h. tt, λ h. refl)
evict-passes now name (u ∷ us) =
    ground (arith, evict-passes now name us, string_eq.reflects name u.cluster)

abbrev pub unavailable : Option CustomMigrationInfo → List UnavailableCluster
unavailable none = []
unavailable (some info) = info.unavailable_clusters

pub cluster_evicted-passes :
    (now : ℕ) (su : SchedulingUnit) (c : Cluster)
    → (is_success (cluster_evicted_filter now su c) ≡ true)
      ↔ NotEvicted now c.name (unavailable su.custom_migration)
unfolding cluster_evicted_filter
cluster_evicted-passes now su c = elim (Option-cases su.custom_migration) [
  | inl e ↦ rw (cluster_evicted_filter, e) (λ h. tt, λ h. refl)
  | inr (info, e) ↦
      rw (cluster_evicted_filter, e) (evict-passes now c.name info.unavailable_clusters)
]

abbrev cluster_affinity_of : Option Affinity → Option ClusterAffinity
cluster_affinity_of none = none
cluster_affinity_of (some a) = a.cluster_affinity

-- The terms that a cluster has to meet, if there are any.
abbrev pub required_terms : Option ClusterAffinity → Option (List ClusterSelectorTerm)
required_terms none = none
required_terms (some a) = a.required

module _ (s : Selectors) where
  -- The labels match the cluster selector, unless it is empty, and one of the required terms selects
  -- the cluster, if the affinity requires terms.
  abbrev pub Matched : SchedulingUnit → Cluster → Type 0
  Matched su cluster =
      ((su.cluster_selector ≡ [])
        ⊎ (s.matches (s.selector_from_set su.cluster_selector) cluster.labels ≡ true))
      × ((terms : List ClusterSelectorTerm)
          → required_terms (cluster_affinity_of su.affinity) ≡ some terms
          → Selected s cluster.labels cluster.name terms)

  filter_affinity-passes :
      (affinity : Option Affinity) (c : Cluster)
      → (is_success (filter_affinity s affinity c) ≡ true) ↔ (
          (terms : List ClusterSelectorTerm)
          → required_terms (cluster_affinity_of affinity) ≡ some terms
          → Selected s c.labels c.name terms)
  unfolding filter_affinity
  filter_affinity-passes none c = (λ h terms e. absurd (none≢some e), λ h. refl)
  filter_affinity-passes (some a) c = elim (Option-cases a.cluster_affinity) [
    | inl e ↦ rw (filter_affinity, e) (λ h terms f. absurd (none≢some f), λ h. refl)
    | inr (ca, e) ↦ elim (Option-cases ca.required) [
      | inl f ↦ rw (filter_affinity, e, f) (λ h terms g. absurd (none≢some g), λ h. refl)
      | inr (terms, f) ↦
          elim (Option-cases (match_cluster_selector_terms s terms c.labels c.name)) [
            | inl g ↦
                rw (filter_affinity, e, f, g)
                  (
                    λ h. absurd (false≢true h),
                    λ h.
                        absurd (
                          none≢some
                            (sym g ∙ Selected-match s c.labels c.name terms (h terms refl))),
                  )
            | inr (false, g) ↦
                rw (filter_affinity, e, f, g)
                  (
                    λ h. absurd (false≢true h),
                    λ h. absurd (
                        some_false (sym g ∙ Selected-match s c.labels c.name terms (h terms refl))),
                  )
            | inr (true, g) ↦
                rw (filter_affinity, e, f, g)
                  (
                    λ h terms' k.
                        rw (sym (some_eq k))
                          (match_cluster_selector_terms-Selected s c.labels c.name terms g),
                    λ h. refl,
                  )
          ]
    ]
  ]
    where
      some_false : some false ≢ some true
      some_false h = cc

  pub cluster_affinity-passes :
      (su : SchedulingUnit) (c : Cluster)
      → (is_success (cluster_affinity_filter s su c) ≡ true) ↔ Matched su c
  unfolding cluster_affinity_filter
  cluster_affinity-passes su c =
      elim (Bool-cases (
        ltb 0 (length su.cluster_selector)
        && not (s.matches (s.selector_from_set su.cluster_selector) c.labels))) [
          | inl e ↦
              rw (cluster_affinity_filter, e)
                (
                  λ h. absurd (false≢true h),
                  λ h. elim h.0 [
                    | inl n ↦
                        absurd (
                          false≢true
                            (ground (arith, e, ap (λ (m : Map String String). length m) n)))
                    | inr m ↦ absurd (false≢true (ground (arith, e, m)))
                  ],
                )
          | inr e ↦
              rw (cluster_affinity_filter, e)
                (
                  λ h. (split su.cluster_selector e, (filter_affinity-passes su.affinity c).0 h),
                  λ h. (filter_affinity-passes su.affinity c).1 h.1,
                )
        ]
    where
      split :
          (m : Map String String)
          → (ltb 0 (length m) && not (s.matches (s.selector_from_set m) c.labels)) ≡ false
          → (m ≡ []) ⊎ (s.matches (s.selector_from_set m) c.labels ≡ true)
      split [] h = inl refl
      split (x ∷ xs) h = inr (ground (arith, h))
