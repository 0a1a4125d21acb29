-- ===== src/Scheduler/Generic/Narrowing.antt =====
-- How each stage of the algorithm narrows the clusters down.
use kubeadmiral.Base.{
  ◌≡◌, ◌≢◌, refl, sym, ap, ◌∙◌, subst, ℕ, suc, String, Option, none, some, Bool, List, [], ◌∷◌,
  ◌++◌, inl, inr, Bool-cases, Option-cases, All, string_eq, append_assoc, append-nil, select, map,
}
use kubeadmiral.Base.Int.{ℤ}
use kubeadmiral.Base.Assoc.{Map, All-insert}
use kubeadmiral.Base.Chain.{some_eq}
use kubeadmiral.Scheduler.Types.{
  Cluster, SchedulingUnit, is_success, ClusterScore, ClusterReplicas, SelectPlugin, ReplicasPlugin,
}
use kubeadmiral.Scheduler.Runtime.{
  run_filter_plugins, run_select_loop, run_select_clusters_plugin, run_replicas_plugin, no_replicas,
  clusters_of,
}
use kubeadmiral.Scheduler.Runtime.Filter.{Passes, run_filter_plugins-is_success}
use kubeadmiral.Scheduler.Generic.{
  Framework, Diagnosis, find_fitting, reject, total_at, sum_scores, suggest_all, suggest_replicas,
}

-- The clusters that a replica plugin names.
abbrev pub replica_clusters : List ClusterReplicas → List Cluster
replica_clusters = map (λ (r : ClusterReplicas). r.cluster)

none≢some : {A : Type 0} {a : A} → none ≢ some a
none≢some h = cc

-- What the interface asks of a select plugin: it returns clusters that it was given.
abbrev pub SelectNarrows : SelectPlugin → Type 1
SelectNarrows plugin =
    (P : Cluster → Type 0) (su : SchedulingUnit) (scores : List ClusterScore)
    → All P (clusters_of scores)
    → All P (clusters_of (plugin.select_clusters su scores).0)

-- What the interface asks of a replica plugin: it names clusters that it was given.
abbrev pub ReplicasNarrows : ReplicasPlugin → Type 1
ReplicasNarrows plugin =
    (P : Cluster → Type 0) (su : SchedulingUnit) (clusters : List Cluster)
    → All P clusters
    → All P (replica_clusters (plugin.replica_scheduling su clusters).0)

module _ (fwk : Framework) (su : SchedulingUnit) where
  -- Every filter plugin lets the cluster pass.
  abbrev pub Feasible : Cluster → Type 0
  Feasible c = All (Passes su c) fwk.filter_plugins

  abbrev pub fits : Cluster → Bool
  fits c = is_success (run_filter_plugins fwk.filter_plugins su c)

  -- The loop keeps the clusters that fit, in their order.
  pub find_fitting-select :
      (clusters ret : List Cluster) (d : Diagnosis)
      → (find_fitting fwk su clusters ret d).0 ≡ ret ++ select fits clusters
  unfolding find_fitting
  find_fitting-select [] ret d = sym (append-nil ret)
  find_fitting-select (c ∷ cs) ret d = elim (Bool-cases (fits c)) [
    | inl e ↦
        rw (find_fitting, e)
          (find_fitting-select cs (ret ++ c ∷ []) d ∙ append_assoc ret (c ∷ []) (select fits cs))
    | inr e ↦
        rw (find_fitting, e)
          (find_fitting-select cs ret
            (reject d c.name (run_filter_plugins fwk.filter_plugins su c)))
  ]

  pub select-All :
      (P : Cluster → Type 0) (cs : List Cluster)
      → All P cs
      → All (λ c. P c × Feasible c) (select fits cs)
  select-All P [] h = tt
  select-All P (c ∷ cs) h = elim (Bool-cases (fits c)) [
    | inl e ↦
        rw e
          ((h.0, (run_filter_plugins-is_success su c fwk.filter_plugins).0 e), select-All P cs h.1)
    | inr e ↦ rw e (select-All P cs h.1)
  ]

  pub sum_scores-clusters :
      (i : ℕ) (cs : List Cluster) (scores : Map String (List ClusterScore))
      (out : List ClusterScore)
      → sum_scores i cs scores ≡ some out
      → clusters_of out ≡ cs
  unfolding sum_scores
  sum_scores-clusters i [] scores out h = rw (sym (some_eq h)) refl
  sum_scores-clusters i (c ∷ cs) scores out h = elim (Option-cases (total_at i scores)) [
    | inl e ↦ absurd (none≢some (rw (sum_scores, e) at h))
    | inr (t, e) ↦ elim (Option-cases (sum_scores (suc i) cs scores)) [
      | inl f ↦ absurd (none≢some (rw (sum_scores, e, f) at h))
      | inr (rest, f) ↦
          subst (λ o. clusters_of o ≡ c ∷ cs) (some_eq (rw (sum_scores, e, f) at h))
            (ap (λ x. c ∷ x) (sum_scores-clusters (suc i) cs scores rest f))
    ]
  ]

  module _ (P : Cluster → Type 0) where
    run_select_loop-All :
        (plugins : List SelectPlugin) (scores : List ClusterScore)
        → All SelectNarrows plugins
        → All P (clusters_of scores)
        → All P (run_select_loop plugins su scores).0
    unfolding run_select_loop
    run_select_loop-All [] scores n h = h
    run_select_loop-All (p ∷ ps) scores n h =
        elim (Bool-cases (is_success (p.select_clusters su scores).1)) [
          | inl e ↦ rw (run_select_loop, e) (run_select_loop-All ps _ n.1 (n.0 P su scores h))
          | inr e ↦ rw (run_select_loop, e) tt
        ]

    pub select-narrows :
        (plugins : List SelectPlugin) (scores : List ClusterScore)
        → All SelectNarrows plugins
        → All P (clusters_of scores)
        → All P (run_select_clusters_plugin plugins su scores).0
    unfolding run_select_clusters_plugin
    select-narrows [] scores n h = h
    select-narrows (p ∷ ps) scores n h = run_select_loop-All (p ∷ ps) scores n h

    pub replicas-narrows :
        (plugins : List ReplicasPlugin) (cs : List Cluster)
        → All ReplicasNarrows plugins
        → All P cs
        → All P (replica_clusters (run_replicas_plugin plugins su cs).0)
    unfolding run_replicas_plugin
    replicas-narrows plugins [] n h = tt
    replicas-narrows [] (c ∷ cs) n h = tt
    replicas-narrows (p ∷ ps) (c ∷ cs) n h = elim (Bool-cases (no_replicas su.desired_replicas)) [
      | inl e ↦ rw (run_replicas_plugin, e) tt
      | inr e ↦ elim (Bool-cases (is_success (p.replica_scheduling su (c ∷ cs)).1)) [
        | inl f ↦ rw (run_replicas_plugin, e, f) (n.0 P su (c ∷ cs) h)
        | inr f ↦ rw (run_replicas_plugin, e, f) (n.0 P su (c ∷ cs) h)
      ]
    ]

  module _ (Q : String → Type 0) where
    pub suggest_all-All :
        (cs : List Cluster) (m : Map String (Option ℤ))
        → All (λ c. Q c.name) cs
        → All (λ e. Q e.0) m
        → All (λ e. Q e.0) (suggest_all cs m)
    suggest_all-All [] m h k = k
    suggest_all-All (c ∷ cs) m h k =
        suggest_all-All cs _ h.1 (All-insert (λ e. Q e.0) c.name none m h.0 k)

    pub suggest_replicas-All :
        (rs : List ClusterReplicas) (m : Map String (Option ℤ))
        → All (λ c. Q c.name) (replica_clusters rs)
        → All (λ e. Q e.0) m
        → All (λ e. Q e.0) (suggest_replicas rs m)
    suggest_replicas-All [] m h k = k
    suggest_replicas-All (r ∷ rs) m h k =
        suggest_replicas-All rs _ h.1
          (All-insert (λ e. Q e.0) r.cluster.name (some r.replicas) m h.0 k)
