-- ===== src/BinPack/Plugin/Narrows.antt =====
-- What PreferenceBinPack returns: clusters that it was given, with counts within their capacities.
use kubeadmiral.Base.{
  ◌≡◌, refl, String, Option, none, some, Bool, false, List, [], ◌∷◌, All, arith, inl, inr,
  Bool-cases, Option-cases, string_eq,
}
use kubeadmiral.Base.Int.{ℤ, pos, ◌≤ℤ◌, eqb_ℤ}
use kubeadmiral.Base.Assoc.{Map, lookup, All-lookup}
use kubeadmiral.Scheduler.Types.{Taint, Toleration, Cluster, ClusterReplicas}
use kubeadmiral.Scheduler.Generic.Narrowing.{ReplicasNarrows, replica_clusters}
use kubeadmiral.BinPack.{
  NamedClusterPreferences, Assigned, assign_min, assign_rest, assign_mins, assign_rests, assign,
  get_desired_plan,
}
use kubeadmiral.BinPack.Limits.{AtMost, Fits}
use kubeadmiral.BinPack.Plugin.{
  with_replicas, to_cluster_replicas, replica_scheduling, preference_bin_pack,
}

with_replicas-All :
    (P : Cluster → Type 0) (c : Cluster) (o : Option ℤ) (rest : List ClusterReplicas)
    → P c
    → All P (replica_clusters rest)
    → All P (replica_clusters (with_replicas c o rest))
with_replicas-All P c none rest h k = k
with_replicas-All P c (some n) rest h k = elim (Bool-cases (eqb_ℤ n (pos 0))) [
  | inl e ↦ rw e k
  | inr e ↦ rw e (h, k)
]

to_cluster_replicas-All :
    (P : Cluster → Type 0) (result : Map String ℤ) (cs : List Cluster)
    → All P cs
    → All P (replica_clusters (to_cluster_replicas result cs))
unfolding to_cluster_replicas
to_cluster_replicas-All P result [] h = tt
to_cluster_replicas-All P result (c ∷ cs) h =
    with_replicas-All P c (lookup c.name result) _ h.0 (to_cluster_replicas-All P result cs h.1)

-- The plugin names only clusters that it was given.
pub preference_bin_pack-ReplicasNarrows :
    (tolerates_taint : Toleration → Taint → Bool)
    → ReplicasNarrows (preference_bin_pack tolerates_taint)
unfolding replica_scheduling
preference_bin_pack-ReplicasNarrows tolerates_taint P su cs h = to_cluster_replicas-All P _ cs h

-- With no estimated capacity nothing overflows.
assign_mins-overflow :
    (limited : Map String ℤ) (ps : List NamedClusterPreferences) (s : Assigned)
    → s.overflow ≡ []
    → (assign_mins [] limited ps s).overflow ≡ []
unfolding assign_mins assign_min
assign_mins-overflow limited [] s h = h
assign_mins-overflow limited (p ∷ ps) s h = assign_mins-overflow limited ps _ h

assign_rests-overflow :
    (limited : Map String ℤ) (ps : List NamedClusterPreferences) (s : Assigned)
    → s.overflow ≡ []
    → (assign_rests [] limited ps s).overflow ≡ []
unfolding assign_rests assign_rest
assign_rests-overflow limited [] s h = h
assign_rests-overflow limited (p ∷ ps) s h = assign_rests-overflow limited ps _ h

pub get_desired_plan-overflow :
    (limited : Map String ℤ) (ps : List NamedClusterPreferences) (n : ℤ)
    → (get_desired_plan [] limited ps n).1 ≡ []
unfolding get_desired_plan assign
get_desired_plan-overflow limited ps n =
    assign_rests-overflow limited ps _ (assign_mins-overflow limited ps _ refl)

-- A count above 0, within the limited capacity of its cluster.
abbrev pub IsWithin : Map String ℤ → ClusterReplicas → Type 0
IsWithin limited r = (pos 1 ≤ℤ r.replicas) × AtMost (lookup r.cluster.name limited) r.replicas

positive : (n : ℤ) → eqb_ℤ n (pos 0) ≡ false → pos 0 ≤ℤ n → pos 1 ≤ℤ n
positive n h k = ground (arith, h, k)

pub to_cluster_replicas-IsWithin :
    (limited result : Map String ℤ) (cs : List Cluster)
    → All (Fits [] limited) result
    → All (IsWithin limited) (to_cluster_replicas result cs)
unfolding to_cluster_replicas
to_cluster_replicas-IsWithin limited result [] h = tt
to_cluster_replicas-IsWithin limited result (c ∷ cs) h =
    let rest = to_cluster_replicas-IsWithin limited result cs h in
    elim (Option-cases (lookup c.name result)) [
      | inl e ↦ rw (to_cluster_replicas, e) rest
      | inr (n, e) ↦ elim (Bool-cases (eqb_ℤ n (pos 0))) [
        | inl f ↦ rw (to_cluster_replicas, e, f) rest
        | inr f ↦
            let fits = All-lookup (Fits [] limited) c.name n result h e in
            rw (to_cluster_replicas, e, f) ((positive n f fits.0, fits.1), rest)
      ]
    ]
