-- ===== src/Sync/Status.antt =====
-- pkg/controllers/sync/status/status.go: the status of a federated object after a reconciliation.
-- The status is passed in and returned; `metav1.Now()` is a parameter.
pub mod Outcome
pub mod Update
pub mod Cover
pub mod Verdict
use kubeadmiral.Base.{
  ℕ, String, Option, none, some, Bool, true, false, List, [], ◌∷◌, ◌||◌, ◌&&◌, not, eqb, ltb, any,
  map, length, if◌then◌else◌, ◌==◌, string_eq, string_less,
}
use kubeadmiral.Base.Assoc.{Map, lookup, or_zero}
use kubeadmiral.Base.Sorting.{sort}

pub record PropagationStatus : Type 0 where
  pub cluster : String
  pub status : String
  pub last_observed_generation : ℕ

pub record Condition : Type 0 where
  pub kind : String
  pub status : String
  pub last_update_time : ℕ
  pub last_transition_time : ℕ
  pub reason : String

pub record ObjectStatus : Type 0 where
  pub synced_generation : ℕ
  pub conditions : List Condition
  pub clusters : List PropagationStatus

-- `CollectedPropagationStatus`
pub record Collected : Type 0 where
  pub status_map : Map String String
  pub generation_map : Map String ℕ
  pub resources_updated : Bool

abbrev pub propagated : String
propagated = "Propagated"

abbrev pub aggregate_success : String
aggregate_success = ""

abbrev pub check_clusters : String
check_clusters = "CheckClusters"

abbrev pub cluster_propagation_ok : String
cluster_propagation_ok = "OK"

-- What a map to strings gives on a missing key.
abbrev pub or_empty : Option String → String
or_empty none = ""
or_empty (some s) = s

-- The test of the loop of `clustersDiffers`.
abbrev pub status_differs : Map String String → Map String ℕ → PropagationStatus → Bool
status_differs status_map generation_map s =
    not (or_empty (lookup s.cluster status_map) == s.status)
    || not (eqb (or_zero (lookup s.cluster generation_map)) s.last_observed_generation)

unfoldable pub clusters_differ : List PropagationStatus → Map String String → Map String ℕ → Bool
clusters_differ clusters status_map generation_map =
    not (eqb (length clusters) (length status_map))
    || (not (eqb (length clusters) (length generation_map))
        || any (status_differs status_map generation_map) clusters)

abbrev pub status_of : Map String String → Map String ℕ → String → PropagationStatus
status_of status_map generation_map name = record {
  cluster = name;
  status = or_empty (lookup name status_map);
  last_observed_generation = or_zero (lookup name generation_map);
}

-- `setClusters`, of `s.Clusters`
unfoldable pub set_clusters :
    List PropagationStatus → Map String String → Map String ℕ → List PropagationStatus × Bool
set_clusters clusters status_map generation_map =
    if clusters_differ clusters status_map generation_map
    then (
      map (status_of status_map generation_map) (sort string_less (map (λ x. x.0) status_map)),
      true,
    )
    else (clusters, false)

-- The end of `setPropagationCondition`, on a condition that stands already.
unfoldable pub touch : ℕ → String → String → Bool → Condition → Condition × Bool
touch now new_status reason changes_propagated c =
    let transition = not (c.status == new_status && c.reason == reason) in
    let moved =
      if transition
      then record c { last_transition_time = now; status = new_status; reason = reason }
      else c in
    let update_required = changes_propagated || transition in
    (if update_required then record moved { last_update_time = now } else moved, update_required)

-- `setPropagationCondition`, of `s.Conditions`, for the status that the reason stands for: the first
-- condition of the type is written, or a new one.
unfoldable pub set_condition : ℕ → String → String → Bool → List Condition → List Condition × Bool
set_condition now new_status reason changes_propagated [] = (
  record {
    kind = propagated;
    status = new_status;
    last_update_time = now;
    last_transition_time = now;
    reason = reason;
  }
      ∷ [],
  true,
)
set_condition now new_status reason changes_propagated (c ∷ cs) =
    let rest = set_condition now new_status reason changes_propagated cs in
    let touched = touch now new_status reason changes_propagated c in
    if c.kind == propagated then (touched.0 ∷ cs, touched.1) else (c ∷ rest.0, rest.1)

abbrev pub new_status_of : String → String
new_status_of reason = if reason == aggregate_success then "True" else "False"

-- The reason that `update` ends with.
unfoldable pub final_reason : String → Map String String → String
final_reason reason status_map =
    if reason == aggregate_success && any (λ x. not (x.1 == cluster_propagation_ok)) status_map
    then check_clusters
    else reason

-- `update`
unfoldable pub update : ℕ → ObjectStatus → ℕ → String → Collected → ObjectStatus × Bool
update now s generation reason collected =
    let generation_updated = not (eqb s.synced_generation generation) in
    let written = set_clusters s.clusters collected.status_map collected.generation_map in
    let changes_propagated =
      written.1 || (ltb 0 (length collected.status_map) && collected.resources_updated) in
    let reason' = final_reason reason collected.status_map in
    let condition =
      set_condition now (new_status_of reason') reason' changes_propagated s.conditions in
    (
      record { synced_generation = generation; conditions = condition.0; clusters = written.0 },
      generation_updated || condition.1,
    )
