-- ===== src/Planner/Preferences.antt =====
-- The planner's preferences and their order: `ClusterPreferences`, `ReplicaSchedulingPreference`,
-- `namedClusterPreferences`, `byWeight` and `getNamedPreferences` of
-- pkg/controllers/scheduler/planner/planner.go. The hash of a name and a key (`hash/fnv`) is a
-- parameter.
pub mod Order
use kubeadmiral.Base.{ℕ, String, Option, Bool, ◌&&◌, ◌||◌, List, [], ◌∷◌, ltb, eqb}
use kubeadmiral.Base.Assoc.{Map}
use kubeadmiral.Base.Sorting.{sort}

-- Counts are `int64` in the source, and never negative here: the planner says that it does not
-- support negative values.
pub record ClusterPreferences : Type 0 where
  pub min_replicas : ℕ
  pub max_replicas : Option ℕ
  pub weight : ℕ

pub record ReplicaSchedulingPreference : Type 0 where
  pub clusters : Map String ClusterPreferences

pub record NamedClusterPreferences : Type 0 where
  pub cluster_name : String
  pub hash : ℕ
  pub preferences : ClusterPreferences

-- `byWeight.Less`: by decreasing weight, then by increasing hash.
abbrev pub by_weight : NamedClusterPreferences → NamedClusterPreferences → Bool
by_weight a b =
    ltb b.preferences.weight a.preferences.weight
    || (eqb a.preferences.weight b.preferences.weight && ltb a.hash b.hash)

module _ (hash : String → String → ℕ) (replica_set_key : String) where
  abbrev pub named : String → ClusterPreferences → NamedClusterPreferences
  named name pref = record {
    cluster_name = name;
    hash = hash name replica_set_key;
    preferences = pref;
  }

  abbrev pub named_all : Map String ClusterPreferences → List NamedClusterPreferences
  named_all [] = []
  named_all ((name, pref) ∷ rest) = named name pref ∷ named_all rest

  unfoldable pub get_named_preferences :
      Map String ClusterPreferences → List NamedClusterPreferences
  get_named_preferences preferences = sort by_weight (named_all preferences)
