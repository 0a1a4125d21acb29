-- ===== src/Scheduler/Types.antt =====
-- What the scheduling framework passes around: `SchedulingUnit`, `Result`, `ClusterScore`,
-- `ClusterReplicas` and the plugin interfaces of pkg/controllers/scheduler/framework/types.go and
-- interface.go. Of a cluster and of a scheduling unit only the fields stand here that the modelled
-- code reads.
use kubeadmiral.Base.{ℕ, String, Option, none, some, Bool, true, false, List, []}
use kubeadmiral.Base.Int.{ℤ}
use kubeadmiral.Base.Assoc.{Map}
use kubeadmiral.Util.ClusterSelector.{ClusterSelectorTerm}

-- `corev1.TaintEffect`; a toleration may leave its effect empty.
pub data Effect : Type 0 where
  no_effect no_schedule prefer_no_schedule no_execute : Effect

pub record Taint : Type 0 where
  pub key : String
  pub value : String
  pub effect : Effect

-- `corev1.Toleration`, with its operator as the text that it is.
pub record Toleration : Type 0 where
  pub key : String
  pub operator : String
  pub value : String
  pub effect : Effect

-- `ClusterCondition` and `APIResource`.
pub record ClusterCondition : Type 0 where
  pub condition_type : String
  pub status : String

pub record ApiResource : Type 0 where
  pub group : String
  pub version : String
  pub kind : String

-- `terminating` says that the deletion timestamp is set.
pub record Cluster : Type 0 where
  pub name : String
  pub taints : List Taint
  pub labels : Map String String
  pub terminating : Bool
  pub conditions : List ClusterCondition
  pub api_resource_types : List ApiResource

-- `Affinity`, `ClusterAffinity` and its required `ClusterSelector`.
pub record ClusterAffinity : Type 0 where
  pub required : Option (List ClusterSelectorTerm)

pub record Affinity : Type 0 where
  pub cluster_affinity : Option ClusterAffinity

-- `UnavailableCluster`, with its time as a number.
pub record UnavailableCluster : Type 0 where
  pub cluster : String
  pub valid_until : ℕ

-- `CustomMigrationInfo`
pub record CustomMigrationInfo : Type 0 where
  pub limited_capacity : Map String ℤ
  pub unavailable_clusters : List UnavailableCluster

-- `AutoMigrationInfo` and `AutoMigrationSpec`.
pub record AutoMigrationInfo : Type 0 where
  pub estimated_capacity : Map String ℤ
  pub scheduled_replicas : Map String ℤ

pub record AutoMigration : Type 0 where
  pub info : Option AutoMigrationInfo
  pub keep_unschedulable_replicas : Bool

pub data SchedulingMode : Type 0 where
  duplicate divide : SchedulingMode

pub data ReplicasStrategy : Type 0 where
  spread binpack : ReplicasStrategy

pub record SchedulingUnit : Type 0 where
  pub key : String
  pub desired_replicas : Option ℤ
  pub current_clusters : Map String (Option ℤ)
  pub scheduling_mode : SchedulingMode
  pub sticky_cluster : Bool
  pub tolerations : List Toleration
  pub max_clusters : Option ℤ
  pub resource : ApiResource
  pub cluster_names : List String
  pub cluster_selector : Map String String
  pub affinity : Option Affinity
  pub custom_migration : Option CustomMigrationInfo
  pub auto_migration : Option AutoMigration
  pub avoid_disruption : Bool
  pub min_replicas : Map String ℤ
  pub max_replicas : Map String ℤ
  pub weights : Map String ℤ
  pub priorities : Map String ℤ
  pub replicas_strategy : ReplicasStrategy

pub data Code : Type 0 where
  success unschedulable error : Code

-- `Result`. A formatted reason is the list of what is formatted into it.
pub record Result : Type 0 where
  pub code : Code
  pub reasons : List String
  pub failed_plugin : String

-- `NewResult`
abbrev pub new_result : Code → List String → Option Result
new_result code reasons = some (record { code = code; reasons = reasons; failed_plugin = "" })

abbrev pub is_success_code : Code → Bool
is_success_code success = true
is_success_code _ = false

-- `IsSuccess`: a nil result is a success.
abbrev pub is_success : Option Result → Bool
is_success none = true
is_success (some r) = is_success_code r.code

-- `Code`
abbrev pub code_of : Option Result → Code
code_of none = success
code_of (some r) = r.code

-- `SetFailedPlugin` and `FailedPlugin`, which are called on results that are not nil.
abbrev pub set_failed_plugin : String → Option Result → Option Result
set_failed_plugin plugin none = none
set_failed_plugin plugin (some r) = some (record r { failed_plugin = plugin })

abbrev pub failed_plugin_of : Option Result → String
failed_plugin_of none = ""
failed_plugin_of (some r) = r.failed_plugin

abbrev pub reasons_of : Option Result → List String
reasons_of none = []
reasons_of (some r) = r.reasons

-- Scores are `int64` in the source, from `MinClusterScore`, 0, on.
pub record ClusterScore : Type 0 where
  pub cluster : Cluster
  pub score : ℕ

pub record ClusterReplicas : Type 0 where
  pub cluster : Cluster
  pub replicas : ℤ

pub record FilterPlugin : Type 0 where
  pub name : String
  pub filter : SchedulingUnit → Cluster → Option Result

-- `NormalizeScore` writes into the scores that it is handed: here it returns them, and that their
-- number stays the same is left to who needs it. A plugin may have none.
pub record ScorePlugin : Type 0 where
  pub name : String
  pub score : SchedulingUnit → Cluster → ℕ × Option Result
  pub normalize_score : Option (List ClusterScore → List ClusterScore × Option Result)

pub record SelectPlugin : Type 0 where
  pub name : String
  pub select_clusters : SchedulingUnit → List ClusterScore → List ClusterScore × Option Result

pub record ReplicasPlugin : Type 0 where
  pub name : String
  pub replica_scheduling : SchedulingUnit → List Cluster → List ClusterReplicas × Option Result
