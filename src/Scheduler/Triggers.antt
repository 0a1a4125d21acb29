-- ===== src/Scheduler/Triggers.antt =====
-- pkg/controllers/scheduler/schedulingtriggers.go: when a federated object is scheduled again. The
-- triggers are stored in an annotation, and compared with what they are now. Their JSON encoding is
-- the parameters `marshal` and `unmarshal`; it does not fail on them.
use kubeadmiral.Base.{
  ℕ, String, Option, none, some, Bool, true, false, List, [], ◌∷◌, ◌++◌, ◌||◌, ◌&&◌, not, eqb, all,
  length, if◌then◌else◌, ◌==◌, string_eq, nat_eq,
}
use Prim.Native.String.{◌++◌ as text_append}
use kubeadmiral.Base.Assoc.{Map, lookup, has}
use kubeadmiral.Base.Sets.{new_set}
use kubeadmiral.Util.Annotation.{Object, Answer, answer, add_annotation, remove_annotation}
pub mod Stable
pub mod Decision
pub mod Settled
mod Tests

-- `framework.Resource`
pub record Resource : Type 0 where
  pub milli_cpu : ℕ
  pub memory : ℕ
  pub ephemeral_storage : ℕ
  pub scalar_resources : Map String ℕ

-- `schedulingTriggers`
pub record Triggers : Type 0 where
  pub scheduling_annotations_hash : String
  pub replica_count : ℕ
  pub resource_request : Resource
  pub auto_migration_info : Option String
  pub policy_name : String
  pub policy_scheduling_content_hash : String
  pub clusters : List String
  pub cluster_labels_hashes : Map String String
  pub cluster_taints_hashes : Map String String
  pub cluster_api_resource_types_hashes : Map String String

pub record RescheduleTrigger : Type 0 where
  pub policy_content_changed : Bool
  pub cluster_joined : Bool
  pub cluster_labels_changed : Bool
  pub cluster_api_resources_changed : Bool

-- Of `ReplicaRescheduling` only its `AvoidDisruption` stands here.
pub record ReschedulePolicy : Type 0 where
  pub disable_rescheduling : Bool
  pub trigger : Option RescheduleTrigger
  pub replica_rescheduling : Option Bool

-- `GetSpec().ReschedulePolicy` of a policy.
pub record Policy : Type 0 where
  pub reschedule_policy : Option ReschedulePolicy

-- The loop of `isClusterTriggerChanged`.
unfoldable pub some_trigger_differs : Map String String → Map String String → Bool
some_trigger_differs new_clusters [] = false
some_trigger_differs new_clusters ((cluster, trigger) ∷ more) =
    let rest = some_trigger_differs new_clusters more in
    elim (lookup cluster new_clusters) [
      | none ↦ true
      | some t ↦ if not (t == trigger) then true else rest
    ]

unfoldable pub is_cluster_trigger_changed : Map String String → Map String String → Bool
is_cluster_trigger_changed new_clusters old_clusters =
    if eqb (length new_clusters) 0
    then not (eqb (length old_clusters) 0)
    else some_trigger_differs new_clusters old_clusters

-- `reflect.DeepEqual` on two maps: as many keys, and each key with one value.
abbrev pub same_value : ℕ → Option ℕ → Bool
same_value n none = false
same_value n (some m) = eqb n m

unfoldable pub same_map : Map String ℕ → Map String ℕ → Bool
same_map a b =
    eqb (length a) (length b) && all (λ (x : String × ℕ). same_value x.1 (lookup x.0 b)) a

unfoldable pub same_resource : Resource → Resource → Bool
same_resource a b =
    eqb a.milli_cpu b.milli_cpu
    && (eqb a.memory b.memory
        && (eqb a.ephemeral_storage b.ephemeral_storage
            && same_map a.scalar_resources b.scalar_resources))

-- The end of `compareStableTriggers`, on `latest` and `last`.
abbrev pub info_differs : Option String → Option String → Bool
info_differs (some latest) (some last) = not (last == latest)
info_differs (some latest) none = true
info_differs none (some last) = true
info_differs none none = false

unfoldable pub compare_stable_triggers : Triggers → Triggers → Bool
compare_stable_triggers latest last =
    (not (latest.scheduling_annotations_hash == last.scheduling_annotations_hash)
      || (not (eqb latest.replica_count last.replica_count)
          || (not (same_resource latest.resource_request last.resource_request)
              || not (latest.policy_name == last.policy_name))))
    || info_differs latest.auto_migration_info last.auto_migration_info

-- The three results of `computeSchedulingAnnotations`.
pub record Computed : Type 0 where
  pub triggers : String
  pub deferred_reasons : String
  pub triggers_changed : Bool

-- `strings.Join(reasons, "; ")`
abbrev pub join : List String → String
join [] = ""
join (r ∷ []) = r
join (r ∷ s ∷ rs) = text_append r (text_append "; " (join (s ∷ rs)))

abbrev pub noted : Bool → String → List String
noted changed reason = if changed then reason ∷ [] else []

-- `newClusters.IsSuperset(oldClusters) && len(newClusters) != len(oldClusters)`
unfoldable pub is_cluster_joined : List String → List String → Bool
is_cluster_joined new_clusters old_clusters =
    all (λ c. has c (new_set new_clusters)) (new_set old_clusters)
    && not (eqb (length (new_set new_clusters)) (length (new_set old_clusters)))

-- `computeSchedulingAnnotations` from the reading of the policy's triggers on. `text` is the new
-- triggers' text and `old` that of the old ones.
unfoldable pub decide_by_trigger :
    (text old : String) → Triggers → Triggers → RescheduleTrigger → Computed
decide_by_trigger text old new_triggers old_triggers trigger =
    let triggered : Computed = record {
      triggers = text;
      deferred_reasons = "";
      triggers_changed = true;
    } in
    let content = not (
      new_triggers.policy_scheduling_content_hash == old_triggers.policy_scheduling_content_hash) in
    let labels =
      is_cluster_trigger_changed new_triggers.cluster_labels_hashes
        old_triggers.cluster_labels_hashes in
    let taints =
      is_cluster_trigger_changed new_triggers.cluster_taints_hashes
        old_triggers.cluster_taints_hashes in
    let types =
      is_cluster_trigger_changed new_triggers.cluster_api_resource_types_hashes
        old_triggers.cluster_api_resource_types_hashes in
    let joined = is_cluster_joined new_triggers.clusters old_triggers.clusters in
    if content && trigger.policy_content_changed
    then triggered
    else if labels && trigger.cluster_labels_changed
    then triggered
    else if taints
    then triggered
    else if types && trigger.cluster_api_resources_changed
    then triggered
    else if joined && trigger.cluster_joined
    then triggered
    else record {
      triggers = old;
      deferred_reasons = join (
          noted content "policyContentChanged:false"
          ++ (noted labels "clusterLabelsChanged:false"
              ++ (noted types "clusterAPIResourcesChanged:false"
                  ++ noted joined "clusterJoined:false")));
      triggers_changed = false;
    }

-- `computeSchedulingAnnotations` once the old triggers are read.
unfoldable pub decide : (text old : String) → Triggers → Triggers → Policy → Computed
decide text old new_triggers old_triggers policy =
    let deferred : String → Computed =
      λ reason. record { triggers = old; deferred_reasons = reason; triggers_changed = false } in
    if compare_stable_triggers new_triggers old_triggers
    then record { triggers = text; deferred_reasons = ""; triggers_changed = true }
    else elim policy.reschedule_policy [
      | none ↦ deferred "rescheduleWhen:nil"
      | some rp ↦
          if rp.disable_rescheduling then deferred "disableRescheduling:true" else elim rp.trigger [
            | none ↦ deferred "rescheduleWhen:nil"
            | some trigger ↦ decide_by_trigger text old new_triggers old_triggers trigger
          ]
    ]

abbrev pub scheduling_triggers_annotation : String
scheduling_triggers_annotation = "kubeadmiral.io/scheduling-triggers"

abbrev pub scheduling_deferred_reasons_annotation : String
scheduling_deferred_reasons_annotation = "kubeadmiral.io/scheduling-deferred-reasons"

module _ (marshal : Triggers → String) (unmarshal : String → Option Triggers) where
  -- From the old annotation on; the policy may be nil.
  unfoldable pub compute_from : Triggers → String → Option Policy → Computed
  compute_from new_triggers old none = record {
    triggers = marshal new_triggers;
    deferred_reasons = "";
    triggers_changed = not (old == marshal new_triggers);
  }
  compute_from new_triggers old (some policy) =
      if old == "" || old == marshal new_triggers
      then record {
        triggers = marshal new_triggers;
        deferred_reasons = "";
        triggers_changed = not (old == marshal new_triggers);
      }
      else elim (unmarshal old) [
        | none ↦ record {
          triggers = marshal new_triggers;
          deferred_reasons = "";
          triggers_changed = true;
        }
        | some old_triggers ↦ decide (marshal new_triggers) old new_triggers old_triggers policy
      ]

  -- With no annotation of the triggers, the old text is "".
  unfoldable pub compute_scheduling_annotations :
      Triggers → Map String String → Option Policy → Computed
  compute_scheduling_annotations new_triggers [] policy = record {
    triggers = marshal new_triggers;
    deferred_reasons = "";
    triggers_changed = true;
  }
  compute_scheduling_annotations new_triggers (a ∷ more) policy =
      elim (lookup scheduling_triggers_annotation (a ∷ more)) [
        | none ↦ record {
          triggers = marshal new_triggers;
          deferred_reasons = "";
          triggers_changed = not ("" == marshal new_triggers);
        }
        | some old ↦ compute_from new_triggers old policy
      ]

-- `updateSchedulingAnnotations`: the object, and whether an annotation changed; `none` is an error.
abbrev pub either_changed : Bool → Answer → Option Bool
either_changed changed (answer b) = some (changed || b)
either_changed changed _ = none

unfoldable pub update_scheduling_annotations :
    (triggers deferred_reasons : String) → Object → Object × Option Bool
update_scheduling_annotations triggers deferred_reasons object =
    let written = add_annotation object scheduling_triggers_annotation triggers in
    elim written.1 [
      | answer changed ↦
          let deferred =
            if deferred_reasons == ""
            then remove_annotation written.0 scheduling_deferred_reasons_annotation
            else add_annotation written.0 scheduling_deferred_reasons_annotation deferred_reasons in
          (deferred.0, either_changed changed deferred.1)
      | error ↦ (written.0, none)
    ]
