-- ===== src/Scheduler/Triggers/Tests.antt =====
-- The triggers of an object before and after a cluster joined.
use kubeadmiral.Base.{◌≡◌, String, Option, none, some, true, false, List, [], ◌∷◌, string_eq}
use kubeadmiral.Base.Assoc.{Map}
use kubeadmiral.Util.Annotation.{annotations_of}
use kubeadmiral.Scheduler.Triggers.{
  Triggers, Policy, decide, scheduling_triggers_annotation, compute_scheduling_annotations,
  update_scheduling_annotations,
}
use kubeadmiral.Scheduler.Triggers.Stable.{Stable}
use kubeadmiral.Scheduler.Triggers.Decision.{UnmindedByPolicy, decide-settled}
use kubeadmiral.Base.{◌↔◌}
use kubeadmiral.Scheduler.Triggers.Settled.{update_scheduling_annotations-settled}

abbrev triggers_with : List String → Triggers
triggers_with clusters = record {
  scheduling_annotations_hash = "0";
  replica_count = 3;
  resource_request = record {
    milli_cpu = 0;
    memory = 0;
    ephemeral_storage = 0;
    scalar_resources = [];
  };
  auto_migration_info = none;
  policy_name = "policy";
  policy_scheduling_content_hash = "0";
  clusters = clusters;
  cluster_labels_hashes = [];
  cluster_taints_hashes = [];
  cluster_api_resource_types_hashes = [];
}

abbrev before : Triggers
before = triggers_with ("a" ∷ [])

abbrev joined : Triggers
joined = triggers_with ("a" ∷ "b" ∷ [])

abbrev policy : Policy
policy = record {
  reschedule_policy = some (record {
    disable_rescheduling = false;
    trigger = some (record {
      policy_content_changed = true;
      cluster_joined = false;
      cluster_labels_changed = true;
      cluster_api_resources_changed = true;
    });
    replica_rescheduling = none;
  });
}

decide-settled_example :
    ((decide "new" "old" joined before policy).triggers_changed ≡ false)
    ↔ (Stable joined before × UnmindedByPolicy joined before policy.reschedule_policy)
decide-settled_example = decide-settled joined before "new" "old" policy

-- An encoding that tells the two apart.
abbrev toy_marshal : Triggers → String
toy_marshal t = elim t.clusters [
  | [] ↦ "none"
  | ◌∷◌ c cs ↦ elim cs [ [] ↦ "one" | ◌∷◌ d ds ↦ "more" ]
]

abbrev toy_unmarshal : String → Option Triggers
toy_unmarshal s = some before

abbrev stored : Map String String
stored = (scheduling_triggers_annotation, "one") ∷ []

update_scheduling_annotations-settled_example :
    (compute_scheduling_annotations toy_marshal toy_unmarshal joined
      (annotations_of
        (update_scheduling_annotations
          (compute_scheduling_annotations toy_marshal toy_unmarshal joined stored
            (some policy)).triggers
          (compute_scheduling_annotations toy_marshal toy_unmarshal joined stored
            (some policy)).deferred_reasons
          (some stored)).0)
      (some policy)).triggers_changed
    ≡ false
update_scheduling_annotations-settled_example =
    update_scheduling_annotations-settled toy_marshal toy_unmarshal joined stored (some policy)
