-- ===== src/Scheduler/Unit/Tests.antt =====
-- The unit of a deployment whose placement has one cluster and one override.
use kubeadmiral.Base.{String, none, some, true, [], ◌∷◌, ◌≡◌, refl, string_eq}
use kubeadmiral.Base.Int.{pos}
use kubeadmiral.Scheduler.Types.{ApiResource, SchedulingUnit}
use kubeadmiral.Base.{arith}
use kubeadmiral.Base.Assoc.{lookup, has, is_some}
use kubeadmiral.FedObject.{get_controller_placement}
use kubeadmiral.Scheduler.Unit.{
  PolicySpec, FederatedObject, TypeConfig, Decoders, prefixed_global_scheduler_name,
  get_current_replicas_from_object, get_scheduling_mode_from_policy,
}
use kubeadmiral.Scheduler.Unit.Annotations.{
  get_scheduling_mode_from_object, get_custom_migration_info,
}
use kubeadmiral.Scheduler.Unit.Build.{assemble, scheduling_unit_for_fed_object}
use kubeadmiral.Scheduler.Unit.Current.{get_current_replicas_from_object-keys}
use kubeadmiral.Scheduler.Unit.Counts.{HasNoNegative, scheduling_unit_for_fed_object-HasNoNegative}

abbrev no_decoders : Decoders
no_decoders = record {
  count = λ s. some (pos 2);
  cluster_selector = λ s. none;
  affinity = λ s. none;
  tolerations = λ s. none;
  placements = λ s. none;
  cluster_references = λ s. none;
  auto_migration_info = λ s. none;
  custom_migration_info = λ s. none;
  atoi = λ s. none;
}

abbrev deployment : ApiResource
deployment = record { group = "apps"; version = "v1"; kind = "Deployment" }

abbrev types : TypeConfig
types = record {
  source_type = deployment;
  replicas_spec = "spec.replicas";
  replicas_path = "/spec/replicas";
}

abbrev object : FederatedObject
object = record {
  template = some (record {
    namespace = "default";
    name = "app";
    replicas = some (some (pos 3));
    requests = true;
  });
  annotations = [];
  placements = record { controller = prefixed_global_scheduler_name; values = "a" ∷ [] } ∷ [];
  overrides =
      record {
        controller = prefixed_global_scheduler_name;
        values =
            record {
              cluster = "a";
              patches = record { path = "/spec/replicas"; op = "replace"; value = "2" } ∷ [];
            }
            ∷ [];
      }
      ∷ [];
}

abbrev spec : PolicySpec
spec = record {
  scheduling_mode = "Divide";
  replicas_strategy = none;
  cluster_selector = [];
  cluster_affinity = [];
  tolerations = [];
  max_clusters = none;
  placements =
      record {
        cluster = "a";
        preferences = record {
          min_replicas = pos 1;
          max_replicas = some (pos 4);
          weight = none;
          priority = none;
        };
      }
      ∷ [];
  auto_migration = none;
  reschedule_policy = none;
}

get_current_replicas_from_object-keys_example :
    is_some (lookup {K = String} "a" (get_current_replicas_from_object no_decoders types object))
    ≡ has {K = String} "a"
        (get_controller_placement object.placements prefixed_global_scheduler_name)
get_current_replicas_from_object-keys_example =
    get_current_replicas_from_object-keys no_decoders types object "a"

abbrev object_unit : SchedulingUnit
object_unit =
    assemble no_decoders types object spec
      (record {
        namespace = "default";
        name = "app";
        replicas = some (some (pos 3));
        requests = true;
      })
      (some (pos 3)) none none

object_unit-built : scheduling_unit_for_fed_object no_decoders types object spec ≡ some object_unit
unfolding scheduling_unit_for_fed_object get_scheduling_mode_from_object
    get_scheduling_mode_from_policy get_custom_migration_info
object_unit-built = refl

scheduling_unit_for_fed_object-HasNoNegative_example : HasNoNegative no_decoders object_unit
scheduling_unit_for_fed_object-HasNoNegative_example =
    scheduling_unit_for_fed_object-HasNoNegative no_decoders types object spec object_unit
      (
        record {
          min_replicas = omega arith;
          max_replicas = omega arith;
          weight = tt;
          priority = tt;
        },
        tt,
      )
      tt object_unit-built
