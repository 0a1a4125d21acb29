-- ===== src/Override/Tests.antt =====
-- A label that is overwritten, and the command of a container that two overriders change.
use kubeadmiral.Base.{
  ◌≡◌, refl, String, Option, none, some, List, [], ◌∷◌, ◌&&◌, ◌||◌, ◌==◌, string_eq, not, eqb,
  length,
}
use kubeadmiral.Base.Assoc.{Map, lookup, UniqueKeys, is_some}
use mathlib.Core.List.{Perm}
use Prim.Native.String.{◌++◌ as text_append}
use kubeadmiral.Override.{operator_replace, operator_add_if_absent, OverridePatch}
use kubeadmiral.Override.StringMap.{
  StringMapOverrider, Metadata, get_labels_or_annotations_from_object, operator_or_default,
  apply_entry, apply_entries, apply_string_map_overrider, apply_string_map_overriders,
  parse_string_map_overriders,
}
use kubeadmiral.Override.StringMap.Lookup.{
  told_all, some_key_exists, parse_string_map_overriders-told, apply_string_map_overrider-is_some,
}
use kubeadmiral.Override.Containers.{
  PodSpec, GroupKind, decimal, look_for_matched_container, generate_target_path_for_pod_spec,
  override_containers, patches_of, convert_patch_map_to_patches, parse_container_overriders,
}
use kubeadmiral.Override.Containers.Fields.{overridden_by, parse_container_overriders-overridden}
use kubeadmiral.Base.{All, map}
use kubeadmiral.Base.Chain.{◌>>=◌}
use kubeadmiral.Override.Entrypoint.{
  Slice, EntrypointOverrider, get_command_or_args_from_container, apply_entrypoint_overrider,
  parse_entrypoint_overriders,
}

abbrev overwrite : StringMapOverrider
overwrite = record { operator = ""; value = ("app", "new") ∷ ("tier", "front") ∷ [] }

abbrev metadata : Metadata
metadata = record { labels = ("app", "old") ∷ []; annotations = [] }

abbrev first_value : Map String String → Option String
first_value [] = none
first_value ((k, v) ∷ m) = some v

abbrev label_patches : List OverridePatch
label_patches = record { op = "replace"; path = "/metadata/labels"; value = "new" } ∷ []

labels_parsed :
    parse_string_map_overriders first_value metadata (overwrite ∷ []) "labels" ≡ some label_patches
unfolding parse_string_map_overriders apply_string_map_overriders apply_string_map_overrider
    apply_entries apply_entry
labels_parsed = refl

parse_string_map_overriders-told_example :
    (m : Map String String) × (value : String) × (first_value m ≡ some value)
    × (label_patches
        ≡ record { op = operator_replace; path = text_append "/metadata/" "labels"; value = value }
          ∷ [])
    × ((k : String)
        → lookup k m
          ≡ told_all k
              (overwrite ∷ [])
              (lookup k (get_labels_or_annotations_from_object metadata "labels")))
parse_string_map_overriders-told_example =
    parse_string_map_overriders-told first_value metadata "labels" overwrite [] label_patches
      ((refl, (refl, tt)), tt) labels_parsed

apply_string_map_overrider-is_some_example :
    is_some (apply_string_map_overrider metadata.labels overwrite)
    ≡ not (
        operator_or_default overwrite.operator == operator_add_if_absent
        && (eqb (length overwrite.value) 0 || some_key_exists overwrite.value metadata.labels))
apply_string_map_overrider-is_some_example =
    apply_string_map_overrider-is_some metadata.labels overwrite (refl, (refl, tt))

abbrev web : PodSpec
web = record {
  init_containers = [];
  containers = record { name = "web"; command = some ("run" ∷ []); args = none } ∷ [];
}

abbrev deployments : GroupKind
deployments = record { group = "apps"; kind = "Deployment" }

abbrev append_fast : EntrypointOverrider
append_fast = record { container_name = "web"; operator = "append"; value = some ("fast" ∷ []) }

abbrev delete_run : EntrypointOverrider
delete_run = record { container_name = "web"; operator = "delete"; value = some ("run" ∷ []) }

abbrev first_word : Slice → Option String
first_word none = some "null"
first_word (some []) = some "[]"
first_word (some (w ∷ ws)) = some w

abbrev command_patches : List OverridePatch
command_patches =
    record { op = "replace"; path = "/spec/template/spec/containers/0/command"; value = "fast" }
    ∷ []

command_parsed :
    parse_entrypoint_overriders first_word deployments
      (some web)
      (append_fast ∷ delete_run ∷ [])
      "command"
    ≡ some command_patches
unfolding parse_container_overriders override_containers look_for_matched_container
    generate_target_path_for_pod_spec decimal apply_entrypoint_overrider
    convert_patch_map_to_patches patches_of
command_parsed = refl

parse_container_overriders-overridden_example :
    (written : List OverridePatch) × Perm command_patches written
    × UniqueKeys (map (λ (q : OverridePatch). (q.path, q.value)) written)
    × All (λ (patch : OverridePatch). patch.op ≡ "replace") written
    × ((p : String)
        → lookup p (map (λ (q : OverridePatch). (q.path, q.value)) written) ≡ (
            overridden_by deployments "command"
              (λ (o : EntrypointOverrider). o.container_name)
              (get_command_or_args_from_container "command")
              apply_entrypoint_overrider
              first_word
              web
              p
              (append_fast ∷ delete_run ∷ [])
              none
            >>= first_word))
parse_container_overriders-overridden_example =
    parse_container_overriders-overridden deployments "command"
      (λ (o : EntrypointOverrider). o.container_name) (get_command_or_args_from_container "command")
      apply_entrypoint_overrider first_word web append_fast (delete_run ∷ []) command_patches
      command_parsed
