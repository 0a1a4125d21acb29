-- ===== src/Override/Containers.antt =====
-- The overriders of a container's fields (pkg/controllers/override/commandargspatch.go): the matching
-- container, the path of its field, and the map from paths to new values. The JSON encoding of a
-- value is the parameter `marshal`.
pub mod Told
pub mod Fields
use kubeadmiral.Base.{
  ℕ, zero, suc, ◌+◌, ◌/◌, ◌%◌, String, Option, none, some, Bool, List, [], ◌∷◌, ◌==◌, string_eq,
  string_less, ◌&&◌, ◌||◌, ltb, if◌then◌else◌,
}
use Prim.Native.String.{◌++◌ as text_append, slice}
use kubeadmiral.Base.Assoc.{Map, lookup, insert}
use kubeadmiral.Base.Chain.{◌>>=◌}
use kubeadmiral.Base.Sorting.{sort}
use kubeadmiral.Override.{operator_replace, OverridePatch}

-- What is read of a container; a slice that is nil is `none`.
pub record Container : Type 0 where
  pub name : String
  pub command : Option (List String)
  pub args : Option (List String)

pub record PodSpec : Type 0 where
  pub init_containers : List Container
  pub containers : List Container

pub record GroupKind : Type 0 where
  pub group : String
  pub kind : String

-- What `lookForMatchedContainer` returns where some container matches.
pub record MatchedContainer : Type 0 where
  pub container_kind : String
  pub container_index : ℕ
  pub container : Container

abbrev pub find_container : String → String → ℕ → List Container → Option MatchedContainer
find_container kind name index [] = none
find_container kind name index (item ∷ containers) =
    if name == item.name
    then some (record { container_kind = kind; container_index = index; container = item })
    else find_container kind name (suc index) containers

abbrev pub or_else : Option MatchedContainer → Option MatchedContainer → Option MatchedContainer
or_else none o = o
or_else (some c) o = some c

unfoldable pub look_for_matched_container : PodSpec → String → Option MatchedContainer
look_for_matched_container pod_spec container_name =
    or_else (find_container "initContainers" container_name 0 pod_spec.init_containers)
      (find_container "containers" container_name 0 pod_spec.containers)

-- A number in decimal digits, as `%d` prints it; `fuel` is more than the number of digits.
abbrev digits : ℕ → ℕ → String
digits zero n = ""
digits (suc fuel) n =
    let digit = slice "0123456789" (n % 10) (n % 10 + 1) in
    if ltb n 10 then digit else text_append (digits fuel (n / 10)) digit

unfoldable pub decimal : ℕ → String
decimal n = digits (n + 1) n

-- `PodSpecPaths`, where `"/" + strings.ReplaceAll(path, ".", "/")` is worked out.
abbrev pub pod_spec_path : GroupKind → Option String
pod_spec_path g =
    if g.group == "apps"
      && (g.kind == "Deployment" || (g.kind == "StatefulSet" || g.kind == "DaemonSet"))
    then some "/spec/template/spec"
    else if g.group == "batch" && g.kind == "Job"
    then some "/spec/template/spec"
    else if g.group == "batch" && g.kind == "CronJob"
    then some "/spec/jobTemplate/spec/template/spec"
    else if g.group == "" && g.kind == "Pod"
    then some "/spec"
    else none

unfoldable pub generate_target_path_for_pod_spec : GroupKind → String → String → ℕ → Option String
generate_target_path_for_pod_spec gk container_kind target index = do
  path ← pod_spec_path gk
  some (
      text_append path (
        text_append "/" (
          text_append container_kind
            (text_append "/" (text_append (decimal index) (text_append "/" target))))))

-- One loop for any kind of overrider: `name_of` is its container, `current_of` what the container has,
-- and `apply` what the overrider makes of that.
module _ {V O : Type 0} (gk : GroupKind) (target : String) (name_of : O → String)
    (current_of : Container → V) (apply : V → O → Option V) (marshal : V → Option String) where
  abbrev pub current_value : Option V → Container → V
  current_value none container = current_of container
  current_value (some value) container = value

  -- The body of the loop.
  abbrev pub override_matched : Option MatchedContainer → O → Map String V → Option (Map String V)
  override_matched none o patch_map = some patch_map
  override_matched (some c) o patch_map = do
    target_path ← generate_target_path_for_pod_spec gk c.container_kind target c.container_index
    value ← apply (current_value (lookup target_path patch_map) c.container) o
    some (insert target_path value patch_map)

  unfoldable pub override_containers : PodSpec → List O → Map String V → Option (Map String V)
  override_containers pod_spec [] patch_map = some patch_map
  override_containers pod_spec (o ∷ overriders) patch_map = do
    next ← override_matched (look_for_matched_container pod_spec (name_of o)) o patch_map
    override_containers pod_spec overriders next

  -- The loop of `convertPatchMapToPatches`.
  unfoldable pub patches_of : Map String V → Option (List OverridePatch)
  patches_of [] = some []
  patches_of ((path, value) ∷ patch_map) = do
    json_bytes ← marshal value
    patches ← patches_of patch_map
    some (record { op = operator_replace; path = path; value = json_bytes } ∷ patches)

  abbrev pub path_less : OverridePatch → OverridePatch → Bool
  path_less p q = string_less p.path q.path

  unfoldable pub convert_patch_map_to_patches : Map String V → Option (List OverridePatch)
  convert_patch_map_to_patches patch_map = do
    patches ← patches_of patch_map
    some (sort path_less patches)

  -- `none` for the pod spec is an error of its reading.
  unfoldable pub parse_container_overriders : Option PodSpec → List O → Option (List OverridePatch)
  parse_container_overriders source [] = some []
  parse_container_overriders source (o ∷ overriders) = do
    pod_spec ← source
    patch_map ← override_containers pod_spec (o ∷ overriders) []
    convert_patch_map_to_patches patch_map
