-- ===== src/Override/Entrypoint.antt =====
-- pkg/controllers/override/commandargspatch.go: what overrides the command and the arguments of a
-- container. An error is `none`.
use kubeadmiral.Base.{
  String, Option, none, some, List, [], ◌∷◌, ◌++◌, ◌==◌, string_eq, eqb, length, not, if◌then◌else◌,
}
use kubeadmiral.Base.Assoc.{has}
use kubeadmiral.Base.Sets.{or_nil}
use kubeadmiral.Override.{operator_append, operator_overwrite, operator_delete, OverridePatch}
use kubeadmiral.Override.Containers.{Container, PodSpec, GroupKind, parse_container_overriders}

-- A slice, where nil is `none`; JSON tells it from an empty one.
abbrev pub Slice : Type 0
Slice = Option (List String)

pub record EntrypointOverrider : Type 0 where
  pub container_name : String
  pub operator : String
  pub value : Slice

abbrev pub get_command_or_args_from_container : String → Container → Slice
get_command_or_args_from_container target container =
    if target == "command" then container.command else container.args

-- The loop of the operator `delete`.
abbrev pub without : List String → List String → List String
without values [] = []
without values (value ∷ old_value) =
    if not (has value values) then value ∷ without values old_value else without values old_value

-- What appending to a nil slice gives: nil if nothing is appended.
abbrev pub appended : List String → Slice
appended [] = none
appended (value ∷ values) = some (value ∷ values)

unfoldable pub apply_entrypoint_overrider : Slice → EntrypointOverrider → Option Slice
apply_entrypoint_overrider old_value o =
    if o.operator == operator_append
    then (if eqb (length (or_nil o.value)) 0
        then none
        else some (some (or_nil old_value ++ or_nil o.value)))
    else if o.operator == operator_overwrite
    then some o.value
    else if o.operator == operator_delete
    then some (appended (without (or_nil o.value) (or_nil old_value)))
    else none

abbrev pub parse_entrypoint_overriders :
    (Slice → Option String)
    → GroupKind
    → Option PodSpec
    → List EntrypointOverrider
    → String
    → Option (List OverridePatch)
parse_entrypoint_overriders marshal gk source overriders target =
    parse_container_overriders gk target (λ (o : EntrypointOverrider). o.container_name)
      (get_command_or_args_from_container target) apply_entrypoint_overrider marshal source
      overriders
