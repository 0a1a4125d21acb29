-- ===== src/Override/StringMap.antt =====
-- pkg/controllers/override/annotationslabelspatch.go: what overrides labels and annotations. An error
-- is `none`; the JSON encoding of a map is the parameter `marshal`.
pub mod Lookup
use kubeadmiral.Base.{
  String, Option, none, some, Bool, List, [], ◌∷◌, ◌==◌, string_eq, ◌&&◌, eqb, length,
  if◌then◌else◌,
}
use Prim.Native.String.{◌++◌ as text_append}
use kubeadmiral.Base.Assoc.{Map, lookup, insert, erase, is_some}
use kubeadmiral.Base.Chain.{◌>>=◌}
use kubeadmiral.Override.{
  operator_replace, operator_add_if_absent, operator_overwrite, operator_delete, OverridePatch,
}

pub record StringMapOverrider : Type 0 where
  pub operator : String
  pub value : Map String String

-- What `getLabelsOrAnnotationsFromObject` reads of an object.
pub record Metadata : Type 0 where
  pub labels : Map String String
  pub annotations : Map String String

abbrev pub labels_target : String
labels_target = "labels"

abbrev pub annotations_target : String
annotations_target = "annotations"

abbrev pub get_labels_or_annotations_from_object : Metadata → String → Map String String
get_labels_or_annotations_from_object raw_obj target =
    if target == labels_target then raw_obj.labels else raw_obj.annotations

-- The body of the loop of `applyStringMapOverrider`.
unfoldable pub apply_entry :
    String → String → String → Map String String → Option (Map String String)
apply_entry operator key value map_value =
    if operator == operator_add_if_absent
    then (if is_some (lookup key map_value) then none else some (insert key value map_value))
    else if operator == operator_overwrite
    then some (if is_some (lookup key map_value) then insert key value map_value else map_value)
    else if operator == operator_delete
    then some (erase key map_value)
    else some map_value

-- The loop of `applyStringMapOverrider` over the overrider's map.
unfoldable pub apply_entries :
    String → Map String String → Map String String → Option (Map String String)
apply_entries operator [] map_value = some map_value
apply_entries operator ((key, value) ∷ rest) map_value = do
  next ← apply_entry operator key value map_value
  apply_entries operator rest next

-- No operator means `overwrite`.
abbrev pub operator_or_default : String → String
operator_or_default operator = if operator == "" then operator_overwrite else operator

unfoldable pub apply_string_map_overrider :
    Map String String → StringMapOverrider → Option (Map String String)
apply_string_map_overrider map_value o =
    if operator_or_default o.operator == operator_add_if_absent && eqb (length o.value) 0
    then none
    else apply_entries (operator_or_default o.operator) o.value map_value

-- The loop of `parseStringMapOverriders`.
unfoldable pub apply_string_map_overriders :
    List StringMapOverrider → Map String String → Option (Map String String)
apply_string_map_overriders [] map_value = some map_value
apply_string_map_overriders (o ∷ overriders) map_value = do
  next ← apply_string_map_overrider map_value o
  apply_string_map_overriders overriders next

module _ (marshal : Map String String → Option String) where
  unfoldable pub parse_string_map_overriders :
      Metadata → List StringMapOverrider → String → Option (List OverridePatch)
  parse_string_map_overriders source_obj [] target = some []
  parse_string_map_overriders source_obj (o ∷ overriders) target = do
    map_value ←
        apply_string_map_overriders (o ∷ overriders)
          (get_labels_or_annotations_from_object source_obj target)
    json_bytes ← marshal map_value
    some (
        record { op = operator_replace; path = text_append "/metadata/" target; value = json_bytes }
        ∷ [])
