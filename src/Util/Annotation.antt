-- ===== src/Util/Annotation.antt =====
-- pkg/util/annotation/annotation.go: the annotations of an object. An object is its annotations, and
-- `none` a nil pointer; a nil map and an empty one are the same. What changes the object returns it.
pub mod Lookup
use kubeadmiral.Base.{
  String, Option, none, some, Bool, true, false, [], ◌==◌, string_eq, if◌then◌else◌,
}
use kubeadmiral.Base.Assoc.{Map, lookup, insert, erase, is_some}

abbrev pub Object : Type 0
Object = Option (Map String String)

abbrev pub annotations_of : Object → Map String String
annotations_of none = []
annotations_of (some annotations) = annotations

-- A Boolean answer, or one of the errors.
pub data Answer : Type 0 where
  answer : Bool → Answer
  nil_pointer empty_key : Answer

unfoldable pub has_annotation_key : Object → String → Answer
has_annotation_key none key = nil_pointer
has_annotation_key (some annotations) key = answer (is_some (lookup key annotations))

abbrev pub holds : String → Option String → Bool
holds value none = false
holds value (some v) = value == v

unfoldable pub has_annotation_key_value : Object → String → String → Answer
has_annotation_key_value none key value = nil_pointer
has_annotation_key_value (some annotations) key value =
    answer (holds value (lookup key annotations))

unfoldable pub add_annotation : Object → String → String → Object × Answer
add_annotation none key value = (none, nil_pointer)
add_annotation (some annotations) key value =
    if key == ""
    then (some annotations, empty_key)
    else elim (has_annotation_key_value (some annotations) key value) [
      | answer true ↦ (some annotations, answer false)
      | answer false ↦ (some (insert key value annotations), answer true)
      | error ↦ (some annotations, error)
    ]

unfoldable pub remove_annotation : Object → String → Object × Answer
remove_annotation none key = (none, nil_pointer)
remove_annotation (some annotations) key = elim (has_annotation_key (some annotations) key) [
  | answer false ↦ (some annotations, answer false)
  | answer true ↦ (some (erase key annotations), answer true)
  | error ↦ (some annotations, error)
]
