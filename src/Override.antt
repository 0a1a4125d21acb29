-- ===== src/Override.antt =====
-- The override policies of pkg/controllers/override: the overriders that turn a policy into patches.
pub mod StringMap
pub mod Containers
pub mod Entrypoint
mod Tests
use kubeadmiral.Base.{String}

-- The operators of an overrider (pkg/controllers/override/util.go).
abbrev pub operator_replace : String
operator_replace = "replace"

abbrev pub operator_add_if_absent : String
operator_add_if_absent = "addIfAbsent"

abbrev pub operator_append : String
operator_append = "append"

abbrev pub operator_overwrite : String
operator_overwrite = "overwrite"

abbrev pub operator_delete : String
operator_delete = "delete"

-- `OverridePatch`, with its raw JSON value.
pub record OverridePatch : Type 0 where
  pub op : String
  pub path : String
  pub value : String
