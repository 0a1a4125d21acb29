-- ===== src/Util/ClusterSelector.antt =====
-- pkg/util/clusterselector/util.go: the cluster selector terms of a policy. Selectors over labels and
-- over fields are those of k8s.io/apimachinery, the operations of the interface `Selectors`; a logged
-- or formatted error is `none`.
pub mod Terms
use kubeadmiral.Base.{
  ℕ, String, Option, none, some, Bool, true, false, List, [], ◌∷◌, ◌==◌, string_eq, ltb, length,
  eqb, not, if◌then◌else◌,
}
use kubeadmiral.Base.Assoc.{Map}

-- `selection.Operator`
pub data Operator : Type 0 where
  in_values not_in exists does_not_exist greater_than less_than : Operator

-- The packages `labels` and `fields`.
pub record Selectors : Type 1 where
  pub Selector : Type 0
  pub Requirement : Type 0
  pub FieldSelector : Type 0
  pub nothing : Selector
  pub new_selector : Selector
  pub new_requirement : String → Operator → List String → Option Requirement
  pub add : Selector → Requirement → Selector
  pub selector_from_set : Map String String → Selector
  pub matches : Selector → Map String String → Bool
  pub nothing_field : FieldSelector
  pub one_term_equal : String → String → FieldSelector
  pub one_term_not_equal : String → String → FieldSelector
  pub and_selectors : List FieldSelector → FieldSelector
  pub field_matches : FieldSelector → Map String String → Bool

-- `ClusterSelectorRequirement`; its operator is a text.
pub record ClusterSelectorRequirement : Type 0 where
  pub key : String
  pub operator : String
  pub values : List String

pub record ClusterSelectorTerm : Type 0 where
  pub match_expressions : List ClusterSelectorRequirement
  pub match_fields : List ClusterSelectorRequirement

-- The `switch` on the operator; `none` is its default.
abbrev pub operator_of : String → Option Operator
operator_of op =
    if op == "In"
    then some in_values
    else if op == "NotIn"
    then some not_in
    else if op == "Exists"
    then some exists
    else if op == "DoesNotExist"
    then some does_not_exist
    else if op == "Gt"
    then some greater_than
    else if op == "Lt"
    then some less_than
    else none

-- The test that there is one value.
abbrev pub one_value : {A : Type 0} → (String → A) → List String → Option A
one_value f [] = none
one_value f (v ∷ []) = some (f v)
one_value f (v ∷ w ∷ more) = none

module _ (s : Selectors) where
  -- The loop of `ClusterSelectorRequirementsAsSelector`.
  unfoldable pub add_requirements : List ClusterSelectorRequirement → s.Selector → Option s.Selector
  add_requirements [] selector = some selector
  add_requirements (e ∷ es) selector = elim (operator_of e.operator) [
    | none ↦ none
    | some op ↦ elim (s.new_requirement e.key op e.values) [
      | none ↦ none
      | some r ↦ add_requirements es (s.add selector r)
    ]
  ]

  unfoldable pub cluster_selector_requirements_as_selector :
      List ClusterSelectorRequirement → Option s.Selector
  cluster_selector_requirements_as_selector [] = some s.nothing
  cluster_selector_requirements_as_selector (e ∷ es) = add_requirements (e ∷ es) s.new_selector

  -- One turn of the loop of `ClusterSelectorRequirementsAsFieldSelector`.
  unfoldable pub field_term : ClusterSelectorRequirement → Option s.FieldSelector
  field_term e =
      if e.operator == "In"
      then one_value (s.one_term_equal e.key) e.values
      else if e.operator == "NotIn"
      then one_value (s.one_term_not_equal e.key) e.values
      else none

  unfoldable pub field_terms : List ClusterSelectorRequirement → Option (List s.FieldSelector)
  field_terms [] = some []
  field_terms (e ∷ es) =
      let rest = field_terms es in
      elim (field_term e) [
        | none ↦ none
        | some t ↦ elim rest [ none ↦ none | some ts ↦ some (t ∷ ts) ]
      ]

  unfoldable pub cluster_selector_requirements_as_field_selector :
      List ClusterSelectorRequirement → Option s.FieldSelector
  cluster_selector_requirements_as_field_selector [] = some s.nothing_field
  cluster_selector_requirements_as_field_selector (e ∷ es) = elim (field_terms (e ∷ es)) [
    | none ↦ none
    | some ts ↦ some (s.and_selectors ts)
  ]

  -- What one half of a term says: an error, or whether it lets the cluster pass.
  unfoldable pub labels_match : List ClusterSelectorRequirement → Map String String → Option Bool
  labels_match [] labels = some true
  labels_match (e ∷ es) labels = elim (cluster_selector_requirements_as_selector (e ∷ es)) [
    | none ↦ none
    | some selector ↦ some (s.matches selector labels)
  ]

  unfoldable pub fields_match : List ClusterSelectorRequirement → String → Option Bool
  fields_match [] name = some true
  fields_match (e ∷ es) name = elim (cluster_selector_requirements_as_field_selector (e ∷ es)) [
    | none ↦ none
    | some selector ↦ some (s.field_matches selector (("metadata.name", name) ∷ []))
  ]

  abbrev pub is_empty_term : ClusterSelectorTerm → Bool
  is_empty_term t =
      if eqb (length t.match_expressions) 0 then eqb (length t.match_fields) 0 else false

  -- `MatchClusterSelectorTerms` on the labels and the name of a cluster.
  unfoldable pub match_cluster_selector_terms :
      List ClusterSelectorTerm → Map String String → String → Option Bool
  match_cluster_selector_terms [] labels name = some false
  match_cluster_selector_terms (t ∷ ts) labels name =
      let rest = match_cluster_selector_terms ts labels name in
      if is_empty_term t then rest else elim (labels_match t.match_expressions labels) [
        | none ↦ none
        | some false ↦ rest
        | some true ↦ elim (fields_match t.match_fields name) [
          | none ↦ none
          | some false ↦ rest
          | some true ↦ some true
        ]
      ]
