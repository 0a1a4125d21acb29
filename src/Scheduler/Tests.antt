-- ===== src/Scheduler/Tests.antt =====
-- The scheduling framework on two clusters: "a" has a taint, "b" has none.
use kubeadmiral.Base.{
  ℕ, String, Option, none, some, Bool, true, false, List, [], ◌∷◌, ◌++◌, ◌≡◌, ◌↔◌, refl, string_eq,
  All, ◌==◌,
}
use kubeadmiral.Base.Int.{ℤ, pos}
use kubeadmiral.Base.Assoc.{Map}
use kubeadmiral.Scheduler.Types.{
  no_schedule, ApiResource, ClusterCondition, Taint, Toleration, Cluster, SchedulingUnit, divide,
  spread, is_success, failed_plugin_of, ClusterScore, ClusterReplicas, FilterPlugin, ScorePlugin,
  SelectPlugin, ReplicasPlugin,
}
use kubeadmiral.Scheduler.Taints.{
  taint_filter, taint_score, taint_normalize_score, default_normalize_score,
  find_matching_untolerated_taint, first_untolerated, tolerations_tolerate_taint, count_intolerable,
  max_score,
}
use kubeadmiral.Scheduler.Runtime.{
  run_filter_plugins, add_plugins, registered, run_score_plugins, score_all, normalized,
  run_select_clusters_plugin, run_select_loop, run_replicas_plugin,
}
use kubeadmiral.Scheduler.Runtime.Filter.{run_filter_plugins-failed}
use kubeadmiral.Scheduler.Runtime.Register.{Names, Fresh, add_plugins-Names}
use kubeadmiral.Scheduler.Generic.{
  Framework, Diagnosis, scheduled, fit_error, schedule, find_fitting, score_at, total_at,
  sum_scores, divide_replicas, select_and_assign, score_and_assign, on_feasible,
}
use kubeadmiral.Scheduler.Generic.Narrowing.{SelectNarrows, ReplicasNarrows, Feasible}
use kubeadmiral.Scheduler.Generic.Feasible.{IsFeasible, schedule-IsFeasible}
use kubeadmiral.Scheduler.Generic.Fit.{schedule-fit_error}
use kubeadmiral.Base.{length, map, ap, subst, suc, eqb, inl, inr, Bool-cases}
use kubeadmiral.Base.Chain.{some_eq}
use kubeadmiral.Scheduler.Generic.Panics.{KeepsLength, score_clusters-returns}
use kubeadmiral.Base.{arith}
use mathlib.Core.List.{Mem}
use kubeadmiral.Util.ClusterSelector.{Selectors}
use kubeadmiral.Scheduler.Filters.{
  api_resources_filter, placement_filter, cluster_affinity_filter, filter_affinity,
  cluster_ready_filter, is_cluster_ready, cluster_terminating_filter, cluster_evicted_filter,
  in_tree_filters, default_filter_plugins,
}
use kubeadmiral.Scheduler.Filters.Suitable.{
  IsSuitable, default_filters, default_filters-registered, run_filter_plugins-IsSuitable,
  schedule-IsSuitable,
}
use kubeadmiral.BinPack.Plugin.{limited_capacity, replica_scheduling}
use kubeadmiral.BinPack.Plugin.Narrows.{IsWithin}
use kubeadmiral.BinPack.Plugin.Within.{IsNonNegative, replica_scheduling-IsWithin}

-- A toleration tolerates the taints of its key.
abbrev same_key : Toleration → Taint → Bool
same_key toleration taint = toleration.key == taint.key

abbrev old : Taint
old = record { key = "old"; value = ""; effect = no_schedule }

abbrev deployment : ApiResource
deployment = record { group = "apps"; version = "v1"; kind = "Deployment" }

abbrev ready : ClusterCondition
ready = record { condition_type = "Ready"; status = "True" }

abbrev a : Cluster
a = record {
  name = "a";
  taints = old ∷ [];
  labels = [];
  terminating = false;
  conditions = [];
  api_resource_types = deployment ∷ [];
}

abbrev b : Cluster
b = record {
  name = "b";
  taints = [];
  labels = [];
  terminating = false;
  conditions = ready ∷ [];
  api_resource_types = deployment ∷ [];
}

abbrev unit : SchedulingUnit
unit = record {
  key = "unit";
  desired_replicas = some (pos 3);
  current_clusters = [];
  scheduling_mode = divide;
  sticky_cluster = false;
  tolerations = [];
  max_clusters = some (pos 1);
  resource = deployment;
  cluster_names = [];
  cluster_selector = [];
  affinity = none;
  custom_migration = none;
  auto_migration = none;
  avoid_disruption = true;
  min_replicas = [];
  max_replicas = [];
  weights = [];
  priorities = [];
  replicas_strategy = spread;
}

abbrev taints_plugin : FilterPlugin
taints_plugin = record { name = "TaintToleration"; filter = taint_filter same_key }

abbrev scoring : ScorePlugin
scoring = record {
  name = "TaintToleration";
  score = taint_score same_key;
  normalize_score = some taint_normalize_score;
}

-- The one select plugin keeps the scores as they are, and the replica plugin gives every cluster 3.
abbrev keep_all : SelectPlugin
keep_all = record { name = "KeepAll"; select_clusters = λ su scores. (scores, none) }

abbrev three_each : List Cluster → List ClusterReplicas
three_each [] = []
three_each (c ∷ cs) = record { cluster = c; replicas = pos 3 } ∷ three_each cs

abbrev three : ReplicasPlugin
three = record { name = "Three"; replica_scheduling = λ su clusters. (three_each clusters, none) }

abbrev framework : Framework
framework = record {
  filter_plugins = taints_plugin ∷ [];
  score_plugins = scoring ∷ [];
  select_plugins = keep_all ∷ [];
  replicas_plugins = three ∷ [];
}

keep_all-SelectNarrows : SelectNarrows keep_all
keep_all-SelectNarrows P su scores h = h

three-ReplicasNarrows : ReplicasNarrows three
three-ReplicasNarrows P su [] h = tt
three-ReplicasNarrows P su (c ∷ cs) h = (h.0, three-ReplicasNarrows P su cs h.1)

two_scheduled : schedule framework unit (a ∷ b ∷ []) ≡ scheduled (("b", some (pos 3)) ∷ [])
unfolding schedule on_feasible find_fitting run_filter_plugins taint_filter
    find_matching_untolerated_taint first_untolerated tolerations_tolerate_taint score_and_assign
    run_score_plugins score_all taint_score normalized taint_normalize_score sum_scores total_at
    score_at default_normalize_score divide_replicas select_and_assign run_replicas_plugin
    run_select_clusters_plugin run_select_loop count_intolerable max_score
two_scheduled = refl

schedule-IsFeasible_example :
    All
      (λ (e : String × Option ℤ). IsFeasible framework unit (a ∷ b ∷ []) e.0)
      (("b", some (pos 3)) ∷ [])
schedule-IsFeasible_example =
    schedule-IsFeasible framework unit (a ∷ b ∷ []) (("b", some (pos 3)) ∷ [])
      (keep_all-SelectNarrows, tt) (three-ReplicasNarrows, tt) refl two_scheduled

schedule-fit_error_example :
    ((n : ℕ) × (d : Diagnosis) × (schedule framework unit (a ∷ []) ≡ fit_error n d))
    ↔ All (λ c. ¬ Feasible framework unit c) (a ∷ [])
schedule-fit_error_example = schedule-fit_error framework unit (a ∷ []) refl

abbrev scores : List ClusterScore
scores = record { cluster = a; score = 2 } ∷ record { cluster = b; score = 7 } ∷ []

rejected : is_success (taint_filter same_key unit a) ≡ false
unfolding taint_filter find_matching_untolerated_taint first_untolerated tolerations_tolerate_taint
rejected = refl

run_filter_plugins-failed_example :
    (is_success (run_filter_plugins (taints_plugin ∷ []) unit a) ≡ false)
    × (failed_plugin_of (run_filter_plugins (taints_plugin ∷ []) unit a) ≡ "TaintToleration")
run_filter_plugins-failed_example = run_filter_plugins-failed unit a [] taints_plugin [] tt rejected

abbrev plugins : Map String (Option ℕ)
plugins = ("x", some 1) ∷ ("y", none) ∷ ("z", some 3) ∷ []

both_registered : add_plugins plugins ("z" ∷ "x" ∷ []) [] [] ≡ registered (3 ∷ 1 ∷ [])
unfolding add_plugins
both_registered = refl

add_plugins-Names_example :
    (rest : List ℕ) × (3 ∷ 1 ∷ [] ≡ [] ++ rest)
    × Names plugins ("z" ∷ "x" ∷ []) rest
    × Fresh plugins ("z" ∷ "x" ∷ []) []
add_plugins-Names_example =
    add_plugins-Names plugins ("z" ∷ "x" ∷ []) [] [] (3 ∷ 1 ∷ []) both_registered

length-map :
    (f : ClusterScore → ClusterScore) (xs : List ClusterScore) → length (map f xs) ≡ length xs
length-map f [] = refl
length-map f (x ∷ xs) = ap suc (length-map f xs)

length-normalized_taints :
    (xs : List ClusterScore) → length (taint_normalize_score xs).0 ≡ length xs
unfolding taint_normalize_score default_normalize_score
length-normalized_taints xs = elim (Bool-cases (eqb (max_score 0 xs) 0)) [
  | inl e ↦
      rw (default_normalize_score, e)
        (length-map (λ (s : ClusterScore). record s { score = 100 }) xs)
  | inr e ↦ rw (default_normalize_score, e) (length-map _ xs)
]

scoring-KeepsLength : KeepsLength scoring
scoring-KeepsLength normalize e xs =
    subst (λ n. length (n xs).0 ≡ length xs) (some_eq e) (length-normalized_taints xs)

score_clusters-returns_example :
    (out : List ClusterScore) × (sum_scores 0
        (a ∷ b ∷ [])
        (run_score_plugins (scoring ∷ []) unit (a ∷ b ∷ []) []).0
      ≡ some out)
score_clusters-returns_example =
    score_clusters-returns (scoring ∷ []) unit (a ∷ b ∷ []) (scoring-KeepsLength, tt)

-- A library of selectors that matches everything.
abbrev lenient : Selectors
lenient = record {
  Selector = Bool;
  Requirement = Bool;
  FieldSelector = Bool;
  nothing = false;
  new_selector = true;
  new_requirement = λ key op values. some true;
  add = λ s r. s;
  selector_from_set = λ m. true;
  matches = λ s m. s;
  nothing_field = false;
  one_term_equal = λ key value. true;
  one_term_not_equal = λ key value. true;
  and_selectors = λ fs. true;
  field_matches = λ f m. f;
}

abbrev default_framework : Framework
default_framework = record framework { filter_plugins = default_filters lenient same_key 7 }

enabled :
    add_plugins (in_tree_filters lenient same_key 7) default_filter_plugins [] []
    ≡ registered (default_filters lenient same_key 7)
enabled = default_filters-registered lenient same_key 7

ready_scheduled :
    schedule default_framework unit (a ∷ b ∷ []) ≡ scheduled (("b", some (pos 3)) ∷ [])
unfolding schedule on_feasible find_fitting run_filter_plugins taint_filter
    find_matching_untolerated_taint first_untolerated tolerations_tolerate_taint score_and_assign
    run_score_plugins score_all taint_score normalized taint_normalize_score sum_scores total_at
    score_at default_normalize_score divide_replicas select_and_assign run_replicas_plugin
    run_select_clusters_plugin run_select_loop count_intolerable max_score api_resources_filter
    placement_filter cluster_affinity_filter filter_affinity cluster_ready_filter is_cluster_ready
    cluster_terminating_filter cluster_evicted_filter
ready_scheduled = refl

schedule-IsSuitable_example :
    All
      (λ (e : String × Option ℤ).
        (c : Cluster) × Mem c (a ∷ b ∷ []) × (c.name ≡ e.0) × IsSuitable lenient same_key 7 unit c)
      (("b", some (pos 3)) ∷ [])
schedule-IsSuitable_example =
    schedule-IsSuitable lenient same_key 7 unit (default_filters lenient same_key 7) enabled
      default_framework (a ∷ b ∷ []) (("b", some (pos 3)) ∷ []) refl (keep_all-SelectNarrows, tt)
      (three-ReplicasNarrows, tt) refl ready_scheduled

run_filter_plugins-IsSuitable_example :
    (is_success (run_filter_plugins (default_filters lenient same_key 7) unit a) ≡ true)
    ↔ IsSuitable lenient same_key 7 unit a
run_filter_plugins-IsSuitable_example =
    run_filter_plugins-IsSuitable lenient same_key 7 unit (default_filters lenient same_key 7)
      enabled a

abbrev easy_unit : SchedulingUnit
easy_unit = record unit {
  avoid_disruption = false;
  custom_migration =
      some (record { limited_capacity = ("b", pos 2) ∷ []; unavailable_clusters = [] });
}

easy_unit-IsNonNegative : IsNonNegative easy_unit
easy_unit-IsNonNegative = record {
  desired = omega arith;
  current = tt;
  mins = tt;
  maxes = tt;
  limits = (omega arith, tt);
}

replica_scheduling-IsWithin_example :
    All
      (IsWithin (limited_capacity easy_unit.custom_migration))
      (replica_scheduling same_key easy_unit (a ∷ b ∷ [])).0
replica_scheduling-IsWithin_example =
    replica_scheduling-IsWithin same_key easy_unit (a ∷ b ∷ []) easy_unit-IsNonNegative refl refl
