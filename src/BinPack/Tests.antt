-- ===== src/BinPack/Tests.antt =====
-- The filling planner on one or two clusters.
use kubeadmiral.Base.{◌≡◌, ◌<◌, ℕ, String, none, some, true, [], ◌∷◌, arith, All}
use kubeadmiral.Base.Int.{ℤ, pos, ◌≤ℤ◌}
use kubeadmiral.Base.Assoc.{Map}
use kubeadmiral.BinPack.{NamedClusterPreferences, get_desired_plan, sum_ℤ, plan}
use kubeadmiral.BinPack.Limits.{Fits, get_desired_plan-Fits}
use kubeadmiral.BinPack.Surplus.{one_cluster, plan-exceeds_limited, plan-exceeds_maximum}

abbrev wants : String → NamedClusterPreferences
wants name = record {
  cluster_name = name;
  preferences = record { min_replicas = pos 1; max_replicas = some (pos 4) };
}

abbrev capacity : Map String ℤ
capacity = ("a", pos 3) ∷ []

get_desired_plan-Fits_example :
    (sum_ℤ (get_desired_plan capacity [] (wants "a" ∷ wants "b" ∷ []) (pos 9)).0 ≤ℤ pos 9)
    × All (Fits capacity []) (get_desired_plan capacity [] (wants "a" ∷ wants "b" ∷ []) (pos 9)).0
get_desired_plan-Fits_example =
    get_desired_plan-Fits capacity [] (omega arith, tt) tt (wants "a" ∷ wants "b" ∷ []) (pos 9)
      ((omega arith, omega arith), ((omega arith, omega arith), tt)) (omega arith)

plan-exceeds_limited_example :
    (v : ℕ) × ((plan
        (one_cluster "a" none)
        (pos 10)
        ("a" ∷ [])
        (("a", pos 3) ∷ [])
        []
        (("a", pos 5) ∷ [])
        true
        true
        []).0
      ≡ ("a", pos v) ∷ [])
    × (5 < v)
plan-exceeds_limited_example =
    plan-exceeds_limited "a" 10 3 5 (omega arith) (omega arith) (omega arith)

plan-exceeds_maximum_example :
    (plan
      (one_cluster "a" (some (pos 5)))
      (pos 10)
      ("a" ∷ [])
      (("a", pos 7) ∷ [])
      []
      []
      true
      true
      []).0
    ≡ ("a", pos 10) ∷ []
plan-exceeds_maximum_example = plan-exceeds_maximum "a" 10 7 5 (omega arith) (omega arith)
