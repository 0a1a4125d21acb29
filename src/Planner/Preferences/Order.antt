-- ===== src/Planner/Preferences/Order.antt =====
-- `getNamedPreferences` gives every preference of the map once, by decreasing weight.
use kubeadmiral.Base.{
  ℕ, ◌≡◌, ◌≢◌, sym, String, none, List, [], ◌∷◌, true, false, arith, string_eq, Bool-cases, inl,
  inr, All, sum_of,
}
use kubeadmiral.Base.Assoc.{Map, lookup, UniqueKeys}
use kubeadmiral.Base.Sorting.{sort, place, Sorted, sort-Sorted, All-place, All-sort, sum_of-sort}
use kubeadmiral.Planner.Preferences.{
  ClusterPreferences, NamedClusterPreferences, by_weight, named_all, get_named_preferences,
}

-- No two preferences name one cluster.
abbrev pub DistinctNames : List NamedClusterPreferences → Type 0
DistinctNames [] = Unit
DistinctNames (p ∷ ps) = All (λ q. p.cluster_name ≢ q.cluster_name) ps × DistinctNames ps

place-DistinctNames :
    (p : NamedClusterPreferences) (ps : List NamedClusterPreferences)
    → All (λ q. p.cluster_name ≢ q.cluster_name) ps
    → DistinctNames ps
    → DistinctNames (place by_weight p ps)
place-DistinctNames p [] h d = (tt, tt)
place-DistinctNames p (q ∷ ps) h d = elim (Bool-cases (by_weight q p)) [
  | inl e ↦ rw e (
    All-place by_weight (λ r. q.cluster_name ≢ r.cluster_name) p ps (λ k. h.0 (sym k)) d.0,
    place-DistinctNames p ps h.1 d.1,
  )
  | inr e ↦ rw e (h, d)
]

sort-DistinctNames :
    (ps : List NamedClusterPreferences) → DistinctNames ps → DistinctNames (sort by_weight ps)
sort-DistinctNames [] d = tt
sort-DistinctNames (p ∷ ps) d =
    place-DistinctNames p (sort by_weight ps)
      (All-sort by_weight (λ q. p.cluster_name ≢ q.cluster_name) ps d.0) (sort-DistinctNames ps d.1)

by_weight_asym : (a b : NamedClusterPreferences) → by_weight a b ≡ true → by_weight b a ≡ false
by_weight_asym a b h = ground arith

by_weight_trans :
    (a b c : NamedClusterPreferences)
    → by_weight b a ≡ false
    → by_weight c b ≡ false
    → by_weight c a ≡ false
by_weight_trans a b c h k = ground arith

module _ (hash : String → String → ℕ) (key : String) where
  absent :
      (name : String) (m : Map String ClusterPreferences)
      → lookup name m ≡ none
      → All (λ q. name ≢ q.cluster_name) (named_all hash key m)
  absent name [] h = tt
  absent name ((j, v) ∷ m) h = (
    λ e. ground (arith, string_eq.reflects j name),
    absent name m (ground (arith, string_eq.reflects j name)),
  )

  named_all-DistinctNames :
      (m : Map String ClusterPreferences) → UniqueKeys m → DistinctNames (named_all hash key m)
  named_all-DistinctNames [] u = tt
  named_all-DistinctNames ((j, v) ∷ m) u = (absent j m u.0, named_all-DistinctNames m u.1)

  pub get_named_preferences-DistinctNames :
      (m : Map String ClusterPreferences)
      → UniqueKeys m
      → DistinctNames (get_named_preferences hash key m)
  unfolding get_named_preferences
  get_named_preferences-DistinctNames m u =
      sort-DistinctNames (named_all hash key m) (named_all-DistinctNames m u)

  pub get_named_preferences-Sorted :
      (m : Map String ClusterPreferences) → Sorted by_weight (get_named_preferences hash key m)
  unfolding get_named_preferences
  get_named_preferences-Sorted m =
      sort-Sorted by_weight by_weight_asym by_weight_trans (named_all hash key m)

  pub get_named_preferences-All :
      (P : NamedClusterPreferences → Type 0) (m : Map String ClusterPreferences)
      → All P (named_all hash key m)
      → All P (get_named_preferences hash key m)
  unfolding get_named_preferences
  get_named_preferences-All P m h = All-sort by_weight P (named_all hash key m) h

  pub get_named_preferences-sum :
      (f : NamedClusterPreferences → ℕ) (m : Map String ClusterPreferences)
      → sum_of f (get_named_preferences hash key m) ≡ sum_of f (named_all hash key m)
  unfolding get_named_preferences
  get_named_preferences-sum f m = sum_of-sort by_weight f (named_all hash key m)
