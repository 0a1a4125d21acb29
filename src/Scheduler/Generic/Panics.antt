-- ===== src/Scheduler/Generic/Panics.antt =====
-- That the sums of `scoreClusters` never index past the end of a list of scores.
use kubeadmiral.Base.{
  ◌≡◌, ◌≢◌, ◌⊎◌, refl, sym, ap, ◌∙◌, ℕ, zero, suc, ◌+◌, ◌<◌, ◌≤◌, String, Option, some, List, [],
  ◌∷◌, arith, inl, inr, Bool-cases, Option-cases, All, length, string_eq,
}
use kubeadmiral.Base.Assoc.{Map, All-insert, insert}
use kubeadmiral.Scheduler.Types.{
  Cluster, SchedulingUnit, Result, is_success, ClusterScore, ScorePlugin,
}
use kubeadmiral.Scheduler.Runtime.{
  Scored, scored, not_scored, score_all, normalized, run_score_plugins,
}
use kubeadmiral.Scheduler.Generic.{score_at, total_at, sum_scores}

-- What the interface asks of a score plugin: `NormalizeScore` writes into the scores that it is
-- handed, and neither adds nor drops one.
abbrev pub KeepsLength : ScorePlugin → Type 0
KeepsLength plugin =
    (normalize : List ClusterScore → List ClusterScore × Option Result)
    → plugin.normalize_score ≡ some normalize
    → (scores : List ClusterScore) → length (normalize scores).0 ≡ length scores

Scored-cases :
    (s : Scored)
    → ((r : Option Result) × (s ≡ not_scored r)) ⊎ ((xs : List ClusterScore) × (s ≡ scored xs))
Scored-cases (scored xs) = inr (xs, refl)
Scored-cases (not_scored r) = inl (r, refl)

scored_eq : {xs ys : List ClusterScore} → scored xs ≡ scored ys → xs ≡ ys
scored_eq h = cc

refused≢scored : {r : Option Result} {xs : List ClusterScore} → not_scored r ≢ scored xs
refused≢scored h = cc

length-score_all :
    (p : ScorePlugin) (su : SchedulingUnit) (cs : List Cluster) (xs : List ClusterScore)
    → score_all p su cs ≡ scored xs
    → length xs ≡ length cs
unfolding score_all
length-score_all p su [] xs h = ap length (sym (scored_eq h))
length-score_all p su (c ∷ cs) xs h = elim (Bool-cases (is_success (p.score su c).1)) [
  | inl e ↦ elim (Scored-cases (score_all p su cs)) [
    | inl (r, f) ↦ absurd (refused≢scored (rw (score_all, e, f) at h))
    | inr (ys, f) ↦
        ap length (sym (scored_eq (rw (score_all, e, f) at h)))
        ∙ ap suc (length-score_all p su cs ys f)
  ]
  | inr e ↦ absurd (refused≢scored (rw (score_all, e) at h))
]

length-normalized :
    (p : ScorePlugin) (xs ys : List ClusterScore)
    → KeepsLength p
    → normalized p xs ≡ scored ys
    → length ys ≡ length xs
unfolding normalized
length-normalized p xs ys k h = elim (Option-cases p.normalize_score) [
  | inl e ↦ ap length (sym (scored_eq (rw (normalized, e) at h)))
  | inr (n, e) ↦ elim (Bool-cases (is_success (n xs).1)) [
    | inl f ↦ ap length (sym (scored_eq (rw (normalized, e, f) at h))) ∙ k n e xs
    | inr f ↦ absurd (refused≢scored (rw (normalized, e, f) at h))
  ]
]

-- Each plugin's list has a score for each of `n` clusters.
abbrev pub Complete : ℕ → Map String (List ClusterScore) → Type 0
Complete n scores = All (λ (x : String × List ClusterScore). length x.1 ≡ n) scores

run_score_plugins-Complete :
    (ps : List ScorePlugin) (su : SchedulingUnit) (cs : List Cluster)
    (acc : Map String (List ClusterScore))
    → All KeepsLength ps
    → Complete (length cs) acc
    → Complete (length cs) (run_score_plugins ps su cs acc).0
unfolding run_score_plugins
run_score_plugins-Complete [] su cs acc k h = h
run_score_plugins-Complete (p ∷ ps) su cs acc k h = elim (Scored-cases (score_all p su cs)) [
  | inl (r, e) ↦ rw (run_score_plugins, e) tt
  | inr (xs, e) ↦ elim (Scored-cases (normalized p xs)) [
    | inl (r, f) ↦ rw (run_score_plugins, e, f) tt
    | inr (ys, f) ↦
        rw (run_score_plugins, e, f)
          (run_score_plugins-Complete ps su cs (insert p.name ys acc) k.1 (
            All-insert (λ (x : String × List ClusterScore). length x.1 ≡ length cs) p.name ys acc
              (length-normalized p xs ys k.0 f ∙ length-score_all p su cs xs e) h))
  ]
]

score_at-is_some :
    (i : ℕ) (xs : List ClusterScore) → i < length xs → (s : ℕ) × (score_at i xs ≡ some s)
unfolding score_at
score_at-is_some i [] h = absurd (omega (arith, h))
score_at-is_some zero (x ∷ xs) h = (x.score, refl)
score_at-is_some (suc i) (x ∷ xs) h = score_at-is_some i xs (omega (arith, h))

total_at-is_some :
    (i n : ℕ) (m : Map String (List ClusterScore))
    → i < n
    → Complete n m
    → (t : ℕ) × (total_at i m ≡ some t)
unfolding total_at
total_at-is_some i n [] h c = (0, refl)
total_at-is_some i n ((k, xs) ∷ m) h c =
    let (s, e) = score_at-is_some i xs (omega (arith, h, c.0)) in
    let (t, f) = total_at-is_some i n m h c.1 in (s + t, rw (total_at, e, f) refl)

sum_scores-is_some :
    (i n : ℕ) (cs : List Cluster) (m : Map String (List ClusterScore))
    → i + length cs ≤ n
    → Complete n m
    → (out : List ClusterScore) × (sum_scores i cs m ≡ some out)
unfolding sum_scores
sum_scores-is_some i n [] m h c = ([], refl)
sum_scores-is_some i n (x ∷ cs) m h c =
    let (t, e) = total_at-is_some i n m (omega (arith, h)) c in
    let (out, f) = sum_scores-is_some (suc i) n cs m (omega (arith, h)) c in
    (record { cluster = x; score = t } ∷ out, rw (sum_scores, e, f) refl)

-- The sums of `scoreClusters` over what `RunScorePlugins` returns never index past the end of a
-- list, if no plugin's `NormalizeScore` changes the number of scores.
pub score_clusters-returns :
    (ps : List ScorePlugin) (su : SchedulingUnit) (cs : List Cluster)
    → All KeepsLength ps
    → (out : List ClusterScore) × (sum_scores 0 cs (run_score_plugins ps su cs []).0 ≡ some out)
score_clusters-returns ps su cs k =
    sum_scores-is_some 0 (length cs) cs (run_score_plugins ps su cs []).0 (omega arith)
      (run_score_plugins-Complete ps su cs [] k tt)
