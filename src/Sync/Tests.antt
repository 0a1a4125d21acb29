-- ===== src/Sync/Tests.antt =====
-- A status that is written for two clusters.
use kubeadmiral.Base.{true, false, [], ◌∷◌, ◌≡◌, refl, string_eq}
use kubeadmiral.Sync.Status.{
  ObjectStatus, Collected, update, set_clusters, clusters_differ, set_condition, touch,
  final_reason,
}
use kubeadmiral.Sync.Status.Update.{update-settled}
use kubeadmiral.Sync.Status.Cover.{WellFormed, reported, with_generation, update-covers}
use kubeadmiral.Base.{◌≢◌, sym}
use kubeadmiral.Base.Assoc.{lookup, or_zero}
use kubeadmiral.Base.{String, some, All, ◌↔◌}
use kubeadmiral.Sync.Status.{Condition, aggregate_success, cluster_propagation_ok}
use kubeadmiral.Sync.Status.Verdict.{find_propagated, update-verdict}

abbrev collected : Collected
collected = record {
  status_map = ("b", "OK") ∷ ("a", "UpdateFailed") ∷ [];
  generation_map = ("a", 3) ∷ ("b", 4) ∷ [];
  resources_updated = false;
}

abbrev blank : ObjectStatus
blank = record { synced_generation = 1; conditions = []; clusters = [] }

-- What `update` makes of the blank status at time 7.
abbrev written : ObjectStatus
written = record {
  synced_generation = 2;
  conditions =
      record {
        kind = "Propagated";
        status = "False";
        last_update_time = 7;
        last_transition_time = 7;
        reason = "CheckClusters";
      }
      ∷ [];
  clusters =
      record { cluster = "a"; status = "UpdateFailed"; last_observed_generation = 3 }
      ∷ record { cluster = "b"; status = "OK"; last_observed_generation = 4 }
      ∷ [];
}

written_first : update 7 blank 2 "" collected ≡ (written, true)
unfolding update set_clusters clusters_differ set_condition final_reason
written_first = refl

written_again : update 9 written 2 "" collected ≡ (written, false)
unfolding update set_clusters clusters_differ set_condition final_reason touch
written_again = refl

nothing_asked : (update 9 written 2 "" collected).1 ≡ false
unfolding update set_clusters clusters_differ set_condition final_reason touch
nothing_asked = refl

update-covers_example :
    WellFormed (update 7 blank 2 "" collected).0.clusters
    × ((name : String)
        → reported name (update 7 blank 2 "" collected).0.clusters
          ≡ with_generation
              (or_zero (lookup name collected.generation_map))
              (lookup name collected.status_map))
update-covers_example =
    update-covers 7 blank 2 "" collected (refl, (refl, tt)) (ok, (failed, tt)) (tt, tt)
  where
    true≢false : true ≢ false
    true≢false h = cc

    ok : ◌≢◌ {A = String} "OK" ""
    ok h = true≢false (sym ((string_eq.reflects "OK" "").1 h))

    failed : ◌≢◌ {A = String} "UpdateFailed" ""
    failed h = true≢false (sym ((string_eq.reflects "UpdateFailed" "").1 h))

update-settled_example :
    update 9 (update 7 blank 2 "" collected).0 2 "" collected
    ≡ ((update 7 blank 2 "" collected).0, false)
update-settled_example = update-settled 7 9 blank 2 "" collected refl refl

update-verdict_example :
    (c : Condition) × (find_propagated (update 7 blank 2 "" collected).0.conditions ≡ some c)
    × ((c.status ≡ "True")
        ↔ ("" ≡ aggregate_success)
          × All (λ (x : String × String). x.1 ≡ cluster_propagation_ok) collected.status_map)
update-verdict_example = update-verdict 7 blank 2 "" collected
