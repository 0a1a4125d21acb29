-- ===== src/Follower/Tests.antt =====
-- A workload that follows nothing is made to follow two leaders.
use kubeadmiral.Base.{◌≡◌, String, List, [], ◌∷◌, ◌==◌, string_eq, if◌then◌else◌}
use kubeadmiral.Base.Assoc.{has}
use kubeadmiral.Follower.Cache.{BidirectionalCache, new_bidirectional_cache, update_cache}
use kubeadmiral.Follower.Cache.Mirror.{holds, holds_back, fresh, updated, update_cache-holds}

abbrev leaders : List String
leaders = "deployment" ∷ "job" ∷ []

abbrev empty_cache : BidirectionalCache String String
empty_cache = new_bidirectional_cache

abbrev followed : BidirectionalCache String String
followed = update_cache "config" leaders empty_cache

update_cache-holds_example :
    (holds "secret" "job" (update_cache "config" ("job" ∷ []) followed) ≡ (
      if ◌==◌ {A = String} "config" "secret"
      then has {K = String} "job" ("job" ∷ [])
      else holds "secret" "job" followed))
    × (holds_back "secret" "job" (update_cache "config" ("job" ∷ []) followed) ≡ (
        if ◌==◌ {A = String} "config" "secret"
        then has {K = String} "job" ("job" ∷ [])
        else holds_back "secret" "job" followed))
update_cache-holds_example =
    update_cache-holds "config" "secret" "job" ("job" ∷ []) followed
      (updated "config" leaders fresh)
