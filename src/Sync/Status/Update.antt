-- ===== src/Sync/Status/Update.antt =====
-- What the status holds after `update`, and when `update` asks for a write.
use kubeadmiral.Base.{
  ◌≡◌, ◌≢◌, refl, sym, subst, ◌∙◌, ℕ, String, Bool, true, false, List, ◌||◌, ◌&&◌, not, eqb, ltb,
  length, string_eq, arith,
}
use kubeadmiral.Sync.Status.{
  PropagationStatus, Condition, ObjectStatus, Collected, set_clusters, set_condition, new_status_of,
  final_reason, update,
}
use kubeadmiral.Sync.Status.Outcome.{
  set_clusters-Mirrors, set_clusters-same, set_clusters-differs, clusters_differ-Mirrors,
  set_condition-same, set_condition-settled,
}

true≢false : true ≢ false
true≢false h = cc

or-left : (a b : Bool) → (a || b) ≡ false → a ≡ false
or-left false b h = refl
or-left true b h = absurd (true≢false h)

or-right : (a b : Bool) → (a || b) ≡ false → b ≡ false
or-right false b h = h
or-right true b h = absurd (true≢false h)

or-false : (a b : Bool) → a ≡ false → b ≡ false → (a || b) ≡ false
or-false a b h k = rw (h, k) refl

and-false : (a b : Bool) → b ≡ false → (a && b) ≡ false
and-false false b h = refl
and-false true b h = h

same : (n : ℕ) → not (eqb n n) ≡ false
same n = ground arith

status_eq :
    {generation : ℕ} {conditions : List Condition} {clusters : List PropagationStatus}
    {s : ObjectStatus}
    → s.synced_generation ≡ generation
    → conditions ≡ s.conditions
    → clusters ≡ s.clusters
    → record { synced_generation = generation; conditions = conditions; clusters = clusters } ≡ s
status_eq {s = s} h k l = rw (sym h, k, l) refl

pair_eq : {A B : Type 0} (x : A × B) {a : A} {b : B} → x.0 ≡ a → x.1 ≡ b → x ≡ (a, b)
pair_eq x h k = rw (sym h, sym k) refl

module _ (now : ℕ) (s : ObjectStatus) (generation : ℕ) (reason : String)
    (collected : Collected) where
  -- Where `update` answers that nothing changed the status is the one that it was given.
  pub update-same :
      (update now s generation reason collected).1 ≡ false
      → (update now s generation reason collected).0 ≡ s
  unfolding update
  update-same h =
      let written = set_clusters s.clusters collected.status_map collected.generation_map in
      let r = final_reason reason collected.status_map in
      let ch = written.1 || (ltb 0 (length collected.status_map) && collected.resources_updated) in
      let condition = set_condition now (new_status_of r) r ch s.conditions in
      let kept =
        set_condition-same (new_status_of r) r now ch s.conditions
          (or-right (not (eqb s.synced_generation generation)) condition.1 h) in
      status_eq (ground (arith, or-left (not (eqb s.synced_generation generation)) condition.1 h))
        kept.1
        (set_clusters-same collected.status_map collected.generation_map s.clusters
          (or-left _ _ kept.0))

-- A second `update` with what the first was given changes nothing and asks for no write, at any
-- later time, if no resource was updated and the two collected maps are of one length.
pub update-settled :
    (now now' : ℕ) (s : ObjectStatus) (generation : ℕ) (reason : String) (collected : Collected)
    → collected.resources_updated ≡ false
    → length collected.status_map ≡ length collected.generation_map
    → update now' (update now s generation reason collected).0 generation reason collected
      ≡ ((update now s generation reason collected).0, false)
unfolding update
update-settled now now' s generation reason collected h k =
    let r = final_reason reason collected.status_map in
    let s' = (update now s generation reason collected).0 in
    let written = set_clusters s.clusters collected.status_map collected.generation_map in
    let quiet =
      or-false _ _
        (set_clusters-differs collected.status_map collected.generation_map written.0
          ∙ clusters_differ-Mirrors collected.status_map collected.generation_map written.0
              (set_clusters-Mirrors collected.status_map collected.generation_map s.clusters) k)
        (and-false _ _ h) in
    let no_write = or-false _ _ (same generation) (
      subst (λ b. (set_condition now' (new_status_of r) r b s'.conditions).1 ≡ false) (sym quiet)
        (set_condition-settled (new_status_of r) r now now' _ s.conditions)) in
    pair_eq _ (update-same now' s' generation reason collected no_write) no_write
