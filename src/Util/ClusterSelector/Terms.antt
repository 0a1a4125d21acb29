-- ===== src/Util/ClusterSelector/Terms.antt =====
-- Which clusters the terms of a selector match.
use kubeadmiral.Base.{
  ◌≡◌, ◌≢◌, ◌⊎◌, refl, String, none, some, Bool, true, false, List, [], ◌∷◌, inl, inr, Bool-cases,
  Option-cases,
}
use kubeadmiral.Base.Assoc.{Map}
use kubeadmiral.Util.ClusterSelector.{
  Selectors, ClusterSelectorTerm, is_empty_term, labels_match, fields_match,
  match_cluster_selector_terms,
}

module _ (s : Selectors) (labels : Map String String) (name : String) where
  -- The term has requirements, and the cluster meets them.
  abbrev pub Selects : ClusterSelectorTerm → Type 0
  Selects t =
      (is_empty_term s t ≡ false)
      × (labels_match s t.match_expressions labels ≡ some true)
      × (fields_match s t.match_fields name ≡ some true)

  -- The term has no requirements, or the cluster fails valid ones.
  abbrev pub Skips : ClusterSelectorTerm → Type 0
  Skips t =
      (is_empty_term s t ≡ true)
      ⊎ ((labels_match s t.match_expressions labels ≡ some false)
          ⊎ ((labels_match s t.match_expressions labels ≡ some true)
              × (fields_match s t.match_fields name ≡ some false)))

  -- A term selects the cluster, and those before it are skipped.
  pub data Selected : List ClusterSelectorTerm → Type 0 where
    here : {t : ClusterSelectorTerm} {ts : List ClusterSelectorTerm} → Selects t → Selected (t ∷ ts)
    there :
        {t : ClusterSelectorTerm} {ts : List ClusterSelectorTerm}
        → Skips t
        → Selected ts
        → Selected (t ∷ ts)

  -- Where the terms match, one of them selects the cluster and each before it is skipped.
  pub match_cluster_selector_terms-Selected :
      (terms : List ClusterSelectorTerm)
      → match_cluster_selector_terms s terms labels name ≡ some true
      → Selected terms
  unfolding match_cluster_selector_terms
  match_cluster_selector_terms-Selected [] h = absurd (false≢true h)
    where
      false≢true : some false ≢ some true
      false≢true h = cc
  match_cluster_selector_terms-Selected (t ∷ ts) h = elim (Bool-cases (is_empty_term s t)) [
    | inl e ↦
        there (inl e)
          (match_cluster_selector_terms-Selected ts (rw (match_cluster_selector_terms, e) at h))
    | inr e ↦ elim (Option-cases (labels_match s t.match_expressions labels)) [
      | inl f ↦ absurd (none≢some (rw (match_cluster_selector_terms, e, f) at h))
      | inr (false, f) ↦
          there (inr (inl f)) (
            match_cluster_selector_terms-Selected ts (rw (match_cluster_selector_terms, e, f) at h))
      | inr (true, f) ↦ elim (Option-cases (fields_match s t.match_fields name)) [
        | inl g ↦ absurd (none≢some (rw (match_cluster_selector_terms, e, f, g) at h))
        | inr (false, g) ↦ there (inr (inr (f, g))) (
            match_cluster_selector_terms-Selected ts
              (rw (match_cluster_selector_terms, e, f, g) at h))
        | inr (true, g) ↦ here (e, f, g)
      ]
    ]
  ]
    where
      none≢some : {b : Bool} → none ≢ some b
      none≢some h = cc

  pub Selected-match :
      (terms : List ClusterSelectorTerm)
      → Selected terms
      → match_cluster_selector_terms s terms labels name ≡ some true
  unfolding match_cluster_selector_terms
  Selected-match [] x = elim x [ ]
  Selected-match (t ∷ ts) (here (e, f, g)) = rw (match_cluster_selector_terms, e, f, g) refl
  Selected-match (t ∷ ts) (there (inl e) more) =
      rw (match_cluster_selector_terms, e) (Selected-match ts more)
  Selected-match (t ∷ ts) (there (inr (inl f)) more) = elim (Bool-cases (is_empty_term s t)) [
    | inl e ↦ rw (match_cluster_selector_terms, e) (Selected-match ts more)
    | inr e ↦ rw (match_cluster_selector_terms, e, f) (Selected-match ts more)
  ]
  Selected-match (t ∷ ts) (there (inr (inr (f, g))) more) = elim (Bool-cases (is_empty_term s t)) [
    | inl e ↦ rw (match_cluster_selector_terms, e) (Selected-match ts more)
    | inr e ↦ rw (match_cluster_selector_terms, e, f, g) (Selected-match ts more)
  ]
