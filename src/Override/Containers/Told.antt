-- ===== src/Override/Containers/Told.antt =====
-- What the overriders of containers say of each path, and the patches that come of it.
use kubeadmiral.Base.{
  ◌≡◌, refl, sym, ap, subst, ◌∙◌, String, Option, none, some, List, [], ◌∷◌, ◌==◌, string_eq, inl,
  inr, Bool-cases, if◌then◌else◌,
}
use kubeadmiral.Base.Assoc.{Map, lookup, UniqueKeys, insert-UniqueKeys, lookup-insert}
use kubeadmiral.Base.Chain.{>>=-eq-some, some_eq}
use kubeadmiral.Base.Sorting.{sort-perm}
use mathlib.Core.List.{Perm}
use kubeadmiral.Override.{OverridePatch}
use kubeadmiral.Override.Containers.{
  Container, PodSpec, GroupKind, MatchedContainer, look_for_matched_container,
  generate_target_path_for_pod_spec, current_value, override_matched, override_containers,
  patches_of, path_less, convert_patch_map_to_patches, parse_container_overriders,
}

module _ {V O : Type 0} (gk : GroupKind) (target : String) (name_of : O → String)
    (current_of : Container → V) (apply : V → O → Option V) (marshal : V → Option String) where
  -- What an overrider makes of what is known for the path `p`, if its container's field is there.
  abbrev pub told_if : String → Option String → Container → O → Option V → Option V
  told_if p none container o old = old
  told_if p (some path) container o old =
      if path == p
      then apply (current_value gk target name_of current_of apply marshal old container) o
      else old

  abbrev pub told_matched : String → Option MatchedContainer → O → Option V → Option V
  told_matched p none o old = old
  told_matched p (some c) o old =
      told_if p (generate_target_path_for_pod_spec gk c.container_kind target c.container_index)
        c.container o old

  -- The overriders, one after the other.
  abbrev pub told_path : PodSpec → String → List O → Option V → Option V
  told_path pod_spec p [] old = old
  told_path pod_spec p (o ∷ overriders) old =
      told_path pod_spec p overriders
        (told_matched p (look_for_matched_container pod_spec (name_of o)) o old)

  override_matched-told :
      (p : String) (c : Option MatchedContainer) (o : O) (m m' : Map String V)
      → UniqueKeys m
      → override_matched gk target name_of current_of apply marshal c o m ≡ some m'
      → (lookup p m' ≡ told_matched p c o (lookup p m)) × UniqueKeys m'
  override_matched-told p none o m m' u h =
      (ap (lookup p) (sym (some_eq h)), subst UniqueKeys (some_eq h) u)
  override_matched-told p (some c) o m m' u h =
      let (path, e, rest) =
        >>=-eq-some (generate_target_path_for_pod_spec gk c.container_kind target c.container_index)
          _ h in
      let (value, f, r) = >>=-eq-some (apply _ o) _ rest in
      (
        ap (lookup p) (sym (some_eq r))
            ∙ lookup-insert path p value m
            ∙ written path value f
            ∙ ap (λ q. told_if p q c.container o (lookup p m)) (sym e),
        subst UniqueKeys (some_eq r) (insert-UniqueKeys path value m u),
      )
    where
      written :
          (path : String) (value : V)
          → apply
              (current_value gk target name_of current_of apply marshal (lookup path m) c.container)
              o
            ≡ some value
          → (if path == p then some value else lookup p m)
            ≡ told_if p (some path) c.container o (lookup p m)
      written path value f = elim (Bool-cases (path == p)) [
        | inl same ↦ rw same (
            sym f
            ∙ ap
                (λ k.
                  apply
                    (current_value gk target name_of current_of apply marshal (lookup k m)
                      c.container)
                    o)
                ((string_eq.reflects path p).0 same))
        | inr other ↦ rw other refl
      ]

  override_containers-told :
      (pod_spec : PodSpec) (p : String) (os : List O) (m m' : Map String V)
      → UniqueKeys m
      → override_containers gk target name_of current_of apply marshal pod_spec os m ≡ some m'
      → (lookup p m' ≡ told_path pod_spec p os (lookup p m)) × UniqueKeys m'
  unfolding override_containers
  override_containers-told pod_spec p [] m m' u h =
      (ap (lookup p) (sym (some_eq h)), subst UniqueKeys (some_eq h) u)
  override_containers-told pod_spec p (o ∷ os) m m' u h =
      let found = look_for_matched_container pod_spec (name_of o) in
      let (next, e, f) =
        >>=-eq-some (override_matched gk target name_of current_of apply marshal found o m) _ h in
      let (one, unique) = override_matched-told p found o m next u e in
      let (more, last) = override_containers-told pod_spec p os next m' unique f in
      (more ∙ ap (told_path pod_spec p os) one, last)

  -- Where the loop succeeds for some overriders, its result has, in some order, the patches of
  -- a map from paths in which each path stands once. In that map each path has what the
  -- overriders make of its container's field, one after the other, and a path that no overrider
  -- is for has nothing.
  pub parse_container_overriders-told :
      (pod_spec : PodSpec) (o : O) (os : List O) (patches : List OverridePatch)
      → parse_container_overriders gk target name_of current_of apply marshal
          (some pod_spec)
          (o ∷ os)
        ≡ some patches
      → (m : Map String V) × (written : List OverridePatch) × ((p : String)
          → lookup p m ≡ told_path pod_spec p (o ∷ os) none)
        × UniqueKeys m
        × (patches_of gk target name_of current_of apply marshal m ≡ some written)
        × Perm patches written
  unfolding parse_container_overriders convert_patch_map_to_patches
  parse_container_overriders-told pod_spec o os patches h =
      let (m, e, f) =
        >>=-eq-some
          (override_containers gk target name_of current_of apply marshal pod_spec (o ∷ os) []) _
          h in
      let (written, g, r) =
        >>=-eq-some (patches_of gk target name_of current_of apply marshal m) _ f in
      (
        m,
        written,
        λ p. (override_containers-told pod_spec p (o ∷ os) [] m tt e).0,
        (override_containers-told pod_spec "" (o ∷ os) [] m tt e).1,
        g,
        subst (λ ps. Perm ps written) (some_eq r)
            (sort-perm (path_less gk target name_of current_of apply marshal) written),
      )
