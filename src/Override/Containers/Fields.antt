-- ===== src/Override/Containers/Fields.antt =====
-- Where the fields of a pod's containers stand, and what the overriders make of each.
use kubeadmiral.Base.{
  ◌≡◌, ◌≢◌, refl, sym, ap, subst, ◌∙◌, ℕ, suc, String, Option, none, some, false, List, [], ◌∷◌,
  ◌++◌, ◌&&◌, ◌==◌, string_eq, inl, inr, Bool-cases, Option-cases, if◌then◌else◌, arith, All, map,
}
use Prim.Native.String.{◌++◌ as text_append}
use kubeadmiral.Base.Assoc.{Map, lookup, UniqueKeys}
use kubeadmiral.Base.Chain.{◌>>=◌, >>=-eq-some, some_eq}
use mathlib.Core.List.{Perm}
use kubeadmiral.Override.{OverridePatch}
use kubeadmiral.Override.Containers.{
  Container, PodSpec, GroupKind, MatchedContainer, find_container, or_else,
  look_for_matched_container, pod_spec_path, decimal, generate_target_path_for_pod_spec, patches_of,
  parse_container_overriders,
}
use kubeadmiral.Override.Containers.Told.{
  told_if, told_matched, told_path, parse_container_overriders-told,
}

-- The roots of the pod specs: of each kind its group, its name and the path.
abbrev pub roots : List ((String × String) × String)
roots =
    (("apps", "Deployment"), "/spec/template/spec")
    ∷ (("apps", "StatefulSet"), "/spec/template/spec")
    ∷ (("apps", "DaemonSet"), "/spec/template/spec")
    ∷ (("batch", "Job"), "/spec/template/spec")
    ∷ (("batch", "CronJob"), "/spec/jobTemplate/spec/template/spec")
    ∷ (("", "Pod"), "/spec")
    ∷ []

abbrev pub root_among : GroupKind → List ((String × String) × String) → Option String
root_among gk [] = none
root_among gk (((group, kind), path) ∷ rest) =
    if gk.group == group && gk.kind == kind then some path else root_among gk rest

-- The parts of a path, with slashes between them.
abbrev pub joined : List String → String
joined [] = ""
joined (part ∷ []) = part
joined (part ∷ next ∷ parts) = text_append part (text_append "/" (joined (next ∷ parts)))

abbrev pub path_under : Option String → List String → Option String
path_under none parts = none
path_under (some root) parts = some (joined (root ∷ parts))

pod_spec_path-root : (gk : GroupKind) → pod_spec_path gk ≡ root_among gk roots
pod_spec_path-root gk = ground arith

module _ (gk : GroupKind) (target : String) where
  -- The containers of one list from the number `n` on: the name of each, the path of its field, and
  -- the container.
  abbrev pub numbered : String → ℕ → List Container → Map String (Option String × Container)
  numbered kind n [] = []
  numbered kind n (c ∷ cs) =
      (c.name, (path_under (root_among gk roots) (kind ∷ decimal n ∷ target ∷ []), c))
      ∷ numbered kind (suc n) cs

  -- Init containers come first, and with one name the first container counts.
  abbrev pub fields : PodSpec → Map String (Option String × Container)
  fields pod_spec =
      numbered "initContainers" 0 pod_spec.init_containers
      ++ numbered "containers" 0 pod_spec.containers

  abbrev pub field_of : Option MatchedContainer → Option (Option String × Container)
  field_of none = none
  field_of (some c) =
      some (
        generate_target_path_for_pod_spec gk c.container_kind target c.container_index,
        c.container,
      )

  flip_false : (x y : String) → x == y ≡ false → y == x ≡ false
  flip_false x y h = ground (arith, h, string_eq.reflects x y, string_eq.reflects y x)

  generate-path :
      (kind : String) (n : ℕ)
      → generate_target_path_for_pod_spec gk kind target n
        ≡ path_under (root_among gk roots) (kind ∷ decimal n ∷ target ∷ [])
  unfolding generate_target_path_for_pod_spec
  generate-path kind n = elim (Option-cases (root_among gk roots)) [
    | inl e ↦ rw (generate_target_path_for_pod_spec, pod_spec_path-root gk, e) refl
    | inr (root, e) ↦ rw (generate_target_path_for_pod_spec, pod_spec_path-root gk, e) refl
  ]

  find_container-numbered :
      (kind name : String) (n : ℕ) (cs : List Container)
      → field_of (find_container kind name n cs) ≡ lookup name (numbered kind n cs)
  find_container-numbered kind name n [] = refl
  find_container-numbered kind name n (c ∷ cs) = elim (Bool-cases (c.name == name)) [
    | inl same ↦
        rw
          ((string_eq.reflects name c.name).1 (sym ((string_eq.reflects c.name name).0 same)), same)
          (ap (λ path. some (path, c)) (generate-path kind n))
    | inr other ↦
        rw (flip_false c.name name other, other) (find_container-numbered kind name (suc n) cs)
  ]

  lookup-append :
      (name : String) (a b : Option MatchedContainer)
      (xs ys : Map String (Option String × Container))
      → field_of a ≡ lookup name xs
      → field_of b ≡ lookup name ys
      → field_of (or_else a b) ≡ lookup name (xs ++ ys)
  lookup-append name none b [] ys h k = k
  lookup-append name (some a) b [] ys h k = absurd (some≢none h)
    where
      some≢none : {x : Option String × Container} → some x ≢ none
      some≢none h = cc
  lookup-append name none b ((j, x) ∷ xs) ys h k = elim (Bool-cases (j == name)) [
    | inl same ↦ absurd (none≢some (rw same at h))
    | inr other ↦ rw other (lookup-append name none b xs ys (rw other at h) k)
  ]
    where
      none≢some : {x : Option String × Container} → none ≢ some x
      none≢some h = cc
  lookup-append name (some a) b ((j, x) ∷ xs) ys h k = elim (Bool-cases (j == name)) [
    | inl same ↦ rw same (rw same at h)
    | inr other ↦ rw other (lookup-append name (some a) b xs ys (rw other at h) k)
  ]

  look_for-fields :
      (pod_spec : PodSpec) (name : String)
      → field_of (look_for_matched_container pod_spec name) ≡ lookup name (fields pod_spec)
  unfolding look_for_matched_container
  look_for-fields pod_spec name =
      lookup-append name _ _ (numbered "initContainers" 0 pod_spec.init_containers)
        (numbered "containers" 0 pod_spec.containers)
        (find_container-numbered "initContainers" name 0 pod_spec.init_containers)
        (find_container-numbered "containers" name 0 pod_spec.containers)

module _ {V O : Type 0} (gk : GroupKind) (target : String) (name_of : O → String)
    (current_of : Container → V) (apply : V → O → Option V) (marshal : V → Option String) where
  -- What an overrider makes of the field with the path `p`: `old` is what it was made so far.
  abbrev pub overridden : String → Option (Option String × Container) → O → Option V → Option V
  overridden p none o old = old
  overridden p (some (none, c)) o old = old
  overridden p (some (some path, c)) o none = if path == p then apply (current_of c) o else none
  overridden p (some (some path, c)) o (some value) =
      if path == p then apply value o else some value

  -- The overriders that name the field's container, one after the other.
  abbrev pub overridden_by : PodSpec → String → List O → Option V → Option V
  overridden_by pod_spec p [] old = old
  overridden_by pod_spec p (o ∷ overriders) old =
      overridden_by pod_spec p overriders
        (overridden p (lookup (name_of o) (fields gk target pod_spec)) o old)

  abbrev pub path_value : OverridePatch → String × String
  path_value patch = (patch.path, patch.value)

  told_matched-overridden :
      (p : String) (c : Option MatchedContainer) (o : O) (old : Option V)
      → told_matched gk target name_of current_of apply marshal p c o old
        ≡ overridden p (field_of gk target c) o old
  told_matched-overridden p none o old = refl
  told_matched-overridden p (some c) o old =
      told_if-overridden
        (generate_target_path_for_pod_spec gk c.container_kind target c.container_index) old
    where
      told_if-overridden :
          (path : Option String) (old : Option V)
          → told_if gk target name_of current_of apply marshal p path c.container o old
            ≡ overridden p (some (path, c.container)) o old
      told_if-overridden none old = refl
      told_if-overridden (some path) none = refl
      told_if-overridden (some path) (some value) = refl

  told_path-overridden :
      (pod_spec : PodSpec) (p : String) (os : List O) (old : Option V)
      → told_path gk target name_of current_of apply marshal pod_spec p os old
        ≡ overridden_by pod_spec p os old
  told_path-overridden pod_spec p [] old = refl
  told_path-overridden pod_spec p (o ∷ os) old =
      told_path-overridden pod_spec p os _
      ∙ ap (overridden_by pod_spec p os) (
          told_matched-overridden p (look_for_matched_container pod_spec (name_of o)) o old
          ∙ ap (λ f. overridden p f o old) (look_for-fields gk target pod_spec (name_of o)))

  patches_of-lookup :
      (m : Map String V) (written : List OverridePatch) (p : String)
      → patches_of gk target name_of current_of apply marshal m ≡ some written
      → (lookup p (map path_value written) ≡ (lookup p m >>= marshal))
        × All (λ (patch : OverridePatch). patch.op ≡ "replace") written
  unfolding patches_of
  patches_of-lookup [] written p h =
      subst
        (λ ps.
          (lookup p (map path_value ps) ≡ none)
          × All (λ (patch : OverridePatch). patch.op ≡ "replace") ps)
        (some_eq h) (refl, tt)
  patches_of-lookup ((path, value) ∷ m) written p h =
      let (raw, e, f) = >>=-eq-some (marshal value) _ h in
      let (rest, g, r) =
        >>=-eq-some (patches_of gk target name_of current_of apply marshal m) _ f in
      let (found, replaced) = patches_of-lookup m rest p g in
      subst
        (λ ps.
          (lookup p (map path_value ps) ≡ (lookup p ((path, value) ∷ m) >>= marshal))
          × All (λ (patch : OverridePatch). patch.op ≡ "replace") ps)
        (some_eq r)
        (
          elim (Bool-cases (path == p)) [ inl same ↦ rw same (sym e) | inr other ↦ rw other found ],
          (refl, replaced),
        )

  patches_of-UniqueKeys :
      (m : Map String V) (written : List OverridePatch)
      → patches_of gk target name_of current_of apply marshal m ≡ some written
      → UniqueKeys m
      → UniqueKeys (map path_value written)
  unfolding patches_of
  patches_of-UniqueKeys [] written h u = subst (λ ps. UniqueKeys (map path_value ps)) (some_eq h) tt
  patches_of-UniqueKeys ((path, value) ∷ m) written h u =
      let (raw, e, f) = >>=-eq-some (marshal value) _ h in
      let (rest, g, r) =
        >>=-eq-some (patches_of gk target name_of current_of apply marshal m) _ f in
      subst (λ ps. UniqueKeys (map path_value ps)) (some_eq r)
        (
          (patches_of-lookup m rest path g).0 ∙ ap (λ o. o >>= marshal) u.0,
          patches_of-UniqueKeys m rest g u.1,
        )

  -- Where the pod spec is read and the overriders, of which there is one at least, are parsed
  -- without an error, the result has in some order patches with the operation replace and
  -- distinct paths. The patch of a path has the encoding of what the overriders that name the
  -- container there make of its field, one after the other; a path that is no field of a named
  -- container has no patch. The field's path is the root of the kind's pod spec, the list's
  -- name, the container's number in it and the target. Of the containers with one name the
  -- first counts, init containers before others.
  pub parse_container_overriders-overridden :
      (pod_spec : PodSpec) (o : O) (os : List O) (patches : List OverridePatch)
      → parse_container_overriders gk target name_of current_of apply marshal
          (some pod_spec)
          (o ∷ os)
        ≡ some patches
      → (written : List OverridePatch) × Perm patches written
        × UniqueKeys (map path_value written)
        × All (λ (patch : OverridePatch). patch.op ≡ "replace") written
        × ((p : String)
            → lookup p (map path_value written)
              ≡ (overridden_by pod_spec p (o ∷ os) none >>= marshal))
  parse_container_overriders-overridden pod_spec o os patches h =
      let (m, written, told, unique, e, perm) =
        parse_container_overriders-told gk target name_of current_of apply marshal pod_spec o os
          patches h in
      (
        written,
        perm,
        patches_of-UniqueKeys m written e unique,
        (patches_of-lookup m written "" e).1,
        λ p.
            (patches_of-lookup m written p e).0
            ∙ ap (λ v. v >>= marshal) (told p ∙ told_path-overridden pod_spec p (o ∷ os) none),
      )
