-- ===== src/Scheduler/Runtime/Register.antt =====
-- What `addPlugins` registers.
use kubeadmiral.Base.{
  ◌≡◌, ◌≢◌, sym, String, Option, none, some, false, List, [], ◌∷◌, ◌++◌, inl, inr, Bool-cases,
  string_eq, Option-cases, append_assoc, append-nil, ◌∙◌,
}
use kubeadmiral.Base.Assoc.{Map, lookup, has}
use kubeadmiral.Scheduler.Runtime.{RegisterError, registered, refused, add_plugins}

module _ {P : Type 0} (plugins : Map String (Option P)) where
  -- No name stands twice, or among those seen.
  abbrev pub Fresh : List String → List String → Type 0
  Fresh [] seen = Unit
  Fresh (name ∷ names) seen = (has name seen ≡ false) × Fresh names (name ∷ seen)

  -- Each name stands for the plugin at its place.
  pub data Names : List String → List P → Type 0 where
    none_left : Names [] []
    named :
        {name : String} {names : List String} {plugin : P} {rest : List P}
        → lookup name plugins ≡ some (some plugin)
        → Names names rest
        → Names (name ∷ names) (plugin ∷ rest)

  refused_no : {r : RegisterError} {xs : List P} → refused r ≢ registered xs
  refused_no h = cc

  registered_eq : {xs ys : List P} → registered xs ≡ registered ys → xs ≡ ys
  registered_eq h = cc

  -- Where `addPlugins` succeeds, what it adds is the plugin of each enabled name, in their
  -- order, and no name stands twice or among those seen before.
  pub add_plugins-Names :
      (names seen : List String) (acc out : List P)
      → add_plugins plugins names seen acc ≡ registered out
      → (rest : List P) × (out ≡ acc ++ rest) × Names names rest × Fresh names seen
  unfolding add_plugins
  add_plugins-Names [] seen acc out h =
      ([], sym (registered_eq h) ∙ sym (append-nil acc), none_left, tt)
  add_plugins-Names (name ∷ names) seen acc out h = elim (Option-cases (lookup name plugins)) [
    | inl e ↦ absurd (refused_no (rw (add_plugins, e) at h))
    | inr (none, e) ↦ absurd (refused_no (rw (add_plugins, e) at h))
    | inr (some plugin, e) ↦ elim (Bool-cases (has name seen)) [
      | inl f ↦ absurd (refused_no (rw (add_plugins, e, f) at h))
      | inr f ↦
          let (rest, a, b, c) =
            add_plugins-Names names (name ∷ seen) (acc ++ plugin ∷ []) out
              (rw (add_plugins, e, f) at h) in
          (plugin ∷ rest, a ∙ append_assoc acc (plugin ∷ []) rest, named e b, (f, c))
    ]
  ]
