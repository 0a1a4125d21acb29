-- ===== src/Util/PendingControllers/Update.antt =====
-- What an object waits for after a controller has had its turn.
use kubeadmiral.Base.{
  ◌≡◌, refl, sym, ap, ◌∙◌, String, Option, some, Bool, true, false, List, [], ◌∷◌, string_eq,
  if◌then◌else◌, inl, inr, arith, select, All, ◌⊎◌, ◌++◌, subst,
}
use kubeadmiral.Base.Assoc.{Map, has}
use kubeadmiral.Util.Annotation.{Object, Answer}
use kubeadmiral.Util.PendingControllers.Progress.{RoundTrips, set_pending_controllers-get}
use kubeadmiral.Util.PendingControllers.{
  PendingControllers, normalize_controllers, get_downstream_controllers, remove_controller,
  next_controllers, get_pending_controllers, set_pending_controllers, update_pending_controllers,
}

-- The group without the first occurrence of the controller, if it is there.
abbrev pub Leaves : String → (group left : List String) → Type 0
Leaves c group left =
    ((has c group ≡ false) × (left ≡ group))
    ⊎ ((before : List String) × (behind : List String) × (group ≡ before ++ c ∷ behind)
        × (has c before ≡ false)
        × (left ≡ before ++ behind))

-- The groups after the first one that holds the controller, none if no group does.
abbrev pub Below : String → (groups below : PendingControllers) → Type 0
Below c groups below =
    (All (λ g. has c g ≡ false) groups × (below ≡ []))
    ⊎ ((above : PendingControllers) × (group : List String) × (groups ≡ above ++ group ∷ below)
        × All (λ g. has c g ≡ false) above
        × (has c group ≡ true))

abbrev pub holds_some : List String → Bool
holds_some [] = false
holds_some (c ∷ cs) = true

remove_controller-absent :
    (c : String) (group : List String) → has c group ≡ false → remove_controller c group ≡ group
unfolding remove_controller
remove_controller-absent c [] h = refl
remove_controller-absent c (d ∷ group) h = ground (arith, h, remove_controller-absent c group)

remove_controller-between :
    (c : String) (before behind : List String)
    → has c before ≡ false
    → remove_controller c (before ++ c ∷ behind) ≡ before ++ behind
unfolding remove_controller
remove_controller-between c [] behind h = ground (arith, string_eq.reflects c c)
remove_controller-between c (d ∷ before) behind h =
    ground (arith, h, remove_controller-between c before behind)

remove_controller-Leaves :
    (c : String) (group left : List String) → Leaves c group left → remove_controller c group ≡ left
remove_controller-Leaves c group left (inl (absent, same)) =
    remove_controller-absent c group absent ∙ sym same
remove_controller-Leaves c group left (inr (before, behind, split, fresh, same)) =
    ap (remove_controller c) split ∙ remove_controller-between c before behind fresh ∙ sym same

get_downstream_controllers-Below :
    (c : String) (groups below : PendingControllers)
    → Below c groups below
    → get_downstream_controllers groups c ≡ below
unfolding get_downstream_controllers
get_downstream_controllers-Below c groups below (inl (absent, same)) =
    nowhere groups absent ∙ sym same
  where
    nowhere :
        (groups : PendingControllers)
        → All (λ g. has c g ≡ false) groups
        → get_downstream_controllers groups c ≡ []
    nowhere [] h = refl
    nowhere (g ∷ groups) h = ground (arith, h.0, nowhere groups h.1)
get_downstream_controllers-Below c groups below (inr (above, group, split, fresh, held)) =
    ap (λ gs. get_downstream_controllers gs c) split ∙ passed above fresh
  where
    passed :
        (above : PendingControllers)
        → All (λ g. has c g ≡ false) above
        → get_downstream_controllers (above ++ group ∷ below) c ≡ below
    passed [] h = ground (arith, held)
    passed (g ∷ above) h = ground (arith, h.0, passed above h.1)

normalize-select :
    (groups : PendingControllers) → normalize_controllers groups ≡ select holds_some groups
unfolding normalize_controllers
normalize-select [] = refl
normalize-select ([] ∷ groups) = normalize-select groups
normalize-select ((c ∷ cs) ∷ groups) = ap (λ t. (c ∷ cs) ∷ t) (normalize-select groups)

module _ (marshal : PendingControllers → String)
    (unmarshal : String → Option PendingControllers) where
  -- An update leaves pending the first group without the first occurrence of the controller, if
  -- it is there, and then the rest of the pending groups, or, where it is asked for, the groups
  -- that follow the first one of all controllers that holds the controller, none if no group
  -- does. Empty groups are left out. The encoding has to round-trip on what is left.
  pub update_pending_controllers-get :
      (annotations : Map String String) (group left : List String)
      (groups below : PendingControllers) (controller : String) (downstream : Bool)
      (all_controllers : PendingControllers)
      → get_pending_controllers marshal unmarshal (some annotations) ≡ some (group ∷ groups)
      → Leaves controller group left
      → Below controller all_controllers below
      → RoundTrips marshal unmarshal
          (select holds_some (left ∷ (if downstream then below else groups)))
      → (object : Object) × (result : Answer) × (update_pending_controllers marshal unmarshal
            (some annotations)
            controller
            downstream
            all_controllers
          ≡ some (object, result))
        × (get_pending_controllers marshal unmarshal object
            ≡ some (select holds_some (left ∷ (if downstream then below else groups))))
  unfolding update_pending_controllers next_controllers
  update_pending_controllers-get annotations group left groups below controller downstream
        all_controllers h leaves beneath round_trip =
      let next = next_controllers (group ∷ groups) controller downstream all_controllers in
      let same : normalize_controllers next
          ≡ select holds_some (left ∷ (if downstream then below else groups)) =
        normalize-select next
        ∙ ap
            (λ l. select holds_some (
              l
              ∷ (if downstream
                  then get_downstream_controllers all_controllers controller
                  else groups)))
            (remove_controller-Leaves controller group left leaves)
        ∙ ap (λ b. select holds_some (left ∷ (if downstream then b else groups)))
            (get_downstream_controllers-Below controller all_controllers below beneath) in
      let set = set_pending_controllers marshal unmarshal (some annotations) next in
      (
        set.0,
        set.1,
        rw (update_pending_controllers, h) refl,
        set_pending_controllers-get marshal unmarshal annotations next
              (subst (RoundTrips marshal unmarshal) (sym same) round_trip)
            ∙ ap some same,
      )
