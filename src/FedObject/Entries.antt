-- ===== src/FedObject/Entries.antt =====
-- What the placements and overrides hold after they are written.
use kubeadmiral.Base.{
  ◌≡◌, ◌≢◌, ◌↔◌, refl, sym, ap, ◌∙◌, String, true, false, List, [], ◌∷◌, ◌++◌, if◌then◌else◌, ◌==◌,
  Comparable, string_eq, string_less, arith, inl, inr, Bool-cases, ◌||◌, any, All, length,
}
use kubeadmiral.Base.Equality.{list_eq}
use kubeadmiral.Base.Assoc.{has}
use kubeadmiral.Base.Sorting.{sort}
use kubeadmiral.FedObject.{
  Entry, values_of, delete_entry, set_entry, Placement, insert_names, union_from,
  get_placement_union, get_controller_placement, set_controller_placement,
}

true≢false : true ≢ false
true≢false h = cc

nil≢cons : {V : Type 0} {x : V} {xs : List V} → [] ≢ x ∷ xs
nil≢cons h = cc

cons_eq : {V : Type 0} {x y : V} {xs ys : List V} → x ∷ xs ≡ y ∷ ys → (x ≡ y) × (xs ≡ ys)
cons_eq h = (cc, cc)

-- No entry of the list is the controller's.
abbrev pub Absent : {V : Type 0} → String → List (Entry V) → Type 0
Absent controller ps = All (λ p. p.controller == controller ≡ false) ps

-- Every controller has one entry at most.
abbrev pub UniqueControllers : {V : Type 0} → List (Entry V) → Type 0
UniqueControllers [] = Unit
UniqueControllers (p ∷ ps) = Absent p.controller ps × UniqueControllers ps

module _ {V : Type 0} where
  values_of-Absent :
      (ps : List (Entry V)) (controller : String)
      → Absent controller ps
      → values_of ps controller ≡ []
  unfolding values_of
  values_of-Absent [] controller h = refl
  values_of-Absent (p ∷ ps) controller h = rw h.0 (values_of-Absent ps controller h.1)

  delete_entry-values :
      (ps : List (Entry V)) (controller other : String)
      → UniqueControllers ps
      → values_of (delete_entry ps controller).0 other
        ≡ (if controller == other then [] else values_of ps other)
  unfolding values_of delete_entry
  delete_entry-values [] controller other u = ground arith
  delete_entry-values (p ∷ ps) controller other u = ground (
    arith,
    string_eq.reflects p.controller controller,
    string_eq.reflects p.controller other,
    string_eq.reflects controller other,
    delete_entry-values ps controller other u.1,
    values_of-Absent ps p.controller u.0,
  )

  delete_entry-same :
      (ps : List (Entry V)) (controller : String)
      → ((delete_entry ps controller).1 ≡ false) ↔ ((delete_entry ps controller).0 ≡ ps)
  unfolding delete_entry
  delete_entry-same [] controller = (λ h. refl, λ h. refl)
  delete_entry-same (p ∷ ps) controller = elim (Bool-cases (p.controller == controller)) [
    | inl e ↦ rw e (λ h. absurd (true≢false h), λ h. absurd (shorter p ps h))
    | inr e ↦ rw e (
      λ h. ap (λ t. p ∷ t) ((delete_entry-same ps controller).0 h),
      λ h. (delete_entry-same ps controller).1 (cons_eq h).1,
    )
  ]
    where
      shorter : (p : Entry V) (ps : List (Entry V)) → ps ≢ p ∷ ps
      shorter p ps h = omega (arith, ap length h)

  module _ ⦃e : Comparable V⦄ where
    set_entry-values :
        (ps : List (Entry V)) (controller other : String) (values : List V)
        → values_of (set_entry ps controller values).0 other
          ≡ (if controller == other then values else values_of ps other)
    unfolding values_of set_entry
    set_entry-values [] controller other values = ground arith
    set_entry-values (p ∷ ps) controller other values = ground (
      arith,
      string_eq.reflects p.controller controller,
      string_eq.reflects p.controller other,
      string_eq.reflects controller other,
      (list_eq {A = V}).reflects p.values values,
      set_entry-values ps controller other values,
    )

    set_entry-same :
        (ps : List (Entry V)) (controller : String) (values : List V)
        → ((set_entry ps controller values).1 ≡ false) ↔ ((set_entry ps controller values).0 ≡ ps)
    unfolding set_entry
    set_entry-same [] controller values =
        (λ h. absurd (true≢false h), λ h. absurd (nil≢cons (sym h)))
    set_entry-same (p ∷ ps) controller values = elim (Bool-cases (p.controller == controller)) [
      | inl f ↦ elim (Bool-cases (p.values == values)) [
        | inl g ↦ rw (set_entry, f, g) (λ h. refl, λ h. refl)
        | inr g ↦
            rw (set_entry, f, g)
              (
                λ h. absurd (true≢false h),
                λ h. absurd (
                    true≢false (
                      sym (
                        ((list_eq {A = V}).reflects p.values values).1
                          (ap (λ x. x.values) (sym (cons_eq h).0)))
                      ∙ g)),
              )
      ]
      | inr f ↦
          rw (set_entry, f)
            (
              λ h. ap (λ t. p ∷ t) ((set_entry-same ps controller values).0 h),
              λ h. (set_entry-same ps controller values).1 (cons_eq h).1,
            )
    ]

-- Where every controller has one entry at most, after the placement of a controller is set each
-- other controller reads what it read, and that controller reads the new names, sorted.
pub set_controller_placement-get :
    (placements : List Placement) (controller other : String) (names : List String)
    → UniqueControllers placements
    → get_controller_placement (set_controller_placement placements controller names).0 other ≡ (
        if controller == other
        then sort string_less names
        else get_controller_placement placements other)
unfolding set_controller_placement
set_controller_placement-get placements controller other [] u =
    delete_entry-values placements controller other u
set_controller_placement-get placements controller other (c ∷ cs) u =
    set_entry-values placements controller other (sort string_less (c ∷ cs))

-- Setting a placement answers that nothing changed exactly where the placements are the same.
pub set_controller_placement-same :
    (placements : List Placement) (controller : String) (names : List String)
    → ((set_controller_placement placements controller names).1 ≡ false)
      ↔ ((set_controller_placement placements controller names).0 ≡ placements)
unfolding set_controller_placement
set_controller_placement-same placements controller [] = delete_entry-same placements controller
set_controller_placement-same placements controller (c ∷ cs) =
    set_entry-same placements controller (sort string_less (c ∷ cs))

module _ (c : String) where
  has-append : (xs ys : List String) → has c (xs ++ ys) ≡ (has c xs || has c ys)
  has-append [] ys = refl
  has-append (x ∷ xs) ys = ground (arith, has-append xs ys)

  insert_names-has :
      (names set : List String) → has c (insert_names names set) ≡ (has c set || has c names)
  unfolding insert_names
  insert_names-has [] set = ground arith
  insert_names-has (n ∷ ns) set = ground (
    arith,
    string_eq.reflects n c,
    has-append set (n ∷ []),
    insert_names-has ns (if has n set then set else set ++ n ∷ []),
  )

  union_from-has :
      (ps : List Placement) (set : List String)
      → has c (union_from ps set) ≡ (has c set || any (λ p. has c p.values) ps)
  unfolding union_from
  union_from-has [] set = ground arith
  union_from-has (p ∷ ps) set =
      ground (arith, insert_names-has p.values set, union_from-has ps (insert_names p.values set))

-- A cluster is in the union exactly when some placement lists it.
pub get_placement_union-has :
    (placements : List Placement) (c : String)
    → has c (get_placement_union placements) ≡ any (λ p. has c p.values) placements
get_placement_union-has placements c = union_from-has c placements []
