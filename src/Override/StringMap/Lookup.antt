-- ===== src/Override/StringMap/Lookup.antt =====
-- What the overriders of labels and annotations make of each key, and when they fail.
use kubeadmiral.Base.{
  ◌≡◌, ◌≢◌, refl, sym, ap, subst, ◌∙◌, String, Option, none, some, Bool, true, false, List, [], ◌∷◌,
  ◌==◌, string_eq, ◌&&◌, ◌||◌, not, eqb, length, any, inl, inr, Bool-cases, arith, if◌then◌else◌,
  All,
}
use Prim.Native.String.{◌++◌ as text_append}
use kubeadmiral.Base.Assoc.{Map, lookup, insert, is_some, UniqueKeys, lookup-insert, lookup-erase}
use kubeadmiral.Base.Chain.{>>=-eq-some, some_eq}
use kubeadmiral.Override.{
  operator_replace, operator_add_if_absent, operator_overwrite, operator_delete, OverridePatch,
}
use kubeadmiral.Override.StringMap.{
  StringMapOverrider, Metadata, get_labels_or_annotations_from_object, apply_entry, apply_entries,
  operator_or_default, apply_string_map_overrider, apply_string_map_overriders,
  parse_string_map_overriders,
}

-- What an operator makes of one key: `new` is what the overrider has for it, `old` what the map has.
abbrev pub told : String → Option String → Option String → Option String
told operator new old =
    if operator == operator_add_if_absent
    then (if is_some new then new else old)
    else if operator == operator_overwrite
    then (if is_some new && is_some old then new else old)
    else if operator == operator_delete
    then (if is_some new then none else old)
    else old

-- The overriders, one after the other.
abbrev pub told_all : String → List StringMapOverrider → Option String → Option String
told_all key [] old = old
told_all key (o ∷ overriders) old =
    told_all key overriders (told (operator_or_default o.operator) (lookup key o.value) old)

apply_entry-lookup :
    (operator key value k : String) (m m' : Map String String)
    → apply_entry operator key value m ≡ some m'
    → lookup k m' ≡ (if key == k then told operator (some value) (lookup k m) else lookup k m)
unfolding apply_entry
apply_entry-lookup operator key value k m m' h =
    elim (Bool-cases (operator == operator_add_if_absent)) [
      | inl a ↦ elim (Bool-cases (is_some (lookup key m))) [
        | inl e ↦ absurd (none≢some (rw (apply_entry, a, e) at h))
        | inr e ↦
            sym (ap (lookup k) (some_eq (rw (apply_entry, a, e) at h)))
            ∙ ground (arith, a, lookup-insert key k value m)
      ]
      | inr a ↦ elim (Bool-cases (operator == operator_overwrite)) [
        | inl b ↦
            sym (ap (lookup k) (some_eq (rw (apply_entry, a, b) at h)))
            ∙ ground (arith, a, b, string_eq.reflects key k, lookup-insert key k value m)
        | inr b ↦ elim (Bool-cases (operator == operator_delete)) [
          | inl c ↦
              sym (ap (lookup k) (some_eq (rw (apply_entry, a, b, c) at h)))
              ∙ ground (arith, a, b, c, lookup-erase key k m)
          | inr c ↦
              sym (ap (lookup k) (some_eq (rw (apply_entry, a, b, c) at h)))
              ∙ ground (arith, a, b, c)
        ]
      ]
    ]
  where
    none≢some : none ≢ some m'
    none≢some h = cc

told-none : (operator : String) (old : Option String) → told operator none old ≡ old
told-none operator old = ground arith

apply_entries-lookup :
    (operator : String) (value m m' : Map String String) (k : String)
    → UniqueKeys value
    → apply_entries operator value m ≡ some m'
    → lookup k m' ≡ told operator (lookup k value) (lookup k m)
unfolding apply_entries
apply_entries-lookup operator [] m m' k u h =
    ap (lookup k) (sym (some_eq h)) ∙ sym (told-none operator (lookup k m))
apply_entries-lookup operator ((key, v) ∷ rest) m m' k u h =
    let (next, e, f) = >>=-eq-some (apply_entry operator key v m) _ h in
    let one = apply_entry-lookup operator key v k m next e in
    let more = apply_entries-lookup operator rest next m' k u.1 f in
    elim (Bool-cases (key == k)) [
      | inl same ↦ rw same (
          more
          ∙ ap (λ o. told operator o (lookup k next))
              (subst (λ x. lookup x rest ≡ none) ((string_eq.reflects key k).0 same) u.0)
          ∙ told-none operator (lookup k next)
          ∙ (rw same at one))
      | inr other ↦ rw other (more ∙ ap (told operator (lookup k rest)) (rw other at one))
    ]

pub apply_string_map_overrider-lookup :
    (o : StringMapOverrider) (m m' : Map String String) (k : String)
    → UniqueKeys o.value
    → apply_string_map_overrider m o ≡ some m'
    → lookup k m' ≡ told (operator_or_default o.operator) (lookup k o.value) (lookup k m)
unfolding apply_string_map_overrider
apply_string_map_overrider-lookup o m m' k u h =
    elim (Bool-cases
      (operator_or_default o.operator == operator_add_if_absent && eqb (length o.value) 0)) [
        | inl e ↦ absurd (none≢some (rw (apply_string_map_overrider, e) at h))
        | inr e ↦
            apply_entries-lookup (operator_or_default o.operator) o.value m m' k u
              (rw (apply_string_map_overrider, e) at h)
      ]
  where
    none≢some : none ≢ some m'
    none≢some h = cc

apply_string_map_overriders-told :
    (os : List StringMapOverrider) (m m' : Map String String) (k : String)
    → All (λ o. UniqueKeys o.value) os
    → apply_string_map_overriders os m ≡ some m'
    → lookup k m' ≡ told_all k os (lookup k m)
unfolding apply_string_map_overriders
apply_string_map_overriders-told [] m m' k u h = ap (lookup k) (sym (some_eq h))
apply_string_map_overriders-told (o ∷ os) m m' k u h =
    let (next, e, f) = >>=-eq-some (apply_string_map_overrider m o) _ h in
    apply_string_map_overriders-told os next m' k u.1 f
    ∙ ap (told_all k os) (apply_string_map_overrider-lookup o m next k u.0 e)

module _ (marshal : Map String String → Option String) (source_obj : Metadata)
    (target : String) where
  -- Where `parseStringMapOverriders` succeeds for some overriders, each of whose keys stands
  -- once, its result is one patch of the target, with the encoding of a map. In that map each
  -- key has what the overriders' operators tell of it, one after the other, from what it has in
  -- the object.
  pub parse_string_map_overriders-told :
      (o : StringMapOverrider) (os : List StringMapOverrider) (patches : List OverridePatch)
      → All (λ o. UniqueKeys o.value) (o ∷ os)
      → parse_string_map_overriders marshal source_obj (o ∷ os) target ≡ some patches
      → (m : Map String String) × (value : String) × (marshal m ≡ some value)
        × (patches
            ≡ record {
              op = operator_replace;
              path = text_append "/metadata/" target;
              value = value;
            }
              ∷ [])
        × ((k : String)
            → lookup k m
              ≡ told_all k
                  (o ∷ os)
                  (lookup k (get_labels_or_annotations_from_object source_obj target)))
  unfolding parse_string_map_overriders
  parse_string_map_overriders-told o os patches u h =
      let (m, e, f) =
        >>=-eq-some
          (apply_string_map_overriders (o ∷ os)
            (get_labels_or_annotations_from_object source_obj target))
          _ h in
      let (value, g, r) = >>=-eq-some (marshal m) _ f in
      (m, value, g, sym (some_eq r), λ k. apply_string_map_overriders-told (o ∷ os) _ m k u e)

-- Some key of the overrider is in the map.
abbrev pub some_key_exists : Map String String → Map String String → Bool
some_key_exists value m = any (λ e. is_some (lookup e.0 m)) value

some_key_exists-insert :
    (key v : String) (rest m : Map String String)
    → lookup key rest ≡ none
    → some_key_exists rest (insert key v m) ≡ some_key_exists rest m
some_key_exists-insert key v [] m h = refl
some_key_exists-insert key v ((k, w) ∷ rest) m h = ground (
  arith,
  string_eq.reflects key k,
  string_eq.reflects k key,
  lookup-insert key k v m,
  h,
  some_key_exists-insert key v rest m,
)

apply_entries-adds :
    (operator : String) (value m : Map String String)
    → UniqueKeys value
    → operator == operator_add_if_absent ≡ true
    → is_some (apply_entries operator value m) ≡ not (some_key_exists value m)
unfolding apply_entries apply_entry
apply_entries-adds operator [] m u a = refl
apply_entries-adds operator ((key, v) ∷ rest) m u a = elim (Bool-cases (is_some (lookup key m))) [
  | inl e ↦ rw (apply_entries, apply_entry, a, e) refl
  | inr e ↦
      rw (apply_entries, apply_entry, a, e)
        (apply_entries-adds operator rest (insert key v m) u.1 a
          ∙ ap not (some_key_exists-insert key v rest m u.0))
]

apply_entries-returns :
    (operator : String) (value m : Map String String)
    → operator == operator_add_if_absent ≡ false
    → is_some (apply_entries operator value m) ≡ true
unfolding apply_entries apply_entry
apply_entries-returns operator [] m a = refl
apply_entries-returns operator ((key, v) ∷ rest) m a =
    elim (Bool-cases (operator == operator_overwrite)) [
      | inl b ↦ rw (apply_entries, apply_entry, a, b) (apply_entries-returns operator rest _ a)
      | inr b ↦ elim (Bool-cases (operator == operator_delete)) [
        | inl c ↦ rw (apply_entries, apply_entry, a, b, c) (apply_entries-returns operator rest _ a)
        | inr c ↦ rw (apply_entries, apply_entry, a, b, c) (apply_entries-returns operator rest _ a)
      ]
    ]

-- Where each key of the overrider stands once, it succeeds unless its operator is addIfAbsent and
-- it has no keys or one that exists in the map.
pub apply_string_map_overrider-is_some :
    (m : Map String String) (o : StringMapOverrider)
    → UniqueKeys o.value
    → is_some (apply_string_map_overrider m o)
      ≡ not (
          operator_or_default o.operator == operator_add_if_absent
          && (eqb (length o.value) 0 || some_key_exists o.value m))
unfolding apply_string_map_overrider
apply_string_map_overrider-is_some m o u =
    elim (Bool-cases (operator_or_default o.operator == operator_add_if_absent)) [
      | inl a ↦ elim (Bool-cases (eqb (length o.value) 0)) [
        | inl e ↦ rw (apply_string_map_overrider, a, e) refl
        | inr e ↦
            rw (apply_string_map_overrider, a, e)
              (apply_entries-adds (operator_or_default o.operator) o.value m u a)
      ]
      | inr a ↦
          rw (apply_string_map_overrider, a)
            (apply_entries-returns (operator_or_default o.operator) o.value m a)
    ]
