-- ===== src/Util/Annotation/Lookup.antt =====
-- What a look-up finds after an annotation is added or removed.
use kubeadmiral.Base.{
  ◌≡◌, ◌≢◌, refl, sym, ap, ◌∙◌, String, Option, none, some, Bool, true, false, ◌==◌, string_eq, inl,
  inr, Bool-cases,
}
use kubeadmiral.Base.Assoc.{
  Map, lookup, is_some, lookup-insert_self, lookup-insert_ne, lookup-erase,
}
use kubeadmiral.Util.Annotation.{
  answer, annotations_of, add_annotation, remove_annotation, has_annotation_key,
  has_annotation_key_value, holds,
}

false≢true : false ≢ true
false≢true h = cc

-- After `AddAnnotation` the key holds the value, whether it was written or stood there.
pub add_annotation-lookup :
    (annotations : Map String String) (key value : String)
    → key == "" ≡ false
    → lookup key (annotations_of (add_annotation (some annotations) key value).0) ≡ some value
unfolding add_annotation has_annotation_key_value
add_annotation-lookup annotations key value h =
    elim (Bool-cases (holds value (lookup key annotations))) [
      | inl e ↦
          rw (add_annotation, h, has_annotation_key_value, e) (held (lookup key annotations) e)
      | inr e ↦
          rw (add_annotation, h, has_annotation_key_value, e)
            (lookup-insert_self key value annotations)
    ]
  where
    held : (o : Option String) → holds value o ≡ true → o ≡ some value
    held none e = absurd (false≢true e)
    held (some v) e = ap some (sym ((string_eq.reflects value v).0 e))

-- The other key is left as it is.
pub add_annotation-other :
    (annotations : Map String String) (key other value : String)
    → key == other ≡ false
    → lookup other (annotations_of (add_annotation (some annotations) key value).0)
      ≡ lookup other annotations
unfolding add_annotation has_annotation_key_value
add_annotation-other annotations key other value h = elim (Bool-cases (key == "")) [
  | inl e ↦ rw (add_annotation, e) refl
  | inr e ↦ elim (Bool-cases (holds value (lookup key annotations))) [
    | inl f ↦ rw (add_annotation, e, has_annotation_key_value, f) refl
    | inr f ↦
        rw (add_annotation, e, has_annotation_key_value, f)
          (lookup-insert_ne key other value annotations
            (λ k. false≢true (sym h ∙ (string_eq.reflects key other).1 k)))
  ]
]

pub remove_annotation-other :
    (annotations : Map String String) (key other : String)
    → key == other ≡ false
    → lookup other (annotations_of (remove_annotation (some annotations) key).0)
      ≡ lookup other annotations
unfolding remove_annotation has_annotation_key
remove_annotation-other annotations key other h =
    elim (Bool-cases (is_some (lookup key annotations))) [
      | inl e ↦
          rw (remove_annotation, has_annotation_key, e)
            (rw (lookup-erase key other annotations, h) refl)
      | inr e ↦ rw (remove_annotation, has_annotation_key, e) refl
    ]

-- `AddAnnotation` of a key that is not empty answers.
pub add_annotation-answers :
    (annotations : Map String String) (key value : String)
    → key == "" ≡ false
    → (b : Bool) × ((add_annotation (some annotations) key value).1 ≡ answer b)
unfolding add_annotation has_annotation_key_value
add_annotation-answers annotations key value h =
    elim (Bool-cases (holds value (lookup key annotations))) [
      | inl e ↦ (false, rw (add_annotation, h, has_annotation_key_value, e) refl)
      | inr e ↦ (true, rw (add_annotation, h, has_annotation_key_value, e) refl)
    ]

pub add_annotation-present :
    (annotations : Map String String) (key value : String)
    → (add_annotation (some annotations) key value).0
      ≡ some (annotations_of (add_annotation (some annotations) key value).0)
unfolding add_annotation has_annotation_key_value
add_annotation-present annotations key value = elim (Bool-cases (key == "")) [
  | inl e ↦ rw (add_annotation, e) refl
  | inr e ↦ elim (Bool-cases (holds value (lookup key annotations))) [
    | inl f ↦ rw (add_annotation, e, has_annotation_key_value, f) refl
    | inr f ↦ rw (add_annotation, e, has_annotation_key_value, f) refl
  ]
]
