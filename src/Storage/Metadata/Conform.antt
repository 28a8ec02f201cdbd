-- ===== src/Storage/Metadata/Conform.antt =====
-- ValidateMetadataSchema of internal/storage/metadata.go: which metadata it accepts.
use bd.Prelude.{
  ◌≡◌, ◌<◌, ◌↔◌, refl, sym, ap, subst, ◌∙◌, Bool, inl, inr, Option, some, Option-cases, some_inj,
  List, [], ◌∷◌, ◌++◌, length, In, arith,
}
use bd.Prelude.Text.{Text}
use bd.Storage.Blocked.{concat_map}
use bd.Storage.Metadata.{
  MetadataError, Json, FieldSchema, lookup, check_field, parse_metadata, validate_metadata_schema,
}
use bd.Storage.Metadata.Values.{IsMet, check_field_iff}

module _ {F : Type 0} (lt : F → F → Bool) (is_integral : F → Bool) where
  append_empty : {A : Type 0} (xs ys : List A) → xs ++ ys ≡ [] → (xs ≡ []) × (ys ≡ [])
  append_empty [] ys h = (refl, h)
  append_empty (x ∷ xs) ys h = ground arith

  check_fields_iff :
      (parsed : List (Text × Json F)) (fields : List (Text × FieldSchema F))
      → (concat_map (λ e. check_field lt is_integral e.1 e.0 (lookup parsed e.0)) fields ≡ []) ↔ (
          (name : Text) (s : FieldSchema F)
          → In {A = Text × FieldSchema F} (name, s) fields
          → IsMet lt is_integral s (lookup parsed name))
  check_fields_iff parsed [] = (λ h name s m. absurd m, λ h. refl)
  check_fields_iff parsed ((name, s) ∷ fields) =
      let errors = check_field lt is_integral s name (lookup parsed name) in
      let first = check_field_iff lt is_integral s name (lookup parsed name) in
      let rest = check_fields_iff parsed fields in
      (
        λ h.
            let (p, q) =
              append_empty errors
                (concat_map (λ e. check_field lt is_integral e.1 e.0 (lookup parsed e.0)) fields)
                h in
            λ name' s' m. elim m [
              | inl e ↦
                  subst (λ (x : Text × FieldSchema F). IsMet lt is_integral x.1 (lookup parsed x.0))
                    (sym e) (first.0 p)
              | inr n ↦ rest.0 q name' s' n
            ],
        λ h.
            ap
              (λ (es : List MetadataError).
                es
                ++ concat_map (λ e. check_field lt is_integral e.1 e.0 (lookup parsed e.0)) fields)
              (first.1 (h name s (inl refl)))
            ∙ rest.1 (λ name' s' n. h name' s' (inr n)),
      )

  module _ (unmarshal_object : Text → Option (List (Text × Json F))) where
    -- For a schema with fields, ValidateMetadataSchema finds no error exactly if the metadata is empty
    -- or parses as an object, every required field is there, and every field that is there has the type
    -- of its schema, lies in its range if it is a number, and is one of its values if it is an
    -- enumeration.
    pub validate_metadata_schema_iff :
        (m : Text) (fields : List (Text × FieldSchema F))
        → 0 < length fields
        → (validate_metadata_schema lt is_integral unmarshal_object m fields ≡ []) ↔ (
            (parsed : List (Text × Json F)) × (parse_metadata unmarshal_object m ≡ some parsed)
            × ((name : Text) (s : FieldSchema F)
                → In {A = Text × FieldSchema F} (name, s) fields
                → IsMet lt is_integral s (lookup parsed name)))
    unfolding validate_metadata_schema
    validate_metadata_schema_iff m [] n = absurd (omega arith)
    validate_metadata_schema_iff m (f ∷ fields) n =
        elim (Option-cases (parse_metadata unmarshal_object m)) [
          | inl e ↦ ground (arith, e)
          | inr (parsed, e) ↦
              let iff = check_fields_iff parsed (f ∷ fields) in
              let shape : validate_metadata_schema lt is_integral unmarshal_object m (f ∷ fields)
                  ≡ concat_map (λ e. check_field lt is_integral e.1 e.0 (lookup parsed e.0))
                      (f ∷ fields) =
                ground (arith, e) in
              (
                λ h. (parsed, e, iff.0 (sym shape ∙ h)),
                λ (other_parsed, q, met).
                    let same : other_parsed ≡ parsed = some_inj other_parsed parsed (sym q ∙ e) in
                    shape
                    ∙ (iff.1 (
                        subst
                          (λ (p : List (Text × Json F)).
                            (name : Text) (s : FieldSchema F)
                            → In {A = Text × FieldSchema F} (name, s) (f ∷ fields)
                            → IsMet lt is_integral s (lookup p name))
                          same met)),
              )
        ]
