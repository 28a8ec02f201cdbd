-- ===== src/Storage/Metadata/Values.antt =====
-- internal/storage/metadata.go: which values the check of one field accepts.
use bd.Prelude.{
  ◌≡◌, ◌↔◌, ◌⊎◌, refl, sym, subst, ◌∙◌, Bool, true, false, not, Option, none, some, List, [], arith,
}
use bd.Prelude.Text.{Text, ◌==◌, eq_iff, contains}
use bd.Storage.Metadata.{
  field_string, field_int, field_float, field_bool, field_enum, MetadataError, Json, string, number,
  boolean, other, FieldSchema, is_below, is_above, check_range, check_string, check_int,
  check_float, check_bool, check_enum, check_value, check_field,
}

module _ {F : Type 0} where
  abbrev pub is_string : Json F → Bool
  is_string (string t) = true
  is_string _ = false

  abbrev pub is_number : Json F → Bool
  is_number (number n) = true
  is_number _ = false

  abbrev pub is_boolean : Json F → Bool
  is_boolean (boolean b) = true
  is_boolean _ = false

  abbrev pub is_one_of : List Text → Json F → Bool
  is_one_of values (string t) = contains values t
  is_one_of values _ = false

  abbrev pub holds : (F → Bool) → Json F → Bool
  holds p (number n) = p n
  holds p _ = false

module _ {F : Type 0} (lt : F → F → Bool) (is_integral : F → Bool) where
  -- The value conforms to the schema of its field.
  pub record IsConform (s : FieldSchema F) (v : Json F) : Type 0 where
    pub as_string : (s.type == field_string) ≡ true → is_string v ≡ true
    pub as_int : (s.type == field_int) ≡ true → holds is_integral v ≡ true
    pub as_float : (s.type == field_float) ≡ true → is_number v ≡ true
    pub as_bool : (s.type == field_bool) ≡ true → is_boolean v ≡ true
    pub as_enum : (s.type == field_enum) ≡ true → is_one_of s.values v ≡ true
    pub at_least :
        ((s.type == field_int) ≡ true) ⊎ ((s.type == field_float) ≡ true)
        → holds (λ n. not (is_below lt s.min n)) v ≡ true
    pub at_most :
        ((s.type == field_int) ≡ true) ⊎ ((s.type == field_float) ≡ true)
        → holds (λ n. not (is_above lt s.max n)) v ≡ true

  abbrev pub IsMet : FieldSchema F → Option (Json F) → Type 0
  IsMet s none = s.required ≡ false
  IsMet s (some v) = IsConform s v

  conform-check_value :
      (s : FieldSchema F) (name : Text) (v : Json F)
      → IsConform s v
      → check_value lt is_integral s name v ≡ []
  unfolding check_value check_range check_string check_int check_float check_bool check_enum
  conform-check_value s name (string t) c =
      ground (arith, c.as_int, c.as_float, c.as_bool, c.as_enum)
  conform-check_value s name (number n) c =
      ground (arith, c.as_int, c.as_float, c.as_bool, c.as_string, c.as_enum, c.at_least, c.at_most)
  conform-check_value s name (boolean b) c =
      ground (arith, c.as_int, c.as_float, c.as_string, c.as_enum)
  conform-check_value s name other c =
      ground (arith, c.as_int, c.as_float, c.as_bool, c.as_string, c.as_enum)

  -- The switch takes the branch of the type.
  module _ (s : FieldSchema F) (name : Text) (v : Json F) where
    by_type :
        (check : FieldSchema F → List MetadataError) (t : Text)
        → check_value lt is_integral (record s { type = t }) name v ≡ check (record s { type = t })
        → (s.type == t) ≡ true
        → check_value lt is_integral s name v ≡ check s
    by_type check t h e =
        subst
          (λ x.
            check_value lt is_integral (record s { type = x }) name v
            ≡ check (record s { type = x }))
          (sym ((eq_iff s.type t).0 e)) h

    chooses_string :
        (s.type == field_string) ≡ true → check_value lt is_integral s name v ≡ check_string name v
    unfolding check_value ◌==◌
    chooses_string = by_type (λ x. check_string name v) field_string refl

    chooses_int :
        (s.type == field_int) ≡ true
        → check_value lt is_integral s name v ≡ check_int lt is_integral s name v
    unfolding check_value ◌==◌ check_int check_range
    chooses_int = by_type (λ x. check_int lt is_integral x name v) field_int refl

    chooses_float :
        (s.type == field_float) ≡ true
        → check_value lt is_integral s name v ≡ check_float lt s name v
    unfolding check_value ◌==◌ check_float check_range
    chooses_float = by_type (λ x. check_float lt x name v) field_float refl

    chooses_bool :
        (s.type == field_bool) ≡ true → check_value lt is_integral s name v ≡ check_bool name v
    unfolding check_value ◌==◌
    chooses_bool = by_type (λ x. check_bool name v) field_bool refl

    chooses_enum :
        (s.type == field_enum) ≡ true → check_value lt is_integral s name v ≡ check_enum s name v
    unfolding check_value ◌==◌ check_enum
    chooses_enum = by_type (λ x. check_enum x name v) field_enum refl

  check_string-conform : (name : Text) (v : Json F) → check_string name v ≡ [] → is_string v ≡ true
  unfolding check_string
  check_string-conform name (string t) h = refl
  check_string-conform name (number n) h = ground arith
  check_string-conform name (boolean b) h = ground arith
  check_string-conform name other h = ground arith

  check_bool-conform : (name : Text) (v : Json F) → check_bool name v ≡ [] → is_boolean v ≡ true
  unfolding check_bool
  check_bool-conform name (string t) h = ground arith
  check_bool-conform name (number n) h = ground arith
  check_bool-conform name (boolean b) h = refl
  check_bool-conform name other h = ground arith

  check_enum-conform :
      (s : FieldSchema F) (name : Text) (v : Json F)
      → check_enum s name v ≡ []
      → is_one_of s.values v ≡ true
  unfolding check_enum
  check_enum-conform s name (string t) h = ground arith
  check_enum-conform s name (number n) h = ground arith
  check_enum-conform s name (boolean b) h = ground arith
  check_enum-conform s name other h = ground arith

  abbrev InRange : FieldSchema F → Json F → Type 0
  InRange s v =
      (holds (λ n. not (is_below lt s.min n)) v ≡ true)
      × (holds (λ n. not (is_above lt s.max n)) v ≡ true)

  check_int-conform :
      (s : FieldSchema F) (name : Text) (v : Json F)
      → check_int lt is_integral s name v ≡ []
      → (holds is_integral v ≡ true) × InRange s v
  unfolding check_int check_range
  check_int-conform s name (string t) h = ground arith
  check_int-conform s name (number n) h = ground arith
  check_int-conform s name (boolean b) h = ground arith
  check_int-conform s name other h = ground arith

  check_float-conform :
      (s : FieldSchema F) (name : Text) (v : Json F)
      → check_float lt s name v ≡ []
      → (is_number v ≡ true) × InRange s v
  unfolding check_float check_range
  check_float-conform s name (string t) h = ground arith
  check_float-conform s name (number n) h = ground arith
  check_float-conform s name (boolean b) h = ground arith
  check_float-conform s name other h = ground arith

  check_value-IsConform :
      (s : FieldSchema F) (name : Text) (v : Json F)
      → check_value lt is_integral s name v ≡ []
      → IsConform s v
  check_value-IsConform s name v h =
      let as_int : (s.type == field_int) ≡ true → (holds is_integral v ≡ true) × InRange s v =
        λ e. check_int-conform s name v (sym (chooses_int s name v e) ∙ h) in
      let as_float : (s.type == field_float) ≡ true → (is_number v ≡ true) × InRange s v =
        λ e. check_float-conform s name v (sym (chooses_float s name v e) ∙ h) in
      record {
        as_string = λ e. check_string-conform name v (sym (chooses_string s name v e) ∙ h);
        as_int = λ e. (as_int e).0;
        as_float = λ e. (as_float e).0;
        as_bool = λ e. check_bool-conform name v (sym (chooses_bool s name v e) ∙ h);
        as_enum = λ e. check_enum-conform s name v (sym (chooses_enum s name v e) ∙ h);
        at_least = λ e. ground (arith, as_int, as_float, e);
        at_most = λ e. ground (arith, as_int, as_float, e);
      }

  pub check_field_iff :
      (s : FieldSchema F) (name : Text) (v : Option (Json F))
      → (check_field lt is_integral s name v ≡ []) ↔ IsMet s v
  unfolding check_field
  check_field_iff s name none = ground arith
  check_field_iff s name (some v) = (check_value-IsConform s name v, conform-check_value s name v)
