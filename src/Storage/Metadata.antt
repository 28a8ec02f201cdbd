-- ===== src/Storage/Metadata.antt =====
-- internal/storage/metadata.go, and ParseFieldSchema and ValidateMetadataIfConfigured of
-- internal/storage/issueops/helpers.go: the check of an issue's metadata against the configured schema.
pub mod Values
pub mod Conform
use bd.Prelude.{
  ℕ, Bool, true, false, ◌&&◌, ◌||◌, not, Option, none, some, List, [], ◌∷◌, ◌++◌, map, all, select,
  find?, eqb, leb, length, if◌then◌else◌,
}
use bd.Prelude.Text.{Text, codes, ◌==◌, contains, has_infix, is_digit, is_lower, is_upper}
use bd.Storage.Blocked.{concat_map}
use bd.Storage.Config.{parse_comma_separated_list}

-- MetadataFieldType
abbrev pub field_string : Text
field_string = codes "string"

abbrev pub field_int : Text
field_int = codes "int"

abbrev pub field_float : Text
field_float = codes "float"

abbrev pub field_bool : Text
field_bool = codes "bool"

abbrev pub field_enum : Text
field_enum = codes "enum"

-- What a field of the error says is wrong.
pub data FieldError : Type 0 where
  not_an_object missing not_string not_int not_integral not_float not_bool : FieldError
  below_minimum above_maximum not_enum not_one_of : FieldError

-- MetadataValidationError
pub record MetadataError : Type 0 where
  pub field : Text
  pub error : FieldError

-- A value of the metadata, as json.Unmarshal gives it: numbers are of the type `F`, which stands for
-- float64; `other` is null, an array or an object.
pub data Json (F : Type 0) : Type 0 where
  string : Text → Json F
  number : F → Json F
  boolean : Bool → Json F
  other : Json F

-- MetadataFieldSchema
pub record FieldSchema (F : Type 0) : Type 0 where
  pub type : Text
  pub values : List Text
  pub required : Bool
  pub min : Option F
  pub max : Option F

-- A value of the configuration. An item of a list is its text, or `none` where it is none.
pub data RawValue (F : Type 0) : Type 0 where
  raw_string : Text → RawValue F
  raw_number : F → RawValue F
  raw_bool : Bool → RawValue F
  raw_list : List (Option Text) → RawValue F
  raw_other : RawValue F

-- m[key]
abbrev pub lookup : {A : Type 0} → List (Text × A) → Text → Option A
lookup m key = elim (find? (λ e. e.0 == key) m) [ none ↦ none | some e ↦ some e.1 ]

abbrev some_texts : List (Option Text) → List Text
some_texts [] = []
some_texts (none ∷ ts) = some_texts ts
some_texts (some t ∷ ts) = t ∷ some_texts ts

module _ {F : Type 0} where
  abbrev raw_text : Option (RawValue F) → Text
  raw_text (some (raw_string s)) = s
  raw_text _ = []

  abbrev raw_flag : Option (RawValue F) → Bool
  raw_flag (some (raw_bool b)) = b
  raw_flag _ = false

  abbrev raw_values : Option (RawValue F) → List Text
  raw_values (some (raw_string s)) = parse_comma_separated_list s
  raw_values (some (raw_list items)) = some_texts items
  raw_values _ = []

  -- toFloat64
  abbrev pub to_float64 : Option (RawValue F) → Option F
  to_float64 (some (raw_number n)) = some n
  to_float64 _ = none

  -- ParseFieldSchema
  unfoldable pub parse_field_schema : List (Text × RawValue F) → FieldSchema F
  parse_field_schema m = record {
    type = raw_text (lookup m (codes "type"));
    values = raw_values (lookup m (codes "values"));
    required = raw_flag (lookup m (codes "required"));
    min = to_float64 (lookup m (codes "min"));
    max = to_float64 (lookup m (codes "max"));
  }

  -- The fields whose value is a map.
  unfoldable pub parse_fields :
      List (Text × Option (List (Text × RawValue F))) → List (Text × FieldSchema F)
  parse_fields [] = []
  parse_fields ((name, none) ∷ fields) = parse_fields fields
  parse_fields ((name, some m) ∷ fields) = (name, parse_field_schema m) ∷ parse_fields fields

abbrev pub fail_if : Bool → Text → FieldError → List MetadataError
fail_if b name e = if b then record { field = name; error = e } ∷ [] else []

module _ {F : Type 0} where
  unfoldable pub check_string : Text → Json F → List MetadataError
  check_string name (string t) = []
  check_string name _ = fail_if true name not_string

  unfoldable pub check_bool : Text → Json F → List MetadataError
  check_bool name (boolean b) = []
  check_bool name _ = fail_if true name not_bool

  unfoldable pub check_enum : FieldSchema F → Text → Json F → List MetadataError
  check_enum s name (string t) = fail_if (not (contains s.values t)) name not_one_of
  check_enum s name _ = fail_if true name not_enum

  -- json.Unmarshal into a map, `none` for an error, where the text is not one of the empty ones.
  unfoldable pub parse_metadata :
      (Text → Option (List (Text × Json F))) → Text → Option (List (Text × Json F))
  parse_metadata unmarshal_object m =
      if m == [] || m == codes "{}" || m == codes "null" then some [] else unmarshal_object m

-- `lt` is < on float64.
module _ {F : Type 0} (lt : F → F → Bool) where
  abbrev pub is_below : Option F → F → Bool
  is_below none n = false
  is_below (some m) n = lt n m

  abbrev pub is_above : Option F → F → Bool
  is_above none n = false
  is_above (some m) n = lt m n

  unfoldable pub check_range : FieldSchema F → Text → F → List MetadataError
  check_range s name n =
      fail_if (is_below s.min n) name below_minimum ++ fail_if (is_above s.max n) name above_maximum

  unfoldable pub check_float : FieldSchema F → Text → Json F → List MetadataError
  check_float s name (number n) = check_range s name n
  check_float s name _ = fail_if true name not_float

-- `is_integral` is the test num == float64(int64(num)).
module _ {F : Type 0} (lt : F → F → Bool) (is_integral : F → Bool) where
  unfoldable pub check_int : FieldSchema F → Text → Json F → List MetadataError
  check_int s name (number n) =
      if is_integral n then check_range lt s name n else fail_if true name not_integral
  check_int s name _ = fail_if true name not_int

  -- The switch on the type; another type is not checked.
  unfoldable pub check_value : FieldSchema F → Text → Json F → List MetadataError
  check_value s name v =
      if s.type == field_string
      then check_string name v
      else if s.type == field_int
      then check_int s name v
      else if s.type == field_float
      then check_float lt s name v
      else if s.type == field_bool
      then check_bool name v
      else if s.type == field_enum
      then check_enum s name v
      else []

  unfoldable pub check_field : FieldSchema F → Text → Option (Json F) → List MetadataError
  check_field s name none = fail_if s.required name missing
  check_field s name (some v) = check_value s name v

  module _ (unmarshal_object : Text → Option (List (Text × Json F))) where
    -- ValidateMetadataSchema; the fields in the order of the iteration over the map.
    unfoldable pub validate_metadata_schema :
        Text → List (Text × FieldSchema F) → List MetadataError
    validate_metadata_schema m [] = []
    validate_metadata_schema m (f ∷ fields) = elim (parse_metadata unmarshal_object m) [
      | none ↦ fail_if true (codes "(root)") not_an_object
      | some parsed ↦ concat_map (λ e. check_field e.1 e.0 (lookup parsed e.0)) (f ∷ fields)
    ]

    -- ValidateMetadataIfConfigured, on the mode and the fields of the configuration.
    unfoldable pub validate_metadata_if_configured :
        Text → List (Text × Option (List (Text × RawValue F))) → Text → Option MetadataError
    validate_metadata_if_configured mode raw_fields m =
        if mode == codes "none" || mode == []
        then none
        else elim (validate_metadata_schema m (parse_fields raw_fields)) [
          | [] ↦ none
          | e ∷ errors ↦ if mode == codes "warn" then none else some e
        ]

abbrev pub is_key_start : ℕ → Bool
is_key_start c = is_lower c || is_upper c || eqb c b'_'

abbrev pub is_key_char : ℕ → Bool
is_key_char c = is_key_start c || is_digit c || eqb c b'.'

-- ValidateMetadataKey: the regular expression ^[a-zA-Z_][a-zA-Z0-9_.]*$
unfoldable pub validate_metadata_key : Text → Bool
validate_metadata_key [] = false
validate_metadata_key (c ∷ s) = is_key_start c && all is_key_char s

-- JSONMetadataPath
unfoldable pub json_metadata_path : Text → Text
json_metadata_path key =
    if has_infix key (codes ".") then codes "$.\"" ++ (key ++ codes "\"") else codes "$." ++ key
