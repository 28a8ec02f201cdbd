-- ===== src/Tests/Metadata.antt =====
-- A schema with a number from 1 to 5, on metadata that holds a 3.
use bd.Prelude.{
  ℕ, Bool, true, false, ◌≡◌, ◌↔◌, refl, Option, none, some, List, [], ◌∷◌, In, ltb, arith,
}
use bd.Prelude.Text.{Text, codes, ◌==◌, has_infix}
use bd.Storage.Metadata.{
  field_int, Json, number, FieldSchema, lookup, above_maximum, RawValue, raw_string, raw_number,
  check_range, check_int, check_value, check_field, parse_metadata, validate_metadata_schema,
  parse_field_schema, parse_fields, validate_metadata_if_configured, validate_metadata_key,
  json_metadata_path,
}
use bd.Storage.Metadata.Conform.{validate_metadata_schema_iff}
use bd.Storage.Metadata.Values.{IsMet}

program : Unit {0}
unfolding ◌==◌ check_range check_int check_value check_field parse_metadata validate_metadata_schema
    parse_field_schema parse_fields validate_metadata_if_configured validate_metadata_key
    json_metadata_path has_infix
program = tt

abbrev whole : ℕ → Bool
whole n = true

abbrev level : Text
level = codes "level"

abbrev unmarshal : ℕ → Text → Option (List (Text × Json ℕ))
unmarshal n m = some ((level, number n) ∷ [])

abbrev configured : List (Text × Option (List (Text × RawValue ℕ)))
configured =
    (level, some ((codes "type", raw_string field_int) ∷ (codes "max", raw_number 5) ∷ [])) ∷ []

abbrev schema : List (Text × FieldSchema ℕ)
schema =
    (level, record { type = field_int; values = []; required = true; min = some 1; max = some 5 })
    ∷ []

too_high :
    validate_metadata_if_configured ltb whole
      (unmarshal 7)
      (codes "error")
      configured
      (codes "{\"level\": 7}")
    ≡ some (record { field = level; error = above_maximum })
unfolding program
too_high = refl

warned :
    validate_metadata_if_configured ltb whole
      (unmarshal 7)
      (codes "warn")
      configured
      (codes "{\"level\": 7}")
    ≡ none
unfolding program
warned = refl

quoted : json_metadata_path (codes "gc.to") ≡ codes "$.\"gc.to\""
unfolding program
quoted = refl

digit_first : validate_metadata_key (codes "2nd") ≡ false
unfolding program
digit_first = refl

validate_metadata_schema_iff_example :
    (validate_metadata_schema ltb whole (unmarshal 3) (codes "{\"level\": 3}") schema ≡ []) ↔ (
      (parsed : List (Text × Json ℕ)) × (parse_metadata (unmarshal 3) (codes "{\"level\": 3}")
        ≡ some parsed)
      × ((name : Text) (s : FieldSchema ℕ)
          → In {A = Text × FieldSchema ℕ} (name, s) schema
          → IsMet ltb whole s (lookup parsed name)))
validate_metadata_schema_iff_example =
    validate_metadata_schema_iff ltb whole (unmarshal 3) (codes "{\"level\": 3}") schema
      (omega arith)
