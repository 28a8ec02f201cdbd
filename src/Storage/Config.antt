-- ===== src/Storage/Config.antt =====
-- The configuration in the database: internal/storage/issueops/config_metadata.go (GetConfigInTx),
-- config_helpers.go (ResolveCustomTypesInTx) and the readers of helpers.go and create.go.
use bd.Prelude.{
  ℕ, Bool, not, Option, none, some, List, [], ◌∷◌, map, select, find?, eqb, length, ltb,
  if◌then◌else◌,
}
use bd.Prelude.Text.{Text, codes, ◌==◌, split, trim_space}
use bd.Storage.Store.{Store}

-- SELECT value FROM config WHERE key = ?; "" where there is no row.
unfoldable pub get_config : Store → Text → Text
get_config st key = elim (find? (λ r. r.key == key) st.config) [ none ↦ [] | some r ↦ r.value ]

-- ParseCommaSeparatedList, and the loops that do the same.
unfoldable pub parse_comma_separated_list : Text → List Text
parse_comma_separated_list value = select (λ s. not (s == [])) (map trim_space (split b',' value))

-- strings.TrimSuffix for a suffix of one byte.
unfoldable pub trim_suffix_byte : ℕ → Text → Text
trim_suffix_byte d [] = []
trim_suffix_byte d (c ∷ []) = if eqb c d then [] else c ∷ []
trim_suffix_byte d (c ∷ e ∷ s) = c ∷ trim_suffix_byte d (e ∷ s)

-- ReadConfigPrefix; `none` is the error that the database is not initialized.
unfoldable pub read_config_prefix : Store → Option Text
read_config_prefix st =
    let prefix = get_config st (codes "issue_prefix") in
    if prefix == [] then none else some (trim_suffix_byte b'-' prefix)

-- IsCounterModeTx
unfoldable pub is_counter_mode : Store → Bool
is_counter_mode st = get_config st (codes "issue_id_mode") == codes "counter"

-- storage.OrphanHandling
abbrev pub OrphanHandling : Type 0
OrphanHandling = Text

abbrev pub orphan_strict : OrphanHandling
orphan_strict = codes "strict"

abbrev pub orphan_skip : OrphanHandling
orphan_skip = codes "skip"

-- BatchCreateOptions
pub record BatchCreateOptions : Type 0 where
  pub orphan_handling : OrphanHandling
  pub skip_prefix_validation : Bool

-- BatchContext
pub record BatchContext : Type 0 where
  pub custom_statuses : List Text
  pub custom_types : List Text
  pub config_prefix : Text
  pub allowed_prefixes : Text
  pub opts : BatchCreateOptions

-- `unmarshal_list` is json.Unmarshal into a list of strings, `none` for an error, and `yaml_types`
-- what the configuration file holds.
module _ (unmarshal_list : Text → Option (List Text)) (yaml_types : List Text) where
  -- GetCustomStatusesTx
  unfoldable pub get_custom_statuses : Store → List Text
  get_custom_statuses st =
      let raw = get_config st (codes "status.custom") in
      if raw == [] then [] else (elim (unmarshal_list raw) [
        | some statuses ↦ statuses
        | none ↦ parse_comma_separated_list raw
      ])

  -- ResolveCustomTypesInTx. The table custom_types exists and has its rows in the order of the names.
  unfoldable pub resolve_custom_types : Store → List Text
  resolve_custom_types st =
      let value = get_config st (codes "types.custom") in
      if ltb 0 (length st.custom_types)
      then st.custom_types
      else if not (value == [])
      then (elim (unmarshal_list value) [
        | some names ↦ names
        | none ↦ parse_comma_separated_list value
      ])
      else yaml_types

  -- NewBatchContext
  unfoldable pub new_batch_context : Store → BatchCreateOptions → Option BatchContext
  new_batch_context st opts = elim (read_config_prefix st) [
    | none ↦ none
    | some prefix ↦ some (record {
      custom_statuses = get_custom_statuses st;
      custom_types = resolve_custom_types st;
      config_prefix = prefix;
      allowed_prefixes = get_config st (codes "allowed_prefixes");
      opts = opts;
    })
  ]
