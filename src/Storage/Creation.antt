-- ===== src/Storage/Creation.antt =====
-- internal/storage/issueops/create.go and the insertion of helpers.go: creating one issue.
pub mod Persist
pub mod Batch
pub mod Inserted
pub mod Consistent
use bd.Prelude.{
  ℕ, ◌+◌, Bool, true, false, ◌&&◌, ◌||◌, not, Option, none, some, List, [], ◌∷◌, ◌++◌, map, any,
  eqb, ltb, if◌then◌else◌,
}
use bd.Prelude.Int.{ℤ}
use bd.Prelude.Text.{Text, codes, ◌==◌, has_prefix, split, trim_space}
use bd.Types.Status.{status_closed}
use bd.Types.DependencyType.{Dependency}
use bd.Types.Issue.{Issue, ValidationError, validate_with_custom, is_set}
use bd.Storage.Tables.{
  Tables, IssueTable, issues_table, wisps_table, EventTable, events_table, wisp_events_table,
  issue_rows, set_issue_rows, record_event, update_rows,
}
use bd.Storage.Store.{Store, LabelRow, CommentRow}
use bd.Storage.Config.{BatchContext, OrphanHandling, orphan_strict, orphan_skip, is_counter_mode}
use bd.Storage.Numbering.{parse_child_id, next_counter_id}
use bd.Ids.Hash.{HashInput, generate_issue_id}

pub data CreationError : Type 0 where
  invalid_metadata not_initialized ids_exhausted counter_lost foreign_key : CreationError
  invalid : ValidationError → CreationError
  prefix_mismatch parent_missing : Text → CreationError

pub data Result (A : Type 0) : Type 0 where
  ok : A → Result A
  err : CreationError → Result A

-- A comment of a new issue; the instant 0 is the zero time.
pub record NewComment : Type 0 where
  pub author : Text
  pub text : Text
  pub created_at : ℕ

-- The fields of an issue that its creation reads and that its row does not hold, beside the row.
pub record NewIssue : Type 0 where
  pub issue : Issue
  pub id_prefix : Text
  pub prefix_override : Text
  pub comments : List NewComment
  pub dependencies : List Dependency

-- What the code calls of other packages: json.Valid, sha256.Sum256, the formats %d, Sscanf with %d,
-- strconv.Atoi; and ValidateMetadataIfConfigured (Storage/Metadata) for the schema that is configured,
-- and GetAdaptiveIDLengthTx, which computes in floating point.
pub record External : Type 0 where
  pub json_valid : Text → Bool
  pub sha256 : Text → Text
  pub show : ℕ → Text
  pub scan_int : Text → Option ℤ
  pub atoi : Text → Option ℤ
  pub metadata_passes : Text → Bool
  pub base_length : Store → IssueTable → Text → ℕ

-- IsWisp
unfoldable pub is_wisp : Issue → Bool
is_wisp i = i.ephemeral || i.no_history

-- TableRouting
unfoldable pub table_routing : Issue → IssueTable × EventTable
unfolding is_wisp
table_routing i =
    if is_wisp i then (wisps_table, wisp_events_table) else (issues_table, events_table)

-- time.Second, in nanoseconds
abbrev pub second : ℕ
second = 1000000000

unfoldable pub normalize_times : ℕ → Issue → Issue
normalize_times now i = record i {
  created_at = if eqb i.created_at 0 then now else i.created_at;
  updated_at = if eqb i.updated_at 0 then now else i.updated_at;
}

-- The closing timestamp that a closed issue without one gets.
unfoldable pub ensure_closed_at : Issue → Issue
ensure_closed_at i =
    let max_time = if ltb i.created_at i.updated_at then i.updated_at else i.created_at in
    if i.status == status_closed && not (is_set i.closed_at)
    then record i { closed_at = some (max_time + second) }
    else i

-- PrepareIssueForInsert, without the content hash.
unfoldable pub prepare_issue : External → BatchContext → ℕ → Issue → Result Issue
prepare_issue ext bc now i =
    let prepared = ensure_closed_at (normalize_times now i) in
    if not (ext.metadata_passes i.metadata)
    then err invalid_metadata
    else (elim (validate_with_custom ext.json_valid prepared bc.custom_statuses bc.custom_types) [
      | some e ↦ err (invalid e)
      | none ↦ ok prepared
    ])

abbrev pub allowed_by : Text → Text → Bool
allowed_by id allowed = not (allowed == []) && has_prefix id (allowed ++ codes "-")

-- ValidateIssueIDPrefix
unfoldable pub validate_issue_id_prefix : Text → Text → Text → Bool
validate_issue_id_prefix id prefix allowed_prefixes =
    has_prefix id (prefix ++ codes "-")
    || (not (allowed_prefixes == [])
        && any (λ allowed. allowed_by id (trim_space allowed)) (split b',' allowed_prefixes))

-- The prefix of a generated identifier.
unfoldable pub resolve_prefix : BatchContext → NewIssue → Text
unfolding is_wisp
resolve_prefix bc n =
    if not (n.prefix_override == [])
    then n.prefix_override
    else if not (n.id_prefix == [])
    then bc.config_prefix ++ (b'-' ∷ n.id_prefix)
    else if is_wisp n.issue
    then bc.config_prefix ++ codes "-wisp"
    else bc.config_prefix

abbrev pub hash_input : External → Issue → Text → HashInput
hash_input ext i actor = record {
  title = i.title;
  description = i.description;
  creator = actor;
  unix_nano = ext.show i.created_at;
}

abbrev pub is_issues : IssueTable → Bool
is_issues issues_table = true
is_issues wisps_table = false

-- GenerateIssueIDInTable
unfoldable pub generate_id_in_table :
    External → Store → IssueTable → Text → Issue → Text → Result (Text × Store)
generate_id_in_table ext st table prefix i actor =
    if is_issues table && is_counter_mode st
    then (elim (next_counter_id ext.atoi ext.show st prefix) [
      | none ↦ err counter_lost
      | some r ↦ ok r
    ])
    else (elim (generate_issue_id ext.sha256 ext.show (map (λ j. j.id) (issue_rows st.tables table))
        prefix (hash_input ext i actor) (ext.base_length st table prefix)) [
          | none ↦ err ids_exhausted
          | some id ↦ ok (id, st)
        ])

-- The identifier of the issue, given or generated.
unfoldable pub resolve_id :
    External → BatchContext → Store → NewIssue → Text → Result (Text × Store)
unfolding table_routing
resolve_id ext bc st n actor =
    if n.issue.id == []
    then generate_id_in_table ext st (table_routing n.issue).0 (resolve_prefix bc n) n.issue actor
    else if not bc.opts.skip_prefix_validation
        && not (validate_issue_id_prefix n.issue.id bc.config_prefix bc.allowed_prefixes)
    then err (prefix_mismatch n.issue.id)
    else ok (n.issue.id, st)

-- CheckOrphan: `ok true` skips the issue.
unfoldable pub check_orphan : External → List Issue → Text → OrphanHandling → Result Bool
check_orphan ext rows id handling =
    if id == [] then ok false else (elim (parse_child_id ext.scan_int id) [
      | none ↦ ok false
      | some (parent, n) ↦
          if any (λ i. i.id == parent) rows
          then ok false
          else if handling == orphan_strict
          then err (parent_missing parent)
          else if handling == orphan_skip
          then ok true
          else ok false
    ])

-- JSONMetadata
unfoldable pub json_metadata : External → Text → Text
json_metadata ext m = if m == [] then codes "{}" else if ext.json_valid m then m else codes "{}"

-- The row that the INSERT writes. Labels have their own table; closed_by_session and bonded_from are
-- no columns of the INSERT.
abbrev pub row_of : External → Issue → Issue
row_of ext i = record i {
  closed_by_session = [];
  labels = [];
  bonded_from = [];
  metadata = json_metadata ext i.metadata;
}

-- ON DUPLICATE KEY UPDATE
abbrev pub merge_row : External → Issue → Issue → Issue
merge_row ext i old = record old {
  title = i.title;
  description = i.description;
  design = i.design;
  acceptance_criteria = i.acceptance_criteria;
  notes = i.notes;
  status = i.status;
  priority = i.priority;
  issue_type = i.issue_type;
  assignee = i.assignee;
  estimated_minutes = i.estimated_minutes;
  updated_at = i.updated_at;
  closed_at = i.closed_at;
  external_ref = i.external_ref;
  source_repo = i.source_repo;
  close_reason = i.close_reason;
  metadata = json_metadata ext i.metadata;
}

-- InsertIssueIntoTable
unfoldable pub insert_issue : External → Issue → List Issue → List Issue
insert_issue ext i rows =
    if any (λ j. j.id == i.id) rows
    then update_rows (merge_row ext i) i.id rows
    else rows ++ (row_of ext i ∷ [])

-- The second result of InsertIssueIfNew.
unfoldable pub is_new : Issue → List Issue → Bool
is_new i rows = i.id == [] || not (any (λ j. j.id == i.id) rows)
