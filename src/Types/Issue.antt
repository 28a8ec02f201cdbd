-- ===== src/Types/Issue.antt =====
-- internal/types/types.go: the issue record and its validation.
pub mod Valid
use bd.Prelude.{
  ℕ, Bool, true, false, ◌&&◌, ◌||◌, not, Option, none, some, List, [], eqb, ltb, length,
  if◌then◌else◌,
}
use bd.Prelude.Int.{ℤ, pos, ltb_ℤ}
use bd.Prelude.Text.{Text, ◌==◌}
use bd.Types.Status
use bd.Types.Status.{Status, status_open, status_closed}
use bd.Types.IssueType
use bd.Types.IssueType.{IssueType, type_task}

-- BondRef
pub record BondRef : Type 0 where
  pub source_id : Text
  pub bond_type : Text
  pub bond_point : Text

-- Issue. Instants are numbers; a nil pointer is `none`.
pub record Issue : Type 0 where
  pub id : Text
  pub title : Text
  pub description : Text
  pub design : Text
  pub acceptance_criteria : Text
  pub notes : Text
  pub spec_id : Text
  pub status : Status
  pub priority : ℤ
  pub issue_type : IssueType
  pub assignee : Text
  pub owner : Text
  pub estimated_minutes : Option ℤ
  pub created_at : ℕ
  pub created_by : Text
  pub updated_at : ℕ
  pub closed_at : Option ℕ
  pub close_reason : Text
  pub closed_by_session : Text
  pub due_at : Option ℕ
  pub defer_until : Option ℕ
  pub external_ref : Option Text
  pub source_system : Text
  pub metadata : Text
  pub compaction_level : ℕ
  pub source_repo : Text
  pub labels : List Text
  pub sender : Text
  pub ephemeral : Bool
  pub no_history : Bool
  pub wisp_type : Text
  pub pinned : Bool
  pub is_template : Bool
  pub bonded_from : List BondRef
  pub await_type : Text
  pub await_id : Text
  pub timeout : ℕ
  pub waiters : List Text
  pub mol_type : Text
  pub work_type : Text
  pub event_kind : Text
  pub actor : Text
  pub target : Text
  pub payload : Text

-- The errors of the validation, in the order of the checks.
pub data ValidationError : Type 0 where
  title_required title_too_long priority_range invalid_status invalid_type : ValidationError
  negative_estimate closed_without_timestamp timestamp_without_closed : ValidationError
  bad_metadata ephemeral_and_no_history : ValidationError

-- `nil` is `none`.
abbrev pub Verdict : Type 0
Verdict = Option ValidationError

abbrev pub negative : Option ℤ → Bool
negative none = false
negative (some m) = ltb_ℤ m (pos 0)

abbrev pub is_set : Option ℕ → Bool
is_set none = false
is_set (some t) = true

-- `json.Valid` of encoding/json, on the bytes of the metadata.
module _ (json_valid : Text → Bool) where
  -- Issue.ValidateWithCustom
  unfoldable pub validate_with_custom : Issue → List Text → List Text → Verdict
  validate_with_custom i custom_statuses custom_types =
      if eqb (length i.title) 0
      then some title_required
      else if ltb 500 (length i.title)
      then some title_too_long
      else if ltb_ℤ i.priority (pos 0) || ltb_ℤ (pos 4) i.priority
      then some priority_range
      else if not (Status.is_valid_with_custom i.status custom_statuses)
      then some invalid_status
      else if not (IssueType.is_valid_with_custom i.issue_type custom_types)
      then some invalid_type
      else if negative i.estimated_minutes
      then some negative_estimate
      else if i.status == status_closed && not (is_set i.closed_at)
      then some closed_without_timestamp
      else if not (i.status == status_closed) && is_set i.closed_at
      then some timestamp_without_closed
      else if ltb 0 (length i.metadata) && not (json_valid i.metadata)
      then some bad_metadata
      else if i.ephemeral && i.no_history
      then some ephemeral_and_no_history
      else none

  -- Issue.ValidateForImport. The branches on the issue type are empty in the source.
  unfoldable pub validate_for_import : Issue → List Text → Verdict
  validate_for_import i custom_statuses =
      if eqb (length i.title) 0
      then some title_required
      else if ltb 500 (length i.title)
      then some title_too_long
      else if ltb_ℤ i.priority (pos 0) || ltb_ℤ (pos 4) i.priority
      then some priority_range
      else if not (Status.is_valid_with_custom i.status custom_statuses)
      then some invalid_status
      else if negative i.estimated_minutes
      then some negative_estimate
      else if i.status == status_closed && not (is_set i.closed_at)
      then some closed_without_timestamp
      else if not (i.status == status_closed) && is_set i.closed_at
      then some timestamp_without_closed
      else if ltb 0 (length i.metadata) && not (json_valid i.metadata)
      then some bad_metadata
      else none

  -- Issue.Validate
  unfoldable pub validate : Issue → Verdict
  unfolding validate_with_custom
  validate i = validate_with_custom i [] []

-- Issue.SetDefaults
unfoldable pub set_defaults : Issue → Issue
set_defaults i = record i {
  status = if i.status == [] then status_open else i.status;
  issue_type = if i.issue_type == [] then type_task else i.issue_type;
}
