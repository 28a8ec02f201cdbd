-- ===== src/Storage/Lifecycle.antt =====
-- internal/storage/issueops/update.go: what changes an issue after its creation. A map of updates has each key once: the keys that the code reads by name are fields
-- here, and the others a list in the order of the iteration.
pub mod Claiming
pub mod Closing
pub mod Rows
pub mod After
pub mod Stamps
pub mod Consistent
pub mod Claims
use bd.Prelude.{
  ℕ, Bool, true, false, ◌&&◌, ◌||◌, not, Option, none, some, List, [], ◌∷◌, if◌then◌else◌, find?,
  any, map,
}
use bd.Prelude.Int.{ℤ}
use bd.Prelude.Text.{Text, codes, ◌==◌}
use bd.Types.Status.{Status, status_closed, status_pinned, status_in_progress}
use bd.Types.IssueType.{IssueType}
use bd.Types.Issue.{Issue}
use bd.Storage.Tables.{
  Tables, Routing, IssueTable, EventTable, EventRow, is_active_wisp, wisp_table_routing, issue_rows,
  set_issue_rows, select_issue, get_issue, record_event, update_rows,
}

pub data LifecycleError : Type 0 where
  issue_not_found invalid_field invalid_metadata : LifecycleError
  already_claimed : Text → LifecycleError

pub data Result (A : Type 0) : Type 0 where
  ok : A → Result A
  err : LifecycleError → Result A

-- An entry of the map of updates under a key that the code does not read by name.
pub data FieldUpdate : Type 0 where
  priority : ℤ → FieldUpdate
  title description design acceptance_criteria notes assignee : Text → FieldUpdate
  issue_type : IssueType → FieldUpdate
  estimated_minutes : Option ℤ → FieldUpdate
  external_ref : Option Text → FieldUpdate
  spec_id close_reason closed_by_session source_repo sender wisp_type mol_type : Text → FieldUpdate
  wisp no_history : Bool → FieldUpdate
  due_at defer_until : Option ℕ → FieldUpdate
  await_id : Text → FieldUpdate
  waiters : List Text → FieldUpdate
  metadata : Text → FieldUpdate
  unknown : Text → FieldUpdate

pub record Updates : Type 0 where
  pub status : Option Status
  pub pinned : Option Bool
  pub closed_at : Option (Option ℕ)
  pub fields : List FieldUpdate

-- IsAllowedUpdateField. The keys of the event columns are not modelled.
unfoldable pub is_allowed_update_field : FieldUpdate → Bool
is_allowed_update_field (unknown key) = false
is_allowed_update_field _ = true

-- One SET clause.
unfoldable pub set_field : FieldUpdate → Issue → Issue
set_field (priority n) i = record i { priority = n }
set_field (title s) i = record i { title = s }
set_field (description s) i = record i { description = s }
set_field (design s) i = record i { design = s }
set_field (acceptance_criteria s) i = record i { acceptance_criteria = s }
set_field (notes s) i = record i { notes = s }
set_field (assignee s) i = record i { assignee = s }
set_field (issue_type t) i = record i { issue_type = t }
set_field (estimated_minutes m) i = record i { estimated_minutes = m }
set_field (external_ref r) i = record i { external_ref = r }
set_field (spec_id s) i = record i { spec_id = s }
set_field (close_reason s) i = record i { close_reason = s }
set_field (closed_by_session s) i = record i { closed_by_session = s }
set_field (source_repo s) i = record i { source_repo = s }
set_field (sender s) i = record i { sender = s }
set_field (wisp_type s) i = record i { wisp_type = s }
set_field (mol_type s) i = record i { mol_type = s }
set_field (wisp b) i = record i { ephemeral = b }
set_field (no_history b) i = record i { no_history = b }
set_field (due_at t) i = record i { due_at = t }
set_field (defer_until t) i = record i { defer_until = t }
set_field (await_id s) i = record i { await_id = s }
set_field (waiters w) i = record i { waiters = w }
set_field (metadata s) i = record i { metadata = s }
set_field (unknown key) i = i

unfoldable pub set_fields : List FieldUpdate → Issue → Issue
set_fields [] i = i
set_fields (u ∷ us) i = set_fields us (set_field u i)

unfoldable pub set_status : Option Status → Issue → Issue
set_status none i = i
set_status (some s) i = record i { status = s }

unfoldable pub set_closed_at : Option (Option ℕ) → Issue → Issue
set_closed_at none i = i
set_closed_at (some t) i = record i { closed_at = t }

-- The SET clause of the key `pinned`, or the one that clears the flag when the status moves away
-- from "pinned".
unfoldable pub set_pinned : Issue → Updates → Issue → Issue
set_pinned old u i = elim u.pinned [
  | some b ↦ record i { pinned = b }
  | none ↦ elim u.status [
    | none ↦ i
    | some s ↦ if old.pinned && not (s == status_pinned) then record i { pinned = false } else i
  ]
]

-- ManageClosedAt: the clauses that it appends, which come last.
unfoldable pub manage_closed_at : Issue → Updates → ℕ → Issue → Issue
manage_closed_at old u now i = elim u.closed_at [
  | some t ↦ i
  | none ↦ elim u.status [
    | none ↦ i
    | some s ↦
        if s == status_closed
        then record i { closed_at = some now }
        else if old.status == status_closed
        then record i { closed_at = none; close_reason = [] }
        else i
  ]
]

abbrev pub event_updated : Text
event_updated = codes "updated"

abbrev pub event_status_changed : Text
event_status_changed = codes "status_changed"

abbrev pub event_closed : Text
event_closed = codes "closed"

abbrev pub event_reopened : Text
event_reopened = codes "reopened"

-- DetermineEventType
unfoldable pub determine_event_type : Issue → Updates → Text
determine_event_type old u = elim u.status [
  | none ↦ event_updated
  | some s ↦
      if s == status_closed
      then event_closed
      else if old.status == status_closed
      then event_reopened
      else event_status_changed
]

-- All SET clauses of UpdateIssueInTx, on one row.
unfoldable pub apply_updates : Issue → Updates → ℕ → Issue → Issue
apply_updates old u now i = manage_closed_at old u now (
    set_pinned old u (
      set_closed_at u.closed_at
        (set_status u.status (set_fields u.fields (record i { updated_at = now })))))

-- `json.Valid` of encoding/json, and `json.Marshal` of an issue and of a map of updates.
module _ (json_valid : Text → Bool) (marshal_issue : Issue → Text)
    (marshal_updates : Updates → Text) where
  -- NormalizeMetadataValue, on a text.
  unfoldable pub check_metadata : FieldUpdate → Option LifecycleError
  check_metadata (metadata s) = if json_valid s then none else some invalid_metadata
  check_metadata _ = none

  -- The loop over the updates: the first bad entry stops it.
  unfoldable pub check_fields : List FieldUpdate → Option LifecycleError
  check_fields [] = none
  check_fields (u ∷ us) =
      if is_allowed_update_field u
      then (elim (check_metadata u) [ some e ↦ some e | none ↦ check_fields us ])
      else some invalid_field

  -- UpdateIssueInTx
  unfoldable pub update_issue : Tables → Text → Updates → Text → ℕ → Result Tables
  update_issue db id updates actor now =
      let routing = wisp_table_routing (is_active_wisp db id) in
      elim (get_issue db id) [
        | none ↦ err issue_not_found
        | some old ↦ elim (check_fields updates.fields) [
          | some e ↦ err e
          | none ↦ ok (
              record_event
                (set_issue_rows db routing.issue_table (
                  update_rows (apply_updates old updates now) id
                    (issue_rows db routing.issue_table)))
                routing.event_table
                (record {
                  issue_id = id;
                  event_type = determine_event_type old updates;
                  actor = actor;
                  old_value = marshal_issue old;
                  new_value = marshal_updates updates;
                  comment = none;
                }))
        ]
      ]
