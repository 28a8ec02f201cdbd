-- ===== src/Storage/Lifecycle/Closing.antt =====
-- internal/storage/issueops/close.go, CloseIssueInTx.
use bd.Prelude.{ℕ, none, some, [], if◌then◌else◌, any}
use bd.Prelude.Text.{Text, ◌==◌}
use bd.Types.Status.{status_closed}
use bd.Types.Issue.{Issue}
use bd.Storage.Tables.{
  Tables, is_active_wisp, wisp_table_routing, issue_rows, set_issue_rows, record_event, update_rows,
}
use bd.Storage.Lifecycle.{issue_not_found, Result, ok, err, event_closed}

-- The row that the UPDATE of a close writes.
abbrev pub closed_row : Text → Text → ℕ → Issue → Issue
closed_row reason session now i = record i {
  status = status_closed;
  closed_at = some now;
  updated_at = now;
  close_reason = reason;
  closed_by_session = session;
}

-- CloseIssueInTx
unfoldable pub close_issue : Tables → Text → Text → Text → Text → ℕ → Result Tables
close_issue db id reason actor session now =
    let routing = wisp_table_routing (is_active_wisp db id) in
    let rows = issue_rows db routing.issue_table in
    if any (λ i. i.id == id) rows
    then ok (
        record_event
          (set_issue_rows db routing.issue_table
            (update_rows (closed_row reason session now) id rows))
          routing.event_table
          (record {
            issue_id = id;
            event_type = event_closed;
            actor = actor;
            old_value = [];
            new_value = reason;
            comment = none;
          }))
    else err issue_not_found
