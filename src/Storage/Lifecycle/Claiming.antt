-- ===== src/Storage/Lifecycle/Claiming.antt =====
-- internal/storage/issueops/claim.go, ClaimIssueInTx.
use bd.Prelude.{ℕ, Bool, ◌&&◌, none, some, [], ◌∷◌, if◌then◌else◌, any}
use bd.Prelude.Text.{Text, codes, ◌==◌}
use bd.Types.Status.{status_in_progress}
use bd.Types.Issue.{Issue}
use bd.Storage.Tables.{
  Tables, is_active_wisp, wisp_table_routing, issue_rows, set_issue_rows, get_issue, record_event,
  update_rows,
}
use bd.Storage.Lifecycle.{issue_not_found, already_claimed, Result, ok, err, assignee, Updates}

-- The map of updates that the event of a claim holds.
abbrev pub claim_updates : Text → Updates
claim_updates actor = record {
  status = some status_in_progress;
  pinned = none;
  closed_at = none;
  fields = assignee actor ∷ [];
}

-- The row that the conditional UPDATE of a claim writes.
abbrev pub claimed : Text → ℕ → Issue → Issue
claimed actor now i =
    if i.assignee == []
    then record i { assignee = actor; status = status_in_progress; updated_at = now }
    else i

-- `json.Valid` of encoding/json, and `json.Marshal` of an issue and of a map of updates.
module _ (json_valid : Text → Bool) (marshal_issue : Issue → Text)
    (marshal_updates : Updates → Text) where
  -- ClaimIssueInTx. A row without an assignee holds "".
  unfoldable pub claim_issue : Tables → Text → Text → ℕ → Result Tables
  claim_issue db id actor now =
      let routing = wisp_table_routing (is_active_wisp db id) in
      let rows = issue_rows db routing.issue_table in
      elim (get_issue db id) [
        | none ↦ err issue_not_found
        | some old ↦
            if any (λ i. i.id == id && i.assignee == []) rows
            then ok (
                record_event
                  (set_issue_rows db routing.issue_table (update_rows (claimed actor now) id rows))
                  routing.event_table
                  (record {
                    issue_id = id;
                    event_type = codes "claimed";
                    actor = actor;
                    old_value = marshal_issue old;
                    new_value = marshal_updates (claim_updates actor);
                    comment = none;
                  }))
            else if old.assignee == actor
            then ok db
            else err (already_claimed old.assignee)
      ]
