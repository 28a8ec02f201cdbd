-- ===== src/Tests/Lifecycle.antt =====
-- Updates, claims and closes on a table of one issue.
use bd.Prelude.{◌≡◌, refl, sym, ◌∙◌, subst, Bool, true, none, some, inl, inr, [], ◌∷◌, In}
use bd.Prelude.Text.{Text, codes, ◌==◌, ne_of_test}
use bd.Types.Status.{status_closed}
use bd.Types.Issue.{Issue}
use bd.Storage.Tables.{Tables, is_active_wisp, wisp_table_routing, get_issue}
use bd.Storage.Lifecycle.{
  Updates, title, update_issue, apply_updates, set_fields, set_field, set_status, set_closed_at,
  set_pinned, manage_closed_at, determine_event_type, is_allowed_update_field, check_fields,
  check_metadata, Result, ok, err, already_claimed,
}
use bd.Storage.Lifecycle.Closing.{close_issue}
use bd.Storage.Lifecycle.Claiming.{claim_issue, claimed}
use bd.Storage.Lifecycle.Stamps.{IsStamped}
use bd.Storage.Lifecycle.Consistent.{
  IsConsistent, update_issue-IsConsistent, claim_issue-IsConsistent, close_issue-IsConsistent,
}
use bd.Storage.Lifecycle.Claims.{claim_issue_exclusive, claim_issue_closed}
use bd.Tests.Samples.{task, a, me, tables}

program : Unit {0}
unfolding ◌==◌ is_active_wisp wisp_table_routing get_issue update_issue claim_issue close_issue
    apply_updates set_fields set_field set_status set_closed_at set_pinned manage_closed_at
    determine_event_type is_allowed_update_field check_fields check_metadata
program = tt

pub one_row : (x : Issue) → IsStamped x → IsConsistent (tables (x ∷ []) [])
one_row x s = record {
  issues_stamped = λ i m. subst IsStamped (sym (only x i m)) s;
  wisps_stamped = λ i m. absurd m;
  issues_keyed = λ i j mi mj e. only x i mi ∙ sym (only x j mj);
  wisps_keyed = λ i j mi mj e. absurd mi;
}
  where
    only : (x i : Issue) → In i (x ∷ []) → i ≡ x
    only x i (inl e) = e
    only x i (inr m) = absurd m

abbrev valid : Text → Bool
valid s = true

abbrev marshal_issue : Issue → Text
marshal_issue i = i.title

abbrev marshal_updates : Updates → Text
marshal_updates u = []

abbrev db : Tables
db = tables (task a ∷ []) []

abbrev you : Text
you = codes "bob"

pub task-IsStamped : IsStamped (task a)
unfolding ◌==◌
task-IsStamped = refl

abbrev to_closed : Updates
to_closed = record {
  status = some status_closed;
  pinned = none;
  closed_at = none;
  fields = title (codes "Done") ∷ [];
}

abbrev tables_of : Result Tables → Tables
tables_of (ok t) = t
tables_of (err e) = db

-- The tables after an update to "closed", a close and a claim.
abbrev updated : Tables
updated = tables_of (update_issue valid marshal_issue marshal_updates db a to_closed me 20)

abbrev closed_tables : Tables
closed_tables = tables_of (close_issue db a (codes "done") me [] 20)

abbrev claimed_tables : Tables
claimed_tables = tables_of (claim_issue valid marshal_issue marshal_updates db a me 20)

update_issue-IsConsistent_example : IsConsistent updated
unfolding program
update_issue-IsConsistent_example =
    update_issue-IsConsistent valid marshal_issue marshal_updates db a to_closed me 20 refl
      (one_row (task a) task-IsStamped) refl

close_issue-IsConsistent_example : IsConsistent closed_tables
unfolding program
close_issue-IsConsistent_example =
    close_issue-IsConsistent db a (codes "done") me [] 20 (one_row (task a) task-IsStamped) refl

claim_issue-IsConsistent_example : IsConsistent claimed_tables
unfolding program
claim_issue-IsConsistent_example =
    claim_issue-IsConsistent valid marshal_issue marshal_updates db a me 20 (task a) refl refl
      (one_row (task a) task-IsStamped) refl

claim_issue_exclusive_example :
    claim_issue valid marshal_issue marshal_updates claimed_tables a you 30
    ≡ err (already_claimed me)
unfolding program
claim_issue_exclusive_example =
    claim_issue_exclusive valid marshal_issue marshal_updates db a me you 20 30 (task a)
      (one_row (task a) task-IsStamped) refl refl (ne_of_test me [] refl) (ne_of_test me you refl)
      refl

abbrev mine : Issue
mine = claimed me 20 (task a)

mine_found : get_issue claimed_tables a ≡ some mine
unfolding program
mine_found = refl

abbrev shut : Issue
shut = record (task a) { status = status_closed; closed_at = some 15 }

shut-IsStamped : IsStamped shut
unfolding ◌==◌
shut-IsStamped = refl

claim_issue_closed_example :
    (db' : Tables) × (claim_issue valid marshal_issue marshal_updates
        (tables (shut ∷ []) [])
        a
        me
        20
      ≡ ok db')
    × (i : Issue) × (get_issue db' a ≡ some i)
    × ¬ IsStamped i
unfolding program
claim_issue_closed_example =
    claim_issue_closed valid marshal_issue marshal_updates (tables (shut ∷ []) []) a me 20 shut refl
      shut-IsStamped refl refl
