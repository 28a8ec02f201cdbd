-- ===== src/Storage/Lifecycle/Consistent.antt =====
-- internal/storage/issueops/update.go, claim.go and close.go: the closed_at invariant and the primary
-- key, for whole tables.
use bd.Prelude.{
  ℕ, ◌≡◌, refl, sym, ◌∙◌, Bool, subst, false, Bool-cases, inl, inr, List, [], none, some, In, arith,
}
use bd.Prelude.Text.{Text, ◌==◌, eq_refl}
use bd.Types.Status.{status_closed, status_in_progress}
use bd.Types.Issue.{Issue}
use bd.Storage.Tables.{
  Tables, IssueTable, issues_table, wisps_table, EventTable, events_table, wisp_events_table,
  EventRow, is_active_wisp, wisp_table_routing, issue_rows, set_issue_rows, get_issue, record_event,
  update_rows,
}
use bd.Storage.Lifecycle.{Updates, apply_updates, update_issue, ok}
use bd.Storage.Lifecycle.Closing.{closed_row, close_issue}
use bd.Storage.Lifecycle.Claiming.{claimed, claim_issue}
use bd.Storage.Lifecycle.Rows.{
  EachRow, HasKeys, select_issue_found, EachRow-update_rows, HasKeys-update_rows,
}
use bd.Storage.Lifecycle.After.{after, update_issue-after, claim_issue-after, close_issue-after}
use bd.Storage.Lifecycle.Stamps.{IsStamped, apply_updates-id, apply_updates-IsStamped}

-- Every row is stamped, and the ids are keys, in both tables.
pub record IsConsistent (db : Tables) : Type 0 where
  pub issues_stamped : EachRow IsStamped db.issues
  pub wisps_stamped : EachRow IsStamped db.wisps
  pub issues_keyed : HasKeys db.issues
  pub wisps_keyed : HasKeys db.wisps

pub record_event-IsConsistent :
    (db : Tables) (log : EventTable) (e : EventRow)
    → IsConsistent db
    → IsConsistent (record_event db log e)
record_event-IsConsistent db events_table e c = record {
  issues_stamped = c.issues_stamped;
  wisps_stamped = c.wisps_stamped;
  issues_keyed = c.issues_keyed;
  wisps_keyed = c.wisps_keyed;
}
record_event-IsConsistent db wisp_events_table e c = record {
  issues_stamped = c.issues_stamped;
  wisps_stamped = c.wisps_stamped;
  issues_keyed = c.issues_keyed;
  wisps_keyed = c.wisps_keyed;
}

pub rows-IsStamped :
    (db : Tables) (table : IssueTable) → IsConsistent db → EachRow IsStamped (issue_rows db table)
rows-IsStamped db issues_table c = c.issues_stamped
rows-IsStamped db wisps_table c = c.wisps_stamped

pub rows_keyed :
    (db : Tables) (table : IssueTable) → IsConsistent db → HasKeys (issue_rows db table)
rows_keyed db issues_table c = c.issues_keyed
rows_keyed db wisps_table c = c.wisps_keyed

pub set_issue_rows-IsConsistent :
    (db : Tables) (table : IssueTable) (rows : List Issue)
    → IsConsistent db
    → EachRow IsStamped rows
    → HasKeys rows
    → IsConsistent (set_issue_rows db table rows)
set_issue_rows-IsConsistent db issues_table rows c stamped keyed = record {
  issues_stamped = stamped;
  wisps_stamped = c.wisps_stamped;
  issues_keyed = keyed;
  wisps_keyed = c.wisps_keyed;
}
set_issue_rows-IsConsistent db wisps_table rows c stamped keyed = record {
  issues_stamped = c.issues_stamped;
  wisps_stamped = stamped;
  issues_keyed = c.issues_keyed;
  wisps_keyed = keyed;
}

-- An UPDATE of one id in one table, with the event, keeps the tables consistent.
pub update_rows-IsConsistent :
    (db : Tables) (table : IssueTable) (log : EventTable) (e : EventRow) (f : Issue → Issue)
    (id : Text)
    → ((i : Issue) → (f i).id ≡ i.id)
    → ((i : Issue) → In i (issue_rows db table) → i.id ≡ id → IsStamped (f i))
    → IsConsistent db
    → IsConsistent
        (record_event (set_issue_rows db table (update_rows f id (issue_rows db table))) log e)
update_rows-IsConsistent db table log e f id kept changed c =
    let rows = issue_rows db table in
    record_event-IsConsistent (set_issue_rows db table (update_rows f id rows)) log e (
      set_issue_rows-IsConsistent db table (update_rows f id rows) c
        (EachRow-update_rows IsStamped f id rows (rows-IsStamped db table c) changed)
        (HasKeys-update_rows f id rows kept (rows_keyed db table c)))

-- The row that `get_issue` returns is the only one of its id in the routed table.
pub get_issue_only :
    (db : Tables) (id : Text) (old : Issue)
    → IsConsistent db
    → get_issue db id ≡ some old
    → (i : Issue) → In i (issue_rows db (wisp_table_routing (is_active_wisp db id)).issue_table)
    → i.id ≡ id
    → i ≡ old
unfolding get_issue
get_issue_only db id old c h i m e =
    let table = (wisp_table_routing (is_active_wisp db id)).issue_table in
    let (n, q) = select_issue_found (issue_rows db table) id old h in
    rows_keyed db table c i old m n (e ∙ sym q)

get_issue-IsStamped :
    (db : Tables) (id : Text) (old : Issue)
    → IsConsistent db
    → get_issue db id ≡ some old
    → IsStamped old
unfolding get_issue
get_issue-IsStamped db id old c h =
    let table = (wisp_table_routing (is_active_wisp db id)).issue_table in
    rows-IsStamped db table c old (select_issue_found (issue_rows db table) id old h).0

-- A change of the row that `get_issue` returns.
after-IsConsistent :
    (db : Tables) (id : Text) (old : Issue) (f : Issue → Issue) (e : EventRow) {db' : Tables}
    → ((i : Issue) → (f i).id ≡ i.id)
    → (IsStamped old → IsStamped (f old))
    → get_issue db id ≡ some old
    → IsConsistent db
    → db' ≡ after db id f e
    → IsConsistent db'
after-IsConsistent db id old f e kept changed found c same =
    let routing = wisp_table_routing (is_active_wisp db id) in
    subst IsConsistent (sym same) (
      update_rows-IsConsistent db routing.issue_table routing.event_table e f id kept
        (λ i m q.
          subst (λ x. IsStamped (f x)) (sym (get_issue_only db id old c found i m q))
            (changed (get_issue-IsStamped db id old c found)))
        c)

pub claimed-id : (actor : Text) (now : ℕ) (i : Issue) → (claimed actor now i).id ≡ i.id
claimed-id actor now i = ground arith

pub in_progress-ne-closed : (status_in_progress == status_closed) ≡ false
unfolding ◌==◌
in_progress-ne-closed = refl

claimed-IsStamped :
    (actor : Text) (now : ℕ) (i : Issue)
    → (i.status == status_closed) ≡ false
    → IsStamped i
    → IsStamped (claimed actor now i)
claimed-IsStamped actor now i alive s = elim (Bool-cases (i.assignee == [])) [
  | inl free ↦ rw free (in_progress-ne-closed ∙ sym alive ∙ s)
  | inr taken ↦ rw taken s
]

module _ (json_valid : Text → Bool) (marshal_issue : Issue → Text)
    (marshal_updates : Updates → Text) where
  -- A successful UpdateIssueInTx keeps the tables consistent, if the updates do not name closed_at:
  -- in both tables the id stays a key, and closed_at stays set exactly where the status is "closed".
  pub update_issue-IsConsistent :
      (db : Tables) (id : Text) (u : Updates) (actor : Text) (now : ℕ) {db' : Tables}
      → u.closed_at ≡ none
      → IsConsistent db
      → update_issue json_valid marshal_issue marshal_updates db id u actor now ≡ ok db'
      → IsConsistent db'
  update_issue-IsConsistent db id u actor now {db'} auto c h =
      let (old, found, e, same) =
        update_issue-after json_valid marshal_issue marshal_updates db id u actor now h in
      after-IsConsistent db id old (apply_updates old u now) e (apply_updates-id old u now)
        (apply_updates-IsStamped old u now auto) found c same

  -- A successful ClaimIssueInTx of an issue that is not closed keeps the tables consistent.
  pub claim_issue-IsConsistent :
      (db : Tables) (id actor : Text) (now : ℕ) (old : Issue) {db' : Tables}
      → get_issue db id ≡ some old
      → (old.status == status_closed) ≡ false
      → IsConsistent db
      → claim_issue json_valid marshal_issue marshal_updates db id actor now ≡ ok db'
      → IsConsistent db'
  claim_issue-IsConsistent db id actor now old {db'} found alive c h =
      elim (claim_issue-after json_valid marshal_issue marshal_updates db id actor now old found
        h) [
          | inl (same, mine) ↦ subst IsConsistent (sym same) c
          | inr (e, same) ↦
              after-IsConsistent db id old (claimed actor now) e (claimed-id actor now)
                (claimed-IsStamped actor now old alive) found c same
        ]

-- A successful CloseIssueInTx keeps the tables consistent.
pub close_issue-IsConsistent :
    (db : Tables) (id reason actor session : Text) (now : ℕ) {db' : Tables}
    → IsConsistent db
    → close_issue db id reason actor session now ≡ ok db'
    → IsConsistent db'
close_issue-IsConsistent db id reason actor session now {db'} c h =
    let routing = wisp_table_routing (is_active_wisp db id) in
    let (e, same) = close_issue-after db id reason actor session now h in
    subst IsConsistent (sym same) (
      update_rows-IsConsistent db routing.issue_table routing.event_table e
        (closed_row reason session now) id (λ i. refl) (λ i m q. eq_refl status_closed) c)
