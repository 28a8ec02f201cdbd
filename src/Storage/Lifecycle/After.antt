-- ===== src/Storage/Lifecycle/After.antt =====
-- What the operations leave in the tables when they succeed, as one change of the rows of an id and
-- one event, and what `get_issue` then returns.
use bd.Prelude.{
  none, ℕ, ◌≡◌, ◌∙◌, refl, ap, Bool, ◌&&◌, ◌⊎◌, Bool-cases, Option-cases, some_inj, inl, inr, List,
  [], ◌∷◌, some, any, arith,
}
use bd.Prelude.Text.{Text, codes, ◌==◌, eq_iff}
use bd.Types.Issue.{Issue}
use bd.Storage.Tables.{
  Tables, IssueTable, issues_table, wisps_table, EventTable, events_table, wisp_events_table,
  EventRow, is_active_wisp, wisp_table_routing, issue_rows, set_issue_rows, select_issue, get_issue,
  record_event, update_rows,
}
use bd.Storage.Lifecycle.{
  Updates, apply_updates, update_issue, determine_event_type, event_closed, ok,
}
use bd.Storage.Lifecycle.Closing.{closed_row, close_issue}
use bd.Storage.Lifecycle.Claiming.{claimed, claim_issue, claim_updates}

-- The row that an update of one issue logs, and the tables that it leaves.
abbrev pub after : Tables → Text → (Issue → Issue) → EventRow → Tables
after db id f e =
    let routing = wisp_table_routing (is_active_wisp db id) in
    record_event
      (set_issue_rows db routing.issue_table (update_rows f id (issue_rows db routing.issue_table)))
      routing.event_table e

module _ (json_valid : Text → Bool) (marshal_issue : Issue → Text)
    (marshal_updates : Updates → Text) where
  pub update_issue-after :
      (db : Tables) (id : Text) (u : Updates) (actor : Text) (now : ℕ) {db' : Tables}
      → update_issue json_valid marshal_issue marshal_updates db id u actor now ≡ ok db'
      → (old : Issue) × (get_issue db id ≡ some old)
        × (e : EventRow) × (db' ≡ after db id (apply_updates old u now) e)
  unfolding update_issue
  update_issue-after db id u actor now {db'} h = elim (Option-cases (get_issue db id)) [
    | inl missing ↦ ground arith
    | inr (old, found) ↦ (
      old,
      found,
      record {
        issue_id = id;
        event_type = determine_event_type old u;
        actor = actor;
        old_value = marshal_issue old;
        new_value = marshal_updates u;
        comment = none;
      },
      ground arith,
    )
  ]

  -- A claim changes nothing for the assignee itself, or it writes the claimed row.
  pub claim_issue-after :
      (db : Tables) (id actor : Text) (now : ℕ) (old : Issue) {db' : Tables}
      → get_issue db id ≡ some old
      → claim_issue json_valid marshal_issue marshal_updates db id actor now ≡ ok db'
      → (db' ≡ db) × (old.assignee ≡ actor)
        ⊎ ((e : EventRow) × (db' ≡ after db id (claimed actor now) e))
  unfolding claim_issue
  claim_issue-after db id actor now old {db'} found h =
      let rows = issue_rows db (wisp_table_routing (is_active_wisp db id)).issue_table in
      elim (Bool-cases (any (λ i. i.id == id && i.assignee == []) rows)) [
        | inl free ↦ inr (
          record {
            issue_id = id;
            event_type = codes "claimed";
            actor = actor;
            old_value = marshal_issue old;
            new_value = marshal_updates (claim_updates actor);
            comment = none;
          },
          ground arith,
        )
        | inr taken ↦ inl (ground arith, ground (arith, eq_iff old.assignee actor))
      ]

pub close_issue-after :
    (db : Tables) (id reason actor session : Text) (now : ℕ) {db' : Tables}
    → close_issue db id reason actor session now ≡ ok db'
    → (e : EventRow) × (db' ≡ after db id (closed_row reason session now) e)
unfolding close_issue
close_issue-after db id reason actor session now h = (
  record {
    issue_id = id;
    event_type = event_closed;
    actor = actor;
    old_value = [];
    new_value = reason;
    comment = none;
  },
  ground arith,
)

-- The changed row is what `get_issue` returns afterwards.
select_issue-update_rows :
    (f : Issue → Issue) (id : Text) (rows : List Issue) (i : Issue)
    → ((i : Issue) → (f i).id ≡ i.id)
    → select_issue rows id ≡ some i
    → select_issue (update_rows f id rows) id ≡ some (f i)
select_issue-update_rows f id [] i kept h = cc
select_issue-update_rows f id (r ∷ rows) i kept h = elim (Bool-cases (r.id == id)) [
  | inl same ↦ simp (same, kept) (ap (λ x. some (f x)) (some_inj r i (rw same at h)))
  | inr other ↦ rw (other, other) (select_issue-update_rows f id rows i kept (rw other at h))
]

any-update_rows :
    (f : Issue → Issue) (id key : Text) (rows : List Issue)
    → ((i : Issue) → (f i).id ≡ i.id)
    → any (λ i. i.id == key) (update_rows f id rows) ≡ any (λ i. i.id == key) rows
any-update_rows f id key [] kept = refl
any-update_rows f id key (r ∷ rows) kept = elim (Bool-cases (r.id == id)) [
  | inl same ↦ rw (same, kept r, any-update_rows f id key rows kept) refl
  | inr other ↦ rw (other, any-update_rows f id key rows kept) refl
]

is_active_wisp-update_rows :
    (db : Tables) (table : IssueTable) (f : Issue → Issue) (id : Text)
    → ((i : Issue) → (f i).id ≡ i.id)
    → is_active_wisp (set_issue_rows db table (update_rows f id (issue_rows db table))) id
      ≡ is_active_wisp db id
unfolding is_active_wisp
is_active_wisp-update_rows db issues_table f id kept = refl
is_active_wisp-update_rows db wisps_table f id kept = any-update_rows f id id db.wisps kept

get_issue-record_event :
    (db : Tables) (log : EventTable) (e : EventRow) (id : Text)
    → get_issue (record_event db log e) id ≡ get_issue db id
unfolding get_issue is_active_wisp wisp_table_routing
get_issue-record_event db events_table e id = ground arith
get_issue-record_event db wisp_events_table e id = ground arith

issue_rows-set_issue_rows :
    (db : Tables) (table : IssueTable) (rows : List Issue)
    → issue_rows (set_issue_rows db table rows) table ≡ rows
issue_rows-set_issue_rows db issues_table rows = refl
issue_rows-set_issue_rows db wisps_table rows = refl

-- Reading the issue back gives the changed row.
pub get_issue-after :
    (db : Tables) (id : Text) (old : Issue) (f : Issue → Issue) (e : EventRow)
    → ((i : Issue) → (f i).id ≡ i.id)
    → get_issue db id ≡ some old
    → get_issue (after db id f e) id ≡ some (f old)
get_issue-after db id old f e kept found =
    let routing = wisp_table_routing (is_active_wisp db id) in
    let rows = issue_rows db routing.issue_table in
    get_issue-record_event (set_issue_rows db routing.issue_table (update_rows f id rows))
      routing.event_table e id
    ∙ unfold get_issue in
      rw
        (
          is_active_wisp-update_rows db routing.issue_table f id kept,
          issue_rows-set_issue_rows db routing.issue_table (update_rows f id rows),
        )
        (select_issue-update_rows f id rows old kept found)
