-- ===== src/Storage/Promotion/Placed.antt =====
-- internal/storage/issueops/create.go: where the issue is that a promotion creates.
use bd.Prelude.{
  ℕ, ◌≡◌, ◌∙◌, refl, sym, ap, subst, Bool, true, false, Bool-cases, inl, inr, List, [], ◌∷◌,
  any-append, arith,
}
use bd.Prelude.Text.{Text, ◌==◌, eq_iff}
use bd.Types.Issue.{Issue}
use bd.Storage.Tables.{
  Tables, issues_table, wisps_table, EventTable, events_table, wisp_events_table, issue_rows,
  update_rows,
}
use bd.Storage.Store.{Store}
use bd.Storage.Config.{BatchContext}
use bd.Storage.Creation.{
  ok, NewIssue, External, is_wisp, table_routing, prepare_issue, ensure_closed_at, normalize_times,
  resolve_id, check_orphan, insert_issue, merge_row, row_of, is_new,
}
use bd.Storage.Creation.Batch.{insert_unless_orphan, create_issue}
use bd.Storage.Creation.Persist.{record_created, persist_issue}
use bd.Storage.Creation.Inserted.{Result-cases, persist_issue-tables, inserted_tables}
use bd.Storage.Creation.Consistent.{SameIssues}
use bd.Storage.Deletion.{delete_where}
use bd.Storage.Deletion.Effects.{has_id}

-- What the preparation leaves alone.
pub record SameRoute (i j : Issue) : Type 0 where
  pub same_id : j.id ≡ i.id
  pub same_ephemeral : j.ephemeral ≡ i.ephemeral
  pub same_no_history : j.no_history ≡ i.no_history

prepare_issue-SameRoute :
    (ext : External) (bc : BatchContext) (now : ℕ) (i j : Issue)
    → prepare_issue ext bc now i ≡ ok j
    → SameRoute i j
unfolding prepare_issue ensure_closed_at normalize_times
prepare_issue-SameRoute ext bc now i j h =
    let prepared = ensure_closed_at (normalize_times now i) in
    let same : prepared ≡ j = ground arith in
    subst (SameRoute i) same (record {
      same_id = ground arith;
      same_ephemeral = ground arith;
      same_no_history = ground arith;
    })

has_id-update_rows :
    (f : Issue → Issue) (key : Text) (rows : List Issue) (id : Text)
    → ((i : Issue) → (f i).id ≡ i.id)
    → has_id (update_rows f key rows) id ≡ has_id rows id
has_id-update_rows f key [] id kept = refl
has_id-update_rows f key (i ∷ rows) id kept =
    ground (arith, kept i, has_id-update_rows f key rows id kept)

has_id-insert_issue :
    (ext : External) (i : Issue) (rows : List Issue) (id : Text)
    → i.id ≡ id
    → has_id (insert_issue ext i rows) id ≡ true
unfolding insert_issue
has_id-insert_issue ext i rows id q = elim (Bool-cases (has_id rows i.id)) [
  | inl e ↦
      let kept = has_id-update_rows (merge_row ext i) i.id rows id (λ j. refl) in
      let known : has_id rows id ≡ true = subst (λ x. has_id rows x ≡ true) q e in
      rw e (kept ∙ known)
  | inr e ↦ rw e (
      ground (
        arith,
        any-append (λ (j : Issue). j.id == id) rows (row_of ext i ∷ []),
        (eq_iff i.id id).1 q,
      ))
]

pub has_id-delete_where :
    (rows : List Issue) (id : Text) → has_id (delete_where (λ i. i.id == id) rows) id ≡ false
has_id-delete_where [] id = refl
has_id-delete_where (i ∷ rows) id = ground (arith, has_id-delete_where rows id)

check_orphan-allow :
    (ext : External) (rows : List Issue) (id : Text) → check_orphan ext rows id [] ≡ ok false
unfolding check_orphan ◌==◌
check_orphan-allow ext rows id = ground arith

resolve_id-given :
    (ext : External) (bc : BatchContext) (st : Store) (n : NewIssue) (actor : Text)
    → (n.issue.id == []) ≡ false
    → bc.opts.skip_prefix_validation ≡ true
    → resolve_id ext bc st n actor ≡ ok (n.issue.id, st)
unfolding resolve_id
resolve_id-given ext bc st n actor h s = ground arith

record_created-SameIssues :
    (fresh : Bool) (log : EventTable) (id actor : Text) (db : Tables)
    → SameIssues db (record_created fresh log id actor db)
unfolding record_created
record_created-SameIssues true events_table id actor db = (refl, refl)
record_created-SameIssues true wisp_events_table id actor db = (refl, refl)
record_created-SameIssues false log id actor db = (refl, refl)

-- Where an issue is after its insertion: among the wisps if one of its flags says so.
pub record Placed (db db' : Tables) (i : Issue) : Type 0 where
  pub in_wisps : is_wisp i ≡ true → (has_id db'.wisps i.id ≡ true) × (db'.issues ≡ db.issues)
  pub in_issues : is_wisp i ≡ false → (has_id db'.issues i.id ≡ true) × (db'.wisps ≡ db.wisps)

routing_cases :
    (i : Issue)
    → (is_wisp i ≡ true → table_routing i ≡ (wisps_table, wisp_events_table))
      × (is_wisp i ≡ false → table_routing i ≡ (issues_table, events_table))
unfolding table_routing
routing_cases i = ground arith

inserted_tables-Placed :
    (ext : External) (db : Tables) (i : Issue) (actor : Text)
    → Placed db (inserted_tables ext db i actor) i
inserted_tables-Placed ext db i actor = record {
  in_wisps = λ w.
      let db1 : Tables = record db { wisps = insert_issue ext i db.wisps } in
      let (p, q) = record_created-SameIssues (is_new i db.wisps) wisp_events_table i.id actor db1 in
      rw ((routing_cases i).0 w)
        (ap (λ rows. has_id rows i.id) q ∙ has_id-insert_issue ext i db.wisps i.id refl, p);
  in_issues = λ w.
      let db1 : Tables = record db { issues = insert_issue ext i db.issues } in
      let (p, q) = record_created-SameIssues (is_new i db.issues) events_table i.id actor db1 in
      rw ((routing_cases i).1 w)
        (ap (λ rows. has_id rows i.id) p ∙ has_id-insert_issue ext i db.issues i.id refl, q);
}

module _ (ext : External) (bc : BatchContext) (st : Store) (n : NewIssue) (actor : Text) (now : ℕ)
    (named : (n.issue.id == []) ≡ false) (skip : bc.opts.skip_prefix_validation ≡ true)
    (allow : bc.opts.orphan_handling ≡ []) where
  pub create_issue-Placed :
      (m : NewIssue) (created : Store)
      → create_issue ext bc st n actor now ≡ ok (m, created)
      → (j : Issue) × SameRoute n.issue j × Placed st.tables created.tables j
  unfolding create_issue insert_unless_orphan
  create_issue-Placed m created h = elim (Result-cases (prepare_issue ext bc now n.issue)) [
    | inl (e, q) ↦ ground (arith, q)
    | inr (j, q) ↦
        let route = prepare_issue-SameRoute ext bc now n.issue j q in
        let n1 : NewIssue = record n { issue = j } in
        let given = resolve_id-given ext bc st n1 actor (rw route.same_id named) skip in
        let orphan = check_orphan-allow ext (issue_rows st.tables (table_routing j).0) j.id in
        let same : persist_issue ext st j n.comments actor now ≡ created =
          ground (arith, q, given, allow, orphan) in
        (
          j,
          route,
          subst (λ (x : Store). Placed st.tables x.tables j) same
              (subst (λ (db : Tables). Placed st.tables db j)
                (sym (persist_issue-tables ext st j n.comments actor now))
                (inserted_tables-Placed ext st.tables j actor)),
        )
  ]
