-- ===== src/Storage/Creation/Consistent.antt =====
-- internal/storage/issueops/create.go: the closed_at invariant and the primary key of the tables,
-- through the creation of issues.
use bd.Prelude.{
  ℕ, ◌≡◌, sym, ◌∙◌, subst, true, false, Bool-cases, inl, inr, Option, Option-cases, if◌then◌else◌,
  List, [], ◌∷◌, any, arith,
}
use bd.Prelude.Text.{Text, ◌==◌}
use bd.Types.DependencyType.{Dependency}
use bd.Types.Issue.{Issue}
use bd.Storage.Tables.{
  Tables, DepTable, dependencies_table, wisp_dependencies_table, issue_rows, set_issue_rows,
}
use bd.Storage.Store.{Store}
use bd.Storage.Config.{BatchContext, BatchCreateOptions, new_batch_context}
use bd.Storage.Lifecycle.Rows.{EachRow, HasKeys}
use bd.Storage.Lifecycle.Stamps.{IsStamped}
use bd.Storage.Lifecycle.Consistent.{
  IsConsistent, set_issue_rows-IsConsistent, rows-IsStamped, rows_keyed,
}
use bd.Storage.Creation.{
  ok, NewIssue, NewComment, External, is_wisp, table_routing, prepare_issue, resolve_id,
  check_orphan, insert_issue, is_new,
}
use bd.Storage.Creation.Batch.{
  insert_unless_orphan, create_issue, create_each, insert_dependency, insert_dependencies,
  persist_dependencies, lookup_table, dependency_row, reconcile_child_counters, create_issues,
}
use bd.Storage.Creation.Persist.{persist_issue}
use bd.Storage.Creation.Inserted.{
  insert_issue-IsStamped, insert_issue-HasKeys, Result-cases, prepare_issue-IsStamped,
  resolve_id-tables, record_created-IsConsistent, persist_issue-tables,
}

module _ (ext : External) where
  persist_issue-IsConsistent :
      (st : Store) (i : Issue) (comments : List NewComment) (actor : Text) (now : ℕ)
      → IsStamped i
      → IsConsistent st.tables
      → IsConsistent (persist_issue ext st i comments actor now).tables
  persist_issue-IsConsistent st i comments actor now s c =
      let table = (table_routing i).0 in
      let rows = issue_rows st.tables table in
      subst IsConsistent (sym (persist_issue-tables ext st i comments actor now)) (
        record_created-IsConsistent (is_new i rows) (table_routing i).1 i.id actor
          (set_issue_rows st.tables table (insert_issue ext i rows))
          (set_issue_rows-IsConsistent st.tables table (insert_issue ext i rows) c
            (insert_issue-IsStamped ext i rows s (rows-IsStamped st.tables table c))
            (insert_issue-HasKeys ext i rows (rows_keyed st.tables table c))))

  insert_unless_orphan-IsConsistent :
      (bc : BatchContext) (st : Store) (n m : NewIssue) (actor : Text) (now : ℕ) (st' : Store)
      → insert_unless_orphan ext bc st n actor now ≡ ok (m, st')
      → IsStamped n.issue
      → IsConsistent st.tables
      → IsConsistent st'.tables
  unfolding insert_unless_orphan
  insert_unless_orphan-IsConsistent bc st n m actor now st' h s c =
      elim (Result-cases (
        check_orphan ext (issue_rows st.tables (table_routing n.issue).0) n.issue.id
          bc.opts.orphan_handling)) [
            | inl (e, q) ↦ ground (arith, q)
            | inr (true, q) ↦
                let same : st ≡ st' = ground (arith, q) in
                subst (λ (x : Store). IsConsistent x.tables) same c
            | inr (false, q) ↦
                let same : persist_issue ext st n.issue n.comments actor now ≡ st' =
                  ground (arith, q) in
                subst (λ (x : Store). IsConsistent x.tables) same
                  (persist_issue-IsConsistent st n.issue n.comments actor now s c)
          ]

  pub create_issue-IsConsistent :
      (bc : BatchContext) (st : Store) (n m : NewIssue) (actor : Text) (now : ℕ) (st' : Store)
      → create_issue ext bc st n actor now ≡ ok (m, st')
      → IsConsistent st.tables
      → IsConsistent st'.tables
  unfolding create_issue
  create_issue-IsConsistent bc st n m actor now st' h c =
      elim (Result-cases (prepare_issue ext bc now n.issue)) [
        | inl (e, q) ↦ ground (arith, q)
        | inr (prepared, q) ↦
            let n1 : NewIssue = record n { issue = prepared } in
            elim (Result-cases (resolve_id ext bc st n1 actor)) [
              | inl (e, r) ↦ ground (arith, q, r)
              | inr ((id, after), r) ↦
                  let n2 : NewIssue = record n { issue = record prepared { id = id } } in
                  insert_unless_orphan-IsConsistent bc after n2 m actor now st'
                    (ground (arith, q, r)) (prepare_issue-IsStamped ext bc now n.issue prepared q)
                    (subst IsConsistent (sym (resolve_id-tables ext bc st n1 actor id after r)) c)
            ]
      ]

  create_each-IsConsistent :
      (bc : BatchContext) (ns ms : List NewIssue) (st : Store) (actor : Text) (now : ℕ)
      (st' : Store)
      → create_each ext bc st ns actor now ≡ ok (ms, st')
      → IsConsistent st.tables
      → IsConsistent st'.tables
  unfolding create_each
  create_each-IsConsistent bc [] ms st actor now st' h c =
      let same : st ≡ st' = ground arith in subst (λ (x : Store). IsConsistent x.tables) same c
  create_each-IsConsistent bc (n ∷ ns) ms st actor now st' h c =
      elim (Result-cases (create_issue ext bc st n actor now)) [
        | inl (e, q) ↦ ground (arith, q)
        | inr ((m, mid), q) ↦ elim (Result-cases (create_each ext bc mid ns actor now)) [
          | inl (e, r) ↦ ground (arith, q, r)
          | inr ((rest, last), r) ↦
              let same : last ≡ st' = ground (arith, q, r) in
              subst (λ (x : Store). IsConsistent x.tables) same
                (create_each-IsConsistent bc ns rest mid actor now last r
                  (create_issue-IsConsistent bc st n m actor now mid q c))
        ]
      ]

-- The second pass writes no issues.
abbrev pub SameIssues : Tables → Tables → Type 0
SameIssues db db' = (db'.issues ≡ db.issues) × (db'.wisps ≡ db.wisps)

insert_dependency-SameIssues :
    (db db' : Tables) (table : DepTable) (d : Dependency)
    → insert_dependency db table d ≡ ok db'
    → SameIssues db db'
unfolding insert_dependency
insert_dependency-SameIssues db db' dependencies_table d h = (ground arith, ground arith)
insert_dependency-SameIssues db db' wisp_dependencies_table d h = (ground arith, ground arith)

insert_dependencies-SameIssues :
    (ds : List Dependency) (db db' : Tables) (table : DepTable) (owner actor : Text) (now : ℕ)
    → insert_dependencies db table owner ds actor now ≡ ok db'
    → SameIssues db db'
unfolding insert_dependencies
insert_dependencies-SameIssues [] db db' table owner actor now h = ground arith
insert_dependencies-SameIssues (d ∷ ds) db db' table owner actor now h =
    elim (Bool-cases
      (any (λ (i : Issue). i.id == d.depends_on_id) (issue_rows db (lookup_table table)))) [
        | inl e ↦
            elim (Result-cases (insert_dependency db table (dependency_row owner actor now d))) [
              | inl (x, q) ↦ ground (arith, e, q)
              | inr (mid, q) ↦
                  let first =
                    insert_dependency-SameIssues db mid table (dependency_row owner actor now d)
                      q in
                  let rest =
                    insert_dependencies-SameIssues ds mid db' table owner actor now
                      (ground (arith, e, q)) in
                  (rest.0 ∙ first.0, rest.1 ∙ first.1)
            ]
        | inr e ↦ insert_dependencies-SameIssues ds db db' table owner actor now (ground (arith, e))
      ]

persist_dependencies-SameIssues :
    (ns : List NewIssue) (db db' : Tables) (actor : Text) (now : ℕ)
    → persist_dependencies db ns actor now ≡ ok db'
    → SameIssues db db'
unfolding persist_dependencies
persist_dependencies-SameIssues [] db db' actor now h = ground arith
persist_dependencies-SameIssues (n ∷ ns) db db' actor now h =
    let table = if is_wisp n.issue then wisp_dependencies_table else dependencies_table in
    elim (Result-cases (insert_dependencies db table n.issue.id n.dependencies actor now)) [
      | inl (x, q) ↦ ground (arith, q)
      | inr (mid, q) ↦
          let first =
            insert_dependencies-SameIssues n.dependencies db mid table n.issue.id actor now q in
          let rest = persist_dependencies-SameIssues ns mid db' actor now (ground (arith, q)) in
          (rest.0 ∙ first.0, rest.1 ∙ first.1)
    ]

SameIssues-IsConsistent : (db db' : Tables) → SameIssues db db' → IsConsistent db → IsConsistent db'
SameIssues-IsConsistent db db' (p, q) c = record {
  issues_stamped = subst (EachRow IsStamped) (sym p) c.issues_stamped;
  wisps_stamped = subst (EachRow IsStamped) (sym q) c.wisps_stamped;
  issues_keyed = subst HasKeys (sym p) c.issues_keyed;
  wisps_keyed = subst HasKeys (sym q) c.wisps_keyed;
}

-- A successful CreateIssuesInTx keeps the tables consistent: in both the id stays a key, also where a
-- given id is taken, and closed_at stays set exactly where the status is closed.
pub create_issues-IsConsistent :
    (ext : External) (unmarshal_list : Text → Option (List Text)) (yaml_types : List Text)
    (opts : BatchCreateOptions) (st : Store) (ns : List NewIssue) (actor : Text) (now : ℕ)
    {st' : Store}
    → IsConsistent st.tables
    → create_issues ext unmarshal_list yaml_types opts st ns actor now ≡ ok st'
    → IsConsistent st'.tables
unfolding create_issues reconcile_child_counters
create_issues-IsConsistent ext unmarshal_list yaml_types opts st ns actor now {st'} c h =
    elim (Option-cases (new_batch_context unmarshal_list yaml_types st opts)) [
      | inl e ↦ ground (arith, e)
      | inr (bc, e) ↦ elim (Result-cases (create_each ext bc st ns actor now)) [
        | inl (x, q) ↦ ground (arith, e, q)
        | inr ((created, mid), q) ↦
            elim (Result-cases (persist_dependencies mid.tables created actor now)) [
              | inl (x, r) ↦ ground (arith, e, q, r)
              | inr (db, r) ↦
                  let same : db ≡ st'.tables = ground (arith, e, q, r) in
                  subst IsConsistent same (
                    SameIssues-IsConsistent mid.tables db
                      (persist_dependencies-SameIssues created mid.tables db actor now r)
                      (create_each-IsConsistent ext bc ns created st actor now mid q c))
            ]
      ]
    ]
