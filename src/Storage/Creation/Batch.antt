-- ===== src/Storage/Creation/Batch.antt =====
-- internal/storage/issueops/create.go: CreateIssueInTx, and CreateIssuesInTx with the dependencies and the
-- child counters of the batch.
use bd.Prelude.{
  ℕ, true, false, Option, none, some, List, [], ◌∷◌, ◌++◌, any, eqb, ltb, if◌then◌else◌,
}
use bd.Prelude.Int.{ℤ, pos, pos_part, ltb_ℤ}
use bd.Prelude.Text.{Text, codes, ◌==◌}
use bd.Types.DependencyType.{Dependency}
use bd.Types.Issue.{Issue}
use bd.Storage.Tables.{
  Tables, IssueTable, DepTable, dependencies_table, wisp_dependencies_table, issues_table,
  wisps_table, issue_rows, dep_rows, set_dep_rows,
}
use bd.Storage.Store.{Store, CounterRow}
use bd.Storage.Config.{BatchContext, BatchCreateOptions, new_batch_context}
use bd.Storage.Numbering.{parse_child_id, last_child, upsert_child_counter}
use bd.Storage.Dependencies.{is_pair}
use bd.Storage.Creation.{
  Result, ok, err, foreign_key, not_initialized, NewIssue, External, is_wisp, table_routing,
  prepare_issue, resolve_id, check_orphan,
}
use bd.Storage.Creation.Persist.{persist_issue}

-- The end of CreateIssueInTx, on the prepared issue with its identifier.
unfoldable pub insert_unless_orphan :
    External → BatchContext → Store → NewIssue → Text → ℕ → Result (NewIssue × Store)
unfolding table_routing
insert_unless_orphan ext bc st n actor now =
    let i = n.issue in
    elim (check_orphan ext (issue_rows st.tables (table_routing i).0) i.id
      bc.opts.orphan_handling) [
        | err e ↦ err e
        | ok true ↦ ok (n, st)
        | ok false ↦ ok (n, persist_issue ext st i n.comments actor now)
      ]

-- CreateIssueInTx, with the issue as it leaves it to the caller.
unfoldable pub create_issue :
    External → BatchContext → Store → NewIssue → Text → ℕ → Result (NewIssue × Store)
create_issue ext bc st n actor now = elim (prepare_issue ext bc now n.issue) [
  | err e ↦ err e
  | ok prepared ↦ elim (resolve_id ext bc st (record n { issue = prepared }) actor) [
    | err e ↦ err e
    | ok (id, after) ↦
        insert_unless_orphan ext bc after (record n { issue = record prepared { id = id } }) actor
          now
  ]
]

-- The first pass of CreateIssuesInTx.
unfoldable pub create_each :
    External → BatchContext → Store → List NewIssue → Text → ℕ → Result (List NewIssue × Store)
create_each ext bc st [] actor now = ok ([], st)
create_each ext bc st (n ∷ ns) actor now = elim (create_issue ext bc st n actor now) [
  | err e ↦ err e
  | ok (created, after) ↦ elim (create_each ext bc after ns actor now) [
    | err e ↦ err e
    | ok (rest, last) ↦ ok (created ∷ rest, last)
  ]
]

-- The row of a dependency. The column of the metadata defaults to {}, that of the thread to "".
abbrev pub dependency_row : Text → Text → ℕ → Dependency → Dependency
dependency_row owner actor now d = record {
  issue_id = if d.issue_id == [] then owner else d.issue_id;
  depends_on_id = d.depends_on_id;
  type = d.type;
  created_at = if eqb d.created_at 0 then now else d.created_at;
  created_by = actor;
  metadata = codes "{}";
  thread_id = [];
}

-- INSERT INTO dependencies … ON DUPLICATE KEY UPDATE type = type. Of the two tables, only
-- dependencies has a foreign key, from issue_id to the issues.
unfoldable pub insert_dependency : Tables → DepTable → Dependency → Result Tables
insert_dependency db table d =
    if any (is_pair d.issue_id d.depends_on_id) (dep_rows db table) then ok db else (elim table [
      | dependencies_table ↦
          if any (λ i. i.id == d.issue_id) db.issues
          then ok (set_dep_rows db dependencies_table (db.dependencies ++ (d ∷ [])))
          else err foreign_key
      | wisp_dependencies_table ↦
          ok (set_dep_rows db wisp_dependencies_table (db.wisp_dependencies ++ (d ∷ [])))
    ])

abbrev pub lookup_table : DepTable → IssueTable
lookup_table dependencies_table = issues_table
lookup_table wisp_dependencies_table = wisps_table

-- The loop over the dependencies of one issue: those without a target are skipped.
unfoldable pub insert_dependencies :
    Tables → DepTable → Text → List Dependency → Text → ℕ → Result Tables
insert_dependencies db table owner [] actor now = ok db
insert_dependencies db table owner (d ∷ ds) actor now =
    if any (λ i. i.id == d.depends_on_id) (issue_rows db (lookup_table table))
    then (elim (insert_dependency db table (dependency_row owner actor now d)) [
      | err e ↦ err e
      | ok after ↦ insert_dependencies after table owner ds actor now
    ])
    else insert_dependencies db table owner ds actor now

-- PersistDependencies
unfoldable pub persist_dependencies : Tables → List NewIssue → Text → ℕ → Result Tables
unfolding is_wisp
persist_dependencies db [] actor now = ok db
persist_dependencies db (n ∷ ns) actor now =
    let table = if is_wisp n.issue then wisp_dependencies_table else dependencies_table in
    elim (insert_dependencies db table n.issue.id n.dependencies actor now) [
      | err e ↦ err e
      | ok after ↦ persist_dependencies after ns actor now
    ]

-- childMaxMap, as rows: one step of the loop.
unfoldable pub raise_child_max : List CounterRow → Text → ℤ → List CounterRow
raise_child_max m parent n =
    if ltb_ℤ (pos (last_child m parent)) n
    then upsert_child_counter m parent (pos_part n) (λ old. pos_part n)
    else m

unfoldable pub child_max_map : External → List CounterRow → List NewIssue → List CounterRow
child_max_map ext m [] = m
child_max_map ext m (n ∷ ns) = elim (parse_child_id ext.scan_int n.issue.id) [
  | none ↦ child_max_map ext m ns
  | some (parent, k) ↦ child_max_map ext (raise_child_max m parent k) ns
]

-- The second loop; a parent outside of the issues is skipped.
unfoldable pub raise_counters : List Issue → List CounterRow → List CounterRow → List CounterRow
raise_counters issues rows [] = rows
raise_counters issues rows (r ∷ rs) =
    raise_counters issues
      (if any (λ i. i.id == r.parent_id) issues
        then upsert_child_counter rows r.parent_id r.last_child
            (λ old. if ltb old r.last_child then r.last_child else old)
        else rows)
      rs

-- ReconcileChildCounters
unfoldable pub reconcile_child_counters : External → Store → List NewIssue → Store
reconcile_child_counters ext st ns = record st {
  child_counters = raise_counters st.tables.issues st.child_counters (child_max_map ext [] ns);
}

-- CreateIssuesInTx
unfoldable pub create_issues :
    External
    → (Text → Option (List Text))
    → List Text
    → BatchCreateOptions
    → Store
    → List NewIssue
    → Text
    → ℕ
    → Result Store
create_issues ext unmarshal_list yaml_types opts st ns actor now =
    elim (new_batch_context unmarshal_list yaml_types st opts) [
      | none ↦ err not_initialized
      | some bc ↦ elim (create_each ext bc st ns actor now) [
        | err e ↦ err e
        | ok (created, after) ↦ elim (persist_dependencies after.tables created actor now) [
          | err e ↦ err e
          | ok db ↦ ok (reconcile_child_counters ext (record after { tables = db }) created)
        ]
      ]
    ]
