-- ===== src/Storage/Dependencies/Effects.antt =====
-- internal/storage/issueops/dependencies.go: the stored row, the refusal of a cycle, and a removal after
-- an addition.
use bd.Prelude.{
  any, select, not, true, ℕ, ◌≡◌, refl, inl, inr, List, [], ◌∷◌, ◌++◌, Option, none, some, find?,
  arith, Option-cases,
}
use bd.Prelude.Text.{Text, eq_iff}
use bd.Types.DependencyType.{Dependency}
use bd.Storage.Tables.{
  wisp_table_routing, is_active_wisp, Tables, DepTable, dependencies_table, wisp_dependencies_table,
  dep_rows, set_dep_rows,
}
use bd.Storage.Dependencies.{
  remove_dependency, AddDependencyOpts, ok, err, blocking_edges, or_tables, detect_cycle, is_pair,
  update_metadata, new_row, metadata_or_empty, write_dependency, write_table_of, insert_checked,
  add_dependency, check_types, would_create_cycle,
}
use bd.Storage.Dependencies.Walks.{Walk}
use bd.Storage.Dependencies.Search.{detect_cycle_found}
use bd.Storage.Dependencies.Acyclic.{add_dependency-Passed}

module _ (db : Tables) (dep : Dependency) (actor : Text) (now : ℕ) (opts : AddDependencyOpts) where
  insert_checked_cycle :
      insert_checked db dep actor now opts ≡ err would_create_cycle
      → detect_cycle (blocking_edges db (or_tables opts.dep_tables)) dep.issue_id dep.depends_on_id
        ≡ some would_create_cycle
  unfolding insert_checked write_dependency
  insert_checked_cycle h = ground arith

  -- AddDependencyInTx refuses an edge as a cycle only if blocking edges lead from its target to its
  -- source.
  add_dependency_cycle :
      add_dependency db dep actor now opts ≡ err would_create_cycle
      → (n : ℕ) × Walk
          (blocking_edges db (or_tables opts.dep_tables))
          dep.depends_on_id
          dep.issue_id
          n
  unfolding add_dependency check_types
  add_dependency_cycle h =
      detect_cycle_found (blocking_edges db (or_tables opts.dep_tables)) dep.issue_id
        dep.depends_on_id (insert_checked_cycle (ground arith))

-- The row of an edge, as the primary key finds it.
abbrev pub row_of : Text → Text → List Dependency → Option Dependency
row_of issue_id depends_on_id = find? (is_pair issue_id depends_on_id)

row_of-append :
    (d : Dependency) (rows : List Dependency)
    → row_of d.issue_id d.depends_on_id rows ≡ none
    → row_of d.issue_id d.depends_on_id (rows ++ d ∷ []) ≡ some d
row_of-append d [] h =
    ground (arith, eq_iff d.issue_id d.issue_id, eq_iff d.depends_on_id d.depends_on_id)
row_of-append d (r ∷ rows) h = ground (arith, row_of-append d rows)

row_of-update_metadata :
    (d r : Dependency) (rows : List Dependency)
    → row_of d.issue_id d.depends_on_id rows ≡ some r
    → row_of d.issue_id d.depends_on_id (update_metadata d rows)
      ≡ some (record r { metadata = metadata_or_empty d.metadata })
unfolding update_metadata
row_of-update_metadata d r [] h = cc
row_of-update_metadata d r (x ∷ rows) h = ground (arith, row_of-update_metadata d r rows)

dep_rows-set_dep_rows :
    (db : Tables) (table : DepTable) (rows : List Dependency)
    → dep_rows (set_dep_rows db table rows) table ≡ rows
dep_rows-set_dep_rows db dependencies_table rows = refl
dep_rows-set_dep_rows db wisp_dependencies_table rows = refl

-- After a write the edge is stored with the requested type and metadata.
write_dependency_stored :
    (db : Tables) (table : DepTable) (dep : Dependency) (actor : Text) (now : ℕ) {db' : Tables}
    → write_dependency db table dep actor now ≡ ok db'
    → (r : Dependency) × (row_of dep.issue_id dep.depends_on_id (dep_rows db' table) ≡ some r)
      × (r.type ≡ dep.type)
      × (r.metadata ≡ metadata_or_empty dep.metadata)
unfolding write_dependency
write_dependency_stored db table dep actor now {db'} h =
    elim (Option-cases (row_of dep.issue_id dep.depends_on_id (dep_rows db table))) [
      | inl fresh ↦ (
        new_row dep actor now,
        ground (
          arith,
          row_of-append (new_row dep actor now) (dep_rows db table),
          dep_rows-set_dep_rows db table (dep_rows db table ++ (new_row dep actor now ∷ [])),
        ),
        refl,
        refl,
      )
      | inr (r, old) ↦ (
        record r { metadata = metadata_or_empty dep.metadata },
        ground (
          arith,
          row_of-update_metadata dep r (dep_rows db table),
          dep_rows-set_dep_rows db table (update_metadata dep (dep_rows db table)),
        ),
        ground (arith, eq_iff r.type dep.type),
        refl,
      )
    ]

-- After a successful AddDependencyInTx the edge stands in the table that it was routed to, with the
-- requested type and metadata.
add_dependency_stored :
    (db : Tables) (dep : Dependency) (actor : Text) (now : ℕ) (opts : AddDependencyOpts)
    {db' : Tables}
    → add_dependency db dep actor now opts ≡ ok db'
    → (r : Dependency) × (row_of dep.issue_id dep.depends_on_id
          (dep_rows db' (write_table_of db dep opts))
        ≡ some r)
      × (r.type ≡ dep.type)
      × (r.metadata ≡ metadata_or_empty dep.metadata)
add_dependency_stored db dep actor now opts h =
    write_dependency_stored db (write_table_of db dep opts) dep actor now
      (add_dependency-Passed db dep actor now opts h).written

no_row_left :
    (a b : Text) (rows : List Dependency)
    → row_of a b (select (λ d. not (is_pair a b d)) rows) ≡ none
no_row_left a b [] = refl
no_row_left a b (r ∷ rows) = ground (arith, no_row_left a b rows)

select_all :
    (a b : Text) (rows : List Dependency)
    → row_of a b rows ≡ none
    → select (λ d. not (is_pair a b d)) rows ≡ rows
select_all a b [] h = refl
select_all a b (r ∷ rows) h = ground (arith, select_all a b rows)

select-append_own :
    (d : Dependency) (rows : List Dependency)
    → row_of d.issue_id d.depends_on_id rows ≡ none
    → select (λ r. not (is_pair d.issue_id d.depends_on_id r)) (rows ++ d ∷ []) ≡ rows
select-append_own d [] h =
    ground (arith, eq_iff d.issue_id d.issue_id, eq_iff d.depends_on_id d.depends_on_id)
select-append_own d (r ∷ rows) h = ground (arith, select-append_own d rows)

any-append_own :
    (d : Dependency) (rows : List Dependency)
    → any (is_pair d.issue_id d.depends_on_id) (rows ++ d ∷ []) ≡ true
any-append_own d [] =
    ground (arith, eq_iff d.issue_id d.issue_id, eq_iff d.depends_on_id d.depends_on_id)
any-append_own d (r ∷ rows) = ground (arith, any-append_own d rows)

-- After a removal no row of the pair is left in the source's table.
pub remove_dependency_removed :
    (db : Tables) (a b : Text) {db' : Tables}
    → remove_dependency db a b ≡ ok db'
    → row_of a b (dep_rows db' (wisp_table_routing (is_active_wisp db a)).dep_table) ≡ none
unfolding remove_dependency
remove_dependency_removed db a b {db'} h =
    let table = (wisp_table_routing (is_active_wisp db a)).dep_table in
    let rows = select (λ d. not (is_pair a b d)) (dep_rows db table) in
    ground (arith, no_row_left a b (dep_rows db table), dep_rows-set_dep_rows db table rows)

set_dep_rows_twice :
    (db : Tables) (table : DepTable) (rows : List Dependency)
    → set_dep_rows (set_dep_rows db table rows) table (dep_rows db table) ≡ db
set_dep_rows_twice db dependencies_table rows = refl
set_dep_rows_twice db wisp_dependencies_table rows = refl

is_active_wisp-set_dep_rows :
    (db : Tables) (table : DepTable) (rows : List Dependency) (id : Text)
    → is_active_wisp (set_dep_rows db table rows) id ≡ is_active_wisp db id
unfolding is_active_wisp
is_active_wisp-set_dep_rows db dependencies_table rows id = refl
is_active_wisp-set_dep_rows db wisp_dependencies_table rows id = refl

-- RemoveDependencyInTx of an edge that a successful AddDependencyInTx wrote to the source's own
-- table, where no row of the edge was before, gives the tables back.
pub remove-add :
    (db : Tables) (dep : Dependency) (actor : Text) (now : ℕ) (opts : AddDependencyOpts)
    {db' : Tables}
    → opts.write_table ≡ none
    → row_of dep.issue_id dep.depends_on_id
        (dep_rows db (wisp_table_routing (is_active_wisp db dep.issue_id)).dep_table)
      ≡ none
    → add_dependency db dep actor now opts ≡ ok db'
    → remove_dependency db' dep.issue_id dep.depends_on_id ≡ ok db
unfolding remove_dependency write_dependency
remove-add db dep actor now opts {db'} routed fresh h =
    let table = (wisp_table_routing (is_active_wisp db dep.issue_id)).dep_table in
    let row = new_row dep actor now in
    let rows = dep_rows db table ++ (row ∷ []) in
    let p = add_dependency-Passed db dep actor now opts h in
    ground (
      arith,
      p.written,
      is_active_wisp-set_dep_rows db table rows dep.issue_id,
      dep_rows-set_dep_rows db table rows,
      any-append_own row (dep_rows db table),
      select-append_own row (dep_rows db table),
      set_dep_rows_twice db table rows,
    )
