-- ===== src/Storage/Dependencies/Acyclic.antt =====
-- internal/storage/issueops/dependencies.go: the blocking graph and its cycles.
use bd.Prelude.{
  ℕ, ◌≡◌, refl, sym, subst, ◌⊎◌, ◌↔◌, inl, inr, Bool, true, false, not, List, [], ◌∷◌, ◌++◌, none,
  In, In-map_intro, In-map_elim, In-append, In-select, select, arith, Bool-cases, if◌then◌else◌,
}
use bd.Prelude.Text.{Text, ◌==◌}
use bd.Types.DependencyType.{Dependency}
use bd.Storage.Tables.{
  Tables, DepTable, dependencies_table, wisp_dependencies_table, dep_rows, set_dep_rows,
  wisp_table_routing, is_active_wisp,
}
use bd.Storage.Dependencies.{
  AddDependencyOpts, Edge, ok, is_cycle_type, edge, edges_of_rows, blocking_edges, both_tables,
  or_tables, detect_cycle, is_pair, update_metadata, write_dependency, new_row, write_table_of,
  insert_checked, add_dependency, remove_dependency,
}
use bd.Storage.Dependencies.Walks.{
  IsAcyclic, IsWithin, IsExtension, IsAcyclic-IsWithin, IsAcyclic-IsExtension,
}
use bd.Storage.Dependencies.Search.{detect_cycle-none}

-- The blocking graph over both dependency tables.
abbrev pub graph : Tables → List Edge
graph db = blocking_edges db both_tables

In-edges_elim :
    (e : Edge) (rows : List Dependency)
    → In e (edges_of_rows rows)
    → (d : Dependency) × In d rows × (is_cycle_type d.type ≡ true) × (e ≡ edge d)
unfolding edges_of_rows
In-edges_elim e rows m =
    let (d, n, q) = In-map_elim edge e (select (λ d. is_cycle_type d.type) rows) m in
    let (k, t) = (In-select (λ (d : Dependency). is_cycle_type d.type) d rows).0 n in (d, k, t, q)

In-edges_intro :
    (d : Dependency) (rows : List Dependency)
    → In d rows
    → is_cycle_type d.type ≡ true
    → In (edge d) (edges_of_rows rows)
unfolding edges_of_rows
In-edges_intro d rows m t =
    In-map_intro edge d (select (λ d. is_cycle_type d.type) rows)
      ((In-select (λ (d : Dependency). is_cycle_type d.type) d rows).1 (m, t))

pub In-graph :
    (e : Edge) (db : Tables)
    → In e (graph db)
      ↔ (In e (edges_of_rows db.dependencies) ⊎ In e (edges_of_rows db.wisp_dependencies))
unfolding blocking_edges
In-graph e db = ground (
  arith,
  In-append e (edges_of_rows db.dependencies) (edges_of_rows db.wisp_dependencies ++ []),
  In-append e (edges_of_rows db.wisp_dependencies) [],
)

-- Replacing one table's rows extends the graph as it extends that table.
module _ (db : Tables) (s t : Text) where
  IsExtension-set_dep_rows :
      (table : DepTable) (rows : List Dependency)
      → IsExtension (edges_of_rows (dep_rows db table)) s t (edges_of_rows rows)
      → IsExtension (graph db) s t (graph (set_dep_rows db table rows))
  IsExtension-set_dep_rows dependencies_table rows h e m =
      ground (arith, h e, In-graph e db, In-graph e (record db { dependencies = rows }))
  IsExtension-set_dep_rows wisp_dependencies_table rows h e m =
      ground (arith, h e, In-graph e db, In-graph e (record db { wisp_dependencies = rows }))

IsWithin-set_dep_rows :
    (db : Tables) (table : DepTable) (rows : List Dependency)
    → IsWithin (edges_of_rows rows) (edges_of_rows (dep_rows db table))
    → IsWithin (graph (set_dep_rows db table rows)) (graph db)
IsWithin-set_dep_rows db dependencies_table rows h e m =
    ground (arith, h e, In-graph e db, In-graph e (record db { dependencies = rows }))
IsWithin-set_dep_rows db wisp_dependencies_table rows h e m =
    ground (arith, h e, In-graph e db, In-graph e (record db { wisp_dependencies = rows }))

edges-update_metadata :
    (dep : Dependency) (rows : List Dependency)
    → edges_of_rows (update_metadata dep rows) ≡ edges_of_rows rows
unfolding edges_of_rows update_metadata
edges-update_metadata dep [] = refl
edges-update_metadata dep (d ∷ rows) = ground (arith, edges-update_metadata dep rows)

IsExtension-append :
    (d : Dependency) (rows : List Dependency)
    → IsExtension (edges_of_rows rows) d.issue_id d.depends_on_id (edges_of_rows (rows ++ d ∷ []))
unfolding edges_of_rows
IsExtension-append d [] e m = ground arith
IsExtension-append d (r ∷ rows) e m = elim (Bool-cases (is_cycle_type r.type)) [
  | inl y ↦ ground (arith, IsExtension-append d rows e)
  | inr n ↦ ground (arith, IsExtension-append d rows e)
]

IsWithin-append :
    (d : Dependency) (rows : List Dependency)
    → is_cycle_type d.type ≡ false
    → IsWithin (edges_of_rows (rows ++ d ∷ [])) (edges_of_rows rows)
unfolding edges_of_rows
IsWithin-append d [] f e m = ground arith
IsWithin-append d (r ∷ rows) f e m = elim (Bool-cases (is_cycle_type r.type)) [
  | inl y ↦ ground (arith, IsWithin-append d rows f e)
  | inr n ↦ ground (arith, IsWithin-append d rows f e)
]

pub IsWithin-edges_of_rows :
    (rows some_rows : List Dependency)
    → ((d : Dependency) → In d some_rows → In d rows)
    → IsWithin (edges_of_rows some_rows) (edges_of_rows rows)
IsWithin-edges_of_rows rows some_rows h e m =
    let (d, n, t, q) = In-edges_elim e some_rows m in rw q (In-edges_intro d rows (h d n) t)

IsWithin-select :
    (p : Dependency → Bool) (rows : List Dependency)
    → IsWithin (edges_of_rows (select p rows)) (edges_of_rows rows)
IsWithin-select p rows =
    IsWithin-edges_of_rows rows (select p rows) (λ d n. ((In-select p d rows).0 n).0)

-- A write extends the graph by at most its own edge, and by none if its type is not blocking.
module _ (db : Tables) (table : DepTable) (dep : Dependency) (actor : Text) (now : ℕ) {db' : Tables}
    (written : write_dependency db table dep actor now ≡ ok db') where
  write_dependency-cases :
      (db' ≡ set_dep_rows db table (update_metadata dep (dep_rows db table)))
      ⊎ (db' ≡ set_dep_rows db table (dep_rows db table ++ (new_row dep actor now ∷ [])))
  unfolding write_dependency
  write_dependency-cases = ground arith

  write_dependency-IsExtension : IsExtension (graph db) dep.issue_id dep.depends_on_id (graph db')
  write_dependency-IsExtension = elim write_dependency-cases [
    | inl e ↦ rw e (
        IsExtension-set_dep_rows db dep.issue_id dep.depends_on_id table
          (update_metadata dep (dep_rows db table))
          (λ x m. inr (rw (edges-update_metadata dep (dep_rows db table)) at m)))
    | inr e ↦ rw e (
        IsExtension-set_dep_rows db dep.issue_id dep.depends_on_id table
          (dep_rows db table ++ (new_row dep actor now ∷ []))
          (IsExtension-append (new_row dep actor now) (dep_rows db table)))
  ]

  write_dependency-IsWithin : is_cycle_type dep.type ≡ false → IsWithin (graph db') (graph db)
  write_dependency-IsWithin f = elim write_dependency-cases [
    | inl e ↦ rw e (
        IsWithin-set_dep_rows db table (update_metadata dep (dep_rows db table))
          (λ x m. rw (edges-update_metadata dep (dep_rows db table)) at m))
    | inr e ↦ rw e (
        IsWithin-set_dep_rows db table (dep_rows db table ++ (new_row dep actor now ∷ []))
          (IsWithin-append (new_row dep actor now) (dep_rows db table) f))
  ]

-- What a successful `add_dependency` went through.
pub record Passed (db : Tables) (dep : Dependency) (actor : Text) (now : ℕ)
    (opts : AddDependencyOpts) (db' : Tables) : Type 0 where
  pub distinct : (dep.issue_id == dep.depends_on_id) ≡ false
  pub no_cycle :
      (if is_cycle_type dep.type
        then detect_cycle
            (blocking_edges db (or_tables opts.dep_tables))
            dep.issue_id
            dep.depends_on_id
        else none)
      ≡ none
  pub written : write_dependency db (write_table_of db dep opts) dep actor now ≡ ok db'

module _ (db : Tables) (dep : Dependency) (actor : Text) (now : ℕ) (opts : AddDependencyOpts)
    {db' : Tables} where
  insert_checked-Passed :
      insert_checked db dep actor now opts ≡ ok db' → Passed db dep actor now opts db'
  unfolding insert_checked
  insert_checked-Passed h = ground arith

  pub add_dependency-Passed :
      add_dependency db dep actor now opts ≡ ok db' → Passed db dep actor now opts db'
  unfolding add_dependency
  add_dependency-Passed h = insert_checked-Passed (ground arith)

  -- A successful AddDependencyInTx, with the search for cycles over both tables, keeps the graph of
  -- the blocking edges acyclic.
  pub add_dependency-IsAcyclic :
      opts.dep_tables ≡ []
      → IsAcyclic (graph db)
      → add_dependency db dep actor now opts ≡ ok db'
      → IsAcyclic (graph db')
  add_dependency-IsAcyclic default acyclic h =
      let p = add_dependency-Passed h in
      elim (Bool-cases (is_cycle_type dep.type)) [
        | inl blocking ↦
            IsAcyclic-IsExtension (graph db) (graph db') dep.issue_id dep.depends_on_id
              (write_dependency-IsExtension db (write_table_of db dep opts) dep actor now p.written)
              acyclic
              (detect_cycle-none (graph db) dep.issue_id dep.depends_on_id
                (ground (arith, p.no_cycle)))
        | inr other ↦
            IsAcyclic-IsWithin (graph db') (graph db)
              (write_dependency-IsWithin db (write_table_of db dep opts) dep actor now p.written
                other)
              acyclic
      ]

-- A successful RemoveDependencyInTx keeps the graph of the blocking edges acyclic.
pub remove_dependency-IsAcyclic :
    (db : Tables) (issue_id depends_on_id : Text) {db' : Tables}
    → IsAcyclic (graph db)
    → remove_dependency db issue_id depends_on_id ≡ ok db'
    → IsAcyclic (graph db')
unfolding remove_dependency
remove_dependency-IsAcyclic db issue_id depends_on_id {db'} acyclic h =
    let table = (wisp_table_routing (is_active_wisp db issue_id)).dep_table in
    let rows = select (λ d. not (is_pair issue_id depends_on_id d)) (dep_rows db table) in
    let e : db' ≡ set_dep_rows db table rows = ground arith in
    subst (λ x. IsAcyclic (graph x)) (sym e)
      (IsAcyclic-IsWithin (graph (set_dep_rows db table rows)) (graph db)
        (IsWithin-set_dep_rows db table rows
          (IsWithin-select (λ d. not (is_pair issue_id depends_on_id d)) (dep_rows db table)))
        acyclic)
