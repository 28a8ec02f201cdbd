-- ===== src/Storage/Dependencies.antt =====
-- internal/storage/issueops/dependencies.go: adding and removing dependency edges, with the bounded
-- search for cycles.
pub mod Walks
pub mod Search
pub mod Acyclic
pub mod Effects
pub mod Histories
use bd.Prelude.{
  ℕ, zero, suc, ◌+◌, Bool, true, false, ◌&&◌, ◌||◌, not, Option, none, some, List, [], ◌∷◌, ◌++◌,
  map, any, select, find?, ltb, leb, eqb, length, if◌then◌else◌,
}
use bd.Prelude.Text.{Text, codes, ◌==◌, has_prefix}
use bd.Types.DependencyType.{DependencyType, Dependency, dep_blocks, dep_conditional_blocks}
use bd.Types.IssueType.{type_epic}
use bd.Storage.Tables.{
  Tables, IssueTable, DepTable, dependencies_table, wisp_dependencies_table, issues_table,
  is_active_wisp, wisp_table_routing, issue_rows, dep_rows, set_dep_rows, select_issue,
}

-- AddDependencyOpts; an empty name is `none`.
pub record AddDependencyOpts : Type 0 where
  pub source_table : Option IssueTable
  pub target_table : Option IssueTable
  pub write_table : Option DepTable
  pub dep_tables : List DepTable
  pub is_cross_prefix : Bool

pub data DependencyError : Type 0 where
  source_not_found target_not_found epic_blocks_task task_blocks_epic : DependencyError
  self_dependency would_create_cycle chain_too_deep type_conflict not_found : DependencyError

pub data Result (A : Type 0) : Type 0 where
  ok : A → Result A
  err : DependencyError → Result A

-- An edge from an issue to the one that it depends on.
abbrev pub Edge : Type 0
Edge = Text × Text

-- A row (node, depth) of the recursive query.
abbrev pub Row : Type 0
Row = Text × ℕ

-- type IN ('blocks', 'conditional-blocks')
unfoldable pub is_cycle_type : DependencyType → Bool
is_cycle_type t = t == dep_blocks || t == dep_conditional_blocks

abbrev pub edge : Dependency → Edge
edge d = (d.issue_id, d.depends_on_id)

unfoldable pub edges_of_rows : List Dependency → List Edge
edges_of_rows rows = map edge (select (λ d. is_cycle_type d.type) rows)

-- The UNION ALL over the dependency tables.
unfoldable pub blocking_edges : Tables → List DepTable → List Edge
blocking_edges db [] = []
blocking_edges db (t ∷ ts) = edges_of_rows (dep_rows db t) ++ blocking_edges db ts

-- JOIN … d ON d.issue_id = r.node
unfoldable pub successors : List Edge → Text → List Text
successors es n = map (λ e. e.1) (select (λ e. e.0 == n) es)

unfoldable pub next_level : List Edge → List Text → List Text
unfolding successors
next_level es [] = []
next_level es (n ∷ ns) = successors es n ++ next_level es ns

-- The rows (node, depth) of the recursive query, level by level; `fuel` levels are still to come.
unfoldable pub reachable_rows : List Edge → ℕ → ℕ → List Text → List Row
reachable_rows es zero depth nodes = map (λ n. (n, depth)) nodes
reachable_rows es (suc fuel) depth nodes =
    map (λ n. (n, depth)) nodes ++ reachable_rows es fuel (depth + 1) (next_level es nodes)

abbrev pub cycle_detection_max_depth : ℕ
cycle_detection_max_depth = 1000

-- SUM(CASE WHEN node = ? THEN 1 ELSE 0 END)
unfoldable pub hits : Text → List Row → ℕ
hits target [] = 0
hits target ((n, d) ∷ rows) = (if n == target then 1 else 0) + hits target rows

-- MAX(depth)
unfoldable pub max_depth : List Row → ℕ
max_depth [] = 0
max_depth ((n, d) ∷ rows) = let m = max_depth rows in if ltb m d then d else m

-- The cycle detection of AddDependencyInTx: `none` lets the edge pass.
unfoldable pub detect_cycle : List Edge → Text → Text → Option DependencyError
detect_cycle es issue_id depends_on_id =
    let rows = reachable_rows es cycle_detection_max_depth 0 (depends_on_id ∷ []) in
    if ltb 0 (hits issue_id rows)
    then some would_create_cycle
    else if leb cycle_detection_max_depth (max_depth rows)
    then some chain_too_deep
    else none

abbrev pub or_table : {T : Type 0} → Option T → T → T
or_table none t = t
or_table (some s) t = s

abbrev pub or_tables : List DepTable → List DepTable
or_tables [] = dependencies_table ∷ wisp_dependencies_table ∷ []
or_tables (t ∷ ts) = t ∷ ts

abbrev pub both_tables : List DepTable
both_tables = dependencies_table ∷ wisp_dependencies_table ∷ []

-- References to another database are not looked up.
unfoldable pub is_foreign : Text → AddDependencyOpts → Bool
is_foreign depends_on_id opts = has_prefix depends_on_id (codes "external:") || opts.is_cross_prefix

-- Cross-type blocking validation: `target_type` is "" where the target was not looked up.
unfoldable pub check_types : DependencyType → Text → Text → Option DependencyError
check_types type source_type target_type =
    if type == dep_blocks && not (target_type == [])
    then (if source_type == type_epic
        then (if target_type == type_epic then none else some epic_blocks_task)
        else (if target_type == type_epic then some task_blocks_epic else none))
    else none

abbrev pub is_pair : Text → Text → Dependency → Bool
is_pair issue_id depends_on_id d = d.issue_id == issue_id && d.depends_on_id == depends_on_id

abbrev pub metadata_or_empty : Text → Text
metadata_or_empty [] = codes "{}"
metadata_or_empty (c ∷ s) = c ∷ s

-- UPDATE table SET metadata = ? WHERE issue_id = ? AND depends_on_id = ?
unfoldable pub update_metadata : Dependency → List Dependency → List Dependency
update_metadata dep = map λ d.
    if is_pair dep.issue_id dep.depends_on_id d
    then record d { metadata = metadata_or_empty dep.metadata }
    else d

-- The row that the INSERT writes.
abbrev pub new_row : Dependency → Text → ℕ → Dependency
new_row dep actor now = record dep {
  created_at = now;
  created_by = actor;
  metadata = metadata_or_empty dep.metadata;
}

-- The lookup of an existing edge, and the UPDATE or the INSERT.
unfoldable pub write_dependency : Tables → DepTable → Dependency → Text → ℕ → Result Tables
write_dependency db table dep actor now =
    elim (find? (is_pair dep.issue_id dep.depends_on_id) (dep_rows db table)) [
      | some existing ↦
          if existing.type == dep.type
          then ok (set_dep_rows db table (update_metadata dep (dep_rows db table)))
          else err type_conflict
      | none ↦ ok (set_dep_rows db table (dep_rows db table ++ (new_row dep actor now ∷ [])))
    ]

abbrev source_routing : Tables → Dependency → IssueTable
source_routing db dep = (wisp_table_routing (is_active_wisp db dep.issue_id)).issue_table

abbrev pub write_table_of : Tables → Dependency → AddDependencyOpts → DepTable
write_table_of db dep opts =
    or_table opts.write_table (wisp_table_routing (is_active_wisp db dep.issue_id)).dep_table

abbrev target_routing : Tables → Dependency → AddDependencyOpts → IssueTable
target_routing db dep opts =
    if is_foreign dep.depends_on_id opts
    then issues_table
    else (wisp_table_routing (is_active_wisp db dep.depends_on_id)).issue_table

-- The behind part of AddDependencyInTx: the self-dependency check, the cycle detection, the write.
unfoldable pub insert_checked : Tables → Dependency → Text → ℕ → AddDependencyOpts → Result Tables
insert_checked db dep actor now opts =
    if dep.issue_id == dep.depends_on_id
    then err self_dependency
    else (elim (if is_cycle_type dep.type
        then detect_cycle (blocking_edges db (or_tables opts.dep_tables)) dep.issue_id
            dep.depends_on_id
        else none) [
          | some e ↦ err e
          | none ↦ write_dependency db (write_table_of db dep opts) dep actor now
        ])

-- The type of the target, "" for a foreign reference; `none` where the target does not exist.
unfoldable pub lookup_target_type : Tables → Dependency → AddDependencyOpts → Option Text
lookup_target_type db dep opts =
    if is_foreign dep.depends_on_id opts
    then some []
    else (elim (select_issue
        (issue_rows db (or_table opts.target_table (target_routing db dep opts)))
        dep.depends_on_id) [ none ↦ none | some target ↦ some target.issue_type ])

-- AddDependencyInTx
unfoldable pub add_dependency : Tables → Dependency → Text → ℕ → AddDependencyOpts → Result Tables
add_dependency db dep actor now opts =
    elim (select_issue (issue_rows db (or_table opts.source_table (source_routing db dep)))
      dep.issue_id) [
        | none ↦ err source_not_found
        | some source ↦ elim (lookup_target_type db dep opts) [
          | none ↦ err target_not_found
          | some target_type ↦ elim (check_types dep.type source.issue_type target_type) [
            | some e ↦ err e
            | none ↦ insert_checked db dep actor now opts
          ]
        ]
      ]

-- RemoveDependencyInTx
unfoldable pub remove_dependency : Tables → Text → Text → Result Tables
remove_dependency db issue_id depends_on_id =
    let table = (wisp_table_routing (is_active_wisp db issue_id)).dep_table in
    if any (is_pair issue_id depends_on_id) (dep_rows db table)
    then ok (
        set_dep_rows db table
          (select (λ d. not (is_pair issue_id depends_on_id d)) (dep_rows db table)))
    else err not_found
