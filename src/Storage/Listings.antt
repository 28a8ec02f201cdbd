-- ===== src/Storage/Listings.antt =====
-- internal/storage/issueops: the queries of dependencies.go that list the dependencies and the
-- dependents of an issue; the blocking information, the records and the counts of
-- dependency_queries.go. A list under a key of a Go map is a function of the key.
use bd.Prelude.{
  ℕ, Bool, ◌&&◌, ◌||◌, not, Option, none, some, List, [], ◌∷◌, ◌++◌, map, select, length,
  if◌then◌else◌,
}
use bd.Prelude.Text.{Text, ◌==◌, contains}
use bd.Types.Status.{status_closed}
use bd.Types.DependencyType.{Dependency, DependencyType, dep_blocks, dep_parent_child}
use bd.Types.Issue.{Issue}
use bd.Storage.Tables.{Tables, is_active_wisp}
use bd.Storage.Blocked.{query_batch_size, batches, concat_map}
use bd.Storage.Epics.{get_issues_by_ids, last_row}

-- The rows of both tables, those of `dependencies` first.
abbrev pub all_rows : Tables → List Dependency
all_rows db = db.dependencies ++ db.wisp_dependencies

-- SELECT … WHERE issue_id = ?, in both tables.
abbrev pub rows_from : Tables → Text → List Dependency
rows_from db id = select (λ d. d.issue_id == id) (all_rows db)

-- SELECT … WHERE depends_on_id = ?, in both tables.
abbrev pub rows_to : Tables → Text → List Dependency
rows_to db id = select (λ d. d.depends_on_id == id) (all_rows db)

-- GetDependenciesInTx
unfoldable pub get_dependencies : Tables → Text → List Issue
get_dependencies db id = get_issues_by_ids db (map (λ d. d.depends_on_id) (rows_from db id))

-- GetDependentsInTx
unfoldable pub get_dependents : Tables → Text → List Issue
get_dependents db id = get_issues_by_ids db (map (λ d. d.issue_id) (rows_to db id))

-- The results for the ids with their types, over the map of the fetched issues; an id without an
-- issue is passed over.
unfoldable pub with_metadata :
    List Issue → List (Text × DependencyType) → List (Issue × DependencyType)
with_metadata issues [] = []
with_metadata issues ((id, type) ∷ deps) =
    let rest = with_metadata issues deps in
    elim (last_row issues id) [ none ↦ rest | some i ↦ (i, type) ∷ rest ]

-- GetDependenciesWithMetadataInTx
unfoldable pub get_dependencies_with_metadata : Tables → Text → List (Issue × DependencyType)
get_dependencies_with_metadata db id =
    with_metadata (get_issues_by_ids db (map (λ d. d.depends_on_id) (rows_from db id)))
      (map (λ d. (d.depends_on_id, d.type)) (rows_from db id))

-- GetDependentsWithMetadataInTx
unfoldable pub get_dependents_with_metadata : Tables → Text → List (Issue × DependencyType)
get_dependents_with_metadata db id =
    with_metadata (get_issues_by_ids db (map (λ d. d.issue_id) (rows_to db id)))
      (map (λ d. (d.issue_id, d.type)) (rows_to db id))

-- blockedByMap, blocksMap and parentMap
pub record BlockingInfo : Type 0 where
  pub blocked_by : Text → List Text
  pub blocks : Text → List Text
  pub parent : Text → Option Text

abbrev pub no_info : BlockingInfo
no_info = record { blocked_by = λ id. []; blocks = λ id. []; parent = λ id. none }

-- COALESCE(i.status, '') = 'closed' in the LEFT JOIN on the key: the target has a row in the table, and is closed.
abbrev pub is_closed_target : List Issue → Dependency → Bool
is_closed_target issues d = elim (last_row issues d.depends_on_id) [
  | none ↦ status_closed == []
  | some i ↦ i.status == status_closed
]

-- type IN ('blocks', 'parent-child')
abbrev pub is_listed : Dependency → Bool
is_listed d = d.type == dep_blocks || d.type == dep_parent_child

abbrev pub set_at : {A : Type 0} → (Text → A) → Text → A → Text → A
set_at f k v x = if x == k then v else f x

-- The loop over the rows of query 1.
unfoldable pub add_blocked_by : List Issue → BlockingInfo → List Dependency → BlockingInfo
add_blocked_by issues info [] = info
add_blocked_by issues info (d ∷ ds) =
    add_blocked_by issues
      (if is_closed_target issues d
        then info
        else if d.type == dep_parent_child
        then record info { parent = set_at info.parent d.issue_id (some d.depends_on_id) }
        else record info {
          blocked_by =
              set_at info.blocked_by d.issue_id
                (info.blocked_by d.issue_id ++ (d.depends_on_id ∷ []));
        })
      ds

-- The loop over the rows of query 2.
unfoldable pub add_blocks : List Issue → BlockingInfo → List Dependency → BlockingInfo
add_blocks issues info [] = info
add_blocks issues info (d ∷ ds) =
    add_blocks issues
      (if is_closed_target issues d || d.type == dep_parent_child then info else record info {
        blocks =
            set_at info.blocks d.depends_on_id (info.blocks d.depends_on_id ++ (d.issue_id ∷ []));
      })
      ds

-- One round of queryBlockingInfo.
unfoldable pub query_batch : List Dependency → List Issue → BlockingInfo → List Text → BlockingInfo
query_batch deps issues info batch =
    add_blocks issues
      (add_blocked_by issues info (select (λ d. contains batch d.issue_id && is_listed d) deps))
      (select (λ d. contains batch d.depends_on_id && is_listed d) deps)

unfoldable pub query_batches :
    List Dependency → List Issue → BlockingInfo → List (List Text) → BlockingInfo
query_batches deps issues info [] = info
query_batches deps issues info (b ∷ bs) =
    query_batches deps issues (query_batch deps issues info b) bs

-- queryBlockingInfo
unfoldable pub query_blocking_info :
    List Dependency → List Issue → BlockingInfo → List Text → BlockingInfo
query_blocking_info deps issues info ids =
    query_batches deps issues info (batches (length ids) query_batch_size ids)

-- GetBlockingInfoForIssuesInTx
unfoldable pub get_blocking_info_for_issues : Tables → List Text → BlockingInfo
get_blocking_info_for_issues db ids =
    query_blocking_info db.dependencies db.issues
      (query_blocking_info db.wisp_dependencies db.wisps no_info (select (is_active_wisp db) ids))
      (select (λ id. not (is_active_wisp db id)) ids)

-- GetAllDependencyRecordsInTx
unfoldable pub get_all_dependency_records : Tables → Text → List Dependency
get_all_dependency_records db id = select (λ d. d.issue_id == id) db.dependencies

-- The rows that the batches bring under a key.
unfoldable pub records_in : List Dependency → List Text → Text → List Dependency
records_in rows ids id =
    concat_map (λ batch. select (λ d. contains batch d.issue_id && d.issue_id == id) rows)
      (batches (length ids) query_batch_size ids)

-- GetDependencyRecordsForIssuesInTx
unfoldable pub get_dependency_records_for_issues : Tables → List Text → Text → List Dependency
get_dependency_records_for_issues db ids id =
    records_in db.wisp_dependencies (select (is_active_wisp db) ids) id
    ++ records_in db.dependencies (select (λ i. not (is_active_wisp db i)) ids) id

-- DependencyCounts
pub record DependencyCounts : Type 0 where
  pub dependency_count : ℕ
  pub dependent_count : ℕ

-- The count of a row of a GROUP BY, where there is one; the count before, where there is none.
abbrev pub count_or : List Dependency → ℕ → ℕ
count_or [] before = before
count_or (d ∷ ds) before = length (d ∷ ds)

abbrev pub blocks_rows : (Dependency → Text) → List Dependency → List Text → Text → List Dependency
blocks_rows key rows batch id =
    select (λ d. contains batch (key d) && d.type == dep_blocks && key d == id) rows

-- One round of the loop over the batches, for a key of the map.
unfoldable pub count_batch :
    List Dependency → Text → DependencyCounts → List Text → DependencyCounts
count_batch rows id c batch = record {
  dependency_count = count_or (blocks_rows (λ d. d.issue_id) rows batch id) c.dependency_count;
  dependent_count = count_or (blocks_rows (λ d. d.depends_on_id) rows batch id) c.dependent_count;
}

unfoldable pub count_batches :
    List Dependency → Text → DependencyCounts → List (List Text) → DependencyCounts
count_batches rows id c [] = c
count_batches rows id c (b ∷ bs) = count_batches rows id (count_batch rows id c b) bs

-- GetDependencyCountsInTx; `none` where the map has no such key.
unfoldable pub get_dependency_counts : Tables → List Text → Text → Option DependencyCounts
get_dependency_counts db ids id =
    if contains ids id
    then some (
        count_batches db.dependencies id (record { dependency_count = 0; dependent_count = 0 })
          (batches (length ids) query_batch_size ids))
    else none
