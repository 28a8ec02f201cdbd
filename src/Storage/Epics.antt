-- ===== src/Storage/Epics.antt =====
-- internal/storage/issueops/epic_closure.go, GetEpicsEligibleForClosureInTx, and GetIssuesByIDsInTx of
-- dependencies.go without the labels. Both tables of wisps exist.
pub mod LastRows
pub mod Children
pub mod Eligible
use bd.Prelude.{
  ℕ, suc, Bool, true, false, ◌&&◌, not, Option, none, some, List, [], ◌∷◌, ◌++◌, map, select, eqb,
  ltb, length, if◌then◌else◌,
}
use bd.Prelude.Text.{Text, ◌==◌, contains}
use bd.Types.Status.{status_closed}
use bd.Types.IssueType.{type_epic}
use bd.Types.DependencyType.{Dependency, dep_parent_child}
use bd.Types.Issue.{Issue}
use bd.Storage.Tables.{Tables, is_active_wisp}
use bd.Storage.Blocked.{query_batch_size, batches, concat_map}

-- EpicStatus
pub record EpicStatus : Type 0 where
  pub epic : Issue
  pub total_children : ℕ
  pub closed_children : ℕ
  pub eligible_for_close : Bool

-- m[id], after m[row.id] = row for each row in turn.
unfoldable pub last_row : List Issue → Text → Option Issue
last_row [] id = none
last_row (i ∷ rows) id = elim (last_row rows id) [
  | some j ↦ some j
  | none ↦ if i.id == id then some i else none
]

-- SELECT … FROM table WHERE id IN (…), batch by batch.
unfoldable pub rows_in : List Issue → List Text → List Issue
rows_in rows ids =
    concat_map (λ batch. select (λ i. contains batch i.id) rows)
      (batches (length ids) query_batch_size ids)

-- GetIssuesByIDsInTx
unfoldable pub get_issues_by_ids : Tables → List Text → List Issue
get_issues_by_ids db ids =
    rows_in db.issues (select (λ id. not (is_active_wisp db id)) ids)
    ++ rows_in db.wisps (select (is_active_wisp db) ids)

-- Step 1
unfoldable pub epic_ids : Tables → List Text
epic_ids db =
    map (λ i. i.id)
      (select (λ i. i.issue_type == type_epic && not (i.status == status_closed)) db.issues)

-- epicChildMap[id] of step 2
unfoldable pub epic_children : Tables → List Text → Text → List Text
epic_children db epics id =
    map (λ d. d.issue_id)
      (select (λ d. contains epics d.depends_on_id && d.depends_on_id == id)
        (select (λ d. d.type == dep_parent_child) (db.dependencies ++ db.wisp_dependencies)))

-- The rows of step 3: the wisps overwrite the issues in the map.
unfoldable pub child_issues : Tables → List Text → List Issue
child_issues db epics =
    let all_child_ids = concat_map (epic_children db epics) epics in
    rows_in db.issues all_child_ids ++ rows_in db.wisps all_child_ids

unfoldable pub is_closed_child : List Issue → Text → Bool
is_closed_child rows id = elim (last_row rows id) [
  | none ↦ false
  | some i ↦ i.status == status_closed
]

-- The loop that counts the closed children.
unfoldable pub count_closed : List Issue → List Text → ℕ
count_closed rows [] = 0
count_closed rows (c ∷ cs) =
    if is_closed_child rows c then suc (count_closed rows cs) else count_closed rows cs

abbrev pub epic_status : List Issue → List Text → Issue → EpicStatus
epic_status rows children i = record {
  epic = i;
  total_children = length children;
  closed_children = count_closed rows children;
  eligible_for_close =
      ltb 0 (length children) && eqb (length children) (count_closed rows children);
}

-- Step 5, for one epic.
unfoldable pub epic_result : List Issue → List Issue → List Text → Text → List EpicStatus
epic_result epic_rows rows children id =
    if eqb (length children) 0
    then []
    else (elim (last_row epic_rows id) [ none ↦ [] | some i ↦ epic_status rows children i ∷ [] ])

-- GetEpicsEligibleForClosureInTx
unfoldable pub get_epics_eligible_for_closure : Tables → List EpicStatus
get_epics_eligible_for_closure db =
    let epics = epic_ids db in
    let with_children = select (λ id. ltb 0 (length (epic_children db epics id))) epics in
    let epic_rows = get_issues_by_ids db with_children in
    concat_map (λ id. epic_result epic_rows (child_issues db epics) (epic_children db epics id) id)
      epics
