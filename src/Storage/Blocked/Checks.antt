-- ===== src/Storage/Blocked/Checks.antt =====
-- internal/storage/issueops/dependency_queries.go, IsBlockedInTx and GetNewlyUnblockedByCloseInTx: the check of
-- one issue, and the issues that a close unblocks.
use bd.Prelude.{
  Bool, true, false, ◌&&◌, ◌||◌, not, Option, none, some, List, [], ◌∷◌, ◌++◌, map, any, select,
  length, eqb, if◌then◌else◌,
}
use bd.Prelude.Text.{Text, codes, ◌==◌}
use bd.Types.Issue.{Issue}
use bd.Types.Status.{status_closed, status_pinned}
use bd.Types.DependencyType.{Dependency, dep_blocks}
use bd.Storage.Tables.{
  Tables, dep_rows, select_issue, get_issue, is_active_wisp, wisp_table_routing,
}
use bd.Storage.Blocked.{dep_tables, concat_map, put_all, is_direct, is_waits_for}

-- SELECT status FROM issues, then FROM wisps, WHERE id = ?: the first row that is found.
unfoldable pub find_status : Tables → Text → Option Text
find_status db id = elim (select_issue db.issues id) [
  | some i ↦ some i.status
  | none ↦ elim (select_issue db.wisps id) [ some i ↦ some i.status | none ↦ none ]
]

-- Found, and neither closed nor pinned.
unfoldable pub is_active : Tables → Text → Bool
is_active db id = elim (find_status db id) [
  | none ↦ false
  | some s ↦ not (s == status_closed || s == status_pinned)
]

-- The dependency rows of the table that an issue's own rows are in.
unfoldable pub own_rows : Tables → Text → List Dependency
own_rows db id = dep_rows db (wisp_table_routing (is_active_wisp db id)).dep_table

-- The text that describes a blocker.
unfoldable pub blocker_text : Dependency → Text
blocker_text d =
    if d.type == dep_blocks
    then d.depends_on_id
    else d.depends_on_id ++ codes " (" ++ d.type ++ codes ")"

-- The loop of step 2 of IsBlockedInTx.
unfoldable pub active_blockers : Tables → List Dependency → List Text
active_blockers db [] = []
active_blockers db (d ∷ ds) =
    if is_active db d.depends_on_id
    then blocker_text d ∷ active_blockers db ds
    else active_blockers db ds

-- IsBlockedInTx
unfoldable pub is_blocked : Tables → Text → Bool × List Text
is_blocked db id =
    let edges =
      select (λ d. d.issue_id == id && (is_direct d || is_waits_for d)) (own_rows db id) in
    let blockers = active_blockers db edges in (not (eqb (length blockers) 0), blockers)

-- Step 1 of GetNewlyUnblockedByCloseInTx.
unfoldable pub candidates : Tables → Text → List Text
candidates db closed_id = select (is_active db) (
    put_all [] (
      concat_map
        (λ t.
          map (λ d. d.issue_id)
            (select (λ d. d.depends_on_id == closed_id && d.type == dep_blocks) (dep_rows db t)))
        (dep_tables true)))

-- Step 2, for one candidate. A blocker with an empty status counts as not active.
unfoldable pub still_blocked : Tables → Text → Text → Bool
still_blocked db closed_id id =
    any
      (λ d.
        d.issue_id == id
        && d.type == dep_blocks
        && not (d.depends_on_id == closed_id)
        && (is_active db d.depends_on_id
            && not (elim (find_status db d.depends_on_id) [ none ↦ true | some s ↦ s == [] ])))
      (own_rows db id)

-- Step 3: the issues that are found.
unfoldable pub collect : Tables → List Text → List Issue
collect db [] = []
collect db (id ∷ ids) = elim (get_issue db id) [
  | none ↦ collect db ids
  | some i ↦ i ∷ collect db ids
]

-- GetNewlyUnblockedByCloseInTx
unfoldable pub get_newly_unblocked_by_close : Tables → Text → List Issue
get_newly_unblocked_by_close db closed_id =
    collect db (select (λ id. not (still_blocked db closed_id id)) (candidates db closed_id))
