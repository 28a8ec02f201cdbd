-- ===== src/Storage/Tables.antt =====
-- The tables that internal/storage/issueops reads and writes (internal/storage/embeddeddolt/schema),
-- as lists of rows, and wisp_routing.go, get_issue.go. Texts are compared bytewise, as Dolt's
-- default collation does. A query that finds no row gives `none`; other database errors, which
-- abort the transaction, are left out.
use bd.Prelude.{Bool, Option, List, any, find?, if◌then◌else◌, ◌++◌, [], ◌∷◌, map}
use bd.Prelude.Text.{Text, ◌==◌}
use bd.Types.Issue.{Issue}
use bd.Types.DependencyType.{Dependency}

-- A row of the tables events and wisp_events; a value that is NULL is the empty text.
pub record EventRow : Type 0 where
  pub issue_id : Text
  pub event_type : Text
  pub actor : Text
  pub old_value : Text
  pub new_value : Text
  pub comment : Option Text

-- The transaction's view of the database.
pub record Tables : Type 0 where
  pub issues : List Issue
  pub wisps : List Issue
  pub dependencies : List Dependency
  pub wisp_dependencies : List Dependency
  pub events : List EventRow
  pub wisp_events : List EventRow

pub data IssueTable : Type 0 where
  issues_table wisps_table : IssueTable

pub data DepTable : Type 0 where
  dependencies_table wisp_dependencies_table : DepTable

pub data EventTable : Type 0 where
  events_table wisp_events_table : EventTable

-- IsActiveWispInTx
unfoldable pub is_active_wisp : Tables → Text → Bool
is_active_wisp db id = any (λ i. i.id == id) db.wisps

pub record Routing : Type 0 where
  pub issue_table : IssueTable
  pub event_table : EventTable
  pub dep_table : DepTable

-- WispTableRouting. The label tables are not modelled.
unfoldable pub wisp_table_routing : Bool → Routing
wisp_table_routing is_wisp =
    if is_wisp
    then record {
      issue_table = wisps_table;
      event_table = wisp_events_table;
      dep_table = wisp_dependencies_table;
    }
    else record {
      issue_table = issues_table;
      event_table = events_table;
      dep_table = dependencies_table;
    }

abbrev pub issue_rows : Tables → IssueTable → List Issue
issue_rows db issues_table = db.issues
issue_rows db wisps_table = db.wisps

abbrev pub dep_rows : Tables → DepTable → List Dependency
dep_rows db dependencies_table = db.dependencies
dep_rows db wisp_dependencies_table = db.wisp_dependencies

abbrev pub set_issue_rows : Tables → IssueTable → List Issue → Tables
set_issue_rows db issues_table rows = record db { issues = rows }
set_issue_rows db wisps_table rows = record db { wisps = rows }

abbrev pub set_dep_rows : Tables → DepTable → List Dependency → Tables
set_dep_rows db dependencies_table rows = record db { dependencies = rows }
set_dep_rows db wisp_dependencies_table rows = record db { wisp_dependencies = rows }

-- SELECT … FROM table WHERE id = ?
abbrev pub select_issue : List Issue → Text → Option Issue
select_issue rows id = find? (λ i. i.id == id) rows

-- GetIssueInTx, without the labels.
unfoldable pub get_issue : Tables → Text → Option Issue
get_issue db id =
    select_issue (issue_rows db (wisp_table_routing (is_active_wisp db id)).issue_table) id

-- INSERT INTO table (RecordEventInTable, RecordFullEventInTable)
abbrev pub record_event : Tables → EventTable → EventRow → Tables
record_event db events_table e = record db { events = db.events ++ (e ∷ []) }
record_event db wisp_events_table e = record db { wisp_events = db.wisp_events ++ (e ∷ []) }

-- UPDATE table SET … WHERE id = ?: the rows of that id, changed.
abbrev pub update_rows : (Issue → Issue) → Text → List Issue → List Issue
update_rows f id = map (λ i. if i.id == id then f i else i)
