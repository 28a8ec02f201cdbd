-- ===== src/Tests/Samples.antt =====
-- Issues, edges and tables that the tests share.
use bd.Prelude.{false, none, List, []}
use bd.Prelude.Int.{pos}
use bd.Prelude.Text.{Text, codes}
use bd.Types.Status.{status_open}
use bd.Types.IssueType.{type_task}
use bd.Types.DependencyType.{DependencyType, Dependency}
use bd.Types.Issue.{Issue}
use bd.Storage.Tables.{Tables}
use bd.Storage.Store.{Store}

abbrev pub task : Text → Issue
task id = record {
  id = id;
  title = codes "A task";
  description = [];
  design = [];
  acceptance_criteria = [];
  notes = [];
  spec_id = [];
  status = status_open;
  priority = pos 2;
  issue_type = type_task;
  assignee = [];
  owner = [];
  estimated_minutes = none;
  created_at = 10;
  created_by = [];
  updated_at = 10;
  closed_at = none;
  close_reason = [];
  closed_by_session = [];
  due_at = none;
  defer_until = none;
  external_ref = none;
  source_system = [];
  metadata = [];
  compaction_level = 0;
  source_repo = [];
  labels = [];
  sender = [];
  ephemeral = false;
  no_history = false;
  wisp_type = [];
  pinned = false;
  is_template = false;
  bonded_from = [];
  await_type = [];
  await_id = [];
  timeout = 0;
  waiters = [];
  mol_type = [];
  work_type = [];
  event_kind = [];
  actor = [];
  target = [];
  payload = [];
}

abbrev pub a : Text
a = codes "bd-a1"

abbrev pub b : Text
b = codes "bd-b2"

abbrev pub c : Text
c = codes "bd-c3"

abbrev pub me : Text
me = codes "ann"

abbrev pub dep : Text → Text → DependencyType → Dependency
dep s t type = record {
  issue_id = s;
  depends_on_id = t;
  type = type;
  created_at = 7;
  created_by = me;
  metadata = codes "{}";
  thread_id = [];
}

abbrev pub tables : List Issue → List Dependency → Tables
tables issues deps = record {
  issues = issues;
  wisps = [];
  dependencies = deps;
  wisp_dependencies = [];
  events = [];
  wisp_events = [];
}

abbrev pub store : Tables → Store
store db = record {
  tables = db;
  labels = [];
  wisp_labels = [];
  comments = [];
  wisp_comments = [];
  child_counters = [];
  issue_counter = [];
  config = [];
  custom_types = [];
}
