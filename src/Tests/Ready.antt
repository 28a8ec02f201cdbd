-- ===== src/Tests/Ready.antt =====
-- Tasks of which one is blocked, one has a blocked parent and one is deferred; and a wisp.
use bd.Prelude.{
  ◌≡◌, ◌↔◌, ◌⊎◌, refl, inl, inr, true, false, Option, none, some, List, [], ◌∷◌, map, In,
}
use bd.Prelude.Int.{pos}
use bd.Prelude.Order.{text_leb, keys_leb, insert_by, sort_by}
use bd.Prelude.Distinct.{IsDistinct}
use bd.Prelude.Text.{
  Text, codes, ◌==◌, ne_of_test, has_infix, index_byte, lower, to_lower, trim_left, trim_right,
  trim_space,
}
use bd.Types.DependencyType.{dep_blocks, dep_parent_child}
use bd.Types.Status.{status_closed}
use bd.Types.Issue.{Issue}
use bd.Storage.Tables.{is_active_wisp}
use bd.Storage.Store.{Store}
use bd.Storage.Numbering.{like_rest}
use bd.Storage.Blocked.{
  put, put_all, batches, active_ids, all_deps, parse_waits_for_gate, scan_dep, scan_deps,
  load_children, spawner_children, load_closed, gate_blocks, eval_gates, compute_blocked_ids,
}
use bd.Storage.Epics.{last_row, rows_in, get_issues_by_ids}
use bd.Storage.Metadata.{validate_metadata_key, json_metadata_path}
use bd.Storage.Labels.{get_labels_for_issues}
use bd.Storage.Filters.{
  issues_filter_tables, wisps_filter_tables, looks_like_issue_id, valid_keys, query_clauses,
  text_clauses, kind_clauses, place_clauses, flag_clauses, time_clauses, metadata_clauses,
  build_issue_filter_clauses,
}
use bd.Types.Filters.{no_filter}
use bd.Storage.Search.{
  hydrate, merge, search_table, search_issues_table, search_wisps_table, search_issues,
}
use bd.Storage.Search.Found.{ids_of, IsFound, search_issues-IsFound}
use bd.Storage.Ready.{
  get_children_of_issues, get_children_of_deferred_parents, outside, status_clause, type_clause,
  assignee_clause, policy_keys, in_order, blocked_ids, filter_clauses, is_ready_row, ready_ids,
  ready_wisps, get_ready_work,
}
use bd.Types.Filters.{WorkFilter}
use bd.Storage.BlockedIssues.{get_blocked_issues}
use bd.Storage.BlockedIssues.Results.{listed_id}
use bd.Storage.BlockedIssues.Disjoint.{ready_ids-get_blocked_issues}
use bd.Tests.Samples.{task, a, b, c, dep, tables, store}

program : Unit {0}
unfolding ◌==◌ text_leb keys_leb insert_by sort_by has_infix index_byte lower to_lower trim_left
    trim_right trim_space is_active_wisp like_rest put put_all batches active_ids all_deps
    parse_waits_for_gate scan_dep scan_deps load_children spawner_children load_closed gate_blocks
    eval_gates compute_blocked_ids last_row rows_in get_issues_by_ids validate_metadata_key
    json_metadata_path get_labels_for_issues looks_like_issue_id valid_keys query_clauses
    text_clauses kind_clauses place_clauses flag_clauses time_clauses metadata_clauses
    build_issue_filter_clauses hydrate merge search_table search_issues_table search_wisps_table
    search_issues get_children_of_issues get_children_of_deferred_parents outside status_clause
    type_clause assignee_clause policy_keys in_order blocked_ids filter_clauses is_ready_row
    ready_ids ready_wisps get_ready_work
program = tt

abbrev pub no_gate : Text → Option Text
no_gate m = none

abbrev no_value : Text → Text → Option Text
no_value m path = none

abbrev urgent : Issue
urgent = record (task (codes "bd-u")) { priority = pos 0; created_at = 5 }

abbrev later : Issue
later = record (task (codes "bd-l")) { defer_until = some 99 }

abbrev wisp : Issue
wisp = record (task (codes "bd-w")) { ephemeral = true }

abbrev db : Store
db =
    record (store
      (record (tables (task a ∷ task b ∷ task c ∷ urgent ∷ later ∷ [])
        (dep b a dep_blocks ∷ dep c b dep_parent_child ∷ [])) { wisps = wisp ∷ [] })) {
          labels = record { issue_id = a; label = codes "ui" } ∷ [];
        }

abbrev pub filter : WorkFilter
filter = record {
  status = [];
  type = [];
  priority = none;
  assignee = none;
  unassigned = false;
  labels = [];
  limit = 1;
  sort_policy = [];
  parent_id = none;
  molecule_id = [];
  include_deferred = false;
  include_ephemeral = true;
  metadata_fields = [];
  has_metadata_key = [];
}

oldest :
    ready_ids no_gate no_value db (record filter { sort_policy = codes "oldest"; limit = 1 }) 50
    ≡ codes "bd-u" ∷ []
unfolding program
oldest = refl

bad_key :
    get_ready_work no_gate no_value db (record filter { has_metadata_key = codes "1" }) 50 ≡ none
unfolding program
bad_key = refl

found :
    search_issues no_value db 50 (codes "BD-A") no_filter
    ≡ some (record (task a) { labels = codes "ui" ∷ [] } ∷ [])
unfolding program
found = refl

-- A closed wisp counts as ready.
abbrev closed_wisp : Issue
closed_wisp = record wisp { status = status_closed }

closed_wisp_ready :
    get_ready_work no_gate no_value
      (store (record (tables [] []) { wisps = closed_wisp ∷ [] }))
      filter
      50
    ≡ some (closed_wisp ∷ [])
unfolding program
closed_wisp_ready = refl

-- Without the ephemeral issues, a wisp blocks no issue.
abbrev pub behind_wisp : Store
behind_wisp =
    store (record (tables (task a ∷ []) (dep a wisp.id dep_blocks ∷ [])) { wisps = wisp ∷ [] })

behind_wisp_ready :
    ready_ids no_gate no_value behind_wisp (record filter { include_ephemeral = false }) 50 ≡ a ∷ []
unfolding program
behind_wisp_ready = refl

ready_ids-get_blocked_issues_example :
    ¬ In (codes "bd-u") (map listed_id (get_blocked_issues no_gate db.tables filter))
unfolding program
ready_ids-get_blocked_issues_example =
    ready_ids-get_blocked_issues no_gate no_value db filter filter 50 (codes "bd-u") refl (inl refl)

abbrev pair : Store
pair = record (store (record (tables (task a ∷ task b ∷ []) []) { wisps = task b ∷ [] })) {
  labels = [];
}

different : (a == b) ≡ false
unfolding program
different = refl

issues_distinct : IsDistinct (ids_of pair.tables.issues)
issues_distinct =
    (λ m. elim m [ inl e ↦ ne_of_test a b different e | inr k ↦ absurd k ], (λ m. absurd m, tt))

wisps_distinct : IsDistinct (ids_of pair.tables.wisps)
wisps_distinct = (λ m. absurd m, tt)

no_keys : valid_keys no_filter.has_metadata_key no_filter.metadata_fields ≡ true
unfolding program
no_keys = refl

search_issues-IsFound_example :
    (results : List Issue) × (search_issues no_value pair 50 (codes "task") no_filter
      ≡ some results)
    × IsDistinct (ids_of results)
    × ((id : Text)
        → In id (ids_of results) ↔ (
            IsFound no_value pair 50 (codes "task") no_filter (issues_filter_tables pair) id
            ⊎ IsFound no_value pair 50 (codes "task") no_filter (wisps_filter_tables pair) id))
search_issues-IsFound_example =
    search_issues-IsFound no_value pair 50 (codes "task") no_filter refl no_keys issues_distinct
      wisps_distinct refl
