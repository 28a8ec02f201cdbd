-- ===== src/Tests/BlockedIssues.antt =====
-- A task with a row that blocks it and a child; and one that waits for a closed task with an open child.
use bd.Prelude.{◌≡◌, refl, true, some, List, [], ◌∷◌}
use bd.Prelude.Order.{text_leb, keys_leb, insert_by, sort_by}
use bd.Prelude.Text.{Text, codes, ◌==◌, contains, has_prefix, trim_left, trim_right, trim_space}
use bd.Types.DependencyType.{dep_blocks, dep_parent_child, dep_waits_for}
use bd.Types.Status.{status_closed}
use bd.Types.Issue.{Issue}
use bd.Storage.Tables.{Tables, is_active_wisp}
use bd.Storage.Blocked.{
  put, put_all, batches, active_ids, all_deps, parse_waits_for_gate, scan_dep, scan_deps,
  load_children, spawner_children, load_closed, any_gate_blocks, gate_blocks, eval_gates,
  compute_blocked_ids,
}
use bd.Storage.Epics.{last_row, rows_in, get_issues_by_ids}
use bd.Storage.Ready.{get_children_of_issues}
use bd.Storage.BlockedIssues.{
  BlockedIssue, set_key, get_key, set_parents, get_children_with_parents, add_children,
  append_blocker, add_blockers, add_parents, blocked_set, blocker_map, in_parent, blocked_results,
  get_blocked_issues,
}
use bd.Tests.Samples.{task, a, b, c, dep, tables}
use bd.Tests.Ready.{no_gate, filter, behind_wisp}

program : Unit {0}
unfolding ◌==◌ text_leb keys_leb insert_by sort_by has_prefix trim_left trim_right trim_space
    is_active_wisp put put_all batches active_ids all_deps parse_waits_for_gate scan_dep scan_deps
    load_children spawner_children load_closed any_gate_blocks gate_blocks eval_gates
    compute_blocked_ids last_row rows_in get_issues_by_ids get_children_of_issues set_key get_key
    set_parents get_children_with_parents add_children append_blocker add_blockers add_parents
    blocked_set blocker_map in_parent blocked_results get_blocked_issues
program = tt

abbrev family : Tables
family = tables (task a ∷ task b ∷ task c ∷ []) (dep b a dep_blocks ∷ dep c b dep_parent_child ∷ [])

abbrev listed : Issue → List Text → BlockedIssue
listed i bs = record { issue = i; blocked_by_count = 1; blocked_by = bs }

both :
    get_blocked_issues no_gate family filter
    ≡ listed (task b) (a ∷ []) ∷ listed (task c) (b ∷ []) ∷ []
unfolding program
both = refl

of_parent :
    get_blocked_issues no_gate family (record filter { parent_id = some b })
    ≡ listed (task c) (b ∷ []) ∷ []
unfolding program
of_parent = refl

-- b waits for the closed a, whose child c is open.
abbrev waiting : Tables
waiting =
    tables (record (task a) { status = status_closed } ∷ task b ∷ task c ∷ [])
      (dep b a dep_waits_for ∷ dep c a dep_parent_child ∷ [])

waits : contains (compute_blocked_ids no_gate waiting true) b ≡ true
unfolding program
waits = refl

not_listed : get_blocked_issues no_gate waiting filter ≡ []
unfolding program
not_listed = refl

behind_wisp_blocked :
    get_blocked_issues no_gate behind_wisp.tables filter ≡ listed (task a) (codes "bd-w" ∷ []) ∷ []
unfolding program
behind_wisp_blocked = refl
