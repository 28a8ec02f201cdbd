-- ===== src/Tests/Tree.antt =====
-- A task that depends on two, of which one depends on the other.
use bd.Prelude.{ℕ, ◌≡◌, ◌<◌, refl, true, false, some, List, [], ◌∷◌, In}
use bd.Prelude.Text.{Text, ◌==◌}
use bd.Types.DependencyType.{dep_blocks}
use bd.Storage.Tables.{Tables, is_active_wisp, wisp_table_routing, get_issue}
use bd.Storage.Blocked.{batches}
use bd.Storage.Epics.{rows_in, last_row, get_issues_by_ids}
use bd.Storage.Listings.{
  records_in, get_dependency_records_for_issues, count_batch, count_batches, get_dependency_counts,
  get_dependencies, get_dependents, with_metadata, get_dependencies_with_metadata, add_blocked_by,
  add_blocks, query_batch, query_batches, query_blocking_info, get_blocking_info_for_issues,
}
use bd.Storage.Tree.{TreeNode, related, build_each, build_dependency_tree, get_dependency_tree}
use bd.Prelude.Distinct.{IsDistinct}
use bd.Storage.Tree.Distinct.{ids_of_nodes, get_dependency_tree_distinct}
use bd.Tests.Samples.{task, a, b, c, dep, tables}

program : Unit {0}
unfolding ◌==◌ is_active_wisp wisp_table_routing get_issue batches rows_in last_row
    get_issues_by_ids get_dependencies get_dependents with_metadata get_dependencies_with_metadata
    add_blocked_by add_blocks query_batch query_batches query_blocking_info
    get_blocking_info_for_issues related build_each build_dependency_tree get_dependency_tree
    records_in get_dependency_records_for_issues count_batch count_batches get_dependency_counts
program = tt

abbrev db : Tables
db =
    tables (task a ∷ task b ∷ task c ∷ [])
      (dep a b dep_blocks ∷ dep a c dep_blocks ∷ dep b c dep_blocks ∷ dep c a dep_blocks ∷ [])

abbrev node : Text → ℕ → Text → TreeNode
node id depth parent = record { issue = task id; depth = depth; parent_id = parent }

tree : get_dependency_tree db a 5 true false ≡ some (node a 0 [] ∷ node b 1 a ∷ node c 2 b ∷ [])
unfolding program
tree = refl

found : get_issue db a ≡ some (task a)
unfolding program
found = refl

typed : get_dependencies_with_metadata db b ≡ (task c, dep_blocks) ∷ []
unfolding program
typed = refl

blockers : (get_blocking_info_for_issues db (a ∷ [])).blocked_by a ≡ b ∷ c ∷ []
unfolding program
blockers = refl

counts :
    get_dependency_counts db (a ∷ b ∷ []) a
    ≡ some (record { dependency_count = 2; dependent_count = 1 })
unfolding program
counts = refl

records : get_dependency_records_for_issues db (a ∷ b ∷ []) b ≡ dep b c dep_blocks ∷ []
unfolding program
records = refl

get_dependency_tree_distinct_example :
    (nodes : List TreeNode) × (get_dependency_tree db a 5 true true ≡ some nodes)
    × IsDistinct (ids_of_nodes nodes)
    × ((n : TreeNode) → In n nodes → n.depth < 5)
get_dependency_tree_distinct_example = get_dependency_tree_distinct db a 5 true true (task a) found
