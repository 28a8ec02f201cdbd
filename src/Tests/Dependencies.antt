-- ===== src/Tests/Dependencies.antt =====
-- The graph of dependencies on small tables.
use bd.Prelude.{◌≡◌, refl, false, none, [], ◌∷◌}
use bd.Prelude.Text.{◌==◌, has_prefix}
use bd.Types.DependencyType.{dep_blocks}
use bd.Storage.Tables.{Tables, is_active_wisp, wisp_table_routing}
use bd.Storage.Dependencies.{
  AddDependencyOpts, ok, err, would_create_cycle, is_cycle_type, edges_of_rows, blocking_edges,
  hits, max_depth, reachable_rows, next_level, successors, detect_cycle, is_foreign,
  lookup_target_type, check_types, update_metadata, write_dependency, insert_checked,
  add_dependency, remove_dependency,
}
use bd.Storage.Dependencies.Walks.{IsAcyclic}
use bd.Storage.Dependencies.Acyclic.{graph, add_dependency-IsAcyclic}
use bd.Storage.Dependencies.Effects.{remove-add}
use bd.Storage.Dependencies.Histories.{here, next, added, Reach-IsAcyclic}
use bd.Tests.Samples.{task, a, b, c, me, dep, tables}

abbrev opts : AddDependencyOpts
opts = record {
  source_table = none;
  target_table = none;
  write_table = none;
  dep_tables = [];
  is_cross_prefix = false;
}

abbrev start : Tables
start = tables (task a ∷ task b ∷ task c ∷ []) []

abbrev linked : Tables
linked = tables (task a ∷ task b ∷ task c ∷ []) (dep a b dep_blocks ∷ [])

program : Unit {0}
unfolding ◌==◌ has_prefix is_active_wisp wisp_table_routing is_cycle_type edges_of_rows
    blocking_edges hits max_depth reachable_rows next_level successors detect_cycle is_foreign
    lookup_target_type check_types update_metadata write_dependency insert_checked add_dependency
    remove_dependency
program = tt

link : add_dependency start (dep a b dep_blocks) me 7 opts ≡ ok linked
unfolding program
link = refl

back_link : add_dependency linked (dep b a dep_blocks) me 8 opts ≡ err would_create_cycle
unfolding program
back_link = refl

start-IsAcyclic : IsAcyclic (graph start)
unfolding blocking_edges edges_of_rows
start-IsAcyclic x n (y, m, w) = m

add_dependency-IsAcyclic_example : IsAcyclic (graph linked)
add_dependency-IsAcyclic_example =
    add_dependency-IsAcyclic start (dep a b dep_blocks) me 7 opts refl start-IsAcyclic link

Reach-IsAcyclic_example : IsAcyclic (graph linked)
Reach-IsAcyclic_example =
    Reach-IsAcyclic start-IsAcyclic (next here (added (dep a b dep_blocks) me 7 opts refl link))

remove-add_example : remove_dependency linked a b ≡ ok start
unfolding program
remove-add_example = remove-add start (dep a b dep_blocks) me 7 opts refl refl link
