-- ===== src/Tests/Cycles.antt =====
-- Two tasks that block each other.
use bd.Prelude.{◌≡◌, refl, some, List, [], ◌∷◌, In}
use bd.Prelude.Text.{Text, ◌==◌}
use bd.Types.DependencyType.{dep_blocks}
use bd.Types.Issue.{Issue}
use bd.Storage.Tables.{Tables, is_active_wisp, wisp_table_routing, get_issue}
use bd.Storage.Blocked.{put, put_all}
use bd.Storage.Dependencies.{blocking_edges, edges_of_rows, is_cycle_type, successors}
use bd.Storage.Dependencies.Acyclic.{graph}
use bd.Storage.Cycles.{
  enter, leave, record_cycle, scan_neighbors, dfs, search_all, issues_of, detect_cycles,
}
use bd.Storage.Cycles.Real.{IsCycle}
use bd.Storage.Cycles.Ends.{detect_cycles-IsCycle}
use bd.Tests.Samples.{task, a, b, dep, tables}

program : Unit {0}
unfolding ◌==◌ is_active_wisp wisp_table_routing get_issue enter leave record_cycle scan_neighbors
    dfs search_all detect_cycles put put_all blocking_edges edges_of_rows is_cycle_type successors
program = tt

abbrev db : Tables
db = tables (task a ∷ task b ∷ []) (dep a b dep_blocks ∷ dep b a dep_blocks ∷ [])

listed : detect_cycles db ≡ some ((task b ∷ task a ∷ []) ∷ [])
unfolding program
listed = refl

detect_cycles-IsCycle_example :
    (cycles : List (List Issue)) × (detect_cycles db ≡ some cycles)
    × ((c : List Issue)
        → In c cycles
        → (ids : List Text) × IsCycle (graph db) ids × (c ≡ issues_of db ids))
detect_cycles-IsCycle_example = detect_cycles-IsCycle db
