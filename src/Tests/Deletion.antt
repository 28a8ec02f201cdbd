-- ===== src/Tests/Deletion.antt =====
-- Deletions on a chain of three issues.
use bd.Prelude.{ℕ, ◌≡◌, ◌≢◌, ◌↔◌, refl, Bool, true, false, List, [], ◌∷◌, In}
use bd.Prelude.Text.{Text, ◌==◌, contains}
use bd.Types.DependencyType.{dep_blocks, Dependency}
use bd.Types.Issue.{Issue}
use bd.Storage.Tables.{is_active_wisp}
use bd.Storage.Store.{Store}
use bd.Storage.Blocked.{put, put_all, batches}
use bd.Storage.Dependencies.{edges_of_rows, blocking_edges, is_cycle_type}
use bd.Storage.Dependencies.Walks.{IsAcyclic}
use bd.Storage.Dependencies.Acyclic.{graph}
use bd.Storage.Lifecycle.Consistent.{IsConsistent}
use bd.Storage.Deletion.{
  ok, err, has_dependents, DeleteIssuesResult, delete_from_issues, delete_wisp_rows,
  delete_issue_rows, delete_issue, delete_wisps, dependents, visit, visit_all, process_batch, found,
  out_of_fuel, find_loop, find_all_dependents,
}
use bd.Storage.Deletion.Issues.{
  external_dependents, check_batch, check_batches, find_external_dependents, resolve_ids, count_in,
  count_inbound, delete_batch, delete_batches, total_deleted, delete_expanded, delete_regular,
  delete_issues,
}
use bd.Storage.Deletion.Search.{find_all_dependents_ends}
use bd.Storage.Deletion.Closure.{Reaches, find_all_dependents_iff}
use bd.Storage.Deletion.Modes.{IsRegular, delete_issues-cascade}
use bd.Storage.Deletion.Checked.{delete_issues-checked}
use bd.Storage.Deletion.Invariants.{delete_issues-HasEnds}
use bd.Storage.Deletion.Ends.{HasEnds}
use bd.Storage.Deletion.Effects.{has_id}
use bd.Tests.Samples.{task, a, b, c, dep, tables, store}
use bd.Tests.Lifecycle.{one_row, task-IsStamped}

program : Unit {0}
unfolding ◌==◌ is_active_wisp put put_all batches edges_of_rows blocking_edges is_cycle_type
    delete_from_issues delete_wisp_rows delete_issue_rows delete_issue delete_wisps dependents visit
    visit_all process_batch find_loop find_all_dependents external_dependents check_batch
    check_batches find_external_dependents resolve_ids count_in count_inbound delete_batch
    delete_batches total_deleted delete_expanded delete_regular delete_issues
program = tt

-- c depends on b, and b on a.
abbrev deps : List Dependency
deps = dep b a dep_blocks ∷ dep c b dep_blocks ∷ []

abbrev chain : Store
chain = store (tables (task a ∷ task b ∷ task c ∷ []) deps)

abbrev stats : ℕ → ℕ → DeleteIssuesResult
stats deleted edges = record {
  deleted_count = deleted;
  dependencies_count = edges;
  labels_count = 0;
  events_count = 0;
  orphaned_issues = [];
}

find_b : find_all_dependents deps (b ∷ []) ≡ found (c ∷ b ∷ [])
unfolding program
find_b = refl

find_all_dependents_ends_example : find_all_dependents deps (b ∷ []) ≢ out_of_fuel
find_all_dependents_ends_example = find_all_dependents_ends deps (b ∷ [])

find_all_dependents_iff_example : In c (c ∷ b ∷ []) ↔ Reaches deps (b ∷ []) c
find_all_dependents_iff_example = find_all_dependents_iff deps (b ∷ []) (c ∷ b ∷ []) find_b c

regular : (ids : List Text) → IsRegular chain.tables ids
unfolding program
regular ids x m = refl

abbrev only_a : Store
only_a = store (tables (task a ∷ []) [])

cascade_b : delete_issues chain (b ∷ []) true false false ≡ ok (stats 2 2, only_a)
unfolding program
cascade_b = refl

delete_issues-cascade_example :
    ((i : Issue)
      → In i only_a.tables.issues ↔ (In i chain.tables.issues × (¬ Reaches deps (b ∷ []) i.id)))
    × ((d : Dependency)
        → In d only_a.tables.dependencies
        → In d chain.tables.dependencies × (¬ Reaches deps (b ∷ []) d.depends_on_id))
    × ((d : Dependency)
        → In d chain.tables.dependencies
        → ¬ Reaches deps (b ∷ []) d.issue_id
        → ¬ Reaches deps (b ∷ []) d.depends_on_id
        → In d only_a.tables.dependencies)
    × (only_a.tables.wisps ≡ chain.tables.wisps)
    × (only_a.tables.wisp_dependencies ≡ chain.tables.wisp_dependencies)
delete_issues-cascade_example =
    delete_issues-cascade chain (b ∷ []) false (regular (b ∷ [])) cascade_b

refused_b : delete_issues chain (b ∷ []) false false false ≡ err (has_dependents b (c ∷ []))
unfolding program
refused_b = refl

abbrev without_c : Store
without_c = store (tables (task a ∷ task b ∷ []) (dep b a dep_blocks ∷ []))

delete_c : delete_issues chain (c ∷ []) false false false ≡ ok (stats 1 1, without_c)
unfolding program
delete_c = refl

delete_issues-checked_example :
    ((d : Dependency)
      → In d chain.tables.dependencies
      → contains (c ∷ []) d.depends_on_id ≡ true
      → contains (c ∷ []) d.issue_id ≡ true)
    × ((i : Issue)
        → In i without_c.tables.issues
          ↔ (In i chain.tables.issues × (contains (c ∷ []) i.id ≡ false)))
    × ((d : Dependency)
        → In d chain.tables.dependencies
        → contains (c ∷ []) d.issue_id ≡ false
        → In d without_c.tables.dependencies)
    × (without_c.tables.wisps ≡ chain.tables.wisps)
    × (without_c.tables.wisp_dependencies ≡ chain.tables.wisp_dependencies)
delete_issues-checked_example = delete_issues-checked chain (c ∷ []) (regular (c ∷ [])) delete_c

-- A wisp that depends on b.
abbrev with_wisp : Store
with_wisp = store (record (tables (task a ∷ task b ∷ []) []) {
  wisps = task c ∷ [];
  wisp_dependencies = dep c b dep_blocks ∷ [];
})

abbrev wisp_left : Store
wisp_left = store (record (tables (task a ∷ []) []) {
  wisps = task c ∷ [];
  wisp_dependencies = dep c b dep_blocks ∷ [];
})

cascade_past_wisp : delete_issues with_wisp (b ∷ []) true false false ≡ ok (stats 1 0, wisp_left)
unfolding program
cascade_past_wisp = refl

unchecked_wisp : delete_issues with_wisp (b ∷ []) false false false ≡ ok (stats 1 0, wisp_left)
unfolding program
unchecked_wisp = refl

abbrev empty : Store
empty = store (tables [] [])

delete_a : delete_issues only_a (a ∷ []) false true false ≡ ok (stats 1 0, empty)
unfolding program
delete_a = refl

only_a-IsAcyclic : IsAcyclic (graph only_a.tables)
unfolding blocking_edges edges_of_rows
only_a-IsAcyclic x n (y, m, w) = m

delete_issues-HasEnds_example :
    IsConsistent empty.tables
    × IsAcyclic (graph empty.tables)
    × HasEnds empty.tables
    × (◌≡◌ {A = Bool} false true → empty ≡ only_a)
    × (◌≡◌ {A = Bool} false false
        → (x : Text) → In x (a ∷ [])
        → (has_id empty.tables.wisps x ≡ false)
          × (is_active_wisp only_a.tables x ≡ false → has_id empty.tables.issues x ≡ false))
    × (◌≡◌ {A = Bool} false false
        → (i : Issue) → In i only_a.tables.wisps
        → contains (a ∷ []) i.id ≡ false
        → In i empty.tables.wisps)
    × (◌≡◌ {A = Bool} false false
        → ◌≡◌ {A = Bool} false false
        → (i : Issue) → In i only_a.tables.issues
        → contains (a ∷ []) i.id ≡ false
        → In i empty.tables.issues)
delete_issues-HasEnds_example =
    delete_issues-HasEnds only_a (a ∷ []) false true false (one_row (task a) task-IsStamped)
      only_a-IsAcyclic (λ d m. absurd m) delete_a
