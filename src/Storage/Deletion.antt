-- ===== src/Storage/Deletion.antt =====
-- internal/storage/issueops/delete.go: deleting one issue, or several with their dependents. A Go map
-- that serves as a set is a list without repetition, the last key first where Go's order is arbitrary.
pub mod Issues
pub mod Search
pub mod Closure
pub mod Effects
pub mod Modes
pub mod Checked
pub mod Parts
pub mod Ends
pub mod Others
pub mod Invariants
use bd.Prelude.{
  ℕ, zero, suc, ◌+◌, Bool, true, false, ◌&&◌, ◌||◌, not, Option, none, some, List, [], ◌∷◌, ◌++◌,
  map, any, select, take, drop, ltb, length, if◌then◌else◌,
}
use bd.Prelude.Text.{Text, ◌==◌, contains}
use bd.Types.DependencyType.{Dependency}
use bd.Types.Issue.{Issue}
use bd.Storage.Tables.{Tables, EventRow, is_active_wisp}
use bd.Storage.Store.{Store, LabelRow, CommentRow, CounterRow}
use bd.Storage.Blocked.{put_all, batches, concat_map}

-- The error for dependents outside of the set comes with them, in OrphanedIssues.
pub data DeletionError : Type 0 where
  issue_not_found : Text → DeletionError
  has_dependents : Text → List Text → DeletionError
  too_many_dependents out_of_rounds : DeletionError

pub data Result (A : Type 0) : Type 0 where
  ok : A → Result A
  err : DeletionError → Result A

-- DeleteIssuesResult
pub record DeleteIssuesResult : Type 0 where
  pub deleted_count : ℕ
  pub dependencies_count : ℕ
  pub labels_count : ℕ
  pub events_count : ℕ
  pub orphaned_issues : List Text

abbrev pub delete_batch_size : ℕ
delete_batch_size = 50

abbrev pub max_recursive_results : ℕ
max_recursive_results = 10000

-- DELETE FROM … WHERE p
abbrev pub delete_where : {A : Type 0} → (A → Bool) → List A → List A
delete_where p = select (λ x. not (p x))

-- DELETE FROM issues WHERE p(id). ON DELETE CASCADE takes the rows of the other tables that belong
-- to a deleted issue along, but no row that only depends on it.
unfoldable pub delete_from_issues : (Text → Bool) → Store → Store
delete_from_issues p st =
    let gone : Text → Bool = λ id. any (λ i. p i.id && i.id == id) st.tables.issues in
    record st {
      tables = record st.tables {
        issues = delete_where (λ i. p i.id) st.tables.issues;
        dependencies = delete_where (λ d. gone d.issue_id) st.tables.dependencies;
        events = delete_where (λ e. gone e.issue_id) st.tables.events;
      };
      labels = delete_where (λ l. gone l.issue_id) st.labels;
      comments = delete_where (λ c. gone c.issue_id) st.comments;
      child_counters = delete_where (λ c. gone c.parent_id) st.child_counters;
    }

abbrev pub touches : Text → Dependency → Bool
touches id d = d.issue_id == id || d.depends_on_id == id

-- The related data of a wisp, and its row. The tables of wisps have no foreign keys.
unfoldable pub delete_wisp_rows : Text → Store → Store
delete_wisp_rows id st = record st {
  tables = record st.tables {
    wisps = delete_where (λ i. i.id == id) st.tables.wisps;
    wisp_dependencies = delete_where (touches id) st.tables.wisp_dependencies;
    wisp_events = delete_where (λ e. e.issue_id == id) st.tables.wisp_events;
  };
  wisp_comments = delete_where (λ c. c.issue_id == id) st.wisp_comments;
  wisp_labels = delete_where (λ l. l.issue_id == id) st.wisp_labels;
}

unfoldable pub delete_issue_rows : Text → Store → Store
unfolding delete_from_issues
delete_issue_rows id st =
    delete_from_issues (λ x. x == id)
      (record st {
        tables = record st.tables {
          dependencies = delete_where (touches id) st.tables.dependencies;
          events = delete_where (λ e. e.issue_id == id) st.tables.events;
        };
        comments = delete_where (λ c. c.issue_id == id) st.comments;
        labels = delete_where (λ l. l.issue_id == id) st.labels;
      })

-- DeleteIssueInTx
unfoldable pub delete_issue : Store → Text → Result Store
delete_issue st id =
    if is_active_wisp st.tables id
    then ok (delete_wisp_rows id st)
    else if any (λ i. i.id == id) st.tables.issues
    then ok (delete_issue_rows id st)
    else err (issue_not_found id)

-- The loop that deletes the wisps of the set.
unfoldable pub delete_wisps : List Text → Store → Result Store
delete_wisps [] st = ok st
delete_wisps (id ∷ ids) st = elim (delete_issue st id) [
  | ok after ↦ delete_wisps ids after
  | err e ↦ err e
]

-- SELECT issue_id FROM dependencies WHERE depends_on_id IN (…)
unfoldable pub dependents : List Dependency → List Text → List Text
dependents deps batch = map (λ d. d.issue_id) (select (λ d. contains batch d.depends_on_id) deps)

-- The set found so far, and the queue.
pub record Visit : Type 0 where
  pub result : List Text
  pub to_process : List Text

unfoldable pub visit : Visit → Text → Visit
visit s x =
    if contains s.result x
    then s
    else record { result = x ∷ s.result; to_process = s.to_process ++ (x ∷ []) }

unfoldable pub visit_all : Visit → List Text → Visit
visit_all s [] = s
visit_all s (x ∷ xs) = visit_all (visit s x) xs

pub data Found : Type 0 where
  found : List Text → Found
  too_many out_of_fuel : Found

-- The slices of the queue before and after the batch.
unfoldable pub process_batch : List Dependency → Visit → Visit
process_batch deps s =
    visit_all (record { result = s.result; to_process = drop delete_batch_size s.to_process })
      (dependents deps (take delete_batch_size s.to_process))

-- The loop of findAllDependentsRecursiveInTx.
unfoldable pub find_loop : List Dependency → ℕ → Visit → Found
find_loop deps zero s = elim s.to_process [ [] ↦ found s.result | x ∷ xs ↦ out_of_fuel ]
find_loop deps (suc fuel) s =
    let rest = find_loop deps fuel (process_batch deps s) in
    elim s.to_process [
      | [] ↦ found s.result
      | x ∷ xs ↦ if ltb max_recursive_results (length s.result) then too_many else rest
    ]

-- findAllDependentsRecursiveInTx, in as many rounds as there are ids and rows.
unfoldable pub find_all_dependents : List Dependency → List Text → Found
find_all_dependents deps ids =
    find_loop deps (length deps + length ids) (record { result = put_all [] ids; to_process = ids })
