-- ===== src/Storage/Deletion/Issues.antt =====
-- internal/storage/issueops/delete.go: DeleteIssuesInTx, which deletes several issues, with or without
-- their dependents.
use bd.Prelude.{
  ℕ, ◌+◌, Bool, ◌&&◌, not, Option, none, some, List, [], ◌∷◌, map, select, length, if◌then◌else◌,
}
use bd.Prelude.Text.{Text, ◌==◌, contains}
use bd.Types.DependencyType.{Dependency}
use bd.Storage.Tables.{is_active_wisp}
use bd.Storage.Store.{Store}
use bd.Storage.Blocked.{put_all, batches, concat_map}
use bd.Storage.Deletion.{
  DeletionError, has_dependents, too_many_dependents, out_of_rounds, Result, ok, err,
  DeleteIssuesResult, delete_batch_size, delete_where, delete_from_issues, delete_wisps, dependents,
  found, too_many, out_of_fuel, find_all_dependents,
}

-- The slices of at most fifty ids.
abbrev pub in_batches : List Text → List (List Text)
in_batches ids = batches (length ids) delete_batch_size ids

-- externalBySource[id], after the query for the batch.
unfoldable pub external_dependents : List Dependency → List Text → List Text → Text → List Text
external_dependents deps ids batch id =
    map (λ d. d.issue_id)
      (select
        (λ d.
          contains batch d.depends_on_id && not (contains ids d.issue_id) && d.depends_on_id == id)
        deps)

-- The loop over a batch: the first of its ids with dependents outside of the set.
unfoldable pub check_batch :
    List Dependency → List Text → List Text → List Text → Option DeletionError
check_batch deps ids batch [] = none
check_batch deps ids batch (id ∷ rest) =
    let later = check_batch deps ids batch rest in
    let external = external_dependents deps ids batch id in
    elim external [ [] ↦ later | x ∷ xs ↦ some (has_dependents id (x ∷ xs)) ]

unfoldable pub check_batches : List Dependency → List Text → List (List Text) → Option DeletionError
check_batches deps ids [] = none
check_batches deps ids (batch ∷ rest) =
    let later = check_batches deps ids rest in
    elim (check_batch deps ids batch batch) [ none ↦ later | some e ↦ some e ]

-- findExternalDependentsBatchedInTx
unfoldable pub find_external_dependents : List Dependency → List Text → List Text
find_external_dependents deps ids = put_all [] (
    concat_map (λ batch. select (λ x. not (contains ids x)) (dependents deps batch))
      (in_batches ids))

-- The set to delete, and OrphanedIssues.
unfoldable pub resolve_ids :
    List Dependency → List Text → Bool → Bool → Result (List Text × List Text)
resolve_ids deps ids cascade force =
    if cascade
    then (elim (find_all_dependents deps ids) [
      | found all_to_delete ↦ ok (all_to_delete, [])
      | too_many ↦ err too_many_dependents
      | out_of_fuel ↦ err out_of_rounds
    ])
    else if not force
    then (elim (check_batches deps ids (in_batches ids)) [ none ↦ ok (ids, []) | some e ↦ err e ])
    else ok (ids, find_external_dependents deps ids)

-- SELECT COUNT(*) … WHERE key IN (…), added up over the batches.
unfoldable pub count_in : {A : Type 0} → (A → Text) → List A → List (List Text) → ℕ
count_in key rows [] = 0
count_in key rows (batch ∷ rest) =
    length (select (λ r. contains batch (key r)) rows) + count_in key rows rest

-- The second pass: the inbound edges from outside of the set.
unfoldable pub count_inbound : List Dependency → List Text → List (List Text) → ℕ
count_inbound deps expanded [] = 0
count_inbound deps expanded (batch ∷ rest) =
    length (select (λ x. not (contains expanded x)) (dependents deps batch))
    + count_inbound deps expanded rest

-- One round of the deletion: the inbound edges, then the issues.
unfoldable pub delete_batch : Store → List Text → Store
delete_batch st batch = delete_from_issues (contains batch) (record st {
  tables = record st.tables {
    dependencies = delete_where (λ d. contains batch d.depends_on_id) st.tables.dependencies;
  };
})

unfoldable pub delete_batches : Store → List (List Text) → Store
delete_batches st [] = st
delete_batches st (batch ∷ rest) = delete_batches (delete_batch st batch) rest

-- RowsAffected of the rounds, added up.
unfoldable pub total_deleted : Store → List (List Text) → ℕ
total_deleted st [] = 0
total_deleted st (batch ∷ rest) =
    length (select (λ i. contains batch i.id) st.tables.issues)
    + total_deleted (delete_batch st batch) rest

abbrev pub no_result : ℕ → DeleteIssuesResult
no_result n = record {
  deleted_count = n;
  dependencies_count = 0;
  labels_count = 0;
  events_count = 0;
  orphaned_issues = [];
}

-- The statistics, and the deletion unless it is a dry run.
unfoldable pub delete_expanded :
    Store → List Text → List Text → ℕ → Bool → DeleteIssuesResult × Store
delete_expanded st expanded orphans wisp_count dry_run =
    let parts = in_batches expanded in
    let stats : DeleteIssuesResult = record {
      deleted_count = length expanded + wisp_count;
      dependencies_count =
          count_in (λ d. d.issue_id) st.tables.dependencies parts
          + count_inbound st.tables.dependencies expanded parts;
      labels_count = count_in (λ l. l.issue_id) st.labels parts;
      events_count = count_in (λ e. e.issue_id) st.tables.events parts;
      orphaned_issues = orphans;
    } in
    if dry_run then (stats, st) else (
      record stats { deleted_count = total_deleted st parts + wisp_count },
      delete_batches st parts,
    )

-- The regular issues of the set, after the wisps.
unfoldable pub delete_regular :
    Store → List Text → ℕ → Bool → Bool → Bool → Result (DeleteIssuesResult × Store)
delete_regular st [] wisp_count cascade force dry_run = ok (no_result wisp_count, st)
delete_regular st (id ∷ ids) wisp_count cascade force dry_run =
    elim (resolve_ids st.tables.dependencies (id ∷ ids) cascade force) [
      | ok (expanded, orphans) ↦ ok (delete_expanded st expanded orphans wisp_count dry_run)
      | err e ↦ err e
    ]

-- DeleteIssuesInTx
unfoldable pub delete_issues :
    Store → List Text → Bool → Bool → Bool → Result (DeleteIssuesResult × Store)
delete_issues st [] cascade force dry_run = ok (no_result 0, st)
delete_issues st (id ∷ ids) cascade force dry_run =
    let wisp_ids = select (is_active_wisp st.tables) (id ∷ ids) in
    let regular_ids = select (λ x. not (is_active_wisp st.tables x)) (id ∷ ids) in
    elim (if dry_run then ok st else delete_wisps wisp_ids st) [
      | ok after ↦ delete_regular after regular_ids (length wisp_ids) cascade force dry_run
      | err e ↦ err e
    ]
