-- ===== src/Storage/Promotion.antt =====
-- internal/storage/issueops/promote.go: moving a wisp to the issues.
pub mod Placed
pub mod Moved
use bd.Prelude.{
  ℕ, Bool, true, false, ◌&&◌, not, Option, none, some, List, [], ◌∷◌, ◌++◌, map, any, select,
  if◌then◌else◌,
}
use bd.Prelude.Text.{Text, ◌==◌}
use bd.Types.DependencyType.{Dependency}
use bd.Types.Issue.{Issue}
use bd.Storage.Tables.{Tables, is_active_wisp, get_issue}
use bd.Storage.Store.{Store, LabelRow}
use bd.Storage.Config.{new_batch_context}
use bd.Storage.Dependencies.{is_pair}
use bd.Storage.Creation
use bd.Storage.Creation.{CreationError, NewIssue, External}
use bd.Storage.Creation.Batch.{create_issue}
use bd.Storage.Creation.Persist.{insert_labels}
use bd.Storage.Deletion
use bd.Storage.Deletion.{DeletionError, delete_issue}

pub data PromotionError : Type 0 where
  wisp_not_found not_initialized : PromotionError
  not_created : CreationError → PromotionError
  not_deleted : DeletionError → PromotionError

pub data Result (A : Type 0) : Type 0 where
  ok : A → Result A
  err : PromotionError → Result A

-- INSERT IGNORE INTO dependencies: a row whose key is taken is left out.
unfoldable pub insert_ignore : List Dependency → List Dependency → List Dependency
insert_ignore rows [] = rows
insert_ignore rows (d ∷ ds) =
    insert_ignore (if any (is_pair d.issue_id d.depends_on_id) rows then rows else rows ++ (d ∷ []))
      ds

abbrev pub labels_of : Text → List LabelRow → List Text
labels_of id rows = map (λ r. r.label) (select (λ r. r.issue_id == id) rows)

-- The four copies. INSERT IGNORE also leaves out what violates a foreign key, which is every row where
-- the issue is not among the issues.
unfoldable pub copy_related : Text → Store → Store
copy_related id st =
    let present = any (λ i. i.id == id) st.tables.issues in
    record st {
      tables = record st.tables {
        dependencies =
            if present
            then insert_ignore st.tables.dependencies
                (select (λ d. d.issue_id == id) st.tables.wisp_dependencies)
            else st.tables.dependencies;
        events =
            if present
            then st.tables.events ++ select (λ e. e.issue_id == id) st.tables.wisp_events
            else st.tables.events;
      };
      labels =
          if present then insert_labels id st.labels (labels_of id st.wisp_labels) else st.labels;
      comments =
          if present
          then st.comments ++ select (λ c. c.issue_id == id) st.wisp_comments
          else st.comments;
    }

-- The issue that is created from the wisp. Its labels are read with it.
abbrev pub promoted : Store → Text → Issue → NewIssue
promoted st id i = record {
  issue = record i { ephemeral = false; labels = labels_of id st.wisp_labels };
  id_prefix = [];
  prefix_override = [];
  comments = [];
  dependencies = [];
}

abbrev pub delete_promoted : Text → Store → Result Store
delete_promoted id st = elim (delete_issue st id) [
  | Deletion.ok after ↦ ok after
  | Deletion.err e ↦ err (not_deleted e)
]

-- PromoteFromEphemeralInTx
unfoldable pub promote :
    External → (Text → Option (List Text)) → List Text → Store → Text → Text → ℕ → Result Store
promote ext unmarshal_list yaml_types st id actor now =
    if not (is_active_wisp st.tables id)
    then err wisp_not_found
    else (elim (get_issue st.tables id) [
      | none ↦ err wisp_not_found
      | some i ↦
          elim (new_batch_context unmarshal_list yaml_types st
            (record { orphan_handling = []; skip_prefix_validation = true })) [
              | none ↦ err not_initialized
              | some bc ↦ elim (create_issue ext bc st (promoted st id i) actor now) [
                | Creation.err e ↦ err (not_created e)
                | Creation.ok (n, created) ↦ delete_promoted id (copy_related id created)
              ]
            ]
    ])
