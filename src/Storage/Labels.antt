-- ===== src/Storage/Labels.antt =====
-- internal/storage/issueops/labels.go: the labels of an issue, AddLabelInTx, RemoveLabelInTx and
-- GetLabelsInTx. The name of a table is `none` where the caller leaves it to the routing.
pub mod Logged
pub mod Sets
use bd.Prelude.{
  ℕ, Bool, true, false, ◌&&◌, ◌||◌, not, Option, none, some, List, [], ◌∷◌, ◌++◌, map, any, select,
  eqb, ltb, if◌then◌else◌, length,
}
use bd.Prelude.Order.{text_leb, sort_by}
use bd.Prelude.Text.{Text, codes, ◌==◌, contains}
use bd.Types.Issue.{Issue}
use bd.Storage.Tables.{
  Tables, EventTable, events_table, wisp_events_table, is_active_wisp, record_event,
  wisp_table_routing,
}
use bd.Storage.Store.{Store, LabelRow}
use bd.Storage.Blocked.{concat_map, batches, query_batch_size}
use bd.Storage.Creation.Persist.{insert_label}

pub data LabelTable : Type 0 where
  labels_table wisp_labels_table : LabelTable

-- ErrLabelNotFound, and the error of the foreign key from an event to its issue.
pub data LabelError : Type 0 where
  label_not_found no_issue : LabelError

pub data Result : Type 0 where
  ok : Store → Result
  err : LabelError → Result

abbrev pub label_rows : Store → LabelTable → List LabelRow
label_rows st labels_table = st.labels
label_rows st wisp_labels_table = st.wisp_labels

abbrev pub set_label_rows : Store → LabelTable → List LabelRow → Store
set_label_rows st labels_table rows = record st { labels = rows }
set_label_rows st wisp_labels_table rows = record st { wisp_labels = rows }

-- The second and the third result of WispTableRouting.
unfoldable pub label_table_of : Store → Text → LabelTable
label_table_of st id = if is_active_wisp st.tables id then wisp_labels_table else labels_table

unfoldable pub event_table_of : Store → Text → EventTable
event_table_of st id = (wisp_table_routing (is_active_wisp st.tables id)).event_table

abbrev pub or_else : {A : Type 0} → Option A → A → A
or_else none a = a
or_else (some b) a = b

-- GetLabelsInTx
unfoldable pub get_labels : Store → Option LabelTable → Text → List Text
get_labels st table id =
    let rows = label_rows st (or_else table (label_table_of st id)) in
    sort_by text_leb (map (λ r. r.label) (select (λ r. r.issue_id == id) rows))

-- The labels that the batches bring under a key.
abbrev pub labels_in : List LabelRow → List Text → Text → List Text
labels_in rows ids id =
    concat_map
      (λ batch.
        sort_by text_leb
          (map (λ r. r.label) (select (λ r. contains batch r.issue_id && r.issue_id == id) rows)))
      (batches (length ids) query_batch_size ids)

-- GetLabelsForIssuesInTx, as a function of the key.
unfoldable pub get_labels_for_issues : Store → List Text → Text → List Text
get_labels_for_issues st ids id =
    labels_in st.wisp_labels (select (is_active_wisp st.tables) ids) id
    ++ labels_in st.labels (select (λ i. not (is_active_wisp st.tables i)) ids) id

-- INSERT INTO table (issue_id, event_type, actor, comment); the key of events asks for the issue.
unfoldable pub log_label : EventTable → Text → Text → Text → Text → Store → Result
log_label table id event_type actor text st =
    let logged = record st {
      tables = record_event st.tables table (record {
        issue_id = id;
        event_type = event_type;
        actor = actor;
        old_value = [];
        new_value = [];
        comment = some text;
      });
    } in
    elim table [
      | wisp_events_table ↦ ok logged
      | events_table ↦ if any (λ i. i.id == id) st.tables.issues then ok logged else err no_issue
    ]

-- AddLabelInTx. INSERT IGNORE passes over a row that is there; where the issue of a regular label is
-- missing, the event fails and the transaction with it.
unfoldable pub add_label :
    Store → Option LabelTable → Option EventTable → Text → Text → Text → Result
add_label st labels log id label actor =
    let table = or_else labels (label_table_of st id) in
    log_label (or_else log (event_table_of st id)) id (codes "label_added") actor
      (codes "Added label: " ++ label)
      (set_label_rows st table (insert_label id (label_rows st table) label))

abbrev pub is_row : Text → Text → LabelRow → Bool
is_row id label r = r.issue_id == id && r.label == label

-- RemoveLabelInTx
unfoldable pub remove_label :
    Store → Option LabelTable → Option EventTable → Text → Text → Text → Result
remove_label st labels log id label actor =
    let table = or_else labels (label_table_of st id) in
    if any (is_row id label) (label_rows st table)
    then log_label (or_else log (event_table_of st id)) id (codes "label_removed") actor
        (codes "Removed label: " ++ label)
        (set_label_rows st table (select (λ r. not (is_row id label r)) (label_rows st table)))
    else err label_not_found
