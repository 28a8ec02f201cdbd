-- ===== src/Storage/Creation/Persist.antt =====
-- internal/storage/issueops/create.go: the insertion of a prepared issue, with its labels, comments and event.
use bd.Prelude.{ℕ, Bool, ◌&&◌, none, List, [], ◌∷◌, ◌++◌, any, eqb, if◌then◌else◌}
use bd.Prelude.Text.{Text, codes, ◌==◌}
use bd.Types.Issue.{Issue}
use bd.Storage.Tables.{Tables, EventTable, issue_rows, set_issue_rows, record_event}
use bd.Storage.Store.{Store, LabelRow, CommentRow}
use bd.Storage.Creation.{NewComment, External, is_wisp, table_routing, insert_issue, is_new}

-- INSERT INTO labels … ON DUPLICATE KEY UPDATE label = label
unfoldable pub insert_label : Text → List LabelRow → Text → List LabelRow
insert_label id rows label =
    if any (λ r. r.issue_id == id && r.label == label) rows
    then rows
    else rows ++ (record { issue_id = id; label = label } ∷ [])

unfoldable pub insert_labels : Text → List LabelRow → List Text → List LabelRow
insert_labels id rows [] = rows
insert_labels id rows (l ∷ ls) = insert_labels id (insert_label id rows l) ls

-- PersistLabels
unfoldable pub persist_labels : Store → Issue → Store
unfolding is_wisp
persist_labels st i =
    if is_wisp i
    then record st { wisp_labels = insert_labels i.id st.wisp_labels i.labels }
    else record st { labels = insert_labels i.id st.labels i.labels }

abbrev pub comment_row : Text → ℕ → NewComment → CommentRow
comment_row id now c = record {
  issue_id = id;
  author = c.author;
  text = c.text;
  created_at = if eqb c.created_at 0 then now else c.created_at;
}

abbrev pub same_comment : CommentRow → CommentRow → Bool
same_comment c r =
    r.issue_id == c.issue_id
    && r.author == c.author
    && eqb r.created_at c.created_at
    && r.text == c.text

unfoldable pub insert_comment : List CommentRow → CommentRow → List CommentRow
insert_comment rows c = if any (same_comment c) rows then rows else rows ++ (c ∷ [])

unfoldable pub insert_comments : Text → ℕ → List CommentRow → List NewComment → List CommentRow
insert_comments id now rows [] = rows
insert_comments id now rows (c ∷ cs) =
    insert_comments id now (insert_comment rows (comment_row id now c)) cs

-- PersistComments
unfoldable pub persist_comments : Store → Issue → List NewComment → ℕ → Store
unfolding is_wisp
persist_comments st i comments now =
    if is_wisp i
    then record st { wisp_comments = insert_comments i.id now st.wisp_comments comments }
    else record st { comments = insert_comments i.id now st.comments comments }

-- RecordEventInTable with EventCreated.
unfoldable pub record_created : Bool → EventTable → Text → Text → Tables → Tables
record_created fresh log id actor db =
    if fresh
    then record_event db log (record {
      issue_id = id;
      event_type = codes "created";
      actor = actor;
      old_value = [];
      new_value = [];
      comment = none;
    })
    else db

-- The insertion of the prepared issue: the row, the event, the labels and the comments.
unfoldable pub persist_issue : External → Store → Issue → List NewComment → Text → ℕ → Store
unfolding table_routing
persist_issue ext st i comments actor now =
    let (table, log) = table_routing i in
    let rows = issue_rows st.tables table in
    let db = set_issue_rows st.tables table (insert_issue ext i rows) in
    let inserted = record st { tables = record_created (is_new i rows) log i.id actor db } in
    persist_comments (persist_labels inserted i) i comments now
