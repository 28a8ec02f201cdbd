-- ===== src/Storage/Store.antt =====
-- The tables of labels, comments, counters and configuration (internal/storage/embeddeddolt/schema) beside those of
-- Storage/Tables.
use bd.Prelude.{ℕ, List}
use bd.Prelude.Text.{Text}
use bd.Storage.Tables.{Tables}

-- A row of the tables labels and wisp_labels.
pub record LabelRow : Type 0 where
  pub issue_id : Text
  pub label : Text

-- A row of the tables comments and wisp_comments, without its UUID.
pub record CommentRow : Type 0 where
  pub issue_id : Text
  pub author : Text
  pub text : Text
  pub created_at : ℕ

-- A row of the table child_counters.
pub record CounterRow : Type 0 where
  pub parent_id : Text
  pub last_child : ℕ

-- A row of the table issue_counter.
pub record IssueCounterRow : Type 0 where
  pub prefix : Text
  pub last_id : ℕ

-- A row of the table config.
pub record ConfigRow : Type 0 where
  pub key : Text
  pub value : Text

pub record Store : Type 0 where
  pub tables : Tables
  pub labels : List LabelRow
  pub wisp_labels : List LabelRow
  pub comments : List CommentRow
  pub wisp_comments : List CommentRow
  pub child_counters : List CounterRow
  pub issue_counter : List IssueCounterRow
  pub config : List ConfigRow
  pub custom_types : List Text
