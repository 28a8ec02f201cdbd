-- ===== src/Types/DependencyType.antt =====
-- internal/types/types.go: dependency edges and their types.
use bd.Prelude.{ℕ, Bool, ◌&&◌, ◌||◌, ltb, leb, length}
use bd.Prelude.Text.{Text, codes, ◌==◌}

abbrev pub DependencyType : Type 0
DependencyType = Text

abbrev pub dep_blocks : DependencyType
dep_blocks = codes "blocks"

abbrev pub dep_parent_child : DependencyType
dep_parent_child = codes "parent-child"

abbrev pub dep_conditional_blocks : DependencyType
dep_conditional_blocks = codes "conditional-blocks"

abbrev pub dep_waits_for : DependencyType
dep_waits_for = codes "waits-for"

-- DependencyType.IsValid
unfoldable pub is_valid : DependencyType → Bool
is_valid d = ltb 0 (length d) && leb (length d) 50

-- DependencyType.AffectsReadyWork
unfoldable pub affects_ready_work : DependencyType → Bool
affects_ready_work d =
    d == dep_blocks || d == dep_parent_child || d == dep_conditional_blocks || d == dep_waits_for

-- Dependency. `metadata` is the JSON text of the row, empty where the Go field is "".
pub record Dependency : Type 0 where
  pub issue_id : Text
  pub depends_on_id : Text
  pub type : DependencyType
  pub created_at : ℕ
  pub created_by : Text
  pub metadata : Text
  pub thread_id : Text
