-- ===== src/Types/Filters.antt =====
-- internal/types/types.go, IssueFilter and WorkFilter: what a search and the ready work are restricted to.
use bd.Prelude.{ℕ, Bool, false, ◌||◌, Option, none, List, []}
use bd.Prelude.Int.{ℤ}
use bd.Prelude.Text.{Text, codes, ◌==◌}
use bd.Types.Status.{Status}
use bd.Types.IssueType.{IssueType}

-- IssueFilter. The patterns of labels, which the clauses leave out, are left out here.
pub record IssueFilter : Type 0 where
  pub status : Option Status
  pub statuses : List Status
  pub priority : Option ℤ
  pub issue_type : Option IssueType
  pub assignee : Option Text
  pub labels : List Text
  pub labels_any : List Text
  pub title_search : Text
  pub ids : List Text
  pub id_prefix : Text
  pub spec_id_prefix : Text
  pub limit : ℕ
  pub title_contains : Text
  pub description_contains : Text
  pub notes_contains : Text
  pub external_ref_contains : Text
  pub created_after : Option ℕ
  pub created_before : Option ℕ
  pub updated_after : Option ℕ
  pub updated_before : Option ℕ
  pub closed_after : Option ℕ
  pub closed_before : Option ℕ
  pub empty_description : Bool
  pub no_assignee : Bool
  pub no_labels : Bool
  pub priority_min : Option ℤ
  pub priority_max : Option ℤ
  pub source_repo : Option Text
  pub ephemeral : Option Bool
  pub pinned : Option Bool
  pub is_template : Option Bool
  pub parent_id : Option Text
  pub no_parent : Bool
  pub mol_type : Option Text
  pub wisp_type : Option Text
  pub exclude_status : List Status
  pub exclude_types : List IssueType
  pub deferred : Bool
  pub defer_after : Option ℕ
  pub defer_before : Option ℕ
  pub due_after : Option ℕ
  pub due_before : Option ℕ
  pub overdue : Bool
  pub metadata_fields : List (Text × Text)
  pub has_metadata_key : Text
  pub include_dependencies : Bool

-- The filter without conditions.
abbrev pub no_filter : IssueFilter
no_filter = record {
  status = none;
  statuses = [];
  priority = none;
  issue_type = none;
  assignee = none;
  labels = [];
  labels_any = [];
  title_search = [];
  ids = [];
  id_prefix = [];
  spec_id_prefix = [];
  limit = 0;
  title_contains = [];
  description_contains = [];
  notes_contains = [];
  external_ref_contains = [];
  created_after = none;
  created_before = none;
  updated_after = none;
  updated_before = none;
  closed_after = none;
  closed_before = none;
  empty_description = false;
  no_assignee = false;
  no_labels = false;
  priority_min = none;
  priority_max = none;
  source_repo = none;
  ephemeral = none;
  pinned = none;
  is_template = none;
  parent_id = none;
  no_parent = false;
  mol_type = none;
  wisp_type = none;
  exclude_status = [];
  exclude_types = [];
  deferred = false;
  defer_after = none;
  defer_before = none;
  due_after = none;
  due_before = none;
  overdue = false;
  metadata_fields = [];
  has_metadata_key = [];
  include_dependencies = false;
}

-- SortPolicy
abbrev pub SortPolicy : Type 0
SortPolicy = Text

abbrev pub sort_policy_hybrid : SortPolicy
sort_policy_hybrid = codes "hybrid"

abbrev pub sort_policy_priority : SortPolicy
sort_policy_priority = codes "priority"

abbrev pub sort_policy_oldest : SortPolicy
sort_policy_oldest = codes "oldest"

-- SortPolicy.IsValid
unfoldable pub is_valid_policy : SortPolicy → Bool
is_valid_policy s =
    s == sort_policy_hybrid || s == sort_policy_priority || s == sort_policy_oldest || s == []

-- WorkFilter, with the fields that GetReadyWorkInTx reads.
pub record WorkFilter : Type 0 where
  pub status : Status
  pub type : Text
  pub priority : Option ℤ
  pub assignee : Option Text
  pub unassigned : Bool
  pub labels : List Text
  pub limit : ℕ
  pub sort_policy : SortPolicy
  pub parent_id : Option Text
  pub molecule_id : Text
  pub include_deferred : Bool
  pub include_ephemeral : Bool
  pub metadata_fields : List (Text × Text)
  pub has_metadata_key : Text
