-- ===== src/Validation.antt =====
-- internal/validation/issue.go: the validators that the commands run before they change an issue.
pub mod Chains
pub mod Template
pub mod Bead
use bd.Prelude.{ℕ, Bool, ◌&&◌, not, Option, none, some, List, [], ◌∷◌, ltb, if◌then◌else◌}
use bd.Prelude.Text.{Text, ◌==◌, contains}
use bd.Types.Issue.{Issue}
use bd.Types.Status.{Status, status_closed, status_pinned, status_hooked}
use bd.Types.IssueType.{IssueType, type_epic}

pub data IssueError : Type 0 where
  missing template_read_only pinned_issue already_closed hooked_issue : IssueError
  status_not_allowed type_not_allowed open_children : IssueError

-- IssueValidator, without the id, which only the messages use; a nil issue and a nil error are
-- `none`.
abbrev pub IssueValidator : Type 0
IssueValidator = Option Issue → Option IssueError

-- Chain
unfoldable pub chain : List IssueValidator → IssueValidator
chain [] i = none
chain (v ∷ vs) i = let rest = chain vs i in elim (v i) [ some e ↦ some e | none ↦ rest ]

-- Exists
unfoldable pub exists : IssueValidator
exists none = some missing
exists (some i) = none

-- NotTemplate
unfoldable pub not_template : IssueValidator
not_template none = none
not_template (some i) = if i.is_template then some template_read_only else none

-- NotPinned
unfoldable pub not_pinned : Bool → IssueValidator
not_pinned force none = none
not_pinned force (some i) =
    if not force && i.status == status_pinned then some pinned_issue else none

-- NotClosed
unfoldable pub not_closed : IssueValidator
not_closed none = none
not_closed (some i) = if i.status == status_closed then some already_closed else none

-- NotHooked
unfoldable pub not_hooked : Bool → IssueValidator
not_hooked force none = none
not_hooked force (some i) =
    if not force && i.status == status_hooked then some hooked_issue else none

-- HasStatus
unfoldable pub has_status : List Status → IssueValidator
has_status allowed none = none
has_status allowed (some i) = if contains allowed i.status then none else some status_not_allowed

-- HasType
unfoldable pub has_type : List IssueType → IssueValidator
has_type allowed none = none
has_type allowed (some i) = if contains allowed i.issue_type then none else some type_not_allowed

-- EpicHasOpenChildren
unfoldable pub epic_has_open_children : Bool → ℕ → IssueValidator
epic_has_open_children force open_child_count none = none
epic_has_open_children force open_child_count (some i) =
    if force
    then none
    else if not (i.issue_type == type_epic)
    then none
    else if ltb 0 open_child_count
    then some open_children
    else none

-- forUpdate
unfoldable pub for_update : IssueValidator
unfolding exists not_template
for_update = chain (exists ∷ not_template ∷ [])

-- forClose
unfoldable pub for_close : Bool → IssueValidator
unfolding exists not_template not_pinned
for_close force = chain (exists ∷ not_template ∷ not_pinned force ∷ [])

-- forDelete
unfoldable pub for_delete : IssueValidator
unfolding exists not_template
for_delete = chain (exists ∷ not_template ∷ [])

-- forReopen
unfoldable pub for_reopen : IssueValidator
unfolding exists not_template has_status
for_reopen = chain (exists ∷ not_template ∷ has_status (status_closed ∷ []) ∷ [])
