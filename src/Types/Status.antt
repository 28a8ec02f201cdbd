-- ===== src/Types/Status.antt =====
-- internal/types/types.go: issue statuses, built-in and custom, and their categories.
use bd.Prelude.{Bool, true, ◌||◌, List, if◌then◌else◌}
use bd.Prelude.Text.{Text, codes, ◌==◌, contains}

abbrev pub Status : Type 0
Status = Text

abbrev pub status_open : Status
status_open = codes "open"

abbrev pub status_in_progress : Status
status_in_progress = codes "in_progress"

abbrev pub status_blocked : Status
status_blocked = codes "blocked"

abbrev pub status_deferred : Status
status_deferred = codes "deferred"

abbrev pub status_closed : Status
status_closed = codes "closed"

abbrev pub status_pinned : Status
status_pinned = codes "pinned"

abbrev pub status_hooked : Status
status_hooked = codes "hooked"

-- Status.IsValid
unfoldable pub is_valid : Status → Bool
is_valid s =
    s == status_open
    || s == status_in_progress
    || s == status_blocked
    || s == status_deferred
    || s == status_closed
    || s == status_pinned
    || s == status_hooked

-- Status.IsValidWithCustom
unfoldable pub is_valid_with_custom : Status → List Text → Bool
is_valid_with_custom s custom_statuses = if is_valid s then true else contains custom_statuses s

-- StatusCategory
abbrev pub StatusCategory : Type 0
StatusCategory = Text

abbrev pub category_active : StatusCategory
category_active = codes "active"

abbrev pub category_wip : StatusCategory
category_wip = codes "wip"

abbrev pub category_done : StatusCategory
category_done = codes "done"

abbrev pub category_frozen : StatusCategory
category_frozen = codes "frozen"

abbrev pub category_unspecified : StatusCategory
category_unspecified = codes "unspecified"

-- BuiltInStatusCategory
unfoldable pub built_in_status_category : Status → StatusCategory
built_in_status_category s =
    if s == status_open
    then category_active
    else if s == status_in_progress || s == status_blocked || s == status_hooked
    then category_wip
    else if s == status_closed
    then category_done
    else if s == status_deferred || s == status_pinned
    then category_frozen
    else category_unspecified
