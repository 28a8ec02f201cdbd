-- ===== src/Types/Issue/Valid.antt =====
-- internal/types/types.go: what the two validations of an issue demand.
use bd.Prelude.{◌≤◌, ◌<◌, ◌≡◌, ◌⊎◌, ◌↔◌, Bool, true, false, none, List, [], length, arith}
use bd.Prelude.Int.{pos, ltb_ℤ}
use bd.Prelude.Text.{Text, ◌==◌}
use bd.Types.Status
use bd.Types.Status.{status_closed}
use bd.Types.IssueType
use bd.Types.Issue.{Issue, validate_for_import, validate_with_custom, negative, is_set}

-- What both validations demand.
pub record IsSound (json_valid : Text → Bool) (custom_statuses : List Text) (i : Issue)
    : Type 0 where
  pub titled : 0 < length i.title
  pub title_fits : length i.title ≤ 500
  pub priority_low : ltb_ℤ i.priority (pos 0) ≡ false
  pub priority_high : ltb_ℤ (pos 4) i.priority ≡ false
  pub known_status : Status.is_valid_with_custom i.status custom_statuses ≡ true
  pub estimate : negative i.estimated_minutes ≡ false
  pub closed_iff : (i.status == status_closed) ≡ is_set i.closed_at
  pub json : (i.metadata ≡ []) ⊎ (json_valid i.metadata ≡ true)

abbrev pub IsExclusive : Issue → Type 0
IsExclusive i = (i.ephemeral ≡ false) ⊎ (i.no_history ≡ false)

module _ (json_valid : Text → Bool) (i : Issue) (custom_statuses : List Text) where
  validate_for_import-IsSound :
      validate_for_import json_valid i custom_statuses ≡ none → IsSound json_valid custom_statuses i
  unfolding validate_for_import
  validate_for_import-IsSound h = ground arith

  IsSound-validate_for_import :
      IsSound json_valid custom_statuses i → validate_for_import json_valid i custom_statuses ≡ none
  unfolding validate_for_import
  IsSound-validate_for_import h = ground arith

  -- ValidateForImport accepts exactly the issues with a title of 1 to 500 bytes, a priority from 0
  -- to 4, a built-in or custom status, no negative estimate, a closing timestamp exactly if the
  -- status is closed, and metadata that is empty or JSON: it asks nothing of the type or the flags.
  validate_for_import_iff :
      (validate_for_import json_valid i custom_statuses ≡ none)
      ↔ IsSound json_valid custom_statuses i
  validate_for_import_iff = (validate_for_import-IsSound, IsSound-validate_for_import)

module _ (json_valid : Text → Bool) (i : Issue) (custom_statuses custom_types : List Text) where
  IsSound-validate_with_custom :
      IsSound json_valid custom_statuses i
      → IssueType.is_valid_with_custom i.issue_type custom_types ≡ true
      → IsExclusive i
      → validate_with_custom json_valid i custom_statuses custom_types ≡ none
  unfolding validate_with_custom
  IsSound-validate_with_custom s t e = ground arith

  validate_with_custom-IsSound :
      validate_with_custom json_valid i custom_statuses custom_types ≡ none
      → IsSound json_valid custom_statuses i
  unfolding validate_with_custom
  validate_with_custom-IsSound h = ground arith

  validate_with_custom-IsExclusive :
      validate_with_custom json_valid i custom_statuses custom_types ≡ none
      → (IssueType.is_valid_with_custom i.issue_type custom_types ≡ true) × IsExclusive i
  unfolding validate_with_custom
  validate_with_custom-IsExclusive h = ground arith

  -- ValidateWithCustom accepts exactly the issues with a title of 1 to 500 bytes, a priority from 0
  -- to 4, a built-in or custom status and type, no negative estimate, a closing timestamp exactly if
  -- the status is closed, metadata that is empty or JSON, and not both of the flags ephemeral and
  -- no_history.
  pub validate_with_custom_iff :
      (validate_with_custom json_valid i custom_statuses custom_types ≡ none) ↔ (
        IsSound json_valid custom_statuses i
        × (IssueType.is_valid_with_custom i.issue_type custom_types ≡ true)
        × IsExclusive i)
  validate_with_custom_iff = (
    λ h. let (t, e) = validate_with_custom-IsExclusive h in (validate_with_custom-IsSound h, t, e),
    λ (s, t, e). IsSound-validate_with_custom s t e,
  )
