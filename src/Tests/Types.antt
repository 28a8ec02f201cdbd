-- ===== src/Tests/Types.antt =====
-- Validation and configuration at concrete inputs.
use bd.Prelude.{◌≡◌, ◌≤◌, ◌↔◌, refl, Bool, true, none, List, [], ◌∷◌, length, all}
use bd.Prelude.Text.{
  Text, codes, ◌==◌, trim_space, trim_left, trim_right, split, index_byte, to_lower, lower,
}
use bd.Types.IssueType
use bd.Types.Issue.{validate_with_custom}
use bd.Types.Issue.Valid.{IsSound, IsExclusive, validate_with_custom_iff}
use bd.Types.CustomStatus.{
  CustomStatus, parse_custom_status_config, parse_parts, parse_part, check_status, split_part,
  is_status_name, built_in_status_names, valid_category, max_custom_statuses, custom_status_names,
}
use bd.Types.CustomStatus.Parsed.{is_proper, distinct, parse_custom_status_config-proper}
use bd.Tests.Samples.{task, a}

abbrev valid : Text → Bool
valid s = true

abbrev review : List Text
review = codes "review" ∷ []

validate_with_custom_iff_example : (validate_with_custom valid (task a) review [] ≡ none) ↔ (
    IsSound valid review (task a)
    × (IssueType.is_valid_with_custom (task a).issue_type [] ≡ true)
    × IsExclusive (task a))
validate_with_custom_iff_example = validate_with_custom_iff valid (task a) review []

program : Unit {0}
unfolding ◌==◌ trim_space trim_left trim_right split index_byte to_lower lower
    parse_custom_status_config parse_parts parse_part check_status split_part is_status_name
    built_in_status_names valid_category
program = tt

abbrev statuses : List CustomStatus
statuses =
    record { name = codes "review"; category = codes "wip" }
    ∷ record { name = codes "qa-2"; category = codes "unspecified" }
    ∷ []

parse_custom_status_config-proper_example :
    (length statuses ≤ max_custom_statuses)
    × (all is_proper statuses ≡ true)
    × (distinct (custom_status_names statuses) ≡ true)
unfolding program
parse_custom_status_config-proper_example =
    parse_custom_status_config-proper (codes " review:wip,, qa-2") statuses refl
