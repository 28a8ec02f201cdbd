-- ===== src/Tests/Template.antt =====
-- A bug with its steps in the description and its criteria in their own field.
use bd.Prelude.{◌≡◌, ◌≢◌, ◌↔◌, arith, refl, none, some, In}
use bd.Prelude.Text.{
  codes, ◌==◌, has_prefix, has_infix, lower, to_lower, trim_left, trim_right, trim_space,
}
use bd.Types.Issue.{Issue}
use bd.Types.IssueType.{type_bug}
use bd.Validation.Template.{
  RequiredSection, required_sections, trim_prefix, heading_text, validate_template, is_criteria,
  linted_text, remaining, lint_issue, default_reason, validate_close_reason,
}
use bd.Validation.Template.Sections.{IsCovered, lint_issue_iff}
use bd.Tests.Samples.{task, a}

program : Unit {0}
unfolding ◌==◌ has_prefix has_infix lower to_lower trim_left trim_right trim_space required_sections
    trim_prefix heading_text validate_template is_criteria linted_text remaining lint_issue
    validate_close_reason
program = tt

abbrev bug : Issue
bug = record (task a) {
  issue_type = type_bug;
  description = codes "STEPS to reproduce: run it";
  acceptance_criteria = codes "It runs";
}

passes : lint_issue (some bug) ≡ none
unfolding program
passes = refl

bare : lint_issue (some (task a)) ≢ none
unfolding program
bare h = ground arith

default_close : validate_close_reason (codes " Closed ") ≡ some default_reason
unfolding program
default_close = refl

lint_issue_iff_example :
    (lint_issue (some bug) ≡ none)
    ↔ ((s : RequiredSection) → In s (required_sections bug.issue_type) → IsCovered bug s)
lint_issue_iff_example = lint_issue_iff bug
