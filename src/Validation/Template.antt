-- ===== src/Validation/Template.antt =====
-- internal/validation/template.go, with RequiredSections of internal/types/types.go: the sections that
-- the description of an issue should have, and ValidateCloseReason.
pub mod Sections
use bd.Prelude.{
  Bool, ◌||◌, not, Option, none, some, List, [], ◌∷◌, ◌++◌, select, length, ltb, if◌then◌else◌,
}
use bd.Prelude.Text.{Text, codes, ◌==◌, has_prefix, has_infix, to_lower, trim_space}
use bd.Types.Issue.{Issue}
use bd.Types.IssueType.{
  IssueType, type_bug, type_task, type_feature, type_story, type_epic, type_decision, type_spike,
}

-- RequiredSection and MissingSection, which have the same fields.
pub record RequiredSection : Type 0 where
  pub heading : Text
  pub hint : Text

-- TemplateError; a nil error is `none`.
pub record TemplateError : Type 0 where
  pub issue_type : IssueType
  pub missing : List RequiredSection

abbrev pub section : Text → Text → RequiredSection
section heading hint = record { heading = heading; hint = hint }

-- RequiredSections
unfoldable pub required_sections : IssueType → List RequiredSection
required_sections t =
    if t == type_bug
    then section (codes "## Steps to Reproduce") (codes "Describe how to reproduce the bug")
      ∷ section (codes "## Acceptance Criteria") (codes "Define criteria to verify the fix")
      ∷ []
    else if t == type_task || t == type_feature || t == type_story
    then section (codes "## Acceptance Criteria") (codes "Define criteria to verify completion")
      ∷ []
    else if t == type_epic
    then section (codes "## Success Criteria") (codes "Define high-level success criteria") ∷ []
    else if t == type_decision
    then section (codes "## Decision") (codes "Summarize what was decided")
      ∷ section (codes "## Rationale") (codes "Explain why this option was chosen")
      ∷ section (codes "## Alternatives Considered")
          (codes "List alternatives and why they were rejected")
      ∷ []
    else if t == type_spike
    then section (codes "## Goal") (codes "What question does this spike answer?")
      ∷ section (codes "## Findings") (codes "What was learned? (fill in when complete)")
      ∷ []
    else []

-- s[len(p):] where p is a prefix of s.
abbrev pub after_prefix : Text → Text → Text
after_prefix (c ∷ s) (d ∷ p) = after_prefix s p
after_prefix s p = s

-- strings.TrimPrefix
unfoldable pub trim_prefix : Text → Text → Text
trim_prefix s p = if has_prefix s p then after_prefix s p else s

-- The heading without the signs of Markdown, in lower case.
unfoldable pub heading_text : RequiredSection → Text
unfolding trim_prefix
heading_text s = to_lower (trim_prefix (trim_prefix s.heading (codes "## ")) (codes "# "))

abbrev pub is_missing : Text → RequiredSection → Bool
is_missing description s = not (has_infix (to_lower description) (heading_text s))

-- A *TemplateError with the sections, or nil if there are none.
abbrev pub error_of : IssueType → List RequiredSection → Option TemplateError
error_of t [] = none
error_of t (s ∷ missing) = some (record { issue_type = t; missing = s ∷ missing })

-- ValidateTemplate
unfoldable pub validate_template : IssueType → Text → Option TemplateError
validate_template t description = elim (required_sections t) [
  | [] ↦ none
  | s ∷ sections ↦ error_of t (select (is_missing description) (s ∷ sections))
]

-- "acceptance criteria" and "success criteria"
unfoldable pub is_criteria : RequiredSection → Bool
unfolding trim_prefix
is_criteria s =
    let heading = to_lower (trim_prefix s.heading (codes "## ")) in
    heading == codes "acceptance criteria" || heading == codes "success criteria"

-- The description, with the acceptance criteria on a line of their own.
unfoldable pub linted_text : Issue → Text
linted_text i =
    if not (i.acceptance_criteria == [])
    then i.description ++ (codes "\n" ++ i.acceptance_criteria)
    else i.description

-- What LintIssue keeps of the error of ValidateTemplate.
unfoldable pub remaining : Issue → Option TemplateError → Option TemplateError
remaining i none = none
remaining i (some e) =
    if i.acceptance_criteria == []
    then some e
    else error_of e.issue_type (select (λ s. not (is_criteria s)) e.missing)

-- LintIssue
unfoldable pub lint_issue : Option Issue → Option TemplateError
lint_issue none = none
lint_issue (some i) = remaining i (validate_template i.issue_type (linted_text i))

pub data ReasonError : Type 0 where
  default_reason terse_reason : ReasonError

-- ValidateCloseReason
unfoldable pub validate_close_reason : Text → Option ReasonError
validate_close_reason reason =
    let reason = trim_space reason in
    if reason == [] || to_lower reason == codes "closed"
    then some default_reason
    else if ltb (length reason) 20
    then some terse_reason
    else none
