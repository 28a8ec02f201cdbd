-- ===== src/Validation/Template/Sections.antt =====
-- LintIssue of internal/validation/template.go: which issues it passes.
use bd.Prelude.{
  ◌≡◌, ◌≢◌, ◌↔◌, ◌⊎◌, refl, sym, ap, ◌∙◌, Bool, true, false, not, Bool-cases, inl, inr, none, some,
  List, [], ◌∷◌, select, List-cases, In, In-select, arith,
}
use bd.Prelude.Text.{Text, ◌==◌, eq_iff, ne_of_test, has_infix, to_lower}
use bd.Types.Issue.{Issue}
use bd.Types.IssueType.{IssueType}
use bd.Validation.Template.{
  RequiredSection, TemplateError, required_sections, heading_text, is_missing, error_of,
  validate_template, is_criteria, linted_text, remaining, lint_issue,
}

-- The issue has the section: its heading stands in the text, or it is the one that the field of the
-- acceptance criteria stands for.
abbrev pub IsCovered : Issue → RequiredSection → Type 0
IsCovered i s =
    (has_infix (to_lower (linted_text i)) (heading_text s) ≡ true)
    ⊎ ((i.acceptance_criteria ≢ []) × (is_criteria s ≡ true))

module _ {A : Type 0} (p : A → Bool) where
  select_empty_iff : (xs : List A) → (select p xs ≡ []) ↔ ((x : A) → In x xs → p x ≡ false)
  select_empty_iff [] = (λ h x m. absurd m, λ h. refl)
  select_empty_iff (x ∷ xs) =
      let rest = select_empty_iff xs in
      elim (Bool-cases (p x)) [
        | inl e ↦ (λ h. absurd (ground arith), λ h. absurd (ground (arith, h x (inl refl))))
        | inr e ↦ (
          λ h y m. elim m [ inl q ↦ ap p q ∙ e | inr n ↦ rest.0 (ground arith) y n ],
          λ h. ground (arith, rest.1 (λ y n. h y (inr n))),
        )
      ]

some_distinct : (e : TemplateError) → some e ≢ none
some_distinct e h = ground arith

error_of_iff : (t : IssueType) (ss : List RequiredSection) → (error_of t ss ≡ none) ↔ (ss ≡ [])
error_of_iff t [] = ground arith
error_of_iff t (s ∷ ss) = ground arith

validate_template-error_of :
    (t : IssueType) (d : Text)
    → validate_template t d ≡ error_of t (select (is_missing d) (required_sections t))
unfolding validate_template
validate_template-error_of t d = elim (List-cases (required_sections t)) [
  | inl e ↦ ground (arith, e)
  | inr (s, ss, e) ↦ ground (arith, e)
]

In-missing :
    (i : Issue) (s : RequiredSection)
    → In s (select (is_missing (linted_text i)) (required_sections i.issue_type))
      ↔ (In s (required_sections i.issue_type) × (is_missing (linted_text i) s ≡ true))
In-missing i s = In-select (is_missing (linted_text i)) s (required_sections i.issue_type)

remaining_iff :
    (i : Issue) (missing : List RequiredSection)
    → (remaining i (error_of i.issue_type missing) ≡ none) ↔ (
        (s : RequiredSection)
        → In s missing
        → (i.acceptance_criteria ≢ []) × (is_criteria s ≡ true))
unfolding remaining
remaining_iff i [] = (λ h s m. absurd m, λ h. refl)
remaining_iff i (s ∷ ss) =
    let kept = select_empty_iff (λ s. not (is_criteria s)) (s ∷ ss) in
    let shown = error_of_iff i.issue_type (select (λ s. not (is_criteria s)) (s ∷ ss)) in
    elim (Bool-cases (i.acceptance_criteria == [])) [
      | inl e ↦ (
        λ h. absurd (some_distinct _ (rw e at h)),
        λ c. absurd ((c s (inl refl)).0 ((eq_iff i.acceptance_criteria []).0 e)),
      )
      | inr e ↦ (
        λ h s' m.
            let met = kept.0 (shown.0 (rw e at h)) s' m in
            (ne_of_test i.acceptance_criteria [] e, ground (arith, met)),
        λ c. rw e (shown.1 (kept.1 (λ s' m. let (g, met) = c s' m in ground (arith, met)))),
      )
    ]

-- LintIssue passes an issue exactly if every section that its type requires is there: its heading
-- stands in the description or the acceptance criteria, in any case of the letters, or it is the
-- section of the criteria and the field of the acceptance criteria is not empty.
pub lint_issue_iff :
    (i : Issue)
    → (lint_issue (some i) ≡ none)
      ↔ ((s : RequiredSection) → In s (required_sections i.issue_type) → IsCovered i s)
unfolding lint_issue
lint_issue_iff i =
    let missing = select (is_missing (linted_text i)) (required_sections i.issue_type) in
    let shape = ap (remaining i) (validate_template-error_of i.issue_type (linted_text i)) in
    let left = remaining_iff i missing in
    (
      λ h s m. elim (Bool-cases (is_missing (linted_text i) s)) [
        | inl e ↦ inr (left.0 (sym shape ∙ h) s ((In-missing i s).1 (m, e)))
        | inr e ↦ inl (ground (arith, e))
      ],
      λ c.
          shape
          ∙ left.1 (λ s n.
            let (m, e) = (In-missing i s).0 n in
            elim (c s m) [ inl f ↦ absurd (ground (arith, e, f)) | inr g ↦ g ]),
    )
