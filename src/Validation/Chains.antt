-- ===== src/Validation/Chains.antt =====
-- internal/validation/issue.go: the chains of validators.
use bd.Prelude.{
  ◌≡◌, ◌≢◌, ◌∙◌, ap, refl, ◌↔◌, ◌⊎◌, Bool, true, false, Option, none, some, Option-cases, inl, inr,
  List, [], ◌∷◌, In, arith,
}
use bd.Prelude.Text.{◌==◌}
use bd.Types.Issue.{Issue}
use bd.Types.Status.{status_closed, status_pinned}
use bd.Validation.{
  IssueValidator, chain, exists, not_template, not_pinned, has_status, for_close, for_reopen,
}

-- A chain passes an issue exactly if each of its validators does.
pub chain-passes :
    (vs : List IssueValidator) (i : Option Issue)
    → (chain vs i ≡ none) ↔ ((v : IssueValidator) → In v vs → v i ≡ none)
unfolding chain
chain-passes [] i = ground arith
chain-passes (v ∷ vs) i = elim (Option-cases (v i)) [
  | inl e ↦ (
    λ h. λ w m. elim m [
      | inl q ↦ ap (λ u. u i) q ∙ e
      | inr n ↦ (chain-passes vs i).0 (ground arith) w n
    ],
    λ f. ground (arith, (chain-passes vs i).1 (λ w n. f w (inr n))),
  )
  | inr (x, e) ↦ (λ h. ground arith, λ f. ground (arith, f v (inl refl)))
]

-- The chain before a close passes exactly the issues that exist, are no template, and are not
-- pinned, unless it is forced.
for_close-passes :
    (force : Bool) (i : Issue)
    → (for_close force none ≢ none)
      × ((for_close force (some i) ≡ none)
          ↔ ((i.is_template ≡ false) × ((force ≡ true) ⊎ ((i.status == status_pinned) ≡ false))))
unfolding for_close chain exists not_template not_pinned
for_close-passes force i = (ground arith, ground arith)

-- The chain before a reopening passes exactly the issues that exist, are no template and are closed.
for_reopen-passes :
    (i : Issue)
    → (for_reopen none ≢ none)
      × ((for_reopen (some i) ≡ none)
          ↔ ((i.is_template ≡ false) × ((i.status == status_closed) ≡ true)))
unfolding for_reopen chain exists not_template has_status
for_reopen-passes i = (ground arith, ground arith)
