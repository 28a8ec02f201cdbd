-- ===== src/Storage/Deletion/Checked.antt =====
-- DeleteIssuesInTx of internal/storage/issueops/delete.go on regular issues, in the mode that refuses
-- to orphan a dependent.
use bd.Prelude.{
  ◌≡◌, ◌↔◌, sym, ap, ◌∙◌, subst, Bool, true, false, ◌&&◌, not, Bool-cases, inl, inr, List, [], ◌∷◌,
  select, In, In-select, arith, none, Option-cases, List-cases, In-map_intro, any_elim,
}
use bd.Prelude.Text.{Text, ◌==◌, eq_refl, contains, contains_iff}
use bd.Types.DependencyType.{Dependency}
use bd.Types.Issue.{Issue}
use bd.Storage.Store.{Store}
use bd.Storage.Deletion.{ok, DeleteIssuesResult}
use bd.Storage.Deletion.Issues.{
  delete_batches, in_batches, resolve_ids, delete_issues, check_batch, check_batches,
  external_dependents,
}
use bd.Storage.Deletion.Effects.{Leaves, in_batches_named, in_batches-Leaves}
use bd.Storage.Deletion.Modes.{delete_regular-cases, IsRegular, delete_issues-delete_regular}

check_batch-none :
    (deps : List Dependency) (ids batch rest : List Text)
    → check_batch deps ids batch rest ≡ none
    → (id : Text) → In id rest
    → external_dependents deps ids batch id ≡ []
unfolding check_batch
check_batch-none deps ids batch [] h id m = absurd m
check_batch-none deps ids batch (x ∷ rest) h id m =
    elim (List-cases (external_dependents deps ids batch x)) [
      | inl e ↦ elim m [
        | inl q ↦ subst (λ y. external_dependents deps ids batch y ≡ []) (sym q) e
        | inr n ↦ check_batch-none deps ids batch rest (ground (arith, e)) id n
      ]
      | inr (y, ys, e) ↦ ground (arith, e)
    ]

check_batches-none :
    (deps : List Dependency) (ids : List Text) (parts : List (List Text))
    → check_batches deps ids parts ≡ none
    → (batch : List Text) → In batch parts
    → check_batch deps ids batch batch ≡ none
unfolding check_batches
check_batches-none deps ids [] h batch m = absurd m
check_batches-none deps ids (part ∷ parts) h batch m =
    elim (Option-cases (check_batch deps ids part part)) [
      | inl e ↦ elim m [
        | inl q ↦ subst (λ b. check_batch deps ids b b ≡ none) (sym q) e
        | inr n ↦ check_batches-none deps ids parts (ground (arith, e)) batch n
      ]
      | inr (y, e) ↦ ground (arith, e)
    ]

no_external :
    (deps : List Dependency) (ids batch : List Text) (d : Dependency)
    → external_dependents deps ids batch d.depends_on_id ≡ []
    → In d deps
    → contains batch d.depends_on_id ≡ true
    → contains ids d.issue_id ≡ true
unfolding external_dependents
no_external deps ids batch d h m b = elim (Bool-cases (contains ids d.issue_id)) [
  | inl e ↦ e
  | inr e ↦
      let p : Dependency → Bool = λ x.
        contains batch x.depends_on_id
        && not (contains ids x.issue_id)
        && x.depends_on_id == d.depends_on_id in
      let passes : p d ≡ true = ground (arith, eq_refl d.depends_on_id) in
      absurd (
        subst (λ (ys : List Text). In d.issue_id ys) h
          (In-map_intro (λ (x : Dependency). x.issue_id) d (select p deps)
            ((In-select p d deps).1 (m, passes))))
]

check_batches_sound :
    (deps : List Dependency) (ids : List Text) (d : Dependency)
    → check_batches deps ids (in_batches ids) ≡ none
    → In d deps
    → contains ids d.depends_on_id ≡ true
    → contains ids d.issue_id ≡ true
check_batches_sound deps ids d h m c =
    let (batch, n, b) =
      any_elim (λ (b : List Text). contains b d.depends_on_id) (in_batches ids)
        (in_batches_named ids d.depends_on_id ∙ c) in
    no_external deps ids batch d
      (check_batch-none deps ids batch batch
        (check_batches-none deps ids (in_batches ids) h batch n) d.depends_on_id
        ((contains_iff batch d.depends_on_id).0 b))
      m b

pub resolve_ids-checked :
    (deps : List Dependency) (ids expanded orphans : List Text)
    → resolve_ids deps ids false false ≡ ok (expanded, orphans)
    → (check_batches deps ids (in_batches ids) ≡ none) × (expanded ≡ ids)
unfolding resolve_ids
resolve_ids-checked deps ids expanded orphans h =
    elim (Option-cases (check_batches deps ids (in_batches ids))) [
      | inl e ↦ (e, ground (arith, e))
      | inr (y, e) ↦ ground (arith, e)
    ]

-- If DeleteIssuesInTx without the modes cascade and force succeeds on regular issues, then by the rows of
-- the table dependencies only given issues depended on given ones; exactly the given issues are gone,
-- and every row of another issue in that table is still there; and the wisps and the table
-- wisp_dependencies, which is not checked for dependents, stay as they are.
pub delete_issues-checked :
    (st : Store) (ids : List Text) {res : DeleteIssuesResult} {st' : Store}
    → IsRegular st.tables ids
    → delete_issues st ids false false false ≡ ok (res, st')
    → ((d : Dependency)
        → In d st.tables.dependencies
        → contains ids d.depends_on_id ≡ true
        → contains ids d.issue_id ≡ true)
      × ((i : Issue)
          → In i st'.tables.issues ↔ (In i st.tables.issues × (contains ids i.id ≡ false)))
      × ((d : Dependency)
          → In d st.tables.dependencies
          → contains ids d.issue_id ≡ false
          → In d st'.tables.dependencies)
      × (st'.tables.wisps ≡ st.tables.wisps)
      × (st'.tables.wisp_dependencies ≡ st.tables.wisp_dependencies)
delete_issues-checked st ids {res} {st'} regular h =
    let deps = st.tables.dependencies in
    elim (delete_regular-cases st ids false false 0
      (sym (delete_issues-delete_regular st ids false false false regular) ∙ h)) [
        | inl (empty, same) ↦ ground (arith, empty, same)
        | inr (expanded, orphans, r, same) ↦
            let (c, e) = resolve_ids-checked deps ids expanded orphans r in
            let l =
              subst (Leaves (contains ids) st)
                (ap (λ x. delete_batches st (in_batches x)) (sym e) ∙ sym same)
                (in_batches-Leaves ids st) in
            (
              λ d m k. check_batches_sound deps ids d c m k,
              λ i. l.issues_iff i,
              λ d m k. ground (arith, l.dependencies_iff d, check_batches_sound deps ids d c m),
              l.same_wisps,
              l.same_wisp_dependencies,
            )
      ]
