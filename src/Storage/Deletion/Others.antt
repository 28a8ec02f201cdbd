-- ===== src/Storage/Deletion/Others.antt =====
-- internal/storage/issueops/delete.go: the issues and wisps that a deletion does not name.
use bd.Prelude.{
  ℕ, ◌≡◌, ◌∙◌, refl, sym, ap, subst, Bool, true, false, not, Bool-cases, inl, inr, List, [], ◌∷◌,
  List-cases, select, length, In, In-select, arith,
}
use bd.Prelude.Text.{Text, ◌==◌, eq_iff, contains, contains_iff}
use bd.Types.Issue.{Issue}
use bd.Storage.Tables.{is_active_wisp}
use bd.Storage.Store.{Store}
use bd.Storage.Deletion.{
  ok, DeleteIssuesResult, delete_from_issues, delete_wisp_rows, delete_issue_rows, delete_issue,
  delete_wisps,
}
use bd.Storage.Deletion.Issues.{resolve_ids, delete_regular, delete_issues}
use bd.Storage.Deletion.Effects.{has_id, Leaves, in_batches-Leaves}
use bd.Storage.Deletion.Modes.{Result-cases, delete_regular-cases}
use bd.Storage.Deletion.Checked.{resolve_ids-checked}

module _ (named : Text → Bool) where
  -- The rows that are not named stay.
  record KeepsOthers (st st' : Store) : Type 0 where
    issues : (i : Issue) → In i st.tables.issues → named i.id ≡ false → In i st'.tables.issues
    wisps : (i : Issue) → In i st.tables.wisps → named i.id ≡ false → In i st'.tables.wisps

  KeepsOthers-refl : (st : Store) → KeepsOthers st st
  KeepsOthers-refl st = record { issues = λ i m o. m; wisps = λ i m o. m }

  KeepsOthers-trans : (a b c : Store) → KeepsOthers a b → KeepsOthers b c → KeepsOthers a c
  KeepsOthers-trans a b c p q = record {
    issues = λ i m o. q.issues i (p.issues i m o) o;
    wisps = λ i m o. q.wisps i (p.wisps i m o) o;
  }

  differs : (x id : Text) → named x ≡ false → named id ≡ true → (x == id) ≡ false
  differs x id o k = elim (Bool-cases (x == id)) [
    | inl e ↦ cc (sym o ∙ ap named ((eq_iff x id).0 e) ∙ k)
    | inr e ↦ e
  ]

  kept_row :
      (i : Issue) (rows : List Issue) (id : Text)
      → In i rows
      → named i.id ≡ false
      → named id ≡ true
      → In i (select (λ (j : Issue). not (j.id == id)) rows)
  kept_row i rows id m o k =
      (In-select (λ (j : Issue). not (j.id == id)) i rows).1
        (m, ground (arith, differs i.id id o k))

  delete_issue-KeepsOthers :
      (st st' : Store) (id : Text)
      → named id ≡ true
      → delete_issue st id ≡ ok st'
      → KeepsOthers st st'
  unfolding delete_issue is_active_wisp delete_wisp_rows delete_issue_rows delete_from_issues
  delete_issue-KeepsOthers st st' id k h = elim (Bool-cases (has_id st.tables.wisps id)) [
    | inl w ↦
        let same : delete_wisp_rows id st ≡ st' = ground (arith, w) in
        subst (KeepsOthers st) same
          (record { issues = λ i m o. m; wisps = λ i m o. kept_row i st.tables.wisps id m o k })
    | inr r ↦ elim (Bool-cases (has_id st.tables.issues id)) [
      | inl p ↦
          let same : delete_issue_rows id st ≡ st' = ground (arith, r, p) in
          subst (KeepsOthers st) same
            (record { issues = λ i m o. kept_row i st.tables.issues id m o k; wisps = λ i m o. m })
      | inr p ↦ ground (arith, r, p)
    ]
  ]

  delete_wisps-KeepsOthers :
      (ids : List Text) (st st' : Store)
      → ((x : Text) → In x ids → named x ≡ true)
      → delete_wisps ids st ≡ ok st'
      → KeepsOthers st st'
  unfolding delete_wisps
  delete_wisps-KeepsOthers [] st st' k h =
      let same : st ≡ st' = ground arith in subst (KeepsOthers st) same (KeepsOthers-refl st)
  delete_wisps-KeepsOthers (id ∷ ids) st st' k h = elim (Result-cases (delete_issue st id)) [
    | inl (e, q) ↦ ground (arith, q)
    | inr (mid, q) ↦
        KeepsOthers-trans st mid st' (delete_issue-KeepsOthers st mid id (k id (inl refl)) q)
          (delete_wisps-KeepsOthers ids mid st' (λ x m. k x (inr m)) (ground (arith, q)))
  ]

resolve_ids-same :
    (st : Store) (ids : List Text) (force : Bool) (expanded orphans : List Text)
    → resolve_ids st.tables.dependencies ids false force ≡ ok (expanded, orphans)
    → expanded ≡ ids
unfolding resolve_ids
resolve_ids-same st ids false expanded orphans h =
    (resolve_ids-checked st.tables.dependencies ids expanded orphans h).1
resolve_ids-same st ids true expanded orphans h = ground arith

module _ (ids : List Text) (cascade force : Bool) (st : Store) {res : DeleteIssuesResult}
    {st' : Store} where
  delete_regular-others :
      (n : ℕ)
      → delete_regular st ids n cascade force false ≡ ok (res, st')
      → (st'.tables.wisps ≡ st.tables.wisps)
        × (cascade ≡ false
            → (i : Issue) → In i st.tables.issues
            → contains ids i.id ≡ false
            → In i st'.tables.issues)
  delete_regular-others n h = elim (delete_regular-cases st ids cascade force n h) [
    | inl (empty, same) ↦ (
      ap (λ (x : Store). x.tables.wisps) same,
      λ c i m o. subst (λ (x : Store). In i x.tables.issues) (sym same) m,
    )
    | inr (expanded, orphans, r, same) ↦
        let l = subst (Leaves (contains expanded) st) (sym same) (in_batches-Leaves expanded st) in
        (
          l.same_wisps,
          λ c i m o.
              let e = resolve_ids-same st ids force expanded orphans (rw c at r) in
              (l.issues_iff i).1 (m, subst (λ ys. contains ys i.id ≡ false) (sym e) o),
        )
  ]

contains-select :
    (p : Text → Bool) (ids : List Text) (x : Text)
    → contains ids x ≡ false
    → contains (select p ids) x ≡ false
contains-select p [] x h = refl
contains-select p (y ∷ ids) x h = ground (arith, contains-select p ids x)

module _ (ids : List Text) (cascade force : Bool) (st : Store) {res : DeleteIssuesResult}
    {st' : Store} where
  pub delete_issues_others :
      delete_issues st ids cascade force false ≡ ok (res, st')
      → ((i : Issue) → In i st.tables.wisps → contains ids i.id ≡ false → In i st'.tables.wisps)
        × (cascade ≡ false
            → (i : Issue) → In i st.tables.issues
            → contains ids i.id ≡ false
            → In i st'.tables.issues)
  unfolding delete_issues
  delete_issues_others h = elim (List-cases ids) [
    | inl e ↦
        let same : st ≡ st' = ground (arith, e) in
        subst
          (λ (x : Store).
            ((i : Issue) → In i st.tables.wisps → contains ids i.id ≡ false → In i x.tables.wisps)
            × (cascade ≡ false
                → (i : Issue) → In i st.tables.issues
                → contains ids i.id ≡ false
                → In i x.tables.issues))
          same (λ i m o. m, λ c i m o. m)
    | inr (x, xs, q) ↦
        let wisp : Text → Bool = is_active_wisp st.tables in
        let wisp_ids = select wisp ids in
        let regular_ids = select (λ x. not (is_active_wisp st.tables x)) ids in
        elim (Result-cases (delete_wisps wisp_ids st)) [
          | inl (e, r) ↦ ground (arith, q, r)
          | inr (mid, r) ↦
              let later : delete_regular mid regular_ids (length wisp_ids) cascade force false
                  ≡ ok (res, st') =
                ground (arith, q, r) in
              let k =
                delete_wisps-KeepsOthers (contains ids) wisp_ids st mid
                  (λ y m. (contains_iff ids y).1 ((In-select wisp y ids).0 m).0) r in
              let (w, l) =
                delete_regular-others regular_ids cascade force mid (length wisp_ids) later in
              (
                λ i m o. subst (In i) (sym w) (k.wisps i m o),
                λ c i m o.
                    l c i (k.issues i m o)
                      (contains-select (λ x. not (is_active_wisp st.tables x)) ids i.id o),
              )
        ]
  ]
