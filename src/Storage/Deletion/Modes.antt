-- ===== src/Storage/Deletion/Modes.antt =====
-- DeleteIssuesInTx of internal/storage/issueops/delete.go on regular issues: what its modes have in
-- common, and the mode cascade.
use bd.Prelude.{
  ℕ, ◌≡◌, ◌↔◌, ◌⊎◌, refl, sym, ◌∙◌, subst, Bool, true, false, not, inl, inr, List, [], ◌∷◌, select,
  In, arith, List-cases,
}
use bd.Prelude.Text.{Text, contains, contains_iff}
use bd.Types.DependencyType.{Dependency}
use bd.Types.Issue.{Issue}
use bd.Storage.Tables.{Tables, is_active_wisp}
use bd.Storage.Store.{Store}
use bd.Storage.Deletion.{
  Result, ok, err, DeleteIssuesResult, DeletionError, delete_wisps, found, too_many, out_of_fuel,
  Found, find_all_dependents,
}
use bd.Storage.Deletion.Issues.{
  delete_batches, in_batches, resolve_ids, delete_expanded, delete_regular, delete_issues,
}
use bd.Storage.Deletion.Closure.{Reaches, find_all_dependents_iff}
use bd.Storage.Deletion.Effects.{Leaves, in_batches-Leaves}

pub Result-cases :
    {A : Type 0} (r : Result A) → ((e : DeletionError) × (r ≡ err e)) ⊎ ((a : A) × (r ≡ ok a))
Result-cases (ok a) = inr (a, refl)
Result-cases (err e) = inl (e, refl)

Found-cases : (f : Found) → ((r : List Text) × (f ≡ found r)) ⊎ (f ≡ too_many) ⊎ (f ≡ out_of_fuel)
Found-cases (found r) = inl (r, refl)
Found-cases too_many = inr (inl refl)
Found-cases out_of_fuel = inr (inr refl)

-- None of the ids is one of a wisp.
abbrev pub IsRegular : Tables → List Text → Type 0
IsRegular db ids = (x : Text) → In x ids → is_active_wisp db x ≡ false

regular_wisps :
    (db : Tables) (ids : List Text) → IsRegular db ids → select (is_active_wisp db) ids ≡ []
regular_wisps db [] h = refl
regular_wisps db (x ∷ ids) h =
    ground (arith, h x (inl refl), regular_wisps db ids (λ y m. h y (inr m)))

regular_ids :
    (db : Tables) (ids : List Text)
    → IsRegular db ids
    → select (λ x. not (is_active_wisp db x)) ids ≡ ids
regular_ids db [] h = refl
regular_ids db (x ∷ ids) h = ground (arith, h x (inl refl), regular_ids db ids (λ y m. h y (inr m)))

pub delete_issues-delete_regular :
    (st : Store) (ids : List Text) (cascade force dry_run : Bool)
    → IsRegular st.tables ids
    → delete_issues st ids cascade force dry_run ≡ delete_regular st ids 0 cascade force dry_run
unfolding delete_issues delete_wisps delete_regular
delete_issues-delete_regular st [] cascade force dry_run h = refl
delete_issues-delete_regular st (id ∷ ids) cascade force dry_run h =
    ground (arith, regular_wisps st.tables (id ∷ ids) h, regular_ids st.tables (id ∷ ids) h)

delete_expanded-store :
    (st : Store) (expanded orphans : List Text) (n : ℕ)
    → (delete_expanded st expanded orphans n false).1 ≡ delete_batches st (in_batches expanded)
unfolding delete_expanded
delete_expanded-store st expanded orphans n = refl

module _ (st : Store) (ids : List Text) (cascade force : Bool) (n : ℕ) {res : DeleteIssuesResult}
    {st' : Store} (deleted : delete_regular st ids n cascade force false ≡ ok (res, st')) where
  pub delete_regular-cases :
      ((ids ≡ []) × (st' ≡ st))
      ⊎ ((expanded : List Text) × (orphans : List Text) × (resolve_ids st.tables.dependencies ids
              cascade force
            ≡ ok (expanded, orphans))
          × (st' ≡ delete_batches st (in_batches expanded)))
  unfolding delete_regular
  delete_regular-cases = elim (List-cases ids) [
    | inl empty ↦ inl (empty, ground (arith, empty))
    | inr (x, xs, q) ↦ elim (Result-cases (resolve_ids st.tables.dependencies ids cascade force)) [
      | inl (e, r) ↦ ground (arith, q, r)
      | inr ((expanded, orphans), r) ↦
          inr (
            expanded,
            orphans,
            r,
            ground (arith, q, r, delete_expanded-store st expanded orphans n),
          )
    ]
  ]

pub resolve_ids-cascade :
    (deps : List Dependency) (ids : List Text) (force : Bool) (expanded orphans : List Text)
    → resolve_ids deps ids true force ≡ ok (expanded, orphans)
    → find_all_dependents deps ids ≡ found expanded
unfolding resolve_ids
resolve_ids-cascade deps ids force expanded orphans h =
    elim (Found-cases (find_all_dependents deps ids)) [
      | inl (r, e) ↦ ground (arith, e)
      | inr (inl e) ↦ ground (arith, e)
      | inr (inr e) ↦ ground (arith, e)
    ]

contains-Reaches :
    (deps : List Dependency) (ids r : List Text) (x : Text)
    → find_all_dependents deps ids ≡ found r
    → (contains r x ≡ false) ↔ (¬ Reaches deps ids x)
contains-Reaches deps ids r x h =
    ground (arith, contains_iff r x, find_all_dependents_iff deps ids r h x)

nothing-Reaches : (deps : List Dependency) (x : Text) → ¬ Reaches deps [] x
nothing-Reaches deps x (id, m, n, w) = m

-- If DeleteIssuesInTx in the mode cascade succeeds on regular issues, the issues that it leaves are
-- exactly those that depend on none of the given ones, neither directly nor through others, by rows of
-- the table dependencies of any type; in that table it leaves only rows that were there and whose target
-- does not depend on a given issue, among them every row both ends of which do not; and the wisps and
-- the table wisp_dependencies stay as they are.
pub delete_issues-cascade :
    (st : Store) (ids : List Text) (force : Bool) {res : DeleteIssuesResult} {st' : Store}
    → IsRegular st.tables ids
    → delete_issues st ids true force false ≡ ok (res, st')
    → ((i : Issue)
        → In i st'.tables.issues
          ↔ (In i st.tables.issues × (¬ Reaches st.tables.dependencies ids i.id)))
      × ((d : Dependency)
          → In d st'.tables.dependencies
          → In d st.tables.dependencies × (¬ Reaches st.tables.dependencies ids d.depends_on_id))
      × ((d : Dependency)
          → In d st.tables.dependencies
          → ¬ Reaches st.tables.dependencies ids d.issue_id
          → ¬ Reaches st.tables.dependencies ids d.depends_on_id
          → In d st'.tables.dependencies)
      × (st'.tables.wisps ≡ st.tables.wisps)
      × (st'.tables.wisp_dependencies ≡ st.tables.wisp_dependencies)
delete_issues-cascade st ids force {res} {st'} regular h =
    let deps = st.tables.dependencies in
    elim (delete_regular-cases st ids true force 0
      (sym (delete_issues-delete_regular st ids true force false regular) ∙ h)) [
        | inl (empty, same) ↦
            rw (empty, same)
              (
                (λ i. (λ m. (m, nothing-Reaches deps i.id), λ (m, n). m)),
                (λ d m. (m, nothing-Reaches deps d.depends_on_id)),
                (λ d m p q. m),
                refl,
                refl,
              )
        | inr (expanded, orphans, r, same) ↦
            let f = resolve_ids-cascade deps ids force expanded orphans r in
            let l =
              subst (Leaves (contains expanded) st) (sym same) (in_batches-Leaves expanded st) in
            (
              λ i. ground (arith, l.issues_iff i, contains-Reaches deps ids expanded i.id f),
              λ d m. ground (
                arith,
                l.dependencies_iff d,
                contains-Reaches deps ids expanded d.depends_on_id f,
              ),
              λ d m p q. (l.dependencies_iff d).1 (
                m,
                (contains-Reaches deps ids expanded d.depends_on_id f).1 q,
                ground (arith, (contains-Reaches deps ids expanded d.issue_id f).1 p),
              ),
              l.same_wisps,
              l.same_wisp_dependencies,
            )
      ]
