-- ===== src/Storage/Deletion/Effects.antt =====
-- DeleteIssuesInTx of internal/storage/issueops/delete.go: which rows of issues and dependencies its
-- batches leave.
use bd.Prelude.{
  ◌≡◌, ◌↔◌, ◌∙◌, refl, ap, Bool, false, ◌&&◌, not, Bool-cases, inl, inr, List, [], ◌∷◌, any, select,
  length, In, In-select, arith,
}
use bd.Prelude.Text.{Text, ◌==◌, eq_iff, contains}
use bd.Types.DependencyType.{Dependency}
use bd.Types.Issue.{Issue}
use bd.Storage.Store.{Store}
use bd.Storage.Blocked.Queries.{any-batches}
use bd.Storage.Deletion.{delete_from_issues, delete_where, delete_batch_size}
use bd.Storage.Deletion.Issues.{delete_batch, delete_batches, in_batches}

abbrev pub has_id : List Issue → Text → Bool
has_id rows id = any (λ (i : Issue). i.id == id) rows

module _ (p : Text → Bool) where
  gone_iff :
      (rows : List Issue) (id : Text)
      → any (λ (i : Issue). p i.id && i.id == id) rows ≡ (p id && has_id rows id)
  gone_iff [] id = ground arith
  gone_iff (i ∷ rows) id = elim (Bool-cases (i.id == id)) [
    | inl e ↦
        let same : p i.id ≡ p id = ap p ((eq_iff i.id id).0 e) in
        ground (arith, same, gone_iff rows id)
    | inr e ↦ ground (arith, gone_iff rows id)
  ]

  pub has_id-delete :
      (rows : List Issue) (id : Text)
      → has_id (select (λ (i : Issue). not (p i.id)) rows) id ≡ (not (p id) && has_id rows id)
  has_id-delete [] id = ground arith
  has_id-delete (i ∷ rows) id = elim (Bool-cases (i.id == id)) [
    | inl e ↦
        let same : p i.id ≡ p id = ap p ((eq_iff i.id id).0 e) in
        ground (arith, same, has_id-delete rows id)
    | inr e ↦ ground (arith, has_id-delete rows id)
  ]

-- What is left, in terms of the set of ids that are deleted.
pub record Leaves (named : Text → Bool) (st st' : Store) : Type 0 where
  pub issues_iff :
      (i : Issue) → In i st'.tables.issues ↔ (In i st.tables.issues × (named i.id ≡ false))
  pub known :
      (id : Text) → has_id st'.tables.issues id ≡ (not (named id) && has_id st.tables.issues id)
  pub dependencies_iff :
      (d : Dependency)
      → In d st'.tables.dependencies ↔ (
          In d st.tables.dependencies
          × (named d.depends_on_id ≡ false)
          × ((named d.issue_id && has_id st.tables.issues d.issue_id) ≡ false))
  pub same_wisps : st'.tables.wisps ≡ st.tables.wisps
  pub same_wisp_dependencies : st'.tables.wisp_dependencies ≡ st.tables.wisp_dependencies

delete_batch-Leaves :
    (st : Store) (batch : List Text) → Leaves (contains batch) st (delete_batch st batch)
unfolding delete_batch delete_from_issues
delete_batch-Leaves st batch = record {
  issues_iff =
      λ i. ground (arith, In-select (λ (j : Issue). not (contains batch j.id)) i st.tables.issues);
  known = has_id-delete (contains batch) st.tables.issues;
  dependencies_iff = λ d. ground (
    arith,
    In-select (λ (e : Dependency). not (contains batch e.depends_on_id)) d st.tables.dependencies,
    In-select
        (λ (e : Dependency).
          not (any (λ (i : Issue). contains batch i.id && i.id == e.issue_id) st.tables.issues))
        d
        (delete_where (λ (e : Dependency). contains batch e.depends_on_id) st.tables.dependencies),
    gone_iff (contains batch) st.tables.issues d.issue_id,
  );
  same_wisps = refl;
  same_wisp_dependencies = refl;
}

abbrev named_in : List (List Text) → Text → Bool
named_in parts id = any (λ batch. contains batch id) parts

delete_batches-Leaves :
    (parts : List (List Text)) (st : Store) → Leaves (named_in parts) st (delete_batches st parts)
unfolding delete_batches
delete_batches-Leaves [] st = record {
  issues_iff = λ i. ground arith;
  known = λ id. refl;
  dependencies_iff = λ d. ground arith;
  same_wisps = refl;
  same_wisp_dependencies = refl;
}
delete_batches-Leaves (batch ∷ parts) st =
    let first = delete_batch-Leaves st batch in
    let rest = delete_batches-Leaves parts (delete_batch st batch) in
    record {
      issues_iff = λ i. ground (arith, first.issues_iff i, rest.issues_iff i);
      known = λ id. ground (arith, first.known id, rest.known id);
      dependencies_iff = λ d.
          ground (arith, first.dependencies_iff d, rest.dependencies_iff d, first.known d.issue_id);
      same_wisps = rest.same_wisps ∙ first.same_wisps;
      same_wisp_dependencies = rest.same_wisp_dependencies ∙ first.same_wisp_dependencies;
    }

pub in_batches_named :
    (ids : List Text) (id : Text) → named_in (in_batches ids) id ≡ contains ids id
in_batches_named ids id =
    any-batches (λ u. id == u) (length ids) delete_batch_size ids (omega arith) (omega arith)

-- The batches together delete what their ids name.
pub in_batches-Leaves :
    (ids : List Text) (st : Store) → Leaves (contains ids) st (delete_batches st (in_batches ids))
in_batches-Leaves ids st =
    let all_of = delete_batches-Leaves (in_batches ids) st in
    let same = in_batches_named ids in
    record {
      issues_iff = λ i. ground (arith, all_of.issues_iff i, same i.id);
      known = λ id. ground (arith, all_of.known id, same id);
      dependencies_iff =
          λ d. ground (arith, all_of.dependencies_iff d, same d.depends_on_id, same d.issue_id);
      same_wisps = all_of.same_wisps;
      same_wisp_dependencies = all_of.same_wisp_dependencies;
    }
