-- ===== src/Storage/Deletion/Parts.antt =====
-- internal/storage/issueops/delete.go: deleting only takes rows away, from every table.
use bd.Prelude.{
  ℕ, List-cases, ◌≡◌, subst, Bool, true, false, ◌&&◌, not, Bool-cases, inl, inr, List, [], ◌∷◌, any,
  if◌then◌else◌, select, length, In, In-select, arith,
}
use bd.Prelude.Text.{Text, ◌==◌, contains}
use bd.Types.DependencyType.{Dependency}
use bd.Types.Issue.{Issue}
use bd.Storage.Tables.{Tables, EventRow, is_active_wisp}
use bd.Storage.Store.{Store}
use bd.Storage.Deletion.{
  Result, ok, DeleteIssuesResult, delete_where, delete_from_issues, delete_wisp_rows,
  delete_issue_rows, delete_issue, delete_wisps, touches,
}
use bd.Storage.Deletion.Issues.{
  delete_batch, delete_batches, delete_expanded, delete_regular, delete_issues, resolve_ids,
  in_batches,
}
use bd.Storage.Deletion.Modes.{Result-cases}

-- The rows of the second tables are rows of the first.
pub record IsPart (db db' : Tables) : Type 0 where
  pub some_issues : (i : Issue) → In i db'.issues → In i db.issues
  pub some_wisps : (i : Issue) → In i db'.wisps → In i db.wisps
  pub some_dependencies : (d : Dependency) → In d db'.dependencies → In d db.dependencies
  pub some_wisp_dependencies :
      (d : Dependency) → In d db'.wisp_dependencies → In d db.wisp_dependencies

IsPart-refl : (db : Tables) → IsPart db db
IsPart-refl db = record {
  some_issues = λ i m. m;
  some_wisps = λ i m. m;
  some_dependencies = λ d m. m;
  some_wisp_dependencies = λ d m. m;
}

IsPart-trans : (a b c : Tables) → IsPart a b → IsPart b c → IsPart a c
IsPart-trans a b c p q = record {
  some_issues = λ i m. p.some_issues i (q.some_issues i m);
  some_wisps = λ i m. p.some_wisps i (q.some_wisps i m);
  some_dependencies = λ d m. p.some_dependencies d (q.some_dependencies d m);
  some_wisp_dependencies = λ d m. p.some_wisp_dependencies d (q.some_wisp_dependencies d m);
}

In-delete_where :
    {A : Type 0} (p : A → Bool) (x : A) (xs : List A) → In x (delete_where p xs) → In x xs
In-delete_where p x xs m = ((In-select (λ y. not (p y)) x xs).0 m).0

delete_from_issues-IsPart :
    (p : Text → Bool) (st : Store) → IsPart st.tables (delete_from_issues p st).tables
unfolding delete_from_issues
delete_from_issues-IsPart p st = record {
  some_issues = λ i m. In-delete_where (λ (j : Issue). p j.id) i st.tables.issues m;
  some_wisps = λ i m. m;
  some_dependencies = λ d m.
      In-delete_where
        (λ (e : Dependency). any (λ (i : Issue). p i.id && i.id == e.issue_id) st.tables.issues) d
        st.tables.dependencies m;
  some_wisp_dependencies = λ d m. m;
}

delete_wisp_rows-IsPart :
    (id : Text) (st : Store) → IsPart st.tables (delete_wisp_rows id st).tables
unfolding delete_wisp_rows
delete_wisp_rows-IsPart id st = record {
  some_issues = λ i m. m;
  some_wisps = λ i m. In-delete_where (λ (j : Issue). j.id == id) i st.tables.wisps m;
  some_dependencies = λ d m. m;
  some_wisp_dependencies = λ d m. In-delete_where (touches id) d st.tables.wisp_dependencies m;
}

related_rows-IsPart :
    (db : Tables) (p : Dependency → Bool) (rows : List EventRow)
    → IsPart db (record db { dependencies = delete_where p db.dependencies; events = rows })
related_rows-IsPart db p rows = record {
  some_issues = λ i m. m;
  some_wisps = λ i m. m;
  some_dependencies = λ d m. In-delete_where p d db.dependencies m;
  some_wisp_dependencies = λ d m. m;
}

delete_issue_rows-IsPart :
    (id : Text) (st : Store) → IsPart st.tables (delete_issue_rows id st).tables
unfolding delete_issue_rows
delete_issue_rows-IsPart id st =
    let related : Store = record st {
      tables = record st.tables {
        dependencies = delete_where (touches id) st.tables.dependencies;
        events = delete_where (λ e. e.issue_id == id) st.tables.events;
      };
      comments = delete_where (λ c. c.issue_id == id) st.comments;
      labels = delete_where (λ l. l.issue_id == id) st.labels;
    } in
    IsPart-trans st.tables related.tables (delete_from_issues (λ x. x == id) related).tables
      (related_rows-IsPart st.tables (touches id) related.tables.events)
      (delete_from_issues-IsPart (λ x. x == id) related)

delete_issue-IsPart :
    (st st' : Store) (id : Text) → delete_issue st id ≡ ok st' → IsPart st.tables st'.tables
unfolding delete_issue
delete_issue-IsPart st st' id h = elim (Bool-cases (is_active_wisp st.tables id)) [
  | inl w ↦
      let same : delete_wisp_rows id st ≡ st' = ground (arith, w) in
      subst (λ (x : Store). IsPart st.tables x.tables) same (delete_wisp_rows-IsPart id st)
  | inr r ↦ elim (Bool-cases (any (λ (i : Issue). i.id == id) st.tables.issues)) [
    | inl k ↦
        let same : delete_issue_rows id st ≡ st' = ground (arith, r, k) in
        subst (λ (x : Store). IsPart st.tables x.tables) same (delete_issue_rows-IsPart id st)
    | inr k ↦ ground (arith, r, k)
  ]
]

delete_wisps-IsPart :
    (ids : List Text) (st st' : Store) → delete_wisps ids st ≡ ok st' → IsPart st.tables st'.tables
unfolding delete_wisps
delete_wisps-IsPart [] st st' h =
    let same : st ≡ st' = ground arith in
    subst (λ (x : Store). IsPart st.tables x.tables) same (IsPart-refl st.tables)
delete_wisps-IsPart (id ∷ ids) st st' h = elim (Result-cases (delete_issue st id)) [
  | inl (e, q) ↦ ground (arith, q)
  | inr (mid, q) ↦
      IsPart-trans st.tables mid.tables st'.tables (delete_issue-IsPart st mid id q)
        (delete_wisps-IsPart ids mid st' (ground (arith, q)))
]

delete_batch-IsPart :
    (batch : List Text) (st : Store) → IsPart st.tables (delete_batch st batch).tables
unfolding delete_batch
delete_batch-IsPart batch st =
    let p : Dependency → Bool = λ d. contains batch d.depends_on_id in
    let related : Store = record st {
      tables = record st.tables { dependencies = delete_where p st.tables.dependencies };
    } in
    IsPart-trans st.tables related.tables (delete_from_issues (contains batch) related).tables
      (related_rows-IsPart st.tables p st.tables.events)
      (delete_from_issues-IsPart (contains batch) related)

delete_batches-IsPart :
    (parts : List (List Text)) (st : Store) → IsPart st.tables (delete_batches st parts).tables
unfolding delete_batches
delete_batches-IsPart [] st = IsPart-refl st.tables
delete_batches-IsPart (batch ∷ parts) st =
    IsPart-trans st.tables (delete_batch st batch).tables
      (delete_batches (delete_batch st batch) parts).tables (delete_batch-IsPart batch st)
      (delete_batches-IsPart parts (delete_batch st batch))

delete_expanded-IsPart :
    (st : Store) (expanded orphans : List Text) (n : ℕ) (dry_run : Bool)
    → IsPart st.tables (delete_expanded st expanded orphans n dry_run).1.tables
unfolding delete_expanded
delete_expanded-IsPart st expanded orphans n true = IsPart-refl st.tables
delete_expanded-IsPart st expanded orphans n false = delete_batches-IsPart (in_batches expanded) st

abbrev wisps_deleted : Bool → List Text → Store → Result Store
wisps_deleted dry_run wisp_ids st = if dry_run then ok st else delete_wisps wisp_ids st

wisps_deleted-IsPart :
    (dry_run : Bool) (wisp_ids : List Text) (st mid : Store)
    → wisps_deleted dry_run wisp_ids st ≡ ok mid
    → IsPart st.tables mid.tables
wisps_deleted-IsPart true wisp_ids st mid h =
    let same : st ≡ mid = ground arith in
    subst (λ (x : Store). IsPart st.tables x.tables) same (IsPart-refl st.tables)
wisps_deleted-IsPart false wisp_ids st mid h = delete_wisps-IsPart wisp_ids st mid h

module _ (ids : List Text) (cascade force dry_run : Bool) (st : Store) {res : DeleteIssuesResult}
    {st' : Store} where
  delete_regular-IsPart :
      (n : ℕ)
      → delete_regular st ids n cascade force dry_run ≡ ok (res, st')
      → IsPart st.tables st'.tables
  unfolding delete_regular
  delete_regular-IsPart n h = elim (List-cases ids) [
    | inl e ↦
        let same : st ≡ st' = ground (arith, e) in
        subst (λ (x : Store). IsPart st.tables x.tables) same (IsPart-refl st.tables)
    | inr (x, xs, q) ↦ elim (Result-cases (resolve_ids st.tables.dependencies ids cascade force)) [
      | inl (e, r) ↦ ground (arith, q, r)
      | inr ((expanded, orphans), r) ↦
          let same : (delete_expanded st expanded orphans n dry_run).1 ≡ st' =
            ground (arith, q, r) in
          subst (λ (x : Store). IsPart st.tables x.tables) same
            (delete_expanded-IsPart st expanded orphans n dry_run)
    ]
  ]

module _ (ids : List Text) (cascade force dry_run : Bool) (st : Store) {res : DeleteIssuesResult}
    {st' : Store} where
  pub delete_issues-IsPart :
      delete_issues st ids cascade force dry_run ≡ ok (res, st') → IsPart st.tables st'.tables
  unfolding delete_issues
  delete_issues-IsPart h = elim (List-cases ids) [
    | inl e ↦
        let same : st ≡ st' = ground (arith, e) in
        subst (λ (x : Store). IsPart st.tables x.tables) same (IsPart-refl st.tables)
    | inr (x, xs, q) ↦
        elim (Result-cases (wisps_deleted dry_run (select (is_active_wisp st.tables) ids) st)) [
          | inl (e, r) ↦ ground (arith, q, r)
          | inr (mid, r) ↦
              let wisp_ids = select (is_active_wisp st.tables) ids in
              let regular_ids = select (λ x. not (is_active_wisp st.tables x)) ids in
              let later : delete_regular mid regular_ids (length wisp_ids) cascade force dry_run
                  ≡ ok (res, st') =
                ground (arith, q, r) in
              IsPart-trans st.tables mid.tables st'.tables
                (wisps_deleted-IsPart dry_run wisp_ids st mid r)
                (delete_regular-IsPart regular_ids cascade force dry_run mid (length wisp_ids)
                  later)
        ]
  ]
