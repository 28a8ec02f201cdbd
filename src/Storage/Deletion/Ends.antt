-- ===== src/Storage/Deletion/Ends.antt =====
-- internal/storage/issueops/delete.go: the ends of the dependencies that a deletion leaves, and the ids
-- that are gone after it.
use bd.Prelude.{
  ℕ, zero, ◌≡◌, refl, sym, subst, Bool, true, false, ◌&&◌, not, Bool-cases, inl, inr, List, [], ◌∷◌,
  List-cases, any, select, length, In, In-select, arith,
}
use bd.Prelude.Text.{Text, ◌==◌, eq_refl, contains, contains_iff}
use bd.Types.DependencyType.{Dependency}
use bd.Types.Issue.{Issue}
use bd.Storage.Tables.{Tables, is_active_wisp}
use bd.Storage.Store.{Store}
use bd.Storage.Deletion.{
  ok, DeleteIssuesResult, delete_where, delete_from_issues, delete_wisp_rows, delete_issue_rows,
  delete_issue, delete_wisps, touches,
}
use bd.Storage.Deletion.Issues.{resolve_ids, delete_expanded, delete_regular, delete_issues}
use bd.Storage.Deletion.Closure.{find_all_dependents_iff}
use bd.Storage.Deletion.Effects.{has_id, has_id-delete, Leaves, in_batches-Leaves}
use bd.Storage.Deletion.Modes.{Result-cases, delete_regular-cases, resolve_ids-cascade}
use bd.Storage.Deletion.Checked.{resolve_ids-checked}

-- Both ends of every row of the table dependencies are issues.
abbrev pub HasEnds : Tables → Type 0
HasEnds db =
    (d : Dependency)
    → In d db.dependencies
    → (has_id db.issues d.issue_id ≡ true) × (has_id db.issues d.depends_on_id ≡ true)

-- A step that keeps the ends, and adds no wisp.
record KeepsEnds (st st' : Store) : Type 0 where
  ends : HasEnds st.tables → HasEnds st'.tables
  no_wisp : (x : Text) → has_id st.tables.wisps x ≡ false → has_id st'.tables.wisps x ≡ false

KeepsEnds-trans : (a b c : Store) → KeepsEnds a b → KeepsEnds b c → KeepsEnds a c
KeepsEnds-trans a b c p q = record {
  ends = λ h. q.ends (p.ends h);
  no_wisp = λ x h. q.no_wisp x (p.no_wisp x h);
}

KeepsEnds-refl : (st : Store) → KeepsEnds st st
KeepsEnds-refl st = record { ends = λ h. h; no_wisp = λ x h. h }

delete_wisp_rows-KeepsEnds : (id : Text) (st : Store) → KeepsEnds st (delete_wisp_rows id st)
unfolding delete_wisp_rows
delete_wisp_rows-KeepsEnds id st = record {
  ends = λ h. h;
  no_wisp = λ x h. ground (arith, h, has_id-delete (λ y. y == id) st.tables.wisps x);
}

delete_issue_rows-KeepsEnds : (id : Text) (st : Store) → KeepsEnds st (delete_issue_rows id st)
unfolding delete_issue_rows delete_from_issues
delete_issue_rows-KeepsEnds id st = record {
  ends = λ h d m.
      let untouched = delete_where (touches id) st.tables.dependencies in
      let gone : Dependency → Bool =
        λ e. any (λ (i : Issue). i.id == id && i.id == e.issue_id) st.tables.issues in
      let (n, g) = (In-select (λ e. not (gone e)) d untouched).0 m in
      let (k, t) = (In-select (λ e. not (touches id e)) d st.tables.dependencies).0 n in
      let (x, y) = h d k in
      let left = has_id-delete (λ z. z == id) st.tables.issues in
      (ground (arith, t, x, left d.issue_id), ground (arith, t, y, left d.depends_on_id));
  no_wisp = λ x h. h;
}

-- DeleteIssueInTx leaves no wisp with the id.
delete_issue-KeepsEnds :
    (st st' : Store) (id : Text)
    → delete_issue st id ≡ ok st'
    → KeepsEnds st st' × (has_id st'.tables.wisps id ≡ false)
unfolding delete_issue is_active_wisp delete_wisp_rows
delete_issue-KeepsEnds st st' id h = elim (Bool-cases (has_id st.tables.wisps id)) [
  | inl w ↦
      let same : delete_wisp_rows id st ≡ st' = ground (arith, w) in
      subst (λ (x : Store). KeepsEnds st x × (has_id x.tables.wisps id ≡ false)) same
        (
          delete_wisp_rows-KeepsEnds id st,
          ground (arith, has_id-delete (λ y. y == id) st.tables.wisps id, eq_refl id),
        )
  | inr r ↦ elim (Bool-cases (has_id st.tables.issues id)) [
    | inl k ↦
        let same : delete_issue_rows id st ≡ st' = ground (arith, r, k) in
        subst (λ (x : Store). KeepsEnds st x × (has_id x.tables.wisps id ≡ false)) same
          (delete_issue_rows-KeepsEnds id st, (delete_issue_rows-KeepsEnds id st).no_wisp id r)
    | inr k ↦ ground (arith, r, k)
  ]
]

delete_wisps-KeepsEnds :
    (ids : List Text) (st st' : Store)
    → delete_wisps ids st ≡ ok st'
    → KeepsEnds st st' × ((x : Text) → In x ids → has_id st'.tables.wisps x ≡ false)
unfolding delete_wisps
delete_wisps-KeepsEnds [] st st' h =
    let same : st ≡ st' = ground arith in
    (subst (KeepsEnds st) same (KeepsEnds-refl st), λ x m. absurd m)
delete_wisps-KeepsEnds (id ∷ ids) st st' h = elim (Result-cases (delete_issue st id)) [
  | inl (e, q) ↦ ground (arith, q)
  | inr (mid, q) ↦
      let (k, gone) = delete_issue-KeepsEnds st mid id q in
      let (l, others) = delete_wisps-KeepsEnds ids mid st' (ground (arith, q)) in
      (
        KeepsEnds-trans st mid st' k l,
        λ x m. elim m [
          | inl e ↦ l.no_wisp x (subst (λ y. has_id mid.tables.wisps y ≡ false) (sym e) gone)
          | inr n ↦ others x n
        ],
      )
]

Leaves-KeepsEnds : (named : Text → Bool) (st st' : Store) → Leaves named st st' → KeepsEnds st st'
Leaves-KeepsEnds named st st' l = record {
  ends = λ h d m.
      let (k, t, g) = (l.dependencies_iff d).0 m in
      let (x, y) = h d k in
      (ground (arith, g, x, l.known d.issue_id), ground (arith, t, y, l.known d.depends_on_id));
  no_wisp = λ x h. subst (λ (rows : List Issue). has_id rows x ≡ false) (sym l.same_wisps) h;
}

-- Every given id is in the set to delete.
resolve_ids-given :
    (deps : List Dependency) (ids : List Text) (cascade force : Bool) (expanded orphans : List Text)
    → resolve_ids deps ids cascade force ≡ ok (expanded, orphans)
    → (x : Text) → In x ids
    → contains expanded x ≡ true
unfolding resolve_ids
resolve_ids-given deps ids true force expanded orphans h x m = (contains_iff expanded x).1 (
    (find_all_dependents_iff deps ids expanded
        (resolve_ids-cascade deps ids force expanded orphans h) x).1
      (x, m, zero, refl))
resolve_ids-given deps ids false false expanded orphans h x m =
    let (c, e) = resolve_ids-checked deps ids expanded orphans h in
    subst (λ ys. contains ys x ≡ true) (sym e) ((contains_iff ids x).1 m)
resolve_ids-given deps ids false true expanded orphans h x m =
    let same : ids ≡ expanded = ground arith in
    subst (λ ys. contains ys x ≡ true) same ((contains_iff ids x).1 m)

module _ (ids : List Text) (cascade force : Bool) (st : Store) {res : DeleteIssuesResult}
    {st' : Store} where
  delete_regular-KeepsEnds :
      (n : ℕ)
      → delete_regular st ids n cascade force false ≡ ok (res, st')
      → KeepsEnds st st' × ((x : Text) → In x ids → has_id st'.tables.issues x ≡ false)
  delete_regular-KeepsEnds n h = elim (delete_regular-cases st ids cascade force n h) [
    | inl (empty, same) ↦
        (subst (KeepsEnds st) (sym same) (KeepsEnds-refl st), λ x m. absurd (subst (In x) empty m))
    | inr (expanded, orphans, r, same) ↦
        let l = subst (Leaves (contains expanded) st) (sym same) (in_batches-Leaves expanded st) in
        (
          Leaves-KeepsEnds (contains expanded) st st' l,
          λ x m. ground (
            arith,
            l.known x,
            resolve_ids-given st.tables.dependencies ids cascade force expanded orphans r x m,
          ),
        )
  ]

  delete_regular_dry :
      (n : ℕ) → delete_regular st ids n cascade force true ≡ ok (res, st') → st' ≡ st
  unfolding delete_regular delete_expanded
  delete_regular_dry n h = elim (List-cases ids) [
    | inl e ↦ ground (arith, e)
    | inr (x, xs, q) ↦ elim (Result-cases (resolve_ids st.tables.dependencies ids cascade force)) [
      | inl (e, r) ↦ ground (arith, q, r)
      | inr ((expanded, orphans), r) ↦ ground (arith, q, r)
    ]
  ]

module _ (ids : List Text) (cascade force : Bool) (st : Store) {res : DeleteIssuesResult}
    {st' : Store} where
  pub delete_issues_dry : delete_issues st ids cascade force true ≡ ok (res, st') → st' ≡ st
  unfolding delete_issues
  delete_issues_dry h = elim (List-cases ids) [
    | inl e ↦ ground (arith, e)
    | inr (x, xs, q) ↦
        let wisp_ids = select (is_active_wisp st.tables) ids in
        let regular_ids = select (λ x. not (is_active_wisp st.tables x)) ids in
        let later : delete_regular st regular_ids (length wisp_ids) cascade force true
            ≡ ok (res, st') =
          ground (arith, q) in
        delete_regular_dry regular_ids cascade force st (length wisp_ids) later
  ]

  pub delete_issues_real :
      delete_issues st ids cascade force false ≡ ok (res, st')
      → (HasEnds st.tables → HasEnds st'.tables)
        × ((x : Text)
            → In x ids
            → (has_id st'.tables.wisps x ≡ false)
              × (is_active_wisp st.tables x ≡ false → has_id st'.tables.issues x ≡ false))
  unfolding delete_issues is_active_wisp
  delete_issues_real h = elim (List-cases ids) [
    | inl e ↦
        let same : st ≡ st' = ground (arith, e) in
        (
          subst (λ (x : Store). HasEnds st.tables → HasEnds x.tables) same (λ k. k),
          λ x m. absurd (subst (In x) e m),
        )
    | inr (x, xs, q) ↦
        let wisp_ids = select (is_active_wisp st.tables) ids in
        let regular_ids = select (λ x. not (is_active_wisp st.tables x)) ids in
        elim (Result-cases (delete_wisps wisp_ids st)) [
          | inl (e, r) ↦ ground (arith, q, r)
          | inr (mid, r) ↦
              let later : delete_regular mid regular_ids (length wisp_ids) cascade force false
                  ≡ ok (res, st') =
                ground (arith, q, r) in
              let (k, gone) = delete_wisps-KeepsEnds wisp_ids st mid r in
              let (l, missing) =
                delete_regular-KeepsEnds regular_ids cascade force mid (length wisp_ids) later in
              (
                λ e. l.ends (k.ends e),
                λ y m. (
                  elim (Bool-cases (is_active_wisp st.tables y)) [
                    | inl w ↦
                        l.no_wisp y (gone y ((In-select (is_active_wisp st.tables) y ids).1 (m, w)))
                    | inr w ↦ l.no_wisp y (k.no_wisp y w)
                  ],
                  λ w. missing y (
                      (In-select (λ x. not (is_active_wisp st.tables x)) y ids).1
                        (m, ground (arith, w))),
                ),
              )
        ]
  ]
