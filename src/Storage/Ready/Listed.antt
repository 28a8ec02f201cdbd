-- ===== src/Storage/Ready/Listed.antt =====
-- GetReadyWorkInTx of internal/storage/issueops/ready_work.go: which issues it lists, and in which order.
use bd.Prelude.{
  ℕ, zero, suc, ◌≡◌, ◌↔◌, ◌⊎◌, ◌∙◌, refl, ap, true, false, ◌||◌, not, Option, some, List, [], ◌∷◌,
  any, select, take, eqb, arith, Bool-cases, Option-cases, inl, inr, In, In-select,
}
use bd.Prelude.Text.{Text, ◌==◌, contains_iff}
use bd.Types.Issue.{Issue}
use bd.Storage.Tables.{Tables, is_active_wisp}
use bd.Storage.Store.{Store}
use bd.Storage.Epics.{last_row, rows_in, get_issues_by_ids}
use bd.Storage.Epics.LastRows.{last_row-append, last_row-rows_in}
use bd.Storage.Search.{limited}
use bd.Storage.Ready.{
  is_deferred, get_children_of_deferred_parents, blocked_ids, status_clause, filter_clauses,
  is_ready_row,
}
use bd.Types.Filters.{WorkFilter}
use bd.Storage.Ready.Meaning.{
  some_parent, deferred_id, outside_lem, contains-get_children_of_deferred_parents, has_blocker,
  contains-blocked_ids,
}

last_row_present :
    (rows : List Issue) (id : Text)
    → any (λ (i : Issue). i.id == id) rows ≡ true
    → (j : Issue) × (last_row rows id ≡ some j)
unfolding last_row
last_row_present [] id h = cc
last_row_present (i ∷ rows) id h = elim (Option-cases (last_row rows id)) [
  | inr (j, e) ↦ (j, ground (arith, e))
  | inl e ↦ elim (Bool-cases (i.id == id)) [
    | inl q ↦ (i, ground (arith, e, q))
    | inr q ↦ let (j, f) = last_row_present rows id (ground arith) in (j, ground (arith, e, f))
  ]
]

-- GetIssuesByIDsInTx finds a row for each id of an issue or a wisp.
pub fetched_row :
    (db : Tables) (ids : List Text) (id : Text)
    → In id ids
    → (any (λ (i : Issue). i.id == id) db.issues || any (λ (i : Issue). i.id == id) db.wisps) ≡ true
    → (j : Issue) × (last_row (get_issues_by_ids db ids) id ≡ some j)
unfolding get_issues_by_ids is_active_wisp
fetched_row db ids id m h =
    let wisp_ids = select (is_active_wisp db) ids in
    let perm_ids = select (λ u. not (is_active_wisp db u)) ids in
    let joined = last_row-append (rows_in db.issues perm_ids) (rows_in db.wisps wisp_ids) id in
    let from_wisps = last_row-rows_in db.wisps wisp_ids id in
    let from_issues = last_row-rows_in db.issues perm_ids id in
    let chosen_wisp = contains_iff wisp_ids id in
    let chosen_issue = contains_iff perm_ids id in
    elim (Bool-cases (is_active_wisp db id)) [
      | inl w ↦
          let (j, q) = last_row_present db.wisps id w in
          let k = chosen_wisp.1 ((In-select (is_active_wisp db) id ids).1 (m, w)) in
          let own : last_row (rows_in db.wisps wisp_ids) id ≡ some j = from_wisps ∙ rw k q in
          (j, joined ∙ rw own refl)
      | inr w ↦
          let (j, q) = last_row_present db.issues id (ground (arith, h, w)) in
          let k =
            chosen_issue.1 ((In-select (λ u. not (is_active_wisp db u)) id ids).1 (m, rw w refl)) in
          let own : last_row (rows_in db.issues perm_ids) id ≡ some j = from_issues ∙ rw k q in
          elim (Option-cases (last_row (rows_in db.wisps wisp_ids) id)) [
            | inl o ↦ (j, joined ∙ rw o own)
            | inr (x, o) ↦ (x, joined ∙ rw o refl)
          ]
    ]

In-take : {A : Type 0} (n : ℕ) (x : A) (xs : List A) → In x (take n xs) → In x xs
In-take zero x xs m = absurd m
In-take (suc n) x [] m = m
In-take (suc n) x (y ∷ xs) (inl e) = inl e
In-take (suc n) x (y ∷ xs) (inr m) = inr (In-take n x xs m)

pub In-limited : {A : Type 0} (n : ℕ) (x : A) (xs : List A) → In x (limited n xs) → In x xs
In-limited n x xs m = elim (Bool-cases (eqb n 0)) [
  | inl e ↦ rw e at m
  | inr e ↦ In-take n x xs (rw e at m)
]

module _ (unmarshal_gate : Text → Option Text) (json_value : Text → Text → Option Text) (st : Store)
    (f : WorkFilter) (now : ℕ) where
  -- The issue can be worked on: it passes the filter, is not pinned, and neither it nor a parent of it is
  -- deferred, unless the filter includes those, or blocked by a dependency row of its own.
  pub record IsReady (i : Issue) : Type 0 where
    pub status : status_clause f i ≡ true
    pub filtered : filter_clauses json_value st f i ≡ true
    pub unpinned : i.pinned ≡ false
    pub lasting : (f.include_ephemeral ≡ true) ⊎ (i.ephemeral ≡ false)
    pub due :
        (f.include_deferred ≡ true)
        ⊎ ((is_deferred now i ≡ false)
            × (some_parent st.tables (deferred_id st.tables now) i.id ≡ false))
    pub unblocked : has_blocker unmarshal_gate st.tables f.include_ephemeral i.id ≡ false
    pub parent_unblocked :
        some_parent st.tables (has_blocker unmarshal_gate st.tables f.include_ephemeral) i.id
        ≡ false

  pub is_ready_row_iff :
      (i : Issue) → (is_ready_row unmarshal_gate json_value st f now i ≡ true) ↔ IsReady i
  unfolding is_ready_row
  is_ready_row_iff i =
      let deferred =
        outside_lem (get_children_of_deferred_parents st.tables now) i.id
        ∙ ap not (contains-get_children_of_deferred_parents st.tables now i.id) in
      let blocked =
        outside_lem (blocked_ids unmarshal_gate st.tables f.include_ephemeral) i.id
        ∙ ap not (contains-blocked_ids unmarshal_gate st.tables f.include_ephemeral i.id) in
      (
        λ h. record {
          status = ground (arith, h);
          filtered = ground (arith, h);
          unpinned = ground (arith, h);
          lasting = ground (arith, h);
          due = ground (arith, h, deferred);
          unblocked = ground (arith, h, blocked);
          parent_unblocked = ground (arith, h, blocked);
        },
        λ r. ground (
          arith, deferred, blocked, r.status, r.filtered, r.unpinned, r.lasting, r.due, r.unblocked,
          r.parent_unblocked,
        ),
      )
