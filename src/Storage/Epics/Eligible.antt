-- ===== src/Storage/Epics/Eligible.antt =====
-- GetEpicsEligibleForClosureInTx of internal/storage/issueops/epic_closure.go: which epics it lists,
-- and which of them as eligible.
use bd.Prelude.{
  ◌≡◌, ◌≤◌, ◌<◌, ◌↔◌, ◌∙◌, refl, sym, ap, subst, Bool, true, false, ◌&&◌, not, Bool-cases, inl, inr,
  none, some, Option-cases, List, [], ◌∷◌, ◌++◌, any_intro, all, all_elim, select, length, eqb, ltb,
  In, In-select, In-map_intro, arith,
}
use bd.Prelude.Text.{Text, ◌==◌, eq_refl, contains, contains_iff}
use bd.Types.Status.{status_closed}
use bd.Types.IssueType.{type_epic}
use bd.Types.Issue.{Issue}
use bd.Storage.Tables.{Tables, select_issue, is_active_wisp, get_issue}
use bd.Storage.Lifecycle.Rows.{HasKeys}
use bd.Storage.Blocked.{concat_map}
use bd.Storage.Epics.{
  EpicStatus, last_row, rows_in, get_issues_by_ids, epic_ids, epic_children, child_issues,
  is_closed_child, count_closed, epic_status, epic_result, get_epics_eligible_for_closure,
}
use bd.Storage.Epics.LastRows.{last_row-append, last_row-rows_in, last_row-select_issue}
use bd.Storage.Epics.Children.{
  In-concat_map_intro, In-concat_map_elim, children_of, is_closed, epic_children-children_of,
  select_issue_present, or_else-get_issue, last_row-id,
}

module _ (db : Tables) (issues_keyed : HasKeys db.issues) (wisps_keyed : HasKeys db.wisps) where
  -- The map of the statuses agrees with GetIssueInTx on every child of the epics.
  is_closed_child-is_closed :
      (epics : List Text) (id c : Text)
      → In id epics
      → In c (children_of db id)
      → is_closed_child (child_issues db epics) c ≡ is_closed db c
  unfolding is_closed_child child_issues
  is_closed_child-is_closed epics id c m n =
      let ids = concat_map (epic_children db epics) epics in
      let own = epic_children-children_of db epics id ((contains_iff epics id).1 m) in
      let child : contains ids c ≡ true = (contains_iff ids c).1 (
        In-concat_map_intro (epic_children db epics) c id epics m
          (subst (λ (cs : List Text). In c cs) (sym own) n)) in
      let from_issues : last_row (rows_in db.issues ids) c ≡ select_issue db.issues c =
        last_row-rows_in db.issues ids c
        ∙ rw child (last_row-select_issue db.issues c issues_keyed) in
      let from_wisps : last_row (rows_in db.wisps ids) c ≡ select_issue db.wisps c =
        last_row-rows_in db.wisps ids c ∙ rw child (last_row-select_issue db.wisps c wisps_keyed) in
      let found : last_row (rows_in db.issues ids ++ rows_in db.wisps ids) c ≡ get_issue db c =
        last_row-append (rows_in db.issues ids) (rows_in db.wisps ids) c
        ∙ rw (from_issues, from_wisps) (or_else-get_issue db c) in
      ap (λ o. elim o [ none ↦ false | some i ↦ i.status == status_closed ]) found

  count_closed-le : (rows : List Issue) (cs : List Text) → count_closed rows cs ≤ length cs
  unfolding count_closed
  count_closed-le rows [] = omega arith
  count_closed-le rows (c ∷ cs) = ground (arith, count_closed-le rows cs)

  count_closed-all :
      (rows : List Issue) (cs : List Text)
      → eqb (length cs) (count_closed rows cs) ≡ all (is_closed_child rows) cs
  unfolding count_closed
  count_closed-all rows [] = refl
  count_closed-all rows (c ∷ cs) = ground (arith, count_closed-all rows cs, count_closed-le rows cs)

  all_intro :
      (p : Text → Bool) (cs : List Text) → ((c : Text) → In c cs → p c ≡ true) → all p cs ≡ true
  all_intro p [] h = refl
  all_intro p (c ∷ cs) h = ground (arith, h c (inl refl), all_intro p cs (λ d m. h d (inr m)))

  single : (t s : EpicStatus) → In s (t ∷ []) → s ≡ t
  single t s (inl e) = e
  single t s (inr m) = absurd m

  epic_result_elim :
      (epic_rows rows : List Issue) (children : List Text) (id : Text) (s : EpicStatus)
      → In s (epic_result epic_rows rows children id)
      → (0 < length children)
        × (i : Issue) × (last_row epic_rows id ≡ some i)
        × (s ≡ epic_status rows children i)
  unfolding epic_result
  epic_result_elim epic_rows rows children id s m = elim (Bool-cases (eqb (length children) 0)) [
    | inl e ↦ absurd (rw e at m)
    | inr e ↦ elim (Option-cases (last_row epic_rows id)) [
      | inl q ↦ absurd (rw (e, q) at m)
      | inr (i, q) ↦ (ground arith, i, q, single (epic_status rows children i) s (rw (e, q) at m))
    ]
  ]

  -- The list, in terms of the epics.
  listed :
      (s : EpicStatus)
      → In s (get_epics_eligible_for_closure db)
      → (i : Issue) × In i.id (epic_ids db)
        × (0 < length (children_of db i.id))
        × (s ≡ epic_status (child_issues db (epic_ids db)) (children_of db i.id) i)
  unfolding get_epics_eligible_for_closure
  listed s m =
      let epics = epic_ids db in
      let rows = child_issues db epics in
      let with_children = select (λ id. ltb 0 (length (epic_children db epics id))) epics in
      let epic_rows = get_issues_by_ids db with_children in
      let (id, k, l) =
        In-concat_map_elim (λ x. epic_result epic_rows rows (epic_children db epics x) x) s epics
          m in
      let (n, i, q, e) = epic_result_elim epic_rows rows (epic_children db epics id) id s l in
      let own : i.id ≡ id = last_row-id epic_rows id i q in
      let children : epic_children db epics id ≡ children_of db i.id =
        epic_children-children_of db epics id ((contains_iff epics id).1 k)
        ∙ ap (children_of db) (sym own) in
      (
        i,
        subst (λ x. In x epics) (sym own) k,
        subst (λ (cs : List Text). 0 < length cs) children n,
        e ∙ ap (λ (cs : List Text). epic_status rows cs i) children,
      )

  listed-eligible :
      (s : EpicStatus)
      → In s (get_epics_eligible_for_closure db)
      → (s.eligible_for_close ≡ true)
        ↔ ((c : Text) → In c (children_of db s.epic.id) → is_closed db c ≡ true)
  listed-eligible s m =
      let (i, k, n, same) = listed s m in
      let epics = epic_ids db in
      let rows = child_issues db epics in
      let children = children_of db i.id in
      let counted = count_closed-all rows children in
      subst
        (λ (t : EpicStatus).
          (t.eligible_for_close ≡ true)
          ↔ ((c : Text) → In c (children_of db t.epic.id) → is_closed db c ≡ true))
        (sym same)
        (
          λ h c l.
              sym (is_closed_child-is_closed epics i.id c k l)
              ∙ all_elim (is_closed_child rows) c children (ground (arith, counted)) l,
          λ h.
              let every =
                all_intro (is_closed_child rows) children
                  (λ c l. is_closed_child-is_closed epics i.id c k l ∙ h c l) in
              ground (arith, counted, every, n),
        )

  -- The epics are fetched by their ids from the table that their ids route to.
  fetched :
      (ids : List Text) (i : Issue)
      → In i db.issues
      → In i.id ids
      → (j : Issue) × (last_row (get_issues_by_ids db ids) i.id ≡ some j)
  unfolding get_issues_by_ids is_active_wisp
  fetched ids i m n =
      let wisp_ids = select (is_active_wisp db) ids in
      let perm_ids = select (λ id. not (is_active_wisp db id)) ids in
      let joined = last_row-append (rows_in db.issues perm_ids) (rows_in db.wisps wisp_ids) i.id in
      let from_wisps = last_row-rows_in db.wisps wisp_ids i.id in
      let from_issues = last_row-rows_in db.issues perm_ids i.id in
      elim (Bool-cases (is_active_wisp db i.id)) [
        | inl w ↦
            let (j, q) = select_issue_present db.wisps i.id w in
            let chosen : contains wisp_ids i.id ≡ true =
              (contains_iff wisp_ids i.id).1 ((In-select (is_active_wisp db) i.id ids).1 (n, w)) in
            let own : last_row (rows_in db.wisps wisp_ids) i.id ≡ some j =
              from_wisps ∙ rw chosen (last_row-select_issue db.wisps i.id wisps_keyed ∙ q) in
            (j, joined ∙ rw own refl)
        | inr w ↦
            let (j, q) =
              select_issue_present db.issues i.id
                (any_intro (λ (k : Issue). k.id == i.id) i db.issues m (eq_refl i.id)) in
            let chosen : contains perm_ids i.id ≡ true =
              (contains_iff perm_ids i.id).1
                ((In-select (λ id. not (is_active_wisp db id)) i.id ids).1 (n, rw w refl)) in
            let own : last_row (rows_in db.issues perm_ids) i.id ≡ some j =
              from_issues ∙ rw chosen (last_row-select_issue db.issues i.id issues_keyed ∙ q) in
            elim (Option-cases (last_row (rows_in db.wisps wisp_ids) i.id)) [
              | inl o ↦ (j, joined ∙ rw o own)
              | inr (k, o) ↦ (k, joined ∙ rw o refl)
            ]
      ]

  all_listed :
      (i : Issue)
      → In i db.issues
      → (i.issue_type == type_epic) ≡ true
      → (i.status == status_closed) ≡ false
      → 0 < length (children_of db i.id)
      → (s : EpicStatus) × In s (get_epics_eligible_for_closure db) × (s.epic.id ≡ i.id)
  unfolding get_epics_eligible_for_closure epic_ids epic_result
  all_listed i m t o n =
      let epics = epic_ids db in
      let rows = child_issues db epics in
      let test : Issue → Bool = λ j. j.issue_type == type_epic && not (j.status == status_closed) in
      let known : In i.id epics =
        In-map_intro (λ (j : Issue). j.id) i (select test db.issues)
          ((In-select test i db.issues).1 (m, ground arith)) in
      let own = epic_children-children_of db epics i.id ((contains_iff epics i.id).1 known) in
      let some_child : 0 < length (epic_children db epics i.id) =
        subst (λ (cs : List Text). 0 < length cs) (sym own) n in
      let with_children = select (λ id. ltb 0 (length (epic_children db epics id))) epics in
      let (j, q) = fetched with_children i m (
        (In-select (λ id. ltb 0 (length (epic_children db epics id))) i.id epics).1
          (known, ground arith)) in
      let epic_rows = get_issues_by_ids db with_children in
      let status = epic_status rows (epic_children db epics i.id) j in
      let empty : eqb (length (epic_children db epics i.id)) 0 ≡ false = ground arith in
      (
        status,
        In-concat_map_intro (λ x. epic_result epic_rows rows (epic_children db epics x) x) status
            i.id epics known (rw (empty, q) (inl refl)),
        last_row-id epic_rows i.id j q,
      )

  -- If the ids are primary keys: GetEpicsEligibleForClosureInTx marks a listed epic as eligible exactly
  -- if every issue or wisp with a parent-child row to it is found and closed; and it lists every epic
  -- among the issues that is not closed and has such a row.
  pub get_epics_eligible_for_closure-eligible :
      ((s : EpicStatus)
        → In s (get_epics_eligible_for_closure db)
        → (s.eligible_for_close ≡ true)
          ↔ ((c : Text) → In c (children_of db s.epic.id) → is_closed db c ≡ true))
      × ((i : Issue)
          → In i db.issues
          → (i.issue_type == type_epic) ≡ true
          → (i.status == status_closed) ≡ false
          → 0 < length (children_of db i.id)
          → (s : EpicStatus) × In s (get_epics_eligible_for_closure db) × (s.epic.id ≡ i.id))
  get_epics_eligible_for_closure-eligible = (listed-eligible, all_listed)
