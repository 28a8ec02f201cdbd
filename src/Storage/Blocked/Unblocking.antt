-- ===== src/Storage/Blocked/Unblocking.antt =====
-- internal/storage/issueops/dependency_queries.go: the check of one issue, and the issues that a close
-- unblocks.
use bd.Prelude.{
  ◌≡◌, ◌≢◌, ◌∙◌, refl, sym, ap, subst, Bool, true, false, ◌&&◌, ◌||◌, not, none, some, List, [],
  ◌∷◌, map, any, select, eqb, length, In, inl, inr, Bool-cases, Option-cases, arith, In-select,
}
use bd.Prelude.{any-map, any-select, any_ext}
use bd.Prelude.Text.{Text, ◌==◌, eq_iff, contains, contains_iff}
use bd.Types.Issue.{Issue}
use bd.Types.DependencyType.{Dependency, dep_blocks}
use bd.Storage.Tables.{DepTable, Tables, get_issue, dep_rows}
use bd.Storage.Blocked.{put_all, concat_map, dep_tables, is_direct, is_waits_for}
use bd.Storage.Blocked.Checks.{
  find_status, is_active, own_rows, active_blockers, is_blocked, candidates, still_blocked, collect,
  get_newly_unblocked_by_close,
}
use bd.Storage.Lifecycle.Rows.{get_issue-id}
use bd.Storage.Blocked.Queries.{contains-put_all, any-concat_map}
use bd.Storage.Blocked.Meaning.{some_dep}

length-active_blockers :
    (db : Tables) (ds : List Dependency)
    → not (eqb (length (active_blockers db ds)) 0) ≡ any (λ d. is_active db d.depends_on_id) ds
unfolding active_blockers
length-active_blockers db [] = refl
length-active_blockers db (d ∷ ds) = ground (arith, length-active_blockers db ds)

-- The row is one of the issue's that IsBlockedInTx reads, and its target is active.
abbrev pub is_active_edge : Tables → Text → Dependency → Bool
is_active_edge db id d =
    (d.issue_id == id && (is_direct d || is_waits_for d)) && is_active db d.depends_on_id

pub is_blocked_lem :
    (db : Tables) (id : Text) → (is_blocked db id).0 ≡ any (is_active_edge db id) (own_rows db id)
unfolding is_blocked
is_blocked_lem db id =
    length-active_blockers db
      (select (λ d. d.issue_id == id && (is_direct d || is_waits_for d)) (own_rows db id))
    ∙ any-select (λ d. is_active db d.depends_on_id)
        (λ d. d.issue_id == id && (is_direct d || is_waits_for d)) (own_rows db id)

In-collect :
    (db : Tables) (i : Issue) (ids : List Text)
    → In i (collect db ids)
    → In i.id ids × (get_issue db i.id ≡ some i)
unfolding collect
In-collect db i [] m = absurd m
In-collect db i (id ∷ ids) m = elim (Option-cases (get_issue db id)) [
  | inl e ↦
      let (n, g) =
        In-collect db i ids (
          subst (λ o. In i (elim o [ none ↦ collect db ids | some i ↦ i ∷ collect db ids ])) e m) in
      (inr n, g)
  | inr (j, e) ↦
      elim (subst (λ o. In i (elim o [ none ↦ collect db ids | some i ↦ i ∷ collect db ids ])) e
        m) [
          | inl q ↦
              let r = subst (λ x. get_issue db id ≡ some x) (sym q) e in
              let k = get_issue-id db id i r in
              (inl k, subst (λ x. get_issue db x ≡ some i) (sym k) r)
          | inr n ↦ let (o, g) = In-collect db i ids n in (inr o, g)
        ]
]

-- No issue has an empty status.
abbrev pub HasStatuses : Tables → Type 0
HasStatuses db = (id : Text) → find_status db id ≢ some []

none_of :
    {A : Type 0} (p q r : A → Bool)
    → ((x : A) → q x ≡ false → r x ≡ false → p x ≡ false)
    → (xs : List A) → any q xs ≡ false
    → any r xs ≡ false
    → any p xs ≡ false
none_of p q r f [] g h = refl
none_of p q r f (x ∷ xs) g h = ground (arith, f x, none_of p q r f xs)

-- The target of a blocking row, where it is active, has a status that is not empty.
has_status :
    (db : Tables) (id : Text)
    → HasStatuses db
    → is_active db id ≡ true
    → (elim (find_status db id) [ none ↦ true | some s ↦ s == [] ]) ≡ false
unfolding is_active
has_status db id statuses h = elim (Option-cases (find_status db id)) [
  | inl e ↦ ground arith
  | inr (s, e) ↦ elim (Bool-cases (s == [])) [
    | inl z ↦ absurd (statuses id (e ∙ ap (λ t. some t) ((eq_iff s []).0 z)))
    | inr z ↦ ground arith
  ]
]

same_active :
    (db : Tables) (x y : Text) → is_active db y ≡ false → is_active db x ≡ true → (x == y) ≡ false
same_active db x y f t = elim (Bool-cases (x == y)) [
  | inl e ↦ cc (sym t ∙ ap (is_active db) ((eq_iff x y).0 e) ∙ f)
  | inr e ↦ e
]

any-is_active_edge :
    (db : Tables) (closed_id id : Text)
    → HasStatuses db
    → is_active db closed_id ≡ false
    → any
        (λ d. d.issue_id == id && not (d.type == dep_blocks) && (is_direct d || is_waits_for d))
        (own_rows db id)
      ≡ false
    → still_blocked db closed_id id ≡ false
    → any (is_active_edge db id) (own_rows db id) ≡ false
unfolding still_blocked
any-is_active_edge db closed_id id statuses shut only free =
    none_of (is_active_edge db id)
      (λ d. d.issue_id == id && not (d.type == dep_blocks) && (is_direct d || is_waits_for d))
      (λ d.
        d.issue_id == id
        && d.type == dep_blocks
        && not (d.depends_on_id == closed_id)
        && (is_active db d.depends_on_id
            && not (elim (find_status db d.depends_on_id) [ none ↦ true | some s ↦ s == [] ])))
      (λ d q r. elim (Bool-cases (is_active db d.depends_on_id)) [
        | inl a ↦ ground (
          arith,
          has_status db d.depends_on_id statuses a,
          same_active db d.depends_on_id closed_id shut a,
        )
        | inr a ↦ ground arith
      ])
      (own_rows db id) only free

contains-candidates :
    (db : Tables) (closed_id id : Text)
    → In id (candidates db closed_id)
    → (is_active db id ≡ true)
      × (some_dep db true
            (λ d. (d.depends_on_id == closed_id && d.type == dep_blocks) && id == d.issue_id)
          ≡ true)
unfolding candidates
contains-candidates db closed_id id m =
    let f = λ (t : DepTable).
      map (λ d. d.issue_id)
        (select (λ d. d.depends_on_id == closed_id && d.type == dep_blocks) (dep_rows db t)) in
    let (n, a) = (In-select (is_active db) id (put_all [] (concat_map f (dep_tables true)))).0 m in
    (
      a,
      sym (
            contains-put_all (concat_map f (dep_tables true)) [] id
            ∙ any-concat_map (λ u. id == u) f (dep_tables true)
            ∙ any_ext (λ t. contains (f t) id)
                (λ t.
                  any
                    (λ d.
                      (d.depends_on_id == closed_id && d.type == dep_blocks) && id == d.issue_id)
                    (dep_rows db t))
                (λ t.
                  any-map (λ u. id == u) (λ d. d.issue_id)
                    (select (λ d. d.depends_on_id == closed_id && d.type == dep_blocks)
                      (dep_rows db t))
                  ∙ any-select (λ d. id == d.issue_id)
                      (λ d. d.depends_on_id == closed_id && d.type == dep_blocks) (dep_rows db t))
                (dep_tables true))
          ∙ (contains_iff (put_all [] (concat_map f (dep_tables true))) id).1 n,
    )

-- An issue that GetNewlyUnblockedByCloseInTx returns for a closed issue is an issue of the tables,
-- is active and has a row of type blocks to the closed issue; and IsBlockedInTx finds no blocker of
-- it, if its own rows of the blocking types are all of type blocks, if the closed issue is not
-- active, and if no issue has an empty status.
pub get_newly_unblocked_by_close-is_blocked :
    (db : Tables) (closed_id : Text) (i : Issue)
    → HasStatuses db
    → is_active db closed_id ≡ false
    → any
        (λ d. d.issue_id == i.id && not (d.type == dep_blocks) && (is_direct d || is_waits_for d))
        (own_rows db i.id)
      ≡ false
    → In i (get_newly_unblocked_by_close db closed_id)
    → (get_issue db i.id ≡ some i)
      × (is_active db i.id ≡ true)
      × (some_dep db true
            (λ d. (d.depends_on_id == closed_id && d.type == dep_blocks) && i.id == d.issue_id)
          ≡ true)
      × ((is_blocked db i.id).0 ≡ false)
unfolding get_newly_unblocked_by_close
get_newly_unblocked_by_close-is_blocked db closed_id i statuses shut only m =
    let free = λ (id : Text). not (still_blocked db closed_id id) in
    let (n, g) = In-collect db i (select free (candidates db closed_id)) m in
    let (k, f) = (In-select free i.id (candidates db closed_id)).0 n in
    let (a, c) = contains-candidates db closed_id i.id k in
    (
      g,
      a,
      c,
      is_blocked_lem db i.id
          ∙ any-is_active_edge db closed_id i.id statuses shut only (ground arith),
    )
