-- ===== src/Storage/BlockedIssues/Listed.antt =====
-- GetBlockedIssuesInTx of internal/storage/issueops/blocked.go: which issues it lists, in which order and
-- with which blockers.
use bd.Prelude.{
  ◌≡◌, ◌≢◌, ◌⊎◌, ◌↔◌, ◌∙◌, refl, sym, subst, true, false, ◌&&◌, ◌||◌, Option, some, List, [], ◌∷◌,
  map, any, length, In, inl, inr, any_intro, any_elim, any_mono, List-cases, Option-cases, arith,
}
use bd.Prelude.Order.{keys_leb_total, keys_leb_trans, IsSorted, In-sort_by, IsSorted-sort_by}
use bd.Prelude.Distinct.{IsDistinct, IsDistinct-sort_by, In-keys_sort_by}
use bd.Prelude.Text.{Text, ◌==◌, eq_iff, contains, contains_iff}
use bd.Types.DependencyType.{dep_parent_child}
use bd.Types.Issue.{Issue}
use bd.Storage.Tables.{Tables, dep_rows}
use bd.Storage.Blocked.{dep_tables, is_active_row, load_children, compute_blocked_ids}
use bd.Storage.Blocked.Meaning.{active, blocks}
use bd.Storage.Blocked.Steps.{compute_blocked_ids-blocks}
use bd.Storage.Epics.{last_row, get_issues_by_ids}
use bd.Storage.Search.{priority_keys}
use bd.Types.Filters.{WorkFilter}
use bd.Storage.Ready.Meaning.{some_parent, has_blocker, load_children-some_dep, some_dep_ext}
use bd.Storage.Ready.Listed.{fetched_row}
use bd.Storage.BlockedIssues.{
  BlockedIssue, get_key, keys, get_children_with_parents, children_of_blocked, blocker_map,
  in_parent, blocked_results, by_urgency, get_blocked_issues,
}
use bd.Storage.BlockedIssues.Maps.{get_key-set_parents}
use bd.Storage.BlockedIssues.Keys.{get_key-In}
use bd.Storage.BlockedIssues.Blockers.{
  own_blockers, is_listed, get_key-blocker_map, contains-keys-blocker_map, IsDistinct-blocker_map,
}
use bd.Storage.BlockedIssues.Results.{
  listed_id, contains-blocked_results, In-blocked_results, IsDistinct-blocked_results,
}

by_urgency_total : (b c : BlockedIssue) → by_urgency b c ≡ false → by_urgency c b ≡ true
by_urgency_total b c = keys_leb_total (priority_keys b.issue) (priority_keys c.issue) [] [] refl

by_urgency_trans :
    (b c d : BlockedIssue) → by_urgency b c ≡ true → by_urgency c d ≡ true → by_urgency b d ≡ true
by_urgency_trans b c d h k =
    keys_leb_trans (priority_keys b.issue) (priority_keys c.issue) (priority_keys d.issue) [] [] []
      h k refl refl

-- An active id has a row.
active-present :
    (db : Tables) (id : Text)
    → active db true id ≡ true
    → (any (λ (i : Issue). i.id == id) db.issues || any (λ (i : Issue). i.id == id) db.wisps) ≡ true
active-present db id h =
    let present = λ (rows : List Issue).
      any_mono (λ i. is_active_row i && id == i.id) (λ (i : Issue). i.id == id)
        (λ i e. ground (arith, eq_iff id i.id, eq_iff i.id id)) rows in
    ground (arith, h, present db.issues, present db.wisps)

module _ (unmarshal_gate : Text → Option Text) (db : Tables) where
  -- A blocked issue is active.
  has_blocker-active :
      (id : Text) → has_blocker unmarshal_gate db true id ≡ true → active db true id ≡ true
  has_blocker-active id h =
      let (t, n, e) =
        any_elim (λ t. any (blocks unmarshal_gate db true id) (dep_rows db t)) (dep_tables true)
          h in
      let (d, o, q) = any_elim (blocks unmarshal_gate db true id) (dep_rows db t) e in
      subst (λ x. active db true x ≡ true) (sym ((eq_iff id d.issue_id).0 (ground (arith, q))))
        (ground (arith, q))

  -- The parent that a child of the blocked issues has in the map.
  blocked_parent :
      (id p : Text)
      → get_key (children_of_blocked unmarshal_gate db) id ≡ some p
      → some_parent db (λ x. x == p && has_blocker unmarshal_gate db true x) id ≡ true
  unfolding get_children_with_parents get_key
  blocked_parent id p h =
      let found = compute_blocked_ids unmarshal_gate db true in
      elim (get_key-set_parents (load_children db true found) [] id p h) [
        | inl e ↦ cc
        | inr (d, n, q, r) ↦
            sym (
              some_dep_ext db
                (λ d.
                  (d.type == dep_parent_child && contains found d.depends_on_id)
                  && (d.issue_id == id && d.depends_on_id == p))
                (λ d.
                  d.type == dep_parent_child
                  && d.issue_id == id
                  && (d.depends_on_id == p && has_blocker unmarshal_gate db true d.depends_on_id))
                (λ d.
                  ground
                    (arith, compute_blocked_ids-blocks unmarshal_gate db true d.depends_on_id)))
            ∙ sym (load_children-some_dep db found (λ d. d.issue_id == id && d.depends_on_id == p))
            ∙ any_intro (λ d. d.issue_id == id && d.depends_on_id == p) d
                (load_children db true found) n
                (ground (arith, (eq_iff d.issue_id id).1 q, (eq_iff d.depends_on_id p).1 r))
      ]

  -- The blockers that an issue is listed with: the active targets of its own rows, or else one blocked
  -- parent of it.
  pub record HasBlockers (b : BlockedIssue) : Type 0 where
    pub count : b.blocked_by_count ≡ length b.blocked_by
    pub some_blocker : b.blocked_by ≢ []
    pub blockers :
        (b.blocked_by ≡ own_blockers db (listed_id b))
        ⊎ ((own_blockers db (listed_id b) ≡ [])
            × (p : Text) × (b.blocked_by ≡ p ∷ [])
            × (some_parent db (λ x. x == p && has_blocker unmarshal_gate db true x) (listed_id b)
                ≡ true))

  blockers_of :
      (id : Text) (bs : List Text)
      → get_key (blocker_map unmarshal_gate db) id ≡ some bs
      → (bs ≢ [])
        × ((bs ≡ own_blockers db id)
            ⊎ ((own_blockers db id ≡ [])
                × (p : Text) × (bs ≡ p ∷ [])
                × (some_parent db (λ x. x == p && has_blocker unmarshal_gate db true x) id ≡ true)))
  blockers_of id bs h =
      let e = get_key-blocker_map unmarshal_gate db id in
      elim (List-cases (own_blockers db id)) [
        | inr (c, cs, q) ↦
            let same : bs ≡ c ∷ cs = ground (arith, e, h, q) in
            (λ z. cc (sym same ∙ z), inl (same ∙ sym q))
        | inl q ↦ elim (Option-cases (get_key (children_of_blocked unmarshal_gate db) id)) [
          | inl r ↦ ground (arith, e, h, q, r)
          | inr (p, r) ↦
              let same : bs ≡ p ∷ [] = ground (arith, e, h, q, r) in
              (λ z. cc (sym same ∙ z), inr (q, p, same, blocked_parent id p r))
        ]
      ]

  is_listed-active : (id : Text) → is_listed unmarshal_gate db id ≡ true → active db true id ≡ true
  is_listed-active id h = ground (arith, h, has_blocker-active id)

  pub get_blocked_issues-HasBlockers :
      (f : WorkFilter)
      → IsSorted by_urgency (get_blocked_issues unmarshal_gate db f)
        × IsDistinct (map listed_id (get_blocked_issues unmarshal_gate db f))
        × ((id : Text)
            → In id (map listed_id (get_blocked_issues unmarshal_gate db f))
              ↔ ((in_parent db f.parent_id id ≡ true) × (is_listed unmarshal_gate db id ≡ true)))
        × ((b : BlockedIssue) → In b (get_blocked_issues unmarshal_gate db f) → HasBlockers b)
  unfolding get_blocked_issues
  get_blocked_issues-HasBlockers f =
      let m = blocker_map unmarshal_gate db in
      let issues = get_issues_by_ids db (keys m) in
      let found = blocked_results db f.parent_id issues m in
      let present : (k : Text) → In k (keys m) → (j : Issue) × (last_row issues k ≡ some j) = λ k n.
        fetched_row db (keys m) k n (
          active-present db k (
            is_listed-active k (
              sym (contains-keys-blocker_map unmarshal_gate db k)
              ∙ (contains_iff (keys m) k).1 n))) in
      (
        IsSorted-sort_by by_urgency by_urgency_total by_urgency_trans found,
        IsDistinct-sort_by listed_id by_urgency found (
            IsDistinct-blocked_results db f.parent_id issues m
              (IsDistinct-blocker_map unmarshal_gate db)),
        λ id.
            let sorted = In-keys_sort_by listed_id by_urgency id found in
            let member = contains_iff (map listed_id found) id in
            let test = contains-blocked_results db f.parent_id issues m present id in
            let listed = contains-keys-blocker_map unmarshal_gate db id in
            (
              λ n.
                  let t = member.1 (sorted.0 n) in
                  (ground (arith, t, test), ground (arith, t, test, listed)),
              λ (p, l). sorted.1 (member.0 (ground (arith, p, l, test, listed))),
            ),
        λ b n.
            let (o, count) =
              In-blocked_results db f.parent_id issues b m ((In-sort_by by_urgency b found).0 n) in
            let (names, blockers) = blockers_of (listed_id b) b.blocked_by (
              get_key-In m (listed_id b) b.blocked_by (IsDistinct-blocker_map unmarshal_gate db)
                o) in
            record { count = count; some_blocker = names; blockers = blockers },
      )
