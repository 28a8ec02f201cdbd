-- ===== src/Storage/Tree/Total.antt =====
-- GetDependencyTreeInTx of internal/storage/issueops/dependency_tree.go: the issues that it comes to are in
-- the tables.
use bd.Prelude.{
  ℕ, zero, suc, ◌≡◌, ◌∙◌, refl, sym, Bool, true, Bool-cases, inl, inr, Option, some, List, [], ◌∷◌,
  ◌++◌, In, In-append, In-select, any, any_intro, select, not, length, arith,
}
use bd.Prelude.Text.{Text, ◌==◌, eq_refl, contains, contains_iff}
use bd.Types.Issue.{Issue}
use bd.Storage.Tables.{Tables, get_issue, is_active_wisp, wisp_table_routing}
use bd.Storage.Blocked.{concat_map, batches, query_batch_size}
use bd.Storage.Blocked.Queries.{any-batches}
use bd.Storage.Epics.{rows_in, get_issues_by_ids}
use bd.Storage.Listings.{get_dependencies, get_dependents}
use bd.Storage.Epics.Children.{select_issue_present}
use bd.Storage.Tree.{Built, related, build_each, build_dependency_tree}

rows_in_elim :
    (rows : List Issue) (r : Issue) (parts : List (List Text))
    → In r (concat_map (λ batch. select (λ i. contains batch i.id) rows) parts)
    → In r rows × (any (λ b. contains b r.id) parts ≡ true)
rows_in_elim rows r [] m = absurd m
rows_in_elim rows r (b ∷ parts) m =
    elim ((In-append r (select (λ i. contains b i.id) rows)
        (concat_map (λ batch. select (λ i. contains batch i.id) rows) parts)).0
      m) [
        | inl k ↦
            let (n, c) = (In-select (λ (i : Issue). contains b i.id) r rows).0 k in
            (n, ground (arith, c))
        | inr k ↦ let (n, c) = rows_in_elim rows r parts k in (n, ground (arith, c))
      ]

In-rows_in :
    (rows : List Issue) (ids : List Text) (r : Issue)
    → In r (rows_in rows ids)
    → In r rows × In r.id ids
unfolding rows_in
In-rows_in rows ids r m =
    let (n, c) = rows_in_elim rows r (batches (length ids) query_batch_size ids) m in
    (
      n,
      (contains_iff ids r.id).0 (
          sym (
            any-batches (λ u. r.id == u) (length ids) query_batch_size ids (omega arith)
              (omega arith))
          ∙ c),
    )

-- A related issue is one that the tables have.
related_present :
    (db : Tables) (ids : List Text) (r : Issue)
    → In r (get_issues_by_ids db ids)
    → (i : Issue) × (get_issue db r.id ≡ some i)
unfolding get_issues_by_ids get_issue wisp_table_routing
related_present db ids r m =
    let perm_ids = select (λ id. not (is_active_wisp db id)) ids in
    let wisp_ids = select (is_active_wisp db) ids in
    elim ((In-append r (rows_in db.issues perm_ids) (rows_in db.wisps wisp_ids)).0 m) [
      | inl k ↦
          let (n, c) = In-rows_in db.issues perm_ids r k in
          let routed = ((In-select (λ id. not (is_active_wisp db id)) r.id ids).0 c).1 in
          let (i, e) =
            select_issue_present db.issues r.id
              (any_intro (λ (k : Issue). k.id == r.id) r db.issues n (eq_refl r.id)) in
          (i, ground (arith, routed, e))
      | inr k ↦
          let (n, c) = In-rows_in db.wisps wisp_ids r k in
          let routed = ((In-select (is_active_wisp db) r.id ids).0 c).1 in
          let (i, e) =
            select_issue_present db.wisps r.id
              (any_intro (λ (k : Issue). k.id == r.id) r db.wisps n (eq_refl r.id)) in
          (i, ground (arith, routed, e))
    ]

build_each_total :
    (go : Text → List Text → Option Built) (rs : List Issue) (visited : List Text)
    → ((r : Issue) → In r rs → (v : List Text) → (b : Built) × (go r.id v ≡ some b))
    → (b : Built) × (build_each go rs visited ≡ some b)
unfolding build_each
build_each_total go [] visited total = (([], visited), refl)
build_each_total go (r ∷ rs) visited total =
    let ((children, middle), e) = total r (inl refl) visited in
    let ((nodes, last), f) = build_each_total go rs middle (λ s m v. total s (inr m) v) in
    ((children ++ nodes, last), rw (e, build_each, f) refl)

module _ (db : Tables) (reverse : Bool) where
  pub build_dependency_tree_total :
      (levels depth : ℕ) (parent_id id : Text) (visited : List Text) (i : Issue)
      → get_issue db id ≡ some i
      → (b : Built) × (build_dependency_tree db reverse levels depth parent_id id visited ≡ some b)
  unfolding build_dependency_tree related get_dependencies get_dependents
  build_dependency_tree_total zero depth parent_id id visited i e = (([], visited), refl)
  build_dependency_tree_total (suc levels) depth parent_id id visited i e =
      elim (Bool-cases (contains visited id)) [
        | inl seen ↦ (([], visited), rw (seen, build_dependency_tree) refl)
        | inr unseen ↦
            let each : (r : Issue)
                → In r (related db reverse id)
                → (j : Issue) × (get_issue db r.id ≡ some j) =
              λ r m. elim (Bool-cases reverse) [
                | inl f ↦ related_present db _ r (rw f at m)
                | inr f ↦ related_present db _ r (rw f at m)
              ] in
            let ((nodes, after), f) =
              build_each_total (build_dependency_tree db reverse levels (suc depth) id)
                (related db reverse id) (id ∷ visited)
                (λ r m v.
                  let (j, q) = each r m in
                  build_dependency_tree_total levels (suc depth) id r.id v j q) in
            (
              (record { issue = i; depth = depth; parent_id = parent_id } ∷ nodes, after),
              rw (unseen, build_dependency_tree, e, f) refl,
            )
      ]
