-- ===== src/Storage/Blocked/Meaning.antt =====
-- internal/storage/issueops/blocked.go: what it means to be blocked, as a predicate on the rows of the
-- tables, and what the queries of the computation find.
use bd.Prelude.{
  ℕ, ◌≡◌, ◌∙◌, ◌<◌, sym, subst, Bool, true, ◌&&◌, ◌||◌, not, Option, List, [], any, select, length,
  inl, inr, Bool-cases, arith,
}
use bd.Prelude.{any-select, any-map, any_ext}
use bd.Prelude.Text.{Text, ◌==◌, eq_iff, contains}
use bd.Types.Issue.{Issue}
use bd.Types.DependencyType.{Dependency, dep_parent_child}
use bd.Storage.Tables.{Tables, issue_rows, dep_rows}
use bd.Storage.Blocked.{
  issue_tables, dep_tables, concat_map, is_active_row, is_closed_row, ids_of, batches,
  query_batch_size, waits_for_any_children, parse_waits_for_gate, is_direct, is_waits_for,
  active_ids, all_deps, child_rows, load_children, spawner_children, load_closed,
}
use bd.Storage.Blocked.Queries.{contains-put_all, any-concat_map, any-batches, any_over_batches}

-- Some row of the tables has the id and is neither closed nor pinned.
abbrev pub active : Tables → Bool → Text → Bool
active db wisps id =
    any (λ t. any (λ i. is_active_row i && id == i.id) (issue_rows db t)) (issue_tables wisps)

-- Some row of the tables has the id and is closed.
abbrev pub closed : Tables → Bool → Text → Bool
closed db wisps id =
    any (λ t. any (λ i. is_closed_row i && id == i.id) (issue_rows db t)) (issue_tables wisps)

-- Some dependency row of the tables satisfies the test.
abbrev pub some_dep : Tables → Bool → (Dependency → Bool) → Bool
some_dep db wisps p = any (λ t. any p (dep_rows db t)) (dep_tables wisps)

-- Some child of the spawner satisfies the test.
abbrev pub some_child : Tables → Bool → Text → (Text → Bool) → Bool
some_child db wisps spawner p =
    some_dep db wisps
      (λ d. d.type == dep_parent_child && d.depends_on_id == spawner && p d.issue_id)

-- A gate is shut while a child is active; the gate any-children, until a child is closed.
abbrev pub shut : Tables → Bool → Text → Text → Bool
shut db wisps gate spawner =
    some_child db wisps spawner (active db wisps)
    && not (gate == waits_for_any_children && some_child db wisps spawner (closed db wisps))

-- An issue is blocked by a row of its own if it is active, and the row blocks on an active issue
-- or waits for a spawner whose gate is shut.
abbrev pub blocks : (Text → Option Text) → Tables → Bool → Text → Dependency → Bool
blocks unmarshal_gate db wisps id d =
    active db wisps d.issue_id
    && id == d.issue_id
    && (is_direct d && active db wisps d.depends_on_id
        || is_waits_for d
          && shut db wisps (parse_waits_for_gate unmarshal_gate d.metadata) d.depends_on_id)

-- A test on the ids in a list of keys holds for a key of the list.
contains-same :
    (ks : List Text) (x y : Text) → contains ks x ≡ true → (y == x) ≡ true → contains ks y ≡ true
contains-same ks x y h e = subst (λ z. contains ks z ≡ true) (sym ((eq_iff y x).0 e)) h

pub in_some_batch :
    (n : ℕ) (ks : List Text) (x : Text)
    → 0 < n
    → any (λ b. contains b x) (batches (length ks) n ks) ≡ contains ks x
in_some_batch n ks x h = any-batches (λ u. x == u) (length ks) n ks h (omega arith)

closed_in_batches :
    (n : ℕ) (rows : List Issue) (children : List Text) (id : Text)
    → 0 < n
    → contains children id ≡ true
    → contains
        (concat_map
          (λ b. ids_of (select (λ i. is_closed_row i && contains b i.id) rows))
          (batches (length children) n children))
        id
      ≡ any (λ i. is_closed_row i && id == i.id) rows
closed_in_batches n rows children id k h =
    let bs = batches (length children) n children in
    any-concat_map (λ u. id == u)
      (λ b. ids_of (select (λ i. is_closed_row i && contains b i.id) rows)) bs
    ∙ any_ext (λ b. contains (ids_of (select (λ i. is_closed_row i && contains b i.id) rows)) id)
        (λ b. any (λ i. id == i.id) (select (λ i. is_closed_row i && contains b i.id) rows))
        (λ b.
          any-map (λ u. id == u) (λ i. i.id)
            (select (λ i. is_closed_row i && contains b i.id) rows))
        bs
    ∙ any_over_batches (λ i. id == i.id) is_closed_row (λ b i. contains b i.id) rows bs
    ∙ any_ext (λ i. (is_closed_row i && any (λ b. contains b i.id) bs) && id == i.id)
        (λ i. is_closed_row i && id == i.id)
        (λ i. elim (Bool-cases (id == i.id)) [
          | inl e ↦ ground (
            arith,
            in_some_batch n children i.id k,
            (eq_iff id i.id).0 e,
            subst (λ z. contains children z ≡ true) ((eq_iff id i.id).0 e) h,
          )
          | inr e ↦ ground arith
        ])
        rows

children_in_batches :
    (n : ℕ) (rows : List Dependency) (spawners : List Text) (spawner : Text) (p : Text → Bool)
    → 0 < n
    → contains spawners spawner ≡ true
    → any
        (λ d. d.depends_on_id == spawner && p d.issue_id)
        (concat_map (child_rows rows) (batches (length spawners) n spawners))
      ≡ any (λ d. d.type == dep_parent_child && d.depends_on_id == spawner && p d.issue_id) rows
children_in_batches n rows spawners spawner p k h =
    let bs = batches (length spawners) n spawners in
    any-concat_map (λ d. d.depends_on_id == spawner && p d.issue_id) (child_rows rows) bs
    ∙ any_over_batches (λ d. d.depends_on_id == spawner && p d.issue_id)
        (λ d. d.type == dep_parent_child) (λ b d. contains b d.depends_on_id) rows bs
    ∙ any_ext
        (λ d.
          (d.type == dep_parent_child && any (λ b. contains b d.depends_on_id) bs)
          && (d.depends_on_id == spawner && p d.issue_id))
        (λ d. d.type == dep_parent_child && d.depends_on_id == spawner && p d.issue_id)
        (λ d. elim (Bool-cases (d.depends_on_id == spawner)) [
          | inl e ↦ ground (
            arith,
            in_some_batch n spawners d.depends_on_id k,
            contains-same spawners spawner d.depends_on_id h e,
          )
          | inr e ↦ ground arith
        ])
        rows

module _ (db : Tables) (wisps : Bool) where
  pub contains-active_ids : (id : Text) → contains (active_ids db wisps) id ≡ active db wisps id
  unfolding active_ids
  contains-active_ids id =
      contains-put_all
        (concat_map (λ t. ids_of (select is_active_row (issue_rows db t))) (issue_tables wisps)) []
        id
      ∙ any-concat_map (λ u. id == u) (λ t. ids_of (select is_active_row (issue_rows db t)))
          (issue_tables wisps)
      ∙ any_ext (λ t. contains (ids_of (select is_active_row (issue_rows db t))) id)
          (λ t. any (λ i. is_active_row i && id == i.id) (issue_rows db t))
          (λ t.
            any-map (λ u. id == u) (λ i. i.id) (select is_active_row (issue_rows db t))
            ∙ any-select (λ i. id == i.id) is_active_row (issue_rows db t))
          (issue_tables wisps)

  -- What the queries in batches find among the closed issues.
  pub contains-load_closed :
      (children : List Text) (id : Text)
      → contains children id ≡ true
      → contains (load_closed db wisps children) id ≡ closed db wisps id
  unfolding load_closed
  contains-load_closed children id h =
      contains-put_all
        (concat_map
          (λ t.
            concat_map
              (λ b. ids_of (select (λ i. is_closed_row i && contains b i.id) (issue_rows db t)))
              (batches (length children) query_batch_size children))
          (issue_tables wisps))
        [] id
      ∙ any-concat_map (λ u. id == u)
          (λ t.
            concat_map
              (λ b. ids_of (select (λ i. is_closed_row i && contains b i.id) (issue_rows db t)))
              (batches (length children) query_batch_size children))
          (issue_tables wisps)
      ∙ any_ext
          (λ t.
            contains
              (concat_map
                (λ b. ids_of (select (λ i. is_closed_row i && contains b i.id) (issue_rows db t)))
                (batches (length children) query_batch_size children))
              id)
          (λ t. any (λ i. is_closed_row i && id == i.id) (issue_rows db t))
          (λ t. closed_in_batches query_batch_size (issue_rows db t) children id (omega arith) h)
          (issue_tables wisps)

  -- What the queries in batches find among the children of the spawners.
  pub any-load_children :
      (spawners : List Text) (spawner : Text) (p : Text → Bool)
      → contains spawners spawner ≡ true
      → any p (spawner_children (load_children db wisps spawners) spawner)
        ≡ some_child db wisps spawner p
  unfolding load_children spawner_children
  any-load_children spawners spawner p h =
      let rows = load_children db wisps spawners in
      any-map p (λ d. d.issue_id) (select (λ d. d.depends_on_id == spawner) rows)
      ∙ any-select (λ d. p d.issue_id) (λ d. d.depends_on_id == spawner) rows
      ∙ any-concat_map (λ d. d.depends_on_id == spawner && p d.issue_id)
          (λ t.
            concat_map (child_rows (dep_rows db t))
              (batches (length spawners) query_batch_size spawners))
          (dep_tables wisps)
      ∙ any_ext
          (λ t.
            any (λ d. d.depends_on_id == spawner && p d.issue_id)
              (concat_map (child_rows (dep_rows db t))
                (batches (length spawners) query_batch_size spawners)))
          (λ t.
            any (λ d. d.type == dep_parent_child && d.depends_on_id == spawner && p d.issue_id)
              (dep_rows db t))
          (λ t.
            children_in_batches query_batch_size (dep_rows db t) spawners spawner p (omega arith) h)
          (dep_tables wisps)

  pub any-all_deps :
      (p : Dependency → Bool)
      → any p (all_deps db wisps) ≡ some_dep db wisps (λ d. (is_direct d || is_waits_for d) && p d)
  unfolding all_deps
  any-all_deps p =
      any-concat_map p (λ t. select (λ d. is_direct d || is_waits_for d) (dep_rows db t))
        (dep_tables wisps)
      ∙ any_ext (λ t. any p (select (λ d. is_direct d || is_waits_for d) (dep_rows db t)))
          (λ t. any (λ d. (is_direct d || is_waits_for d) && p d) (dep_rows db t))
          (λ t. any-select p (λ d. is_direct d || is_waits_for d) (dep_rows db t))
          (dep_tables wisps)
