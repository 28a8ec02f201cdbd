-- ===== src/Storage/Ready/Meaning.antt =====
-- What the queries of internal/storage/issueops/ready_work.go find: the children of a list of parents, and
-- the ids outside of a list.
use bd.Prelude.{
  ℕ, ◌≡◌, ◌∙◌, refl, ap, Bool, true, ◌&&◌, ◌||◌, not, Option, List, [], ◌∷◌, ◌++◌, map, any, all,
  select, length, arith, List-cases, inl, inr,
}
use bd.Prelude.{any-map, any_ext, any-append, any-select}
use bd.Prelude.Text.{Text, ◌==◌, eq_iff, contains}
use bd.Types.DependencyType.{Dependency, dep_parent_child}
use bd.Types.Issue.{Issue}
use bd.Storage.Tables.{Tables, dep_rows}
use bd.Storage.Blocked.{
  dep_tables, concat_map, child_rows, load_children, batches, query_batch_size, compute_blocked_ids,
}
use bd.Storage.Blocked.Queries.{any-concat_map, any_over_batches}
use bd.Storage.Blocked.Meaning.{some_dep, blocks, in_some_batch}
use bd.Storage.Blocked.Steps.{compute_blocked_ids-blocks}
use bd.Storage.Ready.{
  get_children_of_issues, get_children_of_deferred_parents, is_deferred, outside, blocked_ids,
}

-- Some parent of the issue satisfies the test.
abbrev pub some_parent : Tables → (Text → Bool) → Text → Bool
some_parent db p id =
    some_dep db true (λ d. d.type == dep_parent_child && d.issue_id == id && p d.depends_on_id)

-- An issue of the id is deferred.
abbrev pub deferred_id : Tables → ℕ → Text → Bool
deferred_id db now id = any (λ i. is_deferred now i && id == i.id) db.issues

all-not : {A : Type 0} (p : A → Bool) (xs : List A) → all (λ x. not (p x)) xs ≡ not (any p xs)
all-not p [] = refl
all-not p (x ∷ xs) = ground (arith, all-not p xs)

pub outside_lem : (ids : List Text) (id : Text) → outside ids id ≡ not (contains ids id)
unfolding outside
outside_lem ids id =
    all-not (λ b. contains b id) (batches (length ids) query_batch_size ids)
    ∙ ap not (in_some_batch query_batch_size ids id (omega arith))

swap_test : (s t : Text) → (s == t) ≡ (t == s)
swap_test s t = ground (arith, eq_iff s t, eq_iff t s)

-- A row that the queries for the children of the listed parents find.
pub load_children-some_dep :
    (db : Tables) (parents : List Text) (q : Dependency → Bool)
    → any q (load_children db true parents)
      ≡ some_dep db true
          (λ d. (d.type == dep_parent_child && contains parents d.depends_on_id) && q d)
unfolding load_children
load_children-some_dep db parents q =
    let bs = batches (length parents) query_batch_size parents in
    any-concat_map q (λ t. concat_map (child_rows (dep_rows db t)) bs) (dep_tables true)
    ∙ any_ext (λ t. any q (concat_map (child_rows (dep_rows db t)) bs))
        (λ t.
          any (λ d. (d.type == dep_parent_child && contains parents d.depends_on_id) && q d)
            (dep_rows db t))
        (λ t.
          any-concat_map q (child_rows (dep_rows db t)) bs
          ∙ any_over_batches q (λ d. d.type == dep_parent_child) (λ b d. contains b d.depends_on_id)
              (dep_rows db t) bs
          ∙ any_ext
              (λ d. (d.type == dep_parent_child && any (λ b. contains b d.depends_on_id) bs) && q d)
              (λ d. (d.type == dep_parent_child && contains parents d.depends_on_id) && q d)
              (λ d. ground (arith, in_some_batch query_batch_size parents d.depends_on_id))
              (dep_rows db t))
        (dep_tables true)

pub some_dep_ext :
    (db : Tables) (p q : Dependency → Bool)
    → ((d : Dependency) → p d ≡ q d)
    → some_dep db true p ≡ some_dep db true q
some_dep_ext db p q e =
    any_ext (λ t. any p (dep_rows db t)) (λ t. any q (dep_rows db t))
      (λ t. any_ext p q e (dep_rows db t)) (dep_tables true)

-- The children of the listed parents.
pub contains-get_children_of_issues :
    (db : Tables) (parents : List Text) (id : Text)
    → contains (get_children_of_issues db parents) id ≡ some_parent db (contains parents) id
unfolding get_children_of_issues
contains-get_children_of_issues db parents id =
    any-map (λ u. id == u) (λ (d : Dependency). d.issue_id) (load_children db true parents)
    ∙ load_children-some_dep db parents (λ d. id == d.issue_id)
    ∙ some_dep_ext db
        (λ d. (d.type == dep_parent_child && contains parents d.depends_on_id) && id == d.issue_id)
        (λ d. d.type == dep_parent_child && d.issue_id == id && contains parents d.depends_on_id)
        (λ d. ground (arith, swap_test id d.issue_id))

pub some_parent_ext :
    (db : Tables) (p q : Text → Bool)
    → ((x : Text) → p x ≡ q x)
    → (id : Text) → some_parent db p id ≡ some_parent db q id
some_parent_ext db p q e id =
    some_dep_ext db (λ d. d.type == dep_parent_child && d.issue_id == id && p d.depends_on_id)
      (λ d. d.type == dep_parent_child && d.issue_id == id && q d.depends_on_id)
      (λ d. ap (λ b. d.type == dep_parent_child && d.issue_id == id && b) (e d.depends_on_id))

pub contains-get_children_of_deferred_parents :
    (db : Tables) (now : ℕ) (id : Text)
    → contains (get_children_of_deferred_parents db now) id ≡ some_parent db (deferred_id db now) id
unfolding get_children_of_deferred_parents
contains-get_children_of_deferred_parents db now id =
    let ids = map (λ (i : Issue). i.id) (select (is_deferred now) db.issues) in
    contains-get_children_of_issues db ids id
    ∙ some_parent_ext db (contains ids) (deferred_id db now)
        (λ p.
          any-map (λ u. p == u) (λ (i : Issue). i.id) (select (is_deferred now) db.issues)
          ∙ any-select (λ (i : Issue). p == i.id) (is_deferred now) db.issues)
        id

module _ (unmarshal_gate : Text → Option Text) (db : Tables) (wisps : Bool) where
  -- A dependency row of its own blocks the issue.
  abbrev pub has_blocker : Text → Bool
  has_blocker id = some_dep db wisps (blocks unmarshal_gate db wisps id)

  blocked_ids_shape :
      blocked_ids unmarshal_gate db wisps
      ≡ compute_blocked_ids unmarshal_gate db wisps
        ++ get_children_of_issues db (compute_blocked_ids unmarshal_gate db wisps)
  unfolding blocked_ids get_children_of_issues load_children batches
  blocked_ids_shape = elim (List-cases (compute_blocked_ids unmarshal_gate db wisps)) [
    | inl e ↦ rw (e, blocked_ids) refl
    | inr (b, bs, e) ↦ rw (e, blocked_ids) refl
  ]

  pub contains-blocked_ids :
      (id : Text)
      → contains (blocked_ids unmarshal_gate db wisps) id
        ≡ (has_blocker id || some_parent db has_blocker id)
  contains-blocked_ids id =
      let found = compute_blocked_ids unmarshal_gate db wisps in
      ap (λ ids. contains ids id) blocked_ids_shape
      ∙ any-append (λ u. id == u) found (get_children_of_issues db found)
      ∙ ap (λ b. contains found id || b)
          (contains-get_children_of_issues db found id
            ∙ some_parent_ext db (contains found) has_blocker
                (compute_blocked_ids-blocks unmarshal_gate db wisps) id)
      ∙ ap (λ b. b || some_parent db has_blocker id)
          (compute_blocked_ids-blocks unmarshal_gate db wisps id)
