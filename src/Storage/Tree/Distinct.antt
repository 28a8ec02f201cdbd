-- ===== src/Storage/Tree/Distinct.antt =====
-- GetDependencyTreeInTx of internal/storage/issueops/dependency_tree.go: which nodes it lists.
use bd.Prelude.{
  ℕ, zero, suc, ◌+◌, ◌<◌, ◌≡◌, ◌≢◌, ◌↔◌, ◌⊎◌, ◌∙◌, refl, subst, Bool, Bool-cases, inl, inr, Option,
  none, some, Option-cases, some_inj, List, [], ◌∷◌, ◌++◌, map, map-append, In, In-append, arith,
}
use bd.Prelude.Distinct.{IsDistinct, IsDistinct-append}
use bd.Prelude.Text.{Text, contains, contains_iff}
use bd.Types.Issue.{Issue}
use bd.Storage.Tables.{Tables, get_issue}
use bd.Storage.Lifecycle.Rows.{get_issue-id}
use bd.Storage.Tree.Total.{build_dependency_tree_total}
use bd.Storage.Tree.{
  TreeNode, Built, related, build_each, build_dependency_tree, get_dependency_tree,
}

abbrev pub ids_of_nodes : List TreeNode → List Text
ids_of_nodes = map (λ n. n.issue.id)

-- What a part of the search below `bound` levels has listed: nodes that were not visited before and that
-- are now, each once.
record IsFresh (bound : ℕ) (before after : List Text) (nodes : List TreeNode) : Type 0 where
  distinct : IsDistinct (ids_of_nodes nodes)
  new : (x : Text) → In x (ids_of_nodes nodes) → ¬ In x before
  visited : (x : Text) → In x after ↔ (In x before ⊎ In x (ids_of_nodes nodes))
  shallow : (n : TreeNode) → In n nodes → n.depth < bound

module _ (bound : ℕ) where
  IsFresh-empty : (visited : List Text) → IsFresh bound visited visited []
  IsFresh-empty visited = record {
    distinct = tt;
    new = λ x m. absurd m;
    visited = λ x. (λ m. inl m, λ m. elim m [ inl n ↦ n | inr n ↦ absurd n ]);
    shallow = λ n m. absurd m;
  }

  IsFresh-append :
      (before middle after : List Text) (xs ys : List TreeNode)
      → IsFresh bound before middle xs
      → IsFresh bound middle after ys
      → IsFresh bound before after (xs ++ ys)
  IsFresh-append before middle after xs ys f g =
      let split : (x : Text)
          → In x (ids_of_nodes (xs ++ ys)) ↔ (In x (ids_of_nodes xs) ⊎ In x (ids_of_nodes ys)) =
        λ x. rw map-append (In-append x (ids_of_nodes xs) (ids_of_nodes ys)) in
      record {
        distinct = rw map-append (
            IsDistinct-append (ids_of_nodes xs) (ids_of_nodes ys) f.distinct g.distinct
              (λ x m n. g.new x n ((f.visited x).1 (inr m))));
        new = λ x m n. elim ((split x).0 m) [
          | inl k ↦ f.new x k n
          | inr k ↦ g.new x k ((f.visited x).1 (inl n))
        ];
        visited = λ x. ground (arith, split x, f.visited x, g.visited x);
        shallow =
            λ n m. elim ((In-append n xs ys).0 m) [ inl k ↦ f.shallow n k | inr k ↦ g.shallow n k ];
      }

  IsFresh-cons :
      (before after : List Text) (node : TreeNode) (id : Text) (nodes : List TreeNode)
      → node.issue.id ≡ id
      → ¬ In id before
      → node.depth < bound
      → IsFresh bound (id ∷ before) after nodes
      → IsFresh bound before after (node ∷ nodes)
  IsFresh-cons before after node id nodes e out low f = record {
    distinct = (λ m. f.new node.issue.id m (inl e), f.distinct);
    new = λ x m n. elim m [
      | inl q ↦ out (subst (λ (y : Text). In y before) (q ∙ e) n)
      | inr k ↦ f.new x k (inr n)
    ];
    visited = λ x. ground (arith, f.visited x, e);
    shallow = λ n m. elim m [ inl q ↦ ground (arith, q) | inr k ↦ f.shallow n k ];
  }

-- Every successful call of `go` lists what is new.
abbrev ListsFresh : ℕ → (Text → List Text → Option Built) → Type 0
ListsFresh bound go =
    (id : Text) (before after : List Text) (nodes : List TreeNode)
    → go id before ≡ some (nodes, after)
    → IsFresh bound before after nodes

moved :
    (bound : ℕ) (before after after' : List Text) (nodes nodes' : List TreeNode)
    → ◌≡◌ {A = Option Built} (some (nodes, after)) (some (nodes', after'))
    → IsFresh bound before after nodes
    → IsFresh bound before after' nodes'
moved bound before after after' nodes nodes' e f =
    subst (λ (b : Built). IsFresh bound before b.1 b.0) (some_inj (nodes, after) (nodes', after') e)
      f

abbrev nothing : Option Built
nothing = none

none_some : (b : Built) → nothing ≢ some b
none_some b e = cc

build_each-ListsFresh :
    (bound : ℕ) (go : Text → List Text → Option Built)
    → ListsFresh bound go
    → (rs : List Issue) (before after : List Text) (nodes : List TreeNode)
    → build_each go rs before ≡ some (nodes, after)
    → IsFresh bound before after nodes
unfolding build_each
build_each-ListsFresh bound go fresh [] before after nodes h =
    moved bound before before after [] nodes h (IsFresh-empty bound before)
build_each-ListsFresh bound go fresh (r ∷ rs) before after nodes h =
    elim (Option-cases (go r.id before)) [
      | inl e ↦ absurd (none_some _ (rw (e, build_each) at h))
      | inr ((children, middle), e) ↦ elim (Option-cases (build_each go rs middle)) [
        | inl f ↦ absurd (none_some _ (rw (e, build_each, f) at h))
        | inr ((rest, last), f) ↦
            moved bound before last after (children ++ rest) nodes (rw (e, build_each, f) at h) (
              IsFresh-append bound before middle last children rest
                (fresh r.id before middle children e)
                (build_each-ListsFresh bound go fresh rs middle last rest f))
      ]
    ]

arith_suc : (m n : ℕ) → m + suc n ≡ suc m + n
arith_suc m n = omega arith

module _ (db : Tables) (reverse : Bool) where
  build_dependency_tree-ListsFresh :
      (levels depth : ℕ) (parent_id : Text)
      → ListsFresh (depth + levels) (build_dependency_tree db reverse levels depth parent_id)
  unfolding build_dependency_tree
  build_dependency_tree-ListsFresh zero depth parent_id id before after nodes h =
      moved _ before before after [] nodes h (IsFresh-empty _ before)
  build_dependency_tree-ListsFresh (suc levels) depth parent_id id before after nodes h =
      elim (Bool-cases (contains before id)) [
        | inl seen ↦ moved _ before before after [] nodes (rw seen at h) (IsFresh-empty _ before)
        | inr unseen ↦ elim (Option-cases (get_issue db id)) [
          | inl e ↦ absurd (none_some _ (rw (unseen, e) at h))
          | inr (i, e) ↦
              let go = build_dependency_tree db reverse levels (suc depth) id in
              elim (Option-cases (build_each go (related db reverse id) (id ∷ before))) [
                | inl f ↦ absurd (none_some _ (rw (unseen, e, f) at h))
                | inr ((rest, last), f) ↦
                    let node : TreeNode = record {
                      issue = i;
                      depth = depth;
                      parent_id = parent_id;
                    } in
                    let deep : ListsFresh (depth + suc levels) go =
                      rw (arith_suc depth levels)
                        (build_dependency_tree-ListsFresh levels (suc depth) id) in
                    moved _ before last after (node ∷ rest) nodes (rw (unseen, e, f) at h) (
                      IsFresh-cons (depth + suc levels) before last node id rest
                        (get_issue-id db id i e) (λ m. ground (arith, (contains_iff before id).1 m))
                        (omega arith)
                        (build_each-ListsFresh (depth + suc levels) go deep (related db reverse id)
                          (id ∷ before) last rest f))
              ]
        ]
      ]

-- GetDependencyTreeInTx succeeds for every issue that the tables have, whatever its dependencies; it
-- lists no issue twice, whether showAllPaths is set or not, and none at the given depth or deeper.
pub get_dependency_tree_distinct :
    (db : Tables) (id : Text) (max_depth : ℕ) (show_all_paths reverse : Bool) (i : Issue)
    → get_issue db id ≡ some i
    → (nodes : List TreeNode) × (get_dependency_tree db id max_depth show_all_paths reverse
        ≡ some nodes)
      × IsDistinct (ids_of_nodes nodes)
      × ((n : TreeNode) → In n nodes → n.depth < max_depth)
unfolding get_dependency_tree
get_dependency_tree_distinct db id max_depth show_all_paths reverse i e =
    let ((nodes, visited), f) = build_dependency_tree_total db reverse max_depth 0 [] id [] i e in
    let fresh = build_dependency_tree-ListsFresh db reverse max_depth 0 [] id [] visited nodes f in
    (
      nodes,
      rw (get_dependency_tree, f) refl,
      fresh.distinct,
      λ n m. let low = fresh.shallow n m in omega arith,
    )
