-- ===== src/Storage/Tree.antt =====
-- internal/storage/issueops/dependency_tree.go, GetDependencyTreeInTx. The numbers of levels that are
-- left is the fuel of the recursion.
pub mod Total
pub mod Distinct
use bd.Prelude.{ℕ, zero, suc, ◌+◌, Bool, Option, none, some, List, [], ◌∷◌, ◌++◌, if◌then◌else◌}
use bd.Prelude.Text.{Text, contains}
use bd.Types.Issue.{Issue}
use bd.Storage.Tables.{Tables, get_issue}
use bd.Storage.Listings.{get_dependencies, get_dependents}

-- TreeNode
pub record TreeNode : Type 0 where
  pub issue : Issue
  pub depth : ℕ
  pub parent_id : Text

-- The flat list of nodes, and `visited` as the call leaves it.
abbrev pub Built : Type 0
Built = List TreeNode × List Text

unfoldable pub related : Tables → Bool → Text → List Issue
related db reverse id = if reverse then get_dependents db id else get_dependencies db id

-- The loop over the related issues; `go` is the recursive call.
unfoldable pub build_each :
    (Text → List Text → Option Built) → List Issue → List Text → Option Built
build_each go [] visited = some ([], visited)
build_each go (r ∷ rs) visited = elim (go r.id visited) [
  | none ↦ none
  | some (children, after) ↦ elim (build_each go rs after) [
    | none ↦ none
    | some (nodes, last) ↦ some (children ++ nodes, last)
  ]
]

-- buildDependencyTreeInTx, with maxDepth - depth for maxDepth; `none` for the error that an issue is
-- missing.
unfoldable pub build_dependency_tree :
    Tables → Bool → ℕ → ℕ → Text → Text → List Text → Option Built
build_dependency_tree db reverse zero depth parent_id id visited = some ([], visited)
build_dependency_tree db reverse (suc levels) depth parent_id id visited =
    if contains visited id then some ([], visited) else elim (get_issue db id) [
      | none ↦ none
      | some i ↦
          elim (build_each (build_dependency_tree db reverse levels (suc depth) id)
            (related db reverse id) (id ∷ visited)) [
              | none ↦ none
              | some (nodes, after) ↦
                  some (record { issue = i; depth = depth; parent_id = parent_id } ∷ nodes, after)
            ]
    ]

-- GetDependencyTreeInTx, whose code never reads showAllPaths.
unfoldable pub get_dependency_tree : Tables → Text → ℕ → Bool → Bool → Option (List TreeNode)
get_dependency_tree db id max_depth show_all_paths reverse =
    elim (build_dependency_tree db reverse max_depth 0 [] id []) [
      | none ↦ none
      | some (nodes, visited) ↦ some nodes
    ]
