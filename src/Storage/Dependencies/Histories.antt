-- ===== src/Storage/Dependencies/Histories.antt =====
-- internal/storage/issueops/dependencies.go: histories of additions and removals.
use bd.Prelude.{ℕ, ◌≡◌, []}
use bd.Prelude.Text.{Text}
use bd.Types.DependencyType.{Dependency}
use bd.Storage.Tables.{Tables}
use bd.Storage.Dependencies.{AddDependencyOpts, ok, add_dependency, remove_dependency}
use bd.Storage.Dependencies.Walks.{IsAcyclic, IsAcyclic-IsWithin}
use bd.Storage.Dependencies.Acyclic.{
  graph, In-graph, add_dependency-IsAcyclic, remove_dependency-IsAcyclic,
}

-- The tables that additions and removals lead to. Issues and wisps may change in between, since
-- no edge is read from them.
pub data Step (db : Tables) : Tables → Type 0 where
  added :
      (dep : Dependency) (actor : Text) (now : ℕ) (opts : AddDependencyOpts) {db' : Tables}
      → opts.dep_tables ≡ []
      → add_dependency db dep actor now opts ≡ ok db'
      → Step db db'
  removed :
      (issue_id depends_on_id : Text) {db' : Tables}
      → remove_dependency db issue_id depends_on_id ≡ ok db'
      → Step db db'
  reissued :
      (db' : Tables)
      → db'.dependencies ≡ db.dependencies
      → db'.wisp_dependencies ≡ db.wisp_dependencies
      → Step db db'

pub data Reach (db : Tables) : Tables → Type 0 where
  here : Reach db db
  next : {mid last : Tables} → Reach db mid → Step mid last → Reach db last

Step-IsAcyclic : {db db' : Tables} → Step db db' → IsAcyclic (graph db) → IsAcyclic (graph db')
Step-IsAcyclic {db} (added dep actor now opts default h) acyclic =
    add_dependency-IsAcyclic db dep actor now opts default acyclic h
Step-IsAcyclic {db} (removed issue_id depends_on_id h) acyclic =
    remove_dependency-IsAcyclic db issue_id depends_on_id acyclic h
Step-IsAcyclic {db} (reissued db' d w) acyclic =
    IsAcyclic-IsWithin (graph db') (graph db)
      (λ e m. (In-graph e db).1 (rw (d, w) at ((In-graph e db').0 m))) acyclic

-- Whatever is added and removed, in any order, from tables with an acyclic blocking graph, the
-- graph stays acyclic.
pub Reach-IsAcyclic :
    {db db' : Tables} → IsAcyclic (graph db) → Reach db db' → IsAcyclic (graph db')
Reach-IsAcyclic acyclic here = acyclic
Reach-IsAcyclic acyclic (next r s) = Step-IsAcyclic s (Reach-IsAcyclic acyclic r)
