-- ===== src/Storage/Deletion/Invariants.antt =====
-- internal/storage/issueops/delete.go: what the deletion of issues keeps.
use bd.Prelude.{◌≡◌, sym, subst, Bool, true, false, List, In, arith}
use bd.Prelude.Text.{Text, contains}
use bd.Types.Issue.{Issue}
use bd.Storage.Tables.{Tables, is_active_wisp}
use bd.Storage.Store.{Store}
use bd.Storage.Dependencies.Walks.{IsAcyclic, IsAcyclic-IsWithin}
use bd.Storage.Dependencies.Acyclic.{graph, In-graph, IsWithin-edges_of_rows}
use bd.Storage.Lifecycle.Consistent.{IsConsistent}
use bd.Storage.Deletion.{ok, DeleteIssuesResult}
use bd.Storage.Deletion.Issues.{delete_issues}
use bd.Storage.Deletion.Effects.{has_id}
use bd.Storage.Deletion.Ends.{HasEnds, delete_issues_dry, delete_issues_real}
use bd.Storage.Deletion.Others.{delete_issues_others}
use bd.Storage.Deletion.Parts.{IsPart, delete_issues-IsPart}

IsPart-IsConsistent : (db db' : Tables) → IsPart db db' → IsConsistent db → IsConsistent db'
IsPart-IsConsistent db db' p c = record {
  issues_stamped = λ i m. c.issues_stamped i (p.some_issues i m);
  wisps_stamped = λ i m. c.wisps_stamped i (p.some_wisps i m);
  issues_keyed = λ i j m n. c.issues_keyed i j (p.some_issues i m) (p.some_issues j n);
  wisps_keyed = λ i j m n. c.wisps_keyed i j (p.some_wisps i m) (p.some_wisps j n);
}

IsPart-IsAcyclic : (db db' : Tables) → IsPart db db' → IsAcyclic (graph db) → IsAcyclic (graph db')
IsPart-IsAcyclic db db' p acyclic =
    IsAcyclic-IsWithin (graph db') (graph db)
      (λ e m. ground (
        arith,
        In-graph e db,
        In-graph e db',
        IsWithin-edges_of_rows db.dependencies db'.dependencies p.some_dependencies e,
        IsWithin-edges_of_rows db.wisp_dependencies db'.wisp_dependencies p.some_wisp_dependencies
            e,
      ))
      acyclic

delete_issues-IsConsistent :
    (st : Store) (ids : List Text) (cascade force dry_run : Bool) {res : DeleteIssuesResult}
    {st' : Store}
    → IsConsistent st.tables
    → IsAcyclic (graph st.tables)
    → delete_issues st ids cascade force dry_run ≡ ok (res, st')
    → IsConsistent st'.tables × IsAcyclic (graph st'.tables)
delete_issues-IsConsistent st ids cascade force dry_run {res} {st'} c a h =
    let p = delete_issues-IsPart ids cascade force dry_run st h in
    (IsPart-IsConsistent st.tables st'.tables p c, IsPart-IsAcyclic st.tables st'.tables p a)

-- If the tables are consistent, the graph of the blocking edges is acyclic and both ends of every row of
-- the table dependencies are issues, all this holds after a successful DeleteIssuesInTx too, in any mode
-- and on issues and wisps alike. A dry run leaves everything as it is; after another run no given id is
-- one of a wisp, and none that was not one of a wisp is one of an issue; the wisps that are not given are
-- still there, and in the modes other than cascade so are the issues.
pub delete_issues-HasEnds :
    (st : Store) (ids : List Text) (cascade force dry_run : Bool) {res : DeleteIssuesResult}
    {st' : Store}
    → IsConsistent st.tables
    → IsAcyclic (graph st.tables)
    → HasEnds st.tables
    → delete_issues st ids cascade force dry_run ≡ ok (res, st')
    → IsConsistent st'.tables
      × IsAcyclic (graph st'.tables)
      × HasEnds st'.tables
      × (dry_run ≡ true → st' ≡ st)
      × (dry_run ≡ false
          → (x : Text) → In x ids
          → (has_id st'.tables.wisps x ≡ false)
            × (is_active_wisp st.tables x ≡ false → has_id st'.tables.issues x ≡ false))
      × (dry_run ≡ false
          → (i : Issue) → In i st.tables.wisps
          → contains ids i.id ≡ false
          → In i st'.tables.wisps)
      × (dry_run ≡ false
          → cascade ≡ false
          → (i : Issue) → In i st.tables.issues
          → contains ids i.id ≡ false
          → In i st'.tables.issues)
delete_issues-HasEnds st ids cascade force true {res} {st'} c a e h =
    let (c', a') = delete_issues-IsConsistent st ids cascade force true c a h in
    let same = delete_issues_dry ids cascade force st h in
    (
      c',
      a',
      subst (λ (x : Store). HasEnds x.tables) (sym same) e,
      λ q. same,
      λ q. cc,
      λ q. cc,
      λ q. cc,
    )
delete_issues-HasEnds st ids cascade force false {res} {st'} c a e h =
    let (c', a') = delete_issues-IsConsistent st ids cascade force false c a h in
    let (keeps, gone) = delete_issues_real ids cascade force st h in
    let (wisps, issues) = delete_issues_others ids cascade force st h in
    (c', a', keeps e, λ q. cc, λ q. gone, λ q. wisps, λ q. issues)
