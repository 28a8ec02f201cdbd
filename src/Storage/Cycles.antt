-- ===== src/Storage/Cycles.antt =====
-- internal/storage/issueops/cycles.go, DetectCyclesInTx: the depth-first search that lists cycles. A Go
-- set is a list; the nodes are taken in one fixed order where Go's order is arbitrary.
pub mod Ends
pub mod Real
use bd.Prelude.{
  ℕ, zero, suc, ◌+◌, Bool, true, false, not, Option, none, some, List, [], ◌∷◌, ◌++◌, map, select,
  length, if◌then◌else◌,
}
use bd.Prelude.Text.{Text, ◌==◌, contains}
use bd.Types.Issue.{Issue}
use bd.Storage.Tables.{Tables, get_issue}
use bd.Storage.Blocked.{put_all}
use bd.Storage.Dependencies.{Edge, successors}
use bd.Storage.Dependencies.Acyclic.{graph}

pub record Dfs : Type 0 where
  pub visited : List Text
  pub rec_stack : List Text
  pub path : List Text
  pub cycles : List (List Issue)

-- The issues of a cycle; an id without an issue is left out.
abbrev pub issues_of : Tables → List Text → List Issue
issues_of db [] = []
issues_of db (id ∷ ids) =
    let rest = issues_of db ids in elim (get_issue db id) [ none ↦ rest | some i ↦ i ∷ rest ]

-- path[cycleStart:], empty where the node is not on the path.
abbrev pub from_first : Text → List Text → List Text
from_first n [] = []
from_first n (x ∷ path) = if x == n then x ∷ path else from_first n path

-- path[:len(path)-1]
abbrev pub drop_last : {A : Type 0} → List A → List A
drop_last [] = []
drop_last (x ∷ []) = []
drop_last (x ∷ y ∷ xs) = x ∷ drop_last (y ∷ xs)

unfoldable pub enter : Text → Dfs → Dfs
enter node s = record s {
  visited = node ∷ s.visited;
  rec_stack = node ∷ s.rec_stack;
  path = s.path ++ (node ∷ []);
}

unfoldable pub leave : Text → Dfs → Dfs
leave node s = record s {
  path = drop_last s.path;
  rec_stack = select (λ x. not (x == node)) s.rec_stack;
}

-- The extraction of a found cycle.
unfoldable pub record_cycle : Tables → Text → Dfs → Dfs
record_cycle db neighbor s =
    let found = issues_of db (from_first neighbor s.path) in
    elim found [ [] ↦ s | i ∷ rest ↦ record s { cycles = s.cycles ++ ((i ∷ rest) ∷ []) } ]

-- The loop over the neighbors; `go` is the search from a node.
unfoldable pub scan_neighbors : Tables → (Text → Dfs → Option Dfs) → List Text → Dfs → Option Dfs
scan_neighbors db go [] s = some s
scan_neighbors db go (n ∷ ns) s =
    if not (contains s.visited n)
    then (elim (go n s) [ none ↦ none | some t ↦ scan_neighbors db go ns t ])
    else if contains s.rec_stack n
    then scan_neighbors db go ns (record_cycle db n s)
    else scan_neighbors db go ns s

-- dfs, which never returns true; `none` where the fuel runs out.
unfoldable pub dfs : Tables → List Edge → ℕ → Text → Dfs → Option Dfs
dfs db es zero node s = none
dfs db es (suc fuel) node s =
    elim (scan_neighbors db (dfs db es fuel) (successors es node) (enter node s)) [
      | none ↦ none
      | some t ↦ some (leave node t)
    ]

-- The loop over the nodes of the graph.
unfoldable pub search_all : Tables → List Edge → ℕ → List Text → Dfs → Option Dfs
search_all db es fuel [] s = some s
search_all db es fuel (n ∷ ns) s =
    if not (contains s.visited n)
    then (elim (dfs db es fuel n s) [ none ↦ none | some t ↦ search_all db es fuel ns t ])
    else search_all db es fuel ns s

-- The sources and the targets of the edges.
abbrev pub nodes_of : List Edge → List Text
nodes_of es = map (λ e. e.0) es ++ map (λ e. e.1) es

abbrev pub no_search : Dfs
no_search = record { visited = []; rec_stack = []; path = []; cycles = [] }

-- DetectCyclesInTx: the search goes no deeper than there are nodes.
unfoldable pub detect_cycles : Tables → Option (List (List Issue))
detect_cycles db =
    let es = graph db in
    elim (search_all db es (length (nodes_of es)) (put_all [] (map (λ e. e.0) es)) no_search) [
      | none ↦ none
      | some s ↦ some s.cycles
    ]
