-- ===== src/Storage/BlockedIssues.antt =====
-- internal/storage/issueops/blocked.go, GetBlockedIssuesInTx and GetChildrenWithParentsInTx, over the
-- computation of the blocked issues. A Go map is a list of its keys with their values, in the order of
-- insertion where Go's own order is arbitrary. GetChildrenOfIssuesInTx is the query of the children that
-- ready_work.go has too. The code passes over an error of the queries for children; here they succeed.
pub mod Maps
pub mod Keys
pub mod Blockers
pub mod Results
pub mod Listed
pub mod Disjoint
use bd.Prelude.{
  ℕ, Bool, true, false, ◌&&◌, ◌||◌, not, Option, none, some, List, [], ◌∷◌, ◌++◌, length,
  if◌then◌else◌,
}
use bd.Prelude.Order.{keys_leb, sort_by}
use bd.Prelude.Text.{Text, codes, ◌==◌, has_prefix, contains}
use bd.Types.DependencyType.{Dependency}
use bd.Types.Issue.{Issue}
use bd.Storage.Tables.{Tables}
use bd.Storage.Blocked.{active_ids, all_deps, load_children, compute_blocked_ids}
use bd.Storage.Epics.{last_row, get_issues_by_ids}
use bd.Storage.Search.{priority_keys}
use bd.Storage.Ready.{get_children_of_issues}
use bd.Types.Filters.{WorkFilter}

-- m[k] = v
unfoldable pub set_key : {V : Type 0} → List (Text × V) → Text → V → List (Text × V)
set_key [] k v = (k, v) ∷ []
set_key ((j, w) ∷ m) k v = let rest = set_key m k v in if j == k then (j, v) ∷ m else (j, w) ∷ rest

-- m[k], `none` where the key is missing.
unfoldable pub get_key : {V : Type 0} → List (Text × V) → Text → Option V
get_key [] k = none
get_key ((j, w) ∷ m) k = let rest = get_key m k in if j == k then some w else rest

abbrev pub keys : {V : Type 0} → List (Text × V) → List Text
keys [] = []
keys ((k, v) ∷ m) = k ∷ keys m

-- BlockedIssue
pub record BlockedIssue : Type 0 where
  pub issue : Issue
  pub blocked_by_count : ℕ
  pub blocked_by : List Text

-- The loop of GetChildrenWithParentsInTx over its rows.
unfoldable pub set_parents : List (Text × Text) → List Dependency → List (Text × Text)
set_parents m [] = m
set_parents m (d ∷ ds) = set_parents (set_key m d.issue_id d.depends_on_id) ds

-- GetChildrenWithParentsInTx
unfoldable pub get_children_with_parents : Tables → List Text → List (Text × Text)
get_children_with_parents db parents = set_parents [] (load_children db true parents)

-- Step 2: the blocked set with the active children of its issues.
unfoldable pub add_children : List Text → List Text → List (Text × Text) → List Text
add_children active blocked [] = blocked
add_children active blocked ((child, parent) ∷ m) =
    add_children active
      (if contains active child && not (contains blocked child) then child ∷ blocked else blocked) m

-- blockerMap[id] = append(blockerMap[id], blocker)
unfoldable pub append_blocker : List (Text × List Text) → Text → Text → List (Text × List Text)
append_blocker m id blocker =
    set_key m id ((elim (get_key m id) [ none ↦ [] | some bs ↦ bs ]) ++ (blocker ∷ []))

-- Step 3
unfoldable pub add_blockers :
    List Text → List Text → List (Text × List Text) → List Dependency → List (Text × List Text)
add_blockers active blocked m [] = m
add_blockers active blocked m (d ∷ ds) =
    add_blockers active blocked
      (if contains blocked d.issue_id && contains active d.depends_on_id
        then append_blocker m d.issue_id d.depends_on_id
        else m)
      ds

-- Step 3b: the parent is the blocker of a child that has no other.
unfoldable pub add_parents :
    List Text → List Text → List (Text × List Text) → List (Text × Text) → List (Text × List Text)
add_parents active blocked m [] = m
add_parents active blocked m ((child, parent) ∷ ps) =
    add_parents active blocked
      (if contains active child && contains blocked child
        then (elim (get_key m child) [ none ↦ set_key m child (parent ∷ []) | some bs ↦ m ])
        else m)
      ps

-- Steps 1 to 3b
module _ (unmarshal_gate : Text → Option Text) (db : Tables) where
  abbrev pub children_of_blocked : List (Text × Text)
  children_of_blocked = get_children_with_parents db (compute_blocked_ids unmarshal_gate db true)

  unfoldable pub blocked_set : List Text
  blocked_set =
      add_children (active_ids db true) (compute_blocked_ids unmarshal_gate db true)
        children_of_blocked

  unfoldable pub blocker_map : List (Text × List Text)
  blocker_map =
      add_parents (active_ids db true) blocked_set
        (add_blockers (active_ids db true) blocked_set [] (all_deps db true)) children_of_blocked

-- The restriction to the children of a parent.
unfoldable pub in_parent : Tables → Option Text → Text → Bool
in_parent db none id = true
in_parent db (some p) id =
    contains (get_children_of_issues db (p ∷ [])) id || has_prefix id (p ++ codes ".")

-- The loop of step 4.
unfoldable pub blocked_results :
    Tables → Option Text → List Issue → List (Text × List Text) → List BlockedIssue
blocked_results db parent_id issues [] = []
blocked_results db parent_id issues ((id, bs) ∷ m) =
    let rest = blocked_results db parent_id issues m in
    if in_parent db parent_id id
    then (elim (last_row issues id) [
      | none ↦ rest
      | some i ↦ record { issue = i; blocked_by_count = length bs; blocked_by = bs } ∷ rest
    ])
    else rest

-- Priority ASC, then created_at DESC; sort.Slice leaves the order of equals open.
abbrev pub by_urgency : BlockedIssue → BlockedIssue → Bool
by_urgency b c = keys_leb (priority_keys b.issue) (priority_keys c.issue) [] []

-- GetBlockedIssuesInTx
unfoldable pub get_blocked_issues : (Text → Option Text) → Tables → WorkFilter → List BlockedIssue
get_blocked_issues unmarshal_gate db f =
    let m = blocker_map unmarshal_gate db in
    sort_by by_urgency (blocked_results db f.parent_id (get_issues_by_ids db (keys m)) m)
