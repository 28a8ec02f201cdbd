-- ===== src/Storage/Blocked.antt =====
-- internal/storage/issueops/blocked.go, ComputeBlockedIDsInTx, with ParseWaitsForGateMetadata of
-- internal/types/types.go. A Go set of texts is a list without repetition, in the order of
-- insertion where Go's own order is arbitrary.
pub mod Checks
pub mod Queries
pub mod Meaning
pub mod Loops
pub mod Steps
pub mod Unblocking
pub mod Agreement
use bd.Prelude.{
  ℕ, zero, suc, Bool, true, false, ◌&&◌, ◌||◌, not, Option, none, some, List, [], ◌∷◌, ◌++◌, map,
  any, select, find?, length, take, drop, eqb, if◌then◌else◌,
}
use bd.Prelude.Text.{Text, codes, ◌==◌, contains, trim_space}
use bd.Types.Issue.{Issue}
use bd.Types.Status.{status_closed, status_pinned}
use bd.Types.DependencyType.{
  Dependency, dep_blocks, dep_conditional_blocks, dep_waits_for, dep_parent_child,
}
use bd.Storage.Tables.{
  Tables, IssueTable, issues_table, wisps_table, DepTable, dependencies_table,
  wisp_dependencies_table, issue_rows, dep_rows, select_issue, get_issue, is_active_wisp,
  wisp_table_routing,
}

abbrev pub issue_tables : Bool → List IssueTable
issue_tables true = issues_table ∷ wisps_table ∷ []
issue_tables false = issues_table ∷ []

abbrev pub dep_tables : Bool → List DepTable
dep_tables true = dependencies_table ∷ wisp_dependencies_table ∷ []
dep_tables false = dependencies_table ∷ []

abbrev pub concat_map : {A B : Type 0} → (A → List B) → List A → List B
concat_map f [] = []
concat_map f (x ∷ xs) = f x ++ concat_map f xs

-- status NOT IN ('closed', 'pinned')
abbrev pub is_active_row : Issue → Bool
is_active_row i = not (i.status == status_closed || i.status == status_pinned)

-- status = 'closed'
abbrev pub is_closed_row : Issue → Bool
is_closed_row i = i.status == status_closed

abbrev pub ids_of : List Issue → List Text
ids_of = map (λ i. i.id)

-- Adding a key to a Go map that stands for a set.
unfoldable pub put : List Text → Text → List Text
put ks k = if contains ks k then ks else k ∷ ks

unfoldable pub put_all : List Text → List Text → List Text
put_all ks [] = ks
put_all ks (x ∷ xs) = put_all (put ks x) xs

abbrev pub query_batch_size : ℕ
query_batch_size = 200

-- The slices [start:end] of at most `n` elements, for start = 0, n, 2n, … while start < len: each
-- round of the fuel is one slice, and as many rounds as there are elements are enough for n > 0.
unfoldable pub batches : {A : Type 0} → ℕ → ℕ → List A → List (List A)
batches zero n xs = []
batches (suc fuel) n [] = []
batches (suc fuel) n (x ∷ xs) = take n (x ∷ xs) ∷ batches fuel n (drop n (x ∷ xs))

abbrev pub waits_for_all_children : Text
waits_for_all_children = codes "all-children"

abbrev pub waits_for_any_children : Text
waits_for_any_children = codes "any-children"

-- `unmarshal_gate` is json.Unmarshal into WaitsForMeta followed by its field Gate; `none` is an
-- error.
module _ (unmarshal_gate : Text → Option Text) where
  -- ParseWaitsForGateMetadata
  unfoldable pub parse_waits_for_gate : Text → Text
  unfolding trim_space
  parse_waits_for_gate metadata =
      if trim_space metadata == [] then waits_for_all_children else elim (unmarshal_gate metadata) [
        | none ↦ waits_for_all_children
        | some gate ↦
            if gate == waits_for_any_children
            then waits_for_any_children
            else waits_for_all_children
      ]

-- waitsForDep
pub record WaitsForDep : Type 0 where
  pub issue_id : Text
  pub spawner_id : Text
  pub gate : Text

-- The variables of step 3.
pub record Scan : Type 0 where
  pub blocked_set : List Text
  pub waits_for_deps : List WaitsForDep
  pub needs_closed_children : Bool

abbrev pub empty_scan : Scan
empty_scan = record { blocked_set = []; waits_for_deps = []; needs_closed_children = false }

abbrev pub is_direct : Dependency → Bool
is_direct d = d.type == dep_blocks || d.type == dep_conditional_blocks

abbrev pub is_waits_for : Dependency → Bool
is_waits_for d = d.type == dep_waits_for

-- Step 1
unfoldable pub active_ids : Tables → Bool → List Text
active_ids db wisps =
    put_all []
      (concat_map (λ t. ids_of (select is_active_row (issue_rows db t))) (issue_tables wisps))

-- Step 2
unfoldable pub all_deps : Tables → Bool → List Dependency
all_deps db wisps =
    concat_map (λ t. select (λ d. is_direct d || is_waits_for d) (dep_rows db t)) (dep_tables wisps)

module _ (unmarshal_gate : Text → Option Text) where
  abbrev pub waits_for_dep : Dependency → WaitsForDep
  waits_for_dep d = record {
    issue_id = d.issue_id;
    spawner_id = d.depends_on_id;
    gate = parse_waits_for_gate unmarshal_gate d.metadata;
  }

  -- The switch of step 3.
  unfoldable pub scan_dep : List Text → Scan → Dependency → Scan
  scan_dep active s d =
      if is_direct d
      then (if contains active d.issue_id && contains active d.depends_on_id
          then record s { blocked_set = put s.blocked_set d.issue_id }
          else s)
      else if is_waits_for d && contains active d.issue_id
      then record s {
        waits_for_deps = s.waits_for_deps ++ (waits_for_dep d ∷ []);
        needs_closed_children =
            s.needs_closed_children || (waits_for_dep d).gate == waits_for_any_children;
      }
      else s

  unfoldable pub scan_deps : List Text → Scan → List Dependency → Scan
  scan_deps active s [] = s
  scan_deps active s (d ∷ ds) = scan_deps active (scan_dep active s d) ds

-- SELECT … WHERE type = 'parent-child' AND depends_on_id IN (…)
abbrev pub child_rows : List Dependency → List Text → List Dependency
child_rows rows parents =
    select (λ d. d.type == dep_parent_child && contains parents d.depends_on_id) rows

-- Step 4, the queries for the children of the spawners.
unfoldable pub load_children : Tables → Bool → List Text → List Dependency
load_children db wisps spawners =
    concat_map
      (λ t.
        concat_map (child_rows (dep_rows db t))
          (batches (length spawners) query_batch_size spawners))
      (dep_tables wisps)

-- spawnerChildren[id]
unfoldable pub spawner_children : List Dependency → Text → List Text
spawner_children rows spawner =
    map (λ d. d.issue_id) (select (λ d. d.depends_on_id == spawner) rows)

-- Step 4, the queries for the closed children.
unfoldable pub load_closed : Tables → Bool → List Text → List Text
load_closed db wisps children = put_all [] (
    concat_map
      (λ t.
        concat_map
          (λ batch. ids_of (select (λ i. is_closed_row i && contains batch i.id) (issue_rows db t)))
          (batches (length children) query_batch_size children))
      (issue_tables wisps))

-- The loop of the gate any-children over the children, with `hasActiveChild` so far.
unfoldable pub any_gate_blocks : List Text → List Text → Bool → List Text → Bool
any_gate_blocks active closed has_active [] = has_active
any_gate_blocks active closed has_active (c ∷ cs) =
    let rest = any_gate_blocks active closed (has_active || contains active c) cs in
    if contains closed c then false else rest

-- Step 5
unfoldable pub gate_blocks : List Text → List Text → Text → List Text → Bool
gate_blocks active closed gate children =
    if gate == waits_for_any_children
    then any_gate_blocks active closed false children
    else any (contains active) children

unfoldable pub eval_gates :
    List Text → List Text → List Dependency → List Text → List WaitsForDep → List Text
eval_gates active closed rows blocked [] = blocked
eval_gates active closed rows blocked (w ∷ ws) =
    if gate_blocks active closed w.gate (spawner_children rows w.spawner_id)
    then eval_gates active closed rows (put blocked w.issue_id) ws
    else eval_gates active closed rows blocked ws

-- ComputeBlockedIDsInTx: the blocked set. The second result is `active_ids`.
unfoldable pub compute_blocked_ids : (Text → Option Text) → Tables → Bool → List Text
compute_blocked_ids unmarshal_gate db wisps =
    let active = active_ids db wisps in
    let s = scan_deps unmarshal_gate active empty_scan (all_deps db wisps) in
    let spawners = put_all [] (map (λ w. w.spawner_id) s.waits_for_deps) in
    let rows = load_children db wisps spawners in
    let children = put_all [] (map (λ d. d.issue_id) rows) in
    let closed = if s.needs_closed_children then load_closed db wisps children else [] in
    eval_gates active closed rows s.blocked_set s.waits_for_deps
