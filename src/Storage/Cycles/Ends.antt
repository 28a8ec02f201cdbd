-- ===== src/Storage/Cycles/Ends.antt =====
-- DetectCyclesInTx of internal/storage/issueops/cycles.go: the depth-first search ends.
use bd.Prelude.{
  ℕ, zero, suc, ◌≡◌, ◌≤◌, ◌<◌, refl, sym, ap, subst, false, not, Bool-cases, inl, inr, Option, some,
  List, [], ◌∷◌, map, select, In, In-append, In-map_intro, List-cases, length, arith,
}
use bd.Prelude.Text.{Text, eq_iff, contains, contains_iff}
use bd.Types.Issue.{Issue}
use bd.Storage.Tables.{Tables}
use bd.Storage.Blocked.{put_all}
use bd.Storage.Blocked.Queries.{contains-put_all}
use bd.Storage.Dependencies.{Edge, successors}
use bd.Storage.Dependencies.Search.{In-successors_elim}
use bd.Storage.Dependencies.Acyclic.{graph}
use bd.Storage.Cycles.{
  Dfs, issues_of, from_first, enter, leave, record_cycle, scan_neighbors, dfs, search_all, nodes_of,
  no_search, detect_cycles,
}
use bd.Storage.Cycles.Real.{IsCycle, detect_cycles-listed}

-- The nodes that the search has not visited.
abbrev unseen : List Text → List Text → ℕ
unseen nodes visited = length (select (λ x. not (contains visited x)) nodes)

unseen-le-length : (nodes visited : List Text) → unseen nodes visited ≤ length nodes
unseen-le-length [] visited = omega arith
unseen-le-length (x ∷ nodes) visited = ground (arith, unseen-le-length nodes visited)

unseen-cons :
    (nodes : List Text) (n : Text) (visited : List Text)
    → unseen nodes (n ∷ visited) ≤ unseen nodes visited
unseen-cons [] n visited = omega arith
unseen-cons (x ∷ nodes) n visited = ground (arith, unseen-cons nodes n visited)

unseen-drops :
    (nodes : List Text) (n : Text) (visited : List Text)
    → In n nodes
    → contains visited n ≡ false
    → unseen nodes (n ∷ visited) < unseen nodes visited
unseen-drops [] n visited m h = absurd m
unseen-drops (x ∷ nodes) n visited (inl e) h =
    let missing : contains visited x ≡ false = subst (λ y. contains visited y ≡ false) e h in
    ground (arith, missing, eq_iff x n, sym e, unseen-cons nodes n visited)
unseen-drops (x ∷ nodes) n visited (inr m) h = ground (arith, unseen-drops nodes n visited m h)

module _ (db : Tables) (es : List Edge) where
  abbrev left : Dfs → ℕ
  left s = unseen (nodes_of es) s.visited

  -- A search with enough fuel for the nodes that are left ends, and forgets none that it has visited.
  abbrev Ends : ℕ → (Text → Dfs → Option Dfs) → Type 0
  Ends fuel go =
      (n : Text) (s : Dfs)
      → In n (nodes_of es)
      → contains s.visited n ≡ false
      → left s ≤ fuel
      → (t : Dfs) × (go n s ≡ some t) × (left t ≤ left s)

  record_cycle-visited : (n : Text) (s : Dfs) → (record_cycle db n s).visited ≡ s.visited
  unfolding record_cycle
  record_cycle-visited n s = elim (List-cases (issues_of db (from_first n s.path))) [
    | inl e ↦ rw (e, record_cycle) refl
    | inr (i, rest, e) ↦ rw (e, record_cycle) refl
  ]

  scan_neighbors-Ends :
      (fuel : ℕ) (go : Text → Dfs → Option Dfs)
      → Ends fuel go
      → (ns : List Text) (s : Dfs) → ((n : Text) → In n ns → In n (nodes_of es))
      → left s ≤ fuel
      → (t : Dfs) × (scan_neighbors db go ns s ≡ some t) × (left t ≤ left s)
  unfolding scan_neighbors
  scan_neighbors-Ends fuel go ends [] s l h = (s, refl, omega arith)
  scan_neighbors-Ends fuel go ends (n ∷ ns) s l h = elim (Bool-cases (contains s.visited n)) [
    | inl seen ↦ elim (Bool-cases (contains s.rec_stack n)) [
      | inl back ↦
          let same : left (record_cycle db n s) ≡ left s =
            ap (unseen (nodes_of es)) (record_cycle-visited n s) in
          let (t, e, k) =
            scan_neighbors-Ends fuel go ends ns (record_cycle db n s) (λ x m. l x (inr m))
              (omega (arith, same)) in
          (t, ground (arith, seen, back, e), omega (arith, same))
      | inr fresh ↦
          let (t, e, k) = scan_neighbors-Ends fuel go ends ns s (λ x m. l x (inr m)) h in
          (t, ground (arith, seen, fresh, e), k)
    ]
    | inr new ↦
        let (u, e, k) = ends n s (l n (inl refl)) new h in
        let (t, f, j) = scan_neighbors-Ends fuel go ends ns u (λ x m. l x (inr m)) (omega arith) in
        (t, ground (arith, new, e, f), omega arith)
  ]

  In-targets : (n x : Text) → In x (successors es n) → In x (nodes_of es)
  In-targets n x m =
      (In-append x (map (λ (e : Edge). e.0) es) (map (λ (e : Edge). e.1) es)).1
        (inr (In-map_intro (λ (e : Edge). e.1) (n, x) es (In-successors_elim es n x m)))

  dfs-Ends : (fuel : ℕ) → Ends fuel (dfs db es fuel)
  unfolding dfs enter leave
  dfs-Ends zero n s m new h = absurd (omega (arith, unseen-drops (nodes_of es) n s.visited m new))
  dfs-Ends (suc fuel) n s m new h =
      let drops = unseen-drops (nodes_of es) n s.visited m new in
      let (t, e, k) =
        scan_neighbors-Ends fuel (dfs db es fuel) (dfs-Ends fuel) (successors es n) (enter n s)
          (λ x i. In-targets n x i) (omega (arith, drops)) in
      (leave n t, ground (arith, e), omega (arith, drops))

  search_all-Ends :
      (fuel : ℕ) (ns : List Text) (s : Dfs)
      → ((n : Text) → In n ns → In n (nodes_of es))
      → left s ≤ fuel
      → (t : Dfs) × (search_all db es fuel ns s ≡ some t)
  unfolding search_all
  search_all-Ends fuel [] s l h = (s, refl)
  search_all-Ends fuel (n ∷ ns) s l h = elim (Bool-cases (contains s.visited n)) [
    | inl seen ↦
        let (t, e) = search_all-Ends fuel ns s (λ x m. l x (inr m)) h in
        (t, ground (arith, seen, e))
    | inr new ↦
        let (u, e, k) = dfs-Ends fuel n s (l n (inl refl)) new h in
        let (t, f) = search_all-Ends fuel ns u (λ x m. l x (inr m)) (omega arith) in
        (t, ground (arith, new, e, f))
  ]

-- DetectCyclesInTx ends on every graph, and each list of issues that it returns comes from a cycle of
-- blocking edges: a list of ids, each with an edge to the next and the last to the first, without
-- those that no issue has.
pub detect_cycles-IsCycle :
    (db : Tables)
    → (cycles : List (List Issue)) × (detect_cycles db ≡ some cycles)
      × ((c : List Issue)
          → In c cycles
          → (ids : List Text) × IsCycle (graph db) ids × (c ≡ issues_of db ids))
unfolding detect_cycles
detect_cycles-IsCycle db =
    let es = graph db in
    let sources = map (λ (e : Edge). e.0) es in
    let (t, e) =
      search_all-Ends db es (length (nodes_of es)) (put_all [] sources) no_search
        (λ n m. (In-append n sources (map (λ (e : Edge). e.1) es)).1 (
          inl (
            ground (
              arith,
              contains-put_all sources [] n,
              contains_iff sources n,
              contains_iff (put_all [] sources) n,
            ))))
        (unseen-le-length (nodes_of es) []) in
    let found : detect_cycles db ≡ some t.cycles = ground (arith, e) in
    (t.cycles, found, λ c m. detect_cycles-listed db t.cycles c found m)
