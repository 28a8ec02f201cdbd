-- ===== src/Storage/Cycles/Real.antt =====
-- DetectCyclesInTx of internal/storage/issueops/cycles.go: what it lists are cycles.
use bd.Prelude.{
  ℕ, zero, suc, ◌≡◌, ◌⊎◌, ◌∙◌, refl, sym, ap, subst, Bool-cases, inl, inr, Option, some,
  Option-cases, List, [], ◌∷◌, ◌++◌, map, In, In-append, List-cases, length, arith,
}
use bd.Prelude.Text.{Text, ◌==◌, eq_iff, contains}
use bd.Types.Issue.{Issue}
use bd.Storage.Tables.{Tables}
use bd.Storage.Blocked.{put_all}
use bd.Storage.Dependencies.{Edge, successors}
use bd.Storage.Dependencies.Search.{In-successors_elim}
use bd.Storage.Dependencies.Acyclic.{graph}
use bd.Storage.Cycles.{
  Dfs, issues_of, from_first, drop_last, enter, leave, record_cycle, scan_neighbors, dfs,
  search_all, nodes_of, no_search, detect_cycles,
}

-- Edges lead from `x` through the nodes of the list to `z`.
abbrev pub IsChain : List Edge → Text → List Text → Text → Type 0
IsChain es x [] z = In {A = Edge} (x, z) es
IsChain es x (y ∷ ys) z = In {A = Edge} (x, y) es × IsChain es y ys z

-- Each node of the list has an edge to the next one, and the last to the first.
abbrev pub IsCycle : List Edge → List Text → Type 0
IsCycle es [] = ⊥
IsCycle es (x ∷ xs) = IsChain es x xs x

-- The nodes of the path, each with an edge to the next one, lead to `z`.
abbrev Leads : List Edge → List Text → Text → Type 0
Leads es [] z = Unit {0}
Leads es (x ∷ xs) z = IsChain es x xs z

module _ (es : List Edge) where
  IsChain-snoc :
      (x : Text) (xs : List Text) (node z : Text)
      → IsChain es x xs node
      → In {A = Edge} (node, z) es
      → IsChain es x (xs ++ (node ∷ [])) z
  IsChain-snoc x [] node z c e = (c, e)
  IsChain-snoc x (y ∷ ys) node z (d, c) e = (d, IsChain-snoc y ys node z c e)

  Leads-snoc :
      (path : List Text) (node z : Text)
      → Leads es path node
      → In {A = Edge} (node, z) es
      → Leads es (path ++ (node ∷ [])) z
  Leads-snoc [] node z c e = e
  Leads-snoc (x ∷ xs) node z c e = IsChain-snoc x xs node z c e

  Leads-tail : (x : Text) (xs : List Text) (z : Text) → IsChain es x xs z → Leads es xs z
  Leads-tail x [] z c = tt
  Leads-tail x (y ∷ ys) z (d, c) = c

  from_first-IsCycle :
      (n : Text) (path : List Text)
      → Leads es path n
      → (from_first n path ≡ []) ⊎ IsCycle es (from_first n path)
  from_first-IsCycle n [] c = inl refl
  from_first-IsCycle n (x ∷ xs) c = elim (Bool-cases (x == n)) [
    | inl e ↦ rw e (inr (subst (λ z. IsChain es x xs z) (sym ((eq_iff x n).0 e)) c))
    | inr e ↦ rw e (from_first-IsCycle n xs (Leads-tail x xs n c))
  ]

  drop_last-append : (path : List Text) (node : Text) → drop_last (path ++ (node ∷ [])) ≡ path
  drop_last-append [] node = refl
  drop_last-append (x ∷ []) node = refl
  drop_last-append (x ∷ y ∷ xs) node = ap (λ p. x ∷ p) (drop_last-append (y ∷ xs) node)

  module _ (db : Tables) where
    -- Every listed cycle is the list of the issues of one.
    abbrev AllReal : List (List Issue) → Type 0
    AllReal cycles =
        (c : List Issue) → In c cycles → (ids : List Text) × IsCycle es ids × (c ≡ issues_of db ids)

    record_cycle-AllReal :
        (n : Text) (s : Dfs)
        → Leads es s.path n
        → AllReal s.cycles
        → ((record_cycle db n s).path ≡ s.path) × AllReal (record_cycle db n s).cycles
    unfolding record_cycle
    record_cycle-AllReal n s c r =
        let ids = from_first n s.path in
        elim (List-cases (issues_of db ids)) [
          | inl e ↦ rw (e, record_cycle) (refl, r)
          | inr (i, rest, e) ↦
              rw (e, record_cycle)
                (
                  refl,
                  λ listed m. elim ((In-append listed s.cycles ((i ∷ rest) ∷ [])).0 m) [
                    | inl old ↦ r listed old
                    | inr (inl new) ↦ elim (from_first-IsCycle n s.path c) [
                      | inl none_on ↦ ground (arith, e, ap (issues_of db) none_on)
                      | inr cycle ↦ (ids, cycle, new ∙ sym e)
                    ]
                    | inr (inr absent) ↦ absurd absent
                  ],
                )
        ]

    abbrev IsSound : (Text → Dfs → Option Dfs) → Type 0
    IsSound go =
        (n : Text) (s t : Dfs)
        → go n s ≡ some t
        → Leads es s.path n
        → AllReal s.cycles
        → (t.path ≡ s.path) × AllReal t.cycles

    scan_neighbors-AllReal :
        (go : Text → Dfs → Option Dfs)
        → IsSound go
        → (ns : List Text) (s t : Dfs) → scan_neighbors db go ns s ≡ some t
        → ((n : Text) → In n ns → Leads es s.path n)
        → AllReal s.cycles
        → (t.path ≡ s.path) × AllReal t.cycles
    unfolding scan_neighbors
    scan_neighbors-AllReal go sound [] s t h l r =
        let same : s ≡ t = ground arith in
        subst (λ (x : Dfs). (x.path ≡ s.path) × AllReal x.cycles) same (refl, r)
    scan_neighbors-AllReal go sound (n ∷ ns) s t h l r = elim (Bool-cases (contains s.visited n)) [
      | inl seen ↦ elim (Bool-cases (contains s.rec_stack n)) [
        | inl back ↦
            let (p, q) = record_cycle-AllReal n s (l n (inl refl)) r in
            let (p', q') =
              scan_neighbors-AllReal go sound ns (record_cycle db n s) t
                (ground (arith, seen, back))
                (λ x m. subst (λ path. Leads es path x) (sym p) (l x (inr m))) q in
            (p' ∙ p, q')
        | inr fresh ↦
            scan_neighbors-AllReal go sound ns s t (ground (arith, seen, fresh))
              (λ x m. l x (inr m)) r
      ]
      | inr new ↦ elim (Option-cases (go n s)) [
        | inl e ↦ ground (arith, new, e)
        | inr (u, e) ↦
            let (p, q) = sound n s u e (l n (inl refl)) r in
            let (p', q') =
              scan_neighbors-AllReal go sound ns u t (ground (arith, new, e))
                (λ x m. subst (λ path. Leads es path x) (sym p) (l x (inr m))) q in
            (p' ∙ p, q')
      ]
    ]

    dfs-IsSound : (fuel : ℕ) → IsSound (dfs db es fuel)
    unfolding dfs enter leave
    dfs-IsSound zero n s t h l r = cc
    dfs-IsSound (suc fuel) n s t h l r =
        elim (Option-cases (scan_neighbors db (dfs db es fuel) (successors es n) (enter n s))) [
          | inl e ↦ ground (arith, e)
          | inr (u, e) ↦
              let (p, q) =
                scan_neighbors-AllReal (dfs db es fuel) (dfs-IsSound fuel) (successors es n)
                  (enter n s) u e (λ x m. Leads-snoc s.path n x l (In-successors_elim es n x m))
                  r in
              let same : leave n u ≡ t = ground (arith, e) in
              subst (λ (x : Dfs). (x.path ≡ s.path) × AllReal x.cycles) same
                (ap drop_last p ∙ drop_last-append s.path n, q)
        ]

    search_all-AllReal :
        (fuel : ℕ) (ns : List Text) (s t : Dfs)
        → search_all db es fuel ns s ≡ some t
        → s.path ≡ []
        → AllReal s.cycles
        → AllReal t.cycles
    unfolding search_all
    search_all-AllReal fuel [] s t h p r =
        let same : s ≡ t = ground arith in subst (λ (x : Dfs). AllReal x.cycles) same r
    search_all-AllReal fuel (n ∷ ns) s t h p r = elim (Bool-cases (contains s.visited n)) [
      | inl seen ↦ search_all-AllReal fuel ns s t (ground (arith, seen)) p r
      | inr new ↦ elim (Option-cases (dfs db es fuel n s)) [
        | inl e ↦ ground (arith, new, e)
        | inr (u, e) ↦
            let (q, l) = dfs-IsSound fuel n s u e (rw p tt) r in
            search_all-AllReal fuel ns u t (ground (arith, new, e)) (q ∙ p) l
      ]
    ]

-- What the search lists, where it ends.
pub detect_cycles-listed :
    (db : Tables) (cycles : List (List Issue)) (c : List Issue)
    → detect_cycles db ≡ some cycles
    → In c cycles
    → (ids : List Text) × IsCycle (graph db) ids × (c ≡ issues_of db ids)
unfolding detect_cycles
detect_cycles-listed db cycles c h m =
    let es = graph db in
    let sources = put_all [] (map (λ (e : Edge). e.0) es) in
    elim (Option-cases (search_all db es (length (nodes_of es)) sources no_search)) [
      | inl e ↦ ground (arith, e)
      | inr (t, e) ↦
          let same : t.cycles ≡ cycles = ground (arith, e) in
          search_all-AllReal es db (length (nodes_of es)) sources no_search t e refl
            (λ x absent. absurd absent) c (subst (λ (cs : List (List Issue)). In c cs) (sym same) m)
    ]
