-- ===== src/Storage/Blocked/Loops.antt =====
-- The loops of the computation of the blocked issues: what the scan of the dependency rows and the
-- evaluation of the gates leave in their variables.
use bd.Prelude.{
  ◌≡◌, ◌∙◌, sym, subst, Bool, true, false, ◌&&◌, ◌||◌, not, Option, List, [], ◌∷◌, map, any, select,
  In, In-map_intro, In-map_elim, arith, if◌then◌else◌, In-select,
}
use bd.Prelude.{any-append, any_ext, any_ext_on}
use bd.Prelude.Text.{Text, ◌==◌, contains, contains_iff}
use bd.Types.DependencyType.{Dependency}
use bd.Storage.Tables.{Tables}
use bd.Storage.Blocked.{
  put, put_all, waits_for_any_children, WaitsForDep, Scan, is_direct, is_waits_for, active_ids,
  waits_for_dep, scan_dep, scan_deps, load_children, spawner_children, load_closed, any_gate_blocks,
  gate_blocks, eval_gates,
}
use bd.Storage.Blocked.Queries.{contains-put, contains-put_all}
use bd.Storage.Blocked.Meaning.{
  active, closed, shut, contains-active_ids, contains-load_closed, any-load_children,
}

-- The row blocks directly, by the list of the active ids.
abbrev pub is_direct_blocker : List Text → Text → Dependency → Bool
is_direct_blocker act id d =
    is_direct d && (contains act d.issue_id && contains act d.depends_on_id) && id == d.issue_id

-- The row is collected for its gate.
abbrev pub is_waiting : List Text → Dependency → Bool
is_waiting act d = not (is_direct d) && (is_waits_for d && contains act d.issue_id)

module _ (unmarshal_gate : Text → Option Text) (act : List Text) where
  pub contains-scan_deps :
      (id : Text) (ds : List Dependency) (s : Scan)
      → contains (scan_deps unmarshal_gate act s ds).blocked_set id
        ≡ (contains s.blocked_set id || any (is_direct_blocker act id) ds)
  unfolding scan_deps scan_dep
  contains-scan_deps id [] s = ground arith
  contains-scan_deps id (d ∷ ds) s = ground (
    arith,
    contains-put s.blocked_set d.issue_id id,
    contains-scan_deps id ds (scan_dep unmarshal_gate act s d),
  )

  pub any-scan_deps :
      (p : WaitsForDep → Bool) (ds : List Dependency) (s : Scan)
      → any p (scan_deps unmarshal_gate act s ds).waits_for_deps ≡ (
          any p s.waits_for_deps
          || any (λ d. is_waiting act d && p (waits_for_dep unmarshal_gate d)) ds)
  unfolding scan_deps scan_dep
  any-scan_deps p [] s = ground arith
  any-scan_deps p (d ∷ ds) s = ground (
    arith,
    any-append p s.waits_for_deps (waits_for_dep unmarshal_gate d ∷ []),
    any-scan_deps p ds (scan_dep unmarshal_gate act s d),
  )

  pub needs-scan_deps :
      (ds : List Dependency) (s : Scan)
      → (scan_deps unmarshal_gate act s ds).needs_closed_children ≡ (
          s.needs_closed_children
          || any
              (λ d.
                is_waiting act d && (waits_for_dep unmarshal_gate d).gate == waits_for_any_children)
              ds)
  unfolding scan_deps scan_dep
  needs-scan_deps [] s = ground arith
  needs-scan_deps (d ∷ ds) s = ground (arith, needs-scan_deps ds (scan_dep unmarshal_gate act s d))

pub contains-eval_gates :
    (act closed_ids : List Text) (rows : List Dependency) (id : Text) (ws : List WaitsForDep)
    (blocked : List Text)
    → contains (eval_gates act closed_ids rows blocked ws) id ≡ (
        contains blocked id
        || any
            (λ w.
              gate_blocks act closed_ids w.gate (spawner_children rows w.spawner_id)
              && id == w.issue_id)
            ws)
unfolding eval_gates
contains-eval_gates act closed_ids rows id [] blocked = ground arith
contains-eval_gates act closed_ids rows id (w ∷ ws) blocked = ground (
  arith,
  contains-put blocked w.issue_id id,
  contains-eval_gates act closed_ids rows id ws (put blocked w.issue_id),
  contains-eval_gates act closed_ids rows id ws blocked,
)

any_gate_blocks_lem :
    (act closed_ids : List Text) (has_active : Bool) (cs : List Text)
    → any_gate_blocks act closed_ids has_active cs
      ≡ (not (any (contains closed_ids) cs) && (has_active || any (contains act) cs))
unfolding any_gate_blocks
any_gate_blocks_lem act closed_ids has_active [] = ground arith
any_gate_blocks_lem act closed_ids has_active (c ∷ cs) =
    ground (arith, any_gate_blocks_lem act closed_ids (has_active || contains act c) cs)

-- The ids of the children of one spawner are among those of the children of all.
contains-spawner_children :
    (rows : List Dependency) (spawner c : Text)
    → In c (spawner_children rows spawner)
    → contains (put_all [] (map (λ d. d.issue_id) rows)) c ≡ true
unfolding spawner_children
contains-spawner_children rows spawner c m =
    let (d, k, e) =
      In-map_elim (λ d. d.issue_id) c (select (λ d. d.depends_on_id == spawner) rows) m in
    contains-put_all (map (λ d. d.issue_id) rows) [] c
    ∙ (contains_iff (map (λ d. d.issue_id) rows) c).1 (
        subst (λ x. In x (map (λ d. d.issue_id) rows)) (sym e)
          (In-map_intro (λ d. d.issue_id) d rows
            ((In-select (λ d. d.depends_on_id == spawner) d rows).0 k).0))

-- The gate of a spawner whose children were loaded.
pub gate_blocks_lem :
    (db : Tables) (wisps : Bool) (spawners : List Text) (spawner gate : Text) (needs : Bool)
    → contains spawners spawner ≡ true
    → ((gate == waits_for_any_children) ≡ true → needs ≡ true)
    → gate_blocks
        (active_ids db wisps)
        (if needs
          then load_closed db wisps
              (put_all [] (map (λ d. d.issue_id) (load_children db wisps spawners)))
          else [])
        gate
        (spawner_children (load_children db wisps spawners) spawner)
      ≡ shut db wisps gate spawner
unfolding gate_blocks
gate_blocks_lem db wisps spawners spawner gate needs h n =
    let rows = load_children db wisps spawners in
    let children = put_all [] (map (λ d. d.issue_id) rows) in
    let cs = spawner_children rows spawner in
    ground (
      arith,
      n,
      any_gate_blocks_lem (active_ids db wisps) (load_closed db wisps children) false cs,
      any_ext (contains (active_ids db wisps)) (active db wisps) (contains-active_ids db wisps) cs,
      any-load_children db wisps spawners spawner (active db wisps) h,
      any_ext_on (contains (load_closed db wisps children)) (closed db wisps) cs (λ c m.
          contains-load_closed db wisps children c (contains-spawner_children rows spawner c m)),
      any-load_children db wisps spawners spawner (closed db wisps) h,
    )
