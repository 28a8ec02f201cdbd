-- ===== src/Storage/Blocked/Steps.antt =====
-- internal/storage/issueops/blocked.go: the computation of the blocked issues as a whole, beside the
-- predicate of Storage/Blocked/Meaning.
use bd.Prelude.{
  ◌≡◌, ◌∙◌, refl, sym, ap, subst, Bool, true, false, ◌&&◌, ◌||◌, Option, [], map, any, In, inl, inr,
  Bool-cases, arith, if◌then◌else◌, any_intro,
}
use bd.Prelude.{any-map, any_ext, any_ext_on, any_or}
use bd.Prelude.Text.{Text, ◌==◌, eq_iff, eq_refl, contains}
use bd.Types.DependencyType.{Dependency, dep_blocks, dep_conditional_blocks, dep_waits_for}
use bd.Storage.Tables.{dep_rows}
use bd.Storage.Blocked.{dep_tables}
use bd.Storage.Tables.{Tables}
use bd.Storage.Blocked.{
  put_all, waits_for_any_children, Scan, empty_scan, is_direct, is_waits_for, active_ids, all_deps,
  waits_for_dep, scan_deps, load_children, spawner_children, load_closed, gate_blocks,
  compute_blocked_ids,
}
use bd.Storage.Blocked.Queries.{contains-put_all}
use bd.Storage.Blocked.Meaning.{shut, blocks, some_dep, contains-active_ids, any-all_deps}
use bd.Storage.Blocked.Loops.{
  is_direct_blocker, is_waiting, contains-scan_deps, any-scan_deps, needs-scan_deps,
  contains-eval_gates, gate_blocks_lem,
}

-- A row is not of two types.
not_both : (d : Dependency) → is_direct d ≡ true → is_waits_for d ≡ false
unfolding ◌==◌
not_both d h = elim (Bool-cases (is_waits_for d)) [
  | inl e ↦ cc (
      subst (λ t. (t == dep_blocks || t == dep_conditional_blocks) ≡ true)
        ((eq_iff d.type dep_waits_for).0 e) h)
  | inr e ↦ e
]

module _ (unmarshal_gate : Text → Option Text) (db : Tables) (wisps : Bool) where
  -- What the scan makes of a row is what the row's blocking means.
  direct_or_waiting :
      (id : Text) (d : Dependency)
      → (is_direct_blocker (active_ids db wisps) id d
          || is_waiting (active_ids db wisps) d
            && (shut db wisps (waits_for_dep unmarshal_gate d).gate d.depends_on_id
                && id == d.issue_id))
        ≡ ((is_direct d || is_waits_for d) && blocks unmarshal_gate db wisps id d)
  direct_or_waiting id d = ground (
    arith,
    contains-active_ids db wisps d.issue_id,
    contains-active_ids db wisps d.depends_on_id,
    not_both d,
  )

  -- The gate of a row that the scan collected, as the evaluation finds it.
  collected_gate :
      (s : Scan) (d : Dependency)
      → s ≡ scan_deps unmarshal_gate (active_ids db wisps) empty_scan (all_deps db wisps)
      → In d (all_deps db wisps)
      → is_waiting (active_ids db wisps) d ≡ true
      → let spawners = put_all [] (map (λ w. w.spawner_id) s.waits_for_deps) in
        gate_blocks
          (active_ids db wisps)
          (if s.needs_closed_children
            then load_closed db wisps
                (put_all [] (map (λ d. d.issue_id) (load_children db wisps spawners)))
            else [])
          (waits_for_dep unmarshal_gate d).gate
          (spawner_children (load_children db wisps spawners) d.depends_on_id)
        ≡ shut db wisps (waits_for_dep unmarshal_gate d).gate d.depends_on_id
  collected_gate s d e m w =
      let deps = all_deps db wisps in
      gate_blocks_lem db wisps (put_all [] (map (λ w. w.spawner_id) s.waits_for_deps))
        d.depends_on_id (waits_for_dep unmarshal_gate d).gate s.needs_closed_children
        (contains-put_all (map (λ w. w.spawner_id) s.waits_for_deps) [] d.depends_on_id
          ∙ any-map (λ x. d.depends_on_id == x) (λ w. w.spawner_id) s.waits_for_deps
          ∙ ap (λ s. any (λ w. d.depends_on_id == w.spawner_id) s.waits_for_deps) e
          ∙ any-scan_deps unmarshal_gate (active_ids db wisps)
              (λ w. d.depends_on_id == w.spawner_id) deps empty_scan
          ∙ any_intro
              (λ x. is_waiting (active_ids db wisps) x && d.depends_on_id == x.depends_on_id) d deps
              m (ground (arith, eq_refl d.depends_on_id)))
        (λ g.
          ap (λ s. s.needs_closed_children) e
          ∙ needs-scan_deps unmarshal_gate (active_ids db wisps) deps empty_scan
          ∙ any_intro
              (λ x.
                is_waiting (active_ids db wisps) x
                && (waits_for_dep unmarshal_gate x).gate == waits_for_any_children)
              d deps m (ground arith))

  -- ComputeBlockedIDsInTx returns exactly the issues that a row of their own blocks: the issue is
  -- active (some row of it is neither closed nor pinned), and the row is of type blocks or
  -- conditional-blocks and its target is active, or it is of type waits-for and a child of its
  -- target is active, where the gate any-children asks also that no child be closed.
  pub compute_blocked_ids-blocks :
      (id : Text)
      → contains (compute_blocked_ids unmarshal_gate db wisps) id
        ≡ some_dep db wisps (blocks unmarshal_gate db wisps id)
  unfolding compute_blocked_ids
  compute_blocked_ids-blocks id =
      let act = active_ids db wisps in
      let deps = all_deps db wisps in
      let s = scan_deps unmarshal_gate act empty_scan deps in
      let rows = load_children db wisps (put_all [] (map (λ w. w.spawner_id) s.waits_for_deps)) in
      let children = put_all [] (map (λ d. d.issue_id) rows) in
      let closed_ids = if s.needs_closed_children then load_closed db wisps children else [] in
      contains-eval_gates act closed_ids rows id s.waits_for_deps s.blocked_set
      ∙ ground (
        arith,
        contains-scan_deps unmarshal_gate act id deps empty_scan,
        any-scan_deps unmarshal_gate act
            (λ w.
              gate_blocks act closed_ids w.gate (spawner_children rows w.spawner_id)
              && id == w.issue_id)
            deps empty_scan,
      )
      ∙ ap (λ b. any (is_direct_blocker act id) deps || b)
          (any_ext_on
            (λ d.
              is_waiting act d
              && (gate_blocks act closed_ids (waits_for_dep unmarshal_gate d).gate
                    (spawner_children rows d.depends_on_id)
                  && id == d.issue_id))
            (λ d.
              is_waiting act d
              && (shut db wisps (waits_for_dep unmarshal_gate d).gate d.depends_on_id
                  && id == d.issue_id))
            deps (λ d m. ground (arith, collected_gate s d refl m)))
      ∙ sym (
          any_or (is_direct_blocker act id)
            (λ d.
              is_waiting act d
              && (shut db wisps (waits_for_dep unmarshal_gate d).gate d.depends_on_id
                  && id == d.issue_id))
            deps)
      ∙ any_ext
          (λ d.
            is_direct_blocker act id d
            || is_waiting act d
              && (shut db wisps (waits_for_dep unmarshal_gate d).gate d.depends_on_id
                  && id == d.issue_id))
          (λ d. (is_direct d || is_waits_for d) && blocks unmarshal_gate db wisps id d)
          (direct_or_waiting id) deps
      ∙ any-all_deps db wisps
          (λ d. (is_direct d || is_waits_for d) && blocks unmarshal_gate db wisps id d)
      ∙ any_ext
          (λ t.
            any
              (λ d.
                (is_direct d || is_waits_for d)
                && ((is_direct d || is_waits_for d) && blocks unmarshal_gate db wisps id d))
              (dep_rows db t))
          (λ t. any (blocks unmarshal_gate db wisps id) (dep_rows db t))
          (λ t.
            any_ext
              (λ d.
                (is_direct d || is_waits_for d)
                && ((is_direct d || is_waits_for d) && blocks unmarshal_gate db wisps id d))
              (blocks unmarshal_gate db wisps id) (λ d. ground arith) (dep_rows db t))
          (dep_tables wisps)
