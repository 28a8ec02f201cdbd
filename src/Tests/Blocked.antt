-- ===== src/Tests/Blocked.antt =====
-- Blocked issues on small tables.
use bd.Prelude.{
  ◌≡◌, ◌≢◌, ◌∙◌, refl, sym, ap, inl, inr, true, false, Option, none, some, [], ◌∷◌, arith,
}
use bd.Prelude.Text.{Text, ◌==◌, ne_of_test, contains, trim_space}
use bd.Types.Issue.{Issue}
use bd.Types.Status.{status_closed}
use bd.Types.DependencyType.{dep_blocks, dep_waits_for, dep_parent_child}
use bd.Storage.Tables.{Tables, get_issue, is_active_wisp, wisp_table_routing}
use bd.Storage.Blocked.{compute_blocked_ids, parse_waits_for_gate, put, put_all}
use bd.Storage.Blocked.Checks.{
  is_blocked, is_active, find_status, own_rows, candidates, still_blocked, collect,
  get_newly_unblocked_by_close,
}
use bd.Storage.Blocked.Steps.{compute_blocked_ids-blocks}
use bd.Storage.Blocked.Agreement.{is_blocked-compute_blocked_ids}
use bd.Storage.Blocked.Unblocking.{HasStatuses, get_newly_unblocked_by_close-is_blocked}
use bd.Storage.Lifecycle.Rows.{HasKeys}
use bd.Tests.Samples.{task, a, b, c, dep, tables}

program : Unit {0}
unfolding ◌==◌ is_active_wisp wisp_table_routing get_issue parse_waits_for_gate trim_space is_active
    find_status own_rows put put_all candidates still_blocked collect get_newly_unblocked_by_close
program = tt

-- No metadata names a gate.
abbrev gate_of : Text → Option Text
gate_of s = none

-- `c` waits for the children of `b`, of which `a` is one.
abbrev waiting : Tables
waiting =
    tables (task a ∷ task b ∷ task c ∷ [])
      (dep a c dep_blocks ∷ dep c b dep_waits_for ∷ dep a b dep_parent_child ∷ [])

compute_blocked_ids-blocks_example : contains (compute_blocked_ids gate_of waiting false) c ≡ true
unfolding program
compute_blocked_ids-blocks_example = compute_blocked_ids-blocks gate_of waiting false c

abbrev chained : Tables
chained = tables (task a ∷ task b ∷ []) (dep a b dep_blocks ∷ [])

two_rows : (x y : Issue) → x.id ≢ y.id → HasKeys (x ∷ y ∷ [])
two_rows x y n i j (inl p) (inl q) e = p ∙ sym q
two_rows x y n i j (inl p) (inr (inl q)) e =
    absurd (n (ap (λ z. z.id) (sym p) ∙ e ∙ ap (λ z. z.id) q))
two_rows x y n i j (inr (inl p)) (inl q) e =
    absurd (n (sym (ap (λ z. z.id) (sym p) ∙ e ∙ ap (λ z. z.id) q)))
two_rows x y n i j (inr (inl p)) (inr (inl q)) e = p ∙ sym q
two_rows x y n i j (inl p) (inr (inr m)) e = absurd m
two_rows x y n i j (inr (inl p)) (inr (inr m)) e = absurd m
two_rows x y n i j (inr (inr m)) _ e = absurd m

is_blocked-compute_blocked_ids_example :
    (is_blocked chained a).0 ≡ contains (compute_blocked_ids gate_of chained false) a
unfolding program
is_blocked-compute_blocked_ids_example =
    is_blocked-compute_blocked_ids gate_of chained a refl
      (two_rows (task a) (task b) (ne_of_test a b refl)) refl refl

-- The same with `b` closed.
abbrev released : Tables
released =
    tables (task a ∷ record (task b) { status = status_closed; closed_at = some 9 } ∷ [])
      (dep a b dep_blocks ∷ [])

released-HasStatuses : HasStatuses released
unfolding find_status
released-HasStatuses id = ground arith

get_newly_unblocked_by_close-is_blocked_example :
    (get_issue released a ≡ some (task a))
    × (is_active released a ≡ true)
    × (true ≡ true)
    × ((is_blocked released a).0 ≡ false)
unfolding program
get_newly_unblocked_by_close-is_blocked_example =
    get_newly_unblocked_by_close-is_blocked released b (task a) released-HasStatuses refl refl
      (inl refl)
