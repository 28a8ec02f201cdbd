-- ===== src/Tests/Epics.antt =====
-- An epic with a closed child among the issues and one among the wisps.
use bd.Prelude.{◌≡◌, ◌<◌, ◌↔◌, refl, sym, ap, ◌∙◌, true, false, inl, inr, [], ◌∷◌, length, some, In}
use bd.Prelude.Text.{Text, ◌==◌, ne_of_test}
use bd.Types.Status.{status_closed}
use bd.Types.IssueType.{type_epic}
use bd.Types.DependencyType.{dep_parent_child}
use bd.Types.Issue.{Issue}
use bd.Storage.Tables.{Tables, is_active_wisp, wisp_table_routing, get_issue}
use bd.Storage.Lifecycle.Rows.{HasKeys}
use bd.Storage.Blocked.{batches}
use bd.Storage.Epics.{
  EpicStatus, last_row, rows_in, get_issues_by_ids, epic_ids, epic_children, child_issues,
  is_closed_child, count_closed, epic_result, get_epics_eligible_for_closure,
}
use bd.Storage.Epics.Children.{children_of, is_closed}
use bd.Storage.Epics.Eligible.{get_epics_eligible_for_closure-eligible}
use bd.Tests.Samples.{task, a, b, c, dep, tables}

program : Unit {0}
unfolding ◌==◌ is_active_wisp wisp_table_routing get_issue batches last_row rows_in
    get_issues_by_ids epic_ids epic_children child_issues is_closed_child count_closed epic_result
    get_epics_eligible_for_closure
program = tt

abbrev closed : Text → Issue
closed id = record (task id) { status = status_closed; closed_at = some 12 }

abbrev epic : Issue
epic = record (task a) { issue_type = type_epic }

abbrev db : Tables
db = record (tables (epic ∷ closed b ∷ []) (dep b a dep_parent_child ∷ [])) {
  wisps = closed c ∷ [];
  wisp_dependencies = dep c a dep_parent_child ∷ [];
}

abbrev status : EpicStatus
status = record { epic = epic; total_children = 2; closed_children = 2; eligible_for_close = true }

lists : get_epics_eligible_for_closure db ≡ status ∷ []
unfolding program
lists = refl

different : (a == b) ≡ false
unfolding program
different = refl

apart : ¬ (a ≡ b)
apart = ne_of_test a b different

own : {i j : Issue} → i ≡ j → i.id ≡ j.id
own e = ap (λ (x : Issue). x.id) e

issues_keyed : HasKeys db.issues
issues_keyed i j (inl p) (inl q) e = p ∙ sym q
issues_keyed i j (inl p) (inr (inl q)) e = absurd (apart (sym (own p) ∙ e ∙ own q))
issues_keyed i j (inr (inl p)) (inl q) e = absurd (apart (sym (own q) ∙ sym e ∙ own p))
issues_keyed i j (inr (inl p)) (inr (inl q)) e = p ∙ sym q
issues_keyed i j (inl p) (inr (inr m)) e = absurd m
issues_keyed i j (inr (inl p)) (inr (inr m)) e = absurd m
issues_keyed i j (inr (inr m)) n e = absurd m

wisps_keyed : HasKeys db.wisps
wisps_keyed i j (inl p) (inl q) e = p ∙ sym q
wisps_keyed i j (inl p) (inr m) e = absurd m
wisps_keyed i j (inr m) n e = absurd m

get_epics_eligible_for_closure-eligible_example :
    ((s : EpicStatus)
      → In s (get_epics_eligible_for_closure db)
      → (s.eligible_for_close ≡ true)
        ↔ ((x : Text) → In x (children_of db s.epic.id) → is_closed db x ≡ true))
    × ((i : Issue)
        → In i db.issues
        → (i.issue_type == type_epic) ≡ true
        → (i.status == status_closed) ≡ false
        → 0 < length (children_of db i.id)
        → (s : EpicStatus) × In s (get_epics_eligible_for_closure db) × (s.epic.id ≡ i.id))
get_epics_eligible_for_closure-eligible_example =
    get_epics_eligible_for_closure-eligible db issues_keyed wisps_keyed
