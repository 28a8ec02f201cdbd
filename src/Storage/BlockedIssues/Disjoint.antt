-- ===== src/Storage/BlockedIssues/Disjoint.antt =====
-- GetReadyWorkInTx of internal/storage/issueops/ready_work.go beside GetBlockedIssuesInTx of blocked.go.
use bd.Prelude.{
  ℕ, ◌≡◌, ◌∙◌, ap, subst, true, false, Option, map, select, In, In-select, In-map_elim, arith,
}
use bd.Prelude.Order.{sort_by, In-sort_by}
use bd.Prelude.Text.{Text}
use bd.Types.Issue.{Issue}
use bd.Storage.Store.{Store}
use bd.Storage.Search.{limited}
use bd.Storage.Ready.{is_ready_row, by_policy, ready_ids}
use bd.Types.Filters.{WorkFilter}
use bd.Storage.Ready.Meaning.{has_blocker, some_parent}
use bd.Storage.Ready.Listed.{is_ready_row_iff, In-limited}
use bd.Storage.BlockedIssues.{get_blocked_issues}
use bd.Storage.BlockedIssues.Results.{listed_id}
use bd.Storage.BlockedIssues.Listed.{get_blocked_issues-HasBlockers}

-- An id that the query of GetReadyWorkInTx gives with the ephemeral issues included is not one that
-- GetBlockedIssuesInTx lists, whatever their other filters are.
pub ready_ids-get_blocked_issues :
    (unmarshal_gate : Text → Option Text) (json_value : Text → Text → Option Text) (st : Store)
    (f h : WorkFilter) (now : ℕ) (id : Text)
    → f.include_ephemeral ≡ true
    → In id (ready_ids unmarshal_gate json_value st f now)
    → ¬ In id (map listed_id (get_blocked_issues unmarshal_gate st.tables h))
unfolding ready_ids
ready_ids-get_blocked_issues unmarshal_gate json_value st f h now id e m n =
    let test = is_ready_row unmarshal_gate json_value st f now in
    let policy = by_policy f.sort_policy now in
    let rows = select test st.tables.issues in
    let (i, o, q) =
      In-map_elim (λ (j : Issue). j.id) id (limited f.limit (sort_by policy rows)) m in
    let row = (In-sort_by policy i rows).0 (In-limited f.limit i (sort_by policy rows) o) in
    let r =
      (is_ready_row_iff unmarshal_gate json_value st f now i).0
        ((In-select test i st.tables.issues).0 row).1 in
    let own : has_blocker unmarshal_gate st.tables true id ≡ false =
      ap (has_blocker unmarshal_gate st.tables true) q
      ∙ subst (λ w. has_blocker unmarshal_gate st.tables w i.id ≡ false) e r.unblocked in
    let parent : some_parent st.tables (has_blocker unmarshal_gate st.tables true) id ≡ false =
      ap (some_parent st.tables (has_blocker unmarshal_gate st.tables true)) q
      ∙ subst (λ w. some_parent st.tables (has_blocker unmarshal_gate st.tables w) i.id ≡ false) e
          r.parent_unblocked in
    let (sorted, distinct, listed, blockers) =
      get_blocked_issues-HasBlockers unmarshal_gate st.tables h in
    ground (arith, ((listed id).0 n).1, own, parent)
