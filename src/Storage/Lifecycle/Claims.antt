-- ===== src/Storage/Lifecycle/Claims.antt =====
-- internal/storage/issueops/claim.go: the outcomes of a claim.
use bd.Prelude.{
  none, ℕ, ◌≡◌, ◌≢◌, ◌∙◌, refl, sym, subst, ap, Bool, true, false, ◌&&◌, Bool-cases, inl, inr, [],
  some, any, any_elim, any_intro, and-eq-true, arith,
}
use bd.Prelude.Text.{Text, codes, ◌==◌, eq_iff, ne_of_test}
use bd.Types.Status.{status_closed}
use bd.Types.Issue.{Issue}
use bd.Storage.Tables.{Tables, EventRow, is_active_wisp, wisp_table_routing, issue_rows, get_issue}
use bd.Storage.Lifecycle.{Updates, Result, ok, err, already_claimed}
use bd.Storage.Lifecycle.Claiming.{claimed, claim_updates, claim_issue}
use bd.Storage.Lifecycle.Rows.{select_issue_found}
use bd.Storage.Lifecycle.After.{after, claim_issue-after, get_issue-after}
use bd.Storage.Lifecycle.Stamps.{IsStamped}
use bd.Storage.Lifecycle.Consistent.{
  IsConsistent, get_issue_only, claimed-id, claim_issue-IsConsistent, in_progress-ne-closed,
}

module _ (db : Tables) (id : Text) (old : Issue) (c : IsConsistent db)
    (found : get_issue db id ≡ some old) where
  -- The test of the conditional UPDATE sees the one row of the id.
  free_row :
      (t : Text)
      → old.assignee ≡ t
      → (t == []) ≡ false
      → any
          (λ i. i.id == id && i.assignee == [])
          (issue_rows db (wisp_table_routing (is_active_wisp db id)).issue_table)
        ≡ false
  free_row t e taken =
      elim (Bool-cases (
        any (λ i. i.id == id && i.assignee == [])
          (issue_rows db (wisp_table_routing (is_active_wisp db id)).issue_table))) [
            | inl some_free ↦
                let (i, m, q) =
                  any_elim (λ i. i.id == id && i.assignee == [])
                    (issue_rows db (wisp_table_routing (is_active_wisp db id)).issue_table)
                    some_free in
                let (same, free) = and-eq-true (i.id == id) (i.assignee == []) q in
                let only = get_issue_only db id old c found i m ((eq_iff i.id id).0 same) in
                cc (
                  sym taken
                  ∙ ap (λ s. s == []) (sym e ∙ ap (λ (x : Issue). x.assignee) (sym only))
                  ∙ free)
            | inr none_free ↦ none_free
          ]

claimed_closed :
    (actor : Text) (now : ℕ) (old : Issue)
    → IsStamped old
    → old.status ≡ status_closed
    → old.assignee ≡ []
    → ¬ IsStamped (claimed actor now old)
claimed_closed actor now old s closed free bad =
    ground (arith, in_progress-ne-closed, eq_iff old.status status_closed, eq_iff old.assignee [])

ok_inj : (a b : Tables) → Result.ok a ≡ ok b → a ≡ b
ok_inj a b h = ground arith

module _ (json_valid : Text → Bool) (marshal_issue : Issue → Text)
    (marshal_updates : Updates → Text) (db : Tables) (id actor : Text) (now : ℕ) where
  -- A claim of an issue that somebody else holds is refused, and the refusal names the holder.
  pub claim_issue_held :
      (old : Issue)
      → IsConsistent db
      → get_issue db id ≡ some old
      → old.assignee ≢ []
      → old.assignee ≢ actor
      → claim_issue json_valid marshal_issue marshal_updates db id actor now
        ≡ err (already_claimed old.assignee)
  unfolding claim_issue
  claim_issue_held old c found held other =
      let taken : (old.assignee == []) ≡ false = ground (arith, eq_iff old.assignee []) in
      ground (arith, free_row db id old c found old.assignee refl taken, eq_iff old.assignee actor)

  -- In consistent tables, a claim by the one who the issue is assigned to succeeds and changes
  -- nothing.
  pub claim_issue_retry :
      (old : Issue)
      → IsConsistent db
      → get_issue db id ≡ some old
      → old.assignee ≢ []
      → old.assignee ≡ actor
      → claim_issue json_valid marshal_issue marshal_updates db id actor now ≡ ok db
  unfolding claim_issue
  claim_issue_retry old c found held mine =
      let taken : (old.assignee == []) ≡ false = ground (arith, eq_iff old.assignee []) in
      ground (arith, free_row db id old c found old.assignee refl taken, eq_iff old.assignee actor)

  -- After a successful claim the issue is assigned to the claimant.
  pub claim_issue_assigned :
      (old : Issue) {db' : Tables}
      → IsConsistent db
      → get_issue db id ≡ some old
      → actor ≢ []
      → claim_issue json_valid marshal_issue marshal_updates db id actor now ≡ ok db'
      → (i : Issue) × (get_issue db' id ≡ some i) × (i.assignee ≡ actor)
  claim_issue_assigned old {db'} c found named h = elim (Bool-cases (old.assignee == [])) [
    | inl free ↦
        elim (claim_issue-after json_valid marshal_issue marshal_updates db id actor now old found
          h) [
            | inl (same, mine) ↦
                (old, subst (λ x. get_issue x id ≡ some old) (sym same) found, mine)
            | inr (e, same) ↦ (
              claimed actor now old,
              subst (λ x. get_issue x id ≡ some (claimed actor now old)) (sym same)
                  (get_issue-after db id old (claimed actor now) e (claimed-id actor now) found),
              simp free,
            )
          ]
    | inr held ↦ elim (Bool-cases (old.assignee == actor)) [
      | inl mine ↦ (
        old,
        subst (λ x. get_issue x id ≡ some old)
            (ok_inj db db' (
              sym (
                claim_issue_retry old c found (ne_of_test old.assignee [] held)
                  ((eq_iff old.assignee actor).0 mine))
              ∙ h))
            found,
        (eq_iff old.assignee actor).0 mine,
      )
      | inr other ↦ cc (
        claim_issue_held old c found (ne_of_test old.assignee [] held)
            (ne_of_test old.assignee actor other),
        h,
      )
    ]
  ]

  -- A claim of a closed and stamped issue that is assigned to nobody succeeds, and the issue that it
  -- leaves breaks the rule that closed_at is set exactly where the status is "closed".
  pub claim_issue_closed :
      (old : Issue)
      → get_issue db id ≡ some old
      → IsStamped old
      → old.status ≡ status_closed
      → old.assignee ≡ []
      → (db' : Tables) × (claim_issue json_valid marshal_issue marshal_updates db id actor now
          ≡ ok db')
        × (i : Issue) × (get_issue db' id ≡ some i)
        × ¬ IsStamped i
  claim_issue_closed old found s closed free =
      let table = (wisp_table_routing (is_active_wisp db id)).issue_table in
      let routing = wisp_table_routing (is_active_wisp db id) in
      let (m, same_id) =
        select_issue_found (issue_rows db table) id old (unfold get_issue in found) in
      let hit : any (λ i. i.id == id && i.assignee == []) (issue_rows db table) ≡ true =
        any_intro (λ i. i.id == id && i.assignee == []) old (issue_rows db table) m
          (ground (arith, eq_iff old.id id, eq_iff old.assignee [])) in
      let e : EventRow = record {
        issue_id = id;
        event_type = codes "claimed";
        actor = actor;
        old_value = marshal_issue old;
        new_value = marshal_updates (claim_updates actor);
        comment = none;
      } in
      (
        after db id (claimed actor now) e,
        unfold claim_issue in ground arith,
        claimed actor now old,
        get_issue-after db id old (claimed actor now) e (claimed-id actor now) found,
        claimed_closed actor now old s closed free,
      )

-- In consistent tables, after a successful claim of an issue that is not closed by an actor with a
-- name, the claim of any other actor is refused, and the refusal names the first.
pub claim_issue_exclusive :
    (json_valid : Text → Bool) (marshal_issue : Issue → Text) (marshal_updates : Updates → Text)
    (db : Tables) (id actor rival : Text) (now later : ℕ) (old : Issue) {db' : Tables}
    → IsConsistent db
    → get_issue db id ≡ some old
    → (old.status == status_closed) ≡ false
    → actor ≢ []
    → actor ≢ rival
    → claim_issue json_valid marshal_issue marshal_updates db id actor now ≡ ok db'
    → claim_issue json_valid marshal_issue marshal_updates db' id rival later
      ≡ err (already_claimed actor)
claim_issue_exclusive jv mi mu db id actor rival now later old {db'} c found alive named other h =
    let (i, found', mine) = claim_issue_assigned jv mi mu db id actor now old c found named h in
    let c' = claim_issue-IsConsistent jv mi mu db id actor now old found alive c h in
    claim_issue_held jv mi mu db' id rival later i c' found' (λ e. named (sym mine ∙ e))
      (λ e. other (sym mine ∙ e))
    ∙ ap (λ t. err (already_claimed t)) mine
