-- ===== src/Storage/Lifecycle/Stamps.antt =====
-- The closed_at invariant of an issue: the timestamp is there exactly while the status is "closed".
-- What keeps it for one row is proved first, then for the tables.
use bd.Prelude.{ℕ, ◌≡◌, ◌∙◌, refl, Option, List, [], ◌∷◌, none, some, arith}
use bd.Prelude.Text.{◌==◌}
use bd.Types.Status.{Status, status_closed}
use bd.Types.Issue.{Issue, is_set}
use bd.Storage.Lifecycle.{
  FieldUpdate, priority, Updates, set_field, set_fields, set_status, set_closed_at, set_pinned,
  manage_closed_at, apply_updates,
}

abbrev pub IsStamped : Issue → Type 0
IsStamped i = (i.status == status_closed) ≡ is_set i.closed_at

-- What the other updates leave alone.
record Keeps (i j : Issue) : Type 0 where
  same_id : j.id ≡ i.id
  same_status : j.status ≡ i.status
  same_closed_at : j.closed_at ≡ i.closed_at

set_field-Keeps : (u : FieldUpdate) (i : Issue) → Keeps i (set_field u i)
unfolding set_field
set_field-Keeps (priority n) i = record {
  same_id = refl;
  same_status = refl;
  same_closed_at = refl;
}
set_field-Keeps _ i = record { same_id = refl; same_status = refl; same_closed_at = refl }

set_fields-Keeps : (us : List FieldUpdate) (i : Issue) → Keeps i (set_fields us i)
unfolding set_fields
set_fields-Keeps [] i = record { same_id = refl; same_status = refl; same_closed_at = refl }
set_fields-Keeps (u ∷ us) i =
    let first = set_field-Keeps u i in
    let rest = set_fields-Keeps us (set_field u i) in
    record {
      same_id = rest.same_id ∙ first.same_id;
      same_status = rest.same_status ∙ first.same_status;
      same_closed_at = rest.same_closed_at ∙ first.same_closed_at;
    }

set_pinned-Keeps : (old : Issue) (u : Updates) (i : Issue) → Keeps i (set_pinned old u i)
unfolding set_pinned
set_pinned-Keeps old u i = record {
  same_id = ground arith;
  same_status = ground arith;
  same_closed_at = ground arith;
}

abbrev pub status_after : Option Status → Status → Status
status_after none s = s
status_after (some t) s = t

-- The row that reaches ManageClosedAt, where the updates do not name closed_at.
record Assigned (u : Updates) (i j : Issue) : Type 0 where
  assigned_id : j.id ≡ i.id
  assigned_status : j.status ≡ status_after u.status i.status
  assigned_closed_at : u.closed_at ≡ none → j.closed_at ≡ i.closed_at

set_status-Assigned :
    (u : Updates) (i j : Issue)
    → Keeps i j
    → Assigned u i (set_closed_at u.closed_at (set_status u.status j))
unfolding set_status set_closed_at
set_status-Assigned u i j k = record {
  assigned_id = ground (arith, k.same_id);
  assigned_status = ground (arith, k.same_status);
  assigned_closed_at = λ h. ground (arith, k.same_closed_at);
}

-- The row before the clauses of ManageClosedAt.
abbrev assigned : Issue → Updates → ℕ → Issue → Issue
assigned old u now i = set_pinned old u (
    set_closed_at u.closed_at
      (set_status u.status (set_fields u.fields (record i { updated_at = now }))))

assigned-Assigned :
    (old : Issue) (u : Updates) (now : ℕ) (i : Issue) → Assigned u i (assigned old u now i)
assigned-Assigned old u now i =
    let j = set_fields u.fields (record i { updated_at = now }) in
    let b = set_closed_at u.closed_at (set_status u.status j) in
    let k = set_fields-Keeps u.fields (record i { updated_at = now }) in
    let a = set_status-Assigned u i j (record {
      same_id = k.same_id;
      same_status = k.same_status;
      same_closed_at = k.same_closed_at;
    }) in
    let p = set_pinned-Keeps old u b in
    record {
      assigned_id = p.same_id ∙ a.assigned_id;
      assigned_status = p.same_status ∙ a.assigned_status;
      assigned_closed_at = λ h. p.same_closed_at ∙ a.assigned_closed_at h;
    }

manage_closed_at-id :
    (old : Issue) (u : Updates) (now : ℕ) (j : Issue) → (manage_closed_at old u now j).id ≡ j.id
unfolding manage_closed_at
manage_closed_at-id old u now j = ground arith

manage_closed_at-IsStamped :
    (old : Issue) (u : Updates) (now : ℕ) (j : Issue)
    → u.closed_at ≡ none
    → Assigned u old j
    → IsStamped old
    → IsStamped (manage_closed_at old u now j)
unfolding manage_closed_at
manage_closed_at-IsStamped old u now j h a s =
    ground (arith, a.assigned_status, a.assigned_closed_at h)

pub apply_updates-id :
    (old : Issue) (u : Updates) (now : ℕ) (i : Issue) → (apply_updates old u now i).id ≡ i.id
unfolding apply_updates
apply_updates-id old u now i =
    manage_closed_at-id old u now (assigned old u now i)
    ∙ (assigned-Assigned old u now i).assigned_id

-- An update that does not set closed_at itself keeps the invariant.
pub apply_updates-IsStamped :
    (old : Issue) (u : Updates) (now : ℕ)
    → u.closed_at ≡ none
    → IsStamped old
    → IsStamped (apply_updates old u now old)
unfolding apply_updates
apply_updates-IsStamped old u now h s =
    manage_closed_at-IsStamped old u now (assigned old u now old) h
      (assigned-Assigned old u now old) s

-- An update that sets the status gives the row that status.
pub apply_updates-status :
    (old : Issue) (u : Updates) (now : ℕ)
    → (apply_updates old u now old).status ≡ status_after u.status old.status
unfolding apply_updates manage_closed_at
apply_updates-status old u now = ground (arith, (assigned-Assigned old u now old).assigned_status)
