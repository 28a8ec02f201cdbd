-- ===== src/Storage/MergeSlot/Held.antt =====
-- internal/storage/merge_slot.go: what an update leaves in the slot, and the slot as a lock that somebody holds.
use bd.Prelude.{ℕ, ◌≡◌, ◌∙◌, refl, sym, ap, subst, Bool, true, false, Option, none, some, [], arith}
use bd.Prelude.Text.{Text, ◌==◌}
use bd.Types.Issue.{Issue}
use bd.Types.Status.{Status, status_open, status_in_progress}
use bd.Storage.Tables.{Tables, get_issue}
use bd.Storage.Lifecycle.{
  Updates, update_issue, metadata, apply_updates, manage_closed_at, set_pinned, set_closed_at,
  set_status, set_fields, set_field,
}
use bd.Storage.Lifecycle
use bd.Storage.Lifecycle.After.{update_issue-after, get_issue-after}
use bd.Storage.Lifecycle.Stamps.{apply_updates-id, apply_updates-status, status_after}
use bd.Storage.Lifecycle.Rows.{get_issue-id}
use bd.Storage.MergeSlot.{
  SlotMeta, SlotResult, Result, ok, err, update_failed, parse_slot_meta, slot_updates, update_slot,
  add_waiter, wait_for_slot, take_slot, with_result,
}

manage_closed_at-metadata :
    (old : Issue) (u : Updates) (now : ℕ) (i : Issue)
    → (manage_closed_at old u now i).metadata ≡ i.metadata
unfolding manage_closed_at
manage_closed_at-metadata old u now i = ground arith

set_pinned-metadata :
    (old : Issue) (u : Updates) (i : Issue) → (set_pinned old u i).metadata ≡ i.metadata
unfolding set_pinned
set_pinned-metadata old u i = ground arith

set_status-metadata :
    (status : Option Status) (i : Issue) → (set_status status i).metadata ≡ i.metadata
unfolding set_status
set_status-metadata none i = refl
set_status-metadata (some s) i = refl

-- What the program relies on of encoding/json.
pub record IsJson (unmarshal : Text → SlotMeta) (marshal : SlotMeta → Text) : Type 0 where
  pub round_trip : (m : SlotMeta) → unmarshal (marshal m) ≡ m
  pub not_empty : (m : SlotMeta) → (marshal m == []) ≡ false

update-ok :
    (r : Lifecycle.Result Tables) (db' : Tables)
    → (elim r [ Lifecycle.ok d ↦ ok d | Lifecycle.err e ↦ err (update_failed e) ]) ≡ ok db'
    → r ≡ Lifecycle.ok db'
update-ok (Lifecycle.ok d) db' h = cc
update-ok (Lifecycle.err e) db' h = cc

with_result-ok :
    (u : Result Tables) (x : SlotResult) (db' : Tables) (r : SlotResult)
    → with_result u x ≡ ok (db', r)
    → (u ≡ ok db') × (x ≡ r)
unfolding with_result
with_result-ok (ok d) x db' r h = (ground arith, ground arith)
with_result-ok (err e) x db' r h = cc

module _ (unmarshal : Text → SlotMeta) (marshal : SlotMeta → Text) (json_valid : Text → Bool)
    (marshal_issue : Issue → Text) (marshal_updates : Updates → Text) where
  apply_slot_updates :
      (old : Issue) (status : Option Status) (m : SlotMeta) (now : ℕ)
      → (apply_updates old
          (slot_updates unmarshal marshal json_valid marshal_issue marshal_updates status m)
          now
          old).metadata
        ≡ marshal m
  unfolding apply_updates set_closed_at set_fields set_field
  apply_slot_updates old status m now =
      let u = slot_updates unmarshal marshal json_valid marshal_issue marshal_updates status m in
      let i = record old { updated_at = now; metadata = marshal m } in
      manage_closed_at-metadata old u now (set_pinned old u (set_status status i))
      ∙ set_pinned-metadata old u (set_status status i)
      ∙ set_status-metadata status i

  -- What an update of the slot leaves in the slot.
  pub update_slot-after :
      (db : Tables) (id : Text) (slot : Issue) (status : Option Status) (m : SlotMeta)
      (actor : Text) (now : ℕ) (db' : Tables)
      → get_issue db id ≡ some slot
      → update_slot unmarshal marshal json_valid marshal_issue marshal_updates db id status m actor
          now
        ≡ ok db'
      → (new : Issue) × (get_issue db' id ≡ some new)
        × (new.metadata ≡ marshal m)
        × (new.status ≡ status_after status slot.status)
  unfolding update_slot
  update_slot-after db id slot status m actor now db' found h =
      let u = slot_updates unmarshal marshal json_valid marshal_issue marshal_updates status m in
      let r = update_issue json_valid marshal_issue marshal_updates db id u actor now in
      let (old, found', e, same) =
        update_issue-after json_valid marshal_issue marshal_updates db id u actor now
          (update-ok r db' h) in
      let q : old ≡ slot = ground arith in
      (
        apply_updates old u now old,
        ap (λ d. get_issue d id) same
            ∙ get_issue-after db id old (apply_updates old u now) e (apply_updates-id old u now)
                found',
        apply_slot_updates old status m now,
        apply_updates-status old u now ∙ ap (λ x. status_after status x.status) q,
      )

  abbrev pub meta : Issue → SlotMeta
  meta = parse_slot_meta unmarshal marshal json_valid marshal_issue marshal_updates

  pub meta-marshal :
      (i : Issue) (m : SlotMeta) → IsJson unmarshal marshal → i.metadata ≡ marshal m → meta i ≡ m
  unfolding parse_slot_meta
  meta-marshal i m json h = ground (arith, json.round_trip m, json.not_empty m)

  -- The slot is not open, and its metadata name the holder.
  pub record IsHeld (db : Tables) (slot_id holder : Text) : Type 0 where
    pub slot : Issue
    pub found : get_issue db slot_id ≡ some slot
    pub taken : (slot.status == status_open) ≡ false
    pub named : (meta slot).holder ≡ holder

  update_slot-IsHeld :
      (db : Tables) (slot_id id : Text) (slot : Issue) (m : SlotMeta) (actor : Text) (now : ℕ)
      (status : Option Status) (db' : Tables)
      → IsJson unmarshal marshal
      → get_issue db slot_id ≡ some slot
      → id ≡ slot.id
      → (status_after status slot.status == status_open) ≡ false
      → update_slot unmarshal marshal json_valid marshal_issue marshal_updates db id status m actor
          now
        ≡ ok db'
      → IsHeld db' slot_id m.holder
  update_slot-IsHeld db slot_id id slot m actor now status db' json found e t h =
      let same : id ≡ slot_id = e ∙ get_issue-id db slot_id slot found in
      let (new, f, g, s) = update_slot-after db slot_id slot status m actor now db' found (
        subst
          (λ x.
            update_slot unmarshal marshal json_valid marshal_issue marshal_updates db x status m
              actor now
            ≡ ok db')
          same h) in
      record {
        slot = new;
        found = f;
        taken = subst (λ x. (x == status_open) ≡ false) (sym s) t;
        named = ap (λ x. x.holder) (meta-marshal new m json g);
      }

  pub take_slot-IsHeld :
      (db : Tables) (slot_id holder actor : Text) (slot : Issue) (now : ℕ) (db' : Tables)
      (r : SlotResult)
      → IsJson unmarshal marshal
      → get_issue db slot_id ≡ some slot
      → take_slot unmarshal marshal json_valid marshal_issue marshal_updates db slot holder actor
          now slot_id
        ≡ ok (db', r)
      → IsHeld db' slot_id holder × (r.holder ≡ holder) × (r.acquired ≡ true)
  unfolding take_slot ◌==◌
  take_slot-IsHeld db slot_id holder actor slot now db' r json found h =
      let (u, e) = with_result-ok _ _ db' r h in
      (
        update_slot-IsHeld db slot_id slot.id slot
            record { holder = holder; waiters = (meta slot).waiters } actor now
            (some status_in_progress) db' json found refl refl u,
        ap (λ x. x.holder) (sym e),
        ap (λ x. x.acquired) (sym e),
      )

  pub wait_for_slot-IsHeld :
      (db : Tables) (slot_id other actor : Text) (slot : Issue) (wait : Bool) (now : ℕ)
      (db' : Tables) (r : SlotResult)
      → IsJson unmarshal marshal
      → get_issue db slot_id ≡ some slot
      → (slot.status == status_open) ≡ false
      → wait_for_slot unmarshal marshal json_valid marshal_issue marshal_updates db slot other actor
          wait now slot_id
        ≡ ok (db', r)
      → IsHeld db' slot_id (meta slot).holder
        × (r.holder ≡ (meta slot).holder)
        × (r.acquired ≡ false)
  unfolding wait_for_slot with_result
  wait_for_slot-IsHeld db slot_id other actor slot true now db' r json found t h =
      let (u, e) = with_result-ok _ _ db' r h in
      (
        subst (IsHeld db' slot_id) (ground arith) (
            update_slot-IsHeld db slot_id slot.id slot
              (add_waiter unmarshal marshal json_valid marshal_issue marshal_updates other
                (meta slot))
              actor now none db' json found refl t u),
        ap (λ x. x.holder) (sym e),
        ap (λ x. x.acquired) (sym e),
      )
  wait_for_slot-IsHeld db slot_id other actor slot false now db' r json found t h =
      let (u, e) = with_result-ok (ok db) _ db' r h in
      let same : db ≡ db' = ground arith in
      (
        subst (λ d. IsHeld d slot_id (meta slot).holder) same
            record { slot = slot; found = found; taken = t; named = refl },
        ap (λ x. x.holder) (sym e),
        ap (λ x. x.acquired) (sym e),
      )
