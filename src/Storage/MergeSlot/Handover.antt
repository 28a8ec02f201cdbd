-- ===== src/Storage/MergeSlot/Handover.antt =====
-- internal/storage/merge_slot.go: how the slot passes from one holder to the next.
use bd.Prelude.{
  ℕ, ◌≡◌, ◌≢◌, ◌⊎◌, refl, sym, subst, Bool, true, false, Option, some, [], inl, inr, arith,
}
use bd.Prelude.Text.{Text, ◌==◌, eq_iff, eq_refl}
use bd.Types.Issue.{Issue}
use bd.Types.Status.{Status, status_open, status_in_progress}
use bd.Storage.Tables.{Tables, get_issue}
use bd.Storage.Lifecycle
use bd.Storage.Lifecycle.{
  Updates, update_issue, check_fields, check_metadata, is_allowed_update_field,
}
use bd.Storage.Lifecycle.Rows.{get_issue-id}
use bd.Storage.MergeSlot.{
  SlotMeta, SlotResult, ok, update_slot, slot_updates, take_slot, with_result, merge_slot_acquire,
  merge_slot_release,
}
use bd.Storage.MergeSlot.Exclusive.{merge_slot_acquire-IsHeld}
use bd.Storage.MergeSlot.Held.{IsJson, IsHeld, meta, update_slot-after}

Result-cases :
    {A : Type 0} (r : Lifecycle.Result A)
    → ((a : A) × (r ≡ Lifecycle.ok a)) ⊎ ((e : Lifecycle.LifecycleError) × (r ≡ Lifecycle.err e))
Result-cases (Lifecycle.ok a) = inl (a, refl)
Result-cases (Lifecycle.err e) = inr (e, refl)

module _ (unmarshal : Text → SlotMeta) (marshal : SlotMeta → Text) (json_valid : Text → Bool)
    (marshal_issue : Issue → Text) (marshal_updates : Updates → Text) where
  pub update_slot-succeeds :
      (db : Tables) (id : Text) (slot : Issue) (status : Option Status) (m : SlotMeta)
      (actor : Text) (now : ℕ)
      → get_issue db id ≡ some slot
      → json_valid (marshal m) ≡ true
      → (db' : Tables) × (update_slot unmarshal marshal json_valid marshal_issue marshal_updates db
            id status m actor now
          ≡ ok db')
  unfolding update_slot update_issue check_fields check_metadata is_allowed_update_field
  update_slot-succeeds db id slot status m actor now found valid =
      elim (Result-cases (
        update_issue json_valid marshal_issue marshal_updates db id
          (slot_updates unmarshal marshal json_valid marshal_issue marshal_updates status m) actor
          now)) [ inl (d, e) ↦ (d, ground (arith, e)) | inr (x, e) ↦ ground arith ]

  take_slot-succeeds :
      (db : Tables) (slot_id holder actor : Text) (slot : Issue) (now : ℕ)
      → ((m : SlotMeta) → json_valid (marshal m) ≡ true)
      → get_issue db slot_id ≡ some slot
      → (slot.status == status_open) ≡ true
      → holder ≢ []
      → (db' : Tables) × (r : SlotResult) × (merge_slot_acquire unmarshal marshal json_valid
            marshal_issue marshal_updates db slot_id holder actor false now
          ≡ ok (db', r))
        × (r.acquired ≡ true)
  unfolding merge_slot_acquire take_slot with_result
  take_slot-succeeds db slot_id holder actor slot now valid found free named =
      let m : SlotMeta = record {
        holder = holder;
        waiters = (meta unmarshal marshal json_valid marshal_issue marshal_updates slot).waiters;
      } in
      let same = get_issue-id db slot_id slot found in
      let (db', h) =
        update_slot-succeeds db slot.id slot (some status_in_progress) m actor now
          (subst (λ x. get_issue db x ≡ some slot) (sym same) found) (valid m) in
      let r : SlotResult = record {
        slot_id = slot_id;
        acquired = true;
        waiting = false;
        holder = holder;
        position = 0;
      } in
      (db', r, ground (arith, h, found, free, eq_iff holder []), refl)

  release-succeeds :
      (db : Tables) (slot_id holder actor : Text) (now : ℕ)
      → IsJson unmarshal marshal
      → ((m : SlotMeta) → json_valid (marshal m) ≡ true)
      → IsHeld unmarshal marshal json_valid marshal_issue marshal_updates db slot_id holder
      → (db' : Tables) × (merge_slot_release unmarshal marshal json_valid marshal_issue
            marshal_updates db slot_id holder actor now
          ≡ ok db')
        × (slot : Issue) × (get_issue db' slot_id ≡ some slot)
        × ((slot.status == status_open) ≡ true)
  unfolding merge_slot_release
  release-succeeds db slot_id holder actor now json valid k =
      let m : SlotMeta = record {
        holder = [];
        waiters = (meta unmarshal marshal json_valid marshal_issue marshal_updates k.slot).waiters;
      } in
      let same = get_issue-id db slot_id k.slot k.found in
      let (db', h) =
        update_slot-succeeds db slot_id k.slot (some status_open) m actor now k.found (valid m) in
      let (new, f, g, s) =
        update_slot-after unmarshal marshal json_valid marshal_issue marshal_updates db slot_id
          k.slot (some status_open) m actor now db' k.found h in
      let h' =
        subst
          (λ x.
            update_slot unmarshal marshal json_valid marshal_issue marshal_updates db x
              (some status_open) m actor now
            ≡ ok db')
          (sym same) h in
      (
        db',
        ground (arith, h', k.found, k.taken, k.named, eq_refl holder),
        new,
        f,
        subst (λ x. (x == status_open) ≡ true) (sym s) (eq_refl status_open),
      )

  -- If the encoding of the metadata is JSON that reads back: a release of the held slot by its holder
  -- succeeds, and in the tables that it leaves an acquisition by anyone with a name succeeds and
  -- leaves the slot held by that one.
  pub merge_slot_acquire-release :
      (db : Tables) (slot_id holder next actor : Text) (now later : ℕ)
      → IsJson unmarshal marshal
      → ((m : SlotMeta) → json_valid (marshal m) ≡ true)
      → IsHeld unmarshal marshal json_valid marshal_issue marshal_updates db slot_id holder
      → next ≢ []
      → (db' : Tables) × (db'' : Tables) × (r : SlotResult) × (merge_slot_release unmarshal marshal
            json_valid marshal_issue marshal_updates db slot_id holder actor now
          ≡ ok db')
        × (merge_slot_acquire unmarshal marshal json_valid marshal_issue marshal_updates db' slot_id
              next actor false later
            ≡ ok (db'', r))
        × (r.acquired ≡ true)
        × IsHeld unmarshal marshal json_valid marshal_issue marshal_updates db'' slot_id next
  merge_slot_acquire-release db slot_id holder next actor now later json valid k named =
      let (db', h, slot, f, free) = release-succeeds db slot_id holder actor now json valid k in
      let (db'', r, a, t) =
        take_slot-succeeds db' slot_id next actor slot later valid f free named in
      let (j, q) =
        merge_slot_acquire-IsHeld unmarshal marshal json_valid marshal_issue marshal_updates db'
          slot_id next actor false later db'' r json a t in
      (db', db'', r, h, a, t, j)
