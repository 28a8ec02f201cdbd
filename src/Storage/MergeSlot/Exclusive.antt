-- ===== src/Storage/MergeSlot/Exclusive.antt =====
-- internal/storage/merge_slot.go: while the slot is held, nobody else acquires or releases it.
use bd.Prelude.{
  ℕ, ◌≡◌, ◌≢◌, ◌∙◌, subst, Bool, true, false, Bool-cases, some, Option-cases, inl, inr, [], arith,
}
use bd.Prelude.Text.{Text, ◌==◌, eq_iff, eq_refl}
use bd.Types.Issue.{Issue}
use bd.Types.Status.{status_open}
use bd.Storage.Tables.{Tables, get_issue}
use bd.Storage.Lifecycle.{Updates}
use bd.Storage.Lifecycle.Rows.{get_issue-id}
use bd.Storage.MergeSlot.{
  SlotMeta, SlotResult, ok, err, held_by_other, update_slot, merge_slot_acquire, merge_slot_release,
}
use bd.Storage.MergeSlot.Held.{
  IsJson, update_slot-after, meta, meta-marshal, IsHeld, take_slot-IsHeld, wait_for_slot-IsHeld,
}

module _ (unmarshal : Text → SlotMeta) (marshal : SlotMeta → Text) (json_valid : Text → Bool)
    (marshal_issue : Issue → Text) (marshal_updates : Updates → Text) where
  -- If the encoding of the metadata reads back, an acquisition that reports success leaves the slot
  -- held by the one who asked, and reports that one as the holder.
  pub merge_slot_acquire-IsHeld :
      (db : Tables) (slot_id holder actor : Text) (wait : Bool) (now : ℕ) (db' : Tables)
      (r : SlotResult)
      → IsJson unmarshal marshal
      → merge_slot_acquire unmarshal marshal json_valid marshal_issue marshal_updates db slot_id
          holder actor wait now
        ≡ ok (db', r)
      → r.acquired ≡ true
      → IsHeld unmarshal marshal json_valid marshal_issue marshal_updates db' slot_id holder
        × (r.holder ≡ holder)
  unfolding merge_slot_acquire
  merge_slot_acquire-IsHeld db slot_id holder actor wait now db' r json h a =
      elim (Bool-cases (holder == [])) [
        | inl e ↦ ground arith
        | inr e ↦ elim (Option-cases (get_issue db slot_id)) [
          | inl g ↦ ground arith
          | inr (slot, g) ↦ elim (Bool-cases (slot.status == status_open)) [
            | inl o ↦
                let (k, q, t) =
                  take_slot-IsHeld unmarshal marshal json_valid marshal_issue marshal_updates db
                    slot_id holder actor slot now db' r json g (ground arith) in
                (k, q)
            | inr o ↦
                let (k, q, t) =
                  wait_for_slot-IsHeld unmarshal marshal json_valid marshal_issue marshal_updates db
                    slot_id holder actor slot wait now db' r json g o (ground arith) in
                ground arith
          ]
        ]
      ]

  -- If the encoding of the metadata reads back: while the slot is held, an acquisition that returns a
  -- result does not report success, reports the holder, and leaves the slot held by the same.
  pub merge_slot_acquire-excluded :
      (db : Tables) (slot_id holder other actor : Text) (wait : Bool) (now : ℕ) (db' : Tables)
      (r : SlotResult)
      → IsJson unmarshal marshal
      → IsHeld unmarshal marshal json_valid marshal_issue marshal_updates db slot_id holder
      → merge_slot_acquire unmarshal marshal json_valid marshal_issue marshal_updates db slot_id
          other actor wait now
        ≡ ok (db', r)
      → (r.acquired ≡ false)
        × (r.holder ≡ holder)
        × IsHeld unmarshal marshal json_valid marshal_issue marshal_updates db' slot_id holder
  unfolding merge_slot_acquire
  merge_slot_acquire-excluded db slot_id holder other actor wait now db' r json k h =
      elim (Bool-cases (other == [])) [
        | inl e ↦ ground arith
        | inr e ↦
            let (j, q, t) =
              wait_for_slot-IsHeld unmarshal marshal json_valid marshal_issue marshal_updates db
                slot_id other actor k.slot wait now db' r json k.found k.taken
                (ground (arith, k.found, k.taken)) in
            (
              t,
              q ∙ k.named,
              subst (IsHeld unmarshal marshal json_valid marshal_issue marshal_updates db' slot_id)
                  k.named j,
            )
      ]

  -- If the encoding of the metadata reads back: after a successful release of a held slot by its
  -- holder, not the empty one, a second release by the same holder fails as one by another.
  pub merge_slot_release_twice :
      (db : Tables) (slot_id holder actor : Text) (now : ℕ) (db' : Tables)
      → IsJson unmarshal marshal
      → IsHeld unmarshal marshal json_valid marshal_issue marshal_updates db slot_id holder
      → holder ≢ []
      → merge_slot_release unmarshal marshal json_valid marshal_issue marshal_updates db slot_id
          holder actor now
        ≡ ok db'
      → merge_slot_release unmarshal marshal json_valid marshal_issue marshal_updates db' slot_id
          holder actor now
        ≡ err held_by_other
  unfolding merge_slot_release
  merge_slot_release_twice db slot_id holder actor now db' json k n h =
      let m : SlotMeta = record {
        holder = [];
        waiters = (meta unmarshal marshal json_valid marshal_issue marshal_updates k.slot).waiters;
      } in
      let same = get_issue-id db slot_id k.slot k.found in
      let (new, f, g, s) =
        update_slot-after unmarshal marshal json_valid marshal_issue marshal_updates db slot_id
          k.slot (some status_open) m actor now db' k.found
          (subst
            (λ x.
              update_slot unmarshal marshal json_valid marshal_issue marshal_updates db x
                (some status_open) m actor now
              ≡ ok db')
            same (ground (arith, k.found, k.taken, k.named, eq_refl holder))) in
      ground (
        arith,
        f,
        meta-marshal unmarshal marshal json_valid marshal_issue marshal_updates new m json g,
        eq_iff holder [],
        eq_iff [] holder,
      )
