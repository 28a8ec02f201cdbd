-- ===== src/Storage/MergeSlot/Released.antt =====
-- internal/storage/merge_slot.go: who may release the slot, and what a release leaves.
use bd.Prelude.{ℕ, ◌≡◌, ◌⊎◌, ◌↔◌, sym, subst, Bool, true, some, [], arith}
use bd.Prelude.Text.{Text, eq_iff}
use bd.Types.Issue.{Issue}
use bd.Types.Status.{status_open}
use bd.Storage.Tables.{Tables, get_issue}
use bd.Storage.Lifecycle.{Updates}
use bd.Storage.Lifecycle.Rows.{get_issue-id}
use bd.Storage.MergeSlot.{SlotMeta, ok, update_slot, merge_slot_release}
use bd.Storage.MergeSlot.Held.{IsJson, IsHeld, meta, meta-marshal, update_slot-after}
use bd.Storage.MergeSlot.Handover.{update_slot-succeeds}

module _ (unmarshal : Text → SlotMeta) (marshal : SlotMeta → Text) (json_valid : Text → Bool)
    (marshal_issue : Issue → Text) (marshal_updates : Updates → Text) where
  release_freed :
      (db : Tables) (slot_id holder other actor : Text) (now : ℕ)
      → IsJson unmarshal marshal
      → (k : IsHeld unmarshal marshal json_valid marshal_issue marshal_updates db slot_id holder)
      → (db' : Tables)
      → merge_slot_release unmarshal marshal json_valid marshal_issue marshal_updates db slot_id
          other actor now
        ≡ ok db'
      → ((other ≡ []) ⊎ (other ≡ holder))
        × (new : Issue) × (get_issue db' slot_id ≡ some new)
        × (new.status ≡ status_open)
        × (meta unmarshal marshal json_valid marshal_issue marshal_updates new ≡ record {
          holder = [];
          waiters =
              (meta unmarshal marshal json_valid marshal_issue marshal_updates k.slot).waiters;
        })
  unfolding merge_slot_release
  release_freed db slot_id holder other actor now json k db' h =
      let m : SlotMeta = record {
        holder = [];
        waiters = (meta unmarshal marshal json_valid marshal_issue marshal_updates k.slot).waiters;
      } in
      let named : (other ≡ []) ⊎ (other ≡ holder) =
        ground (arith, h, k.found, k.named, eq_iff other [], eq_iff holder other) in
      let same = get_issue-id db slot_id k.slot k.found in
      let update : update_slot unmarshal marshal json_valid marshal_issue marshal_updates db
            k.slot.id (some status_open) m actor now
          ≡ ok db' =
        ground (arith, h, k.found, k.taken, k.named) in
      let (new, f, g, s) =
        update_slot-after unmarshal marshal json_valid marshal_issue marshal_updates db slot_id
          k.slot (some status_open) m actor now db' k.found
          (subst
            (λ x.
              update_slot unmarshal marshal json_valid marshal_issue marshal_updates db x
                (some status_open) m actor now
              ≡ ok db')
            same update) in
      (
        named,
        new,
        f,
        s,
        meta-marshal unmarshal marshal json_valid marshal_issue marshal_updates new m json g,
      )

  release_allowed :
      (db : Tables) (slot_id holder other actor : Text) (now : ℕ)
      → ((m : SlotMeta) → json_valid (marshal m) ≡ true)
      → IsHeld unmarshal marshal json_valid marshal_issue marshal_updates db slot_id holder
      → (other ≡ []) ⊎ (other ≡ holder)
      → (db' : Tables) × (merge_slot_release unmarshal marshal json_valid marshal_issue
            marshal_updates db slot_id other actor now
          ≡ ok db')
  unfolding merge_slot_release
  release_allowed db slot_id holder other actor now valid k o =
      let m : SlotMeta = record {
        holder = [];
        waiters = (meta unmarshal marshal json_valid marshal_issue marshal_updates k.slot).waiters;
      } in
      let same = get_issue-id db slot_id k.slot k.found in
      let (db', h) =
        update_slot-succeeds unmarshal marshal json_valid marshal_issue marshal_updates db k.slot.id
          k.slot (some status_open) m actor now
          (subst (λ x. get_issue db x ≡ some k.slot) (sym same) k.found) (valid m) in
      (db', ground (arith, h, k.found, k.taken, k.named, o, eq_iff other [], eq_iff holder other))

  -- If the encoding of the metadata is JSON that reads back: while the slot is held, a release succeeds
  -- exactly if it names the holder or nobody, and it leaves the slot open, without a holder and with the
  -- same waiters.
  pub merge_slot_release_iff :
      (db : Tables) (slot_id holder other actor : Text) (now : ℕ)
      → IsJson unmarshal marshal
      → ((m : SlotMeta) → json_valid (marshal m) ≡ true)
      → (k : IsHeld unmarshal marshal json_valid marshal_issue marshal_updates db slot_id holder)
      → (((db' : Tables) × (merge_slot_release unmarshal marshal json_valid marshal_issue
                marshal_updates db slot_id other actor now
              ≡ ok db'))
          ↔ ((other ≡ []) ⊎ (other ≡ holder)))
        × ((db' : Tables)
            → merge_slot_release unmarshal marshal json_valid marshal_issue marshal_updates db
                slot_id other actor now
              ≡ ok db'
            → (new : Issue) × (get_issue db' slot_id ≡ some new)
              × (new.status ≡ status_open)
              × (meta unmarshal marshal json_valid marshal_issue marshal_updates new ≡ record {
                holder = [];
                waiters =
                    (meta unmarshal marshal json_valid marshal_issue marshal_updates
                      k.slot).waiters;
              }))
  merge_slot_release_iff db slot_id holder other actor now json valid k =
      let freed = release_freed db slot_id holder other actor now json k in
      (
        (
          λ (db', h). (freed db' h).0,
          λ o. release_allowed db slot_id holder other actor now valid k o,
        ),
        λ db' h. let (o, new, f, s, g) = freed db' h in (new, f, s, g),
      )
