-- ===== src/Storage/MergeSlot.antt =====
-- internal/storage/merge_slot.go: the merge slot, an issue that serves as a lock. The transaction's
-- reads and updates are those of Storage/Tables and Storage/Lifecycle.
pub mod Held
pub mod Exclusive
pub mod Handover
pub mod Released
use bd.Prelude.{
  ℕ, suc, Bool, true, false, ◌&&◌, not, Option, none, some, List, [], ◌∷◌, ◌++◌, length,
  if◌then◌else◌,
}
use bd.Prelude.Text.{Text, codes, ◌==◌, contains}
use bd.Types.Issue.{Issue}
use bd.Types.Status.{status_open, status_in_progress}
use bd.Storage.Tables.{Tables, get_issue}
use bd.Storage.Lifecycle.{Updates, LifecycleError, update_issue, metadata}
use bd.Storage.Lifecycle

-- slotMeta
pub record SlotMeta : Type 0 where
  pub holder : Text
  pub waiters : List Text

-- MergeSlotStatus
pub record SlotStatus : Type 0 where
  pub slot_id : Text
  pub available : Bool
  pub holder : Text
  pub waiters : List Text

-- MergeSlotResult
pub record SlotResult : Type 0 where
  pub slot_id : Text
  pub acquired : Bool
  pub waiting : Bool
  pub holder : Text
  pub position : ℕ

pub data SlotError : Type 0 where
  empty_holder slot_not_found held_by_other : SlotError
  update_failed : LifecycleError → SlotError

pub data Result (A : Type 0) : Type 0 where
  ok : A → Result A
  err : SlotError → Result A

-- strings.TrimSuffix of "-"
unfoldable pub trim_hyphen : Text → Text
trim_hyphen [] = []
trim_hyphen (c ∷ s) = let rest = trim_hyphen s in if (c ∷ s) == codes "-" then [] else c ∷ rest

-- MergeSlotID, on the value of issue_prefix; `none` is an error of the read.
unfoldable pub merge_slot_id : Option Text → Text
merge_slot_id none = codes "bd-merge-slot"
merge_slot_id (some p) =
    if p == [] then codes "bd-merge-slot" else trim_hyphen p ++ codes "-merge-slot"

-- The outcome of an update of the slot, with the result beside the tables.
unfoldable pub with_result : Result Tables → SlotResult → Result (Tables × SlotResult)
with_result (err e) r = err e
with_result (ok db) r = ok (db, r)

-- `unmarshal` is json.Unmarshal into an empty slotMeta, its errors ignored, and `marshal` is
-- json.Marshal of a slotMeta; the others are those of Storage/Lifecycle.
module _ (unmarshal : Text → SlotMeta) (marshal : SlotMeta → Text) (json_valid : Text → Bool)
    (marshal_issue : Issue → Text) (marshal_updates : Updates → Text) where
  -- parseSlotMeta
  unfoldable pub parse_slot_meta : Issue → SlotMeta
  parse_slot_meta i =
      if i.metadata == [] then record { holder = []; waiters = [] } else unmarshal i.metadata

  -- The updates {"metadata": …} and {"status": …, "metadata": …}.
  abbrev pub slot_updates : Option Text → SlotMeta → Updates
  slot_updates status m = record {
    status = status;
    pinned = none;
    closed_at = none;
    fields = metadata (marshal m) ∷ [];
  }

  -- tx.UpdateIssue of the slot
  unfoldable pub update_slot : Tables → Text → Option Text → SlotMeta → Text → ℕ → Result Tables
  update_slot db id status m actor now =
      elim (update_issue json_valid marshal_issue marshal_updates db id (slot_updates status m)
        actor now) [ Lifecycle.ok db' ↦ ok db' | Lifecycle.err e ↦ err (update_failed e) ]

  -- MergeSlotCheckImpl
  unfoldable pub merge_slot_check : Tables → Text → Result SlotStatus
  merge_slot_check db slot_id = elim (get_issue db slot_id) [
    | none ↦ err slot_not_found
    | some slot ↦ ok record {
      slot_id = slot_id;
      available = slot.status == status_open;
      holder = (parse_slot_meta slot).holder;
      waiters = (parse_slot_meta slot).waiters;
    }
  ]

  abbrev pub add_waiter : Text → SlotMeta → SlotMeta
  add_waiter holder m =
      if contains m.waiters holder
      then m
      else record { holder = m.holder; waiters = m.waiters ++ (holder ∷ []) }

  -- The held branch of the transaction of MergeSlotAcquireImpl.
  unfoldable pub wait_for_slot :
      Tables → Issue → Text → Text → Bool → ℕ → Text → Result (Tables × SlotResult)
  wait_for_slot db slot holder actor wait now slot_id =
      let m = parse_slot_meta slot in
      let m' = add_waiter holder m in
      if wait
      then with_result (update_slot db slot.id none m' actor now) record {
        slot_id = slot_id;
        acquired = false;
        waiting = true;
        holder = m.holder;
        position = length m'.waiters;
      }
      else ok (
        db,
        record {
          slot_id = slot_id;
          acquired = false;
          waiting = false;
          holder = m.holder;
          position = 0;
        },
      )

  -- The branch of the transaction in which the slot is available.
  unfoldable pub take_slot : Tables → Issue → Text → Text → ℕ → Text → Result (Tables × SlotResult)
  take_slot db slot holder actor now slot_id =
      with_result
        (update_slot db slot.id (some status_in_progress)
          record { holder = holder; waiters = (parse_slot_meta slot).waiters } actor now)
        record {
          slot_id = slot_id;
          acquired = true;
          waiting = false;
          holder = holder;
          position = 0;
        }

  -- MergeSlotAcquireImpl
  unfoldable pub merge_slot_acquire :
      Tables → Text → Text → Text → Bool → ℕ → Result (Tables × SlotResult)
  merge_slot_acquire db slot_id holder actor wait now =
      if holder == [] then err empty_holder else elim (get_issue db slot_id) [
        | none ↦ err slot_not_found
        | some slot ↦
            if not (slot.status == status_open)
            then wait_for_slot db slot holder actor wait now slot_id
            else take_slot db slot holder actor now slot_id
      ]

  -- MergeSlotReleaseImpl
  unfoldable pub merge_slot_release : Tables → Text → Text → Text → ℕ → Result Tables
  merge_slot_release db slot_id holder actor now = elim (get_issue db slot_id) [
    | none ↦ err slot_not_found
    | some slot ↦
        let m = parse_slot_meta slot in
        if not (holder == []) && not (m.holder == holder)
        then err held_by_other
        else if slot.status == status_open
        then ok db
        else update_slot db slot.id (some status_open) record { holder = []; waiters = m.waiters }
            actor now
  ]
