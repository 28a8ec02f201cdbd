-- ===== src/Tests/MergeSlot.antt =====
-- The merge slot, with an encoding of its metadata that reads back.
use bd.Prelude.{
  zero, suc, ◌≡◌, ◌↔◌, ◌⊎◌, ◌∙◌, refl, ap, Bool, true, false, not, some, List, [], ◌∷◌,
  if◌then◌else◌,
}
use bd.Prelude.Text.{Text, codes, ◌==◌, head_cons, ne_of_test}
use bd.Types.Status.{status_open, status_in_progress}
use bd.Types.Issue.{Issue}
use bd.Storage.Tables.{Tables, get_issue, is_active_wisp, wisp_table_routing}
use bd.Storage.Lifecycle.{
  Updates, update_issue, apply_updates, set_fields, set_field, set_status, set_closed_at,
  set_pinned, manage_closed_at, determine_event_type, is_allowed_update_field, check_fields,
  check_metadata,
}
use bd.Storage.MergeSlot.{
  SlotMeta, SlotResult, Result, ok, err, held_by_other, parse_slot_meta, update_slot, with_result,
  wait_for_slot, take_slot, merge_slot_acquire, merge_slot_release,
}
use bd.Storage.MergeSlot.Exclusive.{merge_slot_acquire-excluded, merge_slot_release_twice}
use bd.Storage.MergeSlot.Held.{IsJson, IsHeld, meta}
use bd.Storage.MergeSlot.Handover.{merge_slot_acquire-release}
use bd.Storage.MergeSlot.Released.{merge_slot_release_iff}
use bd.Tests.Samples.{task, me, tables}

abbrev encode : Text → Text → Text
encode [] rest = 0 ∷ rest
encode (c ∷ t) rest = suc c ∷ encode t rest

abbrev encode_all : List Text → Text
encode_all [] = []
encode_all (t ∷ ts) = encode t (encode_all ts)

abbrev decode : Text → List Text
decode [] = []
decode (zero ∷ s) = [] ∷ decode s
decode (suc c ∷ s) = head_cons c (decode s)

abbrev to_meta : List Text → SlotMeta
to_meta [] = record { holder = []; waiters = [] }
to_meta (h ∷ ws) = record { holder = h; waiters = ws }

abbrev marshal : SlotMeta → Text
marshal m = encode m.holder (encode_all m.waiters)

abbrev unmarshal : Text → SlotMeta
unmarshal s = to_meta (decode s)

decode-encode : (t rest : Text) → decode (encode t rest) ≡ t ∷ decode rest
decode-encode [] rest = refl
decode-encode (c ∷ t) rest = ap (head_cons c) (decode-encode t rest)

decode-encode_all : (ts : List Text) → decode (encode_all ts) ≡ ts
decode-encode_all [] = refl
decode-encode_all (t ∷ ts) =
    decode-encode t (encode_all ts) ∙ ap (λ us. t ∷ us) (decode-encode_all ts)

encode_full : (t rest : Text) → (encode t rest == []) ≡ false
unfolding ◌==◌
encode_full [] rest = refl
encode_full (c ∷ t) rest = refl

json : IsJson unmarshal marshal
json = record {
  round_trip = λ m. ap to_meta (
      decode-encode m.holder (encode_all m.waiters)
      ∙ ap (λ us. m.holder ∷ us) (decode-encode_all m.waiters));
  not_empty = λ m. encode_full m.holder (encode_all m.waiters);
}

program : Unit {0}
unfolding ◌==◌ is_active_wisp wisp_table_routing get_issue update_issue apply_updates set_fields
    set_field set_status set_closed_at set_pinned manage_closed_at determine_event_type
    is_allowed_update_field check_fields check_metadata parse_slot_meta update_slot with_result
    wait_for_slot take_slot merge_slot_acquire merge_slot_release
program = tt

abbrev valid : Text → Bool
valid s = true

abbrev marshal_issue : Issue → Text
marshal_issue i = i.title

abbrev marshal_updates : Updates → Text
marshal_updates u = []

abbrev slot_id : Text
slot_id = codes "bd-merge-slot"

abbrev you : Text
you = codes "bob"

abbrev free : Tables
free = tables (task slot_id ∷ []) []

abbrev tables_of : Result (Tables × SlotResult) → Tables
tables_of (ok (t, r)) = t
tables_of (err e) = free

abbrev released_tables : Result Tables → Tables
released_tables (ok t) = t
released_tables (err e) = free

abbrev outcome : Text → Bool → SlotResult
outcome holder acquired = record {
  slot_id = slot_id;
  acquired = acquired;
  waiting = not acquired;
  holder = holder;
  position = if acquired then 0 else 1;
}

abbrev held : Tables
held = tables_of (
    merge_slot_acquire unmarshal marshal valid marshal_issue marshal_updates free slot_id me me
      false 20)

abbrev waited : Tables
waited = tables_of (
    merge_slot_acquire unmarshal marshal valid marshal_issue marshal_updates held slot_id you you
      true 21)

me_holds : IsHeld unmarshal marshal valid marshal_issue marshal_updates held slot_id me
unfolding program
me_holds = record {
  slot = record (task slot_id) {
    status = status_in_progress;
    metadata = marshal record { holder = me; waiters = [] };
    updated_at = 20;
  };
  found = refl;
  taken = refl;
  named = refl;
}

merge_slot_acquire-excluded_example :
    ((outcome me false).acquired ≡ false)
    × ((outcome me false).holder ≡ me)
    × IsHeld unmarshal marshal valid marshal_issue marshal_updates waited slot_id me
unfolding program
merge_slot_acquire-excluded_example =
    merge_slot_acquire-excluded unmarshal marshal valid marshal_issue marshal_updates held slot_id
      me you you true 21 waited (outcome me false) json me_holds refl

abbrev open_again : Tables
open_again =
    released_tables (
      merge_slot_release unmarshal marshal valid marshal_issue marshal_updates held slot_id me me
        22)

merge_slot_release_twice_example :
    merge_slot_release unmarshal marshal valid marshal_issue marshal_updates open_again slot_id me
      me 22
    ≡ err held_by_other
unfolding program
merge_slot_release_twice_example =
    merge_slot_release_twice unmarshal marshal valid marshal_issue marshal_updates held slot_id me
      me 22 open_again json me_holds (ne_of_test me [] refl) refl

merge_slot_acquire-release_example :
    (db' : Tables) × (db'' : Tables) × (r : SlotResult) × (merge_slot_release unmarshal marshal
        valid marshal_issue marshal_updates held slot_id me me 22
      ≡ ok db')
    × (merge_slot_acquire unmarshal marshal valid marshal_issue marshal_updates db' slot_id you me
          false 23
        ≡ ok (db'', r))
    × (r.acquired ≡ true)
    × IsHeld unmarshal marshal valid marshal_issue marshal_updates db'' slot_id you
unfolding ◌==◌
merge_slot_acquire-release_example =
    merge_slot_acquire-release unmarshal marshal valid marshal_issue marshal_updates held slot_id me
      you me 22 23 json (λ m. refl) me_holds (ne_of_test you [] refl)

merge_slot_release_iff_example :
    (((db' : Tables) × (merge_slot_release unmarshal marshal valid marshal_issue marshal_updates
            held slot_id you you 22
          ≡ ok db'))
      ↔ ((you ≡ []) ⊎ (you ≡ me)))
    × ((db' : Tables)
        → merge_slot_release unmarshal marshal valid marshal_issue marshal_updates held slot_id you
            you 22
          ≡ ok db'
        → (new : Issue) × (get_issue db' slot_id ≡ some new)
          × (new.status ≡ status_open)
          × (meta unmarshal marshal valid marshal_issue marshal_updates new ≡ record {
            holder = [];
            waiters =
                (meta unmarshal marshal valid marshal_issue marshal_updates me_holds.slot).waiters;
          }))
merge_slot_release_iff_example =
    merge_slot_release_iff unmarshal marshal valid marshal_issue marshal_updates held slot_id me you
      you 22 json (λ m. refl) me_holds
