-- ===== src/Tests/Creation.antt =====
-- New issues, their numbers and the promotion of wisps.
use bd.Prelude.{
  ◌++◌, ℕ, zero, suc, ◌<◌, ◌≡◌, refl, ap, true, false, not, Option, none, some, List, [], ◌∷◌, any,
  all, replicate, length, length-replicate, eqb,
}
use bd.Prelude.Int.{ℤ, pos}
use bd.Prelude.Text.{
  Text, codes, ◌==◌, has_prefix, split, trim_left, trim_right, trim_space, index_byte,
}
use bd.Types.Status.{is_valid, is_valid_with_custom, status_closed}
use bd.Types.IssueType
use bd.Types.Issue.{Issue, validate_with_custom}
use bd.Storage.Tables.{is_active_wisp, wisp_table_routing, get_issue}
use bd.Storage.Store.{Store}
use bd.Storage.Config.{
  BatchCreateOptions, get_config, parse_comma_separated_list, trim_suffix_byte, read_config_prefix,
  is_counter_mode, get_custom_statuses, resolve_custom_types, new_batch_context,
}
use bd.Storage.Numbering.{
  escape, like_rest, parse_child_id, max_child, child_ids, last_child, upsert_child_counter,
  get_next_child_id, max_suffix, seed_counter, increment_counter, advance_counter, next_counter_id,
}
use bd.Storage.Numbering.Children.{get_next_child_id_free}
use bd.Storage.Lifecycle.Consistent.{IsConsistent}
use bd.Storage.Creation.{
  Result, ok, err, NewIssue, External, is_wisp, table_routing, normalize_times, ensure_closed_at,
  prepare_issue, validate_issue_id_prefix, resolve_prefix, generate_id_in_table, resolve_id,
  check_orphan, json_metadata, insert_issue, is_new,
}
use bd.Storage.Creation.Batch.{
  insert_unless_orphan, create_issue, create_each, insert_dependency, insert_dependencies,
  persist_dependencies, raise_child_max, child_max_map, raise_counters, reconcile_child_counters,
  create_issues,
}
use bd.Storage.Creation.Persist.{
  insert_label, insert_labels, persist_labels, insert_comment, insert_comments, persist_comments,
  record_created, persist_issue,
}
use bd.Storage.Creation.Consistent.{create_issues-IsConsistent}
use bd.Storage.Promotion
use bd.Storage.Promotion.{insert_ignore, copy_related, promote}
use bd.Storage.Promotion.Moved.{promote-moved}
use bd.Storage.Deletion.{delete_wisp_rows, delete_issue_rows, delete_from_issues, delete_issue}
use bd.Storage.Deletion.Effects.{has_id}
use bd.Ids.Prefix.{last_index}
use bd.Ids.Hierarchy.{generate_child_id}
use bd.Tests.Samples.{task, a, b, c, me, tables, store}
use bd.Tests.Lifecycle.{one_row, task-IsStamped}

program : Unit {0}
unfolding ◌==◌ has_prefix split trim_left trim_right trim_space index_byte is_valid
    is_valid_with_custom IssueType.is_built_in IssueType.is_valid IssueType.is_valid_with_custom
    validate_with_custom is_active_wisp wisp_table_routing get_issue get_config
    parse_comma_separated_list trim_suffix_byte read_config_prefix is_counter_mode
    get_custom_statuses resolve_custom_types new_batch_context like_rest parse_child_id max_child
    child_ids last_child upsert_child_counter get_next_child_id max_suffix seed_counter
    increment_counter advance_counter next_counter_id is_wisp table_routing normalize_times
    ensure_closed_at prepare_issue validate_issue_id_prefix resolve_prefix generate_id_in_table
    resolve_id check_orphan json_metadata insert_issue is_new insert_label insert_labels
    persist_labels insert_comment insert_comments persist_comments record_created persist_issue
    insert_unless_orphan create_issue create_each insert_dependency insert_dependencies
    persist_dependencies raise_child_max child_max_map raise_counters reconcile_child_counters
    create_issues insert_ignore copy_related promote delete_wisp_rows delete_issue_rows
    delete_from_issues delete_issue last_index generate_child_id
program = tt

-- Numbers as rows of strokes.
abbrev show : ℕ → Text
show n = replicate n b'1'

abbrev scan_int : Text → Option ℤ
scan_int s = some (pos (length s))

reads : (n : ℕ) → scan_int (show n) ≡ some (pos n)
reads n = ap {B = Option ℤ} (λ k. some (pos k)) (length-replicate n b'1')

digits : (n : ℕ) → all (λ c. not (eqb c b'.')) (show n) ≡ true
digits zero = refl
digits (suc n) = digits n

abbrev parent : Store
parent = store (tables (task a ∷ task (codes "bd-a1.11") ∷ []) [])

abbrev counted : Store
counted = record parent { child_counters = record { parent_id = a; last_child = 3 } ∷ [] }

third : get_next_child_id scan_int show parent a ≡ some (codes "bd-a1.111", counted)
unfolding program
third = refl

get_next_child_id_free_example :
    (any (λ (i : Issue). i.id == codes "bd-a1.111") parent.tables.issues ≡ false)
    × (n : ℕ) × (codes "bd-a1.111" ≡ generate_child_id show a n)
    × (last_child parent.child_counters a < n)
    × (last_child counted.child_counters a ≡ n)
    × (counted.tables ≡ parent.tables)
get_next_child_id_free_example =
    get_next_child_id_free scan_int show reads digits parent a (codes "bd-a1.111") refl third

-- The backslash escapes the dot, so that the child is not seen.
abbrev slashed : Text
slashed = b'b' ∷ escape ∷ []

abbrev taken : Store
taken = store (tables (task slashed ∷ task (slashed ++ codes ".1") ∷ []) [])

taken_again :
    get_next_child_id scan_int show taken slashed
    ≡ some (
      slashed ++ codes ".1",
      record taken { child_counters = record { parent_id = slashed; last_child = 1 } ∷ [] },
    )
unfolding program
taken_again = refl

abbrev ext : External
ext = record {
  json_valid = λ s. true;
  sha256 = λ s. s;
  show = show;
  scan_int = scan_int;
  atoi = scan_int;
  metadata_passes = λ s. true;
  base_length = λ st table prefix. 3;
}

abbrev no_list : Text → Option (List Text)
no_list s = none

abbrev opts : BatchCreateOptions
opts = record { orphan_handling = codes "allow"; skip_prefix_validation = false }

abbrev new : Issue → NewIssue
new i = record { issue = i; id_prefix = []; prefix_override = []; comments = []; dependencies = [] }

abbrev configured : Store → Store
configured st = record st {
  config = record { key = codes "issue_prefix"; value = codes "bd-" } ∷ [];
}

abbrev start : Store
start = configured (store (tables (task a ∷ []) []))

-- A closed issue without a closing timestamp, and one more of the identifier a, now closed.
abbrev closed : Text → Issue
closed id = record (task id) { status = status_closed }

abbrev both : List NewIssue
both = new (closed b) ∷ new (closed a) ∷ []

abbrev store_of : Result Store → Store
store_of (ok st) = st
store_of (err e) = start

abbrev created : Store
created = store_of (create_issues ext no_list [] opts start both me 20)

creates : create_issues ext no_list [] opts start both me 20 ≡ ok created
unfolding program
creates = refl

create_issues-IsConsistent_example : IsConsistent created.tables
create_issues-IsConsistent_example =
    create_issues-IsConsistent ext no_list [] opts start both me 20
      (one_row (task a) task-IsStamped) creates

abbrev wisp : Issue
wisp = record (task c) { no_history = true }

abbrev with_wisp : Issue → Store
with_wisp i = configured (store (record (tables [] []) { wisps = i ∷ [] }))

abbrev lost : Store
lost = configured (store (tables [] []))

-- The promotion of a wisp that is marked no_history leaves no issue.
loses : promote ext no_list [] (with_wisp wisp) c me 20 ≡ Promotion.ok lost
unfolding program
loses = refl

named : (c == []) ≡ false
unfolding program
named = refl

promote-moved_example :
    (has_id lost.tables.wisps c ≡ false)
    × (i : Issue) × (get_issue (with_wisp wisp).tables c ≡ some i)
    × (i.no_history ≡ false → has_id lost.tables.issues c ≡ true)
    × (i.no_history ≡ true → lost.tables.issues ≡ (with_wisp wisp).tables.issues)
promote-moved_example = promote-moved ext no_list [] (with_wisp wisp) c me 20 named loses
