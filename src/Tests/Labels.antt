-- ===== src/Tests/Labels.antt =====
-- A label of a task, added and removed.
use bd.Prelude.{◌≡◌, ◌↔◌, ◌⊎◌, refl, none, [], ◌∷◌, In}
use bd.Prelude.Order.{text_leb, insert_by, sort_by}
use bd.Prelude.Text.{Text, codes, ◌==◌}
use bd.Storage.Tables.{is_active_wisp, wisp_table_routing}
use bd.Storage.Store.{Store}
use bd.Storage.Creation.Persist.{insert_label}
use bd.Storage.Labels.{
  Result, ok, err, label_not_found, no_issue, label_table_of, event_table_of, get_labels, log_label,
  add_label, remove_label,
}
use bd.Storage.Labels.Sets.{remove_label-add_label}
use bd.Tests.Samples.{task, a, b, me, tables, store}

program : Unit {0}
unfolding ◌==◌ is_active_wisp wisp_table_routing insert_label label_table_of event_table_of text_leb
    insert_by sort_by get_labels log_label add_label remove_label
program = tt

abbrev bug : Text
bug = codes "bug"

abbrev old : Store
old = record (store (tables (task a ∷ []) [])) {
  labels = record { issue_id = a; label = codes "ui" } ∷ [];
}

abbrev store_of : Result → Store
store_of (ok st) = st
store_of (err e) = old

abbrev labelled : Store
labelled = store_of (add_label old none none a bug me)

added : add_label old none none a bug me ≡ ok labelled
unfolding program
added = refl

listed : get_labels labelled none a ≡ bug ∷ codes "ui" ∷ []
unfolding program
listed = refl

no_label : remove_label old none none a bug me ≡ err label_not_found
unfolding program
no_label = refl

no_such_issue : add_label old none none b bug me ≡ err no_issue
unfolding program
no_such_issue = refl

remove_label-add_label_example :
    ((x l : Text)
      → In l (get_labels labelled none x) ↔ (In l (get_labels old none x) ⊎ ((x ≡ a) × (l ≡ bug))))
    × ((u : Store) × (remove_label labelled none none a bug me ≡ ok u)
        × ((x l : Text)
            → In l (get_labels u none x)
              ↔ (In l (get_labels old none x) × ¬ ((x ≡ a) × (l ≡ bug)))))
remove_label-add_label_example = remove_label-add_label old labelled a bug me added
