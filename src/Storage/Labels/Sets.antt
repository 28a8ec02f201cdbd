-- ===== src/Storage/Labels/Sets.antt =====
-- The labels of each issue before and after AddLabelInTx and RemoveLabelInTx of
-- internal/storage/issueops/labels.go.
use bd.Prelude.{
  ◌≡◌, ◌↔◌, ◌⊎◌, refl, sym, ap, subst, ◌∙◌, not, Bool-cases, inl, inr, none, ◌++◌, any, select, In,
  arith,
}
use bd.Prelude.Text.{Text, codes}
use bd.Storage.Tables.{Tables, EventTable}
use bd.Storage.Store.{Store}
use bd.Storage.Creation.Persist.{insert_label}
use bd.Storage.Labels.{
  LabelTable, label_not_found, ok, label_rows, set_label_rows, label_table_of, event_table_of,
  get_labels, log_label, add_label, is_row, remove_label,
}
use bd.Storage.Labels.Logged.{
  row, In-insert_label, In-removed, any-is_row, err_ok, log_label-IsLogged, get_labels_iff,
  get_labels-logged, event_table_of-logged, if_ok, log_label-ok, tables-set_label_rows,
}

module _ (st : Store) (id label actor : Text) where
  get_labels-add_label :
      (t : Store) (x l : Text)
      → add_label st none none id label actor ≡ ok t
      → In l (get_labels t none x) ↔ (In l (get_labels st none x) ⊎ ((x ≡ id) × (l ≡ label)))
  unfolding add_label
  get_labels-add_label t x l h =
      let rows = label_rows st (label_table_of st id) in
      let logged =
        log_label-IsLogged (event_table_of st id) id (codes "label_added") actor
          (codes "Added label: " ++ label)
          (set_label_rows st (label_table_of st id) (insert_label id rows label)) t h in
      let before = get_labels_iff st x l in
      elim (get_labels-logged st id (insert_label id rows label) t x l logged) [
        | inl (same, e) ↦
            let inserted =
              subst
                (λ (k : LabelTable).
                  In (row x l) (insert_label id rows label)
                  ↔ (In (row x l) (label_rows st k) ⊎ ((x ≡ id) × (l ≡ label))))
                same (In-insert_label id label rows x l) in
            ground (arith, before, e, inserted)
        | inr (apart, e) ↦ ground (arith, apart, e)
      ]

  get_labels-remove_label :
      (t : Store) (x l : Text)
      → remove_label st none none id label actor ≡ ok t
      → In l (get_labels t none x) ↔ (In l (get_labels st none x) × ¬ ((x ≡ id) × (l ≡ label)))
  unfolding remove_label
  get_labels-remove_label t x l h =
      let rows = label_rows st (label_table_of st id) in
      let left = select (λ r. not (is_row id label r)) rows in
      elim (Bool-cases (any (is_row id label) rows)) [
        | inr none_there ↦ absurd (err_ok _ t (rw none_there at h))
        | inl there ↦
            let logged =
              log_label-IsLogged (event_table_of st id) id (codes "label_removed") actor
                (codes "Removed label: " ++ label) (set_label_rows st (label_table_of st id) left) t
                (rw there at h) in
            let before = get_labels_iff st x l in
            elim (get_labels-logged st id left t x l logged) [
              | inl (same, e) ↦
                  let removed =
                    subst
                      (λ (k : LabelTable).
                        In (row x l) left
                        ↔ (In (row x l) (label_rows st k) × ¬ ((x ≡ id) × (l ≡ label))))
                      same (In-removed id label rows x l) in
                  ground (arith, before, e, removed)
              | inr (apart, e) ↦ ground (arith, apart, e)
            ]
      ]

-- A label that was added is there to be removed.
remove_label-ok :
    (st t : Store) (id label actor : Text)
    → add_label st none none id label actor ≡ ok t
    → (u : Store) × (remove_label t none none id label actor ≡ ok u)
unfolding add_label remove_label
remove_label-ok st t id label actor h =
    let inserted = insert_label id (label_rows st (label_table_of st id)) label in
    let set = set_label_rows st (label_table_of st id) inserted in
    let logged =
      log_label-IsLogged (event_table_of st id) id (codes "label_added") actor
        (codes "Added label: " ++ label) set t h in
    let listed = (get_labels-add_label st id label actor t id label h).1 (inr (refl, refl)) in
    let there =
      (any-is_row id label (label_rows t (label_table_of t id))).1
        ((get_labels_iff t id label).0 listed) in
    let left = select (λ r. not (is_row id label r)) (label_rows t (label_table_of t id)) in
    let after = set_label_rows t (label_table_of t id) left in
    let issues : after.tables.issues ≡ set.tables.issues =
      ap (λ (db : Tables). db.issues) (tables-set_label_rows t (label_table_of t id) left)
      ∙ logged.issues in
    let log : event_table_of t id ≡ event_table_of st id =
      event_table_of-logged st id inserted t logged in
    let (u, e) =
      log_label-ok (event_table_of st id) id (codes "label_added") actor
        (codes "Added label: " ++ label) (codes "label_removed") actor
        (codes "Removed label: " ++ label) set t after h issues in
    let entered =
      subst
        (λ (table : EventTable).
          log_label table id (codes "label_removed") actor (codes "Removed label: " ++ label) after
          ≡ ok u)
        (sym log) e in
    (
      u,
      if_ok (any (is_row id label) (label_rows t (label_table_of t id))) _ label_not_found u there
          entered,
    )

-- After a successful AddLabelInTx, the labels of each issue are those before, and for the issue the
-- label; and RemoveLabelInTx of the same label then succeeds, and leaves for each issue the labels
-- before, without the label for the issue.
pub remove_label-add_label :
    (st t : Store) (id label actor : Text)
    → add_label st none none id label actor ≡ ok t
    → ((x l : Text)
        → In l (get_labels t none x) ↔ (In l (get_labels st none x) ⊎ ((x ≡ id) × (l ≡ label))))
      × ((u : Store) × (remove_label t none none id label actor ≡ ok u)
          × ((x l : Text)
              → In l (get_labels u none x)
                ↔ (In l (get_labels st none x) × ¬ ((x ≡ id) × (l ≡ label)))))
remove_label-add_label st t id label actor h =
    let added = λ (x l : Text). get_labels-add_label st id label actor t x l h in
    let (u, e) = remove_label-ok st t id label actor h in
    (
      added,
      (u, e, λ x l. ground (arith, added x l, get_labels-remove_label t id label actor u x l e)),
    )
