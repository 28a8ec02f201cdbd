-- ===== src/Storage/Labels/Logged.antt =====
-- What an entry in the log of internal/storage/issueops/labels.go leaves of the tables, and the rows of
-- labels that an insertion and a deletion leave.
use bd.Prelude.{
  ◌≡◌, ◌≢◌, ◌↔◌, ◌⊎◌, refl, sym, ap, subst, ◌∙◌, Bool, true, false, not, Bool-cases, inl, inr, none,
  some, List, [], ◌∷◌, map, any, select, if◌then◌else◌, In, In-append, In-select, arith,
}
use bd.Prelude.Order.{text_leb, In-sort_by}
use bd.Prelude.Text.{Text, ◌==◌, eq_iff}
use bd.Types.Issue.{Issue}
use bd.Storage.Tables.{
  Tables, EventRow, EventTable, events_table, wisp_events_table, is_active_wisp, record_event,
  wisp_table_routing,
}
use bd.Storage.Store.{Store, LabelRow}
use bd.Storage.Creation.Persist.{insert_label}
use bd.Storage.Labels.{
  LabelTable, LabelError, no_issue, labels_table, wisp_labels_table, Result, ok, err, label_rows,
  set_label_rows, label_table_of, event_table_of, get_labels, log_label, is_row,
}

abbrev pub row : Text → Text → LabelRow
row id label = record { issue_id = id; label = label }

-- A label is listed exactly where its row is in the table.
In-rows :
    (rows : List LabelRow) (id l : Text)
    → In l (map (λ r. r.label) (select (λ r. r.issue_id == id) rows)) ↔ In (row id l) rows
In-rows [] id l = ground arith
In-rows (r ∷ rows) id l = ground (arith, In-rows rows id l, eq_iff r.issue_id id)

pub any-is_row :
    (id label : Text) (rows : List LabelRow)
    → (any (is_row id label) rows ≡ true) ↔ In (row id label) rows
any-is_row id label [] = ground arith
any-is_row id label (r ∷ rows) =
    ground (arith, any-is_row id label rows, eq_iff r.issue_id id, eq_iff r.label label)

pub In-insert_label :
    (id label : Text) (rows : List LabelRow) (x l : Text)
    → In (row x l) (insert_label id rows label) ↔ (In (row x l) rows ⊎ ((x ≡ id) × (l ≡ label)))
unfolding insert_label
In-insert_label id label rows x l =
    ground (arith, any-is_row id label rows, In-append (row x l) rows (row id label ∷ []))

pub In-removed :
    (id label : Text) (rows : List LabelRow) (x l : Text)
    → In (row x l) (select (λ r. not (is_row id label r)) rows)
      ↔ (In (row x l) rows × ¬ ((x ≡ id) × (l ≡ label)))
In-removed id label rows x l =
    ground
      (arith, In-select (λ r. not (is_row id label r)) (row x l) rows, eq_iff x id, eq_iff l label)

-- What a successful entry in the log leaves as it is.
pub record IsLogged (s t : Store) : Type 0 where
  pub labels : t.labels ≡ s.labels
  pub wisp_labels : t.wisp_labels ≡ s.wisp_labels
  pub wisps : t.tables.wisps ≡ s.tables.wisps
  pub issues : t.tables.issues ≡ s.tables.issues

abbrev entry : Text → Text → Text → Text → EventRow
entry id event_type actor text = record {
  issue_id = id;
  event_type = event_type;
  actor = actor;
  old_value = [];
  new_value = [];
  comment = some text;
}

record_event-IsLogged :
    (table : EventTable) (e : EventRow) (s t : Store)
    → t ≡ record s { tables = record_event s.tables table e }
    → IsLogged s t
record_event-IsLogged events_table e s t h = record {
  labels = ap (λ (r : Store). r.labels) h;
  wisp_labels = ap (λ (r : Store). r.wisp_labels) h;
  wisps = ap (λ (r : Store). r.tables.wisps) h;
  issues = ap (λ (r : Store). r.tables.issues) h;
}
record_event-IsLogged wisp_events_table e s t h = record {
  labels = ap (λ (r : Store). r.labels) h;
  wisp_labels = ap (λ (r : Store). r.wisp_labels) h;
  wisps = ap (λ (r : Store). r.tables.wisps) h;
  issues = ap (λ (r : Store). r.tables.issues) h;
}

pub err_ok : (e : LabelError) (t : Store) → err e ≢ ok t
err_ok e t h = ground arith

ok_inj : (s t : Store) → ok s ≡ ok t → t ≡ s
ok_inj s t e = ground arith

pub log_label-IsLogged :
    (table : EventTable) (id event_type actor text : Text) (s t : Store)
    → log_label table id event_type actor text s ≡ ok t
    → IsLogged s t
unfolding log_label
log_label-IsLogged wisp_events_table id event_type actor text s t h =
    record_event-IsLogged wisp_events_table (entry id event_type actor text) s t (ok_inj _ t h)
log_label-IsLogged events_table id event_type actor text s t h =
    elim (Bool-cases (any (λ i. i.id == id) s.tables.issues)) [
      | inl e ↦
          record_event-IsLogged events_table (entry id event_type actor text) s t
            (ok_inj _ t (rw e at h))
      | inr e ↦ absurd (err_ok _ t (rw e at h))
    ]

pub get_labels_iff :
    (st : Store) (x l : Text)
    → In l (get_labels st none x) ↔ In (row x l) (label_rows st (label_table_of st x))
unfolding get_labels
get_labels_iff st x l =
    let rows = label_rows st (label_table_of st x) in
    let sorted = In-sort_by text_leb l (map (λ r. r.label) (select (λ r. r.issue_id == x) rows)) in
    let listed = In-rows rows x l in (λ m. listed.0 (sorted.0 m), λ m. sorted.1 (listed.1 m))

label_rows-IsLogged :
    (s t : Store) (table : LabelTable) → IsLogged s t → label_rows t table ≡ label_rows s table
label_rows-IsLogged s t labels_table g = g.labels
label_rows-IsLogged s t wisp_labels_table g = g.wisp_labels

pub tables-set_label_rows :
    (st : Store) (table : LabelTable) (rows : List LabelRow)
    → (set_label_rows st table rows).tables ≡ st.tables
tables-set_label_rows st labels_table rows = refl
tables-set_label_rows st wisp_labels_table rows = refl

LabelTable-cases : (table : LabelTable) → (table ≡ labels_table) ⊎ (table ≡ wisp_labels_table)
LabelTable-cases labels_table = inl refl
LabelTable-cases wisp_labels_table = inr refl

-- The rows of one table are changed, those of the other are not.
label_rows-set :
    (st : Store) (table other : LabelTable) (rows : List LabelRow)
    → ((table ≡ other) × (label_rows (set_label_rows st table rows) other ≡ rows))
      ⊎ ((table ≢ other) × (label_rows (set_label_rows st table rows) other ≡ label_rows st other))
label_rows-set st labels_table labels_table rows = inl (refl, refl)
label_rows-set st wisp_labels_table wisp_labels_table rows = inl (refl, refl)
label_rows-set st labels_table wisp_labels_table rows = inr (ground arith, refl)
label_rows-set st wisp_labels_table labels_table rows = inr (ground arith, refl)

module _ (st : Store) (id : Text) where
  pub label_table_of-logged :
      (rows : List LabelRow) (t : Store) (x : Text)
      → IsLogged (set_label_rows st (label_table_of st id) rows) t
      → label_table_of t x ≡ label_table_of st x
  unfolding label_table_of is_active_wisp
  label_table_of-logged rows t x g =
      let wisps =
        g.wisps
        ∙ ap (λ (db : Tables). db.wisps) (tables-set_label_rows st (label_table_of st id) rows) in
      ap (λ ws. if any (λ (i : Issue). i.id == x) ws then wisp_labels_table else labels_table) wisps

  pub event_table_of-logged :
      (rows : List LabelRow) (t : Store)
      → IsLogged (set_label_rows st (label_table_of st id) rows) t
      → event_table_of t id ≡ event_table_of st id
  unfolding event_table_of is_active_wisp
  event_table_of-logged rows t g =
      let wisps =
        g.wisps
        ∙ ap (λ (db : Tables). db.wisps) (tables-set_label_rows st (label_table_of st id) rows) in
      ap (λ ws. (wisp_table_routing (any (λ (i : Issue). i.id == id) ws)).event_table) wisps

  -- After an entry in the log with changed rows, an issue has the labels of the changed rows, or it is
  -- another one, whose labels are in the other table.
  pub get_labels-logged :
      (rows : List LabelRow) (t : Store) (x l : Text)
      → IsLogged (set_label_rows st (label_table_of st id) rows) t
      → ((label_table_of st id ≡ label_table_of st x)
          × (In l (get_labels t none x) ↔ In (row x l) rows))
        ⊎ ((x ≢ id) × (In l (get_labels t none x) ↔ In l (get_labels st none x)))
  get_labels-logged rows t x l g =
      let after = get_labels_iff t x l in
      let before = get_labels_iff st x l in
      let table = label_table_of-logged rows t x g in
      let kept =
        label_rows-IsLogged (set_label_rows st (label_table_of st id) rows) t (label_table_of st x)
          g in
      elim (label_rows-set st (label_table_of st id) (label_table_of st x) rows) [
        | inl (same, e) ↦
            let moved : label_rows t (label_table_of t x) ≡ rows =
              ap (λ (k : LabelTable). label_rows t k) table ∙ kept ∙ e in
            inl (
              same,
              subst (λ (rs : List LabelRow). In l (get_labels t none x) ↔ In (row x l) rs) moved
                  after,
            )
        | inr (apart, e) ↦
            let moved : label_rows t (label_table_of t x) ≡ label_rows st (label_table_of st x) =
              ap (λ (k : LabelTable). label_rows t k) table ∙ kept ∙ e in
            inr (
              λ q. apart (ap (λ (y : Text). label_table_of st y) (sym q)),
              (
                λ m. before.1 (subst (λ (rs : List LabelRow). In (row x l) rs) moved (after.0 m)),
                λ m.
                    after.1
                      (subst (λ (rs : List LabelRow). In (row x l) rs) (sym moved) (before.0 m)),
              ),
            )
      ]

pub if_ok :
    (b : Bool) (r : Result) (e : LabelError) (t : Store)
    → b ≡ true
    → r ≡ ok t
    → (if b then r else err e) ≡ ok t
if_ok true r e t h k = k
if_ok false r e t h k = cc

pub log_label-ok :
    (table : EventTable) (id event actor text event' actor' text' : Text) (s t s' : Store)
    → log_label table id event actor text s ≡ ok t
    → s'.tables.issues ≡ s.tables.issues
    → (t' : Store) × (log_label table id event' actor' text' s' ≡ ok t')
unfolding log_label
log_label-ok wisp_events_table id event actor text event' actor' text' s t s' h e = (_, refl)
log_label-ok events_table id event actor text event' actor' text' s t s' h e =
    elim (Bool-cases (any (λ i. i.id == id) s.tables.issues)) [
      | inr missing ↦ absurd (err_ok _ t (rw missing at h))
      | inl there ↦
          let found = ap (λ is. any (λ (i : Issue). i.id == id) is) e ∙ there in
          (_, if_ok (any (λ i. i.id == id) s'.tables.issues) _ no_issue _ found refl)
    ]
