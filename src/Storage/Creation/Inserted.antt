-- ===== src/Storage/Creation/Inserted.antt =====
-- internal/storage/issueops/create.go: the preparation of an issue, its identifier and its row, and
-- what they do to the tables.
use bd.Prelude.{
  none, ℕ, ◌≡◌, ◌⊎◌, refl, sym, ap, ◌∙◌, subst, ◌&&◌, Bool, true, false, Bool-cases, inl, inr,
  Option, some, Option-cases, List, [], ◌∷◌, ◌++◌, any, any_intro, In, In-append, arith,
}
use bd.Prelude.Int.{ℤ}
use bd.Prelude.Text.{Text, codes, ◌==◌, eq_iff}
use bd.Types.Issue.{Issue, validate_with_custom}
use bd.Types.Issue.Valid.{validate_with_custom_iff}
use bd.Storage.Tables.{Tables, IssueTable, EventTable, issue_rows, set_issue_rows}
use bd.Storage.Store.{Store}
use bd.Storage.Config.{BatchContext, is_counter_mode}
use bd.Storage.Numbering.{advance_counter, seed_counter, next_counter_id}
use bd.Storage.Lifecycle.Rows.{EachRow, HasKeys, EachRow-update_rows, HasKeys-update_rows}
use bd.Storage.Lifecycle.Stamps.{IsStamped}
use bd.Storage.Lifecycle.Consistent.{IsConsistent, record_event-IsConsistent}
use bd.Storage.Creation.{
  CreationError, Result, ok, err, NewIssue, NewComment, External, table_routing, prepare_issue,
  ensure_closed_at, normalize_times, generate_id_in_table, resolve_id, resolve_prefix, is_issues,
  insert_issue, merge_row, row_of, is_new,
}
use bd.Storage.Creation.Persist.{persist_labels, persist_comments, record_created, persist_issue}

pub Result-cases :
    {A : Type 0} (r : Result A) → ((e : CreationError) × (r ≡ err e)) ⊎ ((a : A) × (r ≡ ok a))
Result-cases (ok a) = inr (a, refl)
Result-cases (err e) = inl (e, refl)

-- An issue that passes the preparation is stamped.
pub prepare_issue-IsStamped :
    (ext : External) (bc : BatchContext) (now : ℕ) (i j : Issue)
    → prepare_issue ext bc now i ≡ ok j
    → IsStamped j
unfolding prepare_issue
prepare_issue-IsStamped ext bc now i j h =
    let prepared = ensure_closed_at (normalize_times now i) in
    let verdict = validate_with_custom ext.json_valid prepared bc.custom_statuses bc.custom_types in
    elim (Option-cases verdict) [
      | inl e ↦
          let same : prepared ≡ j = ground (arith, e) in
          subst IsStamped same
            ((validate_with_custom_iff ext.json_valid prepared bc.custom_statuses bc.custom_types).0
              e).0.closed_iff
      | inr (x, e) ↦ ground (arith, e)
    ]

-- The identifier may take a number from the counters, and leaves the tables alone.
seed_counter-tables :
    (atoi : Text → Option ℤ) (st : Store) (prefix : Text)
    → (seed_counter atoi st prefix).tables ≡ st.tables
unfolding seed_counter
seed_counter-tables atoi st prefix = ground arith

advance_counter-tables :
    (atoi : Text → Option ℤ) (st : Store) (prefix : Text)
    → (advance_counter atoi st prefix).tables ≡ st.tables
unfolding advance_counter
advance_counter-tables atoi st prefix = ground (arith, seed_counter-tables atoi st prefix)

next_counter_id-tables :
    (atoi : Text → Option ℤ) (show : ℕ → Text) (st : Store) (prefix id : Text) (after : Store)
    → next_counter_id atoi show st prefix ≡ some (id, after)
    → after.tables ≡ st.tables
unfolding next_counter_id
next_counter_id-tables atoi show st prefix id after h =
    ground (arith, advance_counter-tables atoi st prefix)

generate_id_in_table-tables :
    (ext : External) (st : Store) (table : IssueTable) (prefix : Text) (i : Issue) (actor id : Text)
    (after : Store)
    → generate_id_in_table ext st table prefix i actor ≡ ok (id, after)
    → after.tables ≡ st.tables
unfolding generate_id_in_table
generate_id_in_table-tables ext st table prefix i actor id after h =
    elim (Bool-cases (is_issues table && is_counter_mode st)) [
      | inl e ↦ elim (Option-cases (next_counter_id ext.atoi ext.show st prefix)) [
        | inl q ↦ ground (arith, e, q)
        | inr ((x, y), q) ↦
            next_counter_id-tables ext.atoi ext.show st prefix id after (ground (arith, e, q))
      ]
      | inr e ↦ ground (arith, e)
    ]

pub resolve_id-tables :
    (ext : External) (bc : BatchContext) (st : Store) (n : NewIssue) (actor id : Text)
    (after : Store)
    → resolve_id ext bc st n actor ≡ ok (id, after)
    → after.tables ≡ st.tables
unfolding resolve_id
resolve_id-tables ext bc st n actor id after h = elim (Bool-cases (n.issue.id == [])) [
  | inl e ↦
      generate_id_in_table-tables ext st (table_routing n.issue).0 (resolve_prefix bc n) n.issue
        actor id after (ground (arith, e))
  | inr e ↦ ground (arith, e)
]

In-snoc : {A : Type 0} (a x : A) (xs : List A) → In a (xs ++ (x ∷ [])) → In a xs ⊎ (a ≡ x)
In-snoc a x xs m = ground (arith, In-append a xs (x ∷ []))

absent_id :
    (rows : List Issue) (id : Text) (j : Issue)
    → any (λ (k : Issue). k.id == id) rows ≡ false
    → In j rows
    → ¬ (j.id ≡ id)
absent_id rows id j e m q =
    ground (arith, any_intro (λ (k : Issue). k.id == id) j rows m ((eq_iff j.id id).1 q))

module _ (ext : External) (i : Issue) (rows : List Issue) where
  pub insert_issue-IsStamped :
      IsStamped i → EachRow IsStamped rows → EachRow IsStamped (insert_issue ext i rows)
  unfolding insert_issue
  insert_issue-IsStamped s old = elim (Bool-cases (any (λ (j : Issue). j.id == i.id) rows)) [
    | inl e ↦ rw e (EachRow-update_rows IsStamped (merge_row ext i) i.id rows old (λ j m q. s))
    | inr e ↦ rw e (λ j m. elim (In-snoc j (row_of ext i) rows m) [
      | inl k ↦ old j k
      | inr q ↦ subst IsStamped (sym q) s
    ])
  ]

  module _ (keys : HasKeys rows) (absent : any (λ (j : Issue). j.id == i.id) rows ≡ false) where
    HasKeys_snoc :
        (j k : Issue)
        → In j rows ⊎ (j ≡ row_of ext i)
        → In k rows ⊎ (k ≡ row_of ext i)
        → j.id ≡ k.id
        → j ≡ k
    HasKeys_snoc j k (inl mj) (inl mk) q = keys j k mj mk q
    HasKeys_snoc j k (inl mj) (inr e) q =
        absurd (absent_id rows i.id j absent mj (q ∙ ap (λ (x : Issue). x.id) e))
    HasKeys_snoc j k (inr e) (inl mk) q =
        absurd (absent_id rows i.id k absent mk (sym q ∙ ap (λ (x : Issue). x.id) e))
    HasKeys_snoc j k (inr e) (inr f) q = e ∙ sym f

  pub insert_issue-HasKeys : HasKeys rows → HasKeys (insert_issue ext i rows)
  unfolding insert_issue
  insert_issue-HasKeys keys = elim (Bool-cases (any (λ (j : Issue). j.id == i.id) rows)) [
    | inl e ↦ rw e (HasKeys-update_rows (merge_row ext i) i.id rows (λ j. refl) keys)
    | inr e ↦ rw e (λ j k mj mk q.
        HasKeys_snoc keys e j k (In-snoc j (row_of ext i) rows mj)
          (In-snoc k (row_of ext i) rows mk) q)
  ]

pub persist_labels-tables : (st : Store) (i : Issue) → (persist_labels st i).tables ≡ st.tables
unfolding persist_labels
persist_labels-tables st i = ground arith

pub persist_comments-tables :
    (st : Store) (i : Issue) (comments : List NewComment) (now : ℕ)
    → (persist_comments st i comments now).tables ≡ st.tables
unfolding persist_comments
persist_comments-tables st i comments now = ground arith

pub record_created-IsConsistent :
    (fresh : Bool) (log : EventTable) (id actor : Text) (db : Tables)
    → IsConsistent db
    → IsConsistent (record_created fresh log id actor db)
unfolding record_created
record_created-IsConsistent true log id actor db c =
    record_event-IsConsistent db log
      (record {
        issue_id = id;
        event_type = codes "created";
        actor = actor;
        old_value = [];
        new_value = [];
        comment = none;
      })
      c
record_created-IsConsistent false log id actor db c = c

-- The tables that the insertion of an issue leaves.
abbrev pub inserted_tables : External → Tables → Issue → Text → Tables
inserted_tables ext db i actor =
    let table = (table_routing i).0 in
    let rows = issue_rows db table in
    record_created (is_new i rows) (table_routing i).1 i.id actor
      (set_issue_rows db table (insert_issue ext i rows))

pub persist_issue-tables :
    (ext : External) (st : Store) (i : Issue) (comments : List NewComment) (actor : Text) (now : ℕ)
    → (persist_issue ext st i comments actor now).tables ≡ inserted_tables ext st.tables i actor
unfolding persist_issue
persist_issue-tables ext st i comments actor now =
    let inserted : Store = record st { tables = inserted_tables ext st.tables i actor } in
    persist_comments-tables (persist_labels inserted i) i comments now
    ∙ persist_labels-tables inserted i
