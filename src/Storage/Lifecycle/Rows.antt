-- ===== src/Storage/Lifecycle/Rows.antt =====
-- Properties of all rows of a table, and how an UPDATE of one id keeps them.
use bd.Prelude.{
  ◌≡◌, ◌∙◌, refl, sym, subst, ap, Bool-cases, inl, inr, List, [], ◌∷◌, some, In, In-map_elim, arith,
  if◌then◌else◌,
}
use bd.Prelude.Text.{Text, ◌==◌, eq_iff}
use bd.Types.Issue.{Issue}
use bd.Storage.Tables.{
  Tables, select_issue, update_rows, get_issue, issue_rows, is_active_wisp, wisp_table_routing,
}

abbrev pub EachRow : (Issue → Type 0) → List Issue → Type 0
EachRow P rows = (i : Issue) → In i rows → P i

-- The id is the primary key.
abbrev pub HasKeys : List Issue → Type 0
HasKeys rows = (i j : Issue) → In i rows → In j rows → i.id ≡ j.id → i ≡ j

pub select_issue_found :
    (rows : List Issue) (id : Text) (i : Issue)
    → select_issue rows id ≡ some i
    → In i rows × (i.id ≡ id)
select_issue_found [] id i h = cc
select_issue_found (r ∷ rows) id i h = elim (Bool-cases (r.id == id)) [
  | inl e ↦ (inl (ground arith), ground (arith, eq_iff r.id id))
  | inr n ↦ let (m, q) = select_issue_found rows id i (ground arith) in (inr m, q)
]

-- A row of the updated table is an old row of another id, or the change of one of that id.
pub In-update_rows :
    (f : Issue → Issue) (id : Text) (rows : List Issue) (j : Issue)
    → In j (update_rows f id rows)
    → (i : Issue) × In i rows × (j ≡ (if i.id == id then f i else i))
In-update_rows f id rows j m = In-map_elim (λ i. if i.id == id then f i else i) j rows m

pub EachRow-update_rows :
    (P : Issue → Type 0) (f : Issue → Issue) (id : Text) (rows : List Issue)
    → EachRow P rows
    → ((i : Issue) → In i rows → i.id ≡ id → P (f i))
    → EachRow P (update_rows f id rows)
EachRow-update_rows P f id rows old changed j m =
    let (i, n, e) = In-update_rows f id rows j m in
    elim (Bool-cases (i.id == id)) [
      | inl same ↦ subst P (sym (rw same at e)) (changed i n ((eq_iff i.id id).0 same))
      | inr other ↦ subst P (sym (rw other at e)) (old i n)
    ]

change-id :
    (f : Issue → Issue) (id : Text) (i : Issue)
    → (f i).id ≡ i.id
    → (if i.id == id then f i else i).id ≡ i.id
change-id f id i kept = elim (Bool-cases (i.id == id)) [
  | inl same ↦ rw same kept
  | inr other ↦ rw other refl
]

pub HasKeys-update_rows :
    (f : Issue → Issue) (id : Text) (rows : List Issue)
    → ((i : Issue) → (f i).id ≡ i.id)
    → HasKeys rows
    → HasKeys (update_rows f id rows)
HasKeys-update_rows f id rows kept keys j k mj mk e =
    let change : Issue → Issue = λ i. if i.id == id then f i else i in
    let (i, ni, ei) = In-update_rows f id rows j mj in
    let (l, nl, el) = In-update_rows f id rows k mk in
    let ids : i.id ≡ l.id =
      sym (change-id f id i (kept i))
      ∙ sym (ap (λ (x : Issue). x.id) ei)
      ∙ e
      ∙ ap (λ (x : Issue). x.id) el
      ∙ change-id f id l (kept l) in
    ei ∙ ap change (keys i l ni nl ids) ∙ sym el

pub get_issue-id : (db : Tables) (id : Text) (i : Issue) → get_issue db id ≡ some i → i.id ≡ id
unfolding get_issue
get_issue-id db id i h =
    (select_issue_found (issue_rows db (wisp_table_routing (is_active_wisp db id)).issue_table) id i
      h).1
