-- ===== src/Storage/Epics/LastRows.antt =====
-- What a map of rows holds that is filled from batches, in terms of the table.
use bd.Prelude.{
  ◌≡◌, ◌∙◌, refl, sym, ap, Bool, true, false, Bool-cases, inl, inr, Option, none, some,
  Option-cases, List, [], ◌∷◌, ◌++◌, any, select, length, if◌then◌else◌, arith,
}
use bd.Prelude.Text.{Text, ◌==◌, eq_iff, contains}
use bd.Types.Issue.{Issue}
use bd.Storage.Tables.{select_issue}
use bd.Storage.Lifecycle.Rows.{HasKeys, select_issue_found}
use bd.Storage.Blocked.{batches, concat_map, query_batch_size}
use bd.Storage.Blocked.Queries.{any-batches}
use bd.Storage.Epics.{last_row, rows_in}

abbrev pub or_else : {A : Type 0} → Option A → Option A → Option A
or_else (some a) b = some a
or_else none b = b

pub last_row-append :
    (xs ys : List Issue) (id : Text)
    → last_row (xs ++ ys) id ≡ or_else (last_row ys id) (last_row xs id)
unfolding last_row
last_row-append [] ys id = elim (Option-cases (last_row ys id)) [
  | inl e ↦ ground (arith, e)
  | inr (j, e) ↦ ground (arith, e)
]
last_row-append (x ∷ xs) ys id = elim (Option-cases (last_row ys id)) [
  | inl e ↦ ground (arith, e, last_row-append xs ys id)
  | inr (j, e) ↦ ground (arith, e, last_row-append xs ys id)
]

last_row-select :
    (batch : List Text) (rows : List Issue) (id : Text)
    → last_row (select (λ i. contains batch i.id) rows) id
      ≡ (if contains batch id then last_row rows id else none)
unfolding last_row
last_row-select batch [] id = ground arith
last_row-select batch (i ∷ rows) id = elim (Bool-cases (i.id == id)) [
  | inl e ↦
      let same : contains batch i.id ≡ contains batch id =
        ap (contains batch) ((eq_iff i.id id).0 e) in
      ground (arith, same, last_row-select batch rows id)
  | inr e ↦ elim (Option-cases (last_row rows id)) [
    | inl q ↦ ground (arith, q, last_row-select batch rows id)
    | inr (j, q) ↦ ground (arith, q, last_row-select batch rows id)
  ]
]

last_row-concat :
    (rows : List Issue) (parts : List (List Text)) (id : Text)
    → last_row (concat_map (λ batch. select (λ i. contains batch i.id) rows) parts) id
      ≡ (if any (λ batch. contains batch id) parts then last_row rows id else none)
unfolding last_row
last_row-concat rows [] id = refl
last_row-concat rows (part ∷ parts) id =
    let joined =
      last_row-append (select (λ i. contains part i.id) rows)
        (concat_map (λ batch. select (λ i. contains batch i.id) rows) parts) id in
    elim (Option-cases (last_row rows id)) [
      | inl q ↦
          ground (arith, q, joined, last_row-select part rows id, last_row-concat rows parts id)
      | inr (j, q) ↦
          ground (arith, q, joined, last_row-select part rows id, last_row-concat rows parts id)
    ]

-- The rows that are fetched by a list of ids serve every id of the list.
pub last_row-rows_in :
    (rows : List Issue) (ids : List Text) (id : Text)
    → last_row (rows_in rows ids) id ≡ (if contains ids id then last_row rows id else none)
unfolding rows_in
last_row-rows_in rows ids id =
    last_row-concat rows (batches (length ids) query_batch_size ids) id
    ∙ ap (λ b. if b then last_row rows id else none)
        (any-batches (λ u. id == u) (length ids) query_batch_size ids (omega arith) (omega arith))

last_row-cons :
    (i : Issue) (rows : List Issue) (id : Text)
    → last_row (i ∷ rows) id ≡ or_else (last_row rows id) (if i.id == id then some i else none)
unfolding last_row
last_row-cons i rows id = elim (Option-cases (last_row rows id)) [
  | inl q ↦ rw q refl
  | inr (j, q) ↦ rw q refl
]

-- The first row of the table, where the rest has none, or no other.
first_row :
    (i : Issue) (rest : Option Issue) (b : Bool)
    → ((j : Issue) → rest ≡ some j → b ≡ true → j ≡ i)
    → or_else rest (if b then some i else none) ≡ (if b then some i else rest)
first_row i none b h = refl
first_row i (some j) true h = ap some (h j refl refl)
first_row i (some j) false h = refl

-- With the id as primary key, the last row of an id is the first.
pub last_row-select_issue :
    (rows : List Issue) (id : Text) → HasKeys rows → last_row rows id ≡ select_issue rows id
unfolding last_row
last_row-select_issue [] id keys = refl
last_row-select_issue (i ∷ rows) id keys =
    let rest = last_row-select_issue rows id (λ j k mj mk q. keys j k (inr mj) (inr mk) q) in
    last_row-cons i rows id
    ∙ first_row i (last_row rows id) (i.id == id) (λ j q e.
      let (m, own) = select_issue_found rows id j (sym rest ∙ q) in
      keys j i (inr m) (inl refl) (own ∙ sym ((eq_iff i.id id).0 e)))
    ∙ ap (λ o. if i.id == id then some i else o) rest
