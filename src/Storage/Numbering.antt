-- ===== src/Storage/Numbering.antt =====
-- Sequential identifiers: internal/storage/issueops/helpers.go (NextCounterIDTx,
-- SeedCounterFromExistingIssuesTx), child_id.go (GetNextChildIDTx) and ParseHierarchicalID of create.go.
pub mod Children
use bd.Prelude.{
  ℕ, zero, suc, ◌+◌, Bool, true, false, ◌&&◌, ◌||◌, not, Option, none, some, List, [], ◌∷◌, ◌++◌,
  map, any, select, find?, take, drop, eqb, ltb, length, if◌then◌else◌,
}
use bd.Prelude.Int.{ℤ, pos, pos_part, ltb_ℤ}
use bd.Prelude.Text.{Text, codes, ◌==◌, has_prefix, has_infix}
use bd.Types.Issue.{Issue}
use bd.Storage.Store.{Store, CounterRow, IssueCounterRow}
use bd.Ids.Prefix.{last_index}
use bd.Ids.Hierarchy.{generate_child_id}

-- The test holds of some rest of the text.
abbrev pub any_rest : (Text → Bool) → Text → Bool
any_rest p [] = p []
any_rest p (c ∷ s) = p (c ∷ s) || any_rest p s

-- The byte \, which makes the next character of a pattern stand for itself.
abbrev pub escape : ℕ
escape = 92

-- The rest of the text against the rest of the pattern; `escaped` after an escape, which stands for
-- itself at the end of the pattern.
unfoldable pub like_rest : Bool → Text → Text → Bool
like_rest false [] s = s == []
like_rest true [] s = s == escape ∷ []
like_rest true (c ∷ p) [] = false
like_rest true (c ∷ p) (d ∷ s) = eqb c d && like_rest false p s
like_rest false (c ∷ p) s = elim (eqb c b'%') [
  | true ↦ any_rest (like_rest false p) s
  | false ↦ elim (eqb c escape) [
    | true ↦ like_rest true p s
    | false ↦ elim s [ [] ↦ false | d ∷ t ↦ (eqb c b'_' || eqb c d) && like_rest false p t ]
  ]
]

-- text LIKE pattern: % stands for any text, _ for one character, and \ is the escape. A character of
-- several bytes is not modelled.
abbrev pub like : Text → Text → Bool
like = like_rest false

-- ParseHierarchicalID of create.go; `scan_int` is fmt.Sscanf with %d, `none` for an error.
unfoldable pub parse_child_id : (Text → Option ℤ) → Text → Option (Text × ℤ)
parse_child_id scan_int id = elim (last_index b'.' id) [
  | none ↦ none
  | some i ↦ elim (scan_int (drop (i + 1) id)) [ none ↦ none | some n ↦ some (take i id, n) ]
]

-- The loop over the ids of the children.
unfoldable pub max_child : (Text → Option ℤ) → ℕ → List Text → ℕ
max_child scan_int last [] = last
max_child scan_int last (id ∷ ids) = elim (parse_child_id scan_int id) [
  | none ↦ max_child scan_int last ids
  | some (parent, n) ↦ max_child scan_int (if ltb_ℤ (pos last) n then pos_part n else last) ids
]

abbrev pub child_pattern : Text → Text
child_pattern parent = parent ++ codes ".%"

abbrev pub grandchild_pattern : Text → Text
grandchild_pattern parent = parent ++ codes ".%.%"

-- The ids of the direct children among the issues.
unfoldable pub child_ids : Store → Text → List Text
child_ids st parent =
    select (λ id. like (child_pattern parent) id && not (like (grandchild_pattern parent) id))
      (map (λ i. i.id) st.tables.issues)

unfoldable pub last_child : List CounterRow → Text → ℕ
last_child rows parent = elim (find? (λ r. r.parent_id == parent) rows) [
  | none ↦ 0
  | some r ↦ r.last_child
]

-- INSERT INTO child_counters … ON DUPLICATE KEY UPDATE last_child = f(last_child)
unfoldable pub upsert_child_counter : List CounterRow → Text → ℕ → (ℕ → ℕ) → List CounterRow
upsert_child_counter rows parent n f =
    if any (λ r. r.parent_id == parent) rows
    then map (λ r. if r.parent_id == parent then record r { last_child = f r.last_child } else r)
        rows
    else rows ++ (record { parent_id = parent; last_child = n } ∷ [])

-- GetNextChildIDTx; `none` is the violation of the foreign key of child_counters, where the parent
-- is not among the issues. `show` is the format %d.
unfoldable pub get_next_child_id :
    (Text → Option ℤ) → (ℕ → Text) → Store → Text → Option (Text × Store)
get_next_child_id scan_int show st parent =
    let next =
      suc (max_child scan_int (last_child st.child_counters parent) (child_ids st parent)) in
    if any (λ i. i.id == parent) st.tables.issues
    then some (
      generate_child_id show parent next,
      record st { child_counters = upsert_child_counter st.child_counters parent next (λ n. next) },
    )
    else none

-- The suffixes of the issues of a prefix: the loop of SeedCounterFromExistingIssuesTx. `atoi` is
-- strconv.Atoi, `none` for an error.
unfoldable pub max_suffix : (Text → Option ℤ) → Text → ℕ → List Text → ℕ
max_suffix atoi pfx_dash last [] = last
max_suffix atoi pfx_dash last (id ∷ ids) =
    let suffix = if has_prefix id pfx_dash then drop (length pfx_dash) id else id in
    if has_infix suffix (codes ".")
    then max_suffix atoi pfx_dash last ids
    else (elim (atoi suffix) [
      | none ↦ max_suffix atoi pfx_dash last ids
      | some n ↦ max_suffix atoi pfx_dash (if ltb_ℤ (pos last) n then pos_part n else last) ids
    ])

abbrev pub is_counter_of : Text → IssueCounterRow → Bool
is_counter_of prefix r = r.prefix == prefix

-- SeedCounterFromExistingIssuesTx
unfoldable pub seed_counter : (Text → Option ℤ) → Store → Text → Store
seed_counter atoi st prefix =
    let ids = select (like (prefix ++ codes "-%")) (map (λ i. i.id) st.tables.issues) in
    let max_num = max_suffix atoi (prefix ++ codes "-") 0 ids in
    if any (is_counter_of prefix) st.issue_counter
    then st
    else if ltb 0 max_num
    then record st {
      issue_counter = st.issue_counter ++ (record { prefix = prefix; last_id = max_num } ∷ []);
    }
    else st

-- UPDATE issue_counter SET last_id = last_id + 1 WHERE prefix = ?
unfoldable pub increment_counter : Text → List IssueCounterRow → List IssueCounterRow
increment_counter prefix =
    map λ r. if is_counter_of prefix r then record r { last_id = r.last_id + 1 } else r

-- The UPDATE, with the seeding and the first row where it changes no row.
unfoldable pub advance_counter : (Text → Option ℤ) → Store → Text → Store
advance_counter atoi st prefix =
    let seeded = seed_counter atoi st prefix in
    if any (is_counter_of prefix) st.issue_counter
    then record st { issue_counter = increment_counter prefix st.issue_counter }
    else if any (is_counter_of prefix) seeded.issue_counter
    then record seeded { issue_counter = increment_counter prefix seeded.issue_counter }
    else record seeded {
      issue_counter = seeded.issue_counter ++ (record { prefix = prefix; last_id = 1 } ∷ []);
    }

-- NextCounterIDTx; `none` is the error that the counter was not found after all.
unfoldable pub next_counter_id :
    (Text → Option ℤ) → (ℕ → Text) → Store → Text → Option (Text × Store)
next_counter_id atoi show st prefix =
    let after = advance_counter atoi st prefix in
    elim (find? (is_counter_of prefix) after.issue_counter) [
      | none ↦ none
      | some r ↦ some (prefix ++ (b'-' ∷ show r.last_id), after)
    ]
