-- ===== src/Storage/Filters.antt =====
-- internal/storage/issueops/filters.go, BuildIssueFilterClauses and LooksLikeIssueID: the WHERE clause of a
-- search, as a test of a row. A NULL text is the empty text.
use bd.Prelude.{
  ℕ, ◌+◌, ◌*◌, ◌/◌, Bool, true, false, ◌&&◌, ◌||◌, not, Option, none, some, List, [], ◌∷◌, ◌++◌,
  any, all, eqb, ltb, length, if◌then◌else◌,
}
use bd.Prelude.Int.{ltb_ℤ}
use bd.Prelude.Text.{
  Text, codes, ◌==◌, contains, is_digit, is_lower, is_upper, index_byte, to_lower,
}
use bd.Types.Status.{status_closed}
use bd.Types.DependencyType.{Dependency, dep_parent_child}
use bd.Types.Issue.{Issue}
use bd.Types.Filters.{IssueFilter}
use bd.Storage.Store.{Store, LabelRow}
use bd.Storage.Numbering.{like}
use bd.Storage.Creation.{second}
use bd.Storage.Metadata.{validate_metadata_key, json_metadata_path}

-- FilterTables, by their rows.
pub record FilterTables : Type 0 where
  pub main : List Issue
  pub label_rows : List LabelRow
  pub dependencies : List Dependency

abbrev pub issues_filter_tables : Store → FilterTables
issues_filter_tables st = record {
  main = st.tables.issues;
  label_rows = st.labels;
  dependencies = st.tables.dependencies;
}

abbrev pub wisps_filter_tables : Store → FilterTables
wisps_filter_tables st = record {
  main = st.tables.wisps;
  label_rows = st.wisp_labels;
  dependencies = st.tables.wisp_dependencies;
}

-- LooksLikeIssueID
unfoldable pub looks_like_issue_id : Text → Bool
looks_like_issue_id query = elim (index_byte b'-' query) [
  | none ↦ false
  | some idx ↦
      not (eqb idx 0)
      && ltb (idx + 1) (length query)
      && all (λ c. is_digit c || is_lower c || is_upper c || eqb c b'-' || eqb c b'.') query
]

-- A clause that stands only where the field of the filter is set.
abbrev pub where_set : {A : Type 0} → Option A → (A → Bool) → Bool
where_set none p = true
where_set (some a) p = p a

abbrev pub where_text : Text → (Text → Bool) → Bool
where_text [] p = true
where_text (c ∷ s) p = p (c ∷ s)

abbrev pub where_list : List Text → (List Text → Bool) → Bool
where_list [] p = true
where_list (x ∷ xs) p = p (x ∷ xs)

abbrev pub where_flag : Bool → Bool → Bool
where_flag flag b = not flag || b

-- A test of a column that may be NULL, which NULL does not pass.
abbrev pub not_null : {A : Type 0} → Option A → (A → Bool) → Bool
not_null none p = false
not_null (some a) p = p a

-- column = ? for a column that stores the empty text as NULL.
abbrev pub is_text : Text → Text → Bool
is_text column t = not (column == []) && column == t

-- LOWER(column) LIKE '%query%'
abbrev pub has_text : Text → Text → Bool
has_text column query = like (codes "%" ++ (to_lower query ++ codes "%")) (to_lower column)

-- id IN (SELECT issue_id FROM dependencies WHERE type = 'parent-child' …)
abbrev pub is_child : List Dependency → Text → Bool
is_child deps id = any (λ d. d.type == dep_parent_child && d.issue_id == id) deps

abbrev pub is_child_of : List Dependency → Text → Text → Bool
is_child_of deps parent id =
    any (λ d. d.type == dep_parent_child && d.depends_on_id == parent && d.issue_id == id) deps
    || (like (parent ++ codes ".%") id && not (is_child deps id))

abbrev pub has_label : List LabelRow → Text → Text → Bool
has_label rows id label = any (λ r. r.issue_id == id && r.label == label) rows

-- Format(time.RFC3339), which cuts off the parts of a second.
abbrev pub formatted : ℕ → ℕ
formatted t = t / second * second

-- Whether the keys of the metadata pass ValidateMetadataKey; the loop over them stops at an error.
unfoldable pub valid_keys : Text → List (Text × Text) → Bool
unfolding validate_metadata_key
valid_keys has_key fields =
    where_text has_key validate_metadata_key && all (λ e. validate_metadata_key e.0) fields

-- The clauses of the text query.
unfoldable pub query_clauses : Text → Issue → Bool
query_clauses query i = where_text query (λ q.
    if looks_like_issue_id q
    then i.id == to_lower q
      || like (to_lower q ++ codes "%") i.id
      || has_text i.title q
      || not_null i.external_ref (λ r. has_text r q)
    else has_text i.title q || like (codes "%" ++ (to_lower q ++ codes "%")) i.id)

unfoldable pub text_clauses : IssueFilter → Issue → Bool
text_clauses f i =
    where_text f.title_search (has_text i.title)
    && where_text f.title_contains (has_text i.title)
    && where_text f.description_contains (has_text i.description)
    && where_text f.notes_contains (has_text i.notes)
    && where_text f.external_ref_contains (λ q. not_null i.external_ref (λ r. has_text r q))

unfoldable pub kind_clauses : FilterTables → IssueFilter → Issue → Bool
kind_clauses tables f i =
    where_set f.status (λ s. i.status == s)
    && where_list f.statuses (λ ss. contains ss i.status)
    && where_list f.exclude_status (λ ss. not (contains ss i.status))
    && where_set f.issue_type (λ t. any (λ j. j.issue_type == t && j.id == i.id) tables.main)
    && where_list f.exclude_types (λ ts. not (contains ts i.issue_type))
    && where_set f.assignee (is_text i.assignee)
    && where_set f.priority (λ p. not (ltb_ℤ i.priority p) && not (ltb_ℤ p i.priority))
    && where_set f.priority_min (λ p. not (ltb_ℤ i.priority p))
    && where_set f.priority_max (λ p. not (ltb_ℤ p i.priority))

unfoldable pub place_clauses : FilterTables → IssueFilter → Issue → Bool
place_clauses tables f i =
    where_list f.ids (λ ids. contains ids i.id)
    && where_text f.id_prefix (λ p. like (p ++ codes "%") i.id)
    && where_text f.spec_id_prefix (λ p. like (p ++ codes "%") i.spec_id)
    && where_set f.parent_id (λ p. is_child_of tables.dependencies p i.id)
    && where_flag f.no_parent (not (is_child tables.dependencies i.id))
    && where_set f.mol_type (λ t. i.mol_type == t)
    && where_set f.wisp_type (λ t. i.wisp_type == t)
    && all (has_label tables.label_rows i.id) f.labels
    && where_list f.labels_any (λ ls. any (has_label tables.label_rows i.id) ls)
    && where_flag f.no_labels (not (any (λ r. r.issue_id == i.id) tables.label_rows))

abbrev pub agrees : Bool → Bool → Bool
agrees b c = if b then c else not c

unfoldable pub flag_clauses : IssueFilter → Issue → Bool
flag_clauses f i =
    where_set f.pinned (λ b. agrees b i.pinned)
    && where_set f.source_repo (λ r. i.source_repo == r)
    && where_set f.ephemeral (λ b. agrees b i.ephemeral)
    && where_set f.is_template (λ b. agrees b i.is_template)
    && where_flag f.empty_description (i.description == [])
    && where_flag f.no_assignee (i.assignee == [])

unfoldable pub time_clauses : ℕ → IssueFilter → Issue → Bool
time_clauses now f i =
    where_set f.created_after (λ t. ltb (formatted t) i.created_at)
    && where_set f.created_before (λ t. ltb i.created_at (formatted t))
    && where_set f.updated_after (λ t. ltb (formatted t) i.updated_at)
    && where_set f.updated_before (λ t. ltb i.updated_at (formatted t))
    && where_set f.closed_after (λ t. not_null i.closed_at (λ c. ltb (formatted t) c))
    && where_set f.closed_before (λ t. not_null i.closed_at (λ c. ltb c (formatted t)))
    && where_set f.defer_after (λ t. not_null i.defer_until (λ d. ltb (formatted t) d))
    && where_set f.defer_before (λ t. not_null i.defer_until (λ d. ltb d (formatted t)))
    && where_set f.due_after (λ t. not_null i.due_at (λ d. ltb (formatted t) d))
    && where_set f.due_before (λ t. not_null i.due_at (λ d. ltb d (formatted t)))
    && where_flag f.deferred (not_null i.defer_until (λ d. true))
    && where_flag f.overdue
        (not_null i.due_at (λ d. ltb d (formatted now)) && not (i.status == status_closed))

-- `json_value` is JSON_UNQUOTE(JSON_EXTRACT(metadata, path)), `none` for NULL.
module _ (json_value : Text → Text → Option Text) where
  unfoldable pub metadata_clauses : List (Text × Text) → Issue → Bool
  metadata_clauses fields i =
      all (λ e. not_null (json_value i.metadata (json_metadata_path e.0)) (λ v. v == e.1)) fields

  -- BuildIssueFilterClauses: the conjunction of the clauses; `none` is the error of a key.
  unfoldable pub build_issue_filter_clauses :
      Text → IssueFilter → FilterTables → ℕ → Option (Issue → Bool)
  build_issue_filter_clauses query f tables now =
      if valid_keys f.has_metadata_key f.metadata_fields
      then some (λ i.
        query_clauses query i
        && text_clauses f i
        && kind_clauses tables f i
        && place_clauses tables f i
        && flag_clauses f i
        && time_clauses now f i
        && where_text f.has_metadata_key
            (λ k. not_null (json_value i.metadata (json_metadata_path k)) (λ v. true))
        && metadata_clauses f.metadata_fields i)
      else none
