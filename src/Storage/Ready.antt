-- ===== src/Storage/Ready.antt =====
-- internal/storage/issueops/ready_work.go, GetReadyWorkInTx, with the computation of the blocked issues
-- of internal/storage/embeddeddolt/queries.go. A NULL text is the empty text.
pub mod Meaning
pub mod Listed
use bd.Prelude.{
  ℕ, ◌+◌, Bool, true, false, ◌&&◌, ◌||◌, not, Option, none, some, List, [], ◌∷◌, ◌++◌, map, any,
  all, select, leb, ltb, length, if◌then◌else◌,
}
use bd.Prelude.Int.{ℤ, pos, negsuc, ltb_ℤ}
use bd.Prelude.Order.{keys_leb, sort_by}
use bd.Prelude.Text.{Text, codes, ◌==◌, contains}
use bd.Types.Status.{Status, status_open, status_in_progress}
use bd.Types.IssueType.{IssueType}
use bd.Types.Issue.{Issue}
use bd.Types.Filters.{
  WorkFilter, SortPolicy, sort_policy_hybrid, sort_policy_priority, sort_policy_oldest,
}
use bd.Storage.Tables.{Tables}
use bd.Storage.Store.{Store}
use bd.Storage.Blocked.{batches, query_batch_size, load_children, compute_blocked_ids}
use bd.Storage.Epics.{get_issues_by_ids, last_row}
use bd.Storage.Creation.{second}
use bd.Storage.Filters.{
  where_set, where_text, not_null, is_text, is_child_of, has_label, valid_keys, metadata_clauses,
}
use bd.Types.Filters.{IssueFilter, no_filter}
use bd.Storage.Search.{limited, priority_keys, search_issues}

-- excludeTypes
abbrev pub excluded_types : List IssueType
excluded_types =
    codes "merge-request"
    ∷ codes "gate"
    ∷ codes "molecule"
    ∷ codes "message"
    ∷ codes "agent"
    ∷ codes "role"
    ∷ codes "rig"
    ∷ []

-- getChildrenOfIssuesInTx
unfoldable pub get_children_of_issues : Tables → List Text → List Text
get_children_of_issues db parents = map (λ d. d.issue_id) (load_children db true parents)

-- defer_until > UTC_TIMESTAMP()
abbrev pub is_deferred : ℕ → Issue → Bool
is_deferred now i = not_null i.defer_until (λ t. ltb now t)

-- getChildrenOfDeferredParentsInTx
unfoldable pub get_children_of_deferred_parents : Tables → ℕ → List Text
get_children_of_deferred_parents db now =
    get_children_of_issues db (map (λ i. i.id) (select (is_deferred now) db.issues))

-- id NOT IN (…), once for each batch of the ids.
unfoldable pub outside : List Text → Text → Bool
outside ids id = all (λ batch. not (contains batch id)) (batches (length ids) query_batch_size ids)

unfoldable pub status_clause : WorkFilter → Issue → Bool
status_clause f i =
    if f.status == []
    then i.status == status_open || i.status == status_in_progress
    else i.status == f.status

-- id IN (SELECT id FROM issues WHERE …)
unfoldable pub type_clause : List Issue → WorkFilter → Issue → Bool
type_clause rows f i =
    if f.type == []
    then any (λ j. not (contains excluded_types j.issue_type) && j.id == i.id) rows
    else any (λ j. j.issue_type == f.type && j.id == i.id) rows

unfoldable pub assignee_clause : WorkFilter → Issue → Bool
assignee_clause f i =
    if f.unassigned then i.assignee == [] else where_set f.assignee (is_text i.assignee)

-- The order of the rows: those of the last 48 hours first and by priority, the others by age.
abbrev pub is_recent : ℕ → Issue → Bool
is_recent now i = leb now (i.created_at + 172800000000000)

unfoldable pub policy_keys : SortPolicy → ℕ → Issue → List ℤ
policy_keys policy now i =
    if policy == sort_policy_oldest
    then pos i.created_at ∷ []
    else if policy == sort_policy_hybrid || policy == []
    then (if is_recent now i then pos 0 else pos 1)
      ∷ (if is_recent now i then i.priority else pos 999)
      ∷ pos i.created_at
      ∷ []
    else priority_keys i

abbrev pub by_policy : SortPolicy → ℕ → Issue → Issue → Bool
by_policy policy now i j = keys_leb (policy_keys policy now i) (policy_keys policy now j) i.id j.id

-- The fetched issues in the order of their ids; an id without a row is passed over.
unfoldable pub in_order : List Issue → List Text → List Issue
in_order issues [] = []
in_order issues (id ∷ ids) =
    let rest = in_order issues ids in elim (last_row issues id) [ none ↦ rest | some i ↦ i ∷ rest ]

-- The filter of the search among the wisps.
abbrev pub wisp_filter : WorkFilter → IssueFilter
wisp_filter f = record no_filter {
  limit = f.limit;
  ephemeral = some true;
  status = if f.status == [] then none else some f.status;
}

-- `unmarshal_gate` is json.Unmarshal into WaitsForMeta.
module _ (unmarshal_gate : Text → Option Text) where
  -- The ids that block, as the caller computes them, and their children.
  unfoldable pub blocked_ids : Tables → Bool → List Text
  blocked_ids db include_wisps = elim (compute_blocked_ids unmarshal_gate db include_wisps) [
    | [] ↦ []
    | b ∷ bs ↦ (b ∷ bs) ++ get_children_of_issues db (b ∷ bs)
  ]

-- `json_value` is JSON_UNQUOTE(JSON_EXTRACT(metadata, path)), `none` for NULL.
module _ (json_value : Text → Text → Option Text) where
  unfoldable pub filter_clauses : Store → WorkFilter → Issue → Bool
  filter_clauses st f i =
      where_set f.priority (λ p. not (ltb_ℤ i.priority p) && not (ltb_ℤ p i.priority))
      && type_clause st.tables.issues f i
      && assignee_clause f i
      && all (has_label st.labels i.id) f.labels
      && where_set f.parent_id (λ p. is_child_of st.tables.dependencies p i.id)
      && where_text f.molecule_id (λ p. is_child_of st.tables.dependencies p i.id)
      && where_text f.has_metadata_key
          (λ k. not_null (json_value i.metadata (codes "$." ++ k)) (λ v. true))
      && metadata_clauses json_value f.metadata_fields i

  -- The search among the wisps, whose error is passed over.
  unfoldable pub ready_wisps : Store → WorkFilter → ℕ → List Issue
  ready_wisps st f now =
      if f.include_ephemeral
      then (elim (search_issues json_value st now [] (wisp_filter f)) [ none ↦ [] | some ws ↦ ws ])
      else []

module _ (unmarshal_gate : Text → Option Text) (json_value : Text → Text → Option Text) where
  -- The WHERE clause.
  unfoldable pub is_ready_row : Store → WorkFilter → ℕ → Issue → Bool
  is_ready_row st f now i =
      status_clause f i
      && not i.pinned
      && (f.include_ephemeral || not i.ephemeral)
      && filter_clauses json_value st f i
      && (f.include_deferred
          || (not (is_deferred now i)
              && outside (get_children_of_deferred_parents st.tables now) i.id))
      && outside (blocked_ids unmarshal_gate st.tables f.include_ephemeral) i.id

  -- The ids that the query gives.
  unfoldable pub ready_ids : Store → WorkFilter → ℕ → List Text
  ready_ids st f now =
      map (λ i. i.id)
        (limited f.limit
          (sort_by (by_policy f.sort_policy now) (select (is_ready_row st f now) st.tables.issues)))

  -- GetReadyWorkInTx; `none` is the error of a key of the metadata.
  unfoldable pub get_ready_work : Store → WorkFilter → ℕ → Option (List Issue)
  get_ready_work st f now =
      if valid_keys f.has_metadata_key f.metadata_fields
      then some (
          in_order (get_issues_by_ids st.tables (ready_ids st f now)) (ready_ids st f now)
          ++ ready_wisps json_value st f now)
      else none
