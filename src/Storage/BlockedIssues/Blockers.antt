-- ===== src/Storage/BlockedIssues/Blockers.antt =====
-- internal/storage/issueops/blocked.go: which issues the map of GetBlockedIssuesInTx holds, and with which
-- blockers, in terms of the rows of the tables.
use bd.Prelude.{
  ◌≡◌, ◌∙◌, sym, ap, Bool, true, ◌&&◌, ◌||◌, not, Option, none, some, List, [], ◌∷◌, eqb, length,
  arith, if◌then◌else◌,
}
use bd.Prelude.{any-map}
use bd.Prelude.Distinct.{IsDistinct}
use bd.Prelude.Text.{Text, ◌==◌, contains}
use bd.Types.DependencyType.{Dependency}
use bd.Storage.Tables.{Tables}
use bd.Storage.Blocked.{active_ids, all_deps, load_children, compute_blocked_ids}
use bd.Storage.Blocked.Meaning.{active, contains-active_ids}
use bd.Storage.Blocked.Steps.{compute_blocked_ids-blocks}
use bd.Storage.Ready.{get_children_of_issues}
use bd.Storage.Ready.Meaning.{
  some_parent, some_parent_ext, has_blocker, contains-get_children_of_issues,
}
use bd.Storage.BlockedIssues.{
  get_key, keys, get_children_with_parents, children_of_blocked, add_blockers, blocked_set,
  blocker_map,
}
use bd.Storage.BlockedIssues.Maps.{
  has_value, blockers_in, contains-keys, has_value-set_parents, contains-add_children,
  get_key-add_blockers, get_key-add_parents,
}
use bd.Storage.BlockedIssues.Keys.{IsDistinct-add_blockers, IsDistinct-add_parents}

-- The active targets of the issue's rows of the blocking types, in the order of the rows.
abbrev pub own_blockers : Tables → Text → List Text
own_blockers db id = blockers_in (active db true) (all_deps db true) id

own_blockers_lem :
    (db : Tables) (id : Text)
    → blockers_in (contains (active_ids db true)) (all_deps db true) id ≡ own_blockers db id
own_blockers_lem db id =
    ap (λ (t : Text → Bool). blockers_in t (all_deps db true) id)
      (λ i x. contains-active_ids db true x i)

module _ (unmarshal_gate : Text → Option Text) (db : Tables) where
  -- The issue is active and a parent of it is blocked by a row of its own.
  abbrev pub parent_blocked : Text → Bool
  parent_blocked id = active db true id && some_parent db (has_blocker unmarshal_gate db true) id

  has_value-children :
      (id : Text)
      → has_value (get_key (children_of_blocked unmarshal_gate db) id)
        ≡ some_parent db (has_blocker unmarshal_gate db true) id
  unfolding get_children_with_parents get_key get_children_of_issues
  has_value-children id =
      let found = compute_blocked_ids unmarshal_gate db true in
      has_value-set_parents (load_children db true found) [] id
      ∙ sym (any-map (λ u. id == u) (λ (d : Dependency). d.issue_id) (load_children db true found))
      ∙ contains-get_children_of_issues db found id
      ∙ some_parent_ext db (contains found) (has_blocker unmarshal_gate db true)
          (compute_blocked_ids-blocks unmarshal_gate db true) id

  contains-blocked_set :
      (id : Text)
      → contains (blocked_set unmarshal_gate db) id
        ≡ (has_blocker unmarshal_gate db true id || parent_blocked id)
  unfolding blocked_set
  contains-blocked_set id = ground (
    arith,
    contains-add_children (active_ids db true) (children_of_blocked unmarshal_gate db)
        (compute_blocked_ids unmarshal_gate db true) id,
    compute_blocked_ids-blocks unmarshal_gate db true id,
    contains-active_ids db true id,
    contains-keys (children_of_blocked unmarshal_gate db) id,
    has_value-children id,
  )

  -- The issue is listed where it has a blocker to name: an active target of its own rows, if such a row
  -- blocks it, or a blocked parent.
  abbrev pub is_listed : Text → Bool
  is_listed id =
      has_blocker unmarshal_gate db true id && not (eqb (length (own_blockers db id)) 0)
      || parent_blocked id

  pub get_key-blocker_map :
      (id : Text)
      → get_key (blocker_map unmarshal_gate db) id ≡ (
          if contains (blocked_set unmarshal_gate db) id
          then (elim (own_blockers db id) [
            | b ∷ bs ↦ some (b ∷ bs)
            | [] ↦
                if active db true id
                then (elim (get_key (children_of_blocked unmarshal_gate db) id) [
                  | none ↦ none
                  | some p ↦ some (p ∷ [])
                ])
                else none
          ])
          else none)
  unfolding blocker_map get_key
  get_key-blocker_map id = ground (
    arith,
    get_key-add_parents (active_ids db true) (blocked_set unmarshal_gate db)
        (children_of_blocked unmarshal_gate db)
        (add_blockers (active_ids db true) (blocked_set unmarshal_gate db) [] (all_deps db true))
        id,
    get_key-add_blockers (active_ids db true) (blocked_set unmarshal_gate db) (all_deps db true) []
        id,
    own_blockers_lem db id,
    contains-active_ids db true id,
  )

  pub contains-keys-blocker_map :
      (id : Text) → contains (keys (blocker_map unmarshal_gate db)) id ≡ is_listed id
  contains-keys-blocker_map id = ground (
    arith,
    contains-keys (blocker_map unmarshal_gate db) id,
    get_key-blocker_map id,
    contains-blocked_set id,
    has_value-children id,
  )

  pub IsDistinct-blocker_map : IsDistinct (keys (blocker_map unmarshal_gate db))
  unfolding blocker_map
  IsDistinct-blocker_map =
      IsDistinct-add_parents (active_ids db true) (blocked_set unmarshal_gate db)
        (children_of_blocked unmarshal_gate db)
        (add_blockers (active_ids db true) (blocked_set unmarshal_gate db) [] (all_deps db true))
        (IsDistinct-add_blockers (active_ids db true) (blocked_set unmarshal_gate db)
          (all_deps db true) [] tt)
