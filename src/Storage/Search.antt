-- ===== src/Storage/Search.antt =====
-- internal/storage/issueops/search.go, SearchIssuesInTx: the filtered rows of a table in their order, with
-- their labels. The dependencies of an issue are not a part of its record here.
pub mod Found
use bd.Prelude.{
  ℕ, Bool, true, false, not, Option, none, some, List, [], ◌∷◌, ◌++◌, map, select, take, eqb,
  if◌then◌else◌,
}
use bd.Prelude.Int.{ℤ, pos, negsuc}
use bd.Prelude.Order.{keys_leb, sort_by}
use bd.Prelude.Text.{Text, ◌==◌, contains}
use bd.Types.Issue.{Issue}
use bd.Storage.Store.{Store}
use bd.Storage.Labels.{get_labels_for_issues}
use bd.Storage.Filters.{
  FilterTables, issues_filter_tables, wisps_filter_tables, build_issue_filter_clauses,
}
use bd.Types.Filters.{IssueFilter}

-- LIMIT n, where 0 is no limit, as is a negative one.
abbrev pub limited : {A : Type 0} → ℕ → List A → List A
limited n xs = if eqb n 0 then xs else take n xs

-- ORDER BY priority ASC, created_at DESC, id ASC
abbrev pub priority_keys : Issue → List ℤ
priority_keys i = i.priority ∷ negsuc i.created_at ∷ []

abbrev pub by_priority : Issue → Issue → Bool
by_priority i j = keys_leb (priority_keys i) (priority_keys j) i.id j.id

-- The labels that the map has for the issue; one without labels keeps those of its row.
unfoldable pub hydrate : Store → List Text → Issue → Issue
hydrate st ids i = elim (get_labels_for_issues st ids i.id) [
  | [] ↦ i
  | l ∷ ls ↦ record i { labels = l ∷ ls }
]

-- The wisps that no result has the id of.
unfoldable pub merge : List Issue → List Issue → List Issue
merge results wisps = results ++ select (λ w. not (contains (map (λ i. i.id) results) w.id)) wisps

module _ (json_value : Text → Text → Option Text) (st : Store) (now : ℕ) where
  -- searchTableInTx; `none` is an error.
  unfoldable pub search_table : Text → IssueFilter → FilterTables → Option (List Issue)
  search_table query f tables = elim (build_issue_filter_clauses json_value query f tables now) [
    | none ↦ none
    | some test ↦
        let found = limited f.limit (sort_by by_priority (select test tables.main)) in
        some (map (hydrate st (map (λ i. i.id) found)) found)
  ]

  unfoldable pub search_issues_table : Text → IssueFilter → Option (List Issue)
  search_issues_table query f = search_table query f (issues_filter_tables st)

  unfoldable pub search_wisps_table : Text → IssueFilter → Option (List Issue)
  search_wisps_table query f = search_table query f (wisps_filter_tables st)

  -- SearchIssuesInTx
  unfoldable pub search_issues : Text → IssueFilter → Option (List Issue)
  search_issues query f = elim f.ephemeral [
    | some true ↦ elim (search_wisps_table query f) [
      | none ↦ none
      | some [] ↦ search_issues_table query f
      | some (w ∷ ws) ↦ some (w ∷ ws)
    ]
    | some false ↦ search_issues_table query f
    | none ↦ elim (search_issues_table query f) [
      | none ↦ none
      | some results ↦ elim (search_wisps_table query f) [
        | none ↦ none
        | some wisps ↦ some (merge results wisps)
      ]
    ]
  ]
