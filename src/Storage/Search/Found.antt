-- ===== src/Storage/Search/Found.antt =====
-- SearchIssuesInTx of internal/storage/issueops/search.go: which issues a search of both tables returns.
use bd.Prelude.{
  ℕ, ◌≡◌, ◌↔◌, ◌⊎◌, ◌∙◌, refl, sym, ap, subst, Bool, true, not, Option, none, some, List, [], ◌∷◌,
  ◌++◌, map, map-append, select, eqb, arith, Bool-cases, List-cases, Option-cases, inl, inr, In,
  In-append, In-select, In-map_elim, In-map_intro, some_inj,
}
use bd.Prelude.Order.{sort_by, In-sort_by}
use bd.Prelude.Distinct.{
  IsDistinct, IsDistinct-append, IsDistinct-select, IsDistinct-take, IsDistinct-sort_by,
}
use bd.Prelude.Text.{Text, contains, contains_iff}
use bd.Types.Issue.{Issue}
use bd.Storage.Store.{Store}
use bd.Storage.Labels.{get_labels_for_issues}
use bd.Storage.Filters.{
  FilterTables, issues_filter_tables, wisps_filter_tables, valid_keys, build_issue_filter_clauses,
}
use bd.Types.Filters.{IssueFilter}
use bd.Storage.Search.{
  limited, by_priority, hydrate, search_table, merge, search_issues_table, search_wisps_table,
  search_issues,
}

some_is : {A : Type 0} (a : A) → ¬ (some a ≡ none)
some_is a h = cc

abbrev pub ids_of : List Issue → List Text
ids_of = map (λ i. i.id)

hydrate-id : (st : Store) (ids : List Text) (i : Issue) → (hydrate st ids i).id ≡ i.id
unfolding hydrate
hydrate-id st ids i = elim (List-cases (get_labels_for_issues st ids i.id)) [
  | inl e ↦ rw (e, hydrate) refl
  | inr (l, ls, e) ↦ rw (e, hydrate) refl
]

ids-hydrate :
    (st : Store) (ids : List Text) (is : List Issue) → ids_of (map (hydrate st ids) is) ≡ ids_of is
ids-hydrate st ids [] = refl
ids-hydrate st ids (i ∷ is) = ground (arith, hydrate-id st ids i, ids-hydrate st ids is)

IsDistinct-limited :
    (n : ℕ) (xs : List Issue) → IsDistinct (ids_of xs) → IsDistinct (ids_of (limited n xs))
IsDistinct-limited n xs d = elim (Bool-cases (eqb n 0)) [
  | inl e ↦ rw e d
  | inr e ↦ rw e (IsDistinct-take (λ (i : Issue). i.id) n xs d)
]

-- The wisps that the merge adds have ids of their own.
IsDistinct-merge :
    (is ws : List Issue)
    → IsDistinct (ids_of is)
    → IsDistinct (ids_of ws)
    → IsDistinct (ids_of (merge is ws))
unfolding merge
IsDistinct-merge is ws di dw =
    let new : Issue → Bool = λ w. not (contains (ids_of is) w.id) in
    rw map-append (
      IsDistinct-append (ids_of is) (ids_of (select new ws)) di
        (IsDistinct-select (λ (i : Issue). i.id) new ws dw)
        (λ x m n.
          let (w, k, e) = In-map_elim (λ (i : Issue). i.id) x (select new ws) n in
          let fresh = ((In-select new w ws).0 k).1 in
          ground (
            arith,
            fresh,
            (contains_iff (ids_of is) w.id).1 (subst (λ (y : Text). In y (ids_of is)) e m),
          )))

In-merge :
    (is ws : List Issue) (id : Text)
    → In id (ids_of (merge is ws)) ↔ (In id (ids_of is) ⊎ In id (ids_of ws))
unfolding merge
In-merge is ws id =
    let new : Issue → Bool = λ w. not (contains (ids_of is) w.id) in
    let split : In id (ids_of (is ++ select new ws))
        ↔ (In id (ids_of is) ⊎ In id (ids_of (select new ws))) =
      rw map-append (In-append id (ids_of is) (ids_of (select new ws))) in
    (
      λ m. elim (split.0 m) [
        | inl k ↦ inl k
        | inr k ↦
            let (w, n, e) = In-map_elim (λ (i : Issue). i.id) id (select new ws) k in
            inr (
              subst (λ (x : Text). In x (ids_of ws)) (sym e)
                (In-map_intro (λ (i : Issue). i.id) w ws ((In-select new w ws).0 n).0))
      ],
      λ m. elim m [
        | inl k ↦ split.1 (inl k)
        | inr k ↦
            let (w, n, e) = In-map_elim (λ (i : Issue). i.id) id ws k in
            elim (Bool-cases (contains (ids_of is) w.id)) [
              | inl seen ↦ split.1 (
                  inl (
                    subst (λ (x : Text). In x (ids_of is)) (sym e)
                      ((contains_iff (ids_of is) w.id).0 seen)))
              | inr unseen ↦ split.1 (
                  inr (
                    subst (λ (x : Text). In x (ids_of (select new ws))) (sym e)
                      (In-map_intro (λ (i : Issue). i.id) w (select new ws)
                        ((In-select new w ws).1 (n, rw unseen refl)))))
            ]
      ],
    )

module _ (json_value : Text → Text → Option Text) (st : Store) (now : ℕ) (query : Text)
    (f : IssueFilter) where
  -- The row passes every clause of the filter.
  abbrev pub Passes : FilterTables → Issue → Type 0
  Passes tables i =
      (test : Issue → Bool) × (build_issue_filter_clauses json_value query f tables now ≡ some test)
      × (test i ≡ true)

  -- A row of the table with the id passes.
  abbrev pub IsFound : FilterTables → Text → Type 0
  IsFound tables id = (i : Issue) × In i tables.main × Passes tables i × (id ≡ i.id)

  built_valid :
      (tables : FilterTables)
      → valid_keys f.has_metadata_key f.metadata_fields ≡ true
      → ¬ (build_issue_filter_clauses json_value query f tables now ≡ none)
  unfolding build_issue_filter_clauses
  built_valid tables valid h = some_is _ (rw valid at h)

  search_table-IsFound :
      (tables : FilterTables)
      → valid_keys f.has_metadata_key f.metadata_fields ≡ true
      → IsDistinct (ids_of tables.main)
      → f.limit ≡ 0
      → (is : List Issue) × (search_table json_value st now query f tables ≡ some is)
        × IsDistinct (ids_of is)
        × ((id : Text) → In id (ids_of is) ↔ IsFound tables id)
  unfolding search_table
  search_table-IsFound tables valid d zero_limit =
      elim (Option-cases (build_issue_filter_clauses json_value query f tables now)) [
        | inl e ↦ absurd (built_valid tables valid e)
        | inr (test, e) ↦
            let rows = sort_by by_priority (select test tables.main) in
            let found = limited f.limit rows in
            let is = map (hydrate st (ids_of found)) found in
            let same = ids-hydrate st (ids_of found) found in
            let once = IsDistinct-limited f.limit rows (
              IsDistinct-sort_by (λ (i : Issue). i.id) by_priority (select test tables.main)
                (IsDistinct-select (λ (i : Issue). i.id) test tables.main d)) in
            (
              is,
              rw (e, search_table) refl,
              subst IsDistinct (sym same) once,
              λ id.
                  let all : found ≡ rows = rw zero_limit refl in
                  (
                    λ m.
                        let (i, n, q) =
                          In-map_elim (λ (i : Issue). i.id) id rows
                            (subst (λ (xs : List Issue). In id (ids_of xs)) all
                              (subst (λ (xs : List Text). In id xs) same m)) in
                        let (k, t) =
                          (In-select test i tables.main).0
                            ((In-sort_by by_priority i (select test tables.main)).0 n) in
                        (i, k, (test, e, t), q),
                    λ (i, k, (other, g, t), q).
                        let kept : test i ≡ true =
                          ap (λ (p : Issue → Bool). p i) (some_inj test other (sym e ∙ g)) ∙ t in
                        let n =
                          (In-sort_by by_priority i (select test tables.main)).1
                            ((In-select test i tables.main).1 (k, kept)) in
                        subst (λ (xs : List Text). In id xs) (sym same)
                          (subst (λ (xs : List Issue). In id (ids_of xs)) (sym all)
                            (subst (λ (x : Text). In x (ids_of rows)) (sym q)
                              (In-map_intro (λ (i : Issue). i.id) i rows n))),
                  ),
            )
      ]

  search_both :
      (is ws : List Issue)
      → f.ephemeral ≡ none
      → search_issues_table json_value st now query f ≡ some is
      → search_wisps_table json_value st now query f ≡ some ws
      → search_issues json_value st now query f ≡ some (merge is ws)
  unfolding search_issues
  search_both is ws both e g = ground (arith, both, e, g)

  -- If the keys of the metadata are valid and no id stands twice in a table, SearchIssuesInTx without a
  -- limit and without a condition on the flag ephemeral succeeds, returns no id twice, not even one
  -- that both tables have, and exactly the ids of the issues and the wisps that pass the filter.
  pub search_issues-IsFound :
      f.ephemeral ≡ none
      → valid_keys f.has_metadata_key f.metadata_fields ≡ true
      → IsDistinct (ids_of st.tables.issues)
      → IsDistinct (ids_of st.tables.wisps)
      → f.limit ≡ 0
      → (results : List Issue) × (search_issues json_value st now query f ≡ some results)
        × IsDistinct (ids_of results)
        × ((id : Text)
            → In id (ids_of results)
              ↔ (IsFound (issues_filter_tables st) id ⊎ IsFound (wisps_filter_tables st) id))
  unfolding search_issues_table search_wisps_table
  search_issues-IsFound both valid di dw zero_limit =
      let (is, e, fi, mi) = search_table-IsFound (issues_filter_tables st) valid di zero_limit in
      let (ws, g, fw, mw) = search_table-IsFound (wisps_filter_tables st) valid dw zero_limit in
      (
        merge is ws,
        search_both is ws both e g,
        IsDistinct-merge is ws fi fw,
        λ id.
            let found = In-merge is ws id in
            let a = mi id in
            let b = mw id in
            (
              λ m. elim (found.0 m) [ inl k ↦ inl (a.0 k) | inr k ↦ inr (b.0 k) ],
              λ m. elim m [ inl k ↦ found.1 (inl (a.1 k)) | inr k ↦ found.1 (inr (b.1 k)) ],
            ),
      )
