-- ===== src/Storage/Epics/Children.antt =====
-- internal/storage/issueops/epic_closure.go: the children of an epic, and the lookup of an issue.
use bd.Prelude.{
  ◌≡◌, ◌∙◌, refl, sym, ap, subst, Bool, true, false, ◌&&◌, Bool-cases, inl, inr, none, some,
  Option-cases, List, [], ◌∷◌, ◌++◌, map, any, select, In, In-append, arith,
}
use bd.Prelude.Text.{Text, ◌==◌, eq_iff, contains}
use bd.Types.Status.{status_closed}
use bd.Types.DependencyType.{Dependency, dep_parent_child}
use bd.Types.Issue.{Issue}
use bd.Storage.Tables.{Tables, select_issue, is_active_wisp, wisp_table_routing, get_issue}
use bd.Storage.Blocked.{concat_map}
use bd.Storage.Epics.{last_row, epic_children}
use bd.Storage.Epics.LastRows.{or_else}

-- The issues with a parent-child row to the epic, in either table.
abbrev pub children_of : Tables → Text → List Text
children_of db id =
    map (λ d. d.issue_id)
      (select (λ d. d.type == dep_parent_child && d.depends_on_id == id)
        (db.dependencies ++ db.wisp_dependencies))

-- GetIssueInTx finds the issue, and it is closed.
abbrev pub is_closed : Tables → Text → Bool
is_closed db id = elim (get_issue db id) [ none ↦ false | some i ↦ i.status == status_closed ]

children_rows :
    (epics : List Text) (id : Text) (rows : List Dependency)
    → contains epics id ≡ true
    → select
        (λ d. contains epics d.depends_on_id && d.depends_on_id == id)
        (select (λ d. d.type == dep_parent_child) rows)
      ≡ select (λ d. d.type == dep_parent_child && d.depends_on_id == id) rows
children_rows epics id [] h = refl
children_rows epics id (d ∷ rows) h = elim (Bool-cases (d.depends_on_id == id)) [
  | inl e ↦
      let known : contains epics d.depends_on_id ≡ true =
        ap (contains epics) ((eq_iff d.depends_on_id id).0 e) ∙ h in
      ground (arith, known, children_rows epics id rows h)
  | inr e ↦ ground (arith, children_rows epics id rows h)
]

pub epic_children-children_of :
    (db : Tables) (epics : List Text) (id : Text)
    → contains epics id ≡ true
    → epic_children db epics id ≡ children_of db id
unfolding epic_children
epic_children-children_of db epics id h =
    ap (map (λ (d : Dependency). d.issue_id))
      (children_rows epics id (db.dependencies ++ db.wisp_dependencies) h)

module _ {A B : Type 0} (f : A → List B) where
  pub In-concat_map_intro :
      (b : B) (a : A) (xs : List A) → In a xs → In b (f a) → In b (concat_map f xs)
  In-concat_map_intro b a [] m n = absurd m
  In-concat_map_intro b a (x ∷ xs) (inl e) n =
      (In-append b (f x) (concat_map f xs)).1 (inl (subst (λ y. In b (f y)) e n))
  In-concat_map_intro b a (x ∷ xs) (inr m) n =
      (In-append b (f x) (concat_map f xs)).1 (inr (In-concat_map_intro b a xs m n))

  pub In-concat_map_elim :
      (b : B) (xs : List A) → In b (concat_map f xs) → (a : A) × In a xs × In b (f a)
  In-concat_map_elim b [] m = absurd m
  In-concat_map_elim b (x ∷ xs) m = elim ((In-append b (f x) (concat_map f xs)).0 m) [
    | inl n ↦ (x, inl refl, n)
    | inr n ↦ let (a, k, l) = In-concat_map_elim b xs n in (a, inr k, l)
  ]

select_issue_absent :
    (rows : List Issue) (id : Text)
    → any (λ (i : Issue). i.id == id) rows ≡ false
    → select_issue rows id ≡ none
select_issue_absent [] id h = refl
select_issue_absent (i ∷ rows) id h = ground (arith, select_issue_absent rows id)

pub select_issue_present :
    (rows : List Issue) (id : Text)
    → any (λ (i : Issue). i.id == id) rows ≡ true
    → (i : Issue) × (select_issue rows id ≡ some i)
select_issue_present [] id h = cc
select_issue_present (i ∷ rows) id h = elim (Bool-cases (i.id == id)) [
  | inl e ↦ (i, rw e refl)
  | inr e ↦ let (j, q) = select_issue_present rows id (ground arith) in (j, rw e q)
]

-- The wisps go before the issues, as in GetIssueInTx.
pub or_else-get_issue :
    (db : Tables) (id : Text)
    → or_else (select_issue db.wisps id) (select_issue db.issues id) ≡ get_issue db id
unfolding get_issue is_active_wisp wisp_table_routing
or_else-get_issue db id = elim (Bool-cases (any (λ (i : Issue). i.id == id) db.wisps)) [
  | inl e ↦ let (i, q) = select_issue_present db.wisps id e in rw e (rw q refl)
  | inr e ↦ rw e (rw (select_issue_absent db.wisps id e) refl)
]

pub last_row-id :
    (rows : List Issue) (id : Text) (i : Issue) → last_row rows id ≡ some i → i.id ≡ id
unfolding last_row
last_row-id [] id i h = cc
last_row-id (j ∷ rows) id i h = elim (Option-cases (last_row rows id)) [
  | inl q ↦ elim (Bool-cases (j.id == id)) [
    | inl e ↦
        let same : j ≡ i = ground (arith, q, e) in
        ap (λ (x : Issue). x.id) (sym same) ∙ (eq_iff j.id id).0 e
    | inr e ↦ ground (arith, q, e)
  ]
  | inr (k, q) ↦ last_row-id rows id i (q ∙ ground (arith, q))
]
