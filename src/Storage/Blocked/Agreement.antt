-- ===== src/Storage/Blocked/Agreement.antt =====
-- IsBlockedInTx of internal/storage/issueops/dependency_queries.go beside ComputeBlockedIDsInTx of
-- blocked.go.
use bd.Prelude.{
  ◌≡◌, ◌∙◌, refl, sym, ap, subst, Bool, true, false, ◌&&◌, Option, none, some, List, [], ◌∷◌, any,
  inl, inr, Bool-cases, Option-cases, arith, any_elim,
}
use bd.Prelude.Text.{Text, ◌==◌, eq_iff, contains}
use bd.Types.Issue.{Issue}
use bd.Storage.Tables.{Tables, select_issue, dep_rows, is_active_wisp, wisp_table_routing}
use bd.Storage.Blocked.{is_waits_for, is_active_row, compute_blocked_ids}
use bd.Storage.Blocked.Checks.{find_status, is_active, own_rows, is_blocked}
use bd.Storage.Lifecycle.Rows.{HasKeys}
use bd.Storage.Blocked.Meaning.{active, blocks}
use bd.Storage.Blocked.Steps.{compute_blocked_ids-blocks}
use bd.Storage.Blocked.Unblocking.{is_active_edge, is_blocked_lem}

eq_sym : (s t : Text) → (s == t) ≡ (t == s)
eq_sym s t = ground (arith, eq_iff s t, eq_iff t s)

-- Under a primary key, the first row of an id is the only one.
select_issue-active :
    (rows : List Issue) (id : Text)
    → HasKeys rows
    → (elim (select_issue rows id) [ none ↦ false | some i ↦ is_active_row i ])
      ≡ any (λ i. is_active_row i && id == i.id) rows
select_issue-active [] id keys = refl
select_issue-active (r ∷ rows) id keys = elim (Bool-cases (r.id == id)) [
  | inr e ↦
      ground
        (arith, eq_sym r.id id, select_issue-active rows id (λ i j m n. keys i j (inr m) (inr n)))
  | inl e ↦ elim (Bool-cases (any (λ i. is_active_row i && id == i.id) rows)) [
    | inr f ↦ ground (arith, eq_sym r.id id)
    | inl t ↦
        let (j, m, p) = any_elim (λ i. is_active_row i && id == i.id) rows t in
        let q =
          keys r j (inl refl) (inr m) ((eq_iff r.id id).0 e ∙ (eq_iff id j.id).0 (ground arith)) in
        ground (arith, eq_sym r.id id, subst (λ x. is_active_row x ≡ true) (sym q) (ground arith))
  ]
]

is_active-active :
    (db : Tables) (id : Text)
    → db.wisps ≡ []
    → HasKeys db.issues
    → is_active db id ≡ active db false id
unfolding is_active find_status
is_active-active db id no_wisps keys = elim (Option-cases (select_issue db.issues id)) [
  | inl e ↦
      ground (arith, select_issue-active db.issues id keys, ap (λ ws. select_issue ws id) no_wisps)
  | inr (i, e) ↦ ground (arith, select_issue-active db.issues id keys)
]

any_ext_unless :
    {A : Type 0} (p q r : A → Bool)
    → ((x : A) → r x ≡ false → p x ≡ q x)
    → (xs : List A) → any r xs ≡ false
    → any p xs ≡ any q xs
any_ext_unless p q r f [] h = refl
any_ext_unless p q r f (x ∷ xs) h = ground (arith, f x, any_ext_unless p q r f xs)

own_rows-issue : (db : Tables) (id : Text) → db.wisps ≡ [] → own_rows db id ≡ db.dependencies
unfolding own_rows is_active_wisp wisp_table_routing
own_rows-issue db id no_wisps =
    ap (λ ws. dep_rows db (wisp_table_routing (any (λ i. i.id == id) ws)).dep_table) no_wisps

-- Without wisps, with the id as primary key and for an active issue that has no row of type
-- waits-for, IsBlockedInTx and ComputeBlockedIDsInTx agree.
pub is_blocked-compute_blocked_ids :
    (unmarshal_gate : Text → Option Text) (db : Tables) (id : Text)
    → db.wisps ≡ []
    → HasKeys db.issues
    → is_active db id ≡ true
    → any (λ d. d.issue_id == id && is_waits_for d) db.dependencies ≡ false
    → (is_blocked db id).0 ≡ contains (compute_blocked_ids unmarshal_gate db false) id
is_blocked-compute_blocked_ids unmarshal_gate db id no_wisps keys act only =
    is_blocked_lem db id
    ∙ ap (any (is_active_edge db id)) (own_rows-issue db id no_wisps)
    ∙ any_ext_unless (is_active_edge db id) (blocks unmarshal_gate db false id)
        (λ d. d.issue_id == id && is_waits_for d)
        (λ d q. elim (Bool-cases (d.issue_id == id)) [
          | inl e ↦ ground (
            arith,
            eq_sym d.issue_id id,
            subst (λ x. is_active db x ≡ true) (sym ((eq_iff d.issue_id id).0 e)) act,
            is_active-active db d.issue_id no_wisps keys,
            is_active-active db d.depends_on_id no_wisps keys,
          )
          | inr e ↦ ground (arith, eq_sym d.issue_id id)
        ])
        db.dependencies only
    ∙ ground arith
    ∙ sym (compute_blocked_ids-blocks unmarshal_gate db false id)
