-- ===== src/Storage/Promotion/Moved.antt =====
-- PromoteFromEphemeralInTx of internal/storage/issueops/promote.go: where the issue is afterwards.
use bd.Prelude.{
  ℕ, ◌≡◌, ◌∙◌, refl, sym, ap, subst, true, false, Bool-cases, inl, inr, Option, some, Option-cases,
  List, [], arith,
}
use bd.Prelude.Text.{Text, ◌==◌}
use bd.Types.Issue.{Issue}
use bd.Storage.Tables.{is_active_wisp, get_issue}
use bd.Storage.Lifecycle.Rows.{get_issue-id}
use bd.Storage.Store.{Store}
use bd.Storage.Config.{BatchContext, BatchCreateOptions, new_batch_context, read_config_prefix}
use bd.Storage.Creation.{ok, NewIssue, External, is_wisp}
use bd.Storage.Creation.Batch.{create_issue}
use bd.Storage.Creation.Inserted.{Result-cases}
use bd.Storage.Creation.Consistent.{SameIssues}
use bd.Storage.Deletion.{delete_wisp_rows, delete_issue}
use bd.Storage.Deletion.Effects.{has_id}
use bd.Storage.Promotion
use bd.Storage.Promotion.{copy_related, promoted, delete_promoted, promote}
use bd.Storage.Promotion.Placed.{create_issue-Placed, has_id-delete_where}

new_batch_context-opts :
    (unmarshal_list : Text → Option (List Text)) (yaml_types : List Text) (st : Store)
    (opts : BatchCreateOptions) (bc : BatchContext)
    → new_batch_context unmarshal_list yaml_types st opts ≡ some bc
    → bc.opts ≡ opts
unfolding new_batch_context
new_batch_context-opts unmarshal_list yaml_types st opts bc h =
    elim (Option-cases (read_config_prefix st)) [
      | inl e ↦ ground (arith, e)
      | inr (prefix, e) ↦ ground (arith, e)
    ]

copy_related-SameIssues :
    (id : Text) (st : Store) → SameIssues st.tables (copy_related id st).tables
unfolding copy_related
copy_related-SameIssues id st = (refl, refl)

-- Deleting a wisp takes it from the wisps and leaves the issues alone.
delete_promoted-gone :
    (id : Text) (st st' : Store)
    → has_id st.tables.wisps id ≡ true
    → delete_promoted id st ≡ Promotion.ok st'
    → (has_id st'.tables.wisps id ≡ false) × (st'.tables.issues ≡ st.tables.issues)
unfolding delete_issue is_active_wisp delete_wisp_rows
delete_promoted-gone id st st' active h =
    let same : delete_wisp_rows id st ≡ st' = ground (arith, active) in
    (
      ap (λ (x : Store). has_id x.tables.wisps id) (sym same)
          ∙ has_id-delete_where st.tables.wisps id,
      ap (λ (x : Store). x.tables.issues) (sym same),
    )

module _ (ext : External) (unmarshal_list : Text → Option (List Text)) (yaml_types : List Text)
    (st : Store) (id actor : Text) (now : ℕ) {st' : Store} where
  promote-cases :
      promote ext unmarshal_list yaml_types st id actor now ≡ Promotion.ok st'
      → (has_id st.tables.wisps id ≡ true)
        × (i : Issue) × (get_issue st.tables id ≡ some i)
        × (bc : BatchContext) × (new_batch_context unmarshal_list yaml_types st
              (record { orphan_handling = []; skip_prefix_validation = true })
            ≡ some bc)
        × (m : NewIssue) × (created : Store) × (create_issue ext bc st (promoted st id i) actor now
            ≡ ok (m, created))
        × (delete_promoted id (copy_related id created) ≡ Promotion.ok st')
  unfolding promote is_active_wisp
  promote-cases h = elim (Bool-cases (has_id st.tables.wisps id)) [
    | inr e ↦ ground (arith, e)
    | inl e ↦ elim (Option-cases (get_issue st.tables id)) [
      | inl g ↦ ground (arith, e, g)
      | inr (i, g) ↦
          elim (Option-cases (
            new_batch_context unmarshal_list yaml_types st
              (record { orphan_handling = []; skip_prefix_validation = true }))) [
                | inl b ↦ ground (arith, e, g, b)
                | inr (bc, b) ↦
                    elim (Result-cases (create_issue ext bc st (promoted st id i) actor now)) [
                      | inl (x, c) ↦ ground (arith, e, g, b, c)
                      | inr ((m, created), c) ↦
                          (e, i, g, bc, b, m, created, c, ground (arith, e, g, b, c))
                    ]
              ]
    ]
  ]

  -- After a successful PromoteFromEphemeralInTx of a wisp with an identifier that is not empty, no
  -- wisp has the identifier any more. If the wisp was not marked no_history, an issue has it; if it
  -- was, the issues are the same as before, so the issue is lost unless one had the identifier.
  pub promote-moved :
      (id == []) ≡ false
      → promote ext unmarshal_list yaml_types st id actor now ≡ Promotion.ok st'
      → (has_id st'.tables.wisps id ≡ false)
        × (i : Issue) × (get_issue st.tables id ≡ some i)
        × (i.no_history ≡ false → has_id st'.tables.issues id ≡ true)
        × (i.no_history ≡ true → st'.tables.issues ≡ st.tables.issues)
  unfolding is_wisp
  promote-moved named h =
      let (active, i, g, bc, b, m, created, c, d) = promote-cases h in
      let own : i.id ≡ id = get_issue-id st.tables id i g in
      let opts =
        new_batch_context-opts unmarshal_list yaml_types st
          (record { orphan_handling = []; skip_prefix_validation = true }) bc b in
      let (j, route, placed) =
        create_issue-Placed ext bc st (promoted st id i) actor now (rw own named)
          (ap (λ (o : BatchCreateOptions). o.skip_prefix_validation) opts)
          (ap (λ (o : BatchCreateOptions). o.orphan_handling) opts) m created c in
      let key : j.id ≡ id = route.same_id ∙ own in
      let (same_issues, same_wisps) = copy_related-SameIssues id created in
      elim (Bool-cases i.no_history) [
        | inl e ↦
            let (w, kept) = placed.in_wisps (ground (arith, route.same_no_history, e)) in
            let (gone, after) =
              delete_promoted-gone id (copy_related id created) st'
                (ap (λ rows. has_id rows id) same_wisps
                  ∙ subst (λ x. has_id created.tables.wisps x ≡ true) key w)
                d in
            (gone, i, g, λ f. ground (arith, e, f), λ f. after ∙ same_issues ∙ kept)
        | inr e ↦
            let (w, kept) =
              placed.in_issues (ground (arith, route.same_no_history, route.same_ephemeral, e)) in
            let (gone, after) =
              delete_promoted-gone id (copy_related id created) st'
                (ap (λ rows. has_id rows id) (same_wisps ∙ kept) ∙ active) d in
            (
              gone,
              i,
              g,
              λ f.
                  ap (λ rows. has_id rows id) (after ∙ same_issues)
                  ∙ subst (λ x. has_id created.tables.issues x ≡ true) key w,
              λ f. ground (arith, e, f),
            )
      ]
