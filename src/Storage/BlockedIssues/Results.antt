-- ===== src/Storage/BlockedIssues/Results.antt =====
-- internal/storage/issueops/blocked.go: what the last loop of GetBlockedIssuesInTx makes of the map of the
-- blockers.
use bd.Prelude.{
  ◌≡◌, ◌∙◌, refl, sym, ap, subst, ◌&&◌, Option, some, List, [], ◌∷◌, map, length, In, inl, inr,
  In-map_elim, Bool-cases, Option-cases, arith,
}
use bd.Prelude.Distinct.{IsDistinct}
use bd.Prelude.Text.{Text, ◌==◌, eq_iff, contains}
use bd.Types.Issue.{Issue}
use bd.Storage.Tables.{Tables}
use bd.Storage.Epics.{last_row}
use bd.Storage.Epics.Children.{last_row-id}
use bd.Storage.BlockedIssues.{BlockedIssue, keys, in_parent, blocked_results}
use bd.Storage.BlockedIssues.Keys.{In_key}

abbrev pub listed_id : BlockedIssue → Text
listed_id b = b.issue.id

module _ (db : Tables) (parent_id : Option Text) (issues : List Issue) where
  -- Where a row is fetched for each key, the issues are those of the keys that are in the parent.
  pub contains-blocked_results :
      (m : List (Text × List Text))
      → ((k : Text) → In k (keys m) → (j : Issue) × (last_row issues k ≡ some j))
      → (id : Text)
      → contains (map listed_id (blocked_results db parent_id issues m)) id
        ≡ (in_parent db parent_id id && contains (keys m) id)
  unfolding blocked_results
  contains-blocked_results [] h id = ground arith
  contains-blocked_results ((k, bs) ∷ m) h id =
      let (j, e) = h k (inl refl) in
      let same = last_row-id issues k j e in
      let rest = contains-blocked_results m (λ x n. h x (inr n)) id in
      elim (Bool-cases (id == k)) [
        | inl q ↦ ground (arith, e, rest, same, (eq_iff id k).0 q, (eq_iff id j.id).1)
        | inr q ↦ ground (arith, e, rest, same, (eq_iff id j.id).0, (eq_iff id k).1)
      ]

  -- Each issue of the result is a key with its blockers.
  pub In-blocked_results :
      (b : BlockedIssue) (m : List (Text × List Text))
      → In b (blocked_results db parent_id issues m)
      → In (listed_id b, b.blocked_by) m × (b.blocked_by_count ≡ length b.blocked_by)
  unfolding blocked_results
  In-blocked_results b [] n = absurd n
  In-blocked_results b ((k, bs) ∷ m) n =
      let later : In b (blocked_results db parent_id issues m)
          → In (listed_id b, b.blocked_by) ((k, bs) ∷ m)
            × (b.blocked_by_count ≡ length b.blocked_by) =
        λ o. let (p, q) = In-blocked_results b m o in (inr p, q) in
      elim (Bool-cases (in_parent db parent_id k)) [
        | inr e ↦ later (rw e at n)
        | inl e ↦ elim (Option-cases (last_row issues k)) [
          | inl q ↦ later (rw (e, q) at n)
          | inr (j, q) ↦ elim (rw (e, q) at n) [
            | inl r ↦ (
              inl (
                  ap (λ (x : BlockedIssue). (listed_id x, x.blocked_by)) r
                  ∙ ap (λ (x : Text). (x, bs)) (last_row-id issues k j q)),
              subst (λ (x : BlockedIssue). x.blocked_by_count ≡ length x.blocked_by) (sym r) refl,
            )
            | inr o ↦ later o
          ]
        ]
      ]

  pub IsDistinct-blocked_results :
      (m : List (Text × List Text))
      → IsDistinct (keys m)
      → IsDistinct (map listed_id (blocked_results db parent_id issues m))
  unfolding blocked_results
  IsDistinct-blocked_results [] d = tt
  IsDistinct-blocked_results ((k, bs) ∷ m) (new, d) =
      let rest = IsDistinct-blocked_results m d in
      elim (Bool-cases (in_parent db parent_id k)) [
        | inr e ↦ rw e rest
        | inl e ↦ elim (Option-cases (last_row issues k)) [
          | inl q ↦ rw (e, q) rest
          | inr (j, q) ↦
              rw (e, q)
                (
                  λ n.
                      let (b, o, r) =
                        In-map_elim listed_id j.id (blocked_results db parent_id issues m) n in
                      new (
                        subst (λ x. In x (keys m)) (sym r ∙ last_row-id issues k j q)
                          (In_key m (listed_id b) b.blocked_by (In-blocked_results b m o).0)),
                  rest,
                )
        ]
      ]
