-- ===== src/Storage/BlockedIssues/Keys.antt =====
-- internal/storage/issueops/blocked.go: a key stands once in the map of the blockers.
use bd.Prelude.{
  ◌≡◌, ◌⊎◌, sym, ap, subst, some, none, List, [], ◌∷◌, ◌++◌, In, inl, inr, Bool-cases, Option-cases,
  arith, ◌&&◌,
}
use bd.Prelude.Distinct.{IsDistinct}
use bd.Prelude.Text.{Text, ◌==◌, eq_iff, contains}
use bd.Types.DependencyType.{Dependency}
use bd.Storage.BlockedIssues.{set_key, get_key, keys, append_blocker, add_blockers, add_parents}

module _ {V : Type 0} where
  In-keys-set_key :
      (m : List (Text × V)) (k : Text) (v : V) (x : Text)
      → In x (keys (set_key m k v))
      → (x ≡ k) ⊎ In x (keys m)
  unfolding set_key
  In-keys-set_key [] k v x h = h
  In-keys-set_key ((j, w) ∷ m) k v x h = ground (arith, In-keys-set_key m k v x)

  IsDistinct-set_key :
      (m : List (Text × V)) (k : Text) (v : V)
      → IsDistinct (keys m)
      → IsDistinct (keys (set_key m k v))
  unfolding set_key
  IsDistinct-set_key [] k v d = (λ n. absurd n, tt)
  IsDistinct-set_key ((j, w) ∷ m) k v (new, d) = elim (Bool-cases (j == k)) [
    | inl e ↦ rw e (new, d)
    | inr e ↦ rw e (
      λ n. elim (In-keys-set_key m k v j n) [
        | inl q ↦ ground (arith, e, (eq_iff j k).1 q)
        | inr o ↦ new o
      ],
      IsDistinct-set_key m k v d,
    )
  ]

  pub In_key : (m : List (Text × V)) (k : Text) (v : V) → In (k, v) m → In k (keys m)
  In_key [] k v n = absurd n
  In_key ((j, w) ∷ m) k v (inl e) = inl (ap (λ q. q.0) e)
  In_key ((j, w) ∷ m) k v (inr n) = inr (In_key m k v n)

  pub get_key-In :
      (m : List (Text × V)) (k : Text) (v : V)
      → IsDistinct (keys m)
      → In (k, v) m
      → get_key m k ≡ some v
  unfolding get_key
  get_key-In [] k v d n = absurd n
  get_key-In ((j, w) ∷ m) k v (new, d) (inl e) =
      ground (arith, (eq_iff j k).1 (sym (ap (λ q. q.0) e)), ap (λ q. q.1) e)
  get_key-In ((j, w) ∷ m) k v (new, d) (inr n) = elim (Bool-cases (j == k)) [
    | inl e ↦ absurd (new (subst (λ x. In x (keys m)) (sym ((eq_iff j k).0 e)) (In_key m k v n)))
    | inr e ↦ ground (arith, e, get_key-In m k v d n)
  ]

module _ (act blocked : List Text) where
  pub IsDistinct-add_blockers :
      (ds : List Dependency) (m : List (Text × List Text))
      → IsDistinct (keys m)
      → IsDistinct (keys (add_blockers act blocked m ds))
  unfolding add_blockers append_blocker
  IsDistinct-add_blockers [] m d = d
  IsDistinct-add_blockers (r ∷ ds) m d =
      elim (Bool-cases (contains blocked r.issue_id && contains act r.depends_on_id)) [
        | inl e ↦ rw e (
            IsDistinct-add_blockers ds (append_blocker m r.issue_id r.depends_on_id) (
              IsDistinct-set_key m r.issue_id
                ((elim (get_key m r.issue_id) [ none ↦ [] | some bs ↦ bs ])
                  ++ (r.depends_on_id ∷ []))
                d))
        | inr e ↦ rw e (IsDistinct-add_blockers ds m d)
      ]

  pub IsDistinct-add_parents :
      (ps : List (Text × Text)) (m : List (Text × List Text))
      → IsDistinct (keys m)
      → IsDistinct (keys (add_parents act blocked m ps))
  unfolding add_parents
  IsDistinct-add_parents [] m d = d
  IsDistinct-add_parents ((c, p) ∷ ps) m d =
      elim (Bool-cases (contains act c && contains blocked c)) [
        | inl e ↦ elim (Option-cases (get_key m c)) [
          | inl q ↦
              rw (e, q)
                (IsDistinct-add_parents ps (set_key m c (p ∷ []))
                  (IsDistinct-set_key m c (p ∷ []) d))
          | inr (bs, q) ↦ rw (e, q) (IsDistinct-add_parents ps m d)
        ]
        | inr e ↦ rw e (IsDistinct-add_parents ps m d)
      ]
