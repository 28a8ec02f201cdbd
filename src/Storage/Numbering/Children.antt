-- ===== src/Storage/Numbering/Children.antt =====
-- GetNextChildIDTx of internal/storage/issueops/child_id.go: the number of the next child.
use bd.Prelude.{
  ℕ, suc, ◌≤◌, ◌<◌, ◌≡◌, ◌∙◌, refl, sym, ap, subst, Bool, true, false, ◌&&◌, not, Bool-cases, inl,
  inr, Option, some, Option-cases, List, [], ◌∷◌, ◌++◌, map, any, any_elim, if◌then◌else◌, all, eqb,
  In, In-select, In-map_intro, arith,
}
use bd.Prelude.Int.{ℤ, pos, pos_part, ltb_ℤ}
use bd.Prelude.Text.{Text, codes, ◌==◌, eq_iff, eq_refl}
use bd.Types.Issue.{Issue}
use bd.Storage.Store.{Store, CounterRow}
use bd.Ids.Prefix.{last_index-append, take-append, drop-append}
use bd.Ids.Hierarchy.{generate_child_id}
use bd.Storage.Numbering.{
  any_rest, escape, like_rest, like, parse_child_id, max_child, child_pattern, grandchild_pattern,
  child_ids, last_child, upsert_child_counter, get_next_child_id,
}

abbrev no_dot : Text → Bool
no_dot = all (λ c. not (eqb c b'.'))

abbrev pub is_plain : Text → Bool
is_plain = all (λ c. not (eqb c b'%') && not (eqb c escape))

like-append :
    (parent p s : Text) → is_plain parent ≡ true → like (parent ++ p) (parent ++ s) ≡ like p s
unfolding like_rest
like-append [] p s h = refl
like-append (c ∷ parent) p s h = ground (arith, like-append parent p s)

any_rest_end : (p : Text → Bool) (s : Text) → p [] ≡ true → any_rest p s ≡ true
any_rest_end p [] h = h
any_rest_end p (c ∷ s) h = ground (arith, any_rest_end p s h)

any_rest_none :
    (p : Text → Bool)
    → ((r : Text) → no_dot r ≡ true → p r ≡ false)
    → (s : Text) → no_dot s ≡ true
    → any_rest p s ≡ false
any_rest_none p f [] h = f [] refl
any_rest_none p f (c ∷ s) h = ground (arith, f (c ∷ s) h, any_rest_none p f s)

like_any : (s : Text) → like (codes "%") s ≡ true
unfolding like_rest ◌==◌
like_any [] = refl
like_any (c ∷ s) = any_rest_end (like []) (c ∷ s) refl

like_dot : (s : Text) → no_dot s ≡ true → like (codes ".%") s ≡ false
unfolding like_rest
like_dot [] h = refl
like_dot (c ∷ s) h = ground arith

like_any_dot : (s : Text) → no_dot s ≡ true → like (codes "%.%") s ≡ false
unfolding like_rest
like_any_dot [] h = refl
like_any_dot (c ∷ s) h = any_rest_none (like (codes ".%")) like_dot (c ∷ s) h

module _ (scan_int : Text → Option ℤ) where
  le-max_child : (ids : List Text) (last : ℕ) → last ≤ max_child scan_int last ids
  unfolding max_child
  le-max_child [] last = omega arith
  le-max_child (id ∷ ids) last = elim (Option-cases (parse_child_id scan_int id)) [
    | inl e ↦ ground (arith, e, le-max_child ids last)
    | inr ((parent, k), e) ↦
        let raised = if ltb_ℤ (pos last) k then pos_part k else last in
        ground (arith, e, le-max_child ids raised)
  ]

  max_child-bound :
      (ids : List Text) (last n : ℕ) (id parent : Text)
      → In id ids
      → parse_child_id scan_int id ≡ some (parent, pos n)
      → n ≤ max_child scan_int last ids
  unfolding max_child
  max_child-bound [] last n id parent m h = absurd m
  max_child-bound (x ∷ ids) last n id parent (inl q) h =
      let same : parse_child_id scan_int x ≡ some (parent, pos n) =
        ap (parse_child_id scan_int) (sym q) ∙ h in
      let raised = if ltb_ℤ (pos last) (pos n) then n else last in
      ground (arith, same, le-max_child ids raised)
  max_child-bound (x ∷ ids) last n id parent (inr m) h =
      elim (Option-cases (parse_child_id scan_int x)) [
        | inl e ↦ ground (arith, e, max_child-bound ids last n id parent m h)
        | inr ((y, k), e) ↦
            let raised = if ltb_ℤ (pos last) k then pos_part k else last in
            ground (arith, e, max_child-bound ids raised n id parent m h)
      ]

parse_child_id-generate_child_id :
    (scan_int : Text → Option ℤ) (show : ℕ → Text) (parent : Text) (n : ℕ)
    → scan_int (show n) ≡ some (pos n)
    → no_dot (show n) ≡ true
    → parse_child_id scan_int (generate_child_id show parent n) ≡ some (parent, pos n)
unfolding parse_child_id generate_child_id
parse_child_id-generate_child_id scan_int show parent n reads plain = ground (
  arith,
  last_index-append b'.' parent (show n) plain,
  take-append parent (b'.' ∷ show n),
  drop-append b'.' parent (show n),
  reads,
)

like-dot : (p s : Text) → like (b'.' ∷ p) (b'.' ∷ s) ≡ like p s
unfolding like_rest
like-dot p s = refl

-- The identifier of a child matches the first pattern of the query, and not the second.
child-like :
    (show : ℕ → Text) (parent : Text) (n : ℕ)
    → is_plain parent ≡ true
    → no_dot (show n) ≡ true
    → (like (child_pattern parent) (generate_child_id show parent n) ≡ true)
      × (like (grandchild_pattern parent) (generate_child_id show parent n) ≡ false)
unfolding generate_child_id
child-like show parent n p d = (
  like-append parent (codes ".%") (b'.' ∷ show n) p
      ∙ like-dot (codes "%") (show n)
      ∙ like_any (show n),
  like-append parent (codes ".%.%") (b'.' ∷ show n) p
      ∙ like-dot (codes "%.%") (show n)
      ∙ like_any_dot (show n) d,
)

abbrev set_last : Text → ℕ → CounterRow → CounterRow
set_last parent n r = if r.parent_id == parent then record r { last_child = n } else r

last_child-map :
    (rows : List CounterRow) (parent : Text) (n : ℕ)
    → any (λ (r : CounterRow). r.parent_id == parent) rows ≡ true
    → last_child (map (set_last parent n) rows) parent ≡ n
unfolding last_child
last_child-map [] parent n h = ground arith
last_child-map (r ∷ rows) parent n h = ground (arith, last_child-map rows parent n)

last_child-append :
    (rows : List CounterRow) (parent : Text) (n : ℕ)
    → any (λ (r : CounterRow). r.parent_id == parent) rows ≡ false
    → last_child (rows ++ (record { parent_id = parent; last_child = n } ∷ [])) parent ≡ n
unfolding last_child
last_child-append [] parent n h = ground (arith, eq_refl parent)
last_child-append (r ∷ rows) parent n h = ground (arith, last_child-append rows parent n)

last_child-upsert :
    (rows : List CounterRow) (parent : Text) (n : ℕ)
    → last_child (upsert_child_counter rows parent n (λ old. n)) parent ≡ n
unfolding upsert_child_counter
last_child-upsert rows parent n =
    ground (arith, last_child-map rows parent n, last_child-append rows parent n)

module _ (scan_int : Text → Option ℤ) (show : ℕ → Text)
    (reads : (n : ℕ) → scan_int (show n) ≡ some (pos n))
    (digits : (n : ℕ) → all (λ c. not (eqb c b'.')) (show n) ≡ true) where
  abbrev next_number : Store → Text → ℕ
  next_number st parent =
      suc (max_child scan_int (last_child st.child_counters parent) (child_ids st parent))

  next_number_free :
      (st : Store) (parent : Text)
      → is_plain parent ≡ true
      → any
          (λ (i : Issue). i.id == generate_child_id show parent (next_number st parent))
          st.tables.issues
        ≡ false
  unfolding child_ids
  next_number_free st parent p =
      let n = next_number st parent in
      let id = generate_child_id show parent n in
      elim (Bool-cases (any (λ (i : Issue). i.id == id) st.tables.issues)) [
        | inr e ↦ e
        | inl e ↦
            let (i, m, q) = any_elim (λ (j : Issue). j.id == id) st.tables.issues e in
            let ids = map (λ (j : Issue). j.id) st.tables.issues in
            let known : In id ids =
              subst (λ x. In x ids) ((eq_iff i.id id).0 q)
                (In-map_intro (λ (j : Issue). j.id) i st.tables.issues m) in
            let (likes, unlike) = child-like show parent n p (digits n) in
            let child : In id (child_ids st parent) =
              (In-select
                  (λ x. like (child_pattern parent) x && not (like (grandchild_pattern parent) x))
                  id ids).1
                (known, ground (arith, likes, unlike)) in
            absurd (
              omega (
                arith,
                max_child-bound scan_int (child_ids st parent) (last_child st.child_counters parent)
                    n id parent child
                    (parse_child_id-generate_child_id scan_int show parent n (reads n) (digits n)),
              ))
      ]

  -- If Sscanf reads back what the format %d writes, which has no dot, and the parent has no percent
  -- sign and no backslash: an identifier that GetNextChildIDTx returns is the parent with a number, belongs to no row
  -- of issues, and its number is above the counter of the parent and becomes that counter; the tables
  -- of issues, dependencies and events stay as they are.
  pub get_next_child_id_free :
      (st : Store) (parent id : Text) {st' : Store}
      → is_plain parent ≡ true
      → get_next_child_id scan_int show st parent ≡ some (id, st')
      → (any (λ (i : Issue). i.id == id) st.tables.issues ≡ false)
        × (n : ℕ) × (id ≡ generate_child_id show parent n)
        × (last_child st.child_counters parent < n)
        × (last_child st'.child_counters parent ≡ n)
        × (st'.tables ≡ st.tables)
  unfolding get_next_child_id
  get_next_child_id_free st parent id {st'} p h =
      let n = next_number st parent in
      elim (Bool-cases (any (λ (i : Issue). i.id == parent) st.tables.issues)) [
        | inr e ↦ ground (arith, e)
        | inl e ↦
            let same : generate_child_id show parent n ≡ id = ground (arith, e) in
            (
              subst (λ x. any (λ (i : Issue). i.id == x) st.tables.issues ≡ false) same
                  (next_number_free st parent p),
              n,
              sym same,
              omega (
                arith,
                le-max_child scan_int (child_ids st parent) (last_child st.child_counters parent),
              ),
              ground (arith, e, last_child-upsert st.child_counters parent n),
              ground (arith, e),
            )
      ]
