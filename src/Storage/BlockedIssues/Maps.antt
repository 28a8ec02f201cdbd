-- ===== src/Storage/BlockedIssues/Maps.antt =====
-- internal/storage/issueops/blocked.go: what the maps and the set of GetBlockedIssuesInTx hold, key by key.
use bd.Prelude.{
  append_assoc, ◌≡◌, ◌⊎◌, refl, ap, not, Bool, true, false, ◌&&◌, ◌||◌, Option, none, some, List,
  [], ◌∷◌, ◌++◌, map, any, select, In, inl, inr, Bool-cases, arith, if◌then◌else◌,
}
use bd.Prelude.Text.{Text, ◌==◌, eq_iff, contains}
use bd.Types.DependencyType.{Dependency}
use bd.Storage.BlockedIssues.{
  set_key, get_key, keys, set_parents, add_children, append_blocker, add_blockers, add_parents,
}

abbrev pub has_value : {V : Type 0} → Option V → Bool
has_value none = false
has_value (some v) = true

pub get_key-set_key :
    {V : Type 0} (m : List (Text × V)) (k : Text) (v : V) (x : Text)
    → get_key (set_key m k v) x ≡ (if k == x then some v else get_key m x)
unfolding get_key set_key
get_key-set_key [] k v x = ground arith
get_key-set_key ((j, w) ∷ m) k v x =
    ground (arith, get_key-set_key m k v x, eq_iff j k, eq_iff k x, eq_iff j x)

pub contains-keys :
    {V : Type 0} (m : List (Text × V)) (x : Text) → contains (keys m) x ≡ has_value (get_key m x)
unfolding get_key
contains-keys [] x = refl
contains-keys ((j, w) ∷ m) x = ground (arith, contains-keys m x, eq_iff j x, eq_iff x j)

-- The last row of the child, or else the former parent.
pub get_key-set_parents :
    (ds : List Dependency) (m : List (Text × Text)) (x p : Text)
    → get_key (set_parents m ds) x ≡ some p
    → (get_key m x ≡ some p)
      ⊎ ((d : Dependency) × In d ds × (d.issue_id ≡ x) × (d.depends_on_id ≡ p))
unfolding set_parents
get_key-set_parents [] m x p h = inl h
get_key-set_parents (d ∷ ds) m x p h =
    elim (get_key-set_parents ds (set_key m d.issue_id d.depends_on_id) x p h) [
      | inr (e, n, q, r) ↦ inr (e, inr n, q, r)
      | inl e ↦ elim (Bool-cases (d.issue_id == x)) [
        | inl q ↦ inr (
          d,
          inl refl,
          (eq_iff d.issue_id x).0 q,
          ground (arith, e, q, get_key-set_key m d.issue_id d.depends_on_id x),
        )
        | inr q ↦ inl (ground (arith, e, q, get_key-set_key m d.issue_id d.depends_on_id x))
      ]
    ]

pub has_value-set_parents :
    (ds : List Dependency) (m : List (Text × Text)) (x : Text)
    → has_value (get_key (set_parents m ds) x)
      ≡ (has_value (get_key m x) || any (λ d. x == d.issue_id) ds)
unfolding set_parents
has_value-set_parents [] m x = ground arith
has_value-set_parents (d ∷ ds) m x = ground (
  arith,
  has_value-set_parents ds (set_key m d.issue_id d.depends_on_id) x,
  get_key-set_key m d.issue_id d.depends_on_id x,
  eq_iff d.issue_id x,
  eq_iff x d.issue_id,
)

module _ (act : List Text) where
  pub contains-add_children :
      (m : List (Text × Text)) (blocked : List Text) (x : Text)
      → contains (add_children act blocked m) x
        ≡ (contains blocked x || contains act x && contains (keys m) x)
  unfolding add_children
  contains-add_children [] blocked x = ground arith
  contains-add_children ((c, p) ∷ m) blocked x = elim (Bool-cases (x == c)) [
    | inl e ↦ ground (
      arith,
      contains-add_children m
          (if contains act c && not (contains blocked c) then c ∷ blocked else blocked) x,
      (eq_iff x c).0 e,
    )
    | inr e ↦ ground (
      arith,
      contains-add_children m
          (if contains act c && not (contains blocked c) then c ∷ blocked else blocked) x,
    )
  ]

-- A list of blockers with more of them appended, missing while there are none.
abbrev pub more : Option (List Text) → List Text → Option (List Text)
more o [] = o
more none (b ∷ bs) = some (b ∷ bs)
more (some cs) (b ∷ bs) = some (cs ++ b ∷ bs)

-- The blockers that the rows give the issue.
abbrev pub blockers_in : (Text → Bool) → List Dependency → Text → List Text
blockers_in act ds id =
    map (λ d. d.depends_on_id) (select (λ d. d.issue_id == id && act d.depends_on_id) ds)

more-append :
    (o : Option (List Text)) (b : Text) (bs : List Text)
    → more (some ((elim o [ none ↦ [] | some cs ↦ cs ]) ++ (b ∷ []))) bs ≡ more o (b ∷ bs)
more-append none b [] = refl
more-append none b (c ∷ bs) = refl
more-append (some cs) b [] = refl
more-append (some cs) b (c ∷ bs) = ap (λ v. some v) (append_assoc cs (b ∷ []) (c ∷ bs))

module _ (act blocked : List Text) where
  pub get_key-add_blockers :
      (ds : List Dependency) (m : List (Text × List Text)) (x : Text)
      → get_key (add_blockers act blocked m ds) x ≡ (
          if contains blocked x
          then more (get_key m x) (blockers_in (contains act) ds x)
          else get_key m x)
  unfolding add_blockers append_blocker
  get_key-add_blockers [] m x = ground arith
  get_key-add_blockers (d ∷ ds) m x =
      let step = get_key-add_blockers ds (append_blocker m d.issue_id d.depends_on_id) x in
      let put =
        get_key-set_key m d.issue_id
          ((elim (get_key m d.issue_id) [ none ↦ [] | some bs ↦ bs ]) ++ (d.depends_on_id ∷ []))
          x in
      elim (Bool-cases (d.issue_id == x)) [
        | inl e ↦ ground (
          arith,
          (eq_iff d.issue_id x).0 e,
          step,
          put,
          get_key-add_blockers ds m x,
          more-append (get_key m x) d.depends_on_id (blockers_in (contains act) ds x),
        )
        | inr e ↦ ground (arith, step, put, get_key-add_blockers ds m x)
      ]

  pub get_key-add_parents :
      (ps : List (Text × Text)) (m : List (Text × List Text)) (x : Text)
      → get_key (add_parents act blocked m ps) x ≡ (elim (get_key m x) [
        | some bs ↦ some bs
        | none ↦
            if contains act x && contains blocked x
            then (elim (get_key ps x) [ none ↦ none | some p ↦ some (p ∷ []) ])
            else none
      ])
  unfolding add_parents get_key
  get_key-add_parents [] m x = ground arith
  get_key-add_parents ((c, p) ∷ ps) m x =
      let put = get_key-set_key m c (p ∷ []) x in
      elim (Bool-cases (c == x)) [
        | inl e ↦ ground (
          arith,
          (eq_iff c x).0 e,
          put,
          get_key-add_parents ps m x,
          get_key-add_parents ps (set_key m c (p ∷ [])) x,
        )
        | inr e ↦ ground (
          arith,
          put,
          get_key-add_parents ps m x,
          get_key-add_parents ps (set_key m c (p ∷ [])) x,
        )
      ]
