-- ===== src/Storage/Dependencies/Search.antt =====
-- What the bounded search for cycles finds: the rows of the recursive query are the ends of the
-- walks, each with its length, as far as the bound.
use bd.Prelude.{
  ℕ, zero, suc, ◌+◌, ◌≤◌, ◌<◌, ◌≡◌, refl, sym, ap, inl, inr, List, [], ◌∷◌, none, some, map, In,
  In-map_intro, In-map_elim, In-append, In-select, select, arith, Bool-cases, ltb, leb, subst,
}
use bd.Prelude.Text.{Text, ◌==◌, eq_iff, eq_refl}
use bd.Storage.Dependencies.{
  Edge, Row, successors, next_level, reachable_rows, hits, max_depth, detect_cycle,
  would_create_cycle, chain_too_deep, cycle_detection_max_depth,
}
use bd.Storage.Dependencies.Walks.{Walk}

In-singleton : (a t : Text) → In a (t ∷ []) → a ≡ t
In-singleton a t (inl e) = e
In-singleton a t (inr m) = absurd m

In-successors_intro : (es : List Edge) (a b : Text) → In (a, b) es → In b (successors es a)
unfolding successors
In-successors_intro es a b m =
    In-map_intro (λ (e : Edge). e.1) (a, b) (select (λ e. e.0 == a) es)
      ((In-select (λ (e : Edge). e.0 == a) (a, b) es).1 (m, eq_refl a))

pub In-successors_elim : (es : List Edge) (a b : Text) → In b (successors es a) → In (a, b) es
unfolding successors
In-successors_elim es a b m =
    let ((x, y), n, e) = In-map_elim (λ (e : Edge). e.1) b (select (λ e. e.0 == a) es) m in
    let (k, q) = (In-select (λ (e : Edge). e.0 == a) (x, y) es).0 n in
    subst (λ z. In {A = Edge} (z, b) es) ((eq_iff x a).0 q)
      (subst (λ z. In {A = Edge} (x, z) es) (sym e) k)

In-next_level_intro :
    (es : List Edge) (ns : List Text) (a b : Text)
    → In a ns
    → In (a, b) es
    → In b (next_level es ns)
unfolding next_level
In-next_level_intro es [] a b m e = m
In-next_level_intro es (n ∷ ns) a b (inl h) e =
    (In-append b (successors es n) (next_level es ns)).1
      (inl (In-successors_intro es n b (rw (sym h) e)))
In-next_level_intro es (n ∷ ns) a b (inr m) e =
    (In-append b (successors es n) (next_level es ns)).1 (inr (In-next_level_intro es ns a b m e))

In-next_level_elim :
    (es : List Edge) (ns : List Text) (b : Text)
    → In b (next_level es ns)
    → (a : Text) × In a ns × In (a, b) es
unfolding next_level
In-next_level_elim es [] b m = absurd m
In-next_level_elim es (n ∷ ns) b m = elim ((In-append b (successors es n) (next_level es ns)).0 m) [
  | inl h ↦ (n, inl refl, In-successors_elim es n b h)
  | inr h ↦ let (a, i, e) = In-next_level_elim es ns b h in (a, inr i, e)
]

In-tagged_intro :
    (depth k : ℕ) (nodes : List Text) (a c : Text)
    → In a nodes
    → a ≡ c
    → k ≡ depth
    → In {A = Row} (c, k) (map (λ n. (n, depth)) nodes)
In-tagged_intro depth k nodes a c m e q =
    rw (sym e, q) (In-map_intro {B = Row} (λ n. (n, depth)) a nodes m)

In-tagged_elim :
    (depth k : ℕ) (nodes : List Text) (c : Text)
    → In {A = Row} (c, k) (map (λ n. (n, depth)) nodes)
    → In c nodes × (k ≡ depth)
In-tagged_elim depth k nodes c m =
    let (a, n, e) = In-map_elim {B = Row} (λ n. (n, depth)) (c, k) nodes m in
    (rw (ap (λ (x : Row). x.0) e) n, ap (λ (x : Row). x.1) e)

-- A walk no longer than the bound shows in the rows.
pub reachable_rows_complete :
    (es : List Edge) (fuel depth : ℕ) (nodes : List Text) (a c : Text) (n k : ℕ)
    → n ≤ fuel
    → k ≡ depth + n
    → In a nodes
    → Walk es a c n
    → In {A = Row} (c, k) (reachable_rows es fuel depth nodes)
unfolding reachable_rows
reachable_rows_complete es zero depth nodes a c zero k h q m w =
    In-tagged_intro depth k nodes a c m w (omega arith)
reachable_rows_complete es zero depth nodes a c (suc n) k h q m w = absurd (omega arith)
reachable_rows_complete es (suc fuel) depth nodes a c zero k h q m w =
    (In-append (c, k) (map (λ n. (n, depth)) nodes)
        (reachable_rows es fuel (depth + 1) (next_level es nodes))).1
      (inl (In-tagged_intro depth k nodes a c m w (omega arith)))
reachable_rows_complete es (suc fuel) depth nodes a c (suc n) k h q m (b, e, w) =
    (In-append (c, k) (map (λ n. (n, depth)) nodes)
        (reachable_rows es fuel (depth + 1) (next_level es nodes))).1
      (inr (
        reachable_rows_complete es fuel (depth + 1) (next_level es nodes) b c n k (omega arith)
          (omega arith) (In-next_level_intro es nodes a b m e) w))

-- Each row is the end of a walk from a start node, with its length.
pub reachable_rows_sound :
    (es : List Edge) (fuel depth : ℕ) (nodes : List Text) (c : Text) (k : ℕ)
    → In {A = Row} (c, k) (reachable_rows es fuel depth nodes)
    → (a : Text) × In a nodes × (n : ℕ) × Walk es a c n × (k ≡ depth + n)
unfolding reachable_rows
reachable_rows_sound es zero depth nodes c k m =
    let (i, q) = In-tagged_elim depth k nodes c m in (c, i, 0, refl, omega arith)
reachable_rows_sound es (suc fuel) depth nodes c k m =
    elim ((In-append (c, k) (map (λ n. (n, depth)) nodes)
        (reachable_rows es fuel (depth + 1) (next_level es nodes))).0
      m) [
        | inl here ↦
            let (i, q) = In-tagged_elim depth k nodes c here in (c, i, 0, refl, omega arith)
        | inr later ↦
            let (b, i, n, w, q) =
              reachable_rows_sound es fuel (depth + 1) (next_level es nodes) c k later in
            let (a, j, e) = In-next_level_elim es nodes b i in (a, j, suc n, (b, e, w), omega arith)
      ]

hits_intro : (x : Text) (k : ℕ) (rows : List Row) → In {A = Row} (x, k) rows → 0 < hits x rows
unfolding hits
hits_intro x k [] m = absurd m
hits_intro x k ((n, d) ∷ rows) (inl e) = ground (arith, eq_iff n x, ap (λ (r : Row). r.0) e)
hits_intro x k ((n, d) ∷ rows) (inr m) = omega (arith, hits_intro x k rows m)

hits_elim : (x : Text) (rows : List Row) → 0 < hits x rows → (k : ℕ) × In {A = Row} (x, k) rows
unfolding hits
hits_elim x [] h = absurd (omega arith)
hits_elim x ((n, d) ∷ rows) h = elim (Bool-cases (n == x)) [
  | inl e ↦ (d, inl (rw ((eq_iff n x).0 e) refl))
  | inr e ↦ let (k, m) = hits_elim x rows (ground arith) in (k, inr m)
]

le-max_depth : (x : Text) (k : ℕ) (rows : List Row) → In {A = Row} (x, k) rows → k ≤ max_depth rows
unfolding max_depth
le-max_depth x k [] m = absurd m
le-max_depth x k ((n, d) ∷ rows) (inl e) = ground (arith, ap (λ (r : Row). r.1) e)
le-max_depth x k ((n, d) ∷ rows) (inr m) = ground (arith, le-max_depth x k rows m)

max_depth_reached :
    (rows : List Row) (k : ℕ) → max_depth rows ≡ k → 0 < k → (x : Text) × In {A = Row} (x, k) rows
unfolding max_depth
max_depth_reached [] k q h = absurd (omega arith)
max_depth_reached ((n, d) ∷ rows) k q h = elim (Bool-cases (ltb (max_depth rows) d)) [
  | inl e ↦ (n, inl (ap (λ j. (n, j)) (ground arith)))
  | inr e ↦ let (x, m) = max_depth_reached rows k (ground arith) h in (x, inr m)
]

module _ (es : List Edge) where
  -- A walk that the bounded search misses is longer than the bound, and its start shows.
  Walk-prefix : (a c : Text) (n k : ℕ) → k ≤ n → Walk es a c n → (b : Text) × Walk es a b k
  Walk-prefix a c n zero h w = (a, refl)
  Walk-prefix a c zero (suc k) h w = absurd (omega arith)
  Walk-prefix a c (suc n) (suc k) h (b, e, w) =
      let (x, v) = Walk-prefix b c n k (omega arith) w in (x, (b, e, v))

  abbrev bounded_rows : Text → List Row
  bounded_rows t = reachable_rows es cycle_detection_max_depth 0 (t ∷ [])

  bounded_complete :
      (t c : Text) (n : ℕ) → n ≤ 1000 → Walk es t c n → In {A = Row} (c, n) (bounded_rows t)
  bounded_complete t c n h w =
      reachable_rows_complete es 1000 0 (t ∷ []) t c n n h (omega arith) (inl refl) w

  bounded_sound :
      (t c : Text) (k : ℕ)
      → In {A = Row} (c, k) (bounded_rows t)
      → (n : ℕ) × Walk es t c n × (k ≡ n)
  bounded_sound t c k m =
      let (a, i, n, w, q) = reachable_rows_sound es 1000 0 (t ∷ []) c k m in
      (n, subst (λ x. Walk es x c n) (In-singleton a t i) w, omega arith)

  -- The bound is a variable here: at a numeral the walk would be computed.
  max_depth-Walk :
      (t c : Text) (bound n : ℕ)
      → bound ≤ n
      → Walk es t c n
      → bound ≤ max_depth (reachable_rows es bound 0 (t ∷ []))
  max_depth-Walk t c bound n h w =
      let (x, v) = Walk-prefix t c n bound h w in
      le-max_depth x bound (reachable_rows es bound 0 (t ∷ [])) (
        reachable_rows_complete es bound 0 (t ∷ []) t x bound bound (omega arith) (omega arith)
          (inl refl) v)

  -- An edge from `s` to `t` passes only if no walk leads from `t` to `s`.
  pub detect_cycle-none : (s t : Text) → detect_cycle es s t ≡ none → (n : ℕ) → ¬ Walk es t s n
  unfolding detect_cycle
  detect_cycle-none s t h n w = elim (Bool-cases (leb n 1000)) [
    | inl e ↦
        ground (arith, hits_intro s n (bounded_rows t) (bounded_complete t s n (ground arith) w))
    | inr e ↦ ground (arith, max_depth-Walk t s 1000 n (ground arith) w)
  ]

  -- A reported cycle is one: some walk leads from `t` to `s`.
  pub detect_cycle_found :
      (s t : Text) → detect_cycle es s t ≡ some would_create_cycle → (n : ℕ) × Walk es t s n
  unfolding detect_cycle
  detect_cycle_found s t h =
      let (k, m) = hits_elim s (bounded_rows t) (ground arith) in
      let (n, w, q) = bounded_sound t s k m in (n, w)

  -- The search gives up only on a graph with a walk as long as the bound.
  pub detect_cycle_deep :
      (s t : Text)
      → detect_cycle es s t ≡ some chain_too_deep
      → (x : Text) × (n : ℕ) × (cycle_detection_max_depth ≤ n) × Walk es t x n
  unfolding detect_cycle
  detect_cycle_deep s t h =
      let (x, m) =
        max_depth_reached (bounded_rows t) (max_depth (bounded_rows t)) refl (ground arith) in
      let (n, w, q) = bounded_sound t x (max_depth (bounded_rows t)) m in (x, n, ground arith, w)
