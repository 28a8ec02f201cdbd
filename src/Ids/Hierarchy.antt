-- ===== src/Ids/Hierarchy.antt =====
-- internal/types/id_generator.go: hierarchical identifiers.
use bd.Prelude.{
  ℕ, suc, ◌≤◌, ◌≡◌, ◌∙◌, refl, sym, ap, Bool, true, not, none, some, Option-cases, inl, inr, [],
  ◌∷◌, ◌++◌, take, all, eqb, leb, arith, if◌then◌else◌,
}
use bd.Prelude.Int.{ℤ, pos, pos_part, ltb_ℤ}
use bd.Prelude.Text.{Text, index_byte}
use bd.Ids.Prefix.{last_index, last_index-append, take-append}

-- The loop that counts the dots.
unfoldable pub count_dots : Text → ℕ
count_dots [] = 0
count_dots (c ∷ s) = if eqb c b'.' then suc (count_dots s) else count_dots s

-- The text before the first dot, the whole text without one.
unfoldable pub before_first_dot : Text → Text
before_first_dot id = elim (index_byte b'.' id) [ none ↦ id | some i ↦ take i id ]

unfoldable pub before_last_dot : Text → Text
before_last_dot id = elim (last_index b'.' id) [ none ↦ id | some i ↦ take i id ]

-- The results of ParseHierarchicalID.
pub record Hierarchy : Type 0 where
  pub root_id : Text
  pub parent_id : Text
  pub depth : ℕ

-- ParseHierarchicalID
unfoldable pub parse_hierarchical_id : Text → Hierarchy
parse_hierarchical_id id =
    if eqb (count_dots id) 0 then record { root_id = id; parent_id = []; depth = 0 } else record {
      root_id = before_first_dot id;
      parent_id = before_last_dot id;
      depth = count_dots id;
    }

-- GenerateChildID; `show` is the format %d.
unfoldable pub generate_child_id : (ℕ → Text) → Text → ℕ → Text
generate_child_id show parent_id n = parent_id ++ (b'.' ∷ show n)

abbrev pub max_hierarchy_depth : ℕ
max_hierarchy_depth = 3

abbrev pub effective_max : ℤ → ℕ
effective_max m = if ltb_ℤ m (pos 1) then max_hierarchy_depth else pos_part m

-- CheckHierarchyDepth: whether a child of the parent may be added.
unfoldable pub check_hierarchy_depth : Text → ℤ → Bool
check_hierarchy_depth parent_id m = not (leb (effective_max m) (count_dots parent_id))

before_first_dot_empty : before_first_dot [] ≡ []
unfolding before_first_dot index_byte
before_first_dot_empty = refl

count_dots_none : (s : Text) → all (λ c. not (eqb c b'.')) s ≡ true → count_dots s ≡ 0
unfolding count_dots
count_dots_none [] h = refl
count_dots_none (c ∷ s) h = ground (arith, count_dots_none s)

count_dots-append :
    (p s : Text)
    → all (λ c. not (eqb c b'.')) s ≡ true
    → count_dots (p ++ (b'.' ∷ s)) ≡ suc (count_dots p)
unfolding count_dots
count_dots-append [] s h = ap suc (count_dots_none s h)
count_dots-append (c ∷ p) s h = ground (arith, count_dots-append p s h)

before_first_dot-cons :
    (c : ℕ) (s : Text)
    → before_first_dot (c ∷ s) ≡ (if eqb c b'.' then [] else c ∷ before_first_dot s)
unfolding before_first_dot index_byte
before_first_dot-cons c s = elim (Option-cases (index_byte b'.' s)) [
  | inl e ↦ ground (arith, e)
  | inr (i, e) ↦ ground (arith, e)
]

before_first_dot-append : (p s : Text) → before_first_dot (p ++ (b'.' ∷ s)) ≡ before_first_dot p
before_first_dot-append [] s = before_first_dot-cons b'.' s ∙ sym before_first_dot_empty
before_first_dot-append (c ∷ p) s = ground (
  arith,
  before_first_dot-cons c (p ++ (b'.' ∷ s)),
  before_first_dot-cons c p,
  before_first_dot-append p s,
)

before_first_dot_none : (p : Text) → count_dots p ≡ 0 → before_first_dot p ≡ p
unfolding count_dots
before_first_dot_none [] h = before_first_dot_empty
before_first_dot_none (c ∷ p) h = ground (arith, before_first_dot-cons c p, before_first_dot_none p)

before_last_dot-append :
    (p s : Text) → all (λ c. not (eqb c b'.')) s ≡ true → before_last_dot (p ++ (b'.' ∷ s)) ≡ p
unfolding before_last_dot
before_last_dot-append p s h =
    ground (arith, last_index-append b'.' p s h, take-append p (b'.' ∷ s))

-- If %d writes no dot: reading the identifier of the n-th child gives the parent as its parent, the
-- root of the parent as its root, and one level more than the parent has; and if the depth check
-- passes for the parent, that level is at most the bound, 3 where none of at least 1 is given.
pub parse_hierarchical_id-generate_child_id :
    (show : ℕ → Text) (parent : Text) (n : ℕ) (m : ℤ)
    → ((k : ℕ) → all (λ c. not (eqb c b'.')) (show k) ≡ true)
    → check_hierarchy_depth parent m ≡ true
    → ((parse_hierarchical_id (generate_child_id show parent n)).parent_id ≡ parent)
      × ((parse_hierarchical_id (generate_child_id show parent n)).root_id
          ≡ (parse_hierarchical_id parent).root_id)
      × ((parse_hierarchical_id (generate_child_id show parent n)).depth
          ≡ suc (parse_hierarchical_id parent).depth)
      × ((parse_hierarchical_id (generate_child_id show parent n)).depth ≤ effective_max m)
unfolding parse_hierarchical_id generate_child_id check_hierarchy_depth
parse_hierarchical_id-generate_child_id show parent n m digits passes =
    let c = count_dots-append parent (show n) (digits n) in
    let l = before_last_dot-append parent (show n) (digits n) in
    let f = before_first_dot-append parent (show n) in
    (
      ground (arith, c, l),
      ground (arith, c, f, before_first_dot_none parent),
      ground (arith, c),
      ground (arith, c),
    )
