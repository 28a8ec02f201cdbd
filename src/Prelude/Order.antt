-- ===== src/Prelude/Order.antt =====
-- ORDER BY: the order of the texts, the order of the rows by a list of numbers and their id, and the
-- sorting of a list by a test.
use bd.Prelude.Lists.{In}
use bd.Prelude.Tests.{ltb, eqb, if◌then◌else◌, Bool-cases}
use bd.Prelude.Int.{ℤ, ltb_ℤ}
use bd.Prelude.Text.{Text}
use mathlib.Core.Path.{◌≡◌, refl, sym, subst}
use mathlib.Core.Logic.{◌↔◌, ◌⊎◌, inl, inr}
use mathlib.Core.Bool.{Bool, true, false, not, ◌&&◌, ◌||◌}
use mathlib.Core.List.{List, [], ◌∷◌}
use native.Mathlib.Omega.{arith}

-- Byte by byte.
unfoldable pub text_leb : Text → Text → Bool
text_leb [] t = true
text_leb (c ∷ s) [] = false
text_leb (c ∷ s) (d ∷ t) = ltb c d || (eqb c d && text_leb s t)

-- The first number that differs decides, and after the numbers the texts.
unfoldable pub keys_leb : List ℤ → List ℤ → Text → Text → Bool
unfolding text_leb
keys_leb [] ys s t = text_leb s t
keys_leb (x ∷ xs) [] s t = false
keys_leb (x ∷ xs) (y ∷ ys) s t = ltb_ℤ x y || (not (ltb_ℤ y x) && keys_leb xs ys s t)

text_leb_total : (s t : Text) → text_leb s t ≡ false → text_leb t s ≡ true
unfolding text_leb
text_leb_total [] t h = cc
text_leb_total (c ∷ s) [] h = refl
text_leb_total (c ∷ s) (d ∷ t) h = ground (arith, text_leb_total s t)

text_leb_trans : (s t u : Text) → text_leb s t ≡ true → text_leb t u ≡ true → text_leb s u ≡ true
unfolding text_leb
text_leb_trans [] t u h k = refl
text_leb_trans (c ∷ s) [] u h k = cc
text_leb_trans (c ∷ s) (d ∷ t) [] h k = cc
text_leb_trans (c ∷ s) (d ∷ t) (e ∷ u) h k = ground (arith, text_leb_trans s t u)

-- Two lists of numbers that one policy gives are equally long.
abbrev pub same_shape : List ℤ → List ℤ → Bool
same_shape [] [] = true
same_shape [] (y ∷ ys) = false
same_shape (x ∷ xs) [] = false
same_shape (x ∷ xs) (y ∷ ys) = same_shape xs ys

pub keys_leb_total :
    (xs ys : List ℤ) (s t : Text)
    → same_shape xs ys ≡ true
    → keys_leb xs ys s t ≡ false
    → keys_leb ys xs t s ≡ true
unfolding keys_leb
keys_leb_total [] [] s t l h = text_leb_total s t h
keys_leb_total [] (y ∷ ys) s t l h = cc
keys_leb_total (x ∷ xs) [] s t l h = cc
keys_leb_total (x ∷ xs) (y ∷ ys) s t l h = ground (arith, keys_leb_total xs ys s t l)

pub keys_leb_trans :
    (xs ys zs : List ℤ) (s t u : Text)
    → keys_leb xs ys s t ≡ true
    → keys_leb ys zs t u ≡ true
    → same_shape xs ys ≡ true
    → same_shape ys zs ≡ true
    → keys_leb xs zs s u ≡ true
unfolding keys_leb
keys_leb_trans [] [] zs s t u h k l m = text_leb_trans s t u h k
keys_leb_trans [] (y ∷ ys) zs s t u h k l m = cc
keys_leb_trans (x ∷ xs) [] zs s t u h k l m = cc
keys_leb_trans (x ∷ xs) (y ∷ ys) [] s t u h k l m = cc
keys_leb_trans (x ∷ xs) (y ∷ ys) (z ∷ zs) s t u h k l m =
    ground (arith, keys_leb_trans xs ys zs s t u)

module _ {A : Type 0} (leq : A → A → Bool) where
  unfoldable pub insert_by : A → List A → List A
  insert_by x [] = x ∷ []
  insert_by x (y ∷ ys) = let rest = insert_by x ys in if leq x y then x ∷ y ∷ ys else y ∷ rest

  unfoldable pub sort_by : List A → List A
  unfolding insert_by
  sort_by [] = []
  sort_by (x ∷ xs) = insert_by x (sort_by xs)

  -- Each element stands before those that it is not above of.
  abbrev pub IsBelow : A → List A → Type 0
  IsBelow x ys = (y : A) → In y ys → leq x y ≡ true

  abbrev pub IsSorted : List A → Type 0
  IsSorted [] = Unit {0}
  IsSorted (x ∷ xs) = IsBelow x xs × IsSorted xs

  In-insert_by : (x y : A) (ys : List A) → In x (insert_by y ys) ↔ ((x ≡ y) ⊎ In x ys)
  unfolding insert_by
  In-insert_by x y [] = ground arith
  In-insert_by x y (z ∷ ys) = ground (arith, In-insert_by x y ys)

  pub In-sort_by : (x : A) (xs : List A) → In x (sort_by xs) ↔ In x xs
  unfolding sort_by
  In-sort_by x [] = ground arith
  In-sort_by x (y ∷ xs) = ground (arith, In-insert_by x y (sort_by xs), In-sort_by x xs)

  module _ (total : (x y : A) → leq x y ≡ false → leq y x ≡ true)
      (trans : (x y z : A) → leq x y ≡ true → leq y z ≡ true → leq x z ≡ true) where
    IsSorted-insert_by : (x : A) (ys : List A) → IsSorted ys → IsSorted (insert_by x ys)
    unfolding insert_by
    IsSorted-insert_by x [] s = (λ y m. absurd m, tt)
    IsSorted-insert_by x (y ∷ ys) (below, s) = elim (Bool-cases (leq x y)) [
      | inl h ↦ rw h (
        λ z m. elim m [
          | inl e ↦ subst (λ (w : A). leq x w ≡ true) (sym e) h
          | inr n ↦ trans x y z h (below z n)
        ],
        (below, s),
      )
      | inr h ↦ rw h (
        λ z m. elim ((In-insert_by z x ys).0 m) [
          | inl e ↦ subst (λ (w : A). leq y w ≡ true) (sym e) (total x y h)
          | inr n ↦ below z n
        ],
        IsSorted-insert_by x ys s,
      )
    ]

    pub IsSorted-sort_by : (xs : List A) → IsSorted (sort_by xs)
    unfolding sort_by
    IsSorted-sort_by [] = tt
    IsSorted-sort_by (x ∷ xs) = IsSorted-insert_by x (sort_by xs) (IsSorted-sort_by xs)
