-- ===== src/Prelude/Distinct.antt =====
-- Lists of texts without repetition, and the ids of a selected and sorted table.
use bd.Prelude.Lists.{take, select, In, In-append}
use bd.Prelude.Tests.{Bool-cases}
use bd.Prelude.Order.{insert_by, sort_by}
use bd.Prelude.Text.{Text}
use Prim.Native.Nat.{ℕ, zero, suc}
use mathlib.Core.Path.{◌≡◌, refl, sym}
use mathlib.Core.Logic.{◌↔◌, ◌⊎◌, inl, inr}
use mathlib.Core.Bool.{Bool}
use mathlib.Core.List.{List, [], ◌∷◌, ◌++◌, map}
use native.Mathlib.Omega.{arith}

-- No text stands in the list twice.
abbrev pub IsDistinct : List Text → Type 0
IsDistinct [] = Unit {0}
IsDistinct (x ∷ xs) = ¬ In x xs × IsDistinct xs

pub IsDistinct-append :
    (xs ys : List Text)
    → IsDistinct xs
    → IsDistinct ys
    → ((x : Text) → In x xs → ¬ In x ys)
    → IsDistinct (xs ++ ys)
IsDistinct-append [] ys dx dy apart = dy
IsDistinct-append (x ∷ xs) ys (new, dx) dy apart = (
  λ m. elim ((In-append x xs ys).0 m) [ inl n ↦ new n | inr n ↦ apart x (inl refl) n ],
  IsDistinct-append xs ys dx dy (λ y m. apart y (inr m)),
)

module _ {A : Type 0} (key : A → Text) where
  In-keys_select :
      (p : A → Bool) (k : Text) (xs : List A) → In k (map key (select p xs)) → In k (map key xs)
  In-keys_select p k [] m = m
  In-keys_select p k (x ∷ xs) m = ground (arith, In-keys_select p k xs)

  pub IsDistinct-select :
      (p : A → Bool) (xs : List A) → IsDistinct (map key xs) → IsDistinct (map key (select p xs))
  IsDistinct-select p [] d = tt
  IsDistinct-select p (x ∷ xs) (new, d) = elim (Bool-cases (p x)) [
    | inl e ↦ rw e (λ m. new (In-keys_select p (key x) xs m), IsDistinct-select p xs d)
    | inr e ↦ rw e (IsDistinct-select p xs d)
  ]

  In-keys_take : (n : ℕ) (k : Text) (xs : List A) → In k (map key (take n xs)) → In k (map key xs)
  In-keys_take zero k xs m = absurd m
  In-keys_take (suc n) k [] m = m
  In-keys_take (suc n) k (x ∷ xs) (inl e) = inl e
  In-keys_take (suc n) k (x ∷ xs) (inr m) = inr (In-keys_take n k xs m)

  pub IsDistinct-take :
      (n : ℕ) (xs : List A) → IsDistinct (map key xs) → IsDistinct (map key (take n xs))
  IsDistinct-take zero xs d = tt
  IsDistinct-take (suc n) [] d = tt
  IsDistinct-take (suc n) (x ∷ xs) (new, d) =
      (λ m. new (In-keys_take n (key x) xs m), IsDistinct-take n xs d)

  module _ (leq : A → A → Bool) where
    In-keys_insert_by :
        (x : A) (k : Text) (ys : List A)
        → In k (map key (insert_by leq x ys)) ↔ ((k ≡ key x) ⊎ In k (map key ys))
    unfolding insert_by
    In-keys_insert_by x k [] = ground arith
    In-keys_insert_by x k (y ∷ ys) = ground (arith, In-keys_insert_by x k ys)

    pub In-keys_sort_by :
        (k : Text) (xs : List A) → In k (map key (sort_by leq xs)) ↔ In k (map key xs)
    unfolding sort_by
    In-keys_sort_by k [] = ground arith
    In-keys_sort_by k (x ∷ xs) =
        ground (arith, In-keys_insert_by x k (sort_by leq xs), In-keys_sort_by k xs)

    IsDistinct-insert_by :
        (x : A) (ys : List A)
        → ¬ In (key x) (map key ys)
        → IsDistinct (map key ys)
        → IsDistinct (map key (insert_by leq x ys))
    unfolding insert_by
    IsDistinct-insert_by x [] new d = (new, tt)
    IsDistinct-insert_by x (y ∷ ys) new (other, d) = elim (Bool-cases (leq x y)) [
      | inl e ↦ rw e (new, (other, d))
      | inr e ↦ rw e (
        λ m. elim ((In-keys_insert_by x (key y) ys).0 m) [
          | inl q ↦ new (inl (sym q))
          | inr n ↦ other n
        ],
        IsDistinct-insert_by x ys (λ m. new (inr m)) d,
      )
    ]

    pub IsDistinct-sort_by :
        (xs : List A) → IsDistinct (map key xs) → IsDistinct (map key (sort_by leq xs))
    unfolding sort_by
    IsDistinct-sort_by [] d = tt
    IsDistinct-sort_by (x ∷ xs) (new, d) =
        IsDistinct-insert_by x (sort_by leq xs) (λ m. new ((In-keys_sort_by (key x) xs).0 m))
          (IsDistinct-sort_by xs d)
