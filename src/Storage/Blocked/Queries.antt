-- ===== src/Storage/Blocked/Queries.antt =====
-- The queries of the computation of the blocked issues: sets of texts, and lists in batches.
use bd.Prelude.{
  ℕ, zero, suc, ◌<◌, ◌≤◌, ◌≡◌, refl, sym, subst, Bool, false, ◌&&◌, ◌||◌, List, [], ◌∷◌, any,
  select, length, length-drop, drop, inl, inr, Bool-cases, arith, if◌then◌else◌,
}
use bd.Prelude.{any-append, any-select, any_ext, any_or, any-take-drop, any_none}
use bd.Prelude.Text.{Text, ◌==◌, eq_iff, contains}
use bd.Storage.Blocked.{put, put_all, batches, concat_map}

pub contains-put : (ks : List Text) (k x : Text) → contains (put ks k) x ≡ (contains ks x || x == k)
unfolding put
contains-put ks k x = elim (Bool-cases (x == k)) [
  | inl e ↦
      subst (λ y. contains (if contains ks y then ks else y ∷ ks) x ≡ (contains ks x || x == y))
        ((eq_iff x k).0 e) (ground arith)
  | inr e ↦ ground arith
]

pub contains-put_all :
    (xs ks : List Text) (x : Text) → contains (put_all ks xs) x ≡ (contains ks x || contains xs x)
unfolding put_all
contains-put_all [] ks x = ground arith
contains-put_all (y ∷ xs) ks x =
    ground (arith, contains-put_all xs (put ks y) x, contains-put ks y x)

module _ {A B : Type 0} (p : B → Bool) (f : A → List B) where
  pub any-concat_map : (xs : List A) → any p (concat_map f xs) ≡ any (λ x. any p (f x)) xs
  any-concat_map [] = refl
  any-concat_map (x ∷ xs) = ground (arith, any-append p (f x) (concat_map f xs), any-concat_map xs)

length-drop_le :
    {A : Type 0} (n m : ℕ) (x : A) (xs : List A)
    → 0 < n
    → length (x ∷ xs) ≤ suc m
    → length (drop n (x ∷ xs)) ≤ m
length-drop_le n m x xs h k = omega (arith, length-drop n (x ∷ xs))

-- The batches together are the list.
pub any-batches :
    {A : Type 0} (p : A → Bool) (fuel n : ℕ) (xs : List A)
    → 0 < n
    → length xs ≤ fuel
    → any (any p) (batches fuel n xs) ≡ any p xs
unfolding batches
any-batches p zero n [] h k = refl
any-batches p zero n (x ∷ xs) h k = ground arith
any-batches p (suc fuel) n [] h k = refl
any-batches p (suc fuel) n (x ∷ xs) h k = ground (
  arith,
  any-take-drop p n (x ∷ xs),
  any-batches p fuel n (drop n (x ∷ xs)) h (length-drop_le n fuel x xs h k),
)

-- The rows that some batch selects.
pub any_over_batches :
    {A B : Type 0} (q r : A → Bool) (c : B → A → Bool) (xs : List A) (bs : List B)
    → any (λ b. any q (select (λ x. r x && c b x) xs)) bs
      ≡ any (λ x. (r x && any (λ b. c b x) bs) && q x) xs
any_over_batches q r c xs [] = sym (any_none (λ x. (r x && false) && q x) (λ x. ground arith) xs)
any_over_batches q r c xs (b ∷ bs) = ground (
  arith,
  any-select q (λ x. r x && c b x) xs,
  any_over_batches q r c xs bs,
  any_or (λ x. (r x && c b x) && q x) (λ x. (r x && any (λ b. c b x) bs) && q x) xs,
  any_ext (λ x. (r x && (c b x || any (λ b. c b x) bs)) && q x)
      (λ x. (r x && c b x) && q x || (r x && any (λ b. c b x) bs) && q x) (λ x. ground arith) xs,
)
