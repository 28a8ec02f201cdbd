-- ===== src/Ids/Encoding.antt =====
-- internal/idgen/hash.go: the digits of the base-36 encoding.
use bd.Prelude.{
  append_assoc, ℕ, zero, suc, ◌+◌, ◌-◌, ◌/◌, ◌%◌, ◌≤◌, ◌≡◌, ◌∙◌, refl, sym, ap, subst,
  length-replicate, Bool, true, ◌||◌, Bool-cases, inl, inr, [], ◌∷◌, ◌++◌, length, length-append,
  drop, replicate, all, all-append, eqb, ltb, arith, if◌then◌else◌,
}
use bd.Prelude.Text.{Text, is_digit, is_lower}
use bd.Ids.Hash.{base36_digit, reverse, set_bytes, base36_chars, pad_left, keep_last, encode_base36}

-- The last `k` digits of a number in base 36, the most significant first.
unfoldable pub last_digits : ℕ → ℕ → Text
last_digits zero n = []
last_digits (suc k) n = last_digits k (n / 36) ++ (base36_digit (n % 36) ∷ [])

-- The first `k` digits, the least significant first, with zeros where the text ends.
fit : ℕ → Text → Text
fit zero s = []
fit (suc k) [] = b'0' ∷ fit k []
fit (suc k) (c ∷ s) = c ∷ fit k s

append_nil : (s : Text) → s ++ [] ≡ s
append_nil [] = refl
append_nil (c ∷ s) = ap (λ t. c ∷ t) (append_nil s)

replicate-snoc : (n c : ℕ) → replicate n c ++ (c ∷ []) ≡ c ∷ replicate n c
replicate-snoc zero c = refl
replicate-snoc (suc n) c = ap (λ s. c ∷ s) (replicate-snoc n c)

length-reverse : (s : Text) → length (reverse s) ≡ length s
length-reverse [] = refl
length-reverse (c ∷ s) = omega (arith, length-append (reverse s) (c ∷ []), length-reverse s)

drop-snoc : (n c : ℕ) (s : Text) → n ≤ length s → drop n (s ++ (c ∷ [])) ≡ drop n s ++ (c ∷ [])
drop-snoc zero c s h = refl
drop-snoc (suc n) c [] h = ground arith
drop-snoc (suc n) c (d ∷ s) h = drop-snoc n c s (omega (arith, h))

drop-all : (s : Text) → drop (length s) s ≡ []
drop-all [] = refl
drop-all (c ∷ s) = drop-all s

reverse-fit_short :
    (k m : ℕ) (s : Text) → m + length s ≡ k → replicate m b'0' ++ reverse s ≡ reverse (fit k s)
unfolding fit
reverse-fit_short zero zero [] h = refl
reverse-fit_short zero (suc m) [] h = ground arith
reverse-fit_short (suc k) zero [] h = ground arith
reverse-fit_short (suc k) (suc m) [] h =
    append_nil (replicate (suc m) b'0')
    ∙ sym (replicate-snoc m b'0')
    ∙ ap (λ s. s ++ (b'0' ∷ []))
        (sym (append_nil (replicate m b'0')) ∙ reverse-fit_short k m [] (omega (arith, h)))
reverse-fit_short zero m (c ∷ s) h = ground arith
reverse-fit_short (suc k) m (c ∷ s) h =
    sym (append_assoc (replicate m b'0') (reverse s) (c ∷ []))
    ∙ ap (λ t. t ++ (c ∷ [])) (reverse-fit_short k m s (omega (arith, h)))

reverse-fit_long : (k m : ℕ) (s : Text) → length s ≡ m + k → drop m (reverse s) ≡ reverse (fit k s)
unfolding fit
reverse-fit_long zero m s h =
    ap (λ n. drop n (reverse s)) (omega (arith, h, length-reverse s)) ∙ drop-all (reverse s)
reverse-fit_long (suc k) m [] h = ground arith
reverse-fit_long (suc k) m (c ∷ s) h =
    drop-snoc m c (reverse s) (omega (arith, h, length-reverse s))
    ∙ ap (λ t. t ++ (c ∷ [])) (reverse-fit_long k m s (omega (arith, h)))

fit-zeros : (k : ℕ) → reverse (fit k []) ≡ last_digits k 0
unfolding fit last_digits base36_digit
fit-zeros zero = refl
fit-zeros (suc k) = ap (λ t. t ++ (b'0' ∷ [])) (fit-zeros k)

eqb_zero : (n : ℕ) → eqb n 0 ≡ true → n ≡ 0
eqb_zero n h = ground arith

fit-base36_chars :
    (k fuel n : ℕ) → n ≤ fuel → reverse (fit k (base36_chars fuel n)) ≡ last_digits k n
unfolding fit last_digits base36_chars
fit-base36_chars k zero n h = fit-zeros k ∙ ap (last_digits k) (omega (arith, h))
fit-base36_chars zero (suc fuel) n h = refl
fit-base36_chars (suc k) (suc fuel) n h = elim (Bool-cases (eqb n 0)) [
  | inl e ↦
      ap
        (λ b.
          reverse
            (fit (suc k) (if b then [] else base36_digit (n % 36) ∷ base36_chars fuel (n / 36))))
        e
      ∙ fit-zeros (suc k)
      ∙ ap (last_digits (suc k)) (sym (eqb_zero n e))
  | inr e ↦
      ap
        (λ b.
          reverse
            (fit (suc k) (if b then [] else base36_digit (n % 36) ∷ base36_chars fuel (n / 36))))
        e
      ∙ ap (λ t. t ++ (base36_digit (n % 36) ∷ []))
          (fit-base36_chars k fuel (n / 36) (ground arith))
]

keep-pad : (len : ℕ) (s : Text) → keep_last len (pad_left len (reverse s)) ≡ reverse (fit len s)
unfolding keep_last pad_left
keep-pad len s = elim (Bool-cases (ltb (length (reverse s)) len)) [
  | inl e ↦ ground (
    arith,
    length-replicate {A = ℕ} (len - length (reverse s)) b'0',
    length-append (replicate (len - length (reverse s)) b'0') (reverse s),
    reverse-fit_short len (len - length (reverse s)) s (ground (arith, length-reverse s)),
  )
  | inr e ↦ elim (Bool-cases (ltb len (length (reverse s)))) [
    | inl f ↦ ground (
      arith,
      reverse-fit_long len (length (reverse s) - len) s (ground (arith, length-reverse s)),
    )
    | inr f ↦ ground (arith, reverse-fit_long len 0 s (ground (arith, length-reverse s)))
  ]
]

-- encodeBase36 of bytes gives the last `len` digits in base 36 of the number that the bytes are,
-- padded with zeros on the left.
pub encode_base36-last_digits :
    (bytes : Text) (len : ℕ) → encode_base36 bytes len ≡ last_digits len (set_bytes 0 bytes)
unfolding encode_base36
encode_base36-last_digits bytes len =
    let n = set_bytes 0 bytes in
    keep-pad len (base36_chars n n) ∙ fit-base36_chars len n n (omega arith)

-- '0' to '9' or 'a' to 'z'
abbrev pub is_base36 : ℕ → Bool
is_base36 c = is_digit c || is_lower c

is_base36-digit : (n : ℕ) → is_base36 (base36_digit (n % 36)) ≡ true
unfolding base36_digit
is_base36-digit n = ground arith

last_digits-shape :
    (k n : ℕ) → (length (last_digits k n) ≡ k) × (all is_base36 (last_digits k n) ≡ true)
unfolding last_digits
last_digits-shape zero n = (refl, refl)
last_digits-shape (suc k) n =
    let (l, a) = last_digits-shape k (n / 36) in
    let d = base36_digit (n % 36) ∷ [] in
    (
      omega (arith, length-append (last_digits k (n / 36)) d, l),
      ground (arith, all-append is_base36 (last_digits k (n / 36)) d, a, is_base36-digit n),
    )

-- encodeBase36 gives exactly `len` characters, each a digit or a lower-case letter.
pub encode_base36-shape :
    (bytes : Text) (len : ℕ)
    → (length (encode_base36 bytes len) ≡ len) × (all is_base36 (encode_base36 bytes len) ≡ true)
encode_base36-shape bytes len =
    subst (λ s. (length s ≡ len) × (all is_base36 s ≡ true))
      (sym (encode_base36-last_digits bytes len)) (last_digits-shape len (set_bytes 0 bytes))
