-- ===== src/Ids/Free.antt =====
-- GenerateIssueIDInTable of internal/storage/issueops/helpers.go: what the search for an identifier
-- returns.
use bd.Prelude.{
  ℕ, zero, suc, ◌+◌, ◌-◌, ◌≤◌, ◌<◌, ◌≡◌, sym, subst, true, false, Bool-cases, none, some,
  Option-cases, inl, inr, List, eqb, arith,
}
use bd.Prelude.Text.{Text, contains}
use bd.Ids.Hash.{HashInput, generate_hash_id, try_nonces, try_lengths, generate_issue_id}

module _ (sha256 : Text → Text) (show : ℕ → Text) (ids : List Text) (prefix : Text)
    (i : HashInput) where
  abbrev candidate : ℕ → ℕ → Text
  candidate = generate_hash_id sha256 show prefix i

  try_nonces_free :
      (len tries nonce : ℕ) (id : Text)
      → try_nonces sha256 show ids prefix i len tries nonce ≡ some id
      → (contains ids id ≡ false) × (n : ℕ) × (n < nonce + tries) × (id ≡ candidate len n)
  unfolding try_nonces
  try_nonces_free len zero nonce id h = cc
  try_nonces_free len (suc tries) nonce id h =
      elim (Bool-cases (contains ids (candidate len nonce))) [
        | inl e ↦
            let (f, n, l, q) = try_nonces_free len tries (suc nonce) id (ground arith) in
            (f, n, omega (arith, l), q)
        | inr e ↦
            let same : candidate len nonce ≡ id = ground arith in
            (subst (λ x. contains ids x ≡ false) same e, nonce, omega arith, sym same)
      ]

  try_nonces_taken :
      (len tries nonce n : ℕ)
      → try_nonces sha256 show ids prefix i len tries nonce ≡ none
      → nonce ≤ n
      → n < nonce + tries
      → contains ids (candidate len n) ≡ true
  unfolding try_nonces
  try_nonces_taken len zero nonce n h a b = ground arith
  try_nonces_taken len (suc tries) nonce n h a b =
      elim (Bool-cases (contains ids (candidate len nonce))) [
        | inl e ↦ elim (Bool-cases (eqb nonce n)) [
          | inl q ↦ subst (λ m. contains ids (candidate len m) ≡ true) (ground arith) e
          | inr q ↦
              try_nonces_taken len tries (suc nonce) n (ground arith) (ground arith) (ground arith)
        ]
        | inr e ↦ ground arith
      ]

  try_lengths_free :
      (lengths len : ℕ) (id : Text)
      → try_lengths sha256 show ids prefix i lengths len ≡ some id
      → (contains ids id ≡ false)
        × (l : ℕ) × (n : ℕ) × (len ≤ l)
        × (l < len + lengths)
        × (n < 10)
        × (id ≡ candidate l n)
  unfolding try_lengths
  try_lengths_free zero len id h = cc
  try_lengths_free (suc lengths) len id h =
      elim (Option-cases (try_nonces sha256 show ids prefix i len 10 0)) [
        | inl e ↦
            let (f, l, n, a, b, c, q) = try_lengths_free lengths (suc len) id (ground arith) in
            (f, l, n, omega (arith, a), omega (arith, b), c, q)
        | inr (x, e) ↦
            let (f, n, l, q) = try_nonces_free len 10 0 id (ground arith) in
            (f, len, n, omega arith, omega arith, omega (arith, l), q)
      ]

  try_lengths_taken :
      (lengths len l n : ℕ)
      → try_lengths sha256 show ids prefix i lengths len ≡ none
      → len ≤ l
      → l < len + lengths
      → n < 10
      → contains ids (candidate l n) ≡ true
  unfolding try_lengths
  try_lengths_taken zero len l n h a b c = ground arith
  try_lengths_taken (suc lengths) len l n h a b c =
      elim (Option-cases (try_nonces sha256 show ids prefix i len 10 0)) [
        | inl e ↦ elim (Bool-cases (eqb len l)) [
          | inl q ↦
              subst (λ m. contains ids (candidate m n) ≡ true) {x = len} (ground arith)
                (try_nonces_taken len 10 0 n e (omega arith) (omega (arith, c)))
          | inr q ↦
              try_lengths_taken lengths (suc len) l n (ground arith) (ground arith) (ground arith) c
        ]
        | inr (x, e) ↦ ground arith
      ]

  -- An identifier that the search returns is not one of the table, and it is the candidate of some
  -- length from the base length to 8 and some nonce below 10.
  pub generate_issue_id_free :
      (base : ℕ) (id : Text)
      → base ≤ 8
      → generate_issue_id sha256 show ids prefix i base ≡ some id
      → (contains ids id ≡ false)
        × (l : ℕ) × (n : ℕ) × (base ≤ l)
        × (l ≤ 8)
        × (n < 10)
        × (id ≡ generate_hash_id sha256 show prefix i l n)
  unfolding generate_issue_id
  generate_issue_id_free base id k h =
      let (f, l, n, a, b, c, q) = try_lengths_free (9 - base) base id (ground arith) in
      (f, l, n, a, omega (arith, b, k), c, q)

  -- The search fails only if the candidate of every length from the base length to 8 and every nonce
  -- below 10 is an identifier of the table.
  generate_issue_id_exhausted :
      (base l n : ℕ)
      → generate_issue_id sha256 show ids prefix i base ≡ none
      → base ≤ l
      → l ≤ 8
      → n < 10
      → contains ids (generate_hash_id sha256 show prefix i l n) ≡ true
  unfolding generate_issue_id
  generate_issue_id_exhausted base l n h a b c =
      try_lengths_taken (9 - base) base l n (ground arith) a (omega (arith, a, b)) c
