-- ===== src/Ids/Prefix.antt =====
-- internal/utils/issue_id.go: the prefix of an identifier.
use bd.Prelude.{
  ℕ, suc, ◌+◌, ◌≤◌, ◌<◌, ◌≡◌, ◌∙◌, refl, ap, Bool, true, false, ◌&&◌, ◌||◌, not, Option, none, some,
  inl, inr, ◌⊎◌, [], ◌∷◌, ◌++◌, length, take, drop, all, any, eqb, ltb, arith, if◌then◌else◌,
}
use bd.Prelude.Text.{Text, codes, ◌==◌, is_digit, is_lower, is_upper, index_byte}
use bd.Ids.Hash.{HashInput, generate_hash_id, clamp_length, encode_base36, num_bytes}
use bd.Ids.Encoding.{encode_base36-shape, is_base36}

-- strings.LastIndex of one byte, `none` for -1
unfoldable pub last_index : ℕ → Text → Option ℕ
last_index d [] = none
last_index d (c ∷ s) = elim (last_index d s) [
  | some i ↦ some (suc i)
  | none ↦ if eqb c d then some 0 else none
]

-- isNumeric
unfoldable pub is_numeric : Text → Bool
is_numeric s = if eqb (length s) 0 then false else all is_digit s

-- isLikelyHash
unfoldable pub is_likely_hash : Text → Bool
is_likely_hash s =
    if ltb (length s) 3 || ltb 8 (length s)
    then false
    else all (λ c. is_digit c || is_lower c || is_upper c) s && (eqb (length s) 3 || any is_digit s)

-- The part of a suffix before a dot that is not its first byte.
unfoldable pub base_part : Text → Text
base_part suffix = elim (index_byte b'.' suffix) [
  | none ↦ suffix
  | some i ↦ if ltb 0 i then take i suffix else suffix
]

-- The fallback to the first hyphen.
unfoldable pub first_part : Text → Text
first_part id = elim (index_byte b'-' id) [ none ↦ [] | some i ↦ if ltb 0 i then take i id else [] ]

-- ExtractIssuePrefix
unfoldable pub extract_issue_prefix : Text → Text
extract_issue_prefix id = elim (last_index b'-' id) [
  | none ↦ []
  | some i ↦
      if eqb i 0
      then []
      else if drop (i + 1) id == []
      then take i id
      else if is_numeric (base_part (drop (i + 1) id))
          || is_likely_hash (base_part (drop (i + 1) id))
      then take i id
      else first_part id
]

last_index_absent : (d : ℕ) (s : Text) → all (λ c. not (eqb c d)) s ≡ true → last_index d s ≡ none
unfolding last_index
last_index_absent d [] h = refl
last_index_absent d (c ∷ s) h = ground (arith, last_index_absent d s)

pub last_index-append :
    (d : ℕ) (p s : Text)
    → all (λ c. not (eqb c d)) s ≡ true
    → last_index d (p ++ (d ∷ s)) ≡ some (length p)
unfolding last_index
last_index-append d [] s h = ground (arith, last_index_absent d s h)
last_index-append d (c ∷ p) s h = ground (arith, last_index-append d p s h)

pub index_byte-append :
    (d : ℕ) (p s : Text)
    → all (λ c. not (eqb c d)) p ≡ true
    → index_byte d (p ++ (d ∷ s)) ≡ some (length p)
unfolding index_byte
index_byte-append d [] s h = ground arith
index_byte-append d (c ∷ p) s h = ground (arith, index_byte-append d p s)

pub index_byte_absent :
    (d : ℕ) (s : Text) → all (λ c. not (eqb c d)) s ≡ true → index_byte d s ≡ none
unfolding index_byte
index_byte_absent d [] h = refl
index_byte_absent d (c ∷ s) h = ground (arith, index_byte_absent d s)

pub take-append : (p s : Text) → take (length p) (p ++ s) ≡ p
take-append [] s = refl
take-append (c ∷ p) s = ap (λ t. c ∷ t) (take-append p s)

drop-append_suc : (c : ℕ) (p s : Text) → drop (suc (length p)) (p ++ (c ∷ s)) ≡ s
drop-append_suc c [] s = refl
drop-append_suc c (b ∷ p) s = drop-append_suc c p s

pub drop-append : (c : ℕ) (p s : Text) → drop (length p + 1) (p ++ (c ∷ s)) ≡ s
drop-append c p s =
    let same : length p + 1 ≡ suc (length p) = omega arith in
    ap (λ n. drop n (p ++ (c ∷ s))) same ∙ drop-append_suc c p s

all_weaken :
    (p q : ℕ → Bool)
    → ((c : ℕ) → p c ≡ true → q c ≡ true)
    → (s : Text) → all p s ≡ true
    → all q s ≡ true
all_weaken p q f [] h = refl
all_weaken p q f (c ∷ s) h = ground (arith, f c, all_weaken p q f s)

-- A suffix of base-36 digits has no hyphen and no dot.
no_hyphen : (c : ℕ) → is_base36 c ≡ true → not (eqb c b'-') ≡ true
no_hyphen c h = ground arith

no_dot : (c : ℕ) → is_base36 c ≡ true → not (eqb c b'.') ≡ true
no_dot c h = ground arith

base36_ascii : (c : ℕ) → is_base36 c ≡ true → (is_digit c || is_lower c || is_upper c) ≡ true
base36_ascii c h = ground arith

-- The two cases in which the prefix of an identifier is found: the prefix has no hyphen, or the
-- suffix is likely a hash.
extract-suffix :
    (p h : Text)
    → 0 < length p
    → 0 < length h
    → all is_base36 h ≡ true
    → (all (λ c. not (eqb c b'-')) p ≡ true) ⊎ (is_likely_hash h ≡ true)
    → extract_issue_prefix (p ++ (b'-' ∷ h)) ≡ p
unfolding extract_issue_prefix first_part base_part
extract-suffix p h n m a c =
    let e =
      last_index-append b'-' p h (all_weaken is_base36 (λ c. not (eqb c b'-')) no_hyphen h a) in
    let d = index_byte_absent b'.' h (all_weaken is_base36 (λ c. not (eqb c b'.')) no_dot h a) in
    let t = take-append p (b'-' ∷ h) in
    let r = drop-append b'-' p h in
    elim c [
      | inl q ↦ ground (arith, e, d, t, r, index_byte-append b'-' p h q)
      | inr q ↦ ground (arith, e, d, t, r, q)
    ]

three_is_likely : (h : Text) → length h ≡ 3 → all is_base36 h ≡ true → is_likely_hash h ≡ true
unfolding is_likely_hash
three_is_likely h l a =
    ground (
      arith,
      l,
      all_weaken is_base36 (λ c. is_digit c || is_lower c || is_upper c) base36_ascii h a,
    )

clamp_length-low : (len : ℕ) → 3 ≤ clamp_length len
unfolding clamp_length
clamp_length-low len = ground arith

clamp_length-three : (len : ℕ) → len ≤ 3 → clamp_length len ≡ 3
unfolding clamp_length
clamp_length-three len h = ground arith

module _ (sha256 : Text → Text) (show : ℕ → Text) where
  -- ExtractIssuePrefix of an identifier that GenerateHashID makes with a prefix that is not empty
  -- gives the prefix back, if the prefix has no hyphen, or if the length asked for is at most 3.
  pub extract_issue_prefix-generate_hash_id :
      (prefix : Text) (i : HashInput) (len nonce : ℕ)
      → 0 < length prefix
      → (all (λ c. not (eqb c b'-')) prefix ≡ true) ⊎ (len ≤ 3)
      → extract_issue_prefix (generate_hash_id sha256 show prefix i len nonce) ≡ prefix
  unfolding generate_hash_id
  extract_issue_prefix-generate_hash_id prefix i len nonce n c =
      let k = clamp_length len in
      let content =
        i.title
        ++ codes "|"
        ++ i.description
        ++ codes "|"
        ++ i.creator
        ++ codes "|"
        ++ i.unix_nano
        ++ codes "|"
        ++ show nonce in
      let bytes = take (num_bytes k) (sha256 content) in
      let (l, a) = encode_base36-shape bytes k in
      extract-suffix prefix (encode_base36 bytes k) n (omega (arith, l, clamp_length-low len)) a
        (elim c [
          | inl q ↦ inl q
          | inr q ↦ inr (three_is_likely (encode_base36 bytes k) (l ∙ clamp_length-three len q) a)
        ])
