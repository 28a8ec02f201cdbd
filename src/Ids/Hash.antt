-- ===== src/Ids/Hash.antt =====
-- internal/idgen/hash.go, and GenerateIssueIDInTable of internal/storage/issueops/helpers.go.
use bd.Prelude.{
  ℕ, zero, suc, ◌+◌, ◌-◌, ◌*◌, ◌/◌, ◌%◌, ◌||◌, Option, none, some, List, [], ◌∷◌, ◌++◌, length,
  take, drop, replicate, eqb, ltb, if◌then◌else◌,
}
use bd.Prelude.Text.{Text, codes, contains}

-- base36Alphabet[d], for d < 36
unfoldable pub base36_digit : ℕ → ℕ
base36_digit d = if ltb d 10 then b'0' + d else b'a' + (d - 10)

abbrev pub reverse : Text → Text
reverse [] = []
reverse (c ∷ s) = reverse s ++ (c ∷ [])

-- big.Int.SetBytes: the bytes as a big-endian number, after the bytes of `acc`.
unfoldable pub set_bytes : ℕ → Text → ℕ
set_bytes acc [] = acc
set_bytes acc (b ∷ bs) = set_bytes (acc * 256 + b) bs

-- The loop that divides by 36, the least significant digit first. The number is fuel enough.
unfoldable pub base36_chars : ℕ → ℕ → Text
base36_chars zero num = []
base36_chars (suc fuel) num =
    if eqb num 0 then [] else base36_digit (num % 36) ∷ base36_chars fuel (num / 36)

-- The padding with zeros on the left, then the truncation to the last digits.
unfoldable pub pad_left : ℕ → Text → Text
pad_left len str = if ltb (length str) len then replicate (len - length str) b'0' ++ str else str

unfoldable pub keep_last : ℕ → Text → Text
keep_last len str = if ltb len (length str) then drop (length str - len) str else str

-- encodeBase36
unfoldable pub encode_base36 : Text → ℕ → Text
encode_base36 bytes len =
    let num = set_bytes 0 bytes in keep_last len (pad_left len (reverse (base36_chars num num)))

abbrev pub min_hash_length : ℕ
min_hash_length = 3

abbrev pub max_hash_length : ℕ
max_hash_length = 8

unfoldable pub clamp_length : ℕ → ℕ
clamp_length len =
    if ltb len min_hash_length
    then min_hash_length
    else if ltb max_hash_length len
    then max_hash_length
    else len

-- The switch on the length; other lengths leave `numBytes` at 0.
unfoldable pub num_bytes : ℕ → ℕ
num_bytes len =
    if eqb len 3
    then 2
    else if eqb len 4
    then 3
    else if eqb len 5 || eqb len 6
    then 4
    else if eqb len 7 || eqb len 8
    then 5
    else 0

-- The title, description, creator and nanoseconds that an identifier is computed from.
pub record HashInput : Type 0 where
  pub title : Text
  pub description : Text
  pub creator : Text
  pub unix_nano : Text

-- `sha256` is sha256.Sum256, and `show` the format %d. The time comes already formatted.
module _ (sha256 : Text → Text) (show : ℕ → Text) where
  -- GenerateHashID
  unfoldable pub generate_hash_id : Text → HashInput → ℕ → ℕ → Text
  generate_hash_id prefix i len nonce =
      let content =
        i.title
        ++ codes "|"
        ++ i.description
        ++ codes "|"
        ++ i.creator
        ++ codes "|"
        ++ i.unix_nano
        ++ codes "|"
        ++ show nonce in
      let hash = sha256 content in
      prefix ++ (b'-' ∷ encode_base36 (take (num_bytes (clamp_length len)) hash) (clamp_length len))

  -- The inner loop of GenerateIssueIDInTable: `tries` more nonces from `nonce`.
  unfoldable pub try_nonces : List Text → Text → HashInput → ℕ → ℕ → ℕ → Option Text
  try_nonces ids prefix i len zero nonce = none
  try_nonces ids prefix i len (suc tries) nonce =
      let candidate = generate_hash_id prefix i len nonce in
      let rest = try_nonces ids prefix i len tries (suc nonce) in
      if contains ids candidate then rest else some candidate

  -- The outer loop: `lengths` more lengths from `len`.
  unfoldable pub try_lengths : List Text → Text → HashInput → ℕ → ℕ → Option Text
  try_lengths ids prefix i zero len = none
  try_lengths ids prefix i (suc lengths) len =
      let rest = try_lengths ids prefix i lengths (suc len) in
      elim (try_nonces ids prefix i len 10 0) [ some id ↦ some id | none ↦ rest ]

  -- GenerateIssueIDInTable where counter mode does not apply, on the ids of the table and the base
  -- length that was read; `none` is the error that no candidate was free.
  unfoldable pub generate_issue_id : List Text → Text → HashInput → ℕ → Option Text
  generate_issue_id ids prefix i base_length =
      let base = if ltb 8 base_length then 8 else base_length in
      try_lengths ids prefix i (9 - base) base
