-- ===== src/Tests/Ids.antt =====
-- Identifiers from a fixed hash.
use bd.Prelude.{
  ℕ, ◌+◌, ◌≡◌, ◌≤◌, ◌<◌, refl, inr, true, false, List, [], ◌∷◌, length, all, map, arith,
}
use bd.Prelude.Text.{Text, codes, ◌==◌, contains}
use bd.Prelude.Int.{pos}
use bd.Prelude.Text.{index_byte}
use bd.Ids.Hierarchy.{
  parse_hierarchical_id, generate_child_id, count_dots, before_first_dot, check_hierarchy_depth,
  parse_hierarchical_id-generate_child_id,
}
use bd.Ids.Hash.{
  HashInput, generate_hash_id, generate_issue_id, try_lengths, try_nonces, encode_base36,
  clamp_length, num_bytes, set_bytes, base36_chars, base36_digit, pad_left, keep_last,
}
use bd.Ids.Encoding.{encode_base36-last_digits, encode_base36-shape, last_digits, is_base36}
use bd.Ids.Free.{generate_issue_id_free}
use bd.Ids.Prefix.{extract_issue_prefix, extract_issue_prefix-generate_hash_id}

abbrev eleven : ℕ → Text
eleven n = codes "11"

parse_hierarchical_id-generate_child_id_example :
    ((parse_hierarchical_id (generate_child_id eleven (codes "bd-a3.1") 11)).parent_id
      ≡ codes "bd-a3.1")
    × ((parse_hierarchical_id (generate_child_id eleven (codes "bd-a3.1") 11)).root_id
        ≡ codes "bd-a3")
    × ((parse_hierarchical_id (generate_child_id eleven (codes "bd-a3.1") 11)).depth ≡ 2)
    × ((parse_hierarchical_id (generate_child_id eleven (codes "bd-a3.1") 11)).depth ≤ 3)
unfolding parse_hierarchical_id count_dots before_first_dot index_byte check_hierarchy_depth
parse_hierarchical_id-generate_child_id_example =
    parse_hierarchical_id-generate_child_id eleven (codes "bd-a3.1") 11 (pos 0) (λ k. refl) refl

program : Unit {0}
unfolding ◌==◌ generate_hash_id generate_issue_id try_lengths try_nonces encode_base36 clamp_length
    num_bytes set_bytes base36_chars base36_digit pad_left keep_last last_digits
program = tt

-- The alphabet is that of the program.
base36_digits : map base36_digit (0 ∷ 1 ∷ 9 ∷ 10 ∷ 11 ∷ 35 ∷ []) ≡ codes "019abz"
unfolding base36_digit
base36_digits = refl

abbrev sha256 : Text → Text
sha256 s = 0 ∷ 35 ∷ 0 ∷ 0 ∷ 0 ∷ []

abbrev show : ℕ → Text
show n = (48 + n) ∷ []

abbrev input : HashInput
input = record { title = codes "A"; description = []; creator = []; unix_nano = codes "1" }

encode_base36-last_digits_example : encode_base36 (1 ∷ 1 ∷ []) 3 ≡ codes "075"
unfolding last_digits set_bytes base36_digit
encode_base36-last_digits_example = encode_base36-last_digits (1 ∷ 1 ∷ []) 3

encode_base36-shape_example :
    (length (encode_base36 (1 ∷ 1 ∷ []) 3) ≡ 3)
    × (all is_base36 (encode_base36 (1 ∷ 1 ∷ []) 3) ≡ true)
encode_base36-shape_example = encode_base36-shape (1 ∷ 1 ∷ []) 3

abbrev new_id : Text
new_id = codes "bd-00z"

generate_issue_id_free_example :
    (contains [] new_id ≡ false)
    × (l : ℕ) × (n : ℕ) × (3 ≤ l)
    × (l ≤ 8)
    × (n < 10)
    × (new_id ≡ generate_hash_id sha256 show (codes "bd") input l n)
unfolding program
generate_issue_id_free_example =
    generate_issue_id_free sha256 show [] (codes "bd") input 3 new_id (omega arith) refl

-- With a hash that is always the same, each length has one candidate.
abbrev taken : List Text
taken = codes "bd-00000000" ∷ []

abbrev zeros : Text → Text
zeros s = []

extract_issue_prefix-generate_hash_id_example :
    extract_issue_prefix (generate_hash_id sha256 show (codes "web-app") input 3 0)
    ≡ codes "web-app"
extract_issue_prefix-generate_hash_id_example =
    extract_issue_prefix-generate_hash_id sha256 show (codes "web-app") input 3 0 (omega arith)
      (inr (omega arith))
