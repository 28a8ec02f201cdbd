-- ===== src/Types/CustomStatus.antt =====
-- internal/types/types.go: the configuration of the custom statuses.
pub mod Parsed
use bd.Prelude.{
  ℕ, suc, ◌+◌, Bool, true, false, ◌&&◌, ◌||◌, not, Option, none, some, List, [], ◌∷◌, ◌++◌, map,
  all, select, take, drop, length, ltb, eqb, if◌then◌else◌,
}
use bd.Prelude.Text.{
  Text, codes, ◌==◌, contains, is_digit, is_lower, to_lower, trim_space, split, index_byte,
}
use bd.Types.Status.{
  Status, StatusCategory, category_active, category_wip, category_done, category_frozen,
  category_unspecified, status_open, status_in_progress, status_blocked, status_deferred,
  status_closed, status_pinned, status_hooked,
}
use bd.Types.Status

-- CustomStatus
pub record CustomStatus : Type 0 where
  pub name : Text
  pub category : StatusCategory

pub data ParseError : Type 0 where
  empty_category invalid_category invalid_name built_in_name duplicate_name too_many : ParseError

pub data Result (A : Type 0) : Type 0 where
  ok : A → Result A
  err : ParseError → Result A

-- validCategories
unfoldable pub valid_category : StatusCategory → Bool
valid_category c =
    c == category_active || c == category_wip || c == category_done || c == category_frozen

abbrev pub is_name_char : ℕ → Bool
is_name_char c = is_lower c || is_digit c || eqb c b'_' || eqb c b'-'

-- statusNameRegexp, `^[a-z][a-z0-9_-]*$`
unfoldable pub is_status_name : Text → Bool
is_status_name [] = false
is_status_name (c ∷ s) = is_lower c && all is_name_char s

-- builtInStatusNames
unfoldable pub built_in_status_names : Text → Bool
built_in_status_names s =
    s == status_open
    || s == status_in_progress
    || s == status_blocked
    || s == status_deferred
    || s == status_closed
    || s == status_pinned
    || s == status_hooked

abbrev pub max_custom_statuses : ℕ
max_custom_statuses = 50

-- The name and the category of a part, split at the first colon.
unfoldable pub split_part : Text → Result CustomStatus
split_part part = elim (index_byte b':' part) [
  | none ↦ ok record { name = part; category = category_unspecified }
  | some idx ↦
      let cat = drop (idx + 1) part in
      if cat == []
      then err empty_category
      else if not (valid_category cat)
      then err invalid_category
      else ok record { name = take idx part; category = cat }
]

-- The tests on a status that was split off, given the names seen so far.
unfoldable pub check_status : List Text → CustomStatus → Option ParseError
check_status seen s =
    if not (is_status_name s.name)
    then some invalid_name
    else if built_in_status_names (to_lower s.name)
    then some built_in_name
    else if contains seen s.name
    then some duplicate_name
    else none

-- One round of the loop, on a part that is not blank.
unfoldable pub parse_part : List Text → Text → Result CustomStatus
parse_part seen part = elim (split_part part) [
  | err e ↦ err e
  | ok s ↦ elim (check_status seen s) [ some e ↦ err e | none ↦ ok s ]
]

-- The loop over the parts, with the names seen and the statuses collected so far.
unfoldable pub parse_parts : List Text → List CustomStatus → List Text → Result (List CustomStatus)
parse_parts seen result [] = ok result
parse_parts seen result (part ∷ parts) =
    if trim_space part == []
    then parse_parts seen result parts
    else elim (parse_part seen (trim_space part)) [
      | err e ↦ err e
      | ok s ↦ parse_parts (s.name ∷ seen) (result ++ (s ∷ [])) parts
    ]

-- ParseCustomStatusConfig
unfoldable pub parse_custom_status_config : Text → Result (List CustomStatus)
parse_custom_status_config value =
    if trim_space value == []
    then ok []
    else elim (parse_parts [] [] (split b',' (trim_space value))) [
      | err e ↦ err e
      | ok result ↦ if ltb max_custom_statuses (length result) then err too_many else ok result
    ]

-- CustomStatusNames
unfoldable pub custom_status_names : List CustomStatus → List Text
custom_status_names statuses = map (λ s. s.name) statuses

-- CustomStatusesByCategory
unfoldable pub custom_statuses_by_category : List CustomStatus → StatusCategory → List CustomStatus
custom_statuses_by_category statuses category = select (λ s. s.category == category) statuses

-- Status.IsValidWithCustomStatuses
unfoldable pub is_valid_with_custom_statuses : Status → List CustomStatus → Bool
is_valid_with_custom_statuses s statuses =
    if Status.is_valid s then true else contains (map (λ c. c.name) statuses) s
