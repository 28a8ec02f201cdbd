-- ===== src/Validation/Bead.antt =====
-- internal/validation/bead.go: priorities, types and identifiers as the user writes them. An error is
-- `none`, or `false` where only success counts.
use bd.Prelude.{
  ℕ, Bool, ◌&&◌, ◌||◌, not, Option, none, some, [], ◌++◌, any, drop, leb, if◌then◌else◌,
}
use bd.Prelude.Int.{ℤ, pos, negsuc}
use bd.Prelude.Text.{Text, codes, ◌==◌, has_prefix, has_infix, trim_space, split}
use bd.Types.IssueType.{IssueType, normalize, is_valid}
use bd.Ids.Prefix.{extract_issue_prefix}
use bd.Routing.{trim_suffix}

-- strings.HasPrefix(strings.ToUpper(content), "P")
abbrev pub has_p : Text → Bool
has_p content = has_prefix content (codes "P") || has_prefix content (codes "p")

-- `scan_int` is fmt.Sscanf with the format %d; `none` is an error.
module _ (scan_int : Text → Option ℤ) where
  -- ParsePriority, `none` for -1.
  unfoldable pub parse_priority : Text → Option ℕ
  parse_priority content =
      let content = trim_space content in
      elim (scan_int (if has_p content then drop 1 content else content)) [
        | some (pos p) ↦ if leb p 4 then some p else none
        | some (negsuc p) ↦ none
        | none ↦ none
      ]

-- ParseIssueType
unfoldable pub parse_issue_type : Text → Option IssueType
parse_issue_type content =
    let issue_type = normalize (trim_space content) in
    if is_valid issue_type then some issue_type else none

-- ValidateIDFormat
unfoldable pub validate_id_format : Text → Option Text
validate_id_format id =
    if id == []
    then some []
    else if has_infix id (codes "-")
    then some (extract_issue_prefix id)
    else none

-- An entry of the allowed prefixes.
abbrev pub allows : Text → Text → Bool
allows requested entry =
    let allowed = trim_space entry in
    allowed == requested || has_prefix allowed (requested ++ codes "-")

-- validatePrefixWithAllowed
unfoldable pub validate_prefix_with_allowed : Text → Text → Text → Bool → Bool
validate_prefix_with_allowed requested db_prefix allowed_prefixes force =
    (force || (db_prefix == [] || db_prefix == requested))
    || (not (allowed_prefixes == []) && any (allows requested) (split b',' allowed_prefixes))

-- validatePrefix
unfoldable pub validate_prefix : Text → Text → Bool → Bool
unfolding validate_prefix_with_allowed
validate_prefix requested db_prefix force =
    validate_prefix_with_allowed requested db_prefix [] force

-- An identifier starts with the entry and a hyphen.
abbrev pub starts_with : Text → Text → Bool
starts_with id entry =
    let allowed = trim_suffix (codes "-") (trim_space entry) in
    not (allowed == []) && has_prefix id (allowed ++ codes "-")

-- ValidateIDPrefixAllowed
unfoldable pub validate_id_prefix_allowed : Text → Text → Text → Bool → Bool
validate_id_prefix_allowed id db_prefix allowed_prefixes force =
    (force || (db_prefix == [] || has_prefix id (db_prefix ++ codes "-")))
    || (not (allowed_prefixes == []) && any (starts_with id) (split b',' allowed_prefixes))
