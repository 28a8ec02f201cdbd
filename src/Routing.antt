-- ===== src/Routing.antt =====
-- internal/routing/routing.go: the role of the user and the repository that receives a new issue.
-- Git runs through gitCommandRunner, which is a parameter.
use bd.Prelude.{
  Bool, true, false, ◌&&◌, ◌||◌, not, Option, none, some, List, [], ◌∷◌, eqb, if◌then◌else◌,
}
use bd.Prelude.Text.{Text, codes, ◌==◌, has_prefix, has_infix, trim_space}

-- UserRole
pub data UserRole : Type 0 where
  maintainer contributor : UserRole

-- RoutingConfig
pub record RoutingConfig : Type 0 where
  pub mode : Text
  pub default_repo : Text
  pub maintainer_repo : Text
  pub contributor_repo : Text
  pub explicit_override : Text

-- strings.TrimSuffix
unfoldable pub trim_suffix : Text → Text → Text
trim_suffix p [] = []
trim_suffix p (c ∷ s) = let rest = trim_suffix p s in if c ∷ s == p then [] else c ∷ rest

-- strings.Trim(s, "/")
unfoldable pub trim_left_slashes : Text → Text
trim_left_slashes [] = []
trim_left_slashes (c ∷ s) = if eqb c b'/' then trim_left_slashes s else c ∷ s

unfoldable pub trim_right_slashes : Text → Text
trim_right_slashes [] = []
trim_right_slashes (c ∷ s) =
    let rest = trim_right_slashes s in
    elim rest [ [] ↦ if eqb c b'/' then [] else c ∷ [] | d ∷ t ↦ c ∷ d ∷ t ]

-- normalizeRemotePath; the second result false is `none`.
unfoldable pub normalize_remote_path : Text → Option Text
normalize_remote_path path =
    let path =
      trim_suffix (codes ".git") (trim_space (trim_right_slashes (trim_left_slashes path))) in
    if path == [] then none else some path

-- What follows the first colon.
unfoldable pub after_colon : Text → Text
after_colon [] = []
after_colon (c ∷ s) = let rest = after_colon s in if eqb c b':' then s else rest

-- `url_path` is url.Parse followed by the field Path; `none` is an error.
module _ (url_path : Text → Option Text) where
  -- remoteRepositorySlug
  unfoldable pub remote_repository_slug : Text → Option Text
  remote_repository_slug remote =
      let remote = trim_space (trim_suffix (codes "/") remote) in
      if remote == []
      then none
      else if has_infix remote (codes "@")
          && has_infix remote (codes ":")
          && not (has_infix remote (codes "://"))
      then normalize_remote_path (after_colon remote)
      else elim (url_path remote) [ none ↦ none | some path ↦ normalize_remote_path path ]

  -- sameRemoteRepository
  unfoldable pub same_remote_repository : Text → Text → Bool
  same_remote_repository a b = elim (remote_repository_slug a) [
    | none ↦ trim_space a == trim_space b
    | some slug ↦ elim (remote_repository_slug b) [
      | none ↦ trim_space a == trim_space b
      | some other ↦ slug == other
    ]
  ]

  -- `git` is gitCommandRunner in the repository: the output of a command, or `none` for an error.
  module _ (git : List Text → Option Text) where
    -- getOriginURL
    unfoldable pub get_origin_url : Option Text
    get_origin_url =
        elim (git (codes "remote" ∷ codes "get-url" ∷ codes "--push" ∷ codes "origin" ∷ [])) [
          | some output ↦ some (trim_space output)
          | none ↦ elim (git (codes "remote" ∷ codes "get-url" ∷ codes "origin" ∷ [])) [
            | some output ↦ some (trim_space output)
            | none ↦ none
          ]
        ]

    -- The fork heuristic: an upstream that is another repository.
    unfoldable pub is_fork : Text → Bool
    is_fork origin = elim (git (codes "remote" ∷ codes "get-url" ∷ codes "upstream" ∷ [])) [
      | none ↦ false
      | some output ↦
          not (trim_space output == []) && not (same_remote_repository origin (trim_space output))
    ]

    -- detectFromURL
    unfoldable pub detect_from_url : UserRole
    detect_from_url = elim get_origin_url [
      | none ↦ maintainer
      | some origin ↦
          if is_fork origin
          then contributor
          else if has_prefix origin (codes "git@")
              || has_prefix origin (codes "ssh://")
              || has_infix origin (codes "@")
          then maintainer
          else contributor
    ]

    -- DetectUserRole
    unfoldable pub detect_user_role : UserRole × Bool
    detect_user_role = elim (git (codes "config" ∷ codes "--get" ∷ codes "bd.role" ∷ [])) [
      | none ↦ (detect_from_url, false)
      | some output ↦
          if trim_space output == codes "maintainer"
          then (maintainer, true)
          else if trim_space output == codes "contributor"
          then (contributor, true)
          else (detect_from_url, false)
    ]

-- The repository for the role in the mode auto; "" where there is none.
abbrev pub repo_for : RoutingConfig → UserRole → Text
repo_for config maintainer = config.maintainer_repo
repo_for config contributor = config.contributor_repo

-- DetermineTargetRepo
unfoldable pub determine_target_repo : RoutingConfig → UserRole → Text
determine_target_repo config role =
    if not (config.explicit_override == [])
    then config.explicit_override
    else if config.mode == codes "auto" && not (repo_for config role == [])
    then repo_for config role
    else if not (config.default_repo == [])
    then config.default_repo
    else codes "."
