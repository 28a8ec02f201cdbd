-- ===== src/Tests/Routing.antt =====
-- A fork with an upstream, and identifiers as the user writes them.
use bd.Prelude.{true, false, if◌then◌else◌, ◌≡◌, refl, Option, none, some, List, [], any}
use bd.Prelude.Int.{pos}
use bd.Prelude.Text.{
  Text, codes, ◌==◌, has_prefix, has_infix, trim_left, trim_right, trim_space, split, lower,
  to_lower,
}
use bd.Routing.{
  maintainer, contributor, RoutingConfig, trim_suffix, trim_left_slashes, trim_right_slashes,
  normalize_remote_path, after_colon, remote_repository_slug, same_remote_repository,
  get_origin_url, is_fork, detect_from_url, detect_user_role, determine_target_repo,
}
use bd.Validation.Bead.{parse_priority, validate_prefix_with_allowed, validate_id_prefix_allowed}

program : Unit {0}
unfolding ◌==◌ has_prefix has_infix trim_left trim_right trim_space split lower to_lower trim_suffix
    trim_left_slashes trim_right_slashes normalize_remote_path after_colon remote_repository_slug
    same_remote_repository get_origin_url is_fork detect_from_url detect_user_role
    determine_target_repo parse_priority validate_prefix_with_allowed validate_id_prefix_allowed
program = tt

abbrev no_path : Text → Option Text
no_path url = none

abbrev git : Text → Text → List Text → Option Text
git origin upstream args =
    if any (λ a. a == codes "upstream") args
    then some upstream
    else if any (λ a. a == codes "origin") args
    then some origin
    else none

fork :
    detect_user_role no_path (git (codes "git@h:me/bd.git") (codes "git@h:you/bd"))
    ≡ (contributor, false)
unfolding program
fork = refl

own :
    detect_user_role no_path (git (codes "git@h:me/bd.git\n") (codes "ssh@h:me/bd/"))
    ≡ (maintainer, false)
unfolding program
own = refl

abbrev config : RoutingConfig
config = record {
  mode = codes "auto";
  default_repo = codes "here";
  maintainer_repo = [];
  contributor_repo = codes "plans";
  explicit_override = [];
}

for_contributor : determine_target_repo config contributor ≡ codes "plans"
unfolding program
for_contributor = refl

for_maintainer : determine_target_repo config maintainer ≡ codes "here"
unfolding program
for_maintainer = refl

too_low : parse_priority (λ s. some (pos 5)) (codes "P5") ≡ none
unfolding program
too_low = refl

allowed_entry :
    validate_id_prefix_allowed (codes "hq-cv-test") (codes "bd") (codes "x, hq-cv-") false ≡ true
unfolding program
allowed_entry = refl

other_prefix : validate_prefix_with_allowed (codes "hq") (codes "bd") (codes "hq-cv") false ≡ true
unfolding program
other_prefix = refl
