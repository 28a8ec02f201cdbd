-- ===== src/Types/IssueType.antt =====
-- internal/types/types.go: issue types.
use bd.Prelude.{Bool, true, ◌||◌, List, if◌then◌else◌}
use bd.Prelude.Text.{Text, codes, ◌==◌, contains, to_lower}

abbrev pub IssueType : Type 0
IssueType = Text

abbrev pub type_bug : IssueType
type_bug = codes "bug"

abbrev pub type_feature : IssueType
type_feature = codes "feature"

abbrev pub type_task : IssueType
type_task = codes "task"

abbrev pub type_epic : IssueType
type_epic = codes "epic"

abbrev pub type_chore : IssueType
type_chore = codes "chore"

abbrev pub type_decision : IssueType
type_decision = codes "decision"

abbrev pub type_message : IssueType
type_message = codes "message"

abbrev pub type_molecule : IssueType
type_molecule = codes "molecule"

abbrev pub type_spike : IssueType
type_spike = codes "spike"

abbrev pub type_story : IssueType
type_story = codes "story"

abbrev pub type_milestone : IssueType
type_milestone = codes "milestone"

abbrev pub type_event : IssueType
type_event = codes "event"

-- IssueType.IsValid
unfoldable pub is_valid : IssueType → Bool
is_valid t =
    t == type_bug
    || t == type_feature
    || t == type_task
    || t == type_epic
    || t == type_chore
    || t == type_decision
    || t == type_message
    || t == type_molecule
    || t == type_spike
    || t == type_story
    || t == type_milestone

-- IssueType.IsBuiltIn
unfoldable pub is_built_in : IssueType → Bool
is_built_in t = is_valid t || t == type_event

-- IssueType.IsValidWithCustom
unfoldable pub is_valid_with_custom : IssueType → List Text → Bool
is_valid_with_custom t custom_types = if is_built_in t then true else contains custom_types t

abbrev pub is_feature_alias : Text → Bool
is_feature_alias l = l == codes "enhancement" || l == codes "feat"

abbrev pub is_decision_alias : Text → Bool
is_decision_alias l = l == codes "dec" || l == codes "adr"

abbrev pub is_spike_alias : Text → Bool
is_spike_alias l = l == codes "investigation" || l == codes "timebox"

abbrev pub is_story_alias : Text → Bool
is_story_alias l = l == codes "user-story" || l == codes "user_story"

-- IssueType.Normalize
unfoldable pub normalize : IssueType → IssueType
normalize t =
    let l = to_lower t in
    if is_feature_alias l
    then type_feature
    else if is_decision_alias l
    then type_decision
    else if is_spike_alias l
    then type_spike
    else if is_story_alias l
    then type_story
    else if l == codes "ms"
    then type_milestone
    else t
