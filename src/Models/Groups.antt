-- ===== src/Models/Groups.antt =====
-- pkg/models/group.go: the rules for a row of the kind group, alone and among the other rows. An error
-- is the rule that is broken.
use llm_supervisor_proxy.Models.{GroupMember, ModelConfig}
use llm_supervisor_proxy.Support.Int.{pos, eq_ℤ}
use llm_supervisor_proxy.Support.{
  ℕ, suc, Bool, true, false, not, ◌&&◌, ◌||◌, String, List, [], ◌∷◌, Option, none, some, ltb, ◌==◌,
  length, str_eq, if◌then◌else◌,
}

pub data GroupError : Type 0 where
  not_internal has_fallback has_secondary has_peak_hours has_chunk_deadline ultimate_not_excluded
        shadows_itself :
      GroupError
  no_members too_many_members no_default : GroupError
  empty_member weight_not_positive duplicate_member missing_member member_is_group member_not_chat :
      ℕ → GroupError
  missing_shadow shadow_is_group shadow_not_chat : GroupError
  shadow_claimed : String → GroupError

abbrev pub max_group_members : ℕ
max_group_members = 16

abbrev pub kind_group : String
kind_group = "group"

abbrev kind_chat : String
kind_chat = "chat"

abbrev is_empty_chain : List String → Bool
is_empty_chain [] = true
is_empty_chain (m ∷ chain) = false

unfoldable pub validate_group_rules : ModelConfig → Option GroupError
validate_group_rules m =
    if not m.internal
    then some not_internal
    else if not (is_empty_chain m.fallback_chain)
    then some has_fallback
    else if not (str_eq m.secondary_upstream_model "")
    then some has_secondary
    else if m.peak_hour_enabled
    then some has_peak_hours
    else if not (eq_ℤ m.release_stream_chunk_deadline (pos 0))
    then some has_chunk_deadline
    else if not m.exclude_from_ultimate_switching
    then some ultimate_not_excluded
    else (if str_eq m.shadow_model_id m.id && not (str_eq m.shadow_model_id "")
        then some shadows_itself
        else none)

unfoldable pub count_defaults : List GroupMember → ℕ
count_defaults [] = 0
count_defaults (mm ∷ members) =
    if mm.backup_only then count_defaults members else suc (count_defaults members)

abbrev pub or_row : Option ModelConfig → ModelConfig → Option ModelConfig
or_row none row = some row
or_row (some later) row = some later

-- `byID`: a later row of the same ID replaces an earlier one.
unfoldable pub find_row : String → List ModelConfig → Option ModelConfig
find_row id [] = none
find_row id (row ∷ collection) =
    let later = find_row id collection in if str_eq row.id id then or_row later row else later

pub data Target : Type 0 where
  missing a_group other_kind a_chat : Target

abbrev pub target_of : Option ModelConfig → Target
target_of none = missing
target_of (some row) =
    if str_eq row.kind kind_group
    then a_group
    else (if not (str_eq row.kind "") && not (str_eq row.kind kind_chat)
        then other_kind
        else a_chat)

abbrev pub member_target : ℕ → Target → Option GroupError
member_target idx missing = some (missing_member idx)
member_target idx a_group = some (member_is_group idx)
member_target idx other_kind = some (member_not_chat idx)
member_target idx a_chat = none

unfoldable pub has_seen : String → List String → Bool
has_seen id [] = false
has_seen id (s ∷ seen) = str_eq s id || has_seen id seen

-- One turn of the loop over the members.
unfoldable pub check_member : ℕ → GroupMember → List String → List ModelConfig → Option GroupError
check_member idx mm seen collection =
    if str_eq mm.model_id ""
    then some (empty_member idx)
    else if not mm.weight_positive
    then some (weight_not_positive idx)
    else (if has_seen mm.model_id seen
        then some (duplicate_member idx)
        else member_target idx (target_of (find_row mm.model_id collection)))

abbrev pub or_else : Option GroupError → Option GroupError → Option GroupError
or_else none next = next
or_else (some err) next = some err

unfoldable pub check_members :
    ℕ → List GroupMember → List String → List ModelConfig → Option GroupError
check_members idx [] seen collection = none
check_members idx (mm ∷ members) seen collection =
    or_else (check_member idx mm seen collection)
      (check_members (suc idx) members (mm.model_id ∷ seen) collection)

-- The loop for another enabled group with the same shadow.
unfoldable pub check_claims : ModelConfig → List ModelConfig → Option GroupError
check_claims m [] = none
check_claims m (other ∷ collection) =
    let rest = check_claims m collection in
    if str_eq other.id m.id || not (str_eq other.kind kind_group)
    then rest
    else (if other.enabled && str_eq other.shadow_model_id m.shadow_model_id
        then some (shadow_claimed other.id)
        else rest)

abbrev pub shadow_target : ModelConfig → List ModelConfig → Target → Option GroupError
shadow_target m collection missing = some missing_shadow
shadow_target m collection a_group = some shadow_is_group
shadow_target m collection other_kind = some shadow_not_chat
shadow_target m collection a_chat = check_claims m collection

unfoldable pub check_shadow : ModelConfig → List ModelConfig → Option GroupError
check_shadow m collection =
    if str_eq m.shadow_model_id ""
    then none
    else shadow_target m collection (target_of (find_row m.shadow_model_id collection))

unfoldable pub validate_row : ModelConfig → List ModelConfig → Option GroupError
validate_row m collection =
    if length m.members == 0
    then some no_members
    else if ltb max_group_members (length m.members)
    then some too_many_members
    else (if ltb (count_defaults m.members) 1
        then some no_default
        else or_else (check_members 0 m.members [] collection) (check_shadow m collection))

unfoldable pub validate_group_members : Option ModelConfig → List ModelConfig → Option GroupError
validate_group_members none collection = none
validate_group_members (some m) collection = validate_row m collection
