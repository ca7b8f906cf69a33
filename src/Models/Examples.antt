-- ===== src/Models/Examples.antt =====
-- Runs of the peak hours and of the validation of groups, and their theorems at concrete rows.
use llm_supervisor_proxy.Models.{GroupMember, ModelConfig}
use llm_supervisor_proxy.Models.PeakHours.{
  codes, is_within_window, local_minutes, magnitude, model_in_window, offset_of, parse_codes,
  parse_time, parse_utc_offset, resolve_peak_hour_model, time_to_minutes, trim_left, trim_right,
  validate_time_format, validate_utc_offset,
}
use llm_supervisor_proxy.Models.Clock.{format_time, parse_time-format_time}
use llm_supervisor_proxy.Models.Window.{NoPeakHours, PeakHours}
use llm_supervisor_proxy.Support.{◌⊎◌}
use llm_supervisor_proxy.Models.Window.{resolve_peak_hour_model_lem}
use llm_supervisor_proxy.Models.Groups.{
  duplicate_member, has_fallback, no_default, missing_shadow, shadow_claimed, check_claims,
  check_member, check_members, check_shadow, count_defaults, find_row, has_seen,
  validate_group_members, validate_group_rules, validate_row,
}
use llm_supervisor_proxy.Models.Membership.{IsGroup, validate_group_members_lem}
use llm_supervisor_proxy.Support.Int.{pos, negsuc}
use llm_supervisor_proxy.Support.{
  ◌≡◌, ◌↔◌, refl, Bool, true, false, String, List, [], ◌∷◌, none, some, dec_str, arith,
}

program : Unit {0}
unfolding codes is_within_window local_minutes magnitude model_in_window offset_of parse_codes
    parse_time parse_utc_offset resolve_peak_hour_model time_to_minutes trim_left trim_right
    validate_time_format validate_utc_offset format_time check_claims check_member check_members
    check_shadow count_defaults find_row has_seen validate_group_members validate_group_rules
    validate_row dec_str
program = tt

abbrev chat : String → ModelConfig
chat id = record {
  id = id;
  enabled = true;
  fallback_chain = [];
  internal = true;
  credentials = [];
  release_stream_chunk_deadline = pos 0;
  peak_hour_enabled = true;
  peak_hour_start = "22:00";
  peak_hour_end = "06:30";
  peak_hour_timezone = " +5.5 ";
  peak_hour_model = "cheap";
  secondary_upstream_model = "";
  exclude_from_ultimate_switching = true;
  kind = "chat";
  members = [];
  shadow_model_id = "";
}

-- 18:29 in UTC is 23:59 and 1:00 is 6:30 at an offset of five hours and a half.
peak_hours_run :
    (parse_utc_offset "-3.75" ≡ some (negsuc 374))
    × (parse_utc_offset "+14.01" ≡ none)
    × (parse_time "24:00" ≡ none)
    × (validate_time_format "" ≡ true)
    × (resolve_peak_hour_model (chat "m") 18 29 ≡ "cheap")
    × (resolve_peak_hour_model (chat "m") 1 0 ≡ "")
unfolding program
peak_hours_run = (refl, refl, refl, refl, refl, refl)

parse_time-format_time_example : parse_time (format_time 7 5) ≡ some (7, 5)
parse_time-format_time_example = parse_time-format_time 7 5 (omega arith) (omega arith)

resolve_peak_hour_model_lem_example :
    (NoPeakHours (chat "m") × (resolve_peak_hour_model (chat "m") 18 29 ≡ ""))
    ⊎ PeakHours (chat "m") 18 29
resolve_peak_hour_model_lem_example = resolve_peak_hour_model_lem (chat "m") 18 29

abbrev member : String → Bool → GroupMember
member id backup = record { model_id = id; weight_positive = true; backup_only = backup }

abbrev group : String → List GroupMember → String → ModelConfig
group id members shadow = record (chat id) {
  kind = "group";
  members = members;
  shadow_model_id = shadow;
}

abbrev rows : List ModelConfig
rows = chat "a" ∷ chat "b" ∷ group "h" (member "a" false ∷ []) "b" ∷ []

abbrev pair : List GroupMember
pair = member "a" false ∷ member "b" true ∷ []

groups_run :
    (validate_group_members (some (group "g" pair "a")) rows ≡ none)
    × (validate_group_members (some (group "g" pair "b")) rows ≡ some (shadow_claimed "h"))
    × (validate_group_members (some (group "g" pair "z")) rows ≡ some missing_shadow)
    × (validate_group_members (some (group "g" (member "a" false ∷ member "a" true ∷ []) "")) rows
        ≡ some (duplicate_member 1))
    × (validate_group_members (some (group "g" (member "b" true ∷ []) "")) rows ≡ some no_default)
    × (validate_group_rules (record (group "g" pair "") { fallback_chain = "a" ∷ [] })
        ≡ some has_fallback)
unfolding program
groups_run = (refl, refl, refl, refl, refl, refl)

validate_group_members_lem_example :
    (validate_group_members (some (group "g" pair "a")) rows ≡ none)
    ↔ IsGroup (group "g" pair "a") rows
validate_group_members_lem_example = validate_group_members_lem (group "g" pair "a") rows
