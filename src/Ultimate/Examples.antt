-- ===== src/Ultimate/Examples.antt =====
-- Runs of the schedule of the ultimate model, and the theorems at concrete requests.
use llm_supervisor_proxy.Support.Int.{pos}
use llm_supervisor_proxy.Support.Assoc.{lookup, insert, delete}
use llm_supervisor_proxy.Support.{◌≡◌, refl, String, List, [], ◌∷◌, none, some, dec_str, arith}
use llm_supervisor_proxy.HashCache.{
  new_hash_cache, contains_loop, contains, evict, insert_locked, record_attempt, store_if_absent,
  reset,
}
use llm_supervisor_proxy.HashCache.Queue.{new_hash_cache-IsRing}
use llm_supervisor_proxy.HashCache.Attempts.{run, mentions, others}
use llm_supervisor_proxy.Ultimate.{
  Message, text, parts, part_map, no_map, other_content, write_part, write_parts, write_content,
  write_messages, hash_messages, milestone_loop, is_trigger_attempt, counted_result, Handler,
  should_trigger_internal, should_trigger, on_config_change,
}
use llm_supervisor_proxy.Ultimate.Schedule.{on_schedule, scheduled, serve, hashes, trigger_schedule}

program : Unit {0}
unfolding dec_str lookup insert delete new_hash_cache contains_loop contains evict insert_locked
    record_attempt store_if_absent reset run mentions others write_part write_parts write_content
    write_messages hash_messages milestone_loop is_trigger_attempt counted_result
    should_trigger_internal on_config_change on_schedule serve hashes
program = tt

-- A digest that keeps its input.
abbrev digest : String → String
digest s = s

abbrev handler : Handler
handler = record { model_id = "m"; hash_cache = new_hash_cache (pos 2) }

abbrev question : List Message
question = record { role = some "user"; content = text "why" } ∷ []

abbrev picture : List Message
picture =
    record {
      role = some "user";
      content = parts (
          part_map (some "text") (some "look") none
          ∷ no_map
          ∷ part_map (some "image_url") none (some "u")
          ∷ []);
    }
    ∷ record { role = none; content = other_content }
    ∷ []

hash_runs : hash_messages digest picture ≡ "user|text:lookimage_url:u\n|\n"
unfolding program
hash_runs = refl

-- Changing the model's id forgets the attempts, any other field does not.
reset_runs :
    (on_config_change (should_trigger digest handler question).1 (some "ultimate_model.model_id")
      ≡ handler)
    × (on_config_change handler (some "ultimate_model.max_hash") ≡ handler)
unfolding program
reset_runs = (refl, refl)

trigger_schedule_example :
    ((should_trigger digest handler question).0 ≡ scheduled "user|why\n" 1)
    × ((should_trigger digest
          (serve digest
            (should_trigger digest handler question).1
            (question ∷ picture ∷ [] ∷ question ∷ question ∷ []))
          question).0
        ≡ scheduled "user|why\n" 5)
unfolding program
trigger_schedule_example =
    trigger_schedule digest handler question (question ∷ picture ∷ [] ∷ question ∷ question ∷ [])
      refl refl (new_hash_cache-IsRing (pos 2)) refl (omega arith)
