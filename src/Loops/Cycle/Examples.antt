-- ===== src/Loops/Cycle/Examples.antt =====
-- Runs of the cycle strategy, and its theorems at concrete windows.
use llm_supervisor_proxy.Support.Int.{pos}
use llm_supervisor_proxy.Support.{◌≡◌, refl, String, List, [], ◌∷◌, some, none, dec_str, arith}
use llm_supervisor_proxy.Loops.Cycle.{
  DetectionResult, Action, MessageContext, warning, CycleStrategy, new_cycle_strategy, action_key,
  slice_equal, same_loop, all_same, count_loop, detected, at_start, slide_loop,
  find_repeating_pattern, length_loop, keys_of, all_actions, analyze,
}
use llm_supervisor_proxy.Loops.Cycle.Occurrences.{repeated}
use llm_supervisor_proxy.Loops.Cycle.Soundness.{
  IsCycle, window_keys, Promised, window_keys, analyze-Promised,
}
use llm_supervisor_proxy.Loops.Cycle.Completeness.{analyze-found}

program : Unit {0}
unfolding dec_str new_cycle_strategy action_key slice_equal same_loop all_same count_loop detected
    at_start slide_loop find_repeating_pattern length_loop keys_of all_actions analyze repeated
program = tt

abbrev does : String → Action
does t = record { type_name = t; target = "f" }

abbrev default_strategy : CycleStrategy
default_strategy = new_cycle_strategy (pos 0) (pos 0)

-- Read and write by turns, then something else.
abbrev turns : List MessageContext
turns =
    record { actions = does "grep" ∷ does "read" ∷ does "write" ∷ [] }
    ∷ record { actions = does "read" ∷ does "write" ∷ does "execute" ∷ [] }
    ∷ []

turns_run :
    analyze default_strategy turns
    ≡ some (record {
      severity = warning;
      confidence = 75;
      pattern = "read:f" ∷ "write:f" ∷ [];
      repeat_count = 2;
    })
unfolding program
turns_run = refl

-- One action only is left to another strategy.
same_run :
    analyze default_strategy
      (record { actions = does "a" ∷ does "a" ∷ does "a" ∷ does "a" ∷ [] } ∷ [])
    ≡ none
unfolding program
same_run = refl

analyze-Promised_example :
    Promised default_strategy (window_keys turns) (analyze default_strategy turns)
analyze-Promised_example = analyze-Promised default_strategy turns

analyze-found_example :
    (d : DetectionResult) × (analyze default_strategy turns ≡ some d)
    × IsCycle default_strategy (window_keys turns) d
unfolding program
analyze-found_example =
    analyze-found default_strategy turns ("read:f" ∷ "write:f" ∷ []) ("grep:f" ∷ [])
      ("execute:f" ∷ []) (omega arith) (omega arith) refl (omega arith) (omega arith) refl
