-- ===== src/Loops/Exact/Examples.antt =====
-- Runs of the exact strategy, and its theorems at a concrete window.
use llm_supervisor_proxy.Support.Int.{pos}
use llm_supervisor_proxy.Support.{
  ℕ, ◌≤◌, ◌≡◌, refl, String, List, [], ◌∷◌, some, none, dec_str, arith,
}
use llm_supervisor_proxy.Loops.Exact.{
  TextMessage, new_exact_match_strategy, eligible, assistant_messages, same_message, streak_loop,
  scan, analyze_exact,
}
use llm_supervisor_proxy.Loops.Exact.Streaks.{
  StreakOf, all_like, last_of, Reported, analyze_exact-Reported, analyze_exact-found,
}

program : Unit {0}
unfolding dec_str new_exact_match_strategy eligible assistant_messages same_message streak_loop scan
    analyze_exact all_like last_of
program = tt

abbrev said : String → String → TextMessage
said role content = record {
  role = role;
  content_type = "text";
  content = content;
  content_hash = 7;
  token_count = 1;
}

-- The user's message does not count.
abbrev window : List TextMessage
window =
    said "assistant" "a"
    ∷ said "assistant" "b"
    ∷ said "user" "c"
    ∷ said "assistant" "b"
    ∷ said "assistant" "d"
    ∷ []

window_runs :
    analyze_exact (new_exact_match_strategy (pos 1)) window ≡ some (said "assistant" "b", 2)
unfolding program
window_runs = refl

short_runs : analyze_exact (new_exact_match_strategy (pos 3)) window ≡ none
unfolding program
short_runs = refl

analyze_exact-Reported_example : Reported 2 (assistant_messages window) (analyze_exact 2 window)
analyze_exact-Reported_example = analyze_exact-Reported 2 window

analyze_exact-found_example :
    (m : TextMessage) × (n : ℕ) × (analyze_exact 2 window ≡ some (m, n))
    × StreakOf m n (assistant_messages window)
    × (2 ≤ n)
unfolding program
analyze_exact-found_example = analyze_exact-found 2 window (omega arith) (
  said "assistant" "b",
  (
    said "assistant" "a" ∷ [],
    said "assistant" "b",
    said "assistant" "b" ∷ [],
    said "assistant" "d" ∷ [],
    refl,
    refl,
    refl,
    refl,
  ),
)
