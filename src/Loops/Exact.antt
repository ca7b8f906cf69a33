-- ===== src/Loops/Exact.antt =====
-- pkg/loopdetection/strategy_exact.go: identical consecutive messages. The printed evidence and the
-- cut of the reported content are left out; the confidence is always 1.
pub mod Streaks
pub mod Examples
use llm_supervisor_proxy.Support.Int.{ℤ, pos, pos_part, ltb_ℤ}
use llm_supervisor_proxy.Support.{
  ℕ, zero, suc, ◌+◌, Bool, true, false, ◌&&◌, String, List, [], ◌∷◌, Option, none, some, ltb, leb,
  ◌==◌, str_eq, length, if◌then◌else◌,
}

-- The fields of a message that the strategy reads.
pub record TextMessage : Type 0 where
  pub role : String
  pub content_type : String
  pub content : String
  pub content_hash : ℕ
  pub token_count : ℕ

unfoldable pub new_exact_match_strategy : ℤ → ℕ
new_exact_match_strategy match_count = if ltb_ℤ match_count (pos 2) then 2 else pos_part match_count

unfoldable pub eligible : TextMessage → Bool
eligible m = str_eq m.role "assistant" && (str_eq m.content_type "text" && ltb 0 m.token_count)

unfoldable pub assistant_messages : List TextMessage → List TextMessage
assistant_messages [] = []
assistant_messages (m ∷ messages) =
    let rest = assistant_messages messages in if eligible m then m ∷ rest else rest

unfoldable pub same_message : TextMessage → TextMessage → Bool
same_message m before = (m.content_hash == before.content_hash) && str_eq m.content before.content

-- The loop over `i`, with the message before it and the length of the streak that ends there.
unfoldable pub streak_loop : ℕ → ℕ → TextMessage → List TextMessage → Option (TextMessage × ℕ)
streak_loop match_count count before [] = none
streak_loop match_count count before (m ∷ messages) =
    let longer = streak_loop match_count (suc count) m messages in
    let restarted = streak_loop match_count 1 m messages in
    if same_message m before
    then if leb match_count (suc count) then some (m, suc count) else longer
    else if leb match_count 1
    then some (m, 1)
    else restarted

unfoldable pub scan : ℕ → List TextMessage → Option (TextMessage × ℕ)
scan match_count [] = none
scan match_count (m ∷ messages) = streak_loop match_count 1 m messages

-- The repeated message and the length of its streak.
unfoldable pub analyze_exact : ℕ → List TextMessage → Option (TextMessage × ℕ)
analyze_exact match_count messages =
    if ltb (length messages) match_count
    then none
    else if ltb (length (assistant_messages messages)) match_count
    then none
    else scan match_count (assistant_messages messages)
