-- ===== src/Loops/Cycle.antt =====
-- pkg/loopdetection/strategy_cycle.go: repeated sequences of actions. The printed evidence of a
-- result is left out, and a confidence is a number of hundredths.
pub mod Occurrences
pub mod Soundness
pub mod Completeness
pub mod Examples
use Prim.Native.String.{◌++◌ as ◌<>◌}
use llm_supervisor_proxy.Support.Int.{ℤ, pos, pos_part, leb_ℤ}
use llm_supervisor_proxy.Support.{
  ℕ, zero, suc, ◌+◌, ◌-◌, ◌*◌, Bool, true, false, String, List, [], ◌∷◌, ◌++◌, Option, none, some,
  ltb, leb, str_eq, length, take, drop, if◌then◌else◌,
}

pub record Action : Type 0 where
  pub type_name : String
  pub target : String

-- The fields of a message that the strategy reads.
pub record MessageContext : Type 0 where
  pub actions : List Action

pub data Severity : Type 0 where
  severity_none : Severity
  warning : Severity
  critical : Severity

pub record DetectionResult : Type 0 where
  pub severity : Severity
  pub confidence : ℕ
  pub pattern : List String
  pub repeat_count : ℕ

pub record CycleStrategy : Type 0 where
  pub max_cycle_length : ℕ
  pub min_occurrences : ℕ

unfoldable pub new_cycle_strategy : ℤ → ℤ → CycleStrategy
new_cycle_strategy max_cycle_length min_occurrences = record {
  max_cycle_length = if leb_ℤ max_cycle_length (pos 0) then 5 else pos_part max_cycle_length;
  min_occurrences = if leb_ℤ min_occurrences (pos 0) then 2 else pos_part min_occurrences;
}

unfoldable pub action_key : Action → String
action_key a = a.type_name <> (":" <> a.target)

unfoldable pub slice_equal : List String → List String → Bool
slice_equal [] [] = true
slice_equal [] (y ∷ ys) = false
slice_equal (x ∷ xs) [] = false
slice_equal (x ∷ xs) (y ∷ ys) = if str_eq x y then slice_equal xs ys else false

-- The loop of `allSame` against the first element.
unfoldable pub same_loop : String → List String → Bool
same_loop x [] = true
same_loop x (y ∷ ys) = if str_eq y x then same_loop x ys else false

unfoldable pub all_same : List String → Bool
all_same [] = true
all_same (x ∷ xs) = same_loop x xs

-- The loop over `j`, on what is left of the keys from `j` on. The length of the keys is fuel enough,
-- since a pattern is not empty.
unfoldable pub count_loop : ℕ → ℕ → List String → List String → ℕ
count_loop zero pattern_len pattern rest = 0
count_loop (suc fuel) pattern_len pattern rest =
    let more = count_loop fuel pattern_len pattern (drop pattern_len rest) in
    if leb pattern_len (length rest)
    then if slice_equal (take pattern_len rest) pattern then suc more else 0
    else 0

unfoldable pub detected : List String → ℕ → DetectionResult
detected pattern occurrences =
    if leb 3 occurrences
    then record {
      severity = critical;
      confidence = 90;
      pattern = pattern;
      repeat_count = occurrences;
    }
    else record {
      severity = warning;
      confidence = 75;
      pattern = pattern;
      repeat_count = occurrences;
    }

-- One round of the loop over `startIdx`.
unfoldable pub at_start : CycleStrategy → List String → ℕ → ℕ → Option DetectionResult
at_start s keys pattern_len start_idx =
    let rest = drop start_idx keys in
    let pattern = take pattern_len rest in
    let occurrences = count_loop (length keys) pattern_len pattern rest in
    if leb s.min_occurrences occurrences
    then if all_same pattern then none else some (detected pattern occurrences)
    else none

abbrev pub or_else : Option DetectionResult → Option DetectionResult → Option DetectionResult
or_else none later = later
or_else (some r) later = some r

-- The loop from `startIdx` down to 0.
unfoldable pub slide_loop : CycleStrategy → List String → ℕ → ℕ → Option DetectionResult
slide_loop s keys pattern_len zero = at_start s keys pattern_len 0
slide_loop s keys pattern_len (suc i) =
    or_else (at_start s keys pattern_len (suc i)) (slide_loop s keys pattern_len i)

unfoldable pub find_repeating_pattern : CycleStrategy → List String → ℕ → Option DetectionResult
find_repeating_pattern s keys pattern_len =
    let min_required = pattern_len * s.min_occurrences in
    if ltb (length keys) min_required
    then none
    else slide_loop s keys pattern_len (length keys - min_required)

-- The loop over the pattern's length: `n` lengths from `pattern_len` on.
unfoldable pub length_loop : CycleStrategy → List String → ℕ → ℕ → Option DetectionResult
length_loop s keys pattern_len zero = none
length_loop s keys pattern_len (suc n) =
    or_else (find_repeating_pattern s keys pattern_len) (length_loop s keys (suc pattern_len) n)

unfoldable pub keys_of : List Action → List String
keys_of [] = []
keys_of (a ∷ actions) = action_key a ∷ keys_of actions

unfoldable pub all_actions : List MessageContext → List Action
all_actions [] = []
all_actions (m ∷ messages) = m.actions ++ all_actions messages

unfoldable pub analyze : CycleStrategy → List MessageContext → Option DetectionResult
analyze s messages =
    if ltb (length (all_actions messages)) 4
    then none
    else length_loop s (keys_of (all_actions messages)) 2 (s.max_cycle_length - 1)
