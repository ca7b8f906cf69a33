-- ===== src/Loops/Cycle/Soundness.antt =====
-- pkg/loopdetection/strategy_cycle.go: a reported cycle is there, and a cycle that is there is
-- reported.
use llm_supervisor_proxy.Support.{
  ℕ, zero, suc, ◌-◌, ◌*◌, ◌≤◌, ◌≡◌, refl, sym, ap, ◌∙◌, false, String, List, ◌++◌, Option, none,
  some, ltb, leb, length, take, drop, take-drop, if◌then◌else◌, arith, Bool-cases, inl, inr,
}
use llm_supervisor_proxy.Loops.Cycle.{
  critical, warning, MessageContext, DetectionResult, CycleStrategy, all_same, count_loop, detected,
  at_start, or_else, slide_loop, find_repeating_pattern, length_loop, keys_of, all_actions, analyze,
}
use llm_supervisor_proxy.Loops.Cycle.Occurrences.{repeated, count_loop-repeated}

-- The keys hold the sequence, so many times in a row.
abbrev pub Holds : List String → List String → ℕ → Type 0
Holds keys p k =
    (before : List String) × (after : List String) × (keys ≡ before ++ (repeated k p ++ after))

-- What a result promises of the keys: its pattern occurs as often in a row as it says, often enough,
-- and is no single action repeated.
pub record IsCycle (s : CycleStrategy) (keys : List String) (d : DetectionResult) : Type 0 where
  pub held : Holds keys d.pattern d.repeat_count
  pub enough : s.min_occurrences ≤ d.repeat_count
  pub mixed : all_same d.pattern ≡ false
  pub graded : d.severity ≡ (if leb 3 d.repeat_count then critical else warning)

abbrev pub Promised : CycleStrategy → List String → Option DetectionResult → Type 0
Promised s keys none = Unit
Promised s keys (some d) = IsCycle s keys d

or_else-Promised :
    (s : CycleStrategy) (keys : List String) (a b : Option DetectionResult)
    → Promised s keys a
    → Promised s keys b
    → Promised s keys (or_else a b)
or_else-Promised s keys none b p q = q
or_else-Promised s keys (some d) b p q = p

detected-IsCycle :
    (s : CycleStrategy) (keys p : List String) (k : ℕ)
    → Holds keys p k
    → s.min_occurrences ≤ k
    → all_same p ≡ false
    → IsCycle s keys (detected p k)
unfolding detected
detected-IsCycle s keys p k h m a = elim (Bool-cases (leb 3 k)) [
  | inl e ↦ rw e (record { held = h; enough = m; mixed = a; graded = rw e refl })
  | inr e ↦ rw e (record { held = h; enough = m; mixed = a; graded = rw e refl })
]

Holds-at :
    (keys : List String) (n i : ℕ)
    → Holds keys
        (take n (drop i keys))
        (count_loop (length keys) n (take n (drop i keys)) (drop i keys))
Holds-at keys n i =
    let (after, e) =
      count_loop-repeated (length keys) n
        (count_loop (length keys) n (take n (drop i keys)) (drop i keys)) (take n (drop i keys))
        (drop i keys) (omega arith) in
    (take i keys, after, sym (take-drop i keys) ∙ ap (λ l. take i keys ++ l) e)

at_start-Promised :
    (s : CycleStrategy) (keys : List String) (n i : ℕ) → Promised s keys (at_start s keys n i)
unfolding at_start
at_start-Promised s keys n i =
    elim (Bool-cases
      (leb s.min_occurrences (count_loop (length keys) n (take n (drop i keys)) (drop i keys)))) [
        | inr e ↦ rw e tt
        | inl e ↦ elim (Bool-cases (all_same (take n (drop i keys)))) [
          | inl f ↦ rw (e, f) tt
          | inr f ↦
              rw (e, f)
                (detected-IsCycle s keys (take n (drop i keys)) _ (Holds-at keys n i)
                  (ground (arith, e)) f)
        ]
      ]

slide_loop-Promised :
    (s : CycleStrategy) (keys : List String) (n i : ℕ) → Promised s keys (slide_loop s keys n i)
unfolding slide_loop
slide_loop-Promised s keys n zero = at_start-Promised s keys n 0
slide_loop-Promised s keys n (suc i) =
    or_else-Promised s keys (at_start s keys n (suc i)) (slide_loop s keys n i)
      (at_start-Promised s keys n (suc i)) (slide_loop-Promised s keys n i)

find-Promised :
    (s : CycleStrategy) (keys : List String) (n : ℕ)
    → Promised s keys (find_repeating_pattern s keys n)
unfolding find_repeating_pattern
find-Promised s keys n = elim (Bool-cases (ltb (length keys) (n * s.min_occurrences))) [
  | inl e ↦ rw e tt
  | inr e ↦ rw e (slide_loop-Promised s keys n (length keys - n * s.min_occurrences))
]

length_loop-Promised :
    (s : CycleStrategy) (keys : List String) (n k : ℕ) → Promised s keys (length_loop s keys n k)
unfolding length_loop
length_loop-Promised s keys n zero = tt
length_loop-Promised s keys n (suc k) =
    or_else-Promised s keys (find_repeating_pattern s keys n) (length_loop s keys (suc n) k)
      (find-Promised s keys n) (length_loop-Promised s keys (suc n) k)

abbrev pub window_keys : List MessageContext → List String
window_keys messages = keys_of (all_actions messages)

-- A cycle is reported only if the actions of the window hold it: the reported sequence stands there
-- in a row as often as the report says, at least as often as configured, it is not one action
-- repeated, and the report is critical from three times on.
pub analyze-Promised :
    (s : CycleStrategy) (messages : List MessageContext)
    → Promised s (window_keys messages) (analyze s messages)
unfolding analyze
analyze-Promised s messages = elim (Bool-cases (ltb (length (all_actions messages)) 4)) [
  | inl e ↦ rw e tt
  | inr e ↦ rw e (length_loop-Promised s (window_keys messages) 2 (s.max_cycle_length - 1))
]
