-- ===== src/Loops/Cycle/Completeness.antt =====
-- pkg/loopdetection/strategy_cycle.go: a cycle that is there is reported.
use llm_supervisor_proxy.Support.{
  ℕ, zero, suc, ◌+◌, ◌-◌, ◌*◌, ◌<◌, ◌≤◌, ◌≡◌, refl, ap, ◌∙◌, Bool, true, false, ◌||◌, String, List,
  [], ◌∷◌, ◌++◌, Option, none, some, ltb, leb, length, length-append, take, arith, Bool-cases, inl,
  inr,
}
use llm_supervisor_proxy.Loops.Cycle.{
  Action, MessageContext, DetectionResult, CycleStrategy, all_same, count_loop, at_start, or_else,
  slide_loop, find_repeating_pattern, length_loop, keys_of, all_actions, analyze,
}
use llm_supervisor_proxy.Loops.Cycle.Occurrences.{
  repeated, length-repeated, count_loop-all, drop-front, take-repeated,
}
use llm_supervisor_proxy.Loops.Cycle.Soundness.{window_keys, IsCycle, Promised, analyze-Promised}

abbrev pub found : Option DetectionResult → Bool
found none = false
found (some d) = true

found-or_else : (a b : Option DetectionResult) → found (or_else a b) ≡ (found a || found b)
found-or_else none b = refl
found-or_else (some d) b = refl

module _ (s : CycleStrategy) where
  module _ (p before after : List String) (long : 0 < length p) (mixed : all_same p ≡ false)
      (often : 0 < s.min_occurrences) where
    abbrev keys : List String
    keys = before ++ (repeated s.min_occurrences p ++ after)

    -- The number of keys, from the sequence's length.
    length-keys : length keys ≡ length before + (length p * s.min_occurrences + length after)
    length-keys =
        length-append before (repeated s.min_occurrences p ++ after)
        ∙ omega (
          arith,
          length-append (repeated s.min_occurrences p) after,
          length-repeated s.min_occurrences p,
        )

    counted :
        s.min_occurrences
        ≤ count_loop (length keys) (length p) p (repeated s.min_occurrences p ++ after)
    counted =
        count_loop-all (length keys) s.min_occurrences p after long
          (omega (arith, length-append before (repeated s.min_occurrences p ++ after)))

    pattern_there : take (length p) (repeated s.min_occurrences p ++ after) ≡ p
    pattern_there = take-repeated s.min_occurrences p after often

    found-at_start : found (at_start s keys (length p) (length before)) ≡ true
    unfolding at_start
    found-at_start =
        rw (drop-front before (repeated s.min_occurrences p ++ after), pattern_there, enough, mixed)
          refl
      where
        enough :
            leb s.min_occurrences
              (count_loop (length keys) (length p) p (repeated s.min_occurrences p ++ after))
            ≡ true
        enough = ground (arith, counted)

  found-slide_loop :
      (keys : List String) (n i m : ℕ)
      → i ≤ m
      → found (at_start s keys n i) ≡ true
      → found (slide_loop s keys n m) ≡ true
  unfolding slide_loop
  found-slide_loop keys n i zero l h = ap (λ j. found (at_start s keys n j)) (omega (arith, l)) ∙ h
  found-slide_loop keys n i (suc m) l h = elim (Bool-cases (leb i m)) [
    | inl e ↦
        found-or_else (at_start s keys n (suc m)) (slide_loop s keys n m)
        ∙ ground (arith, found-slide_loop keys n i m (ground (arith, e)) h)
    | inr e ↦
        found-or_else (at_start s keys n (suc m)) (slide_loop s keys n m)
        ∙ ground (arith, ap (λ j. found (at_start s keys n j)) (last e) ∙ h)
  ]
    where
      last : leb i m ≡ false → suc m ≡ i
      last e = ground (arith, l)

  found-length_loop :
      (keys : List String) (n q k : ℕ)
      → q ≤ n
      → n < q + k
      → found (find_repeating_pattern s keys n) ≡ true
      → found (length_loop s keys q k) ≡ true
  unfolding length_loop
  found-length_loop keys n q zero a b h = absurd (omega (arith, a, b))
  found-length_loop keys n q (suc k) a b h = elim (Bool-cases (leb n q)) [
    | inl e ↦
        found-or_else (find_repeating_pattern s keys q) (length_loop s keys (suc q) k)
        ∙ ground (arith, ap (λ j. found (find_repeating_pattern s keys j)) (first e) ∙ h)
    | inr e ↦
        found-or_else (find_repeating_pattern s keys q) (length_loop s keys (suc q) k)
        ∙ ground (arith, found-length_loop keys n (suc q) k (later e) (omega (arith, b)) h)
  ]
    where
      first : leb n q ≡ true → q ≡ n
      first e = ground (arith, a)

      later : leb n q ≡ false → suc q ≤ n
      later e = ground arith

  found-find :
      (p before after : List String)
      → 0 < length p
      → all_same p ≡ false
      → 0 < s.min_occurrences
      → found
          (find_repeating_pattern s (before ++ (repeated s.min_occurrences p ++ after)) (length p))
        ≡ true
  unfolding find_repeating_pattern
  found-find p before after l m o = rw room (
      found-slide_loop (before ++ (repeated s.min_occurrences p ++ after)) (length p)
        (length before)
        (length (before ++ (repeated s.min_occurrences p ++ after)) - length p * s.min_occurrences)
        (omega (arith, length-keys p before after l m o)) (found-at_start p before after l m o))
    where
      room :
          ltb
            (length (before ++ (repeated s.min_occurrences p ++ after)))
            (length p * s.min_occurrences)
          ≡ false
      room = ground (arith, length-keys p before after l m o)

length-keys_of : (actions : List Action) → length (keys_of actions) ≡ length actions
unfolding keys_of
length-keys_of [] = refl
length-keys_of (a ∷ actions) = ap suc (length-keys_of actions)

analyze-is_found :
    (s : CycleStrategy) (messages : List MessageContext) (p before after : List String)
    → 0 < s.min_occurrences
    → 4 ≤ length (window_keys messages)
    → window_keys messages ≡ before ++ (repeated s.min_occurrences p ++ after)
    → 2 ≤ length p
    → length p ≤ s.max_cycle_length
    → all_same p ≡ false
    → found (analyze s messages) ≡ true
unfolding analyze
analyze-is_found s messages p before after o f e a b m = rw enough (
    found-length_loop s (window_keys messages) (length p) 2 (s.max_cycle_length - 1) a
      (omega (arith, a, b))
      (ap (λ keys. found (find_repeating_pattern s keys (length p))) e
        ∙ found-find s p before after (omega (arith, a)) m o))
  where
    enough : ltb (length (all_actions messages)) 4 ≡ false
    enough = ground (arith, f, length-keys_of (all_actions messages))

-- The report that a result holds.
the_report :
    (s : CycleStrategy) (keys : List String) (o : Option DetectionResult)
    → found o ≡ true
    → Promised s keys o
    → (d : DetectionResult) × (o ≡ some d) × IsCycle s keys d
the_report s keys none f p = absurd (ground (arith, f))
the_report s keys (some d) f p = (d, refl, p)

-- If the window has four actions or more, and somewhere in it a sequence of two actions or more, up
-- to the configured length, stands in a row as often as configured, and is not one action repeated,
-- then a cycle is reported that stands in the window, as often in a row as reported, and not less often
-- than configured, and that is not one action repeated. With several cycles it need not be the given one.
pub analyze-found :
    (s : CycleStrategy) (messages : List MessageContext) (p before after : List String)
    → 0 < s.min_occurrences
    → 4 ≤ length (window_keys messages)
    → window_keys messages ≡ before ++ (repeated s.min_occurrences p ++ after)
    → 2 ≤ length p
    → length p ≤ s.max_cycle_length
    → all_same p ≡ false
    → (d : DetectionResult) × (analyze s messages ≡ some d) × IsCycle s (window_keys messages) d
analyze-found s messages p before after o f e a b m =
    the_report s (window_keys messages) (analyze s messages)
      (analyze-is_found s messages p before after o f e a b m) (analyze-Promised s messages)
