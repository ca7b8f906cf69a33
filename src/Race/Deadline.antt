-- ===== src/Race/Deadline.antt =====
-- pkg/proxy/race_coordinator.go, handleStreamingDeadline and handleHardDeadline.
use llm_supervisor_proxy.Race.Coordinator.{RaceCoordinator, cancel_all, cancel_all_except}
use llm_supervisor_proxy.Race.Rows.{row}
use llm_supervisor_proxy.Race.Events.{
  best_loop, deadline_for, deadline_pick, handle_hard_deadline, handle_streaming_deadline,
  is_longer, no_content,
}
use llm_supervisor_proxy.Race.Request.{UpstreamRequest, buffer_len, is_done}
use llm_supervisor_proxy.Race.Winner.{
  AllCancelled, AllCancelledBut, cancel_loop-AllCancelled, cancel_loop-AllCancelledBut,
  row-cancel_loop_winner,
}
use llm_supervisor_proxy.Support.{
  ℕ, zero, suc, ◌+◌, ◌≤◌, ◌≡◌, ◌≢◌, ◌⊎◌, refl, subst, ap, ◌∙◌, true, false, ◌&&◌, List, [], ◌∷◌,
  Option, none, some, Bool-cases, Option-cases, inl, inr, arith, ◌==◌, if◌then◌else◌,
}

-- The index names an attempt that is not done and holds that many bytes.
abbrev pub IsCandidate : ℕ → ℕ → List UpstreamRequest → Type 0
IsCandidate i len [] = ⊥
IsCandidate zero len (r ∷ requests) = (is_done r ≡ false) × (buffer_len r ≡ len)
IsCandidate (suc i) len (r ∷ requests) = IsCandidate i len requests

abbrev pub len_if_running : UpstreamRequest → ℕ
len_if_running r = if is_done r then 0 else buffer_len r

-- Every attempt that is not done has at most that many bytes.
abbrev pub AtMost : ℕ → List UpstreamRequest → Type 0
AtMost len [] = Unit
AtMost len (r ∷ requests) = (len_if_running r ≤ len) × AtMost len requests

abbrev pub AllDone : List UpstreamRequest → Type 0
AllDone [] = Unit
AllDone (r ∷ requests) = (is_done r ≡ true) × AllDone requests

abbrev pub Found : ℕ → ℕ → ℕ → List UpstreamRequest → Type 0
Found i k n requests = (m : ℕ) × ((k ≡ i + m) × IsCandidate m n requests)

Found-here :
    (r : UpstreamRequest) (requests : List UpstreamRequest) (i k n : ℕ)
    → is_done r ≡ false
    → ◌≡◌ {A = Option (ℕ × ℕ)} (some (i, buffer_len r)) (some (k, n))
    → Found i k n (r ∷ requests)
Found-here r requests i k n d h = (0, (ground (arith, h), (d, ground (arith, h))))

Found-later :
    (r : UpstreamRequest) (requests : List UpstreamRequest) (i k n : ℕ)
    → Found (suc i) k n requests
    → Found i k n (r ∷ requests)
Found-later r requests i k n (m, (e, f)) = (suc m, (omega arith, f))

-- The best of the loop is the one it started from or a later attempt.
best_loop_source :
    (requests : List UpstreamRequest) (i k n : ℕ) (best : Option (ℕ × ℕ))
    → best_loop i best requests ≡ some (k, n)
    → (best ≡ some (k, n)) ⊎ Found i k n requests
unfolding best_loop
best_loop_source [] i k n best h = inl h
best_loop_source (r ∷ requests) i k n best h = elim (Bool-cases (is_done r)) [
  | inl d ↦ elim (best_loop_source requests (suc i) k n best (ground (arith, d, h))) [
    | inl e ↦ inl e
    | inr f ↦ inr (Found-later r requests i k n f)
  ]
  | inr d ↦ elim (Bool-cases (is_longer (buffer_len r) best)) [
    | inl l ↦
        elim (best_loop_source requests (suc i) k n (some (i, buffer_len r))
          (ground (arith, d, l, h))) [
            | inl e ↦ inr (Found-here r requests i k n d e)
            | inr f ↦ inr (Found-later r requests i k n f)
          ]
    | inr l ↦ elim (best_loop_source requests (suc i) k n best (ground (arith, d, l, h))) [
      | inl e ↦ inl e
      | inr f ↦ inr (Found-later r requests i k n f)
    ]
  ]
]

-- And no attempt that is not done is longer.
best_loop_longest :
    (requests : List UpstreamRequest) (i j len k n : ℕ)
    → best_loop i (some (j, len)) requests ≡ some (k, n)
    → (len ≤ n) × AtMost n requests
unfolding best_loop
best_loop_longest [] i j len k n h = (ground (arith, h), tt)
best_loop_longest (r ∷ requests) i j len k n h = ground (
  arith,
  h,
  best_loop_longest requests (suc i) i (buffer_len r) k n,
  best_loop_longest requests (suc i) j len k n,
)

best_loop_kept :
    (requests : List UpstreamRequest) (i : ℕ) (b : ℕ × ℕ) → best_loop i (some b) requests ≢ none
unfolding best_loop
best_loop_kept [] i b h = ground (arith, h)
best_loop_kept (r ∷ requests) i (j, len) h = ground (
  arith,
  h,
  best_loop_kept requests (suc i) (i, buffer_len r),
  best_loop_kept requests (suc i) (j, len),
)

best_loop-none :
    (requests : List UpstreamRequest) (i : ℕ) → best_loop i none requests ≡ none → AllDone requests
unfolding best_loop
best_loop-none [] i h = tt
best_loop-none (r ∷ requests) i h =
    ground
      (arith, h, best_loop-none requests (suc i), best_loop_kept requests (suc i) (i, buffer_len r))

best_loop_first :
    (requests : List UpstreamRequest) (i k n : ℕ)
    → best_loop i none requests ≡ some (k, n)
    → AtMost n requests
unfolding best_loop
best_loop_first [] i k n h = tt
best_loop_first (r ∷ requests) i k n h = ground (
  arith,
  h,
  best_loop_longest requests (suc i) i (buffer_len r) k n,
  best_loop_first requests (suc i) k n,
)

best_loop-IsCandidate :
    (requests : List UpstreamRequest) (k n : ℕ)
    → best_loop 0 none requests ≡ some (k, n)
    → IsCandidate k n requests
best_loop-IsCandidate requests k n h = elim (best_loop_source requests 0 k n none h) [
  | inl e ↦ absurd (ground (arith, e))
  | inr (m, (e, f)) ↦ subst (λ j. IsCandidate j n requests) (omega (arith, e)) f
]

-- The race ends without content: both channels are closed and everything is cancelled.
abbrev pub EndsEmpty : RaceCoordinator → Type 0
EndsEmpty c =
    (c.winner ≡ none) × ((c.done ≡ true) × ((c.stream_open ≡ true) × AllCancelled c.requests))

-- The attempt takes over: the stream opens, its row is kept and every other one is cancelled.
abbrev pub TakesOver : ℕ → List UpstreamRequest → RaceCoordinator → Type 0
TakesOver w requests c =
    (c.winner ≡ some w)
    × ((c.stream_open ≡ true)
        × ((row w c.requests ≡ row w requests) × AllCancelledBut w c.requests))

abbrev pub DeadlinePick : RaceCoordinator → RaceCoordinator → Type 0
DeadlinePick c c' =
    (w : ℕ) × ((n : ℕ) × ((IsCandidate w n c.requests × AtMost n c.requests)
        × ((c.live_first_byte_gate && (n == 0) ≡ false) × TakesOver w c.requests c')))

abbrev pub NothingToPick : RaceCoordinator → Type 0
NothingToPick c = AllDone c.requests ⊎ ((c.live_first_byte_gate ≡ true) × AtMost 0 c.requests)

no_content-EndsEmpty : (c : RaceCoordinator) → c.winner ≡ none → EndsEmpty (no_content c)
unfolding no_content cancel_all cancel_all_except
no_content-EndsEmpty c h = (h, (refl, (refl, cancel_loop-AllCancelled c.requests 0)))

pick-EndsEmpty :
    (c : RaceCoordinator) (w n : ℕ)
    → c.winner ≡ none
    → c.live_first_byte_gate && (n == 0) ≡ true
    → EndsEmpty (deadline_pick c (some (w, n)))
unfolding deadline_pick
pick-EndsEmpty c w n h g = rw g (no_content-EndsEmpty c h)

pick-TakesOver :
    (c : RaceCoordinator) (w n : ℕ)
    → c.live_first_byte_gate && (n == 0) ≡ false
    → TakesOver w c.requests (deadline_pick c (some (w, n)))
unfolding deadline_pick cancel_all_except
pick-TakesOver c w n g = rw g (
  refl,
  (
    refl,
    (
      row-cancel_loop_winner c.requests 0 w w (omega arith),
      cancel_loop-AllCancelledBut c.requests 0 w w (omega arith),
    ),
  ),
)

deadline_for-none :
    (c : RaceCoordinator) (o : Option (ℕ × ℕ))
    → c.winner ≡ none
    → best_loop 0 none c.requests ≡ o
    → handle_streaming_deadline c ≡ deadline_pick c o
unfolding handle_streaming_deadline
deadline_for-none c o h e = ap (λ w. deadline_for w c) h ∙ ap (λ b. deadline_pick c b) e

deadline_found :
    (c : RaceCoordinator) (w n : ℕ)
    → c.winner ≡ none
    → best_loop 0 none c.requests ≡ some (w, n)
    → let c' = deadline_pick c (some (w, n)) in DeadlinePick c c' ⊎ (NothingToPick c × EndsEmpty c')
deadline_found c w n h e = elim (Bool-cases (c.live_first_byte_gate && (n == 0))) [
  | inl g ↦ inr (
    inr (
      ground (arith, g),
      subst (λ m. AtMost m c.requests) (ground (arith, g)) (best_loop_first c.requests 0 w n e),
    ),
    pick-EndsEmpty c w n h g,
  )
  | inr g ↦ inl (
    w,
    (
      n,
      (
        (best_loop-IsCandidate c.requests w n e, best_loop_first c.requests 0 w n e),
        (g, pick-TakesOver c w n g),
      ),
    ),
  )
]

-- At the streaming deadline of a race without a winner, either the attempt with the most bytes among
-- those that are not done takes over (in live mode only with at least one byte), its row kept and every
-- other one cancelled; or the race ends without content and everything is cancelled, which happens
-- just when every attempt is done, the completed ones too, or in live mode when those that are not
-- done hold no byte.
pub handle_streaming_deadline_lem :
    (c : RaceCoordinator)
    → c.winner ≡ none
    → let c' = handle_streaming_deadline c in DeadlinePick c c' ⊎ (NothingToPick c × EndsEmpty c')
unfolding deadline_pick
handle_streaming_deadline_lem c h = elim (Option-cases (best_loop 0 none c.requests)) [
  | inl e ↦
      rw (deadline_for-none c none h e)
        (inr (inl (best_loop-none c.requests 0 e), no_content-EndsEmpty c h))
  | inr (b, e) ↦ rw (deadline_for-none c (some b) h e) (deadline_found c b.0 b.1 h e)
]

-- After the hard deadline both channels are closed and every attempt is cancelled, a winner's too,
-- which stays the winner.
pub handle_hard_deadline_lem :
    (c : RaceCoordinator)
    → let c' = handle_hard_deadline c in
      (c'.done ≡ true)
      × ((c'.stream_open ≡ true) × (AllCancelled c'.requests × (c'.winner ≡ c.winner)))
unfolding handle_hard_deadline cancel_all cancel_all_except
handle_hard_deadline_lem c = (refl, (refl, (cancel_loop-AllCancelled c.requests 0, refl)))
