-- ===== src/Race/Winner.antt =====
-- pkg/proxy/race_coordinator.go, the winner of manage's tick.
use llm_supervisor_proxy.CredentialLb.Select.{Others}
use llm_supervisor_proxy.Race.Cancelled.{cancel-cancelled}
use llm_supervisor_proxy.Race.Coordinator.{RaceCoordinator, cancel_loop, cancel_all_except}
use llm_supervisor_proxy.Race.Rows.{row}
use llm_supervisor_proxy.Race.Manage.{
  passes_gate, winner_loop, choose_winner, after_choice, tick, with_winner, choose_for,
}
use llm_supervisor_proxy.Race.Request.{UpstreamRequest}
use llm_supervisor_proxy.Support.{
  ℕ, zero, suc, ◌+◌, ◌<◌, ◌≡◌, refl, ap, ◌∙◌, Bool, true, false, List, [], ◌∷◌, Option, none, some,
  Option-cases, inl, inr, arith, ◌==◌, if◌then◌else◌,
}

abbrev next : Option ℕ → Option ℕ
next none = none
next (some i) = some (suc i)

-- The specification: the first attempt that passes the gate.
unfoldable pub first_eligible : Bool → List UpstreamRequest → Option ℕ
first_eligible live [] = none
first_eligible live (r ∷ requests) =
    if passes_gate live r then some 0 else next (first_eligible live requests)

-- A later attempt never takes the place of an earlier one.
pub winner_loop_kept :
    (live : Bool) (requests : List UpstreamRequest) (i w : ℕ)
    → w < i
    → winner_loop live i (some w) requests ≡ some w
unfolding winner_loop
winner_loop_kept live [] i w h = refl
winner_loop_kept live (r ∷ requests) i w h =
    ground (arith, winner_loop_kept live requests (suc i) w)

abbrev pub shift : ℕ → Option ℕ → Option ℕ
shift i none = none
shift i (some w) = some (i + w)

pub winner_loop-first_eligible :
    (live : Bool) (requests : List UpstreamRequest) (i : ℕ)
    → winner_loop live i none requests ≡ shift i (first_eligible live requests)
unfolding winner_loop first_eligible
winner_loop-first_eligible live [] i = refl
winner_loop-first_eligible live (r ∷ requests) i = ground (
  arith,
  winner_loop_kept live requests (suc i) i,
  winner_loop-first_eligible live requests (suc i),
)

-- Whether the attempt at an index passes the gate.
abbrev pub eligible_at : Bool → ℕ → List UpstreamRequest → Bool
eligible_at live w [] = false
eligible_at live zero (r ∷ requests) = passes_gate live r
eligible_at live (suc w) (r ∷ requests) = eligible_at live w requests

pub first_eligible_sound :
    (live : Bool) (requests : List UpstreamRequest) (w : ℕ)
    → first_eligible live requests ≡ some w
    → eligible_at live w requests ≡ true
unfolding first_eligible
first_eligible_sound live [] w h = absurd (ground (arith, h))
first_eligible_sound live (r ∷ requests) zero h =
    elim (Option-cases (first_eligible live requests)) [
      | inl e ↦ ground (arith, e, h)
      | inr (i, e) ↦ ground (arith, e, h)
    ]
first_eligible_sound live (r ∷ requests) (suc w) h =
    elim (Option-cases (first_eligible live requests)) [
      | inl e ↦ ground (arith, e, h)
      | inr (i, e) ↦ ground (arith, e, h, first_eligible_sound live requests i e)
    ]

pub first_eligible_least :
    (live : Bool) (requests : List UpstreamRequest) (w j : ℕ)
    → first_eligible live requests ≡ some w
    → j < w
    → eligible_at live j requests ≡ false
unfolding first_eligible
first_eligible_least live [] w j h l = refl
first_eligible_least live (r ∷ requests) w zero h l = ground (arith, h)
first_eligible_least live (r ∷ requests) w (suc j) h l =
    elim (Option-cases (first_eligible live requests)) [
      | inl e ↦ ground (arith, e, h)
      | inr (i, e) ↦ ground (arith, e, h, first_eligible_least live requests i j e)
    ]

pub row-cancel_loop_winner :
    (requests : List UpstreamRequest) (i w v : ℕ)
    → v ≡ i + w
    → row w (cancel_loop (some v) i requests) ≡ row w requests
unfolding row cancel_loop
row-cancel_loop_winner [] i w v h = refl
row-cancel_loop_winner (r ∷ requests) i zero v h = ground arith
row-cancel_loop_winner (r ∷ requests) i (suc w) v h =
    row-cancel_loop_winner requests (suc i) w v (omega arith)

abbrev pub AllCancelled : List UpstreamRequest → Type 0
AllCancelled [] = Unit
AllCancelled (r ∷ requests) = (r.cancelled ≡ true) × AllCancelled requests

-- Every attempt but the one at the index is cancelled.
abbrev pub AllCancelledBut : ℕ → List UpstreamRequest → Type 0
AllCancelledBut w [] = Unit
AllCancelledBut zero (r ∷ requests) = AllCancelled requests
AllCancelledBut (suc w) (r ∷ requests) = (r.cancelled ≡ true) × AllCancelledBut w requests

pub cancel_loop-AllCancelled :
    (requests : List UpstreamRequest) (i : ℕ) → AllCancelled (cancel_loop none i requests)
unfolding cancel_loop
cancel_loop-AllCancelled [] i = tt
cancel_loop-AllCancelled (r ∷ requests) i =
    (cancel-cancelled r, cancel_loop-AllCancelled requests (suc i))

lt→eqb_false : (i v : ℕ) → v < i → i == v ≡ false
lt→eqb_false i v h = ground (arith, h)

lt→eqb_false_above : (i v : ℕ) → i < v → i == v ≡ false
lt→eqb_false_above i v h = ground (arith, h)

-- Behind the winner everything is cancelled.
cancel_loop_behind :
    (requests : List UpstreamRequest) (i v : ℕ)
    → v < i
    → AllCancelled (cancel_loop (some v) i requests)
unfolding cancel_loop
cancel_loop_behind [] i v h = tt
cancel_loop_behind (r ∷ requests) i v h =
    rw (lt→eqb_false i v h)
      (cancel-cancelled r, cancel_loop_behind requests (suc i) v (omega (arith, h)))

pub cancel_loop-AllCancelledBut :
    (requests : List UpstreamRequest) (i w v : ℕ)
    → v ≡ i + w
    → AllCancelledBut w (cancel_loop (some v) i requests)
unfolding cancel_loop
cancel_loop-AllCancelledBut [] i w v h = tt
cancel_loop-AllCancelledBut (r ∷ requests) i zero v h =
    cancel_loop_behind requests (suc i) v (omega (arith, h))
cancel_loop-AllCancelledBut (r ∷ requests) i (suc w) v h =
    rw (lt→eqb_false_above i v (omega (arith, h)))
      (cancel-cancelled r, cancel_loop-AllCancelledBut requests (suc i) w v (omega (arith, h)))

shift-zero : (o : Option ℕ) → shift 0 o ≡ o
shift-zero none = refl
shift-zero (some w) = ap some (omega arith)

-- Without a winner, the tick takes the first that passes.
pub choose_winner-none :
    (c : RaceCoordinator)
    → c.winner ≡ none
    → choose_winner c ≡ with_winner (first_eligible c.live_first_byte_gate c.requests) c
unfolding choose_winner
choose_winner-none c h =
    ap (λ o. choose_for o c) h
    ∙ ap (λ o. with_winner o c)
        (winner_loop-first_eligible c.live_first_byte_gate c.requests 0
          ∙ shift-zero (first_eligible c.live_first_byte_gate c.requests))

pub tick-decided :
    (others : Others) (now : ℕ) (c : RaceCoordinator) (o : Option ℕ)
    → c.winner ≡ none
    → first_eligible c.live_first_byte_gate c.requests ≡ o
    → tick others now c ≡ after_choice (with_winner o c).winner others now (with_winner o c)
unfolding tick
tick-decided others now c o h e =
    ap (λ c'. after_choice c'.winner others now c')
      (choose_winner-none c h ∙ ap (λ o'. with_winner o' c) e)

-- A tick of a race without a winner, in which some attempt passes the gate of the mode (in live mode a
-- byte and no error, in buffered mode a completed attempt without an error), makes the first such
-- attempt the winner, opens the stream and ends the management; it leaves the winner's row as it is
-- and cancels every other row.
pub tick-winner :
    (others : Others) (now : ℕ) (c : RaceCoordinator) (w : ℕ)
    → c.winner ≡ none
    → first_eligible c.live_first_byte_gate c.requests ≡ some w
    → let c' = tick others now c in
      (c'.winner ≡ some w)
      × ((c'.stream_open ≡ true)
          × ((c'.managing ≡ false)
              × ((row w c'.requests ≡ row w c.requests) × AllCancelledBut w c'.requests)))
unfolding cancel_all_except
tick-winner others now c w h e = rw (tick-decided others now c (some w) h e) (
  refl,
  (
    refl,
    (
      refl,
      (
        row-cancel_loop_winner c.requests 0 w w (omega arith),
        cancel_loop-AllCancelledBut c.requests 0 w w (omega arith),
      ),
    ),
  ),
)
