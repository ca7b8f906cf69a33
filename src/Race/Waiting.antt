-- ===== src/Race/Waiting.antt =====
-- pkg/proxy/race_coordinator.go: the winner and the wait for it over a whole race.
use llm_supervisor_proxy.CredentialLb.Engine.{Engine}
use llm_supervisor_proxy.Race.Bounds.{launch}
use llm_supervisor_proxy.Race.Coordinator.{
  Config, RaceCoordinator, cancel_all, cancel_all_except, execute_result, initial_info,
  new_race_coordinator, on_request, start,
}
use llm_supervisor_proxy.Race.Rows.{close_channels, get_winner, wait_for_winner}
use llm_supervisor_proxy.Race.Manage.{tick}
use llm_supervisor_proxy.Race.Events.{
  RaceEvent, ticked, stream_deadline, hard_deadline, context_done, request_op, returned,
  handle_hard_deadline, handle_streaming_deadline, race_step, run_race, stop_managing,
  while_managing,
}
use llm_supervisor_proxy.Race.Request.{main_attempt}
use llm_supervisor_proxy.Support.{
  ℕ, ◌≡◌, refl, sym, ap, ◌∙◌, subst, Bool, true, false, String, List, [], ◌∷◌, Option, none, some,
  ◌&&◌, ◌⊎◌, Bool-cases, inl, inr, arith, if◌then◌else◌,
}
use llm_supervisor_proxy.Race.Channels.{
  Signals, signals, IsSignalled, Follows, Follows-refl, signals-spawn, Follows-open, Follows-trans,
  tick-Follows, deadline_for-Follows,
}

while-Follows :
    (c c' : RaceCoordinator)
    → Follows (signals c) (signals c')
    → Follows (signals c) (signals (while_managing c c'))
while-Follows c c' f = elim (Bool-cases c.managing) [
  | inl e ↦ subst (λ b. Follows (signals c) (signals (if b then c' else c))) (sym e) f
  | inr e ↦
      subst (λ b. Follows (signals c) (signals (if b then c' else c))) (sym e)
        (Follows-refl (signals c))
]

race_step-Follows :
    (c : RaceCoordinator) (e : RaceEvent) → Follows (signals c) (signals (race_step c e))
unfolding race_step handle_streaming_deadline handle_hard_deadline cancel_all cancel_all_except
    on_request execute_result
race_step-Follows c (ticked others now) =
    while-Follows c (tick others now c) (tick-Follows others now c)
race_step-Follows c stream_deadline =
    while-Follows c (stop_managing (handle_streaming_deadline c))
      (deadline_for-Follows c.winner c refl)
race_step-Follows c hard_deadline =
    while-Follows c (stop_managing (handle_hard_deadline c)) (Follows-open (signals c) false)
race_step-Follows c context_done =
    while-Follows c (stop_managing (close_channels (cancel_all c))) (Follows-open (signals c) false)
race_step-Follows c (request_op i op) = Follows-refl (signals c)
race_step-Follows c (returned i (some err) now) = Follows-refl (signals c)
race_step-Follows c (returned i none now) = Follows-refl (signals c)

run_race-Follows :
    (events : List RaceEvent) (c : RaceCoordinator)
    → Follows (signals c) (signals (run_race c events))
unfolding run_race
run_race-Follows [] c = Follows-refl (signals c)
run_race-Follows (e ∷ events) c =
    Follows-trans (signals c) (signals (race_step c e)) _ (race_step-Follows c e)
      (run_race-Follows events (race_step c e))

pub launch-signals :
    (cfg : Config) (engine : Option Engine) (key m : String) (models : List String) (live : Bool)
    (now : ℕ)
    → signals (launch cfg engine key m models live now) ≡ (none, (false, true))
unfolding new_race_coordinator start
launch-signals cfg engine key m models live now =
    ap (λ s. (s.0, (s.1.0, true)))
      (signals-spawn main_attempt initial_info
        (new_race_coordinator cfg engine key (m ∷ models) "" live false))

signalled :
    (cfg : Config) (engine : Option Engine) (key m : String) (models : List String) (live : Bool)
    (now : ℕ) (events : List RaceEvent)
    → IsSignalled (signals (run_race (launch cfg engine key m models live now) events))
signalled cfg engine key m models live now events =
    let c = launch cfg engine key m models live now in
    subst (λ s. Follows s (signals (run_race c events)))
      (launch-signals cfg engine key m models live now) (run_race-Follows events c)
      (λ h. absurd (ground (arith, h)))

kept :
    (s t : Signals) (w : ℕ)
    → s.0 ≡ some w
    → IsSignalled s
    → Follows s t
    → (t.0 ≡ some w) × IsSignalled t
kept (none, s) t w e i f = absurd (ground (arith, e))
kept (some v, s) t w e i f = ((f i).0 ∙ e, (f i).1)

open_of_winner : (s : Signals) (w : ℕ) → s.0 ≡ some w → IsSignalled s → s.1.0 ≡ true
open_of_winner (none, s) w e i = absurd (ground (arith, e))
open_of_winner (some v, s) w e i = i

open_of_end : (s : Signals) → s.1.1 ≡ false → IsSignalled s → s.1.0 ≡ true
open_of_end (none, s) e i = i e
open_of_end (some v, s) e i = i

-- A race never changes its winner: once it has one, it has the same one after any further events, late
-- deadlines and answers of the other attempts among them, and the stream is open.
pub winner_stays :
    (cfg : Config) (engine : Option Engine) (key m : String) (models : List String) (live : Bool)
    (now : ℕ) (before after : List RaceEvent) (w : ℕ)
    → (run_race (launch cfg engine key m models live now) before).winner ≡ some w
    → let c = run_race (run_race (launch cfg engine key m models live now) before) after in
      (c.winner ≡ some w) × (c.stream_open ≡ true)
winner_stays cfg engine key m models live now before after w h =
    let c = run_race (launch cfg engine key m models live now) before in
    let i = signalled cfg engine key m models live now before in
    let found = kept (signals c) (signals (run_race c after)) w h i (run_race-Follows after c) in
    (found.0, open_of_winner (signals (run_race c after)) w found.0 found.1)

-- A handler does not wait for a race that nobody manages: in every state that a race reaches, when the
-- management has ended, by a winner, a failure of all attempts, a deadline or the end of the context,
-- the wait returns at once: with the winner if there is one, or with none when the context of the
-- request is done too.
pub wait_returns :
    (cfg : Config) (engine : Option Engine) (key m : String) (models : List String) (live : Bool)
    (now : ℕ) (events : List RaceEvent) (ended picks_context : Bool)
    → (run_race (launch cfg engine key m models live now) events).managing ≡ false
    → let c = run_race (launch cfg engine key m models live now) events in
      (wait_for_winner ended picks_context c ≡ some (get_winner c))
      ⊎ ((ended ≡ true) × (wait_for_winner ended picks_context c ≡ some none))
unfolding wait_for_winner
wait_returns cfg engine key m models live now events ended picks_context h =
    let c = run_race (launch cfg engine key m models live now) events in
    let opened = open_of_end (signals c) h (signalled cfg engine key m models live now events) in
    elim (Bool-cases (ended && picks_context)) [
      | inl e ↦ inr (ground (arith, e), ground (arith, e, opened))
      | inr e ↦ inl (ground (arith, e, opened))
    ]
