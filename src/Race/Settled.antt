-- ===== src/Race/Settled.antt =====
-- pkg/proxy/race_coordinator.go: what the hard deadline reaches.
use llm_supervisor_proxy.CredentialLb.Engine.{Engine}
use llm_supervisor_proxy.CredentialLb.Select.{Others}
use llm_supervisor_proxy.Race.Bounds.{launch}
use llm_supervisor_proxy.Race.Channels.{finish-signals, signals-perform}
use llm_supervisor_proxy.Race.Waiting.{launch-signals}
use llm_supervisor_proxy.Race.Coordinator.{Config, RaceCoordinator, execute_result, on_request}
use llm_supervisor_proxy.Race.Rows.{model_attempt_count}
use llm_supervisor_proxy.Race.Manage.{
  after_choice, choose_winner, decide, is_cred, perform, spawn_phase, tick,
}
use llm_supervisor_proxy.Race.Events.{
  RaceEvent, ticked, stream_deadline, hard_deadline, context_done, request_op, returned, race_step,
  run_race, while_managing,
}
use llm_supervisor_proxy.Support.{
  ℕ, ◌≡◌, ◌⊎◌, refl, sym, ap, ◌∙◌, subst, Bool, false, String, List, [], ◌∷◌, Option, none, some,
  Bool-cases, inl, inr, arith, if◌then◌else◌,
}

-- A race has no winner, or nobody manages it.
abbrev pub IsSettled : RaceCoordinator → Type 0
IsSettled c = (c.winner ≡ none) ⊎ (c.managing ≡ false)

spawn_phase-winner :
    (others : Others) (now : ℕ) (c : RaceCoordinator) → (spawn_phase others now c).winner ≡ c.winner
unfolding spawn_phase
spawn_phase-winner others now c =
    let d = decide others now c in
    let c1 = record c { engine = d.1 } in
    let c2 = perform d.0 c1 in
    elim (finish-signals (is_cred d.0) (model_attempt_count c.requests) c2) [
      | inl e ↦ ap (λ s. s.0) (e ∙ signals-perform d.0 c1)
      | inr e ↦ ap (λ s. s.0) e ∙ ap (λ s. s.0) (signals-perform d.0 c1)
    ]

after_choice-IsSettled :
    (o : Option ℕ) (others : Others) (now : ℕ) (c : RaceCoordinator)
    → c.winner ≡ o
    → IsSettled (after_choice o others now c)
after_choice-IsSettled none others now c e = inl (spawn_phase-winner others now c ∙ e)
after_choice-IsSettled (some w) others now c e = inr refl

tick-IsSettled : (others : Others) (now : ℕ) (c : RaceCoordinator) → IsSettled (tick others now c)
unfolding tick
tick-IsSettled others now c =
    let c' = choose_winner c in after_choice-IsSettled c'.winner others now c' refl

while-IsSettled :
    (c c' : RaceCoordinator) → IsSettled c → IsSettled c' → IsSettled (while_managing c c')
while-IsSettled c c' i j = elim (Bool-cases c.managing) [
  | inl e ↦ subst (λ b. IsSettled (if b then c' else c)) (sym e) j
  | inr e ↦ subst (λ b. IsSettled (if b then c' else c)) (sym e) i
]

race_step-IsSettled :
    (c : RaceCoordinator) (e : RaceEvent) → IsSettled c → IsSettled (race_step c e)
unfolding race_step execute_result on_request
race_step-IsSettled c (ticked others now) i =
    while-IsSettled c (tick others now c) i (tick-IsSettled others now c)
race_step-IsSettled c stream_deadline i = while-IsSettled c _ i (inr refl)
race_step-IsSettled c hard_deadline i = while-IsSettled c _ i (inr refl)
race_step-IsSettled c context_done i = while-IsSettled c _ i (inr refl)
race_step-IsSettled c (request_op j op) i = i
race_step-IsSettled c (returned j (some err) now) i = i
race_step-IsSettled c (returned j none now) i = i

run_race-IsSettled :
    (events : List RaceEvent) (c : RaceCoordinator) → IsSettled c → IsSettled (run_race c events)
unfolding run_race
run_race-IsSettled [] c i = i
run_race-IsSettled (e ∷ events) c i =
    run_race-IsSettled events (race_step c e) (race_step-IsSettled c e i)

unmanaged : (c c' : RaceCoordinator) → c.managing ≡ false → while_managing c c' ≡ c
unmanaged c c' h = ap (λ b. if b then c' else c) h

not_none : (o : Option ℕ) (w : ℕ) → o ≡ some w → o ≡ none → ⊥
not_none o w h e = ground (arith, h, e)

-- Once a race has a winner, the hard deadline changes nothing: the management, which alone serves its
-- timer, has ended, so the winner is not cancelled by it.
pub hard_deadline-unserved :
    (cfg : Config) (engine : Option Engine) (key m : String) (models : List String) (live : Bool)
    (now : ℕ) (events : List RaceEvent) (w : ℕ)
    → (run_race (launch cfg engine key m models live now) events).winner ≡ some w
    → let c = run_race (launch cfg engine key m models live now) events in
      race_step c hard_deadline ≡ c
unfolding race_step
hard_deadline-unserved cfg engine key m models live now events w h =
    let c0 = launch cfg engine key m models live now in
    let c = run_race c0 events in
    elim (run_race-IsSettled events c0
      (inl (ap (λ s. s.0) (launch-signals cfg engine key m models live now)))) [
        | inl e ↦ absurd (not_none c.winner w h e)
        | inr e ↦ unmanaged c _ e
      ]
