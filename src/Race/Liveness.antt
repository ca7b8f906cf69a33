-- ===== src/Race/Liveness.antt =====
-- pkg/proxy/race_coordinator.go, manage: the tick after every attempt has failed.
use llm_supervisor_proxy.CredentialLb.Engine.{Engine}
use llm_supervisor_proxy.CredentialLb.Select.{Others}
use llm_supervisor_proxy.Race.Bounds.{Sound, launch, launch-Sound, run_race-Sound}
use llm_supervisor_proxy.Race.Coordinator.{
  Config, RaceCoordinator, SpawnTriggerInfo, append_row, spawn, spawn_model, new_row,
}
use llm_supervisor_proxy.Race.Rows.{all_failed, model_attempt_count}
use llm_supervisor_proxy.Race.Failover.{CredFailoverPlan}
use llm_supervisor_proxy.Race.Manage.{
  Decision, no_spawn, spawn_idle, spawn_fallback, spawn_cred, after_choice, decide, failover_info,
  finish_if_failed, is_cred, note_failover, perform, spawn_phase, tick,
}
use llm_supervisor_proxy.Race.Events.{RaceEvent, run_race}
use llm_supervisor_proxy.Race.Progress.{
  Moves, decide-Moves, first_eligible-all_failed, length-spawn,
}
use llm_supervisor_proxy.Race.Refines.{
  Allowed, AllNamed, Named, latest-named, spawn_model-cred, spawn_model-fallback, spawned,
  successor-named,
}
use llm_supervisor_proxy.Race.Request.{
  UpstreamRequest, ModelType, fallback_attempt, cred_failover_attempt, is_done,
  new_upstream_request, set_use_secondary_upstream,
}
use llm_supervisor_proxy.Race.Shape.{shape}
use llm_supervisor_proxy.Race.Steps.{decide-Allowed}
use llm_supervisor_proxy.Race.Decisions.{Allowed-engine}
use llm_supervisor_proxy.Race.Winner.{tick-decided}
use llm_supervisor_proxy.Race.Window.{NoRepeat}
use llm_supervisor_proxy.Support.{
  ℕ, suc, ◌<◌, ◌≤◌, ◌≡◌, ◌≢◌, ◌⊎◌, refl, sym, ap, ◌∙◌, subst, Bool, true, false, String, List, [],
  ◌∷◌, ◌++◌, Option, none, some, Bool-cases, inl, inr, arith, length, ltb, leb, le→leb,
}

all_failed-append :
    (requests : List UpstreamRequest) (r : UpstreamRequest)
    → is_done r ≡ false
    → all_failed (requests ++ r ∷ []) ≡ false
unfolding all_failed
all_failed-append [] r h = ground (arith, h)
all_failed-append (q ∷ requests) r h = ground (arith, all_failed-append requests r h)

new_row-not_done :
    (t : ModelType) (info : SpawnTriggerInfo) (m : String) (c : RaceCoordinator)
    → is_done (new_row t info m c) ≡ false
unfolding is_done new_row new_upstream_request set_use_secondary_upstream
new_row-not_done t info m c = refl

-- After the spawn of a row the race is not all failed.
spawn-not_failed :
    (t : ModelType) (info : SpawnTriggerInfo) (m : String) (c : RaceCoordinator)
    → spawn_model t info.model_id (length c.requests) c.models ≡ some m
    → all_failed (spawn t info c).requests ≡ false
unfolding append_row
spawn-not_failed t info m c h =
    ap (λ d. all_failed d.requests) (spawned t info (some m) c h)
    ∙ all_failed-append c.requests (new_row t info m c) (new_row-not_done t info m c)

-- The race has ended, with both channels closed.
abbrev pub Ended : RaceCoordinator → Type 0
Ended c = (c.done ≡ true) × ((c.stream_open ≡ true) × (c.managing ≡ false))

abbrev pub Grown : RaceCoordinator → RaceCoordinator → Type 0
Grown c c' = length c'.requests ≡ suc (length c.requests)

finish-Ended :
    (n : ℕ) (c : RaceCoordinator)
    → length c.models ≤ n
    → all_failed c.requests ≡ true
    → Ended (finish_if_failed false n c)
unfolding finish_if_failed
finish-Ended n c l h = rw (h, le→leb (length c.models) n l) (refl, (refl, refl))

finish-not_failed :
    (n : ℕ) (c : RaceCoordinator) → all_failed c.requests ≡ false → finish_if_failed false n c ≡ c
unfolding finish_if_failed
finish-not_failed n c h = elim (Bool-cases (leb (length c.models) n)) [
  | inl e ↦ rw (e, h) refl
  | inr e ↦ rw e refl
]

finish-cred : (n : ℕ) (c : RaceCoordinator) → finish_if_failed true n c ≡ c
unfolding finish_if_failed
finish-cred n c = refl

fallback-Grown :
    (c : RaceCoordinator) (info : SpawnTriggerInfo) (n : ℕ)
    → info.model_id ≢ ""
    → ltb 1 (length c.models) ≡ true
    → Grown c (finish_if_failed false n (perform (spawn_fallback info) c))
unfolding perform
fallback-Grown c info n h e =
    let named = spawn_model-fallback info.model_id (length c.requests) c.models h e in
    rw
      (
        e,
        finish-not_failed n (spawn fallback_attempt info c)
            (spawn-not_failed fallback_attempt info info.model_id c named),
      )
      (length-spawn fallback_attempt info info.model_id c named)

cred-Grown :
    (c : RaceCoordinator) (p : CredFailoverPlan) (r : UpstreamRequest) (n : ℕ)
    → r.model_id ≢ ""
    → length c.models ≢ 0
    → Grown c (finish_if_failed true n (perform (spawn_cred p r) c))
unfolding perform finish_if_failed note_failover failover_info
cred-Grown c p r n h z =
    length-spawn cred_failover_attempt (failover_info p r c) r.model_id c
      (spawn_model-cred r.model_id (length c.requests) c.models h z)

perform-Moves :
    (c : RaceCoordinator) (d : Decision)
    → Named (shape c)
    → all_failed c.requests ≡ true
    → Allowed c d
    → Moves c d
    → let c' = finish_if_failed (is_cred d) (model_attempt_count c.requests) (perform d c) in
      Ended c' ⊎ Grown c c'
unfolding perform
perform-Moves c no_spawn n h a m = inl (finish-Ended (model_attempt_count c.requests) c m h)
perform-Moves c spawn_idle n h a m = absurd m
perform-Moves c (spawn_fallback info) n h (m, (l, (s, e))) t = inr (
    fallback-Grown c info (model_attempt_count c.requests)
      (successor-named m info.model_id c.models n.1.0 s) e)
perform-Moves c (spawn_cred p r) n h (l, b) t =
    inr (cred-Grown c p r (model_attempt_count c.requests) (latest-named c.requests r n.1.1 l) n.0)

Moves-engine :
    (c : RaceCoordinator) (e : Option Engine) (d : Decision)
    → Moves c d
    → Moves (record c { engine = e }) d
Moves-engine c e no_spawn m = m
Moves-engine c e spawn_idle m = m
Moves-engine c e (spawn_fallback info) m = m
Moves-engine c e (spawn_cred p r) m = m

spawn_phase-Moves :
    (others : Others) (now : ℕ) (c : RaceCoordinator)
    → 0 < c.cfg.race_max_parallel
    → Sound (shape c)
    → all_failed c.requests ≡ true
    → let c' = spawn_phase others now c in Ended c' ⊎ Grown c c'
unfolding spawn_phase
spawn_phase-Moves others now c p s h =
    let d = decide others now c in
    perform-Moves (record c { engine = d.1 }) d.0 s.0 h
      (Allowed-engine c d.1 d.0 (decide-Allowed others now c))
      (Moves-engine c d.1 d.0 (decide-Moves others now c p s.1.1.1 h))

tick-all_failed :
    (others : Others) (now : ℕ) (c : RaceCoordinator)
    → 0 < c.cfg.race_max_parallel
    → Sound (shape c)
    → c.winner ≡ none
    → all_failed c.requests ≡ true
    → let c' = tick others now c in Ended c' ⊎ Grown c c'
tick-all_failed others now c p s w h =
    subst (λ c'. Ended c' ⊎ Grown c c')
      (sym (
        tick-decided others now c none w
          (first_eligible-all_failed c.live_first_byte_gate c.requests h)
        ∙ ap (λ o. after_choice o others now c) w))
      (spawn_phase-Moves others now c p s h)

-- When a race over named models without a repetition has come to a state in which every attempt has
-- failed and there is no winner, the next tick does not leave it as it is, if at least one attempt may
-- run at a time: it ends the race and closes both channels, or it spawns exactly one more attempt.
pub no_stall :
    (cfg : Config) (engine : Option Engine) (key m : String) (models : List String) (live : Bool)
    (start_time : ℕ) (events : List RaceEvent) (others : Others) (now : ℕ)
    → AllNamed (m ∷ models)
    → NoRepeat (m ∷ models)
    → 0 < (run_race (launch cfg engine key m models live start_time) events).cfg.race_max_parallel
    → (run_race (launch cfg engine key m models live start_time) events).winner ≡ none
    → all_failed (run_race (launch cfg engine key m models live start_time) events).requests ≡ true
    → let c = run_race (launch cfg engine key m models live start_time) events in
      let c' = tick others now c in Ended c' ⊎ Grown c c'
no_stall cfg engine key m models live start_time events others now n r p w h =
    let c = launch cfg engine key m models live start_time in
    tick-all_failed others now (run_race c events) p
      (run_race-Sound events c (launch-Sound cfg engine key m models live start_time n r)) w h
