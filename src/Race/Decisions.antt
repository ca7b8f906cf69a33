-- ===== src/Race/Decisions.antt =====
-- pkg/proxy/race_coordinator.go: every event of a race is a step of its abstract view.
use llm_supervisor_proxy.CredentialLb.Engine.{Engine}
use llm_supervisor_proxy.CredentialLb.Select.{Others}
use llm_supervisor_proxy.Race.Coordinator.{
  RaceCoordinator, cancel_all, cancel_all_except, execute_result, on_request,
}
use llm_supervisor_proxy.Race.Rows.{close_channels, all_failed, model_attempt_count}
use llm_supervisor_proxy.Race.Manage.{
  Decision, no_spawn, spawn_idle, spawn_fallback, spawn_cred, choose_for, choose_winner, decide,
  finish_if_failed, is_cred, perform, spawn_phase, tick, with_winner, after_choice,
}
use llm_supervisor_proxy.Race.Events.{
  RaceEvent, ticked, stream_deadline, hard_deadline, context_done, request_op, returned,
  deadline_for, deadline_pick, handle_hard_deadline, handle_streaming_deadline, no_content,
  race_step, while_managing, stop_managing,
}
use llm_supervisor_proxy.Race.Request.{RequestOp}
use llm_supervisor_proxy.Race.Refines.{Allowed, Named, perform-SpawnStep}
use llm_supervisor_proxy.Race.Shape.{SpawnStep, shape, kinds-cancel_loop, kinds-update_at}
use llm_supervisor_proxy.Support.{
  ℕ, ◌≡◌, refl, sym, ap, subst, Bool, not, ◌&&◌, Option, none, some, Bool-cases, inl, inr, length,
  leb, ◌==◌, if◌then◌else◌,
}
use llm_supervisor_proxy.Race.Steps.{decide-Allowed}

-- The engine is no part of what a decision rests on.
pub Allowed-engine :
    (c : RaceCoordinator) (e : Option Engine) (d : Decision)
    → Allowed c d
    → Allowed (record c { engine = e }) d
Allowed-engine c e no_spawn a = a
Allowed-engine c e spawn_idle a = a
Allowed-engine c e (spawn_fallback info) a = a
Allowed-engine c e (spawn_cred p r) a = a

shape-cancel : (w : Option ℕ) (c : RaceCoordinator) → shape (cancel_all_except w c) ≡ shape c
unfolding cancel_all_except
shape-cancel w c = ap (λ k. record (shape c) { rows = k }) (kinds-cancel_loop w 0 c.requests)

shape-on_request :
    (i : ℕ) (op : RequestOp) (c : RaceCoordinator) → shape (on_request i op c) ≡ shape c
unfolding on_request
shape-on_request i op c = ap (λ k. record (shape c) { rows = k }) (kinds-update_at i op c.requests)

shape-finish : (b : Bool) (n : ℕ) (c : RaceCoordinator) → shape (finish_if_failed b n c) ≡ shape c
unfolding finish_if_failed
shape-finish b n c =
    elim (Bool-cases (not b && (leb (length c.models) n && all_failed c.requests))) [
      | inl e ↦ rw e refl
      | inr e ↦ rw e refl
    ]

shape-choose : (o : Option ℕ) (c : RaceCoordinator) → shape (with_winner o c) ≡ shape c
shape-choose none c = refl
shape-choose (some w) c = refl

shape-choose_for : (o : Option ℕ) (c : RaceCoordinator) → shape (choose_for o c) ≡ shape c
shape-choose_for none c = shape-choose _ c
shape-choose_for (some w) c = refl

spawn_phase-SpawnStep :
    (others : Others) (now : ℕ) (c : RaceCoordinator)
    → Named (shape c)
    → SpawnStep (shape c) (shape (spawn_phase others now c))
unfolding spawn_phase
spawn_phase-SpawnStep others now c n =
    let d = decide others now c in
    subst (SpawnStep (shape c))
      (sym (
        shape-finish (is_cred d.0) (model_attempt_count c.requests)
          (perform d.0 (record c { engine = d.1 }))))
      (perform-SpawnStep d.0 (record c { engine = d.1 }) n
        (Allowed-engine c d.1 d.0 (decide-Allowed others now c)))

after_choice-SpawnStep :
    (o : Option ℕ) (others : Others) (now : ℕ) (c : RaceCoordinator)
    → Named (shape c)
    → SpawnStep (shape c) (shape (after_choice o others now c))
after_choice-SpawnStep none others now c n = spawn_phase-SpawnStep others now c n
after_choice-SpawnStep (some w) others now c n = SpawnStep.stays (sym (shape-cancel (some w) c))

tick-SpawnStep :
    (others : Others) (now : ℕ) (c : RaceCoordinator)
    → Named (shape c)
    → SpawnStep (shape c) (shape (tick others now c))
unfolding tick choose_winner
tick-SpawnStep others now c n =
    let c' = choose_for c.winner c in
    let same = shape-choose_for c.winner c in
    subst (λ s. SpawnStep s (shape (after_choice c'.winner others now c'))) same
      (after_choice-SpawnStep c'.winner others now c' (subst Named (sym same) n))

shape-deadline_pick :
    (c : RaceCoordinator) (o : Option (ℕ × ℕ)) → shape (deadline_pick c o) ≡ shape c
unfolding deadline_pick no_content cancel_all cancel_all_except
shape-deadline_pick c none = shape-cancel none c
shape-deadline_pick c (some b) = elim (Bool-cases (c.live_first_byte_gate && (b.1 == 0))) [
  | inl e ↦ rw e (shape-cancel none c)
  | inr e ↦ rw e (shape-cancel (some b.0) c)
]

shape-deadline_for : (o : Option ℕ) (c : RaceCoordinator) → shape (deadline_for o c) ≡ shape c
shape-deadline_for none c = shape-deadline_pick c _
shape-deadline_for (some w) c = refl

while-SpawnStep :
    (c c' : RaceCoordinator)
    → SpawnStep (shape c) (shape c')
    → SpawnStep (shape c) (shape (while_managing c c'))
while-SpawnStep c c' s = elim (Bool-cases c.managing) [
  | inl e ↦ subst (λ b. SpawnStep (shape c) (shape (if b then c' else c))) (sym e) s
  | inr e ↦
      subst (λ b. SpawnStep (shape c) (shape (if b then c' else c))) (sym e) (SpawnStep.stays refl)
]

-- Every event of a race whose chain and rows are named, a tick, a deadline, the end of the context or
-- anything that an attempt's executor does, is a step of the abstract view: it spawns nothing, rotates
-- the latest model within its budget, advances to the next model of the chain, or doubles the first
-- attempt.
pub race_step-SpawnStep :
    (c : RaceCoordinator) (e : RaceEvent)
    → Named (shape c)
    → SpawnStep (shape c) (shape (race_step c e))
unfolding race_step handle_streaming_deadline handle_hard_deadline cancel_all execute_result
race_step-SpawnStep c (ticked others now) n =
    while-SpawnStep c (tick others now c) (tick-SpawnStep others now c n)
race_step-SpawnStep c stream_deadline n =
    while-SpawnStep c (stop_managing (handle_streaming_deadline c))
      (SpawnStep.stays (sym (shape-deadline_for c.winner c)))
race_step-SpawnStep c hard_deadline n =
    while-SpawnStep c (stop_managing (handle_hard_deadline c))
      (SpawnStep.stays (sym (shape-cancel none c)))
race_step-SpawnStep c context_done n =
    while-SpawnStep c (stop_managing (close_channels (cancel_all c)))
      (SpawnStep.stays (sym (shape-cancel none c)))
race_step-SpawnStep c (request_op i op) n = SpawnStep.stays (sym (shape-on_request i op c))
race_step-SpawnStep c (returned i (some err) now) n =
    SpawnStep.stays (sym (shape-on_request i (RequestOp.broke err now) c))
race_step-SpawnStep c (returned i none now) n =
    SpawnStep.stays (sym (shape-on_request i (RequestOp.finished now) c))
