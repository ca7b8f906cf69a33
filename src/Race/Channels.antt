-- ===== src/Race/Channels.antt =====
-- pkg/proxy/race_coordinator.go: the winner and the two channels over a whole race.
use llm_supervisor_proxy.CredentialLb.Select.{Others}
use llm_supervisor_proxy.Race.Coordinator.{
  RaceCoordinator, SpawnTriggerInfo, append_row, cancel_all, cancel_all_except, spawn,
}
use llm_supervisor_proxy.Race.Rows.{all_failed, model_attempt_count}
use llm_supervisor_proxy.Race.Manage.{
  Decision, no_spawn, spawn_idle, spawn_fallback, spawn_cred, after_choice, choose_for,
  choose_winner, decide, finish_if_failed, idle_info, is_cred, note_failover, perform,
  spawn_fallback_row, spawn_phase, tick, winner_loop, with_winner, failover_info,
}
use llm_supervisor_proxy.Race.Events.{
  best_loop, deadline_for, deadline_pick, no_content, stop_managing,
}
use llm_supervisor_proxy.Race.Request.{
  ModelType, second_attempt, fallback_attempt, cred_failover_attempt,
}
use llm_supervisor_proxy.Support.{
  ℕ, ◌≡◌, ◌⊎◌, refl, sym, ap, ◌∙◌, subst, Bool, true, false, not, ◌&&◌, String, Option, none, some,
  Bool-cases, inl, inr, arith, length, leb, ltb, ◌==◌,
}

-- The winner, the channel of the stream, and whether manage still runs.
abbrev pub Signals : Type 0
Signals = Option ℕ × (Bool × Bool)

abbrev pub signals : RaceCoordinator → Signals
signals c = (c.winner, (c.stream_open, c.managing))

-- Once manage has returned, or there is a winner, the stream's channel is closed.
abbrev pub IsSignalled : Signals → Type 0
IsSignalled (none, (open_flag, managing)) = (managing ≡ false) → open_flag ≡ true
IsSignalled (some w, (open_flag, managing)) = open_flag ≡ true

-- What a step may do: it keeps a winner, and it keeps or restores the rule.
abbrev pub Follows : Signals → Signals → Type 0
Follows (none, s) t = IsSignalled (none, s) → IsSignalled t
Follows (some w, s) t = IsSignalled (some w, s) → (t.0 ≡ some w) × IsSignalled t

pub Follows-refl : (s : Signals) → Follows s s
Follows-refl (none, s) = λ h. h
Follows-refl (some w, s) = λ h. (refl, h)

signals-append_row :
    (t : ModelType) (info : SpawnTriggerInfo) (o : Option String) (c : RaceCoordinator)
    → signals (append_row t info o c) ≡ signals c
unfolding append_row
signals-append_row t info none c = refl
signals-append_row t info (some m) c = refl

pub signals-spawn :
    (t : ModelType) (info : SpawnTriggerInfo) (c : RaceCoordinator)
    → signals (spawn t info c) ≡ signals c
unfolding spawn
signals-spawn t info c = signals-append_row t info _ c

signals-fallback :
    (info : SpawnTriggerInfo) (c : RaceCoordinator)
    → signals (spawn_fallback_row info c) ≡ signals c
signals-fallback info c = elim (Bool-cases (ltb 1 (length c.models))) [
  | inl e ↦ rw e (signals-spawn fallback_attempt info c)
  | inr e ↦ rw e refl
]

pub signals-perform : (d : Decision) (c : RaceCoordinator) → signals (perform d c) ≡ signals c
unfolding perform note_failover
signals-perform no_spawn c = refl
signals-perform spawn_idle c =
    signals-fallback idle_info (spawn second_attempt idle_info c)
    ∙ signals-spawn second_attempt idle_info c
signals-perform (spawn_fallback info) c = signals-fallback info c
signals-perform (spawn_cred p r) c = signals-spawn cred_failover_attempt (failover_info p r c) c

pub finish-signals :
    (b : Bool) (n : ℕ) (c : RaceCoordinator)
    → (signals (finish_if_failed b n c) ≡ signals c)
      ⊎ (signals (finish_if_failed b n c) ≡ (c.winner, (true, false)))
unfolding finish_if_failed
finish-signals b n c =
    elim (Bool-cases (not b && (leb (length c.models) n && all_failed c.requests))) [
      | inl e ↦ rw e (inr refl)
      | inr e ↦ rw e (inl refl)
    ]

Follows-eq : (s t : Signals) → s ≡ t → Follows s t
Follows-eq s t e = subst (Follows s) e (Follows-refl s)

-- A step that keeps the winner and opens the stream follows the rule.
pub Follows-open : (s : Signals) (managing : Bool) → Follows s (s.0, (true, managing))
Follows-open (none, s) managing = λ h g. refl
Follows-open (some w, s) managing = λ h. (refl, refl)

-- A choice made where there was no winner.
Follows-choice :
    (s : Signals) (w : ℕ) (managing : Bool) → s.0 ≡ none → Follows s (some w, (true, managing))
Follows-choice (none, s) w managing e = λ h. refl
Follows-choice (some v, s) w managing e = absurd (ground (arith, e))

-- Management may end when there is a winner.
Follows-stop : (s : Signals) (w : ℕ) → s.0 ≡ some w → Follows s (s.0, (s.1.0, false))
Follows-stop (none, s) w e = absurd (ground (arith, e))
Follows-stop (some v, s) w e = λ h. (refl, h)

spawn_phase-Follows :
    (others : Others) (now : ℕ) (c : RaceCoordinator)
    → Follows (signals c) (signals (spawn_phase others now c))
unfolding spawn_phase
spawn_phase-Follows others now c =
    let d = decide others now c in
    let c1 = record c { engine = d.1 } in
    let c2 = perform d.0 c1 in
    let same = signals-perform d.0 c1 in
    elim (finish-signals (is_cred d.0) (model_attempt_count c.requests) c2) [
      | inl e ↦ Follows-eq (signals c) _ (sym (e ∙ same))
      | inr e ↦
          subst (Follows (signals c)) (ap (λ s. (s.0, (true, false))) (sym same) ∙ sym e)
            (Follows-open (signals c) false)
    ]

-- The rest of a tick, when the winner is the one that the coordinator has.
after_choice-Follows :
    (o : Option ℕ) (others : Others) (now : ℕ) (c : RaceCoordinator)
    → c.winner ≡ o
    → Follows (signals c) (signals (after_choice o others now c))
unfolding cancel_all_except
after_choice-Follows none others now c e = spawn_phase-Follows others now c
after_choice-Follows (some w) others now c e = Follows-stop (signals c) w e

choose_for-Follows :
    (o : Option ℕ) (c : RaceCoordinator)
    → c.winner ≡ o
    → Follows (signals c) (signals (choose_for o c))
choose_for-Follows (some w) c e = Follows-refl (signals c)
choose_for-Follows none c e = go (winner_loop c.live_first_byte_gate 0 none c.requests)
  where
    go : (p : Option ℕ) → Follows (signals c) (signals (with_winner p c))
    go none = Follows-refl (signals c)
    go (some w) = Follows-choice (signals c) w c.managing e

pub Follows-trans : (s t u : Signals) → Follows s t → Follows t u → Follows s u
Follows-trans (none, s) (none, t) u f g = λ h. g (f h)
Follows-trans (none, s) (some w, t) u f g = λ h. (g (f h)).1
Follows-trans (some w, s) (none, t) u f g = λ h. absurd (ground (arith, (f h).0))
Follows-trans (some w, s) (some v, t) u f g = λ h. ((g (f h).1).0 ∙ (f h).0, (g (f h).1).1)

pub tick-Follows :
    (others : Others) (now : ℕ) (c : RaceCoordinator)
    → Follows (signals c) (signals (tick others now c))
unfolding tick choose_winner
tick-Follows others now c =
    let c' = choose_for c.winner c in
    Follows-trans (signals c) (signals c') _ (choose_for-Follows c.winner c refl)
      (after_choice-Follows c'.winner others now c' refl)

pub deadline_for-Follows :
    (o : Option ℕ) (c : RaceCoordinator)
    → c.winner ≡ o
    → Follows (signals c) (signals (stop_managing (deadline_for o c)))
unfolding deadline_pick no_content cancel_all cancel_all_except
deadline_for-Follows (some w) c e = Follows-stop (signals c) w e
deadline_for-Follows none c e = go (best_loop 0 none c.requests)
  where
    go : (b : Option (ℕ × ℕ)) → Follows (signals c) (signals (stop_managing (deadline_pick c b)))
    go none = Follows-open (signals c) false
    go (some b) = elim (Bool-cases (c.live_first_byte_gate && (b.1 == 0))) [
      | inl g ↦ rw g (Follows-open (signals c) false)
      | inr g ↦ rw g (Follows-choice (signals c) b.0 false e)
    ]
