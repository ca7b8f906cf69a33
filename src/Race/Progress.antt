-- ===== src/Race/Progress.antt =====
-- pkg/proxy/race_coordinator.go, manage: a race whose attempts have all failed does not stall.
use llm_supervisor_proxy.CredentialLb.Select.{Others}
use llm_supervisor_proxy.Race.Coordinator.{
  RaceCoordinator, SpawnTriggerInfo, append_row, spawn, spawn_model,
}
use llm_supervisor_proxy.Race.Rows.{
  all_failed, has_error, latest, model_attempt_count, running_count,
}
use llm_supervisor_proxy.Race.Failover.{
  CredFailoverPlan, cred_failover_eligible, cred_failover_plan, fallback_advance_target, successor,
}
use llm_supervisor_proxy.Race.Manage.{
  Decision, no_spawn, spawn_idle, spawn_fallback, spawn_cred, advance_to, case_failed, decide,
  decide_plan, passes_gate, failed_case, failure_decision, main_idle, or_idle,
}
use llm_supervisor_proxy.Race.Refines.{spawned}
use llm_supervisor_proxy.Race.Request.{UpstreamRequest, ModelType, is_done, is_idle}
use llm_supervisor_proxy.Race.Shape.{model_rows-kinds, kinds, last_model, last_model-kinds, shape}
use llm_supervisor_proxy.Race.Winner.{first_eligible}
use llm_supervisor_proxy.Race.Window.{InWindow, Walks, place, some_injective}
use llm_supervisor_proxy.Support.{
  ℕ, suc, ◌<◌, ◌≤◌, ◌≡◌, ◌≢◌, refl, sym, ap, ◌∙◌, subst, Bool, true, false, ◌&&◌, ◌||◌, String,
  List, [], ◌∷◌, Option, none, some, Bool-cases, inl, inr, arith, length, length-append, ltb,
  str_eq,
}

-- A failed attempt passes neither gate.
pub first_eligible-all_failed :
    (live : Bool) (requests : List UpstreamRequest)
    → all_failed requests ≡ true
    → first_eligible live requests ≡ none
unfolding first_eligible all_failed passes_gate
first_eligible-all_failed live [] h = refl
first_eligible-all_failed live (r ∷ requests) h =
    ground (arith, h, first_eligible-all_failed live requests)

running_count-all_failed :
    (requests : List UpstreamRequest) → all_failed requests ≡ true → running_count requests ≡ 0
unfolding running_count all_failed
running_count-all_failed [] h = refl
running_count-all_failed (r ∷ requests) h = ground (arith, h, running_count-all_failed requests)

latest-all_failed :
    (requests : List UpstreamRequest) (r : UpstreamRequest)
    → all_failed requests ≡ true
    → latest requests ≡ some r
    → is_done r && has_error r ≡ true
unfolding latest all_failed
latest-all_failed [] r h l = absurd (ground (arith, l))
latest-all_failed (q ∷ []) r h l = ground (arith, h, l)
latest-all_failed (q ∷ s ∷ requests) r h l =
    latest-all_failed (s ∷ requests) r (ground (arith, h)) l

main_idle-all_failed :
    (now : ℕ) (c : RaceCoordinator) (requests : List UpstreamRequest)
    → all_failed requests ≡ true
    → main_idle now c requests ≡ false
unfolding main_idle all_failed is_done is_idle
main_idle-all_failed now c [] h = refl
main_idle-all_failed now c (r ∷ s ∷ requests) h = refl
main_idle-all_failed now c (r ∷ []) h = ground (arith, h)

place-last_later :
    (m a : String) (chain : List String)
    → str_eq a m ≡ false
    → place m (a ∷ chain) < length (a ∷ chain)
    → (place m chain < length chain → suc (place m chain) ≡ length chain)
    → suc (place m (a ∷ chain)) ≡ length (a ∷ chain)
unfolding place
place-last_later m a chain e p h = ground (arith, e, p, h)

-- The last model of the chain has no successor, and only it.
place-last :
    (m : String) (chain : List String)
    → place m chain < length chain
    → successor m chain ≡ none
    → suc (place m chain) ≡ length chain
unfolding place successor
place-last m [] p h = absurd (omega (arith, p))
place-last m (a ∷ []) p h = ground (arith, p, h)
place-last m (a ∷ b ∷ chain) p h = elim (Bool-cases (str_eq a m)) [
  | inl e ↦ absurd (ground (arith, e, h))
  | inr e ↦
      place-last_later m a (b ∷ chain) e p (λ q. place-last m (b ∷ chain) q (ground (arith, e, h)))
]

advance_none :
    (m : String) (models : List String)
    → fallback_advance_target m models ≡ none
    → successor m models ≡ none
unfolding fallback_advance_target successor
advance_none m [] h = refl
advance_none m (a ∷ []) h = refl
advance_none m (a ∷ b ∷ models) h = ground (arith, h)

-- At the end of the chain the window is full.
window_full :
    (c : RaceCoordinator) (r : UpstreamRequest)
    → Walks (shape c)
    → latest c.requests ≡ some r
    → fallback_advance_target r.model_id c.models ≡ none
    → length c.models ≤ model_attempt_count c.requests
window_full c r (m, (l, w)) e f =
    let w' =
      subst (InWindow (shape c)) (some_injective (sym l ∙ last_model-kinds c.requests r e)) w in
    omega (
      arith,
      w',
      place-last r.model_id c.models w'.0 (advance_none r.model_id c.models f),
      model_rows-kinds c.requests,
    )

-- What a decision does for a race whose attempts have all failed.
abbrev pub Moves : RaceCoordinator → Decision → Type 0
Moves c no_spawn = length c.models ≤ model_attempt_count c.requests
Moves c spawn_idle = ⊥
Moves c (spawn_fallback info) = Unit
Moves c (spawn_cred p r) = Unit

plan-Moves :
    (c : RaceCoordinator) (r : UpstreamRequest) (o : Option CredFailoverPlan)
    → Walks (shape c)
    → latest c.requests ≡ some r
    → Moves c (decide_plan o r c)
plan-Moves c r (some p) w l = tt
plan-Moves c r none w l = go (fallback_advance_target r.model_id c.models) refl
  where
    go :
        (o : Option String)
        → fallback_advance_target r.model_id c.models ≡ o
        → Moves c (advance_to o r c)
    go none h = window_full c r w l h
    go (some target) h = tt

failed_case-Moves :
    (others : Others) (now : ℕ) (c : RaceCoordinator) (o : Option UpstreamRequest)
    → Walks (shape c)
    → all_failed c.requests ≡ true
    → latest c.requests ≡ o
    → o ≢ none
    → Moves c (failed_case o others now c).0
unfolding failure_decision
failed_case-Moves others now c none w h l n = absurd (n refl)
failed_case-Moves others now c (some r) w h l n =
    rw (latest-all_failed c.requests r h l)
      (plan-Moves c r (cred_failover_plan others now r c).0 w l)

or_idle-Moves :
    (now : ℕ) (c : RaceCoordinator) (d : Decision)
    → all_failed c.requests ≡ true
    → Moves c d
    → Moves c (or_idle now c d)
unfolding or_idle
or_idle-Moves now c no_spawn h m = rw (main_idle-all_failed now c c.requests h) m
or_idle-Moves now c spawn_idle h m = m
or_idle-Moves now c (spawn_fallback info) h m = m
or_idle-Moves now c (spawn_cred p r) h m = m

latest-present :
    (requests : List UpstreamRequest) (m : String)
    → last_model (kinds requests) ≡ some m
    → latest requests ≢ none
unfolding last_model kinds latest
latest-present [] m h z = ground (arith, h)
latest-present (r ∷ []) m h z = ground (arith, z)
latest-present (r ∷ s ∷ requests) m h z = latest-present (s ∷ requests) m h z

pub decide-Moves :
    (others : Others) (now : ℕ) (c : RaceCoordinator)
    → 0 < c.cfg.race_max_parallel
    → Walks (shape c)
    → all_failed c.requests ≡ true
    → Moves c (decide others now c).0
unfolding decide case_failed
decide-Moves others now c p w h =
    elim (Bool-cases (
      (ltb (model_attempt_count c.requests) (length c.models) || cred_failover_eligible c)
      && ltb (running_count c.requests) c.cfg.race_max_parallel)) [
        | inl e ↦ rw e (
            or_idle-Moves now c _ h
              (failed_case-Moves others now c _ w h refl (latest-present c.requests w.0 w.1.0)))
        | inr e ↦ rw e (ground (arith, e, p, running_count-all_failed c.requests h))
      ]

pub length-spawn :
    (t : ModelType) (info : SpawnTriggerInfo) (m : String) (c : RaceCoordinator)
    → spawn_model t info.model_id (length c.requests) c.models ≡ some m
    → length (spawn t info c).requests ≡ suc (length c.requests)
unfolding append_row
length-spawn t info m c h =
    ap (λ d. length d.requests) (spawned t info (some m) c h)
    ∙ (length-append c.requests _ ∙ omega arith)
