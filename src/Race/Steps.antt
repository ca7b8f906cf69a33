-- ===== src/Race/Steps.antt =====
-- pkg/proxy/race_coordinator.go: what the decision of a tick rests on.
use llm_supervisor_proxy.CredentialLb.Select.{Others}
use llm_supervisor_proxy.Race.Coordinator.{RaceCoordinator}
use llm_supervisor_proxy.Race.Rows.{has_error, latest, model_attempt_count, running_count}
use llm_supervisor_proxy.Race.Failover.{
  CredFailoverPlan, count_of, cred_failover_eligible, cred_failover_plan, fallback_advance_target,
  model_budget, row_eligible,
}
use llm_supervisor_proxy.Race.Manage.{
  Decision, no_spawn, spawn_idle, spawn_fallback, spawn_cred, case_failed, failed_case, decide_plan,
  advance_to, decide, failure_decision, main_idle, or_idle,
}
use llm_supervisor_proxy.Race.Request.{UpstreamRequest, is_done}
use llm_supervisor_proxy.Race.Refines.{Allowed}
use llm_supervisor_proxy.Race.Shape.{last_model-kinds}
use llm_supervisor_proxy.Support.{
  ℕ, ◌<◌, ◌≡◌, refl, true, ◌&&◌, ◌||◌, String, List, [], ◌∷◌, Option, none, some, Bool-cases, inl,
  inr, arith, length, ltb,
}

plan_eligible :
    (others : Others) (now : ℕ) (r : UpstreamRequest) (c : RaceCoordinator) (p : CredFailoverPlan)
    → (cred_failover_plan others now r c).0 ≡ some p
    → cred_failover_eligible c ≡ true
unfolding cred_failover_plan
plan_eligible others now r c p h = elim (Bool-cases (cred_failover_eligible c)) [
  | inl e ↦ e
  | inr e ↦ absurd (ground (arith, e, h))
]

-- The budget that an eligible failure has left.
eligible_budget :
    (r : UpstreamRequest) (c : RaceCoordinator)
    → latest c.requests ≡ some r
    → cred_failover_eligible c ≡ true
    → count_of r.model_id c.failover_attempts_by_model < model_budget c.cfg r.model_id
unfolding cred_failover_eligible row_eligible
eligible_budget r c l h = ground (arith, l, h)

advance-Allowed :
    (r : UpstreamRequest) (c : RaceCoordinator) (o : Option String)
    → latest c.requests ≡ some r
    → fallback_advance_target r.model_id c.models ≡ o
    → Allowed c (advance_to o r c)
unfolding fallback_advance_target
advance-Allowed r c none l h = tt
advance-Allowed r c (some target) l h =
    (r.model_id, (last_model-kinds c.requests r l, (ground (arith, h), ground (arith, h))))

plan-Allowed :
    (r : UpstreamRequest) (c : RaceCoordinator) (o : Option CredFailoverPlan)
    → latest c.requests ≡ some r
    → ((p : CredFailoverPlan) → o ≡ some p → cred_failover_eligible c ≡ true)
    → Allowed c (decide_plan o r c)
plan-Allowed r c none l h = advance-Allowed r c _ l refl
plan-Allowed r c (some p) l h = (l, eligible_budget r c l (h p refl))

failed_case-Allowed :
    (others : Others) (now : ℕ) (c : RaceCoordinator) (o : Option UpstreamRequest)
    → latest c.requests ≡ o
    → Allowed c (failed_case o others now c).0
unfolding failure_decision
failed_case-Allowed others now c none l = tt
failed_case-Allowed others now c (some r) l = elim (Bool-cases (is_done r && has_error r)) [
  | inl e ↦ rw e (
      plan-Allowed r c (cred_failover_plan others now r c).0 l
        (λ p h. plan_eligible others now r c p h))
  | inr e ↦ rw e tt
]

main_idle_single :
    (now : ℕ) (c : RaceCoordinator) (requests : List UpstreamRequest)
    → main_idle now c requests ≡ true
    → length requests ≡ 1
unfolding main_idle
main_idle_single now c [] h = absurd (ground (arith, h))
main_idle_single now c (r ∷ []) h = refl
main_idle_single now c (r ∷ s ∷ requests) h = absurd (ground (arith, h))

or_idle-Allowed :
    (now : ℕ) (c : RaceCoordinator) (d : Decision) → Allowed c d → Allowed c (or_idle now c d)
unfolding or_idle
or_idle-Allowed now c no_spawn a = elim (Bool-cases (main_idle now c c.requests)) [
  | inl e ↦ rw e (main_idle_single now c c.requests e)
  | inr e ↦ rw e tt
]
or_idle-Allowed now c spawn_idle a = a
or_idle-Allowed now c (spawn_fallback info) a = a
or_idle-Allowed now c (spawn_cred p r) a = a

pub decide-Allowed :
    (others : Others) (now : ℕ) (c : RaceCoordinator) → Allowed c (decide others now c).0
unfolding decide case_failed
decide-Allowed others now c =
    elim (Bool-cases (
      (ltb (model_attempt_count c.requests) (length c.models) || cred_failover_eligible c)
      && ltb (running_count c.requests) c.cfg.race_max_parallel)) [
        | inl e ↦ rw e (or_idle-Allowed now c _ (failed_case-Allowed others now c _ refl))
        | inr e ↦ rw e tt
      ]
