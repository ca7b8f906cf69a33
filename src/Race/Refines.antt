-- ===== src/Race/Refines.antt =====
-- pkg/proxy/race_coordinator.go: every step of a race is a step of its abstract view.
use llm_supervisor_proxy.Race.Coordinator.{
  RaceCoordinator, SpawnTriggerInfo, append_row, model_at, new_row, spawn, spawn_model,
}
use llm_supervisor_proxy.Race.Rows.{latest}
use llm_supervisor_proxy.Race.Failover.{CredFailoverPlan, count_of, model_budget, successor}
use llm_supervisor_proxy.Race.Manage.{
  Decision, no_spawn, spawn_idle, spawn_fallback, spawn_cred, failover_info, idle_info,
  note_failover, perform, spawn_fallback_row,
}
use llm_supervisor_proxy.Race.Request.{
  UpstreamRequest, ModelType, second_attempt, fallback_attempt, cred_failover_attempt,
  new_upstream_request, set_use_secondary_upstream,
}
use llm_supervisor_proxy.Race.Shape.{
  Shape, SpawnStep, Kind, kinds, shape, add_row, bump, last_model, kinds-append, last_model-kinds,
  length-kinds,
}
use llm_supervisor_proxy.Support.{
  ℕ, ◌<◌, ◌≡◌, ◌≢◌, refl, sym, ap, ◌∙◌, true, false, String, List, [], ◌∷◌, Option, none, some,
  Bool-cases, inl, inr, arith, length, ltb, str_eq, str_eq→eq, dec_str,
}

-- No name of a model is empty.
abbrev pub AllNamed : List String → Type 0
AllNamed [] = Unit
AllNamed (m ∷ models) = (m ≢ "") × AllNamed models

abbrev pub RowsNamed : List Kind → Type 0
RowsNamed [] = Unit
RowsNamed (k ∷ rows) = (k.1 ≢ "") × RowsNamed rows

pub str_eq_empty : (m : String) → m ≢ "" → str_eq m "" ≡ false
str_eq_empty m n = elim (Bool-cases (str_eq m "")) [
  | inl e ↦ absurd (n (str_eq→eq m "" e))
  | inr e ↦ e
]

shape-append_row :
    (m_type : ModelType) (info : SpawnTriggerInfo) (o : Option String) (m : String)
    (c : RaceCoordinator)
    → o ≡ some m
    → shape (append_row m_type info o c) ≡ add_row m_type m (shape c)
unfolding append_row new_row new_upstream_request set_use_secondary_upstream
shape-append_row m_type info o m c h =
    ap (λ p. shape (append_row m_type info p c)) h
    ∙ ap (λ k. record (shape c) { rows = k }) (kinds-append c.requests (new_row m_type info m c))

pub shape-spawn :
    (m_type : ModelType) (info : SpawnTriggerInfo) (m : String) (c : RaceCoordinator)
    → spawn_model m_type info.model_id (length c.requests) c.models ≡ some m
    → shape (spawn m_type info c) ≡ add_row m_type m (shape c)
unfolding spawn
shape-spawn m_type info m c h = shape-append_row m_type info _ m c h

pub spawn_model-fallback :
    (asked : String) (idx : ℕ) (models : List String)
    → asked ≢ ""
    → ltb 1 (length models) ≡ true
    → spawn_model fallback_attempt asked idx models ≡ some asked
unfolding spawn_model
spawn_model-fallback asked idx models n h = rw (str_eq_empty asked n) (ground (arith, h))

pub spawn_model-cred :
    (asked : String) (idx : ℕ) (models : List String)
    → asked ≢ ""
    → length models ≢ 0
    → spawn_model cred_failover_attempt asked idx models ≡ some asked
unfolding spawn_model
spawn_model-cred asked idx models n h = rw (str_eq_empty asked n) (ground (arith, h))

-- The two models of an idle spawn.
abbrev TwoModels : List String → Type 0
TwoModels models =
    (m : String) × ((next : String) × ((model_at 0 models ≡ some m)
        × ((model_at 1 models ≡ some next)
            × ((spawn_model second_attempt "" 1 models ≡ some m)
                × ((i : ℕ) → spawn_model fallback_attempt "" i models ≡ some next)))))

two_models : (models : List String) → ltb 1 (length models) ≡ true → TwoModels models
unfolding spawn_model dec_str
two_models [] h = absurd (ground (arith, h))
two_models (m ∷ []) h = absurd (ground (arith, h))
two_models (m ∷ next ∷ models) h = (m, (next, (refl, (refl, (ground arith, λ i. ground arith)))))

-- What a decision rests on.
abbrev pub Allowed : RaceCoordinator → Decision → Type 0
Allowed c no_spawn = Unit
Allowed c spawn_idle = length c.requests ≡ 1
Allowed c (spawn_fallback info) =
    (m : String) × ((last_model (kinds c.requests) ≡ some m)
      × ((successor m c.models ≡ some info.model_id) × (ltb 1 (length c.models) ≡ true)))
Allowed c (spawn_cred p r) =
    (latest c.requests ≡ some r)
    × (count_of r.model_id c.failover_attempts_by_model < model_budget c.cfg r.model_id)

pub successor-named :
    (m next : String) (models : List String)
    → AllNamed models
    → successor m models ≡ some next
    → next ≢ ""
unfolding successor
successor-named m next [] n h = absurd (ground (arith, h))
successor-named m next (a ∷ []) n h = absurd (ground (arith, h))
successor-named m next (a ∷ b ∷ models) n h = elim (Bool-cases (str_eq a m)) [
  | inl e ↦ λ z. n.1.0 (ground (arith, e, h, z))
  | inr e ↦ successor-named m next (b ∷ models) n.1 (ground (arith, e, h))
]

pub latest-named :
    (requests : List UpstreamRequest) (r : UpstreamRequest)
    → RowsNamed (kinds requests)
    → latest requests ≡ some r
    → r.model_id ≢ ""
unfolding latest kinds
latest-named [] r n h = absurd (ground (arith, h))
latest-named (q ∷ []) r n h = λ z. n.0 (ground (arith, h, z))
latest-named (q ∷ s ∷ requests) r n h = latest-named (s ∷ requests) r n.1 h

pub spawned :
    (m_type : ModelType) (info : SpawnTriggerInfo) (o : Option String) (c : RaceCoordinator)
    → spawn_model m_type info.model_id (length c.requests) c.models ≡ o
    → spawn m_type info c ≡ append_row m_type info o c
unfolding spawn
spawned m_type info o c h = ap (λ p. append_row m_type info p c) h

-- The fallback beside a second attempt that is there.
idle_pair :
    (c : RaceCoordinator) (m next : String)
    → ltb 1 (length c.models) ≡ true
    → ((i : ℕ) → spawn_model fallback_attempt "" i c.models ≡ some next)
    → add_row fallback_attempt next (add_row second_attempt m (shape c))
      ≡ shape (spawn_fallback_row idle_info (append_row second_attempt idle_info (some m) c))
unfolding append_row
idle_pair c m next e f = rw e (
    ap (add_row fallback_attempt next)
      (sym (shape-append_row second_attempt idle_info (some m) m c refl))
    ∙ sym (
        shape-spawn fallback_attempt idle_info next (append_row second_attempt idle_info (some m) c)
          (f _)))

idle_none :
    (c : RaceCoordinator)
    → ltb 1 (length c.models) ≡ false
    → shape c ≡ shape (spawn_fallback_row idle_info (append_row second_attempt idle_info none c))
unfolding append_row
idle_none c e = rw e refl

no_second :
    (idx : ℕ) (models : List String)
    → idx ≡ 1
    → ltb 1 (length models) ≡ false
    → spawn_model second_attempt "" idx models ≡ none
unfolding spawn_model
no_second idx models i e = ground (arith, i, e)

perform-doubles :
    (c : RaceCoordinator)
    → length c.requests ≡ 1
    → ltb 1 (length c.models) ≡ true
    → TwoModels c.models
    → SpawnStep (shape c) (shape (perform spawn_idle c))
unfolding perform
perform-doubles c l e (m, (next, (zeroth, (first, (second, fallback))))) =
    SpawnStep.doubles m next (length-kinds c.requests ∙ l) zeroth first (
      idle_pair c m next e fallback
      ∙ ap (λ d. shape (spawn_fallback_row idle_info d))
          (sym (
            spawned second_attempt idle_info (some m) c
              (ap (λ i. spawn_model second_attempt "" i c.models) l ∙ second))))

perform-idle :
    (c : RaceCoordinator)
    → length c.requests ≡ 1
    → SpawnStep (shape c) (shape (perform spawn_idle c))
unfolding perform
perform-idle c l = elim (Bool-cases (ltb 1 (length c.models))) [
  | inl e ↦ perform-doubles c l e (two_models c.models e)
  | inr e ↦ SpawnStep.stays (
      idle_none c e
      ∙ ap (λ d. shape (spawn_fallback_row idle_info d))
          (sym
            (spawned second_attempt idle_info none c (no_second (length c.requests) c.models l e))))
]

perform-fallback :
    (c : RaceCoordinator) (info : SpawnTriggerInfo)
    → AllNamed c.models
    → Allowed c (spawn_fallback info)
    → SpawnStep (shape c) (shape (perform (spawn_fallback info) c))
unfolding perform
perform-fallback c info n (m, (l, (s, e))) = rw e (
    SpawnStep.advances m info.model_id l s (
      sym (
        shape-spawn fallback_attempt info info.model_id c (
          spawn_model-fallback info.model_id (length c.requests) c.models
            (successor-named m info.model_id c.models n s) e))))

perform-cred :
    (c : RaceCoordinator) (p : CredFailoverPlan) (r : UpstreamRequest)
    → length c.models ≢ 0
    → RowsNamed (kinds c.requests)
    → Allowed c (spawn_cred p r)
    → SpawnStep (shape c) (shape (perform (spawn_cred p r) c))
unfolding perform note_failover failover_info
perform-cred c p r z n (l, b) = SpawnStep.rotates r.model_id (last_model-kinds c.requests r l) b (
    ap (bump r.model_id) (
      sym (
        shape-spawn cred_failover_attempt (failover_info p r c) r.model_id c (
          spawn_model-cred r.model_id (length c.requests) c.models (latest-named c.requests r n l)
            z))))

-- What a race knows of its names: there is a chain, and no model of it or of a row is unnamed.
abbrev pub Named : Shape → Type 0
Named s = (length s.chain ≢ 0) × (AllNamed s.chain × RowsNamed s.rows)

pub perform-SpawnStep :
    (d : Decision) (c : RaceCoordinator)
    → Named (shape c)
    → Allowed c d
    → SpawnStep (shape c) (shape (perform d c))
unfolding perform
perform-SpawnStep no_spawn c n a = SpawnStep.stays refl
perform-SpawnStep spawn_idle c n a = perform-idle c a
perform-SpawnStep (spawn_fallback info) c n a = perform-fallback c info n.1.0 a
perform-SpawnStep (spawn_cred p r) c n a = perform-cred c p r n.0 n.1.1 a
