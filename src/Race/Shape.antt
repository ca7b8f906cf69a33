-- ===== src/Race/Shape.antt =====
-- pkg/proxy/race_coordinator.go: the abstract view of a race, which attempts it has spawned and how
-- often each model has moved to another credential, and the steps it may take.
use llm_supervisor_proxy.Race.Coordinator.{RaceCoordinator, cancel_loop, model_at, update_at}
use llm_supervisor_proxy.Race.Rows.{counts_as_model, latest, model_attempt_count}
use llm_supervisor_proxy.Race.Failover.{count_of, model_budget, successor}
use llm_supervisor_proxy.Race.Request.{
  UpstreamRequest, ModelType, second_attempt, fallback_attempt, cred_failover_attempt, RequestOp,
  started, first_byte, finished, broke, got_context, got_response, got_line, got_activity,
  got_usage, got_status, resolved, cancelled_by_owner, apply_op, mark_started, mark_streaming,
  mark_completed, mark_failed, set_context, set_resp, add_line, track_activity, set_usage,
  set_http_status, cancel, cleanup,
}
use llm_supervisor_proxy.Support.Assoc.{Map, insert}
use llm_supervisor_proxy.Support.{
  ℕ, zero, suc, ◌<◌, ◌≡◌, refl, ap, ◌∙◌, String, List, [], ◌∷◌, ◌++◌, Option, none, some,
  Bool-cases, inl, inr, arith, length, if◌then◌else◌, ◌==◌,
}

abbrev pub Kind : Type 0
Kind = ModelType × String

abbrev pub kind : UpstreamRequest → Kind
kind r = (r.model_type, r.model_id)

unfoldable pub kinds : List UpstreamRequest → List Kind
kinds [] = []
kinds (r ∷ requests) = kind r ∷ kinds requests

pub record Shape : Type 0 where
  pub chain : List String
  pub budget : String → ℕ
  pub rows : List Kind
  pub rotations : Map ℕ

abbrev pub shape : RaceCoordinator → Shape
shape c = record {
  chain = c.models;
  budget = model_budget c.cfg;
  rows = kinds c.requests;
  rotations = c.failover_attempts_by_model;
}

unfoldable pub last_model : List Kind → Option String
last_model [] = none
last_model (k ∷ []) = some k.1
last_model (k ∷ l ∷ rows) = last_model (l ∷ rows)

unfoldable pub model_rows : List Kind → ℕ
model_rows [] = 0
model_rows (k ∷ rows) = if counts_as_model k.0 then suc (model_rows rows) else model_rows rows

abbrev pub add_row : ModelType → String → Shape → Shape
add_row m_type model_id s = record s { rows = s.rows ++ (m_type, model_id) ∷ [] }

abbrev pub bump : String → Shape → Shape
bump model_id s = record s {
  rotations = insert model_id (suc (count_of model_id s.rotations)) s.rotations;
}

abbrev pub rotate : String → Shape → Shape
rotate model_id s = bump model_id (add_row cred_failover_attempt model_id s)

-- A race does nothing to its shape, moves the latest model to another credential within the model's
-- budget, advances from the latest model to the next one of the chain, or, while its first attempt
-- is the only one, tries the first model again beside the second.
pub data SpawnStep (s t : Shape) : Type 0 where
  stays : s ≡ t → SpawnStep s t
  rotates :
      (m : String)
      → last_model s.rows ≡ some m
      → count_of m s.rotations < s.budget m
      → rotate m s ≡ t
      → SpawnStep s t
  advances :
      (m next : String)
      → last_model s.rows ≡ some m
      → successor m s.chain ≡ some next
      → add_row fallback_attempt next s ≡ t
      → SpawnStep s t
  doubles :
      (m next : String)
      → length s.rows ≡ 1
      → model_at 0 s.chain ≡ some m
      → model_at 1 s.chain ≡ some next
      → add_row fallback_attempt next (add_row second_attempt m s) ≡ t
      → SpawnStep s t

kind-cancel : (r : UpstreamRequest) → kind (cancel r) ≡ kind r
unfolding cancel cleanup
kind-cancel r = elim (Bool-cases r.cancelled) [ inl e ↦ rw e refl | inr e ↦ rw e refl ]

kind-apply_op : (op : RequestOp) (r : UpstreamRequest) → kind (apply_op op r) ≡ kind r
unfolding apply_op mark_started mark_streaming mark_completed mark_failed set_context set_resp
    add_line track_activity set_usage set_http_status
kind-apply_op (started now) r = refl
kind-apply_op (first_byte now) r = refl
kind-apply_op (finished now) r = refl
kind-apply_op (broke err now) r = refl
kind-apply_op got_context r = refl
kind-apply_op got_response r = refl
kind-apply_op (got_line line) r = refl
kind-apply_op (got_activity now) r = refl
kind-apply_op (got_usage usage) r = refl
kind-apply_op (got_status code) r = refl
kind-apply_op (resolved credential_id) r = refl
kind-apply_op cancelled_by_owner r = kind-cancel r

pub kinds-update_at :
    (i : ℕ) (op : RequestOp) (requests : List UpstreamRequest)
    → kinds (update_at i op requests) ≡ kinds requests
unfolding kinds update_at
kinds-update_at i op [] = refl
kinds-update_at zero op (r ∷ requests) = ap (λ k. k ∷ kinds requests) (kind-apply_op op r)
kinds-update_at (suc i) op (r ∷ requests) = ap (◌∷◌ (kind r)) (kinds-update_at i op requests)

pub kinds-cancel_loop :
    (winner : Option ℕ) (i : ℕ) (requests : List UpstreamRequest)
    → kinds (cancel_loop winner i requests) ≡ kinds requests
unfolding kinds cancel_loop
kinds-cancel_loop winner i [] = refl
kinds-cancel_loop none i (r ∷ requests) =
    ap (λ k. k ∷ kinds (cancel_loop none (suc i) requests)) (kind-cancel r)
    ∙ ap (◌∷◌ (kind r)) (kinds-cancel_loop none (suc i) requests)
kinds-cancel_loop (some w) i (r ∷ requests) = elim (Bool-cases (i == w)) [
  | inl e ↦ rw e (ap (◌∷◌ (kind r)) (kinds-cancel_loop (some w) (suc i) requests))
  | inr e ↦ rw e (
      ap (λ k. k ∷ kinds (cancel_loop (some w) (suc i) requests)) (kind-cancel r)
      ∙ ap (◌∷◌ (kind r)) (kinds-cancel_loop (some w) (suc i) requests))
]

pub kinds-append :
    (requests : List UpstreamRequest) (r : UpstreamRequest)
    → kinds (requests ++ r ∷ []) ≡ kinds requests ++ kind r ∷ []
unfolding kinds
kinds-append [] r = refl
kinds-append (q ∷ requests) r = ap (◌∷◌ (kind q)) (kinds-append requests r)

pub length-kinds : (requests : List UpstreamRequest) → length (kinds requests) ≡ length requests
unfolding kinds
length-kinds [] = refl
length-kinds (r ∷ requests) = ap suc (length-kinds requests)

pub model_rows-kinds :
    (requests : List UpstreamRequest) → model_rows (kinds requests) ≡ model_attempt_count requests
unfolding model_rows kinds model_attempt_count
model_rows-kinds [] = refl
model_rows-kinds (r ∷ requests) =
    ap (λ n. if counts_as_model r.model_type then suc n else n) (model_rows-kinds requests)

abbrev model_of : Option UpstreamRequest → Option String
model_of none = none
model_of (some r) = some r.model_id

pub last_model-kinds :
    (requests : List UpstreamRequest) (r : UpstreamRequest)
    → latest requests ≡ some r
    → last_model (kinds requests) ≡ some r.model_id
unfolding last_model kinds latest
last_model-kinds [] r h = absurd (ground (arith, h))
last_model-kinds (q ∷ []) r h = ap model_of h
last_model-kinds (q ∷ s ∷ requests) r h = last_model-kinds (s ∷ requests) r h
