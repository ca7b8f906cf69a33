-- ===== src/Race/Status.antt =====
-- pkg/proxy/race_coordinator.go: GetCommonFailureStatus and GetFinalErrorInfo against their rules.
use llm_supervisor_proxy.Failure.{Error}
use llm_supervisor_proxy.Race.FinalError.{
  attempt_status, common_loop, common_turn, failure_status, get_common_failure_status,
}
use llm_supervisor_proxy.Race.Request.{UpstreamRequest}
use llm_supervisor_proxy.Support.Int.{ℤ, pos, eq_ℤ, eq_ℤ→eq, eq_ℤ_refl}
use llm_supervisor_proxy.Support.{
  ◌≡◌, ◌≢◌, ◌↔◌, refl, sym, ap, ◌∙◌, subst, false, List, [], ◌∷◌, Option, none, some, Bool-cases,
  Option-cases, inl, inr, arith,
}

-- Every attempt failed under the status.
abbrev pub AllFailWith : ℤ → List UpstreamRequest → Type 0
AllFailWith s [] = Unit
AllFailWith s (r ∷ requests) = (failure_status r ≡ some s) × AllFailWith s requests

pub attempt_status-nonzero : (err : Error) (stored : ℤ) → attempt_status err stored ≢ pos 0
unfolding attempt_status
attempt_status-nonzero err stored h = ground (arith, h)

eq_ℤ_nonzero : (s : ℤ) → s ≢ pos 0 → eq_ℤ s (pos 0) ≡ false
eq_ℤ_nonzero s n = elim (Bool-cases (eq_ℤ s (pos 0))) [
  | inl e ↦ absurd (n (eq_ℤ→eq s (pos 0) e))
  | inr e ↦ e
]

common_turn_same : (s : ℤ) (rest : ℤ → ℤ) → s ≢ pos 0 → common_turn s rest (some s) ≡ rest s
common_turn_same s rest n = rw (eq_ℤ_nonzero s n, eq_ℤ_refl s) refl

common_loop_all :
    (requests : List UpstreamRequest) (s : ℤ)
    → s ≢ pos 0
    → AllFailWith s requests
    → common_loop s requests ≡ s
unfolding common_loop
common_loop_all [] s n f = refl
common_loop_all (r ∷ requests) s n f =
    ap (common_turn s (λ t. common_loop t requests)) f.0
    ∙ (common_turn_same s (λ t. common_loop t requests) n ∙ common_loop_all requests s n f.1)

-- What one turn can give that is not 0.
common_turn_sound :
    (common : ℤ) (rest : ℤ → ℤ) (o : Option ℤ)
    → common ≢ pos 0
    → common_turn common rest o ≢ pos 0
    → (o ≡ some common) × (common_turn common rest o ≡ rest common)
common_turn_sound common rest none n h = absurd (h refl)
common_turn_sound common rest (some t) n h = elim (Bool-cases (eq_ℤ common t)) [
  | inl e ↦ (ap some (sym (eq_ℤ→eq common t e)), rw (eq_ℤ_nonzero common n, e) refl)
  | inr e ↦ absurd (h (rw (eq_ℤ_nonzero common n, e) refl))
]

common_loop_sound :
    (requests : List UpstreamRequest) (common : ℤ)
    → common ≢ pos 0
    → common_loop common requests ≢ pos 0
    → (common_loop common requests ≡ common) × AllFailWith common requests
unfolding common_loop
common_loop_sound [] common n h = (refl, tt)
common_loop_sound (r ∷ requests) common n h =
    let turn = common_turn_sound common (λ t. common_loop t requests) (failure_status r) n h in
    let later = common_loop_sound requests common n (λ z. h (turn.1 ∙ z)) in
    (turn.1 ∙ later.0, (turn.0, later.1))

failure_status-nonzero : (r : UpstreamRequest) (t : ℤ) → failure_status r ≡ some t → t ≢ pos 0
failure_status-nonzero r t h z = elim (Option-cases r.err) [
  | inl e ↦ absurd (ground (arith, e, h))
  | inr (err, e) ↦ attempt_status-nonzero err r.http_status_code (ground (arith, e, h, z))
]

first_turn :
    (rest : ℤ → ℤ) (o : Option ℤ) (t : ℤ) → o ≡ some t → common_turn (pos 0) rest o ≡ rest t
first_turn rest o t h = ap (common_turn (pos 0) rest) h

common_sound :
    (r : UpstreamRequest) (requests : List UpstreamRequest) (o : Option ℤ)
    → failure_status r ≡ o
    → get_common_failure_status (r ∷ requests) ≢ pos 0
    → AllFailWith (get_common_failure_status (r ∷ requests)) (r ∷ requests)
unfolding get_common_failure_status common_loop
common_sound r requests none h n =
    absurd (n (ap (common_turn (pos 0) (λ t. common_loop t requests)) h))
common_sound r requests (some t) h n =
    let turn = first_turn (λ u. common_loop u requests) (failure_status r) t h in
    let found = common_loop_sound requests t (failure_status-nonzero r t h) (λ z. n (turn ∙ z)) in
    subst (λ s. AllFailWith s (r ∷ requests)) (sym (turn ∙ found.0)) (h, found.1)

common_complete :
    (r : UpstreamRequest) (requests : List UpstreamRequest) (s : ℤ)
    → AllFailWith s (r ∷ requests)
    → get_common_failure_status (r ∷ requests) ≡ s
unfolding get_common_failure_status common_loop
common_complete r requests s f =
    first_turn (λ u. common_loop u requests) (failure_status r) s f.0
    ∙ common_loop_all requests s (failure_status-nonzero r s f.0) f.1

-- For any attempts of which there is at least one, the common failure status is a status other than 0
-- just when every attempt has an error and each of them failed under that status, the stored one from
-- 400 on or the one its text stands for.
pub get_common_failure_status_lem :
    (r : UpstreamRequest) (requests : List UpstreamRequest) (s : ℤ)
    → s ≢ pos 0
    → ((get_common_failure_status (r ∷ requests) ≡ s) ↔ AllFailWith s (r ∷ requests))
get_common_failure_status_lem r requests s n = (
  λ h.
      subst (λ t. AllFailWith t (r ∷ requests)) h
        (common_sound r requests (failure_status r) refl (λ z. n (sym h ∙ z))),
  common_complete r requests s,
)
