-- ===== src/CredentialLb/State.antt =====
-- pkg/credentiallb/binding.go: the state of one model, its bindings and cooldowns, and the choice
-- among the credentials that are not cooling. Times are nanoseconds on the monotonic clock.
-- The math/rand generator is the stream of its draws; `Intn(n)` is the next draw modulo `n`.
pub mod Validity
pub mod Healthy
pub mod Soonest
use llm_supervisor_proxy.Support.Int.{ℤ, pos_part, sub_ℕ, ltb_ℤ}
use llm_supervisor_proxy.Support.Assoc.{Map, lookup}
use llm_supervisor_proxy.Support.{
  ℕ, suc, ◌+◌, ◌-◌, ◌%◌, ◌^◌, Bool, true, false, not, ◌&&◌, ◌||◌, String, List, [], ◌∷◌, Option,
  none, some, ltb, ◌==◌, str_eq, is_empty, if◌then◌else◌, dec_str,
}
use llm_supervisor_proxy.CredentialLb.Selector.{CredentialRef, WeightedSelector, pick}

pub record Binding : Type 0 where
  pub credential_id : String
  pub bound_at : ℕ

unfoldable pub expired : Binding → ℤ → ℕ → Bool
expired b ttl now = ltb_ℤ ttl (sub_ℕ now b.bound_at)

pub record ModelState : Type 0 where
  pub credentials : List CredentialRef
  pub selector : Option WeightedSelector
  pub bindings : Map Binding
  pub cooldowns : Map ℕ
  pub rng : ℕ → ℕ
  pub hits_total : ℕ
  pub misses_total : ℕ
  pub bindings_count : ℕ
  pub failovers_total : ℕ

-- `uint64` counters wrap.
abbrev pub word : ℕ
word = 2 ^ 64

abbrev pub inc : ℕ → ℕ
inc n = (n + 1) % word

abbrev pub dec : ℕ → ℕ
dec n = (n + (word - 1)) % word

unfoldable pub new_model_state : (ℕ → ℕ) → ModelState
new_model_state rng = record {
  credentials = [];
  selector = none;
  bindings = [];
  cooldowns = [];
  rng = rng;
  hits_total = 0;
  misses_total = 0;
  bindings_count = 0;
  failovers_total = 0;
}

unfoldable pub credential_in_refs : List CredentialRef → String → Bool
credential_in_refs [] id = false
credential_in_refs (r ∷ refs) id =
    if str_eq r.credential_id id then true else credential_in_refs refs id

-- `isCoolingLocked`, over the cooldown map.
unfoldable pub is_cooling : Map ℕ → String → ℕ → Bool
is_cooling cooldowns id now = elim (lookup id cooldowns) [
  | none ↦ false
  | some until ↦ ltb now until
]

-- The two loops of `pickHealthyLocked`. They run behind a selector, so all weights are positive.
unfoldable pub healthy_total : Map ℕ → ℕ → List CredentialRef → ℕ → ℕ
healthy_total cooldowns now [] total = total
healthy_total cooldowns now (ref ∷ refs) total =
    healthy_total cooldowns now refs
      (if is_cooling cooldowns ref.credential_id now then total else total + pos_part ref.weight)

unfoldable pub healthy_walk : Map ℕ → ℕ → List CredentialRef → ℕ → ℕ → String
healthy_walk cooldowns now [] cum r = ""
healthy_walk cooldowns now (ref ∷ refs) cum r =
    let rest = healthy_walk cooldowns now refs in
    if is_cooling cooldowns ref.credential_id now
    then rest cum r
    else (if ltb r (cum + pos_part ref.weight)
        then ref.credential_id
        else rest (cum + pos_part ref.weight) r)

-- `Intn` moves the generator on by one draw.
abbrev pub advance : ModelState → ModelState
advance st = record st { rng = λ k. st.rng (suc k) }

-- `pickHealthyLocked` up to its draw; `none` where it returns without one.
unfoldable pub choose_healthy :
    Option WeightedSelector → Map ℕ → List CredentialRef → ℕ → ℕ → Option String
choose_healthy none cooldowns refs now draw = none
choose_healthy (some sel) cooldowns refs now draw =
    if sel.total_weight == 0
    then none
    else (if is_empty cooldowns
        then some (pick sel (draw % sel.total_weight))
        else (let total = healthy_total cooldowns now refs 0 in
            if total == 0 then none else some (healthy_walk cooldowns now refs 0 (draw % total))))

unfoldable pub pick_healthy : ModelState → ℕ → String × ModelState
pick_healthy st now = elim (choose_healthy st.selector st.cooldowns st.credentials now (st.rng 0)) [
  | none ↦ ("", st)
  | some id ↦ (id, advance st)
]

-- The loop of `soonestCooldownLocked`.
unfoldable pub soonest_loop : Map ℕ → ℕ → List CredentialRef → String → ℕ → String × Bool
soonest_loop cooldowns now [] best best_until = (best, not (str_eq best ""))
soonest_loop cooldowns now (ref ∷ refs) best best_until =
    elim (lookup ref.credential_id cooldowns) [
      | none ↦ ("", false)
      | some until ↦ elim (ltb now until) [
        | false ↦ ("", false)
        | true ↦ elim (str_eq best "" || ltb until best_until) [
          | true ↦ soonest_loop cooldowns now refs ref.credential_id until
          | false ↦ soonest_loop cooldowns now refs best best_until
        ]
      ]
    ]

unfoldable pub soonest_cooldown : ModelState → ℕ → String × Bool
soonest_cooldown st now = soonest_loop st.cooldowns now st.credentials "" 0
