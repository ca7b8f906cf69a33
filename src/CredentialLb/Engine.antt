-- ===== src/CredentialLb/Engine.antt =====
-- pkg/credentiallb/engine.go: the engine's map of models, its configuration changes, the janitor,
-- and the exported calls. A nil receiver is `none`. The generator of a new model is a parameter of
-- the engine (`rng_source`), for math/rand seeded with the engine's seed and the hash of the model.
pub mod Validity
pub mod Sweep
pub mod Change
use llm_supervisor_proxy.Support.Int.{ℤ, pos, leb_ℤ}
use llm_supervisor_proxy.Support.Assoc.{Map, lookup, insert, delete, keep, map_values}
use llm_supervisor_proxy.Support.{
  ℕ, ◌+◌, ◌-◌, ◌%◌, Bool, true, false, not, String, List, [], ◌∷◌, Option, none, some, ltb, str_eq,
  length, is_empty, if◌then◌else◌,
}
use llm_supervisor_proxy.CredentialLb.Selector.{CredentialRef, new_weighted_selector}
use llm_supervisor_proxy.CredentialLb.State.{
  Binding, expired, ModelState, word, new_model_state, credential_in_refs,
}
use llm_supervisor_proxy.CredentialLb.Cooldown.{
  CooldownConfig, FailureClass, rate_limit, default_binding_ttl, default_cooldown,
  default_quota_cooldown, cooldown_for,
}
use llm_supervisor_proxy.CredentialLb.Select.{Others, Selection, no_credentials, select}
use llm_supervisor_proxy.CredentialLb.Exclude.{Reselection, reselect_none, exclude}

pub record Engine : Type 0 where
  pub models : Map ModelState
  pub ttl : ℤ
  pub cooldown : CooldownConfig
  pub rng_source : String → ℕ → ℕ
  pub stopped : Bool

abbrev or_default : ℤ → ℤ → ℤ
or_default d fallback = if leb_ℤ d (pos 0) then fallback else d

-- `NewEngine`; the cadence of the janitor is not kept, since a tick is an event here.
unfoldable pub new_engine : ℤ → ℤ → (String → ℕ → ℕ) → Engine
new_engine ttl fallback rng_source = record {
  models = [];
  ttl = or_default ttl default_binding_ttl;
  cooldown = record {
    configured_cooldown = or_default fallback default_cooldown;
    configured_quota = default_quota_cooldown;
  };
  rng_source = rng_source;
  stopped = false;
}

-- A range loop that deletes bindings and counts each one down.
unfoldable pub keep_bindings : (Binding → Bool) → ModelState → ModelState
keep_bindings p st = record st {
  bindings = keep p st.bindings;
  bindings_count =
      (st.bindings_count + (word - (length st.bindings - length (keep p st.bindings)) % word))
      % word;
}

-- One model's part of a janitor pass: cooldowns that are over, then bindings idle for too long.
unfoldable pub sweep_state : ℤ → ℕ → ModelState → ModelState
sweep_state ttl now st =
    keep_bindings (λ b. not (expired b ttl now))
      (record st { cooldowns = keep (λ until. ltb now until) st.cooldowns })

unfoldable pub sweep_once : ℕ → Engine → Engine
sweep_once now e = record e { models = map_values (sweep_state e.ttl now) e.models }

-- The janitor's select loop at a tick: a stopped engine sweeps no more.
unfoldable pub janitor_tick : ℕ → Engine → Engine
janitor_tick now e = if e.stopped then e else sweep_once now e

unfoldable pub stop : Option Engine → Option Engine
stop none = none
stop (some e) = some (record e { stopped = true })

unfoldable pub apply_refs : List CredentialRef → ModelState → ModelState
apply_refs refs st = record st { credentials = refs; selector = new_weighted_selector refs }

-- The model's state, made on first sight.
unfoldable pub state_of : Engine → String → ModelState
state_of e model = elim (lookup model e.models) [
  | none ↦ new_model_state (e.rng_source model)
  | some st ↦ st
]

unfoldable pub change_state : List CredentialRef → ModelState → ModelState
change_state refs st =
    keep_bindings (λ b. credential_in_refs refs b.credential_id) (apply_refs refs st)

unfoldable pub on_model_changed : Option Engine → String → List CredentialRef → Option Engine
on_model_changed none model refs = none
on_model_changed (some e) model refs = some (record e {
  models =
      if is_empty refs
      then delete model e.models
      else insert model (change_state refs (state_of e model)) e.models;
})

unfoldable pub rebind_from_store : Option Engine → String → List CredentialRef → Option Engine
rebind_from_store none model refs = none
rebind_from_store (some e) model refs = some (record e {
  models =
      if is_empty refs
      then delete model e.models
      else insert model (apply_refs refs (state_of e model)) e.models;
})

unfoldable pub delete_credential : String → ModelState → ModelState
delete_credential id st =
    let st' = keep_bindings (λ b. not (str_eq b.credential_id id)) st in
    record st' { cooldowns = delete id st'.cooldowns }

unfoldable pub on_credential_deleted : Option Engine → String → Option Engine
on_credential_deleted none id = none
on_credential_deleted (some e) id =
    some (record e { models = map_values (delete_credential id) e.models })

pub record EngineStats : Type 0 where
  pub hits : ℕ
  pub misses : ℕ
  pub bindings : ℕ
  pub failovers : ℕ
  pub cooldowns : ℕ

unfoldable pub stats_of : ModelState → EngineStats
stats_of st = record {
  hits = st.hits_total;
  misses = st.misses_total;
  bindings = st.bindings_count;
  failovers = st.failovers_total;
  cooldowns = length st.cooldowns % word;
}

unfoldable pub stats_loop : Map ModelState → Map EngineStats
stats_loop [] = []
stats_loop ((model, st) ∷ models) = (model, stats_of st) ∷ stats_loop models

unfoldable pub stats : Option Engine → Map EngineStats
stats none = []
stats (some e) = stats_loop e.models

abbrev store_state : Engine → String → ModelState → Option Engine
store_state e model st = some (record e { models = insert model st e.models })

unfoldable pub get_or_select :
    Option Engine → Others → String → String → ℕ → Selection × Option Engine
get_or_select none others model key now = (no_credentials, none)
get_or_select (some e) others model key now = elim (lookup model e.models) [
  | none ↦ (no_credentials, some e)
  | some st ↦ let (s, st') = select others e.ttl key now st in (s, store_state e model st')
]

-- The body shared by the two exported forms; its own fallback covers a cooldown that is not positive.
unfoldable pub exclude_with_cooldown :
    Engine → Others → String → String → String → ℤ → ℕ → Reselection × Option Engine
exclude_with_cooldown e others model key excluded cooldown now = elim (lookup model e.models) [
  | none ↦ (("", reselect_none), some e)
  | some st ↦
      let (r, st') =
        exclude others (or_default cooldown e.cooldown.configured_cooldown) key excluded now st in
      (r, store_state e model st')
]

unfoldable pub exclude_and_reselect_for_class :
    Option Engine
    → Others
    → String
    → String
    → String
    → FailureClass
    → ℤ
    → ℕ
    → Reselection × Option Engine
exclude_and_reselect_for_class none others model key excluded class retry_after now =
    (("", reselect_none), none)
exclude_and_reselect_for_class (some e) others model key excluded class retry_after now =
    exclude_with_cooldown e others model key excluded
      (cooldown_for (some e.cooldown) class retry_after) now

unfoldable pub exclude_and_reselect :
    Option Engine → Others → String → String → String → ℤ → ℕ → Reselection × Option Engine
exclude_and_reselect e others model key excluded retry_after now =
    exclude_and_reselect_for_class e others model key excluded rate_limit retry_after now
