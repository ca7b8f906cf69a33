-- ===== src/CredentialLb/Examples.antt =====
-- Runs of the credential engine, and its theorems at concrete inputs.
use llm_supervisor_proxy.Support.Int.{pos}
use llm_supervisor_proxy.Support.Assoc.{lookup, insert, delete, keep, map_values}
use llm_supervisor_proxy.Support.{
  ℕ, suc, ◌≡◌, refl, Bool, true, List, [], ◌∷◌, some, dec_str, str_ne, arith, ◌==◌,
}
use llm_supervisor_proxy.CredentialLb.Selector.{
  CredentialRef, prefix_loop, new_weighted_selector, search_loop, pick,
}
use llm_supervisor_proxy.CredentialLb.Selector.Interval.{selector_of, pick_interval}
use llm_supervisor_proxy.CredentialLb.State.{
  expired, ModelState, new_model_state, credential_in_refs, is_cooling, healthy_total, healthy_walk,
  choose_healthy, pick_healthy, soonest_loop, soonest_cooldown,
}
use llm_supervisor_proxy.CredentialLb.State.Validity.{IsValid, IsConfigured}
use llm_supervisor_proxy.CredentialLb.State.Healthy.{reference_choice, choose_healthy-reference}
use llm_supervisor_proxy.CredentialLb.Select
use llm_supervisor_proxy.CredentialLb.Select.{Selection, selected, alone, select}
use llm_supervisor_proxy.CredentialLb.Select.Safety.{IsReady, IsSafe, select-IsSafe}
use llm_supervisor_proxy.CredentialLb.Select.Sticky.{answers, AllAnswer, select_sticky}
use llm_supervisor_proxy.CredentialLb.Exclude
use llm_supervisor_proxy.CredentialLb.Exclude.{exclude, reselect_healthy, mark_cooling, add_time}
use llm_supervisor_proxy.CredentialLb.Exclude.Failover.{Reselects, exclude-Reselects}
use llm_supervisor_proxy.CredentialLb.Cooldown.{
  CooldownConfig, set_quota_cooldown, quota_cooldown, clamp_quota, cooldown_for, fallback_cooldown,
  classify_cred_failure, effective_cooldown,
}
use llm_supervisor_proxy.CredentialLb.Engine
use llm_supervisor_proxy.CredentialLb.Engine.{Engine}
use llm_supervisor_proxy.CredentialLb.Engine.Validity.{IsSound, Reach, Step, Reach-IsSound}
use llm_supervisor_proxy.CredentialLb.Engine.Sweep.{select-sweep}

program : Unit {0}
unfolding dec_str lookup insert delete keep map_values prefix_loop new_weighted_selector search_loop
    pick expired new_model_state credential_in_refs is_cooling healthy_total healthy_walk
    choose_healthy pick_healthy soonest_loop soonest_cooldown Select.usable Select.optimistic_read
    Select.touch_binding Select.refresh Select.drop_binding Select.bind Select.pick_soonest
    Select.pick_new Select.full_path Select.bound_path Select.first_id Select.select
    Exclude.mark_cooling Exclude.rebind Exclude.reselect_soonest Exclude.reselect Exclude.moved_away
    Exclude.exclude_locked Exclude.exclude set_quota_cooldown quota_cooldown clamp_quota
    cooldown_for fallback_cooldown classify_cred_failure effective_cooldown Engine.new_engine
    Engine.keep_bindings Engine.sweep_state Engine.sweep_once Engine.apply_refs Engine.state_of
    Engine.change_state Engine.on_model_changed Engine.delete_credential
    Engine.on_credential_deleted Engine.get_or_select
program = tt

abbrev two_to_one : CredentialRef
two_to_one = record { credential_id = "a"; weight = pos 2; position = pos 0 }

abbrev spare : CredentialRef
spare = record { credential_id = "b"; weight = pos 1; position = pos 1 }

abbrev refs : List CredentialRef
refs = two_to_one ∷ spare ∷ []

-- The draws are 0, 1, 2, …
abbrev idle_state : ModelState
idle_state = record {
  credentials = refs;
  selector = some (selector_of 0 refs);
  bindings = [];
  cooldowns = [];
  rng = λ k. k;
  hits_total = 0;
  misses_total = 0;
  bindings_count = 0;
  failovers_total = 0;
}

refs-IsConfigured : IsConfigured refs
unfolding program
refs-IsConfigured = record {
  positive = (omega arith, (omega arith, tt));
  named = (str_ne "a" "" refl, (str_ne "b" "" refl, tt));
}

idle_state-IsValid : IsValid idle_state
unfolding program
idle_state-IsValid = record {
  built = refl;
  bindings_distinct = tt;
  cooldowns_distinct = tt;
  no_empty_key = refl;
  counted = omega arith;
}

idle_state-IsReady : IsReady idle_state
idle_state-IsReady = record {
  valid = idle_state-IsValid;
  configured = refs-IsConfigured;
  present = λ e. cc;
}

pick_interval_example : pick (selector_of 0 refs) 2 ≡ "b"
unfolding program
pick_interval_example = pick_interval (two_to_one ∷ []) spare [] 2 refl (omega arith) (omega arith)

choose_healthy-reference_example :
    choose_healthy idle_state.selector idle_state.cooldowns idle_state.credentials 5 7
    ≡ reference_choice idle_state.cooldowns idle_state.credentials 5 7
choose_healthy-reference_example =
    choose_healthy-reference idle_state 5 7 idle_state-IsValid refs-IsConfigured

select-IsSafe_example :
    IsSafe idle_state.credentials 10 (select alone (pos 100) "conv" 10 idle_state)
select-IsSafe_example =
    select-IsSafe alone (pos 100) "conv" 10 idle_state (λ i st v. v) idle_state-IsReady
      (omega arith)

abbrev bound_state : ModelState
bound_state = record idle_state {
  bindings = ("conv", record { credential_id = "a"; bound_at = 10 }) ∷ [];
  rng = λ k. suc k;
  misses_total = 1;
  bindings_count = 1;
}

select_runs : select alone (pos 100) "conv" 10 idle_state ≡ (selected "a" true, bound_state)
unfolding program
select_runs = refl

select_sticky_example :
    AllAnswer (pos 100) "conv" "a" (answers (pos 100) "conv" bound_state (60 ∷ 150 ∷ []))
unfolding program
select_sticky_example =
    select_sticky (pos 100) "conv" "a" 10 idle_state bound_state (60 ∷ 150 ∷ [])
      (str_ne "conv" "" refl) idle_state-IsReady select_runs (omega arith)

exclude-Reselects_example :
    Reselects "conv" "a" 20 (exclude alone (pos 60) "conv" "a" 20 idle_state)
exclude-Reselects_example =
    exclude-Reselects alone (pos 60) "conv" "a" 20 idle_state (λ i st v. v) idle_state-IsReady
      (omega arith) (omega arith)

select-sweep_example :
    (select alone (pos 100) "conv" 300 (Engine.sweep_state (pos 100) 200 idle_state)).0
    ≡ (select alone (pos 100) "conv" 300 idle_state).0
select-sweep_example =
    select-sweep (pos 100) "conv" 200 300 idle_state (omega arith) idle_state-IsValid
      refs-IsConfigured

abbrev empty_engine : Engine
empty_engine = Engine.new_engine (pos 100) (pos 60) (λ model k. k)

abbrev loaded_engine : Engine
loaded_engine = record empty_engine {
  models = ("m", Engine.change_state refs (new_model_state (λ k. k))) ∷ [];
}

loaded_engine-Reach : Reach empty_engine loaded_engine
unfolding program
loaded_engine-Reach = Reach.next Reach.here (Step.changes empty_engine "m" refs refl)

Reach-IsSound_example : IsSound loaded_engine
Reach-IsSound_example = Reach-IsSound (pos 100) (pos 60) (λ model k. k) loaded_engine-Reach

abbrev config : CooldownConfig
config = record { configured_cooldown = pos 5; configured_quota = pos 0 }

abbrev is_402 : ℕ → Bool
is_402 status = status == 402

abbrev is_429 : ℕ → Bool
is_429 status = status == 429
