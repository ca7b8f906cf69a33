-- ===== src/CredentialLb/Engine/Validity.antt =====
-- Every state that the engine can reach is valid, model by model.
use llm_supervisor_proxy.Support.Int.{ℤ}
use llm_supervisor_proxy.Support.Assoc.{
  lookup, insert, delete, keep, map_values, lookup-insert, lookup-delete, lookup-map_values,
  lookup-map_values-none, lookup-keep-none, keep-Distinct, delete-Distinct, length-keep-le,
}
use llm_supervisor_proxy.Support.{
  ℕ, ◌≡◌, refl, sym, ◌∙◌, subst, Bool, not, String, List, Option, none, some, ltb, str_eq, arith,
  Bool-cases, Option-cases, inl, inr, is_empty,
}
use llm_supervisor_proxy.CredentialLb.Selector.{CredentialRef}
use llm_supervisor_proxy.CredentialLb.State.{Binding, ModelState}
use llm_supervisor_proxy.CredentialLb.State.Validity.{IsValid, new_model_state-IsValid}
use llm_supervisor_proxy.CredentialLb.Cooldown.{FailureClass}
use llm_supervisor_proxy.CredentialLb.Select.{alone, select}
use llm_supervisor_proxy.CredentialLb.Select.Validity.{select-IsValid}
use llm_supervisor_proxy.CredentialLb.Exclude.Failover.{exclude-IsValid}
use llm_supervisor_proxy.CredentialLb.Engine.{
  Engine, new_engine, keep_bindings, sweep_state, sweep_once, janitor_tick, apply_refs, state_of,
  change_state, on_model_changed, rebind_from_store, delete_credential, on_credential_deleted,
  get_or_select, exclude_with_cooldown, exclude_and_reselect_for_class, stop,
}

keep_bindings-IsValid :
    (p : Binding → Bool) (st : ModelState) → IsValid st → IsValid (keep_bindings p st)
unfolding keep_bindings
keep_bindings-IsValid p st v = record {
  built = v.built;
  bindings_distinct = keep-Distinct p st.bindings v.bindings_distinct;
  cooldowns_distinct = v.cooldowns_distinct;
  no_empty_key = lookup-keep-none p "" st.bindings v.no_empty_key;
  counted = omega (arith, v.counted, length-keep-le p st.bindings);
}

pub sweep_state-IsValid :
    (ttl : ℤ) (now : ℕ) (st : ModelState) → IsValid st → IsValid (sweep_state ttl now st)
unfolding sweep_state
sweep_state-IsValid ttl now st v =
    keep_bindings-IsValid _ (record st { cooldowns = keep (λ until. ltb now until) st.cooldowns })
      (record {
        built = v.built;
        bindings_distinct = v.bindings_distinct;
        cooldowns_distinct = keep-Distinct _ st.cooldowns v.cooldowns_distinct;
        no_empty_key = v.no_empty_key;
        counted = v.counted;
      })

apply_refs-IsValid :
    (refs : List CredentialRef) (st : ModelState) → IsValid st → IsValid (apply_refs refs st)
unfolding apply_refs
apply_refs-IsValid refs st v = record {
  built = refl;
  bindings_distinct = v.bindings_distinct;
  cooldowns_distinct = v.cooldowns_distinct;
  no_empty_key = v.no_empty_key;
  counted = v.counted;
}

change_state-IsValid :
    (refs : List CredentialRef) (st : ModelState) → IsValid st → IsValid (change_state refs st)
unfolding change_state
change_state-IsValid refs st v =
    keep_bindings-IsValid _ (apply_refs refs st) (apply_refs-IsValid refs st v)

delete_credential-IsValid :
    (id : String) (st : ModelState) → IsValid st → IsValid (delete_credential id st)
unfolding delete_credential
delete_credential-IsValid id st v =
    let k = keep_bindings-IsValid (λ b. not (str_eq b.credential_id id)) st v in
    record {
      built = k.built;
      bindings_distinct = k.bindings_distinct;
      cooldowns_distinct = delete-Distinct id _ k.cooldowns_distinct;
      no_empty_key = k.no_empty_key;
      counted = k.counted;
    }

-- The states of all models are valid.
abbrev pub IsSound : Engine → Type 0
IsSound e = (model : String) (st : ModelState) → lookup model e.models ≡ some st → IsValid st

-- One call on the engine, or a tick of its janitor.
pub data Step : Engine → Engine → Type 0 where
  selects :
      (e : Engine) (model key : String) (now : ℕ) {e' : Engine}
      → (get_or_select (some e) alone model key now).1 ≡ some e'
      → Step e e'
  excludes :
      (e : Engine) (model key excluded : String) (class : FailureClass) (retry_after : ℤ) (now : ℕ)
      {e' : Engine}
      → (exclude_and_reselect_for_class (some e) alone model key excluded class retry_after now).1
        ≡ some e'
      → Step e e'
  changes :
      (e : Engine) (model : String) (refs : List CredentialRef) {e' : Engine}
      → on_model_changed (some e) model refs ≡ some e'
      → Step e e'
  loads :
      (e : Engine) (model : String) (refs : List CredentialRef) {e' : Engine}
      → rebind_from_store (some e) model refs ≡ some e'
      → Step e e'
  deletes :
      (e : Engine) (id : String) {e' : Engine}
      → on_credential_deleted (some e) id ≡ some e'
      → Step e e'
  ticks : (e : Engine) (now : ℕ) → Step e (janitor_tick now e)
  stops : (e : Engine) {e' : Engine} → stop (some e) ≡ some e' → Step e e'

pub data Reach (start : Engine) : Engine → Type 0 where
  here : Reach start start
  next : {e e' : Engine} → Reach start e → Step e e' → Reach start e'

insert-IsSound :
    (e : Engine) (model : String) (st : ModelState)
    → IsSound e
    → IsValid st
    → IsSound (record e { models = insert model st e.models })
insert-IsSound e model st s v model' st' h = elim (Bool-cases (str_eq model model')) [
  | inl k ↦ subst IsValid (ground (arith, h, lookup-insert model' model st e.models, k)) v
  | inr k ↦ s model' st' (sym (lookup-insert model' model st e.models ∙ rw k) ∙ h)
]

delete-IsSound :
    (e : Engine) (model : String)
    → IsSound e
    → IsSound (record e { models = delete model e.models })
delete-IsSound e model s model' st' h =
    s model' st' (ground (arith, h, lookup-delete model' model e.models))

map_values-IsSound :
    (e : Engine) (f : ModelState → ModelState)
    → ((st : ModelState) → IsValid st → IsValid (f st))
    → IsSound e
    → IsSound (record e { models = map_values f e.models })
map_values-IsSound e f keeps s model st' h = elim (Option-cases (lookup model e.models)) [
  | inl k ↦ absurd (ground (arith, h, lookup-map_values-none f model e.models k))
  | inr (st, k) ↦
      subst IsValid (ground (arith, h, lookup-map_values f model e.models st k))
        (keeps st (s model st k))
]

state_of-IsValid : (e : Engine) (model : String) → IsSound e → IsValid (state_of e model)
unfolding state_of
state_of-IsValid e model s = elim (Option-cases (lookup model e.models)) [
  | inl k ↦ rw (k, state_of) (new_model_state-IsValid (e.rng_source model))
  | inr (st, k) ↦ rw (k, state_of) (s model st k)
]

abbrev AreSound : Option Engine → Type 0
AreSound none = Unit
AreSound (some e) = IsSound e

selects-IsSound :
    (e : Engine) (model key : String) (now : ℕ)
    → IsSound e
    → AreSound (get_or_select (some e) alone model key now).1
unfolding get_or_select
selects-IsSound e model key now s = elim (Option-cases (lookup model e.models)) [
  | inl k ↦ rw (k, get_or_select) s
  | inr (st, k) ↦
      rw (k, get_or_select)
        (insert-IsSound e model (select alone e.ttl key now st).1 s
          (select-IsValid alone e.ttl key now st (λ i u w. w) (s model st k)))
]

excludes-IsSound :
    (e : Engine) (model key excluded : String) (cooldown : ℤ) (now : ℕ)
    → IsSound e
    → AreSound (exclude_with_cooldown e alone model key excluded cooldown now).1
unfolding exclude_with_cooldown
excludes-IsSound e model key excluded cooldown now s = elim (Option-cases (lookup model e.models)) [
  | inl k ↦ rw (k, exclude_with_cooldown) s
  | inr (st, k) ↦
      rw (k, exclude_with_cooldown)
        (insert-IsSound e model _ s
          (exclude-IsValid alone _ key excluded now st (λ i u w. w) (s model st k)))
]

changes-IsSound :
    (e : Engine) (model : String) (refs : List CredentialRef)
    → IsSound e
    → AreSound (on_model_changed (some e) model refs)
      × AreSound (rebind_from_store (some e) model refs)
unfolding on_model_changed rebind_from_store
changes-IsSound e model refs s =
    let v = state_of-IsValid e model s in
    elim (Bool-cases (is_empty refs)) [
      | inl k ↦ rw k (delete-IsSound e model s, delete-IsSound e model s)
      | inr k ↦ rw k (
        insert-IsSound e model _ s (change_state-IsValid refs _ v),
        insert-IsSound e model _ s (apply_refs-IsValid refs _ v),
      )
    ]

tick-IsSound : (e : Engine) (now : ℕ) → IsSound e → IsSound (janitor_tick now e)
unfolding janitor_tick sweep_once
tick-IsSound e now s = elim (Bool-cases e.stopped) [
  | inl k ↦ rw k s
  | inr k ↦ rw k (map_values-IsSound e (sweep_state e.ttl now) (sweep_state-IsValid e.ttl now) s)
]

Step-IsSound : {e e' : Engine} → Step e e' → IsSound e → IsSound e'
unfolding exclude_and_reselect_for_class on_credential_deleted stop
Step-IsSound (selects e model key now h) s = subst AreSound h (selects-IsSound e model key now s)
Step-IsSound (excludes e model key excluded class retry_after now h) s =
    subst AreSound h (excludes-IsSound e model key excluded _ now s)
Step-IsSound (changes e model refs h) s = subst AreSound h (changes-IsSound e model refs s).0
Step-IsSound (loads e model refs h) s = subst AreSound h (changes-IsSound e model refs s).1
Step-IsSound (deletes e id h) s =
    subst AreSound h (map_values-IsSound e (delete_credential id) (delete_credential-IsValid id) s)
Step-IsSound (ticks e now) s = tick-IsSound e now s
Step-IsSound (stops e h) s = subst AreSound h s

-- After any sequence of calls and janitor ticks on a new engine, every model's state is valid: its
-- selector is that of its credentials, its maps hold no key twice, the empty conversation key is never
-- bound, and the binding counter is the size of the binding map modulo 2^64.
pub Reach-IsSound :
    (ttl fallback : ℤ) (rng_source : String → ℕ → ℕ) {e : Engine}
    → Reach (new_engine ttl fallback rng_source) e
    → IsSound e
unfolding new_engine lookup
Reach-IsSound ttl fallback rng_source here model st h = ground (arith, h)
Reach-IsSound ttl fallback rng_source (next r s) model st h =
    Step-IsSound s (Reach-IsSound ttl fallback rng_source r) model st h
