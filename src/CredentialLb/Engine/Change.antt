-- ===== src/CredentialLb/Engine/Change.antt =====
-- What a change of a model's credentials, and the deletion of a credential, do to the bindings.
use llm_supervisor_proxy.Support.Assoc.{
  Map, lookup, insert, keep, Distinct, map_values, lookup-insert, lookup-delete, lookup-map_values,
  lookup-keep-none, lookup-keep-some,
}
use llm_supervisor_proxy.Support.{
  ◌≡◌, ◌≢◌, refl, Bool, not, String, List, ◌∷◌, none, some, str_eq, str_eq_refl, if◌then◌else◌,
  arith,
}
use llm_supervisor_proxy.CredentialLb.Selector.{CredentialRef}
use llm_supervisor_proxy.CredentialLb.State.{Binding, ModelState, credential_in_refs}
use llm_supervisor_proxy.CredentialLb.Engine.{
  Engine, keep_bindings, apply_refs, state_of, change_state, on_model_changed, delete_credential,
  on_credential_deleted,
}
use llm_supervisor_proxy.CredentialLb.Engine.Validity.{IsSound}

-- The second map has the bindings of the first whose credential passes the test, untouched, and no
-- others.
pub record Retains (p : String → Bool) (before after : Map Binding) : Type 0 where
  pub kept :
      (key : String) (b : Binding)
      → lookup key before ≡ some b
      → lookup key after ≡ (if p b.credential_id then some b else none)
  pub unbound : (key : String) → lookup key before ≡ none → lookup key after ≡ none

keep-Retains :
    (p : String → Bool) (bindings : Map Binding)
    → Distinct bindings
    → Retains p bindings (keep (λ b. p b.credential_id) bindings)
keep-Retains p bindings d = record {
  kept = λ key b h. lookup-keep-some (λ b'. p b'.credential_id) key bindings b d h;
  unbound = λ key h. lookup-keep-none (λ b'. p b'.credential_id) key bindings h;
}

-- A new list of credentials for a known model keeps exactly the bindings to credentials that are still
-- listed, idle window included. The cooldowns stay, and so do all other models.
pub on_model_changed-Retains :
    (e : Engine) (model : String) (r : CredentialRef) (refs : List CredentialRef) (st : ModelState)
    → IsSound e
    → lookup model e.models ≡ some st
    → (e' : Engine) × (st' : ModelState) × (on_model_changed (some e) model (r ∷ refs) ≡ some e')
      × (lookup model e'.models ≡ some st')
      × Retains (credential_in_refs (r ∷ refs)) st.bindings st'.bindings
      × (st'.credentials ≡ r ∷ refs)
      × (st'.cooldowns ≡ st.cooldowns)
      × ((other : String) → other ≢ model → lookup other e'.models ≡ lookup other e.models)
unfolding on_model_changed change_state apply_refs
on_model_changed-Retains e model r refs st s h =
    let found : state_of e model ≡ st = unfold state_of in rw (h, state_of) in
    let st' = change_state (r ∷ refs) st in
    (
      record e { models = insert model st' e.models },
      st',
      rw found,
      rw (lookup-insert model model st' e.models, str_eq_refl model),
      unfold keep_bindings in
          keep-Retains (credential_in_refs (r ∷ refs)) st.bindings (s model st h).bindings_distinct,
      unfold keep_bindings in refl,
      unfold keep_bindings in refl,
      λ other ne. ground (arith, lookup-insert other model st' e.models),
    )

-- After the deletion of a credential no conversation of any model is bound to it and it has no cooldown;
-- the bindings to other credentials stay as they were.
pub on_credential_deleted-Retains :
    (e : Engine) (model id : String) (st : ModelState)
    → IsSound e
    → lookup model e.models ≡ some st
    → (e' : Engine) × (st' : ModelState) × (on_credential_deleted (some e) id ≡ some e')
      × (lookup model e'.models ≡ some st')
      × Retains (λ bound. not (str_eq bound id)) st.bindings st'.bindings
      × (lookup id st'.cooldowns ≡ none)
unfolding on_credential_deleted delete_credential
on_credential_deleted-Retains e model id st s h =
    let f = delete_credential id in
    (
      record e { models = map_values f e.models },
      f st,
      refl,
      lookup-map_values f model e.models st h,
      unfold keep_bindings in
          keep-Retains (λ bound. not (str_eq bound id)) st.bindings
            (s model st h).bindings_distinct,
      rw (
        lookup-delete id id (keep_bindings (λ b. not (str_eq b.credential_id id)) st).cooldowns,
        str_eq_refl id,
      ),
    )
