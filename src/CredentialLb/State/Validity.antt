-- ===== src/CredentialLb/State/Validity.antt =====
-- The invariant of a model's state in pkg/credentiallb, and what its configuration promises.
use llm_supervisor_proxy.Support.Assoc.{lookup, Distinct}
use llm_supervisor_proxy.Support.{
  ℕ, ◌%◌, ◌≡◌, ◌≢◌, refl, List, [], ◌∷◌, none, length, arith, ◌⊎◌, inl, inr, Option-cases,
}
use llm_supervisor_proxy.CredentialLb.Selector.{CredentialRef, new_weighted_selector}
use llm_supervisor_proxy.CredentialLb.Selector.Interval.{AllPositive}
use llm_supervisor_proxy.CredentialLb.State.{
  ModelState, word, new_model_state, choose_healthy, pick_healthy, advance,
}

-- The selector is that of the refs, the maps are maps, the empty key is never bound, and the counter
-- mirrors the size of the binding map.
pub record IsValid (st : ModelState) : Type 0 where
  pub built : st.selector ≡ new_weighted_selector st.credentials
  pub bindings_distinct : Distinct st.bindings
  pub cooldowns_distinct : Distinct st.cooldowns
  pub no_empty_key : lookup "" st.bindings ≡ none
  pub counted : st.bindings_count ≡ length st.bindings % word

abbrev pub AllNamed : List CredentialRef → Type 0
AllNamed [] = Unit
AllNamed (r ∷ refs) = (r.credential_id ≢ "") × AllNamed refs

-- What the validation of a model's credential list guarantees: positive weights, no empty id.
pub record IsConfigured (refs : List CredentialRef) : Type 0 where
  pub positive : AllPositive refs
  pub named : AllNamed refs

pub new_model_state-IsValid : (rng : ℕ → ℕ) → IsValid (new_model_state rng)
unfolding new_model_state new_weighted_selector lookup
new_model_state-IsValid rng = record {
  built = refl;
  bindings_distinct = tt;
  cooldowns_distinct = tt;
  no_empty_key = refl;
  counted = omega arith;
}

-- A pick changes at most the generator.
pub pick_healthy_frame :
    (st : ModelState) (now : ℕ)
    → ((pick_healthy st now).1 ≡ st) ⊎ ((pick_healthy st now).1 ≡ advance st)
unfolding pick_healthy
pick_healthy_frame st now =
    elim (Option-cases (choose_healthy st.selector st.cooldowns st.credentials now (st.rng 0))) [
      | inl e ↦ inl (rw (e, pick_healthy))
      | inr (id, e) ↦ inr (rw (e, pick_healthy))
    ]

pub advance-IsValid : (st : ModelState) → IsValid st → IsValid (advance st)
advance-IsValid st v = assumption

pub pick_healthy-IsValid :
    (st : ModelState) (now : ℕ) → IsValid st → IsValid (pick_healthy st now).1
pick_healthy-IsValid st now v = elim (pick_healthy_frame st now) [
  | inl e ↦ rw e v
  | inr e ↦ rw e (advance-IsValid st v)
]
