-- ===== src/CredentialLb/Select/Safety.antt =====
-- GetOrSelect gives a credential that is not cooling whenever there is one, and else the one that is
-- free soonest.
use llm_supervisor_proxy.Support.Int.{ℤ}
use llm_supervisor_proxy.Support.Assoc.{lookup}
use llm_supervisor_proxy.Support.{
  ℕ, ◌<◌, ◌≡◌, ◌≢◌, refl, sym, subst, str_eq_refl, Bool, true, false, ◌||◌, String, List, [], some,
  str_eq, arith, Bool-cases, Option-cases, List-cases, inl, inr, ◌⊎◌, length, ◌==◌,
}
use llm_supervisor_proxy.CredentialLb.Selector.{CredentialRef}
use llm_supervisor_proxy.CredentialLb.State.{
  Binding, ModelState, credential_in_refs, is_cooling, soonest_cooldown, soonest_loop,
}
use llm_supervisor_proxy.CredentialLb.State.Validity.{IsValid, IsConfigured, AllNamed}
use llm_supervisor_proxy.CredentialLb.State.Healthy.{healthy_refs, pick_healthy_cases}
use llm_supervisor_proxy.CredentialLb.State.Soonest.{IsSoonest, soonest_loop_all}
use llm_supervisor_proxy.CredentialLb.Select.{
  Selection, selected, no_credentials, Others, usable, touch_binding, refresh, drop_binding, bind,
  pick_soonest, pick_new, full_path, optimistic_read, bound_path, select,
}
use llm_supervisor_proxy.CredentialLb.Select.Validity.{Keeps, drop_binding-IsValid}

-- A valid state of a model that has credentials, as its validation admits them.
pub record IsReady (st : ModelState) : Type 0 where
  pub valid : IsValid st
  pub configured : IsConfigured st.credentials
  pub present : st.credentials ≢ []

-- The promise of a selection, on the state that the call leaves: its credential is one of the model's
-- or one of `seen`, and it does not cool unless all of them do.
abbrev pub IsSafe : List CredentialRef → ℕ → Selection × ModelState → Type 0
IsSafe seen now (no_credentials, st) = ⊥
IsSafe seen now (selected id newly_bound, st) =
    (credential_in_refs st.credentials id || credential_in_refs seen id ≡ true)
    × ((is_cooling st.cooldowns id now ≡ false)
        ⊎ ((healthy_refs st.cooldowns now st.credentials ≡ [])
            × (newly_bound ≡ false)
            × IsSoonest st.cooldowns st.credentials id))

one_of : (a b : Bool) → a ≡ true → a || b ≡ true
one_of a b h = ground (arith, h)

the_other : (a b : Bool) → b ≡ true → a || b ≡ true
the_other a b h = ground (arith, h)

pub soonest_cooldown_lem :
    (now : ℕ) (st : ModelState)
    → IsReady st
    → healthy_refs st.cooldowns now st.credentials ≡ []
    → (id : String) × (soonest_cooldown st now ≡ (id, true))
      × (id ≢ "")
      × (credential_in_refs st.credentials id ≡ true)
      × IsSoonest st.cooldowns st.credentials id
unfolding soonest_cooldown
soonest_cooldown_lem now st v h = elim (List-cases st.credentials) [
  | inl e ↦ absurd (v.present e)
  | inr (r, refs, e) ↦
      let (id, found, ne, m, s) =
        soonest_loop_all st.cooldowns now r refs (subst (λ l. AllNamed l) e v.configured.named)
          (subst (λ l. healthy_refs st.cooldowns now l ≡ []) e h) in
      (
        id,
        subst (λ l. soonest_loop st.cooldowns now l "" 0 ≡ (id, true)) (sym e) found,
        ne,
        subst (λ l. credential_in_refs l id ≡ true) (sym e) m,
        subst (λ l. IsSoonest st.cooldowns l id) (sym e) s,
      )
]

pick_soonest-IsSafe :
    (seen : List CredentialRef) (now : ℕ) (st : ModelState)
    → IsReady st
    → healthy_refs st.cooldowns now st.credentials ≡ []
    → IsSafe seen now (pick_soonest now st)
unfolding pick_soonest
pick_soonest-IsSafe seen now st v h =
    let (id, e, ne, m, s) = soonest_cooldown_lem now st v h in
    let ne' : str_eq id "" ≡ false = ground arith in rw (e, ne') (one_of _ _ m, inr (h, refl, s))

pub pick_new-IsSafe :
    (seen : List CredentialRef) (key : String) (now : ℕ) (st : ModelState)
    → IsReady st
    → IsSafe seen now (pick_new key now st)
unfolding pick_new bind
pick_new-IsSafe seen key now st v = elim (pick_healthy_cases st now v.valid v.configured) [
  | inl (e, h) ↦ rw (e, str_eq_refl "") (pick_soonest-IsSafe seen now st v h)
  | inr (id, e, healthy) ↦
      let ne' : str_eq id "" ≡ false = ground arith in
      elim (Bool-cases (str_eq key "")) [
        | inl k ↦ rw (e, ne', k) (one_of _ _ healthy.0, inl healthy.1)
        | inr k ↦ rw (e, ne', k) (one_of _ _ healthy.0, inl healthy.1)
      ]
]

pub drop_binding-IsReady :
    (key : String) (b : Binding) (st : ModelState)
    → lookup key st.bindings ≡ some b
    → IsReady st
    → IsReady (drop_binding key st)
unfolding drop_binding
drop_binding-IsReady key b st h v = record {
  valid = unfold drop_binding in drop_binding-IsValid key b st h v.valid;
  configured = v.configured;
  present = v.present;
}

kept-IsSafe :
    (ttl : ℤ) (key : String) (now : ℕ) (st : ModelState) (b : Binding) (seen : List CredentialRef)
    → usable ttl now st b ≡ true
    → IsSafe seen now (selected b.credential_id false, touch_binding key now b st)
unfolding usable touch_binding
kept-IsSafe ttl key now st b seen u = (ground (arith, u), inl (ground (arith, u)))

pub full_path-IsSafe :
    (seen : List CredentialRef) (ttl : ℤ) (key : String) (now : ℕ) (st : ModelState)
    → IsReady st
    → IsSafe seen now (full_path ttl key now st)
unfolding full_path
full_path-IsSafe seen ttl key now st v = elim (Bool-cases (str_eq key "")) [
  | inl k ↦ rw k (pick_new-IsSafe seen key now st v)
  | inr k ↦ elim (Option-cases (lookup key st.bindings)) [
    | inl e ↦ rw (k, e, full_path) (pick_new-IsSafe seen key now st v)
    | inr (b, e) ↦ elim (Bool-cases (usable ttl now st b)) [
      | inl u ↦ rw (k, e, full_path, u) (kept-IsSafe ttl key now st b seen u)
      | inr u ↦
          rw (k, e, full_path, u)
            (pick_new-IsSafe seen key now (drop_binding key st) (drop_binding-IsReady key b st e v))
    ]
  ]
]

optimistic_member :
    (ttl : ℤ) (key : String) (now : ℕ) (st : ModelState) (hit : String)
    → optimistic_read ttl key now st ≡ some hit
    → credential_in_refs st.credentials hit ≡ true
unfolding optimistic_read usable
optimistic_member ttl key now st hit h = elim (Option-cases (lookup key st.bindings)) [
  | inl e ↦ ground (arith, h, e)
  | inr (b, e) ↦ ground (arith, h, e)
]

refresh_cool :
    (ttl : ℤ) (key : String) (now : ℕ) (hit : String) (st : ModelState) (st' : ModelState)
    → refresh ttl key now hit st ≡ some st'
    → is_cooling st'.cooldowns hit now ≡ false
unfolding refresh touch_binding
refresh_cool ttl key now hit st st' h = elim (Option-cases (lookup key st.bindings)) [
  | inl e ↦ ground (arith, e)
  | inr (b, e) ↦ ground (arith, e)
]

-- A model with two credentials or more always gets one, also when other calls run between the locks.
-- It is one of the model's credentials, as the call leaves them or, when another call replaced them
-- meanwhile, as they were at the optimistic read. It is not cooling in the state that the call leaves,
-- or, when every credential of that state cools, it is the one that is free soonest, with no new binding. The others must leave the model ready:
-- valid, configured as its validation admits, with credentials.
pub select-IsSafe :
    (others : Others) (ttl : ℤ) (key : String) (now : ℕ) (st : ModelState)
    → Keeps IsReady others
    → IsReady st
    → 1 < length st.credentials
    → IsSafe (others 0 st).credentials now (select others ttl key now st)
unfolding select bound_path
select-IsSafe others ttl key now st keeps v many =
    let n₀ : (length st.credentials == 0) ≡ false = ground arith in
    let n₁ : (length st.credentials == 1) ≡ false = ground arith in
    let s₀ = others 0 st in
    let v₀ = keeps 0 st v in
    rw (n₀, n₁)
      (elim (Bool-cases (str_eq key "")) [
        | inl k ↦ rw k (full_path-IsSafe s₀.credentials ttl key now s₀ v₀)
        | inr k ↦ elim (Option-cases (optimistic_read ttl key now s₀)) [
          | inl e ↦
              rw (k, e, bound_path)
                (full_path-IsSafe s₀.credentials ttl key now (others 1 s₀) (keeps 1 s₀ v₀))
          | inr (hit, e) ↦ elim (Option-cases (refresh ttl key now hit (others 1 s₀))) [
            | inl r ↦
                rw (k, e, bound_path, r)
                  (full_path-IsSafe s₀.credentials ttl key now (others 2 (others 1 s₀))
                    (keeps 2 _ (keeps 1 s₀ v₀)))
            | inr (st', r) ↦
                rw (k, e, bound_path, r)
                  (
                    the_other _ _ (optimistic_member ttl key now s₀ hit e),
                    inl (refresh_cool ttl key now hit (others 1 s₀) st' r),
                  )
          ]
        ]
      ])
