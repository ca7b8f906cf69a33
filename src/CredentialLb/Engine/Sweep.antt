-- ===== src/CredentialLb/Engine/Sweep.antt =====
-- The janitor is not observable: a pass takes away only what GetOrSelect would pass over anyway.
use llm_supervisor_proxy.Support.Int.{ℤ}
use llm_supervisor_proxy.Support.Assoc.{
  Map, lookup, keep, Distinct, lookup-keep-none, lookup-keep-some,
}
use llm_supervisor_proxy.Support.{
  ℕ, ◌≤◌, ◌≡◌, refl, sym, ◌∙◌, Bool, true, false, not, ◌||◌, String, List, [], ◌∷◌, Option, none,
  some, ltb, str_eq, if◌then◌else◌, arith, Bool-cases, Option-cases, inl, inr, length, ◌==◌,
}
use llm_supervisor_proxy.CredentialLb.Selector.{CredentialRef}
use llm_supervisor_proxy.CredentialLb.State.{
  Binding, ModelState, expired, is_cooling, choose_healthy, pick_healthy, soonest_loop,
  soonest_cooldown,
}
use llm_supervisor_proxy.CredentialLb.State.Validity.{IsValid, IsConfigured}
use llm_supervisor_proxy.CredentialLb.State.Healthy.{
  healthy_refs, reference_choice, choose_healthy-reference,
}
use llm_supervisor_proxy.CredentialLb.Select.{
  Selection, selected, no_credentials, alone, usable, refresh, drop_binding, pick_soonest, pick_new,
  full_path, optimistic_read, bound_path, select, first_id,
}
use llm_supervisor_proxy.CredentialLb.Engine.{keep_bindings, sweep_state}
use llm_supervisor_proxy.CredentialLb.Engine.Validity.{sweep_state-IsValid}

module _ (now later : ℕ) (order : now ≤ later) where
  abbrev live : Map ℕ → Map ℕ
  live = keep (λ until. ltb now until)

  module _ (cooldowns : Map ℕ) (d : Distinct cooldowns) where
    is_cooling-live :
        (id : String) → is_cooling (live cooldowns) id later ≡ is_cooling cooldowns id later
    unfolding is_cooling
    is_cooling-live id = elim (Option-cases (lookup id cooldowns)) [
      | inl e ↦ ground (arith, e, lookup-keep-none (λ until. ltb now until) id cooldowns e)
      | inr (u, e) ↦ ground (arith, e, lookup-keep-some (λ until. ltb now until) id cooldowns u d e)
    ]

    healthy_refs-live :
        (refs : List CredentialRef)
        → healthy_refs (live cooldowns) later refs ≡ healthy_refs cooldowns later refs
    unfolding healthy_refs
    healthy_refs-live [] = refl
    healthy_refs-live (r ∷ refs) =
        ground (arith, healthy_refs-live refs, is_cooling-live r.credential_id)

    soonest_loop-live :
        (refs : List CredentialRef) (best : String) (best_until : ℕ)
        → soonest_loop (live cooldowns) later refs best best_until
          ≡ soonest_loop cooldowns later refs best best_until
    unfolding soonest_loop
    soonest_loop-live [] best bu = refl
    soonest_loop-live (r ∷ refs) best bu = elim (Option-cases (lookup r.credential_id cooldowns)) [
      | inl e ↦
          ground (arith, e, lookup-keep-none (λ until. ltb now until) r.credential_id cooldowns e)
      | inr (u, e) ↦ ground (
        arith,
        e,
        lookup-keep-some (λ until. ltb now until) r.credential_id cooldowns u d e,
        soonest_loop-live refs r.credential_id u,
        soonest_loop-live refs best bu,
      )
    ]

-- The answer of `pick_new` does not depend on the bindings.
abbrev new_answer : String → Option String → String × Bool → Selection
new_answer key none (soonest, all_cooling) =
    if not all_cooling || str_eq soonest "" then no_credentials else selected soonest false
new_answer key (some id) (soonest, all_cooling) =
    if str_eq id ""
    then (if not all_cooling || str_eq soonest "" then no_credentials else selected soonest false)
    else (if str_eq key "" then selected id false else selected id true)

pick_new_answer :
    (key : String) (now : ℕ) (st : ModelState)
    → (pick_new key now st).0
      ≡ new_answer key
          (choose_healthy st.selector st.cooldowns st.credentials now (st.rng 0))
          (soonest_cooldown st now)
unfolding pick_new pick_soonest pick_healthy soonest_cooldown
pick_new_answer key now st =
    elim (Option-cases (choose_healthy st.selector st.cooldowns st.credentials now (st.rng 0))) [
      | inl e ↦ rw (e, pick_healthy) (ground arith)
      | inr (id, e) ↦ rw (e, pick_healthy) (ground arith)
    ]

-- The answer of a call that nobody interrupts, as a function of what the bindings say of the key.
abbrev bound_answer : ℤ → ℕ → ModelState → Selection → Option Binding → Selection
bound_answer ttl now st fresh none = fresh
bound_answer ttl now st fresh (some b) =
    if usable ttl now st b then selected b.credential_id false else fresh

module _ (ttl : ℤ) (key : String) (now : ℕ) (st : ModelState) where
  unfoldable fresh_answer : Selection
  fresh_answer =
      new_answer key (choose_healthy st.selector st.cooldowns st.credentials now (st.rng 0))
        (soonest_cooldown st now)

  unfoldable path_answer : Selection
  path_answer =
      if str_eq key ""
      then fresh_answer
      else bound_answer ttl now st fresh_answer (lookup key st.bindings)

  full_path_answer : (full_path ttl key now st).0 ≡ path_answer
  unfolding full_path path_answer
  full_path_answer = elim (Bool-cases (str_eq key "")) [
    | inl k ↦ rw k (unfold fresh_answer in pick_new_answer key now st)
    | inr k ↦ elim (Option-cases (lookup key st.bindings)) [
      | inl e ↦ rw (k, e, full_path) (unfold fresh_answer in pick_new_answer key now st)
      | inr (b, e) ↦ elim (Bool-cases (usable ttl now st b)) [
        | inl u ↦ rw (k, e, full_path, u)
        | inr u ↦
            rw (k, e, full_path, u)
              (unfold fresh_answer drop_binding soonest_cooldown in
                pick_new_answer key now (drop_binding key st))
      ]
    ]
  ]

  bound_path_answer : (bound_path alone ttl key now st).0 ≡ path_answer
  unfolding bound_path path_answer
  bound_path_answer = elim (Bool-cases (str_eq key "")) [
    | inl k ↦ rw k (full_path_answer ∙ unfold path_answer in rw k)
    | inr k ↦ elim (Option-cases (optimistic_read ttl key now st)) [
      | inl e ↦ rw (k, e, bound_path) (full_path_answer ∙ unfold path_answer in rw k)
      | inr (hit, e) ↦ elim (Option-cases (refresh ttl key now hit st)) [
        | inl r ↦ rw (k, e, bound_path, r) (full_path_answer ∙ unfold path_answer in rw k)
        | inr (st', r) ↦ rw (k, e, bound_path, r) (read_hit hit e)
      ]
    ]
  ]
    where
      read_hit :
          (hit : String)
          → optimistic_read ttl key now st ≡ some hit
          → selected hit false ≡ bound_answer ttl now st fresh_answer (lookup key st.bindings)
      read_hit hit e = elim (Option-cases (lookup key st.bindings)) [
        | inl n ↦ unfold optimistic_read in ground (arith, e, n)
        | inr (b, n) ↦ unfold optimistic_read in ground (arith, e, n)
      ]

  unfoldable select_answer : Selection
  select_answer =
      if length st.credentials == 0
      then no_credentials
      else (if length st.credentials == 1
          then selected (first_id st.credentials) false
          else path_answer)

  select_answer_lem : (select alone ttl key now st).0 ≡ select_answer
  unfolding select select_answer
  select_answer_lem = ground (arith, bound_path_answer)

module _ (ttl : ℤ) (key : String) (now later : ℕ) (st : ModelState) (order : now ≤ later)
    (v : IsValid st) (c : IsConfigured st.credentials) where
  unfoldable swept : ModelState
  unfolding sweep_state keep_bindings
  swept = sweep_state ttl now st

  choose-swept :
      choose_healthy swept.selector swept.cooldowns swept.credentials later (swept.rng 0)
      ≡ choose_healthy st.selector st.cooldowns st.credentials later (st.rng 0)
  unfolding swept reference_choice
  choose-swept =
      choose_healthy-reference swept later (st.rng 0) (sweep_state-IsValid ttl now st v) c
      ∙ (rw (healthy_refs-live now later order st.cooldowns v.cooldowns_distinct st.credentials))
      ∙ sym (choose_healthy-reference st later (st.rng 0) v c)

  fresh-swept : fresh_answer ttl key later swept ≡ fresh_answer ttl key later st
  unfolding fresh_answer soonest_cooldown
  fresh-swept = rw (choose-swept) (
      unfold swept in
      rw (soonest_loop-live now later order st.cooldowns v.cooldowns_distinct st.credentials "" 0))

  usable-swept : (b : Binding) → usable ttl later swept b ≡ usable ttl later st b
  unfolding usable swept
  usable-swept b =
      rw (is_cooling-live now later order st.cooldowns v.cooldowns_distinct b.credential_id)

  expired_later : (b : Binding) → expired b ttl now ≡ true → usable ttl later st b ≡ false
  unfolding usable expired
  expired_later b h = ground arith

  bound-swept :
      (fresh : Selection)
      → bound_answer ttl later swept fresh (lookup key swept.bindings)
        ≡ bound_answer ttl later st fresh (lookup key st.bindings)
  bound-swept fresh = elim (Option-cases (lookup key st.bindings)) [
    | inl e ↦
        let gone : lookup key swept.bindings ≡ none =
          unfold swept in lookup-keep-none (λ b. not (expired b ttl now)) key st.bindings e in
        rw (e, gone)
    | inr (b, e) ↦
        let found : lookup key swept.bindings ≡ (if not (expired b ttl now) then some b else none) =
          unfold swept in
          lookup-keep-some (λ b'. not (expired b' ttl now)) key st.bindings b v.bindings_distinct
            e in
        elim (Bool-cases (expired b ttl now)) [
          | inl old ↦ rw (found, e, old, expired_later b old)
          | inr new ↦ rw (found, e, new, usable-swept b)
        ]
  ]

  -- A janitor pass at any time up to a call of GetOrSelect does not change the answer of the call: the
  -- same credential, the same `newlyBound`, with the same draw of the generator. The state is valid and
  -- its credentials are as the validation admits them; nothing else runs in between.
  pub select-sweep :
      (select alone ttl key later (sweep_state ttl now st)).0 ≡ (select alone ttl key later st).0
  unfolding select_answer path_answer
  select-sweep =
      select_answer_lem ttl key later (sweep_state ttl now st)
      ∙ unfold swept in
        (rw (fresh-swept, bound-swept (fresh_answer ttl key later st)))
        ∙ sym (select_answer_lem ttl key later st)
