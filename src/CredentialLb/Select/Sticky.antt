-- ===== src/CredentialLb/Select/Sticky.antt =====
-- A conversation keeps its credential: GetOrSelect answers from the binding while it is used again
-- within the idle window.
use llm_supervisor_proxy.Support.Int.{ℤ, pos, ◌≤ℤ◌}
use llm_supervisor_proxy.Support.Assoc.{Map, lookup, lookup-insert}
use llm_supervisor_proxy.Support.{
  ℕ, ◌-◌, ◌<◌, ◌≤◌, ◌≡◌, ◌≢◌, refl, subst, true, false, String, List, [], ◌∷◌, some, str_eq,
  str_eq_refl, arith, Bool-cases, Option-cases, inl, inr, length, ◌==◌,
}
use llm_supervisor_proxy.CredentialLb.State.{
  Binding, expired, ModelState, is_cooling, credential_in_refs,
}
use llm_supervisor_proxy.CredentialLb.State.Healthy.{pick_healthy_cases}
use llm_supervisor_proxy.CredentialLb.Select.{
  Selection, selected, no_credentials, alone, usable, touch_binding, refresh, drop_binding, bind,
  pick_soonest, pick_new, full_path, optimistic_read, bound_path, select,
}
use llm_supervisor_proxy.CredentialLb.Select.Safety.{IsReady, drop_binding-IsReady}

-- The binding that `id` was given, or confirmed, at time `t`.
pub record IsPinned (key id : String) (t : ℕ) (st : ModelState) : Type 0 where
  pub bound : lookup key st.bindings ≡ some (record { credential_id = id; bound_at = t })
  pub listed : credential_in_refs st.credentials id ≡ true
  pub cool : is_cooling st.cooldowns id t ≡ false
  pub many : 1 < length st.credentials

module _ (ttl : ℤ) (key : String) where
  -- A usable binding answers, its idle window starts again, and the hit is counted: nothing else.
  pub select_hit :
      (now : ℕ) (st : ModelState) (b : Binding)
      → key ≢ ""
      → 1 < length st.credentials
      → lookup key st.bindings ≡ some b
      → usable ttl now st b ≡ true
      → select alone ttl key now st ≡ (selected b.credential_id false, touch_binding key now b st)
  unfolding select bound_path
  select_hit now st b ne many e u =
      let n₀ : (length st.credentials == 0) ≡ false = ground arith in
      let n₁ : (length st.credentials == 1) ≡ false = ground arith in
      let k : str_eq key "" ≡ false = ground arith in
      let o : optimistic_read ttl key now st ≡ some b.credential_id =
        unfold optimistic_read in rw (e, optimistic_read, u) in
      let r : refresh ttl key now b.credential_id st ≡ some (touch_binding key now b st) =
        unfold refresh usable in rw (e, refresh) (ground arith) in
      rw (n₀, n₁, k, o, bound_path, r)

  still_cool :
      (cooldowns : Map ℕ) (id : String) (t u : ℕ)
      → t ≤ u
      → is_cooling cooldowns id t ≡ false
      → is_cooling cooldowns id u ≡ false
  unfolding is_cooling
  still_cool cooldowns id t u h c = ground arith

  pinned_usable :
      (id : String) (t u : ℕ) (st : ModelState)
      → IsPinned key id t st
      → t ≤ u
      → pos (u - t) ≤ℤ ttl
      → usable ttl u st (record { credential_id = id; bound_at = t }) ≡ true
  unfolding usable expired
  pinned_usable id t u st p h w = ground (arith, p.listed, still_cool st.cooldowns id t u h p.cool)

  touch-IsPinned :
      (id : String) (t u : ℕ) (st : ModelState)
      → IsPinned key id t st
      → t ≤ u
      → IsPinned key id u (touch_binding key u (record { credential_id = id; bound_at = t }) st)
  unfolding touch_binding
  touch-IsPinned id t u st p h = record {
    bound = rw (lookup-insert key key _ st.bindings, str_eq_refl key);
    listed = p.listed;
    cool = still_cool st.cooldowns id t u h p.cool;
    many = p.many;
  }

  -- The answers to calls at the given times, one after the other.
  pub answers : ModelState → List ℕ → List Selection
  answers st [] = []
  answers st (u ∷ times) = let (s, st') = select alone ttl key u st in s ∷ answers st' times

  -- Each call comes within the idle window of the one before.
  abbrev pub Spaced : ℕ → List ℕ → Type 0
  Spaced t [] = Unit
  Spaced t (u ∷ times) = (t ≤ u) × (pos (u - t) ≤ℤ ttl) × Spaced u times

  abbrev pub AllAnswer : String → List Selection → Type 0
  AllAnswer id [] = Unit
  AllAnswer id (s ∷ rest) = (s ≡ selected id false) × AllAnswer id rest

  pinned_answers :
      (id : String) (t : ℕ) (st : ModelState) (times : List ℕ)
      → key ≢ ""
      → IsPinned key id t st
      → Spaced t times
      → AllAnswer id (answers st times)
  unfolding answers
  pinned_answers id t st [] ne p s = tt
  pinned_answers id t st (u ∷ times) ne p (h, w, s) =
      let b : Binding = record { credential_id = id; bound_at = t } in
      let e = select_hit u st b ne p.many p.bound (pinned_usable id t u st p h w) in
      rw e (
        refl,
        pinned_answers id u (touch_binding key u b st) times ne (touch-IsPinned id t u st p h) s,
      )

-- A call that reports a new binding has made it.
abbrev Binds : String → ℕ → Selection × ModelState → Type 0
Binds key now (selected id true, st) = IsPinned key id now st
Binds key now (selected id false, st) = Unit
Binds key now (no_credentials, st) = Unit

module _ (key : String) (now : ℕ) where
  pick_soonest-Binds : (st : ModelState) → Binds key now (pick_soonest now st)
  unfolding pick_soonest
  pick_soonest-Binds st = ground arith

  pick_new-Binds :
      (st : ModelState)
      → IsReady st
      → 1 < length st.credentials
      → Binds key now (pick_new key now st)
  unfolding pick_new bind
  pick_new-Binds st v many = elim (pick_healthy_cases st now v.valid v.configured) [
    | inl (e, h) ↦ rw (e, str_eq_refl "") (pick_soonest-Binds st)
    | inr (id, e, healthy) ↦
        let ne : str_eq id "" ≡ false = ground arith in
        elim (Bool-cases (str_eq key "")) [
          | inl k ↦ rw (e, ne, k) tt
          | inr k ↦
              rw (e, ne, k)
                (record {
                  bound = rw (lookup-insert key key _ st.bindings, str_eq_refl key);
                  listed = healthy.0;
                  cool = healthy.1;
                  many = many;
                })
        ]
  ]

  full_path-Binds :
      (ttl : ℤ) (st : ModelState)
      → IsReady st
      → 1 < length st.credentials
      → Binds key now (full_path ttl key now st)
  unfolding full_path
  full_path-Binds ttl st v many = elim (Bool-cases (str_eq key "")) [
    | inl k ↦ rw k (pick_new-Binds st v many)
    | inr k ↦ elim (Option-cases (lookup key st.bindings)) [
      | inl e ↦ rw (k, e, full_path) (pick_new-Binds st v many)
      | inr (b, e) ↦ elim (Bool-cases (usable ttl now st b)) [
        | inl u ↦ rw (k, e, full_path, u) tt
        | inr u ↦
            rw (k, e, full_path, u)
              (pick_new-Binds (drop_binding key st) (drop_binding-IsReady key b st e v)
                (unfold drop_binding in many))
      ]
    ]
  ]

  select-Binds :
      (ttl : ℤ) (st : ModelState) → IsReady st → Binds key now (select alone ttl key now st)
  unfolding select bound_path
  select-Binds ttl st v = elim (Bool-cases (length st.credentials == 0)) [
    | inl n₀ ↦ rw n₀ tt
    | inr n₀ ↦ elim (Bool-cases (length st.credentials == 1)) [
      | inl n₁ ↦ rw (n₀, n₁) tt
      | inr n₁ ↦
          let full = full_path-Binds ttl st v (ground arith) in
          rw (n₀, n₁)
            (elim (Bool-cases (str_eq key "")) [
              | inl k ↦ rw k full
              | inr k ↦ elim (Option-cases (optimistic_read ttl key now st)) [
                | inl e ↦ rw (k, e, bound_path) full
                | inr (hit, e) ↦ elim (Option-cases (refresh ttl key now hit st)) [
                  | inl r ↦ rw (k, e, bound_path, r) full
                  | inr (st', r) ↦ rw (k, e, bound_path, r) tt
                ]
              ]
            ])
    ]
  ]

-- Affinity: once a call has bound a conversation to a credential, every later call that comes within
-- the idle window of the call before it answers with that credential, not newly bound, however long
-- the conversation lasts. No other call on the model comes between, and its state is ready.
pub select_sticky :
    (ttl : ℤ) (key id : String) (now : ℕ) (st st' : ModelState) (times : List ℕ)
    → key ≢ ""
    → IsReady st
    → select alone ttl key now st ≡ (selected id true, st')
    → Spaced ttl key now times
    → AllAnswer ttl key id (answers ttl key st' times)
select_sticky ttl key id now st st' times ne v h s =
    pinned_answers ttl key id now st' times ne
      (subst (Binds key now) h (select-Binds key now ttl st v)) s
