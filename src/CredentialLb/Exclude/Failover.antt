-- ===== src/CredentialLb/Exclude/Failover.antt =====
-- ExcludeAndReselect: the failed credential cools, and the answer is another one.
use llm_supervisor_proxy.Support.Int.{ℤ, pos, ◌<ℤ◌}
use llm_supervisor_proxy.Support.Assoc.{
  Map, lookup, lookup-insert, insert-Distinct, length-insert_new, length-insert_old,
}
use llm_supervisor_proxy.Support.{
  ℕ, ◌<◌, ◌≡◌, ◌≢◌, ◌∙◌, sym, subst, true, false, ◌||◌, String, [], some, str_eq, str_eq_refl,
  arith, Bool-cases, Option-cases, inl, inr, length, ◌==◌,
}
use llm_supervisor_proxy.CredentialLb.State.{Binding, ModelState, is_cooling, pick_healthy}
use llm_supervisor_proxy.CredentialLb.State.Validity.{IsValid, pick_healthy-IsValid}
use llm_supervisor_proxy.CredentialLb.State.Healthy.{healthy_refs, pick_healthy_cases}
use llm_supervisor_proxy.CredentialLb.State.Soonest.{IsSoonest}
use llm_supervisor_proxy.CredentialLb.Select.{Others, alone}
use llm_supervisor_proxy.CredentialLb.Select.Validity.{Keeps}
use llm_supervisor_proxy.CredentialLb.Select.Safety.{IsReady, soonest_cooldown_lem}
use llm_supervisor_proxy.CredentialLb.Exclude.{
  reselect_healthy, reselect_soonest_expiry, reselect_none, Reselection, add_time, mark_cooling,
  rebind, count_failover, reselect_soonest, reselect, moved_away, exclude_locked, exclude,
}

mark_cooling-IsValid :
    (id : String) (until : ℕ) (st : ModelState) → IsValid st → IsValid (mark_cooling id until st)
unfolding mark_cooling
mark_cooling-IsValid id until st v = record {
  built = v.built;
  bindings_distinct = v.bindings_distinct;
  cooldowns_distinct = insert-Distinct id until st.cooldowns v.cooldowns_distinct;
  no_empty_key = v.no_empty_key;
  counted = v.counted;
}

rebind-IsValid :
    (key id : String) (now : ℕ) (st : ModelState)
    → str_eq key "" ≡ false
    → IsValid st
    → IsValid (rebind key id now st)
unfolding rebind
rebind-IsValid key id now st k v =
    let b : Binding = record { credential_id = id; bound_at = now } in
    record {
      built = v.built;
      bindings_distinct = insert-Distinct key _ st.bindings v.bindings_distinct;
      cooldowns_distinct = v.cooldowns_distinct;
      no_empty_key = rw (lookup-insert "" key b st.bindings, k) v.no_empty_key;
      counted = elim (Option-cases (lookup key st.bindings)) [
        | inl e ↦ ground (arith, e, length-insert_new key b st.bindings e, v.counted)
        | inr (w, e) ↦ ground (arith, e, length-insert_old key b w st.bindings e, v.counted)
      ];
    }

count_failover-IsValid : (st : ModelState) → IsValid st → IsValid (count_failover st)
count_failover-IsValid st v = assumption

reselect_soonest_frame : (now : ℕ) (st : ModelState) → (reselect_soonest now st).1 ≡ st
unfolding reselect_soonest
reselect_soonest_frame now st = ground arith

reselect-IsValid :
    (key excluded : String) (now : ℕ) (st : ModelState)
    → IsValid st
    → IsValid (reselect key excluded now st).1
unfolding reselect
reselect-IsValid key excluded now st v =
    let id = (pick_healthy st now).0 in
    let st' = (pick_healthy st now).1 in
    let v' = pick_healthy-IsValid st now v in
    elim (Bool-cases (str_eq id "" || str_eq id excluded)) [
      | inl e ↦ rw (e, reselect_soonest_frame now st') v'
      | inr e ↦ elim (Bool-cases (str_eq key "")) [
        | inl k ↦ rw (e, k) (count_failover-IsValid st' v')
        | inr k ↦
            rw (e, k)
              (rebind-IsValid key id now (count_failover st') k (count_failover-IsValid st' v'))
      ]
    ]

exclude_locked-IsValid :
    (cooldown : ℤ) (key excluded : String) (now : ℕ) (st : ModelState)
    → IsValid st
    → IsValid (exclude_locked cooldown key excluded now st).1
unfolding exclude_locked
exclude_locked-IsValid cooldown key excluded now st v =
    let marked = mark_cooling excluded (add_time now cooldown) st in
    let v' = mark_cooling-IsValid excluded (add_time now cooldown) st v in
    elim (Option-cases (moved_away key excluded now marked)) [
      | inl e ↦ rw (e, exclude_locked) (reselect-IsValid key excluded now marked v')
      | inr (id, e) ↦ rw (e, exclude_locked) v'
    ]

-- ExcludeAndReselect keeps the invariant of the state, if what runs between its locks keeps it.
pub exclude-IsValid :
    (others : Others) (cooldown : ℤ) (key excluded : String) (now : ℕ) (st : ModelState)
    → Keeps IsValid others
    → IsValid st
    → IsValid (exclude others cooldown key excluded now st).1
unfolding exclude
exclude-IsValid others cooldown key excluded now st keeps v =
    ground (arith, exclude_locked-IsValid cooldown key excluded now (others 0 st) (keeps 0 st v))

-- The promise of a reselection, on the state that the call leaves.
abbrev pub Reselects : String → String → ℕ → Reselection × ModelState → Type 0
Reselects key excluded now ((id, reselect_healthy), st) =
    (is_cooling st.cooldowns excluded now ≡ true)
    × (is_cooling st.cooldowns id now ≡ false)
    × (id ≢ excluded)
    × (key ≢ ""
        → (t : ℕ) × (lookup key st.bindings ≡ some (record { credential_id = id; bound_at = t })))
Reselects key excluded now ((id, reselect_soonest_expiry), st) =
    (is_cooling st.cooldowns excluded now ≡ true)
    × (healthy_refs st.cooldowns now st.credentials ≡ [])
    × IsSoonest st.cooldowns st.credentials id
Reselects key excluded now ((id, reselect_none), st) = ⊥

differs :
    (cooldowns : Map ℕ) (id excluded : String) (now : ℕ)
    → is_cooling cooldowns id now ≡ false
    → is_cooling cooldowns excluded now ≡ true
    → id ≢ excluded
differs cooldowns id excluded now c h e =
    absurd (ground (arith, sym c ∙ subst (λ x. is_cooling cooldowns x now ≡ true) (sym e) h))

reselect-Reselects :
    (key excluded : String) (now : ℕ) (st : ModelState)
    → IsReady st
    → is_cooling st.cooldowns excluded now ≡ true
    → Reselects key excluded now (reselect key excluded now st)
unfolding reselect reselect_soonest rebind
reselect-Reselects key excluded now st v h = elim (pick_healthy_cases st now v.valid v.configured) [
  | inl (e, none_left) ↦
      let (id, s, ne, _, least) = soonest_cooldown_lem now st v none_left in
      let ne' : str_eq id "" ≡ false = ground arith in
      rw (e, str_eq_refl "", s, ne') (h, none_left, least)
  | inr (id, e, healthy) ↦
      let ne = differs st.cooldowns id excluded now healthy.1 h in
      let usable : (str_eq id "" || str_eq id excluded) ≡ false = ground arith in
      elim (Bool-cases (str_eq key "")) [
        | inl k ↦ rw (e, usable, k) (h, healthy.1, ne, λ z. absurd (ground arith))
        | inr k ↦
            rw (e, usable, k)
              (
                h,
                healthy.1,
                ne,
                λ z. (now, rw (lookup-insert key key _ st.bindings, str_eq_refl key)),
              )
      ]
]

mark_cooling-IsReady :
    (id : String) (until : ℕ) (st : ModelState) → IsReady st → IsReady (mark_cooling id until st)
unfolding mark_cooling
mark_cooling-IsReady id until st v = record {
  valid = unfold mark_cooling in mark_cooling-IsValid id until st v.valid;
  configured = v.configured;
  present = v.present;
}

mark_cooling_cools :
    (id : String) (now : ℕ) (d : ℤ) (st : ModelState)
    → pos 0 <ℤ d
    → is_cooling (mark_cooling id (add_time now d) st).cooldowns id now ≡ true
unfolding mark_cooling is_cooling
mark_cooling_cools id now d st h =
    ground (arith, lookup-insert id id (add_time now d) st.cooldowns, str_eq_refl id)

moved_away-some :
    (key excluded : String) (now : ℕ) (st : ModelState) (id : String)
    → moved_away key excluded now st ≡ some id
    → (is_cooling st.cooldowns id now ≡ false)
      × ((t : ℕ) × (lookup key st.bindings ≡ some (record { credential_id = id; bound_at = t })))
unfolding moved_away
moved_away-some key excluded now st id h = elim (Option-cases (lookup key st.bindings)) [
  | inl e ↦ absurd (ground (arith, e))
  | inr (b, e) ↦ (ground (arith, e), (b.bound_at, e ∙ ground (arith, e)))
]

exclude_locked-Reselects :
    (cooldown : ℤ) (key excluded : String) (now : ℕ) (st : ModelState)
    → IsReady st
    → pos 0 <ℤ cooldown
    → Reselects key excluded now (exclude_locked cooldown key excluded now st)
unfolding exclude_locked
exclude_locked-Reselects cooldown key excluded now st v d =
    let marked = mark_cooling excluded (add_time now cooldown) st in
    let cools = mark_cooling_cools excluded now cooldown st d in
    elim (Option-cases (moved_away key excluded now marked)) [
      | inl e ↦
          rw (e, exclude_locked)
            (reselect-Reselects key excluded now marked
              (mark_cooling-IsReady excluded (add_time now cooldown) st v) cools)
      | inr (id, e) ↦
          let (cool, bound) = moved_away-some key excluded now marked id e in
          rw (e, exclude_locked)
            (cools, cool, differs marked.cooldowns id excluded now cool cools, λ z. bound)
    ]

-- On a model with two credentials or more, and whatever ready state others leave before the lock is
-- taken, a failover with a positive cooldown always has an answer, and afterwards the failed credential
-- cools. The answer `ReselectHealthy` is another credential that does not cool, and a conversation with
-- a key is bound to it. The answer `ReselectSoonestExpiry` comes only when every credential cools, and
-- gives one that is free soonest. `ReselectNone` does not occur.
pub exclude-Reselects :
    (others : Others) (cooldown : ℤ) (key excluded : String) (now : ℕ) (st : ModelState)
    → Keeps IsReady others
    → IsReady st
    → 1 < length st.credentials
    → pos 0 <ℤ cooldown
    → Reselects key excluded now (exclude others cooldown key excluded now st)
unfolding exclude
exclude-Reselects others cooldown key excluded now st keeps v many d =
    let n₀ : (length st.credentials == 0) ≡ false = ground arith in
    let n₁ : (length st.credentials == 1) ≡ false = ground arith in
    rw (n₀, n₁) (exclude_locked-Reselects cooldown key excluded now (others 0 st) (keeps 0 st v) d)

-- Two requests of one conversation fail on the same credential. If the first one moved the
-- conversation to `id`, which does not cool when the second one fails, then the second one gets `id`
-- as well: it extends the cooldown of the failed credential, and changes nothing else.
pub exclude_twice :
    (cooldown later_cooldown : ℤ) (key excluded id : String) (now later t : ℕ) (st : ModelState)
    → key ≢ ""
    → id ≢ excluded
    → 1 < length st.credentials
    → lookup key st.bindings ≡ some (record { credential_id = id; bound_at = t })
    → is_cooling st.cooldowns id later ≡ false
    → exclude alone later_cooldown key excluded later st
      ≡ ((id, reselect_healthy), mark_cooling excluded (add_time later later_cooldown) st)
unfolding exclude exclude_locked
exclude_twice d d' key excluded id now later t st ne diff many bound cool =
    let n₀ : (length st.credentials == 0) ≡ false = ground arith in
    let n₁ : (length st.credentials == 1) ≡ false = ground arith in
    let until = add_time later d' in
    let still : is_cooling (mark_cooling excluded until st).cooldowns id later ≡ false =
      unfold mark_cooling is_cooling in
      ground (arith, cool, lookup-insert id excluded until st.cooldowns) in
    let moved : moved_away key excluded later (mark_cooling excluded until st) ≡ some id =
      unfold moved_away mark_cooling in ground (arith, bound, still) in
    rw (n₀, n₁, moved, exclude_locked)
