-- ===== src/CredentialLb/Select/Validity.antt =====
-- GetOrSelect keeps the invariant of a model's state, whatever others do between its locks.
use llm_supervisor_proxy.Support.Int.{ℤ}
use llm_supervisor_proxy.Support.Assoc.{
  lookup, lookup-insert, lookup-delete, insert-Distinct, delete-Distinct, length-insert_new,
  length-insert_old, length-delete,
}
use llm_supervisor_proxy.Support.{
  ℕ, ◌≡◌, true, false, String, none, some, str_eq, arith, Bool-cases, Option-cases, inl, inr, ◌⊎◌,
}
use llm_supervisor_proxy.CredentialLb.State.{Binding, ModelState, pick_healthy}
use llm_supervisor_proxy.CredentialLb.State.Validity.{
  IsValid, pick_healthy-IsValid, pick_healthy_frame,
}
use llm_supervisor_proxy.CredentialLb.Select.{
  Others, usable, touch_binding, refresh, drop_binding, miss, bind, pick_soonest, pick_new,
  full_path, optimistic_read, bound_path, select,
}

touch_binding-IsValid :
    (key : String) (now : ℕ) (b : Binding) (st : ModelState)
    → str_eq key "" ≡ false
    → lookup key st.bindings ≡ some b
    → IsValid st
    → IsValid (touch_binding key now b st)
unfolding touch_binding
touch_binding-IsValid key now b st k h v = record {
  built = v.built;
  bindings_distinct = insert-Distinct key _ st.bindings v.bindings_distinct;
  cooldowns_distinct = v.cooldowns_distinct;
  no_empty_key = rw (lookup-insert "" key _ st.bindings, k) v.no_empty_key;
  counted = rw (length-insert_old key _ b st.bindings h) v.counted;
}

pub drop_binding-IsValid :
    (key : String) (b : Binding) (st : ModelState)
    → lookup key st.bindings ≡ some b
    → IsValid st
    → IsValid (drop_binding key st)
unfolding drop_binding
drop_binding-IsValid key b st h v = record {
  built = v.built;
  bindings_distinct = delete-Distinct key st.bindings v.bindings_distinct;
  cooldowns_distinct = v.cooldowns_distinct;
  no_empty_key = ground (arith, lookup-delete "" key st.bindings, v.no_empty_key);
  counted = omega (arith, length-delete key b st.bindings v.bindings_distinct h, v.counted);
}

bind-IsValid :
    (key id : String) (now : ℕ) (st : ModelState)
    → str_eq key "" ≡ false
    → lookup key st.bindings ≡ none
    → IsValid st
    → IsValid (bind key id now st)
unfolding bind
bind-IsValid key id now st k h v = record {
  built = v.built;
  bindings_distinct = insert-Distinct key _ st.bindings v.bindings_distinct;
  cooldowns_distinct = v.cooldowns_distinct;
  no_empty_key = rw (lookup-insert "" key _ st.bindings, k) v.no_empty_key;
  counted =
      rw (length-insert_new key (record { credential_id = id; bound_at = now }) st.bindings h)
        (omega (arith, v.counted));
}

miss-IsValid : (st : ModelState) → IsValid st → IsValid (miss st)
miss-IsValid st v = assumption

pick_soonest-IsValid : (now : ℕ) (st : ModelState) → IsValid st → IsValid (pick_soonest now st).1
unfolding pick_soonest
pick_soonest-IsValid now st v = ground (arith, miss-IsValid st v)

-- A pick leaves the bindings alone.
pub pick_healthy-bindings :
    (st : ModelState) (now : ℕ) → (pick_healthy st now).1.bindings ≡ st.bindings
pick_healthy-bindings st now = elim (pick_healthy_frame st now) [ inl e ↦ rw e | inr e ↦ rw e ]

pick_new-IsValid :
    (key : String) (now : ℕ) (st : ModelState)
    → ((str_eq key "" ≡ true) ⊎ (lookup key st.bindings ≡ none))
    → IsValid st
    → IsValid (pick_new key now st).1
unfolding pick_new
pick_new-IsValid key now st free v =
    let id = (pick_healthy st now).0 in
    let st' = (pick_healthy st now).1 in
    let v' = pick_healthy-IsValid st now v in
    elim (Bool-cases (str_eq id "")) [
      | inl e ↦ rw e (pick_soonest-IsValid now st' v')
      | inr e ↦ elim (Bool-cases (str_eq key "")) [
        | inl k ↦ rw (e, k) (miss-IsValid st' v')
        | inr k ↦
            rw (e, k)
              (bind-IsValid key id now (miss st') k
                (rw (pick_healthy-bindings st now) (ground arith)) (miss-IsValid st' v'))
      ]
    ]

drop_binding-absent :
    (key : String) (st : ModelState) → lookup key (drop_binding key st).bindings ≡ none
unfolding drop_binding
drop_binding-absent key st = ground (arith, lookup-delete key key st.bindings)

full_path-IsValid :
    (ttl : ℤ) (key : String) (now : ℕ) (st : ModelState)
    → IsValid st
    → IsValid (full_path ttl key now st).1
unfolding full_path
full_path-IsValid ttl key now st v = elim (Bool-cases (str_eq key "")) [
  | inl k ↦ rw k (pick_new-IsValid key now st (inl k) v)
  | inr k ↦ elim (Option-cases (lookup key st.bindings)) [
    | inl e ↦ rw (k, e, full_path) (pick_new-IsValid key now st (inr e) v)
    | inr (b, e) ↦ elim (Bool-cases (usable ttl now st b)) [
      | inl u ↦ rw (k, e, full_path, u) (touch_binding-IsValid key now b st k e v)
      | inr u ↦
          rw (k, e, full_path, u)
            (pick_new-IsValid key now (drop_binding key st) (inr (drop_binding-absent key st))
              (drop_binding-IsValid key b st e v))
    ]
  ]
]

refresh-IsValid :
    (ttl : ℤ) (key : String) (now : ℕ) (hit : String) (st : ModelState) {st' : ModelState}
    → str_eq key "" ≡ false
    → refresh ttl key now hit st ≡ some st'
    → IsValid st
    → IsValid st'
unfolding refresh
refresh-IsValid ttl key now hit st k h v = elim (Option-cases (lookup key st.bindings)) [
  | inl e ↦ ground (arith, e)
  | inr (b, e) ↦ ground (arith, e, touch_binding-IsValid key now b st k e v)
]

-- Whatever others do while no lock is held, provided that they keep the invariant themselves.
abbrev pub Keeps : (ModelState → Type 0) → Others → Type 0
Keeps P others = (i : ℕ) (st : ModelState) → P st → P (others i st)

bound_path-IsValid :
    (others : Others) (ttl : ℤ) (key : String) (now : ℕ) (st : ModelState)
    → Keeps IsValid others
    → IsValid st
    → IsValid (bound_path others ttl key now st).1
unfolding bound_path
bound_path-IsValid others ttl key now st keeps v = elim (Bool-cases (str_eq key "")) [
  | inl k ↦ rw k (full_path-IsValid ttl key now st v)
  | inr k ↦ elim (Option-cases (optimistic_read ttl key now st)) [
    | inl e ↦ rw (k, e, bound_path) (full_path-IsValid ttl key now (others 1 st) (keeps 1 st v))
    | inr (hit, e) ↦ elim (Option-cases (refresh ttl key now hit (others 1 st))) [
      | inl r ↦
          rw (k, e, bound_path, r)
            (full_path-IsValid ttl key now (others 2 (others 1 st)) (keeps 2 _ (keeps 1 st v)))
      | inr (st', r) ↦
          rw (k, e, bound_path, r)
            (refresh-IsValid ttl key now hit (others 1 st) k r (keeps 1 st v))
    ]
  ]
]

-- GetOrSelect keeps the invariant of the state, if what runs between its locks keeps it.
pub select-IsValid :
    (others : Others) (ttl : ℤ) (key : String) (now : ℕ) (st : ModelState)
    → Keeps IsValid others
    → IsValid st
    → IsValid (select others ttl key now st).1
unfolding select
select-IsValid others ttl key now st keeps v =
    ground (
      arith,
      keeps 0 st v,
      bound_path-IsValid others ttl key now (others 0 st) keeps (keeps 0 st v),
    )
