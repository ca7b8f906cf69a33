-- ===== src/CredentialLb/Select.antt =====
-- pkg/credentiallb/engine.go, GetOrSelect on the state of one model. A call takes the model's lock
-- several times; `others` says what other goroutines do to the state while it holds no lock: `others
-- 0` after the count of the credentials, `others 1` between the optimistic read and the refresh,
-- `others 2` before the full path. With `alone` nobody else runs.
pub mod Validity
pub mod Safety
pub mod Sticky
use llm_supervisor_proxy.Support.Int.{ℤ}
use llm_supervisor_proxy.Support.Assoc.{lookup, insert, delete}
use llm_supervisor_proxy.Support.{
  ℕ, suc, Bool, true, false, not, ◌&&◌, ◌||◌, String, List, [], ◌∷◌, Option, none, some, ◌==◌,
  str_eq, length, if◌then◌else◌,
}
use llm_supervisor_proxy.CredentialLb.Selector.{CredentialRef}
use llm_supervisor_proxy.CredentialLb.State.{
  Binding, expired, ModelState, inc, dec, credential_in_refs, is_cooling, pick_healthy,
  soonest_cooldown,
}

-- What GetOrSelect returns: a credential and `newlyBound`, or ErrNoCredentials.
pub data Selection : Type 0 where
  selected : String → Bool → Selection
  no_credentials : Selection

abbrev pub Others : Type 0
Others = ℕ → ModelState → ModelState

abbrev pub alone : Others
alone _ st = st

-- The test of a binding: not expired, still configured, not cooling.
unfoldable pub usable : ℤ → ℕ → ModelState → Binding → Bool
usable ttl now st b =
    not (expired b ttl now)
    && credential_in_refs st.credentials b.credential_id
    && not (is_cooling st.cooldowns b.credential_id now)

-- The optimistic read under the read lock: the credential of a usable binding.
unfoldable pub optimistic_read : ℤ → String → ℕ → ModelState → Option String
optimistic_read ttl key now st = elim (lookup key st.bindings) [
  | none ↦ none
  | some b ↦ if usable ttl now st b then some b.credential_id else none
]

-- A hit restarts the idle window.
unfoldable pub touch_binding : String → ℕ → Binding → ModelState → ModelState
touch_binding key now b st = record st {
  bindings = insert key (record b { bound_at = now }) st.bindings;
  hits_total = inc st.hits_total;
}

-- The refresh under the write lock, after a second look at the binding.
unfoldable pub refresh : ℤ → String → ℕ → String → ModelState → Option ModelState
refresh ttl key now hit st = elim (lookup key st.bindings) [
  | none ↦ none
  | some b ↦
      if str_eq b.credential_id hit
        && not (expired b ttl now)
        && not (is_cooling st.cooldowns b.credential_id now)
      then some (touch_binding key now b st)
      else none
]

unfoldable pub drop_binding : String → ModelState → ModelState
drop_binding key st = record st {
  bindings = delete key st.bindings;
  bindings_count = dec st.bindings_count;
}

abbrev pub miss : ModelState → ModelState
miss st = record st { misses_total = inc st.misses_total }

unfoldable pub bind : String → String → ℕ → ModelState → ModelState
bind key id now st = record st {
  bindings = insert key (record { credential_id = id; bound_at = now }) st.bindings;
  bindings_count = inc st.bindings_count;
}

-- All credentials cool: the one that is free soonest, and no binding.
unfoldable pub pick_soonest : ℕ → ModelState → Selection × ModelState
pick_soonest now st =
    let (soonest, all_cooling) = soonest_cooldown st now in
    if not all_cooling || str_eq soonest ""
    then (no_credentials, st)
    else (selected soonest false, miss st)

unfoldable pub pick_new : String → ℕ → ModelState → Selection × ModelState
pick_new key now st =
    let (id, st') = pick_healthy st now in
    if str_eq id ""
    then pick_soonest now st'
    else (if str_eq key ""
        then (selected id false, miss st')
        else (selected id true, bind key id now (miss st')))

-- The full path under the write lock.
unfoldable pub full_path : ℤ → String → ℕ → ModelState → Selection × ModelState
full_path ttl key now st =
    if str_eq key "" then pick_new key now st else elim (lookup key st.bindings) [
      | none ↦ pick_new key now st
      | some b ↦
          if usable ttl now st b
          then (selected b.credential_id false, touch_binding key now b st)
          else pick_new key now (drop_binding key st)
    ]

-- The path through the optimistic read, for two credentials or more.
unfoldable pub bound_path : Others → ℤ → String → ℕ → ModelState → Selection × ModelState
bound_path others ttl key now st =
    if str_eq key "" then full_path ttl key now st else elim (optimistic_read ttl key now st) [
      | none ↦ full_path ttl key now (others 1 st)
      | some hit ↦ elim (refresh ttl key now hit (others 1 st)) [
        | some st' ↦ (selected hit false, st')
        | none ↦ full_path ttl key now (others 2 (others 1 st))
      ]
    ]

-- `credentials[0]`; a model in the engine's map has at least one.
unfoldable pub first_id : List CredentialRef → String
first_id [] = ""
first_id (r ∷ refs) = r.credential_id

unfoldable pub select : Others → ℤ → String → ℕ → ModelState → Selection × ModelState
select others ttl key now st =
    if length st.credentials == 0
    then (no_credentials, st)
    else (if length st.credentials == 1
        then (selected (first_id (others 0 st).credentials) false, others 0 st)
        else bound_path others ttl key now (others 0 st))
