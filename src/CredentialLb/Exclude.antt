-- ===== src/CredentialLb/Exclude.antt =====
-- pkg/credentiallb/engine.go, ExcludeAndReselect on the state of one model: the failed credential
-- cools, and its conversation moves to another one.
pub mod Failover
use llm_supervisor_proxy.Support.Int.{ℤ, pos_part, neg_part}
use llm_supervisor_proxy.Support.Assoc.{lookup, insert}
use llm_supervisor_proxy.Support.{
  ℕ, ◌+◌, ◌-◌, Bool, true, false, not, ◌&&◌, ◌||◌, String, Option, none, some, ◌==◌, str_eq, length,
  if◌then◌else◌,
}
use llm_supervisor_proxy.CredentialLb.State.{
  Binding, ModelState, inc, is_cooling, pick_healthy, soonest_cooldown,
}
use llm_supervisor_proxy.CredentialLb.Select.{Others}

pub data ReselectMode : Type 0 where
  reselect_healthy reselect_soonest_expiry reselect_none : ReselectMode

abbrev pub Reselection : Type 0
Reselection = String × ReselectMode

-- `now.Add(d)`, for times after the epoch of the clock.
abbrev pub add_time : ℕ → ℤ → ℕ
add_time now d = now + pos_part d - neg_part d

unfoldable pub mark_cooling : String → ℕ → ModelState → ModelState
mark_cooling id until st = record st { cooldowns = insert id until st.cooldowns }

-- The write of the new binding; an entry that is not there yet is counted.
unfoldable pub rebind : String → String → ℕ → ModelState → ModelState
rebind key id now st = record st {
  bindings_count = elim (lookup key st.bindings) [
    | none ↦ inc st.bindings_count
    | some _ ↦ st.bindings_count
  ];
  bindings = insert key (record { credential_id = id; bound_at = now }) st.bindings;
}

abbrev pub count_failover : ModelState → ModelState
count_failover st = record st { failovers_total = inc st.failovers_total }

unfoldable pub reselect_soonest : ℕ → ModelState → Reselection × ModelState
reselect_soonest now st =
    let (soonest, all_cooling) = soonest_cooldown st now in
    if not all_cooling || str_eq soonest ""
    then (("", reselect_none), st)
    else ((soonest, reselect_soonest_expiry), st)

unfoldable pub reselect : String → String → ℕ → ModelState → Reselection × ModelState
reselect key excluded now st =
    let (id, st') = pick_healthy st now in
    if str_eq id "" || str_eq id excluded
    then reselect_soonest now st'
    else (if str_eq key ""
        then ((id, reselect_healthy), count_failover st')
        else ((id, reselect_healthy), rebind key id now (count_failover st')))

-- A binding that a concurrent request has moved to a healthy credential is kept.
unfoldable pub moved_away : String → String → ℕ → ModelState → Option String
moved_away key excluded now st = if str_eq key "" then none else elim (lookup key st.bindings) [
  | none ↦ none
  | some b ↦
      if not (str_eq b.credential_id excluded) && not (is_cooling st.cooldowns b.credential_id now)
      then some b.credential_id
      else none
]

unfoldable pub exclude_locked : ℤ → String → String → ℕ → ModelState → Reselection × ModelState
exclude_locked cooldown key excluded now st =
    let st' = mark_cooling excluded (add_time now cooldown) st in
    elim (moved_away key excluded now st') [
      | some id ↦ ((id, reselect_healthy), st')
      | none ↦ reselect key excluded now st'
    ]

-- `others 0` acts between the count of the credentials and the write lock.
unfoldable pub exclude : Others → ℤ → String → String → ℕ → ModelState → Reselection × ModelState
exclude others cooldown key excluded now st =
    if length st.credentials == 0
    then (("", reselect_none), st)
    else (if length st.credentials == 1
        then (("", reselect_none), st)
        else exclude_locked cooldown key excluded now (others 0 st))
