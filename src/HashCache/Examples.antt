-- ===== src/HashCache/Examples.antt =====
-- Runs of the hash cache, and the theorems at concrete caches.
use llm_supervisor_proxy.Support.Int.{pos}
use llm_supervisor_proxy.Support.Assoc.{lookup, insert, delete}
use llm_supervisor_proxy.Support.{◌≡◌, refl, [], ◌∷◌, dec_str, arith}
use llm_supervisor_proxy.HashCache.{
  HashCache, new_hash_cache, contains_loop, contains, evict, insert_locked, record_attempt,
  store_if_absent, find_loop, close_gap, shift_down, remove_at, remove, reset, get_stats,
}
use llm_supervisor_proxy.HashCache.Ring.{IsRing, window}
use llm_supervisor_proxy.HashCache.Queue.{
  new_hash_cache-IsRing, Requested, record_attempt-Requested,
}
use llm_supervisor_proxy.HashCache.Attempts.{run, mentions, others, attempt_number}

program : Unit {0}
unfolding dec_str lookup insert delete window run mentions others new_hash_cache contains_loop
    contains evict insert_locked record_attempt store_if_absent find_loop close_gap shift_down
    remove_at remove reset get_stats
program = tt

abbrev small : HashCache
small = new_hash_cache (pos 3)

abbrev two_seen : HashCache
two_seen = run small ("a" ∷ "b" ∷ [])

abbrev full : HashCache
full = run small ("a" ∷ "b" ∷ "c" ∷ [])

window_runs : window (run full ("d" ∷ [])) ≡ "b" ∷ "c" ∷ "d" ∷ []
unfolding window run record_attempt contains contains_loop insert_locked evict new_hash_cache
    dec_str insert delete lookup
window_runs = refl

stats_run : get_stats full ≡ (3, 3)
unfolding program
stats_run = refl

stored_run : store_if_absent full "c" ≡ full
unfolding program
stored_run = refl

abbrev small-IsRing : IsRing small
small-IsRing = new_hash_cache-IsRing (pos 3)

full-IsRing : IsRing full
unfolding run
full-IsRing =
    let one = record_attempt-Requested small "a" small-IsRing in
    let two = record_attempt-Requested (record_attempt small "a").1 "b" one.0 in
    (record_attempt-Requested (record_attempt (record_attempt small "a").1 "b").1 "c" two.0).0

record_attempt-Requested_example : Requested full.size (window full) "d" (record_attempt full "d").1
record_attempt-Requested_example = record_attempt-Requested full "d" full-IsRing

attempt_number_example :
    ((record_attempt full "d").0 ≡ 1)
    × ((record_attempt (run (record_attempt full "d").1 ("d" ∷ "a" ∷ "d" ∷ "b" ∷ [])) "d").0 ≡ 4)
unfolding program
attempt_number_example =
    attempt_number "d" full ("d" ∷ "a" ∷ "d" ∷ "b" ∷ []) full-IsRing refl (omega arith)
