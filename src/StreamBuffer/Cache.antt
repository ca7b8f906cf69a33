-- ===== src/StreamBuffer/Cache.antt =====
-- pkg/proxy/stream_buffer.go, the cache of `GetAllRawBytesOnce`.
use llm_supervisor_proxy.Support.Int.{ℤ}
use llm_supervisor_proxy.Support.{
  ◌≡◌, refl, true, false, String, List, [], ◌∷◌, Option, arith, Bool-cases, inl, inr, ltb, length,
  ◌+◌,
}
use llm_supervisor_proxy.StreamBuffer.{
  Bytes, StreamBuffer, new_stream_buffer, invalidate_cache, append_chunk, add, close, join,
  get_all_raw_bytes, get_all_raw_bytes_once, prune, should_prune,
}
use llm_supervisor_proxy.StreamBuffer.Stream.{
  Op, added, closed, reads, prunes, takes_raw, Stream, start, read_chunks, prune_read, step, run,
}

-- A valid cache holds what the chunks hold.
unfoldable IsCoherent : StreamBuffer → Type 0
IsCoherent sb = sb.cache_valid ≡ true → sb.cached_raw_bytes ≡ join sb.chunks

invalid-IsCoherent : (sb : StreamBuffer) → sb.cache_valid ≡ false → IsCoherent sb
unfolding IsCoherent
invalid-IsCoherent sb e = λ h. absurd (ground (arith, e, h))

add-IsCoherent : (sb : StreamBuffer) (line : Bytes) → IsCoherent sb → IsCoherent (add sb line).1
unfolding add append_chunk invalidate_cache IsCoherent
add-IsCoherent sb line c = elim (Bool-cases sb.completed) [
  | inl e ↦ rw e c
  | inr e ↦ elim (Bool-cases (ltb sb.max_bytes (sb.total_len + (length line + 1)))) [
    | inl f ↦ rw (e, f) c
    | inr f ↦ rw (e, f) (λ h. absurd (ground (arith, h)))
  ]
]

close-IsCoherent :
    (sb : StreamBuffer) (err : Option String) → IsCoherent sb → IsCoherent (close sb err)
unfolding close invalidate_cache IsCoherent
close-IsCoherent sb err c = elim (Bool-cases sb.completed) [
  | inl e ↦ rw e c
  | inr e ↦ rw e (λ h. absurd (ground (arith, h)))
]

once-IsCoherent :
    (sb : StreamBuffer)
    → IsCoherent sb
    → ((get_all_raw_bytes_once sb).0 ≡ get_all_raw_bytes sb)
      × IsCoherent (get_all_raw_bytes_once sb).1
unfolding get_all_raw_bytes_once get_all_raw_bytes IsCoherent
once-IsCoherent sb c = elim (Bool-cases sb.cache_valid) [
  | inl e ↦ rw e (c e, λ h. c e)
  | inr e ↦ rw e (refl, λ h. refl)
]

prune_read-IsCoherent : (s : Stream) → IsCoherent s.buffer → IsCoherent (prune_read s).buffer
unfolding prune_read prune invalidate_cache
prune_read-IsCoherent s c = elim (Bool-cases (should_prune s.buffer s.read_index)) [
  | inl e ↦ rw e (invalid-IsCoherent _ refl)
  | inr e ↦ rw e c
]

step-IsCoherent : (s : Stream) (op : Op) → IsCoherent s.buffer → IsCoherent (step s op).buffer
unfolding step read_chunks
step-IsCoherent s (added line) c = add-IsCoherent s.buffer line c
step-IsCoherent s (closed err) c = close-IsCoherent s.buffer err c
step-IsCoherent s reads c = c
step-IsCoherent s prunes c = prune_read-IsCoherent s c
step-IsCoherent s takes_raw c = (once-IsCoherent s.buffer c).1

run-IsCoherent : (s : Stream) (ops : List Op) → IsCoherent s.buffer → IsCoherent (run s ops).buffer
unfolding run
run-IsCoherent s [] c = c
run-IsCoherent s (op ∷ ops) c = run-IsCoherent (step s op) ops (step-IsCoherent s op c)

start-IsCoherent : (max_bytes : ℤ) → IsCoherent (start max_bytes).buffer
unfolding new_stream_buffer
start-IsCoherent max_bytes = invalid-IsCoherent _ refl

-- Whatever was done with a new buffer, the cached read of its bytes returns what the uncached read
-- returns: no line that came later and no pruning leaves a stale cache.
pub run-once_raw :
    (max_bytes : ℤ) (ops : List Op)
    → let sb = (run (start max_bytes) ops).buffer in
      (get_all_raw_bytes_once sb).0 ≡ get_all_raw_bytes sb
run-once_raw max_bytes ops =
    (once-IsCoherent _ (run-IsCoherent (start max_bytes) ops (start-IsCoherent max_bytes))).0
