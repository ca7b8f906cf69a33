-- ===== src/StreamBuffer/Examples.antt =====
-- Runs of the stream buffer, and its theorems at concrete buffers.
use llm_supervisor_proxy.Support.Int.{pos}
use llm_supervisor_proxy.Support.{◌≡◌, refl, true, false, List, [], ◌∷◌, ◌++◌, none, arith}
use llm_supervisor_proxy.StreamBuffer.{
  Bytes, StreamBuffer, new_stream_buffer, invalidate_cache, append_chunk, add, close, join,
  get_all_raw_bytes, get_all_raw_bytes_once, has_nil, filter_nil, slow_path, get_chunks_from,
  prune_loop, prune, should_prune, get_total_len, is_complete,
}
use llm_supervisor_proxy.StreamBuffer.Stream.{
  Op, added, closed, reads, prunes, takes_raw, start, read_chunks, prune_read, step, run,
}
use llm_supervisor_proxy.StreamBuffer.Delivery.{run_delivers}
use llm_supervisor_proxy.StreamBuffer.Bounded.{add_all, fitting, bytes_of, add-overflow}

program : Unit {0}
unfolding new_stream_buffer invalidate_cache append_chunk add close join get_all_raw_bytes
    get_all_raw_bytes_once has_nil filter_nil slow_path get_chunks_from prune_loop prune
    should_prune get_total_len is_complete read_chunks prune_read step run add_all fitting bytes_of
program = tt

abbrev history : List Op
history =
    added (1 ∷ [])
    ∷ added (2 ∷ [])
    ∷ added (3 ∷ [])
    ∷ reads
    ∷ takes_raw
    ∷ added (4 ∷ [])
    ∷ prunes
    ∷ added (5 ∷ 5 ∷ 5 ∷ [])
    ∷ closed none
    ∷ added []
    ∷ []

-- Three chunks are read and pruned, the fourth waits, the fifth does not fit, the sixth comes after
-- the end.
history_runs :
    let s = run (start (pos 10)) history in
    (s.read_index ≡ 3)
    × (s.taken ≡ (1 ∷ 10 ∷ []) ∷ (2 ∷ 10 ∷ []) ∷ (3 ∷ 10 ∷ []) ∷ [])
    × (get_all_raw_bytes s.buffer ≡ 4 ∷ 10 ∷ [])
    × ((read_chunks s).taken ≡ s.accepted)
    × (is_complete s.buffer ≡ true)
unfolding program
history_runs = (refl, refl, refl, refl, refl)

run_delivers_example :
    let s = run (start (pos 10)) history in
    ((rest : List Bytes) × (s.accepted ≡ s.taken ++ rest)) × ((read_chunks s).taken ≡ s.accepted)
run_delivers_example = run_delivers (pos 10) history

abbrev tiny : StreamBuffer
tiny = new_stream_buffer (pos 5)

add-overflow_example :
    ((add tiny (1 ∷ 2 ∷ 3 ∷ 4 ∷ 5 ∷ [])).0 ≡ false)
    × (get_total_len (add tiny (1 ∷ 2 ∷ 3 ∷ 4 ∷ 5 ∷ [])).1 ≡ 6)
    × ((add tiny (1 ∷ 2 ∷ 3 ∷ 4 ∷ 5 ∷ [])).1.chunks ≡ tiny.chunks)
    × ((add_all (add tiny (1 ∷ 2 ∷ 3 ∷ 4 ∷ 5 ∷ [])).1 ((1 ∷ []) ∷ [])).0 ≡ [])
unfolding program
add-overflow_example = add-overflow tiny (1 ∷ 2 ∷ 3 ∷ 4 ∷ 5 ∷ []) ((1 ∷ []) ∷ []) refl (omega arith)
