-- ===== src/StreamBuffer.antt =====
-- pkg/proxy/stream_buffer.go: the bounded buffer between the reader of an upstream response and the
-- client's writer. Each method is one step: the lock and the atomic fields order them, and a buffer
-- has one writer. A byte is a number; a pruned chunk, nil in Go, is `none`.
pub mod Stream
pub mod Cache
pub mod Delivery
pub mod Bounded
pub mod Examples
use llm_supervisor_proxy.Support.Int.{ℤ, pos, pos_part, leb_ℤ}
use llm_supervisor_proxy.Support.{
  ℕ, zero, suc, ◌+◌, ◌/◌, Bool, true, false, not, ◌&&◌, String, List, [], ◌∷◌, ◌++◌, Option, none,
  some, ltb, leb, ◌==◌, length, drop, if◌then◌else◌,
}

abbrev pub Bytes : Type 0
Bytes = List ℕ

pub record StreamBuffer : Type 0 where
  pub chunks : List (Option Bytes)
  pub err : Option String
  pub total_len : ℕ
  pub max_bytes : ℕ
  pub overflow : Bool
  pub completed : Bool
  pub cached_raw_bytes : Bytes
  pub cache_valid : Bool

abbrev pub default_max_buffer_bytes : ℕ
default_max_buffer_bytes = 5242880

unfoldable pub new_stream_buffer : ℤ → StreamBuffer
new_stream_buffer max_bytes = record {
  chunks = [];
  err = none;
  total_len = 0;
  max_bytes = if leb_ℤ max_bytes (pos 0) then default_max_buffer_bytes else pos_part max_bytes;
  overflow = false;
  completed = false;
  cached_raw_bytes = [];
  cache_valid = false;
}

abbrev pub newline : ℕ
newline = 10

abbrev pub with_newline : Bytes → Bytes
with_newline line = line ++ newline ∷ []

unfoldable pub invalidate_cache : StreamBuffer → StreamBuffer
invalidate_cache sb = record sb { cached_raw_bytes = []; cache_valid = false }

unfoldable pub append_chunk : StreamBuffer → Bytes → StreamBuffer
append_chunk sb chunk = invalidate_cache (record sb { chunks = sb.chunks ++ some chunk ∷ [] })

-- The counter grows also for a line that does not fit.
unfoldable pub add : StreamBuffer → Bytes → Bool × StreamBuffer
add sb line =
    if sb.completed
    then (false, sb)
    else (let new_len = sb.total_len + (length line + 1) in
        let counted = record sb { total_len = new_len } in
        if ltb sb.max_bytes new_len
        then (false, record counted { overflow = true })
        else (true, append_chunk counted (with_newline line)))

unfoldable pub close : StreamBuffer → Option String → StreamBuffer
close sb err =
    if sb.completed then sb else invalidate_cache (record sb { completed = true; err = err })

-- The loop that appends the chunks which are not pruned.
unfoldable pub join : List (Option Bytes) → Bytes
join [] = []
join (none ∷ chunks) = join chunks
join (some chunk ∷ chunks) = chunk ++ join chunks

unfoldable pub get_all_raw_bytes : StreamBuffer → Bytes
get_all_raw_bytes sb = join sb.chunks

unfoldable pub get_all_raw_bytes_once : StreamBuffer → Bytes × StreamBuffer
get_all_raw_bytes_once sb =
    if sb.cache_valid
    then (sb.cached_raw_bytes, sb)
    else (join sb.chunks, record sb { cached_raw_bytes = join sb.chunks; cache_valid = true })

unfoldable pub has_nil : List (Option Bytes) → Bool
has_nil [] = false
has_nil (none ∷ chunks) = true
has_nil (some chunk ∷ chunks) = has_nil chunks

unfoldable pub filter_nil : List (Option Bytes) → List Bytes
filter_nil [] = []
filter_nil (none ∷ chunks) = filter_nil chunks
filter_nil (some chunk ∷ chunks) = chunk ∷ filter_nil chunks

-- The copy of the fast path, which holds no pruned chunk.
unfoldable pub slow_path : StreamBuffer → ℕ → List Bytes × ℕ
slow_path sb from = (filter_nil (drop from sb.chunks), length sb.chunks)

unfoldable pub get_chunks_from : StreamBuffer → ℕ → List Bytes × ℕ
get_chunks_from sb from =
    if leb (length sb.chunks) from
    then ([], from)
    else if (from == 0) && not (has_nil sb.chunks)
    then (filter_nil sb.chunks, length sb.chunks)
    else slow_path sb from

unfoldable pub prune_loop : ℕ → List (Option Bytes) → List (Option Bytes)
prune_loop zero chunks = chunks
prune_loop (suc i) [] = []
prune_loop (suc i) (c ∷ chunks) = none ∷ prune_loop i chunks

unfoldable pub prune : StreamBuffer → ℕ → StreamBuffer
prune sb read_index = invalidate_cache (record sb { chunks = prune_loop read_index sb.chunks })

unfoldable pub should_prune : StreamBuffer → ℕ → Bool
should_prune sb read_index =
    ltb 0 read_index && (ltb read_index (length sb.chunks) && ltb (length sb.chunks / 2) read_index)

unfoldable pub get_total_len : StreamBuffer → ℕ
get_total_len sb = sb.total_len

unfoldable pub is_complete : StreamBuffer → Bool
is_complete sb = sb.completed
