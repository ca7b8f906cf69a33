-- ===== src/StreamBuffer/Stream.antt =====
-- pkg/proxy/stream_buffer.go with its client in pkg/proxy/handler.go, which counts the chunks that
-- it took. What the client makes of a chunk before it writes it is not modelled.
use llm_supervisor_proxy.Support.Int.{ℤ}
use llm_supervisor_proxy.Support.{
  ℕ, ◌+◌, String, List, [], ◌∷◌, ◌++◌, Option, length, if◌then◌else◌,
}
use llm_supervisor_proxy.StreamBuffer.{
  Bytes, StreamBuffer, new_stream_buffer, with_newline, add, close, get_all_raw_bytes_once,
  get_chunks_from, prune, should_prune,
}

-- What the writer and the reader of a buffer do.
pub data Op : Type 0 where
  added : Bytes → Op
  closed : Option String → Op
  reads : Op
  prunes : Op
  takes_raw : Op

-- The buffer, the reader's count of chunks, the chunks it took from the buffer, and the lines that
-- `add` accepted so far.
pub record Stream : Type 0 where
  pub buffer : StreamBuffer
  pub read_index : ℕ
  pub taken : List Bytes
  pub accepted : List Bytes

abbrev pub start : ℤ → Stream
start max_bytes = record {
  buffer = new_stream_buffer max_bytes;
  read_index = 0;
  taken = [];
  accepted = [];
}

-- One wake-up of the client takes the chunks from its index on, and counts them. The write of each,
-- behind the mask, is left out.
unfoldable pub read_chunks : Stream → Stream
read_chunks s =
    let chunks = (get_chunks_from s.buffer s.read_index).0 in
    record s { read_index = s.read_index + length chunks; taken = s.taken ++ chunks }

unfoldable pub prune_read : Stream → Stream
prune_read s = record s {
  buffer = if should_prune s.buffer s.read_index then prune s.buffer s.read_index else s.buffer;
}

unfoldable pub step : Stream → Op → Stream
step s (added line) =
    let (ok, buffer) = add s.buffer line in
    record s {
      buffer = buffer;
      accepted = if ok then s.accepted ++ with_newline line ∷ [] else s.accepted;
    }
step s (closed err) = record s { buffer = close s.buffer err }
step s reads = read_chunks s
step s prunes = prune_read s
step s takes_raw = record s { buffer = (get_all_raw_bytes_once s.buffer).1 }

unfoldable pub run : Stream → List Op → Stream
run s [] = s
run s (op ∷ ops) = run (step s op) ops
