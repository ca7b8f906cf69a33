-- ===== src/MonitoredReader.antt =====
-- pkg/supervisor/monitor.go: a reader with an idle timeout. A read that finds nothing left over
-- waits for the channel of the loop, for the timer or for the end of the loop; which of them comes
-- first is the argument `Event`. An upstream error is its text.
pub mod Flow
pub mod Progress
pub mod Ending
pub mod Delivery
pub mod Examples
use llm_supervisor_proxy.Support.{
  ℕ, Bool, true, false, String, List, [], ◌∷◌, ◌++◌, Option, none, some, ltb, leb, length, take,
  drop, is_empty, if◌then◌else◌,
}

abbrev pub Bytes : Type 0
Bytes = List ℕ

pub data ReadError : Type 0 where
  upstream : String → ReadError
  idle_timeout : ReadError
  read_on_closed : ReadError
  eof : ReadError

pub record ReadResult : Type 0 where
  pub data_read : Bytes
  pub err : Option ReadError

-- What ends the wait of a read.
pub data Event : Type 0 where
  received : ReadResult → Event
  timed_out : Event
  loop_done : Event

pub record MonitoredReader : Type 0 where
  pub closed : Bool
  pub leftover : Bytes
  pub pending_err : Option ReadError
  pub reader_closed : Bool

abbrev pub new_monitored_reader : MonitoredReader
new_monitored_reader = record {
  closed = false;
  leftover = [];
  pending_err = none;
  reader_closed = false;
}

-- The results that the loop sends, given those of the upstream reader: an empty read without an
-- error is retried, and the loop ends at the first error.
unfoldable pub read_loop : List ReadResult → List ReadResult
read_loop [] = []
read_loop (r ∷ upstream_reads) =
    let rest = read_loop upstream_reads in
    elim r.err [ some e ↦ r ∷ [] | none ↦ if is_empty r.data_read then rest else r ∷ rest ]

abbrev pub Answer : Type 0
Answer = (Bytes × Option ReadError) × MonitoredReader

-- The branch that serves what is left over from a longer read, into a buffer of `n` bytes.
unfoldable pub read_leftover : MonitoredReader → ℕ → Answer
read_leftover m n =
    let rest = drop n m.leftover in
    if is_empty rest
    then ((take n m.leftover, m.pending_err), record m { leftover = []; pending_err = none })
    else ((take n m.leftover, none), record m { leftover = rest })

-- The branches before the wait.
unfoldable pub read_ready : MonitoredReader → ℕ → Option Answer
read_ready m n =
    if m.closed
    then some (([], some read_on_closed), m)
    else if is_empty m.leftover
    then elim m.pending_err [
      | none ↦ none
      | some e ↦ some (([], some e), record m { pending_err = none })
    ]
    else some (read_leftover m n)

unfoldable pub read_received : MonitoredReader → ℕ → ReadResult → Answer
read_received m n r =
    if is_empty r.data_read
    then (([], r.err), m)
    else if ltb n (length r.data_read)
    then (
      (take n r.data_read, none),
      record m {
        leftover = drop n r.data_read;
        pending_err = elim r.err [ none ↦ m.pending_err | some e ↦ some e ];
      },
    )
    else (
      (r.data_read, none),
      record m { pending_err = elim r.err [ none ↦ m.pending_err | some e ↦ some e ] },
    )

unfoldable pub read_event : MonitoredReader → ℕ → Event → Answer
read_event m n (received r) = read_received m n r
read_event m n timed_out =
    (([], some idle_timeout), record m { closed = true; reader_closed = true })
read_event m n loop_done = (([], some eof), m)

unfoldable pub resume : MonitoredReader → ℕ → Event → Option Answer → Answer
resume m n event none = read_event m n event
resume m n event (some answer) = answer

unfoldable pub read : MonitoredReader → ℕ → Event → Answer
read m n event = resume m n event (read_ready m n)

unfoldable pub close : MonitoredReader → MonitoredReader
close m = if m.closed then m else record m { closed = true; reader_closed = true }
