-- ===== src/MonitoredReader/Examples.antt =====
-- Runs of the monitored reader, and its theorems at a concrete stream.
use llm_supervisor_proxy.Support.{
  ℕ, zero, suc, ◌<◌, replicate, ◌≡◌, refl, true, List, [], ◌∷◌, none, some, arith,
}
use llm_supervisor_proxy.MonitoredReader.{
  upstream, eof, read_on_closed, idle_timeout, timed_out, loop_done, ReadResult,
  new_monitored_reader, read_loop, read_leftover, read_ready, read_received, read_event, resume,
  read, close,
}
use llm_supervisor_proxy.MonitoredReader.Flow.{bytes_of, pull_channel, pull_ready, pull}
use llm_supervisor_proxy.MonitoredReader.Progress.{is_some}
use llm_supervisor_proxy.MonitoredReader.Ending.{first_error}
use llm_supervisor_proxy.MonitoredReader.Delivery.{
  AllPositive, after_pull, read_all, until_error, started, read_all_complete,
}

program : Unit {0}
unfolding read_loop read_leftover read_ready read_received read_event resume read close bytes_of
    pull_channel pull_ready pull after_pull read_all until_error
program = tt

-- A chunk, an empty read, a chunk with the error, and a read that never happens.
abbrev stream : List ReadResult
stream =
    record { data_read = 1 ∷ 2 ∷ 3 ∷ []; err = none }
    ∷ record { data_read = []; err = none }
    ∷ record { data_read = 4 ∷ 5 ∷ []; err = some (upstream "reset") }
    ∷ record { data_read = 6 ∷ []; err = some eof }
    ∷ []

abbrev twos : List ℕ
twos = replicate 14 2

replicate-AllPositive : (k n : ℕ) → 0 < n → AllPositive (replicate k n)
replicate-AllPositive zero n h = tt
replicate-AllPositive (suc k) n h = (h, replicate-AllPositive k n h)

stream_runs : read_all (started stream) twos ≡ (1 ∷ 2 ∷ 3 ∷ 4 ∷ 5 ∷ [], some (upstream "reset"))
unfolding program
stream_runs = refl

-- After an idle timeout the reader is closed, and reads fail.
timeout_runs :
    let first = read new_monitored_reader 4 timed_out in
    (first.0 ≡ ([], some idle_timeout))
    × ((read first.1 4 loop_done).0 ≡ ([], some read_on_closed))
    × (close first.1 ≡ first.1)
unfolding program
timeout_runs = (refl, refl, refl)

read_all_complete_example :
    ((read_all (started stream) twos).0 ≡ until_error stream)
    × (((read_all (started stream) twos).1 ≡ first_error stream)
        × (is_some (read_all (started stream) twos).1 ≡ true))
read_all_complete_example =
    read_all_complete stream twos refl (replicate-AllPositive 14 2 (omega arith)) (omega arith)
