-- ===== src/MonitoredReader/Ending.antt =====
-- pkg/supervisor/monitor.go: which error ends the reads.
use llm_supervisor_proxy.MonitoredReader.{
  Bytes, ReadError, ReadResult, MonitoredReader, read_leftover, read_received, read_event, read,
  resume, read_loop,
}
use llm_supervisor_proxy.MonitoredReader.Flow.{
  Flow, pull, pull_ready, pull_channel, ready-leftover, ready-pending, ready-none,
}
use llm_supervisor_proxy.Support.{
  ℕ, ◌≡◌, refl, true, false, List, [], ◌∷◌, Option, none, some, ltb, length, drop, is_empty, arith,
  Bool-cases, Option-cases, inl, inr,
}

abbrev or_error : Option ReadError → Option ReadError → Option ReadError
or_error none later = later
or_error (some e) later = some e

-- The error under which the upstream reader returns first.
unfoldable pub first_error : List ReadResult → Option ReadError
first_error [] = none
first_error (r ∷ rest) = or_error r.err (first_error rest)

-- The error that is still to come: the one that waits in the reader, else that of the channel.
unfoldable pub error_to_come : Flow → Option ReadError
error_to_come f = or_error f.monitor.pending_err (first_error f.channel)

abbrev Turns : Option ReadError → Option ReadError → Option ReadError → Type 0
Turns (some e) before after = before ≡ some e
Turns none before after = after ≡ before

-- An answer hands out the error that was to come, or leaves it to come.
abbrev pub Hands : Flow → Bytes × Option ReadError → Flow → Type 0
Hands f (bytes, err) next = Turns err (error_to_come f) (error_to_come next)

abbrev pub PullHands : Flow → Option ((Bytes × Option ReadError) × Flow) → Type 0
PullHands f none = Unit
PullHands f (some (answer, next)) = Hands f answer next

given : (o later : Option ReadError) → Turns o (or_error o later) later
given none later = refl
given (some e) later = refl

stored :
    (o p later : Option ReadError)
    → p ≡ none
    → or_error (elim o [ none ↦ p | some e ↦ some e ]) later ≡ or_error p (or_error o later)
stored none p later h = rw h refl
stored (some e) p later h = rw h refl

pub first_error-read_loop :
    (upstream_reads : List ReadResult)
    → first_error (read_loop upstream_reads) ≡ first_error upstream_reads
unfolding first_error read_loop
first_error-read_loop [] = refl
first_error-read_loop (r ∷ upstream_reads) = ground (arith, first_error-read_loop upstream_reads)

read_leftover-Hands :
    (f : Flow) (n : ℕ)
    → let r = read_leftover f.monitor n in Hands f r.0 (record f { monitor = r.1 })
unfolding read_leftover error_to_come
read_leftover-Hands f n = elim (Bool-cases (is_empty (drop n f.monitor.leftover))) [
  | inr e ↦ rw e refl
  | inl e ↦ rw e (given f.monitor.pending_err (first_error f.channel))
]

read_received-Hands :
    (m : MonitoredReader) (n : ℕ) (r : ReadResult) (rest : List ReadResult)
    → m.pending_err ≡ none
    → let a = read_received m n r in
      Hands
        (record { monitor = m; channel = r ∷ rest })
        a.0
        (record { monitor = a.1; channel = rest })
unfolding read_received error_to_come first_error
read_received-Hands m n r rest p = elim (Bool-cases (is_empty r.data_read)) [
  | inl e ↦ rw (e, p) (given r.err (first_error rest))
  | inr e ↦ elim (Bool-cases (ltb n (length r.data_read))) [
    | inl h ↦ rw (e, h) (stored r.err m.pending_err (first_error rest) p)
    | inr h ↦ rw (e, h) (stored r.err m.pending_err (first_error rest) p)
  ]
]

pull_channel-PullHands :
    (m : MonitoredReader) (n : ℕ) (channel : List ReadResult)
    → m.closed ≡ false
    → is_empty m.leftover ≡ true
    → m.pending_err ≡ none
    → PullHands (record { monitor = m; channel = channel }) (pull_channel m n channel)
unfolding pull_channel read resume read_event
pull_channel-PullHands m n [] c e p = tt
pull_channel-PullHands m n (r ∷ rest) c e p =
    rw (ready-none m n c e p) (read_received-Hands m n r rest p)

pub pull-PullHands : (f : Flow) (n : ℕ) → f.monitor.closed ≡ false → PullHands f (pull f n)
unfolding pull pull_ready error_to_come
pull-PullHands f n c = elim (Bool-cases (is_empty f.monitor.leftover)) [
  | inr e ↦ rw (ready-leftover f.monitor n c e) (unfold error_to_come in read_leftover-Hands f n)
  | inl e ↦ elim (Option-cases f.monitor.pending_err) [
    | inl p ↦ rw (ready-none f.monitor n c e p) (pull_channel-PullHands f.monitor n f.channel c e p)
    | inr (err, p) ↦ rw (ready-pending f.monitor n err c e p, p) refl
  ]
]
