-- ===== src/MonitoredReader/Flow.antt =====
-- pkg/supervisor/monitor.go, the bytes and the error that pass through the reader.
use mathlib.Core.List.{append_assoc, append-nil}
use llm_supervisor_proxy.Support.{
  ℕ, ◌≡◌, refl, sym, ap, ◌∙◌, true, false, List, [], ◌∷◌, ◌++◌, Option, none, some, ltb, length,
  take, drop, is_empty, arith, Bool-cases, Option-cases, inl, inr, ◌⊎◌, take-drop,
}
use llm_supervisor_proxy.MonitoredReader.{
  Bytes, ReadError, ReadResult, received, MonitoredReader, Answer, read_leftover, read_ready,
  read_received, read_event, read, resume,
}

-- The reader with the results that the loop has sent or will send.
pub record Flow : Type 0 where
  pub monitor : MonitoredReader
  pub channel : List ReadResult

unfoldable pub bytes_of : List ReadResult → Bytes
bytes_of [] = []
bytes_of (r ∷ rest) = r.data_read ++ bytes_of rest

unfoldable pub pull_channel :
    MonitoredReader → ℕ → List ReadResult → Option ((Bytes × Option ReadError) × Flow)
pull_channel m n [] = none
pull_channel m n (r ∷ rest) =
    let (answer, monitor) = read m n (received r) in
    some (answer, record { monitor = monitor; channel = rest })

unfoldable pub pull_ready : Flow → ℕ → Option Answer → Option ((Bytes × Option ReadError) × Flow)
pull_ready f n (some (answer, monitor)) = some (answer, record f { monitor = monitor })
pull_ready f n none = pull_channel f.monitor n f.channel

-- One read of `n` bytes at most; none while the channel is empty and nothing is left over.
unfoldable pub pull : Flow → ℕ → Option ((Bytes × Option ReadError) × Flow)
pull f n = pull_ready f n (read_ready f.monitor n)

-- Only the last result carries an error.
abbrev pub Ordered : List ReadResult → Type 0
Ordered [] = Unit
Ordered (r ∷ rest) = ((r.err ≡ none) ⊎ (rest ≡ [])) × Ordered rest

-- What is still to come: the bytes left over and those of the channel.
abbrev pub to_come : Flow → Bytes
to_come f = f.monitor.leftover ++ bytes_of f.channel

pub record IsFlowing (f : Flow) : Type 0 where
  pub running : f.monitor.closed ≡ false
  pub ordered : Ordered f.channel
  pub last : (f.monitor.pending_err ≡ none) ⊎ (f.channel ≡ [])

-- An answer hands out the next bytes, and an error only when no bytes are to come.
abbrev pub Passes : Flow → Bytes × Option ReadError → Flow → Type 0
Passes f (bytes, err) next =
    (to_come f ≡ bytes ++ to_come next) × ((err ≡ none) ⊎ (to_come next ≡ [])) × IsFlowing next

abbrev of : Answer → List ReadResult → Flow
of (answer, monitor) channel = record { monitor = monitor; channel = channel }

pub is_empty→eq : (xs : Bytes) → is_empty xs ≡ true → xs ≡ []
is_empty→eq [] h = refl
is_empty→eq (x ∷ xs) h = absurd (ground (arith, h))

take-whole : (n : ℕ) (xs : Bytes) → is_empty (drop n xs) ≡ true → take n xs ≡ xs
take-whole n xs h =
    sym (append-nil (take n xs))
    ∙ ap (λ l. take n xs ++ l) (sym (is_empty→eq (drop n xs) h))
    ∙ take-drop n xs

take-drop-append : (n : ℕ) (xs ys : Bytes) → xs ++ ys ≡ take n xs ++ (drop n xs ++ ys)
take-drop-append n xs ys =
    ap (λ l. l ++ ys) (sym (take-drop n xs)) ∙ append_assoc (take n xs) (drop n xs) ys

nothing_left : (f : Flow) → IsFlowing f → (f.monitor.pending_err ≡ none) ⊎ (bytes_of f.channel ≡ [])
unfolding bytes_of
nothing_left f v = elim v.last [ inl e ↦ inl e | inr e ↦ inr (ap bytes_of e) ]

read_leftover-Passes :
    (f : Flow) (n : ℕ)
    → IsFlowing f
    → let r = read_leftover f.monitor n in Passes f r.0 (record f { monitor = r.1 })
unfolding read_leftover
read_leftover-Passes f n v = elim (Bool-cases (is_empty (drop n f.monitor.leftover))) [
  | inl e ↦ rw e (
    ap (λ l. l ++ bytes_of f.channel) (sym (take-whole n f.monitor.leftover e)),
    nothing_left f v,
    record { running = v.running; ordered = v.ordered; last = inl refl },
  )
  | inr e ↦ rw e (
    take-drop-append n f.monitor.leftover (bytes_of f.channel),
    inl refl,
    record { running = v.running; ordered = v.ordered; last = v.last },
  )
]

module _ (m : MonitoredReader) (n : ℕ) (r : ReadResult) (rest : List ReadResult)
    (v : IsFlowing (record { monitor = m; channel = r ∷ rest })) (l : m.leftover ≡ [])
    (p : m.pending_err ≡ none) where
  abbrev pending : Option ReadError
  pending = elim r.err [ none ↦ m.pending_err | some e ↦ some e ]

  kept_back : (pending ≡ none) ⊎ (rest ≡ [])
  kept_back = elim v.ordered.0 [ inl e ↦ inl (rw e p) | inr e ↦ inr e ]

  nothing_behind : (r.err ≡ none) ⊎ (bytes_of rest ≡ [])
  unfolding bytes_of
  nothing_behind = elim v.ordered.0 [ inl e ↦ inl e | inr e ↦ inr (ap bytes_of e) ]

  read_received-Passes :
      let a = read_received m n r in
      Passes
        (record { monitor = m; channel = r ∷ rest })
        a.0
        (record { monitor = a.1; channel = rest })
  unfolding read_received bytes_of
  read_received-Passes = elim (Bool-cases (is_empty r.data_read)) [
    | inl e ↦ rw e (
      ap (λ d. m.leftover ++ (d ++ bytes_of rest)) (is_empty→eq r.data_read e),
      elim nothing_behind [ inl q ↦ inl q | inr q ↦ inr (rw (l, q) refl) ],
      record { running = v.running; ordered = v.ordered.1; last = inl p },
    )
    | inr e ↦ elim (Bool-cases (ltb n (length r.data_read))) [
      | inl h ↦
          rw (e, h)
            (
              rw l (take-drop-append n r.data_read (bytes_of rest)),
              inl refl,
              record { running = v.running; ordered = v.ordered.1; last = kept_back },
            )
      | inr h ↦
          rw (e, h)
            (
              rw l refl,
              inl refl,
              record { running = v.running; ordered = v.ordered.1; last = kept_back },
            )
    ]
  ]

-- A read waits only when the channel is empty and nothing is left over.
abbrev pub PullPasses : Flow → Option ((Bytes × Option ReadError) × Flow) → Type 0
PullPasses f none = to_come f ≡ []
PullPasses f (some (answer, next)) = Passes f answer next

-- The branches of `read` for a running reader.
pub ready-leftover :
    (m : MonitoredReader) (n : ℕ)
    → m.closed ≡ false
    → is_empty m.leftover ≡ false
    → read_ready m n ≡ some (read_leftover m n)
unfolding read_ready
ready-leftover m n c e = rw (c, e) refl

pub ready-pending :
    (m : MonitoredReader) (n : ℕ) (err : ReadError)
    → m.closed ≡ false
    → is_empty m.leftover ≡ true
    → m.pending_err ≡ some err
    → read_ready m n ≡ some (([], some err), record m { pending_err = none })
unfolding read_ready
ready-pending m n err c e p = ground (arith, c, e, p)

pub ready-none :
    (m : MonitoredReader) (n : ℕ)
    → m.closed ≡ false
    → is_empty m.leftover ≡ true
    → m.pending_err ≡ none
    → read_ready m n ≡ none
unfolding read_ready
ready-none m n c e p = rw (c, e, p) refl

pull_channel-PullPasses :
    (m : MonitoredReader) (n : ℕ) (channel : List ReadResult)
    → IsFlowing (record { monitor = m; channel = channel })
    → is_empty m.leftover ≡ true
    → m.pending_err ≡ none
    → PullPasses (record { monitor = m; channel = channel }) (pull_channel m n channel)
unfolding pull_channel read resume read_event bytes_of
pull_channel-PullPasses m n [] v e p = rw (is_empty→eq m.leftover e) refl
pull_channel-PullPasses m n (r ∷ rest) v e p =
    rw (ready-none m n v.running e p)
      (read_received-Passes m n r rest v (is_empty→eq m.leftover e) p)

pub pull-PullPasses : (f : Flow) (n : ℕ) → IsFlowing f → PullPasses f (pull f n)
unfolding pull pull_ready bytes_of
pull-PullPasses f n v = elim (Bool-cases (is_empty f.monitor.leftover)) [
  | inr e ↦ rw (ready-leftover f.monitor n v.running e) (read_leftover-Passes f n v)
  | inl e ↦ elim (Option-cases f.monitor.pending_err) [
    | inl p ↦
        rw (ready-none f.monitor n v.running e p)
          (pull_channel-PullPasses f.monitor n f.channel v e p)
    | inr (err, p) ↦ rw (ready-pending f.monitor n err v.running e p) (
      refl,
      inr (rw (is_empty→eq f.monitor.leftover e, drained err p) refl),
      record { running = v.running; ordered = v.ordered; last = inl refl },
    )
  ]
]
  where
    drained : (err : ReadError) → f.monitor.pending_err ≡ some err → f.channel ≡ []
    drained err p = ground (arith, v.last, p)
