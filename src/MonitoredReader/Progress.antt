-- ===== src/MonitoredReader/Progress.antt =====
-- pkg/supervisor/monitor.go: how many reads a stream takes.
use llm_supervisor_proxy.Support.{
  ℕ, zero, suc, ◌+◌, ◌<◌, ◌≤◌, ◌≡◌, refl, ap, Bool, true, false, ◌||◌, List, [], ◌∷◌, Option, none,
  some, ltb, length, drop, is_empty, arith, Bool-cases, Option-cases, inl, inr, ◌⊎◌,
}
use llm_supervisor_proxy.MonitoredReader.{
  Bytes, ReadError, ReadResult, MonitoredReader, read_leftover, read_received, read_event, read,
  resume,
}
use llm_supervisor_proxy.MonitoredReader.Flow.{
  Flow, pull, pull_ready, pull_channel, ready-leftover, ready-pending, ready-none,
}

abbrev pub is_some : Option ReadError → Bool
is_some none = false
is_some (some e) = true

abbrev pub ends : List ReadResult → Bool
ends [] = false
ends (r ∷ rest) = is_some r.err || ends rest

-- An error waits in the reader or in the channel.
abbrev pub has_end : Flow → Bool
has_end f = is_some f.monitor.pending_err || ends f.channel

abbrev one_if : Bool → ℕ
one_if true = 1
one_if false = 0

-- A bound on the reads up to the error.
abbrev pub channel_weight : List ReadResult → ℕ
channel_weight [] = 0
channel_weight (r ∷ rest) = suc (suc (length r.data_read + channel_weight rest))

abbrev pub weight : Flow → ℕ
weight f =
    length f.monitor.leftover + (one_if (is_some f.monitor.pending_err) + channel_weight f.channel)

-- An answer without an error brings the error nearer.
abbrev Nears : Flow → Bytes × Option ReadError → Flow → Type 0
Nears f (bytes, err) next =
    (is_some err ≡ true)
    ⊎ ((next.monitor.closed ≡ false) × (has_end next ≡ true) × (weight next < weight f))

abbrev pub PullNears : Flow → Option ((Bytes × Option ReadError) × Flow) → Type 0
PullNears f none = ⊥
PullNears f (some (answer, next)) = Nears f answer next

length-drop : (n : ℕ) (xs : Bytes) → length (drop n xs) ≤ length xs
length-drop zero xs = omega arith
length-drop (suc n) [] = omega arith
length-drop (suc n) (x ∷ xs) = omega (arith, length-drop n xs)

length-drop_lt : (n : ℕ) (xs : Bytes) → 0 < n → is_empty xs ≡ false → length (drop n xs) < length xs
length-drop_lt zero xs h e = absurd (omega (arith, h))
length-drop_lt (suc n) [] h e = absurd (ground (arith, e))
length-drop_lt (suc n) (x ∷ xs) h e = omega (arith, length-drop n xs)

length-nonempty : (xs : Bytes) → is_empty xs ≡ false → 0 < length xs
length-nonempty [] e = absurd (ground (arith, e))
length-nonempty (x ∷ xs) e = omega arith

module _ (f : Flow) (n : ℕ) (c : f.monitor.closed ≡ false) (h : has_end f ≡ true)
    (pos_n : 0 < n) where
  read_leftover-Nears :
      is_empty f.monitor.leftover ≡ false
      → let r = read_leftover f.monitor n in Nears f r.0 (record f { monitor = r.1 })
  unfolding read_leftover
  read_leftover-Nears e = elim (Bool-cases (is_empty (drop n f.monitor.leftover))) [
    | inl b ↦ rw b (served (Option-cases f.monitor.pending_err))
    | inr b ↦ rw b (inr (c, h, omega (arith, length-drop_lt n f.monitor.leftover pos_n e)))
  ]
    where
      served :
          (f.monitor.pending_err ≡ none) ⊎ ((err : ReadError) × (f.monitor.pending_err ≡ some err))
          → (is_some f.monitor.pending_err ≡ true)
            ⊎ ((f.monitor.closed ≡ false)
                × (ends f.channel ≡ true)
                × (suc (0 + (0 + channel_weight f.channel)) ≤ weight f))
      served (inr (err, q)) = inl (ap is_some q)
      served (inl q) =
          inr (c, ground (arith, h, q), omega (arith, length-nonempty f.monitor.leftover e))

module _ (m : MonitoredReader) (n : ℕ) (r : ReadResult) (rest : List ReadResult)
    (c : m.closed ≡ false) (h : ends (r ∷ rest) ≡ true) (p : m.pending_err ≡ none) where
  abbrev pending : Option ReadError
  pending = elim r.err [ none ↦ m.pending_err | some e ↦ some e ]

  still_ends : (is_some pending || ends rest) ≡ true
  still_ends = ground (arith, h)

  one_more : one_if (is_some pending) ≤ 1
  one_more = ground arith

  read_received-Nears :
      let a = read_received m n r in
      Nears
        (record { monitor = m; channel = r ∷ rest })
        a.0
        (record { monitor = a.1; channel = rest })
  unfolding read_received
  read_received-Nears = elim (Bool-cases (is_empty r.data_read)) [
    | inl e ↦ elim (Option-cases r.err) [
      | inr (x, q) ↦ rw e (inl (ap is_some q))
      | inl q ↦ rw e (inr (c, ground (arith, h, q), omega arith))
    ]
    | inr e ↦ elim (Bool-cases (ltb n (length r.data_read))) [
      | inl b ↦ rw (e, b) (inr (c, still_ends, omega (arith, one_more, length-drop n r.data_read)))
      | inr b ↦
          rw (e, b) (inr (c, still_ends, omega (arith, one_more, length-nonempty r.data_read e)))
    ]
  ]

pull_channel-PullNears :
    (m : MonitoredReader) (n : ℕ) (channel : List ReadResult)
    → m.closed ≡ false
    → ends channel ≡ true
    → is_empty m.leftover ≡ true
    → m.pending_err ≡ none
    → PullNears (record { monitor = m; channel = channel }) (pull_channel m n channel)
unfolding pull_channel read resume read_event
pull_channel-PullNears m n [] c h e p = absurd (ground (arith, h))
pull_channel-PullNears m n (r ∷ rest) c h e p =
    rw (ready-none m n c e p) (read_received-Nears m n r rest c h p)

-- While an error is to come, a read into a non-empty buffer does not wait.
pub pull-PullNears :
    (f : Flow) (n : ℕ)
    → f.monitor.closed ≡ false
    → has_end f ≡ true
    → 0 < n
    → PullNears f (pull f n)
unfolding pull pull_ready
pull-PullNears f n c h b = elim (Bool-cases (is_empty f.monitor.leftover)) [
  | inr e ↦ rw (ready-leftover f.monitor n c e) (read_leftover-Nears f n c h b e)
  | inl e ↦ elim (Option-cases f.monitor.pending_err) [
    | inl p ↦
        rw (ready-none f.monitor n c e p)
          (pull_channel-PullNears f.monitor n f.channel c (ground (arith, h, p)) e p)
    | inr (err, p) ↦ rw (ready-pending f.monitor n err c e p) (inl refl)
  ]
]
