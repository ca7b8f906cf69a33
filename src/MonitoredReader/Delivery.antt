-- ===== src/MonitoredReader/Delivery.antt =====
-- pkg/supervisor/monitor.go, all reads of a stream.
use mathlib.Core.List.{append_assoc, append-nil}
use llm_supervisor_proxy.Support.{
  ℕ, ◌<◌, ◌≤◌, length, ◌≡◌, refl, sym, ap, ◌∙◌, true, false, List, [], ◌∷◌, ◌++◌, Option, none,
  some, is_empty, arith, Bool-cases, Option-cases, inl, inr, ◌⊎◌,
}
use llm_supervisor_proxy.MonitoredReader.{
  Bytes, ReadError, ReadResult, new_monitored_reader, read_loop,
}
use llm_supervisor_proxy.MonitoredReader.Progress.{
  is_some, ends, has_end, channel_weight, weight, PullNears, pull-PullNears,
}
use llm_supervisor_proxy.MonitoredReader.Ending.{
  first_error, error_to_come, PullHands, pull-PullHands, first_error-read_loop,
}
use llm_supervisor_proxy.MonitoredReader.Flow.{
  Flow, bytes_of, pull, Ordered, to_come, IsFlowing, PullPasses, pull-PullPasses,
}

unfoldable pub after_pull :
    (Flow → Bytes × Option ReadError)
    → Option ((Bytes × Option ReadError) × Flow)
    → Bytes × Option ReadError
after_pull more none = ([], none)
after_pull more (some ((bytes, some e), next)) = (bytes, some e)
after_pull more (some ((bytes, none), next)) = let (rest, err) = more next in (bytes ++ rest, err)

-- Reads until an error or until a read would wait, and the bytes of all of them.
unfoldable pub read_all : Flow → List ℕ → Bytes × Option ReadError
read_all f [] = ([], none)
read_all f (n ∷ sizes) = after_pull (λ next. read_all next sizes) (pull f n)

-- The bytes that the upstream reader returns up to its first error.
unfoldable pub until_error : List ReadResult → Bytes
until_error [] = []
until_error (r ∷ upstream_reads) =
    let rest = until_error upstream_reads in r.data_read ++ elim r.err [ some e ↦ [] | none ↦ rest ]

read_loop-Ordered : (upstream_reads : List ReadResult) → Ordered (read_loop upstream_reads)
unfolding read_loop
read_loop-Ordered [] = tt
read_loop-Ordered (r ∷ upstream_reads) = elim (Option-cases r.err) [
  | inr (e, h) ↦ rw h (inr refl, tt)
  | inl h ↦ elim (Bool-cases (is_empty r.data_read)) [
    | inl b ↦ rw (h, b) (read_loop-Ordered upstream_reads)
    | inr b ↦ rw (h, b) (inl h, read_loop-Ordered upstream_reads)
  ]
]

bytes_of-read_loop :
    (upstream_reads : List ReadResult)
    → bytes_of (read_loop upstream_reads) ≡ until_error upstream_reads
unfolding read_loop bytes_of until_error
bytes_of-read_loop [] = refl
bytes_of-read_loop (r ∷ upstream_reads) = ground (arith, bytes_of-read_loop upstream_reads)

abbrev Delivers : Bytes → Bytes × Option ReadError → Type 0
Delivers total (bytes, err) =
    (rest : Bytes) × (total ≡ bytes ++ rest) × ((err ≡ none) ⊎ (rest ≡ []))

after_pull-Delivers :
    (more : Flow → Bytes × Option ReadError) (f : Flow)
    (o : Option ((Bytes × Option ReadError) × Flow))
    → ((next : Flow) → IsFlowing next → Delivers (to_come next) (more next))
    → PullPasses f o
    → Delivers (to_come f) (after_pull more o)
unfolding after_pull
after_pull-Delivers more f none h p = (to_come f, refl, inl refl)
after_pull-Delivers more f (some ((bytes, some e), next)) h (a, b, v) = (to_come next, a, b)
after_pull-Delivers more f (some ((bytes, none), next)) h (a, b, v) =
    let (rest, split, last) = h next v in
    (rest, a ∙ ap (λ l. bytes ++ l) split ∙ sym (append_assoc bytes (more next).0 rest), last)

read_all-Delivers :
    (f : Flow) (sizes : List ℕ) → IsFlowing f → Delivers (to_come f) (read_all f sizes)
unfolding read_all
read_all-Delivers f [] v = (to_come f, refl, inl refl)
read_all-Delivers f (n ∷ sizes) v =
    after_pull-Delivers (λ next. read_all next sizes) f (pull f n)
      (λ next. read_all-Delivers next sizes) (pull-PullPasses f n v)

abbrev pub started : List ReadResult → Flow
started upstream_reads = record {
  monitor = new_monitored_reader;
  channel = read_loop upstream_reads;
}

abbrev pub AllPositive : List ℕ → Type 0
AllPositive [] = Unit
AllPositive (n ∷ sizes) = (0 < n) × AllPositive sizes

ends-weight : (channel : List ReadResult) → ends channel ≡ true → 0 < channel_weight channel
ends-weight [] h = absurd (ground (arith, h))
ends-weight (r ∷ rest) h = omega arith

has_end-weight : (f : Flow) → has_end f ≡ true → 0 < weight f
has_end-weight f h = ground (arith, h, ends-weight f.channel)

after_pull-ends :
    (more : Flow → Bytes × Option ReadError) (f : Flow)
    (o : Option ((Bytes × Option ReadError) × Flow))
    → ((next : Flow)
        → next.monitor.closed ≡ false
        → has_end next ≡ true
        → weight next < weight f
        → is_some (more next).1 ≡ true)
    → PullNears f o
    → is_some (after_pull more o).1 ≡ true
unfolding after_pull
after_pull-ends more f none h p = absurd p
after_pull-ends more f (some ((bytes, some e), next)) h p = refl
after_pull-ends more f (some ((bytes, none), next)) h (inl e) = absurd (ground (arith, e))
after_pull-ends more f (some ((bytes, none), next)) h (inr (c, e, w)) = h next c e w

read_all-ends :
    (f : Flow) (sizes : List ℕ)
    → f.monitor.closed ≡ false
    → has_end f ≡ true
    → AllPositive sizes
    → weight f ≤ length sizes
    → is_some (read_all f sizes).1 ≡ true
unfolding read_all
read_all-ends f [] c h b w = absurd (omega (arith, has_end-weight f h, w))
read_all-ends f (n ∷ sizes) c h b w =
    after_pull-ends (λ next. read_all next sizes) f (pull f n)
      (λ next c' h' w'. read_all-ends next sizes c' h' b.1 (omega (arith, w, w')))
      (pull-PullNears f n c h b.0)

read_loop-ends :
    (upstream_reads : List ReadResult)
    → ends upstream_reads ≡ true
    → ends (read_loop upstream_reads) ≡ true
unfolding read_loop
read_loop-ends [] h = h
read_loop-ends (r ∷ upstream_reads) h = ground (arith, h, read_loop-ends upstream_reads)

read_loop-weight :
    (upstream_reads : List ReadResult)
    → channel_weight (read_loop upstream_reads) ≤ channel_weight upstream_reads
unfolding read_loop
read_loop-weight [] = omega arith
read_loop-weight (r ∷ upstream_reads) = ground (arith, read_loop-weight upstream_reads)

-- Reads of a new reader, with buffers of any sizes, return the upstream's bytes in order, none
-- lost and none twice, whatever the upstream's chunks and empty reads, and an error is returned
-- only after all bytes that came before it or with it.
pub read_all-until_error :
    (upstream_reads : List ReadResult) (sizes : List ℕ)
    → let r = read_all (started upstream_reads) sizes in
      (rest : Bytes) × (until_error upstream_reads ≡ r.0 ++ rest) × ((r.1 ≡ none) ⊎ (rest ≡ []))
read_all-until_error upstream_reads sizes =
    let (rest, split, last) =
      read_all-Delivers (started upstream_reads) sizes
        (record { running = refl; ordered = read_loop-Ordered upstream_reads; last = inl refl }) in
    (rest, sym (bytes_of-read_loop upstream_reads) ∙ split, last)

abbrev EndsAs : Flow → Bytes × Option ReadError → Type 0
EndsAs f (bytes, err) = (err ≡ none) ⊎ (err ≡ error_to_come f)

after_pull-EndsAs :
    (more : Flow → Bytes × Option ReadError) (f : Flow)
    (o : Option ((Bytes × Option ReadError) × Flow))
    → ((next : Flow) → IsFlowing next → EndsAs next (more next))
    → PullPasses f o
    → PullHands f o
    → EndsAs f (after_pull more o)
unfolding after_pull
after_pull-EndsAs more f none h p q = inl refl
after_pull-EndsAs more f (some ((bytes, some e), next)) h p q = inr (sym q)
after_pull-EndsAs more f (some ((bytes, none), next)) h (a, b, v) q = elim (h next v) [
  | inl e ↦ inl e
  | inr e ↦ inr (e ∙ q)
]

read_all-EndsAs : (f : Flow) (sizes : List ℕ) → IsFlowing f → EndsAs f (read_all f sizes)
unfolding read_all
read_all-EndsAs f [] v = inl refl
read_all-EndsAs f (n ∷ sizes) v =
    after_pull-EndsAs (λ next. read_all next sizes) f (pull f n)
      (λ next. read_all-EndsAs next sizes) (pull-PullPasses f n v) (pull-PullHands f n v.running)

ended_as :
    (upstream_reads : List ReadResult) (sizes : List ℕ)
    → is_some (read_all (started upstream_reads) sizes).1 ≡ true
    → (read_all (started upstream_reads) sizes).1 ≡ first_error upstream_reads
unfolding error_to_come
ended_as upstream_reads sizes h =
    elim (read_all-EndsAs (started upstream_reads) sizes
      (record { running = refl; ordered = read_loop-Ordered upstream_reads; last = inl refl })) [
        | inl e ↦ absurd (ground (arith, h, e))
        | inr e ↦ e ∙ first_error-read_loop upstream_reads
      ]

-- If the upstream ends with an error, the end of the stream included, and no wait is cut off by the
-- idle timer or by a close, then enough reads into non-empty buffers return all its bytes and then
-- that error, the upstream's first: two reads for each upstream result and one for each byte are
-- enough.
pub read_all_complete :
    (upstream_reads : List ReadResult) (sizes : List ℕ)
    → ends upstream_reads ≡ true
    → AllPositive sizes
    → channel_weight upstream_reads ≤ length sizes
    → let r = read_all (started upstream_reads) sizes in
      (r.0 ≡ until_error upstream_reads)
      × ((r.1 ≡ first_error upstream_reads) × (is_some r.1 ≡ true))
read_all_complete upstream_reads sizes h b w = (
  whole (read_all-until_error upstream_reads sizes),
  (ended_as upstream_reads sizes ended, ended),
)
  where
    ended : is_some (read_all (started upstream_reads) sizes).1 ≡ true
    ended =
        read_all-ends (started upstream_reads) sizes refl (read_loop-ends upstream_reads h) b
          (omega (arith, w, read_loop-weight upstream_reads))

    whole :
        (rest : Bytes) × (until_error upstream_reads
            ≡ (read_all (started upstream_reads) sizes).0 ++ rest)
          × (((read_all (started upstream_reads) sizes).1 ≡ none) ⊎ (rest ≡ []))
        → (read_all (started upstream_reads) sizes).0 ≡ until_error upstream_reads
    whole (rest, e, inl q) = absurd (ground (arith, ended, q))
    whole (rest, e, inr q) = sym (
        e
        ∙ ap (λ l. (read_all (started upstream_reads) sizes).0 ++ l) q
        ∙ append-nil (read_all (started upstream_reads) sizes).0)
