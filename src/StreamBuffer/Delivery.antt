-- ===== src/StreamBuffer/Delivery.antt =====
-- pkg/proxy/stream_buffer.go with its client in pkg/proxy/handler.go, which counts the chunks that
-- it took.
use mathlib.Core.List.{append_assoc, append-nil}
use llm_supervisor_proxy.Support.Int.{ℤ}
use llm_supervisor_proxy.Support.{
  ℕ, suc, ◌+◌, ◌≡◌, refl, sym, ap, ◌∙◌, true, false, not, ◌&&◌, String, List, [], ◌∷◌, ◌++◌, map,
  Option, none, some, ltb, leb, ◌==◌, length, length-append, drop, drop_all, arith, Bool-cases, inl,
  inr, ◌⊎◌,
}
use llm_supervisor_proxy.StreamBuffer.{
  Bytes, StreamBuffer, new_stream_buffer, with_newline, invalidate_cache, append_chunk, add, close,
  get_all_raw_bytes_once, has_nil, filter_nil, slow_path, get_chunks_from, prune_loop, prune,
  should_prune,
}
use llm_supervisor_proxy.StreamBuffer.Stream.{
  Op, added, closed, reads, prunes, takes_raw, Stream, start, read_chunks, prune_read, step, run,
}

-- The chunks in front of the reader's index may be pruned, those behind it are the lines that are
-- still to be taken.
record IsDelivering (s : Stream) : Type 0 where
  pub front : List (Option Bytes)
  pub back : List Bytes
  pub split : s.buffer.chunks ≡ front ++ map some back
  pub counted : length front ≡ s.read_index
  pub ordered : s.accepted ≡ s.taken ++ back

filter_nil-map : (back : List Bytes) → filter_nil (map some back) ≡ back
unfolding filter_nil
filter_nil-map [] = refl
filter_nil-map (x ∷ back) = ap (◌∷◌ x) (filter_nil-map back)

length-map : (back : List Bytes) → length (map some back) ≡ length back
length-map [] = refl
length-map (x ∷ back) = ap suc (length-map back)

map-snoc :
    (back : List Bytes) (chunk : Bytes)
    → map some (back ++ chunk ∷ []) ≡ map some back ++ some chunk ∷ []
map-snoc [] chunk = refl
map-snoc (x ∷ back) chunk = ap (◌∷◌ (some x)) (map-snoc back chunk)

drop-front {ℓ} : {A : Type ℓ} (xs ys : List A) → drop (length xs) (xs ++ ys) ≡ ys
drop-front [] ys = refl
drop-front (x ∷ xs) ys = drop-front xs ys

get_chunks_from-filter :
    (sb : StreamBuffer) (from : ℕ) → (get_chunks_from sb from).0 ≡ filter_nil (drop from sb.chunks)
unfolding get_chunks_from slow_path filter_nil
get_chunks_from-filter sb from = elim (Bool-cases (leb (length sb.chunks) from)) [
  | inl e ↦ rw e (sym (ap filter_nil (drop_all sb.chunks from (ground arith))))
  | inr e ↦ elim (Bool-cases ((from == 0) && not (has_nil sb.chunks))) [
    | inl f ↦ rw (e, f) (ap (λ i. filter_nil (drop i sb.chunks)) (sym (at_start f)))
    | inr f ↦ rw (e, f) refl
  ]
]
  where
    at_start : ((from == 0) && not (has_nil sb.chunks)) ≡ true → from ≡ 0
    at_start f = ground arith

unread : (s : Stream) (d : IsDelivering s) → (get_chunks_from s.buffer s.read_index).0 ≡ d.back
unread s d =
    get_chunks_from-filter s.buffer s.read_index
    ∙ (rw (d.split, sym d.counted)
        (ap filter_nil (drop-front d.front (map some d.back)) ∙ filter_nil-map d.back))

read_chunks-IsDelivering : (s : Stream) → IsDelivering s → IsDelivering (read_chunks s)
unfolding read_chunks
read_chunks-IsDelivering s d = record {
  front = d.front ++ map some d.back;
  back = [];
  split = d.split ∙ sym (append-nil (d.front ++ map some d.back));
  counted =
      length-append d.front (map some d.back)
      ∙ (rw (d.counted, length-map d.back, unread s d) refl);
  ordered =
      d.ordered
      ∙ ap (λ l. s.taken ++ l) (sym (unread s d))
      ∙ sym (append-nil (s.taken ++ (get_chunks_from s.buffer s.read_index).0));
}

-- Only the chunks of the buffer matter.
IsDelivering-buffer :
    (s : Stream) (buffer : StreamBuffer)
    → buffer.chunks ≡ s.buffer.chunks
    → IsDelivering s
    → IsDelivering (record s { buffer = buffer })
IsDelivering-buffer s buffer e d = record {
  front = d.front;
  back = d.back;
  split = e ∙ d.split;
  counted = d.counted;
  ordered = d.ordered;
}

prune_loop-front :
    (front rest : List (Option Bytes))
    → (f : List (Option Bytes)) × (prune_loop (length front) (front ++ rest) ≡ f ++ rest)
      × (length f ≡ length front)
unfolding prune_loop
prune_loop-front [] rest = ([], refl, refl)
prune_loop-front (x ∷ front) rest =
    let (f, e, l) = prune_loop-front front rest in (none ∷ f, ap (◌∷◌ none) e, ap suc l)

prune-IsDelivering :
    (s : Stream) → IsDelivering s → IsDelivering (record s { buffer = prune s.buffer s.read_index })
unfolding prune invalidate_cache
prune-IsDelivering s d =
    let (f, e, l) = prune_loop-front d.front (map some d.back) in
    record {
      front = f;
      back = d.back;
      split = (rw (d.split, sym d.counted) e);
      counted = l ∙ d.counted;
      ordered = d.ordered;
    }

prune_read-IsDelivering : (s : Stream) → IsDelivering s → IsDelivering (prune_read s)
unfolding prune_read
prune_read-IsDelivering s d = elim (Bool-cases (should_prune s.buffer s.read_index)) [
  | inl e ↦ rw e (prune-IsDelivering s d)
  | inr e ↦ rw e d
]

-- A line that is accepted stands behind all others.
append_chunk-IsDelivering :
    (s : Stream) (buffer : StreamBuffer) (chunk : Bytes)
    → buffer.chunks ≡ s.buffer.chunks ++ some chunk ∷ []
    → IsDelivering s
    → IsDelivering (record s { buffer = buffer; accepted = s.accepted ++ chunk ∷ [] })
append_chunk-IsDelivering s buffer chunk e d = record {
  front = d.front;
  back = d.back ++ chunk ∷ [];
  split =
      e
      ∙ ap (λ l. l ++ some chunk ∷ []) d.split
      ∙ append_assoc d.front (map some d.back) (some chunk ∷ [])
      ∙ ap (◌++◌ d.front) (sym (map-snoc d.back chunk));
  counted = d.counted;
  ordered = ap (λ l. l ++ chunk ∷ []) d.ordered ∙ append_assoc s.taken d.back (chunk ∷ []);
}

-- The two results of `add`: the line stands at the end of the chunks, or they are as before.
pub add-chunks :
    (sb : StreamBuffer) (line : Bytes)
    → (((add sb line).0 ≡ true)
        × ((add sb line).1.chunks ≡ sb.chunks ++ some (with_newline line) ∷ []))
      ⊎ (((add sb line).0 ≡ false) × ((add sb line).1.chunks ≡ sb.chunks))
unfolding add append_chunk invalidate_cache
add-chunks sb line = elim (Bool-cases sb.completed) [
  | inl e ↦ inr (rw e (refl, refl))
  | inr e ↦ elim (Bool-cases (ltb sb.max_bytes (sb.total_len + (length line + 1)))) [
    | inl f ↦ inr (rw (e, f) (refl, refl))
    | inr f ↦ inl (rw (e, f) (refl, refl))
  ]
]

close-chunks : (sb : StreamBuffer) (err : Option String) → (close sb err).chunks ≡ sb.chunks
unfolding close invalidate_cache
close-chunks sb err = elim (Bool-cases sb.completed) [ inl e ↦ rw e refl | inr e ↦ rw e refl ]

raw-chunks : (sb : StreamBuffer) → (get_all_raw_bytes_once sb).1.chunks ≡ sb.chunks
unfolding get_all_raw_bytes_once
raw-chunks sb = elim (Bool-cases sb.cache_valid) [ inl e ↦ rw e refl | inr e ↦ rw e refl ]

step-IsDelivering : (s : Stream) (op : Op) → IsDelivering s → IsDelivering (step s op)
unfolding step
step-IsDelivering s (added line) d = elim (add-chunks s.buffer line) [
  | inl (e, f) ↦ rw e (append_chunk-IsDelivering s (add s.buffer line).1 (with_newline line) f d)
  | inr (e, f) ↦ rw e (IsDelivering-buffer s (add s.buffer line).1 f d)
]
step-IsDelivering s (closed err) d =
    IsDelivering-buffer s (close s.buffer err) (close-chunks s.buffer err) d
step-IsDelivering s reads d = read_chunks-IsDelivering s d
step-IsDelivering s prunes d = prune_read-IsDelivering s d
step-IsDelivering s takes_raw d =
    IsDelivering-buffer s (get_all_raw_bytes_once s.buffer).1 (raw-chunks s.buffer) d

run-IsDelivering : (s : Stream) (ops : List Op) → IsDelivering s → IsDelivering (run s ops)
unfolding run
run-IsDelivering s [] d = d
run-IsDelivering s (op ∷ ops) d = run-IsDelivering (step s op) ops (step-IsDelivering s op d)

start-IsDelivering : (max_bytes : ℤ) → IsDelivering (start max_bytes)
unfolding new_stream_buffer
start-IsDelivering max_bytes = record {
  front = [];
  back = [];
  split = refl;
  counted = refl;
  ordered = refl;
}

-- Whatever the writer and the reader of a new buffer did, in any order, pruning included: the
-- chunks that the reader took from the buffer are the first of the accepted lines, each with its
-- newline, in order and without loss or repetition, and one more read takes all of them. What the
-- reader makes of a chunk before it is sent, the mask of a group's model, is not part of this.
pub run_delivers :
    (max_bytes : ℤ) (ops : List Op)
    → let s = run (start max_bytes) ops in
      ((rest : List Bytes) × (s.accepted ≡ s.taken ++ rest)) × ((read_chunks s).taken ≡ s.accepted)
unfolding read_chunks
run_delivers max_bytes ops =
    let s = run (start max_bytes) ops in
    let d = run-IsDelivering (start max_bytes) ops (start-IsDelivering max_bytes) in
    ((d.back, d.ordered), ap (λ l. s.taken ++ l) (unread s d) ∙ sym d.ordered)
