-- ===== src/StreamBuffer/Bounded.antt =====
-- pkg/proxy/stream_buffer.go, `Add` and the limit of the buffer.
use llm_supervisor_proxy.Support.{
  ℕ, suc, ◌+◌, ◌<◌, ◌≤◌, ◌≡◌, refl, ap, ◌∙◌, Bool, false, List, [], ◌∷◌, arith, Bool-cases, inl,
  inr, ltb, leb, length, if◌then◌else◌,
}
use llm_supervisor_proxy.StreamBuffer.Delivery.{add-chunks}
use llm_supervisor_proxy.StreamBuffer.{
  Bytes, StreamBuffer, invalidate_cache, append_chunk, add, get_total_len,
}

-- The lines that `add` accepts, and the buffer after all of them.
unfoldable pub add_all : StreamBuffer → List Bytes → List Bytes × StreamBuffer
add_all sb [] = ([], sb)
add_all sb (line ∷ lines) =
    let (ok, next) = add sb line in
    let (rest, last) = add_all next lines in (if ok then line ∷ rest else rest, last)

-- The longest prefix that fits in the room left.
unfoldable pub fitting : ℕ → ℕ → List Bytes → List Bytes
fitting limit used [] = []
fitting limit used (line ∷ lines) =
    let rest = fitting limit (used + suc (length line)) lines in
    if leb (used + suc (length line)) limit then line ∷ rest else []

-- The bytes of some lines with their newlines.
unfoldable pub bytes_of : List Bytes → ℕ
bytes_of [] = 0
bytes_of (line ∷ lines) = suc (length line) + bytes_of lines

-- An open buffer counts the line, and accepts it if the counter is within the limit.
record IsCounted (sb : StreamBuffer) (line : Bytes) (r : Bool × StreamBuffer) : Type 0 where
  pub verdict : r.0 ≡ leb (sb.total_len + suc (length line)) sb.max_bytes
  pub still_open : r.1.completed ≡ false
  pub limit : r.1.max_bytes ≡ sb.max_bytes
  pub grown : r.1.total_len ≡ sb.total_len + suc (length line)

add-IsCounted :
    (sb : StreamBuffer) (line : Bytes) → sb.completed ≡ false → IsCounted sb line (add sb line)
unfolding add append_chunk invalidate_cache
add-IsCounted sb line o = elim (Bool-cases (ltb sb.max_bytes (sb.total_len + (length line + 1)))) [
  | inl e ↦
      rw (o, e)
        (record {
          verdict = ground (arith, e);
          still_open = refl;
          limit = refl;
          grown = omega arith;
        })
  | inr e ↦
      rw (o, e)
        (record {
          verdict = ground (arith, e);
          still_open = refl;
          limit = refl;
          grown = omega arith;
        })
]

-- An open buffer whose counter is past the limit takes nothing more.
full-takes_none :
    (sb : StreamBuffer) (lines : List Bytes)
    → sb.completed ≡ false
    → sb.max_bytes < sb.total_len
    → (add_all sb lines).0 ≡ []
unfolding add_all
full-takes_none sb [] o h = refl
full-takes_none sb (line ∷ lines) o h =
    let k = add-IsCounted sb line o in
    rw (k.verdict, past)
      (full-takes_none (add sb line).1 lines k.still_open (omega (arith, k.limit, k.grown, h)))
  where
    past : leb (sb.total_len + suc (length line)) sb.max_bytes ≡ false
    past = ground (arith, h)

fitting-bytes :
    (limit used : ℕ) (lines : List Bytes)
    → used ≤ limit
    → used + bytes_of (fitting limit used lines) ≤ limit
unfolding fitting bytes_of
fitting-bytes limit used [] h = omega (arith, h)
fitting-bytes limit used (line ∷ lines) h =
    elim (Bool-cases (leb (used + suc (length line)) limit)) [
      | inl e ↦
          rw e (omega (arith, fitting-bytes limit (used + suc (length line)) lines (ground arith)))
      | inr e ↦ rw e (omega (arith, h))
    ]

add_all-fitting :
    (sb : StreamBuffer) (lines : List Bytes)
    → sb.completed ≡ false
    → (add_all sb lines).0 ≡ fitting sb.max_bytes sb.total_len lines
unfolding add_all fitting
add_all-fitting sb [] o = refl
add_all-fitting sb (line ∷ lines) o =
    elim (Bool-cases (leb (sb.total_len + suc (length line)) sb.max_bytes)) [
      | inl e ↦
          rw (k.verdict, e)
            (ap (◌∷◌ line) (add_all-fitting next lines k.still_open ∙ (rw (k.limit, k.grown) refl)))
      | inr e ↦
          rw (k.verdict, e)
            (full-takes_none next lines k.still_open (ground (arith, k.limit, k.grown, e)))
    ]
  where
    next : StreamBuffer
    next = (add sb line).1

    k : IsCounted sb line (add sb line)
    k = add-IsCounted sb line o

-- An open buffer accepts the longest prefix of the lines whose bytes, newlines included, fit in the
-- room left, and no line after the first that does not fit: what it holds stays within the limit.
pub add_all-bounded :
    (sb : StreamBuffer) (lines : List Bytes)
    → sb.completed ≡ false
    → sb.total_len ≤ sb.max_bytes
    → ((add_all sb lines).0 ≡ fitting sb.max_bytes sb.total_len lines)
      × (sb.total_len + bytes_of (add_all sb lines).0 ≤ sb.max_bytes)
add_all-bounded sb lines o h = (
  add_all-fitting sb lines o,
  rw (add_all-fitting sb lines o) (fitting-bytes sb.max_bytes sb.total_len lines h),
)

-- A line that does not fit is counted although nothing is stored: from then on the counter exceeds
-- the limit, and no more is accepted, while the chunks stay as they are.
pub add-overflow :
    (sb : StreamBuffer) (line : Bytes) (lines : List Bytes)
    → sb.completed ≡ false
    → sb.max_bytes < sb.total_len + suc (length line)
    → ((add sb line).0 ≡ false)
      × (get_total_len (add sb line).1 ≡ sb.total_len + suc (length line))
      × ((add sb line).1.chunks ≡ sb.chunks)
      × ((add_all (add sb line).1 lines).0 ≡ [])
unfolding get_total_len
add-overflow sb line lines o h =
    let k = add-IsCounted sb line o in
    (
      k.verdict ∙ ground (arith, h),
      k.grown,
      chunks_kept,
      full-takes_none (add sb line).1 lines k.still_open (omega (arith, k.limit, k.grown, h)),
    )
  where
    rejected : (add sb line).0 ≡ false
    rejected = (add-IsCounted sb line o).verdict ∙ ground (arith, h)

    chunks_kept : (add sb line).1.chunks ≡ sb.chunks
    chunks_kept = elim (add-chunks sb line) [
      | inl (e, f) ↦ absurd (ground (arith, e, rejected))
      | inr (e, f) ↦ f
    ]
