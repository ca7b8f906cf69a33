-- ===== src/Race/Cancelled.antt =====
-- pkg/proxy/race_request.go: what Cancel leaves of an attempt, whatever its executor still does.
use llm_supervisor_proxy.Race.Request.{
  UpstreamRequest, ModelType, RequestOp, started, first_byte, finished, broke, got_context,
  got_response, got_line, got_activity, got_usage, got_status, resolved, cancelled_by_owner,
  apply_op, new_upstream_request, mark_started, mark_streaming, mark_completed, mark_failed,
  set_context, set_resp, add_line, track_activity, set_usage, set_http_status, cancel, cleanup,
  buffer_len,
}
use llm_supervisor_proxy.Support.Int.{ℤ}
use llm_supervisor_proxy.Support.{
  ℕ, ◌≡◌, refl, true, String, List, [], ◌∷◌, none, Bool-cases, inl, inr, arith,
}

unfoldable pub apply_ops : List RequestOp → UpstreamRequest → UpstreamRequest
apply_ops [] r = r
apply_ops (op ∷ ops) r = apply_ops ops (apply_op op r)

-- A cancelled attempt holds no buffer.
abbrev pub IsReleased : UpstreamRequest → Type 0
IsReleased r = (r.cancelled ≡ true) → r.buffer ≡ none

pub cancel-IsReleased : (r : UpstreamRequest) → IsReleased r → IsReleased (cancel r)
unfolding cancel cleanup
cancel-IsReleased r i = elim (Bool-cases r.cancelled) [
  | inl e ↦ rw e (λ h. i e)
  | inr e ↦ rw e (λ h. refl)
]

pub cancel-cancelled : (r : UpstreamRequest) → (cancel r).cancelled ≡ true
unfolding cancel cleanup
cancel-cancelled r = elim (Bool-cases r.cancelled) [ inl e ↦ rw e refl | inr e ↦ rw e refl ]

pub apply_op-IsReleased :
    (op : RequestOp) (r : UpstreamRequest) → IsReleased r → IsReleased (apply_op op r)
unfolding apply_op mark_started mark_streaming mark_completed mark_failed set_context set_resp
    add_line track_activity set_usage set_http_status
apply_op-IsReleased (started now) r i = i
apply_op-IsReleased (first_byte now) r i = i
apply_op-IsReleased (finished now) r i = λ h. rw (i h) refl
apply_op-IsReleased (broke err now) r i = λ h. rw (i h) refl
apply_op-IsReleased got_context r i = i
apply_op-IsReleased got_response r i = i
apply_op-IsReleased (got_line line) r i = λ h. rw (i h) refl
apply_op-IsReleased (got_activity now) r i = i
apply_op-IsReleased (got_usage usage) r i = i
apply_op-IsReleased (got_status code) r i = i
apply_op-IsReleased (resolved credential_id) r i = i
apply_op-IsReleased cancelled_by_owner r i = cancel-IsReleased r i

pub apply_op-cancelled :
    (op : RequestOp) (r : UpstreamRequest) → r.cancelled ≡ true → (apply_op op r).cancelled ≡ true
unfolding apply_op mark_started mark_streaming mark_completed mark_failed set_context set_resp
    add_line track_activity set_usage set_http_status
apply_op-cancelled (started now) r h = h
apply_op-cancelled (first_byte now) r h = h
apply_op-cancelled (finished now) r h = h
apply_op-cancelled (broke err now) r h = h
apply_op-cancelled got_context r h = h
apply_op-cancelled got_response r h = h
apply_op-cancelled (got_line line) r h = h
apply_op-cancelled (got_activity now) r h = h
apply_op-cancelled (got_usage usage) r h = h
apply_op-cancelled (got_status code) r h = h
apply_op-cancelled (resolved credential_id) r h = h
apply_op-cancelled cancelled_by_owner r h = cancel-cancelled r

pub apply_ops-IsReleased :
    (ops : List RequestOp) (r : UpstreamRequest) → IsReleased r → IsReleased (apply_ops ops r)
unfolding apply_ops
apply_ops-IsReleased [] r i = i
apply_ops-IsReleased (op ∷ ops) r i =
    apply_ops-IsReleased ops (apply_op op r) (apply_op-IsReleased op r i)

pub apply_ops-cancelled :
    (ops : List RequestOp) (r : UpstreamRequest)
    → r.cancelled ≡ true
    → (apply_ops ops r).cancelled ≡ true
unfolding apply_ops
apply_ops-cancelled [] r h = h
apply_ops-cancelled (op ∷ ops) r h =
    apply_ops-cancelled ops (apply_op op r) (apply_op-cancelled op r h)

pub new_request-IsReleased :
    (id : ℕ) (m_type : ModelType) (model_id : String) (max_buffer : ℤ)
    → IsReleased (new_upstream_request id m_type model_id max_buffer)
unfolding new_upstream_request
new_request-IsReleased id m_type model_id max_buffer h = ground (arith, h)

released_when_cancelled :
    (r : UpstreamRequest)
    → IsReleased r
    → r.cancelled ≡ true
    → (r.cancelled ≡ true) × ((r.buffer ≡ none) × (buffer_len r ≡ 0))
unfolding buffer_len
released_when_cancelled r i h = (h, (i h, rw (i h) refl))

-- Whatever an attempt did before Cancel and whatever its executor does after it, the attempt stays
-- cancelled, its buffer is gone for good, and its length reads as 0: it can win no race in live mode.
pub cancel_for_good :
    (id : ℕ) (m_type : ModelType) (model_id : String) (max_buffer : ℤ)
    (before after : List RequestOp)
    → let r =
        apply_ops after
          (cancel (apply_ops before (new_upstream_request id m_type model_id max_buffer))) in
      (r.cancelled ≡ true) × ((r.buffer ≡ none) × (buffer_len r ≡ 0))
cancel_for_good id m_type model_id max_buffer before after =
    let r0 = apply_ops before (new_upstream_request id m_type model_id max_buffer) in
    let fresh = new_request-IsReleased id m_type model_id max_buffer in
    released_when_cancelled (apply_ops after (cancel r0))
      (apply_ops-IsReleased after (cancel r0)
        (cancel-IsReleased r0 (apply_ops-IsReleased before _ fresh)))
      (apply_ops-cancelled after (cancel r0) (cancel-cancelled r0))
