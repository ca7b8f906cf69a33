-- ===== src/Race/Request.antt =====
-- pkg/proxy/race_request.go: one attempt at an upstream. Each method runs under the lock of the
-- request and is one step; the clock is an argument. The buffer is `none` once Cancel released it, and
-- the methods of the buffer accept that.
use llm_supervisor_proxy.Failure.{Error}
use llm_supervisor_proxy.StreamBuffer.{
  Bytes, StreamBuffer, new_stream_buffer, add, close as close_buffer, get_total_len,
}
use llm_supervisor_proxy.Support.Int.{ℤ, pos}
use llm_supervisor_proxy.Support.{
  ℕ, ◌-◌, Bool, true, false, String, Option, none, some, ltb, if◌then◌else◌,
}

pub data ModelType : Type 0 where
  main_attempt second_attempt fallback_attempt cred_failover_attempt : ModelType

pub data UpstreamStatus : Type 0 where
  pending running streaming completed failed : UpstreamStatus

pub record TokenUsage : Type 0 where
  pub prompt_tokens : ℕ
  pub completion_tokens : ℕ
  pub total_tokens : ℕ

-- `context_cancelled` is what the cancel function of the attempt's context does; `has_context` is
-- whether it is set; `open_body` is whether a response is held.
pub record UpstreamRequest : Type 0 where
  pub id : ℕ
  pub model_type : ModelType
  pub model_id : String
  pub has_context : Bool
  pub context_cancelled : Bool
  pub buffer : Option StreamBuffer
  pub open_body : Bool
  pub status : UpstreamStatus
  pub err : Option Error
  pub resolved_credential_id : String
  pub reselected_credential_id : String
  pub carries_group_pick : Bool
  pub cancelled : Bool
  pub start_time : ℕ
  pub first_byte_time : ℕ
  pub completion_time : ℕ
  pub last_activity_time : ℕ
  pub usage : Option TokenUsage
  pub http_status_code : ℤ
  pub use_secondary_upstream : Bool

unfoldable pub new_upstream_request : ℕ → ModelType → String → ℤ → UpstreamRequest
new_upstream_request id m_type model_id max_buffer = record {
  id = id;
  model_type = m_type;
  model_id = model_id;
  has_context = false;
  context_cancelled = false;
  buffer = some (new_stream_buffer max_buffer);
  open_body = false;
  status = pending;
  err = none;
  resolved_credential_id = "";
  reselected_credential_id = "";
  carries_group_pick = false;
  cancelled = false;
  start_time = 0;
  first_byte_time = 0;
  completion_time = 0;
  last_activity_time = 0;
  usage = none;
  http_status_code = pos 0;
  use_secondary_upstream = false;
}

unfoldable pub mark_started : ℕ → UpstreamRequest → UpstreamRequest
mark_started now r = record r { status = running; start_time = now }

unfoldable pub mark_streaming : ℕ → UpstreamRequest → UpstreamRequest
mark_streaming now r = record r {
  status = streaming;
  first_byte_time = now;
  last_activity_time = now;
}

abbrev pub close_with : Option String → Option StreamBuffer → Option StreamBuffer
close_with err none = none
close_with err (some sb) = some (close_buffer sb err)

unfoldable pub mark_completed : ℕ → UpstreamRequest → UpstreamRequest
mark_completed now r = record r {
  status = completed;
  completion_time = now;
  buffer = close_with none r.buffer;
}

unfoldable pub mark_failed : Error → ℕ → UpstreamRequest → UpstreamRequest
mark_failed err now r = record r {
  status = failed;
  err = some err;
  completion_time = now;
  buffer = close_with (some err.text) r.buffer;
}

unfoldable pub set_context : UpstreamRequest → UpstreamRequest
set_context r = record r { has_context = true; context_cancelled = false }

unfoldable pub set_resp : UpstreamRequest → UpstreamRequest
set_resp r = record r { open_body = true }

-- The buffer is closed with context.Canceled before the reference to it goes.
unfoldable pub cleanup : UpstreamRequest → UpstreamRequest
cleanup r = record r { open_body = false; buffer = none }

-- `cancelOnce`: only the first call does anything.
unfoldable pub cancel : UpstreamRequest → UpstreamRequest
cancel r =
    if r.cancelled
    then r
    else cleanup (record r { cancelled = true; context_cancelled = r.has_context })

unfoldable pub track_activity : ℕ → UpstreamRequest → UpstreamRequest
track_activity now r = record r { last_activity_time = now }

unfoldable pub set_usage : TokenUsage → UpstreamRequest → UpstreamRequest
set_usage usage r = record r { usage = some usage }

unfoldable pub set_http_status : ℤ → UpstreamRequest → UpstreamRequest
set_http_status code r = record r { http_status_code = code }

unfoldable pub set_use_secondary_upstream : Bool → UpstreamRequest → UpstreamRequest
set_use_secondary_upstream val r = record r { use_secondary_upstream = val }

unfoldable pub is_done : UpstreamRequest → Bool
is_done r = elim r.status [ completed ↦ true | failed ↦ true | _ ↦ false ]

unfoldable pub is_completed : UpstreamRequest → Bool
is_completed r = elim r.status [ completed ↦ true | _ ↦ false ]

unfoldable pub is_streaming : UpstreamRequest → Bool
is_streaming r = elim r.status [ streaming ↦ true | _ ↦ false ]

unfoldable pub is_idle : ℕ → ℕ → UpstreamRequest → Bool
is_idle idle_timeout now r = elim r.status [
  | streaming ↦ ltb idle_timeout (now - r.last_activity_time)
  | _ ↦ false
]

-- The nil-safe forms of the buffer's methods.
unfoldable pub buffer_len : UpstreamRequest → ℕ
buffer_len r = elim r.buffer [ none ↦ 0 | some sb ↦ get_total_len sb ]

abbrev pub add_to : Bytes → Option StreamBuffer → Option StreamBuffer
add_to line none = none
add_to line (some sb) = some (add sb line).1

unfoldable pub add_line : Bytes → UpstreamRequest → UpstreamRequest
add_line line r = record r { buffer = add_to line r.buffer }

-- What the executor of an attempt does to it.
pub data RequestOp : Type 0 where
  started : ℕ → RequestOp
  first_byte : ℕ → RequestOp
  finished : ℕ → RequestOp
  broke : Error → ℕ → RequestOp
  got_context : RequestOp
  got_response : RequestOp
  got_line : Bytes → RequestOp
  got_activity : ℕ → RequestOp
  got_usage : TokenUsage → RequestOp
  got_status : ℤ → RequestOp
  resolved : String → RequestOp
  cancelled_by_owner : RequestOp

unfoldable pub apply_op : RequestOp → UpstreamRequest → UpstreamRequest
apply_op (started now) r = mark_started now r
apply_op (first_byte now) r = mark_streaming now r
apply_op (finished now) r = mark_completed now r
apply_op (broke err now) r = mark_failed err now r
apply_op got_context r = set_context r
apply_op got_response r = set_resp r
apply_op (got_line line) r = add_line line r
apply_op (got_activity now) r = track_activity now r
apply_op (got_usage usage) r = set_usage usage r
apply_op (got_status code) r = set_http_status code r
apply_op (resolved credential_id) r = record r { resolved_credential_id = credential_id }
apply_op cancelled_by_owner r = cancel r
