-- ===== src/Failure/Reason.antt =====
-- pkg/proxy/race_reason.go: the class, the status and the bounded text under which a failed attempt is
-- reported. The six regular expressions that hide secrets in the text are a parameter.
use llm_supervisor_proxy.Failure.{Error, is_rate_limit_error}
use llm_supervisor_proxy.Failure.Text.{text_contains, contains_any, read_digits, to_lower}
use llm_supervisor_proxy.Support.Int.{ℤ, pos, eq_ℤ, leb_ℤ, ltb_ℤ}
use llm_supervisor_proxy.Support.{
  ℕ, zero, suc, ◌+◌, ◌^◌, Bool, true, false, not, ◌||◌, String, List, [], ◌∷◌, Option, none, some,
  leb, ltb, ◌==◌, if◌then◌else◌,
}
use Prim.Native.String.{len, find, slice, count, ◌++◌ as ◌<>◌}

pub data ReasonClass : Type 0 where
  rate_limit auth conflict upstream_4xx upstream_5xx timeout connection proxy_internal cancelled
        unknown :
      ReasonClass

pub record FailureReason : Type 0 where
  pub class : ReasonClass
  pub status : ℤ
  pub detail : String

abbrev status_prefix : String
status_prefix = "upstream returned error: "

-- `strconv.Atoi`, which fails above the largest int.
abbrev pub atoi : ℕ → ℤ
atoi n = if ltb n (2 ^ 63) then pos n else pos 0

unfoldable pub parse_upstream_returned_status : String → ℤ
parse_upstream_returned_status err_str =
    if text_contains err_str status_prefix
    then (let rest = slice err_str (find err_str status_prefix + len status_prefix) (len err_str) in
        let (code, end) = read_digits rest 0 0 in if end == 0 then pos 0 else atoi code)
    else pos 0

unfoldable pub classify_is_timeout : Error → Bool
classify_is_timeout err =
    err.is_deadline_exceeded
    || (elim err.net_timeout [ none ↦ false | some timed_out ↦ timed_out ]
        || (text_contains (to_lower err.text) "timeout"
            || (text_contains (to_lower err.text) "timed out"
                || text_contains (to_lower err.text) "deadline")))

abbrev proxy_markers : List String
proxy_markers =
    "failed to resolve internal config" ∷ "failed to create provider"
    ∷ "failed to parse request body" ∷ "failed to convert request"
    ∷ "failed to create upstream request" ∷ "invalid upstream url" ∷ "failed to marshal response"
    ∷ "buffer limit exceeded" ∷ "streaming not supported" ∷ "credential not found" ∷ []

unfoldable pub classify_is_proxy_internal : String → Bool
classify_is_proxy_internal err_str = contains_any (to_lower err_str) proxy_markers

abbrev connection_markers : List String
connection_markers =
    "connection refused" ∷ "connection reset" ∷ "broken pipe" ∷ "no such host" ∷ "dial tcp"
    ∷ "dial unix" ∷ "closed connection" ∷ "read error:" ∷ "eof" ∷ []

unfoldable pub classify_is_connection : Error → Bool
classify_is_connection err =
    if classify_is_proxy_internal err.text
    then false
    else elim err.url_timeout [ none ↦ false | some timed_out ↦ not timed_out ]
      || (elim err.net_timeout [ none ↦ false | some timed_out ↦ not timed_out ]
          || (err.is_op_error || contains_any (to_lower err.text) connection_markers))

abbrev max_reason_detail_runes : ℕ
max_reason_detail_runes = 160

-- The first runes of a text.
unfoldable pub take_runes : ℕ → String → String
take_runes zero s = String.[]
take_runes (suc n) String.[] = String.[]
take_runes (suc n) (String.◌∷◌ c s) = String.◌∷◌ c (take_runes n s)

unfoldable pub truncate_reason_runes : String → ℕ → String
truncate_reason_runes s max = if (max == 0) || leb (count s) max then s else take_runes max s <> "…"

-- The hidden secrets and collapsed spaces are `hide`.
unfoldable pub sanitize_reason_detail : (String → String) → String → String
sanitize_reason_detail hide s = truncate_reason_runes (hide s) max_reason_detail_runes

unfoldable pub status_class : ℤ → ReasonClass
status_class status =
    if eq_ℤ status (pos 429)
    then rate_limit
    else if eq_ℤ status (pos 401) || eq_ℤ status (pos 403)
    then auth
    else if eq_ℤ status (pos 409)
    then conflict
    else if leb_ℤ (pos 500) status
    then upstream_5xx
    else (if leb_ℤ (pos 400) status then upstream_4xx else unknown)

unfoldable pub provider_status : Error → ℤ
provider_status err = elim err.provider_error [ none ↦ pos 0 | some pe ↦ pe.status_code ]

-- The stored status, else the one of the provider's error, else the one the text names.
unfoldable pub resolve_status : Error → ℤ → ℤ
resolve_status err stored =
    let status = if eq_ℤ stored (pos 0) then provider_status err else stored in
    if eq_ℤ status (pos 0) then parse_upstream_returned_status err.text else status

-- The class of an error that carries no status.
unfoldable pub text_class : Error → ReasonClass
text_class err =
    if classify_is_timeout err
    then timeout
    else if classify_is_connection err
    then connection
    else (if classify_is_proxy_internal err.text then proxy_internal else unknown)

unfoldable pub reason_class : Error → ℤ → ReasonClass
reason_class err status =
    if is_rate_limit_error err
    then rate_limit
    else (if ltb_ℤ (pos 0) status then status_class status else text_class err)

-- The branch on a cancelled context.
abbrev pub reason_of : Bool → Error → ℤ → String → FailureReason
reason_of true err stored detail = record { class = cancelled; status = pos 0; detail = detail }
reason_of false err stored detail = record {
  class = reason_class err (resolve_status err stored);
  status = resolve_status err stored;
  detail = detail;
}

unfoldable pub classify_attempt_failure : (String → String) → Option Error → ℤ → FailureReason
classify_attempt_failure hide none stored = record { class = unknown; status = pos 0; detail = "" }
classify_attempt_failure hide (some err) stored =
    reason_of err.is_canceled err stored (sanitize_reason_detail hide err.text)
