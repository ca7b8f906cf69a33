-- ===== src/Race/FinalError.antt =====
-- pkg/proxy/race_coordinator.go: the status and the error that a client gets when every attempt has
-- failed. The forms that take the lock and those that expect it held have the same bodies.
use llm_supervisor_proxy.Failure.{Error, is_context_overflow_error}
use llm_supervisor_proxy.Failure.Text.{text_contains, read_digits}
use llm_supervisor_proxy.Race.Request.{UpstreamRequest}
use llm_supervisor_proxy.Support.Int.{ℤ, pos, negsuc, eq_ℤ, leb_ℤ}
use llm_supervisor_proxy.Support.{
  ℕ, ◌-◌, ◌^◌, Bool, true, false, ◌&&◌, ◌||◌, String, List, [], ◌∷◌, Option, none, some, leb, ltb,
  ◌==◌, if◌then◌else◌,
}
use Prim.Native.String.{len, find, slice}
use Prim.Native.Char.{code}

abbrev pub returned_error : String
returned_error = "upstream returned error: "

-- The digits of a `%d`: no digit, or a value that is no int64, leaves the zero.
abbrev unsigned : Bool → ℕ → ℤ
unsigned true n = if leb n (2 ^ 63) && ltb 0 n then negsuc (n - 1) else pos 0
unsigned false n = if ltb n (2 ^ 63) then pos n else pos 0

unfoldable pub scan_digits : Bool → String → ℤ
scan_digits negative s =
    let (n, end) = read_digits s 0 0 in if end == 0 then pos 0 else unsigned negative n

-- `%d`, with its leading blanks and its sign.
unfoldable pub scan_int : String → ℤ
scan_int String.[] = pos 0
scan_int (String.◌∷◌ c s) =
    let rest = scan_int s in
    if code c == 32
    then rest
    else if code c == 43
    then scan_digits false s
    else (if code c == 45 then scan_digits true s else scan_digits false (String.◌∷◌ c s))

-- `fmt.Sscanf`, whose format starts at the front of the text.
unfoldable pub sscanf_status : String → ℤ
sscanf_status err_str =
    if find err_str returned_error == 0
    then scan_int (slice err_str (len returned_error) (len err_str))
    else pos 0

unfoldable pub text_status : String → ℤ
text_status err_str =
    if text_contains err_str returned_error
    then sscanf_status err_str
    else if text_contains err_str "idle timeout"
        || (text_contains err_str "context" || text_contains err_str "timeout")
    then pos 504
    else (if text_contains err_str "buffer limit" then pos 413 else pos 502)

abbrev or_bad_gateway : ℤ → ℤ
or_bad_gateway status = if eq_ℤ status (pos 0) then pos 502 else status

-- The status of one failed attempt: the stored one when it is an error's, else the text's.
unfoldable pub attempt_status : Error → ℤ → ℤ
attempt_status err stored =
    if leb_ℤ (pos 400) stored then stored else or_bad_gateway (text_status err.text)

-- An attempt without an error has no status.
abbrev pub failure_status : UpstreamRequest → Option ℤ
failure_status r = elim r.err [
  | none ↦ none
  | some err ↦ some (attempt_status err r.http_status_code)
]

-- One turn of the loop; `rest` are the later turns.
abbrev pub common_turn : ℤ → (ℤ → ℤ) → Option ℤ → ℤ
common_turn common rest none = pos 0
common_turn common rest (some status) =
    if eq_ℤ common (pos 0) then rest status else (if eq_ℤ common status then rest common else pos 0)

unfoldable pub common_loop : ℤ → List UpstreamRequest → ℤ
common_loop common [] = common
common_loop common (r ∷ requests) =
    common_turn common (λ status. common_loop status requests) (failure_status r)

unfoldable pub get_common_failure_status : List UpstreamRequest → ℤ
get_common_failure_status requests = common_loop (pos 0) requests

pub record FinalErrorInfo : Type 0 where
  pub http_status : ℤ
  pub error_type : String
  pub error_code : String
  pub message : String

-- What the loop over the attempts collects.
pub record Collected : Type 0 where
  pub last_error : Option Error
  pub any_model_429 : Bool
  pub all_models_exhausted : Bool
  pub has_context_overflow : Bool

abbrev pub failed : Option Error → Bool
failed none = false
failed (some err) = true

abbrev later_error : Option Error → Option Error → Option Error
later_error none before = before
later_error (some err) before = some err

-- The branch on the attempt's error, field by field.
abbrev pub collect_one : Collected → UpstreamRequest → Collected
collect_one seen r = record {
  last_error = later_error r.err seen.last_error;
  any_model_429 = seen.any_model_429 || (failed r.err && eq_ℤ r.http_status_code (pos 429));
  all_models_exhausted = seen.all_models_exhausted && failed r.err;
  has_context_overflow = seen.has_context_overflow || is_context_overflow_error r.err;
}

unfoldable pub collect : Collected → List UpstreamRequest → Collected
collect seen [] = seen
collect seen (r ∷ requests) = collect (collect_one seen r) requests

abbrev pub nothing_collected : Collected
nothing_collected = record {
  last_error = none;
  any_model_429 = false;
  all_models_exhausted = true;
  has_context_overflow = false;
}

abbrev pub error_info : ℤ → String → String → String → FinalErrorInfo
error_info http_status error_type error_code message = record {
  http_status = http_status;
  error_type = error_type;
  error_code = error_code;
  message = message;
}

-- The switch on the common status.
unfoldable pub info_of_status : ℤ → Bool → String → FinalErrorInfo
info_of_status status rate_limited message =
    if eq_ℤ status (pos 429)
    then (if rate_limited
        then error_info status "rate_limit" "rate_limit" "All models rate limited"
        else error_info status "rate_limit" "" message)
    else if eq_ℤ status (pos 502)
    then error_info status "upstream_error" "unavailable" message
    else if eq_ℤ status (pos 404)
    then error_info status "server_error" "model_not_found" message
    else if eq_ℤ status (pos 500)
    then error_info status "server_error" "" message
    else if eq_ℤ status (pos 503)
    then error_info status "too_many_requests" "unavailable" message
    else (if eq_ℤ status (pos 504)
        then error_info status "upstream_error" "" message
        else error_info (pos 502) "server_error" "" message)

abbrev pub info_for : Option Error → ℤ → Collected → FinalErrorInfo
info_for none status seen = error_info (pos 502) "server_error" "" "Unknown error"
info_for (some err) status seen =
    if seen.has_context_overflow
    then error_info (pos 400) "context_length_exceeded" "" err.text
    else info_of_status status (seen.all_models_exhausted && seen.any_model_429) err.text

unfoldable pub info_of : ℤ → Collected → FinalErrorInfo
info_of status seen = info_for seen.last_error status seen

unfoldable pub get_final_error_info : List UpstreamRequest → FinalErrorInfo
get_final_error_info [] = error_info (pos 502) "server_error" "" "No upstream requests were made"
get_final_error_info (r ∷ requests) =
    info_of (get_common_failure_status (r ∷ requests)) (collect nothing_collected (r ∷ requests))
