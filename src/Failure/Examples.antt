-- ===== src/Failure/Examples.antt =====
-- Runs of the tests on errors, and their theorem at a concrete error.
use llm_supervisor_proxy.Failure.{
  Error, ProviderError, is_rate_limit, is_rate_limit_error, is_quota, is_quota_error,
  is_context_overflow_error,
}
use llm_supervisor_proxy.Failure.Text.{
  text_contains, contains_any, lower_char, read_digits, to_lower,
}
use llm_supervisor_proxy.Failure.Reason.{
  auth, upstream_5xx, connection, cancelled, classify_attempt_failure, classify_is_connection,
  classify_is_proxy_internal, classify_is_timeout, parse_upstream_returned_status, provider_status,
  reason_class, resolve_status, sanitize_reason_detail, status_class, take_runes, text_class,
  truncate_reason_runes,
}
use llm_supervisor_proxy.Failure.Classes.{Describes, classify_attempt_failure_lem}
use llm_supervisor_proxy.Support.Int.{pos}
use llm_supervisor_proxy.Support.{◌≤◌, ◌≡◌, refl, true, false, String, none, some, dec_str}
use Prim.Native.String.{count}

program : Unit {0}
unfolding is_rate_limit is_rate_limit_error is_quota is_quota_error is_context_overflow_error
    text_contains contains_any lower_char read_digits to_lower classify_attempt_failure
    classify_is_connection classify_is_proxy_internal classify_is_timeout
    parse_upstream_returned_status provider_status reason_class resolve_status
    sanitize_reason_detail status_class take_runes text_class truncate_reason_runes dec_str
program = tt

abbrev plain : String → Error
plain text = record {
  text = text;
  provider_error = none;
  is_canceled = false;
  is_deadline_exceeded = false;
  net_timeout = none;
  url_timeout = none;
  is_op_error = false;
}

abbrev provider_says : ProviderError
provider_says = record {
  provider = "p";
  status_code = pos 400;
  message = "Your Token Plan is used up";
  retryable = false;
  buffer_id = "";
  retry_after = pos 0;
  error_type = "Rate_Limit_Reached";
  error_code = "";
}

errors_run :
    (is_rate_limit provider_says ≡ true)
    × (is_quota provider_says ≡ true)
    × (is_context_overflow_error (some (plain "The Prompt is too long")) ≡ true)
    × (parse_upstream_returned_status "failed: upstream returned error: 503 busy" ≡ pos 503)
    × (parse_upstream_returned_status "upstream returned error: none" ≡ pos 0)
    × (truncate_reason_runes "abcd" 3 ≡ "abc…")
unfolding program
errors_run = (refl, refl, refl, refl, refl, refl)

abbrev same : String → String
same s = s

classes_run :
    ((classify_attempt_failure same (some (plain "dial tcp: connection refused")) (pos 0)).class
      ≡ connection)
    × ((classify_attempt_failure same (some (plain "no")) (pos 401)).class ≡ auth)
    × ((classify_attempt_failure same (some (plain "upstream returned error: 502")) (pos 0)).class
        ≡ upstream_5xx)
    × ((classify_attempt_failure same
          (some (record (plain "x") { is_canceled = true }))
          (pos 500)).class
        ≡ cancelled)
unfolding program
classes_run = (refl, refl, refl, refl)

classify_attempt_failure_lem_example :
    let reason =
      classify_attempt_failure same (some (plain "upstream returned error: 502")) (pos 0) in
    Describes false (plain "upstream returned error: 502") (pos 0) reason
    × (count reason.detail ≤ 161)
classify_attempt_failure_lem_example =
    classify_attempt_failure_lem same (plain "upstream returned error: 502") (pos 0)
