-- ===== src/Failure.antt =====
-- pkg/providers/interface.go and pkg/models/errors.go: the errors of an upstream attempt and the tests
-- on them. A Go error is what the code reads of it: its text, the `*ProviderError` in its chain, and
-- the answers of errors.Is and errors.As for the standard library's errors.
pub mod Text
pub mod Reason
pub mod Classes
pub mod Examples
use llm_supervisor_proxy.Failure.Text.{text_contains, contains_any, to_lower}
use llm_supervisor_proxy.Support.Int.{ℤ, pos, eq_ℤ}
use llm_supervisor_proxy.Support.{
  Bool, true, false, ◌||◌, String, List, [], ◌∷◌, Option, none, some, str_eq, if◌then◌else◌,
}

pub record ProviderError : Type 0 where
  pub provider : String
  pub status_code : ℤ
  pub message : String
  pub retryable : Bool
  pub buffer_id : String
  pub retry_after : ℤ
  pub error_type : String
  pub error_code : String

-- A `net.Error` in the chain carries the answer of its Timeout, and so does a `*url.Error`.
pub record Error : Type 0 where
  pub text : String
  pub provider_error : Option ProviderError
  pub is_canceled : Bool
  pub is_deadline_exceeded : Bool
  pub net_timeout : Option Bool
  pub url_timeout : Option Bool
  pub is_op_error : Bool

unfoldable pub is_rate_limit : ProviderError → Bool
is_rate_limit pe =
    eq_ℤ pe.status_code (pos 429)
    || (text_contains (to_lower pe.error_type) "rate_limit"
        || (str_eq pe.error_code "rate_limit"
            || (str_eq pe.error_code "rate_limit_error"
                || str_eq pe.error_code "rate_limit_exceeded")))

unfoldable pub is_rate_limit_error : Error → Bool
is_rate_limit_error err = elim err.provider_error [ none ↦ false | some pe ↦ is_rate_limit pe ]

abbrev pub quota_type_vocabulary : List String
quota_type_vocabulary =
    "quota" ∷ "insufficient_credit" ∷ "insufficient_quota" ∷ "insufficient_balance"
    ∷ "payment_required" ∷ "credit_exhausted" ∷ "billing" ∷ []

abbrev pub quota_message_vocabulary : List String
quota_message_vocabulary =
    "insufficient credit" ∷ "insufficient credits" ∷ "insufficient balance" ∷ "insufficient quota"
    ∷ "quota exceeded" ∷ "quota exhausted" ∷ "exceeded your quota" ∷ "credit exhausted"
    ∷ "credits exhausted" ∷ "out of credit" ∷ "token plan usage limit" ∷ "token plan"
    ∷ "payment required" ∷ []

unfoldable pub is_quota : ProviderError → Bool
is_quota pe =
    eq_ℤ pe.status_code (pos 402)
    || (contains_any (to_lower pe.error_type) quota_type_vocabulary
        || (contains_any (to_lower pe.error_code) quota_type_vocabulary
            || contains_any (to_lower pe.message) quota_message_vocabulary))

unfoldable pub is_quota_error : Error → Bool
is_quota_error err = elim err.provider_error [ none ↦ false | some pe ↦ is_quota pe ]

abbrev pub overflow_patterns : List String
overflow_patterns =
    "context_length_exceeded" ∷ "prompt is too long" ∷ "exceeds the context window"
    ∷ "maximum context length" ∷ "input is too long" ∷ "reduce the length of the messages" ∷ []

unfoldable pub is_context_overflow_error : Option Error → Bool
is_context_overflow_error none = false
is_context_overflow_error (some err) = contains_any (to_lower err.text) overflow_patterns
