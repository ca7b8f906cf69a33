-- ===== src/RequestStore/Size.antt =====
-- pkg/store/memory.go: the logs of requests and the bytes they are charged. Times are not charged and
-- are left out with the other fields that Size does not read; a parameter's value is its printed text.
use llm_supervisor_proxy.Support.{ℕ, ◌+◌, ◌*◌, String, List, [], ◌∷◌}
use Prim.Native.String.{len}

pub record Function : Type 0 where
  pub name : String
  pub arguments : String

pub record ToolCall : Type 0 where
  pub id : String
  pub type : String
  pub function : Function

pub record Message : Type 0 where
  pub role : String
  pub content : String
  pub tool_calls : List ToolCall
  pub thinking : String

pub record RequestLog : Type 0 where
  pub id : String
  pub status : String
  pub model : String
  pub duration : String
  pub messages : List Message
  pub error : String
  pub token_id : String
  pub token_name : String
  pub original_model : String
  pub fallback_used : List String
  pub current_fallback : String
  pub route_model : String
  pub ultimate_model_id : String
  pub parameters : List (String × String)
  pub app_tag : String

abbrev pub per_field_overhead : ℕ
per_field_overhead = 16

abbrev fields_charged : ℕ
fields_charged = 14

unfoldable pub tool_calls_size : List ToolCall → ℕ
tool_calls_size [] = 0
tool_calls_size (tc ∷ calls) =
    per_field_overhead * 4
    + (len tc.id + (len tc.type + (len tc.function.name + len tc.function.arguments)))
    + tool_calls_size calls

unfoldable pub messages_size : List Message → ℕ
messages_size [] = 0
messages_size (msg ∷ messages) =
    per_field_overhead * 4
    + (len msg.role + (len msg.content + len msg.thinking))
    + tool_calls_size msg.tool_calls
    + messages_size messages

unfoldable pub fallbacks_size : List String → ℕ
fallbacks_size [] = 0
fallbacks_size (fb ∷ fallbacks) = len fb + per_field_overhead + fallbacks_size fallbacks

unfoldable pub parameters_size : List (String × String) → ℕ
parameters_size [] = 0
parameters_size ((k, v) ∷ parameters) =
    per_field_overhead + len k + len v + parameters_size parameters

unfoldable pub size : RequestLog → ℕ
size r =
    per_field_overhead * fields_charged
    + (len r.id
        + (len r.status
            + (len r.model
                + (len r.duration
                    + (len r.error
                        + (len r.token_id
                            + (len r.token_name
                                + (len r.original_model
                                    + (len r.app_tag
                                        + (len r.ultimate_model_id
                                            + (len r.current_fallback + len r.route_model)))))))))))
    + fallbacks_size r.fallback_used
    + messages_size r.messages
    + parameters_size r.parameters
