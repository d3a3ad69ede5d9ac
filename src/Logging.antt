-- ===== src/Logging.antt =====
-- pkg/logging/context.go and internal/logger/logger.go: the values of a context that the logs name. Zap,
-- which writes them, is left out.
use yeti.Base.{String, ◌≡◌, ◌&&◌, not, List, [], ◌∷◌, ◌++◌, arith, ◌==◌, eq_iff, if◌then◌else◌}
use yeti.Base.Dict.{Dict, lookup}
use yeti.Model.Value.{Value, text, as_text}
use yeti.Model.Message.{MessageEnvelope}
use yeti.Base.{value_or}

-- The values of a context, the latest first: `context.WithValue` puts one in front.
abbrev pub Values : Type 0
Values = Dict Value

unfoldable pub with_trace_id : String → Values → Values
with_trace_id trace_id ctx = ("trace_id", text trace_id) ∷ ctx

unfoldable pub with_message_id : String → Values → Values
with_message_id message_id ctx = ("message_id", text message_id) ∷ ctx

unfoldable pub with_service_name : String → Values → Values
with_service_name service_name ctx = ("service_name", text service_name) ∷ ctx

-- `ctx.Value(key).(string)`, with "" where there is no text.
abbrev pub text_of : String → Values → String
text_of key ctx = value_or (as_text (lookup key ctx)) ""

unfoldable pub get_trace_id : Values → String
get_trace_id ctx = text_of "trace_id" ctx

unfoldable pub get_message_id : Values → String
get_message_id ctx = text_of "message_id" ctx

unfoldable pub get_service_name : Values → String
get_service_name ctx = text_of "service_name" ctx

abbrev pub entry : String → String → List (String × String)
entry key s = if not (s == "") then (key, s) ∷ [] else []

unfoldable pub get_log_fields : Values → List (String × String)
get_log_fields ctx =
    entry "trace_id" (get_trace_id ctx)
    ++ (entry "message_id" (get_message_id ctx) ++ entry "service_name" (get_service_name ctx))

-- The fields that a logger with a service name puts before those of a call.
unfoldable pub get_context_fields : String → Values → List (String × String)
get_context_fields service_name ctx =
    get_log_fields ctx
    ++ (if not (service_name == "") && get_service_name ctx == ""
        then ("service_name", service_name) ∷ []
        else [])

pub data Level : Type 0 where
  debug_level info_level warn_level error_level : Level

-- The level of `New`.
unfoldable pub new_level : String → Level
new_level level =
    if level == "debug"
    then debug_level
    else if level == "warn"
    then warn_level
    else if level == "error"
    then error_level
    else info_level

-- The context that a consumer named `service_name` hands a message to its handler in, on top of the
-- context of the message's span.
unfoldable pub message_context : String → MessageEnvelope → Values → Values
message_context service_name envelope ctx =
    let trace_id = envelope.metadata.trace_id in
    let traced = if not (trace_id == "") then with_trace_id trace_id ctx else ctx in
    with_service_name service_name (with_message_id envelope.id traced)

-- In a message's context the logs of a service name the message's own trace where it has one, its ID
-- and the consumer's service, in this order, whatever the context held before; the
-- logger's own name is added only where the consumer has none.
pub get_context_fields-message_context :
    (logger service_name : String) (envelope : MessageEnvelope) (ctx : Values)
    → get_context_fields logger (message_context service_name envelope ctx)
      ≡ entry "trace_id" (
          if envelope.metadata.trace_id == "" then get_trace_id ctx else envelope.metadata.trace_id)
        ++ (entry "message_id" envelope.id
            ++ entry "service_name" (if service_name == "" then logger else service_name))
unfolding get_context_fields get_log_fields message_context with_trace_id with_message_id
    with_service_name get_trace_id get_message_id get_service_name lookup
get_context_fields-message_context logger service_name envelope ctx =
    ground (arith, eq_iff service_name "")
