-- ===== src/Cel.antt =====
-- pkg/cel/evaluator.go: expressions over messages. The CEL library (github.com/google/cel-go) is
-- the parameter `CelLib`.
use yeti.Base.{
  String, ◌≡◌, ◌≢◌, arith, ◌<>◌, Bool, true, Option, none, some, List, [], ◌∷◌, ◌==◌, if◌then◌else◌,
}
use yeti.Model.Value.{
  Value, Values, no_values, value, Fields, boolean, text, time, array, object, no_fields, insert,
}
use yeti.Model.Message.{FiltersApplied, DeduplicationInfo, Metadata, MessageEnvelope, made}
use yeti.Errors.Chain.{Err, plain}
use yeti.Errors.Result.{Result, ok, err, ◌>>=◌, wrap_err, is_err, Context}

-- `new_env` takes the names of the variables that are declared. `output_type` is `none` for bool
-- and else the type's name; `type_name` is what `%T` prints.
pub record CelLib : Type 1 where
  pub Env : Type 0
  pub Ast : Type 0
  pub Program : Type 0
  pub new_env : List String → Result Env
  pub compile : Env → String → Result Ast
  pub output_type : Ast → Option String
  pub program : Env → Ast → Result Program
  pub context_eval : Context → Program → Fields → Result Value
  pub type_name : Value → String

abbrev pub texts : List String → Values
texts [] = no_values
texts (s ∷ l) = value (text s) (texts l)

abbrev put_trace_id : String → Fields → Fields
put_trace_id id d = if id == "" then d else insert "trace_id" (text id) d

abbrev put_filters : Option FiltersApplied → Fields → Fields
put_filters none d = d
put_filters (some f) d =
    insert "filters_applied"
      (object (
        insert "rule_ids" (array (texts f.rule_ids))
          (insert "passed_at" (time f.passed_at) no_fields)))
      d

abbrev put_dedup : Option DeduplicationInfo → Fields → Fields
put_dedup none d = d
put_dedup (some i) d =
    insert "deduplication"
      (object (
        insert "checked_at" (time i.checked_at)
          (insert "is_unique" (boolean i.is_unique) no_fields)))
      d

abbrev put_enrichment : Option Fields → Fields → Fields
put_enrichment none d = d
put_enrichment (some e) d = insert "enrichment" (object e) d

unfoldable pub metadata_to_map : Metadata → Fields
metadata_to_map m =
    put_enrichment m.enrichment (
      put_dedup m.deduplication (put_filters m.filters_applied (put_trace_id m.trace_id no_fields)))

abbrev pub filter_variables : List String
filter_variables = "id" ∷ "source" ∷ "timestamp" ∷ "payload" ∷ "metadata" ∷ []

abbrev pub transform_variables : List String
transform_variables = "id" ∷ "source" ∷ "timestamp" ∷ "payload" ∷ "metadata" ∷ "sourceData" ∷ []

unfoldable pub message_vars : MessageEnvelope → Fields
message_vars msg = insert "metadata" (object (metadata_to_map msg.metadata)) (
    insert "payload" (object (made msg.payload)) (
      insert "timestamp" (time msg.timestamp)
        (insert "source" (text msg.source) (insert "id" (text msg.id) no_fields))))

-- The verdict of a filter: a boolean.
abbrev as_bool : (Value → String) → Value → Result Bool
as_bool type_name (boolean b) = ok b
as_bool type_name v = err (plain ("CEL expression did not return bool, got " <> type_name v))

module _ (lib : CelLib) where
  open lib use {Env, Ast, Program, new_env, compile, output_type, program, context_eval, type_name}

  unfoldable pub new_evaluator : Result Env
  new_evaluator = wrap_err "failed to create CEL environment" (new_env filter_variables)

  abbrev must_be_bool : Ast → Result Ast
  must_be_bool ast = elim (output_type ast) [
    | none ↦ ok ast
    | some t ↦ err (plain ("filter expression must return bool, got " <> t))
  ]

  unfoldable pub validate_expression : Env → String → Option Err
  validate_expression env expression =
      elim (wrap_err "CEL expression validation failed" (compile env expression)) [
        | ok ast ↦ none
        | err e ↦ some e
      ]

  unfoldable pub validate_transform_expression : String → Option Err
  validate_transform_expression expression =
      elim (do
        env ← wrap_err "failed to create CEL environment" (new_env transform_variables)
        wrap_err "CEL transform expression validation failed" (compile env expression)) [
          | ok ast ↦ none
          | err e ↦ some e
        ]

  unfoldable pub validate_filter_expression : Env → String → Option Err
  validate_filter_expression env expression =
      elim (do
        ast ← wrap_err "CEL expression validation failed" (compile env expression)
        must_be_bool ast) [ ok ast ↦ none | err e ↦ some e ]

  unfoldable pub evaluate_filter : Env → Context → String → MessageEnvelope → Result Bool
  evaluate_filter env ctx expression msg = do
    ast ← wrap_err "failed to compile CEL expression" (compile env expression)
    checked ← must_be_bool ast
    prog ← wrap_err "failed to create CEL program" (program env checked)
    result ← wrap_err "failed to evaluate CEL expression" (context_eval ctx prog (message_vars msg))
    as_bool type_name result

  unfoldable pub evaluate_transform : Context → String → MessageEnvelope → Fields → Result Value
  evaluate_transform ctx expression msg source_data = do
    env ← wrap_err "failed to create CEL environment" (new_env transform_variables)
    ast ← wrap_err "failed to compile CEL expression" (compile env expression)
    prog ← wrap_err "failed to create CEL program" (program env ast)
    wrap_err "failed to evaluate CEL expression"
        (context_eval ctx prog (insert "sourceData" (object source_data) (message_vars msg)))

  unfoldable pub compile_expression : Env → String → Result Program
  compile_expression env expression = do
    ast ← wrap_err "failed to compile CEL expression" (compile env expression)
    wrap_err "failed to create CEL program" (program env ast)

  -- A filter whose expression the validator of filters refuses errs on every message.
  pub evaluate_filter_refused :
      (env : Env) (ctx : Context) (expression : String) (msg : MessageEnvelope)
      → validate_filter_expression env expression ≢ none
      → is_err (evaluate_filter env ctx expression msg) ≡ true
  unfolding validate_filter_expression evaluate_filter
  evaluate_filter_refused env ctx expression msg h = ground arith

  -- An expression that the validator of filters admits fails on a message only when the program
  -- cannot be created, when its evaluation fails, or when a value that is no boolean comes back.
  pub evaluate_filter_validated :
      (env : Env) (ctx : Context) (expression : String) (msg : MessageEnvelope)
      → validate_filter_expression env expression ≡ none
      → evaluate_filter env ctx expression msg ≡ (do
        prog ← compile_expression env expression
        result ←
            wrap_err "failed to evaluate CEL expression" (context_eval ctx prog (message_vars msg))
        as_bool type_name result)
  unfolding validate_filter_expression evaluate_filter compile_expression
  evaluate_filter_validated env ctx expression msg h = ground arith
