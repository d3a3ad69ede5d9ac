-- ===== src/Tests/Fixtures.antt =====
-- Concrete data: a small language of expressions, a live context, and a message.
use yeti.Base.{String, none, some, List, [], ◌∷◌, ◌==◌, if◌then◌else◌}
use yeti.Base.Lists.{one_of}
use yeti.Model.Value.{boolean, text, no_fields, field}
use yeti.Model.Message.{MessageEnvelope, empty_metadata}
use yeti.Errors.Chain.{plain}
use yeti.Errors.Result.{Result, ok, err, Context}
use yeti.Cel.{CelLib}

-- The expressions are "yes", "no", "error", which cannot be evaluated, "sourceData", which needs the
-- variable, and others, which do not compile.
abbrev compile_word : List String → String → Result String
compile_word env word =
    if one_of word ("yes" ∷ "no" ∷ "error" ∷ [])
    then ok word
    else if word == "sourceData"
    then (if one_of word env then ok word else err (plain "undeclared reference"))
    else err (plain "syntax error")

abbrev pub words : CelLib
words = record {
  Env = List String;
  Ast = String;
  Program = String;
  new_env = ok;
  compile = compile_word;
  output_type = λ ast. none;
  program = λ env ast. ok ast;
  context_eval = λ ctx program vars.
      if program == "error" then err (plain "no such key") else ok (boolean (program == "yes"));
  type_name = λ v. "a value";
}

abbrev pub live : Context
live = record { err_at = λ k. none; user_id = none }

abbrev pub order : MessageEnvelope
order = record {
  id = "m1";
  source = "shop";
  timestamp = 7;
  payload = some (field "user" (text "ann") no_fields);
  metadata = empty_metadata;
}
