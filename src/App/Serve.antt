-- ===== src/App/Serve.antt =====
-- cmd/*/main.go: the command of a service, and `Run` of the management service.
use yeti.Base.{ℕ, String, Bool, Option, none, some, List, [], ◌∷◌, ◌==◌, if◌then◌else◌}
use yeti.App.Names.{management}
use yeti.Errors.Chain.{Err, wrap}
use yeti.Errors.Result.{Result, ok, err}
use yeti.Config.Types.{Config}
use yeti.Tracing.Provider.{Sdk}
use yeti.App.Bootstrap.{Handles, nothing, App, Answers, Act}
use yeti.App.Services.{initialize_management, initialize, shutdown_service}
use yeti.App.Started.{new_app}

-- What the select of the management service's `Run` sees first.
pub data Woken : Type 0 where
  context_done : Woken
  server_error : Err → Woken

-- `errors_of` is the error that prints a list of them.
module _ (errors_of : List Err → Err) where
  abbrev pub shutdown_error : List Err → Option Err
  shutdown_error [] = none
  shutdown_error (e ∷ errs) = some (errors_of (e ∷ errs))

  abbrev pub answered : List Err × App → Option Err × App
  answered (errs, a) = (shutdown_error errs, a)

  unfoldable pub run_management : Sdk → Config → Answers → Woken → Act
  run_management sdk cfg answers context_done a =
      answered (shutdown_service sdk cfg answers management a)
  run_management sdk cfg answers (server_error e) a = (some (wrap "server error" e), a)

-- How the process ends, and what it has left open then.
pub record Ended : Type 0 where
  pub code : ℕ
  pub opened : Handles

abbrev exits : ℕ → Ended
exits code = record { code = code; opened = nothing }

-- The exit code of `main` for the error of the command.
abbrev pub code_of : Option Err → ℕ
code_of none = 0
code_of (some e) = 1

abbrev config_file : String → String → String
config_file flag env = if flag == "" then env else flag

-- `load` is `config.Load`, and `new_logger` the error of `logger.New`. `EarlyLog.Error` and `Fatalf`
-- exit with the code 1.
module _ (load : String → Result Config) (new_logger : Config → Option Err) where
  abbrev ran : (Option Err → Option Err) → Option Err × App → Ended
  ran reported (e, a) = record { code = code_of (reported e); opened = a.opened }

  abbrev initialized :
      (Option Err → Option Err) → (App → Option Err × App) → Option Err × App → Ended
  initialized reported run (some e, a) = record { code = 1; opened = a.opened }
  initialized reported run (none, a) = ran reported (run a)

  abbrev logging :
      (Config → Act) → (Config → Act) → (Option Err → Option Err) → Config → Option Err → Ended
  logging initialize run reported cfg (some e) = exits 1
  logging initialize run reported cfg none = initialized reported (run cfg) (initialize cfg new_app)

  abbrev loaded :
      (Config → Act) → (Config → Act) → (Option Err → Option Err) → Result Config → Ended
  loaded initialize run reported (err e) = exits 1
  loaded initialize run reported (ok cfg) = logging initialize run reported cfg (new_logger cfg)

  -- The command: `reported` is what it answers for the error of `Run`.
  unfoldable pub serve :
      (Config → Act) → (Config → Act) → (Option Err → Option Err) → String → String → Ended
  serve initialize run reported flag env =
      let file = config_file flag env in
      if file == "" then exits 1 else loaded initialize run reported (load file)

  -- `err != nil && err != context.Canceled`, of the services that read messages.
  abbrev pub unless_canceled : (Err → Bool) → Option Err → Option Err
  unless_canceled is_canceled none = none
  unless_canceled is_canceled (some e) = if is_canceled e then none else some e

  unfoldable pub serve_reader :
      (Err → Bool) → (Config → Act) → (Config → Act) → String → String → Ended
  serve_reader is_canceled initialize run = serve initialize run (unless_canceled is_canceled)

  module _ (errors_of : List Err → Err) (sdk : Sdk) (answers : Answers) where
    unfoldable pub serve_management : Woken → String → String → Ended
    serve_management woken =
        serve (λ cfg. initialize_management sdk cfg answers)
          (λ cfg. run_management errors_of sdk cfg answers woken) (λ e. e)
