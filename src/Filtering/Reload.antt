-- ===== src/Filtering/Reload.antt =====
-- Reloads of the rules between messages: `ReloadRules`, `StartReloader`, and messages in any order.
use yeti.Base.{
  String, ◌≡◌, refl, ap, Bool, true, false, Option, none, some, List, [], ◌∷◌, ◌++◌, arith,
}
use yeti.Base.Int.{pos, lez}
use yeti.Model.Message.{MessageEnvelope}
use yeti.Errors.Result.{Result, ok, err, Context}
use yeti.Cel.{CelLib}
use yeti.Filtering.{Rule, Service, filter, reload_rules}

-- What happens to a service: the database answers a reload, asked for by the ticker or by an event
-- of the management service, or a message comes in.
pub data Event : Type 0 where
  reload : Result (List Rule) → Event
  message : Context → MessageEnvelope → Event

-- The rules of the last reload that was answered without an error, or the first ones.
unfoldable pub last_loaded : List Rule → List Event → List Rule
last_loaded rules [] = rules
last_loaded rules (reload (ok new) ∷ es) = last_loaded new es
last_loaded rules (reload (err e) ∷ es) = last_loaded rules es
last_loaded rules (message ctx msg ∷ es) = last_loaded rules es

module _ (lib : CelLib) where
  -- `StartReloader` until the context is done: a reload at once and one for each tick. Failed
  -- reloads are logged. `none` is the panic of `time.NewTicker` at an interval that is not positive.
  reload_all : List (Result (List Rule)) → Service lib → Service lib
  reload_all [] s = s
  reload_all (answer ∷ ticks) s = reload_all ticks (reload_rules lib answer s).0

  unfoldable pub start_reloader :
      Result (List Rule) → List (Result (List Rule)) → Service lib → Option (Service lib)
  unfolding reload_all
  start_reloader answer ticks s = elim (lez s.filtering_config.interval_seconds (pos 0)) [
    | true ↦ none
    | false ↦ some (reload_all ticks (reload_rules lib answer s).0)
  ]

  -- The verdicts on the messages, as the events come in.
  unfoldable pub run : Service lib → List Event → List (Result (Bool × List String))
  run s [] = []
  run s (reload answer ∷ es) = run (reload_rules lib answer s).0 es
  run s (message ctx msg ∷ es) = filter lib s ctx msg ∷ run s es

  abbrev reloads : List (Result (List Rule)) → List Event
  reloads [] = []
  reloads (a ∷ l) = reload a ∷ reloads l

  reload_all_lem :
      (ticks : List (Result (List Rule))) (s : Service lib)
      → reload_all ticks s ≡ record s { rules = last_loaded s.rules (reloads ticks) }
  unfolding reload_all reload_rules last_loaded
  reload_all_lem [] s = refl
  reload_all_lem (ok rules ∷ ticks) s = reload_all_lem ticks (record s { rules = rules })
  reload_all_lem (err e ∷ ticks) s = reload_all_lem ticks s

  -- With a positive interval the reloader runs, and leaves the rules of the last reload that the
  -- database answered, or the old ones if it answered none; nothing else of the service changes.
  pub start_reloader_last :
      (answer : Result (List Rule)) (ticks : List (Result (List Rule))) (s : Service lib)
      → lez s.filtering_config.interval_seconds (pos 0) ≡ false
      → start_reloader answer ticks s
        ≡ some (record s { rules = last_loaded s.rules (reload answer ∷ reloads ticks) })
  unfolding start_reloader reload_rules last_loaded
  start_reloader_last (ok rules) ticks s h =
      ground (arith, reload_all_lem ticks (record s { rules = rules }))
  start_reloader_last (err e) ticks s h = ground (arith, reload_all_lem ticks s)

  -- In any order of reloads and messages, a message is judged by the rules of the last successful
  -- reload before it, all of them, and by no rule of another set; the verdicts before it stay.
  pub run_snapshot :
      (es : List Event) (s : Service lib) (ctx : Context) (msg : MessageEnvelope)
      → run s (es ++ (message ctx msg ∷ []))
        ≡ run s es ++ (filter lib (record s { rules = last_loaded s.rules es }) ctx msg ∷ [])
  unfolding run last_loaded reload_rules
  run_snapshot [] s ctx msg = refl
  run_snapshot (reload (ok rules) ∷ es) s ctx msg =
      run_snapshot es (record s { rules = rules }) ctx msg
  run_snapshot (reload (err e) ∷ es) s ctx msg = run_snapshot es s ctx msg
  run_snapshot (message c m ∷ es) s ctx msg =
      ap (λ l. filter lib s c m ∷ l) (run_snapshot es s ctx msg)
