-- ===== src/Enrichment/Reload.antt =====
-- `NewService…` and `ReloadRules` of internal/enrichment/service.go, and internal/enrichment/repository.go.
-- The query is MongoDB's: `find_active` is its answer, the enabled rules in order, and the inner
-- result is that of `cursor.All`.
use yeti.Base.{◌≡◌, Option, none, some, List, [], arith, ◌⊎◌, inl, inr}
use yeti.Errors.Chain.{Err, wrap}
use yeti.Errors.Result.{Result, ok, err, ◌>>=◌, wrap_err}
use yeti.Cel.{CelLib, new_evaluator}
use yeti.Enrichment.Types.{Rule, Service}

unfoldable pub get_active_rules : Result (Result (List Rule)) → Result (List Rule)
get_active_rules find_active =
    wrap_err "failed to find rules" find_active >>= wrap_err "failed to decode rules"

module _ (lib : CelLib) where
  -- The evaluator that could be created.
  abbrev created : Result (CelLib.Env lib) → Option (CelLib.Env lib)
  created (ok env) = some env
  created (err e) = none

  -- The providers are in `Providers.Guarded.new_providers`.
  unfoldable pub new_service : Service lib
  new_service = record { rules = []; evaluator = created (new_evaluator lib) }

  unfoldable pub reload_rules : Result (List Rule) → Service lib → Service lib × Option Err
  reload_rules (ok rules) s = (record s { rules = rules }, none)
  reload_rules (err e) s = (s, some e)

  -- A reload takes all the rules of an answer that can be decoded, and none of any other: then it
  -- returns an error, and the service keeps the rules that it has. Its evaluator stays in either case.
  pub reload_rules-get_active_rules :
      (find_active : Result (Result (List Rule))) (s s' : Service lib) (e : Option Err)
      → reload_rules (get_active_rules find_active) s ≡ (s', e)
      → ((e ≡ none) × (find_active ≡ ok (ok s'.rules)) × (s'.evaluator ≡ s.evaluator))
        ⊎ ((x : Err) × (e ≡ some x) × (s' ≡ s))
  unfolding reload_rules get_active_rules
  reload_rules-get_active_rules (err x) s s' e h =
      inr (wrap "failed to find rules" x, ground arith, ground arith)
  reload_rules-get_active_rules (ok (err x)) s s' e h =
      inr (wrap "failed to decode rules" x, ground arith, ground arith)
  reload_rules-get_active_rules (ok (ok rules)) s s' e h =
      inl (ground arith, ground arith, ground arith)
