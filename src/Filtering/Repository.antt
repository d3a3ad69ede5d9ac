-- ===== src/Filtering/Repository.antt =====
-- internal/filtering/repository.go: the rules that the service loads. The statement is PostgreSQL's:
-- `select_active` is its answer, the enabled rules in order.
use yeti.Base.{none, some, List}
use yeti.Errors.Chain.{wrap}
use yeti.Errors.Result.{Result, ok, err, ◌>>=◌, wrap_err}
use yeti.Errors.Rows.{Rows, scan_rows, rows_error}
use yeti.Filtering.{Rule}

-- The list, unless `rows.Err()` is set.
abbrev unless_broken : Rows Rule → List Rule → Result (List Rule)
unless_broken rows rules = elim (rows_error rows) [
  | none ↦ ok rules
  | some e ↦ err (wrap "rows iteration error" e)
]

unfoldable pub get_active_rules : Result (Rows Rule) → Result (List Rule)
get_active_rules select_active = wrap_err "failed to query rules" select_active >>= λ rows.
    scan_rows "failed to scan rule" rows >>= unless_broken rows
