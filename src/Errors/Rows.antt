-- ===== src/Errors/Rows.antt =====
-- `*sql.Rows`: what a query answers row by row, and the loop `for rows.Next() { rows.Scan(…) }`.
use yeti.Base.{ℕ, suc, String, Option, none, some, List, [], ◌∷◌}
use yeti.Errors.Chain.{Err, wrap}
use yeti.Errors.Result.{Result, ok, err}

-- `broken e` ends the iteration like `end`, but `rows.Err()` is `e`. A row may fail to be scanned.
pub data Rows (A : Type 0) : Type 0 where
  end : Rows A
  broken : Err → Rows A
  row : Result A → Rows A → Rows A

module _ {A : Type 0} where
  abbrev pub cons_row : A → Result (List A) → Result (List A)
  cons_row a (ok l) = ok (a ∷ l)
  cons_row a (err e) = err e

  -- The loop without a look at `rows.Err()`, with the prefix of a failed scan.
  unfoldable pub scan_rows : String → Rows A → Result (List A)
  scan_rows prefix end = ok []
  scan_rows prefix (broken e) = ok []
  scan_rows prefix (row (err e) l) = err (wrap prefix e)
  scan_rows prefix (row (ok a) l) = cons_row a (scan_rows prefix l)

  -- The loop that asks before each row whether the context is done; `i` counts the rows.
  unfoldable pub scan_rows_live : String → (ℕ → Option Err) → ℕ → Rows A → Result (List A)
  scan_rows_live prefix ended i end = ok []
  scan_rows_live prefix ended i (broken e) = ok []
  scan_rows_live prefix ended i (row r l) = elim (ended i) [
    | some e ↦ err (wrap "context cancelled" e)
    | none ↦ elim r [
      | err e ↦ err (wrap prefix e)
      | ok a ↦ cons_row a (scan_rows_live prefix ended (suc i) l)
    ]
  ]

  -- `rows.Err()` after the loop.
  abbrev pub rows_error : Rows A → Option Err
  rows_error end = none
  rows_error (broken e) = some e
  rows_error (row r l) = rows_error l
