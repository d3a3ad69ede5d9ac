-- ===== src/Tests/Errors.antt =====
-- The errors.
use yeti.Base.{◌≡◌, refl, none, some}
use yeti.Model.Value.{text, object, insert, lookup, no_fields}
use yeti.Errors.Chain.{AppErr, wrap, app, err_not_found, as_app}
use yeti.Errors.Details.{Heap, with_detail, to_error_response}
use yeti.Errors.Shared.{to_error_response-with_detail}

abbrev heap : Heap
heap = record { maps = λ a. no_fields; next = 8 }

abbrev not_found : AppErr
not_found = record { base = err_not_found; cause = none }

to_error_response-with_detail_example :
    lookup "details" (
      to_error_response
        (with_detail not_found "id" (text "7") heap).1
        (wrap "get" (app err_not_found)))
    ≡ some (object (insert "id" (text "7") no_fields))
unfolding as_app
to_error_response-with_detail_example =
    to_error_response-with_detail not_found not_found (wrap "get" (app err_not_found)) "id"
      (text "7") heap {a = 0} refl refl refl
