-- ===== src/Errors/Shared.antt =====
-- What the shared detail maps lead to.
use yeti.Base.{
  ℕ, ◌<◌, String, ◌≡◌, refl, ◌≢◌, ◌∙◌, true, false, none, some, arith, nat_eq, if◌then◌else◌,
  Bool-cases, inl, inr,
}
use yeti.Model.Value.{
  Value, Fields, boolean, text, object, lookup, insert, lookup-insert, count_fields,
  count_fields-insert,
}
use yeti.Errors.Chain.{
  App, Err, AppErr, err_internal, fatal_in, as_app, with_cause, as_fatal, to_err, retryable_in,
  to_http_status,
}
use yeti.Errors.Details.{
  Heap, Panic, with_detail, details_of, to_error_response, recover_panic, panic_error, respond,
}

lookup-respond :
    (e : App) (d : Fields) → 0 < count_fields d → lookup "details" (respond e d) ≡ some (object d)
unfolding respond
lookup-respond e d p = elim (Bool-cases (nat_eq (count_fields d) 0)) [
  | inl z ↦ absurd (ground arith)
  | inr z ↦ rw z (rw lookup-insert refl)
]

-- The map that is shown at an address after `WithDetail`.
maps-with_detail :
    (e : AppErr) (key : String) (v : Value) (h : Heap) {a : ℕ} (b : ℕ)
    → e.base.details ≡ some a
    → (with_detail e key v h).1.maps b ≡ (if nat_eq b a then insert key v (h.maps a) else h.maps b)
unfolding with_detail
maps-with_detail e key v h b p = ground arith

to_error_response_found :
    (h : Heap) (err : Err) (other : AppErr) {b : ℕ}
    → as_app err ≡ some other
    → other.base.details ≡ some b
    → to_error_response h err ≡ respond other.base (h.maps b)
unfolding to_error_response details_of
to_error_response_found h err other q r = ground arith

-- `e.WithDetail(key, v)` writes the detail map that `e` has, and copies the struct alone: any error
-- whose chain ends in an application error with that map, such as the package's own variable
-- `ErrNotFound`, answers with the detail from then on.
pub to_error_response-with_detail :
    (e other : AppErr) (err : Err) (key : String) (v : Value) (h : Heap) {a : ℕ}
    → e.base.details ≡ some a
    → as_app err ≡ some other
    → other.base.details ≡ some a
    → lookup "details" (to_error_response (with_detail e key v h).1 err)
      ≡ some (object (insert key v (h.maps a)))
to_error_response-with_detail e other err key v h {a} p q r =
    rw
      (
        to_error_response_found (with_detail e key v h).1 err other q r,
        maps-with_detail e key v h a p,
      )
      (ground (
        arith,
        lookup-respond other.base (insert key v (h.maps a)),
        count_fields-insert key v (h.maps a),
      ))

-- `e.WithDetail(key, v)` changes no answer to an error whose chain ends in an application error with
-- another detail map.
pub to_error_response-with_detail_other :
    (e other : AppErr) (err : Err) (key : String) (v : Value) (h : Heap) {a b : ℕ}
    → e.base.details ≡ some a
    → as_app err ≡ some other
    → other.base.details ≡ some b
    → b ≢ a
    → to_error_response (with_detail e key v h).1 err ≡ to_error_response h err
to_error_response-with_detail_other e other err key v h {a} {b} p q r differ =
    to_error_response_found (with_detail e key v h).1 err other q r
    ∙ ground (arith, to_error_response_found h err other q r, maps-with_detail e key v h b p)

-- Whatever a handler panicked with, also an error that was marked retryable, the recovered error is
-- fatal for every reader of the chain and answers with status 500. It leaves the stack trace in the
-- map of `ErrInternal`, so each later internal error answers with it.
pub recover_panic_fatal :
    (stack : String) (r : Panic) (later : Err) (h : Heap)
    → as_app later ≡ none
    → (e : Err) × (d : Fields) × ((recover_panic stack (some r) h).0 ≡ some e)
      × (fatal_in e ≡ some true)
      × (retryable_in e ≡ some false)
      × (to_http_status e ≡ 500)
      × (lookup "details" (to_error_response (recover_panic stack (some r) h).1 later)
          ≡ some (object d))
      × (lookup "stack_trace" d ≡ some (text stack))
unfolding recover_panic fatal_in retryable_in to_http_status to_error_response details_of as_fatal
    with_cause
recover_panic_fatal stack r later h p =
    let d = insert "stack_trace" (text stack) (insert "panic" (boolean true) (h.maps 2)) in
    (
      to_err (as_fatal (with_cause (record { base = err_internal; cause = none }) (panic_error r))),
      d,
      refl,
      refl,
      refl,
      refl,
      rw (p, to_error_response) (lookup-respond err_internal d (count_fields-insert _ _ _)),
      rw lookup-insert,
    )
