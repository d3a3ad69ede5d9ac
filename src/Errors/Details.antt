-- ===== src/Errors/Details.antt =====
-- pkg/errors/errors.go and recovery.go: the detail maps on their heap. Copies of an `Error`
-- share the map that `Details` points to.
use yeti.Base.{ℕ, suc, String, ◌<>◌, true, Option, none, some, ◌==◌, nat_eq, if◌then◌else◌}
use yeti.Model.Value.{
  Value, Fields, boolean, text, object, no_fields, lookup, insert, count_fields, as_text,
}
use yeti.Errors.Chain.{
  App, Err, plain, wrap, retryable, fatal, skip_rule, app, app_of, AppErr, err_internal, as_app,
  with_cause, as_fatal, to_err,
}

-- `next` is the first address that is free.
pub record Heap : Type 0 where
  pub maps : ℕ → Fields
  pub next : ℕ

abbrev pub write : ℕ → Fields → Heap → Heap
write a d h = record h { maps = λ b. if nat_eq b a then d else h.maps b }

unfoldable pub new_error : String → String → ℕ → Heap → App × Heap
new_error code message status h = (
  record {
    code = code;
    message = message;
    status = status;
    details = some h.next;
    retryable_mark = none;
  },
  record { maps = (write h.next no_fields h).maps; next = suc h.next },
)

-- The map that an error shows; a nil map is empty.
unfoldable pub details_of : Heap → App → Fields
details_of h e = elim e.details [ none ↦ no_fields | some a ↦ h.maps a ]

-- `WithDetail`: the struct is copied, and the map, which the copy shares, is written.
unfoldable pub with_detail : AppErr → String → Value → Heap → AppErr × Heap
with_detail e key v h = elim e.base.details [
  | some a ↦ (e, write a (insert key v (h.maps a)) h)
  | none ↦ (
    record { base = record (e.base) { details = some h.next }; cause = e.cause },
    record { maps = (write h.next (insert key v no_fields) h).maps; next = suc h.next },
  )
]

-- `WithDetails`: the copy has the given map, here the one at an address.
unfoldable pub with_details : AppErr → Option ℕ → AppErr
with_details e details = record { base = record (e.base) { details = details }; cause = e.cause }

-- The message that `Error()` shows: the detail "message" if that is a text and not empty.
abbrev pub shown : String → Option String → String
shown message none = message
shown message (some s) = if s == "" then message else s

-- `err.Error()`
unfoldable pub error_text : Heap → Err → String
unfolding details_of
error_text h (plain m) = m
error_text h (wrap p e) = p <> ": " <> error_text h e
error_text h (retryable e) = error_text h e
error_text h (fatal e) = error_text h e
error_text h (skip_rule r m) = "rule " <> r <> " skipped: " <> m
error_text h (app a) =
    a.code <> ": " <> shown a.message (as_text (lookup "message" (details_of h a)))
error_text h (app_of a e) =
    let cause = error_text h e in
    a.code
    <> ": "
    <> shown a.message (as_text (lookup "message" (details_of h a)))
    <> " (caused by: "
    <> cause
    <> ")"

-- The response for an error that shows the map `d`.
unfoldable pub respond : App → Fields → Fields
respond e d =
    let response = insert "error_code" (text e.code) (insert "error" (text e.message) no_fields) in
    if nat_eq (count_fields d) 0 then response else insert "details" (object d) response

-- `ToErrorResponse`: any other error answers as ErrInternal.
unfoldable pub to_error_response : Heap → Err → Fields
to_error_response h err = elim (as_app err) [
  | some e ↦ respond e.base (details_of h e.base)
  | none ↦ respond err_internal (details_of h err_internal)
]

-- What `recover()` gave.
pub data Panic : Type 0 where
  with_error : Err → Panic
  with_text : String → Panic
  with_value : String → Panic

abbrev pub panic_error : Panic → Err
panic_error (with_error e) = e
panic_error (with_text s) = plain ("panic: " <> s)
panic_error (with_value s) = plain ("panic: " <> s)

-- `RecoverPanic(r)`, for the stack trace that `debug.Stack()` gives.
unfoldable pub recover_panic : String → Option Panic → Heap → Option Err × Heap
unfolding with_cause with_detail as_fatal
recover_panic stack none h = (none, h)
recover_panic stack (some r) h =
    let e₀ = with_cause (record { base = err_internal; cause = none }) (panic_error r) in
    let (e₁, h₁) = with_detail e₀ "panic" (boolean true) h in
    let (e₂, h₂) = with_detail e₁ "stack_trace" (text stack) h₁ in (some (to_err (as_fatal e₂)), h₂)
