-- ===== src/Tracing/Carrier.antt =====
-- pkg/tracing/kafka.go: the trace context in the headers of a message. OpenTelemetry's propagator is a
-- parameter.
use yeti.Base.{
  String, ◌≡◌, refl, ◌∙◌, Bool, false, ◌||◌, Option, none, some, List, [], ◌∷◌, map, arith, ◌==◌,
  eq_iff, if◌then◌else◌,
}

pub record Header : Type 0 where
  pub key : String
  pub value : String

unfoldable pub get : String → List Header → String
get key [] = ""
get key (h ∷ headers) = if h.key == key then h.value else get key headers

-- `Set` of a carrier, as its owner sees it. The method works on a copy of the struct: a value that it
-- overwrites lies in the array that both share, but the slice that it appends to is the copy's.
unfoldable pub set : String → String → List Header → List Header
set key value [] = []
set key value (h ∷ headers) =
    if h.key == key
    then record { key = h.key; value = value } ∷ headers
    else h ∷ set key value headers

unfoldable pub keys : List Header → List String
keys headers = map (λ h. h.key) headers

-- `propagation.TextMapPropagator`: `inject` is the pairs that `Inject` gives to `Set`, in order, and
-- `extract` what `Extract` makes of a context by `Get` and `Keys`.
pub record Propagator (Ctx : Type 0) : Type 0 where
  pub inject : Ctx → List Header → List (String × String)
  pub extract : Ctx → (String → String) → List String → Ctx

abbrev pub set_each : List (String × String) → List Header → List Header
set_each [] headers = headers
set_each ((key, value) ∷ pairs) headers = set_each pairs (set key value headers)

module _ {Ctx : Type 0} where
  -- The propagator is `none` for a nil one.
  unfoldable pub inject_trace_context : Option (Propagator Ctx) → Ctx → List Header → List Header
  inject_trace_context none ctx headers = headers
  inject_trace_context (some p) ctx headers = set_each (p.inject ctx headers) headers

  unfoldable pub extract_trace_context : Option (Propagator Ctx) → Ctx → List Header → Ctx
  extract_trace_context none ctx headers = ctx
  extract_trace_context (some p) ctx headers = p.extract ctx (λ key. get key headers) (keys headers)

  -- `start` is `tracer.Start`, for the tracer "yeti-kafka".
  unfoldable pub start_span_from_kafka_message :
      {Span : Type 0}
      → (Ctx → String → Ctx × Span)
      → Option (Propagator Ctx)
      → Ctx
      → String
      → List Header
      → Ctx × Span
  start_span_from_kafka_message start propagator ctx operation_name headers =
      start (extract_trace_context propagator ctx headers) operation_name

-- Whether some header has a key.
abbrev pub has : String → List Header → Bool
has key [] = false
has key (h ∷ headers) = h.key == key || has key headers

keys-set :
    (key value : String) (headers : List Header) → keys (set key value headers) ≡ keys headers
unfolding keys set
keys-set key value [] = refl
keys-set key value (h ∷ headers) = ground (arith, keys-set key value headers)

-- A value that is set is read again exactly where a header of that key was there before.
pub get-set :
    (key key' value : String) (headers : List Header)
    → get key' (set key value headers)
      ≡ (if key == key' then if has key headers then value else "" else get key' headers)
unfolding get set
get-set key key' value [] = ground arith
get-set key key' value (h ∷ headers) =
    ground
      (arith, eq_iff key key', eq_iff h.key key', eq_iff h.key key, get-set key key' value headers)

keys-set_each :
    (pairs : List (String × String)) (headers : List Header)
    → keys (set_each pairs headers) ≡ keys headers
keys-set_each [] headers = refl
keys-set_each ((key, value) ∷ pairs) headers =
    keys-set_each pairs (set key value headers) ∙ keys-set key value headers

-- The injection of a trace context leaves the keys of the headers as they are, whatever the
-- propagator sets: it adds no header.
pub keys-inject_trace_context :
    {Ctx : Type 0} (propagator : Option (Propagator Ctx)) (ctx : Ctx) (headers : List Header)
    → keys (inject_trace_context propagator ctx headers) ≡ keys headers
unfolding inject_trace_context
keys-inject_trace_context none ctx headers = refl
keys-inject_trace_context (some p) ctx headers = keys-set_each (p.inject ctx headers) headers

set_each_nothing : (pairs : List (String × String)) → set_each pairs [] ≡ []
unfolding set
set_each_nothing [] = refl
set_each_nothing ((key, value) ∷ pairs) = set_each_nothing pairs

pub inject_nothing :
    {Ctx : Type 0} (propagator : Option (Propagator Ctx)) (ctx : Ctx)
    → inject_trace_context propagator ctx [] ≡ []
unfolding inject_trace_context
inject_nothing none ctx = refl
inject_nothing (some p) ctx = set_each_nothing (p.inject ctx [])
