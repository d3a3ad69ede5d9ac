-- ===== src/Broker/Process.antt =====
-- internal/broker/kafka.go: `processMessageWithRetry`. A handler works on a world `W`.
use yeti.Base.{ℕ, ◌≤◌, String, ◌≡◌, refl, Bool, Option, some, arith, ltb, leb, ◌&&◌, if◌then◌else◌}
use yeti.Base.Int.{ℤ, pos, ltz, pos_part}
use yeti.Model.Message.{MessageEnvelope}
use yeti.Errors.Chain.{Err, as_app}
use yeti.Errors.Details.{Heap, Panic, recover_panic}
use yeti.Retry.{Policy, BackOff, Documented, Run, retry_with_callback}
use yeti.Retry.Attempts.{allowed_lem, retry_with_callback_bounds}
use yeti.Retry.Outcomes.{retry_with_callback_app}

-- `config.RetryConfig`: durations in nanoseconds, the multiplier by its bit pattern.
pub record RetryConfig : Type 0 where
  pub max_attempts : ℤ
  pub initial_interval : ℤ
  pub max_interval : ℤ
  pub multiplier : ℕ
  pub max_elapsed_time : ℤ

-- A float64 above 0, infinity included, by its bits.
abbrev is_positive_float : ℕ → Bool
is_positive_float bits = ltb 0 bits && leb bits 0x7FF0000000000000

abbrev positive_or : ℤ → ℤ → ℤ
positive_or d n = if ltz (pos 0) n then n else d

-- The policy for messages: 3 attempts, 1 s up to 30 s by the factor 2.0, unless configured.
unfoldable pub message_policy : RetryConfig → Policy
message_policy c = record {
  max_attempts = positive_or (pos 3) c.max_attempts;
  initial_interval = positive_or (pos 1_000_000_000) c.initial_interval;
  max_interval = positive_or (pos 30_000_000_000) c.max_interval;
  multiplier = if is_positive_float c.multiplier then c.multiplier else 0x4000000000000000;
  max_elapsed_time = positive_or (pos 0) c.max_elapsed_time;
}

-- How a handler ends.
pub data Answer : Type 0 where
  returned : Option Err → Answer
  panicked : Panic → Answer

module _ (W : Type 0) (stack : String) (handler : MessageEnvelope → W → Answer × W) where
  abbrev recovered : Heap → Answer × W → Option Err × (Heap × W)
  recovered h (returned r, w) = (r, (h, w))
  recovered h (panicked p, w) = let (e, h') = recover_panic stack (some p) h in (e, (h', w))

  -- The function that is retried: the handler, with its panics recovered.
  unfoldable pub call_handler : MessageEnvelope → Heap × W → Option Err × (Heap × W)
  call_handler envelope s = recovered s.0 (handler envelope s.1)

  unfoldable pub process_message_with_retry :
      BackOff → RetryConfig → MessageEnvelope → Heap × W → Option Err × Run (Heap × W)
  process_message_with_retry lib cfg envelope s =
      retry_with_callback (Heap × W) (call_handler envelope) lib (message_policy cfg) s

  module _ (lib : BackOff) (doc : Documented lib) (cfg : RetryConfig) where
    -- A message is handed to the handler at least once, and at most as often as configured, 3 times
    -- if no positive number is configured, whatever the handler does.
    pub process_message_with_retry_bounds :
        (envelope : MessageEnvelope) (s : Heap × W)
        → let calls = (process_message_with_retry lib cfg envelope s).1.attempt in
          (1 ≤ calls)
          × (calls ≤ (if ltz (pos 0) cfg.max_attempts then pos_part cfg.max_attempts else 3))
    unfolding process_message_with_retry message_policy
    process_message_with_retry_bounds envelope s = ground (
      arith,
      retry_with_callback_bounds (Heap × W) (call_handler envelope) lib doc (message_policy cfg) s,
      allowed_lem (message_policy cfg),
    )

    -- A handler that panics is not called again for the message: the result is the recovered error,
    -- which is fatal and has status 500, and the handler's changes up to the panic stay.
    pub process_message_with_retry_panic :
        (envelope : MessageEnvelope) (h : Heap) (w w' : W) {p : Panic}
        → handler envelope w ≡ (panicked p, w')
        → let result = process_message_with_retry lib cfg envelope (h, w) in
          (result.0 ≡ (recover_panic stack (some p) h).0) × (result.1.attempt ≡ 1)
    unfolding process_message_with_retry call_handler recover_panic as_app
    process_message_with_retry_panic envelope h w w' {p} at =
        retry_with_callback_app (Heap × W) (call_handler envelope) lib doc (message_policy cfg)
          (h, w) (ground arith) refl
