-- ===== src/Tests/Broker.antt =====
-- The consumer, and the events of the management service.
use yeti.Base.{ℕ, suc, ◌≡◌, refl, Option, none, some, [], ◌∷◌, arith, eq_iff}
use yeti.Model.Value.{text, no_fields}
use yeti.Model.Message.{MessageEnvelope, lookup_nil}
use yeti.Errors.Chain.{Err, plain}
use yeti.Errors.Details.{Heap, error_text}
use yeti.Broker.Producer.{Sent, Producer}
use yeti.Broker.Process.{}
use yeti.Broker.Consume.{
  failed, stopped, garbage, fetched, Consumer, dead_letter, consume_message, consume, offsets,
  consume_commits, consume_message_dead,
}
use yeti.Tests.Fixtures.{order}

abbrev heap : Heap
heap = record { maps = λ a. no_fields; next = 8 }

-- A processing that counts its messages and fails.
abbrev fails : MessageEnvelope → Heap × ℕ → Option Err × (Heap × ℕ)
fails msg (h, n) = (some (plain "bad order"), (h, suc n))

abbrev works : Producer
works m = none

abbrev idle : Consumer ℕ
idle = record { heap = heap; world = 0; committed = []; dead = [] }

consume_commits_example :
    (consume ℕ fails "in" "dlq" works 9
      (fetched 4 order ∷ failed ∷ garbage 5 ∷ fetched 6 order ∷ stopped ∷ fetched 7 order ∷ [])
      idle).committed
    ≡ 4 ∷ 5 ∷ 6 ∷ []
unfolding offsets
consume_commits_example =
    consume_commits ℕ fails "in" "dlq" works 9
      (fetched 4 order ∷ failed ∷ garbage 5 ∷ fetched 6 order ∷ stopped ∷ fetched 7 order ∷ []) idle

consume_message_dead_example :
    let letter = dead_letter (error_text heap (plain "bad order")) "in" 9 order in
    let m : Sent = record { topic = "dlq"; msg = letter } in
    ((consume_message ℕ fails "in" "dlq" works 9 4 order idle).dead ≡ m ∷ [])
    × (letter.id ≡ "m1")
    × (letter.source ≡ "shop")
    × (letter.payload ≡ order.payload)
    × (lookup_nil "dlq_reason" letter.metadata.enrichment
        ≡ some (text (error_text heap (plain "bad order"))))
    × (lookup_nil "dlq_source_topic" letter.metadata.enrichment ≡ some (text "in"))
unfolding dead_letter
consume_message_dead_example =
    consume_message_dead ℕ fails "in" "dlq" works 9 4 order idle (plain "bad order") refl
      (λ h. absurd (ground (arith, eq_iff "dlq" "", h)))
