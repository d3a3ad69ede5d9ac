-- ===== src/Broker/Consume.antt =====
-- internal/broker/kafka.go: the loop of `Consume`, its commits and the dead-letter topic.
use yeti.Base.{
  ℕ, String, ◌≡◌, ◌≢◌, ◌⊎◌, refl, ◌∙◌, Option, none, some, List, [], ◌∷◌, ◌++◌, arith, ◌==◌, eq_iff,
  if◌then◌else◌,
}
use mathlib.Core.List.{append-nil, append_assoc}
use yeti.Model.Value.{text, time, insert, lookup-insert}
use yeti.Model.Message.{MessageEnvelope, made, lookup_nil}
use yeti.Errors.Chain.{Err, wrap}
use yeti.Errors.Details.{Heap, error_text}
use yeti.Broker.Producer.{Sent, Producer}

-- What `FetchMessage` gives: a failure, a failure because the context is done, a message that is no
-- envelope, or an envelope. The number is the offset that a commit names.
pub data Fetch : Type 0 where
  failed : Fetch
  stopped : Fetch
  garbage : ℕ → Fetch
  fetched : ℕ → MessageEnvelope → Fetch

-- The consumer's effects: the offsets that it asked to commit, what it put on the dead-letter topic.
pub record Consumer (W : Type 0) : Type 0 where
  pub heap : Heap
  pub world : W
  pub committed : List ℕ
  pub dead : List Sent

-- The envelope with the three entries that `sendToDLQ` adds.
unfoldable pub dead_letter : String → String → ℕ → MessageEnvelope → MessageEnvelope
dead_letter reason source_topic now envelope = record envelope {
  metadata = record (envelope.metadata) {
    enrichment = some (
        insert "dlq_timestamp" (time now) (
          insert "dlq_source_topic" (text source_topic)
            (insert "dlq_reason" (text reason) (made envelope.metadata.enrichment))));
  };
}

-- `processMessageWithRetry` is `process`; `topic` is consumed; `dlq_topic` is "" without a
-- dead-letter topic, and then there is no producer for it.
module _ (W : Type 0) (process : MessageEnvelope → Heap × W → Option Err × (Heap × W))
    (topic dlq_topic : String) (dlq : Producer) (now : ℕ) where
  -- `sendToDLQ`: what it publishes, and its error.
  unfoldable pub send_to_dlq : Heap → MessageEnvelope → Err → List Sent × Option Err
  send_to_dlq h envelope e =
      let m : Sent = record {
        topic = dlq_topic;
        msg = dead_letter (error_text h e) topic now envelope;
      } in
      elim (dlq m) [
        | none ↦ (m ∷ [], none)
        | some x ↦ ([], some (wrap "failed to publish to DLQ" x))
      ]

  -- `CommitMessages`.
  abbrev commit : ℕ → Consumer W → Consumer W
  commit offset c = record c { committed = c.committed ++ (offset ∷ []) }

  -- The message is committed behind a letter that was sent, and behind one that was not.
  abbrev after_letter : ℕ → List Sent × Option Err → Consumer W → Consumer W
  after_letter offset (sent, some e) c = commit offset (record c { dead = c.dead ++ sent })
  after_letter offset (sent, none) c = commit offset (record c { dead = c.dead ++ sent })

  abbrev after_process : ℕ → MessageEnvelope → Option Err → Consumer W → Consumer W
  after_process offset envelope (some e) c =
      if dlq_topic == ""
      then commit offset c
      else after_letter offset (send_to_dlq c.heap envelope e) c
  after_process offset envelope none c = commit offset c

  unfoldable pub consume_message : ℕ → MessageEnvelope → Consumer W → Consumer W
  consume_message offset envelope c =
      let (result, (h, w)) = process envelope (c.heap, c.world) in
      after_process offset envelope result (record c { heap = h; world = w })

  -- The loop, over what the reader gives.
  unfoldable pub consume : List Fetch → Consumer W → Consumer W
  consume [] c = c
  consume (failed ∷ l) c = consume l c
  consume (stopped ∷ l) c = c
  consume (garbage offset ∷ l) c = consume l (commit offset c)
  consume (fetched offset envelope ∷ l) c = consume l (consume_message offset envelope c)

  -- The offsets of the messages in front of the stop.
  unfoldable pub offsets : List Fetch → List ℕ
  offsets [] = []
  offsets (failed ∷ l) = offsets l
  offsets (stopped ∷ l) = []
  offsets (garbage offset ∷ l) = offset ∷ offsets l
  offsets (fetched offset envelope ∷ l) = offset ∷ offsets l

  committed-consume_message :
      (offset : ℕ) (envelope : MessageEnvelope) (c : Consumer W)
      → (consume_message offset envelope c).committed ≡ c.committed ++ (offset ∷ [])
  unfolding consume_message send_to_dlq
  committed-consume_message offset envelope c = ground arith

  -- The consumer asks to commit every message that it fetched, once, in the order of the fetches,
  -- whatever becomes of it: also one that is no envelope, one whose processing failed for good, and
  -- one that could not be put on the dead-letter topic.
  pub consume_commits :
      (l : List Fetch) (c : Consumer W) → (consume l c).committed ≡ c.committed ++ offsets l
  unfolding consume offsets
  consume_commits [] c = rw append-nil
  consume_commits (failed ∷ l) c = consume_commits l c
  consume_commits (stopped ∷ l) c = rw append-nil
  consume_commits (garbage offset ∷ l) c = consume_commits l _ ∙ rw append_assoc
  consume_commits (fetched offset envelope ∷ l) c =
      consume_commits l _ ∙ rw (committed-consume_message offset envelope c, append_assoc)

  -- A message whose processing failed for good goes to the dead-letter topic, where one is configured
  -- and publishing there works. The letter keeps the message's payload, ID and source, and names the
  -- error and the topic in its metadata.
  pub consume_message_dead :
      (offset : ℕ) (envelope : MessageEnvelope) (c : Consumer W) (e : Err)
      → (process envelope (c.heap, c.world)).0 ≡ some e
      → dlq_topic ≢ ""
      → let reason = error_text (process envelope (c.heap, c.world)).1.0 e in
        let letter = dead_letter reason topic now envelope in
        let m : Sent = record { topic = dlq_topic; msg = letter } in
        ((consume_message offset envelope c).dead
          ≡ c.dead ++ elim (dlq m) [ none ↦ m ∷ [] | some x ↦ [] ])
        × (letter.id ≡ envelope.id)
        × (letter.source ≡ envelope.source)
        × (letter.payload ≡ envelope.payload)
        × (lookup_nil "dlq_reason" letter.metadata.enrichment ≡ some (text reason))
        × (lookup_nil "dlq_source_topic" letter.metadata.enrichment ≡ some (text topic))
  unfolding consume_message send_to_dlq dead_letter
  consume_message_dead offset envelope c e bad given = (
    ground (arith, eq_iff dlq_topic ""),
    refl,
    refl,
    refl,
    simp lookup-insert,
    simp lookup-insert,
  )

  -- A message that was processed, and any message without a dead-letter topic, leaves the dead
  -- letters as they are.
  pub consume_message_alive :
      (offset : ℕ) (envelope : MessageEnvelope) (c : Consumer W)
      → ((process envelope (c.heap, c.world)).0 ≡ none) ⊎ (dlq_topic ≡ "")
      → (consume_message offset envelope c).dead ≡ c.dead
  unfolding consume_message
  consume_message_alive offset envelope c h = ground (arith, eq_iff dlq_topic "", append-nil c.dead)
