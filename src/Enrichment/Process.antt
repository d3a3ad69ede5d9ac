-- ===== src/Enrichment/Process.antt =====
-- `Process`: the loop over the rules of the service.
use yeti.Base.{
  ℕ, suc, String, ◌≡◌, refl, Bool, false, Option, none, some, List, [], ◌∷◌, arith, ◌==◌,
  if◌then◌else◌, Option-cases, inl, inr,
}
use yeti.Base.Lists.{All}
use yeti.Model.Value.{Fields, lookup}
use yeti.Model.Message.{MessageEnvelope, made, get_payload_field, lookup_nil}
use yeti.Errors.Chain.{Err}
use yeti.Errors.Result.{Result, ok, err, Context, Result-cases}
use yeti.Cel.{CelLib}
use yeti.Enrichment.Types.{Rule, Service, World}
use yeti.Enrichment.Fetch.{fetch_source_data}
use yeti.Enrichment.Transform.{apply_transformations, SameBut, apply_transformations_frame}

-- What a round leaves: the message, and the error that ends the loop.
pub record Round : Type 0 where
  pub msg : MessageEnvelope
  pub error : Option Err

module _ (lib : CelLib) (w : World) (s : Service lib) (ctx : Context) where
  open w use {State}

  abbrev apply_fetched : Rule → MessageEnvelope → Result (Fields × Bool) → Round
  apply_fetched rule msg (err e) = record {
    msg = msg;
    error = if rule.error_handling == "fail" then some e else none;
  }
  apply_fetched rule msg (ok (source_data, hit)) = record {
    msg = apply_transformations lib s ctx rule source_data msg;
    error = none;
  }

  abbrev fetched_round : Rule → MessageEnvelope → Result (Fields × Bool) × State → Round × State
  fetched_round rule msg (r, st) = (apply_fetched rule msg r, st)

  -- One rule, behind the check of the context.
  unfoldable pub process_rule : Rule → MessageEnvelope → State → Round × State
  process_rule rule msg st = elim (get_payload_field msg rule.field_to_enrich) [
    | none ↦ (record { msg = msg; error = none }, st)
    | some v ↦ fetched_round rule msg (fetch_source_data w rule v st)
  ]

  -- The loop from rule `i` on.
  unfoldable pub process_rules : ℕ → List Rule → MessageEnvelope → State → Round × State
  process_rules i [] msg st = (record { msg = msg; error = none }, st)
  process_rules i (rule ∷ rules) msg st = elim (ctx.err_at i) [
    | some e ↦ (record { msg = msg; error = some e }, st)
    | none ↦
        let (r, st') = process_rule rule msg st in
        let rest = process_rules (suc i) rules r.msg st' in
        elim r.error [ some e ↦ (r, st') | none ↦ rest ]
  ]

  unfoldable pub process : MessageEnvelope → State → Round × State
  unfolding process_rules
  process msg st =
      process_rules 0 s.rules
        (record msg {
          metadata = record (msg.metadata) { enrichment = some (made msg.metadata.enrichment) };
        })
        st

  process_rule_frame :
      (rule : Rule) (msg : MessageEnvelope) (st : State) (k : String)
      → All (λ t. (t.target_field == k) ≡ false) rule.transformations
      → SameBut (process_rule rule msg st).0.msg msg
        × (lookup_nil k (process_rule rule msg st).0.msg.metadata.enrichment
            ≡ lookup_nil k msg.metadata.enrichment)
  unfolding process_rule
  process_rule_frame rule msg st k h =
      elim (Option-cases (get_payload_field msg rule.field_to_enrich)) [
        | inl missing ↦ ground arith
        | inr (v, found) ↦ elim (Result-cases (fetch_source_data w rule v st).0) [
          | inl ((d, hit), fetched) ↦
              ground (arith, apply_transformations_frame lib s ctx rule d msg k h)
          | inr (e, failed) ↦ ground arith
        ]
      ]

  process_rules_frame :
      (i : ℕ) (rules : List Rule) (msg : MessageEnvelope) (st : State) (k : String)
      → All (λ r. All (λ t. (t.target_field == k) ≡ false) r.transformations) rules
      → SameBut (process_rules i rules msg st).0.msg msg
        × (lookup_nil k (process_rules i rules msg st).0.msg.metadata.enrichment
            ≡ lookup_nil k msg.metadata.enrichment)
  unfolding process_rules
  process_rules_frame i [] msg st k h = ground arith
  process_rules_frame i (rule ∷ rules) msg st k (h, hs) = ground (
    arith,
    process_rule_frame rule msg st k h,
    process_rules_frame (suc i) rules (process_rule rule msg st).0.msg (process_rule rule msg st).1
        k hs,
  )

  -- Enriching a message, also when it ends in an error, keeps its ID, source, time, payload, trace ID
  -- and what the earlier services put there, and every enrichment field that no transformation of a
  -- rule has as target.
  pub process_frame :
      (msg : MessageEnvelope) (st : State) (k : String)
      → All (λ r. All (λ t. (t.target_field == k) ≡ false) r.transformations) s.rules
      → SameBut (process msg st).0.msg msg
        × (lookup_nil k (process msg st).0.msg.metadata.enrichment
            ≡ lookup_nil k msg.metadata.enrichment)
  unfolding process lookup
  process_frame msg st k h =
      let start : MessageEnvelope = record msg {
        metadata = record (msg.metadata) { enrichment = some (made msg.metadata.enrichment) };
      } in
      ground (arith, process_rules_frame 0 s.rules start st k h)

  -- A rule whose error handling is not "fail" ends in no error.
  process_rule_error :
      (rule : Rule) (msg : MessageEnvelope) (st : State)
      → (rule.error_handling == "fail") ≡ false
      → (process_rule rule msg st).0.error ≡ none
  unfolding process_rule
  process_rule_error rule msg st h =
      elim (Option-cases (get_payload_field msg rule.field_to_enrich)) [
        | inl missing ↦ ground arith
        | inr (v, found) ↦ elim (Result-cases (fetch_source_data w rule v st).0) [
          | inl (d, fetched) ↦ ground arith
          | inr (e, failed) ↦ ground arith
        ]
      ]

  process_rules_error :
      (i : ℕ) (rules : List Rule) (msg : MessageEnvelope) (st : State)
      → ((n : ℕ) → ctx.err_at n ≡ none)
      → All (λ r. (r.error_handling == "fail") ≡ false) rules
      → (process_rules i rules msg st).0.error ≡ none
  unfolding process_rules
  process_rules_error i [] msg st live h = refl
  process_rules_error i (rule ∷ rules) msg st live (h, hs) = ground (
    arith,
    live i,
    process_rule_error rule msg st h,
    process_rules_error (suc i) rules (process_rule rule msg st).0.msg (process_rule rule msg st).1
        live hs,
  )

  -- While the context is live and no rule has the error handling "fail", every message is enriched
  -- without an error, whatever the cache, the providers and the expressions do.
  pub process_no_error :
      (msg : MessageEnvelope) (st : State)
      → ((n : ℕ) → ctx.err_at n ≡ none)
      → All (λ r. (r.error_handling == "fail") ≡ false) s.rules
      → (process msg st).0.error ≡ none
  unfolding process
  process_no_error msg st live h = process_rules_error 0 s.rules _ st live h
