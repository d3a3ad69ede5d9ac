-- ===== src/Management/History.antt =====
-- What the methods on filtering rules announce, and how they answer for what is not there.
use yeti.Base.{
  ℕ, suc, String, ◌≡◌, ◌≢◌, refl, true, Option, none, some, List, [], ◌∷◌, ◌++◌, arith, ◌==◌,
  eq_iff, Option-cases, Bool-cases, inl, inr,
}
use yeti.Base.Int.{ℤ, pos, ◌<ℤ◌, ◌≤ℤ◌}
use yeti.Errors.Chain.{Err, wrap, err_not_found, to_http_status, to_err}
use yeti.Errors.Details.{error_text, with_detail}
use yeti.Errors.Result.{ok, err, Result-cases}
use yeti.Errors.Rows.{Rows, end, broken, row, scan_rows, scan_rows_live, rows_error}
use yeti.Cel.{CelLib}
use yeti.Model.Value.{Fields, text}
use yeti.Model.Message.{MessageEnvelope}
use yeti.Broker.Producer.{Producer, Sent}
use yeti.ConfigHandler.{handle_config_update_event}
use yeti.Filtering.Repository.{get_active_rules}
use yeti.Management.Announces.{
  filtering_handler, publish_filtering_rule_event-handle_config_update_event,
}
use yeti.Management.Notifier.{Json, ConfigEventProducer, filtering_rule_event}
use yeti.Management.Requests.{CreateFilteringRuleRequest, UpdateFilteringRuleRequest}
use yeti.Management.Validator.{validate_filtering_rule, validate_update_filtering_rule}
use yeti.Management.Store.{Database, Collection, Codec, Call, World, FilteringRule, bare}
use yeti.Management.Repository
use yeti.Management.Versioning
use yeti.Management.Service.{
  Service, handle_not_found_error, create_version_and_audit, publish_config_event, get_changed_by,
}
use yeti.Management.FilteringRules.{
  new_rule, update_filtering_rule_fields, create_filtering_rule, get_filtering_rule,
  update_filtering_rule, delete_filtering_rule, list_filtering_rules, limited,
}

scan_rows_live-scan_rows :
    {A : Type 0} (prefix p : String) (ended : ℕ → Option Err) (i : ℕ) (l : Rows A) (rules : List A)
    → ((k : ℕ) → ended k ≡ none)
    → scan_rows p l ≡ ok rules
    → scan_rows_live prefix ended i l ≡ ok rules
unfolding scan_rows scan_rows_live
scan_rows_live-scan_rows prefix p ended i end rules live h = h
scan_rows_live-scan_rows prefix p ended i (broken e) rules live h = h
scan_rows_live-scan_rows prefix p ended i (row (err e) l) rules live h = absurd (ground arith)
scan_rows_live-scan_rows prefix p ended i (row (ok a) l) rules live h =
    elim (Result-cases (scan_rows p l)) [
      | inr (e, failed) ↦ absurd (ground arith)
      | inl (rest, scanned) ↦
          ground
            (arith, live i, scan_rows_live-scan_rows prefix p ended (suc i) l rest live scanned)
    ]

module _ (lib : CelLib) (show_nat : ℕ → String) (db : Database) (mongo : Collection) (codec : Codec)
    (json : Json) (s : Service) where
  -- Versions and logs announce nothing.
  sent-create_version_and_audit :
      (call : Call) (r : FilteringRule) (action : String) (old : Option Fields) (w : World db mongo)
      → (create_version_and_audit db mongo codec json s call r action old w).sent ≡ w.sent
  unfolding create_version_and_audit Versioning.create_version Versioning.create_audit_log
  sent-create_version_and_audit call r action old w =
      elim (Result-cases (Versioning.rule_to_json codec r)) [
        | inr (e, failed) ↦ ground arith
        | inl (rule_json, made) ↦ elim (Result-cases (codec.rule_to_map r)) [
          | inr (e, failed) ↦ ground arith
          | inl (d, encoded) ↦ ground arith
        ]
      ]

  -- A rule that is created is announced once: where the service has a producer and a topic for events,
  -- the broker takes the event, and JSON encodes it and the handler decodes it, one more message is
  -- sent, and it makes the filtering service, whose handler has no updater, reload its rules.
  pub create_filtering_rule_reloads :
      (call : Call) (req : CreateFilteringRuleRequest) (w w' : World db mongo)
      (rule : FilteringRule) (n : ConfigEventProducer) (p : Producer) {S : Type 0}
      (decode : Option Fields → Option Err) (r : S → S × Option Err) (f : S) (d : Fields)
      {bytes : json.Bytes}
      → create_filtering_rule lib show_nat db mongo codec json s call req w ≡ (ok rule, w')
      → s.config_event_producer ≡ some n
      → n.producer ≡ some p
      → n.topic ≢ ""
      → json.marshal
          (filtering_rule_event call.event_now "create" rule.id (get_changed_by call.ctx))
        ≡ ok bytes
      → json.unmarshal bytes ≡ ok d
      → decode (some d) ≡ none
      → ((m : Sent) → p m ≡ none)
      → (m : MessageEnvelope) × (w'.sent ≡ w.sent ++ (record { topic = n.topic; msg = m } ∷ []))
        × (handle_config_update_event S decode (filtering_handler r) m f ≡ r f)
  unfolding create_filtering_rule Repository.create_filtering_rule publish_config_event
  create_filtering_rule_reloads call req w w' rule n p {S} decode r f d h given produced topic
        encoded decoded accepted works =
      let row = Repository.stamped db mongo codec call (new_rule req) in
      let (failure, rows) = db.insert_rule row w.rows in
      let (m, sent, handled) =
        publish_filtering_rule_event-handle_config_update_event json call.event_uuid
          call.message_now S decode n p call.event_now "create" rule.id (get_changed_by call.ctx) r
          f d produced topic encoded decoded accepted works in
      elim (Option-cases (validate_filtering_rule lib show_nat req)) [
        | inr (e, refused) ↦ absurd (ground arith)
        | inl admitted ↦ elim (Option-cases failure) [
          | inr (e, failed) ↦ absurd (ground arith)
          | inl taken ↦ (
            m,
            ground (
              arith,
              sent-create_version_and_audit call row "create" none (record w { rows = rows }),
            ),
            handled,
          )
        ]
      ]

  module _
      (found_words : codec.contains "rule not found: sql: no rows in result set" "not found"
        ≡ true) where
    -- A rule that is not in the table is answered by the status 404 when it is read, updated, with a
    -- request that is admitted, or deleted, if `strings.Contains` finds "not found" in the text of the
    -- repository's error; the table is left, and nothing is announced.
    pub missing_rule_not_found :
        (call : Call) (id : String) (req : UpdateFilteringRuleRequest) (w : World db mongo)
        → db.select_rule id w.rows ≡ ok none
        → validate_update_filtering_rule lib show_nat req ≡ none
        → (x : Err) × (w' : World db mongo) × (get_filtering_rule lib show_nat db mongo codec json s
              id w
            ≡ (err x, w'))
          × (update_filtering_rule lib show_nat db mongo codec json s call id req w ≡ (err x, w'))
          × (delete_filtering_rule lib show_nat db mongo codec json s call id w ≡ (err x, w'))
          × (to_http_status x ≡ 404)
          × (w'.rows ≡ w.rows)
          × (w'.sent ≡ w.sent)
    unfolding get_filtering_rule update_filtering_rule delete_filtering_rule handle_not_found_error
        Repository.get_filtering_rule error_text with_detail to_http_status
    missing_rule_not_found call id req w missing valid =
        let (x, h) = with_detail (bare err_not_found) "id" (text id) w.heap in
        (
          to_err x,
          record w { heap = h },
          ground arith,
          ground arith,
          ground arith,
          refl,
          refl,
          refl,
        )

  -- When the rows break off, with each row before the break read and the context alive, the API lists
  -- the rules up to the break as if they were all, where the filtering service refuses the same rows.
  pub list_filtering_rules_broken :
      (call : Call) (w : World db mongo) (l : Rows FilteringRule) (rules : List FilteringRule)
      (e : Err)
      → db.select_rules w.rows ≡ ok l
      → scan_rows "failed to scan rule" l ≡ ok rules
      → rows_error l ≡ some e
      → ((k : ℕ) → call.ctx.err_at k ≡ none)
      → (list_filtering_rules lib show_nat db mongo codec json s call w ≡ (ok rules, w))
        × (get_active_rules (ok l) ≡ err (wrap "rows iteration error" e))
  unfolding list_filtering_rules Repository.list_filtering_rules get_active_rules
  list_filtering_rules_broken call w l rules e answered scanned cut live = ground (
    arith,
    scan_rows_live-scan_rows "failed to scan rule" "failed to scan rule" call.ctx.err_at 0 l rules
        live scanned,
  )

  -- An update with an empty expression is admitted, and stored in the place of the rule's expression,
  -- if the statement finds the rule; a new rule without an expression is refused.
  pub update_filtering_rule_blank :
      (call : Call) (id : String) (req : UpdateFilteringRuleRequest) (w : World db mongo)
      (old : FilteringRule) (blank : CreateFilteringRuleRequest) (n : ℕ)
      → req.expression ≡ some ""
      → blank.expression ≡ ""
      → db.select_rule id w.rows ≡ ok (some old)
      → (db.update_rule
          (Repository.touched db mongo codec call (update_filtering_rule_fields req old))
          w.rows).0
        ≡ ok (ok (suc n))
      → ((rule : FilteringRule) × ((update_filtering_rule lib show_nat db mongo codec json s call id
              req w).0
            ≡ ok rule)
          × (rule.expression ≡ ""))
        × (validate_filtering_rule lib show_nat blank ≢ none)
  unfolding update_filtering_rule validate_update_filtering_rule Repository.get_filtering_rule
      Repository.update_filtering_rule update_filtering_rule_fields validate_filtering_rule
  update_filtering_rule_blank call id req w old blank n empty no_text there done = (
    (
      Repository.touched db mongo codec call (update_filtering_rule_fields req old),
      ground arith,
      ground arith,
    ),
    elim (Bool-cases (blank.name == "")) [
      | inl h ↦ ground arith
      | inr h ↦ ground (arith, eq_iff blank.expression "")
    ],
  )

  -- The limit for audit logs is from 1 to 1000, whatever the given one is.
  pub limited_bounds :
      (limit : ℤ)
      → (pos 0 <ℤ limited lib show_nat db mongo codec json s limit)
        × (limited lib show_nat db mongo codec json s limit ≤ℤ pos 1000)
  limited_bounds limit = ground arith
