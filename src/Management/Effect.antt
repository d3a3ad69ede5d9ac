-- ===== src/Management/Effect.antt =====
-- From the API to the messages: a rule that is created, in the filtering service that its event reaches.
-- The statement of internal/filtering/repository.go is PostgreSQL's, over the same table.
use yeti.Base.{
  ℕ, String, ◌≡◌, ◌≢◌, Bool, true, false, Option, none, some, List, [], ◌∷◌, ◌++◌, arith, ◌∙◌,
}
use yeti.Base.Lists.{all}
use yeti.Errors.Chain.{Err}
use yeti.Errors.Result.{Result, ok, Context}
use yeti.Errors.Rows.{Rows}
use yeti.Cel.{CelLib, evaluate_filter}
use yeti.Model.Value.{Fields}
use yeti.Model.Message.{MessageEnvelope}
use yeti.Broker.Producer.{Producer, Sent}
use yeti.ConfigHandler.{handle_config_update_event}
use yeti.Filtering as Filtering
use yeti.Filtering.{Rule, filter, reload_rules}
use yeti.Filtering.Repository.{get_active_rules}
use yeti.Filtering.Verdict.{passes, filter_verdict, ids_that_hold, before_stop}
use yeti.Management.Announces.{filtering_handler}
use yeti.Management.Notifier.{Json, ConfigEventProducer, filtering_rule_event}
use yeti.Management.Requests.{CreateFilteringRuleRequest}
use yeti.Management.Store.{Database, Collection, Codec, Call, World, FilteringRule}
use yeti.Management.Service.{Service, get_changed_by}
use yeti.Management.FilteringRules.{create_filtering_rule}
use yeti.Management.Stored.{Serves, as_stored}
use yeti.Management.Changes.{create_filtering_rule_stores, create_filtering_rule_key}
use yeti.Management.History.{create_filtering_rule_reloads}

-- A row, as the filtering service reads it.
abbrev pub as_rule : FilteringRule → Rule
as_rule r = record {
  id = r.id;
  name = r.name;
  expression = r.expression;
  priority = r.priority;
  enabled = r.enabled;
  created_at = r.created_at;
  updated_at = r.updated_at;
}

-- What SQL says of the service's SELECT, while the database answers: each row that is enabled is in the
-- list.
pub record Selects (db : Database) (row : Database.State db → String → Option FilteringRule)
    (select_active : Database.State db → Result (Rows Rule)) : Type 0 where
  pub active : db.State → List Rule
  pub answers : (st : db.State) → get_active_rules (select_active st) ≡ ok (active st)
  pub holds_row :
      (st : db.State) (k : String) (r : FilteringRule)
      → row st k ≡ some r
      → r.enabled ≡ true
      → (before : List Rule) × (after : List Rule) × (active st ≡ before ++ (as_rule r ∷ after))

all-append :
    {A : Type 0} (p : A → Bool) (before after : List A) (x : A)
    → p x ≡ false
    → all p (before ++ (x ∷ after)) ≡ false
all-append p [] after x h = ground arith
all-append p (y ∷ before) after x h = ground (arith, all-append p before after x h)

-- A service that has a rule which does not hold of a message stops it.
filter_stops :
    (lib : CelLib) (f : Filtering.Service lib) (ctx : Context) (msg : MessageEnvelope)
    (before after : List Rule) (r : Rule)
    → ((k : ℕ) → ctx.err_at k ≡ none)
    → f.rules ≡ before ++ (r ∷ after)
    → evaluate_filter lib f.evaluator ctx r.expression msg ≡ ok false
    → (applied : List String) × (filter lib f ctx msg ≡ ok (false, applied))
unfolding passes
filter_stops lib f ctx msg before after r live has fails =
    let stopped = all-append (passes lib f ctx msg) before after r (ground arith) in
    (
      ids_that_hold lib f ctx msg (before_stop lib f ctx msg f.rules),
      ground (arith, filter_verdict lib f ctx msg live),
    )

module _ (lib : CelLib) (show_nat : ℕ → String) (db : Database) (mongo : Collection) (codec : Codec)
    (json : Json) (s : Service) (row : Database.State db → String → Option FilteringRule)
    (serves : Serves db row) (select_active : Database.State db → Result (Rows Rule))
    (selects : Selects db row select_active) where
  -- `ReloadRules` of the filtering service, while the table holds the given rows.
  abbrev pub reload_from : db.State → Filtering.Service lib → Filtering.Service lib × Option Err
  reload_from rows f = reload_rules lib (get_active_rules (select_active rows)) f

  -- The databases answer as SQL says, and the broker, JSON and the handler take the event: then a
  -- rule that is created, and enabled, is announced by one more message, whose handling in the
  -- filtering service, with the table as it is then, succeeds. With the rules that it has loaded
  -- then, that service stops each message of which the rule's expression does not hold, whatever
  -- its other rules are and whatever it had loaded before.
  pub create_filtering_rule-filter :
      (call : Call) (req : CreateFilteringRuleRequest) (w w' : World db mongo)
      (rule : FilteringRule) (n : ConfigEventProducer) (p : Producer)
      (decode : Option Fields → Option Err) (f : Filtering.Service lib) (d : Fields)
      {bytes : json.Bytes} (ctx : Context) (msg : MessageEnvelope)
      → create_filtering_rule lib show_nat db mongo codec json s call req w ≡ (ok rule, w')
      → rule.enabled ≡ true
      → s.config_event_producer ≡ some n
      → n.producer ≡ some p
      → n.topic ≢ ""
      → json.marshal
          (filtering_rule_event call.event_now "create" rule.id (get_changed_by call.ctx))
        ≡ ok bytes
      → json.unmarshal bytes ≡ ok d
      → decode (some d) ≡ none
      → ((m : Sent) → p m ≡ none)
      → ((k : ℕ) → ctx.err_at k ≡ none)
      → evaluate_filter lib f.evaluator ctx rule.expression msg ≡ ok false
      → (m : MessageEnvelope) × (w'.sent ≡ w.sent ++ (record { topic = n.topic; msg = m } ∷ []))
        × (f' : Filtering.Service lib) × (handle_config_update_event
              (Filtering.Service lib)
              decode
              (filtering_handler (reload_from w'.rows))
              m
              f
            ≡ (f', none))
        × (applied : List String) × (filter lib f' ctx msg ≡ ok (false, applied))
  unfolding reload_rules
  create_filtering_rule-filter call req w w' rule n p decode f d ctx msg given on announces produced
        topic encoded decoded accepted works live fails =
      let (m, sent, handled) =
        create_filtering_rule_reloads lib show_nat db mongo codec json s call req w w' rule n p
          decode (reload_from w'.rows) f d given announces produced topic encoded decoded accepted
          works in
      let (k, is) =
        create_filtering_rule_key lib show_nat db mongo codec json s row serves call req w w' rule
          given in
      let (is_new, there) =
        create_filtering_rule_stores lib show_nat db mongo codec json s row serves call req w w'
          rule k given in
      let r = as_stored serves.keep k rule in
      let (before, after, listed) = selects.holds_row w'.rows k r (ground (arith, there, is)) on in
      let f' : Filtering.Service lib = record f { rules = selects.active w'.rows } in
      let (applied, stopped) =
        filter_stops lib f' ctx msg before after (as_rule r) live listed fails in
      (m, sent, f', handled ∙ ground (arith, selects.answers w'.rows), applied, stopped)
