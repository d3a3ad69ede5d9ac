-- ===== src/Management/EnrichmentRepository.antt =====
-- internal/management/enrichment_repository.go: the enrichment rules in MongoDB.
use yeti.Base.{ℕ, String, ◌<>◌, ◌||◌, nat_eq, Option, none, some, List, ◌==◌, if◌then◌else◌}
use yeti.Model.Value.{text}
use yeti.Errors.Chain.{Err, plain, wrap, err_conflict, with_cause}
use yeti.Errors.Result.{Result, ok, err, ◌>>=◌, wrap_err}
use yeti.Management.Store.{
  Database, Collection, Codec, Call, World, EnrichmentRule, bare, fail_detail, Action,
}
use yeti.Management.Repository.{mentions}

module _ (db : Database) (mongo : Collection) (codec : Codec) where
  abbrev pub stamped : Call → EnrichmentRule → EnrichmentRule
  stamped call rule = record rule {
    id = if rule.id == "" then call.rule_uuid else rule.id;
    created_at = call.rule_now;
    updated_at = call.rule_now;
  }

  abbrev insert_failed : EnrichmentRule → Err → Action (World db mongo) EnrichmentRule
  insert_failed rule e w =
      if mongo.is_duplicate_key e || mentions db mongo codec w.heap e "duplicate key" "E11000"
      then fail_detail (with_cause (bare err_conflict) e) "message"
          (text ("enrichment rule with name '" <> rule.name <> "' already exists")) w
      else (err (wrap "failed to create enrichment rule" e), w)

  unfoldable pub create_enrichment_rule :
      Call → EnrichmentRule → Action (World db mongo) EnrichmentRule
  create_enrichment_rule call rule w =
      let (failure, documents) = mongo.insert_one (stamped call rule) w.documents in
      let w' = record w { documents = documents } in
      elim failure [ none ↦ (ok (stamped call rule), w') | some e ↦ insert_failed rule e w' ]

  -- A missing document is nil without an error.
  unfoldable pub get_enrichment_rule : String → Action (World db mongo) (Option EnrichmentRule)
  get_enrichment_rule id w =
      (wrap_err "failed to get enrichment rule" (mongo.find_one id w.documents), w)

  unfoldable pub list_enrichment_rules : Action (World db mongo) (List EnrichmentRule)
  list_enrichment_rules w = (
    (wrap_err "failed to list enrichment rules" (mongo.find w.documents)
        >>= wrap_err "failed to decode enrichment rules"),
    w,
  )

  -- The check of the count after an update or a deletion.
  abbrev pub counted : String → Result ℕ → Result (Unit {0})
  counted prefix (err e) = err (wrap prefix e)
  counted prefix (ok n) = if nat_eq n 0 then err (plain "enrichment rule not found") else ok tt

  abbrev pub touched : Call → EnrichmentRule → EnrichmentRule
  touched call rule = record rule { updated_at = call.rule_now }

  abbrev with_rule : EnrichmentRule → Result (Unit {0}) → Result EnrichmentRule
  with_rule rule (ok u) = ok rule
  with_rule rule (err e) = err e

  unfoldable pub update_enrichment_rule :
      Call → EnrichmentRule → Action (World db mongo) EnrichmentRule
  update_enrichment_rule call rule w =
      let (answer, documents) = mongo.update_one (touched call rule) w.documents in
      (
        with_rule (touched call rule) (counted "failed to update enrichment rule" answer),
        record w { documents = documents },
      )

  unfoldable pub delete_enrichment_rule : String → Action (World db mongo) (Unit {0})
  delete_enrichment_rule id w =
      let (answer, documents) = mongo.delete_one id w.documents in
      (counted "failed to delete enrichment rule" answer, record w { documents = documents })
