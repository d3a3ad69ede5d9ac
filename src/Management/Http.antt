-- ===== src/Management/Http.antt =====
-- What the handlers of internal/management/handler.go answer, one request after another.
use yeti.Base.{
  ◌||◌, ℕ, String, ◌≡◌, ◌⊎◌, inl, inr, true, Option, none, some, arith, Option-cases, Bool-cases,
}
use yeti.Base.Int.{ℤ}
use yeti.Errors.Chain.{wrap_app, Err, as_app, to_http_status, is_conflict, with_cause}
use yeti.Errors.Details.{error_text, with_detail}
use yeti.Errors.Result.{Result, Result-cases}
use yeti.Cel.{CelLib}
use yeti.Management.Notifier.{Json}
use yeti.Management.Requests.{CreateFilteringRuleRequest}
use yeti.Management.Validator.{validate_filtering_rule}
use yeti.Management.Store.{Database, Collection, Codec, Call, World, FilteringRule}
use yeti.Management.Repository
use yeti.Management.Service.{Service, handle_not_found_error}
use yeti.Management.FilteringRules.{
  create_filtering_rule, get_filtering_rule, delete_filtering_rule, limited, new_rule,
}
use yeti.Management.Handler.{
  json, status, status_of, parse_limit, create_rule, get_rule, delete_rule, handle_error,
}
use yeti.Management.Stored.{Serves}
use yeti.Management.Changes.{
  create_filtering_rule_stores, delete_filtering_rule_removes, delete_filtering_rule_key,
}

module _ (lib : CelLib) (show_nat : ℕ → String) (db : Database) (mongo : Collection) (codec : Codec)
    (codec_json : Json) (s : Service) (atoi : String → Option ℤ) where
  -- A limit that a handler has read passes the service unchanged: the two checks agree.
  pub limited-parse_limit :
      (limit : String)
      → limited lib show_nat db mongo codec codec_json s (parse_limit atoi limit)
        ≡ parse_limit atoi limit
  unfolding parse_limit
  limited-parse_limit limit = elim (Option-cases (atoi limit)) [
    | inl bad ↦ ground arith
    | inr (n, read) ↦ ground arith
  ]

  -- Creating a rule is answered by 201, or by the status of the error, which for an error of the
  -- database that is none of the application's own is 400, 409 or 500.
  pub create_rule_status :
      (call : Call) (body : Result CreateFilteringRuleRequest) (w : World db mongo)
      → ((r : FilteringRule) (e : Err) → (db.insert_rule r w.rows).0 ≡ some e → as_app e ≡ none)
      → let n =
          status_of (create_rule lib show_nat db mongo codec codec_json s atoi call body w).0 in
        (n ≡ 201) ⊎ ((n ≡ 400) ⊎ ((n ≡ 409) ⊎ (n ≡ 500)))
  unfolding create_rule create_filtering_rule Repository.create_filtering_rule handle_error
      to_http_status is_conflict with_detail with_cause wrap_app
  create_rule_status call body w foreign = elim (Result-cases body) [
    | inr (e, unread) ↦ inr (inl (ground arith))
    | inl (req, read) ↦
        let r = Repository.stamped db mongo codec call (new_rule req) in
        let failure = (db.insert_rule r w.rows).0 in
        elim (Option-cases (validate_filtering_rule lib show_nat req)) [
          | inr (e, refused) ↦ inr (inl (ground arith))
          | inl admitted ↦ elim (Option-cases failure) [
            | inl taken ↦ inl (ground arith)
            | inr (e, failed) ↦
                elim (Bool-cases (
                  db.unique_violation e
                  || Repository.mentions db mongo codec w.heap e "duplicate key"
                      "unique constraint")) [
                        | inl conflict ↦ inr (inr (inl (ground arith)))
                        | inr other ↦ inr (inr (inr (ground (arith, foreign r e failed))))
                      ]
          ]
        ]
  ]

  module _ (row : Database.State db → String → Option FilteringRule) (serves : Serves db row) where
    -- Over a database that keeps its rows as SQL says, with a new ID in the form in which PostgreSQL
    -- prints a UUID: a rule that was created, with the answer 201, has the new ID, and reading this ID
    -- then answers 200 with that rule, but for its two times, of which there is what a TIMESTAMP keeps.
    pub create_rule-get_rule :
        (call : Call) (body : Result CreateFilteringRuleRequest) (w w' : World db mongo)
        (rule : FilteringRule)
        → serves.denotes call.rule_uuid call.rule_uuid ≡ true
        → create_rule lib show_nat db mongo codec codec_json s atoi call body w
          ≡ (json 201 rule, w')
        → (rule.id ≡ call.rule_uuid)
          × (get_rule lib show_nat db mongo codec codec_json s atoi rule.id w' ≡ (
            json 200 (record rule {
              created_at = serves.keep rule.created_at;
              updated_at = serves.keep rule.updated_at;
            }),
            w',
          ))
    unfolding create_rule get_rule get_filtering_rule Repository.get_filtering_rule handle_error
    create_rule-get_rule call body w w' rule is h = elim (Result-cases body) [
      | inr (e, unread) ↦ absurd (ground arith)
      | inl (req, read) ↦
          let (answer, w₁) =
            create_filtering_rule lib show_nat db mongo codec codec_json s call req w in
          elim (Result-cases answer) [
            | inr (e, failed) ↦ absurd (ground arith)
            | inl (r, made) ↦
                let (same, there) =
                  create_filtering_rule_stores lib show_nat db mongo codec codec_json s row serves
                    call req w w' rule call.rule_uuid (ground arith) in
                (
                  ground arith,
                  ground
                      (arith, same, there, serves.select call.rule_uuid call.rule_uuid w'.rows is),
                )
          ]
    ]

    -- Over a database that keeps its rows as SQL says, after a deletion that is answered by 204, reading
    -- the ID is answered by 404, if `strings.Contains` finds "not found" in the text of the repository's
    -- error.
    pub delete_rule-get_rule :
        (call : Call) (id : String) (w w' : World db mongo)
        → codec.contains "rule not found: sql: no rows in result set" "not found" ≡ true
        → delete_rule lib show_nat db mongo codec codec_json s atoi call id w ≡ (status 204, w')
        → status_of (get_rule lib show_nat db mongo codec codec_json s atoi id w').0 ≡ 404
    unfolding delete_rule get_rule get_filtering_rule Repository.get_filtering_rule handle_error
        handle_not_found_error error_text to_http_status with_detail
    delete_rule-get_rule call id w w' words h =
        let (answer, w₁) =
          delete_filtering_rule lib show_nat db mongo codec codec_json s call id w in
        elim (Result-cases answer) [
          | inr (e, failed) ↦ absurd (ground arith)
          | inl (u, done) ↦
              let (k, is) =
                delete_filtering_rule_key lib show_nat db mongo codec codec_json s row serves call
                  id w w' (ground arith) in
              let gone =
                delete_filtering_rule_removes lib show_nat db mongo codec codec_json s row serves
                  call id w w' k (ground arith) in
              ground (arith, gone, is, serves.select id k w'.rows is)
        ]
