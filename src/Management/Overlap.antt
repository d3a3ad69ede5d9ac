-- ===== src/Management/Overlap.antt =====
-- internal/management/service.go: updates and deletions of filtering rules whose requests overlap. A
-- request reads the rule, and writes later; the version, the log and the event behind its write touch no
-- row, and count as one with it.
use yeti.Base.{
  ℕ, String, ◌≡◌, Option, none, some, arith, ◌==◌, eq_iff, if◌then◌else◌, Option-cases, inl, inr,
  true,
}
use yeti.Errors.Chain.{err_validation}
use yeti.Errors.Result.{Result, ok, err, Result-cases}
use yeti.Cel.{CelLib}
use yeti.Management.Notifier.{Json}
use yeti.Management.Requests.{UpdateFilteringRuleRequest}
use yeti.Management.Validator.{validate_update_filtering_rule}
use yeti.Management.Store.{Database, Collection, Codec, Call, World, FilteringRule, Action}
use yeti.Management.Repository
use yeti.Management.Service.{Service, wrapped, or_nil, handle_not_found_error}
use yeti.Management.FilteringRules.{
  update_filtering_rule_fields, update_filtering_rule, delete_filtering_rule, found, updated,
  deleted,
}
use yeti.Management.Stored.{Serves, set_row, select-cases, rows-announced}

-- A request that has read its rule.
pub record Update : Type 0 where
  pub call : Call
  pub id : String
  pub req : UpdateFilteringRuleRequest
  pub rule : FilteringRule

pub record Deletion : Type 0 where
  pub call : Call
  pub id : String
  pub rule : FilteringRule

module _ (lib : CelLib) (show_nat : ℕ → String) (db : Database) (mongo : Collection) (codec : Codec)
    (json : Json) (s : Service) where
  -- `UpdateFilteringRule` up to the rule that it finds, and from there.
  unfoldable pub begin_update :
      Call → String → UpdateFilteringRuleRequest → Action (World db mongo) Update
  begin_update call id req w = elim (validate_update_filtering_rule lib show_nat req) [
    | some e ↦ (err (wrapped err_validation e), w)
    | none ↦
        found lib show_nat db mongo codec json s id
          (Repository.get_filtering_rule db mongo codec id w)
          λ rule w'. (ok (record { call = call; id = id; req = req; rule = rule }), w')
  ]

  -- What the request writes.
  abbrev pub written : Update → FilteringRule
  written p = Repository.touched db mongo codec p.call (update_filtering_rule_fields p.req p.rule)

  unfoldable pub finish_update : Update → Action (World db mongo) FilteringRule
  finish_update p w =
      updated lib show_nat db mongo codec json s p.call (or_nil (codec.rule_to_map p.rule)) (
        Repository.update_filtering_rule db mongo codec p.call
          (update_filtering_rule_fields p.req p.rule) w)

  -- `DeleteFilteringRule` in the same way.
  unfoldable pub begin_deletion : Call → String → Action (World db mongo) Deletion
  begin_deletion call id w =
      found lib show_nat db mongo codec json s id
        (Repository.get_filtering_rule db mongo codec id w)
        λ rule w'. (ok (record { call = call; id = id; rule = rule }), w')

  unfoldable pub finish_deletion : Deletion → Action (World db mongo) (Unit {0})
  finish_deletion p w =
      deleted lib show_nat db mongo codec json s p.call p.id (or_nil (codec.rule_to_map p.rule))
        (Repository.delete_filtering_rule db mongo codec p.id w)

  abbrev pub and_then :
      {A B : Type 0}
      → (A → Action (World db mongo) B)
      → Result A × World db mongo
      → Result B × World db mongo
  and_then finish (ok p, w) = finish p w
  and_then finish (err e, w) = (err e, w)

  -- An update is its two parts with nothing between them, and so is a deletion.
  pub and_then-begin_update :
      (call : Call) (id : String) (req : UpdateFilteringRuleRequest) (w : World db mongo)
      → and_then finish_update (begin_update call id req w)
        ≡ update_filtering_rule lib show_nat db mongo codec json s call id req w
  unfolding begin_update finish_update update_filtering_rule Repository.get_filtering_rule
      handle_not_found_error
  and_then-begin_update call id req w = elim (Result-cases (db.select_rule id w.rows)) [
    | inr (e, failed) ↦ ground arith
    | inl (answer, read) ↦ elim (Option-cases answer) [
      | inl missing ↦ ground arith
      | inr (rule, there) ↦ ground arith
    ]
  ]

  pub and_then-begin_deletion :
      (call : Call) (id : String) (w : World db mongo)
      → and_then finish_deletion (begin_deletion call id w)
        ≡ delete_filtering_rule lib show_nat db mongo codec json s call id w
  unfolding begin_deletion finish_deletion delete_filtering_rule Repository.get_filtering_rule
      handle_not_found_error
  and_then-begin_deletion call id w = elim (Result-cases (db.select_rule id w.rows)) [
    | inr (e, failed) ↦ ground arith
    | inl (answer, read) ↦ elim (Option-cases answer) [
      | inl missing ↦ ground arith
      | inr (rule, there) ↦ ground arith
    ]
  ]

  -- The first parts change no table.
  pub rows-begin_deletion :
      (call : Call) (id : String) (w : World db mongo) → (begin_deletion call id w).1.rows ≡ w.rows
  unfolding begin_deletion Repository.get_filtering_rule handle_not_found_error
  rows-begin_deletion call id w = elim (Result-cases (db.select_rule id w.rows)) [
    | inr (e, failed) ↦ ground arith
    | inl (answer, read) ↦ elim (Option-cases answer) [
      | inl missing ↦ ground arith
      | inr (rule, there) ↦ ground arith
    ]
  ]

  pub rows-begin_update :
      (call : Call) (id : String) (req : UpdateFilteringRuleRequest) (w : World db mongo)
      → (begin_update call id req w).1.rows ≡ w.rows
  unfolding begin_update Repository.get_filtering_rule handle_not_found_error
  rows-begin_update call id req w = elim (Result-cases (db.select_rule id w.rows)) [
    | inr (e, failed) ↦ ground arith
    | inl (answer, read) ↦ elim (Option-cases answer) [
      | inl missing ↦ ground arith
      | inr (rule, there) ↦ ground arith
    ]
  ]

  module _ (row : Database.State db → String → Option FilteringRule) (serves : Serves db row) where
    -- Whatever the table holds by then, a request that ends without an error writes the columns of the
    -- rule that it has read, with its own changes.
    finish_update_writes :
        (p : Update) (w w' : World db mongo) (rule : FilteringRule) (k : String)
        → finish_update p w ≡ (ok rule, w')
        → (rule ≡ written p)
          × (row w'.rows k ≡ (
              if serves.denotes p.rule.id k
              then set_row serves.keep (written p) (row w.rows k)
              else row w.rows k))
    unfolding finish_update Repository.update_filtering_rule update_filtering_rule_fields
    finish_update_writes p w w' rule k h =
        let (answer, rows) = db.update_rule (written p) w.rows in
        elim (Result-cases answer) [
          | inr (x, failed) ↦ absurd (ground arith)
          | inl (n, done) ↦ ground (
            arith,
            serves.updated (written p) w.rows rows n k,
            rows-announced lib show_nat db mongo codec json s row serves p.call (written p) "update"
                (or_nil (codec.rule_to_map p.rule)) (record w { rows = rows }) k,
          )
        ]

    -- A request that begins has read the rule of its ID, and changes nothing.
    pub begin_update_reads :
        (call : Call) (id : String) (req : UpdateFilteringRuleRequest) (w w' : World db mongo)
        (p : Update)
        → begin_update call id req w ≡ (ok p, w')
        → (w' ≡ w)
          × ((k : String) × (serves.denotes id k ≡ true) × (row w.rows k ≡ some p.rule))
          × (validate_update_filtering_rule lib show_nat req ≡ none)
          × (p ≡ record { call = call; id = id; req = req; rule = p.rule })
    unfolding begin_update Repository.get_filtering_rule handle_not_found_error
    begin_update_reads call id req w w' p h =
        elim (Option-cases (validate_update_filtering_rule lib show_nat req)) [
          | inr (e, refused) ↦ absurd (ground arith)
          | inl admitted ↦
              elim (select-cases lib show_nat db mongo codec json s row serves id w.rows) [
                | inr (inr (e, failed)) ↦ absurd (ground arith)
                | inr (inl missing) ↦ absurd (ground arith)
                | inl (k, rule, is, there, read) ↦
                    (ground arith, (k, is, ground arith), admitted, ground arith)
              ]
        ]

    pub begin_deletion_reads :
        (call : Call) (id : String) (w w' : World db mongo) (p : Deletion)
        → begin_deletion call id w ≡ (ok p, w')
        → w' ≡ w
    unfolding begin_deletion Repository.get_filtering_rule handle_not_found_error
    begin_deletion_reads call id w w' p h =
        elim (select-cases lib show_nat db mongo codec json s row serves id w.rows) [
          | inr (inr (e, failed)) ↦ absurd (ground arith)
          | inr (inl missing) ↦ absurd (ground arith)
          | inl (k, rule, is, there, read) ↦ ground arith
        ]

    -- Over a database that keeps its rows as SQL says, where two updates of a rule, which is stored under
    -- its own ID, have both read it before either of them writes, and then write one after the other
    -- without an error, the table holds the old rule with the changes of the second request alone, in
    -- every column, with the part of its time that the database keeps: those of the first are lost,
    -- though it is answered as if they were stored. The other rules are as before.
    pub overlapping_updates :
        (call call' : Call) (id : String) (req req' : UpdateFilteringRuleRequest)
        (w a b c d : World db mongo) (p p' : Update) (old r r' : FilteringRule) (k : String)
        → row w.rows id ≡ some old
        → old.id ≡ id
        → begin_update call id req w ≡ (ok p, a)
        → begin_update call' id req' a ≡ (ok p', b)
        → finish_update p b ≡ (ok r, c)
        → finish_update p' c ≡ (ok r', d)
        → (r ≡ record (update_filtering_rule_fields req old) { updated_at = call.rule_now })
          × (r' ≡ record (update_filtering_rule_fields req' old) { updated_at = call'.rule_now })
          × (row d.rows k ≡ (
              if id == k
              then some (record r' { updated_at = serves.keep call'.rule_now })
              else row w.rows k))
    unfolding update_filtering_rule_fields
    overlapping_updates call call' id req req' w a b c d p p' old r r' k there same h h' g g' =
        let (x, (j, is, y), z, u) = begin_update_reads call id req w a p h in
        let (x', (j', is', y'), z', u') = begin_update_reads call' id req' a b p' h' in
        let read : p.rule ≡ old =
          ground (arith, eq_iff id j, serves.at_key id j w.rows old there) in
        let read' : p'.rule ≡ old =
          ground (arith, eq_iff id j', serves.at_key id j' w.rows old there) in
        let (f, l) = finish_update_writes p b c r k g in
        let (f', l') = finish_update_writes p' c d r' k g' in
        ground (arith, eq_iff id k, serves.at_key id k w.rows old there)
