-- ===== src/Management/Numbering.antt =====
-- The numbers of a rule's versions: `GetNextVersion` and `CreateVersion` over the table rule_versions of
-- migrations/postgres/001_init_schema.up.sql.
pub mod Methods
pub mod Numbered
use yeti.Base.{
  ap, ◌∙◌, ℕ, suc, String, ◌≡◌, refl, Bool, true, false, ◌||◌, nat_eq, ltb, none, some, List, [],
  ◌∷◌, arith, ◌==◌, if◌then◌else◌, ◌⊎◌, inl, inr, Option, Option-cases, text-cases, sym, Bool-cases,
  ◌&&◌,
}
use mathlib.Core.Path.{subst}
use yeti.Base.Lists.{length}
use yeti.Errors.Chain.{Err}
use yeti.Errors.Result.{Result, ok, err, Result-cases}
use yeti.Cel.{CelLib}
use yeti.Model.Value.{Fields}
use yeti.Management.Notifier.{Json}
use yeti.Management.Store.{
  Database, Collection, Codec, Call, World, FilteringRule, RuleVersion, AuditLog,
}
use yeti.Management.Versioning
use yeti.Management.Service.{
  Service, create_version_and_audit, publish_config_event, build_version, build_audit_log,
}
use yeti.Management.FilteringRules.{announced}

abbrev pub largest : List ℕ → ℕ
largest [] = 0
largest (n ∷ l) = if ltb (largest l) n then n else largest l

abbrev pub has : ℕ → List ℕ → Bool
has n [] = false
has n (m ∷ l) = nat_eq n m || has n l

-- What SQL says of the statements, where `numbers` is the numbers of the versions of a rule, the latest
-- first: MAX + 1 is the next number; (rule_id, version) is unique; the versions of a rule go with it, and
-- a statement that fails changes nothing. A query may fail.
pub record Keeps (db : Database) (numbers : Database.State db → String → List ℕ) : Type 0 where
  pub next_is :
      (id : String) (st : db.State) (n : ℕ)
      → db.next_version id st ≡ ok n
      → n ≡ suc (largest (numbers st id))
  pub unique :
      (v : RuleVersion) (st st' : db.State)
      → db.insert_version v st ≡ (none, st')
      → has v.version (numbers st v.rule_id) ≡ false
  pub stored :
      (v : RuleVersion) (st st' : db.State) (k : String)
      → db.insert_version v st ≡ (none, st')
      → numbers st' k ≡ (if v.rule_id == k then v.version ∷ numbers st k else numbers st k)
  pub refused :
      (v : RuleVersion) (st st' : db.State) (e : Err) (k : String)
      → db.insert_version v st ≡ (some e, st')
      → numbers st' k ≡ numbers st k
  pub insert_apart :
      (r : FilteringRule) (st : db.State) (k : String)
      → numbers (db.insert_rule r st).1 k ≡ numbers st k
  pub update_apart :
      (r : FilteringRule) (st : db.State) (k : String)
      → numbers (db.update_rule r st).1 k ≡ numbers st k
  pub delete_cascades :
      (id : String) (st : db.State) (k : String)
      → (numbers (db.delete_rule id st).1 k ≡ numbers st k)
        ⊎ (numbers (db.delete_rule id st).1 k ≡ [])
  pub log_apart :
      (l : AuditLog) (st : db.State) (k : String) → numbers (db.insert_log l st).1 k ≡ numbers st k

-- The numbers n, …, 2, 1.
abbrev pub IsConsecutive : List ℕ → Type 0
IsConsecutive [] = Unit
IsConsecutive (n ∷ l) = (n ≡ suc (length l)) × IsConsecutive l

pub IsConsecutive-of : {l l' : List ℕ} → l' ≡ l → IsConsecutive l → IsConsecutive l'
IsConsecutive-of same h = subst IsConsecutive (sym same) h

largest-length : (l : List ℕ) → IsConsecutive l → largest l ≡ length l
largest-length [] h = refl
largest-length (n ∷ l) (first, rest) = ground (arith, largest-length l rest)

has_one : (n : ℕ) (l : List ℕ) → IsConsecutive (n ∷ l) → has 1 (n ∷ l) ≡ true
has_one n [] (first, rest) = ground arith
has_one n (m ∷ l) (first, rest) = ground (arith, has_one m l rest)

-- A number that is not there, and that is the next or 1, goes on.
IsConsecutive-next :
    (n : ℕ) (l : List ℕ)
    → IsConsecutive l
    → has n l ≡ false
    → (n ≡ suc (largest l)) ⊎ (n ≡ 1)
    → IsConsecutive (n ∷ l)
IsConsecutive-next n [] h new is = ground arith
IsConsecutive-next n (m ∷ l) h new (inl is) = (is ∙ ap suc (largest-length (m ∷ l) h), h)
IsConsecutive-next n (m ∷ l) h new (inr is) = absurd (ground (arith, has_one m l h))

module _ (lib : CelLib) (show_nat : ℕ → String) (db : Database) (mongo : Collection) (codec : Codec)
    (json : Json) (s : Service) (numbers : Database.State db → String → List ℕ)
    (keeps : Keeps db numbers) where
  -- The versions of each rule are numbered from 1 on, without a gap.
  abbrev pub IsNumbered : World db mongo → Type 0
  IsNumbered w = (k : String) → IsConsecutive (numbers w.rows k)

  -- The next number is one more than the largest, or 1.
  next_version_cases :
      (id : String) (w : World db mongo)
      → let n = Versioning.get_next_version db mongo id w in
        (n ≡ suc (largest (numbers w.rows id))) ⊎ (n ≡ 1)
  unfolding Versioning.get_next_version
  next_version_cases id w = elim (Result-cases (db.next_version id w.rows)) [
    | inl (n, answered) ↦ inl (ground (arith, keeps.next_is id w.rows n))
    | inr (e, failed) ↦ inr (ground arith)
  ]

  IsNumbered-create_version :
      (call : Call) (r : FilteringRule) (rule_json : String) (w : World db mongo)
      → IsNumbered w
      → IsNumbered
          (Versioning.create_version db mongo call
            (build_version db mongo codec json call r rule_json w)
            w).1
  unfolding Versioning.create_version build_version
  IsNumbered-create_version call r rule_json w h k =
      let v =
        Versioning.stamped_version db mongo call
          (build_version db mongo codec json call r rule_json w) in
      let (failure, rows) = db.insert_version v w.rows in
      let n = Versioning.get_next_version db mongo r.id w in
      elim (Option-cases failure) [
        | inr (e, failed) ↦ IsConsecutive-of (keeps.refused v w.rows rows e k (ground arith)) (h k)
        | inl taken ↦ elim (text-cases r.id k) [
          | inr (apart, differ) ↦
              IsConsecutive-of (ground (arith, keeps.stored v w.rows rows k)) (h k)
          | inl (same, p) ↦
              let now : numbers rows k ≡ n ∷ numbers w.rows k =
                ground (arith, keeps.stored v w.rows rows k) in
              IsConsecutive-of now (
                subst (λ j. IsConsecutive (n ∷ numbers w.rows j)) p
                  (IsConsecutive-next n (numbers w.rows r.id) (h r.id)
                    (keeps.unique v w.rows rows (ground arith)) (next_version_cases r.id w)))
        ]
      ]

  pub numbers-create_audit_log :
      (call : Call) (l : AuditLog) (w : World db mongo) (k : String)
      → numbers (Versioning.create_audit_log db mongo codec call l w).1.rows k ≡ numbers w.rows k
  unfolding Versioning.create_audit_log
  numbers-create_audit_log call l w k =
      let failure = Versioning.encode_failure db mongo codec in
      elim (Option-cases (failure "failed to marshal old value" l.old_value)) [
        | inr (e, failed) ↦ ground arith
        | inl old_encoded ↦
            elim (Option-cases (failure "failed to marshal new value" l.new_value)) [
              | inr (e, failed) ↦ ground arith
              | inl new_encoded ↦
                  ground (arith, keeps.log_apart (Versioning.stamped_log db mongo call l) w.rows k)
            ]
      ]

  pub IsNumbered-create_version_and_audit :
      (call : Call) (r : FilteringRule) (action : String) (old : Option Fields) (w : World db mongo)
      → IsNumbered w
      → IsNumbered (create_version_and_audit db mongo codec json s call r action old w)
  unfolding create_version_and_audit Versioning.rule_to_json
  IsNumbered-create_version_and_audit call r action old w h k =
      elim (Result-cases (codec.marshal (Versioning.rule_data r))) [
        | inr (e, failed) ↦ IsConsecutive-of (ground arith) (h k)
        | inl (rule_json, made) ↦
            let v = build_version db mongo codec json call r rule_json w in
            let w' = (Versioning.create_version db mongo call v w).1 in
            let numbered = IsNumbered-create_version call r rule_json w h k in
            elim (Bool-cases (s.audit_enabled && s.has_versioning_repo)) [
              | inr off ↦ IsConsecutive-of (ground arith) (h k)
              | inl on ↦ elim (Result-cases (codec.rule_to_map r)) [
                | inr (e, failed) ↦ IsConsecutive-of {l = numbers w'.rows k} (ground arith) numbered
                | inl (d, encoded) ↦
                    IsConsecutive-of {l = numbers w'.rows k}
                      (ground (
                        arith,
                        numbers-create_audit_log call
                            (build_audit_log db mongo codec json call r.id "filtering" action old
                              (some d))
                            w' k,
                      ))
                      numbered
              ]
            ]
      ]
