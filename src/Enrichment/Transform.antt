-- ===== src/Enrichment/Transform.antt =====
-- `applyTransformations`: the fields that a rule adds to the metadata of a message.
use yeti.Base.{
  Option-cases, inl, inr, String, ◌≡◌, false, Option, none, some, List, [], ◌∷◌, arith, ◌==◌,
  eq_iff, if◌then◌else◌,
}
use yeti.Base.Lists.{All}
use yeti.Model.Value.{Value, object, Fields, insert, lookup, lookup-insert}
use yeti.Model.Message.{MessageEnvelope, made, lookup_nil}
use yeti.Errors.Chain.{Err}
use yeti.Errors.Result.{Result, ok, err, ◌>>=◌, wrap_err, Context, Result-cases}
use yeti.Cel.{CelLib, new_evaluator, evaluate_transform}
use yeti.Enrichment.Types.{Transformation, Rule, Service, is_null}

unfoldable pub get_source_field_value : String → Fields → Option Value
get_source_field_value path source_data =
    if path == "." then some (object source_data) else lookup path source_data

-- `msg.Metadata.Enrichment[name] = v`; the map was made before the first rule.
unfoldable pub put : String → Value → MessageEnvelope → MessageEnvelope
put name v msg = record msg {
  metadata = record (msg.metadata) {
    enrichment = some (insert name v (made msg.metadata.enrichment));
  };
}

abbrev put_unless_null : String → Value → MessageEnvelope → MessageEnvelope
unfolding put
put_unless_null name v msg = if is_null v then msg else put name v msg

-- The two messages agree but for the enrichment.
abbrev pub SameBut : MessageEnvelope → MessageEnvelope → Type 0
SameBut m n =
    (m.id ≡ n.id)
    × (m.source ≡ n.source)
    × (m.timestamp ≡ n.timestamp)
    × (m.payload ≡ n.payload)
    × (m.metadata.trace_id ≡ n.metadata.trace_id)
    × (m.metadata.filters_applied ≡ n.metadata.filters_applied)
    × (m.metadata.deduplication ≡ n.metadata.deduplication)

module _ (lib : CelLib) (s : Service lib) (ctx : Context) where
  abbrev ready : Result (Unit {0})
  ready = elim s.evaluator [
    | some env ↦ ok tt
    | none ↦ elim (wrap_err "failed to create CEL evaluator" (new_evaluator lib)) [
      | ok env ↦ ok tt
      | err e ↦ err e
    ]
  ]

  unfoldable pub transform_value : Value → Transformation → MessageEnvelope → Fields → Result Value
  transform_value field_value trans msg source_data =
      if trans.expression == ""
      then ok field_value
      else (ready >>= λ _.
          wrap_err "CEL transformation failed"
            (evaluate_transform lib ctx trans.expression msg source_data))

  -- One round of the loop: the message to go on with, or `none` for the `return` in the loop.
  unfoldable pub apply_transformation :
      Rule → Fields → Transformation → MessageEnvelope → Option MessageEnvelope
  unfolding put_unless_null get_source_field_value
  apply_transformation rule source_data t msg =
      elim (get_source_field_value t.source_path source_data) [
        | none ↦ some (put_unless_null t.target_field t.default msg)
        | some v ↦ elim (transform_value v t msg source_data) [
          | ok w ↦ some (put_unless_null t.target_field w msg)
          | err e ↦
              if rule.error_handling == "fail"
              then none
              else if rule.error_handling == "skip_field"
              then some (put_unless_null t.target_field t.default msg)
              else none
        ]
      ]

  -- The loop over the transformations.
  unfoldable pub apply_each :
      Rule → Fields → List Transformation → MessageEnvelope → MessageEnvelope
  apply_each rule source_data [] msg = msg
  apply_each rule source_data (t ∷ l) msg = elim (apply_transformation rule source_data t msg) [
    | none ↦ msg
    | some m ↦ apply_each rule source_data l m
  ]

  unfoldable pub apply_transformations : Rule → Fields → MessageEnvelope → MessageEnvelope
  unfolding apply_each
  apply_transformations rule source_data msg = apply_each rule source_data rule.transformations msg

  put_frame :
      (name k : String) (v : Value) (msg : MessageEnvelope)
      → (name == k) ≡ false
      → SameBut (put_unless_null name v msg) msg
        × (lookup_nil k (put_unless_null name v msg).metadata.enrichment
            ≡ lookup_nil k msg.metadata.enrichment)
  unfolding put lookup
  put_frame name k v msg h = ground (arith, lookup-insert name k v (made msg.metadata.enrichment))

  step_frame :
      (rule : Rule) (d : Fields) (t : Transformation) (msg m : MessageEnvelope) (k : String)
      → apply_transformation rule d t msg ≡ some m
      → (t.target_field == k) ≡ false
      → SameBut m msg × (lookup_nil k m.metadata.enrichment ≡ lookup_nil k msg.metadata.enrichment)
  unfolding apply_transformation
  step_frame rule d t msg m k h n = elim (Option-cases (get_source_field_value t.source_path d)) [
    | inl missing ↦ ground (arith, put_frame t.target_field k t.default msg n)
    | inr (v, found) ↦ elim (Result-cases (transform_value v t msg d)) [
      | inl (w, made_w) ↦ ground (arith, put_frame t.target_field k w msg n)
      | inr (e, failed) ↦ ground (arith, put_frame t.target_field k t.default msg n)
    ]
  ]

  -- Whatever the rule, its source data and its expressions are, the transformations change nothing of
  -- the message but its enrichment, and there only fields that some transformation has as target.
  pub apply_each_frame :
      (rule : Rule) (d : Fields) (l : List Transformation) (msg : MessageEnvelope) (k : String)
      → All (λ t. (t.target_field == k) ≡ false) l
      → SameBut (apply_each rule d l msg) msg
        × (lookup_nil k (apply_each rule d l msg).metadata.enrichment
            ≡ lookup_nil k msg.metadata.enrichment)
  unfolding apply_each
  apply_each_frame rule d [] msg k h = ground arith
  apply_each_frame rule d (t ∷ l) msg k (n, h) =
      elim (Option-cases (apply_transformation rule d t msg)) [
        | inl stop ↦ ground arith
        | inr (m, on) ↦
            ground (arith, step_frame rule d t msg m k on n, apply_each_frame rule d l m k h)
      ]

  -- Of a rule with "fail", as of one that skips, a transformation that errs ends only the rule's own
  -- transformations: the fields put before stay, and no error leaves the rule. With "skip_field" the
  -- loop goes on behind the field, for which the default is put unless it is nil.
  pub apply_each_error :
      (rule : Rule) (d : Fields) (t : Transformation) (l : List Transformation)
      (msg : MessageEnvelope) {v : Value} {e : Err}
      → get_source_field_value t.source_path d ≡ some v
      → transform_value v t msg d ≡ err e
      → apply_each rule d (t ∷ l) msg ≡ (
          if rule.error_handling == "skip_field"
          then apply_each rule d l
              (if is_null t.default then msg else put t.target_field t.default msg)
          else msg)
  unfolding apply_each apply_transformation
  apply_each_error rule d t l msg h f = ground (
    arith,
    eq_iff rule.error_handling "fail",
    eq_iff rule.error_handling "skip_field",
    eq_iff "fail" "skip_field",
  )

  pub apply_transformations_frame :
      (rule : Rule) (d : Fields) (msg : MessageEnvelope) (k : String)
      → All (λ t. (t.target_field == k) ≡ false) rule.transformations
      → SameBut (apply_transformations rule d msg) msg
        × (lookup_nil k (apply_transformations rule d msg).metadata.enrichment
            ≡ lookup_nil k msg.metadata.enrichment)
  unfolding apply_transformations
  apply_transformations_frame rule d msg k h = apply_each_frame rule d rule.transformations msg k h
