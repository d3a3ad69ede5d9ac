-- ===== src/Management/Admits.antt =====
-- What the requests that the API admits are worth to the services that read the stored rules.
use yeti.Base.{
  ℕ, String, ◌≡◌, ◌≢◌, ◌↔◌, true, false, none, some, [], ◌∷◌, ◌==◌, eq_iff, arith, inl, inr,
}
use yeti.Errors.Result.{ok, is_err, Result-cases}
use yeti.Cel.{
  CelLib, new_evaluator, validate_expression, validate_filter_expression,
  validate_transform_expression,
}
use yeti.Enrichment.Types.{Transformation}
use yeti.Management.Requests.{CreateFilteringRuleRequest, UpdateEnrichmentRuleRequest}
use yeti.Management.Validator.{
  validate_filtering_rule, validate_transformations, validate_update_enrichment_rule,
}

module _ (lib : CelLib) (show_nat : ℕ → String) where
  -- A filtering rule is admitted exactly when it has a name, and an expression that the evaluator of
  -- the filtering service, when it can be created, admits as a filter.
  pub validate_filtering_rule_iff :
      (req : CreateFilteringRuleRequest)
      → (validate_filtering_rule lib show_nat req ≡ none) ↔ (
          (req.name ≢ "")
          × (req.expression ≢ "")
          × ((env : lib.Env) × (new_evaluator lib ≡ ok env)
              × (validate_filter_expression lib env req.expression ≡ none)))
  unfolding validate_filtering_rule
  validate_filtering_rule_iff req = elim (Result-cases (new_evaluator lib)) [
    | inl (env, made) ↦ ground (arith, eq_iff req.name "", eq_iff req.expression "")
    | inr (e, failed) ↦ ground (arith, eq_iff req.name "", eq_iff req.expression "")
  ]

  -- An update of an enrichment rule checks its expressions with the variables of filters: one that
  -- does not compile with these is refused there, although a new rule is admitted with it.
  pub validate_update_enrichment_rule_differs :
      (req : UpdateEnrichmentRuleRequest) (t : Transformation) (env : lib.Env)
      → new_evaluator lib ≡ ok env
      → req.transformations ≡ some (t ∷ [])
      → (t.expression == "") ≡ false
      → validate_transform_expression lib t.expression ≡ none
      → is_err (lib.compile env t.expression) ≡ true
      → (validate_transformations show_nat (validate_transform_expression lib) 0 (t ∷ []) ≡ none)
        × (validate_update_enrichment_rule lib show_nat req ≢ none)
  unfolding validate_update_enrichment_rule validate_transformations validate_expression
  validate_update_enrichment_rule_differs req t env made only written admitted unknown =
      elim (Result-cases (lib.compile env t.expression)) [
        | inl (ast, compiled) ↦ cc
        | inr (e, failed) ↦ ground (arith)
      ]
