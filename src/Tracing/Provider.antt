-- ===== src/Tracing/Provider.antt =====
-- pkg/tracing/tracing.go. The SDK of OpenTelemetry, which makes resources, exporters and providers, is
-- a parameter, and so is the context whose five seconds the exporter has.
use yeti.Base.{ℕ, String, ◌≡◌, not, Option, none, some, List, [], ◌∷◌, arith, ◌==◌, if◌then◌else◌}
use yeti.Errors.Result.{Result, ok, ◌>>=◌, wrap_err}
use yeti.Config.Types.{TracingConfig, SamplerConfig}

pub data Sampler : Type 0 where
  always_sample never_sample : Sampler
  trace_id_ratio_based : ℕ → Sampler
  parent_based : Sampler → Sampler

unfoldable pub create_sampler : SamplerConfig → Sampler
create_sampler cfg =
    if cfg.type_name == "always_off"
    then never_sample
    else if cfg.type_name == "traceidratio"
    then trace_id_ratio_based cfg.param
    else if cfg.type_name == "parentbased_always_on"
    then parent_based always_sample
    else if cfg.type_name == "parentbased_traceidratio"
    then parent_based (trace_id_ratio_based cfg.param)
    else always_sample

pub data ExporterOption : Type 0 where
  with_endpoint : String → ExporterOption
  with_insecure : ExporterOption

-- `plain_provider` is `NewTracerProvider` without options. `global` of an `Init` is the provider that
-- `otel.SetTracerProvider` makes the program's, with the propagator of trace contexts and baggage.
pub record Sdk : Type 1 where
  pub Resource : Type 0
  pub Exporter : Type 0
  pub Provider : Type 0
  pub new_resource : String → Result Resource
  pub new_exporter : List ExporterOption → Result Exporter
  pub plain_provider : Provider
  pub new_provider : Exporter → Resource → Sampler → Provider

module _ (sdk : Sdk) where
  pub record Tracing : Type 0 where
    pub provider : Sdk.Provider sdk
    pub global : Option (Sdk.Provider sdk)

  unfoldable pub service_name_or : String → String → String
  service_name_or configured name =
      let given = if name == "" then configured else name in
      if given == "" then "yeti-service" else given

  unfoldable pub exporter_options : TracingConfig → List ExporterOption
  exporter_options cfg =
      with_endpoint cfg.otlp.endpoint ∷ (if cfg.otlp.insecure then with_insecure ∷ [] else [])

  unfoldable pub init : TracingConfig → String → Result Tracing
  init cfg service_name =
      if not cfg.enabled
      then ok (record { provider = sdk.plain_provider; global = none })
      else wrap_err "failed to create resource"
          (sdk.new_resource (service_name_or cfg.service_name service_name))
        >>= λ res.
            wrap_err "failed to create OTLP exporter" (sdk.new_exporter (exporter_options cfg))
            >>= λ exporter.
                let provider = sdk.new_provider exporter res (create_sampler cfg.sampler) in
                ok (record { provider = provider; global = some provider })

  -- Tracing that is disabled always starts, and installs no provider for the program; tracing that is
  -- enabled installs the provider that it answers.
  pub init_global :
      (cfg : TracingConfig) (service_name : String) (t : Tracing)
      → init cfg service_name ≡ ok t
      → t.global ≡ (if cfg.enabled then some t.provider else none)
  unfolding init
  init_global cfg service_name t h = ground arith
