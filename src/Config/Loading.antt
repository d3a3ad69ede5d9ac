-- ===== src/Config/Loading.antt =====
-- When the loading answers with settings, and what the environment's brokers do to it.
use yeti.Base.{
  String, ◌≡◌, ◌≢◌, ◌↔◌, sym, ap, ◌∙◌, false, none, List, [], ◌∷◌, map, ◌==◌, arith, Option-cases,
  inl, inr, eq_iff,
}
use mathlib.Core.Path.{subst}
use yeti.Base.Lists.{All}
use yeti.Errors.Result.{ok, Result-cases}
use yeti.Config.Types.{GoLib, BrokerConfig, Config}
use yeti.Config.Validator.{ValidationError, validate_static}
use yeti.Config.Accepts.{ValidBroker, IsValid, validate_static_iff}
use yeti.Config.Loader.{
  Viper, Strings, set_brokers, override_brokers, override_endpoint, apply_env_overrides, answer,
  validated, load_config,
}

module _ (lib : GoLib) (viper : Viper) (strings : Strings) where
  answer-ok :
      (c d : Config) (es : List ValidationError)
      → (answer strings c es ≡ ok d) ↔ ((es ≡ []) × (c ≡ d))
  answer-ok c d [] = ground arith
  answer-ok c d (e ∷ es) = ground arith

  -- Viper reads the file, the settings are the overridden ones, and they are valid.
  abbrev pub Loads : String → Config → Config → Type 0
  Loads file raw cfg =
      (viper.read_in_config file ≡ none)
      × (viper.unmarshal file ≡ ok raw)
      × (apply_env_overrides viper strings raw ≡ cfg)
      × IsValid lib cfg

  load_config-valid :
      (file : String) (raw cfg : Config)
      → Loads file raw cfg
      → load_config lib viper strings file ≡ ok cfg
  unfolding load_config validated
  load_config-valid file raw cfg (r, u, a, v) =
      let clean = (validate_static_iff lib cfg).1 v in ground (arith, clean)

  load_config-ok :
      (file : String) (cfg : Config)
      → load_config lib viper strings file ≡ ok cfg
      → (raw : Config) × Loads file raw cfg
  unfolding load_config validated
  load_config-ok file cfg h = elim (Option-cases (viper.read_in_config file)) [
    | inr (e, failed) ↦ absurd (ground arith)
    | inl present ↦ elim (Result-cases (viper.unmarshal file)) [
      | inr (e, failed) ↦ absurd (ground arith)
      | inl (raw, read) ↦
          let over = apply_env_overrides viper strings raw in
          let (clean, same) = (answer-ok over cfg (validate_static lib over)).0 (ground arith) in
          let valid =
            (validate_static_iff lib cfg).0 (ap (validate_static lib) (sym same) ∙ clean) in
          (raw, (present, read, same, valid))
    ]
  ]

  -- Loading a file answers with settings exactly when viper reads the file and decodes it, and the
  -- decoded settings, with the environment's brokers and tracing endpoint put over them, are these
  -- settings and are valid: nothing that is loaded escaped the validation, and the validation saw the
  -- overridden settings.
  pub load_config_iff :
      (file : String) (cfg : Config)
      → (load_config lib viper strings file ≡ ok cfg) ↔ ((raw : Config) × Loads file raw cfg)
  load_config_iff file cfg =
      (load_config-ok file cfg, λ (raw, loads). load_config-valid file raw cfg loads)

  set_brokers-lem :
      (broker : String) (brokers : List String) (c : Config)
      → broker ≢ ""
      → (set_brokers (broker ∷ brokers) c).broker.kafka.brokers ≡ broker ∷ brokers
  unfolding set_brokers
  set_brokers-lem broker brokers c h = ground (arith, eq_iff broker "")

  -- The endpoint's override leaves the broker's settings.
  broker-override_endpoint : (c : Config) → (override_endpoint viper c).broker ≡ c.broker
  unfolding override_endpoint
  broker-override_endpoint c = ground arith

  brokers-override_brokers :
      (c : Config) (broker : String) (brokers : List String)
      → viper.get_string "BROKER_KAFKA_BROKERS" ≢ ""
      → map strings.trim_space (strings.split (viper.get_string "BROKER_KAFKA_BROKERS") ",")
        ≡ broker ∷ brokers
      → broker ≢ ""
      → (override_brokers viper strings c).broker.kafka.brokers ≡ broker ∷ brokers
  unfolding override_brokers
  brokers-override_brokers c broker brokers given entries first = ground (
    arith,
    eq_iff (viper.get_string "BROKER_KAFKA_BROKERS") "",
    set_brokers-lem broker brokers c first,
  )

  filled-ValidBroker :
      (c : BrokerConfig) (brokers : List String)
      → c.kafka.brokers ≡ brokers
      → ValidBroker c
      → c.type_name ≡ "kafka"
      → All (λ b. (b == "") ≡ false) brokers
  filled-ValidBroker c brokers same (inl (kafka, (used, filled, group, waits))) named =
      subst (λ bs. All (λ b. (b == "") ≡ false) bs) same filled
  filled-ValidBroker c brokers same (inr (rabbitmq, valid)) named =
      absurd (ground (arith, eq_iff "rabbitmq" "kafka"))

  -- Where the environment names brokers, and the first of them is not blank, the settings that are
  -- loaded hold exactly these brokers in their order, without the spaces around them; and where the
  -- broker is kafka, no broker of the environment is blank: an empty entry after the first, as a comma
  -- at the end leaves one, makes the loading fail.
  pub load_config_brokers :
      (file : String) (cfg : Config) (broker : String) (brokers : List String)
      → viper.get_string "BROKER_KAFKA_BROKERS" ≢ ""
      → map strings.trim_space (strings.split (viper.get_string "BROKER_KAFKA_BROKERS") ",")
        ≡ broker ∷ brokers
      → broker ≢ ""
      → load_config lib viper strings file ≡ ok cfg
      → (cfg.broker.kafka.brokers ≡ broker ∷ brokers)
        × (cfg.broker.type_name ≡ "kafka" → All (λ b. (b == "") ≡ false) (broker ∷ brokers))
  unfolding apply_env_overrides
  load_config_brokers file cfg broker brokers given entries first h =
      let (raw, (present, read, same, valid)) = load_config-ok file cfg h in
      let brokers_set = brokers-override_brokers raw broker brokers given entries first in
      let named =
        ap (λ c. c.broker.kafka.brokers) (sym same)
        ∙ ap (λ b. b.kafka.brokers) (broker-override_endpoint (override_brokers viper strings raw))
        ∙ brokers_set in
      (named, λ kafka. filled-ValidBroker cfg.broker (broker ∷ brokers) named valid.1 kafka)
