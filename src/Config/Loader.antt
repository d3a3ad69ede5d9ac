-- ===== src/Config/Loader.antt =====
-- internal/config/loader.go. Viper, which holds the file's settings and reads the environment, is a
-- parameter, and so are the functions on strings and the text of the validation's error. What
-- `bindEnvVariables` asks of viper is part of what `unmarshal` and `get_string` answer.
use yeti.Base.{String, not, Option, none, some, List, [], ◌∷◌, map, ◌==◌, ◌<>◌, if◌then◌else◌}
use yeti.Errors.Chain.{Err}
use yeti.Errors.Result.{Result, ok, err, ◌>>=◌, wrap_err}
use yeti.Config.Types.{GoLib, Config}
use yeti.Config.Validator.{ValidationError, validate_static}

pub record Viper : Type 0 where
  -- `ReadInConfig` after `SetConfigFile`.
  pub read_in_config : String → Option Err
  -- `Unmarshal` of what was read from a file.
  pub unmarshal : String → Result Config
  pub get_string : String → String

pub record Strings : Type 0 where
  -- `split s separator`.
  pub split : String → String → List String
  pub trim_space : String → String
  -- `fmt.Errorf("configuration validation failed: %v", errors)`.
  pub errors_of : List ValidationError → Err

abbrev pub with_brokers : List String → Config → Config
with_brokers brokers cfg = record cfg {
  broker = record cfg.broker { kafka = record cfg.broker.kafka { brokers = brokers } };
}

abbrev pub with_endpoint : String → Config → Config
with_endpoint endpoint cfg =
    let otlp = record cfg.tracing.otlp { endpoint = endpoint } in
    record cfg { tracing = record cfg.tracing { otlp = otlp } }

-- The assignment under `len(brokers) > 0 && brokers[0] != ""`.
unfoldable pub set_brokers : List String → Config → Config
set_brokers [] cfg = cfg
set_brokers (broker ∷ brokers) cfg =
    if not (broker == "") then with_brokers (broker ∷ brokers) cfg else cfg

unfoldable pub override_brokers : Viper → Strings → Config → Config
override_brokers viper strings cfg =
    let brokers_env = viper.get_string "BROKER_KAFKA_BROKERS" in
    if not (brokers_env == "")
    then set_brokers (map strings.trim_space (strings.split brokers_env ",")) cfg
    else cfg

unfoldable pub override_endpoint : Viper → Config → Config
override_endpoint viper cfg =
    let otlp_endpoint = viper.get_string "TRACING_OTLP_ENDPOINT" in
    if not (otlp_endpoint == "") then with_endpoint otlp_endpoint cfg else cfg

-- It returns no error on any path.
unfoldable pub apply_env_overrides : Viper → Strings → Config → Config
apply_env_overrides viper strings cfg = override_endpoint viper (override_brokers viper strings cfg)

-- The error of `ValidateStatic` for the errors it collected, before the settings are returned.
abbrev pub answer : Strings → Config → List ValidationError → Result Config
answer strings cfg [] = ok cfg
answer strings cfg (e ∷ errors) = err (strings.errors_of (e ∷ errors))

unfoldable pub validated : GoLib → Strings → Config → Result Config
validated lib strings cfg = answer strings cfg (validate_static lib cfg)

abbrev pub read : Option Err → Result {0} Unit
read none = ok tt
read (some e) = err e

unfoldable pub load_config : GoLib → Viper → Strings → String → Result Config
load_config lib viper strings file =
    wrap_err ("failed to read config file " <> file) (read (viper.read_in_config file)) >>= λ _.
    wrap_err "failed to unmarshal config" (viper.unmarshal file) >>= λ cfg.
    wrap_err "configuration validation failed"
      (validated lib strings (apply_env_overrides viper strings cfg))
