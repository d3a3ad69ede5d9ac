-- ===== src/Tests/Providers.antt =====
-- The providers, and a breaker that never changes, over clients that answer the same to all.
use yeti.Base.{
  ℕ, suc, ◌≡◌, refl, String, true, none, some, [], ◌∷◌, arith, ◌==◌, eq_iff, if◌then◌else◌, ltb,
  inl, inr, ◌⊎◌,
}
use yeti.Base.Int.{pos}
use yeti.Model.Value.{text, Fields, no_fields, field}
use yeti.Errors.Chain.{Err, plain}
use yeti.Errors.Result.{Result, ok, err}
use yeti.Breaker.{Floats, CircuitBreakerConfig, Gobreaker, Behaves, Phase}
use yeti.Enrichment.Types
use yeti.Base.Dict.{lookup}
use yeti.Providers.Query.{Query, convert_source_config}
use yeti.Providers.Sources.{Texts}
use yeti.Providers.Database.{Documents, mongo_filter, mongo_fetch}
use yeti.Providers.Lookup.{mongo_fetch_ignores_value}
use yeti.Providers.Guarded.{
  Clients, DataProvider, new_providers, wrap_with_circuit_breaker, breaker_fetch,
  new_providers_isolated,
}
use yeti.RateLimit.{Rate, answers, alone, answers-alone}
use yeti.Tests.Fixtures.{live}

abbrev pub texts : Texts
texts = record {
  replace_all = λ s old new. if s == old then new else s;
  show = λ v. elim v [ text s ↦ s | _ ↦ "a value" ];
  show_nat = λ n. "1";
}

abbrev source : Types.SourceConfig
source = record {
  url = "users";
  method = "GET";
  headers = [];
  timeout_ms = pos 0;
  retry_count = pos 0;
  database = "shop";
  collection = "users";
  query = some (field "_id" (text "{value}") no_fields);
  field_name = "";
  key_pattern = "";
  cache_type = "";
}

abbrev no_documents : Documents
no_documents = record { State = Unit; find_one = λ db collection filter u. (ok none, u) }

mongo_fetch_ignores_value_example :
    (mongo_filter texts (convert_source_config source) (text "ann")
      ≡ mongo_filter texts (convert_source_config source) (text "bob"))
    × (mongo_fetch texts no_documents (convert_source_config source) (text "ann") tt
        ≡ mongo_fetch texts no_documents (convert_source_config source) (text "bob") tt)
mongo_fetch_ignores_value_example =
    mongo_fetch_ignores_value texts no_documents source (field "_id" (text "{value}") no_fields)
      (text "ann") (text "bob") tt refl

abbrev query : Query
query = record {
  filters = some (field "_id" (text "{value}") no_fields);
  sort = none;
  limit = some (pos 1);
  offset = none;
}

abbrev profile : Fields
profile = field "city" (text "Oslo") no_fields

abbrev pub floats : Floats
floats = record {
  Float = ℕ;
  divide = λ a b. a;
  ge = λ a b. ltb b (suc a);
  is_positive = λ a. ltb 0 a;
  half = 1;
}

abbrev pub settings : CircuitBreakerConfig floats
settings = record {
  enabled = true;
  max_requests = 1;
  interval = pos 0;
  timeout = pos 5;
  failure_ratio = 0;
  min_requests = 0;
}

abbrev run : {A W : Type 0} → (W → Result A × W) → W → Phase → (Result A × W) × Phase
run f w Phase.open_phase = ((err (plain "circuit breaker is open"), w), Phase.open_phase)
run f w Phase.closed = (f w, Phase.closed)
run f w Phase.half_open = (f w, Phase.half_open)

abbrev pub fixed : Gobreaker
fixed = record { State = Phase; start = λ c. Phase.closed; phase = λ b. b; execute = run }

fixed_runs :
    {A W : Type 0} (f : W → Result A × W) (w : W) (b : Phase)
    → ((run f w b).0 ≡ f w) ⊎ ((e : Err) × ((run f w b).0 ≡ (err e, w)))
fixed_runs f w Phase.open_phase = inr (plain "circuit breaker is open", refl)
fixed_runs f w Phase.closed = inl refl
fixed_runs f w Phase.half_open = inl refl

fixed_rejects :
    {A W : Type 0} (f : W → Result A × W) (w : W) (b : Phase)
    → b ≡ Phase.open_phase
    → (e : Err) × ((run f w b).0 ≡ (err e, w))
fixed_rejects f w b h = (plain "circuit breaker is open", rw h refl)

pub fixed-Behaves : Behaves fixed
fixed-Behaves = record { runs_or_rejects = fixed_runs; open_rejects = fixed_rejects }

abbrev users : DataProvider ℕ
users config v n = (ok profile, suc n)

abbrev clients : Clients ℕ
clients = record { api = users; cache = none; mongo = none; postgres = none }

abbrev all_closed : String → Phase
all_closed name = Phase.closed

new_providers_isolated_example :
    ((breaker_fetch floats fixed ℕ "api" live users)
        (convert_source_config source)
        (text "ann")
        (0, all_closed)).1.1
      "cache"
    ≡ Phase.closed
unfolding new_providers wrap_with_circuit_breaker
new_providers_isolated_example =
    new_providers_isolated floats fixed ℕ (some settings) live clients "api" "cache"
      (breaker_fetch floats fixed ℕ "api" live users) (convert_source_config source) (text "ann") 0
      all_closed refl (λ h. absurd (ground (arith, eq_iff "cache" "api", h)))

-- Two requests are let through.
abbrev rate : Rate
rate = record { State = ℕ; start = 0; allow = λ now n. (ltb n 2, suc n) }

answers-alone_example :
    answers rate "a" (("a", 1) ∷ (("b", 1) ∷ (("a", 2) ∷ (("a", 3) ∷ [])))) []
    ≡ alone rate 0 (1 ∷ (2 ∷ (3 ∷ [])))
unfolding lookup
answers-alone_example =
    answers-alone rate "a" (("a", 1) ∷ (("b", 1) ∷ (("a", 2) ∷ (("a", 3) ∷ [])))) []
