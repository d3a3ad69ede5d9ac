-- ===== src/Tests/Enrichment.antt =====
-- The enrichment service, with a cache that keeps one entry and a provider that counts its calls.
use yeti.Base.{
  ℕ, suc, ◌≡◌, refl, String, true, false, Option, none, some, List, [], ◌∷◌, arith, ◌==◌,
  if◌then◌else◌, eq_refl, eq_iff, ◌≢◌, inl,
}
use yeti.Base.Int.{ℤ, pos}
use yeti.Model.Value.{Value, null, text, Fields, no_fields, field}
use yeti.Model.Message.{lookup_nil}
use yeti.Errors.Chain.{plain}
use yeti.Errors.Result.{Result, ok, err}
use yeti.Cel.{filter_variables}
use yeti.Enrichment.Types.{SourceConfig, Transformation, Rule, World, Service}
use yeti.Enrichment.Keys.{fetch_source_data_apart}
use yeti.Enrichment.Fetch.{
  cache_key, fetch_from_provider, fetch_source_data, resolve_provider_name, fetch_source_data_again,
}
use yeti.Enrichment.Transform.{SameBut}
use yeti.Enrichment.Process.{process, process_frame}
use yeti.Tests.Fixtures.{words, live, order}

-- The entry of the cache, and the number of calls of the provider.
abbrev pub State : Type 0
State = Option (String × String) × ℕ

unfoldable pub get : String → State → Option String × State
get key (none, n) = (none, (none, n))
get key (some (k, v), n) = (if k == key then some v else none, (some (k, v), n))

abbrev set : String → String → ℤ → State → State
set key v ttl (entry, n) = (some (key, v), n)

abbrev pub profile : Fields
profile = field "city" (text "Oslo") no_fields

-- The provider knows everyone but "bob".
abbrev users : SourceConfig → Value → State → Result Fields × State
users c (text s) (entry, n) =
    (if s == "bob" then err (plain "no such user") else ok profile, (entry, suc n))
users c v (entry, n) = (err (plain "no text"), (entry, suc n))

abbrev show : Value → String
show (text s) = s
show v = "a value"

abbrev pub world : World
world = record {
  State = State;
  cache_get = get;
  cache_set = set;
  marshal = λ d. some "profile";
  unmarshal = λ s. ok profile;
  show = show;
  describe = λ e. "failed";
  providers = λ name. if name == "api" then some users else none;
}

abbrev source : SourceConfig
source = record {
  url = "http://users";
  method = "GET";
  headers = [];
  timeout_ms = pos 100;
  retry_count = pos 0;
  database = "";
  collection = "";
  query = none;
  field_name = "";
  key_pattern = "";
  cache_type = "";
}

abbrev city : String → Transformation
city expression = record {
  source_path = "city";
  target_field = "city";
  expression = expression;
  default = text "?";
}

abbrev pub rule : String → Value → String → Rule
rule error_handling fallback expression = record {
  id = "r";
  name = "users";
  field_to_enrich = "user";
  source_type = "api";
  source_config = source;
  transformations = city expression ∷ [];
  cache_ttl_seconds = pos 60;
  error_handling = error_handling;
  fallback_value = fallback;
  priority = pos 1;
  enabled = true;
  created_at = 1;
  updated_at = 1;
}

abbrev service : List Rule → Service words
service rules = record { rules = rules; evaluator = some filter_variables }

get-set :
    (key v : String) (ttl : ℤ) (s : State) → get key (set key v ttl s) ≡ (some v, set key v ttl s)
unfolding get
get-set key v ttl (entry, n) = ground (arith, eq_refl key)

fetch_source_data_again_example :
    let first = fetch_source_data world (rule "fail" null "") (text "ann") (none, 0) in
    (first.0 ≡ ok (profile, false))
    × (fetch_source_data world (rule "fail" null "") (text "ann") first.1
        ≡ (ok (profile, true), first.1))
unfolding get resolve_provider_name
fetch_source_data_again_example =
    fetch_source_data_again world (rule "fail" null "") (text "ann") (none, 0) (none, 0) (none, 1)
      {d = profile} {bytes = "profile"} {fetch = users} refl refl refl refl refl get-set

set_apart :
    (key key' v : String) (ttl : ℤ) (s : State)
    → key ≢ key'
    → (get key' s).0 ≡ none
    → (get key' (set key v ttl s)).0 ≡ none
unfolding get
set_apart key key' v ttl (entry, n) apart absent = ground (arith, eq_iff key key')

-- The same rule under another ID.
abbrev other_rule : Rule
other_rule = record (rule "fail" null "") { id = "s" }

r_is_not_s : ◌≢◌ {A = String} "r" "s"
r_is_not_s h = absurd (ground (arith, eq_iff "r" "s"))

fetch_source_data_apart_example :
    let (first, later) = fetch_source_data world (rule "fail" null "") (text "ann") (none, 0) in
    (first ≡ ok (profile, false))
    × (fetch_source_data world other_rule (text "ann") later
        ≡ fetch_from_provider world other_rule
            (text "ann")
            (cache_key world other_rule (text "ann"))
            (get (cache_key world other_rule (text "ann")) later).1)
unfolding get resolve_provider_name
fetch_source_data_apart_example =
    fetch_source_data_apart world (rule "fail" null "") other_rule (text "ann") (text "ann")
      (none, 0) (none, 0) (none, 1) {d = profile} {fetch = users} refl (inl r_is_not_s) refl refl
      refl refl set_apart

process_frame_example :
    SameBut
      (process words world (service (rule "fail" null "" ∷ [])) live order (none, 0)).0.msg
      order
    × (lookup_nil "name"
          (process words world
            (service (rule "fail" null "" ∷ []))
            live
            order
            (none, 0)).0.msg.metadata.enrichment
        ≡ lookup_nil "name" order.metadata.enrichment)
process_frame_example =
    process_frame words world (service (rule "fail" null "" ∷ [])) live order (none, 0) "name"
      ((refl, tt), tt)
