-- ===== src/Providers/Query.antt =====
-- internal/enrichment/provider/query.go, result.go and types.go, and `convertSourceConfig` of
-- internal/enrichment/service.go.
use yeti.Base.{String, ◌≡◌, refl, Option, none, some, arith, Option-cases, inl, inr}
use yeti.Base.Int.{ℤ}
use yeti.Base.Dict.{Dict}
use yeti.Model.Value.{Value, int, object, Fields, no_fields, lookup, insert}
use yeti.Enrichment.Types

-- A map or a pointer that is nil is `none`.
pub record Query : Type 0 where
  pub filters : Option Fields
  pub sort : Option Fields
  pub limit : Option ℤ
  pub offset : Option ℤ

pub record SourceConfig : Type 0 where
  pub url : String
  pub method : String
  pub headers : Dict String
  pub timeout_ms : ℤ
  pub retry_count : ℤ
  pub database : String
  pub collection : String
  pub query : Option Query
  pub field_name : String
  pub key_pattern : String
  pub cache_type : String

abbrev pub put_map : String → Option Fields → Fields → Fields
put_map k none result = result
put_map k (some d) result = insert k (object d) result

abbrev pub put_int : String → Option ℤ → Fields → Fields
put_int k none result = result
put_int k (some i) result = insert k (int i) result

unfoldable pub query_to_map : Option Query → Fields
query_to_map none = no_fields
query_to_map (some q) =
    put_int "offset" q.offset
      (put_int "limit" q.limit (put_map "sort" q.sort (put_map "filters" q.filters no_fields)))

-- The assertions `v.(map[string]interface{})` and `v.(int)`.
abbrev as_map : Option Value → Option Fields
as_map none = none
as_map (some (object d)) = some d
as_map (some _) = none

abbrev as_int : Option Value → Option ℤ
as_int none = none
as_int (some (int i)) = some i
as_int (some _) = none

abbrev or_empty : Option Fields → Option Fields
or_empty none = some no_fields
or_empty (some d) = some d

unfoldable pub query_from_map : Option Fields → Query
query_from_map none = record { filters = some no_fields; sort = none; limit = none; offset = none }
query_from_map (some m) = record {
  filters = or_empty (as_map (lookup "filters" m));
  sort = as_map (lookup "sort" m);
  limit = as_int (lookup "limit" m);
  offset = as_int (lookup "offset" m);
}

abbrev converted_query : Option Fields → Option Query
converted_query none = none
converted_query (some m) = some (query_from_map (some m))

unfoldable pub convert_source_config : Types.SourceConfig → SourceConfig
convert_source_config cfg = record {
  url = cfg.url;
  method = cfg.method;
  headers = cfg.headers;
  timeout_ms = cfg.timeout_ms;
  retry_count = cfg.retry_count;
  database = cfg.database;
  collection = cfg.collection;
  query = converted_query cfg.query;
  field_name = cfg.field_name;
  key_pattern = cfg.key_pattern;
  cache_type = cfg.cache_type;
}

or_empty-cases : (o : Option Fields) → (d : Fields) × (or_empty o ≡ some d)
or_empty-cases none = (no_fields, refl)
or_empty-cases (some d) = (d, refl)

pub query_from_map-filters :
    (m : Fields) → (d : Fields) × ((query_from_map (some m)).filters ≡ some d)
unfolding query_from_map
query_from_map-filters m = or_empty-cases (as_map (lookup "filters" m))

-- `EnrichmentResult`: its map, `none` for a nil map; a nil pointer is `none` of an option of it.
abbrev pub EnrichmentResult : Type 0
EnrichmentResult = Option Fields

unfoldable pub result_to_map : Option EnrichmentResult → Option Fields
result_to_map none = some no_fields
result_to_map (some data_map) = data_map

unfoldable pub result_from_map : Option Fields → EnrichmentResult
result_from_map none = some no_fields
result_from_map (some m) = some m

unfoldable pub get_field : String → Option EnrichmentResult → Option Value
get_field name none = none
get_field name (some none) = none
get_field name (some (some data_map)) = lookup name data_map

-- A nil pointer gets a result of its own, which the caller does not see.
unfoldable pub set_field : String → Value → Option EnrichmentResult → Option EnrichmentResult
set_field name v none = none
set_field name v (some none) = some (some (insert name v no_fields))
set_field name v (some (some data_map)) = some (some (insert name v data_map))

-- A query that has filters, an empty map of them included, is read back from its map as it was: none
-- of its four parts is lost or taken for another.
pub query_from_map-query_to_map :
    (q : Query) (d : Fields)
    → q.filters ≡ some d
    → query_from_map (some (query_to_map (some q))) ≡ q
unfolding query_from_map query_to_map lookup insert
query_from_map-query_to_map q d h = elim (Option-cases q.sort) [
  | inl s ↦ elim (Option-cases q.limit) [
    | inl l ↦ elim (Option-cases q.offset) [ inl o ↦ ground arith | inr (n, o) ↦ ground arith ]
    | inr (m, l) ↦ elim (Option-cases q.offset) [ inl o ↦ ground arith | inr (n, o) ↦ ground arith ]
  ]
  | inr (t, s) ↦ elim (Option-cases q.limit) [
    | inl l ↦ elim (Option-cases q.offset) [ inl o ↦ ground arith | inr (n, o) ↦ ground arith ]
    | inr (m, l) ↦ elim (Option-cases q.offset) [ inl o ↦ ground arith | inr (n, o) ↦ ground arith ]
  ]
]
