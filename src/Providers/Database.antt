-- ===== src/Providers/Database.antt =====
-- internal/enrichment/provider/database_provider.go.
use yeti.Base.{
  ℕ, suc, String, ◌<>◌, Option, none, some, List, [], ◌∷◌, ◌==◌, Bool, true, false, ◌||◌,
  if◌then◌else◌,
}
use yeti.Model.Value.{Value, text, Fields, no_fields, field, insert}
use yeti.Errors.Chain.{plain}
use yeti.Errors.Result.{Result, ok, err, wrap_err}
use yeti.Providers.Query.{SourceConfig, query_to_map}
use yeti.Providers.Sources.{Texts, filled}

-- `FindOne(filter)` in a collection of a database, with `none` for `mongo.ErrNoDocuments`.
pub record Documents : Type 1 where
  pub State : Type 0
  pub find_one : String → String → Fields → State → Result (Option Fields) × State

-- What a row holds in a column: bytes, as a text, or another value.
pub data Cell : Type 0 where
  bytes : String → Cell
  plain_cell : Value → Cell

-- `rows.Columns()` and `rows.Scan(…)`.
pub record Row : Type 0 where
  pub columns : Result (List String)
  pub cells : Result (List Cell)

-- `db.QueryContext(query, args…)` with the first row, `none` where `rows.Next()` is false, and
-- `json.Unmarshal` of a column's bytes.
pub record Tables : Type 1 where
  pub State : Type 0
  pub query : String → List Value → State → Result (Option Row) × State
  pub parse : String → Option Value

-- `nil` and a map without entries are told apart by no caller.
unfoldable pub get_query_map : SourceConfig → Fields
get_query_map config = elim config.query [ none ↦ no_fields | some q ↦ query_to_map (some q) ]

abbrev pub has_entries : Fields → Bool
has_entries no_fields = false
has_entries (field k v d) = true

module _ (texts : Texts) where
  abbrev pub filter_value : Value → Value → Value
  filter_value field_value (text s) = text (filled texts field_value s)
  filter_value field_value v = v

  abbrev pub filter_of : Value → Fields → Fields → Fields
  filter_of field_value no_fields filter = filter
  filter_of field_value (field k v query_map) filter =
      filter_of field_value query_map (insert k (filter_value field_value v) filter)

  -- The document that `FindOne` gets.
  unfoldable pub mongo_filter : SourceConfig → Value → Fields
  mongo_filter config field_value =
      let query_map = get_query_map config in
      if has_entries query_map
      then filter_of field_value query_map no_fields
      else if config.field_name == ""
      then insert "_id" field_value no_fields
      else insert config.field_name field_value no_fields

  -- The conditions and the arguments, in the order in which the map is walked; `i` is `argIndex`.
  abbrev pub conditions : ℕ → Fields → List String
  conditions i no_fields = []
  conditions i (field k v query_map) =
      (k <> " = $" <> texts.show_nat i) ∷ conditions (suc i) query_map

  abbrev pub args : Value → Fields → List Value
  args field_value no_fields = []
  args field_value (field k v query_map) =
      text (filled texts field_value (texts.show v)) ∷ args field_value query_map

  -- `strings.Join(conditions, " AND ")`
  abbrev pub join : List String → String
  join [] = ""
  join (c ∷ []) = c
  join (c ∷ (d ∷ cs)) = c <> " AND " <> join (d ∷ cs)

  -- The clause and its arguments; `none` where there is neither a query nor a field.
  unfoldable pub where_clause : SourceConfig → Value → Option (String × List Value)
  where_clause config field_value =
      let query_map = get_query_map config in
      if has_entries query_map
      then some (join (conditions 1 query_map), args field_value query_map)
      else if config.field_name == ""
      then none
      else some (config.field_name <> " = $1", field_value ∷ [])

module _ (texts : Texts) (documents : Documents) where
  abbrev pub document : Result (Option Fields) → Result Fields
  document (err e) = wrap_err "mongodb query failed" (err e)
  document (ok none) = err (plain "document not found")
  document (ok (some found)) = ok found

  unfoldable pub mongo_fetch :
      SourceConfig → Value → documents.State → Result Fields × documents.State
  mongo_fetch config field_value st =
      if config.database == "" || config.collection == ""
      then (err (plain "database and collection are required for MongoDB provider"), st)
      else let (answer, st') =
          documents.find_one config.database config.collection
            (mongo_filter texts config field_value) st in
        (document answer, st')

module _ (texts : Texts) (tables : Tables) where
  abbrev pub cell_value : Cell → Value
  cell_value (plain_cell v) = v
  cell_value (bytes s) = elim (tables.parse s) [ some v ↦ v | none ↦ text s ]

  -- A value for each column; `Scan` has as many.
  abbrev pub record_of : List String → List Cell → Fields → Fields
  record_of [] cells result = result
  record_of (col ∷ columns) [] result = result
  record_of (col ∷ columns) (val ∷ cells) result =
      record_of columns cells (insert col (cell_value val) result)

  abbrev pub read_row : Row → Result Fields
  read_row r = elim r.columns [
    | err e ↦ wrap_err "failed to get columns" (err e)
    | ok columns ↦ elim r.cells [
      | err e ↦ wrap_err "postgresql scan failed" (err e)
      | ok cells ↦ ok (record_of columns cells no_fields)
    ]
  ]

  abbrev pub first_row : Result (Option Row) → Result Fields
  first_row (err e) = wrap_err "postgresql query failed" (err e)
  first_row (ok none) = err (plain "row not found")
  first_row (ok (some r)) = read_row r

  unfoldable pub postgres_fetch : SourceConfig → Value → tables.State → Result Fields × tables.State
  postgres_fetch config field_value st =
      if config.collection == ""
      then (err (plain "collection (table name) is required for PostgreSQL provider"), st)
      else elim (where_clause texts config field_value) [
        | none ↦ (err (plain "either query or field must be specified for PostgreSQL provider"), st)
        | some (clause, arguments) ↦
            let (answer, st') =
              tables.query
                ("SELECT * FROM " <> config.collection <> " WHERE " <> clause <> " LIMIT 1")
                arguments st in
            (first_row answer, st')
      ]
