-- ===== src/Providers/Lookup.antt =====
-- What the providers of internal/enrichment/provider look up.
use yeti.Base.Int.{ℤ}
use yeti.Base.{
  ℕ, suc, String, ◌≡◌, Bool, true, false, Option, none, some, refl, List, [], ◌∷◌, arith,
  Bool-cases, ◌≤◌, inl, inr, ap,
}
use yeti.Base.Lists.{length}
use yeti.Model.Value.{
  Value, text, object, int, Fields, no_fields, field, insert, count_fields, null, boolean, float,
  time, array,
}
use yeti.Enrichment.Types
use yeti.Providers.Query.{
  Query, SourceConfig, convert_source_config, query_from_map, query_from_map-filters, query_to_map,
  put_map, put_int,
}
use yeti.Providers.Sources.{Texts}
use yeti.Providers.Database.{
  Documents, has_entries, mongo_filter, mongo_fetch, where_clause, get_query_map, conditions, args,
  filter_of, filter_value, join,
}

abbrev is_text : Value → Bool
is_text (text s) = true
is_text v = false

-- No entry is a text at the top level.
abbrev NoTexts : Fields → Type 0
NoTexts no_fields = Unit
NoTexts (field k v d) = (is_text v ≡ false) × NoTexts d

insert-NoTexts :
    (k : String) (v : Value) (d : Fields) → is_text v ≡ false → NoTexts d → NoTexts (insert k v d)
unfolding insert
insert-NoTexts k v no_fields h u = (h, tt)
insert-NoTexts k v (field j w d) h (x, u) = ground (arith, insert-NoTexts k v d h u)

put_map-NoTexts :
    (k : String) (o : Option Fields) (d : Fields) → NoTexts d → NoTexts (put_map k o d)
put_map-NoTexts k none d u = u
put_map-NoTexts k (some o) d u = insert-NoTexts k (object o) d refl u

put_int-NoTexts : (k : String) (o : Option ℤ) (d : Fields) → NoTexts d → NoTexts (put_int k o d)
put_int-NoTexts k none d u = u
put_int-NoTexts k (some i) d u = insert-NoTexts k (int i) d refl u

query_to_map-NoTexts : (q : Query) → NoTexts (query_to_map (some q))
unfolding query_to_map
query_to_map-NoTexts q = put_int-NoTexts "offset" q.offset _ (
    put_int-NoTexts "limit" q.limit _
      (put_map-NoTexts "sort" q.sort _ (put_map-NoTexts "filters" q.filters no_fields tt)))

has_entries-insert : (k : String) (v : Value) (d : Fields) → has_entries (insert k v d) ≡ true
unfolding insert
has_entries-insert k v no_fields = refl
has_entries-insert k v (field j w d) = ground arith

has_entries-put_map :
    (k : String) (o : Option Fields) (d : Fields)
    → has_entries d ≡ true
    → has_entries (put_map k o d) ≡ true
has_entries-put_map k none d h = h
has_entries-put_map k (some o) d h = has_entries-insert k (object o) d

has_entries-put_int :
    (k : String) (o : Option ℤ) (d : Fields)
    → has_entries d ≡ true
    → has_entries (put_int k o d) ≡ true
has_entries-put_int k none d h = h
has_entries-put_int k (some i) d h = has_entries-insert k (int i) d

-- The query of a rule never gives an empty map: its filters are there, if only as an empty map.
has_entries-query_from_map :
    (m : Fields) → has_entries (query_to_map (some (query_from_map (some m)))) ≡ true
unfolding query_to_map
has_entries-query_from_map m =
    let q = query_from_map (some m) in
    has_entries-put_int "offset" q.offset _ (
      has_entries-put_int "limit" q.limit _ (
        has_entries-put_map "sort" q.sort _ (
          rw (query_from_map-filters m).1
            (has_entries-insert "filters" (object (query_from_map-filters m).0) no_fields))))

has_entries-count : (d : Fields) → has_entries d ≡ true → 1 ≤ count_fields d
unfolding count_fields
has_entries-count no_fields h = ground arith
has_entries-count (field k v d) h = omega arith

module _ (texts : Texts) where
  filter_value-is_text :
      (v w x : Value) → is_text x ≡ false → filter_value texts v x ≡ filter_value texts w x
  filter_value-is_text v w null h = refl
  filter_value-is_text v w (boolean b) h = refl
  filter_value-is_text v w (int i) h = refl
  filter_value-is_text v w (float f) h = refl
  filter_value-is_text v w (text s) h = absurd (ground arith)
  filter_value-is_text v w (time t) h = refl
  filter_value-is_text v w (array a) h = refl
  filter_value-is_text v w (object o) h = refl

  filter_of-NoTexts :
      (v w : Value) (query_map filter : Fields)
      → NoTexts query_map
      → filter_of texts v query_map filter ≡ filter_of texts w query_map filter
  filter_of-NoTexts v w no_fields filter h = refl
  filter_of-NoTexts v w (field k x d) filter (h, u) =
      rw (filter_value-is_text v w x h)
        (filter_of-NoTexts v w d (insert k (filter_value texts w x) filter) u)

  length-conditions : (i : ℕ) (d : Fields) → length (conditions texts i d) ≡ count_fields d
  unfolding count_fields
  length-conditions i no_fields = refl
  length-conditions i (field k v d) = ap suc (length-conditions (suc i) d)

  length-args : (v : Value) (d : Fields) → length (args texts v d) ≡ count_fields d
  unfolding count_fields
  length-args v no_fields = refl
  length-args v (field k w d) = ap suc (length-args v d)

  -- Where a rule has a query, the document of the filter that MongoDB is asked for does not depend on
  -- the value of the field, and neither does what the rule fetches: no placeholder is replaced.
  pub mongo_fetch_ignores_value :
      (documents : Documents) (cfg : Types.SourceConfig) (m : Fields) (v w : Value)
      (st : documents.State)
      → cfg.query ≡ some m
      → (mongo_filter texts (convert_source_config cfg) v
          ≡ mongo_filter texts (convert_source_config cfg) w)
        × (mongo_fetch texts documents (convert_source_config cfg) v st
            ≡ mongo_fetch texts documents (convert_source_config cfg) w st)
  unfolding mongo_fetch mongo_filter get_query_map convert_source_config
  mongo_fetch_ignores_value documents cfg m v w st h =
      let q = query_from_map (some m) in
      let d = query_to_map (some q) in
      ground (
        arith,
        has_entries-query_from_map m,
        filter_of-NoTexts v w d no_fields (query_to_map-NoTexts q),
      )

  -- The clause for PostgreSQL joins as many conditions as it has arguments, and at least one: no
  -- statement without a condition, or with a placeholder without its argument, is sent.
  pub where_clause_arguments :
      (config : SourceConfig) (v : Value) (clause : String) (arguments : List Value)
      → where_clause texts config v ≡ some (clause, arguments)
      → (cs : List String) × (clause ≡ join texts cs)
        × (length cs ≡ length arguments)
        × (1 ≤ length arguments)
  unfolding where_clause
  where_clause_arguments config v clause arguments h =
      let d = get_query_map config in
      elim (Bool-cases (has_entries d)) [
        | inl some_query ↦ (
          conditions texts 1 d,
          ground arith,
          ground (arith, length-conditions 1 d, length-args v d),
          ground (arith, length-args v d, has_entries-count d some_query),
        )
        | inr no_query ↦ (clause ∷ [], ground arith, ground arith, ground arith)
      ]
