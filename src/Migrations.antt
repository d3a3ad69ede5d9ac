-- ===== src/Migrations.antt =====
-- pkg/migrations/mongodb.go: `EnsureMongoCollection`. MongoDB's answers are parameters.
use yeti.Base.{String, ◌≡◌, ◌↔◌, Bool, Option, none, some, List, [], ◌∷◌, arith, if◌then◌else◌}
use yeti.Base.Int.{ℤ, pos, negsuc}
use yeti.Errors.Chain.{Err, wrap}

pub record IndexModel : Type 0 where
  pub keys : List (String × ℤ)
  pub name : String

abbrev index : List (String × ℤ) → String → IndexModel
index keys name = record { keys = keys; name = name }

-- 1 is ascending, and `negsuc 0`, which is -1, descending.
unfoldable pub indexes : List IndexModel
indexes =
    index (("enabled", pos 1) ∷ ("priority", negsuc 0) ∷ []) "idx_enrichment_rules_enabled_priority"
    ∷ index (("priority", negsuc 0) ∷ []) "idx_enrichment_rules_priority"
    ∷ index (("updated_at", negsuc 0) ∷ []) "idx_enrichment_rules_updated_at"
    ∷ index (("field_to_enrich", pos 1) ∷ []) "idx_enrichment_rules_field_to_enrich"
    ∷ index (("enabled", pos 1) ∷ ("field_to_enrich", pos 1) ∷ ("priority", negsuc 0) ∷ [])
        "idx_enrichment_rules_enabled_field_priority"
    ∷ []

abbrev index_error : (Err → Bool) → Option Err → Option Err
index_error already_exists none = none
index_error already_exists (some e) =
    if already_exists e then none else some (wrap "failed to create indexes" e)

-- `list` is the error of listing the collections, whose names change nothing, `create_many` that of
-- creating the indexes, and `already_exists` whether an error's text contains "already exists".
unfoldable pub ensure_mongo_collection :
    Option Err → (List IndexModel → Option Err) → (Err → Bool) → Option Err
ensure_mongo_collection (some e) create_many already_exists =
    some (wrap "failed to list collections" e)
ensure_mongo_collection none create_many already_exists =
    index_error already_exists (create_many indexes)

-- The collection is ensured without an error exactly when the collections can be listed and the
-- indexes are made or there already.
pub ensure_mongo_collection_iff :
    (list : Option Err) (create_many : List IndexModel → Option Err) (already_exists : Err → Bool)
    → (ensure_mongo_collection list create_many already_exists ≡ none)
      ↔ ((list ≡ none) × (index_error already_exists (create_many indexes) ≡ none))
unfolding ensure_mongo_collection
ensure_mongo_collection_iff none create_many already_exists = ground arith
ensure_mongo_collection_iff (some e) create_many already_exists = ground arith
