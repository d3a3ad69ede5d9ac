-- ===== src/Model/Value.antt =====
-- Go's `interface{}` and `map[string]interface{}`, as the payload and the metadata hold them.
use yeti.Base.{
  ℕ, suc, ◌<◌, String, ◌≡◌, refl, Bool, Option, none, some, List, [], ◌∷◌, arith, ◌==◌, eq_iff,
  if◌then◌else◌,
}
use yeti.Base.Int.{ℤ}

-- A `float64` is kept as its bit pattern, a `time.Time` as a number: the zero time is 0.
mutual
  pub data Value : Type 0 where
    null : Value
    boolean : Bool → Value
    int : ℤ → Value
    float : ℕ → Value
    text : String → Value
    time : ℕ → Value
    array : Values → Value
    object : Fields → Value

  pub data Values : Type 0 where
    no_values : Values
    value : Value → Values → Values

  -- A map; the first entry of a key is its value.
  pub data Fields : Type 0 where
    no_fields : Fields
    field : String → Value → Fields → Fields

unfoldable pub lookup : String → Fields → Option Value
lookup k no_fields = none
lookup k (field j v d) = if j == k then some v else lookup k d

-- `d[k] = v`
unfoldable pub insert : String → Value → Fields → Fields
insert k v no_fields = field k v no_fields
insert k v (field j w d) = if j == k then field k v d else field j w (insert k v d)

unfoldable pub count_fields : Fields → ℕ
count_fields no_fields = 0
count_fields (field k v d) = suc (count_fields d)

unfoldable pub keys : Fields → List String
keys no_fields = []
keys (field k v d) = k ∷ keys d

-- A key is listed once, as in a Go map.
abbrev pub NodupKeys : Fields → Type 0
NodupKeys no_fields = Unit
NodupKeys (field k v d) = (lookup k d ≡ none) × NodupKeys d

-- The type assertion `v.(string)`.
abbrev pub as_text : Option Value → Option String
as_text none = none
as_text (some (text s)) = some s
as_text (some _) = none

pub lookup-insert :
    (k j : String) (v : Value) (d : Fields)
    → lookup j (insert k v d) ≡ (if k == j then some v else lookup j d)
unfolding lookup insert
lookup-insert k j v no_fields = refl
lookup-insert k j v (field i w d) =
    ground (arith, eq_iff k j, eq_iff i k, eq_iff i j, lookup-insert k j v d)

pub insert-NodupKeys :
    (k : String) (v : Value) (d : Fields) → NodupKeys d → NodupKeys (insert k v d)
unfolding insert lookup
insert-NodupKeys k v no_fields h = (refl, tt)
insert-NodupKeys k v (field j w d) (fresh, u) =
    ground (arith, insert-NodupKeys k v d u, lookup-insert k j v d, eq_iff k j, eq_iff j k)

pub count_fields-insert : (k : String) (v : Value) (d : Fields) → 0 < count_fields (insert k v d)
unfolding count_fields insert
count_fields-insert k v no_fields = omega arith
count_fields-insert k v (field j w d) = ground (arith, count_fields-insert k v d)
