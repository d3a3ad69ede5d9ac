-- ===== src/Dedup/Hasher.antt =====
-- internal/deduplication/hasher.go. `%v` and the hash functions are Go's, and parameters here.
use yeti.Base.{String, ◌<>◌, List, [], ◌∷◌, ◌==◌, if◌then◌else◌, value_or}
use yeti.Model.Value.{Value, Fields, text, lookup}
use yeti.Errors.Chain.{plain}
use yeti.Errors.Result.{Result, ok, err}

-- `show` is `fmt.Sprintf("%v", v)`; the hashes are the lower-case hexadecimal texts.
pub record HashLib : Type 0 where
  pub show : Value → String
  pub sha256 : String → String
  pub md5 : String → String

module _ (lib : HashLib) where
  -- What the builder holds after the loop; a field that is missing counts as "".
  unfoldable pub hash_input : Fields → List String → String
  hash_input msg [] = ""
  hash_input msg (f ∷ fields) =
      lib.show (value_or (lookup f msg) (text "")) <> "|" <> hash_input msg fields

  unfoldable pub hash_text : String → String → String
  hash_text algorithm input =
      if algorithm == "sha256"
      then lib.sha256 input
      else if algorithm == "md5"
      then lib.md5 input
      else lib.md5 input

  unfoldable pub compute_hash : String → Fields → List String → Result String
  compute_hash algorithm msg [] = err (plain "no fields specified for hashing")
  compute_hash algorithm msg (f ∷ fields) = ok (hash_text algorithm (hash_input msg (f ∷ fields)))
