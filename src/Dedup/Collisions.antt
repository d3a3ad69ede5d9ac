-- ===== src/Dedup/Collisions.antt =====
-- Which messages share a hash input.
use yeti.Base.{String, ◌<>◌, ◌≡◌, refl, some, List, [], ◌∷◌, value_or, string-append_assoc}
use yeti.Base.Lists.{All}
use yeti.Model.Value.{Value, Fields, text, lookup}
use yeti.Dedup.Hasher.{HashLib, hash_input, compute_hash}

module _ (lib : HashLib) where
  abbrev shown_field : Fields → String → Value
  shown_field m f = value_or (lookup f m) (text "")

  hash_input_congr :
      (fields : List String) (m n : Fields)
      → All (λ f. shown_field m f ≡ shown_field n f) fields
      → hash_input lib m fields ≡ hash_input lib n fields
  unfolding hash_input
  hash_input_congr [] m n h = refl
  hash_input_congr (f ∷ fields) m n (e, h) = rw (e, hash_input_congr fields m n h)

  -- The hash depends on the configured fields alone, and a missing field counts as an empty text:
  -- two messages that agree in this on every configured field have one hash, whatever the algorithm.
  pub compute_hash_congr :
      (algorithm : String) (fields : List String) (m n : Fields)
      → All (λ f. shown_field m f ≡ shown_field n f) fields
      → compute_hash lib algorithm m fields ≡ compute_hash lib algorithm n fields
  unfolding compute_hash
  compute_hash_congr algorithm [] m n h = refl
  compute_hash_congr algorithm (f ∷ fields) m n h = rw (hash_input_congr (f ∷ fields) m n h)

  -- The separator is not escaped. For every texts `x`, `y`, `z`: a message with "x|y" and "z" in two
  -- fields that follow one another, and one with "x" and "y|z" there, have the same hash if they
  -- agree in the other configured fields.
  pub compute_hash_collision :
      (algorithm f g : String) (rest : List String) (m n : Fields) (x y z : String)
      → ((s : String) → lib.show (text s) ≡ s)
      → lookup f m ≡ some (text (x <> "|" <> y))
      → lookup g m ≡ some (text z)
      → lookup f n ≡ some (text x)
      → lookup g n ≡ some (text (y <> "|" <> z))
      → All (λ k. shown_field m k ≡ shown_field n k) rest
      → compute_hash lib algorithm m (f ∷ g ∷ rest) ≡ compute_hash lib algorithm n (f ∷ g ∷ rest)
  unfolding compute_hash hash_input
  compute_hash_collision algorithm f g rest m n x y z shows mf mg nf ng h =
      rw (mf, mg, nf, ng) (simp (shows, hash_input_congr rest m n h, string-append_assoc))
