-- ===== src/Tests/Dedup.antt =====
-- The deduplication service, over a Redis that keeps its keys in a list.
use yeti.Base.{
  ℕ, ◌<>◌, ◌≡◌, refl, String, Bool, true, false, not, ◌||◌, List, [], ◌∷◌, arith, ◌==◌,
  if◌then◌else◌, Bool-cases, inl, inr, eq_iff,
}
use yeti.Base.Int.{ℤ, pos}
use yeti.Model.Value.{Value, text, lookup, insert, no_fields, field, Fields}
use yeti.Errors.Result.{Result, ok}
use yeti.Dedup.Hasher.{HashLib, compute_hash, hash_text, hash_input}
use yeti.Dedup.Data.{build_message_data}
use yeti.Dedup.Collisions.{compute_hash_collision}
use yeti.Dedup.Service.{Redis, DeduplicationConfig, Service}
use yeti.Dedup.First.{Answers, Arrival, process_all, first_seen, process_all_first}
use yeti.Tests.Fixtures.{live, order}

abbrev show_text : Value → String
show_text (text s) = s
show_text v = "a value"

-- The hash of a text is the text, with a mark for the algorithm.
abbrev pub marks : HashLib
marks = record { show = show_text; sha256 = λ s. "s" <> s; md5 = λ s. "m" <> s }

unfoldable pub has : List String → String → Bool
has [] key = false
has (k ∷ keys) key = k == key || has keys key

unfoldable pub set_nx : String → ℕ → ℤ → List String → Result Bool × List String
unfolding has
set_nx key now ttl keys = if has keys key then (ok false, keys) else (ok true, key ∷ keys)

abbrev pub memory : Redis
memory = record { State = List String; set_nx = set_nx }

has_same :
    (key k : String) (keys : List String)
    → has keys key ≡ true
    → (key == k) ≡ true
    → has keys k ≡ true
unfolding has
has_same key k [] h e = cc
has_same key k (j ∷ keys) h e =
    ground (arith, has_same key k keys, eq_iff key k, eq_iff j key, eq_iff j k)

set_nx_held :
    (key k : String) (now : ℕ) (ttl : ℤ) (keys : List String)
    → has (set_nx key now ttl keys).1 k ≡ (key == k || has keys k)
unfolding has set_nx
set_nx_held key k now ttl keys = elim (Bool-cases (has keys key)) [
  | inl there ↦ ground (arith, has_same key k keys there)
  | inr free ↦ ground arith
]

set_nx_answer :
    (key : String) (now : ℕ) (ttl : ℤ) (keys : List String)
    → (set_nx key now ttl keys).0 ≡ ok (not (has keys key))
unfolding set_nx
set_nx_answer key now ttl keys = ground arith

memory-Answers : Answers memory has
memory-Answers = record { answer = set_nx_answer; held = set_nx_held }

abbrev config : DeduplicationConfig
config = record {
  hash_algorithm = "sha256";
  ttl_seconds = pos 60;
  on_redis_error = "deny";
  fields_to_hash = "user" ∷ [];
}

abbrev pub service : Service
service = record { cfg = config; fields_to_hash = "user" ∷ [] }

abbrev arrival : Arrival
arrival = record { ctx = live; now = 3; msg = order }

process_all_first_example :
    process_all marks memory service (arrival ∷ arrival ∷ []) [] ≡ ok true ∷ ok false ∷ []
unfolding first_seen has compute_hash hash_text hash_input build_message_data lookup insert
process_all_first_example =
    process_all_first marks memory service has memory-Answers (arrival ∷ arrival ∷ [])
      ("sann|" ∷ "sann|" ∷ []) [] ((refl, refl, refl), ((refl, refl, refl), tt))

abbrev two : String → String → Fields
two a b = field "a" (text a) (field "b" (text b) no_fields)

compute_hash_collision_example :
    compute_hash marks "sha256" (two "x|y" "z") ("a" ∷ "b" ∷ [])
    ≡ compute_hash marks "sha256" (two "x" "y|z") ("a" ∷ "b" ∷ [])
unfolding lookup
compute_hash_collision_example =
    compute_hash_collision marks "sha256" "a" "b" [] (two "x|y" "z") (two "x" "y|z") "x" "y" "z"
      (λ s. refl) refl refl refl refl tt
