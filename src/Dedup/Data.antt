-- ===== src/Dedup/Data.antt =====
-- `buildMessageData`: the map that is hashed.
use yeti.Base.{
  String, ◌≡◌, refl, Option, none, some, arith, ◌==◌, eq_iff, if◌then◌else◌, text-cases, inl, inr,
}
use yeti.Model.Value.{
  Value, Fields, no_fields, field, text, lookup, insert, lookup-insert, NodupKeys,
}
use yeti.Model.Message.{MessageEnvelope, made}

-- `for key, value := range payload { data[key] = value }`
unfoldable pub copy_fields : Fields → Fields → Fields
copy_fields no_fields data_map = data_map
copy_fields (field k v d) data_map = copy_fields d (insert k v data_map)

unfoldable pub build_message_data : MessageEnvelope → Fields
unfolding copy_fields
build_message_data msg =
    copy_fields (made msg.payload)
      (insert "source" (text msg.source) (insert "id" (text msg.id) no_fields))

abbrev or_else : Option Value → Option Value → Option Value
or_else none b = b
or_else (some v) b = some v

lookup-copy_fields :
    (k : String) (d acc : Fields)
    → NodupKeys d
    → lookup k (copy_fields d acc) ≡ or_else (lookup k d) (lookup k acc)
unfolding copy_fields lookup
lookup-copy_fields k no_fields acc u = refl
lookup-copy_fields k (field j v d) acc (fresh, u) = elim (text-cases j k) [
  | inl (e, p) ↦ ground (arith, lookup-copy_fields k d (insert j v acc) u, lookup-insert j k v acc)
  | inr (e, p) ↦ ground (arith, lookup-copy_fields k d (insert j v acc) u, lookup-insert j k v acc)
]

-- A field of the payload hides the envelope's own: the ID and the source are hashed only under
-- names that the payload does not use, and no other field is found.
pub lookup-build_message_data :
    (msg : MessageEnvelope) (k : String)
    → NodupKeys (made msg.payload)
    → lookup k (build_message_data msg)
      ≡ or_else (lookup k (made msg.payload)) (
          if k == "source"
          then some (text msg.source)
          else if k == "id"
          then some (text msg.id)
          else none)
unfolding build_message_data lookup
lookup-build_message_data msg k u = ground (
  arith,
  lookup-copy_fields k (made msg.payload)
      (insert "source" (text msg.source) (insert "id" (text msg.id) no_fields)) u,
  lookup-insert "source" k (text msg.source) (insert "id" (text msg.id) no_fields),
  lookup-insert "id" k (text msg.id) no_fields,
  eq_iff "source" k,
  eq_iff k "source",
  eq_iff "id" k,
  eq_iff k "id",
)
