-- ===== src/Node/Examples.antt =====
-- A concrete node message for shared_protocol/node_messages.py.
use low_altitude_io_t_system.Common.{
  Bool, Option, Result, String, [], list_eq, nat_eq, none, not, ok, pair_eq, refl, some, string_eq,
  true, ℕ, ◌<◌, ◌==◌, ◌^◌, ◌∷◌, ◌≡◌,
}
use low_altitude_io_t_system.Common.Int.{pos}
use low_altitude_io_t_system.Common.Value.{
  Fields, Value, end, entry, eq_value, field, finite, float, int, is_in, keys, obj, str,
}
use low_altitude_io_t_system.Auth.{Bytes}
use low_altitude_io_t_system.Node.{
  at_field, exact_fields, message_types, node_number, validate_node_payload,
}
use low_altitude_io_t_system.Node.Datagram.{
  canonical_json, check_node_message, decode_node_message, encode_node_message, matches,
  validate_node_message,
}
use low_altitude_io_t_system.Node.Checked.{decode-encode, node_message_fields}

abbrev arm_payload : Fields
arm_payload = entry "action" (str "arm") (entry "parameters" (obj end) end)

abbrev arm_fields : Fields
arm_fields = entry "version" (int (pos 1)) (
    entry "type" (str "command") (
      entry "source" (str "rover") (
        entry "target" (str "aircraft_2") (
          entry "command_id" (str "c1") (
            entry "sequence" (int (pos 7)) (
              entry "timestamp" (float (finite (pos 5)))
                (entry "payload" (obj arm_payload) end)))))))

-- Stand-ins: the one message is written as two bytes.
abbrev toy_dumps : Value → Result Bytes
toy_dumps v = ok (1 ∷ 2 ∷ [])

abbrev toy_loads : Bytes → Option Value
toy_loads bytes = some (obj arm_fields)

abbrev toy_uuid : String → Bool
toy_uuid s = not (s == "")

abbrev toy_sha : Bytes → String
toy_sha bytes = "sum"

arm_valid :
    validate_node_message toy_dumps toy_uuid toy_loads toy_sha none (obj arm_fields)
    ≡ ok (obj arm_fields)
unfolding validate_node_message check_node_message exact_fields validate_node_payload node_number
    eq_value keys field canonical_json
arm_valid = refl

arm_encoded :
    encode_node_message toy_dumps toy_uuid toy_loads toy_sha (obj arm_fields) 4096 ≡ ok (1 ∷ 2 ∷ [])
unfolding encode_node_message validate_node_message check_node_message exact_fields
    validate_node_payload node_number eq_value keys field canonical_json
arm_encoded = refl

arm_aimed : at_field "target" (obj arm_fields) (matches (some "aircraft_2")) ≡ ok tt
unfolding eq_value field
arm_aimed = refl

decode-encode_example :
    decode_node_message toy_dumps toy_uuid toy_loads toy_sha (1 ∷ 2 ∷ []) (some "aircraft_2") 4096
    ≡ ok (obj arm_fields)
decode-encode_example =
    decode-encode toy_dumps toy_uuid toy_loads toy_sha (some "aircraft_2") (obj arm_fields)
      (1 ∷ 2 ∷ []) 4096 (λ bytes e. refl) arm_encoded arm_aimed

node_message_fields_example :
    (fs : Fields) × (kind id : String) × (n : ℕ) × (payload : Fields) × (obj arm_fields ≡ obj fs)
    × (field "type" fs ≡ some (str kind))
    × (is_in kind message_types ≡ true)
    × (field "command_id" fs ≡ some (str id))
    × (toy_uuid id ≡ true)
    × (field "sequence" fs ≡ some (int (pos n)))
    × (n < 2 ^ 32)
    × (field "payload" fs ≡ some (obj payload))
    × (validate_node_payload kind (obj payload) ≡ ok tt)
node_message_fields_example =
    node_message_fields toy_dumps toy_uuid toy_loads toy_sha none (obj arm_fields) (obj arm_fields)
      arm_valid
