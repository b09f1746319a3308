-- ===== src/Node/Datagram.antt =====
-- Whole messages of shared_protocol/node_messages.py: checked, built, written and read.
use low_altitude_io_t_system.Common.{Error, overflow_error}
use low_altitude_io_t_system.Common.{
  Bool, Option, Result, String, [], bind, err, leb, length, list_eq, ltb, nat_eq,
  node_message_error, none, ok, pair_eq, require, some, string_eq, ℕ, ◌∷◌,
}
use low_altitude_io_t_system.Common.Int.{eqb_ℤ, negsuc, pos}
use low_altitude_io_t_system.Common.Value.{
  Fields, Items, Value, arr, end, entry, eq_value, int, obj, str,
}
use low_altitude_io_t_system.Messages.{Check, at_least, ◌>>◌}
use low_altitude_io_t_system.Auth.{Bytes}
use low_altitude_io_t_system.Node.{
  at_field, each_field, exact_fields, item_count, message_types, node_ids, node_number, one_of,
  protocol_version, required_fields, validate_node_payload,
}

abbrev pub is_version : Value → Check
is_version (int n) =
    require (eqb_ℤ n (pos protocol_version)) (node_message_error "unsupported version")
is_version v = err (node_message_error "unsupported version")

abbrev pub is_uint32 : Value → Check
is_uint32 (int (pos n)) =
    require (leb n 0xffff_ffff) (node_message_error "sequence must fit uint32")
is_uint32 (int (negsuc n)) = err (node_message_error "sequence must fit uint32")
is_uint32 v = err (node_message_error "sequence must be an integer")

-- An OverflowError of `math.isfinite` passes.
abbrev pub timestamp_error : Error → Error
timestamp_error (overflow_error s) = overflow_error s
timestamp_error x = node_message_error "timestamp must be a non-negative finite number"

abbrev pub is_timestamp : Value → Check
is_timestamp v = elim (node_number (at_least (pos 0)) none v) [
  | ok u ↦ ok tt
  | err x ↦ err (timestamp_error x)
]

abbrev pub matches : Option String → Value → Check
matches none v = ok tt
matches (some target) v =
    require (eq_value v (str target)) (node_message_error "message target does not match receiver")

abbrev pub is_payload : Value → Check
is_payload (obj fs) = ok tt
is_payload v = err (node_message_error "payload must be an object")

abbrev pub exact_message : Value → Check
exact_message (obj fs) = exact_fields required_fields [] (obj fs)
exact_message v = err (node_message_error "message must be an object")

-- The text of the message's type, where the checks before have found one.
abbrev pub type_text : Value → String
type_text (str s) = s
type_text v = ""

-- `json.dumps` in the canonical form, as bytes; `uuid.UUID` as a test; `json.loads` of UTF-8; and
-- the hexadecimal SHA-256 of bytes.
module _ (dumps : Value → Result Bytes) (is_uuid : String → Bool) (loads : Bytes → Option Value)
    (sha256 : Bytes → String) where
  -- `_canonical_json`
  unfoldable pub canonical_json : Value → Result Bytes
  canonical_json v = elim (dumps v) [
    | ok bytes ↦ ok bytes
    | err x ↦ err (node_message_error "message is not valid JSON")
  ]

  abbrev pub is_command_id : Value → Check
  is_command_id (str s) = require (is_uuid s) (node_message_error "command_id must be a UUID")
  is_command_id v = err (node_message_error "command_id must be a UUID")

  -- The checks of `validate_node_message`, in their order.
  unfoldable pub check_node_message : Option String → Value → Check
  unfolding eq_value canonical_json
  check_node_message expected_target message =
      exact_message message
      >> at_field "version" message is_version
      >> at_field "type" message (one_of message_types (node_message_error "invalid message type"))
      >> each_field ("source" ∷ "target" ∷ []) message
          (one_of node_ids (node_message_error "invalid source or target"))
      >> at_field "target" message (matches expected_target)
      >> at_field "command_id" message is_command_id
      >> at_field "sequence" message is_uint32
      >> at_field "timestamp" message is_timestamp
      >> at_field "payload" message is_payload
      >> at_field "type" message
          (λ kind. at_field "payload" message (validate_node_payload (type_text kind)))
      >> bind (canonical_json message) (λ wire. ok tt)

  -- `validate_node_message` gives its argument back.
  unfoldable pub validate_node_message : Option String → Value → Result Value
  unfolding check_node_message
  validate_node_message expected_target message =
      bind (check_node_message expected_target message) λ _. ok message

  -- The keyword arguments that the builders pass on.
  pub record Header : Type 0 where
    pub source : Value
    pub target : Value
    pub command_id : Value
    pub sequence : Value
    pub timestamp : Value

  abbrev pub node_message : String → Header → Fields → Value
  node_message kind h payload = obj (
      entry "version" (int (pos protocol_version)) (
        entry "type" (str kind) (
          entry "source" h.source (
            entry "target" h.target (
              entry "command_id" h.command_id (
                entry "sequence" h.sequence
                  (entry "timestamp" h.timestamp (entry "payload" (obj payload) end))))))))

  unfoldable pub make_node_message : String → Header → Fields → Result Value
  unfolding validate_node_message
  make_node_message kind h payload = validate_node_message none (node_message kind h payload)

  unfoldable pub build_command_message : Value → Option Value → Header → Result Value
  unfolding make_node_message
  build_command_message action parameters h = make_node_message "command" h (
      entry "action" action
        (entry "parameters" (elim parameters [ none ↦ obj end | some v ↦ v ]) end))

  unfoldable pub build_status_message : Value → Fields → Header → Result Value
  unfolding make_node_message
  build_status_message online fields h = make_node_message "status" h (entry "online" online fields)

  unfoldable pub build_ack_message : Value → Value → Option Value → Header → Result Value
  unfolding make_node_message
  build_ack_message stage duplicate detail h = make_node_message "ack" h (
      entry "stage" stage
        (entry "duplicate" duplicate (elim detail [ none ↦ end | some v ↦ entry "detail" v end ])))

  unfoldable pub build_nack_message : Value → Option Value → Header → Result Value
  unfolding make_node_message
  build_nack_message reason stage h =
      make_node_message "nack" h
        (entry "reason" reason (elim stage [ none ↦ end | some v ↦ entry "stage" v end ]))

  unfoldable pub build_mission_begin_message : Value → Value → Value → Header → Result Value
  unfolding make_node_message
  build_mission_begin_message mission_id item_count digest h =
      make_node_message "mission_begin" h
        (entry "mission_id" mission_id (entry "item_count" item_count (entry "digest" digest end)))

  unfoldable pub build_mission_item_message : Value → Value → Value → Header → Result Value
  unfolding make_node_message
  build_mission_item_message mission_id index item h =
      make_node_message "mission_item" h
        (entry "mission_id" mission_id (entry "index" index (entry "item" item end)))

  unfoldable pub build_mission_commit_message : Value → Value → Value → Header → Result Value
  unfolding make_node_message
  build_mission_commit_message mission_id item_count digest h =
      make_node_message "mission_commit" h
        (entry "mission_id" mission_id (entry "item_count" item_count (entry "digest" digest end)))

  unfoldable pub encode_node_message : Value → ℕ → Result Bytes
  unfolding validate_node_message canonical_json
  encode_node_message message limit =
      bind (require (ltb 0 limit) (node_message_error "max datagram size must be positive")) λ _.
        bind (validate_node_message none message) λ checked. bind (canonical_json checked) λ wire.
          bind
            (require (leb (length wire) limit) (node_message_error "datagram exceeds size limit"))
            λ _. ok wire

  unfoldable pub decode_node_message : Bytes → Option String → ℕ → Result Value
  unfolding validate_node_message
  decode_node_message wire expected_target limit =
      bind (require (leb (length wire) limit) (node_message_error "datagram exceeds size limit"))
        λ _. elim (loads wire) [
          | none ↦ err (node_message_error "datagram is not valid UTF-8 JSON")
          | some message ↦ validate_node_message expected_target message
        ]

  -- `mission_digest` on a list of objects
  unfoldable pub mission_digest : Items → Result String
  unfolding canonical_json
  mission_digest items = bind (canonical_json (arr items)) λ wire. ok (sha256 wire)
