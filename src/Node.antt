-- ===== src/Node.antt =====
-- shared_protocol/node_messages.py: the JSON datagrams between the rover and the nodes. What
-- `json.dumps`, `json.loads`, `uuid.UUID` and SHA-256 do are parameters.
pub mod Datagram
pub mod Checked
mod Examples
use low_altitude_io_t_system.Messages.{fits_float}
use low_altitude_io_t_system.Common.{overflow_error}
use low_altitude_io_t_system.Common.{
  Bool-cases, Eq, Error, List, Option, String, [], err, if◌then◌else◌, leb, list_eq, nat_eq,
  node_message_error, none, not, ok, pair_eq, require, some, string_eq, type_error, ℕ, ◌&&◌, ◌++◌,
  ◌==◌, ◌||◌, ◌∷◌, ◌≢◌,
}
use low_altitude_io_t_system.Common.Int.{minus, pos, ℤ}
use low_altitude_io_t_system.Common.Value.{
  Value, as_number, bool, eq_value, float, int, is_in, keys, obj, str,
}
use low_altitude_io_t_system.Messages.{
  Check, above, all_in, at_least, below, check_field, check_optional, hex_digest, ◌>>◌,
}

abbrev pub protocol_version : ℕ
protocol_version = 1

abbrev pub max_datagram_bytes : ℕ
max_datagram_bytes = 4096

abbrev pub node_ids : List String
node_ids = "rover" ∷ "aircraft_1" ∷ "aircraft_2" ∷ []

abbrev pub message_types : List String
message_types =
    "command" ∷ "mission_begin" ∷ "mission_item" ∷ "mission_commit" ∷ "ack" ∷ "nack" ∷ "status" ∷ []

abbrev pub command_actions : List String
command_actions =
    "guided" ∷ "loiter" ∷ "follow" ∷ "auto" ∷ "land" ∷ "arm" ∷ "disarm" ∷ "network_phone" ∷ []

abbrev pub transaction_stages : List String
transaction_stages = "RECEIVED" ∷ "QUEUED" ∷ "EXECUTING" ∷ "VERIFIED" ∷ "FAILED" ∷ []

abbrev pub required_fields : List String
required_fields =
    "version" ∷ "type" ∷ "source" ∷ "target" ∷ "command_id" ∷ "sequence" ∷ "timestamp" ∷ "payload"
    ∷ []

-- `_exact_fields`
unfoldable pub exact_fields : List String → List String → Value → Check
unfolding keys
exact_fields required optional (obj fs) =
    require (all_in required (keys fs) && all_in (keys fs) (required ++ optional))
      (node_message_error "invalid payload fields")
exact_fields required optional v = err (node_message_error "payload must be an object")

-- `value[key]` of an object whose fields were checked, and a value that is checked where it is there.
abbrev pub at_field : String → Value → (Value → Check) → Check
at_field k (obj fs) check = check_field k fs check
at_field k v check = err (type_error "not subscriptable")

abbrev pub at_optional : String → Value → (Value → Check) → Check
at_optional k (obj fs) check = check_optional k fs check
at_optional k v check = err (type_error "not iterable")

-- `_string`
unfoldable pub node_string : Value → Check
node_string (str s) = require (not (s == "")) (node_message_error "must be a non-empty string")
node_string v = err (node_message_error "must be a non-empty string")

abbrev node_range : Option ℤ → Option ℤ → Option ℤ → Check
node_range low high none = err (node_message_error "must be a finite number")
node_range low high (some x) =
    require (above low x) (node_message_error "is below minimum")
    >> require (below high x) (node_message_error "exceeds maximum")

-- `_number`; the bounds are in units of 1e-7.
unfoldable pub node_number : Option ℤ → Option ℤ → Value → Check
unfolding fits_float
node_number low high (int n) =
    if fits_float n
    then node_range low high (as_number (int n))
    else err (overflow_error "int too large to convert to float")
node_number low high (float x) = node_range low high (as_number (float x))
node_number low high v = err (node_message_error "must be a finite number")

-- An integer from 0 to a limit, and no `bool`.
unfoldable pub node_nat : ℕ → Error → Value → Check
node_nat limit x (int (pos n)) = require (leb n limit) x
node_nat limit x v = err x

-- `_item_count`
abbrev pub item_count : Value → Check
item_count = node_nat 100 (node_message_error "item_count must be an integer from 0 to 100")

-- `_item_index`
abbrev pub item_index : Value → Check
item_index = node_nat 99 (node_message_error "index must be an integer from 0 to 99")

-- `_digest`
unfoldable pub node_digest : Value → Check
node_digest (str s) =
    require (hex_digest s) (node_message_error "digest must be lowercase SHA-256 hex")
node_digest v = err (node_message_error "digest must be lowercase SHA-256 hex")

abbrev pub node_boolean : Value → Check
node_boolean (bool b) = ok tt
node_boolean v = err (node_message_error "must be a boolean")

abbrev pub any_string : Value → Check
any_string (str s) = ok tt
any_string v = err (node_message_error "must be a string")

abbrev pub one_of : List String → Error → Value → Check
one_of names x (str s) = require (is_in s names) x
one_of names x v = err (node_message_error "must be a string")

abbrev node_object : Value → Check
node_object (obj fs) = ok tt
node_object v = err (node_message_error "parameters must be an object")

abbrev same_as : Value → Error → Value → Check
same_as v x w = require (eq_value w v) x

-- Each of the named fields, one check after the other.
abbrev pub each_field : List String → Value → (Value → Check) → Check
each_field [] v check = ok tt
each_field (k ∷ ks) v check = at_field k v check >> each_field ks v check

abbrev pub each_optional : List String → Value → (Value → Check) → Check
each_optional [] v check = ok tt
each_optional (k ∷ ks) v check = at_optional k v check >> each_optional ks v check

-- `_validate_mission_item`
unfoldable pub validate_mission_item : Value → Value → Check
unfolding eq_value
validate_mission_item expected_index item =
    exact_fields ("index" ∷ "lat" ∷ "lon" ∷ "alt" ∷ [])
      ("command" ∷ "frame" ∷ "param1" ∷ "param2" ∷ "param3" ∷ "param4" ∷ "autocontinue" ∷ []) item
    >> at_field "index" item item_index
    >> at_field "index" item
        (same_as expected_index (node_message_error "mission item index mismatch"))
    >> at_field "lat" item (node_number (at_least (minus 90)) (at_least (pos 90)))
    >> at_field "lon" item (node_number (at_least (minus 180)) (at_least (pos 180)))
    >> at_field "alt" item (node_number (at_least (minus 1000)) (at_least (pos 100_000)))
    >> at_optional "command" item (node_nat 0xffff (node_message_error "command must fit uint16"))
    >> at_optional "frame" item (node_nat 0xff (node_message_error "frame must fit uint8"))
    >> each_optional ("param1" ∷ "param2" ∷ "param3" ∷ "param4" ∷ []) item (node_number none none)
    >> at_optional "autocontinue" item node_boolean

-- The branch `status` of `_validate_payload`.
unfoldable pub validate_status : Value → Check
validate_status payload =
    exact_fields
      ("online" ∷ "fc_connected" ∷ "blocked" ∷ "mode" ∷ "armed" ∷ "heartbeat_at" ∷ "lat" ∷ "lon"
        ∷ "position_observed" ∷ "altitude" ∷ "speed" ∷ "heading" ∷ "battery" ∷ "mission_stage"
        ∷ "mission_id" ∷ "fault" ∷ "link_state" ∷ "event" ∷ [])
      [] payload
    >> each_optional ("online" ∷ "fc_connected" ∷ "blocked" ∷ "armed" ∷ "position_observed" ∷ [])
        payload node_boolean
    >> each_field ("mode" ∷ "mission_stage" ∷ "link_state" ∷ []) payload node_string
    >> at_field "link_state" payload (
        one_of ("ONLINE" ∷ "OFFLINE" ∷ "OPTICAL_BLOCKED" ∷ [])
          (node_message_error "invalid link_state"))
    >> each_field ("mission_id" ∷ "fault" ∷ []) payload any_string
    >> each_optional ("heartbeat_at" ∷ "altitude" ∷ "speed" ∷ "heading" ∷ "battery" ∷ []) payload
        (node_number none none)
    >> at_field "lat" payload (node_number (at_least (minus 90)) (at_least (pos 90)))
    >> at_field "lon" payload (node_number (at_least (minus 180)) (at_least (pos 180)))
    >> at_field "event" payload λ event.
      exact_fields ("timestamp" ∷ "sequence" ∷ "type" ∷ "text" ∷ []) [] event
      >> at_field "timestamp" event (node_number (at_least (pos 0)) none)
      >> at_field "sequence" event
          (node_nat 0xffff_ffff (node_message_error "event.sequence must fit uint32"))
      >> at_field "type" event node_string
      >> at_field "text" event any_string

-- `_validate_payload`, by the type of the message.
unfoldable pub validate_node_payload : String → Value → Check
unfolding validate_status validate_mission_item
validate_node_payload kind payload =
    if kind == "command"
    then exact_fields ("action" ∷ []) ("parameters" ∷ []) payload
      >> at_field "action" payload
          (one_of command_actions (node_message_error "unsupported command action"))
      >> at_optional "parameters" payload node_object
    else if kind == "status"
    then validate_status payload
    else if kind == "ack"
    then exact_fields ("stage" ∷ []) ("detail" ∷ "duplicate" ∷ []) payload
      >> at_field "stage" payload
          (one_of transaction_stages (node_message_error "invalid transaction stage"))
      >> at_optional "detail" payload any_string
      >> at_optional "duplicate" payload node_boolean
    else if kind == "nack"
    then exact_fields ("reason" ∷ []) ("stage" ∷ []) payload
      >> at_field "reason" payload node_string
      >> at_optional "stage" payload
          (one_of transaction_stages (node_message_error "invalid transaction stage"))
    else if kind == "mission_begin" || kind == "mission_commit"
    then exact_fields ("mission_id" ∷ "item_count" ∷ "digest" ∷ []) [] payload
      >> at_field "mission_id" payload node_string
      >> at_field "item_count" payload item_count
      >> at_field "digest" payload node_digest
    else if kind == "mission_item"
    then exact_fields ("mission_id" ∷ "index" ∷ "item" ∷ []) [] payload
      >> at_field "mission_id" payload node_string
      >> at_field "index" payload item_index
      >> at_field "index" payload (λ index. at_field "item" payload (validate_mission_item index))
    else ok tt
