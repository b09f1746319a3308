-- ===== src/Frame.antt =====
-- shared_protocol/frame.py: the message types and the checked `Frame`.
pub mod Codec
pub mod RoundTrip
pub mod Stream
mod Examples
use low_altitude_io_t_system.Common.{
  ℕ, String, leb, Result, ok, err, value_error, type_error, bind, require, ◌==◌, nat_eq,
  if◌then◌else◌,
}
use low_altitude_io_t_system.Common.Value.{Value, obj, Fields}

pub data MessageType : Type 0 where
  command mission_begin mission_item mission_commit ack nack : MessageType
  status link_blocked auth_challenge auth_response : MessageType

-- `int(message_type)`
unfoldable pub type_code : MessageType → ℕ
type_code command = 1
type_code mission_begin = 2
type_code mission_item = 3
type_code mission_commit = 4
type_code ack = 5
type_code nack = 6
type_code status = 7
type_code link_blocked = 8
type_code auth_challenge = 9
type_code auth_response = 10

-- `MessageType(raw)`
unfoldable pub type_of_code : ℕ → Result MessageType
type_of_code n =
    if n == 1
    then ok command
    else if n == 2
    then ok mission_begin
    else if n == 3
    then ok mission_item
    else if n == 4
    then ok mission_commit
    else if n == 5
    then ok ack
    else if n == 6
    then ok nack
    else if n == 7
    then ok status
    else if n == 8
    then ok link_blocked
    else if n == 9
    then ok auth_challenge
    else if n == 10
    then ok auth_response
    else err (value_error "not a valid MessageType")

-- A command id is the text of its UUID.
pub record Frame : Type 0 where
  pub message_type : MessageType
  pub flags : ℕ
  pub sequence : ℕ
  pub command_id : String
  pub payload : Fields

abbrev as_object : Value → Result Fields
as_object (obj fs) = ok fs
as_object v = err (type_error "payload must be an object")

-- `Frame(...)` with `__post_init__`
unfoldable pub make_frame : MessageType → ℕ → ℕ → String → Value → Result Frame
make_frame kind flags sequence command_id payload =
    bind (require (leb flags 0xff) (value_error "flags must fit uint8")) λ _.
      bind (require (leb sequence 0xffff_ffff) (value_error "sequence must fit uint32")) λ _.
        bind (as_object payload) λ fields. ok (record {
          message_type = kind;
          flags = flags;
          sequence = sequence;
          command_id = command_id;
          payload = fields;
        })
