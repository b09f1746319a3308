-- ===== src/Messages.antt =====
-- shared_protocol/messages.py: the checks on the payload of each message type.
pub mod Accepted
mod Examples
use low_altitude_io_t_system.Common.{◌^◌, overflow_error, ◌-◌, ltb, suc}
use low_altitude_io_t_system.Common.{
  ℕ, zero, suc, ◌+◌, ◌≡◌, refl, Bool, true, false, not, ◌&&◌, ◌||◌, Option, none, some, List, [],
  ◌∷◌, ◌++◌, String, leb, ltb, Result, ok, err, Error, value_error, type_error, key_error, bind,
  require, ◌==◌, string_eq, nat_eq, if◌then◌else◌, length,
}
use low_altitude_io_t_system.Common.Int.{ℤ, pos, negsuc, leb_ℤ, minus, scale}
use low_altitude_io_t_system.Common.Value.{
  Value, null, bool, int, float, str, arr, obj, Float, finite, Fields, end, entry, field, has_field,
  keys, is_in, as_number,
}
use low_altitude_io_t_system.Frame.{
  MessageType, command, mission_begin, mission_item, mission_commit, ack, nack, status,
  link_blocked, auth_challenge, auth_response,
}
use Prim.Native.Char.{code}
use Prim.Native.String

abbrev pub max_mission_items : ℕ
max_mission_items = 100

abbrev pub Check : Type 0
Check = Result (Unit {0})

infixr 5 ◌>>◌
abbrev pub ◌>>◌ : Check → Check → Check
a >> b = bind a λ _. b

abbrev pub all_in : List String → List String → Bool
all_in [] ks = true
all_in (j ∷ js) ks = is_in j ks && all_in js ks

-- `_object` on a dict
unfoldable pub object_fields : Fields → List String → List String → Check
unfolding keys
object_fields payload required optional =
    require (all_in required (keys payload)) (value_error "missing fields")
    >> require (all_in (keys payload) (required ++ optional)) (value_error "unknown fields")

-- `payload[key]`, which `_object` has found, and a value that is checked only where it is there.
abbrev pub check_field : String → Fields → (Value → Check) → Check
check_field k fs check = elim (field k fs) [ none ↦ err (key_error k) | some v ↦ check v ]

abbrev pub check_optional : String → Fields → (Value → Check) → Check
check_optional k fs check = elim (field k fs) [ none ↦ ok tt | some v ↦ check v ]

abbrev codes : String → List ℕ
codes String.[] = []
codes (String.◌∷◌ c s) = code c ∷ codes s

-- `_string`
unfoldable pub string : Bool → Value → Check
string allow_empty (str s) =
    require (allow_empty || not (s == "")) (value_error "must not be empty")
string allow_empty v = err (type_error "must be a string")

-- `_uint32`; a `bool` is no integer here.
unfoldable pub uint32 : Value → Check
uint32 (int (pos n)) = require (leb n 0xffff_ffff) (value_error "must fit uint32")
uint32 (int (negsuc n)) = err (value_error "must fit uint32")
uint32 v = err (type_error "must be an integer")

unfoldable pub nat_at_most : ℕ → Error → Value → Check
nat_at_most limit x (int (pos n)) = require (leb n limit) x
nat_at_most limit x (int (negsuc n)) = err x
nat_at_most limit x v = ok tt

-- `_uint16`
unfoldable pub uint16 : Value → Check
unfolding uint32 nat_at_most
uint16 v = uint32 v >> nat_at_most 0xffff (value_error "must fit uint16") v

is_hex : ℕ → Bool
is_hex c = leb b'0' c && leb c b'9' || leb b'a' c && leb c b'f'

all_hex : List ℕ → Bool
unfolding is_hex
all_hex [] = true
all_hex (c ∷ cs) = is_hex c && all_hex cs

-- Sixty-four lowercase hexadecimal digits.
unfoldable pub hex_digest : String → Bool
unfolding all_hex
hex_digest s = length (codes s) == 64 && all_hex (codes s)

-- `_checksum`, and the check on a challenge.
unfoldable pub checksum : Value → Check
unfolding hex_digest
checksum (str s) =
    require (not (s == "")) (value_error "must not be empty")
    >> require (hex_digest s) (value_error "must be lowercase SHA-256 hex")
checksum v = err (type_error "must be a string")

abbrev pub above : Option ℤ → ℤ → Bool
above none x = true
above (some low) x = leb_ℤ low x

abbrev pub below : Option ℤ → ℤ → Bool
below none x = true
below (some high) x = leb_ℤ x high

abbrev in_range : Option ℤ → Option ℤ → Option ℤ → Check
in_range low high none = err (value_error "must be finite")
in_range low high (some x) =
    require (above low x) (value_error "is below minimum")
    >> require (below high x) (value_error "exceeds maximum")

-- An integer that a float can hold, after rounding; `math.isfinite` raises of any other.
unfoldable pub fits_float : ℤ → Bool
fits_float (pos n) = ltb n (2 ^ 1024 - 2 ^ 970)
fits_float (negsuc n) = ltb (suc n) (2 ^ 1024 - 2 ^ 970)

-- `_number`; the bounds are in units of 1e-7. A `bool` is no number here.
unfoldable pub number : Option ℤ → Option ℤ → Value → Check
unfolding fits_float
number low high (int n) =
    if fits_float n
    then in_range low high (as_number (int n))
    else err (overflow_error "int too large to convert to float")
number low high (float x) = in_range low high (as_number (float x))
number low high v = err (type_error "must be a number")

-- A bound that is a whole number, in those units.
abbrev pub at_least : ℤ → Option ℤ
at_least n = some (scale 10_000_000 n)

abbrev between : ℕ → Value → Check
between limit v = number (at_least (minus limit)) (at_least (pos limit)) v

abbrev is_object : Value → Check
is_object (obj fs) = ok tt
is_object v = err (type_error "must be an object")

abbrev is_boolean : Value → Check
is_boolean (bool b) = ok tt
is_boolean v = err (type_error "must be a boolean")

-- The `frame` field of a mission item.
abbrev uint8 : Value → Check
uint8 (int (pos n)) = require (leb n 255) (value_error "frame must fit uint8")
uint8 (int (negsuc n)) = err (value_error "frame must fit uint8")
uint8 v = err (type_error "frame must be an integer")

abbrev vehicle : Value → Check
vehicle (str s) =
    require (s == "aircraft" || s == "rover") (value_error "vehicle must be aircraft or rover")
vehicle v = err (value_error "vehicle must be aircraft or rover")

-- The branches of `validate_payload`.
unfoldable pub check_mission_count : Fields → Check
check_mission_count p =
    check_field "mission_id" p (string false)
    >> check_field "item_count" p uint32
    >> check_field "item_count" p
        (nat_at_most max_mission_items (value_error "item_count exceeds mission limit"))

unfoldable pub check_mission_item : Fields → Check
check_mission_item p =
    object_fields p ("mission_id" ∷ "index" ∷ "lat" ∷ "lon" ∷ "alt" ∷ [])
      ("command" ∷ "frame" ∷ "param1" ∷ "param2" ∷ "param3" ∷ "param4" ∷ "autocontinue" ∷ [])
    >> check_field "mission_id" p (string false)
    >> check_field "index" p uint32
    >> check_field "index" p (nat_at_most 99 (value_error "index exceeds mission limit"))
    >> check_field "lat" p (between 90)
    >> check_field "lon" p (between 180)
    >> check_field "alt" p (number (at_least (minus 1000)) (at_least (pos 100_000)))
    >> check_optional "command" p uint16
    >> check_optional "frame" p uint8
    >> check_optional "param1" p (between 1_000_000)
    >> check_optional "param2" p (between 1_000_000)
    >> check_optional "param3" p (between 1_000_000)
    >> check_optional "param4" p (between 1_000_000)
    >> check_optional "autocontinue" p is_boolean

abbrev timestamp : Value → Check
timestamp = number (at_least (pos 0)) none

unfoldable pub validate_payload : MessageType → Fields → Check
validate_payload command p =
    object_fields p ("action" ∷ []) ("parameters" ∷ "mode" ∷ [])
    >> check_field "action" p (string false)
    >> check_optional "parameters" p is_object
    >> check_optional "mode" p (string false)
validate_payload mission_begin p =
    object_fields p ("mission_id" ∷ "item_count" ∷ "vehicle" ∷ []) ("checksum" ∷ [])
    >> check_mission_count p
    >> check_field "vehicle" p vehicle
    >> check_optional "checksum" p checksum
validate_payload mission_item p = check_mission_item p
validate_payload mission_commit p =
    object_fields p ("mission_id" ∷ "item_count" ∷ []) ("checksum" ∷ [])
    >> check_mission_count p
    >> check_optional "checksum" p checksum
validate_payload ack p =
    object_fields p ("acked_sequence" ∷ []) [] >> check_field "acked_sequence" p uint32
validate_payload nack p =
    object_fields p ("acked_sequence" ∷ "reason" ∷ []) []
    >> check_field "acked_sequence" p uint32
    >> check_field "reason" p (string false)
validate_payload status p =
    object_fields p ("state" ∷ []) ("detail" ∷ "timestamp" ∷ [])
    >> check_field "state" p (string false)
    >> check_optional "detail" p (string true)
    >> check_optional "timestamp" p timestamp
validate_payload link_blocked p =
    object_fields p ("reason" ∷ []) ("timestamp" ∷ [])
    >> check_field "reason" p (string false)
    >> check_optional "timestamp" p timestamp
validate_payload auth_challenge p =
    object_fields p ("challenge" ∷ []) [] >> check_field "challenge" p checksum
validate_payload auth_response p =
    object_fields p ("challenge" ∷ []) [] >> check_field "challenge" p checksum
