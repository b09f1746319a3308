-- ===== src/Router.antt =====
-- rdk_agent/command_router.py: a command from the cloud, and the vehicle that it is meant for. `str`
-- of a value, `str.strip`, `str.lstrip`, `str.lower`, `float` of a text, `json.loads` and `uuid.UUID` are
-- parameters, as is the new id that `uuid.uuid4` makes.
use low_altitude_io_t_system.Common.Value.{int}
use low_altitude_io_t_system.Common.Value.{unit}
use low_altitude_io_t_system.Common.Int.{scale}
use low_altitude_io_t_system.Messages.{fits_float}
use low_altitude_io_t_system.Common.{overflow_error, or_raise}
use low_altitude_io_t_system.Common.{
  Bool, Bool-cases, Eq, List, Option, Result, String, [], bind, err, false, if◌then◌else◌, list_eq,
  ltb, nat_eq, none, not, ok, or_raise, pair_eq, require, some, string_eq, suc, true, type_error,
  value_error, zero, ℕ, ◌*◌, ◌/◌, ◌==◌, ◌||◌, ◌∷◌, ◌≢◌,
}
use low_altitude_io_t_system.Common.Value.{
  Fields, Float, Value, as_number, end, entry, field, finite, float, has_field, is_in, null, obj,
  put_field, str, truthy, unit,
}
use low_altitude_io_t_system.Common.Int.{pos}
use low_altitude_io_t_system.Link.{CloudCommand}
pub mod Route
pub mod Cloud
pub mod Isolated
pub mod Locked
mod Examples
use text.Mathlib.Text.{starts_with}
use Prim.Native.String

-- `_flatten`: the values of an object, out of their wrapping.
abbrev unwrapped : Value → Value
unwrapped (obj fs) = elim (field "value" fs) [ none ↦ obj fs | some v ↦ v ]
unwrapped v = v

unfoldable pub flatten_fields : Fields → Fields
flatten_fields end = end
flatten_fields (entry k v rest) = entry k (unwrapped v) (flatten_fields rest)

abbrev pub flatten : Value → Result Fields
flatten (obj fs) = ok (flatten_fields fs)
flatten v = err (type_error "cloud command must be an object")

-- `data.get(key, ...)` with what stands behind it.
abbrev pub get_or : Option Value → String → Fields → Option Value
get_or other key fields = if has_field key fields then field key fields else other

-- `value in (None, "")`, where a missing key is None.
abbrev pub is_blank : Option Value → Bool
is_blank none = true
is_blank (some null) = true
is_blank (some (str t)) = t == ""
is_blank (some v) = false

-- `text[n:]`
unfoldable pub drop_text : ℕ → String → String
drop_text zero s = s
drop_text (suc n) String.[] = ""
drop_text (suc n) (String.◌∷◌ c s) = drop_text n s

-- `merged.update({key: value for key, value in data.items() if key not in excluded})`
unfoldable pub update_fields : List String → Fields → Fields → Fields
unfolding put_field
update_fields excluded merged end = merged
update_fields excluded merged (entry k v rest) =
    let merged' : Fields = if is_in k excluded then merged else put_field k v merged in
    update_fields excluded merged' rest

abbrev pub excluded_keys : List String
excluded_keys =
    "command_id" ∷ "source_timestamp" ∷ "timestamp" ∷ "time" ∷ "target" ∷ "action" ∷ "command"
    ∷ "last_command" ∷ "payload" ∷ []

-- The target and the action that a text stands for, and the mode of the network that it asks for.
pub record Meant : Type 0 where
  pub target : String
  pub action : String
  pub mode : Option String

unfoldable pub meant : String → String → Meant
unfolding drop_text
meant raw_action explicit_target =
    let aimed : String =
      (if is_in explicit_target ("aircraft" ∷ "aircraft_1" ∷ "aircraft_2" ∷ [])
        then explicit_target
        else "aircraft") in
    if raw_action == "network_phone" || raw_action == "network_aircraft"
    then record { target = "system"; action = "network_mode"; mode = some (drop_text 8 raw_action) }
    else if starts_with raw_action "aircraft_2_"
    then record { target = "aircraft_2"; action = drop_text 11 raw_action; mode = none }
    else if starts_with raw_action "aircraft_1_"
    then record { target = "aircraft_1"; action = drop_text 11 raw_action; mode = none }
    else if starts_with raw_action "aircraft_"
    then record { target = aimed; action = drop_text 9 raw_action; mode = none }
    else record {
      target = (if explicit_target == "" then "rover" else explicit_target);
      action = raw_action;
      mode = none;
    }

abbrev pub targets : List String
targets = "rover" ∷ "aircraft" ∷ "aircraft_1" ∷ "aircraft_2" ∷ "system" ∷ []

-- `payload["mode"] = ...`
abbrev pub with_mode : Option String → Fields → Fields
with_mode none payload = payload
with_mode (some m) payload = put_field "mode" (str m) payload

-- `result > 10_000_000_000`, which is a time in milliseconds.
abbrev pub milliseconds : ℕ
milliseconds = 10_000_000_000 * unit

abbrev pub in_seconds : Float → Float
in_seconds (finite (pos n)) = finite (pos (if ltb milliseconds n then n / 1000 else n))
in_seconds f = f

module _ (to_str : Value → String) (strip lstrip lower : String → String)
    (float_text : String → Option Float) (loads : String → Option Value)
    (parse_uuid : String → Option String) where
  -- `float(value)`
  unfoldable pub to_real : Value → Result Float
  unfolding fits_float
  to_real (float f) = ok f
  to_real (int n) =
      if fits_float n
      then ok (finite (scale unit n))
      else err (overflow_error "int too large to convert to float")
  to_real (str t) = or_raise (float_text t) (value_error "could not convert string to float")
  to_real v = elim (as_number v) [
    | none ↦ err (type_error "float() argument must be a string or a real number")
    | some x ↦ ok (finite x)
  ]

  -- `_timestamp`
  unfoldable pub timestamp : Option Value → ℕ → Result Float
  unfolding to_real
  timestamp none fallback = ok (finite (pos fallback))
  timestamp (some v) fallback =
      let given = bind (to_real v) λ f. ok (in_seconds f) in
      if is_blank (some v) then ok (finite (pos fallback)) else given

  -- `_number_if_present` and the assignment behind it
  unfoldable pub make_number : String → Fields → Result Fields
  unfolding to_real field put_field
  make_number key fields = elim (field key fields) [
    | none ↦ ok fields
    | some v ↦
        let number = bind (to_real v) λ f. ok (put_field key (float f) fields) in
        if is_blank (some v) then ok fields else number
  ]

  -- The data with an envelope in the text of the command merged in.
  unfoldable pub opened : Fields → Fields
  unfolding update_fields
  opened fields =
      elim (get_or (get_or (field "last_command" fields) "action" fields) "command" fields) [
        | some (str t) ↦
            let inside : Fields = elim (loads t) [
              | some (obj envelope) ↦ update_fields ("command" ∷ []) envelope fields
              | o ↦ fields
            ] in
            if starts_with (lstrip t) "{" then inside else fields
        | o ↦ fields
      ]

  -- `str(value or default).strip().lower()`
  abbrev pub text_of : String → Option Value → String
  text_of default none = lower (strip default)
  text_of default (some v) = lower (strip (if truthy v then to_str v else default))

  abbrev pub inner_payload : Option Value → Fields
  inner_payload (some (obj fs)) = fs
  inner_payload o = end

  -- `uuid.UUID(str(raw_id)) if raw_id else uuid.uuid4()`
  abbrev pub id_of : String → Option Value → Result String
  id_of fresh none = ok fresh
  id_of fresh (some v) =
      if truthy v
      then or_raise (parse_uuid (to_str v)) (value_error "badly formed hexadecimal UUID string")
      else ok fresh

  -- The target and the action of the data, where both are allowed.
  unfoldable pub meaning : Fields → Result Meant
  unfolding meant
  meaning fields =
      let m =
        meant
          (text_of "noop"
            (get_or (get_or (field "last_command" fields) "command" fields) "action" fields))
          (text_of "" (field "target" fields)) in
      bind
        (require (is_in m.target targets)
          (value_error "target must be rover, aircraft, aircraft_1, aircraft_2, or system"))
        λ _.
          bind (require (not (m.action == "")) (value_error "action must not be empty")) λ _. ok m

  -- The payload, with the data that is no part of the command's head.
  unfoldable pub merged_payload : Meant → Fields → Fields
  unfolding update_fields
  merged_payload m fields =
      update_fields excluded_keys (with_mode m.mode (inner_payload (field "payload" fields))) fields

  unfoldable pub numbers : Fields → Result Fields
  unfolding make_number
  numbers payload =
      bind (make_number "target_lat" payload)
        λ p. bind (make_number "target_lng" p) λ q. make_number "target_speed" q

  abbrev pub command_of : Meant → Fields → String → Float → CloudCommand
  command_of m payload id t = record {
    command_id = id;
    source_timestamp = t;
    target = m.target;
    action = m.action;
    payload = payload;
  }

  abbrev pub time_of : ℕ → Fields → Result Float
  time_of clock fields =
      timestamp (get_or (get_or (field "time" fields) "timestamp" fields) "source_timestamp" fields)
        clock

  unfoldable pub from_fields : Fields → ℕ → String → Result CloudCommand
  unfolding meaning merged_payload numbers timestamp
  from_fields fields clock fresh = bind (meaning fields) λ m.
      bind (numbers (merged_payload m fields)) λ payload.
        bind (id_of fresh (field "command_id" fields))
          λ id. bind (time_of clock fields) λ t. ok (command_of m payload id t)

  -- `from_cloud`
  unfoldable pub from_cloud : Value → ℕ → String → Result CloudCommand
  unfolding opened from_fields
  from_cloud raw clock fresh = bind (flatten raw) λ fields. from_fields (opened fields) clock fresh
