-- ===== src/Mission/Items.antt =====
-- aircraft_agent/mission_worker.py: the items of the MAVLink protocol, from a durable record.
-- `int` and `float` of a text, and the digest of the items' JSON, are parameters.
use low_altitude_io_t_system.Common.Value.{nan}
use low_altitude_io_t_system.Common.Int.{scale}
use low_altitude_io_t_system.Messages.{fits_float}
use low_altitude_io_t_system.Common.{overflow_error}
use low_altitude_io_t_system.Common.{
  Bool, List, Option, Result, String, [], bind, err, if◌then◌else◌, key_error, leb, length, list_eq,
  ltb, nat_eq, none, not, ok, or_raise, pair_eq, require, some, string_eq, suc, true, type_error,
  value_error, ℕ, ◌&&◌, ◌+◌, ◌/◌, ◌==◌, ◌||◌, ◌∷◌,
}
use low_altitude_io_t_system.Common.Value.{
  Fields, Value, as_number, bool, field, finite, float, int, str, truthy, unit,
}
use low_altitude_io_t_system.Common.Int.{eqb_ℤ, is_nonzero, minus, negsuc, pos, scale, ℤ}
use low_altitude_io_t_system.Inbox.{Job, command_job, mission_job}
use low_altitude_io_t_system.Telemetry.{Telemetry}
use low_altitude_io_t_system.Mission.{Item}

abbrev pub truncate : ℤ → ℤ
truncate (pos n) = pos (n / unit)
truncate (negsuc n) = minus (suc n / unit)

module _ (int_text float_text : String → Option ℤ) (sha256_json : List Fields → Result String) where
  -- `int(value)`
  unfoldable pub to_int : Value → Result ℤ
  to_int (bool b) = ok (if b then pos 1 else pos 0)
  to_int (int n) = ok n
  to_int (float (finite v)) = ok (truncate v)
  to_int (float nan) = err (value_error "cannot convert float NaN to integer")
  to_int (float f) = err (overflow_error "cannot convert float infinity to integer")
  to_int (str t) = or_raise (int_text t) (value_error "invalid literal for int()")
  to_int v = err (type_error "int() argument must be a string or a real number")

  -- `float(value)` in units of 1e-7; infinities and NaN do not pass the checks of a payload.
  unfoldable pub to_float : Value → Result ℤ
  unfolding fits_float
  to_float (int n) =
      if fits_float n
      then ok (scale unit n)
      else err (overflow_error "int too large to convert to float")
  to_float (str t) = or_raise (float_text t) (value_error "could not convert string to float")
  to_float v =
      or_raise (as_number v) (type_error "float() argument must be a string or a real number")

  -- `raw.get(name, default)` and `raw[name]`, converted.
  abbrev pub int_or : ℤ → Option Value → Result ℤ
  int_or d none = ok d
  int_or d (some v) = to_int v

  abbrev pub float_or_zero : Option Value → Result ℤ
  float_or_zero none = ok (pos 0)
  float_or_zero (some v) = to_float v

  abbrev pub float_at : String → Fields → Result ℤ
  float_at name raw = bind (or_raise (field name raw) (key_error name)) to_float

  abbrev pub truthy_or_true : Option Value → Bool
  truthy_or_true none = true
  truthy_or_true (some v) = truthy v

  -- MAV_FRAME_GLOBAL_RELATIVE_ALT_INT becomes MAV_FRAME_GLOBAL_RELATIVE_ALT.
  abbrev pub plain_frame : ℤ → ℤ
  plain_frame f = if eqb_ℤ f (pos 6) then pos 3 else f

  -- A NAV_WAYPOINT has no parameters.
  abbrev pub params_supported : ℤ → ℤ → ℤ → ℤ → ℤ → Bool
  params_supported command p1 p2 p3 p4 =
      not (eqb_ℤ command (pos 16))
      || (not (is_nonzero p1)
          && (not (is_nonzero p2) && (not (is_nonzero p3) && not (is_nonzero p4))))

  -- One round of the loop of `_items_from_record`.
  unfoldable pub item_from_raw : ℕ → Fields → Result Item
  unfolding to_int to_float field
  item_from_raw sequence raw = bind (int_or (pos 16) (field "command" raw)) λ command.
      bind (int_or (pos 6) (field "frame" raw)) λ frame.
        bind (float_or_zero (field "param1" raw)) λ p1.
          bind (float_or_zero (field "param2" raw)) λ p2.
            bind (float_or_zero (field "param3" raw)) λ p3.
              bind (float_or_zero (field "param4" raw)) λ p4.
                bind
                  (require (params_supported command p1 p2 p3 p4)
                    (value_error "unsupported simple NAV_WAYPOINT"))
                  λ _. bind (float_at "lat" raw) λ lat. bind (float_at "lon" raw) λ lon.
                    bind (float_at "alt" raw) λ alt. ok (record {
                      seq = sequence;
                      frame = plain_frame frame;
                      command = command;
                      x = lat;
                      y = lon;
                      z = alt;
                      param1 = p1;
                      param2 = p2;
                      param3 = p3;
                      param4 = p4;
                      autocontinue =
                          (if truthy_or_true (field "autocontinue" raw) then pos 1 else pos 0);
                    })

  unfoldable pub items_from_raw : ℕ → List Fields → Result (List Item)
  unfolding item_from_raw
  items_from_raw sequence [] = ok []
  items_from_raw sequence (raw ∷ raws) =
      bind (item_from_raw sequence raw)
        λ item. bind (items_from_raw (sequence + 1) raws) λ items. ok (item ∷ items)

  -- `_items_from_record`
  unfoldable pub items_from_record : Job → Result (List Item)
  unfolding items_from_raw
  items_from_record (command_job id action parameters) =
      err (value_error "complete durable mission record is required")
  items_from_record (mission_job id mission items checksum stage) =
      bind
        (require (stage == "MISSION_STAGED")
          (value_error "durable MISSION_STAGED record is required"))
        λ _.
          bind
            (require (leb 1 (length items))
              (value_error "complete durable mission items are required"))
            λ _.
              bind
                (require (ltb (length items) 100)
                  (value_error "aircraft mission exceeds 99 user items plus protocol Home"))
                λ _. bind (sha256_json items) λ digest.
                  bind
                    (require (digest == checksum) (value_error "durable mission checksum mismatch"))
                    λ _. items_from_raw 0 items

-- `home_alt` in units of 1e-7 metres.
abbrev pub protocol_home : Telemetry → Item
protocol_home t = record {
  seq = 0;
  frame = pos 0;
  command = pos 16;
  x = (if t.home_valid then t.home_lat else pos 0);
  y = (if t.home_valid then t.home_lon else pos 0);
  z = (if t.home_valid then scale 10_000 t.home_alt else pos 0);
  param1 = pos 0;
  param2 = pos 0;
  param3 = pos 0;
  param4 = pos 0;
  autocontinue = pos 1;
}

-- `{**item, "seq": index}` for each item
abbrev pub numbered : ℕ → List Item → List Item
numbered index [] = []
numbered index (i ∷ items) = record i { seq = index } ∷ numbered (index + 1) items

-- `_protocol_items`
unfoldable pub protocol_items : Telemetry → List Item → List Item
protocol_items t items = protocol_home t ∷ numbered 1 items
