-- ===== src/Mission/Examples.antt =====
-- A mission of one waypoint, uploaded to a flight controller that answers as it should.
use low_altitude_io_t_system.Common.{
  Bool, List, Option, Result, String, [], false, length, list_eq, max, nat_eq, none, ok, pair_eq,
  refl, some, string_eq, suc, true, zero, ℕ, ◌*◌, ◌+◌, ◌==◌, ◌∷◌, ◌≡◌, ◌≤◌,
}
use low_altitude_io_t_system.Common.Int.{pos, ℤ}
use low_altitude_io_t_system.Common.Bits.{bit}
use low_altitude_io_t_system.Common.Value.{Fields, end, entry, finite, float, int, nan}
use low_altitude_io_t_system.Inbox.{Job, mission_job}
use low_altitude_io_t_system.Telemetry.{Telemetry, execution_gate, new_telemetry}
use low_altitude_io_t_system.Mission.{
  Item, Kind, Message, Settings, World, matches, mission_ack, mission_count, mission_item_int,
  mission_request, mission_request_int, other_kind, receive, send_set_mode, transaction_receive,
}
use low_altitude_io_t_system.Mission.Items.{
  items_from_record, numbered, protocol_home, protocol_items,
}
use low_altitude_io_t_system.Mission.Kept.{orders}
use low_altitude_io_t_system.Mission.Transfer.{
  answer_request, clear, download, upload, verify, verify_item, verify_protocol_home,
}
use low_altitude_io_t_system.Mission.Ends.{EndsIn, upload-EndsIn}
use low_altitude_io_t_system.Mission.Execute.{MissionResult, execute, finish, second, transfer}
use low_altitude_io_t_system.Mission.Verified.{OnBoard, execute_verified}
use low_altitude_io_t_system.Mission.Deadline.{Ordered, execute_deadline, execute_orders}

abbrev plain : Kind → Message
plain kind = record {
  kind = kind;
  mission_type = some 0;
  target_system = none;
  target_component = none;
  source_system = none;
  get_src_system = some 1;
  source_component = none;
  get_src_component = none;
  result = none;
  result_type = some (pos 0);
  seq = none;
  count = none;
  frame = none;
  command = some (pos 16);
  x = none;
  y = none;
  z = none;
  param1 = none;
  param2 = none;
  param3 = none;
  param4 = none;
  autocontinue = none;
}

abbrev settings : Settings
settings = record {
  timeout = 10_000_000;
  retries = 2;
  operation_timeout = 150_000_000;
  max_sequence_requests = 5;
  coordinate_tolerance = 1;
  altitude_tolerance = 2_500_000;
  param_tolerance = 1000;
  gcs_system = 255;
  gcs_component = 0;
  own_target_system = 1;
  own_target_component = 1;
}

abbrev waypoint : Fields
waypoint =
    entry "lat" (float (finite (pos 310_000_000)))
      (entry "lon" (float (finite (pos 1_210_000_000))) (entry "alt" (int (pos 20)) end))

abbrev staged : Job
staged = mission_job "c1" "m1" (waypoint ∷ []) "digest" "MISSION_STAGED"

abbrev toy_digest : List Fields → Result String
toy_digest items = ok "digest"

abbrev no_int : String → Option ℤ
no_int text = none

-- The answers, one every tenth of a second; the second request of item 0 is a repeat.
abbrev answers_at : ℕ → List (ℕ × Message)
answers_at start =
    (start + 1_000_000, plain mission_ack)
    ∷ (start + 2_000_000, record (plain mission_request) { seq = some (pos 0) })
    ∷ (start + 3_000_000, record (plain mission_request_int) { seq = some (pos 0) })
    ∷ (start + 4_000_000, record (plain mission_request_int) { seq = some (pos 1) })
    ∷ (start + 5_000_000, plain other_kind)
    ∷ (start + 6_000_000, plain mission_ack)
    ∷ (start + 7_000_000, record (plain mission_count) { count = some (pos 2) })
    ∷ (
      start + 8_000_000,
      record (plain mission_item_int) { seq = some (pos 0); frame = some (pos 0) },
    )
    ∷ (
      start + 9_000_000,
      record (plain mission_item_int) {
        seq = some (pos 1);
        frame = some (pos 3);
        x = some (finite (pos 310_000_001));
        y = some (finite (pos 1_210_000_000));
        z = some (finite (pos 200_000_000));
      },
    )
    ∷ []

abbrev idle : World
idle = record { now = 50; script = answers_at 50; sent = []; transaction_active = false }

abbrev has_auto : String → Bool
has_auto mode = mode == "AUTO"

abbrev same_text : String → String
same_text text = text

abbrev flown : Result MissionResult × World
flown =
    execute has_auto no_int no_int same_text toy_digest settings 30_000_000 new_telemetry
      new_telemetry staged true idle

abbrev gate_closed : MissionResult
gate_closed = record {
  verified = true;
  execution_ready = false;
  reason =
      "missing GPS fix, satellites, position, Home, EKF, GPS stale, position stale, Home stale, EKF stale";
  item_count = 1;
}

flown_eq : flown.0 ≡ ok gate_closed
unfolding execute clear upload download receive transaction_receive matches answer_request verify
    verify_protocol_home transfer finish execution_gate bit protocol_items
flown_eq = refl

execute_verified_example :
    (items : List Item) × (items_from_record no_int no_int toy_digest staged ≡ ok items)
    × OnBoard settings idle.script (protocol_home new_telemetry) (numbered 1 items)
    × (gate_closed.item_count ≡ length items)
execute_verified_example =
    execute_verified has_auto no_int no_int same_text toy_digest settings 30_000_000 new_telemetry
      new_telemetry staged true idle gate_closed flown_eq

execute_deadline_example : flown.1.now ≤ 50 + 150_000_000 + max second 10_000_000
execute_deadline_example =
    execute_deadline has_auto no_int no_int same_text toy_digest settings 30_000_000 new_telemetry
      new_telemetry staged true idle

-- What the aircraft has reported by the time when the gate is asked.
abbrev reported : Telemetry
reported = record new_telemetry {
  gps_fix = 3;
  satellites = 9;
  lat = pos 310_000_000;
  lon = pos 1_210_000_000;
  home_valid = true;
  ekf_flags = 0x33;
  gps_at = 6_000_000;
  position_at = 6_000_000;
  home_at = 6_000_000;
  ekf_at = 6_000_000;
}

abbrev started : Result MissionResult × World
started =
    execute has_auto no_int no_int same_text toy_digest settings 30_000_000 new_telemetry reported
      staged true idle

started_orders : orders started.1.sent ≡ send_set_mode "AUTO" ∷ []
unfolding execute clear upload download receive transaction_receive matches answer_request verify
    verify_protocol_home transfer finish execution_gate bit protocol_items
started_orders = refl

execute_orders_example :
    Ordered has_auto settings 30_000_000 new_telemetry reported true
      (items_from_record no_int no_int toy_digest staged)
      idle
      started.1
execute_orders_example =
    execute_orders has_auto no_int no_int same_text toy_digest settings 30_000_000 new_telemetry
      reported staged true idle

-- Two items are requested, the second of them for ever: the sixth request of it is refused.
abbrev asked_again : ℕ → List (ℕ × Message)
asked_again zero = []
asked_again (suc n) = (60, record (plain mission_request) { seq = some (pos 1) }) ∷ asked_again n

abbrev two_items : List Item
two_items = protocol_home new_telemetry ∷ protocol_home new_telemetry ∷ []

upload-EndsIn_example :
    EndsIn
      (1 + (2 * 5 + 1) * 4)
      (record idle { script = asked_again 40 })
      (upload settings 100 two_items (record idle { script = asked_again 40 }))
upload-EndsIn_example =
    upload-EndsIn settings 100 two_items (record idle { script = asked_again 40 })

-- An altitude and a parameter that are NaN pass the verification.
nan_verified :
    verify_item settings (protocol_home new_telemetry) (record {
      seq = 0;
      frame = pos 0;
      command = pos 16;
      x = pos 0;
      y = pos 0;
      z = nan;
      param1 = nan;
      param2 = finite (pos 0);
      param3 = finite (pos 0);
      param4 = finite (pos 0);
      autocontinue = pos 1;
    })
    ≡ ok tt
unfolding verify_item
nan_verified = refl
