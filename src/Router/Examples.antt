-- ===== src/Router/Examples.antt =====
-- Commands from the cloud to the network, an aircraft and the rover.
use low_altitude_io_t_system.Common.{
  List, Option, Result, String, [], err, if◌then◌else◌, list_eq, nat_eq, none, ok, pair_eq, refl,
  rejected, replicate, some, string_eq, ℕ, ◌*◌, ◌+◌, ◌==◌, ◌∷◌, ◌≡◌,
}
use low_altitude_io_t_system.Common.Value.{
  Fields, Float, Value, end, entry, field, finite, float, has_field, int, keys, nan, obj, put_field,
  str, unit,
}
use low_altitude_io_t_system.Common.Dict.{get, has_key, put}
use low_altitude_io_t_system.Common.Int.{pos, ℤ}
use low_altitude_io_t_system.Auth.{Bytes}
use low_altitude_io_t_system.Frame.{make_frame, type_code}
use low_altitude_io_t_system.Frame.Codec.{canonical_payload, encode_frame, pack_frame_header}
use low_altitude_io_t_system.Messages.{object_fields, string, validate_payload}
use low_altitude_io_t_system.Transport.Sender.{queue}
use low_altitude_io_t_system.Link.{CloudCommand, Link, set_stage}
use low_altitude_io_t_system.Link.Send.{
  acquire_and_queue, execute, execute_frames, fragment_payload, frames_of, make_checked,
  make_frames, payloads_of, queue_all,
}
use low_altitude_io_t_system.Router.{
  drop_text, flatten_fields, from_cloud, from_fields, make_number, meaning, meant, merged_payload,
  numbers, opened, timestamp, to_real, update_fields,
}
use low_altitude_io_t_system.Router.Route.{Fleet, dispatch, execute_mode, route, submit_mission}
use low_altitude_io_t_system.Router.Isolated.{Isolated, route-Isolated}
use low_altitude_io_t_system.Router.Cloud.{IsFromCloud, from_cloud-IsFromCloud}
use low_altitude_io_t_system.Router.Locked.{Locked, route-Locked, run_link}

abbrev text : Value → String
text (str t) = t
text v = "?"

abbrev same : String → String
same s = s

abbrev no_float : String → Option Float
no_float s = if s == "nan" then some nan else none

abbrev loads : String → Option Value
loads s = none

abbrev uuid : String → Option String
uuid s = some s

abbrev read : Value → ℕ → Result CloudCommand
read raw clock = from_cloud text same same same no_float loads uuid raw clock "u0"

-- An executor that counts what it was given, and does not fail.
abbrev count : CloudCommand → ℕ → Result String × ℕ
count c n = (ok c.target, n + 1)

abbrev Vehicles : Type 0
Vehicles = Fleet ℕ ℕ ℕ (Option String)

abbrev idle : Vehicles
idle = record { rover = 0; aircraft = 0; aircraft_2 = 0; system = none }

abbrev send : ℕ → String → CloudCommand → Vehicles → Result String × Vehicles
send now optical c f = route count count none (some (execute_mode text)) (10 * unit) now optical c f

abbrev raw_network : Value
raw_network = obj (
    entry "command" (str "network_phone")
      (entry "command_id" (obj (entry "value" (str "c7") end)) end))

abbrev network_command : CloudCommand
network_command = record {
  command_id = "c7";
  source_timestamp = finite (pos 50);
  target = "system";
  action = "network_mode";
  payload = entry "mode" (str "phone") end;
}

network_read : read raw_network 50 ≡ ok network_command
unfolding from_cloud flatten_fields field has_field opened from_fields meaning meant drop_text
    merged_payload update_fields put_field numbers make_number timestamp
network_read = refl

network_sent :
    send 60 "blocked" network_command idle ≡ (ok "scheduled", record idle { system = some "phone" })
unfolding route dispatch execute_mode field
network_sent = refl

abbrev raw_takeoff : Value
raw_takeoff = obj (
    entry "action" (str "aircraft_1_takeoff") (
      entry "target" (str "rover")
        (entry "target_lat" (int (pos 31)) (entry "time" (float (finite (pos 40))) end))))

abbrev takeoff_command : CloudCommand
takeoff_command = record {
  command_id = "u0";
  source_timestamp = finite (pos 40);
  target = "aircraft_1";
  action = "takeoff";
  payload = entry "target_lat" (float (finite (pos (31 * unit)))) end;
}

takeoff_read : read raw_takeoff 50 ≡ ok takeoff_command
unfolding from_cloud flatten_fields field has_field opened from_fields meaning meant drop_text
    merged_payload update_fields put_field numbers make_number to_real timestamp
takeoff_read = refl

takeoff_sent : send 60 "locked" takeoff_command idle ≡ (ok "aircraft", record idle { aircraft = 1 })
unfolding route dispatch
takeoff_sent = refl

takeoff_blocked :
    send 60 "blocked" takeoff_command idle
    ≡ (err (rejected "aircraft command rejected: optical link blocked"), idle)
unfolding route dispatch
takeoff_blocked = refl

-- A timestamp that is no number passes both checks of the age.
nan_sent :
    send 60 "locked" (record takeoff_command { source_timestamp = nan }) idle
    ≡ (ok "aircraft", record idle { aircraft = 1 })
unfolding route dispatch
nan_sent = refl

mission_stays_out :
    submit_mission count count none
      (some (execute_mode text))
      (10 * unit)
      60
      60
      "blocked"
      "u1"
      end
      idle
    ≡ (err (rejected "aircraft command rejected: optical link blocked"), idle)
unfolding submit_mission route dispatch
mission_stays_out = refl

route-Isolated_example :
    Isolated count count none
      (some (execute_mode text))
      (10 * unit)
      60
      "locked"
      takeoff_command
      idle
      (send 60 "locked" takeoff_command idle)
route-Isolated_example =
    route-Isolated count count none (some (execute_mode text)) (10 * unit) 60 "locked"
      takeoff_command idle

from_cloud-IsFromCloud_example :
    IsFromCloud text same same same no_float loads uuid "u0" takeoff_command
from_cloud-IsFromCloud_example =
    from_cloud-IsFromCloud text same same same no_float loads uuid raw_takeoff 50 "u0"
      takeoff_command takeoff_read

-- Stand-ins for the encoding of frames.
abbrev no_bytes : Value → Result Bytes
no_bytes v = ok (0 ∷ [])

abbrev no_value : Bytes → Option Value
no_value b = some (obj end)

abbrev no_crc : Bytes → ℕ
no_crc b = 0

abbrev sixteen : String → Bytes
sixteen s = replicate 16 9

abbrev no_id : Bytes → String
no_id b = "u0"

abbrev no_number : String → Option ℤ
no_number s = none

abbrev digest : List Fields → Result String
digest items = ok "digest"

abbrev decimal : ℕ → String
decimal n = "n"

abbrev count_link : CloudCommand → ℕ → Result (String × ℕ) × ℕ
count_link c n = (ok (c.target, 0), n + 1)

abbrev idle_link : Link
idle_link = record {
  sender = record {
    max_attempts = 2;
    retry_interval = 5;
    max_pending = 1024;
    pending = [];
    exhausted = [];
  };
  next_sequence = 0;
  stage = "idle";
  error = "";
  transaction_id = "";
  active_command_id = none;
  revision = 0;
  terminal = [];
  terminal_limit = 8;
  fragment_transactions = [];
  fragment_commit = [];
}

abbrev linked : Fleet ℕ Link ℕ ℕ
linked = record { rover = 0; aircraft = idle_link; aircraft_2 = 0; system = 0 }

abbrev link_at : ℕ → CloudCommand → Link → Result (String × ℕ) × Link
link_at =
    run_link no_bytes no_value no_crc sixteen no_id text same no_number no_number digest decimal

-- A takeoff takes the lock of the link.
taken :
    (route count_link
      (link_at 7)
      none
      none
      (10 * unit)
      60
      "locked"
      takeoff_command
      linked).1.aircraft.active_command_id
    ≡ some "u0"
unfolding route dispatch execute execute_frames frames_of payloads_of fragment_payload has_key get
    make_frames make_checked make_frame encode_frame canonical_payload validate_payload
    acquire_and_queue queue_all queue put set_stage object_fields string field has_field keys
    type_code pack_frame_header
taken = refl

route-Locked_example :
    Locked no_bytes no_value no_crc sixteen no_id text same no_number no_number digest decimal 7
      (10 * unit)
      60
      "locked"
      takeoff_command
      idle_link
      (route count_link
        (link_at 7)
        none
        none
        (10 * unit)
        60
        "locked"
        takeoff_command
        linked).1.aircraft
route-Locked_example =
    route-Locked no_bytes no_value no_crc sixteen no_id text same no_number no_number digest decimal
      count_link none none 7 (10 * unit) 60 "locked" takeoff_command linked
