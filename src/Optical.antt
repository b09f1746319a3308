-- ===== src/Optical.antt =====
-- aircraft_agent/optical_gate.py: the gate that holds back commands while the optical link is not
-- locked, and its status frames. Times are units of 1e-7 seconds; a reading of the clock is an
-- argument of the call that takes it. `json.dumps` is a parameter.
pub mod Frames
pub mod Held
mod Examples
use low_altitude_io_t_system.Common.{
  Bool, Bool-cases, Eq, Option, Result, String, bind, err, false, if◌then◌else◌, list_eq, ltb,
  nat_eq, none, not, ok, pair_eq, require, runtime_error, some, string_eq, true, value_error, ℕ,
  ◌%◌, ◌&&◌, ◌+◌, ◌^◌, ◌≢◌,
}
use low_altitude_io_t_system.Common.Int.{pos}
use low_altitude_io_t_system.Common.Value.{Fields, Value, end, entry, finite, float, obj, str}
use low_altitude_io_t_system.Frame.{
  Frame, MessageType, command, link_blocked, make_frame, mission_begin, mission_commit,
  mission_item, status,
}
use low_altitude_io_t_system.Inbox.{clip, first_text}

-- `_next_status` is nothing where it is minus infinity.
pub record Gate : Type 0 where
  pub status_interval : ℕ
  pub locked : Bool
  pub reason : String
  pub event_timestamp : ℕ
  pub next_status : Option ℕ
  pub sequence : ℕ

unfoldable pub make_gate : ℕ → ℕ → Result Gate
make_gate clock_now status_interval =
    bind (require (ltb 0 status_interval) (value_error "status_interval must be positive")) λ _.
      ok (record {
        status_interval = status_interval;
        locked = false;
        reason = "optical_not_locked";
        event_timestamp = clock_now;
        next_status = none;
        sequence = 0;
      })

-- `_time`
abbrev pub time_of : ℕ → Option ℕ → ℕ
time_of clock_now none = clock_now
time_of clock_now (some t) = t

unfoldable pub set_locked : ℕ → Option ℕ → Gate → Gate
set_locked clock_now timestamp g = record g {
  locked = true;
  reason = "";
  event_timestamp = time_of clock_now timestamp;
  next_status = none;
}

unfoldable pub set_blocked : ℕ → String → Option ℕ → Gate → Gate
unfolding clip
set_blocked clock_now reason timestamp g = record g {
  locked = false;
  reason = first_text (clip 128 reason) "optical_blocked";
  event_timestamp = time_of clock_now timestamp;
  next_status = none;
}

-- `CLOUD_COMMAND_TYPES`
abbrev pub is_cloud_command : MessageType → Bool
is_cloud_command command = true
is_cloud_command mission_begin = true
is_cloud_command mission_item = true
is_cloud_command mission_commit = true
is_cloud_command kind = false

unfoldable pub require_locked : MessageType → Gate → Result Bool
require_locked kind g =
    if is_cloud_command kind && not g.locked then err (runtime_error g.reason) else ok true

abbrev pub zero_uuid : String
zero_uuid = "00000000-0000-0000-0000-000000000000"

-- `_frame`
unfoldable pub next_frame : MessageType → Fields → Gate → Result Frame × Gate
unfolding make_frame
next_frame kind payload g = elim (make_frame kind 0 g.sequence zero_uuid (obj payload)) [
  | err x ↦ (err x, g)
  | ok f ↦ (ok f, record g { sequence = (g.sequence + 1) % 2 ^ 32 })
]

abbrev pub seconds : ℕ → Value
seconds t = float (finite (pos t))

abbrev pub blocked_payload : Gate → Fields
blocked_payload g =
    entry "reason" (str g.reason) (entry "timestamp" (seconds g.event_timestamp) end)

unfoldable pub blocked_frame : Gate → Result Frame × Gate
unfolding next_frame
blocked_frame g =
    if g.locked
    then (err (runtime_error "optical link is locked"), g)
    else next_frame link_blocked (blocked_payload g) g

abbrev pub some_frame : Result Frame × Gate → Result (Option Frame) × Gate
some_frame (ok f, g) = (ok (some f), g)
some_frame (err x, g) = (err x, g)

abbrev pub before : ℕ → Option ℕ → Bool
before now none = false
before now (some t) = ltb now t

module _ (dumps : Value → Result String) where
  -- `due_frame`; the next status is set before `json.dumps` may raise.
  unfoldable pub due_frame : ℕ → Option ℕ → Fields → Gate → Result (Option Frame) × Gate
  unfolding next_frame clip
  due_frame clock_now now snapshot g =
      let t = time_of clock_now now in
      if before t g.next_status
      then (ok none, g)
      else let g' : Gate = record g { next_status = some (t + g.status_interval) } in
        if not g.locked
        then some_frame (next_frame link_blocked (blocked_payload g') g')
        else elim (dumps (obj snapshot)) [
          | err x ↦ (err x, g')
          | ok text ↦ some_frame (
              next_frame status
                (entry "state" (str "locked")
                  (entry "detail" (str (clip 256 text)) (entry "timestamp" (seconds t) end)))
                g')
        ]
