-- ===== src/Optical/Examples.antt =====
-- A concrete gate for aircraft_agent/optical_gate.py.
use low_altitude_io_t_system.Common.{
  List, Result, String, [], arith, err, false, list_eq, nat_eq, none, ok, pair_eq, refl,
  runtime_error, some, string_eq, true, ◌==◌, ◌∷◌, ◌≡◌,
}
use low_altitude_io_t_system.Common.Value.{Value, end, entry, str}
use low_altitude_io_t_system.Frame.{Frame, make_frame, mission_item, status}
use low_altitude_io_t_system.Inbox.{clip}
use low_altitude_io_t_system.Optical.{
  Gate, due_frame, next_frame, require_locked, seconds, zero_uuid,
}
use low_altitude_io_t_system.Optical.Frames.{IsGate, Sent, due_frame-Sent}
use low_altitude_io_t_system.Optical.Held.{Call, after_all, blocked_frames, blocks, dues, held_back}

abbrev toy_dumps : Value → Result String
toy_dumps v = ok "{}"

abbrev gate : Gate
gate = record {
  status_interval = 10;
  locked = true;
  reason = "";
  event_timestamp = 3;
  next_status = none;
  sequence = 0xffff_ffff;
}

gate-IsGate : IsGate gate
gate-IsGate = record { sequence_lt = omega arith; reason_given = λ e. absurd (cc) }

abbrev blocked_gate : Gate
blocked_gate = record gate { locked = false; reason = "optical_blocked" }

not_empty : (blocked_gate.reason == "") ≡ false
not_empty = refl

blocked-IsGate : IsGate blocked_gate
blocked-IsGate = record { sequence_lt = omega arith; reason_given = λ e. not_empty }

abbrev status_frame : Frame
status_frame = record {
  message_type = status;
  flags = 0;
  sequence = 0xffff_ffff;
  command_id = zero_uuid;
  payload =
      entry "state" (str "locked") (entry "detail" (str "{}") (entry "timestamp" (seconds 20) end));
}

abbrev sent_gate : Gate
sent_gate = record gate { next_status = some 30; sequence = 0 }

-- The sequence starts again at 0.
status_sent : due_frame toy_dumps 20 none end gate ≡ (ok (some status_frame), sent_gate)
unfolding due_frame next_frame make_frame clip
status_sent = refl

due_frame-Sent_example : Sent 20 gate status_frame sent_gate
due_frame-Sent_example =
    due_frame-Sent toy_dumps 20 none end gate sent_gate status_frame gate-IsGate status_sent

abbrev calls : List Call
calls = dues 20 none end ∷ blocks 21 "" none ∷ blocked_frames ∷ dues 25 none end ∷ []

held_back_example :
    (reason : String) × (require_locked mission_item (after_all toy_dumps calls blocked_gate)
      ≡ err (runtime_error reason))
    × ((reason == "") ≡ false)
held_back_example = held_back toy_dumps calls blocked_gate mission_item blocked-IsGate refl tt refl
