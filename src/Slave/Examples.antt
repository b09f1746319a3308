-- ===== src/Slave/Examples.antt =====
-- A concrete node queue for slave_agent/command_queue.py.
use low_altitude_io_t_system.Common.{
  Bool, Error, List, arith, Option, Result, String, [], err, false, list_eq, nat_eq, none, ok,
  pair_eq, refl, runtime_error, some, string_eq, true, ℕ, ◌∷◌, ◌≡◌, ◌≢◌,
}
use low_altitude_io_t_system.Common.Value.{Value, end, entry, field, has_field, keys, str}
use low_altitude_io_t_system.Common.Dict.{delete, get, put}
use low_altitude_io_t_system.Frame.{make_frame, type_code}
use low_altitude_io_t_system.Messages.{object_fields, string, validate_payload}
use low_altitude_io_t_system.Auth.{Bytes}
use low_altitude_io_t_system.Inbox.{
  accept, accept_new, apply_on, command_record, empty_state, enqueue, find_accepted, fingerprint,
  lost, remember, replaced, save, written,
}
use low_altitude_io_t_system.Slave.{
  Delivered, NodeMessage, NodeQueue, QueueAcceptance, Saves, calibrate, emit_stage, expired,
  from_future, save_delivery, trim_delivery,
}
use low_altitude_io_t_system.Slave.Mission.{accept_locked, command_frame}
use low_altitude_io_t_system.Slave.Delivery.{
  completed, deduplicate, delivery_fingerprint, mark_delivered, new_record, note_result,
  note_results, record_delivery, undelivered,
}
use low_altitude_io_t_system.Slave.Accept.{accept_message, accept_recorded, accept_timely}
use low_altitude_io_t_system.Slave.Refused.{accept_message_refused}
use low_altitude_io_t_system.Slave.History.{
  Call, HaveRoom, accepts, after_all, delivers, reports, works,
}
use low_altitude_io_t_system.Slave.Once.{accepted_command_once}

abbrev toy_dumps : Value → Result Bytes
toy_dumps v = ok (1 ∷ [])

abbrev toy_uuid : String → Bool
toy_uuid s = true

abbrev toy_loads : Bytes → Option Value
toy_loads bytes = none

abbrev toy_sha : Bytes → String
toy_sha bytes = "sha"

abbrev toy_text : String → String
toy_text s = s

abbrev toy_sum : Value → String
toy_sum v = "sum"

abbrev node_queue : NodeQueue
node_queue = record {
  inbox = record {
    limits = record {
      max_queue = 2;
      max_history = 4;
      max_staged = 2;
      max_resume_items = 4;
      max_results = 2;
    };
    state = empty_state;
    disk = empty_state;
  };
  max_age = 30;
  max_future_skew = 10;
  max_records = 2;
  offset = none;
  commands = [];
  stored = [];
  stages = [];
}

abbrev arm : ℕ → NodeMessage
arm n = record {
  kind = "command";
  source = "rover";
  command_id = "c1";
  sequence = n;
  timestamp = 1000;
  payload = entry "action" (str "arm") end;
}

abbrev saves : Saves
saves = record { record_save = written; inbox_save = written; undo_save = written }

abbrev failure : Error
failure = runtime_error "save"

abbrev failing : Saves
failing = record { record_save = written; inbox_save = lost failure; undo_save = replaced failure }

abbrev send : Saves → ℕ → NodeMessage → NodeQueue → Result QueueAcceptance × NodeQueue
send s t m q = accept_message toy_dumps toy_uuid toy_loads toy_sha toy_text toy_sum s true t t m q

abbrev armed : NodeQueue
armed = (send saves 500 (arm 7) node_queue).1

abbrev answer : QueueAcceptance
answer = record { stage = "QUEUED"; duplicate = false; sequence = 7 }

-- The peer's clock is ahead of the local one.
arm_accepted : send saves 500 (arm 7) node_queue ≡ (ok answer, armed)
unfolding accept_message accept_timely accept_recorded accept_locked command_frame make_frame
    deduplicate record_delivery trim_delivery emit_stage calibrate expired from_future save_delivery
    accept accept_new apply_on enqueue remember save find_accepted fingerprint command_record
    validate_payload object_fields string field has_field keys type_code get put delete
arm_accepted = refl

some_known : {o : Option Delivered} (d : Delivered) → o ≡ some d → o ≢ none
some_known d e n = absurd (cc)

abbrev arm_record : Delivered
arm_record = new_record toy_sum (arm 7) "QUEUED" 500

armed_record : get "c1" armed.commands ≡ some arm_record
unfolding accept_message accept_timely accept_recorded accept_locked command_frame make_frame
    deduplicate record_delivery trim_delivery emit_stage calibrate expired from_future save_delivery
    accept accept_new apply_on enqueue remember save find_accepted fingerprint command_record
    validate_payload object_fields string field has_field keys type_code get put delete
armed_record = refl

abbrev land : NodeMessage
land = record (arm 8) { command_id = "c2"; payload = entry "action" (str "land") end }

abbrev ToyCall : Type 0
ToyCall = Call toy_dumps toy_uuid toy_loads toy_sha toy_text toy_sum

-- Another command comes, its worker empties the inbox with a result of the first, which is reported
-- and delivered.
abbrev meanwhile : List ToyCall
meanwhile =
    accepts saves true 505 505 land
    ∷ works (record node_queue.inbox {
      state = record empty_state {
        results = record { command_id = "c1"; stage = "COMPLETED"; detail = ""; extra = end } ∷ [];
      };
    })
    ∷ reports (lost failure)
    ∷ delivers written "c1"
    ∷ []

abbrev busy : NodeQueue
busy = after_all toy_dumps toy_uuid toy_loads toy_sha toy_text toy_sum meanwhile armed

meanwhile_room : HaveRoom toy_dumps toy_uuid toy_loads toy_sha toy_text toy_sum meanwhile armed
unfolding accept_message accept_timely accept_recorded accept_locked command_frame make_frame
    deduplicate record_delivery trim_delivery emit_stage calibrate expired from_future save_delivery
    accept accept_new apply_on enqueue remember save find_accepted fingerprint command_record
    validate_payload object_fields string field has_field keys type_code get put delete completed
    note_results note_result undelivered mark_delivered delivery_fingerprint
meanwhile_room = (omega arith, (tt, (tt, (tt, tt))))

arm_in_time :
    (expired 520 1000 (calibrate 520 1000 busy) ≡ false)
    × (from_future 520 1000 (calibrate 520 1000 busy) ≡ false)
unfolding accept_message accept_timely accept_recorded accept_locked command_frame make_frame
    deduplicate record_delivery trim_delivery emit_stage calibrate expired from_future save_delivery
    accept accept_new apply_on enqueue remember save find_accepted fingerprint command_record
    validate_payload object_fields string field has_field keys type_code get put delete completed
    note_results note_result undelivered mark_delivered delivery_fingerprint
arm_in_time = (refl, refl)

same_print : delivery_fingerprint toy_sum (arm 8) ≡ delivery_fingerprint toy_sum (arm 7)
unfolding delivery_fingerprint
same_print = refl

-- The first command again, under another sequence.
accepted_command_once_example :
    (stage : String) × (q'' : NodeQueue) × (send saves 520 (arm 8) busy
      ≡ (ok (record { stage = stage; duplicate = true; sequence = 8 }), q''))
    × (q''.inbox ≡ busy.inbox)
accepted_command_once_example =
    accepted_command_once toy_dumps toy_uuid toy_loads toy_sha toy_text toy_sum saves saves true 500
      500 520 520 (arm 7) (arm 8) node_queue armed answer meanwhile refl refl refl arm_accepted
      (some_known arm_record armed_record) meanwhile_room refl refl same_print refl arm_in_time.0
      arm_in_time.1

abbrev not_armed : NodeQueue
not_armed = (send failing 500 (arm 7) node_queue).1

arm_refused : send failing 500 (arm 7) node_queue ≡ (err failure, not_armed)
unfolding accept_message accept_timely accept_recorded accept_locked command_frame make_frame
    deduplicate record_delivery trim_delivery emit_stage calibrate expired from_future save_delivery
    accept accept_new apply_on enqueue remember save find_accepted fingerprint command_record
    validate_payload object_fields string field has_field keys type_code get put delete
arm_refused = refl

accept_message_refused_example :
    (not_armed.inbox.state ≡ node_queue.inbox.state) × (not_armed.commands ≡ node_queue.commands)
accept_message_refused_example =
    accept_message_refused toy_dumps toy_uuid toy_loads toy_sha toy_text toy_sum failing true 500
      500 (arm 7) node_queue not_armed failure refl arm_refused
