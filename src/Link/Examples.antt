-- ===== src/Link/Examples.antt =====
-- A command to the aircraft from `execute` to its acknowledgement, and one that is given up.
use low_altitude_io_t_system.Common.{
  List, Option, Result, String, [], arith, list_eq, nat_eq, none, ok, pair_eq, refl, replicate,
  some, string_eq, ℕ, ◌∷◌, ◌≡◌,
}
use low_altitude_io_t_system.Common.Value.{
  Fields, Value, end, entry, field, finite, has_field, int, keys, nat_field, obj, str,
}
use low_altitude_io_t_system.Common.Dict.{delete, evict, get, has_key, put, put_last}
use low_altitude_io_t_system.Common.Int.{pos, ℤ}
use low_altitude_io_t_system.Common.Bytes.{from_be}
use low_altitude_io_t_system.Frame.{Frame, ack, make_frame, type_code}
use low_altitude_io_t_system.Frame.Codec.{canonical_payload, encode_frame, pack_frame_header}
use low_altitude_io_t_system.Messages.{object_fields, string, validate_payload}
use low_altitude_io_t_system.Link.Calls.{Call, after, after_all, dues, executes, responds}
use low_altitude_io_t_system.Transport.Sender.{
  acknowledge, cancel, delete_all, due, due_loop, due_step, make_sender, of_command, pop_exhausted,
  queue,
}
use low_altitude_io_t_system.Transport.Sender.Bounds.{make_sender-IsSender}
use low_altitude_io_t_system.Link.{
  CloudCommand, Link, accept_ack, accept_response, acknowledge_transaction, due_frames,
  end_exhausted, event_history, make_link, set_stage, set_terminal, transaction_state,
}
use low_altitude_io_t_system.Link.Send.{
  acquire_and_queue, execute, execute_frames, fragment_payload, frames_of, make_checked,
  make_frames, payloads_of, queue_all,
}
use low_altitude_io_t_system.Link.Lock.{LockStep, after-LockStep}
use low_altitude_io_t_system.Link.Bounds.{IsLink}
use low_altitude_io_t_system.Link.Kept.{after_all-IsLink}
use low_altitude_io_t_system.Auth.{Bytes}

-- Stand-ins for JSON, the checksum, the bytes of a UUID and the texts of values.
abbrev dumps : Value → Result Bytes
dumps v = ok (123 ∷ 125 ∷ [])

abbrev loads : Bytes → Option Value
loads bytes = some (obj end)

abbrev crc : Bytes → ℕ
crc bytes = from_be bytes

abbrev uuid_bytes : String → Bytes
uuid_bytes s = replicate 16 9

abbrev uuid_text : Bytes → String
uuid_text bytes = "c1"

abbrev no_text : Value → String
no_text v = ""

abbrev same_text : String → String
same_text s = s

abbrev no_number : String → Option ℤ
no_number s = none

abbrev digest : List Fields → Result String
digest items = ok "digest"

abbrev decimal : ℕ → String
decimal n = "n"

abbrev land : CloudCommand
land = record {
  command_id = "c1";
  source_timestamp = finite (pos 1);
  target = "aircraft";
  action = "land";
  payload = end;
}

-- A link that allows two attempts, five ticks apart.
abbrev fresh : Link
fresh = record {
  sender = record {
    max_attempts = 2;
    retry_interval = 5;
    max_pending = 1024;
    pending = [];
    exhausted = [];
  };
  next_sequence = 0;
  stage = "idle";
  error = "";
  transaction_id = "";
  active_command_id = none;
  revision = 0;
  terminal = [];
  terminal_limit = 8;
  fragment_transactions = [];
  fragment_commit = [];
}

fresh_made : make_link 2 5 8 ≡ ok fresh
unfolding make_link make_sender
fresh_made = refl

abbrev run : Call → Link → Link
run =
    after dumps loads crc uuid_bytes uuid_text no_text same_text no_number no_number digest decimal

abbrev run_all : List Call → Link → Link
run_all =
    after_all dumps loads crc uuid_bytes uuid_text no_text same_text no_number no_number digest
      decimal

abbrev ack_frame : Frame
ack_frame = record {
  message_type = ack;
  flags = 0;
  sequence = 9;
  command_id = "c1";
  payload = entry "acked_sequence" (int (pos 0)) end;
}

-- The command is queued, goes out, and is acknowledged.
acknowledged :
    transaction_state (run_all (executes land 7 ∷ dues 7 ∷ responds ack_frame ∷ []) fresh)
    ≡ entry "stage" (str "acknowledged") (
        entry "pending"
          (int (pos 0))
          (entry "transaction_id" (str "c1") (entry "revision" (int (pos 3)) end)))
unfolding transaction_state after_all after execute execute_frames frames_of payloads_of
    fragment_payload has_key get make_frames make_checked make_frame encode_frame canonical_payload
    validate_payload acquire_and_queue queue_all queue put set_stage due_frames due due_loop
    due_step pop_exhausted accept_response accept_ack acknowledge delete acknowledge_transaction
    set_terminal cancel of_command delete_all put_last evict object_fields string field has_field
    keys type_code nat_field pack_frame_header
acknowledged = refl

-- Two attempts without an answer.
given_up :
    event_history (run_all (executes land 7 ∷ dues 7 ∷ dues 12 ∷ dues 17 ∷ []) fresh).terminal ≡ (
      entry "command_id" (str "c1") (
        entry "stage" (str "retry_exhausted") (
          entry "error"
            (str "command c1 sequence n retry exhausted")
            (entry "revision" (int (pos 3)) end)))
      ∷ [])
unfolding event_history after_all after execute execute_frames frames_of payloads_of
    fragment_payload has_key get make_frames make_checked make_frame encode_frame canonical_payload
    validate_payload acquire_and_queue queue_all queue put set_stage due_frames due due_loop
    due_step pop_exhausted set_terminal end_exhausted delete cancel of_command delete_all put_last
    evict object_fields string field has_field keys type_code pack_frame_header
given_up = refl

after-LockStep_example :
    LockStep (executes land 7) none (run (executes land 7) fresh).active_command_id
after-LockStep_example =
    after-LockStep dumps loads crc uuid_bytes uuid_text no_text same_text no_number no_number digest
      decimal (executes land 7) fresh

fresh-IsLink : IsLink fresh
fresh-IsLink = record {
  sender = make_sender-IsSender 2 5 1024 fresh.sender (unfold make_sender in refl);
  unique = tt;
  terminal_le = omega arith;
  rising = omega arith;
}

after_all-IsLink_example :
    IsLink (run_all (executes land 7 ∷ dues 7 ∷ responds ack_frame ∷ []) fresh)
after_all-IsLink_example =
    after_all-IsLink dumps loads crc uuid_bytes uuid_text no_text same_text no_number no_number
      digest decimal (executes land 7 ∷ dues 7 ∷ responds ack_frame ∷ []) fresh fresh-IsLink
