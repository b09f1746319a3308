-- ===== src/Transport/Examples.antt =====
-- Concrete senders, receivers and frames for shared_protocol/transport.py.
use low_altitude_io_t_system.Common.{
  List, Option, [], arith, list_eq, nat_eq, none, ok, pair_eq, refl, some, string_eq, true, ℕ, ◌-◌,
  ◌∷◌, ◌≡◌,
}
use low_altitude_io_t_system.Common.Int.{pos}
use low_altitude_io_t_system.Common.Value.{
  Fields, end, entry, field, has_field, int, keys, nat_field, str, str_field,
}
use low_altitude_io_t_system.Common.Dict.{delete, evict, get, has_key, put, put_last}
use low_altitude_io_t_system.Frame.{
  Frame, MessageType, command, mission_begin, mission_commit, mission_item,
}
use low_altitude_io_t_system.Messages.{
  check_mission_count, check_mission_item, nat_at_most, number, object_fields, string, uint32,
  validate_payload,
}
use low_altitude_io_t_system.Transport.Sender.{Pending, Sender, due, make_sender, queue}
use low_altitude_io_t_system.Transport.Sender.Due.{advance, or_else, sends, sent_of}
use low_altitude_io_t_system.Transport.Sender.Bounds.{
  IsSender, acknowledges, after_all, after_all-IsSender, dues, make_sender-IsSender, pops,
  queue-IsSender, queues,
}
use low_altitude_io_t_system.Transport.Sender.Retries.{due_all, due_exact, retries_exact}
use low_altitude_io_t_system.Transport.Receiver.{
  Mission, Receiver, accept, accept_at, begin_mission, commit_mission, dispatch, dispatch_on,
  drop_missions, expire, expired_keys, forget, make_receiver, missing_from, missing_indices,
  page_of, prepare_now, receive_item, remember, transaction_identity,
}
use low_altitude_io_t_system.Transport.Receiver.Missing.{Continues, page_of-Continues}
use low_altitude_io_t_system.Transport.Receiver.Invariant.{
  IsReceiver, accept-IsReceiver, accept_all, committed_has_all, make_receiver-IsReceiver,
}

abbrev command_frame : Frame
command_frame = record {
  message_type = command;
  flags = 0;
  sequence = 7;
  command_id = "c1";
  payload = entry "action" (str "arm") end;
}

abbrev empty_sender : Sender
empty_sender = record {
  max_attempts = 3;
  retry_interval = 10;
  max_pending = 4;
  pending = [];
  exhausted = [];
}

abbrev pending_frame : Pending
pending_frame = record { frame = command_frame; attempts = 0; next_due = 100 }

abbrev sender : Sender
sender = record empty_sender { pending = (("c1", 7), pending_frame) ∷ [] }

empty_made : make_sender 3 10 4 ≡ ok empty_sender
unfolding make_sender
empty_made = refl

frame_queued : queue empty_sender command_frame 100 ≡ ok sender
unfolding queue put has_key get
frame_queued = refl

frame_pending : get ("c1", 7) sender.pending ≡ some pending_frame
unfolding get
frame_pending = refl

sender-IsSender : IsSender sender
sender-IsSender =
    queue-IsSender empty_sender sender command_frame 100
      (make_sender-IsSender 3 10 4 empty_sender empty_made) frame_queued

after_all-IsSender_example : IsSender (
    after_all sender
      (dues 100 ∷ queues command_frame 105 ∷ dues 110 ∷ acknowledges ("c1", 7) ∷ pops ∷ []))
after_all-IsSender_example = after_all-IsSender sender _ sender-IsSender

due_exact_example :
    (get ("c1", 7) (due sender 100).0.pending
      ≡ or_else (get ("c1", 7) sender.pending) none (advance sender 100))
    × (sends ("c1", 7) (due sender 100).1 ≡ sent_of sender 100 (get ("c1", 7) sender.pending))
due_exact_example = due_exact sender 100 ("c1", 7) sender-IsSender

retries_exact_example :
    (sends ("c1", 7) (due_all sender (100 ∷ 110 ∷ 125 ∷ 135 ∷ [])).1 ≡ 3 - 0)
    × (get ("c1", 7) (due_all sender (100 ∷ 110 ∷ 125 ∷ 135 ∷ [])).0.pending ≡ none)
retries_exact_example =
    retries_exact sender (100 ∷ 110 ∷ 125 ∷ 135 ∷ []) ("c1", 7) pending_frame sender-IsSender
      frame_pending (omega arith, (omega arith, (omega arith, (omega arith, tt)))) (omega arith)

abbrev receiver : Receiver
receiver = record {
  history_limit = 8;
  max_missions = 2;
  mission_ttl = 600;
  max_missing_page = 4;
  clock_offset = none;
  seen = [];
  missions = [];
  last_now = none;
}

receiver_made : make_receiver 8 2 600 4 ≡ ok receiver
unfolding make_receiver
receiver_made = refl

abbrev frame_of : MessageType → ℕ → Fields → Frame
frame_of kind n p = record {
  message_type = kind;
  flags = 0;
  sequence = n;
  command_id = "c1";
  payload = p;
}

abbrev item_payload : ℕ → Fields
item_payload i = entry "mission_id" (str "m1") (
    entry "index" (int (pos i))
      (entry "lat" (int (pos 31)) (entry "lon" (int (pos 121)) (entry "alt" (int (pos 30)) end))))

abbrev count_payload : Fields → Fields
count_payload rest = entry "mission_id" (str "m1") (entry "item_count" (int (pos 2)) rest)

-- The second item comes before the first, and the first twice.
abbrev upload : List (Frame × Option ℕ × ℕ)
upload =
    (frame_of mission_begin 1 (count_payload (entry "vehicle" (str "aircraft") end)), none, 10)
    ∷ (frame_of mission_item 3 (item_payload 1), none, 11)
    ∷ (frame_of mission_item 2 (item_payload 0), none, 12)
    ∷ (frame_of mission_item 2 (item_payload 0), none, 13)
    ∷ (frame_of mission_commit 4 (count_payload end), none, 14)
    ∷ []

abbrev uploaded : Mission
uploaded = record {
  command_id = "c1";
  mission_id = "m1";
  item_count = 2;
  vehicle = str "aircraft";
  updated_at = 14;
  items = (1, item_payload 1) ∷ (0, item_payload 0) ∷ [];
  committed = true;
}

upload_commits : get ("c1", "m1") (accept_all receiver upload).missions ≡ some uploaded
unfolding accept_all accept accept_at prepare_now expire expired_keys forget drop_missions dispatch
    dispatch_on begin_mission receive_item commit_mission missing_indices missing_from remember
    transaction_identity get put put_last delete evict has_key validate_payload check_mission_item
    check_mission_count object_fields string uint32 nat_at_most number field has_field keys
    str_field nat_field
upload_commits = refl

committed_has_all_example : has_key 0 uploaded.items ≡ true
committed_has_all_example =
    committed_has_all 8 2 600 4 receiver upload ("c1", "m1") uploaded 0 receiver_made upload_commits
      refl (omega arith)

receiver-IsReceiver : IsReceiver receiver
receiver-IsReceiver = make_receiver-IsReceiver 8 2 600 4 receiver receiver_made

accept-IsReceiver_example :
    IsReceiver (accept receiver (frame_of mission_item 3 (item_payload 1)) none 10).1
accept-IsReceiver_example =
    accept-IsReceiver receiver (frame_of mission_item 3 (item_payload 1)) none 10
      receiver-IsReceiver

-- Two of three missing indices fit the page, and the next page begins behind them.
page_of-Continues_example :
    Continues 2
      (1 ∷ 3 ∷ 4 ∷ 9 ∷ [])
      (page_of 2 2 (1 ∷ 3 ∷ 4 ∷ 9 ∷ []))
      (page_of 2 2 (1 ∷ 3 ∷ 4 ∷ 9 ∷ [])).next_offset
page_of-Continues_example =
    page_of-Continues 2 1 0 (1 ∷ 3 ∷ 4 ∷ 9 ∷ [])
      (omega arith, (omega arith, (omega arith, (omega arith, tt))))
