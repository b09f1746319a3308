-- ===== src/Inbox/Examples.antt =====
-- A concrete inbox, its frames and its calls, for aircraft_agent/inbox.py.
use low_altitude_io_t_system.Common.{Error, runtime_error}
use low_altitude_io_t_system.Common.{
  List, String, [], arith, err, false, if◌then◌else◌, inl, length, list_eq, nat_eq, none, ok,
  pair_eq, refl, rejected, some, string_eq, true, ℕ, ◌++◌, ◌==◌, ◌∷◌, ◌≡◌, ◌≢◌, ◌⊎◌,
}
use low_altitude_io_t_system.Common.Int.{pos}
use low_altitude_io_t_system.Common.Value.{
  Fields, Value, arr, cons, end, entry, field, has_field, int, keys, obj, str,
}
use low_altitude_io_t_system.Common.Dict.{delete, get, has_key}
use low_altitude_io_t_system.Frame.{
  Frame, MessageType, command, mission_begin, mission_commit, mission_item, type_code,
}
use low_altitude_io_t_system.Messages.{object_fields, string, validate_payload}
use low_altitude_io_t_system.Inbox.{
  Accepted, Inbox, InboxResult, Job, Limits, Staged, State, accept, accept_new, apply_on, as_items,
  command_job, command_record, commit, empty_state, enqueue, find_accepted, fingerprint, first_text,
  items_from, lost, mission_job, open_inbox, remember, replaced, resume, save, written,
}
use low_altitude_io_t_system.Inbox.Bounds.{
  Call, IsInbox, IsState, accepts, after_all, after_all-IsInbox, completes, finishes, reopens,
}
use low_altitude_io_t_system.Inbox.Jobs.{added_all, ended_all, fifo, jobs}
use low_altitude_io_t_system.Inbox.Durable.{accept_again, accept_refused, acknowledged_durable}
use low_altitude_io_t_system.Inbox.Commit.{StoredFrom, commit_accepts, commit_complete}
use low_altitude_io_t_system.Transport.Receiver.{missing_from}

-- A stand-in for the digest.
abbrev save_failure : Error
save_failure = runtime_error "save"

abbrev toy_sum : Value → String
toy_sum (arr (cons x xs)) = "items"
toy_sum (obj (entry k (int (pos code)) rest)) = "command"
toy_sum v = "other"

abbrev limits : Limits
limits = record {
  max_queue = 2;
  max_history = 4;
  max_staged = 2;
  max_resume_items = 4;
  max_results = 2;
}

abbrev inbox : Inbox
inbox = record { limits = limits; state = empty_state; disk = empty_state }

inbox_opened : open_inbox limits empty_state ≡ ok inbox
unfolding open_inbox
inbox_opened = refl

empty-IsState : IsState limits empty_state
empty-IsState = record {
  queue_le = omega arith;
  staged_le = omega arith;
  seen_le = omega arith;
  results_le = omega arith;
  busy = λ idle. refl;
}

inbox-IsInbox : IsInbox inbox
inbox-IsInbox = record { state_ok = empty-IsState; disk_ok = empty-IsState }

abbrev frame_of : MessageType → ℕ → Fields → Frame
frame_of kind n p = record {
  message_type = kind;
  flags = 0;
  sequence = n;
  command_id = "c1";
  payload = p;
}

abbrev arm : Frame
arm = frame_of command 1 (entry "action" (str "arm") end)

abbrev count_payload : Fields → Fields
count_payload rest = entry "mission_id" (str "m1") (entry "item_count" (int (pos 1)) rest)

abbrev item_payload : Fields
item_payload = entry "mission_id" (str "m1") (
    entry "index" (int (pos 0))
      (entry "lat" (int (pos 31)) (entry "lon" (int (pos 121)) (entry "alt" (int (pos 30)) end))))

-- A command, a whole mission, a save that fails, and two jobs that end.
abbrev calls : List Call
calls =
    accepts written arm
    ∷ accepts written
        (frame_of mission_begin 2 (count_payload (entry "vehicle" (str "aircraft") end)))
    ∷ accepts (lost save_failure) (frame_of mission_item 3 item_payload)
    ∷ accepts written (frame_of mission_item 3 item_payload)
    ∷ accepts (replaced save_failure)
        (frame_of mission_commit 4 (count_payload (entry "checksum" (str "items") end)))
    ∷ finishes written "DONE" "" end
    ∷ completes (lost save_failure)
    ∷ []

after_all-IsInbox_example : IsInbox (after_all toy_sum calls inbox)
after_all-IsInbox_example = after_all-IsInbox toy_sum calls inbox inbox-IsInbox

reopens_example :
    open_inbox limits (after_all toy_sum calls inbox).disk
    ≡ ok (record {
      limits = limits;
      state = (after_all toy_sum calls inbox).disk;
      disk = (after_all toy_sum calls inbox).disk;
    })
reopens_example = reopens toy_sum limits empty_state inbox calls inbox_opened (λ idle. refl)

fifo_example :
    jobs inbox.state ++ added_all toy_sum calls inbox
    ≡ ended_all toy_sum calls inbox ++ jobs (after_all toy_sum calls inbox).state
fifo_example = fifo toy_sum calls inbox inbox-IsInbox

abbrev arm_entry : Accepted
arm_entry = record { id = ("c1", 1); fingerprint = "command"; stage = "COMMAND_STAGED" }

abbrev armed : State
armed = record empty_state {
  active = some (command_job "c1" (str "arm") (obj end));
  seen = arm_entry ∷ [];
}

abbrev armed_inbox : Inbox
armed_inbox = record { limits = limits; state = armed; disk = armed }

abbrev arm_answer : InboxResult
arm_answer = record { acked_sequence = 1; stage = "COMMAND_STAGED"; duplicate = false }

arm_accepted : accept toy_sum written inbox arm ≡ (ok arm_answer, armed_inbox)
unfolding accept accept_new apply_on enqueue remember save find_accepted fingerprint command_record
    validate_payload object_fields string field has_field keys type_code
arm_accepted = refl

arm_lost : accept toy_sum (lost save_failure) inbox arm ≡ (err save_failure, inbox)
unfolding accept accept_new apply_on enqueue remember save find_accepted fingerprint command_record
    validate_payload object_fields string field has_field keys type_code
arm_lost = refl

arm_valid : validate_payload command arm.payload ≡ ok tt
unfolding validate_payload object_fields string field has_field keys
arm_valid = refl

accept_refused_example : inbox.state ≡ inbox.state
accept_refused_example =
    accept_refused toy_sum (lost save_failure) inbox inbox arm save_failure arm_lost

acknowledged_durable_example :
    (arm_answer.acked_sequence ≡ 1)
    × (((arm_answer.duplicate ≡ true) × (armed_inbox ≡ inbox))
        ⊎ ((arm_answer.duplicate ≡ false) × (armed_inbox.disk ≡ armed_inbox.state)))
acknowledged_durable_example =
    acknowledged_durable toy_sum written inbox armed_inbox arm arm_answer arm_accepted

accept_again_example : accept toy_sum (lost save_failure) armed_inbox arm ≡ (
  (if fingerprint toy_sum arm == fingerprint toy_sum arm
      then ok (record { acked_sequence = 1; stage = "COMMAND_STAGED"; duplicate = true })
      else err (rejected "duplicate_conflict")),
  armed_inbox,
)
accept_again_example =
    accept_again toy_sum written (lost save_failure) inbox armed_inbox arm arm arm_answer
      (omega arith) arm_accepted refl arm_valid

abbrev staged_mission : Staged
staged_mission = record {
  command_id = "c1";
  mission_id = "m1";
  item_count = 1;
  vehicle = str "aircraft";
  checksum = "items";
  items = (0, item_payload) ∷ [];
}

abbrev staging : State
staging = record empty_state { staged = (("c1", "m1"), staged_mission) ∷ [] }

staging-IsState : IsState limits staging
staging-IsState = record {
  queue_le = omega arith;
  staged_le = omega arith;
  seen_le = omega arith;
  results_le = omega arith;
  busy = λ idle. refl;
}

abbrev mission : Job
mission = mission_job "c1" "m1" (item_payload ∷ []) "items" "MISSION_STAGED"

mission_found : get ("c1", "m1") staging.staged ≡ some staged_mission
unfolding get
mission_found = refl

items_complete : items_from 0 1 staged_mission.items ≡ ok (item_payload ∷ [])
unfolding items_from get
items_complete = refl

mission_committed :
    commit toy_sum limits ("c1", "m1") 1 "" staging
    ≡ ok (record empty_state { active = some mission })
unfolding commit resume missing_from items_from enqueue get delete has_key
mission_committed = refl

commit_complete_example :
    (m : Staged) × (items : List Fields) × (get ("c1", "m1") staging.staged ≡ some m)
    × (m.item_count ≡ 1)
    × (length items ≡ 1)
    × StoredFrom 0 items m.items
    × (toy_sum (arr (as_items items)) ≡ first_text "" m.checksum)
    × (jobs (record empty_state { active = some mission })
        ≡ jobs staging
          ++ (mission_job "c1" "m1" items (toy_sum (arr (as_items items))) "MISSION_STAGED" ∷ []))
    × (get ("c1", "m1") (record empty_state { active = some mission }).staged ≡ none)
commit_complete_example =
    commit_complete toy_sum limits ("c1", "m1") 1 "" staging
      (record empty_state { active = some mission }) staging-IsState mission_committed

given : first_text "" "items" ≢ ""
given e = absurd (cc)

commit_accepts_example : (t : State) × (commit toy_sum limits ("c1", "m1") 1 "" staging ≡ ok t)
commit_accepts_example =
    commit_accepts toy_sum limits ("c1", "m1") "" staging staged_mission (item_payload ∷ [])
      mission_found items_complete refl given (inl refl)
