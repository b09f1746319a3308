-- ===== src/Inbox.antt =====
-- aircraft_agent/inbox.py, class DurableInbox: accepted frames, staged missions, the active command
-- and the queue behind it, all persisted before a frame is acknowledged.
mod Store
pub mod Ends
pub mod Jobs
pub mod Commit
pub mod Bounds
pub mod Durable
mod Examples
unfoldable pub use Store.*
use low_altitude_io_t_system.Common.{
  ℕ, zero, suc, ◌+◌, Bool, true, false, not, ◌&&◌, ◌||◌, Option, none, some, List, [], ◌∷◌, ◌++◌,
  map, String, leb, ltb, length, take, take_last, Result, ok, err, Error, key_error, value_error,
  rejected, runtime_error, bind, require, ◌==◌, string_eq, nat_eq, pair_eq, if◌then◌else◌,
}
use Prim.Native.String
use low_altitude_io_t_system.Common.Int.{pos}
use low_altitude_io_t_system.Common.Dict.{Dict, get, put, delete, has_key}
use low_altitude_io_t_system.Common.Value.{
  Value, null, bool, int, float, str, arr, obj, Items, nil, cons, Fields, end, entry, field,
  str_field, nat_field, eq_value,
}
use low_altitude_io_t_system.Frame.{
  MessageType, Frame, command, mission_begin, mission_item, mission_commit, ack, nack, status,
  link_blocked, auth_challenge, auth_response, type_code,
}
use low_altitude_io_t_system.Messages.{validate_payload}
use low_altitude_io_t_system.Transport.Receiver.{missing_from}
use low_altitude_io_t_system.Transport.Sender.{Identity, identity}

abbrev or_empty : Option Value → Value
or_empty none = obj end
or_empty (some v) = v

abbrev or_null : Option Value → Value
or_null none = null
or_null (some v) = v

-- `payload.get("checksum", "")`, which `validate_payload` left a text.
abbrev pub text_of : Option Value → String
text_of (some (str s)) = s
text_of (some v) = ""
text_of none = ""

-- `_command_record`
unfoldable pub command_record : Frame → Job
command_record f =
    command_job f.command_id (or_null (field "action" f.payload))
      (or_empty (field "parameters" f.payload))

-- `_enqueue`
unfoldable pub enqueue : Limits → Job → State → Result State
enqueue l job s = elim s.active [
  | none ↦ ok (record s { active = some job })
  | some running ↦
      if leb l.max_queue (length s.queue)
      then err (rejected "queue_full")
      else ok (record s { queue = s.queue ++ (job ∷ []) })
]

abbrev same_mission : Staged → Staged → Bool
same_mission a b =
    a.command_id == b.command_id
    && a.mission_id == b.mission_id
    && a.item_count == b.item_count
    && eq_value a.vehicle b.vehicle
    && a.checksum == b.checksum

-- `_begin`
unfoldable pub begin : Limits → Staged → State → Result State
begin l candidate s =
    let key : MissionKey = (candidate.command_id, candidate.mission_id) in
    elim (get key s.staged) [
      | some existing ↦
          if same_mission (record existing { items = [] }) candidate
          then ok s
          else err (rejected "mission_begin_conflict")
      | none ↦
          if leb l.max_staged (length s.staged)
          then err (rejected "staging_full")
          else ok (record s { staged = put key candidate s.staged })
    ]

abbrev require_staged : Option Staged → Result Staged
require_staged none = err (rejected "mission_not_found")
require_staged (some m) = ok m

abbrev conflicts : Option Fields → Fields → Bool
conflicts none payload = false
conflicts (some old) payload = not (eq_value (obj old) (obj payload))

-- `_item`
unfoldable pub add_item : MissionKey → ℕ → Fields → State → Result State
add_item key index payload s = bind (require_staged (get key s.staged)) λ m.
    bind (require (ltb index m.item_count) (rejected "item_out_of_range")) λ _.
      bind
        (require (not (conflicts (get index m.items) payload)) (rejected "mission_item_conflict"))
        λ _.
          let m' : Staged = record m { items = put index payload m.items } in
          ok (record s { staged = put key m' s.staged })

-- `resume`, on the staged mission of the key
unfoldable pub resume : Limits → MissionKey → State → Result (List ℕ)
resume l key s =
    bind (require_staged (get key s.staged))
      λ m. ok (take l.max_resume_items (missing_from 0 m.item_count m.items))

-- `[mission["items"][str(index)] for index in range(item_count)]`
unfoldable pub items_from : ℕ → ℕ → Dict ℕ Fields → Result (List Fields)
items_from i zero items = ok []
items_from i (suc n) items =
    let more = items_from (i + 1) n items in
    elim (get i items) [
      | none ↦ err (key_error "items")
      | some item ↦ bind more λ rest. ok (item ∷ rest)
    ]

abbrev is_empty : List ℕ → Bool
is_empty [] = true
is_empty (i ∷ is) = false

-- `a or b` on texts
abbrev pub first_text : String → String → String
first_text a b = if a == "" then b else a

abbrev pub as_items : List Fields → Items
as_items [] = nil
as_items (f ∷ fs) = cons (obj f) (as_items fs)

-- The entry of `seen` with an id.
unfoldable pub find_accepted : Identity → List Accepted → Option Accepted
find_accepted id [] = none
find_accepted id (a ∷ rest) = if a.id == id then some a else find_accepted id rest

-- `hashlib.sha256(json.dumps(value, …)).hexdigest()` is a parameter.
module _ (sha256_json : Value → String) where
  -- `_commit`
  unfoldable pub commit : Limits → MissionKey → ℕ → String → State → Result State
  unfolding resume
  commit l key count checksum s = bind (require_staged (get key s.staged)) λ m.
      bind (require (count == m.item_count) (rejected "count_mismatch")) λ _.
        bind (resume l key s) λ missing.
          bind (require (is_empty missing) (rejected "missing_items")) λ _.
            bind (items_from 0 m.item_count m.items) λ items.
              let sum = sha256_json (arr (as_items items)) in
              let expected = first_text checksum m.checksum in
              bind
                (require (not (expected == "") && sum == expected) (rejected "checksum_mismatch"))
                λ _.
                  bind (enqueue l (mission_job key.0 key.1 items sum "MISSION_STAGED") s)
                    λ s'. ok (record s' { staged = delete key s'.staged })

  -- The new state and the stage of a frame that was not seen before, by its type.
  unfoldable pub apply_on : MessageType → Limits → Frame → State → Result (State × String)
  apply_on command l f s = bind (enqueue l (command_record f) s) λ s'. ok (s', "COMMAND_STAGED")
  apply_on mission_begin l f s = bind (str_field "mission_id" f.payload) λ id.
      bind (nat_field "item_count" f.payload) λ count.
        let candidate : Staged = record {
          command_id = f.command_id;
          mission_id = id;
          item_count = count;
          vehicle = or_null (field "vehicle" f.payload);
          checksum = text_of (field "checksum" f.payload);
          items = [];
        } in
        bind (begin l candidate s) λ s'. ok (s', "MISSION_STAGING")
  apply_on mission_item l f s = bind (str_field "mission_id" f.payload) λ id.
      bind (nat_field "index" f.payload) λ index.
        bind (add_item (f.command_id, id) index f.payload s) λ s'. ok (s', "MISSION_STAGING")
  apply_on mission_commit l f s = bind (str_field "mission_id" f.payload) λ id.
      bind (nat_field "item_count" f.payload) λ count.
        bind (commit l (f.command_id, id) count (text_of (field "checksum" f.payload)) s)
          λ s'. ok (s', "MISSION_STAGED")
  apply_on kind l f s = err (rejected "unsupported_message")

  -- `_fingerprint`
  unfoldable pub fingerprint : Frame → String
  fingerprint f = sha256_json (
      obj (
        entry "type" (int (pos (type_code f.message_type))) (
          entry "command_id" (str f.command_id)
            (entry "sequence" (int (pos f.sequence)) (entry "payload" (obj f.payload) end)))))

  -- The entry for a new frame; only the last `max_history` stay.
  unfoldable pub remember : Limits → Frame → String → State → State
  remember l f stage s =
      let a : Accepted = record { id = identity f; fingerprint = fingerprint f; stage = stage } in
      record s { seen = take_last l.max_history (s.seen ++ (a ∷ [])) }

  -- A new frame: any exception puts `previous` back.
  unfoldable pub accept_new : Saving → Inbox → Frame → Result InboxResult × Inbox
  unfolding apply_on remember save
  accept_new saving b f = elim (apply_on f.message_type b.limits f b.state) [
    | err x ↦ (err x, b)
    | ok (s, stage) ↦
        let s' = remember b.limits f stage s in
        let (saved, disk) = save saving b.disk s' in
        elim saved [
          | err x ↦ (err x, record b { disk = disk })
          | ok _ ↦ (
            ok (record { acked_sequence = f.sequence; stage = stage; duplicate = false }),
            record b { state = s'; disk = disk },
          )
        ]
  ]

  -- `accept`
  unfoldable pub accept : Saving → Inbox → Frame → Result InboxResult × Inbox
  unfolding accept_new find_accepted fingerprint
  accept saving b f = elim (validate_payload f.message_type f.payload) [
    | err x ↦ (err x, b)
    | ok _ ↦ elim (find_accepted (identity f) b.state.seen) [
      | some a ↦
          if a.fingerprint == fingerprint f
          then (ok (record { acked_sequence = f.sequence; stage = a.stage; duplicate = true }), b)
          else (err (rejected "duplicate_conflict"), b)
      | none ↦ accept_new saving b f
    ]
  ]

abbrev pub pop_first : List Job → Option Job × List Job
pop_first [] = (none, [])
pop_first (j ∷ js) = (some j, js)

-- `active` moves on to the front of the queue.
unfoldable pub next_active : State → State
next_active s = record s { active = (pop_first s.queue).0; queue = (pop_first s.queue).1 }

-- `complete_active`; it has no rollback, so the state has moved on even where the save raises.
unfoldable pub complete_active : Saving → Inbox → Result (Option Job) × Inbox
unfolding next_active save
complete_active saving b = elim b.state.active [
  | none ↦ (ok none, b)
  | some job ↦
      let s = next_active b.state in
      let (saved, disk) = save saving b.disk s in
      (bind saved (λ _. ok (some job)), record b { state = s; disk = disk })
]

-- `text[:n]`
unfoldable pub clip : ℕ → String → String
clip zero s = ""
clip (suc n) String.[] = ""
clip (suc n) (String.◌∷◌ c s) = String.◌∷◌ c (clip n s)

-- `finish_active`; the texts are given as texts.
unfoldable pub finish_active : Saving → String → String → Fields → Inbox → Result Outcome × Inbox
unfolding next_active save clip
finish_active saving stage detail extra b = elim b.state.active [
  | none ↦ (err (rejected "no_active_command"), b)
  | some job ↦
      let result : Outcome = record {
        command_id = job_id job;
        stage = stage;
        detail = clip 256 detail;
        extra = extra;
      } in
      let s = next_active b.state in
      let s' : State = record s {
        results = take_last b.limits.max_results (s.results ++ (result ∷ []));
      } in
      let (saved, disk) = save saving b.disk s' in
      elim saved [
        | err x ↦ (err x, record b { disk = disk })
        | ok _ ↦ (ok result, record b { state = s'; disk = disk })
      ]
]
