-- ===== src/Slave/Mission.antt =====
-- slave_agent/command_queue.py: the frames that a node message becomes.
use low_altitude_io_t_system.Common.{
  Bool, List, Option, Result, String, [], bind, err, false, if◌then◌else◌, key_error, length,
  list_eq, ltb, map, nat_eq, none, ok, or_raise, pair_eq, rejected, require, some, string_eq, true,
  type_error, ℕ, ◌&&◌, ◌==◌, ◌∷◌,
}
use low_altitude_io_t_system.Common.Int.{pos}
use low_altitude_io_t_system.Common.Value.{
  Fields, Value, arr, end, entry, field, int, nat_field, null, obj, str,
}
use low_altitude_io_t_system.Common.Dict.{get}
use low_altitude_io_t_system.Frame.{
  Frame, MessageType, command, make_frame, mission_begin, mission_commit, mission_item,
}
use low_altitude_io_t_system.Messages.{checksum}
use low_altitude_io_t_system.Inbox.{
  Inbox, Job, MissionKey, Saving, Staged, State, accept, as_items, command_job, items_from,
  mission_job, text_of,
}
use low_altitude_io_t_system.Transport.Receiver.{missing_from}
use low_altitude_io_t_system.Node.Datagram.{mission_digest}
use low_altitude_io_t_system.Slave.{NodeMessage, QueueAcceptance, mission_of}
use low_altitude_io_t_system.Auth.{Bytes}

abbrev pub accept_frame :
    (Value → String) → Saving → Result Frame → String → Inbox → Result QueueAcceptance × Inbox
accept_frame sha256_json saving (err x) stage b = (err x, b)
accept_frame sha256_json saving (ok f) stage b =
    let (answer, b') = accept sha256_json saving b f in
    (
      bind answer (λ r.
          ok (record { stage = stage; duplicate = r.duplicate; sequence = r.acked_sequence })),
      b',
    )

abbrev or_object : Option Value → Value
or_object none = obj end
or_object (some v) = v

abbrev pub or_null_value : Option Value → Value
or_null_value none = null
or_null_value (some v) = v

abbrev pub as_fields : Option Value → Result Fields
as_fields (some (obj fs)) = ok fs
as_fields (some v) = err (type_error "not a mapping")
as_fields none = err (key_error "item")

-- `{key: value for key, value in item.items() if key != "mission_id"}`
unfoldable pub without : String → Fields → Fields
without k end = end
without k (entry j v rest) = let more = without k rest in if j == k then more else entry j v more

abbrev pub bare_items : List Fields → List Fields
bare_items items = map (without "mission_id") items

-- A mission job of `queued_mission`.
unfoldable pub find_mission_job : MissionKey → List Job → Option (List Fields)
find_mission_job key [] = none
find_mission_job key (command_job id action parameters ∷ rest) = find_mission_job key rest
find_mission_job key (mission_job id mission items checksum stage ∷ rest) =
    let more = find_mission_job key rest in
    if id == key.0 && mission == key.1 then some items else more

abbrev pub active_first : State → List Job
active_first s = elim s.active [ none ↦ s.queue | some j ↦ j ∷ s.queue ]

-- The mission that a commit speaks of: staged, or committed before with its items.
pub data Found : Type 0 where
  staged : Staged → Found
  committed : List Fields → Found

abbrev pub find_staged : MissionKey → State → Result Found
find_staged key s = elim (get key s.staged) [
  | some m ↦ ok (staged m)
  | none ↦ elim (find_mission_job key (active_first s)) [
    | some items ↦ ok (committed items)
    | none ↦ err (rejected "mission_not_found")
  ]
]

abbrev stored_count : Found → ℕ
stored_count (staged m) = m.item_count
stored_count (committed items) = length items

abbrev none_missing : Found → Bool
none_missing (staged m) = is_nil (missing_from 0 m.item_count m.items)
  where
    is_nil : List ℕ → Bool
    is_nil [] = true
    is_nil (i ∷ is) = false
none_missing (committed items) = true

abbrev liot_items : Found → Result (List Fields)
liot_items (staged m) = items_from 0 m.item_count m.items
liot_items (committed items) = ok items

module _ (dumps : Value → Result Bytes) (is_uuid : String → Bool) (loads : Bytes → Option Value)
    (sha256 : Bytes → String) (uuid_text : String → String) (sha256_json : Value → String) where
  abbrev digest_of : List Fields → Result String
  digest_of items = mission_digest dumps is_uuid loads sha256 (as_items (bare_items items))

  abbrev expected_digest : Found → String → Result String
  expected_digest (staged m) sum = ok m.checksum
  expected_digest (committed items) sum = ok sum

  -- `_frame`; `uuid.UUID` reads the command id, and `str` of it is its canonical text.
  abbrev pub frame_of : NodeMessage → MessageType → Fields → Result Frame
  frame_of m kind payload = make_frame kind 0 m.sequence (uuid_text m.command_id) (obj payload)

  -- `_command_frame`
  unfoldable pub command_frame : NodeMessage → Result Frame
  unfolding make_frame
  command_frame m = frame_of m command (
      entry "action" (or_null_value (field "action" m.payload))
        (entry "parameters" (or_object (field "parameters" m.payload)) end))

  -- `_mission_begin`
  unfoldable pub node_mission_begin : Saving → NodeMessage → Inbox → Result QueueAcceptance × Inbox
  unfolding make_frame
  node_mission_begin saving m b = elim (nat_field "item_count" m.payload) [
    | err x ↦ (err x, b)
    | ok count ↦
        if ltb 99 count
        then (err (rejected "mission_too_large"), b)
        else accept_frame sha256_json saving
            (frame_of m mission_begin (
              entry "mission_id" (str (mission_of m.payload)) (
                entry "item_count" (int (pos count)) (
                  entry "vehicle" (str "aircraft")
                    (entry "checksum" (or_null_value (field "digest" m.payload)) end)))))
            "RECEIVED" b
  ]

  -- The checks of `_mission_item` and its frame.
  unfoldable pub item_frame : NodeMessage → State → Result Frame
  unfolding make_frame
  item_frame m s =
      bind
        (or_raise (get (m.command_id, mission_of m.payload) s.staged)
          (rejected "mission_not_found"))
        λ found. bind (nat_field "index" m.payload) λ index.
          bind (require (ltb index found.item_count) (rejected "item_out_of_range")) λ _.
            bind (as_fields (field "item" m.payload))
              λ item. frame_of m mission_item (entry "mission_id" (str (mission_of m.payload)) item)

  -- `_mission_item`
  abbrev pub node_mission_item : Saving → NodeMessage → Inbox → Result QueueAcceptance × Inbox
  node_mission_item saving m b = accept_frame sha256_json saving (item_frame m b.state) "RECEIVED" b

  -- The checks of `_mission_commit` and its frame.
  unfoldable pub commit_frame : NodeMessage → State → Result Frame
  unfolding make_frame mission_digest
  commit_frame m s = bind (find_staged (m.command_id, mission_of m.payload) s) λ mission.
      bind (nat_field "item_count" m.payload) λ count.
        bind (require (count == stored_count mission) (rejected "count_mismatch")) λ _.
          bind (require (none_missing mission) (rejected "missing_items")) λ _.
            bind (liot_items mission) λ items. bind (digest_of items) λ sum.
              bind (expected_digest mission sum) λ expected.
                bind
                  (require (text_of (field "digest" m.payload) == expected && sum == expected)
                    (rejected "digest_mismatch"))
                  λ _. frame_of m mission_commit (
                    entry "mission_id" (str (mission_of m.payload)) (
                      entry "item_count" (int (pos (stored_count mission)))
                        (entry "checksum" (str (sha256_json (arr (as_items items)))) end)))

  -- `_mission_commit`
  abbrev pub node_mission_commit : Saving → NodeMessage → Inbox → Result QueueAcceptance × Inbox
  node_mission_commit saving m b =
      accept_frame sha256_json saving (commit_frame m b.state) "QUEUED" b

  -- `_accept_locked`
  unfoldable pub accept_locked : Saving → NodeMessage → Inbox → Result QueueAcceptance × Inbox
  unfolding command_frame node_mission_begin item_frame commit_frame
  accept_locked saving m b =
      if m.kind == "command"
      then accept_frame sha256_json saving (command_frame m) "QUEUED" b
      else if m.kind == "mission_begin"
      then node_mission_begin saving m b
      else if m.kind == "mission_item"
      then node_mission_item saving m b
      else if m.kind == "mission_commit"
      then node_mission_commit saving m b
      else (err (rejected "unsupported_message"), b)
