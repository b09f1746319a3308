-- ===== src/Slave/Accept.antt =====
-- slave_agent/command_queue.py: `accept` and the constructor of NodeCommandQueue.
use low_altitude_io_t_system.Common.{
  Bool, Option, Result, String, bind, err, false, if◌then◌else◌, length, list_eq, nat_eq, none, not,
  ok, pair_eq, rejected, some, string_eq, true, type_error, ℕ, ◌==◌,
}
use low_altitude_io_t_system.Common.Int.{negsuc, pos, ℤ}
use low_altitude_io_t_system.Common.Value.{Value, as_number, field, nat_field, obj, str_field}
use low_altitude_io_t_system.Common.Dict.{Dict}
use low_altitude_io_t_system.Auth.{Bytes}
use low_altitude_io_t_system.Node.Datagram.{validate_node_message}
use low_altitude_io_t_system.Slave.{
  Delivered, NodeMessage, NodeQueue, QueueAcceptance, Saves, calibrate, emit_stage, expired,
  from_future, is_tracked, save_delivery, tidy_result,
}
use low_altitude_io_t_system.Slave.Mission.{accept_locked, as_fields}
use low_altitude_io_t_system.Slave.Delivery.{deduplicate, reconcile, record_delivery}
use low_altitude_io_t_system.Inbox.{Saving}

-- The time of a checked message, in units of 1e-7.
abbrev timestamp_of : Option ℤ → ℕ
timestamp_of (some (pos n)) = n
timestamp_of (some (negsuc n)) = 0
timestamp_of none = 0

abbrev number_of : Option Value → Option ℤ
number_of none = none
number_of (some v) = as_number v

-- The fields of a message that was checked.
unfoldable pub read_message : Value → Result NodeMessage
read_message (obj fs) = bind (str_field "type" fs) λ kind. bind (str_field "source" fs) λ source.
    bind (str_field "command_id" fs) λ command_id. bind (nat_field "sequence" fs) λ sequence.
      bind (as_fields (field "payload" fs)) λ payload. ok (record {
        kind = kind;
        source = source;
        command_id = command_id;
        sequence = sequence;
        timestamp = timestamp_of (number_of (field "timestamp" fs));
        payload = payload;
      })
read_message v = err (type_error "not subscriptable")

module _ (dumps : Value → Result Bytes) (is_uuid : String → Bool) (loads : Bytes → Option Value)
    (sha256 : Bytes → String) (uuid_text : String → String) (sha256_json : Value → String) where
  -- `_accept_locked`, with the records put back where it raises; then an exception of the save that
  -- follows takes the place of the first.
  unfoldable pub accept_recorded :
      Saves
      → Bool
      → Dict String Delivered
      → NodeMessage
      → NodeQueue
      → Result QueueAcceptance × NodeQueue
  unfolding accept_locked save_delivery emit_stage
  accept_recorded saves tracked previous m q =
      let (answer, b) =
        accept_locked dumps is_uuid loads sha256 uuid_text sha256_json saves.inbox_save m q.inbox in
      elim answer [
        | ok r ↦ (ok r, emit_stage r.stage m (record q { inbox = b }))
        | err x ↦
            if tracked
            then (let (saved, q') =
                  save_delivery saves.undo_save (record q { inbox = b; commands = previous }) in
                (bind saved (λ _. err x), q'))
            else (err x, record q { inbox = b })
      ]

  -- The body of `accept` under the lock, for a message that is new in time.
  unfoldable pub accept_timely :
      Saves → ℕ → NodeMessage → NodeQueue → Result QueueAcceptance × NodeQueue
  unfolding accept_recorded deduplicate record_delivery emit_stage
  accept_timely saves now m q =
      let q₁ = emit_stage "RECEIVED" m q in
      if not (is_tracked m.kind)
      then accept_recorded saves false q₁.commands m q₁
      else (let (known, q₂) = deduplicate sha256_json saves.record_save now m q₁ in
          elim known [
            | err x ↦ (err x, q₂)
            | ok (some again) ↦ (ok again, emit_stage again.stage m q₂)
            | ok none ↦
                let (recorded, q₃) = record_delivery sha256_json saves.record_save now m q₂ in
                elim recorded [
                  | err x ↦ (err x, q₃)
                  | ok _ ↦ accept_recorded saves true q₂.commands m q₃
                ]
          ])

  -- `accept` on a message that `validate_node_message` has accepted; `allowed` is what the optical
  -- gate says, or true where there is none. The clock is read twice: for the age and for the record.
  unfoldable pub accept_message :
      Saves → Bool → ℕ → ℕ → NodeMessage → NodeQueue → Result QueueAcceptance × NodeQueue
  unfolding accept_timely calibrate expired from_future
  accept_message saves allowed local_time now m q =
      if not (m.source == "rover")
      then (err (rejected "invalid_source"), q)
      else if not allowed
      then (err (rejected "optical_blocked"), q)
      else (let q' = calibrate local_time m.timestamp q in
          if expired local_time m.timestamp q'
          then (err (rejected "expired"), q')
          else if from_future local_time m.timestamp q'
          then (err (rejected "future_timestamp"), q')
          else (let (answer, q'') = accept_timely saves now m q' in (tidy_result answer, q'')))

  -- `accept`
  unfoldable pub accept :
      Saves → Bool → ℕ → ℕ → Value → NodeQueue → Result QueueAcceptance × NodeQueue
  unfolding validate_node_message read_message accept_message
  accept saves allowed local_time now message q =
      elim (bind (validate_node_message dumps is_uuid loads sha256 (some "aircraft_2") message)
        read_message) [
          | err x ↦ (err x, q)
          | ok m ↦ accept_message saves allowed local_time now m q
        ]

-- `_reconcile_delivery` of the constructor: where a record goes, the rest is saved.
unfoldable pub open_queue : Saving → NodeQueue → Result NodeQueue
unfolding reconcile save_delivery
open_queue saving q =
    let kept = reconcile q.inbox.state q.commands in
    if length kept == length q.commands
    then ok q
    else (let (saved, q') = save_delivery saving (record q { commands = kept }) in
        bind saved (λ _. ok q'))
