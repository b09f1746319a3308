-- ===== src/Slave.antt =====
-- slave_agent/command_queue.py, class NodeCommandQueue: node messages become frames of the durable
-- inbox, each command id at most once. Times are units of 1e-7 seconds.
pub mod Mission
pub mod Delivery
pub mod Accept
pub mod Refused
pub mod History
pub mod Once
mod Examples
use low_altitude_io_t_system.Common.{
  Bool, Bool-cases, Eq, Error, List, Option, Result, String, [], auth_error, overflow_error, err,
  frame_error, mission_timeout, mission_denied, mission_verification_error, mission_unsafe_residual,
  if◌then◌else◌, key_error, leb, length, list_eq, ltb, nat_eq, node_message_error, none, not, ok,
  pair_eq, rejected, replay_error, runtime_error, some, string_eq, struct_error, take,
  timeout_error, type_error, value_error, ℕ, ◌++◌, ◌+◌, ◌-◌, ◌==◌, ◌||◌, ◌∷◌, ◌≢◌,
}
use low_altitude_io_t_system.Common.Value.{Fields, field}
use low_altitude_io_t_system.Common.Dict.{Dict, delete}
use low_altitude_io_t_system.Inbox.{Inbox, Saving, lost, replaced, text_of, written}

-- The fields of a message that `validate_node_message` has accepted.
pub record NodeMessage : Type 0 where
  pub kind : String
  pub source : String
  pub command_id : String
  pub sequence : ℕ
  pub timestamp : ℕ
  pub payload : Fields

pub record QueueAcceptance : Type 0 where
  pub stage : String
  pub duplicate : Bool
  pub sequence : ℕ

-- A record of `_delivery["commands"]`.
pub record Delivered : Type 0 where
  pub sequence : ℕ
  pub stage : String
  pub mission_id : String
  pub message_type : String
  pub fingerprint : String
  pub terminal_stage : String
  pub worker_stage : String
  pub detail : String
  pub delivered : Bool
  pub updated_at : ℕ

-- What `stage_callback` is called with.
pub record Stage : Type 0 where
  pub stage : String
  pub command_id : String
  pub sequence : ℕ
  pub mission_id : String

-- The clock offset is kept as the local and the peer's time that were compared first; `stored` is
-- what the delivery store would load, and `stages` are the callbacks so far.
pub record NodeQueue : Type 0 where
  pub inbox : Inbox
  pub max_age : ℕ
  pub max_future_skew : ℕ
  pub max_records : ℕ
  pub offset : Option (ℕ × ℕ)
  pub commands : Dict String Delivered
  pub stored : Dict String Delivered
  pub stages : List Stage

abbrev pub mission_of : Fields → String
mission_of payload = text_of (field "mission_id" payload)

-- `_emit_stage`
unfoldable pub emit_stage : String → NodeMessage → NodeQueue → NodeQueue
emit_stage stage m q =
    let s : Stage = record {
      stage = stage;
      command_id = m.command_id;
      sequence = m.sequence;
      mission_id = mission_of m.payload;
    } in
    record q { stages = q.stages ++ (s ∷ []) }

-- `_save_delivery`, with what is stored afterwards.
unfoldable pub save_delivery : Saving → NodeQueue → Result (Unit {0}) × NodeQueue
save_delivery written q = (ok tt, record q { stored = q.commands })
save_delivery (lost x) q = (err x, q)
save_delivery (replaced x) q = (err x, record q { stored = q.commands })

-- The first message sets the offset; the age of a message is `local + peer₀ - (peer + local₀)`.
unfoldable pub calibrate : ℕ → ℕ → NodeQueue → NodeQueue
calibrate local_time peer q = elim q.offset [
  | none ↦ record q { offset = some (local_time, peer) }
  | some o ↦ q
]

abbrev pub origin : Option (ℕ × ℕ) → ℕ × ℕ
origin none = (0, 0)
origin (some o) = o

-- `age > self.max_age`
unfoldable pub expired : ℕ → ℕ → NodeQueue → Bool
expired local_time peer q =
    ltb (q.max_age + (peer + (origin q.offset).0)) (local_time + (origin q.offset).1)

-- `age < -self.max_future_skew`
unfoldable pub from_future : ℕ → ℕ → NodeQueue → Bool
from_future local_time peer q =
    ltb (local_time + (origin q.offset).1 + q.max_future_skew) (peer + (origin q.offset).0)

abbrev pub is_tracked : String → Bool
is_tracked kind = kind == "command" || kind == "mission_commit"

abbrev pub is_set : String → Bool
is_set s = not (s == "")

-- How the saves of one call end: of the delivery record, of the inbox, and of the undo.
pub record Saves : Type 0 where
  pub record_save : Saving
  pub inbox_save : Saving
  pub undo_save : Saving

-- `CommandRejected(str(exc))` for `TypeError` and `ValueError`, with their subclasses.
abbrev pub as_rejected : Error → Error
as_rejected (type_error s) = rejected s
as_rejected (value_error s) = rejected s
as_rejected (frame_error s) = rejected s
as_rejected (node_message_error s) = rejected s
as_rejected (auth_error s) = rejected s
as_rejected (replay_error s) = rejected s
as_rejected (rejected s) = rejected s
as_rejected (key_error s) = key_error s
as_rejected (runtime_error s) = runtime_error s
as_rejected (mission_timeout s) = mission_timeout s
as_rejected (mission_denied s) = mission_denied s
as_rejected (mission_verification_error s) = mission_verification_error s
as_rejected (mission_unsafe_residual s) = mission_unsafe_residual s
as_rejected (timeout_error s) = timeout_error s
as_rejected (struct_error s) = struct_error s
as_rejected (overflow_error s) = overflow_error s

abbrev pub tidy_result {ℓ} : {A : Type ℓ} → Result A → Result A
tidy_result (ok a) = ok a
tidy_result (err x) = err (as_rejected x)

-- Before every record with a later time, behind those with the same: a stable sort.
unfoldable pub insert_by_age : String × ℕ → List (String × ℕ) → List (String × ℕ)
insert_by_age k [] = k ∷ []
insert_by_age k (j ∷ js) =
    let rest = insert_by_age k js in if ltb k.1 j.1 then k ∷ j ∷ js else j ∷ rest

unfoldable pub sort_by_age : List (String × ℕ) → List (String × ℕ) → List (String × ℕ)
unfolding insert_by_age
sort_by_age [] sorted = sorted
sort_by_age (k ∷ ks) sorted = sort_by_age ks (insert_by_age k sorted)

unfoldable pub ages : Dict String Delivered → List (String × ℕ)
ages [] = []
ages ((k, d) ∷ rest) = (k, d.updated_at) ∷ ages rest

unfoldable pub delete_commands : List (String × ℕ) → Dict String Delivered → Dict String Delivered
delete_commands [] d = d
delete_commands (k ∷ ks) d = delete_commands ks (delete k.0 d)

-- `_trim_delivery`
unfoldable pub trim_delivery : ℕ → Dict String Delivered → Dict String Delivered
unfolding sort_by_age ages delete_commands
trim_delivery limit d =
    if leb (length d) limit
    then d
    else delete_commands (take (length d - limit) (sort_by_age (ages d) [])) d
