-- ===== src/Inbox/Store.antt =====
-- aircraft_agent/inbox.py: the persisted state of a DurableInbox, its limits, and how it is saved
-- and loaded.
use low_altitude_io_t_system.Common.{
  Bool, Error, List, Option, Result, String, [], bind, err, leb, length, list_eq, nat_eq, none, ok,
  pair_eq, require, string_eq, value_error, ℕ, ◌&&◌,
}
use low_altitude_io_t_system.Common.Dict.{Dict}
use low_altitude_io_t_system.Common.Value.{Fields, Value}
use low_altitude_io_t_system.Transport.Sender.{Identity}

abbrev pub MissionKey : Type 0
MissionKey = String × String

-- What is executed: a command, or a mission with its items in order.
pub data Job : Type 0 where
  command_job : (command_id : String) → (action parameters : Value) → Job
  mission_job : (command_id mission_id : String) → List Fields → (checksum stage : String) → Job

pub record Staged : Type 0 where
  pub command_id : String
  pub mission_id : String
  pub item_count : ℕ
  pub vehicle : Value
  pub checksum : String
  pub items : Dict ℕ Fields

-- An entry of `seen`; its `id` is the text of the command id and the sequence, a pair here.
pub record Accepted : Type 0 where
  pub id : Identity
  pub fingerprint : String
  pub stage : String

pub record Outcome : Type 0 where
  pub command_id : String
  pub stage : String
  pub detail : String
  pub extra : Fields

-- The dict `_state`.
pub record State : Type 0 where
  pub active : Option Job
  pub queue : List Job
  pub staged : Dict MissionKey Staged
  pub seen : List Accepted
  pub results : List Outcome

pub record Limits : Type 0 where
  pub max_queue : ℕ
  pub max_history : ℕ
  pub max_staged : ℕ
  pub max_resume_items : ℕ
  pub max_results : ℕ

-- `disk` is what the store would load.
pub record Inbox : Type 0 where
  pub limits : Limits
  pub state : State
  pub disk : State

-- How `store.save` ends: written, raised before the file was replaced, as by the file system or with
-- the ValueError of a state over the size limit, or raised after that.
pub data Saving : Type 0 where
  written : Saving
  lost replaced : Error → Saving

-- `self.store.save(self._state)`
unfoldable pub save : Saving → State → State → Result (Unit {0}) × State
save written disk s = (ok tt, s)
save (lost x) disk s = (err x, disk)
save (replaced x) disk s = (err x, s)

pub record InboxResult : Type 0 where
  pub acked_sequence : ℕ
  pub stage : String
  pub duplicate : Bool

abbrev pub job_id : Job → String
job_id (command_job id action parameters) = id
job_id (mission_job id mission items checksum stage) = id

-- The checks of `_validate_loaded` on sizes; that each part has its type is what `State` says.
unfoldable pub validate_loaded : Limits → State → Result (Unit {0})
validate_loaded l s =
    bind (require (leb (length s.queue) l.max_queue) (value_error "persisted queue exceeds limit"))
      λ _.
        bind
          (require (leb (length s.staged) l.max_staged)
            (value_error "persisted staging exceeds limit"))
          λ _.
            bind
              (require (leb (length s.seen) l.max_history)
                (value_error "persisted history exceeds limit"))
              λ _.
                require (leb (length s.results) l.max_results)
                  (value_error "persisted results exceed limit")

abbrev pub positive : Limits → Bool
positive l =
    leb 1 l.max_queue
    && leb 1 l.max_history
    && leb 1 l.max_staged
    && leb 1 l.max_resume_items
    && leb 1 l.max_results

-- `__init__`, on what the store loads
unfoldable pub open_inbox : Limits → State → Result Inbox
unfolding validate_loaded
open_inbox l loaded = bind (require (positive l) (value_error "must be positive")) λ _.
    bind (validate_loaded l loaded) λ _. ok (record { limits = l; state = loaded; disk = loaded })

abbrev pub empty_state : State
empty_state = record { active = none; queue = []; staged = []; seen = []; results = [] }
