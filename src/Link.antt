-- ===== src/Link.antt =====
-- rdk_agent/aircraft_link.py, class AircraftLink: one transaction at a time is sent to the aircraft
-- by the retry sender, and ends by an answer, by a blocked link or after the last attempt.
use low_altitude_io_t_system.Common.{
  Bool, Bool-cases, Eq, List, Option, Result, String, [], bind, err, false, if◌then◌else◌, leb,
  length, list_eq, nat_eq, none, not, ok, pair_eq, require, some, string_eq, true, value_error, ℕ,
  ◌&&◌, ◌+◌, ◌==◌, ◌||◌, ◌∷◌, ◌≢◌,
}
use low_altitude_io_t_system.Common.Dict.{Dict, evict, has_key, put_last}
use low_altitude_io_t_system.Common.Value.{
  Fields, Float, end, entry, int, is_in, nat_field, str, str_field,
}
use low_altitude_io_t_system.Common.Int.{pos}
use low_altitude_io_t_system.Frame.{Frame, MessageType, ack, nack}
use low_altitude_io_t_system.Transport.Sender.{
  Identity, Sender, acknowledge, cancel, due, make_sender, pop_exhausted,
}
use low_altitude_io_t_system.Inbox.{clip}
pub mod Send
pub mod Closed
pub mod Calls
pub mod Lock
pub mod Bounds
pub mod Kept
mod Examples
use Prim.Native.String.{◌++◌ as join_text}

-- The command that the router hands on.
pub record CloudCommand : Type 0 where
  pub command_id : String
  pub source_timestamp : Float
  pub target : String
  pub action : String
  pub payload : Fields

-- An entry of `_terminal`; its key is the command id.
pub record Terminal : Type 0 where
  pub stage : String
  pub error : String
  pub revision : ℕ

pub record Link : Type 0 where
  pub sender : Sender
  pub next_sequence : ℕ
  pub stage : String
  pub error : String
  pub transaction_id : String
  pub active_command_id : Option String
  pub revision : ℕ
  pub terminal : Dict String Terminal
  pub terminal_limit : ℕ
  pub fragment_transactions : List String
  pub fragment_commit : List String

-- `AircraftLink(max_attempts, retry_interval, history_limit)`
unfoldable pub make_link : ℕ → ℕ → ℕ → Result Link
make_link max_attempts retry_interval history_limit =
    bind (require (leb 1 history_limit) (value_error "history_limit must be positive")) λ _.
      bind (make_sender max_attempts retry_interval 1024) λ sender. ok (record {
        sender = sender;
        next_sequence = 0;
        stage = "idle";
        error = "";
        transaction_id = "";
        active_command_id = none;
        revision = 0;
        terminal = [];
        terminal_limit = history_limit;
        fragment_transactions = [];
        fragment_commit = [];
      })

-- `ids.add(id)` and `ids.discard(id)`
abbrev pub add_id : String → List String → List String
add_id id ids = if is_in id ids then ids else id ∷ ids

abbrev pub discard_id : String → List String → List String
discard_id id [] = []
discard_id id (j ∷ ids) = let more = discard_id id ids in if j == id then more else j ∷ more

-- `id == self._active_command_id`
abbrev pub is_active : String → Option String → Bool
is_active id none = false
is_active id (some a) = id == a

unfoldable pub set_stage : String → Link → Link
set_stage stage l =
    if stage == l.stage then l else record l { stage = stage; revision = l.revision + 1 }

-- `_set_terminal`
unfoldable pub set_terminal : String → String → String → Link → Link
set_terminal id stage error l =
    let ended : Terminal = record { stage = stage; error = error; revision = l.revision + 1 } in
    let current = id == l.transaction_id in
    record l {
      sender = (cancel l.sender id).0;
      revision = l.revision + 1;
      terminal = evict l.terminal_limit (put_last id ended l.terminal);
      stage = (if current then stage else l.stage);
      error = (if current then error else l.error);
      active_command_id = (if is_active id l.active_command_id then none else l.active_command_id);
    }

abbrev pub given_or : Option String → Option String → Option String
given_or none o = o
given_or (some id) o = if id == "" then o else some id

-- `fail_transaction`; an id that is not given, or is empty, is the active one.
unfoldable pub fail_transaction : String → String → Option String → Link → Result Bool × Link
fail_transaction stage error given l =
    if not (stage == "retry_exhausted" || stage == "link_blocked")
    then (err (value_error "invalid terminal transaction stage"), l)
    else elim (given_or given l.active_command_id) [
      | none ↦ (ok false, l)
      | some id ↦
          if has_key id l.terminal
          then (ok false, l)
          else (ok true, set_terminal id stage (clip 120 error) l)
    ]

-- The loop of `due_bytes` over what has used its attempts up.
unfoldable pub end_exhausted : (ℕ → String) → List Identity → Link → Link
end_exhausted decimal [] l = l
end_exhausted decimal ((id, sequence) ∷ rest) l = end_exhausted decimal rest (
    set_terminal id "retry_exhausted"
      (join_text "command "
        (join_text id (join_text " sequence " (join_text (decimal sequence) " retry exhausted"))))
      l)

-- The frames whose transaction has not ended.
unfoldable pub still_wanted : Dict String Terminal → List Frame → List Frame
unfolding has_key
still_wanted terminal [] = []
still_wanted terminal (f ∷ fs) =
    let more = still_wanted terminal fs in if has_key f.command_id terminal then more else f ∷ more

-- `due_bytes` up to the encoding; `str` of a sequence is a parameter.
unfoldable pub due_frames : (ℕ → String) → ℕ → Link → List Frame × Link
due_frames decimal now l =
    let (sender, frames) = due l.sender now in
    let (sender', exhausted) = pop_exhausted sender in
    let l' : Link = record l { sender = sender' } in
    elim exhausted [
      | [] ↦ elim frames [ [] ↦ ([], l') | f ∷ fs ↦ (f ∷ fs, set_stage "awaiting_ack" l') ]
      | i ∷ is ↦
          let over = end_exhausted decimal (i ∷ is) l' in (still_wanted over.terminal frames, over)
    ]

-- What an acknowledgement that was taken does to its transaction.
unfoldable pub acknowledge_transaction : String → Link → Link
acknowledge_transaction id l =
    let more_fragments = is_in id l.fragment_transactions && not (is_in id l.fragment_commit) in
    let paused = set_stage "fragment_acknowledged" (record l { active_command_id = none }) in
    let over = set_terminal id "acknowledged" "" (record l {
      fragment_transactions = discard_id id l.fragment_transactions;
      fragment_commit = discard_id id l.fragment_commit;
    }) in
    if not (leb 1 (length l.sender.pending)) && is_active id l.active_command_id
    then (if more_fragments then paused else over)
    else l

-- `accept_ack` on a frame, with the sequence that it acknowledges.
unfoldable pub accept_ack : Frame → Link → Result Bool × Link
accept_ack f l =
    if has_key f.command_id l.terminal
    then (ok false, l)
    else elim (nat_field "acked_sequence" f.payload) [
      | err x ↦ (err x, l)
      | ok sequence ↦
          let (sender, accepted) = acknowledge l.sender (f.command_id, sequence) in
          let l' : Link = record l { sender = sender } in
          (ok accepted, if accepted then acknowledge_transaction f.command_id l' else l')
    ]

-- A NACK.
unfoldable pub accept_nack : Frame → Link → Result Bool × Link
accept_nack f l =
    if has_key f.command_id l.terminal
    then (ok false, l)
    else elim (nat_field "acked_sequence" f.payload) [
      | err x ↦ (err x, l)
      | ok sequence ↦
          let (sender, accepted) = acknowledge l.sender (f.command_id, sequence) in
          let l' : Link = record l { sender = sender } in
          if accepted
          then elim (str_field "reason" f.payload) [
            | err x ↦ (err x, l')
            | ok reason ↦ (ok true, set_terminal f.command_id "nacked" (clip 120 reason) l')
          ]
          else (ok false, l')
    ]

-- `accept_response` on a frame of a type.
abbrev pub accept_typed : MessageType → Frame → Link → Result Bool × Link
accept_typed ack f l = accept_ack f l
accept_typed nack f l = accept_nack f l
accept_typed t f l = (ok false, l)

unfoldable pub accept_response : Frame → Link → Result Bool × Link
accept_response f l = accept_typed f.message_type f l

-- `event_history`
unfoldable pub event_history : Dict String Terminal → List Fields
event_history [] = []
event_history ((id, t) ∷ rest) =
    entry "command_id" (str id) (
      entry "stage" (str t.stage)
        (entry "error" (str t.error) (entry "revision" (int (pos t.revision)) end)))
    ∷ event_history rest

-- `transaction_state`
unfoldable pub transaction_state : Link → Fields
transaction_state l =
    let tail : Fields = if l.error == "" then end else entry "error" (str l.error) end in
    entry "stage" (str l.stage) (
      entry "pending" (int (pos (length l.sender.pending))) (
        entry "transaction_id" (str l.transaction_id)
          (entry "revision" (int (pos l.revision)) tail)))
