-- ===== src/Mission.antt =====
-- aircraft_agent/mission_worker.py: the upload of a mission to the flight controller over the
-- MAVLink session of aircraft_agent/mavlink_session.py.
pub mod Items
pub mod Transfer
pub mod Execute
mod Receive
mod Kept
pub mod Ends
pub mod Deadline
mod Readback
pub mod Verified
mod Examples
use low_altitude_io_t_system.Common.{
  Bool, Bool-cases, Eq, List, Option, Result, String, [], err, false, if◌then◌else◌, leb, length,
  list_eq, ltb, max, min, mission_timeout, nat_eq, none, ok, pair_eq, some, string_eq, suc, true,
  zero, ℕ, ◌&&◌, ◌+◌, ◌-◌, ◌==◌, ◌∷◌, ◌≢◌,
}
use low_altitude_io_t_system.Common.Int.{eqb_ℤ, negsuc, pos, ℤ}
use low_altitude_io_t_system.Common.Value.{Float}

-- The message types that the worker tells apart.
pub data Kind : Type 0 where
  mission_ack mission_request mission_request_int mission_count : Kind
  mission_item mission_item_int other_kind : Kind

-- What the worker reads of a message. Where `field` finds nothing there is `none`; a coordinate is
-- in units of 1e-7 degrees in both types of item, other floats are whole numbers of 1e-7 where they
-- are finite.
pub record Message : Type 0 where
  pub kind : Kind
  pub mission_type : Option ℕ
  pub target_system : Option ℕ
  pub target_component : Option ℕ
  pub source_system : Option ℕ
  pub get_src_system : Option ℕ
  pub source_component : Option ℕ
  pub get_src_component : Option ℕ
  pub result : Option ℤ
  pub result_type : Option ℤ
  pub seq : Option ℤ
  pub count : Option ℤ
  pub frame : Option ℤ
  pub command : Option ℤ
  pub x : Option Float
  pub y : Option Float
  pub z : Option Float
  pub param1 : Option Float
  pub param2 : Option Float
  pub param3 : Option Float
  pub param4 : Option Float
  pub autocontinue : Option ℤ

-- An item of the mission protocol.
pub record Item : Type 0 where
  pub seq : ℕ
  pub frame : ℤ
  pub command : ℤ
  pub x : ℤ
  pub y : ℤ
  pub z : ℤ
  pub param1 : ℤ
  pub param2 : ℤ
  pub param3 : ℤ
  pub param4 : ℤ
  pub autocontinue : ℤ

-- An item that was read back; its floats are what the flight controller has sent.
pub record Received : Type 0 where
  pub seq : ℕ
  pub frame : ℤ
  pub command : ℤ
  pub x : ℤ
  pub y : ℤ
  pub z : Float
  pub param1 : Float
  pub param2 : Float
  pub param3 : Float
  pub param4 : Float
  pub autocontinue : ℤ

-- `session.send(kind, ...)`
pub data Sent : Type 0 where
  send_clear_all : Sent
  send_count : ℕ → Sent
  send_item : Item → Sent
  send_request_list : Sent
  send_request_int : ℕ → Sent
  send_ack : ℕ → Sent
  send_set_mode : String → Sent
  send_arm : Bool → Sent

-- The session's clock, the messages that its reader will put on the transaction's queue with the
-- times at which they come, and what was sent, the last first. The clock moves only in waits for a
-- message.
pub record World : Type 0 where
  pub now : ℕ
  pub script : List (ℕ × Message)
  pub sent : List Sent
  pub transaction_active : Bool

-- The arguments of the constructor and the session's ids.
pub record Settings : Type 0 where
  pub timeout : ℕ
  pub retries : ℕ
  pub operation_timeout : ℕ
  pub max_sequence_requests : ℕ
  pub coordinate_tolerance : ℕ
  pub altitude_tolerance : ℕ
  pub param_tolerance : ℕ
  pub gcs_system : ℕ
  pub gcs_component : ℕ
  pub own_target_system : ℕ
  pub own_target_component : ℕ

abbrev pub send : Sent → World → World
send s w = record w { sent = s ∷ w.sent }

-- A step and what follows if it did not raise.
abbrev pub andthen {ℓ κ} :
    {A : Type ℓ} {B : Type κ} → Result A × World → (A → World → Result B × World) → Result B × World
andthen (ok a, w) f = f a w
andthen (err x, w) f = (err x, w)

-- The loop of `_Transaction.receive` until a time: messages of other types are taken off the queue
-- and dropped, and an empty queue waits.
unfoldable pub receive_until :
    (Kind → Bool) → ℕ → ℕ → List (ℕ × Message) → Option Message × ℕ × List (ℕ × Message)
receive_until accepted until now [] = (none, max now until, [])
receive_until accepted until now ((arrival, m) ∷ rest) =
    let more = receive_until accepted until (max now arrival) rest in
    if leb until now
    then (none, now, (arrival, m) ∷ rest)
    else if ltb until arrival
    then (none, until, (arrival, m) ∷ rest)
    else if accepted m.kind
    then (some m, max now arrival, rest)
    else more

-- `transaction.receive(message_types, timeout)`
unfoldable pub transaction_receive : (Kind → Bool) → ℕ → World → Option Message × World
unfolding receive_until
transaction_receive accepted timeout w =
    let (message, now, rest) = receive_until accepted (w.now + timeout) w.now w.script in
    (message, record w { now = now; script = rest })

abbrev absent_or : Option ℕ → ℕ → Bool
absent_or none n = true
absent_or (some m) n = m == n

abbrev or_else : Option ℕ → Option ℕ → Option ℕ
or_else (some m) o = some m
or_else none o = o

-- `_matches`
unfoldable pub matches : Settings → Message → Bool
matches s m =
    absent_or m.mission_type 0
    && (absent_or m.target_system s.gcs_system
        && (absent_or m.target_component s.gcs_component
            && (absent_or (or_else m.source_system m.get_src_system) s.own_target_system
                && absent_or (or_else m.source_component m.get_src_component)
                    s.own_target_component)))

-- `_receive`; each round but the last takes a message off the queue, so their number in rounds is
-- enough.
unfoldable pub receive_rounds :
    ℕ → Settings → ℕ → (Kind → Bool) → World → Result (Option Message) × World
receive_rounds zero s deadline accepted w = (ok none, w)
receive_rounds (suc rounds) s deadline accepted w =
    if leb deadline w.now
    then (err (mission_timeout "mission global deadline exceeded"), w)
    else let (message, w') = transaction_receive accepted (min s.timeout (deadline - w.now)) w in
      elim message [
        | none ↦ (ok none, w')
        | some m ↦
            let on = receive_rounds rounds s deadline accepted w' in
            if matches s m then (ok (some m), w') else on
      ]

unfoldable pub receive : Settings → ℕ → (Kind → Bool) → World → Result (Option Message) × World
unfolding receive_rounds
receive s deadline accepted w = receive_rounds (length w.script + 1) s deadline accepted w

abbrev pub get_or_z : Option ℤ → ℤ → ℤ
get_or_z none d = d
get_or_z (some v) d = v

-- `_ack_result`
abbrev pub ack_result : Message → ℤ
ack_result m = get_or_z m.result (get_or_z m.result_type (negsuc 0))

-- `_ack_result(ack) == MAV_MISSION_ACCEPTED`
abbrev pub is_accepted : Message → Bool
is_accepted m = eqb_ℤ (ack_result m) (pos 0)

abbrev pub is_ack : Kind → Bool
is_ack mission_ack = true
is_ack k = false

abbrev pub is_request_or_ack : Kind → Bool
is_request_or_ack mission_request = true
is_request_or_ack mission_request_int = true
is_request_or_ack mission_ack = true
is_request_or_ack k = false

abbrev pub is_count : Kind → Bool
is_count mission_count = true
is_count k = false

abbrev pub is_item : Kind → Bool
is_item mission_item = true
is_item mission_item_int = true
is_item k = false
