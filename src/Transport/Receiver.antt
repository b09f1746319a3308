-- ===== src/Transport/Receiver.antt =====
-- shared_protocol/transport.py, class ReceiverState: duplicates, and mission transactions that are
-- received in parts. Times are whole ticks; each call is given the reading of `self._clock()`.
pub mod Missing
pub mod Invariant
use low_altitude_io_t_system.Common.{
  ℕ, zero, suc, ◌+◌, ◌-◌, min, Bool, true, false, not, ◌&&◌, Option, none, some, List, [], ◌∷◌,
  ◌++◌, String, leb, ltb, length, take, Result, ok, err, Error, value_error, bind, require, ◌==◌,
  string_eq, nat_eq, pair_eq, if◌then◌else◌,
}
use low_altitude_io_t_system.Common.Int.{ℤ, pos, negsuc}
use low_altitude_io_t_system.Common.Dict.{Dict, get, put, put_last, delete, has_key, evict}
use low_altitude_io_t_system.Common.Value.{
  Value, obj, Fields, field, str_field, nat_field, eq_value, null,
}
use low_altitude_io_t_system.Frame.{
  MessageType, Frame, command, mission_begin, mission_item, mission_commit, ack, nack, status,
  link_blocked, auth_challenge, auth_response,
}
use low_altitude_io_t_system.Messages.{validate_payload}
use low_altitude_io_t_system.Transport.Sender.{Identity, identity}

-- MissionReceiveState
pub record Mission : Type 0 where
  pub command_id : String
  pub mission_id : String
  pub item_count : ℕ
  pub vehicle : Value
  pub updated_at : ℕ
  pub items : Dict ℕ Fields
  pub committed : Bool

-- `(command_id, mission_id)`
abbrev pub MissionKey : Type 0
MissionKey = String × String

-- The clock offset is kept as the pair whose difference it is: the time given, and the reading.
pub record Receiver : Type 0 where
  pub history_limit : ℕ
  pub max_missions : ℕ
  pub mission_ttl : ℕ
  pub max_missing_page : ℕ
  pub clock_offset : Option (ℕ × ℕ)
  pub seen : Dict Identity (Option MissionKey)
  pub missions : Dict MissionKey Mission
  pub last_now : Option ℕ

unfoldable pub make_receiver : ℕ → ℕ → ℕ → ℕ → Result Receiver
make_receiver history_limit max_missions mission_ttl max_missing_page =
    bind (require (leb 1 history_limit) (value_error "history_limit must be positive")) λ _.
      bind (require (leb 1 max_missions) (value_error "max_missions must be positive")) λ _.
        bind (require (leb 1 mission_ttl) (value_error "mission_ttl must be positive")) λ _.
          bind (require (leb 1 max_missing_page) (value_error "max_missing_page must be positive"))
            λ _. ok (record {
              history_limit = history_limit;
              max_missions = max_missions;
              mission_ttl = mission_ttl;
              max_missing_page = max_missing_page;
              clock_offset = none;
              seen = [];
              missions = [];
              last_now = none;
            })

-- `resolved` as a difference of two numbers, with the new offset.
abbrev resolve : Option (ℕ × ℕ) → Option ℕ → ℕ → (ℕ × ℕ) × Option (ℕ × ℕ)
resolve offset (some now) clock_now = ((now, 0), some (now, clock_now))
resolve none none clock_now = ((clock_now, 0), none)
resolve (some (now, reading)) none clock_now = ((clock_now + now, reading), some (now, reading))

abbrev goes_back : Option ℕ → ℕ × ℕ → Bool
goes_back none d = false
goes_back (some last) (a, b) = ltb a (last + b)

-- `_prepare_now`; it writes nothing before it raises.
unfoldable pub prepare_now : Receiver → Option ℕ → ℕ → Result (ℕ × Receiver)
prepare_now r now clock_now =
    let (d, offset) = resolve r.clock_offset now clock_now in
    bind (require (not (goes_back r.last_now d)) (value_error "now must be monotonic")) λ _.
      let resolved = d.0 - d.1 in
      ok (resolved, record r { clock_offset = offset; last_now = some resolved })

-- The keys of the missions that have run out, in the order of the dict.
unfoldable pub expired_keys : ℕ → ℕ → Dict MissionKey Mission → List MissionKey
expired_keys ttl now [] = []
expired_keys ttl now ((k, m) ∷ rest) =
    let more = expired_keys ttl now rest in if leb (m.updated_at + ttl) now then k ∷ more else more

abbrev belongs : MissionKey → Option MissionKey → Bool
belongs k none = false
belongs k (some j) = j == k

unfoldable pub forget :
    MissionKey → Dict Identity (Option MissionKey) → Dict Identity (Option MissionKey)
forget k [] = []
forget k ((i, t) ∷ rest) =
    let others = forget k rest in if belongs k t then others else (i, t) ∷ others

unfoldable pub drop_missions : List MissionKey → Receiver → Receiver
unfolding forget
drop_missions [] r = r
drop_missions (k ∷ ks) r =
    drop_missions ks (record r { missions = delete k r.missions; seen = forget k r.seen })

-- `_expire`
unfoldable pub expire : ℕ → Receiver → Receiver
unfolding expired_keys drop_missions
expire now r = drop_missions (expired_keys r.mission_ttl now r.missions) r

-- The indices below `item_count` that are not in `items`, from `i` on.
unfoldable pub missing_from : ℕ → ℕ → Dict ℕ Fields → List ℕ
unfolding has_key
missing_from i zero items = []
missing_from i (suc n) items =
    let more = missing_from (i + 1) n items in if has_key i items then more else i ∷ more

unfoldable pub missing_indices : Mission → List ℕ
unfolding missing_from
missing_indices m = missing_from 0 m.item_count m.items

-- `_require_mission`
abbrev require_mission : Option Mission → Result Mission
require_mission none = err (value_error "mission transaction has not begun")
require_mission (some m) = ok m

-- `_begin` once the payload's fields are read
unfoldable pub begin_mission : Receiver → MissionKey → ℕ → Value → ℕ → Result Receiver
begin_mission r key count vehicle now = elim (get key r.missions) [
  | some m ↦
      bind
        (require (m.item_count == count && eq_value m.vehicle vehicle)
          (value_error "mission begin conflicts with existing mission"))
        λ _. ok (record r { missions = put key (record m { updated_at = now }) r.missions })
  | none ↦
      bind
        (require (ltb (length r.missions) r.max_missions)
          (value_error "concurrent mission limit reached"))
        λ _.
          let m : Mission = record {
            command_id = key.0;
            mission_id = key.1;
            item_count = count;
            vehicle = vehicle;
            updated_at = now;
            items = [];
            committed = false;
          } in
          ok (record r { missions = put key m r.missions })
]

abbrev conflicts : Option Fields → Fields → Bool
conflicts none payload = false
conflicts (some old) payload = not (eq_value (obj old) (obj payload))

-- `_item`
unfoldable pub receive_item : Receiver → MissionKey → ℕ → Fields → ℕ → Result Receiver
receive_item r key index payload now = bind (require_mission (get key r.missions)) λ m.
    bind
      (require (ltb index m.item_count)
        (value_error "mission item index is outside declared range"))
      λ _.
        bind
          (require (not (conflicts (get index m.items) payload))
            (value_error "mission item conflicts with received item"))
          λ _.
            let m' : Mission = record m { updated_at = now; items = put index payload m.items } in
            ok (record r { missions = put key m' r.missions })

abbrev is_empty : List ℕ → Bool
is_empty [] = true
is_empty (x ∷ xs) = false

-- `_commit`
unfoldable pub commit_mission : Receiver → MissionKey → ℕ → ℕ → Result Receiver
commit_mission r key count now = bind (require_mission (get key r.missions)) λ m.
    bind (require (count == m.item_count) (value_error "mission commit count does not match begin"))
      λ _. bind (require (is_empty (missing_indices m)) (value_error "mission is incomplete")) λ _.
        let m' : Mission = record m { updated_at = now; committed = true } in
        ok (record r { missions = put key m' r.missions })

abbrev or_null : Option Value → Value
or_null none = null
or_null (some v) = v

-- The dispatch of `accept` on a validated frame.
unfoldable pub dispatch_on : MessageType → Receiver → Frame → ℕ → Result Receiver
dispatch_on mission_begin r f now = bind (str_field "mission_id" f.payload) λ id.
    bind (nat_field "item_count" f.payload)
      λ count. begin_mission r (f.command_id, id) count (or_null (field "vehicle" f.payload)) now
dispatch_on mission_item r f now = bind (str_field "mission_id" f.payload) λ id.
    bind (nat_field "index" f.payload)
      λ index. receive_item r (f.command_id, id) index f.payload now
dispatch_on mission_commit r f now = bind (str_field "mission_id" f.payload) λ id.
    bind (nat_field "item_count" f.payload) λ count. commit_mission r (f.command_id, id) count now
dispatch_on kind r f now = ok r

unfoldable pub dispatch : Receiver → Frame → ℕ → Result Receiver
unfolding dispatch_on begin_mission receive_item commit_mission
dispatch r f now = dispatch_on f.message_type r f now

abbrev key_of : String → Result String → Option MissionKey
key_of command_id (ok id) = some (command_id, id)
key_of command_id (err x) = none

-- `_transaction_identity`
unfoldable pub transaction_identity : Frame → Option MissionKey
transaction_identity f = elim f.message_type [
  | mission_begin ↦ key_of f.command_id (str_field "mission_id" f.payload)
  | mission_item ↦ key_of f.command_id (str_field "mission_id" f.payload)
  | mission_commit ↦ key_of f.command_id (str_field "mission_id" f.payload)
  | _ ↦ none
]

unfoldable pub remember : Receiver → Frame → Receiver
unfolding transaction_identity
remember r f = record r {
  seen = evict r.history_limit (put_last (identity f) (transaction_identity f) r.seen);
}

-- `accept` behind `_prepare_now` and `_expire`. What these two wrote stays when a check raises.
unfoldable pub accept_at : ℕ → Receiver → Frame → Result Bool × Receiver
unfolding dispatch remember has_key
accept_at now r f = elim (validate_payload f.message_type f.payload) [
  | err x ↦ (err x, r)
  | ok _ ↦
      if has_key (identity f) r.seen
      then (ok false, r)
      else elim (dispatch r f now) [ err x ↦ (err x, r) | ok r' ↦ (ok true, remember r' f) ]
]

unfoldable pub accept : Receiver → Frame → Option ℕ → ℕ → Result Bool × Receiver
unfolding prepare_now expire accept_at
accept r f now clock_now = elim (prepare_now r now clock_now) [
  | err x ↦ (err x, r)
  | ok (t, r') ↦ accept_at t (expire t r') f
]

-- `mission`
unfoldable pub find_mission :
    Receiver → MissionKey → Option ℕ → ℕ → Result (Option Mission) × Receiver
unfolding prepare_now expire
find_mission r key now clock_now = elim (prepare_now r now clock_now) [
  | err x ↦ (err x, r)
  | ok (t, r') ↦ (ok (get key (expire t r').missions), expire t r')
]

pub record Page : Type 0 where
  pub indices : List ℕ
  pub next_offset : Option ℕ

abbrev pub from : ℕ → List ℕ → List ℕ
from offset [] = []
from offset (i ∷ is) = let rest = from offset is in if leb offset i then i ∷ rest else rest

abbrev get_last? : List ℕ → Option ℕ
get_last? [] = none
get_last? (i ∷ []) = some i
get_last? (i ∷ j ∷ is) = get_last? (j ∷ is)

abbrev next_after : Option ℕ → Option ℕ
next_after none = none
next_after (some i) = some (i + 1)

-- The page of `resume`: `page[-1] + 1` is where the next one starts.
unfoldable pub page_of : ℕ → ℕ → List ℕ → Page
page_of offset limit missing =
    let remaining = from offset missing in
    let page = take limit remaining in
    record {
      indices = page;
      next_offset =
          if ltb (length page) (length remaining) then next_after (get_last? page) else none;
    }

abbrev page_limit : ℕ → Option ℤ → Result ℕ
page_limit most none = ok most
page_limit most (some (pos zero)) = err (value_error "limit must be a positive integer")
page_limit most (some (pos (suc n))) = ok (min (suc n) most)
page_limit most (some (negsuc n)) = err (value_error "limit must be a positive integer")

abbrev page_offset : ℤ → Result ℕ
page_offset (pos n) = ok n
page_offset (negsuc n) = err (value_error "offset must be a non-negative integer")

-- `resume`
unfoldable pub resume : Receiver → MissionKey → ℤ → Option ℤ → Option ℕ → ℕ → Result Page × Receiver
unfolding prepare_now expire page_of missing_indices
resume r key offset limit now clock_now = elim (prepare_now r now clock_now) [
  | err x ↦ (err x, r)
  | ok (t, r') ↦ (
    bind (require_mission (get key (expire t r').missions)) λ m. bind (page_offset offset) λ first.
        bind (page_limit r.max_missing_page limit)
          λ most. ok (page_of first most (missing_indices m)),
    expire t r',
  )
]
