-- ===== src/Mission/Transfer.antt =====
-- aircraft_agent/mission_worker.py: clearing, uploading, reading back and checking a mission.
use low_altitude_io_t_system.Common.{
  Bool, List, Option, Result, [], bind, err, false, get_elem?, if◌then◌else◌, leb, length, list_eq,
  ltb, mission_denied, mission_timeout, mission_verification_error, nat_eq, none, not, ok, or_raise,
  overflow_error, pair_eq, require, some, string_eq, suc, true, value_error, zero, ℕ, ◌&&◌, ◌*◌,
  ◌+◌, ◌==◌, ◌∷◌,
}
use low_altitude_io_t_system.Common.Int.{distance, eqb_ℤ, negsuc, pos, ℤ}
use low_altitude_io_t_system.Common.Dict.{Dict, get, put}
use low_altitude_io_t_system.Common.Value.{Float, finite, inf, nan, neg_inf}
use low_altitude_io_t_system.Mission.{
  Item, Message, Received, Settings, World, andthen, get_or_z, is_accepted, is_ack, is_count,
  is_item, is_request_or_ack, receive, send, send_ack, send_clear_all, send_count, send_item,
  send_request_int, send_request_list,
}

-- The counts of `_requests`, and the attempts since the last request.
pub record Progress : Type 0 where
  pub requests : Dict ℕ ℕ
  pub attempts : ℕ

-- `self._requests.get(sequence, 0)`
abbrev pub or_zero : Option ℕ → ℕ
or_zero none = 0
or_zero (some n) = n

abbrev pub requested : ℕ → Progress → ℕ
requested i p = or_zero (get i p.requests)

-- `int(round(float(raw)))` of a coordinate, which an infinity or NaN does not survive.
abbrev pub coordinate : Option Float → Result ℤ
coordinate none = ok (pos 0)
coordinate (some (finite v)) = ok v
coordinate (some nan) = err (value_error "cannot convert float NaN to integer")
coordinate (some f) = err (overflow_error "cannot convert float infinity to integer")

abbrev pub float_or_zero : Option Float → Float
float_or_zero none = finite (pos 0)
float_or_zero (some f) = f

-- The item that a message carries.
abbrev pub read_item : ℕ → Message → Result Received
read_item sequence m = bind (coordinate m.x) λ x. bind (coordinate m.y) λ y. ok (record {
  seq = sequence;
  frame = get_or_z m.frame (negsuc 0);
  command = get_or_z m.command (negsuc 0);
  x = x;
  y = y;
  z = float_or_zero m.z;
  param1 = float_or_zero m.param1;
  param2 = float_or_zero m.param2;
  param3 = float_or_zero m.param3;
  param4 = float_or_zero m.param4;
  autocontinue = get_or_z m.autocontinue (pos 1);
})

module _ (s : Settings) (deadline : ℕ) where
  -- The attempts of `_clear`.
  unfoldable pub clear_attempts : ℕ → World → Result (Unit {0}) × World
  clear_attempts zero w = (err (mission_timeout "mission clear acknowledgement timeout"), w)
  clear_attempts (suc n) w =
      andthen (receive s deadline is_ack (send send_clear_all w)) λ message w'. elim message [
        | none ↦ clear_attempts n w'
        | some ack ↦
            if is_accepted ack
            then (ok tt, w')
            else (err (mission_denied "mission clear denied"), w')
      ]

  -- `_clear`
  unfoldable pub clear : World → Result (Unit {0}) × World
  unfolding clear_attempts
  clear w = clear_attempts (s.retries + 1) w

  -- An item's answer to a request, or the exception that it raises.
  unfoldable pub answer_request : List Item → Message → Progress → Result (Item × Progress)
  unfolding get put
  answer_request items m p = elim (get_or_z m.seq (negsuc 0)) [
    | negsuc n ↦ err (mission_denied "invalid mission request")
    | pos i ↦
        let count = requested i p + 1 in
        bind (or_raise (get_elem? items i) (mission_denied "invalid mission request")) λ item.
          bind
            (require (leb count s.max_sequence_requests)
              (mission_denied "mission request repeat limit"))
            λ _. ok (item, record { requests = put i count p.requests; attempts = 0 })
  ]

  -- A round of the loop of `_upload` behind `_receive`, and how the loop goes on.
  unfoldable pub upload_step :
      (Progress → World → Option (Result (Unit {0}) × World))
      → List Item
      → Progress
      → Result (Option Message)
      → World
      → Option (Result (Unit {0}) × World)
  upload_step on items p (err x) w = some (err x, w)
  upload_step on items p (ok none) w =
      if leb s.retries p.attempts
      then some (err (mission_timeout "mission item request timeout"), w)
      else on (record p { attempts = p.attempts + 1 }) (send (send_count (length items)) w)
  upload_step on items p (ok (some m)) w =
      let answered : Option (Result (Unit {0}) × World) = elim (answer_request items m p) [
        | err x ↦ some (err x, w)
        | ok (item, p') ↦ on p' (send (send_item item) w)
      ] in
      if is_ack m.kind
      then (if is_accepted m
          then some (ok tt, w)
          else some (err (mission_denied "mission upload denied"), w))
      else answered

  -- The loop of `_upload`. A round answers a request or uses an attempt up.
  unfoldable pub upload_rounds :
      ℕ → List Item → Progress → World → Option (Result (Unit {0}) × World)
  unfolding upload_step
  upload_rounds zero items p w = none
  upload_rounds (suc rounds) items p w =
      let (received, w') = receive s deadline is_request_or_ack w in
      upload_step (upload_rounds rounds items) items p received w'

  -- Rounds that are enough for whatever messages come, as Mission.Ends shows: each item is sent at
  -- most `max_sequence_requests` times, with `retries` attempts between.
  abbrev pub enough_rounds : List Item → ℕ
  enough_rounds items = (length items * s.max_sequence_requests + 1) * (s.retries + 2)

  -- `_upload`
  unfoldable pub upload : List Item → World → Option (Result (Unit {0}) × World)
  unfolding upload_rounds
  upload items w =
      upload_rounds (enough_rounds items) items (record { requests = []; attempts = 0 })
        (send (send_count (length items)) w)

  -- The attempts of `_download` for the count.
  unfoldable pub count_attempts : ℕ → World → Result ℤ × World
  count_attempts zero w = (err (mission_timeout "mission readback count timeout"), w)
  count_attempts (suc n) w =
      andthen (receive s deadline is_count (send send_request_list w)) λ message w'. elim message [
        | none ↦ count_attempts n w'
        | some m ↦ (ok (get_or_z m.count (negsuc 0)), w')
      ]

  -- `_download_item`, with the attempts that are left.
  unfoldable pub item_attempts : ℕ → ℕ → World → Result Received × World
  item_attempts zero sequence w = (err (mission_timeout "mission readback item timeout"), w)
  item_attempts (suc n) sequence w =
      andthen (receive s deadline is_item (send (send_request_int sequence) w)) λ message w'.
        elim message [
          | none ↦ item_attempts n sequence w'
          | some m ↦
              let on = item_attempts n sequence w' in
              if eqb_ℤ (get_or_z m.seq (negsuc 0)) (pos sequence)
              then (read_item sequence m, w')
              else on
        ]

  -- The loop of `_download` over the sequence numbers that are left.
  unfoldable pub download_items : ℕ → ℕ → World → Result (List Received) × World
  unfolding item_attempts
  download_items zero sequence w = (ok [], w)
  download_items (suc n) sequence w =
      andthen (item_attempts (s.retries + 1) sequence w) λ item w'.
        andthen (download_items n (sequence + 1) w') λ items w''. (ok (item ∷ items), w'')

  -- `_download`
  unfoldable pub download : ℕ → World → Result (List Received) × World
  unfolding count_attempts download_items
  download expected w = andthen (count_attempts (s.retries + 1) w) λ count w'.
      let got =
        andthen (download_items expected 0 w') λ items w''. (ok items, send (send_ack 0) w'') in
      if eqb_ℤ count (pos expected)
      then got
      else (err (mission_verification_error "mission readback count"), w')

-- `abs(wanted - received) > tolerance`, which is false of NaN.
abbrev pub exceeds : ℕ → ℤ → Float → Bool
exceeds tolerance wanted (finite v) = ltb tolerance (distance wanted v)
exceeds tolerance wanted nan = false
exceeds tolerance wanted inf = true
exceeds tolerance wanted neg_inf = true

abbrev pub positions_agree : Settings → Item → Received → Bool
positions_agree s wanted received =
    leb (distance wanted.x received.x) s.coordinate_tolerance
    && (leb (distance wanted.y received.y) s.coordinate_tolerance
        && not (exceeds s.altitude_tolerance wanted.z received.z))

abbrev pub params_agree : Settings → Item → Received → Bool
params_agree s wanted received =
    not (exceeds s.param_tolerance wanted.param1 received.param1)
    && (not (exceeds s.param_tolerance wanted.param2 received.param2)
        && (not (exceeds s.param_tolerance wanted.param3 received.param3)
            && not (exceeds s.param_tolerance wanted.param4 received.param4)))

-- One round of `_verify`.
unfoldable pub verify_item : Settings → Item → Received → Result (Unit {0})
verify_item s wanted received =
    bind
      (require (eqb_ℤ wanted.command received.command && eqb_ℤ wanted.frame received.frame)
        (mission_verification_error "mission readback command/frame mismatch"))
      λ _.
        bind
          (require (positions_agree s wanted received)
            (mission_verification_error "mission readback position mismatch"))
          λ _.
            bind
              (require (params_agree s wanted received)
                (mission_verification_error "mission readback param mismatch"))
              λ _.
                require (eqb_ℤ wanted.autocontinue received.autocontinue)
                  (mission_verification_error "mission readback autocontinue mismatch")

-- `_verify`; `zip` ends with the shorter list.
unfoldable pub verify : Settings → List Item → List Received → Result (Unit {0})
unfolding verify_item
verify s [] received = ok tt
verify s (w ∷ wanted) [] = ok tt
verify s (w ∷ wanted) (r ∷ received) = bind (verify_item s w r) λ _. verify s wanted received

-- `_verify_protocol_home`
unfoldable pub verify_protocol_home : Settings → Item → Received → Result (Unit {0})
verify_protocol_home s wanted received =
    bind
      (require
        (received.seq == 0 && (eqb_ℤ received.command (pos 16) && eqb_ℤ received.frame (pos 0)))
        (mission_verification_error "mission readback protocol Home command/frame mismatch seq=0"))
      λ _.
        require (positions_agree s wanted received)
          (mission_verification_error "mission readback protocol Home position mismatch seq=0")
