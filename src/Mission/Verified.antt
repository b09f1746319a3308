-- ===== src/Mission/Verified.antt =====
-- What the flight controller holds where a mission's execution reports it as verified.
use low_altitude_io_t_system.Common.{
  Bool, Bool-cases, List, Option, Result, Result-cases, String, [], ap, arith, bind, bind_ok, err,
  false, inl, inr, leb, length, list_eq, nat_eq, not, ok, pair_eq, refl, runtime_error, string_eq,
  subst, true, ℕ, ◌&&◌, ◌+◌, ◌==◌, ◌∷◌, ◌≡◌, ◌≤◌, ◌⊎◌,
}
use low_altitude_io_t_system.Common.Int.{distance, eqb_ℤ, pos, ℤ}
use low_altitude_io_t_system.Common.Value.{Fields, Float, finite, inf, nan, neg_inf}
use low_altitude_io_t_system.Inbox.{Job}
use low_altitude_io_t_system.Telemetry.{Telemetry, execution_gate}
use low_altitude_io_t_system.Mission.{Item, Message, Received, Settings, World}
use low_altitude_io_t_system.Mission.Receive.{Left-trans}
use low_altitude_io_t_system.Mission.Items.{
  items_from_record, numbered, protocol_home, protocol_items,
}
use low_altitude_io_t_system.Mission.Transfer.{
  clear, download, exceeds, params_agree, positions_agree, upload, verify, verify_item,
  verify_protocol_home,
}
use low_altitude_io_t_system.Mission.Kept.{Kept, clear-Kept, ended-Kept, upload-Kept}
use low_altitude_io_t_system.Mission.Execute.{
  MissionResult, ended, execute, execute_items, finish, in_transaction, transfer,
}
use low_altitude_io_t_system.Mission.Readback.{
  ReadFrom, ReadFrom-Left, andthen_ok, download-ReadFrom, eqb_ℤ_sound,
}

-- A float that was read back is within the tolerance, or it is NaN, which no comparison refuses.
abbrev pub CloseOrNan : ℕ → ℤ → Float → Type 0
CloseOrNan tolerance wanted received =
    ((v : ℤ) × (received ≡ finite v) × (distance wanted v ≤ tolerance)) ⊎ (received ≡ nan)

-- Two positions within the tolerances, but for an altitude that is NaN.
pub record IsNear (s : Settings) (wanted : Item) (received : Received) : Type 0 where
  pub x : distance wanted.x received.x ≤ s.coordinate_tolerance
  pub y : distance wanted.y received.y ≤ s.coordinate_tolerance
  pub z : CloseOrNan s.altitude_tolerance wanted.z received.z

-- An item that was read back as it was sent, within the tolerances or with a NaN.
pub record Agrees (s : Settings) (wanted : Item) (received : Received) : Type 0 where
  pub command : wanted.command ≡ received.command
  pub frame : wanted.frame ≡ received.frame
  pub near : IsNear s wanted received
  pub param1 : CloseOrNan s.param_tolerance wanted.param1 received.param1
  pub param2 : CloseOrNan s.param_tolerance wanted.param2 received.param2
  pub param3 : CloseOrNan s.param_tolerance wanted.param3 received.param3
  pub param4 : CloseOrNan s.param_tolerance wanted.param4 received.param4
  pub autocontinue : wanted.autocontinue ≡ received.autocontinue

abbrev pub AllAgree : Settings → List Item → List Received → Type 0
AllAgree s [] [] = Unit {0}
AllAgree s [] (r ∷ received) = ⊥
AllAgree s (w ∷ wanted) [] = ⊥
AllAgree s (w ∷ wanted) (r ∷ received) = Agrees s w r × AllAgree s wanted received

-- The first item is a waypoint at home.
pub record IsHome (s : Settings) (home : Item) (received : Received) : Type 0 where
  pub command : received.command ≡ pos 16
  pub frame : received.frame ≡ pos 0
  pub near : IsNear s home received

exceeds-CloseOrNan :
    (tolerance : ℕ) (wanted : ℤ) (received : Float)
    → exceeds tolerance wanted received ≡ false
    → CloseOrNan tolerance wanted received
exceeds-CloseOrNan tolerance wanted (finite v) h = inl (v, refl, ground arith)
exceeds-CloseOrNan tolerance wanted nan h = inr refl
exceeds-CloseOrNan tolerance wanted inf h = cc
exceeds-CloseOrNan tolerance wanted neg_inf h = cc

and_left : (a b : Bool) → (a && b) ≡ true → (a ≡ true) × (b ≡ true)
and_left true b h = (refl, h)
and_left false b h = cc

not-true : (b : Bool) → not b ≡ true → b ≡ false
not-true true h = cc
not-true false h = refl

positions_agree-IsNear :
    (s : Settings) (wanted : Item) (received : Received)
    → positions_agree s wanted received ≡ true
    → IsNear s wanted received
positions_agree-IsNear s wanted received h =
    let (x, rest) = and_left (leb (distance wanted.x received.x) s.coordinate_tolerance) _ h in
    let (y, z) = and_left (leb (distance wanted.y received.y) s.coordinate_tolerance) _ rest in
    record {
      x = ground arith;
      y = ground arith;
      z =
          exceeds-CloseOrNan s.altitude_tolerance wanted.z received.z
            (not-true (exceeds s.altitude_tolerance wanted.z received.z) z);
    }

params_agree-Close :
    (s : Settings) (wanted : Item) (received : Received)
    → params_agree s wanted received ≡ true
    → CloseOrNan s.param_tolerance wanted.param1 received.param1
      × CloseOrNan s.param_tolerance wanted.param2 received.param2
      × CloseOrNan s.param_tolerance wanted.param3 received.param3
      × CloseOrNan s.param_tolerance wanted.param4 received.param4
params_agree-Close s wanted received h =
    let t = s.param_tolerance in
    let (p1, h1) = and_left (not (exceeds t wanted.param1 received.param1)) _ h in
    let (p2, h2) = and_left (not (exceeds t wanted.param2 received.param2)) _ h1 in
    let (p3, p4) = and_left (not (exceeds t wanted.param3 received.param3)) _ h2 in
    (
      exceeds-CloseOrNan t wanted.param1 received.param1 (not-true _ p1),
      exceeds-CloseOrNan t wanted.param2 received.param2 (not-true _ p2),
      exceeds-CloseOrNan t wanted.param3 received.param3 (not-true _ p3),
      exceeds-CloseOrNan t wanted.param4 received.param4 (not-true _ p4),
    )

verify_item-Agrees :
    (s : Settings) (wanted : Item) (received : Received)
    → verify_item s wanted received ≡ ok tt
    → Agrees s wanted received
unfolding verify_item
verify_item-Agrees s wanted received h =
    let c = eqb_ℤ wanted.command received.command && eqb_ℤ wanted.frame received.frame in
    elim (Bool-cases c) [
      | inr other ↦ absurd (let e = rw other at h in cc)
      | inl same ↦ elim (Bool-cases (positions_agree s wanted received)) [
        | inr far ↦ absurd (let e = rw (same, far) at h in cc)
        | inl near ↦ elim (Bool-cases (params_agree s wanted received)) [
          | inr off ↦ absurd (let e = rw (same, near, off) at h in cc)
          | inl close ↦ elim (Bool-cases (eqb_ℤ wanted.autocontinue received.autocontinue)) [
            | inr changed ↦ absurd (let e = rw (same, near, close, changed) at h in cc)
            | inl kept ↦
                let (command, frame) =
                  and_left (eqb_ℤ wanted.command received.command)
                    (eqb_ℤ wanted.frame received.frame) same in
                let (p1, p2, p3, p4) = params_agree-Close s wanted received close in
                record {
                  command = eqb_ℤ_sound wanted.command received.command command;
                  frame = eqb_ℤ_sound wanted.frame received.frame frame;
                  near = positions_agree-IsNear s wanted received near;
                  param1 = p1;
                  param2 = p2;
                  param3 = p3;
                  param4 = p4;
                  autocontinue = eqb_ℤ_sound wanted.autocontinue received.autocontinue kept;
                }
          ]
        ]
      ]
    ]

verify-AllAgree :
    (s : Settings) (wanted : List Item) (received : List Received)
    → length received ≡ length wanted
    → verify s wanted received ≡ ok tt
    → AllAgree s wanted received
unfolding verify
verify-AllAgree s [] [] l h = tt
verify-AllAgree s [] (r ∷ received) l h = absurd (omega arith)
verify-AllAgree s (w ∷ wanted) [] l h = absurd (omega arith)
verify-AllAgree s (w ∷ wanted) (r ∷ received) l h =
    let (u, first, rest) = bind_ok (verify_item s w r) (λ _. verify s wanted received) h in
    (verify_item-Agrees s w r first, verify-AllAgree s wanted received (omega arith) rest)

verify_protocol_home-IsHome :
    (s : Settings) (home : Item) (received : Received)
    → verify_protocol_home s home received ≡ ok tt
    → IsHome s home received
unfolding verify_protocol_home
verify_protocol_home-IsHome s home received h =
    let c =
      received.seq == 0 && (eqb_ℤ received.command (pos 16) && eqb_ℤ received.frame (pos 0)) in
    elim (Bool-cases c) [
      | inr other ↦ absurd (let e = rw other at h in cc)
      | inl same ↦ elim (Bool-cases (positions_agree s home received)) [
        | inr far ↦ absurd (let e = rw (same, far) at h in cc)
        | inl near ↦
            let kinds =
              (and_left (received.seq == 0)
                (eqb_ℤ received.command (pos 16) && eqb_ℤ received.frame (pos 0)) same).1 in
            let (command, frame) =
              and_left (eqb_ℤ received.command (pos 16)) (eqb_ℤ received.frame (pos 0)) kinds in
            record {
              command = eqb_ℤ_sound received.command (pos 16) command;
              frame = eqb_ℤ_sound received.frame (pos 0) frame;
              near = positions_agree-IsNear s home received near;
            }
      ]
    ]

-- Among the messages that the flight controller has sent are, in this order and each under its own
-- number, a home and items that agree with what was wanted, as many and in the same order.
pub record OnBoard (s : Settings) (script : List (ℕ × Message)) (home : Item) (wanted : List Item)
    : Type 0 where
  pub first : Received
  pub received : List Received
  pub read_back : ReadFrom s 0 script (first ∷ received)
  pub at_home : IsHome s home first
  pub agree : AllAgree s wanted received

pub transfer-OnBoard :
    (s : Settings) (d : ℕ) (home : Item) (wanted : List Item) (w w' : World)
    → transfer s d (home ∷ wanted) w ≡ (ok tt, w')
    → OnBoard s w.script home wanted
unfolding transfer
transfer-OnBoard s d home wanted w w' h =
    let items = home ∷ wanted in
    let (u1, w1, cleared, h1) = andthen_ok (clear s d w) _ h in
    let (u2, w2, uploaded, h2) = andthen_ok (ended w1 (upload s d items w1)) _ h1 in
    let (got, w3, downloaded, h3) = andthen_ok (download s d (length items) w2) _ h2 in
    let (read, count) = download-ReadFrom s d (length items) w2 w3 got downloaded in
    let first =
      subst (λ (r : Result (Unit {0}) × World). Kept d w r.1) cleared (clear-Kept s d w) in
    let second =
      subst (λ (r : Result (Unit {0}) × World). Kept d w1 r.1) uploaded
        (ended-Kept s d w1 (upload s d items w1) (upload-Kept s d items w1)) in
    checked got w3 (ReadFrom-Left (Left-trans first.queue second.queue) read) count h3
  where
    checked :
        (got : List Received) (w3 : World)
        → ReadFrom s 0 w.script got
        → length got ≡ length (home ∷ wanted)
        → elim got as (λ _. Result (Unit {0}) × World) [
          | [] ↦ (err (runtime_error "list index out of range"), w3)
          | first ∷ received ↦
              (bind (verify_protocol_home s home first) (λ _. verify s wanted received), w3)
        ]
          ≡ (ok tt, w')
        → OnBoard s w.script home wanted
    checked [] w3 read count e = absurd (omega arith)
    checked (first ∷ received) w3 read count e =
        let (u, homed, rest) =
          bind_ok (verify_protocol_home s home first) (λ _. verify s wanted received)
            (ap (λ z. z.0) e) in
        record {
          first = first;
          received = received;
          read_back = read;
          at_home = verify_protocol_home-IsHome s home first homed;
          agree = verify-AllAgree s wanted received (omega arith) rest;
        }

finish_ok :
    (has_mode : String → Bool) (s : Settings) (gate : Bool × String) (n : ℕ) (start_auto : Bool)
    → (r : Result (Unit {0})) (w : World) (m : MissionResult)
    → (finish has_mode s gate n start_auto r w).0 ≡ ok m
    → (r ≡ ok tt) × (m.item_count ≡ n)
unfolding finish
finish_ok has_mode s gate n start_auto (err x) w m h = absurd (ground arith)
finish_ok has_mode s (ready, reason) n start_auto (ok u) w m h = (refl, ground arith)

module _ (has_mode : String → Bool) (int_text float_text : String → Option ℤ)
    (upper : String → String) (sha256_json : List Fields → Result String) where
  -- Where a mission's execution returns a result, the messages that the flight controller has sent
  -- since it began include, in this order and each passing the checks on its source: its home as
  -- item 0, and then, for each item of the durable record, an item under its own sequence number
  -- with the same command, frame and autocontinue and with its coordinates within the tolerance.
  -- Altitudes and parameters are within their tolerances or NaN, which no comparison refuses. The
  -- result counts the items of the record.
  pub execute_verified :
      (s : Settings) (freshness : ℕ) (t later : Telemetry) (job : Job) (start_auto : Bool)
      → (w : World) (m : MissionResult)
      → (execute has_mode int_text float_text upper sha256_json s freshness t later job start_auto
          w).0
        ≡ ok m
      → (items : List Item) × (items_from_record int_text float_text sha256_json job ≡ ok items)
        × OnBoard s w.script (protocol_home t) (numbered 1 items)
        × (m.item_count ≡ length items)
  unfolding execute execute_items in_transaction protocol_items
  execute_verified s freshness t later job start_auto w m h =
      elim (Result-cases (items_from_record int_text float_text sha256_json job)) [
        | inr (x, invalid) ↦ absurd (let e = rw invalid at h in cc)
        | inl (items, valid) ↦ elim (Bool-cases w.transaction_active) [
          | inl active ↦ absurd (let e = rw (valid, active) at h in cc)
          | inr free ↦
              let w0 : World = record w { transaction_active = true } in
              let d = w0.now + s.operation_timeout in
              let moved = transfer s d (protocol_home t ∷ numbered 1 items) w0 in
              let (done, count) =
                finish_ok has_mode s (execution_gate freshness moved.1.now later) (length items)
                  start_auto moved.0 moved.1 m (rw (valid, free) at h) in
              (
                items,
                valid,
                transfer-OnBoard s d (protocol_home t) (numbered 1 items) w0 moved.1
                    (ap (λ z. (z, moved.1)) done),
                count,
              )
        ]
      ]
