-- ===== src/Mission/Execute.antt =====
-- aircraft_agent/mission_worker.py, `execute`: a mission is cleared, uploaded, read back and
-- checked in one transaction, and cancelled where any of this fails.
use low_altitude_io_t_system.Common.{
  Bool, List, Option, Result, String, [], bind, err, false, if◌then◌else◌, leb, length, list_eq,
  max, mission_timeout, mission_unsafe_residual, nat_eq, none, ok, pair_eq, runtime_error, some,
  string_eq, suc, true, zero, ℕ, ◌&&◌, ◌+◌, ◌-◌, ◌∷◌,
}
use low_altitude_io_t_system.Common.Int.{ℤ}
use low_altitude_io_t_system.Common.Value.{Fields, unit}
use low_altitude_io_t_system.Inbox.{Job}
use low_altitude_io_t_system.Telemetry.{Telemetry, execution_gate}
use low_altitude_io_t_system.Mission.{
  Item, Settings, World, andthen, is_accepted, is_ack, matches, send, send_ack, send_arm,
  send_clear_all, send_set_mode, transaction_receive,
}
use low_altitude_io_t_system.Mission.Items.{items_from_record, protocol_items}
use low_altitude_io_t_system.Mission.Transfer.{
  clear, download, upload, verify, verify_protocol_home,
}

pub record MissionResult : Type 0 where
  pub verified : Bool
  pub execution_ready : Bool
  pub reason : String
  pub item_count : ℕ

-- The wait of `_cleanup` for the acknowledgement, until a time.
unfoldable pub cleanup_rounds : ℕ → Settings → ℕ → World → Bool × World
cleanup_rounds zero s until w = (false, w)
cleanup_rounds (suc rounds) s until w =
    if leb until w.now
    then (false, w)
    else let (message, w') = transaction_receive is_ack (until - w.now) w in
      elim message [
        | none ↦ (false, w')
        | some m ↦
            let on = cleanup_rounds rounds s until w' in
            if matches s m then (is_accepted m, w') else on
      ]

-- One second.
abbrev pub second : ℕ
second = unit

-- `_cleanup`
unfoldable pub cleanup : Settings → World → Bool × World
unfolding cleanup_rounds
cleanup s w =
    let w' = send send_clear_all (send (send_ack 15) w) in
    cleanup_rounds (length w'.script + 1) s (w'.now + max second s.timeout) w'

-- The loop of `_upload` has ended: `none` does not occur, as Mission.Ends shows.
abbrev pub ended : World → Option (Result (Unit {0}) × World) → Result (Unit {0}) × World
ended w none = (err (mission_timeout "the upload does not end"), w)
ended w (some r) = r

-- The `try` block.
unfoldable pub transfer : Settings → ℕ → List Item → World → Result (Unit {0}) × World
transfer s deadline items w = andthen (clear s deadline w) λ _ w1.
    andthen (ended w1 (upload s deadline items w1)) λ _ w2.
      andthen (download s deadline (length items) w2) λ downloaded w3. elim items [
        | [] ↦ (ok tt, w3)
        | home ∷ wanted ↦ elim downloaded [
          | [] ↦ (err (runtime_error "list index out of range"), w3)
          | first ∷ received ↦
              (bind (verify_protocol_home s home first) λ _. verify s wanted received, w3)
        ]
      ]

-- `session.transaction()`, which a transaction that is active refuses, and what it does when it
-- ends.
abbrev pub with_transaction {ℓ} :
    {A : Type ℓ} → (World → Result A × World) → World → Result A × World
with_transaction body w =
    let (result, w') = body (record w { transaction_active = true }) in
    if w.transaction_active
    then (err (runtime_error "MAVLink transaction active"), w)
    else (result, record w' { transaction_active = false })

-- The rest of `execute`, with the modes that the autopilot has.
module _ (has_mode : String → Bool) where
  -- Behind the `try` block, with the answer of the telemetry's gate.
  unfoldable pub finish :
      Settings → Bool × String → ℕ → Bool → Result (Unit {0}) → World → Result MissionResult × World
  finish s gate count start_auto (err x) w =
      let (acknowledged, w') = cleanup s w in
      if acknowledged
      then (err x, w')
      else (err (mission_unsafe_residual "mission failed and cleanup was not acknowledged"), w')
  finish s (ready, reason) count start_auto (ok u) w =
      let result : MissionResult = record {
        verified = true;
        execution_ready = ready;
        reason = reason;
        item_count = count;
      } in
      let started : Result MissionResult × World =
        (if has_mode "AUTO"
          then (ok result, send (send_set_mode "AUTO") w)
          else (err (runtime_error "mode not available"), w)) in
      if start_auto && ready then started else (ok result, w)

  -- The body of the `with` block; `later` is what the telemetry has become when the gate is asked.
  unfoldable pub in_transaction :
      Settings → ℕ → Telemetry → ℕ → List Item → Bool → World → Result MissionResult × World
  unfolding finish
  in_transaction s freshness later count items start_auto w =
      let (done, w') = transfer s (w.now + s.operation_timeout) items w in
      finish s (execution_gate freshness w'.now later) count start_auto done w'

  -- The body of `execute` on what `_items_from_record` returns or raises.
  unfoldable pub execute_items :
      Settings
      → ℕ
      → Telemetry
      → Telemetry
      → Bool
      → Result (List Item)
      → World
      → Result MissionResult × World
  unfolding in_transaction
  execute_items s freshness t later start_auto (err x) w = (err x, w)
  execute_items s freshness t later start_auto (ok items) w =
      with_transaction
        (in_transaction s freshness later (length items) (protocol_items t items) start_auto) w

  -- `send("SET_MODE", mode=mode)`
  abbrev pub send_mode : String → World → Result (Unit {0}) × World
  send_mode mode w =
      if has_mode mode
      then (ok tt, send (send_set_mode mode) w)
      else (err (runtime_error "mode not available"), w)

  module _ (int_text float_text : String → Option ℤ) (upper : String → String)
      (sha256_json : List Fields → Result String) where
    -- `execute`
    unfoldable pub execute :
        Settings → ℕ → Telemetry → Telemetry → Job → Bool → World → Result MissionResult × World
    unfolding execute_items items_from_record
    execute s freshness t later job start_auto w =
        execute_items s freshness t later start_auto
          (items_from_record int_text float_text sha256_json job) w

    -- `set_mode`
    unfoldable pub set_mode : String → World → Result (Unit {0}) × World
    set_mode mode w = with_transaction (send_mode (upper mode)) w

    -- `arm`
    unfoldable pub arm : Bool → World → Result (Unit {0}) × World
    arm value w = with_transaction (λ w'. (ok tt, send (send_arm value) w')) w
