-- ===== src/Mission/Deadline.antt =====
-- When a mission's execution ends, and which orders it gives the vehicle.
use low_altitude_io_t_system.Common.{
  Bool, Bool-cases, List, Option, Option-cases, Result, String, [], ap, arith, bind, err, inl, inr,
  leb, length, list_eq, max, nat_eq, ok, pair_eq, refl, runtime_error, string_eq, suc, true, zero,
  ℕ, ◌&&◌, ◌+◌, ◌-◌, ◌∙◌, ◌∷◌, ◌≡◌, ◌≤◌, ◌⊎◌,
}
use low_altitude_io_t_system.Common.Int.{ℤ}
use low_altitude_io_t_system.Common.Value.{Fields}
use low_altitude_io_t_system.Inbox.{Job}
use low_altitude_io_t_system.Telemetry.{Telemetry, execution_gate}
use low_altitude_io_t_system.Mission.{
  Received, Item, Settings, World, is_ack, matches, send, send_ack, send_clear_all, send_set_mode,
  transaction_receive,
}
use low_altitude_io_t_system.Mission.Receive.{Took-Left, all, transaction_receive_lem}
use low_altitude_io_t_system.Mission.Items.{
  items_from_record, numbered, protocol_home, protocol_items,
}
use low_altitude_io_t_system.Mission.Transfer.{
  clear, download, upload, verify, verify_protocol_home,
}
use low_altitude_io_t_system.Mission.Kept.{
  Kept, Kept-refl, Kept-trans, andthen-Kept, clear-Kept, download-Kept, ended-Kept, orders,
  upload-Kept,
}
use low_altitude_io_t_system.Mission.Execute.{
  cleanup, cleanup_rounds, ended, execute, execute_items, finish, in_transaction, second, transfer,
}
use low_altitude_io_t_system.Mission.Verified.{OnBoard, transfer-OnBoard}

pub transfer-Kept :
    (s : Settings) (d : ℕ) (items : List Item) (w : World) → Kept d w (transfer s d items w).1
unfolding transfer
transfer-Kept s d items w = andthen-Kept d w (clear s d w) _ (clear-Kept s d w) (λ u w1.
    andthen-Kept d w1 (ended w1 (upload s d items w1)) _
      (ended-Kept s d w1 (upload s d items w1) (upload-Kept s d items w1))
      (λ v w2.
        andthen-Kept d w2 (download s d (length items) w2) _ (download-Kept s d (length items) w2)
          (λ got w3. on items got w3)))
  where
    on :
        (items : List Item) (got : List Received) (w3 : World)
        → Kept d w3
            (elim items as (λ _. Result (Unit {0}) × World) [
              | [] ↦ (ok tt, w3)
              | home ∷ wanted ↦ elim got as (λ _. Result (Unit {0}) × World) [
                | [] ↦ (err (runtime_error "list index out of range"), w3)
                | first ∷ received ↦
                    (bind (verify_protocol_home s home first) λ _. verify s wanted received, w3)
              ]
            ]).1
    on [] got w3 = Kept-refl d w3
    on (home ∷ wanted) [] w3 = Kept-refl d w3
    on (home ∷ wanted) (first ∷ received) w3 = Kept-refl d w3

cleanup_rounds-Kept :
    (rounds : ℕ) (s : Settings) (until : ℕ) (w : World)
    → Kept until w (cleanup_rounds rounds s until w).1
unfolding cleanup_rounds
cleanup_rounds-Kept zero s until w = Kept-refl until w
cleanup_rounds-Kept (suc rounds) s until w = elim (Bool-cases (leb until w.now)) [
  | inl past ↦ rw past (Kept-refl until w)
  | inr going ↦
      let (unsent, later, within, took) = transaction_receive_lem is_ack (until - w.now) w in
      let w' = (transaction_receive is_ack (until - w.now) w).1 in
      let first : Kept until w w' = record {
        later = later;
        within = λ h. ground arith;
        queue =
            Took-Left is_ack w.script (transaction_receive is_ack (until - w.now) w).0 w'.script
              took;
        orderless = ap orders unsent;
      } in
      elim (Option-cases (transaction_receive is_ack (until - w.now) w).0) [
        | inl nothing ↦ rw (going, nothing) first
        | inr (m, got) ↦ elim (Bool-cases (matches s m)) [
          | inl ours ↦ rw (going, got, ours) first
          | inr foreign ↦
              rw (going, got, foreign)
                (Kept-trans until w w' (cleanup_rounds rounds s until w').1 first
                  (cleanup_rounds-Kept rounds s until w'))
        ]
      ]
]

cleanup-Kept : (s : Settings) (w : World) → Kept (w.now + max second s.timeout) w (cleanup s w).1
unfolding cleanup
cleanup-Kept s w =
    let w' = send send_clear_all (send (send_ack 15) w) in
    let until = w'.now + max second s.timeout in
    Kept-trans until w w' (cleanup_rounds (length w'.script + 1) s until w').1
      (record { later = omega arith; within = λ h. h; queue = all; orderless = refl })
      (cleanup_rounds-Kept (length w'.script + 1) s until w')

module _ (has_mode : String → Bool) where
  finish_lem :
      (s : Settings) (gate : Bool × String) (n : ℕ) (start_auto : Bool) (r : Result (Unit {0}))
      → (w : World)
      → ((finish has_mode s gate n start_auto r w).1.now ≤ w.now + max second s.timeout)
        × ((orders (finish has_mode s gate n start_auto r w).1.sent ≡ orders w.sent)
            ⊎ ((orders (finish has_mode s gate n start_auto r w).1.sent
                  ≡ send_set_mode "AUTO" ∷ orders w.sent)
                × (start_auto ≡ true)
                × (gate.0 ≡ true)
                × (r ≡ ok tt)
                × ((finish has_mode s gate n start_auto r w).1.now ≡ w.now)))
  unfolding finish
  finish_lem s gate n start_auto (err x) w =
      let k = cleanup-Kept s w in
      let late = k.within (omega arith) in
      elim (Bool-cases (cleanup s w).0) [
        | inl done ↦ rw done (late, inl k.orderless)
        | inr residual ↦ rw residual (late, inl k.orderless)
      ]
  finish_lem s (ready, reason) n start_auto (ok u) w = elim (Bool-cases (start_auto && ready)) [
    | inr held ↦ rw held (omega arith, inl refl)
    | inl going ↦ elim (Bool-cases (has_mode "AUTO")) [
      | inr missing ↦ rw (going, missing) (omega arith, inl refl)
      | inl there ↦
          rw (going, there) (omega arith, inr (refl, ground arith, ground arith, refl, refl))
    ]
  ]

  -- What a mission's execution may have ordered: nothing, or to start. It starts only where it was
  -- asked to, the items are on board, as far as what was read back shows, and the telemetry's gate
  -- is open at that time.
  abbrev pub Ordered :
      Settings → ℕ → Telemetry → Telemetry → Bool → Result (List Item) → World → World → Type 0
  Ordered s freshness t later start_auto r w w' =
      (orders w'.sent ≡ orders w.sent)
      ⊎ ((orders w'.sent ≡ send_set_mode "AUTO" ∷ orders w.sent)
          × (start_auto ≡ true)
          × ((execution_gate freshness w'.now later).0 ≡ true)
          × ((items : List Item) × (r ≡ ok items)
              × OnBoard s w.script (protocol_home t) (numbered 1 items)))

  in_transaction_lem :
      (s : Settings) (freshness : ℕ) (t later : Telemetry) (items : List Item)
      → (start_auto : Bool) (w : World)
      → ((in_transaction has_mode s freshness later
            (length items)
            (protocol_items t items)
            start_auto
            w).1.now
          ≤ w.now + s.operation_timeout + max second s.timeout)
        × Ordered s freshness t later start_auto
            (ok items)
            w
            (in_transaction has_mode s freshness later
              (length items)
              (protocol_items t items)
              start_auto
              w).1
  unfolding in_transaction protocol_items
  in_transaction_lem s freshness t later items start_auto w =
      let d = w.now + s.operation_timeout in
      let (done, w') = transfer s d (protocol_home t ∷ numbered 1 items) w in
      let k = transfer-Kept s d (protocol_home t ∷ numbered 1 items) w in
      let gate = execution_gate freshness w'.now later in
      let (late, ordered) = finish_lem s gate (length items) start_auto done w' in
      let inside = k.within (omega arith) in
      let w'' = (finish has_mode s gate (length items) start_auto done w').1 in
      (
        omega arith,
        elim ordered [
          | inl same ↦ inl (same ∙ k.orderless)
          | inr (order, asked, ready, moved, still) ↦ inr (
            order ∙ ap (λ l. send_set_mode "AUTO" ∷ l) k.orderless,
            asked,
            ap (λ n. (execution_gate freshness n later).0) still ∙ ready,
            (
              items,
              refl,
              transfer-OnBoard s d (protocol_home t) (numbered 1 items) w w'
                  (ap (λ z. (z, w')) moved),
            ),
          )
        ],
      )

  execute_items_lem :
      (s : Settings) (freshness : ℕ) (t later : Telemetry) (start_auto : Bool)
      → (r : Result (List Item)) (w : World)
      → ((execute_items has_mode s freshness t later start_auto r w).1.now
          ≤ w.now + s.operation_timeout + max second s.timeout)
        × Ordered s freshness t later start_auto r w
            (execute_items has_mode s freshness t later start_auto r w).1
  unfolding execute_items
  execute_items_lem s freshness t later start_auto (err x) w = (omega arith, inl refl)
  execute_items_lem s freshness t later start_auto (ok items) w =
      elim (Bool-cases w.transaction_active) [
        | inl active ↦ rw active (omega arith, inl refl)
        | inr free ↦ rw free (
            in_transaction_lem s freshness t later items start_auto
              (record w { transaction_active = true }))
      ]

  module _ (int_text float_text : String → Option ℤ) (upper : String → String)
      (sha256_json : List Fields → Result String) where
    -- Whatever the flight controller sends and whenever it does, a mission's execution is over
    -- within the operation's timeout and the wait of the cleanup.
    pub execute_deadline :
        (s : Settings) (freshness : ℕ) (t later : Telemetry) (job : Job) (start_auto : Bool)
        → (w : World)
        → (execute has_mode int_text float_text upper sha256_json s freshness t later job start_auto
            w).1.now
          ≤ w.now + s.operation_timeout + max second s.timeout
    unfolding execute
    execute_deadline s freshness t later job start_auto w =
        (execute_items_lem s freshness t later start_auto
          (items_from_record int_text float_text sha256_json job) w).0

    -- A mission's execution gives the vehicle no order to arm and none to change its mode, but for
    -- the one order AUTO: only where it was asked to start, the telemetry's gate answers that it is
    -- ready at the time of the order, and among the messages that the flight controller has sent
    -- are its home and each item of the durable record in order, which agree with what was wanted
    -- within the tolerances, but for altitudes and parameters that are NaN.
    pub execute_orders :
        (s : Settings) (freshness : ℕ) (t later : Telemetry) (job : Job) (start_auto : Bool)
        → (w : World)
        → Ordered s freshness t later start_auto
            (items_from_record int_text float_text sha256_json job)
            w
            (execute has_mode int_text float_text upper sha256_json s freshness t later job
              start_auto w).1
    unfolding execute
    execute_orders s freshness t later job start_auto w =
        (execute_items_lem s freshness t later start_auto
          (items_from_record int_text float_text sha256_json job) w).1
