-- ===== src/Slave/History.antt =====
-- What becomes of a delivery record of NodeCommandQueue (slave_agent/command_queue.py) while the
-- queue goes on: later messages, reports of results, deliveries, and the worker on the inbox.
use low_altitude_io_t_system.Common.{
  Bool, Bool-cases, List, err, ok, Option, Option-cases, Result, Result-cases, String, [], ap,
  arith, false, inl, inr, leb, length, list_eq, nat_eq, none, pair_eq, refl, some, string_eq, subst,
  sym, true, ℕ, ◌<◌, ◌==◌, ◌∙◌, ◌∷◌, ◌≡◌,
}
use low_altitude_io_t_system.Common.Value.{Value}
use low_altitude_io_t_system.Common.Dict.{Dict, get, get-put, length-put, put}
use low_altitude_io_t_system.Auth.{Bytes}
use low_altitude_io_t_system.Inbox.{Inbox, Outcome, Saving, lost, replaced, written}
use low_altitude_io_t_system.Slave.{
  Delivered, NodeMessage, NodeQueue, Saves, is_tracked, calibrate, expired, from_future, emit_stage,
  save_delivery, trim_delivery,
}
use low_altitude_io_t_system.Slave.Mission.{accept_locked}
use low_altitude_io_t_system.Slave.Delivery.{
  changed, completed, deduplicate, delivery_fingerprint, mark_delivered, new_record, note_result,
  note_results, record_delivery, repeated, terminal_of,
}
use low_altitude_io_t_system.Slave.Accept.{accept_message, accept_recorded, accept_timely}
use low_altitude_io_t_system.Slave.Refused.{save_delivery_keeps}

-- A command id has a record with a fingerprint.
abbrev pub Filed : String → String → Dict String Delivered → Type 0
Filed id print commands = (d : Delivered) × (get id commands ≡ some d) × (d.fingerprint ≡ print)

-- The record of an id is replaced by one with the same fingerprint.
put-Filed :
    (id print j : String) (d d' : Delivered) (commands : Dict String Delivered)
    → get j commands ≡ some d
    → d'.fingerprint ≡ d.fingerprint
    → Filed id print commands
    → Filed id print (put j d' commands)
put-Filed id print j d d' commands there same (e, known, eq) = elim (Bool-cases (j == id)) [
  | inr other ↦ (e, rw (get-put j id d' commands, other) known, eq)
  | inl own ↦
      let ji : j ≡ id = (string_eq.beq_iff j id).0 own in
      let both : some d ≡ some e = sym there ∙ ap (λ z. get z commands) ji ∙ known in
      let de : d ≡ e = cc in
      (d', rw (get-put j id d' commands, own) refl, same ∙ ap (λ z. z.fingerprint) de ∙ eq)
]

-- A new record, where there is room for it.
put_new-Filed :
    (id print j : String) (d' : Delivered) (limit : ℕ) (commands : Dict String Delivered)
    → get j commands ≡ none
    → length commands < limit
    → Filed id print commands
    → Filed id print (trim_delivery limit (put j d' commands))
unfolding trim_delivery
put_new-Filed id print j d' limit commands new room (e, known, eq) =
    let size = length-put j d' commands in
    let few : leb (length (put j d' commands)) limit ≡ true = ground (arith, size) in
    let trimmed : trim_delivery limit (put j d' commands) ≡ put j d' commands =
      rw (trim_delivery, few) refl in
    elim (Bool-cases (j == id)) [
      | inr other ↦ rw trimmed (e, rw (get-put j id d' commands, other) known, eq)
      | inl own ↦
          let ji : j ≡ id = (string_eq.beq_iff j id).0 own in
          let both : none ≡ some e = sym new ∙ ap (λ z. get z commands) ji ∙ known in absurd (cc)
    ]

saved-Filed :
    (id print : String) (saving : Saving) (q : NodeQueue)
    → Filed id print q.commands
    → Filed id print (save_delivery saving q).1.commands
saved-Filed id print saving q filed =
    subst (λ z. Filed id print z) (sym (save_delivery_keeps saving q).1) filed

note_result-Filed :
    (id print : String) (o : Outcome) (dirty : Bool) (q : NodeQueue)
    → Filed id print q.commands
    → Filed id print (note_result o dirty q).1.commands
unfolding note_result
note_result-Filed id print o dirty q filed = elim (Option-cases (get o.command_id q.commands)) [
  | inl unknown ↦ rw (note_result, unknown) filed
  | inr (d, known) ↦ elim (Bool-cases (d.terminal_stage == terminal_of o)) [
    | inl again ↦
        rw (note_result, known, again)
          (put-Filed id print o.command_id d _ q.commands known refl filed)
    | inr moved ↦
        rw (note_result, known, moved)
          (put-Filed id print o.command_id d _ q.commands known refl filed)
  ]
]

note_results-Filed :
    (id print : String) (os : List Outcome) (dirty : Bool) (q : NodeQueue)
    → Filed id print q.commands
    → Filed id print (note_results os dirty q).1.commands
unfolding note_results
note_results-Filed id print [] dirty q filed = filed
note_results-Filed id print (o ∷ os) dirty q filed =
    let (dirty', q') = note_result o dirty q in
    note_results-Filed id print os dirty' q' (note_result-Filed id print o dirty q filed)

completed-Filed :
    (id print : String) (saving : Saving) (q : NodeQueue)
    → Filed id print q.commands
    → Filed id print (completed saving q).1.commands
unfolding completed
completed-Filed id print saving q filed =
    let q' = (note_results q.inbox.state.results false q).1 in
    let noted = note_results-Filed id print q.inbox.state.results false q filed in
    elim (Bool-cases (note_results q.inbox.state.results false q).0) [
      | inr clean ↦ rw clean noted
      | inl dirty ↦ rw dirty (saved-Filed id print saving q' noted)
    ]

mark_delivered-Filed :
    (id print : String) (saving : Saving) (j : String) (q : NodeQueue)
    → Filed id print q.commands
    → Filed id print (mark_delivered saving j q).1.commands
unfolding mark_delivered
mark_delivered-Filed id print saving j q filed = elim (Option-cases (get j q.commands)) [
  | inl unknown ↦ rw (mark_delivered, unknown) filed
  | inr (d, known) ↦
      let d' : Delivered = record d { delivered = true } in
      rw (mark_delivered, known)
        (saved-Filed id print saving (record q { commands = put j d' q.commands })
          (put-Filed id print j d d' q.commands known refl filed))
]

calibrate_records :
    (local_time peer : ℕ) (q : NodeQueue)
    → ((calibrate local_time peer q).commands ≡ q.commands)
      × ((calibrate local_time peer q).max_records ≡ q.max_records)
unfolding calibrate
calibrate_records local_time peer q = (ground arith, ground arith)

module _ (dumps : Value → Result Bytes) (is_uuid : String → Bool) (loads : Bytes → Option Value)
    (sha256 : Bytes → String) (uuid_text : String → String) (h : Value → String) where
  pub repeated_fingerprint :
      (now : ℕ) (m : NodeMessage) (d : Delivered) → (repeated h m now d).fingerprint ≡ d.fingerprint
  repeated_fingerprint now m d = elim (Bool-cases (changed h m d)) [
    | inl moved ↦ rw moved refl
    | inr still ↦ rw still refl
  ]

  -- A call on the queue; what the worker does to the inbox is any inbox.
  pub data Call : Type 0 where
    accepts : Saves → Bool → (local_time now : ℕ) → NodeMessage → Call
    reports : Saving → Call
    delivers : Saving → String → Call
    works : Inbox → Call

  abbrev pub after : Call → NodeQueue → NodeQueue
  after (accepts saves allowed local_time now m) q =
      (accept_message dumps is_uuid loads sha256 uuid_text h saves allowed local_time now m q).1
  after (reports saving) q = (completed saving q).1
  after (delivers saving id) q = (mark_delivered saving id q).1
  after (works inbox) q = record q { inbox = inbox }

  abbrev pub after_all : List Call → NodeQueue → NodeQueue
  after_all [] q = q
  after_all (c ∷ cs) q = after_all cs (after c q)

  -- No record has to make way for a message that comes.
  abbrev pub HasRoom : Call → NodeQueue → Type 0
  HasRoom (accepts saves allowed local_time now m) q = length q.commands < q.max_records
  HasRoom c q = Unit

  abbrev pub HaveRoom : List Call → NodeQueue → Type 0
  HaveRoom [] q = Unit
  HaveRoom (c ∷ cs) q = HasRoom c q × HaveRoom cs (after c q)

  deduplicate-Filed :
      (id print : String) (saving : Saving) (now : ℕ) (m : NodeMessage) (q : NodeQueue)
      → Filed id print q.commands
      → Filed id print (deduplicate h saving now m q).1.commands
  unfolding deduplicate
  deduplicate-Filed id print saving now m q filed =
      elim (Option-cases (get m.command_id q.commands)) [
        | inl new ↦ rw (deduplicate, new) filed
        | inr (d, known) ↦ elim (Bool-cases (d.fingerprint == delivery_fingerprint h m)) [
          | inr differs ↦ rw (deduplicate, known, differs) filed
          | inl same ↦ elim (Bool-cases (changed h m d)) [
            | inr still ↦
                rw (deduplicate, known, same, still)
                  (put-Filed id print m.command_id d _ q.commands known refl filed)
            | inl moved ↦
                rw (deduplicate, known, same, moved)
                  (saved-Filed id print saving _
                    (put-Filed id print m.command_id d _ q.commands known refl filed))
          ]
        ]
      ]

  record_delivery-Filed :
      (id print : String) (saving : Saving) (now : ℕ) (m : NodeMessage) (q : NodeQueue)
      → get m.command_id q.commands ≡ none
      → length q.commands < q.max_records
      → Filed id print q.commands
      → Filed id print (record_delivery h saving now m q).1.commands
  unfolding record_delivery save_delivery
  record_delivery-Filed id print written now m q new room filed =
      put_new-Filed id print m.command_id (new_record h m "QUEUED" now) q.max_records q.commands new
        room filed
  record_delivery-Filed id print (lost x) now m q new room filed = filed
  record_delivery-Filed id print (replaced x) now m q new room filed = filed

  recorded-Filed :
      (id print : String) (saves : Saves) (tracked : Bool) (previous : Dict String Delivered)
      (m : NodeMessage) (q : NodeQueue)
      → Filed id print previous
      → Filed id print q.commands
      → Filed id print
          (accept_recorded dumps is_uuid loads sha256 uuid_text h saves tracked previous m
            q).1.commands
  unfolding accept_recorded emit_stage
  recorded-Filed id print saves tracked previous m q before filed =
      elim (Result-cases
        (accept_locked dumps is_uuid loads sha256 uuid_text h saves.inbox_save m q.inbox).0) [
          | inl (r, fine) ↦ rw (accept_recorded, fine) filed
          | inr (x, failed) ↦ elim (Bool-cases tracked) [
            | inr off ↦ rw (accept_recorded, failed, off) filed
            | inl on ↦
                rw (accept_recorded, failed, on) (saved-Filed id print saves.undo_save _ before)
          ]
        ]

  -- What `_deduplicate_delivery` passes on as new has no record.
  deduplicate_new :
      (saving : Saving) (now : ℕ) (m : NodeMessage) (q : NodeQueue)
      → (deduplicate h saving now m q).0 ≡ ok none
      → (get m.command_id q.commands ≡ none) × ((deduplicate h saving now m q).1 ≡ q)
  unfolding deduplicate save_delivery
  deduplicate_new saving now m q e = elim (Option-cases (get m.command_id q.commands)) [
    | inl new ↦ (new, rw (deduplicate, new) refl)
    | inr (d, known) ↦ elim (Bool-cases (d.fingerprint == delivery_fingerprint h m)) [
      | inr differs ↦ absurd (ground arith)
      | inl same ↦ elim (Bool-cases (changed h m d)) [
        | inr still ↦ absurd (ground arith)
        | inl moved ↦ elim saving [
          | written ↦ absurd (ground arith)
          | lost x ↦ absurd (ground arith)
          | replaced x ↦ absurd (ground arith)
        ]
      ]
    ]
  ]

  timely-Filed :
      (id print : String) (saves : Saves) (now : ℕ) (m : NodeMessage) (q : NodeQueue)
      → length q.commands < q.max_records
      → Filed id print q.commands
      → Filed id print
          (accept_timely dumps is_uuid loads sha256 uuid_text h saves now m q).1.commands
  unfolding accept_timely emit_stage
  timely-Filed id print saves now m q room filed =
      let q₁ = emit_stage "RECEIVED" m q in
      let known = deduplicate h saves.record_save now m q₁ in
      let kept = deduplicate-Filed id print saves.record_save now m q₁ filed in
      elim (Bool-cases (is_tracked m.kind)) [
        | inr off ↦
            rw (accept_timely, off)
              (recorded-Filed id print saves false q₁.commands m q₁ filed filed)
        | inl on ↦ elim (Result-cases known.0) [
          | inr (x, failed) ↦ rw (accept_timely, on, failed) kept
          | inl (some again, found) ↦ rw (accept_timely, on, found) kept
          | inl (none, fresh) ↦
              let (new, kept_q) = deduplicate_new saves.record_save now m q₁ fresh in
              let filed₃ =
                record_delivery-Filed id print saves.record_save now m q₁ new room filed in
              let dedup : deduplicate h saves.record_save now m q₁ ≡ (ok none, q₁) =
                ap (λ z. (z, known.1)) fresh ∙ ap (λ z. (ok none, z)) kept_q in
              let recorded = record_delivery h saves.record_save now m q₁ in
              elim (Result-cases recorded.0) [
                | inr (x, failed) ↦
                    let e : accept_timely dumps is_uuid loads sha256 uuid_text h saves now m q
                        ≡ (err x, recorded.1) =
                      ground arith in
                    subst (λ z. Filed id print z.1.commands) (sym e) filed₃
                | inl (u, fine) ↦
                    let e : accept_timely dumps is_uuid loads sha256 uuid_text h saves now m q
                        ≡ accept_recorded dumps is_uuid loads sha256 uuid_text h saves true
                            q₁.commands m recorded.1 =
                      ground arith in
                    subst (λ z. Filed id print z.1.commands) (sym e)
                      (recorded-Filed id print saves true q₁.commands m recorded.1 filed filed₃)
              ]
        ]
      ]

  message-Filed :
      (id print : String) (saves : Saves) (allowed : Bool) (local_time now : ℕ) (m : NodeMessage)
      (q : NodeQueue)
      → length q.commands < q.max_records
      → Filed id print q.commands
      → Filed id print
          (accept_message dumps is_uuid loads sha256 uuid_text h saves allowed local_time now m
            q).1.commands
  unfolding accept_message
  message-Filed id print saves allowed local_time now m q room filed =
      let cq = calibrate local_time m.timestamp q in
      let (same, limit) = calibrate_records local_time m.timestamp q in
      let there : Filed id print cq.commands = subst (λ z. Filed id print z) (sym same) filed in
      let few : length cq.commands < cq.max_records = rw (same, limit) room in
      let run = timely-Filed id print saves now m cq few there in
      elim (Bool-cases (m.source == "rover")) [
        | inr foreign ↦ rw (accept_message, foreign) filed
        | inl rover ↦ elim (Bool-cases allowed) [
          | inr held ↦ rw (accept_message, rover, held) filed
          | inl clear ↦ elim (Bool-cases (expired local_time m.timestamp cq)) [
            | inl old ↦ rw (accept_message, rover, clear, old) there
            | inr recent ↦ elim (Bool-cases (from_future local_time m.timestamp cq)) [
              | inl early ↦ rw (accept_message, rover, clear, recent, early) there
              | inr timely ↦ rw (accept_message, rover, clear, recent, timely) run
            ]
          ]
        ]
      ]

  after-Filed :
      (id print : String) (c : Call) (q : NodeQueue)
      → HasRoom c q
      → Filed id print q.commands
      → Filed id print (after c q).commands
  after-Filed id print (accepts saves allowed local_time now m) q room filed =
      message-Filed id print saves allowed local_time now m q room filed
  after-Filed id print (reports saving) q room filed = completed-Filed id print saving q filed
  after-Filed id print (delivers saving j) q room filed =
      mark_delivered-Filed id print saving j q filed
  after-Filed id print (works inbox) q room filed = filed

  pub after_all-Filed :
      (id print : String) (cs : List Call) (q : NodeQueue)
      → HaveRoom cs q
      → Filed id print q.commands
      → Filed id print (after_all cs q).commands
  after_all-Filed id print [] q room filed = filed
  after_all-Filed id print (c ∷ cs) q (room, rooms) filed =
      after_all-Filed id print cs (after c q) rooms (after-Filed id print c q room filed)
