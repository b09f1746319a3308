-- ===== src/Slave/Refused.antt =====
-- What NodeCommandQueue.accept (slave_agent/command_queue.py) leaves where it raises.
use low_altitude_io_t_system.Common.{
  Bool, Bool-cases, Error, Option, Option-cases, Result, Result-cases, String, ap, arith, bind, err,
  false, inl, inr, list_eq, ltb, nat_eq, none, ok, pair_eq, refl, rejected, some, string_eq, sym,
  true, ℕ, ◌==◌, ◌∙◌, ◌≡◌, ◌⊎◌,
}
use low_altitude_io_t_system.Common.Int.{pos}
use low_altitude_io_t_system.Common.Value.{Value, end, entry, field, int, nat_field, str}
use low_altitude_io_t_system.Common.Dict.{Dict, get, put}
use low_altitude_io_t_system.Frame.{Frame, mission_begin}
use low_altitude_io_t_system.Auth.{Bytes}
use low_altitude_io_t_system.Slave.{
  Delivered, NodeMessage, NodeQueue, QueueAcceptance, Saves, calibrate, emit_stage, expired,
  from_future, is_tracked, mission_of, save_delivery, trim_delivery,
}
use low_altitude_io_t_system.Slave.Mission.{
  accept_frame, accept_locked, command_frame, commit_frame, frame_of, item_frame,
  node_mission_begin, or_null_value,
}
use low_altitude_io_t_system.Slave.Delivery.{
  answer_again, changed, deduplicate, delivery_fingerprint, new_record, record_delivery, repeated,
}
use low_altitude_io_t_system.Inbox.{Inbox, InboxResult, Saving, accept, lost, replaced, written}
use low_altitude_io_t_system.Slave.Accept.{accept_message, accept_recorded, accept_timely}
use low_altitude_io_t_system.Inbox.Durable.{accept_refused}

pub save_delivery_keeps :
    (saving : Saving) (q : NodeQueue)
    → ((save_delivery saving q).1.inbox ≡ q.inbox)
      × ((save_delivery saving q).1.commands ≡ q.commands)
unfolding save_delivery
save_delivery_keeps written q = (refl, refl)
save_delivery_keeps (lost x) q = (refl, refl)
save_delivery_keeps (replaced x) q = (refl, refl)

pub calibrate_keeps :
    (local_time peer : ℕ) (q : NodeQueue)
    → ((calibrate local_time peer q).inbox ≡ q.inbox)
      × ((calibrate local_time peer q).commands ≡ q.commands)
unfolding calibrate
calibrate_keeps local_time peer q = (ground arith, ground arith)

kept_from :
    (q q₁ q' : NodeQueue)
    → q₁.inbox.state ≡ q.inbox.state
    → q₁.commands ≡ q.commands
    → q₁ ≡ q'
    → (q'.inbox.state ≡ q.inbox.state) × (q'.commands ≡ q.commands)
kept_from q q₁ q' a b e = (sym (ap (λ z. z.inbox.state) e) ∙ a, sym (ap (λ z. z.commands) e) ∙ b)

-- The queue with the record of a new message.
abbrev pub with_record : (Value → String) → ℕ → NodeMessage → NodeQueue → NodeQueue
with_record h now m q = record q {
  commands =
      trim_delivery q.max_records (put m.command_id (new_record h m "QUEUED" now) q.commands);
  stored = trim_delivery q.max_records (put m.command_id (new_record h m "QUEUED" now) q.commands);
}

pub record_written :
    (h : Value → String) (now : ℕ) (m : NodeMessage) (q : NodeQueue)
    → record_delivery h written now m q ≡ (ok tt, with_record h now m q)
unfolding record_delivery save_delivery
record_written h now m q = refl

module _ (h : Value → String) where
  accept_frame_refused :
      (saving : Saving) (f : Result Frame) (stage : String) (b b' : Inbox) (x : Error)
      → accept_frame h saving f stage b ≡ (err x, b')
      → b'.state ≡ b.state
  accept_frame_refused saving (err y) stage b b' x e = ap (λ z. z.1.state) (sym e)
  accept_frame_refused saving (ok f) stage b b' x e = go (accept h saving b f) refl e
    where
      go :
          (r : Result InboxResult × Inbox)
          → accept h saving b f ≡ r
          → ◌≡◌ {A = Result QueueAcceptance × Inbox}
              (
                bind r.0 (λ a. ok (record {
                  stage = stage;
                  duplicate = a.duplicate;
                  sequence = a.acked_sequence;
                })),
                r.1,
              )
              (err x, b')
          → b'.state ≡ b.state
      go (ok a, c) p e = absurd (ground arith)
      go (err y, c) p e =
          let kept = accept_refused h saving b c f y p in ap (λ z. z.1.state) (sym e) ∙ kept

  -- The three ways in which a tracked message meets the records, where they are saved.
  pub deduplicate_cases :
      (now : ℕ) (m : NodeMessage) (q : NodeQueue)
      → ((get m.command_id q.commands ≡ none) × (deduplicate h written now m q ≡ (ok none, q)))
        ⊎ (((d : Delivered) × (get m.command_id q.commands ≡ some d)
              × ((d.fingerprint == delivery_fingerprint h m) ≡ false)
              × (deduplicate h written now m q ≡ (err (rejected "duplicate_conflict"), q)))
            ⊎ ((d : Delivered) × (stored' : Dict String Delivered) × (get m.command_id q.commands
                  ≡ some d)
                × ((d.fingerprint == delivery_fingerprint h m) ≡ true)
                × (deduplicate h written now m q ≡ (
                  ok (some (answer_again h m d)),
                  record q {
                    commands = put m.command_id (repeated h m now d) q.commands;
                    stored = stored';
                  },
                ))))
  unfolding deduplicate save_delivery
  deduplicate_cases now m q = elim (Option-cases (get m.command_id q.commands)) [
    | inl new ↦ inl (new, ground arith)
    | inr (d, known) ↦ elim (Bool-cases (d.fingerprint == delivery_fingerprint h m)) [
      | inr differs ↦ inr (inl (d, known, differs, ground arith))
      | inl same ↦ elim (Bool-cases (changed h m d)) [
        | inl moved ↦
            inr
              (inr (d, put m.command_id (repeated h m now d) q.commands, known, same, ground arith))
        | inr still ↦ inr (inr (d, q.stored, known, same, ground arith))
      ]
    ]
  ]

module _ (dumps : Value → Result Bytes) (is_uuid : String → Bool) (loads : Bytes → Option Value)
    (sha256 : Bytes → String) (uuid_text : String → String) (h : Value → String) where
  abbrev accepts : Saves → NodeMessage → Inbox → Result QueueAcceptance × Inbox
  accepts saves m b = accept_locked dumps is_uuid loads sha256 uuid_text h saves.inbox_save m b

  -- Each branch of `_accept_locked` is one frame for the inbox, or an error before it.
  locked_frame :
      (saves : Saves) (m : NodeMessage) (b : Inbox)
      → (f : Result Frame) × (stage : String) × (accepts saves m b
          ≡ accept_frame h saves.inbox_save f stage b)
  unfolding accept_locked node_mission_begin
  locked_frame saves m b = elim (Bool-cases (m.kind == "command")) [
    | inl yes₁ ↦ (command_frame dumps is_uuid loads sha256 uuid_text h m, "QUEUED", ground arith)
    | inr no₁ ↦ elim (Bool-cases (m.kind == "mission_begin")) [
      | inl yes₂ ↦ elim (Result-cases (nat_field "item_count" m.payload)) [
        | inr (x, lacks) ↦ (err x, "RECEIVED", ground arith)
        | inl (count, found) ↦ elim (Bool-cases (ltb 99 count)) [
          | inl large ↦ (err (rejected "mission_too_large"), "RECEIVED", ground arith)
          | inr small ↦ (
            frame_of dumps is_uuid loads sha256 uuid_text h m mission_begin (
                entry "mission_id" (str (mission_of m.payload)) (
                  entry "item_count" (int (pos count)) (
                    entry "vehicle" (str "aircraft")
                      (entry "checksum" (or_null_value (field "digest" m.payload)) end)))),
            "RECEIVED",
            ground arith,
          )
        ]
      ]
      | inr no₂ ↦ elim (Bool-cases (m.kind == "mission_item")) [
        | inl yes₃ ↦
            (item_frame dumps is_uuid loads sha256 uuid_text h m b.state, "RECEIVED", ground arith)
        | inr no₃ ↦ elim (Bool-cases (m.kind == "mission_commit")) [
          | inl yes₄ ↦ (
            commit_frame dumps is_uuid loads sha256 uuid_text h m b.state,
            "QUEUED",
            ground arith,
          )
          | inr no₄ ↦ (err (rejected "unsupported_message"), "", ground arith)
        ]
      ]
    ]
  ]

  locked_refused :
      (saves : Saves) (m : NodeMessage) (b b' : Inbox) (x : Error)
      → accepts saves m b ≡ (err x, b')
      → b'.state ≡ b.state
  locked_refused saves m b b' x e =
      let (f, stage, q) = locked_frame saves m b in
      accept_frame_refused h saves.inbox_save f stage b b' x (sym q ∙ e)

  -- The inbox and the records as they were.
  abbrev pub Untouched : NodeQueue → NodeQueue → Type 0
  Untouched q q' = (q'.inbox.state ≡ q.inbox.state) × (q'.commands ≡ q.commands)

  recorded_refused :
      (saves : Saves) (tracked : Bool) (q₀ q q' : NodeQueue) (m : NodeMessage) (x : Error)
      → q.inbox ≡ q₀.inbox
      → tracked ≡ true ⊎ q.commands ≡ q₀.commands
      → accept_recorded dumps is_uuid loads sha256 uuid_text h saves tracked q₀.commands m q
        ≡ (err x, q')
      → Untouched q₀ q'
  unfolding accept_recorded
  recorded_refused saves tracked q₀ q q' m x same known e =
      let b = (accepts saves m q.inbox).1 in
      elim (Result-cases (accepts saves m q.inbox).0) [
        | inl (r, fine) ↦ absurd (ground arith)
        | inr (y, failed) ↦
            let both : accepts saves m q.inbox ≡ (err y, b) = ap (λ z. (z, b)) failed in
            let kept : b.state ≡ q.inbox.state = locked_refused saves m q.inbox b y both in
            let undone : NodeQueue = record q { inbox = b; commands = q₀.commands } in
            let keeps = save_delivery_keeps saves.undo_save undone in
            elim (Bool-cases tracked) [
              | inl on ↦
                  let at_end : (save_delivery saves.undo_save undone).1 ≡ q' = ground arith in
                  (ground (arith, keeps, kept), ground (arith, keeps))
              | inr off ↦
                  let at_end : record q { inbox = b } ≡ q' = ground arith in
                  elim known [
                    | inl on ↦ absurd (cc)
                    | inr unchanged ↦ (
                      sym (ap (λ z. z.inbox.state) at_end) ∙ kept ∙ ap (λ z. z.state) same,
                      sym (ap (λ z. z.commands) at_end) ∙ unchanged,
                    )
                  ]
            ]
      ]

  -- The branches of `accept` for a message in time, where the records are saved.
  timely_refused :
      (saves : Saves) (now : ℕ) (m : NodeMessage) (q q' : NodeQueue) (x : Error)
      → saves.record_save ≡ written
      → accept_timely dumps is_uuid loads sha256 uuid_text h saves now m q ≡ (err x, q')
      → Untouched q q'
  unfolding accept_timely
  timely_refused saves now m q q' x stored e =
      let q₁ = emit_stage "RECEIVED" m q in
      elim (Bool-cases (is_tracked m.kind)) [
        | inr free ↦ recorded_refused saves false q₁ q₁ q' m x refl (inr refl) (ground arith)
        | inl tracked ↦ elim (deduplicate_cases h now m q₁) [
          | inr (inl (d, known, differs, r)) ↦
              let r' : deduplicate h saves.record_save now m q₁
                  ≡ (err (rejected "duplicate_conflict"), q₁) =
                rw stored r in
              let at_end : q₁ ≡ q' = ground arith in
              (sym (ap (λ z. z.inbox.state) at_end), sym (ap (λ z. z.commands) at_end))
          | inr (inr (d, st, known, same, r)) ↦
              let r' : (deduplicate h saves.record_save now m q₁).0
                  ≡ ok (some (answer_again h m d)) =
                rw stored (ap (λ z. z.0) r) in
              absurd (ground arith)
          | inl (new, r) ↦
              let r' : deduplicate h saves.record_save now m q₁ ≡ (ok none, q₁) = rw stored r in
              let w : record_delivery h saves.record_save now m q₁
                  ≡ (ok tt, with_record h now m q₁) =
                rw stored (record_written h now m q₁) in
              recorded_refused saves true q₁ (with_record h now m q₁) q' m x refl (inl refl)
                (ground arith)
        ]
      ]

  -- Where `accept` raises and no save of the delivery records fails before it, the inbox and the
  -- delivery records are what they were: a command that is refused can be sent again.
  pub accept_message_refused :
      (saves : Saves) (allowed : Bool) (local_time now : ℕ) (m : NodeMessage) (q q' : NodeQueue)
      (x : Error)
      → saves.record_save ≡ written
      → accept_message dumps is_uuid loads sha256 uuid_text h saves allowed local_time now m q
        ≡ (err x, q')
      → (q'.inbox.state ≡ q.inbox.state) × (q'.commands ≡ q.commands)
  unfolding accept_message calibrate
  accept_message_refused saves allowed local_time now m q q' x stored e =
      let cq = calibrate local_time m.timestamp q in
      let (boxed, filed) = calibrate_keeps local_time m.timestamp q in
      elim (Bool-cases (m.source == "rover")) [
        | inr foreign ↦ let at_end : q ≡ q' = ground arith in kept_from q q q' refl refl at_end
        | inl rover ↦ elim (Bool-cases allowed) [
          | inr held ↦ let at_end : q ≡ q' = ground arith in kept_from q q q' refl refl at_end
          | inl clear ↦ elim (Bool-cases (expired local_time m.timestamp cq)) [
            | inl old ↦
                let at_end : cq ≡ q' = ground arith in
                kept_from q cq q' (ap (λ z. z.state) boxed) filed at_end
            | inr recent ↦ elim (Bool-cases (from_future local_time m.timestamp cq)) [
              | inl early ↦
                  let at_end : cq ≡ q' = ground arith in
                  kept_from q cq q' (ap (λ z. z.state) boxed) filed at_end
              | inr timely ↦
                  let run = accept_timely dumps is_uuid loads sha256 uuid_text h saves now m cq in
                  elim (Result-cases run.0) [
                    | inl (r, fine) ↦ absurd (ground arith)
                    | inr (y, failed) ↦
                        let both : run ≡ (err y, run.1) = ap (λ z. (z, run.1)) failed in
                        let (b, c) = timely_refused saves now m cq run.1 y stored both in
                        let at_end : run.1 ≡ q' = ground arith in
                        kept_from q run.1 q' (b ∙ ap (λ z. z.state) boxed) (c ∙ filed) at_end
                  ]
            ]
          ]
        ]
      ]
