-- ===== src/Slave/Once.antt =====
-- A repeated message of NodeCommandQueue.accept (slave_agent/command_queue.py).
use low_altitude_io_t_system.Common.{
  Bool, Bool-cases, List, Option, Result, Result-cases, String, [], ap, arith, beq_refl, err, false,
  if◌then◌else◌, inl, inr, leb, length, list_eq, nat_eq, none, ok, pair_eq, refl, rejected, some,
  string_eq, subst, sym, take, true, ℕ, ◌-◌, ◌==◌, ◌∙◌, ◌∷◌, ◌≡◌, ◌≢◌,
}
use low_altitude_io_t_system.Common.Value.{Value}
use low_altitude_io_t_system.Common.Dict.{Dict, delete, get, get-delete, get-put, put}
use low_altitude_io_t_system.Auth.{Bytes}
use low_altitude_io_t_system.Slave.{
  Delivered, NodeMessage, NodeQueue, QueueAcceptance, Saves, ages, calibrate, delete_commands,
  emit_stage, expired, from_future, is_tracked, save_delivery, sort_by_age, trim_delivery,
}
use low_altitude_io_t_system.Slave.Mission.{accept_locked}
use low_altitude_io_t_system.Slave.Delivery.{
  answer_again, deduplicate, delivery_fingerprint, new_record, record_delivery, repeated,
}
use low_altitude_io_t_system.Inbox.{written}
use low_altitude_io_t_system.Slave.History.{
  Call, Filed, HaveRoom, after_all, after_all-Filed, repeated_fingerprint,
}
use low_altitude_io_t_system.Slave.Accept.{accept_message, accept_recorded, accept_timely}
use low_altitude_io_t_system.Slave.Refused.{
  calibrate_keeps, deduplicate_cases, record_written, with_record,
}

-- What is still there after a deletion is what was there.
get-delete_commands :
    (ks : List (String × ℕ)) (k : String) (d : Dict String Delivered)
    → get k (delete_commands ks d) ≢ none
    → get k (delete_commands ks d) ≡ get k d
unfolding delete_commands
get-delete_commands [] k d kept = refl
get-delete_commands ((j, t) ∷ ks) k d kept =
    let ih = get-delete_commands ks k (delete j d) kept in
    elim (Bool-cases (j == k)) [
      | inl same ↦
          absurd (kept (ih ∙ get-delete j k d ∙ ap (λ t. if t then none else get k d) same))
      | inr other ↦ ih ∙ get-delete j k d ∙ ap (λ t. if t then none else get k d) other
    ]

get-trim_delivery :
    (limit : ℕ) (k : String) (d : Dict String Delivered)
    → get k (trim_delivery limit d) ≢ none
    → get k (trim_delivery limit d) ≡ get k d
unfolding trim_delivery
get-trim_delivery limit k d kept = elim (Bool-cases (leb (length d) limit)) [
  | inl few ↦ rw few refl
  | inr many ↦
      let ks = take (length d - limit) (sort_by_age (ages d) []) in
      let e : trim_delivery limit d ≡ delete_commands ks d = rw (trim_delivery, many) refl in
      subst (λ z. get k z ≢ none → get k z ≡ get k d) (sym e) (get-delete_commands ks k d) kept
]

module _ (dumps : Value → Result Bytes) (is_uuid : String → Bool) (loads : Bytes → Option Value)
    (sha256 : Bytes → String) (uuid_text : String → String) (h : Value → String) where
  recorded_commands :
      (saves : Saves) (previous : Dict String Delivered) (q q' : NodeQueue) (m : NodeMessage)
      (r : QueueAcceptance)
      → accept_recorded dumps is_uuid loads sha256 uuid_text h saves true previous m q ≡ (ok r, q')
      → q'.commands ≡ q.commands
  unfolding accept_recorded
  recorded_commands saves previous q q' m r e =
      elim (Result-cases
        (accept_locked dumps is_uuid loads sha256 uuid_text h saves.inbox_save m q.inbox).0) [
          | inl (a, fine) ↦ ground arith
          | inr (x, failed) ↦
              let b =
                (accept_locked dumps is_uuid loads sha256 uuid_text h saves.inbox_save m
                  q.inbox).1 in
              elim (Result-cases
                (save_delivery saves.undo_save (record q { inbox = b; commands = previous })).0) [
                  | inl (u, done) ↦ absurd (ground arith)
                  | inr (y, stuck) ↦ absurd (ground arith)
                ]
        ]

  accept_timely-Filed :
      (saves : Saves) (now : ℕ) (m : NodeMessage) (q q' : NodeQueue) (r : QueueAcceptance)
      → saves.record_save ≡ written
      → is_tracked m.kind ≡ true
      → accept_timely dumps is_uuid loads sha256 uuid_text h saves now m q ≡ (ok r, q')
      → get m.command_id q'.commands ≢ none
      → Filed m.command_id (delivery_fingerprint h m) q'.commands
  unfolding accept_timely
  accept_timely-Filed saves now m q q' r stored tracked e kept =
      let q₁ = emit_stage "RECEIVED" m q in
      elim (deduplicate_cases h now m q₁) [
        | inr (inl (d, known, differs, p)) ↦
            let p' : (deduplicate h saves.record_save now m q₁).0
                ≡ err (rejected "duplicate_conflict") =
              rw stored (ap (λ z. z.0) p) in
            absurd (ground arith)
        | inr (inr (d, st, known, same, p)) ↦
            let d' = repeated h m now d in
            let q₂ : NodeQueue = record q₁ {
              commands = put m.command_id d' q₁.commands;
              stored = st;
            } in
            let p' : deduplicate h saves.record_save now m q₁
                ≡ (ok (some (answer_again h m d)), q₂) =
              rw stored p in
            let at_end : q₂.commands ≡ q'.commands = ground arith in
            (
              d',
              ap (λ z. get m.command_id z) (sym at_end)
                  ∙ get-put m.command_id m.command_id d' q₁.commands
                  ∙ ap (λ t. if t then some d' else get m.command_id q₁.commands)
                      (beq_refl m.command_id),
              repeated_fingerprint dumps is_uuid loads sha256 uuid_text h now m d
                  ∙ (string_eq.beq_iff d.fingerprint (delivery_fingerprint h m)).0 same,
            )
        | inl (new, p) ↦
            let q₃ = with_record h now m q₁ in
            let p' : deduplicate h saves.record_save now m q₁ ≡ (ok none, q₁) = rw stored p in
            let w : record_delivery h saves.record_save now m q₁ ≡ (ok tt, q₃) =
              rw stored (record_written h now m q₁) in
            let ran : accept_recorded dumps is_uuid loads sha256 uuid_text h saves true q₁.commands
                  m q₃
                ≡ (ok r, q') =
              ground arith in
            let c = recorded_commands saves q₁.commands q₃ q' m r ran in
            let d' = new_record h m "QUEUED" now in
            let there : get m.command_id q₃.commands ≢ none =
              subst (λ z. get m.command_id z ≢ none) c kept in
            (
              d',
              ap (λ z. get m.command_id z) c
                  ∙ get-trim_delivery q.max_records m.command_id (put m.command_id d' q₁.commands)
                      there
                  ∙ get-put m.command_id m.command_id d' q₁.commands
                  ∙ ap (λ t. if t then some d' else get m.command_id q₁.commands)
                      (beq_refl m.command_id),
              refl,
            )
      ]

  timely_again :
      (saves : Saves) (now : ℕ) (m : NodeMessage) (q : NodeQueue)
      → saves.record_save ≡ written
      → is_tracked m.kind ≡ true
      → Filed m.command_id (delivery_fingerprint h m) q.commands
      → (stage : String) × (q' : NodeQueue) × (accept_timely dumps is_uuid loads sha256 uuid_text h
            saves now m q
          ≡ (ok (record { stage = stage; duplicate = true; sequence = m.sequence }), q'))
        × (q'.inbox ≡ q.inbox)
  unfolding accept_timely
  timely_again saves now m q stored tracked (d, there, same) =
      let q₁ = emit_stage "RECEIVED" m q in
      elim (deduplicate_cases h now m q₁) [
        | inl (new, p) ↦ absurd (cc)
        | inr (inl (d', known, differs, p)) ↦
            let dd : d' ≡ d = cc in
            let agree =
              (string_eq.beq_iff d'.fingerprint (delivery_fingerprint h m)).1
                (ap (λ z. z.fingerprint) dd ∙ same) in
            absurd (cc)
        | inr (inr (d', st, known, equal, p)) ↦
            let q₂ : NodeQueue = record q₁ {
              commands = put m.command_id (repeated h m now d') q₁.commands;
              stored = st;
            } in
            let p' : deduplicate h saves.record_save now m q₁
                ≡ (ok (some (answer_again h m d')), q₂) =
              rw stored p in
            let stage = (answer_again h m d').stage in
            (stage, emit_stage stage m q₂, ground arith, refl)
      ]

  -- What `accept` answers to a message in time is what its body under the lock answers.
  message_timely :
      (saves : Saves) (allowed : Bool) (local_time now : ℕ) (m : NodeMessage) (q q' : NodeQueue)
      (r : QueueAcceptance)
      → accept_message dumps is_uuid loads sha256 uuid_text h saves allowed local_time now m q
        ≡ (ok r, q')
      → accept_timely dumps is_uuid loads sha256 uuid_text h saves now m
          (calibrate local_time m.timestamp q)
        ≡ (ok r, q')
  unfolding accept_message
  message_timely saves allowed local_time now m q q' r e =
      let cq = calibrate local_time m.timestamp q in
      let run = accept_timely dumps is_uuid loads sha256 uuid_text h saves now m cq in
      elim (Bool-cases (m.source == "rover")) [
        | inr foreign ↦ absurd (ground arith)
        | inl rover ↦ elim (Bool-cases allowed) [
          | inr held ↦ absurd (ground arith)
          | inl clear ↦ elim (Bool-cases (expired local_time m.timestamp cq)) [
            | inl old ↦ absurd (ground arith)
            | inr recent ↦ elim (Bool-cases (from_future local_time m.timestamp cq)) [
              | inl early ↦ absurd (ground arith)
              | inr timely ↦ elim (Result-cases run.0) [
                | inr (y, failed) ↦ absurd (ground arith)
                | inl (a, fine) ↦
                    let at_end : run.1 ≡ q' = ground arith in
                    let same : a ≡ r = ground arith in
                    ap (λ z. (z, run.1)) fine
                    ∙ ap (λ z. (ok z, run.1)) same
                    ∙ ap (λ z. (ok r, z)) at_end
              ]
            ]
          ]
        ]
      ]

  -- A command or a commit that was accepted is not taken again while its record is there. After it
  -- come any calls in the same process: other messages, accepted or refused, for each of which the
  -- records still have room, reports of results, deliveries, and any work on the inbox. Then a
  -- message with the same command id and fingerprint that comes in time, from the rover, while the
  -- gate is open, whatever its sequence, is answered as a duplicate with its own sequence, and the
  -- inbox stays as it is. The record was not trimmed away by its own accept, and the saves of the
  -- delivery records by the two accepts of this command succeed; those of the calls in between may
  -- fail. A restart is not among the calls.
  pub accepted_command_once :
      (saves saves' : Saves) (allowed : Bool) (local_time now later now' : ℕ) (m m' : NodeMessage)
      (q q' : NodeQueue) (r : QueueAcceptance)
      (cs : List (Call dumps is_uuid loads sha256 uuid_text h))
      → saves.record_save ≡ written
      → saves'.record_save ≡ written
      → is_tracked m.kind ≡ true
      → accept_message dumps is_uuid loads sha256 uuid_text h saves allowed local_time now m q
        ≡ (ok r, q')
      → get m.command_id q'.commands ≢ none
      → HaveRoom dumps is_uuid loads sha256 uuid_text h cs q'
      → m'.command_id ≡ m.command_id
      → is_tracked m'.kind ≡ true
      → delivery_fingerprint h m' ≡ delivery_fingerprint h m
      → m'.source ≡ "rover"
      → expired later m'.timestamp
          (calibrate later m'.timestamp (after_all dumps is_uuid loads sha256 uuid_text h cs q'))
        ≡ false
      → from_future later m'.timestamp
          (calibrate later m'.timestamp (after_all dumps is_uuid loads sha256 uuid_text h cs q'))
        ≡ false
      → (stage : String) × (q'' : NodeQueue) × (accept_message dumps is_uuid loads sha256 uuid_text
            h saves' true later now' m'
            (after_all dumps is_uuid loads sha256 uuid_text h cs q')
          ≡ (ok (record { stage = stage; duplicate = true; sequence = m'.sequence }), q''))
        × (q''.inbox ≡ (after_all dumps is_uuid loads sha256 uuid_text h cs q').inbox)
  unfolding accept_message
  accepted_command_once saves saves' allowed local_time now later now' m m' q q' r cs st st' tracked
        e kept room id tracked' print rover recent timely =
      let ran = message_timely saves allowed local_time now m q q' r e in
      let first =
        accept_timely-Filed saves now m (calibrate local_time m.timestamp q) q' r st tracked ran
          kept in
      let (d, there, same) =
        after_all-Filed dumps is_uuid loads sha256 uuid_text h m.command_id
          (delivery_fingerprint h m) cs q' room first in
      let end = after_all dumps is_uuid loads sha256 uuid_text h cs q' in
      let cq = calibrate later m'.timestamp end in
      let (boxed, filed) = calibrate_keeps later m'.timestamp end in
      let there' : get m'.command_id cq.commands ≡ some d =
        ap (λ z. get m'.command_id z) filed ∙ ap (λ z. get z end.commands) id ∙ there in
      let (stage, q'', again, kept_inbox) =
        timely_again saves' now' m' cq st' tracked' (d, there', same ∙ sym print) in
      let from : (m'.source == "rover") ≡ true = (string_eq.beq_iff m'.source "rover").1 rover in
      (stage, q'', ground (arith, again), kept_inbox ∙ boxed)
