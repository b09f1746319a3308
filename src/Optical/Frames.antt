-- ===== src/Optical/Frames.antt =====
-- What the gate (aircraft_agent/optical_gate.py) sends, and when.
use low_altitude_io_t_system.Common.{
  Bool-cases, Option, Result, Result-cases, String, ap, arith, err, false, inl, inr, list_eq,
  nat_eq, none, ok, pair_eq, refl, some, string_eq, subst, sym, true, ℕ, ◌%◌, ◌+◌, ◌<◌, ◌==◌, ◌^◌,
  ◌∙◌, ◌≡◌,
}
use low_altitude_io_t_system.Common.Value.{Fields, Value, end, entry, field, keys, obj, str}
use low_altitude_io_t_system.Frame.{Frame, MessageType, link_blocked, make_frame, status}
use low_altitude_io_t_system.Messages.{number, object_fields, string, validate_payload}
use low_altitude_io_t_system.Inbox.{clip}
use low_altitude_io_t_system.Optical.{
  Gate, before, blocked_payload, due_frame, next_frame, seconds, some_frame, time_of, zero_uuid,
}

-- A reason is given while the link is blocked, and the sequence is one of 32 bits.
pub record IsGate (g : Gate) : Type 0 where
  pub sequence_lt : g.sequence < 2 ^ 32
  pub reason_given : g.locked ≡ false → (g.reason == "") ≡ false

blocked_payload_valid :
    (g : Gate)
    → (g.reason == "") ≡ false
    → validate_payload link_blocked (blocked_payload g) ≡ ok tt
unfolding validate_payload object_fields string number field keys
blocked_payload_valid g given = ground (arith)

status_payload_valid :
    (text : String) (t : ℕ)
    → validate_payload status (
        entry "state"
          (str "locked")
          (entry "detail" (str (clip 256 text)) (entry "timestamp" (seconds t) end)))
      ≡ ok tt
unfolding validate_payload object_fields string number field keys
status_payload_valid text t = ground arith

pub next_frame_cases :
    (kind : MessageType) (payload : Fields) (g : Gate)
    → g.sequence < 2 ^ 32
    → next_frame kind payload g ≡ (
      ok (record {
        message_type = kind;
        flags = 0;
        sequence = g.sequence;
        command_id = zero_uuid;
        payload = payload;
      }),
      record g { sequence = (g.sequence + 1) % 2 ^ 32 },
    )
unfolding next_frame make_frame
next_frame_cases kind payload g small = ground arith

abbrev pub after_frame : ℕ → Gate → Gate
after_frame t g = record g {
  next_status = some (t + g.status_interval);
  sequence = (g.sequence + 1) % 2 ^ 32;
}

-- A frame that was sent: its payload is one that the receivers accept, it has the gate's sequence,
-- and the gate moves on to the next one modulo 2^32 and waits for the interval.
abbrev pub Sent : ℕ → Gate → Frame → Gate → Type 0
Sent t g f g' =
    (validate_payload f.message_type f.payload ≡ ok tt)
    × (f.sequence ≡ g.sequence)
    × (g' ≡ after_frame t g)

some_frame_ok :
    (r : Result Frame × Gate) (f : Frame) (g : Gate)
    → some_frame r ≡ (ok (some f), g)
    → r ≡ (ok f, g)
some_frame_ok (ok k, h) f g e = ground arith
some_frame_ok (err x, h) f g e = absurd (ground arith)

blocked_frame-Sent :
    (t : ℕ) (g g' : Gate) (f : Frame)
    → IsGate g
    → g.locked ≡ false
    → next_frame link_blocked
        (blocked_payload g)
        (record g { next_status = some (t + g.status_interval) })
      ≡ (ok f, g')
    → Sent t g f g'
blocked_frame-Sent t g g' f v unlocked e =
    let gate : Gate = record g { next_status = some (t + g.status_interval) } in
    let q = sym (next_frame_cases link_blocked (blocked_payload g) gate v.sequence_lt) ∙ e in
    let frame : Frame = record {
      message_type = link_blocked;
      flags = 0;
      sequence = g.sequence;
      command_id = zero_uuid;
      payload = blocked_payload g;
    } in
    let same : frame ≡ f = ground arith in
    subst (λ z. Sent t g z g') same
      (blocked_payload_valid g (v.reason_given unlocked), refl, sym (ap (λ z. z.1) q))

status_frame-Sent :
    (t : ℕ) (g g' : Gate) (f : Frame) (text : String)
    → IsGate g
    → next_frame status
        (entry "state"
          (str "locked")
          (entry "detail" (str (clip 256 text)) (entry "timestamp" (seconds t) end)))
        (record g { next_status = some (t + g.status_interval) })
      ≡ (ok f, g')
    → Sent t g f g'
status_frame-Sent t g g' f text v e =
    let gate : Gate = record g { next_status = some (t + g.status_interval) } in
    let payload : Fields =
      entry "state" (str "locked")
        (entry "detail" (str (clip 256 text)) (entry "timestamp" (seconds t) end)) in
    let q = sym (next_frame_cases status payload gate v.sequence_lt) ∙ e in
    let frame : Frame = record {
      message_type = status;
      flags = 0;
      sequence = g.sequence;
      command_id = zero_uuid;
      payload = payload;
    } in
    let same : frame ≡ f = ground arith in
    subst (λ z. Sent t g z g') same (status_payload_valid text t, refl, sym (ap (λ z. z.1) q))

module _ (dumps : Value → Result String) where
  -- A frame that `due_frame` gives passes the checks on its payload and has the gate's sequence.
  -- The gate counts on modulo 2^32, and its next status is one interval later.
  pub due_frame-Sent :
      (clock_now : ℕ) (now : Option ℕ) (snapshot : Fields) (g g' : Gate) (f : Frame)
      → IsGate g
      → due_frame dumps clock_now now snapshot g ≡ (ok (some f), g')
      → Sent (time_of clock_now now) g f g'
  unfolding due_frame
  due_frame-Sent clock_now now snapshot g g' f v e =
      let t = time_of clock_now now in
      elim (Bool-cases (before t g.next_status)) [
        | inl early ↦ absurd (ground arith)
        | inr ready ↦ elim (Bool-cases g.locked) [
          | inr unlocked ↦
              let gate : Gate = record g { next_status = some (t + g.status_interval) } in
              let sent : some_frame (next_frame link_blocked (blocked_payload gate) gate)
                  ≡ (ok (some f), g') =
                ground arith in
              blocked_frame-Sent t g g' f v unlocked (some_frame_ok _ f g' sent)
          | inl shut ↦ elim (Result-cases (dumps (obj snapshot))) [
            | inr (x, failed) ↦ absurd (ground arith)
            | inl (text, dumped) ↦
                let gate : Gate = record g { next_status = some (t + g.status_interval) } in
                let payload : Fields =
                  entry "state" (str "locked")
                    (entry "detail" (str (clip 256 text)) (entry "timestamp" (seconds t) end)) in
                let sent : some_frame (next_frame status payload gate) ≡ (ok (some f), g') =
                  ground arith in
                status_frame-Sent t g g' f text v (some_frame_ok _ f g' sent)
          ]
        ]
      ]

  -- After a frame at a time `t`, no frame is due before the interval has passed: the gate gives
  -- none and does not change.
  due_frame_quiet :
      (clock_now later : ℕ) (now : Option ℕ) (snapshot : Fields) (g g' : Gate) (f : Frame)
      → IsGate g
      → due_frame dumps clock_now now snapshot g ≡ (ok (some f), g')
      → later < time_of clock_now now + g.status_interval
      → due_frame dumps clock_now (some later) snapshot g' ≡ (ok none, g')
  unfolding due_frame
  due_frame_quiet clock_now later now snapshot g g' f v e soon =
      let (_, _, q) = due_frame-Sent clock_now now snapshot g g' f v e in
      let early : before later g'.next_status ≡ true = ground arith in rw (due_frame, early) refl
