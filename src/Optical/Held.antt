-- ===== src/Optical/Held.antt =====
-- The gate (aircraft_agent/optical_gate.py) over many calls: what it holds back.
use low_altitude_io_t_system.Common.{
  Bool-cases, List, Option, Result, Result-cases, String, [], ap, arith, err, false, inl, inr,
  list_eq, nat_eq, ok, pair_eq, refl, runtime_error, some, string_eq, subst, sym, true, ℕ, ◌%◌, ◌+◌,
  ◌<◌, ◌==◌, ◌^◌, ◌∙◌, ◌∷◌, ◌≡◌,
}
use low_altitude_io_t_system.Common.Value.{Fields, Value, end, entry, obj, str}
use low_altitude_io_t_system.Frame.{Frame, MessageType, link_blocked, make_frame, status}
use low_altitude_io_t_system.Inbox.{clip, first_text}
use low_altitude_io_t_system.Optical.{
  Gate, before, blocked_frame, blocked_payload, due_frame, is_cloud_command, next_frame,
  require_locked, seconds, set_blocked, set_locked, some_frame, time_of,
}
use low_altitude_io_t_system.Optical.Frames.{IsGate, next_frame_cases}

-- The calls that change a gate.
pub data Call : Type 0 where
  locks : ℕ → Option ℕ → Call
  blocks : ℕ → String → Option ℕ → Call
  dues : ℕ → Option ℕ → Fields → Call
  blocked_frames : Call

unfoldable pub after : (Value → Result String) → Call → Gate → Gate
after dumps (locks clock_now timestamp) g = set_locked clock_now timestamp g
after dumps (blocks clock_now reason timestamp) g = set_blocked clock_now reason timestamp g
after dumps (dues clock_now now snapshot) g = (due_frame dumps clock_now now snapshot g).1
after dumps blocked_frames g = (blocked_frame g).1

unfoldable pub after_all : (Value → Result String) → List Call → Gate → Gate
unfolding after
after_all dumps [] g = g
after_all dumps (c ∷ cs) g = after_all dumps cs (after dumps c g)

next_frame-IsGate :
    (kind : MessageType) (payload : Fields) (g : Gate)
    → IsGate g
    → IsGate (next_frame kind payload g).1
next_frame-IsGate kind payload g v =
    let small : (g.sequence + 1) % 2 ^ 32 < 2 ^ 32 = omega arith in
    let e = next_frame_cases kind payload g v.sequence_lt in
    subst (λ z. IsGate z.1) (sym e) (record { sequence_lt = small; reason_given = v.reason_given })

some_frame-IsGate : (r : Result Frame × Gate) → IsGate r.1 → IsGate (some_frame r).1
some_frame-IsGate (ok f, g) v = v
some_frame-IsGate (err x, g) v = v

waiting-IsGate : (t : ℕ) (g : Gate) → IsGate g → IsGate (record g { next_status = some t })
waiting-IsGate t g v = record { sequence_lt = v.sequence_lt; reason_given = v.reason_given }

due_frame-IsGate :
    (dumps : Value → Result String) (clock_now : ℕ) (now : Option ℕ) (snapshot : Fields) (g : Gate)
    → IsGate g
    → IsGate (due_frame dumps clock_now now snapshot g).1
unfolding due_frame
due_frame-IsGate dumps clock_now now snapshot g v =
    let t = time_of clock_now now in
    let gate : Gate = record g { next_status = some (t + g.status_interval) } in
    let w = waiting-IsGate (t + g.status_interval) g v in
    elim (Bool-cases (before t g.next_status)) [
      | inl early ↦ rw (due_frame, early) v
      | inr ready ↦ elim (Bool-cases g.locked) [
        | inr unlocked ↦
            let e : due_frame dumps clock_now now snapshot g
                ≡ some_frame (next_frame link_blocked (blocked_payload gate) gate) =
              ground arith in
            subst (λ z. IsGate z.1) (sym e)
              (some_frame-IsGate (next_frame link_blocked (blocked_payload gate) gate)
                (next_frame-IsGate link_blocked (blocked_payload gate) gate w))
        | inl shut ↦ elim (Result-cases (dumps (obj snapshot))) [
          | inr (x, failed) ↦
              let e : due_frame dumps clock_now now snapshot g ≡ (err x, gate) = ground arith in
              subst (λ z. IsGate z.1) (sym e) w
          | inl (text, dumped) ↦
              let payload : Fields =
                entry "state" (str "locked")
                  (entry "detail" (str (clip 256 text)) (entry "timestamp" (seconds t) end)) in
              let e : due_frame dumps clock_now now snapshot g
                  ≡ some_frame (next_frame status payload gate) =
                ground arith in
              subst (λ z. IsGate z.1) (sym e)
                (some_frame-IsGate (next_frame status payload gate)
                  (next_frame-IsGate status payload gate w))
        ]
      ]
    ]

given_or_default : (s : String) → (first_text s "optical_blocked" == "") ≡ false
given_or_default s = elim (Bool-cases (s == "")) [
  | inl empty ↦ rw empty refl
  | inr filled ↦ rw filled filled
]

after-IsGate :
    (dumps : Value → Result String) (c : Call) (g : Gate) → IsGate g → IsGate (after dumps c g)
unfolding after set_locked set_blocked blocked_frame
after-IsGate dumps (locks clock_now timestamp) g v = record {
  sequence_lt = v.sequence_lt;
  reason_given = λ e. absurd (cc);
}
after-IsGate dumps (blocks clock_now reason timestamp) g v = record {
  sequence_lt = v.sequence_lt;
  reason_given = λ e. given_or_default (clip 128 reason);
}
after-IsGate dumps (dues clock_now now snapshot) g v =
    due_frame-IsGate dumps clock_now now snapshot g v
after-IsGate dumps blocked_frames g v = elim (Bool-cases g.locked) [
  | inl shut ↦
      let e : blocked_frame g ≡ (err (runtime_error "optical link is locked"), g) = ground arith in
      subst (λ z. IsGate z.1) (sym e) v
  | inr unlocked ↦
      let e : blocked_frame g ≡ next_frame link_blocked (blocked_payload g) g = ground arith in
      subst (λ z. IsGate z.1) (sym e) (next_frame-IsGate link_blocked (blocked_payload g) g v)
]

-- After any calls on a gate that is blocked with a reason, and whose sequence has 32 bits, the
-- sequence has 32 bits and a reason is given while the link is blocked.
after_all-IsGate :
    (dumps : Value → Result String) (cs : List Call) (g : Gate)
    → IsGate g
    → IsGate (after_all dumps cs g)
unfolding after_all
after_all-IsGate dumps [] g v = v
after_all-IsGate dumps (c ∷ cs) g v =
    after_all-IsGate dumps cs (after dumps c g) (after-IsGate dumps c g v)

-- No call of the list locks the gate.
abbrev pub Blocking : List Call → Type 0
Blocking [] = Unit {0}
Blocking (locks clock_now timestamp ∷ cs) = ⊥
Blocking (blocks clock_now reason timestamp ∷ cs) = Blocking cs
Blocking (dues clock_now now snapshot ∷ cs) = Blocking cs
Blocking (blocked_frames ∷ cs) = Blocking cs

next_frame-locked :
    (kind : MessageType) (payload : Fields) (g : Gate)
    → (next_frame kind payload g).1.locked ≡ g.locked
unfolding next_frame make_frame
next_frame-locked kind payload g = ground arith

some_frame-locked : (r : Result Frame × Gate) → (some_frame r).1.locked ≡ r.1.locked
some_frame-locked (ok f, g) = refl
some_frame-locked (err x, g) = refl

due_frame-locked :
    (dumps : Value → Result String) (clock_now : ℕ) (now : Option ℕ) (snapshot : Fields) (g : Gate)
    → g.locked ≡ false
    → (due_frame dumps clock_now now snapshot g).1.locked ≡ false
unfolding due_frame
due_frame-locked dumps clock_now now snapshot g unlocked =
    let t = time_of clock_now now in
    let gate : Gate = record g { next_status = some (t + g.status_interval) } in
    elim (Bool-cases (before t g.next_status)) [
      | inl early ↦ ground arith
      | inr ready ↦
          let e : due_frame dumps clock_now now snapshot g
              ≡ some_frame (next_frame link_blocked (blocked_payload gate) gate) =
            ground arith in
          ap (λ z. z.1.locked) e
          ∙ some_frame-locked (next_frame link_blocked (blocked_payload gate) gate)
          ∙ next_frame-locked link_blocked (blocked_payload gate) gate
          ∙ unlocked
    ]

after_all-Blocking :
    (dumps : Value → Result String) (cs : List Call) (g : Gate)
    → Blocking cs
    → g.locked ≡ false
    → (after_all dumps cs g).locked ≡ false
unfolding after_all after set_blocked blocked_frame
after_all-Blocking dumps [] g quiet h = h
after_all-Blocking dumps (locks clock_now timestamp ∷ cs) g quiet h = absurd quiet
after_all-Blocking dumps (blocks clock_now reason timestamp ∷ cs) g quiet h =
    after_all-Blocking dumps cs (set_blocked clock_now reason timestamp g) quiet refl
after_all-Blocking dumps (dues clock_now now snapshot ∷ cs) g quiet h =
    after_all-Blocking dumps cs (due_frame dumps clock_now now snapshot g).1 quiet
      (due_frame-locked dumps clock_now now snapshot g h)
after_all-Blocking dumps (blocked_frames ∷ cs) g quiet h =
    after_all-Blocking dumps cs (blocked_frame g).1 quiet (
      ap (λ z. z.1.locked) (unlocked_frame g h)
      ∙ next_frame-locked link_blocked (blocked_payload g) g
      ∙ h)
  where
    unlocked_frame :
        (g : Gate)
        → g.locked ≡ false
        → blocked_frame g ≡ next_frame link_blocked (blocked_payload g) g
    unlocked_frame g h = ground arith

-- While a gate that was blocked is not locked again, whatever else is called, each frame type that
-- carries a cloud command is refused with a reason that is not empty.
pub held_back :
    (dumps : Value → Result String) (cs : List Call) (g : Gate) (kind : MessageType)
    → IsGate g
    → g.locked ≡ false
    → Blocking cs
    → is_cloud_command kind ≡ true
    → (reason : String) × (require_locked kind (after_all dumps cs g) ≡ err (runtime_error reason))
      × ((reason == "") ≡ false)
unfolding require_locked
held_back dumps cs g kind v unlocked quiet cloud =
    let g' = after_all dumps cs g in
    let still = after_all-Blocking dumps cs g quiet unlocked in
    (g'.reason, ground (arith, still), (after_all-IsGate dumps cs g v).reason_given still)
