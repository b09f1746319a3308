-- ===== src/Mission/Receive.antt =====
-- What a wait for a message of the flight controller does to the clock and to the queue.
use low_altitude_io_t_system.Common.{
  Bool, Bool-cases, List, Option, Option-cases, Result, [], arith, err, inl, inr, leb, length,
  list_eq, ltb, max, min, nat_eq, none, ok, pair_eq, refl, some, string_eq, subst, suc, true, zero,
  ℕ, ◌+◌, ◌-◌, ◌∙◌, ◌∷◌, ◌≡◌, ◌≤◌,
}
use low_altitude_io_t_system.Mission.{
  Kind, Message, Settings, World, matches, receive, receive_rounds, receive_until,
  transaction_receive,
}

-- What is left of a queue once its first messages have gone.
pub data Left (rest : List (ℕ × Message)) : List (ℕ × Message) → Type 0 where
  all : Left rest rest
  gone : (a : ℕ × Message) {l : List (ℕ × Message)} → Left rest l → Left rest (a ∷ l)

pub Left-trans : {v w u : List (ℕ × Message)} → Left v u → Left w v → Left w u
Left-trans all k = k
Left-trans (gone a h) k = gone a (Left-trans h k)

-- A message that was returned is of an accepted type and was the next on the queue, behind those
-- that were dropped.
abbrev pub Took : (Kind → Bool) → List (ℕ × Message) → Option Message → List (ℕ × Message) → Type 0
Took accepted before none after = Left after before
Took accepted before (some m) after =
    (arrival : ℕ) × Left ((arrival, m) ∷ after) before × (accepted m.kind ≡ true)

pub Took-Left :
    (accepted : Kind → Bool) (before : List (ℕ × Message)) (o : Option Message)
    (after : List (ℕ × Message))
    → Took accepted before o after
    → Left after before
Took-Left accepted before none after h = h
Took-Left accepted before (some m) after (arrival, h, k) = Left-trans h (gone (arrival, m) all)

looser :
    (accepted : Kind → Bool) (a : ℕ × Message) (before : List (ℕ × Message)) (o : Option Message)
    (after : List (ℕ × Message))
    → Took accepted before o after
    → Took accepted (a ∷ before) o after
looser accepted a before none after h = gone a h
looser accepted a before (some m) after (arrival, h, k) = (arrival, gone a h, k)

-- No wait goes beyond its time.
receive_until_lem :
    (accepted : Kind → Bool) (until now : ℕ) (script : List (ℕ × Message))
    → now ≤ until
    → (now ≤ (receive_until accepted until now script).1)
      × ((receive_until accepted until now script).1 ≤ until)
      × Took accepted script
          (receive_until accepted until now script).0
          (receive_until accepted until now script).2
unfolding receive_until
receive_until_lem accepted until now [] h = (omega arith, omega arith, all)
receive_until_lem accepted until now ((arrival, m) ∷ rest) h = elim (Bool-cases (leb until now)) [
  | inl past ↦ rw past (omega arith, omega arith, all)
  | inr going ↦ elim (Bool-cases (ltb until arrival)) [
    | inl late ↦ rw (going, late) (omega arith, omega arith, all)
    | inr soon ↦ elim (Bool-cases (accepted m.kind)) [
      | inl taken ↦ rw (going, soon, taken) (omega arith, ground arith, (arrival, all, taken))
      | inr dropped ↦
          let arrived : max now arrival ≤ until = ground arith in
          let r = receive_until accepted until (max now arrival) rest in
          let (after, within, took) =
            receive_until_lem accepted until (max now arrival) rest arrived in
          rw (going, soon, dropped)
            (omega arith, within, looser accepted (arrival, m) rest r.0 r.2 took)
    ]
  ]
]

pub transaction_receive_lem :
    (accepted : Kind → Bool) (timeout : ℕ) (w : World)
    → ((transaction_receive accepted timeout w).1.sent ≡ w.sent)
      × (w.now ≤ (transaction_receive accepted timeout w).1.now)
      × ((transaction_receive accepted timeout w).1.now ≤ w.now + timeout)
      × Took accepted w.script
          (transaction_receive accepted timeout w).0
          (transaction_receive accepted timeout w).1.script
unfolding transaction_receive
transaction_receive_lem accepted timeout w =
    let (after, within, took) =
      receive_until_lem accepted (w.now + timeout) w.now w.script (omega arith) in
    (refl, after, within, took)

-- What `_receive` returns is an accepted message of this mission's partner, off the queue.
abbrev pub Answers :
    Settings
    → (Kind → Bool)
    → List (ℕ × Message)
    → Result (Option Message)
    → List (ℕ × Message)
    → Type 0
Answers s accepted before (err x) after = Left after before
Answers s accepted before (ok none) after = Left after before
Answers s accepted before (ok (some m)) after =
    (arrival : ℕ) × Left ((arrival, m) ∷ after) before
    × (accepted m.kind ≡ true)
    × (matches s m ≡ true)

Answers-looser :
    (s : Settings) (accepted : Kind → Bool) (before wider : List (ℕ × Message))
    (r : Result (Option Message)) (after : List (ℕ × Message))
    → Left before wider
    → Answers s accepted before r after
    → Answers s accepted wider r after
Answers-looser s accepted before wider (err x) after h a = Left-trans h a
Answers-looser s accepted before wider (ok none) after h a = Left-trans h a
Answers-looser s accepted before wider (ok (some m)) after h (arrival, a, k, o) =
    (arrival, Left-trans h a, k, o)

pub Answers-Left :
    (s : Settings) (accepted : Kind → Bool) (before : List (ℕ × Message))
    (r : Result (Option Message)) (after : List (ℕ × Message))
    → Answers s accepted before r after
    → Left after before
Answers-Left s accepted before (err x) after a = a
Answers-Left s accepted before (ok none) after a = a
Answers-Left s accepted before (ok (some m)) after (arrival, a, k, o) =
    Left-trans a (gone (arrival, m) all)

pub record Waited (s : Settings) (deadline : ℕ) (accepted : Kind → Bool) (w : World)
    (r : Result (Option Message)) (after : World) : Type 0 where
  pub unsent : after.sent ≡ w.sent
  pub later : w.now ≤ after.now
  pub within : w.now ≤ deadline → after.now ≤ deadline
  pub answers : Answers s accepted w.script r after.script

receive_rounds_lem :
    (rounds : ℕ) (s : Settings) (deadline : ℕ) (accepted : Kind → Bool) (w : World)
    → Waited s deadline accepted w
        (receive_rounds rounds s deadline accepted w).0
        (receive_rounds rounds s deadline accepted w).1
unfolding receive_rounds
receive_rounds_lem zero s deadline accepted w = record {
  unsent = refl;
  later = omega arith;
  within = λ h. h;
  answers = all;
}
receive_rounds_lem (suc rounds) s deadline accepted w = elim (Bool-cases (leb deadline w.now)) [
  | inl past ↦
      rw past (record { unsent = refl; later = omega arith; within = λ h. h; answers = all })
  | inr going ↦
      let t = min s.timeout (deadline - w.now) in
      let (unsent, later, within, took) = transaction_receive_lem accepted t w in
      let w' = (transaction_receive accepted t w).1 in
      let inside : w'.now ≤ deadline = ground arith in
      elim (Option-cases (transaction_receive accepted t w).0) [
        | inl nothing ↦
            rw (going, nothing)
              (record {
                unsent = unsent;
                later = later;
                within = λ h. inside;
                answers = subst (λ o. Took accepted w.script o w'.script) nothing took;
              })
        | inr (m, got) ↦
            let (arrival, next, kind) = subst (λ o. Took accepted w.script o w'.script) got took in
            elim (Bool-cases (matches s m)) [
              | inl ours ↦
                  rw (going, got, ours)
                    (record {
                      unsent = unsent;
                      later = later;
                      within = λ h. inside;
                      answers = (arrival, next, kind, ours);
                    })
              | inr foreign ↦
                  let on = receive_rounds_lem rounds s deadline accepted w' in
                  rw (going, got, foreign)
                    (record {
                      unsent = on.unsent ∙ unsent;
                      later = omega (arith, on.later);
                      within = λ h. on.within inside;
                      answers =
                          Answers-looser s accepted w'.script w.script
                            (receive_rounds rounds s deadline accepted w').0
                            (receive_rounds rounds s deadline accepted w').1.script
                            (Left-trans next (gone (arrival, m) all)) on.answers;
                    })
            ]
      ]
]

pub receive_lem :
    (s : Settings) (deadline : ℕ) (accepted : Kind → Bool) (w : World)
    → Waited s deadline accepted w
        (receive s deadline accepted w).0
        (receive s deadline accepted w).1
unfolding receive
receive_lem s deadline accepted w = receive_rounds_lem (length w.script + 1) s deadline accepted w
