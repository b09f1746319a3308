-- ===== src/Mission/Ends.antt =====
-- The loop of a mission's upload ends: each round uses up one of the requests that an item may have,
-- or one of the attempts between two requests.
use low_altitude_io_t_system.Common.{
  Bool-cases, List, Option, Option-cases, Result, Result-cases, [], ap, arith, err, false,
  get_elem?, if◌then◌else◌, inl, inr, leb, length, list_eq, nat_eq, none, ok, pair_eq, refl, some,
  string_eq, suc, zero, ℕ, ◌*◌, ◌+◌, ◌-◌, ◌<◌, ◌==◌, ◌∷◌, ◌≡◌, ◌≢◌, ◌≤◌,
}
use low_altitude_io_t_system.Common.Int.{negsuc, pos, ℤ}
use low_altitude_io_t_system.Common.Dict.{Dict, get, get-put, put}
use low_altitude_io_t_system.Mission.{
  Item, Message, Settings, World, get_or_z, is_accepted, is_ack, is_request_or_ack, receive, send,
  send_count, send_item,
}
use low_altitude_io_t_system.Mission.Receive.{receive_lem}
use low_altitude_io_t_system.Mission.Transfer.{
  Progress, answer_request, enough_rounds, or_zero, requested, upload, upload_rounds, upload_step,
}

-- A loop that has returned or raised, and has sent so many messages at most.
abbrev pub EndsIn : ℕ → World → Option (Result (Unit {0}) × World) → Type 0
EndsIn n w o =
    (r : Result (Unit {0}) × World) × (o ≡ some r) × (length r.1.sent ≤ length w.sent + n)

abbrev count_of : ℕ → Dict ℕ ℕ → ℕ
count_of i d = or_zero (get i d)

-- The requests that the first items may still have, so many each.
allowance : ℕ → ℕ → Dict ℕ ℕ → ℕ
allowance each zero d = 0
allowance each (suc n) d = (each - count_of n d) + allowance each n d

count_of-put :
    (i j c : ℕ) (d : Dict ℕ ℕ) → count_of j (put i c d) ≡ (if i == j then c else count_of j d)
count_of-put i j c d = elim (Bool-cases (i == j)) [
  | inl same ↦ rw (get-put i j c d, same) refl
  | inr other ↦ rw (get-put i j c d, other) refl
]

allowance-put_above :
    (each n i c : ℕ) (d : Dict ℕ ℕ) → n ≤ i → allowance each n (put i c d) ≡ allowance each n d
unfolding allowance
allowance-put_above each zero i c d h = refl
allowance-put_above each (suc n) i c d h =
    let rest = allowance-put_above each n i c d (omega arith) in
    let other : (i == n) ≡ false = ground arith in
    let same : count_of n (put i c d) ≡ count_of n d = rw (count_of-put i n c d, other) refl in
    rw (same, rest) refl

allowance-put :
    (each n i : ℕ) (d : Dict ℕ ℕ)
    → i < n
    → count_of i d + 1 ≤ each
    → allowance each n (put i (count_of i d + 1) d) + 1 ≤ allowance each n d
unfolding allowance
allowance-put each zero i d h few = absurd (omega arith)
allowance-put each (suc n) i d h few =
    let c = count_of i d + 1 in
    elim (Bool-cases (i == n)) [
      | inl same ↦
          let e : i ≡ n = (nat_eq.beq_iff i n).0 same in
          let own : count_of n (put i c d) ≡ c = rw (count_of-put i n c d, same) refl in
          let before : count_of n d ≡ count_of i d = rw e refl in
          let rest = allowance-put_above each n i c d (omega arith) in rw (own, rest) (omega arith)
      | inr other ↦
          let differs : i ≢ n = λ e. let same = (nat_eq.beq_iff i n).1 e in cc in
          let kept : count_of n (put i c d) ≡ count_of n d =
            rw (count_of-put i n c d, other) refl in
          let rest = allowance-put each n i d (omega arith) few in rw kept (omega arith)
    ]

allowance-empty : (each n : ℕ) → allowance each n [] ≡ n * each
unfolding allowance get
allowance-empty each zero = grind arith
allowance-empty each (suc n) = let rest = allowance-empty each n in grind arith

get_elem-below :
    (items : List Item) (i : ℕ) (item : Item) → get_elem? items i ≡ some item → i < length items
get_elem-below [] i item e = absurd (cc)
get_elem-below (x ∷ items) zero item e = omega arith
get_elem-below (x ∷ items) (suc i) item e = omega (arith, get_elem-below items i item e)

room : (q r : ℕ) → q * (r + 2) + (r + 1 - 0) ≤ (q + 1) * (r + 2)
room q r = grind arith

less-mul : (a b k : ℕ) → a + 1 ≤ b → a * k + k ≤ b * k
less-mul a b k h = grind arith

module _ (s : Settings) (d : ℕ) where
  -- The rounds that are left at most.
  abbrev rounds_left : List Item → Progress → ℕ
  rounds_left items p =
      allowance s.max_sequence_requests (length items) p.requests * (s.retries + 2)
      + (s.retries + 1 - p.attempts)

  answer_request_lem :
      (items : List Item) (m : Message) (p p' : Progress) (item : Item)
      → answer_request s d items m p ≡ ok (item, p')
      → (p'.attempts ≡ 0)
        × (allowance s.max_sequence_requests (length items) p'.requests + 1
            ≤ allowance s.max_sequence_requests (length items) p.requests)
  unfolding answer_request
  answer_request_lem items m p p' item e = by_seq (get_or_z m.seq (negsuc 0)) refl
    where
      by_seq :
          (i : ℤ)
          → get_or_z m.seq (negsuc 0) ≡ i
          → (p'.attempts ≡ 0)
            × (allowance s.max_sequence_requests (length items) p'.requests + 1
                ≤ allowance s.max_sequence_requests (length items) p.requests)
      by_seq (negsuc i) q = absurd (ground arith)
      by_seq (pos i) q = elim (Option-cases (get_elem? items i)) [
        | inl missing ↦ absurd (ground arith)
        | inr (x, there) ↦ elim (Bool-cases (leb (requested i p + 1) s.max_sequence_requests)) [
          | inr many ↦ absurd (ground arith)
          | inl few ↦
              let made : ok
                    (x, record { requests = put i (requested i p + 1) p.requests; attempts = 0 })
                  ≡ ok (item, p') =
                rw (answer_request, q, there, few) at e in
              let next : record { requests = put i (requested i p + 1) p.requests; attempts = 0 }
                  ≡ p' =
                cc in
              rw (← next) (
                refl,
                allowance-put s.max_sequence_requests (length items) i p.requests
                    (get_elem-below items i x there) (ground arith),
              )
        ]
      ]

  upload_step-EndsIn :
      (on : Progress → World → Option (Result (Unit {0}) × World))
      → (items : List Item) (p : Progress) (r : Result (Option Message)) (w : World) (n : ℕ)
      → p.attempts ≤ s.retries
      → rounds_left items p ≤ suc n
      → ((p' : Progress) (w' : World)
          → p'.attempts ≤ s.retries
          → rounds_left items p' ≤ n
          → EndsIn n w' (on p' w'))
      → EndsIn (suc n) w (upload_step s d on items p r w)
  unfolding upload_step
  upload_step-EndsIn on items p (err x) w n few h k = ((err x, w), refl, omega arith)
  upload_step-EndsIn on items p (ok none) w n few h k =
      elim (Bool-cases (leb s.retries p.attempts)) [
        | inl spent ↦ rw spent ((_, refl, omega arith))
        | inr left ↦
            let more : p.attempts < s.retries = ground arith in
            let (r, e, sent) =
              k (record p { attempts = p.attempts + 1 }) (send (send_count (length items)) w)
                (omega arith) (omega arith) in
            rw left ((r, e, omega (arith, sent)))
      ]
  upload_step-EndsIn on items p (ok (some m)) w n few h k = elim (Bool-cases (is_ack m.kind)) [
    | inl ack ↦ elim (Bool-cases (is_accepted m)) [
      | inl good ↦ rw (ack, good) ((_, refl, omega arith))
      | inr bad ↦ rw (ack, bad) ((_, refl, omega arith))
    ]
    | inr request ↦ elim (Result-cases (answer_request s d items m p)) [
      | inr (x, refused) ↦ rw (request, refused) ((_, refl, omega arith))
      | inl ((item, p'), answered) ↦
          let (reset, used) = answer_request_lem items m p p' item answered in
          let fewer =
            less-mul (allowance s.max_sequence_requests (length items) p'.requests)
              (allowance s.max_sequence_requests (length items) p.requests) (s.retries + 2) used in
          let (r, e, sent) = k p' (send (send_item item) w) (omega arith) (omega arith) in
          rw (request, answered) ((r, e, omega (arith, sent)))
    ]
  ]

  upload_rounds-EndsIn :
      (n : ℕ) (items : List Item) (p : Progress) (w : World)
      → p.attempts ≤ s.retries
      → rounds_left items p ≤ n
      → EndsIn n w (upload_rounds s d n items p w)
  unfolding upload_rounds
  upload_rounds-EndsIn zero items p w few h = absurd (omega arith)
  upload_rounds-EndsIn (suc n) items p w few h =
      let (received, w') = receive s d is_request_or_ack w in
      let (r, e, sent) =
        upload_step-EndsIn (upload_rounds s d n items) items p received w' n few h
          (λ p' w'' f l. upload_rounds-EndsIn n items p' w'' f l) in
      let unsent = (receive_lem s d is_request_or_ack w).unsent in
      (r, e, omega (arith, sent, ap length unsent))

  -- The loop of `_upload` ends, whatever messages come, however many and at whatever times: the
  -- rounds in which it returns or raises, and the messages that it sends, are bounded by the number
  -- of items, the requests that each may have and the retries alone.
  pub upload-EndsIn :
      (items : List Item) (w : World)
      → EndsIn
          (1 + (length items * s.max_sequence_requests + 1) * (s.retries + 2))
          w
          (upload s d items w)
  unfolding upload
  upload-EndsIn items w =
      let start : Progress = record { requests = []; attempts = 0 } in
      let w' = send (send_count (length items)) w in
      let empty = allowance-empty s.max_sequence_requests (length items) in
      let (r, e, sent) =
        upload_rounds-EndsIn (enough_rounds s d items) items start w' (omega arith)
          (rw empty (room (length items * s.max_sequence_requests) s.retries)) in
      (r, e, omega (arith, sent))
