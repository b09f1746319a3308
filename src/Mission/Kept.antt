-- ===== src/Mission/Kept.antt =====
-- What the steps of a transfer keep: they end by the deadline, take messages off the queue from its
-- front, and give the vehicle no orders.
use low_altitude_io_t_system.Common.{
  Bool, Bool-cases, List, Option, Result, Result-cases, [], ap, arith, err, if◌then◌else◌, inl, inr,
  leb, length, list_eq, mission_denied, mission_verification_error, nat_eq, none, ok, pair_eq, refl,
  some, string_eq, suc, zero, ℕ, ◌+◌, ◌∙◌, ◌∷◌, ◌≡◌, ◌≤◌,
}
use low_altitude_io_t_system.Common.Int.{eqb_ℤ, negsuc, pos, ℤ}
use low_altitude_io_t_system.Mission.{
  Item, Kind, Message, Received, Sent, Settings, World, andthen, get_or_z, is_accepted, is_ack,
  is_count, is_item, is_request_or_ack, receive, send, send_ack, send_arm, send_clear_all,
  send_count, send_item, send_request_int, send_request_list, send_set_mode,
}
use low_altitude_io_t_system.Mission.Receive.{Answers-Left, Left, Left-trans, all, receive_lem}
use low_altitude_io_t_system.Mission.Transfer.{
  Progress, answer_request, clear, clear_attempts, count_attempts, download, download_items,
  enough_rounds, item_attempts, read_item, upload, upload_rounds, upload_step,
}
use low_altitude_io_t_system.Mission.Execute.{ended}

-- The orders among what was sent: a mode, or to arm.
abbrev pub orders : List Sent → List Sent
orders [] = []
orders (send_set_mode mode ∷ sent) = send_set_mode mode ∷ orders sent
orders (send_arm value ∷ sent) = send_arm value ∷ orders sent
orders (send_clear_all ∷ sent) = orders sent
orders (send_count n ∷ sent) = orders sent
orders (send_item i ∷ sent) = orders sent
orders (send_request_list ∷ sent) = orders sent
orders (send_request_int n ∷ sent) = orders sent
orders (send_ack n ∷ sent) = orders sent

pub record Kept (deadline : ℕ) (w w' : World) : Type 0 where
  pub later : w.now ≤ w'.now
  pub within : w.now ≤ deadline → w'.now ≤ deadline
  pub queue : Left w'.script w.script
  pub orderless : orders w'.sent ≡ orders w.sent

pub Kept-refl : (d : ℕ) (w : World) → Kept d w w
Kept-refl d w = record { later = omega arith; within = λ h. h; queue = all; orderless = refl }

pub Kept-trans : (d : ℕ) (u v w : World) → Kept d u v → Kept d v w → Kept d u w
Kept-trans d u v w k l = record {
  later = omega (arith, k.later, l.later);
  within = λ h. l.within (k.within h);
  queue = Left-trans k.queue l.queue;
  orderless = l.orderless ∙ k.orderless;
}

-- A step and what follows.
pub andthen-Kept {ℓ κ} :
    {A : Type ℓ} {B : Type κ} (d : ℕ) (w : World) (r : Result A × World)
    → (f : A → World → Result B × World) → Kept d w r.1
    → ((a : A) (w' : World) → Kept d w' (f a w').1)
    → Kept d w (andthen r f).1
andthen-Kept d w (ok a, w') f k on = Kept-trans d w w' (f a w').1 k (on a w')
andthen-Kept d w (err x, w') f k on = k

module _ (s : Settings) (d : ℕ) where
  pub receive-Kept : (accepted : Kind → Bool) (w : World) → Kept d w (receive s d accepted w).1
  receive-Kept accepted w =
      let r = receive_lem s d accepted w in
      record {
        later = r.later;
        within = r.within;
        queue =
            Answers-Left s accepted w.script (receive s d accepted w).0
              (receive s d accepted w).1.script r.answers;
        orderless = ap orders r.unsent;
      }

  -- A message is sent that is no order, and an answer awaited.
  ask-Kept :
      (accepted : Kind → Bool) (m : Sent) (w : World)
      → orders (m ∷ w.sent) ≡ orders w.sent
      → Kept d w (receive s d accepted (send m w)).1
  ask-Kept accepted m w e =
      Kept-trans d w (send m w) (receive s d accepted (send m w)).1
        (record { later = omega arith; within = λ h. h; queue = all; orderless = e })
        (receive-Kept accepted (send m w))

  clear_attempts-Kept : (n : ℕ) (w : World) → Kept d w (clear_attempts s d n w).1
  unfolding clear_attempts
  clear_attempts-Kept zero w = Kept-refl d w
  clear_attempts-Kept (suc n) w =
      andthen-Kept d w (receive s d is_ack (send send_clear_all w)) _
        (ask-Kept is_ack send_clear_all w refl) (λ o w'. on o w' (clear_attempts-Kept n w'))
    where
      on :
          (o : Option Message) (w' : World)
          → Kept d w' (clear_attempts s d n w').1
          → Kept d w'
              (elim o as (λ _. Result (Unit {0}) × World) [
                | none ↦ clear_attempts s d n w'
                | some ack ↦
                    if is_accepted ack
                    then (ok tt, w')
                    else (err (mission_denied "mission clear denied"), w')
              ]).1
      on none w' k = k
      on (some ack) w' k = elim (Bool-cases (is_accepted ack)) [
        | inl good ↦ rw good (Kept-refl d w')
        | inr bad ↦ rw bad (Kept-refl d w')
      ]

  pub count_attempts-Kept : (n : ℕ) (w : World) → Kept d w (count_attempts s d n w).1
  unfolding count_attempts
  count_attempts-Kept zero w = Kept-refl d w
  count_attempts-Kept (suc n) w =
      andthen-Kept d w (receive s d is_count (send send_request_list w)) _
        (ask-Kept is_count send_request_list w refl) (λ o w'. on o w' (count_attempts-Kept n w'))
    where
      on :
          (o : Option Message) (w' : World)
          → Kept d w' (count_attempts s d n w').1
          → Kept d w'
              (elim o as (λ _. Result ℤ × World) [
                | none ↦ count_attempts s d n w'
                | some m ↦ (ok (get_or_z m.count (negsuc 0)), w')
              ]).1
      on none w' k = k
      on (some m) w' k = Kept-refl d w'

  item_attempts-Kept : (n i : ℕ) (w : World) → Kept d w (item_attempts s d n i w).1
  unfolding item_attempts
  item_attempts-Kept zero i w = Kept-refl d w
  item_attempts-Kept (suc n) i w =
      andthen-Kept d w (receive s d is_item (send (send_request_int i) w)) _
        (ask-Kept is_item (send_request_int i) w refl) (λ o w'. on o w' (item_attempts-Kept n i w'))
    where
      on :
          (o : Option Message) (w' : World)
          → Kept d w' (item_attempts s d n i w').1
          → Kept d w'
              (elim o as (λ _. Result Received × World) [
                | none ↦ item_attempts s d n i w'
                | some m ↦
                    if eqb_ℤ (get_or_z m.seq (negsuc 0)) (pos i)
                    then (read_item i m, w')
                    else item_attempts s d n i w'
              ]).1
      on none w' k = k
      on (some m) w' k = elim (Bool-cases (eqb_ℤ (get_or_z m.seq (negsuc 0)) (pos i))) [
        | inl here ↦ rw here (Kept-refl d w')
        | inr other ↦ rw other k
      ]

  download_items-Kept : (n i : ℕ) (w : World) → Kept d w (download_items s d n i w).1
  unfolding download_items
  download_items-Kept zero i w = Kept-refl d w
  download_items-Kept (suc n) i w =
      andthen-Kept d w (item_attempts s d (s.retries + 1) i w) _
        (item_attempts-Kept (s.retries + 1) i w)
        (λ item w'.
          andthen-Kept d w' (download_items s d n (i + 1) w') _ (download_items-Kept n (i + 1) w')
            (λ items w''. Kept-refl d w''))

  pub clear-Kept : (w : World) → Kept d w (clear s d w).1
  unfolding clear
  clear-Kept w = clear_attempts-Kept (s.retries + 1) w

  pub download-Kept : (n : ℕ) (w : World) → Kept d w (download s d n w).1
  unfolding download
  download-Kept n w =
      andthen-Kept d w (count_attempts s d (s.retries + 1) w) _
        (count_attempts-Kept (s.retries + 1) w) (λ count w'. on count w')
    where
      on :
          (count : ℤ) (w' : World)
          → Kept d w'
              (if eqb_ℤ count (pos n)
                then (andthen
                    (download_items s d n 0 w')
                    λ items w''. (ok items, send (send_ack 0) w''))
                else (err (mission_verification_error "mission readback count"), w')).1
      on count w' = elim (Bool-cases (eqb_ℤ count (pos n))) [
        | inr other ↦ rw other (Kept-refl d w')
        | inl same ↦ rw same (
            andthen-Kept d w' (download_items s d n 0 w') _ (download_items-Kept n 0 w')
              (λ items w''. record {
                later = omega arith;
                within = λ h. h;
                queue = all;
                orderless = refl;
              }))
      ]

  abbrev pub KeptIfEnded : World → Option (Result (Unit {0}) × World) → Type 0
  KeptIfEnded w none = Unit {0}
  KeptIfEnded w (some r) = Kept d w r.1

  KeptIfEnded-trans :
      (w w' : World) (o : Option (Result (Unit {0}) × World))
      → Kept d w w'
      → KeptIfEnded w' o
      → KeptIfEnded w o
  KeptIfEnded-trans w w' none k l = tt
  KeptIfEnded-trans w w' (some r) k l = Kept-trans d w w' r.1 k l

  sent-Kept : (w : World) (m : Sent) → orders (m ∷ w.sent) ≡ orders w.sent → Kept d w (send m w)
  sent-Kept w m e = record { later = omega arith; within = λ h. h; queue = all; orderless = e }

  upload_step-Kept :
      (on : Progress → World → Option (Result (Unit {0}) × World))
      → ((p : Progress) (w : World) → KeptIfEnded w (on p w))
      → (items : List Item) (p : Progress) (r : Result (Option Message)) (w : World)
      → KeptIfEnded w (upload_step s d on items p r w)
  unfolding upload_step
  upload_step-Kept on k items p (err x) w = Kept-refl d w
  upload_step-Kept on k items p (ok none) w =
      let p' = record p { attempts = p.attempts + 1 } in
      let again = send (send_count (length items)) w in
      elim (Bool-cases (leb s.retries p.attempts)) [
        | inl spent ↦ rw spent (Kept-refl d w)
        | inr left ↦ rw left (
            KeptIfEnded-trans w again (on p' again) (sent-Kept w (send_count (length items)) refl)
              (k p' again))
      ]
  upload_step-Kept on k items p (ok (some m)) w = elim (Bool-cases (is_ack m.kind)) [
    | inl ack ↦ elim (Bool-cases (is_accepted m)) [
      | inl good ↦ rw (ack, good) (Kept-refl d w)
      | inr bad ↦ rw (ack, bad) (Kept-refl d w)
    ]
    | inr request ↦ elim (Result-cases (answer_request s d items m p)) [
      | inr (x, refused) ↦ rw (request, refused) (Kept-refl d w)
      | inl ((item, p'), answered) ↦
          let next = send (send_item item) w in
          rw (request, answered)
            (KeptIfEnded-trans w next (on p' next) (sent-Kept w (send_item item) refl) (k p' next))
    ]
  ]

  upload_rounds-Kept :
      (n : ℕ) (items : List Item) (p : Progress) (w : World)
      → KeptIfEnded w (upload_rounds s d n items p w)
  unfolding upload_rounds
  upload_rounds-Kept zero items p w = tt
  upload_rounds-Kept (suc n) items p w =
      let (received, w') = receive s d is_request_or_ack w in
      KeptIfEnded-trans w w' (upload_step s d (upload_rounds s d n items) items p received w')
        (receive-Kept is_request_or_ack w)
        (upload_step-Kept (upload_rounds s d n items) (upload_rounds-Kept n items) items p received
          w')

  pub upload-Kept : (items : List Item) (w : World) → KeptIfEnded w (upload s d items w)
  unfolding upload
  upload-Kept items w =
      let w' = send (send_count (length items)) w in
      let p : Progress = record { requests = []; attempts = 0 } in
      KeptIfEnded-trans w w' (upload_rounds s d (enough_rounds s d items) items p w')
        (sent-Kept w (send_count (length items)) refl)
        (upload_rounds-Kept (enough_rounds s d items) items p w')

pub ended-Kept :
    (s : Settings) (d : ℕ) (w : World) (o : Option (Result (Unit {0}) × World))
    → KeptIfEnded s d w o
    → Kept d w (ended w o).1
ended-Kept s d w none k = Kept-refl d w
ended-Kept s d w (some r) k = k
