-- ===== src/Mission/Readback.antt =====
-- What a download has read off the queue: one message for each item, in the order of the items.
use low_altitude_io_t_system.Common.{
  Bool-cases, List, Option, Option-cases, Result, [], ap, arith, err, inl, inr, length, list_eq,
  nat_eq, none, ok, pair_eq, refl, some, string_eq, subst, suc, true, zero, ℕ, ◌+◌, ◌∷◌, ◌≡◌,
}
use low_altitude_io_t_system.Common.Int.{eqb_ℤ, negsuc, pos, ℤ}
use low_altitude_io_t_system.Mission.{
  Message, Received, Settings, World, andthen, get_or_z, is_item, matches, receive, send,
  send_request_int,
}
use low_altitude_io_t_system.Mission.Receive.{
  Answers, Answers-Left, Left, Left-trans, all, gone, receive_lem,
}
use low_altitude_io_t_system.Mission.Kept.{Kept, count_attempts-Kept}
use low_altitude_io_t_system.Mission.Transfer.{
  count_attempts, download, download_items, item_attempts, read_item,
}

-- A message of this mission's partner that carries an item under its own sequence number.
pub record Carries (s : Settings) (i : ℕ) (item : Received) (message : Message) : Type 0 where
  pub kind : is_item message.kind ≡ true
  pub ours : matches s message ≡ true
  pub numbered : message.seq ≡ some (pos i)
  pub content : read_item i message ≡ ok item

-- Items that were read one after another, from a sequence number on, out of the messages that the
-- flight controller has sent: in the order in which these came, and each out of its own.
pub data ReadFrom (s : Settings) : ℕ → List (ℕ × Message) → List Received → Type 0 where
  no_more : (i : ℕ) (script : List (ℕ × Message)) → ReadFrom s i script []
  passes :
      {i : ℕ} {script : List (ℕ × Message)} {items : List Received} (a : ℕ × Message)
      → ReadFrom s i script items
      → ReadFrom s i (a ∷ script) items
  takes :
      {i : ℕ} {script : List (ℕ × Message)} {items : List Received} (arrival : ℕ) (m : Message)
      (item : Received)
      → Carries s i item m
      → ReadFrom s (i + 1) script items
      → ReadFrom s i ((arrival, m) ∷ script) (item ∷ items)

pub ReadFrom-Left :
    {s : Settings} {i : ℕ} {rest : List (ℕ × Message)} {items : List Received}
    {script : List (ℕ × Message)}
    → Left rest script
    → ReadFrom s i rest items
    → ReadFrom s i script items
ReadFrom-Left all r = r
ReadFrom-Left (gone a h) r = passes a (ReadFrom-Left h r)

-- A step that returned, and what followed.
pub andthen_ok {ℓ κ} :
    {A : Type ℓ} {B : Type κ} (r : Result A × World) (f : A → World → Result B × World) {b : B}
    {v : World}
    → andthen r f ≡ (ok b, v)
    → (a : A) × (w' : World) × (r ≡ (ok a, w')) × (f a w' ≡ (ok b, v))
andthen_ok (ok a, w') f h = (a, w', refl, h)
andthen_ok (err x, w') f h = absurd (let e = ap (λ z. z.0) h in cc)

seq_sound : (o : Option ℤ) (i : ℕ) → eqb_ℤ (get_or_z o (negsuc 0)) (pos i) ≡ true → o ≡ some (pos i)
seq_sound none i h = absurd (ground arith)
seq_sound (some (pos n)) i h = ground arith
seq_sound (some (negsuc n)) i h = absurd (ground arith)

pub eqb_ℤ_sound : (a b : ℤ) → eqb_ℤ a b ≡ true → a ≡ b
eqb_ℤ_sound (pos a) (pos b) h = ground arith
eqb_ℤ_sound (pos a) (negsuc b) h = absurd (ground arith)
eqb_ℤ_sound (negsuc a) (pos b) h = absurd (ground arith)
eqb_ℤ_sound (negsuc a) (negsuc b) h = ground arith

-- An item came in a message, behind which the queue goes on.
record Came (s : Settings) (i : ℕ) (item : Received) (before after : List (ℕ × Message))
    : Type 0 where
  arrival : ℕ
  message : Message
  next : Left ((arrival, message) ∷ after) before
  carries : Carries s i item message

module _ (s : Settings) (d : ℕ) where
  item_attempts-Came :
      (n i : ℕ) (w w' : World) (item : Received)
      → item_attempts s d n i w ≡ (ok item, w')
      → Came s i item w.script w'.script
  unfolding item_attempts
  item_attempts-Came zero i w w' item h = absurd (let e = ap (λ z. z.0) h in cc)
  item_attempts-Came (suc n) i w w' item h =
      let asked = send (send_request_int i) w in
      let (o, w1, got, on) = andthen_ok (receive s d is_item asked) _ h in
      let answers =
        subst
          (λ (r : Result (Option Message) × World). Answers s is_item asked.script r.0 r.1.script)
          got (receive_lem s d is_item asked).answers in
      elim (Option-cases o) [
        | inl nothing ↦
            let came = item_attempts-Came n i w1 w' item (rw nothing at on) in
            let left = Answers-Left s is_item w.script (ok o) w1.script answers in
            record {
              arrival = came.arrival;
              message = came.message;
              next = Left-trans left came.next;
              carries = came.carries;
            }
        | inr (m, there) ↦
            let (arrival, next, kind, ours) : Answers s is_item w.script (ok (some m)) w1.script =
              rw there at answers in
            elim (Bool-cases (eqb_ℤ (get_or_z m.seq (negsuc 0)) (pos i))) [
              | inr other ↦
                  let came = item_attempts-Came n i w1 w' item (rw (there, other) at on) in
                  record {
                    arrival = came.arrival;
                    message = came.message;
                    next = Left-trans next (gone (arrival, m) came.next);
                    carries = came.carries;
                  }
              | inl here ↦
                  let e : (read_item i m, w1) ≡ (ok item, w') = rw (there, here) at on in
                  record {
                    arrival = arrival;
                    message = m;
                    next =
                        subst (λ (v : World). Left ((arrival, m) ∷ v.script) w.script)
                          (ap (λ z. z.1) e) next;
                    carries = record {
                      kind = kind;
                      ours = ours;
                      numbered = seq_sound m.seq i here;
                      content = ap (λ z. z.0) e;
                    };
                  }
            ]
      ]

  download_items-ReadFrom :
      (n i : ℕ) (w w' : World) (items : List Received)
      → download_items s d n i w ≡ (ok items, w')
      → ReadFrom s i w.script items × (length items ≡ n)
  unfolding download_items
  download_items-ReadFrom zero i w w' items h =
      let r : ok [] ≡ ok items = ap (λ z. z.0) h in
      let e : [] ≡ items = cc in rw (← e) (no_more i w.script, refl)
  download_items-ReadFrom (suc n) i w w' items h =
      let (item, w1, got, on) = andthen_ok (item_attempts s d (s.retries + 1) i w) _ h in
      let (rest, w2, more, last) = andthen_ok (download_items s d n (i + 1) w1) _ on in
      let r : ok (item ∷ rest) ≡ ok items = ap (λ z. z.0) last in
      let whole : item ∷ rest ≡ items = cc in
      let came = item_attempts-Came (s.retries + 1) i w w1 item got in
      let (read, count) = download_items-ReadFrom n (i + 1) w1 w2 rest more in
      rw (← whole) (
        ReadFrom-Left came.next (takes came.arrival came.message item came.carries read),
        omega arith,
      )

  pub download-ReadFrom :
      (n : ℕ) (w w' : World) (items : List Received)
      → download s d n w ≡ (ok items, w')
      → ReadFrom s 0 w.script items × (length items ≡ n)
  unfolding download
  download-ReadFrom n w w' items h =
      let (count, w1, got, on) = andthen_ok (count_attempts s d (s.retries + 1) w) _ h in
      let kept =
        subst (λ (r : Result ℤ × World). Kept d w r.1) got
          (count_attempts-Kept s d (s.retries + 1) w) in
      elim (Bool-cases (eqb_ℤ count (pos n))) [
        | inr other ↦ absurd (let e = ap (λ z. z.0) (rw other at on) in cc)
        | inl same ↦
            let on' = rw same at on in
            let (read, w2, more, last) = andthen_ok (download_items s d n 0 w1) _ on' in
            let r : ok read ≡ ok items = ap (λ z. z.0) last in
            let whole : read ≡ items = cc in
            let (from, size) = download_items-ReadFrom n 0 w1 w2 read more in
            rw (← whole) (ReadFrom-Left kept.queue from, size)
      ]
