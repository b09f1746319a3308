-- ===== src/Transport/Sender/Bounds.antt =====
-- The invariant of RetrySender, kept by each of its methods.
use low_altitude_io_t_system.Common.{
  ℕ, ◌+◌, ◌≤◌, ◌<◌, ◌≡◌, refl, sym, ◌∙◌, ◌⊎◌, inl, inr, some, Bool-cases, List, [], ◌∷◌, ◌++◌,
  String, leb, ltb, length, take_last, length-take_last-le, ◌==◌, string_eq, nat_eq, pair_eq, arith,
  ok, settle, Result-cases,
}
use low_altitude_io_t_system.Common.Dict.{
  Dict, get, put, delete, get-put, get-delete, Unique, Unique-put, Unique-delete, length-put,
  length-put_old, length-delete,
}
use low_altitude_io_t_system.Frame.{Frame}
use low_altitude_io_t_system.Transport.Sender.{
  Identity, identity, Pending, Sender, make_sender, queue, acknowledge, of_command, delete_all,
  cancel, pop_exhausted, due_step, due_loop, due,
}
use low_altitude_io_t_system.Transport.Sender.Due.{Agrees, rest-Agrees, head_agrees, same→eq}

-- A frame is filed under its own identity and was not sent more often than allowed.
abbrev pub IsEntry : ℕ → Identity → Pending → Type 0
IsEntry limit i p = (identity p.frame ≡ i) × (p.attempts ≤ limit)

abbrev pub Entries : ℕ → Dict Identity Pending → Type 0
Entries limit d = (i : Identity) (p : Pending) → get i d ≡ some p → IsEntry limit i p

pub record IsSender (s : Sender) : Type 0 where
  pub unique : Unique s.pending
  pub entries : Entries s.max_attempts s.pending
  pub pending_le : length s.pending ≤ s.max_pending
  pub exhausted_le : length s.exhausted ≤ s.max_pending

pub make_sender-IsSender : (a r m : ℕ) (s : Sender) → make_sender a r m ≡ ok s → IsSender s
unfolding make_sender
make_sender-IsSender a r m s e =
    let q : s ≡ record {
      max_attempts = a;
      retry_interval = r;
      max_pending = m;
      pending = [];
      exhausted = [];
    } =
      ground arith in
    rw q (record {
      unique = tt;
      entries = λ i p h. absurd (unfold get in cc);
      pending_le = omega arith;
      exhausted_le = omega arith;
    })

Entries-put :
    (limit : ℕ) (i : Identity) (p : Pending) (d : Dict Identity Pending)
    → IsEntry limit i p
    → Entries limit d
    → Entries limit (put i p d)
Entries-put limit i p d own all j q h = elim (Bool-cases (i == j)) [
  | inl same ↦
      let ij : i ≡ j = same→eq i j same in
      let pq : some p ≡ some q = rw same at (◌∙◌ (sym (get-put i j p d)) h) in
      let value : p ≡ q = cc in rw (← ij) (rw (← value) own)
  | inr other ↦ all j q (rw other at (◌∙◌ (sym (get-put i j p d)) h))
]

Entries-delete :
    (limit : ℕ) (i : Identity) (d : Dict Identity Pending)
    → Entries limit d
    → Entries limit (delete i d)
Entries-delete limit i d all j q h = elim (Bool-cases (i == j)) [
  | inl same ↦ absurd (cc (rw same at (get-delete i j d), h))
  | inr other ↦ all j q (rw other at (◌∙◌ (sym (get-delete i j d)) h))
]

pub queue-IsSender :
    (s t : Sender) (f : Frame) (now : ℕ) → IsSender s → queue s f now ≡ ok t → IsSender t
unfolding queue
queue-IsSender s t f now v e =
    let p : Pending = record { frame = f; attempts = 0; next_due = now } in
    let q : (t ≡ record s { pending = put (identity f) p s.pending })
        × (length s.pending + 1 ≤ s.max_pending) =
      (ground arith, ground arith) in
    rw (q.0) (record {
      unique = Unique-put (identity f) p s.pending v.unique;
      entries = Entries-put s.max_attempts (identity f) p s.pending (refl, omega arith) v.entries;
      pending_le = omega (arith, length-put (identity f) p s.pending, q.1);
      exhausted_le = v.exhausted_le;
    })

pub acknowledge-IsSender : (s : Sender) (i : Identity) → IsSender s → IsSender (acknowledge s i).0
unfolding acknowledge
acknowledge-IsSender s i v = record {
  unique = Unique-delete i s.pending v.unique;
  entries = Entries-delete s.max_attempts i s.pending v.entries;
  pending_le = omega (arith, length-delete i s.pending, v.pending_le);
  exhausted_le = v.exhausted_le;
}

pub delete_all-IsSender :
    (is : List Identity) (s : Sender)
    → IsSender s
    → IsSender (record s { pending = delete_all is s.pending })
unfolding delete_all acknowledge
delete_all-IsSender [] s v = v
delete_all-IsSender (i ∷ is) s v =
    delete_all-IsSender is (acknowledge s i).0 (acknowledge-IsSender s i v)

pub cancel-IsSender : (s : Sender) (id : String) → IsSender s → IsSender (cancel s id).0
unfolding cancel
cancel-IsSender s id v = delete_all-IsSender (of_command id s.pending) s v

pub pop_exhausted-IsSender : (s : Sender) → IsSender s → IsSender (pop_exhausted s).0
unfolding pop_exhausted
pop_exhausted-IsSender s v = record {
  unique = v.unique;
  entries = v.entries;
  pending_le = v.pending_le;
  exhausted_le = omega arith;
}

abbrev again : ℕ → Sender → Pending → Pending
again now s p = record p { attempts = p.attempts + 1; next_due = now + s.retry_interval }

due_step-cases :
    (now : ℕ) (i : Identity) (p : Pending) (s : Sender)
    → ((due_step now i p s).0 ≡ s)
      ⊎ ((due_step now i p s).0 ≡ record s {
        pending = delete i s.pending;
        exhausted = take_last s.max_pending (s.exhausted ++ (i ∷ []));
      })
      ⊎ ((p.attempts < s.max_attempts)
          × ((due_step now i p s).0 ≡ record s { pending = put i (again now s p) s.pending }))
unfolding due_step
due_step-cases now i p s = elim (Bool-cases (ltb now p.next_due)) [
  | inl early ↦ inl (ground arith)
  | inr ready ↦ elim (Bool-cases (leb s.max_attempts p.attempts)) [
    | inl over ↦ inr (inl (ground arith))
    | inr more ↦ inr (inr (ground arith, ground arith))
  ]
]

due_step-IsSender :
    (now : ℕ) (i : Identity) (p : Pending) (s : Sender)
    → get i s.pending ≡ some p
    → IsSender s
    → IsSender (due_step now i p s).0
due_step-IsSender now i p s h v = elim (due_step-cases now i p s) [
  | inl same ↦ rw same v
  | inr (inl over) ↦ rw over (record {
    unique = Unique-delete i s.pending v.unique;
    entries = Entries-delete s.max_attempts i s.pending v.entries;
    pending_le = omega (arith, length-delete i s.pending, v.pending_le);
    exhausted_le = length-take_last-le s.max_pending (s.exhausted ++ (i ∷ []));
  })
  | inr (inr (more, next)) ↦ rw next (record {
    unique = Unique-put i (again now s p) s.pending v.unique;
    entries =
        Entries-put s.max_attempts i (again now s p) s.pending ((v.entries i p h).0, omega arith)
          v.entries;
    pending_le =
        omega (arith, length-put_old i (again now s p) s.pending (λ n. cc (n, h)), v.pending_le);
    exhausted_le = v.exhausted_le;
  })
]

due_loop-IsSender :
    (now : ℕ) (l : Dict Identity Pending) (s : Sender)
    → Unique l
    → Agrees l s.pending
    → IsSender s
    → IsSender (due_loop now l s).0
unfolding due_loop
due_loop-IsSender now [] s u a v = v
due_loop-IsSender now ((i, p) ∷ rest) s u a v =
    due_loop-IsSender now rest (due_step now i p s).0 u.1 (rest-Agrees now i p rest s u a)
      (due_step-IsSender now i p s (head_agrees now i p rest s u a) v)

pub due-IsSender : (s : Sender) (now : ℕ) → IsSender s → IsSender (due s now).0
unfolding due
due-IsSender s now v = due_loop-IsSender now s.pending s v.unique (λ i p h. h) v

-- The methods of a sender as calls, each with the sender that it leaves.
pub data Call : Type 0 where
  queues : Frame → ℕ → Call
  acknowledges : Identity → Call
  cancels : String → Call
  pops : Call
  dues : ℕ → Call

pub after : Sender → Call → Sender
after s (queues f now) = settle s (queue s f now)
after s (acknowledges i) = (acknowledge s i).0
after s (cancels id) = (cancel s id).0
after s pops = (pop_exhausted s).0
after s (dues now) = (due s now).0

pub after_all : Sender → List Call → Sender
after_all s [] = s
after_all s (c ∷ cs) = after_all (after s c) cs

after-IsSender : (s : Sender) (c : Call) → IsSender s → IsSender (after s c)
unfolding after
after-IsSender s (queues f now) v = elim (Result-cases (queue s f now)) [
  | inl (t, e) ↦ rw e (queue-IsSender s t f now v e)
  | inr (x, e) ↦ rw e v
]
after-IsSender s (acknowledges i) v = acknowledge-IsSender s i v
after-IsSender s (cancels id) v = cancel-IsSender s id v
after-IsSender s pops v = pop_exhausted-IsSender s v
after-IsSender s (dues now) v = due-IsSender s now v

-- After any calls on a sender that meets the invariant: each identity is pending once and filed
-- under its frame's own identity, no frame has been tried more than `max_attempts` times, and
-- neither the pending frames nor the exhausted identities outgrow `max_pending`.
pub after_all-IsSender : (s : Sender) (cs : List Call) → IsSender s → IsSender (after_all s cs)
unfolding after_all
after_all-IsSender s [] v = v
after_all-IsSender s (c ∷ cs) v = after_all-IsSender (after s c) cs (after-IsSender s c v)
