-- ===== src/Auth/Replay.antt =====
-- `_accept_counter` over many sessions: replays, and the bound on remembered sessions.
use low_altitude_io_t_system.Common.{
  ℕ, ◌-◌, ◌≤◌, ◌<◌, ◌≡◌, refl, ap, ◌∙◌, ◌≢◌, ◌⊎◌, inl, inr, List, [], ◌∷◌, length, String, none,
  some, Option-cases, Bool-cases, Result, settle, ok, err, replay_error, Result-cases, nat_eq,
  list_eq, ◌==◌, beq_refl, if◌then◌else◌, arith,
}
use low_altitude_io_t_system.Common.Dict.{
  get, put_last, get-put_last, length-put_last_old, Unique, Unique-put_last, get-evict,
  Unique-evict, evict, length-evict,
}
use low_altitude_io_t_system.Common.Bits.{bit}
use low_altitude_io_t_system.Auth.{Bytes, Session, Codec, accept_counter, receive}
use low_altitude_io_t_system.Auth.Window.{
  Seen, receive-Seen, receive-Seen_self, receive-Seen_refused,
}

-- Accepting a counter never leaves more sessions than `max_sessions`.
pub accept_counter-sessions_le :
    (c c' : Codec) (n : Bytes) (k : ℕ)
    → length c.sessions ≤ c.max_sessions
    → accept_counter c n k ≡ ok c'
    → length c'.sessions ≤ c'.max_sessions
unfolding accept_counter
accept_counter-sessions_le c c' n k v e = elim (Option-cases (get n c.sessions)) [
  | inl miss ↦ ground (
    arith,
    length-evict c.max_sessions (put_last n (record { highest = k; bitmap = 1 }) c.sessions),
  )
  | inr (s, hit) ↦ elim (Result-cases (receive c.window s k)) [
    | inl (t, took) ↦ ground (arith, length-put_last_old n t c.sessions (λ p. cc (p, hit)))
    | inr (x, refused) ↦ ground arith
  ]
]

-- The session of `n` is remembered and has seen `k`.
abbrev pub Remembers : Codec → Bytes → ℕ → Type 0
Remembers c n k = (s : Session) × (get n c.sessions ≡ some s) × Seen c.window s k

accept-window :
    (c c' : Codec) (n : Bytes) (k : ℕ)
    → accept_counter c n k ≡ ok c'
    → (c'.window ≡ c.window) × (c'.max_sessions ≡ c.max_sessions)
unfolding accept_counter
accept-window c c' n k e = ground arith

accept-old :
    (c c' : Codec) (n : Bytes) (k : ℕ) (s : Session)
    → get n c.sessions ≡ some s
    → accept_counter c n k ≡ ok c'
    → (t : Session) × (receive c.window s k ≡ ok t) × (c'.sessions ≡ put_last n t c.sessions)
unfolding accept_counter
accept-old c c' n k s hit e = elim (Result-cases (receive c.window s k)) [
  | inl (t, took) ↦ (t, took, ground arith)
  | inr (x, refused) ↦ absurd (ground arith)
]

-- The one who delivers datagrams: a refused counter changes nothing.
abbrev pub deliver : Codec → Bytes × ℕ → Codec
deliver c (n, k) = settle c (accept_counter c n k)

pub run : Codec → List (Bytes × ℕ) → Codec
run c [] = c
run c (e ∷ es) = run (deliver c e) es

-- The session of `n` is never evicted along the run.
abbrev pub Retained : Bytes → Codec → List (Bytes × ℕ) → Type 0
Retained n c [] = Unit {0}
Retained n c (e ∷ es) = (get n (deliver c e).sessions ≢ none) × Retained n (deliver c e) es

abbrev fresh_session : ℕ → Session
fresh_session k = record { highest = k; bitmap = 1 }

-- The two ways in which a counter is accepted: a new session, or the window of an old one.
pub accept_cases :
    (c c' : Codec) (n : Bytes) (k : ℕ)
    → accept_counter c n k ≡ ok c'
    → ((get n c.sessions ≡ none)
        × (c' ≡ record c {
          sessions = evict c.max_sessions (put_last n (fresh_session k) c.sessions);
        }))
      ⊎ ((s : Session) × (t : Session) × (get n c.sessions ≡ some s)
          × (receive c.window s k ≡ ok t)
          × (c' ≡ record c { sessions = put_last n t c.sessions }))
unfolding accept_counter
accept_cases c c' n k e = elim (Option-cases (get n c.sessions)) [
  | inl miss ↦ inl (miss, ground arith)
  | inr (s, hit) ↦ elim (Result-cases (receive c.window s k)) [
    | inl (t, took) ↦ inr (s, t, hit, took, ground arith)
    | inr (x, refused) ↦ absurd (ground arith)
  ]
]

pub accept_counter-Unique :
    (c c' : Codec) (n : Bytes) (k : ℕ)
    → Unique c.sessions
    → accept_counter c n k ≡ ok c'
    → Unique c'.sessions
accept_counter-Unique c c' n k u e = elim (accept_cases c c' n k e) [
  | inl (_, q) ↦
      rw q (Unique-evict c.max_sessions _ (Unique-put_last n (fresh_session k) c.sessions u))
  | inr (s, t, _, _, q) ↦ rw q (Unique-put_last n t c.sessions u)
]

-- The entry of `n` after an accepted counter, if it is still there.
entry_after :
    (c c' : Codec) (m n : Bytes) (j : ℕ)
    → Unique c.sessions
    → accept_counter c m j ≡ ok c'
    → get n c'.sessions ≢ none
    → ((get m c.sessions ≡ none)
        × (get n c'.sessions ≡ (if m == n then some (fresh_session j) else get n c.sessions)))
      ⊎ ((s : Session) × (t : Session) × (get m c.sessions ≡ some s)
          × (receive c.window s j ≡ ok t)
          × (get n c'.sessions ≡ (if m == n then some t else get n c.sessions)))
entry_after c c' m n j u e kept = elim (accept_cases c c' m j e) [
  | inl (miss, q) ↦ inl (
    miss,
    rw (ap (λ (d : Codec). get n d.sessions) q) (
        get-evict c.max_sessions n _ (Unique-put_last m (fresh_session j) c.sessions u)
          (rw (ap (λ (d : Codec). get n d.sessions) q) at kept)
        ∙ get-put_last m n (fresh_session j) c.sessions),
  )
  | inr (s, t, hit, took, q) ↦
      inr (
        s,
        t,
        hit,
        took,
        rw (ap (λ (d : Codec). get n d.sessions) q) (get-put_last m n t c.sessions),
      )
]

fresh-Seen : (w k : ℕ) → Seen w (fresh_session k) k
fresh-Seen w k =
    let zero_distance : k - k ≡ 0 = omega arith in
    (omega arith, inr (rw zero_distance (unfold bit in refl)))

accept-Remembers_self :
    (c c' : Codec) (n : Bytes) (k : ℕ)
    → 0 < c.window
    → Unique c.sessions
    → accept_counter c n k ≡ ok c'
    → get n c'.sessions ≢ none
    → Remembers c' n k
accept-Remembers_self c c' n k pos u e kept =
    let (w, _) = accept-window c c' n k e in
    elim (entry_after c c' n n k u e kept) [
      | inl (miss, q) ↦ (fresh_session k, rw (beq_refl n) at q, fresh-Seen c'.window k)
      | inr (s, t, hit, took, q) ↦
          (t, rw (beq_refl n) at q, rw w (receive-Seen_self c.window pos s t k took))
    ]

-- A later counter, of this session or of another, does not make it forget.
accept-Remembers :
    (c c' : Codec) (m n : Bytes) (j k : ℕ)
    → 0 < c.window
    → Unique c.sessions
    → accept_counter c m j ≡ ok c'
    → get n c'.sessions ≢ none
    → Remembers c n k
    → Remembers c' n k
accept-Remembers c c' m n j k pos u e kept (r, known, seen) =
    let (w, _) = accept-window c c' m j e in
    elim (Bool-cases (m == n)) [
      | inr other ↦ elim (entry_after c c' m n j u e kept) [
        | inl (miss, q) ↦ (r, rw other at q ∙ known, rw w seen)
        | inr (s, t, hit, took, q) ↦ (r, rw other at q ∙ known, rw w seen)
      ]
      | inl same ↦
          let mn : m ≡ n = (list_eq.beq_iff m n).0 same in
          elim (entry_after c c' m n j u e kept) [
            | inl (miss, q) ↦ absurd (cc (ap (λ (b : Bytes). get b c.sessions) mn, miss, known))
            | inr (s, t, hit, took, q) ↦
                let taken : receive c.window r j ≡ ok t =
                  cc (ap (λ (b : Bytes). get b c.sessions) mn, hit, known, took) in
                (t, rw same at q, rw w (receive-Seen c.window pos r t j k taken seen))
          ]
    ]

-- The receiver's state between two datagrams.
pub record IsCodec (c : Codec) : Type 0 where
  pub window_pos : 0 < c.window
  pub unique : Unique c.sessions

deliver-IsCodec : (c : Codec) (e : Bytes × ℕ) → IsCodec c → IsCodec (deliver c e)
deliver-IsCodec c (n, k) v = go (accept_counter c n k) refl
  where
    go : (r : Result Codec) → accept_counter c n k ≡ r → IsCodec (settle c r)
    go (ok c') e = record {
      window_pos = rw ((accept-window c c' n k e).0) v.window_pos;
      unique = accept_counter-Unique c c' n k v.unique e;
    }
    go (err x) e = v

deliver-Remembers :
    (c : Codec) (e : Bytes × ℕ) (n : Bytes) (k : ℕ)
    → IsCodec c
    → get n (deliver c e).sessions ≢ none
    → Remembers c n k
    → Remembers (deliver c e) n k
deliver-Remembers c (m, j) n k v = go (accept_counter c m j) refl
  where
    go :
        (r : Result Codec)
        → accept_counter c m j ≡ r
        → get n (settle c r).sessions ≢ none
        → Remembers c n k
        → Remembers (settle c r) n k
    go (ok c') e kept r = accept-Remembers c c' m n j k v.window_pos v.unique e kept r
    go (err x) e kept r = r

run-Remembers :
    (c : Codec) (es : List (Bytes × ℕ)) (n : Bytes) (k : ℕ)
    → IsCodec c
    → Retained n c es
    → Remembers c n k
    → Remembers (run c es) n k
unfolding run
run-Remembers c [] n k v kept r = r
run-Remembers c (e ∷ es) n k v kept r =
    run-Remembers (deliver c e) es n k (deliver-IsCodec c e v) kept.1
      (deliver-Remembers c e n k v kept.0 r)

remembered_refused :
    (c : Codec) (n : Bytes) (k : ℕ)
    → 0 < c.window
    → Remembers c n k
    → (x : String) × (accept_counter c n k ≡ err (replay_error x))
unfolding accept_counter
remembered_refused c n k pos (s, known, seen) =
    let (x, refused) = receive-Seen_refused c.window pos s k seen in
    (x, rw (known, accept_counter) (rw refused))

run-IsCodec : (c : Codec) (es : List (Bytes × ℕ)) → IsCodec c → IsCodec (run c es)
unfolding run
run-IsCodec c [] v = v
run-IsCodec c (e ∷ es) v = run-IsCodec (deliver c e) es (deliver-IsCodec c e v)

-- Once a counter of a session was accepted, then after any further datagrams, of any sessions and
-- whether accepted or refused, the same counter raises `ReplayError`, as long as the session itself
-- was never evicted.
pub accepted_once :
    (c c' : Codec) (n : Bytes) (k : ℕ) (es : List (Bytes × ℕ))
    → IsCodec c
    → accept_counter c n k ≡ ok c'
    → get n c'.sessions ≢ none
    → Retained n c' es
    → (x : String) × (accept_counter (run c' es) n k ≡ err (replay_error x))
accepted_once c c' n k es v e kept retained =
    let v' : IsCodec c' = record {
      window_pos = rw ((accept-window c c' n k e).0) v.window_pos;
      unique = accept_counter-Unique c c' n k v.unique e;
    } in
    remembered_refused (run c' es) n k ((run-IsCodec c' es v').window_pos) (
      run-Remembers c' es n k v' retained
        (accept-Remembers_self c c' n k v.window_pos v.unique e kept))
