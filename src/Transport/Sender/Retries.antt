-- ===== src/Transport/Sender/Retries.antt =====
-- How often a pending frame is sent over many calls of `due`.
use low_altitude_io_t_system.Common.{
  ℕ, ◌+◌, ◌-◌, ◌≤◌, ◌<◌, ◌≡◌, refl, sym, subst, ◌∙◌, Option, none, some, List, [], ◌∷◌, ◌++◌,
  length, string_eq, nat_eq, pair_eq, arith, beq_refl,
}
use low_altitude_io_t_system.Common.Dict.{get, get-delete}
use low_altitude_io_t_system.Frame.{Frame}
use low_altitude_io_t_system.Transport.Sender.{Identity, Pending, Sender, acknowledge, due}
use low_altitude_io_t_system.Transport.Sender.Due.{
  advance, transmits, or_else, due_loop-get, due_loop-sends, sends, sends-append, sent_of,
  SameLimits, due_loop-SameLimits,
}
use low_altitude_io_t_system.Transport.Sender.Bounds.{IsSender, due-IsSender, acknowledge-IsSender}

-- One call of `due` sends each pending frame that is due and has an attempt left exactly once, and
-- nothing else; what stays pending is each entry's own next state.
pub due_exact :
    (s : Sender) (now : ℕ) (i : Identity)
    → IsSender s
    → (get i (due s now).0.pending ≡ or_else (get i s.pending) none (advance s now))
      × (sends i (due s now).1 ≡ sent_of s now (get i s.pending))
unfolding due
due_exact s now i v = (
  due_loop-get now s.pending s i v.unique (λ j p h. h) ∙ drop_default (get i s.pending),
  due_loop-sends now s.pending s i v.unique (λ j p h. (v.entries j p h).0),
)
  where
    drop_default :
        (o : Option Pending) → or_else o o (advance s now) ≡ or_else o none (advance s now)
    drop_default none = refl
    drop_default (some p) = refl

pub due-SameLimits : (s : Sender) (now : ℕ) → SameLimits (due s now).0 s
unfolding due
due-SameLimits s now = due_loop-SameLimits now s.pending s

-- Calls of `due` at the given times, with all that they send.
pub due_all : Sender → List ℕ → Sender × List Frame
due_all s [] = (s, [])
due_all s (t ∷ ts) =
    let (s', sent) = due s t in let (s'', more) = due_all s' ts in (s'', sent ++ more)

-- The attempts that a frame has left.
abbrev pub left : Sender → Option Pending → ℕ
left s none = 0
left s (some p) = s.max_attempts - p.attempts

-- Sending takes an attempt off.
spent :
    (s t : Sender) (now : ℕ) (o : Option Pending)
    → SameLimits t s
    → sent_of s now o + left t (or_else o none (advance s now)) ≤ left s o
unfolding advance transmits
spent s t now none h = omega arith
spent s t now (some p) h = ground arith

-- Over any calls of `due`, a frame goes out at most as often as it has attempts left, so never more
-- than `max_attempts` times since it was queued.
never_oversent :
    (s : Sender) (ts : List ℕ) (i : Identity)
    → IsSender s
    → sends i (due_all s ts).1 ≤ left s (get i s.pending)
unfolding due_all
never_oversent s [] i v = unfold sends in omega arith
never_oversent s (t ∷ ts) i v =
    let s' = (due s t).0 in
    let (next, sent) = due_exact s t i v in
    let later = never_oversent s' ts i (due-IsSender s t v) in
    omega (
      arith,
      sends-append i (due s t).1 (due_all s' ts).1,
      sent,
      rw next at later,
      spent s s' t (get i s.pending) (due-SameLimits s t),
    )

-- Once a frame is acknowledged no call of `due` sends it.
acknowledged_silent :
    (s : Sender) (ts : List ℕ) (i : Identity)
    → IsSender s
    → sends i (due_all (acknowledge s i).0 ts).1 ≡ 0
acknowledged_silent s ts i v =
    let gone : get i (acknowledge s i).0.pending ≡ none =
      unfold acknowledge in get-delete i i s.pending ∙ rw (beq_refl i) in
    let bound = never_oversent (acknowledge s i).0 ts i (acknowledge-IsSender s i v) in
    omega (arith, rw gone at bound)

-- Each call comes no earlier than the frame is due again.
abbrev pub Spaced : ℕ → ℕ → List ℕ → Type 0
Spaced interval first [] = Unit {0}
Spaced interval first (t ∷ ts) = (first ≤ t) × Spaced interval (t + interval) ts

-- A call at which the frame is due: the last attempt is over, or one more is made.
due_gives_up :
    (s : Sender) (t : ℕ) (i : Identity) (p : Pending)
    → IsSender s
    → get i s.pending ≡ some p
    → p.next_due ≤ t
    → s.max_attempts ≤ p.attempts
    → (sends i (due s t).1 ≡ 0) × (get i (due s t).0.pending ≡ none)
unfolding advance transmits
due_gives_up s t i p v h ready over =
    let (next, sent) = due_exact s t i v in
    (rw h at sent ∙ ground arith, rw h at next ∙ ground arith)

due-sends :
    (s : Sender) (t : ℕ) (i : Identity) (p : Pending)
    → IsSender s
    → get i s.pending ≡ some p
    → p.next_due ≤ t
    → p.attempts < s.max_attempts
    → (sends i (due s t).1 ≡ 1)
      × (get i (due s t).0.pending
          ≡ some (record p { attempts = p.attempts + 1; next_due = t + s.retry_interval }))
unfolding advance transmits
due-sends s t i p v h ready more =
    let (next, sent) = due_exact s t i v in
    (rw h at sent ∙ ground arith, rw h at next ∙ ground arith)

-- Calls of `due` that are far enough apart send a pending frame each time until its attempts are
-- used up, and the call after the last attempt gives it up.
pub retries_exact :
    (s : Sender) (ts : List ℕ) (i : Identity) (p : Pending)
    → IsSender s
    → get i s.pending ≡ some p
    → Spaced s.retry_interval p.next_due ts
    → length ts ≡ s.max_attempts - p.attempts + 1
    → (sends i (due_all s ts).1 ≡ s.max_attempts - p.attempts)
      × (get i (due_all s ts).0.pending ≡ none)
unfolding due_all
retries_exact s [] i p v h sp n = absurd (omega arith)
retries_exact s (t ∷ []) i p v h sp n =
    let (sent, gone) = due_gives_up s t i p v h sp.0 (omega (arith, (v.entries i p h).1)) in
    (sends-append i (due s t).1 [] ∙ unfold sends in omega (arith, sent), gone)
retries_exact s (t ∷ u ∷ ts) i p v h sp n =
    let s' = (due s t).0 in
    let p' : Pending = record p { attempts = p.attempts + 1; next_due = t + s.retry_interval } in
    let (attempts_same, interval_same, _) = due-SameLimits s t in
    let (sent, next) = due-sends s t i p v h sp.0 (omega arith) in
    let (more, gone) =
      retries_exact s' (u ∷ ts) i p' (due-IsSender s t v) next
        (subst (λ (r : ℕ). Spaced r (t + s.retry_interval) (u ∷ ts)) (sym interval_same) sp.1)
        (omega (arith, attempts_same)) in
    (
      sends-append i (due s t).1 (due_all s' (u ∷ ts)).1 ∙ omega (arith, sent, more, attempts_same),
      gone,
    )
