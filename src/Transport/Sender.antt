-- ===== src/Transport/Sender.antt =====
-- shared_protocol/transport.py, class RetrySender. Times are whole ticks of the caller's clock.
pub mod Due
pub mod Bounds
pub mod Retries
use low_altitude_io_t_system.Common.{
  ℕ, suc, ◌+◌, Bool, true, false, Option, none, some, List, [], ◌∷◌, ◌++◌, String, leb, ltb, length,
  take_last, Result, ok, err, value_error, bind, require, ◌==◌, string_eq, nat_eq, pair_eq,
  if◌then◌else◌, not,
}
use low_altitude_io_t_system.Common.Dict.{Dict, get, put, delete, has_key}
use low_altitude_io_t_system.Frame.{Frame}

-- `(command_id, sequence)`
abbrev pub Identity : Type 0
Identity = String × ℕ

abbrev pub identity : Frame → Identity
identity f = (f.command_id, f.sequence)

pub record Pending : Type 0 where
  pub frame : Frame
  pub attempts : ℕ
  pub next_due : ℕ

pub record Sender : Type 0 where
  pub max_attempts : ℕ
  pub retry_interval : ℕ
  pub max_pending : ℕ
  pub pending : Dict Identity Pending
  pub exhausted : List Identity

unfoldable pub make_sender : ℕ → ℕ → ℕ → Result Sender
make_sender max_attempts retry_interval max_pending =
    bind (require (leb 1 max_attempts) (value_error "max_attempts must be positive")) λ _.
      bind (require (leb 1 retry_interval) (value_error "retry_interval must be positive")) λ _.
        bind (require (leb 1 max_pending) (value_error "max_pending must be positive")) λ _.
          ok (record {
            max_attempts = max_attempts;
            retry_interval = retry_interval;
            max_pending = max_pending;
            pending = [];
            exhausted = [];
          })

unfoldable pub queue : Sender → Frame → ℕ → Result Sender
unfolding has_key
queue s frame now =
    bind
      (require (not (has_key (identity frame) s.pending))
        (value_error "command and sequence are already pending"))
      λ _.
        bind
          (require (ltb (length s.pending) s.max_pending)
            (value_error "pending retry limit reached"))
          λ _.
            let p : Pending = record { frame = frame; attempts = 0; next_due = now } in
            ok (record s { pending = put (identity frame) p s.pending })

unfoldable pub acknowledge : Sender → Identity → Sender × Bool
unfolding has_key
acknowledge s i = (record s { pending = delete i s.pending }, has_key i s.pending)

-- The identities of one command, in the order of the dict.
unfoldable pub of_command : String → Dict Identity Pending → List Identity
of_command id [] = []
of_command id ((i, p) ∷ rest) =
    let more = of_command id rest in if i.0 == id then i ∷ more else more

unfoldable pub delete_all : List Identity → Dict Identity Pending → Dict Identity Pending
delete_all [] d = d
delete_all (i ∷ is) d = delete_all is (delete i d)

unfoldable pub cancel : Sender → String → Sender × List Identity
unfolding of_command delete_all
cancel s id =
    let cancelled = of_command id s.pending in
    (record s { pending = delete_all cancelled s.pending }, cancelled)

unfoldable pub pop_exhausted : Sender → Sender × List Identity
pop_exhausted s = (record s { exhausted = [] }, s.exhausted)

-- One round of the loop of `due`: nothing, the last attempt is over, or one more attempt.
unfoldable pub due_step : ℕ → Identity → Pending → Sender → Sender × List Frame
due_step now i p s =
    if ltb now p.next_due
    then (s, [])
    else if leb s.max_attempts p.attempts
    then (
      record s {
        pending = delete i s.pending;
        exhausted = take_last s.max_pending (s.exhausted ++ (i ∷ []));
      },
      [],
    )
    else let again : Pending = record p {
      attempts = p.attempts + 1;
      next_due = now + s.retry_interval;
    } in
      (record s { pending = put i again s.pending }, p.frame ∷ [])

unfoldable pub due_loop : ℕ → Dict Identity Pending → Sender → Sender × List Frame
due_loop now [] s = (s, [])
due_loop now ((i, p) ∷ rest) s =
    let (s', sent) = due_step now i p s in
    let (s'', more) = due_loop now rest s' in (s'', sent ++ more)

-- `due` runs over a copy of the items that were pending when it began.
unfoldable pub due : Sender → ℕ → Sender × List Frame
unfolding due_loop due_step
due s now = due_loop now s.pending s
