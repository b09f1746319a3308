-- ===== src/Link/Lock.antt =====
-- The active transaction of an aircraft link is a lock: the abstract lock, and that the link
-- implements it.
use low_altitude_io_t_system.Common.{
  Bool, Bool-cases, List, Option, Result, Result-cases, String, false, if◌then◌else◌, inl, inr,
  length, list_eq, nat_eq, none, not, pair_eq, refl, some, string_eq, true, ℕ, ◌%◌, ◌&&◌, ◌+◌, ◌==◌,
  ◌^◌, ◌∙◌, ◌≡◌, ◌⊎◌,
}
use low_altitude_io_t_system.Common.Value.{Fields, Value, is_in}
use low_altitude_io_t_system.Common.Dict.{has_key}
use low_altitude_io_t_system.Common.Int.{ℤ}
use low_altitude_io_t_system.Frame.{Frame}
use low_altitude_io_t_system.Link.{
  CloudCommand, Link, accept_response, due_frames, fail_transaction, is_active, set_stage,
  set_terminal,
}
use low_altitude_io_t_system.Link.Send.{
  acquire_and_queue, execute, execute_frames, fragment_type, frames_of, is_some, may_go_on,
  note_fragment, queue_all,
}
use low_altitude_io_t_system.Link.Calls.{Call, after, dues, executes, fails, responds, run_execute}
use low_altitude_io_t_system.Link.Closed.{
  IsClosed, accept_response_keeps, due_frames_keeps, fail_transaction_keeps, fragment_keeps,
}
use low_altitude_io_t_system.Auth.{Bytes}

-- What a call may do to the owner of the lock. Only `execute` takes it, for its own command and
-- where it is free; so it never goes from one transaction to another.
pub data LockStep (c : Call) : Option String → Option String → Type 0 where
  keeps : (o : Option String) → LockStep c o o
  frees : (a : String) → LockStep c (some a) none
  takes : (d : CloudCommand) (now : ℕ) → c ≡ executes d now → LockStep c none (some d.command_id)

-- The owner stays or the lock is freed.
abbrev Releases : Option String → Option String → Type 0
Releases o o' = (o' ≡ o) ⊎ (o' ≡ none)

Releases-trans : (a b c : Option String) → Releases a b → Releases b c → Releases a c
Releases-trans a b c p (inr gone) = inr gone
Releases-trans a b c (inl e) (inl f) = inl (f ∙ e)
Releases-trans a b c (inr e) (inl f) = inr (f ∙ e)

Releases-LockStep : (c : Call) (o o' : Option String) → Releases o o' → LockStep c o o'
Releases-LockStep c o o' (inl e) = rw e (keeps o)
Releases-LockStep c none o' (inr e) = rw e (keeps none)
Releases-LockStep c (some a) o' (inr e) = rw e (frees a)

set_stage-active :
    (stage : String) (l : Link) → (set_stage stage l).active_command_id ≡ l.active_command_id
unfolding set_stage
set_stage-active stage l = elim (Bool-cases (stage == l.stage)) [
  | inl same ↦ rw same refl
  | inr other ↦ rw other refl
]

set_terminal-Releases :
    (id stage error : String) (l : Link)
    → Releases l.active_command_id (set_terminal id stage error l).active_command_id
unfolding set_terminal
set_terminal-Releases id stage error l = elim (Bool-cases (is_active id l.active_command_id)) [
  | inl own ↦ inr (rw own refl)
  | inr other ↦ inl (rw other refl)
]

-- What keeps the owner or frees the lock does so step after step.
released-IsClosed : (o : Option String) → IsClosed (λ (l : Link). Releases o l.active_command_id)
released-IsClosed o = record {
  ends = λ id stage error l v.
      Releases-trans o l.active_command_id (set_terminal id stage error l).active_command_id v
        (set_terminal-Releases id stage error l);
  stages = λ stage l v. rw (set_stage-active stage l) v;
  frees = λ l v. inr refl;
  sends = λ s l good v. v;
  notes = λ transactions commit l v. v;
}

abbrev Held : Link → Link → Type 0
Held l l' = Releases l.active_command_id l'.active_command_id

and_right : (a b : Bool) → (a && b) ≡ true → b ≡ true
and_right true b e = e
and_right false b e = cc

-- What `execute` may make of the lock before its guard is known: keep it, free it, own it.
abbrev Owns : CloudCommand → Option String → Option String → Type 0
Owns c o o' = Releases o o' ⊎ (o' ≡ some c.command_id)

module _ (dumps : Value → Result Bytes) (loads : Bytes → Option Value) (crc32 : Bytes → ℕ)
    (uuid_bytes : String → Bytes) (uuid_text : Bytes → String) (to_str : Value → String)
    (strip : String → String) (int_text float_text : String → Option ℤ)
    (sha256_json : List Fields → Result String) (decimal : ℕ → String) where
  abbrev allowed : CloudCommand → Option String → Bool
  allowed =
      may_go_on dumps loads crc32 uuid_bytes uuid_text to_str strip int_text float_text sha256_json

  Owns-LockStep :
      (c : CloudCommand) (now : ℕ) (o o' : Option String)
      → allowed c o ≡ true
      → Owns c o o'
      → LockStep (executes c now) o o'
  Owns-LockStep c now o o' free (inl r) = Releases-LockStep (executes c now) o o' r
  Owns-LockStep c now none o' free (inr e) = rw e (takes c now refl)
  Owns-LockStep c now (some a) o' free (inr e) =
      let same : c.command_id ≡ a =
        (string_eq.beq_iff c.command_id a).0
          (and_right (is_some (fragment_type c.action)) (c.command_id == a) free) in
      rw (e, same) (keeps (some a))

  acquired-Owns :
      (c : CloudCommand) (frames : List Frame) (now : ℕ) (stage : String) (l : Link)
      (o : Option String)
      → Owns c o
          (acquire_and_queue dumps loads crc32 uuid_bytes uuid_text c.command_id frames now stage
            l).1.active_command_id
  unfolding acquire_and_queue
  acquired-Owns c frames now stage l o =
      let r = queue_all dumps loads crc32 uuid_bytes uuid_text frames now l.sender in
      elim (Result-cases r.0) [
        | inl (u, queued) ↦
            rw (acquire_and_queue, queued)
              (inr (
                set_stage-active stage (record l {
                  sender = r.1;
                  active_command_id = some c.command_id;
                  transaction_id = c.command_id;
                  error = "";
                  next_sequence = (l.next_sequence + length frames) % 2 ^ 32;
                })))
        | inr (x, full) ↦ rw (acquire_and_queue, full) (inl (inr refl))
      ]

  -- The link that `execute` goes on with.
  abbrev before : CloudCommand → Link → Link
  before c l =
      if is_some (fragment_type c.action) && is_in c.command_id l.fragment_transactions
      then record l { active_command_id = none }
      else l

  before-Releases :
      (c : CloudCommand) (l : Link) → Releases l.active_command_id (before c l).active_command_id
  before-Releases c l =
      fragment_keeps (Held l) (released-IsClosed l.active_command_id) c l (inl refl)

  abbrev sent : CloudCommand → ℕ → Link → Result (String × ℕ) × Link
  sent c now l =
      execute_frames dumps loads crc32 uuid_bytes uuid_text to_str strip int_text float_text
        sha256_json c now l
        (frames_of dumps loads crc32 uuid_bytes uuid_text to_str strip int_text float_text
          sha256_json c l)

  execute_frames-Owns :
      (c : CloudCommand) (now : ℕ) (l : Link) (o : Option String)
      → Releases o l.active_command_id
      → Owns c o (sent c now l).1.active_command_id
  unfolding execute_frames
  execute_frames-Owns c now l o kept =
      let r =
        frames_of dumps loads crc32 uuid_bytes uuid_text to_str strip int_text float_text
          sha256_json c l in
      elim (Result-cases r) [
        | inr (x, bad) ↦ rw bad (inl kept)
        | inl ((frames, stage), good) ↦ rw good (
            acquired-Owns c frames now stage
              (note_fragment dumps loads crc32 uuid_bytes uuid_text to_str strip int_text float_text
                sha256_json c l)
              o)
      ]

  pub execute-LockStep :
      (c : CloudCommand) (now : ℕ) (l : Link)
      → LockStep
          (executes c now)
          l.active_command_id
          (run_execute dumps loads crc32 uuid_bytes uuid_text to_str strip int_text float_text
            sha256_json decimal c now l).1.active_command_id
  unfolding execute
  execute-LockStep c now l = elim (Bool-cases (c.target == "aircraft")) [
    | inr other ↦ rw other (keeps l.active_command_id)
    | inl here ↦ elim (Bool-cases (allowed c l.active_command_id)) [
      | inr busy ↦ rw (here, busy) (keeps l.active_command_id)
      | inl free ↦
          elim (Bool-cases (
            has_key c.command_id (before c l).terminal && not (is_some (fragment_type c.action)))) [
              | inl ended ↦
                  rw (here, free, ended)
                    (Releases-LockStep (executes c now) l.active_command_id
                      (before c l).active_command_id (before-Releases c l))
              | inr live ↦
                  rw (here, free, live)
                    (Owns-LockStep c now l.active_command_id
                      (sent c now (before c l)).1.active_command_id free
                      (execute_frames-Owns c now (before c l) l.active_command_id
                        (before-Releases c l)))
            ]
    ]
  ]

  -- Every call on a link is a step of the lock: the active transaction stays, or it is freed, or
  -- `execute` takes the lock, which was free, for the transaction of its own command.
  pub after-LockStep :
      (c : Call) (l : Link)
      → LockStep c l.active_command_id
          (after dumps loads crc32 uuid_bytes uuid_text to_str strip int_text float_text sha256_json
            decimal c l).active_command_id
  unfolding after
  after-LockStep (executes c now) l = execute-LockStep c now l
  after-LockStep (dues now) l =
      Releases-LockStep (dues now) l.active_command_id
        (due_frames decimal now l).1.active_command_id
        (due_frames_keeps (Held l) (released-IsClosed l.active_command_id) decimal now l (inl refl))
  after-LockStep (responds f) l =
      Releases-LockStep (responds f) l.active_command_id (accept_response f l).1.active_command_id
        (accept_response_keeps (Held l) (released-IsClosed l.active_command_id) f l (inl refl))
  after-LockStep (fails stage error given) l =
      Releases-LockStep (fails stage error given) l.active_command_id
        (fail_transaction stage error given l).1.active_command_id
        (fail_transaction_keeps (Held l) (released-IsClosed l.active_command_id) stage error given l
          (inl refl))
