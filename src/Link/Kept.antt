-- ===== src/Link/Kept.antt =====
-- Every call on an aircraft link keeps its invariant.
use low_altitude_io_t_system.Common.{
  Bool-cases, List, Option, Result, Result-cases, String, [], arith, err, if◌then◌else◌, inl, inr,
  length, list_eq, nat_eq, none, not, ok, pair_eq, refl, some, string_eq, ℕ, ◌%◌, ◌&&◌, ◌+◌, ◌==◌,
  ◌^◌, ◌∷◌,
}
use low_altitude_io_t_system.Common.Value.{Fields, Value, is_in}
use low_altitude_io_t_system.Common.Dict.{has_key}
use low_altitude_io_t_system.Common.Int.{ℤ}
use low_altitude_io_t_system.Frame.{Frame}
use low_altitude_io_t_system.Link.Calls.{
  Call, after, after_all, dues, executes, fails, responds, run_execute,
}
use low_altitude_io_t_system.Transport.Sender.{Sender, cancel, queue}
use low_altitude_io_t_system.Transport.Sender.Bounds.{IsSender, cancel-IsSender, queue-IsSender}
use low_altitude_io_t_system.Link.{CloudCommand, Link}
use low_altitude_io_t_system.Link.Bounds.{IsLink, IsLink-IsClosed, IsLink-kept, set_stage-IsLink}
use low_altitude_io_t_system.Link.Send.{
  acquire_and_queue, execute, execute_frames, fragment_type, frames_of, is_some, may_go_on,
  note_fragment, queue_all,
}
use low_altitude_io_t_system.Link.Closed.{
  accept_response_keeps, due_frames_keeps, fail_transaction_keeps, fragment_keeps,
}
use low_altitude_io_t_system.Auth.{Bytes}

module _ (dumps : Value → Result Bytes) (loads : Bytes → Option Value) (crc32 : Bytes → ℕ)
    (uuid_bytes : String → Bytes) (uuid_text : Bytes → String) (to_str : Value → String)
    (strip : String → String) (int_text float_text : String → Option ℤ)
    (sha256_json : List Fields → Result String) (decimal : ℕ → String) where
  queue_all-IsSender :
      (fs : List Frame) (now : ℕ) (s : Sender)
      → IsSender s
      → IsSender (queue_all dumps loads crc32 uuid_bytes uuid_text fs now s).1
  unfolding queue_all
  queue_all-IsSender [] now s v = v
  queue_all-IsSender (f ∷ fs) now s v = elim (Result-cases (queue s f now)) [
    | inr (x, full) ↦ rw (queue_all, full) v
    | inl (s', queued) ↦
        rw (queue_all, queued) (queue_all-IsSender fs now s' (queue-IsSender s s' f now v queued))
  ]

  acquire_and_queue-IsLink :
      (id : String) (frames : List Frame) (now : ℕ) (stage : String) (l : Link)
      → IsLink l
      → IsLink (acquire_and_queue dumps loads crc32 uuid_bytes uuid_text id frames now stage l).1
  unfolding acquire_and_queue
  acquire_and_queue-IsLink id frames now stage l v =
      let r = queue_all dumps loads crc32 uuid_bytes uuid_text frames now l.sender in
      let good = queue_all-IsSender frames now l.sender v.sender in
      elim (Result-cases r.0) [
        | inl (u, queued) ↦
            let l' : Link = record l {
              sender = r.1;
              active_command_id = some id;
              transaction_id = id;
              error = "";
              next_sequence = (l.next_sequence + length frames) % 2 ^ 32;
            } in
            rw (acquire_and_queue, queued)
              (set_stage-IsLink stage l' (IsLink-kept l l' good refl refl (omega arith) v))
        | inr (x, full) ↦
            rw (acquire_and_queue, full)
              (IsLink-kept l (record l { sender = (cancel r.1 id).0; active_command_id = none })
                (cancel-IsSender r.1 id good) refl refl (omega arith) v)
      ]

  note_fragment-IsLink :
      (c : CloudCommand) (l : Link)
      → IsLink l
      → IsLink (
          note_fragment dumps loads crc32 uuid_bytes uuid_text to_str strip int_text float_text
            sha256_json c l)
  note_fragment-IsLink c l v = elim (Bool-cases (is_some (fragment_type c.action))) [
    | inr other ↦ rw other v
    | inl more ↦ rw more (IsLink-IsClosed.notes _ _ l v)
  ]

  execute_frames-IsLink :
      (c : CloudCommand) (now : ℕ) (l : Link) (r : Result (List Frame × String))
      → IsLink l
      → IsLink
          (execute_frames dumps loads crc32 uuid_bytes uuid_text to_str strip int_text float_text
            sha256_json c now l r).1
  unfolding execute_frames
  execute_frames-IsLink c now l (err x) v = v
  execute_frames-IsLink c now l (ok (frames, stage)) v =
      acquire_and_queue-IsLink c.command_id frames now stage
        (note_fragment dumps loads crc32 uuid_bytes uuid_text to_str strip int_text float_text
          sha256_json c l)
        (note_fragment-IsLink c l v)

  abbrev before : CloudCommand → Link → Link
  before c l =
      if is_some (fragment_type c.action) && is_in c.command_id l.fragment_transactions
      then record l { active_command_id = none }
      else l

  before-IsLink : (c : CloudCommand) (l : Link) → IsLink l → IsLink (before c l)
  before-IsLink = fragment_keeps IsLink IsLink-IsClosed

  execute-IsLink :
      (c : CloudCommand) (now : ℕ) (l : Link)
      → IsLink l
      → IsLink
          (run_execute dumps loads crc32 uuid_bytes uuid_text to_str strip int_text float_text
            sha256_json decimal c now l).1
  unfolding execute
  execute-IsLink c now l v = elim (Bool-cases (c.target == "aircraft")) [
    | inr other ↦ rw other v
    | inl here ↦
        elim (Bool-cases (
          may_go_on dumps loads crc32 uuid_bytes uuid_text to_str strip int_text float_text
            sha256_json c l.active_command_id)) [
              | inr busy ↦ rw (here, busy) v
              | inl free ↦
                  elim (Bool-cases (
                    has_key c.command_id (before c l).terminal
                    && not (is_some (fragment_type c.action)))) [
                      | inl ended ↦ rw (here, free, ended) (before-IsLink c l v)
                      | inr live ↦
                          rw (here, free, live)
                            (execute_frames-IsLink c now (before c l)
                              (frames_of dumps loads crc32 uuid_bytes uuid_text to_str strip
                                int_text float_text sha256_json c (before c l))
                              (before-IsLink c l v))
                    ]
            ]
  ]

  abbrev run_after : Call → Link → Link
  run_after =
      after dumps loads crc32 uuid_bytes uuid_text to_str strip int_text float_text sha256_json
        decimal

  after-IsLink : (c : Call) (l : Link) → IsLink l → IsLink (run_after c l)
  unfolding after
  after-IsLink (executes c now) l v = execute-IsLink c now l v
  after-IsLink (dues now) l v = due_frames_keeps IsLink IsLink-IsClosed decimal now l v
  after-IsLink (responds f) l v = accept_response_keeps IsLink IsLink-IsClosed f l v
  after-IsLink (fails stage error given) l v =
      fail_transaction_keeps IsLink IsLink-IsClosed stage error given l v

  -- Any calls keep the invariant of a link: its sender's invariant holds, each ended transaction
  -- stands once in the history, which is not longer than its limit, and the history's revisions
  -- rise in its order, none above the link's own.
  pub after_all-IsLink :
      (cs : List Call) (l : Link)
      → IsLink l
      → IsLink (
          after_all dumps loads crc32 uuid_bytes uuid_text to_str strip int_text float_text
            sha256_json decimal cs l)
  unfolding after_all
  after_all-IsLink [] l v = v
  after_all-IsLink (c ∷ cs) l v = after_all-IsLink cs (run_after c l) (after-IsLink c l v)
