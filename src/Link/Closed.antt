-- ===== src/Link/Closed.antt =====
-- What holds of an aircraft link whatever small step it makes holds after each of its calls.
use low_altitude_io_t_system.Common.{
  Bool, Bool-cases, List, Option, Result, Result-cases, String, [], false, if◌then◌else◌, inl, inr,
  leb, length, list_eq, nat_eq, none, not, ok, pair_eq, some, string_eq, true, ℕ, ◌&&◌, ◌==◌, ◌||◌,
  ◌∷◌,
}
use low_altitude_io_t_system.Common.Value.{is_in, nat_field, str_field}
use low_altitude_io_t_system.Common.Dict.{has_key}
use low_altitude_io_t_system.Frame.{Frame, MessageType, ack, nack}
use low_altitude_io_t_system.Transport.Sender.{Identity, Sender, acknowledge, due, pop_exhausted}
use low_altitude_io_t_system.Transport.Sender.Bounds.{
  IsSender, acknowledge-IsSender, due-IsSender, pop_exhausted-IsSender,
}
use low_altitude_io_t_system.Link.{
  CloudCommand, Link, accept_ack, accept_nack, accept_response, accept_typed,
  acknowledge_transaction, discard_id, due_frames, end_exhausted, fail_transaction, given_or,
  is_active, set_stage, set_terminal, still_wanted,
}
use low_altitude_io_t_system.Link.Send.{fragment_type, is_some}
use low_altitude_io_t_system.Inbox.{clip}

-- A property that the steps keep of which the calls are made.
pub record IsClosed (P : Link → Type 0) : Type 0 where
  pub ends : (id stage error : String) (l : Link) → P l → P (set_terminal id stage error l)
  pub stages : (stage : String) (l : Link) → P l → P (set_stage stage l)
  pub frees : (l : Link) → P l → P (record l { active_command_id = none })
  pub sends :
      (s : Sender) (l : Link) → (IsSender l.sender → IsSender s) → P l → P (record l { sender = s })
  pub notes :
      (transactions commit : List String) (l : Link)
      → P l
      → P (record l { fragment_transactions = transactions; fragment_commit = commit })

module _ (P : Link → Type 0) (k : IsClosed P) where
  end_exhausted_keeps :
      (decimal : ℕ → String) (is : List Identity) (l : Link) → P l → P (end_exhausted decimal is l)
  unfolding end_exhausted
  end_exhausted_keeps decimal [] l v = v
  end_exhausted_keeps decimal ((id, sequence) ∷ rest) l v =
      end_exhausted_keeps decimal rest _ (k.ends id "retry_exhausted" _ l v)

  pub due_frames_keeps :
      (decimal : ℕ → String) (now : ℕ) (l : Link) → P l → P (due_frames decimal now l).1
  unfolding due_frames
  due_frames_keeps decimal now l v =
      let (sender, frames) = due l.sender now in
      let (sender', exhausted) = pop_exhausted sender in
      by_lists exhausted frames (record l { sender = sender' })
        (k.sends sender' l (λ w. pop_exhausted-IsSender sender (due-IsSender l.sender now w)) v)
    where
      by_lists :
          (is : List Identity) (fs : List Frame) (l' : Link)
          → P l'
          → P
              (elim is as (λ _. List Frame × Link) [
                | [] ↦ elim fs as (λ _. List Frame × Link) [
                  | [] ↦ ([], l')
                  | f ∷ gs ↦ (f ∷ gs, set_stage "awaiting_ack" l')
                ]
                | i ∷ js ↦ (
                  still_wanted (end_exhausted decimal (i ∷ js) l').terminal fs,
                  end_exhausted decimal (i ∷ js) l',
                )
              ]).1
      by_lists [] [] l' w = w
      by_lists [] (f ∷ gs) l' w = k.stages "awaiting_ack" l' w
      by_lists (i ∷ js) fs l' w = end_exhausted_keeps decimal (i ∷ js) l' w

  acknowledge_transaction_keeps : (id : String) (l : Link) → P l → P (acknowledge_transaction id l)
  unfolding acknowledge_transaction
  acknowledge_transaction_keeps id l v =
      elim (Bool-cases
        (not (leb 1 (length l.sender.pending)) && is_active id l.active_command_id)) [
          | inr more ↦ rw more v
          | inl last ↦
              elim (Bool-cases
                (is_in id l.fragment_transactions && not (is_in id l.fragment_commit))) [
                  | inl fragment ↦
                      rw (last, fragment) (k.stages "fragment_acknowledged" _ (k.frees l v))
                  | inr whole ↦
                      rw (last, whole)
                        (k.ends id "acknowledged" ""
                          (record l {
                            fragment_transactions = discard_id id l.fragment_transactions;
                            fragment_commit = discard_id id l.fragment_commit;
                          })
                          (k.notes (discard_id id l.fragment_transactions)
                            (discard_id id l.fragment_commit) l v))
                ]
        ]

  acknowledged_keeps :
      (i : Identity) (l : Link) → P l → P (record l { sender = (acknowledge l.sender i).0 })
  acknowledged_keeps i l v =
      k.sends (acknowledge l.sender i).0 l (acknowledge-IsSender l.sender i) v

  accept_ack_keeps : (f : Frame) (l : Link) → P l → P (accept_ack f l).1
  unfolding accept_ack
  accept_ack_keeps f l v = elim (Bool-cases (has_key f.command_id l.terminal)) [
    | inl ended ↦ rw ended v
    | inr live ↦ elim (Result-cases (nat_field "acked_sequence" f.payload)) [
      | inr (x, bad) ↦ rw (live, bad) v
      | inl (sequence, good) ↦
          let i : Identity = (f.command_id, sequence) in
          elim (Bool-cases (acknowledge l.sender (f.command_id, sequence)).1) [
            | inr unknown ↦ rw (live, good, unknown) (acknowledged_keeps i l v)
            | inl taken ↦
                rw (live, good, taken)
                  (acknowledge_transaction_keeps f.command_id _ (acknowledged_keeps i l v))
          ]
    ]
  ]

  accept_nack_keeps : (f : Frame) (l : Link) → P l → P (accept_nack f l).1
  unfolding accept_nack
  accept_nack_keeps f l v = elim (Bool-cases (has_key f.command_id l.terminal)) [
    | inl ended ↦ rw ended v
    | inr live ↦ elim (Result-cases (nat_field "acked_sequence" f.payload)) [
      | inr (x, bad) ↦ rw (live, bad) v
      | inl (sequence, good) ↦
          let i : Identity = (f.command_id, sequence) in
          elim (Bool-cases (acknowledge l.sender (f.command_id, sequence)).1) [
            | inr unknown ↦ rw (live, good, unknown) (acknowledged_keeps i l v)
            | inl taken ↦ elim (Result-cases (str_field "reason" f.payload)) [
              | inr (x, bad) ↦ rw (live, good, taken, bad) (acknowledged_keeps i l v)
              | inl (reason, given) ↦
                  rw (live, good, taken, given)
                    (k.ends f.command_id "nacked" (clip 120 reason) _ (acknowledged_keeps i l v))
            ]
          ]
    ]
  ]

  accept_typed_keeps : (t : MessageType) (f : Frame) (l : Link) → P l → P (accept_typed t f l).1
  accept_typed_keeps ack f l v = accept_ack_keeps f l v
  accept_typed_keeps nack f l v = accept_nack_keeps f l v
  accept_typed_keeps t f l v = v

  pub accept_response_keeps : (f : Frame) (l : Link) → P l → P (accept_response f l).1
  unfolding accept_response
  accept_response_keeps f l v = accept_typed_keeps f.message_type f l v

  pub fail_transaction_keeps :
      (stage error : String) (given : Option String) (l : Link)
      → P l
      → P (fail_transaction stage error given l).1
  unfolding fail_transaction
  fail_transaction_keeps stage error given l v =
      elim (Bool-cases (stage == "retry_exhausted" || stage == "link_blocked")) [
        | inr unknown ↦ rw unknown v
        | inl known ↦ rw known (by_id (given_or given l.active_command_id))
      ]
    where
      by_id :
          (o : Option String)
          → P
              (elim o as (λ _. Result Bool × Link) [
                | none ↦ (ok false, l)
                | some id ↦
                    if has_key id l.terminal
                    then (ok false, l)
                    else (ok true, set_terminal id stage (clip 120 error) l)
              ]).1
      by_id none = v
      by_id (some id) = elim (Bool-cases (has_key id l.terminal)) [
        | inl ended ↦ rw ended v
        | inr live ↦ rw live (k.ends id stage (clip 120 error) l v)
      ]

  -- The link that `execute` goes on with.
  pub fragment_keeps :
      (c : CloudCommand) (l : Link)
      → P l
      → P (
          if is_some (fragment_type c.action) && is_in c.command_id l.fragment_transactions
          then record l { active_command_id = none }
          else l)
  fragment_keeps c l v =
      elim (Bool-cases
        (is_some (fragment_type c.action) && is_in c.command_id l.fragment_transactions)) [
          | inl more ↦ rw more (k.frees l v)
          | inr first ↦ rw first v
        ]
