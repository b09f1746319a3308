-- ===== src/Transport/Receiver/Invariant.antt =====
-- The invariant of ReceiverState, kept by every call of `accept`, `mission` and `resume`.
use low_altitude_io_t_system.Common.{
  Bool-cases, Eq, List, Option, Result-cases, [], arith, inl, inr, list_eq, nat_eq, none, ok,
  pair_eq, some, string_eq, true, ℕ, ◌<◌, ◌∷◌, ◌≡◌, ◌≢◌,
}
use low_altitude_io_t_system.Common.Dict.{Each-get, get, has_key}
use low_altitude_io_t_system.Common.Int.{ℤ}
use low_altitude_io_t_system.Frame.{Frame}
use low_altitude_io_t_system.Messages.{below, validate_payload}
use low_altitude_io_t_system.Transport.Sender.{identity}
use low_altitude_io_t_system.Transport.Receiver.{
  Mission, MissionKey, Receiver, accept, accept_at, dispatch, expire, make_receiver, prepare_now,
  resume,
}
use low_altitude_io_t_system.Transport.Receiver.Missing.{complete_has_all}
use low_altitude_io_t_system.Transport.Receiver.Invariant.Time.{
  expire-IsReceiver, prepare-IsReceiver,
}
mod Steps
mod Time
pub use Steps.*

accept_at-IsReceiver :
    (now : ℕ) (r : Receiver) (f : Frame) → IsReceiver r → IsReceiver (accept_at now r f).1
unfolding accept_at
accept_at-IsReceiver now r f v = elim (Result-cases (validate_payload f.message_type f.payload)) [
  | inr (x, invalid) ↦ rw (invalid, accept_at) v
  | inl (_, valid) ↦
      rw (valid, accept_at)
        (elim (Bool-cases (has_key (identity f) r.seen)) [
          | inl again ↦ rw (again, accept_at) v
          | inr new ↦
              rw (new, accept_at)
                (elim (Result-cases (dispatch r f now)) [
                  | inr (x, refused) ↦ rw (refused, accept_at) v
                  | inl (t, taken) ↦
                      rw (taken, accept_at)
                        (remember-IsReceiver t f (
                          dispatch_on-IsReceiver f.message_type r t f now v
                            (unfold dispatch in taken)))
                ])
        ])
]

-- A frame, accepted or refused for any reason, keeps the receiver's invariant: at most
-- `history_limit` remembered frames and `max_missions` missions, each under its own key; every item
-- under an index below its mission's count; and no mission committed with an item missing.
pub accept-IsReceiver :
    (r : Receiver) (f : Frame) (now : Option ℕ) (clock_now : ℕ)
    → IsReceiver r
    → IsReceiver (accept r f now clock_now).1
unfolding accept
accept-IsReceiver r f now clock_now v = elim (Result-cases (prepare_now r now clock_now)) [
  | inr (x, late) ↦ rw (late, accept) v
  | inl ((t, r'), e) ↦
      rw (e, accept)
        (accept_at-IsReceiver t (expire t r') f
          (expire-IsReceiver t r' (prepare-IsReceiver r r' now clock_now t v e)))
]

resume-IsReceiver :
    (r : Receiver) (key : MissionKey) (offset : ℤ) (limit : Option ℤ) (now : Option ℕ)
    (clock_now : ℕ)
    → IsReceiver r
    → IsReceiver (resume r key offset limit now clock_now).1
unfolding resume
resume-IsReceiver r key offset limit now clock_now v =
    elim (Result-cases (prepare_now r now clock_now)) [
      | inr (x, late) ↦ rw (late, resume) v
      | inl ((t, r'), e) ↦
          rw (e, resume) (expire-IsReceiver t r' (prepare-IsReceiver r r' now clock_now t v e))
    ]

pub make_receiver-IsReceiver :
    (h m ttl page : ℕ) (r : Receiver) → make_receiver h m ttl page ≡ ok r → IsReceiver r
unfolding make_receiver
make_receiver-IsReceiver h m ttl page r e =
    let q : r ≡ record {
      history_limit = h;
      max_missions = m;
      mission_ttl = ttl;
      max_missing_page = page;
      clock_offset = none;
      seen = [];
      missions = [];
      last_now = none;
    } =
      ground arith in
    rw q (record {
      seen_le = omega arith;
      missions_le = omega arith;
      seen_unique = tt;
      missions_unique = tt;
      missions_valid = tt;
    })

-- Frames with the times at which they arrive.
unfoldable pub accept_all : Receiver → List (Frame × Option ℕ × ℕ) → Receiver
accept_all r [] = r
accept_all r ((f, now, reading) ∷ rest) = accept_all (accept r f now reading).1 rest

accept_all-IsReceiver :
    (r : Receiver) (fs : List (Frame × Option ℕ × ℕ)) → IsReceiver r → IsReceiver (accept_all r fs)
unfolding accept_all
accept_all-IsReceiver r [] v = v
accept_all-IsReceiver r ((f, now, reading) ∷ rest) v =
    accept_all-IsReceiver (accept r f now reading).1 rest (accept-IsReceiver r f now reading v)

-- A mission that is committed in a receiver after any frames, in any order and at any times, has an
-- item at every index below its count.
pub committed_has_all :
    (h m ttl page : ℕ) (r : Receiver) (fs : List (Frame × Option ℕ × ℕ)) (key : MissionKey)
    (mission : Mission) (i : ℕ)
    → make_receiver h m ttl page ≡ ok r
    → get key (accept_all r fs).missions ≡ some mission
    → mission.committed ≡ true
    → i < mission.item_count
    → has_key i mission.items ≡ true
committed_has_all h m ttl page r fs key mission i e known done below =
    let v = accept_all-IsReceiver r fs (make_receiver-IsReceiver h m ttl page r e) in
    complete_has_all mission i
      ((Each-get IsMission key mission _ v.missions_valid known).complete done) below
