-- ===== src/Transport/Receiver/Invariant/Time.antt =====
-- The invariant of ReceiverState, kept when missions expire and the clock goes on.
use low_altitude_io_t_system.Common.{
  Bool-cases, List, Option, [], arith, inl, inr, length, list_eq, nat_eq, none, ok, pair_eq, refl,
  some, string_eq, subst, ℕ, ◌-◌, ◌∷◌, ◌≡◌, ◌≤◌,
}
use low_altitude_io_t_system.Common.Dict.{
  Dict, Each-delete, Unique, Unique-delete, delete, get, length-delete,
}
use low_altitude_io_t_system.Transport.Sender.{Identity}
use low_altitude_io_t_system.Transport.Receiver.{
  goes_back, resolve, MissionKey, Receiver, drop_missions, expire, expired_keys, forget,
  prepare_now,
}
use low_altitude_io_t_system.Transport.Receiver.Invariant.Steps.{IsMission, IsReceiver}

length-forget :
    (k : MissionKey) (d : Dict Identity (Option MissionKey)) → length (forget k d) ≤ length d
unfolding forget
length-forget k [] = omega arith
length-forget k ((i, t) ∷ d) = ground (arith, length-forget k d)

get-forget-none :
    (k : MissionKey) (i : Identity) (d : Dict Identity (Option MissionKey))
    → get i d ≡ none
    → get i (forget k d) ≡ none
unfolding get forget
get-forget-none k i [] h = refl
get-forget-none k i ((j, t) ∷ d) h = ground (arith, get-forget-none k i d)

Unique-forget :
    (k : MissionKey) (d : Dict Identity (Option MissionKey)) → Unique d → Unique (forget k d)
unfolding forget
Unique-forget k [] u = tt
Unique-forget k ((i, t) ∷ d) u = ground (arith, Unique-forget k d u.1, get-forget-none k i d u.0)

drop_missions-IsReceiver :
    (ks : List MissionKey) (r : Receiver) → IsReceiver r → IsReceiver (drop_missions ks r)
unfolding drop_missions
drop_missions-IsReceiver [] r v = v
drop_missions-IsReceiver (k ∷ ks) r v =
    drop_missions-IsReceiver ks
      (record r { missions = delete k r.missions; seen = forget k r.seen })
      (record {
        seen_le = omega (arith, length-forget k r.seen, v.seen_le);
        missions_le = omega (arith, length-delete k r.missions, v.missions_le);
        seen_unique = Unique-forget k r.seen v.seen_unique;
        missions_unique = Unique-delete k r.missions v.missions_unique;
        missions_valid = Each-delete IsMission k r.missions v.missions_valid;
      })

pub expire-IsReceiver : (now : ℕ) (r : Receiver) → IsReceiver r → IsReceiver (expire now r)
unfolding expire
expire-IsReceiver now r v = drop_missions-IsReceiver (expired_keys r.mission_ttl now r.missions) r v

-- `_prepare_now` writes the clock's fields only.
timed-IsReceiver :
    (r : Receiver) (offset : Option (ℕ × ℕ)) (last : Option ℕ)
    → IsReceiver r
    → IsReceiver (record r { clock_offset = offset; last_now = last })
timed-IsReceiver r offset last v = record {
  seen_le = v.seen_le;
  missions_le = v.missions_le;
  seen_unique = v.seen_unique;
  missions_unique = v.missions_unique;
  missions_valid = v.missions_valid;
}

pub prepare-IsReceiver :
    (r t : Receiver) (now : Option ℕ) (clock_now at : ℕ)
    → IsReceiver r
    → prepare_now r now clock_now ≡ ok (at, t)
    → IsReceiver t
unfolding prepare_now
prepare-IsReceiver r t now clock_now at v e =
    let (d, offset) = resolve r.clock_offset now clock_now in
    let changed : record r { clock_offset = offset; last_now = some (d.0 - d.1) } ≡ t =
      elim (Bool-cases (goes_back r.last_now d)) [
        | inl late ↦ absurd (cc (rw late at e))
        | inr fine ↦ cc (rw fine at e)
      ] in
    subst IsReceiver changed (timed-IsReceiver r offset (some (d.0 - d.1)) v)
