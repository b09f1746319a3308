-- ===== src/Transport/Receiver/Invariant/Steps.antt =====
-- The invariant of ReceiverState, kept by what a frame of each type writes.
use low_altitude_io_t_system.Common.{
  Option-cases, [], arith, bind_ok, false, inl, inr, length, list_eq, nat_eq, none, ok, pair_eq,
  refl, some, string_eq, subst, suc, true, zero, ℕ, ◌+◌, ◌<◌, ◌≡◌, ◌≢◌, ◌≤◌, ◌⊎◌,
}
use low_altitude_io_t_system.Common.Dict.{
  Dict, Each, Each-get, Each-put, Unique, Unique-evict, Unique-put, Unique-put_last, get,
  has_key-put, length-evict, length-put, length-put_old, put, put_last,
}
use low_altitude_io_t_system.Common.Value.{Fields, Value, nat_field, str_field}
use low_altitude_io_t_system.Frame.{Frame, MessageType, mission_begin, mission_commit, mission_item}
use low_altitude_io_t_system.Transport.Sender.{identity}
use low_altitude_io_t_system.Transport.Receiver.{
  Mission, MissionKey, Receiver, begin_mission, commit_mission, dispatch_on, missing_from,
  missing_indices, receive_item, remember, transaction_identity,
}

-- An item stands under an index below the count, and a committed mission has them all.
abbrev InRange : ℕ → ℕ → Fields → Type 0
InRange count i item = i < count

pub record IsMission (key : MissionKey) (m : Mission) : Type 0 where
  pub named : (m.command_id, m.mission_id) ≡ key
  pub in_range : Each (InRange m.item_count) m.items
  pub complete : m.committed ≡ true → missing_indices m ≡ []

pub record IsReceiver (r : Receiver) : Type 0 where
  pub seen_le : length r.seen ≤ r.history_limit
  pub missions_le : length r.missions ≤ r.max_missions
  pub seen_unique : Unique r.seen
  pub missions_unique : Unique r.missions
  pub missions_valid : Each IsMission r.missions

missing_from-put :
    (i n k : ℕ) (v : Fields) (items : Dict ℕ Fields)
    → missing_from i n items ≡ []
    → missing_from i n (put k v items) ≡ []
unfolding missing_from
missing_from-put i zero k v items e = refl
missing_from-put i (suc n) k v items e =
    ground (arith, missing_from-put (i + 1) n k v items, has_key-put k i v items)

-- The receiver after its methods have written one mission.
written : Receiver → MissionKey → Mission → Receiver
written r key m = record r { missions = put key m r.missions }

written-IsReceiver :
    (r : Receiver) (key : MissionKey) (m : Mission)
    → IsReceiver r
    → IsMission key m
    → (get key r.missions ≢ none) ⊎ (length r.missions < r.max_missions)
    → IsReceiver (written r key m)
unfolding written
written-IsReceiver r key m v valid room = record {
  seen_le = v.seen_le;
  missions_le = elim room [
    | inl old ↦ omega (arith, length-put_old key m r.missions old, v.missions_le)
    | inr fits ↦ omega (arith, length-put key m r.missions)
  ];
  seen_unique = v.seen_unique;
  missions_unique = Unique-put key m r.missions v.missions_unique;
  missions_valid = Each-put IsMission key m r.missions valid v.missions_valid;
}

known-IsMission :
    (r : Receiver) (key : MissionKey) (m : Mission)
    → IsReceiver r
    → get key r.missions ≡ some m
    → IsMission key m
known-IsMission r key m v h = Each-get IsMission key m r.missions v.missions_valid h

pub known :
    (r : Receiver) (key : MissionKey) (m : Mission)
    → get key r.missions ≡ some m
    → get key r.missions ≢ none
known r key m h n = cc (h, n)

begin-IsReceiver :
    (r t : Receiver) (key : MissionKey) (count : ℕ) (vehicle : Value) (now : ℕ)
    → IsReceiver r
    → begin_mission r key count vehicle now ≡ ok t
    → IsReceiver t
unfolding begin_mission
begin-IsReceiver r t key count vehicle now v e = elim (Option-cases (get key r.missions)) [
  | inl new ↦
      let m : Mission = record {
        command_id = key.0;
        mission_id = key.1;
        item_count = count;
        vehicle = vehicle;
        updated_at = now;
        items = [];
        committed = false;
      } in
      let q : (t ≡ written r key m) × (length r.missions < r.max_missions) =
        unfold written in (ground arith, ground arith) in
      rw (q.0) (
        written-IsReceiver r key m v
          (record { named = refl; in_range = tt; complete = λ c. absurd (cc) }) (inr (q.1)))
  | inr (m, old) ↦
      let w = known-IsMission r key m v old in
      let q : t ≡ written r key (record m { updated_at = now }) = unfold written in ground arith in
      rw q (
        written-IsReceiver r key (record m { updated_at = now }) v
          (record {
            named = w.named;
            in_range = w.in_range;
            complete = λ c. unfold missing_indices in w.complete c;
          })
          (inl (known r key m old)))
]

item-IsReceiver :
    (r t : Receiver) (key : MissionKey) (index : ℕ) (payload : Fields) (now : ℕ)
    → IsReceiver r
    → receive_item r key index payload now ≡ ok t
    → IsReceiver t
unfolding receive_item
item-IsReceiver r t key index payload now v e = elim (Option-cases (get key r.missions)) [
  | inl new ↦ absurd (ground arith)
  | inr (m, old) ↦
      let w = known-IsMission r key m v old in
      let m' : Mission = record m { updated_at = now; items = put index payload m.items } in
      let q : (t ≡ written r key m') × (index < m.item_count) =
        unfold written in (ground arith, ground arith) in
      rw (q.0) (
        written-IsReceiver r key m' v
          (record {
            named = w.named;
            in_range = Each-put (InRange m.item_count) index payload m.items (q.1) w.in_range;
            complete = λ c.
                unfold missing_indices in
                missing_from-put 0 m.item_count index payload m.items (w.complete c);
          })
          (inl (known r key m old)))
]

commit-IsReceiver :
    (r t : Receiver) (key : MissionKey) (count now : ℕ)
    → IsReceiver r
    → commit_mission r key count now ≡ ok t
    → IsReceiver t
unfolding commit_mission
commit-IsReceiver r t key count now v e = elim (Option-cases (get key r.missions)) [
  | inl new ↦ absurd (ground arith)
  | inr (m, old) ↦
      let w = known-IsMission r key m v old in
      let m' : Mission = record m { updated_at = now; committed = true } in
      let q : (t ≡ written r key m') × (missing_indices m ≡ []) =
        unfold written in (ground arith, ground arith) in
      rw (q.0) (
        written-IsReceiver r key m' v
          (record {
            named = w.named;
            in_range = w.in_range;
            complete = λ c. unfold missing_indices in q.1;
          })
          (inl (known r key m old)))
]

pub dispatch_on-IsReceiver :
    (kind : MessageType) (r t : Receiver) (f : Frame) (now : ℕ)
    → IsReceiver r
    → dispatch_on kind r f now ≡ ok t
    → IsReceiver t
unfolding dispatch_on
dispatch_on-IsReceiver mission_begin r t f now v e =
    let (id, a, e₁) = bind_ok (str_field "mission_id" f.payload) _ e in
    let (count, b, e₂) = bind_ok (nat_field "item_count" f.payload) _ e₁ in
    begin-IsReceiver r t (f.command_id, id) count _ now v e₂
dispatch_on-IsReceiver mission_item r t f now v e =
    let (id, a, e₁) = bind_ok (str_field "mission_id" f.payload) _ e in
    let (index, b, e₂) = bind_ok (nat_field "index" f.payload) _ e₁ in
    item-IsReceiver r t (f.command_id, id) index f.payload now v e₂
dispatch_on-IsReceiver mission_commit r t f now v e =
    let (id, a, e₁) = bind_ok (str_field "mission_id" f.payload) _ e in
    let (count, b, e₂) = bind_ok (nat_field "item_count" f.payload) _ e₁ in
    commit-IsReceiver r t (f.command_id, id) count now v e₂
dispatch_on-IsReceiver _ r t f now v e = subst IsReceiver (cc e) v

pub remember-IsReceiver : (r : Receiver) (f : Frame) → IsReceiver r → IsReceiver (remember r f)
unfolding remember
remember-IsReceiver r f v = record {
  seen_le = length-evict r.history_limit (put_last (identity f) (transaction_identity f) r.seen);
  missions_le = v.missions_le;
  seen_unique =
      Unique-evict r.history_limit _
        (Unique-put_last (identity f) (transaction_identity f) r.seen v.seen_unique);
  missions_unique = v.missions_unique;
  missions_valid = v.missions_valid;
}
