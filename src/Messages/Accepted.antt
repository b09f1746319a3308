-- ===== src/Messages/Accepted.antt =====
-- What a payload that passed `validate_payload` holds: the fields that the receivers index by.
use low_altitude_io_t_system.Common.{
  ℕ, ◌≤◌, ◌<◌, ◌≡◌, refl, false, Option, none, some, String, ok, err, Error, key_error, value_error,
  arith, ◌==◌, string_eq,
}
use low_altitude_io_t_system.Common.Int.{pos, negsuc}
use low_altitude_io_t_system.Common.Value.{
  Value, null, int, str, Fields, field, as_str, as_nat, str_field, nat_field,
}
use low_altitude_io_t_system.Frame.{mission_begin, mission_item, mission_commit}
use low_altitude_io_t_system.Messages.{
  Check, ◌>>◌, check_field, string, uint32, nat_at_most, check_mission_count, check_mission_item,
  validate_payload, max_mission_items,
}

pub >>-ok : (a b : Check) → (a >> b) ≡ ok tt → (a ≡ ok tt) × (b ≡ ok tt)
>>-ok (ok tt) b h = (refl, h)
>>-ok (err x) b h = cc

string_value :
    (k : String) (o : Option Value)
    → elim o [ none ↦ err (key_error k) | some v ↦ string false v ] ≡ ok tt
    → (s : String) × (as_str o ≡ ok s) × ((s == "") ≡ false)
unfolding string
string_value k none h = absurd (cc)
string_value k (some (str s)) h = (s, refl, ground arith)
string_value k (some null) h = absurd (cc)
string_value k (some _) h = absurd (cc)

string_ok :
    (k : String) (p : Fields)
    → check_field k p (string false) ≡ ok tt
    → (s : String) × (str_field k p ≡ ok s) × ((s == "") ≡ false)
unfolding str_field
string_ok k p h = string_value k (field k p) h

index_value :
    (k : String) (limit : ℕ) (x : Error) (o : Option Value)
    → elim o [ none ↦ err (key_error k) | some v ↦ uint32 v ] ≡ ok tt
    → elim o [ none ↦ err (key_error k) | some v ↦ nat_at_most limit x v ] ≡ ok tt
    → (n : ℕ) × (as_nat o ≡ ok n) × (n ≤ limit)
unfolding uint32 nat_at_most
index_value k limit x none h g = absurd (cc)
index_value k limit x (some (int (pos n))) h g = (n, refl, ground arith)
index_value k limit x (some (int (negsuc n))) h g = absurd (cc)
index_value k limit x (some _) h g = absurd (cc)

index_ok :
    (k : String) (p : Fields) (limit : ℕ) (x : Error)
    → check_field k p uint32 ≡ ok tt
    → check_field k p (nat_at_most limit x) ≡ ok tt
    → (n : ℕ) × (nat_field k p ≡ ok n) × (n ≤ limit)
unfolding nat_field
index_ok k p limit x h g = index_value k limit x (field k p) h g

-- An accepted mission item names its mission by a text that is not empty and has an index below
-- the limit of a mission.
pub mission_item_fields :
    (p : Fields)
    → validate_payload mission_item p ≡ ok tt
    → (id : String) × (i : ℕ) × (str_field "mission_id" p ≡ ok id)
      × ((id == "") ≡ false)
      × (nat_field "index" p ≡ ok i)
      × (i < max_mission_items)
unfolding validate_payload check_mission_item
mission_item_fields p h =
    let named : check_field "mission_id" p (string false) ≡ ok tt = ground arith in
    let (id, has_id, filled) = string_ok "mission_id" p named in
    let indexed : check_field "index" p uint32 ≡ ok tt = ground arith in
    let bounded : check_field "index" p (nat_at_most 99 (value_error "index exceeds mission limit"))
        ≡ ok tt =
      ground arith in
    let (i, has_index, small) = index_ok "index" p 99 _ indexed bounded in
    (id, i, has_id, filled, has_index, omega arith)

mission_count_fields :
    (p : Fields)
    → check_mission_count p ≡ ok tt
    → (id : String) × (n : ℕ) × (str_field "mission_id" p ≡ ok id)
      × ((id == "") ≡ false)
      × (nat_field "item_count" p ≡ ok n)
      × (n ≤ max_mission_items)
unfolding check_mission_count
mission_count_fields p h =
    let named : check_field "mission_id" p (string false) ≡ ok tt = ground arith in
    let (id, has_id, filled) = string_ok "mission_id" p named in
    let counted : check_field "item_count" p uint32 ≡ ok tt = ground arith in
    let bounded : check_field "item_count" p
          (nat_at_most max_mission_items (value_error "item_count exceeds mission limit"))
        ≡ ok tt =
      ground arith in
    let (n, has_count, small) = index_ok "item_count" p max_mission_items _ counted bounded in
    (id, n, has_id, filled, has_count, small)

-- An accepted mission begin names its mission by a text that is not empty and has a count of items
-- within the limit of a mission.
pub mission_begin_fields :
    (p : Fields)
    → validate_payload mission_begin p ≡ ok tt
    → (id : String) × (n : ℕ) × (str_field "mission_id" p ≡ ok id)
      × ((id == "") ≡ false)
      × (nat_field "item_count" p ≡ ok n)
      × (n ≤ max_mission_items)
unfolding validate_payload
mission_begin_fields p h = mission_count_fields p (ground arith)

-- An accepted mission commit names its mission by a text that is not empty and has a count of items
-- within the limit of a mission.
pub mission_commit_fields :
    (p : Fields)
    → validate_payload mission_commit p ≡ ok tt
    → (id : String) × (n : ℕ) × (str_field "mission_id" p ≡ ok id)
      × ((id == "") ≡ false)
      × (nat_field "item_count" p ≡ ok n)
      × (n ≤ max_mission_items)
unfolding validate_payload
mission_commit_fields p h = mission_count_fields p (ground arith)
