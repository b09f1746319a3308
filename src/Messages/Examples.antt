-- ===== src/Messages/Examples.antt =====
-- Concrete payloads for shared_protocol/messages.py.
use low_altitude_io_t_system.Common.{
  String, false, list_eq, nat_eq, ok, pair_eq, refl, string_eq, ℕ, ◌<◌, ◌==◌, ◌≡◌,
}
use low_altitude_io_t_system.Common.Int.{negsuc, pos}
use low_altitude_io_t_system.Common.Value.{
  Fields, end, entry, field, finite, float, has_field, int, keys, nat_field, str, str_field,
}
use low_altitude_io_t_system.Frame.{mission_begin, mission_commit, mission_item}
use low_altitude_io_t_system.Messages.{
  check_mission_count, check_mission_item, max_mission_items, nat_at_most, number, object_fields,
  string, uint32, validate_payload,
}
use low_altitude_io_t_system.Messages.Accepted.{mission_item_fields}

abbrev item_payload : Fields
item_payload = entry "mission_id" (str "m1") (
    entry "index" (int (pos 2)) (
      entry "lat" (float (finite (pos 312_345_678)))
        (entry "lon" (float (finite (negsuc 99))) (entry "alt" (int (pos 30)) end))))

abbrev begin_payload : Fields
begin_payload =
    entry "mission_id" (str "m1")
      (entry "item_count" (int (pos 3)) (entry "vehicle" (str "aircraft") end))

abbrev commit_payload : Fields
commit_payload = entry "mission_id" (str "m1") (entry "item_count" (int (pos 3)) end)

item_valid : validate_payload mission_item item_payload ≡ ok tt
unfolding validate_payload check_mission_item object_fields string uint32 nat_at_most number field
    has_field keys
item_valid = refl

begin_valid : validate_payload mission_begin begin_payload ≡ ok tt
unfolding validate_payload check_mission_count object_fields string uint32 nat_at_most field
    has_field keys
begin_valid = refl

commit_valid : validate_payload mission_commit commit_payload ≡ ok tt
unfolding validate_payload check_mission_count object_fields string uint32 nat_at_most field
    has_field keys
commit_valid = refl

mission_item_fields_example :
    (id : String) × (i : ℕ) × (str_field "mission_id" item_payload ≡ ok id)
    × ((id == "") ≡ false)
    × (nat_field "index" item_payload ≡ ok i)
    × (i < max_mission_items)
mission_item_fields_example = mission_item_fields item_payload item_valid
