-- ===== src/Router/Cloud.antt =====
-- What a command has that came from the cloud.
use low_altitude_io_t_system.Common.{
  Bool-cases, Option, Option-cases, Result, String, arith, bind_ok, false, if◌then◌else◌, inl, inr,
  list_eq, nat_eq, none, ok, pair_eq, refl, some, string_eq, true, ℕ, ◌==◌, ◌≡◌, ◌≢◌, ◌⊎◌,
}
use low_altitude_io_t_system.Common.Value.{
  Fields, Float, Value, end, entry, field, float, is_in, null, put_field, str, truthy,
}
use low_altitude_io_t_system.Link.{CloudCommand}
use low_altitude_io_t_system.Router.{
  Meant, command_of, flatten, from_cloud, from_fields, get_or, id_of, is_blank, make_number,
  meaning, meant, merged_payload, numbers, opened, targets, text_of, time_of, to_real,
}

-- A number, or no value at all.
abbrev pub IsNumber : Option Value → Type 0
IsNumber none = Unit
IsNumber (some null) = Unit
IsNumber (some (float f)) = Unit
IsNumber (some (str t)) = t ≡ ""
IsNumber (some v) = ⊥

blank-IsNumber : (o : Option Value) → is_blank o ≡ true → IsNumber o
blank-IsNumber none blank = tt
blank-IsNumber (some null) blank = tt
blank-IsNumber (some (float f)) blank = tt
blank-IsNumber (some (str t)) blank = (string_eq.beq_iff t "").0 blank
blank-IsNumber (some v) blank = cc

field-put_field :
    (k j : String) (v : Value) (fs : Fields)
    → field j (put_field k v fs) ≡ (if k == j then some v else field j fs)
unfolding field put_field
field-put_field k j v end = refl
field-put_field k j v (entry i w rest) = ground (
  arith,
  string_eq.beq_iff i k,
  string_eq.beq_iff k j,
  string_eq.beq_iff i j,
  field-put_field k j v rest,
)

module _ (to_str : Value → String) (strip lstrip lower : String → String)
    (float_text : String → Option Float) (loads : String → Option Value)
    (parse_uuid : String → Option String) where
  abbrev numbered : String → Fields → Result Fields
  numbered = make_number to_str strip lstrip lower float_text loads parse_uuid

  -- Making one field a number.
  numbered_cases :
      (key : String) (fs fs' : Fields)
      → numbered key fs ≡ ok fs'
      → ((fs' ≡ fs) × IsNumber (field key fs)) ⊎ ((f : Float) × (fs' ≡ put_field key (float f) fs))
  unfolding make_number
  numbered_cases key fs fs' e = elim (Option-cases (field key fs)) [
    | inl gone ↦ let same : ok fs ≡ ok fs' = rw (make_number, gone) at e in inl (cc, rw gone tt)
    | inr (v, there) ↦ elim (Bool-cases (is_blank (some v))) [
      | inl blank ↦
          let same : ok fs ≡ ok fs' = rw (make_number, there, blank) at e in
          inl (cc, rw there (blank-IsNumber (some v) blank))
      | inr full ↦
          let (f, real, put) =
            bind_ok (to_real to_str strip lstrip lower float_text loads parse_uuid v) _
              (rw (make_number, there, full) at e) in
          inr (f, cc)
    ]
  ]

  numbered-IsNumber :
      (key : String) (fs fs' : Fields) → numbered key fs ≡ ok fs' → IsNumber (field key fs')
  numbered-IsNumber key fs fs' e = elim (numbered_cases key fs fs' e) [
    | inl (same, given) ↦ rw same given
    | inr (f, put) ↦
        let own : (key == key) ≡ true = (string_eq.beq_iff key key).1 refl in
        rw (put, field-put_field key key (float f) fs, own) tt
  ]

  numbered_keeps :
      (key j : String) (fs fs' : Fields)
      → numbered key fs ≡ ok fs'
      → IsNumber (field j fs)
      → IsNumber (field j fs')
  numbered_keeps key j fs fs' e given = elim (numbered_cases key fs fs' e) [
    | inl (same, more) ↦ rw same given
    | inr (f, put) ↦ elim (Bool-cases (key == j)) [
      | inl own ↦ rw (put, field-put_field key j (float f) fs, own) tt
      | inr other ↦ rw (put, field-put_field key j (float f) fs, other) given
    ]
  ]

  pub record IsFromCloud (fresh : String) (c : CloudCommand) : Type 0 where
    pub target : is_in c.target targets ≡ true
    pub action : c.action ≢ ""
    pub command_id : (c.command_id ≡ fresh) ⊎ ((t : String) × (parse_uuid t ≡ some c.command_id))
    pub lat : IsNumber (field "target_lat" c.payload)
    pub lng : IsNumber (field "target_lng" c.payload)
    pub speed : IsNumber (field "target_speed" c.payload)

  id_of_lem :
      (fresh : String) (o : Option Value) (id : String)
      → id_of to_str strip lstrip lower float_text loads parse_uuid fresh o ≡ ok id
      → (id ≡ fresh) ⊎ ((t : String) × (parse_uuid t ≡ some id))
  id_of_lem fresh none id e = inl cc
  id_of_lem fresh (some v) id e = elim (Bool-cases (truthy v)) [
    | inr blank ↦ let same : ok fresh ≡ ok id = rw blank at e in inl cc
    | inl given ↦ elim (Option-cases (parse_uuid (to_str v))) [
      | inl bad ↦ absurd (let fails = rw (given, bad) at e in cc)
      | inr (u, good) ↦
          let same : ok u ≡ ok id = rw (given, good) at e in
          inr (to_str v, let eq : u ≡ id = cc in rw (← eq) good)
    ]
  ]

  meaning_allowed :
      (fields : Fields) (m : Meant)
      → meaning to_str strip lstrip lower float_text loads parse_uuid fields ≡ ok m
      → (is_in m.target targets ≡ true) × ((m.action == "") ≡ false)
  unfolding meaning
  meaning_allowed fields m e =
      let text = text_of to_str strip lstrip lower float_text loads parse_uuid in
      let m' =
        meant
          (text "noop"
            (get_or (get_or (field "last_command" fields) "command" fields) "action" fields))
          (text "" (field "target" fields)) in
      elim (Bool-cases (is_in m'.target targets)) [
        | inr foreign ↦ absurd (let fails = rw foreign at e in cc)
        | inl known ↦ elim (Bool-cases (m'.action == "")) [
          | inl none_given ↦ absurd (let fails = rw (known, none_given) at e in cc)
          | inr given ↦
              let done : ok m' ≡ ok m = rw (known, given) at e in
              let same : m' ≡ m = cc in rw (← same) (known, given)
        ]
      ]

  numbers_numbered :
      (fs fs' : Fields)
      → numbers to_str strip lstrip lower float_text loads parse_uuid fs ≡ ok fs'
      → IsNumber (field "target_lat" fs')
        × IsNumber (field "target_lng" fs')
        × IsNumber (field "target_speed" fs')
  unfolding numbers
  numbers_numbered fs fs' e =
      let (p, e1, h1) = bind_ok (numbered "target_lat" fs) _ e in
      let (q, e2, h2) = bind_ok (numbered "target_lng" p) _ h1 in
      (
        numbered_keeps "target_speed" "target_lat" q fs' h2 (
            numbered_keeps "target_lng" "target_lat" p q e2
              (numbered-IsNumber "target_lat" fs p e1)),
        numbered_keeps "target_speed" "target_lng" q fs' h2 (numbered-IsNumber "target_lng" p q e2),
        numbered-IsNumber "target_speed" q fs' h2,
      )

  built-IsFromCloud :
      (fresh : String) (m : Meant) (p : Fields) (id : String) (t : Float) (c : CloudCommand)
      → (is_in m.target targets ≡ true) × ((m.action == "") ≡ false)
      → IsNumber (field "target_lat" p)
        × IsNumber (field "target_lng" p)
        × IsNumber (field "target_speed" p)
      → (id ≡ fresh) ⊎ ((s : String) × (parse_uuid s ≡ some id))
      → ok (command_of to_str strip lstrip lower float_text loads parse_uuid m p id t) ≡ ok c
      → IsFromCloud fresh c
  built-IsFromCloud fresh m p id t c (known, given) (lat, lng, speed) own e =
      let same : command_of to_str strip lstrip lower float_text loads parse_uuid m p id t ≡ c =
        cc in
      rw (← same) (record {
        target = known;
        action = λ gone. let none_given = (string_eq.beq_iff m.action "").1 gone in cc;
        command_id = own;
        lat = lat;
        lng = lng;
        speed = speed;
      })

  -- A command from the cloud has one of the five targets and an action that is not empty, the id
  -- that `uuid.UUID` read out of a text or a new one, and numbers for the target's position and
  -- speed where its payload has values for them.
  pub from_cloud-IsFromCloud :
      (raw : Value) (clock : ℕ) (fresh : String) (c : CloudCommand)
      → from_cloud to_str strip lstrip lower float_text loads parse_uuid raw clock fresh ≡ ok c
      → IsFromCloud fresh c
  unfolding from_cloud from_fields
  from_cloud-IsFromCloud raw clock fresh c e =
      let (flat, e0, h0) = bind_ok (flatten raw) _ e in
      let fields = opened to_str strip lstrip lower float_text loads parse_uuid flat in
      let (m, e1, h1) =
        bind_ok (meaning to_str strip lstrip lower float_text loads parse_uuid fields) _ h0 in
      let (p, e2, h2) =
        bind_ok
          (numbers to_str strip lstrip lower float_text loads parse_uuid
            (merged_payload to_str strip lstrip lower float_text loads parse_uuid m fields))
          _ h1 in
      let (id, e3, h3) =
        bind_ok
          (id_of to_str strip lstrip lower float_text loads parse_uuid fresh
            (field "command_id" fields))
          _ h2 in
      let (t, e4, h4) =
        bind_ok (time_of to_str strip lstrip lower float_text loads parse_uuid clock fields) _ h3 in
      built-IsFromCloud fresh m p id t c (meaning_allowed fields m e1)
        (numbers_numbered
          (merged_payload to_str strip lstrip lower float_text loads parse_uuid m fields) p e2)
        (id_of_lem fresh (field "command_id" fields) id e3) h4
