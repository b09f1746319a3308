-- ===== src/Link/Send.antt =====
-- rdk_agent/aircraft_link.py, AircraftLink.execute and what it sends. `str` of a value,
-- `str.strip` and the digest are parameters, as are those of the encoding of a frame.
use low_altitude_io_t_system.Common.{
  Bool, List, Option, Result, String, [], bind, err, false, if◌then◌else◌, key_error, leb, length,
  list_eq, map, nat_eq, none, not, ok, or_raise, pair_eq, require, some, string_eq, suc, true,
  type_error, value_error, ℕ, ◌%◌, ◌&&◌, ◌*◌, ◌++◌, ◌+◌, ◌==◌, ◌^◌, ◌∷◌,
}
use low_altitude_io_t_system.Common.Value.{
  Fields, Items, Value, arr, bool, cons, end, entry, field, finite, float, has_field, int, is_in,
  nil, obj, str,
}
use low_altitude_io_t_system.Common.Dict.{has_key}
use low_altitude_io_t_system.Common.Int.{pos, ℤ}
use low_altitude_io_t_system.Frame.{
  Frame, MessageType, command, make_frame, mission_begin, mission_commit, mission_item,
}
use low_altitude_io_t_system.Frame.Codec.{encode_frame}
use low_altitude_io_t_system.Messages.{checksum, max_mission_items}
use low_altitude_io_t_system.Transport.Sender.{Sender, cancel, queue}
use low_altitude_io_t_system.Link.{CloudCommand, Link, add_id, due_frames, set_stage}
use low_altitude_io_t_system.Mission.Items.{
  float_at, float_or_zero, int_or, to_float, to_int, truthy_or_true,
}
use low_altitude_io_t_system.Auth.{Bytes}

-- The kinds of a frame of a mission that is sent in fragments.
abbrev pub fragment_type : String → Option MessageType
fragment_type action =
    if action == "mission_begin"
    then some mission_begin
    else if action == "mission_item"
    then some mission_item
    else if action == "mission_commit"
    then some mission_commit
    else none

abbrev pub is_some : Option MessageType → Bool
is_some none = false
is_some (some t) = true

module _ (dumps : Value → Result Bytes) (loads : Bytes → Option Value) (crc32 : Bytes → ℕ)
    (uuid_bytes : String → Bytes) (uuid_text : Bytes → String) where
  abbrev pub encoded : Frame → Result Bytes
  encoded f = encode_frame dumps loads crc32 uuid_bytes uuid_text f (1024 * 1024)

  -- `[encode_frame(frame) for frame in due]`
  unfoldable pub encode_all : List Frame → Result (List Bytes)
  encode_all [] = ok []
  encode_all (f ∷ fs) = bind (encoded f) λ b. bind (encode_all fs) λ bs. ok (b ∷ bs)

  -- `due_bytes`
  unfoldable pub due_bytes : (ℕ → String) → ℕ → Link → Result (List Bytes) × Link
  due_bytes decimal now l = let (frames, l') = due_frames decimal now l in (encode_all frames, l')

  -- `_frame`, which encodes the frame to check it
  unfoldable pub make_checked : MessageType → String → Fields → ℕ → Result Frame
  unfolding make_frame
  make_checked kind id payload sequence =
      bind (make_frame kind 0 sequence id (obj payload)) λ f. bind (encoded f) λ bytes. ok f

  -- The frames of payloads, numbered from a sequence on.
  unfoldable pub make_frames : String → ℕ → ℕ → List (MessageType × Fields) → Result (List Frame)
  unfolding make_checked
  make_frames id start offset [] = ok []
  make_frames id start offset ((kind, payload) ∷ rest) =
      bind (make_checked kind id payload ((start + offset) % 2 ^ 32))
        λ f. bind (make_frames id start (offset + 1) rest) λ fs. ok (f ∷ fs)

  -- The loop of `_acquire_and_queue`.
  unfoldable pub queue_all : List Frame → ℕ → Sender → Result (Unit {0}) × Sender
  queue_all [] now s = (ok tt, s)
  queue_all (f ∷ fs) now s = elim (queue s f now) [
    | err x ↦ (err x, s)
    | ok s' ↦ queue_all fs now s'
  ]

  -- `_acquire_and_queue`
  unfoldable pub acquire_and_queue :
      String → List Frame → ℕ → String → Link → Result (String × ℕ) × Link
  acquire_and_queue id frames now stage l =
      let (queued, sender) = queue_all frames now l.sender in
      elim queued [
        | err x ↦ (err x, record l { sender = (cancel sender id).0; active_command_id = none })
        | ok u ↦ (
          ok (stage, length frames),
          set_stage stage (record l {
            sender = sender;
            active_command_id = some id;
            transaction_id = id;
            error = "";
            next_sequence = (l.next_sequence + length frames) % 2 ^ 32;
          }),
        )
      ]

  module _ (to_str : Value → String) (strip : String → String)
      (int_text float_text : String → Option ℤ) (sha256_json : List Fields → Result String) where
    abbrev int_at : String → ℤ → Fields → Result ℤ
    int_at name d item = int_or int_text float_text sha256_json d (field name item)

    abbrev float_or : String → Fields → Result ℤ
    float_or name item = float_or_zero int_text float_text sha256_json (field name item)

    abbrev needed : String → Fields → Result ℤ
    needed name item = float_at int_text float_text sha256_json name item

    -- `item.get("param2", item.get("acceptance_radius", 0.0))`
    abbrev second_param : Fields → Result ℤ
    second_param item =
        if has_field "param2" item
        then float_or "param2" item
        else float_or "acceptance_radius" item

    abbrev number_value : ℤ → Value
    number_value v = float (finite v)

    -- `_mission_item`
    unfoldable pub mission_item_payload : String → ℤ → Fields → Result Fields
    unfolding field has_field to_int to_float
    mission_item_payload mission_id index item = bind (needed "lat" item) λ lat.
        bind (needed "lon" item) λ lon. bind (needed "alt" item) λ alt.
          bind (int_at "command" (pos 16) item) λ command.
            bind (int_at "frame" (pos 6) item) λ frame. bind (float_or "param1" item) λ p1.
              bind (second_param item) λ p2. bind (float_or "param3" item) λ p3.
                bind (float_or "param4" item) λ p4. ok (
                  entry "mission_id" (str mission_id) (
                    entry "index" (int index) (
                      entry "lat" (number_value lat) (
                        entry "lon" (number_value lon) (
                          entry "alt" (number_value alt) (
                            entry "command" (int command) (
                              entry "frame" (int frame) (
                                entry "param1" (number_value p1) (
                                  entry "param2" (number_value p2) (
                                    entry "param3" (number_value p3) (
                                      entry "param4" (number_value p4) (
                                        entry "autocontinue"
                                          (bool (
                                            truthy_or_true int_text float_text sha256_json
                                              (field "autocontinue" item)))
                                          end))))))))))))

    -- The loop of `_build_mission` over the items.
    unfoldable pub normalize : String → ℕ → Items → Result (List Fields)
    unfolding mission_item_payload
    normalize mission_id index nil = ok []
    normalize mission_id index (cons (obj item) rest) =
        bind (mission_item_payload mission_id (pos index) item)
          λ first. bind (normalize mission_id (index + 1) rest) λ more. ok (first ∷ more)
    normalize mission_id index (cons v rest) = err (type_error "mission item must be an object")

    abbrev pub item_list : Option Value → Result Items
    item_list (some (arr xs)) = ok xs
    item_list o = err (type_error "mission items must be a list")

    abbrev pub count_items : Items → ℕ
    count_items nil = 0
    count_items (cons x xs) = suc (count_items xs)

    abbrev pub text_or : String → Option Value → String
    text_or d none = d
    text_or d (some v) = to_str v

    abbrev pub commit_fields : String → ℕ → String → Fields
    commit_fields mission_id count checksum =
        entry "mission_id" (str mission_id)
          (entry "item_count" (int (pos count)) (entry "checksum" (str checksum) end))

    abbrev pub begin_fields : String → ℕ → String → Fields
    begin_fields mission_id count checksum = entry "mission_id" (str mission_id) (
        entry "item_count" (int (pos count))
          (entry "vehicle" (str "aircraft") (entry "checksum" (str checksum) end)))

    -- The payloads of a mission: begin, the items, commit.
    unfoldable pub mission_payloads : CloudCommand → Result (List (MessageType × Fields))
    unfolding normalize
    mission_payloads c =
        let mission_id = strip (text_or "" (field "mission_id" c.payload)) in
        bind (require (not (mission_id == "")) (value_error "mission_id must not be empty")) λ _.
          bind (item_list (field "items" c.payload)) λ items.
            bind
              (require (leb (count_items items) max_mission_items)
                (value_error "item_count exceeds mission limit"))
              λ _. bind (normalize mission_id 0 items) λ normalized.
                bind (sha256_json normalized) λ checksum.
                  let n = length normalized in
                  ok (
                    (mission_begin, begin_fields mission_id n checksum)
                    ∷ (map (λ (item : Fields). (mission_item, item)) normalized
                        ++ ((mission_commit, commit_fields mission_id n checksum) ∷ [])))

    -- The payload of a fragment.
    unfoldable pub fragment_payload : CloudCommand → Result Fields
    unfolding mission_item_payload
    fragment_payload c =
        let as_item : Result Fields =
          bind (or_raise (field "mission_id" c.payload) (key_error "mission_id")) λ mission.
            bind (or_raise (field "index" c.payload) (key_error "index")) λ raw.
              bind (to_int int_text float_text sha256_json raw)
                λ index. mission_item_payload (to_str mission) index c.payload in
        if c.action == "mission_item" then as_item else ok c.payload

    -- What `execute` sends, and under which stage.
    unfoldable pub payloads_of : CloudCommand → Result (List (MessageType × Fields) × String)
    unfolding fragment_payload mission_payloads
    payloads_of c = elim (fragment_type c.action) [
      | some kind ↦ bind (fragment_payload c) λ p. ok ((kind, p) ∷ [], c.action)
      | none ↦
          let whole = bind (mission_payloads c) λ ps. ok (ps, "staged") in
          let single : Fields =
            entry "action" (str c.action) (entry "parameters" (obj c.payload) end) in
          if c.action == "mission" then whole else ok ((command, single) ∷ [], "queued")
    ]

    -- The sets of fragments that a fragment's frame enters its id into.
    abbrev pub note_fragment : CloudCommand → Link → Link
    note_fragment c l =
        if is_some (fragment_type c.action)
        then record l {
          fragment_transactions = add_id c.command_id l.fragment_transactions;
          fragment_commit =
              (if c.action == "mission_commit"
                then add_id c.command_id l.fragment_commit
                else l.fragment_commit);
        }
        else l

    -- The frames of a command, and their stage.
    unfoldable pub frames_of : CloudCommand → Link → Result (List Frame × String)
    frames_of c l =
        bind (payloads_of c)
          λ p. bind (make_frames c.command_id l.next_sequence 0 p.0) λ fs. ok (fs, p.1)

    -- `execute` behind its guards.
    unfoldable pub execute_frames :
        CloudCommand → ℕ → Link → Result (List Frame × String) → Result (String × ℕ) × Link
    execute_frames c now l (err x) = (err x, l)
    execute_frames c now l (ok (frames, stage)) =
        acquire_and_queue c.command_id frames now stage (note_fragment c l)

    -- A fragment of the transaction, which may go on while it is active.
    abbrev pub may_go_on : CloudCommand → Option String → Bool
    may_go_on c none = true
    may_go_on c (some a) = is_some (fragment_type c.action) && c.command_id == a

    -- `execute`
    unfoldable pub execute : CloudCommand → ℕ → Link → Result (String × ℕ) × Link
    execute c now l =
        let fragment = is_some (fragment_type c.action) in
        let l' : Link =
          (if fragment && is_in c.command_id l.fragment_transactions
            then record l { active_command_id = none }
            else l) in
        if not (c.target == "aircraft")
        then (err (value_error "AircraftLink accepts aircraft commands only"), l)
        else if not (may_go_on c l.active_command_id)
        then (err (value_error "aircraft transaction already active"), l)
        else if has_key c.command_id l'.terminal && not fragment
        then (err (value_error "aircraft transaction is already terminal"), l')
        else execute_frames c now l' (frames_of c l')
