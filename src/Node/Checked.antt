-- ===== src/Node/Checked.antt =====
-- What a node message that was checked holds, and that a message that was written can be read.
use low_altitude_io_t_system.Common.{
  Bool, Bool-cases, Error, List, Option, Option-cases, Result, Result-cases, String, [], ap, arith,
  bind, bind_ok, inl, inr, leb, length, list_eq, ltb, nat_eq, node_message_error, none, ok, pair_eq,
  refl, require, some, string_eq, sym, true, ℕ, ◌<◌, ◌^◌, ◌∙◌, ◌∷◌, ◌≡◌,
}
use low_altitude_io_t_system.Common.Int.{negsuc, pos}
use low_altitude_io_t_system.Common.Value.{Fields, Value, field, int, is_in, null, obj, str}
use low_altitude_io_t_system.Messages.{Check, check_field, ◌>>◌}
use low_altitude_io_t_system.Messages.Accepted.{>>-ok}
use low_altitude_io_t_system.Auth.{Bytes}
use low_altitude_io_t_system.Node.{
  at_field, each_field, message_types, node_ids, one_of, validate_node_payload,
}
use low_altitude_io_t_system.Node.Datagram.{
  canonical_json, check_node_message, decode_node_message, encode_node_message, exact_message,
  is_command_id, is_payload, is_timestamp, is_uint32, is_version, matches, type_text,
  validate_node_message,
}

string_of :
    (names : List String) (x : Error) (v : Value)
    → one_of names x v ≡ ok tt
    → (s : String) × (v ≡ str s) × (is_in s names ≡ true)
string_of names x (str s) h = (s, refl, ground arith)
string_of names x null h = absurd (cc)
string_of names x _ h = absurd (cc)

uint32_of : (v : Value) → is_uint32 v ≡ ok tt → (n : ℕ) × (v ≡ int (pos n)) × (n < 2 ^ 32)
uint32_of (int (pos n)) h = (n, refl, ground arith)
uint32_of (int (negsuc n)) h = absurd (cc)
uint32_of _ h = absurd (cc)

payload_of : (v : Value) → is_payload v ≡ ok tt → (fs : Fields) × (v ≡ obj fs)
payload_of (obj fs) h = (fs, refl)
payload_of _ h = absurd (cc)

object_of : (v : Value) → exact_message v ≡ ok tt → (fs : Fields) × (v ≡ obj fs)
object_of (obj fs) h = (fs, refl)
object_of _ h = absurd (cc)

>>-both : (a b : Check) → a ≡ ok tt → b ≡ ok tt → (a >> b) ≡ ok tt
>>-both a b h g = rw h g

-- A check on a field that passes has found the field.
field_of :
    (k : String) (fs : Fields) (check : Value → Check)
    → check_field k fs check ≡ ok tt
    → (v : Value) × (field k fs ≡ some v) × (check v ≡ ok tt)
field_of k fs check h = elim (Option-cases (field k fs)) [
  | inl gone ↦ absurd (ground arith)
  | inr (v, found) ↦ (v, found, ground arith)
]

fitting :
    (bytes wire : Bytes) (limit : ℕ)
    → bind
        (require (leb (length bytes) limit) (node_message_error "datagram exceeds size limit"))
        (λ _. ok bytes)
      ≡ ok wire
    → (leb (length bytes) limit ≡ true) × (wire ≡ bytes)
fitting bytes wire limit h = elim (Bool-cases (leb (length bytes) limit)) [
  | inl small ↦ (small, ground arith)
  | inr large ↦ absurd (ground arith)
]

module _ (dumps : Value → Result Bytes) (is_uuid : String → Bool) (loads : Bytes → Option Value)
    (sha256 : Bytes → String) where
  uuid_of :
      (v : Value)
      → is_command_id dumps is_uuid loads sha256 v ≡ ok tt
      → (s : String) × (v ≡ str s) × (is_uuid s ≡ true)
  uuid_of (str s) h = (s, refl, ground arith)
  uuid_of _ h = absurd (cc)

  check_node_message_fields :
      (expected_target : Option String) (fs : Fields)
      → check_node_message dumps is_uuid loads sha256 expected_target (obj fs) ≡ ok tt
      → (kind id : String) × (n : ℕ) × (payload : Fields) × (field "type" fs ≡ some (str kind))
        × (is_in kind message_types ≡ true)
        × (field "command_id" fs ≡ some (str id))
        × (is_uuid id ≡ true)
        × (field "sequence" fs ≡ some (int (pos n)))
        × (n < 2 ^ 32)
        × (field "payload" fs ≡ some (obj payload))
        × (validate_node_payload kind (obj payload) ≡ ok tt)
  unfolding check_node_message
  check_node_message_fields expected_target fs h =
      let kinds = one_of message_types (node_message_error "invalid message type") in
      let ids = is_command_id dumps is_uuid loads sha256 in
      let body =
        λ (kind : Value). check_field "payload" fs (validate_node_payload (type_text kind)) in
      let ends = one_of node_ids (node_message_error "invalid source or target") in
      let (_, h₁) = >>-ok (exact_message (obj fs)) _ h in
      let (_, h₂) = >>-ok (check_field "version" fs is_version) _ h₁ in
      let (typed, h₃) = >>-ok (check_field "type" fs kinds) _ h₂ in
      let (_, h₄) = >>-ok (each_field ("source" ∷ "target" ∷ []) (obj fs) ends) _ h₃ in
      let (_, h₅) = >>-ok (check_field "target" fs (matches expected_target)) _ h₄ in
      let (named, h₆) = >>-ok (check_field "command_id" fs ids) _ h₅ in
      let (numbered, h₇) = >>-ok (check_field "sequence" fs is_uint32) _ h₆ in
      let (_, h₈) = >>-ok (check_field "timestamp" fs is_timestamp) _ h₇ in
      let (filled, h₉) = >>-ok (check_field "payload" fs is_payload) _ h₈ in
      let (valid, _) = >>-ok (check_field "type" fs body) _ h₉ in
      let (v, f, c) = field_of "type" fs kinds typed in
      let (kind, kv, known) = string_of message_types _ v c in
      let (w, g, d) = field_of "command_id" fs ids named in
      let (id, iw, uuid) = uuid_of w d in
      let (u, k, e) = field_of "sequence" fs is_uint32 numbered in
      let (n, nu, small) = uint32_of u e in
      let (p, l, o) = field_of "payload" fs is_payload filled in
      let (payload, pp) = payload_of p o in
      let (v', f', valid') = field_of "type" fs body valid in
      let (p', l', fine) = field_of "payload" fs (validate_node_payload (type_text v')) valid' in
      let same : v' ≡ str kind = cc in
      let full : p' ≡ obj payload = cc in
      (kind, id, n, payload, cc, known, cc, uuid, cc, small, cc, rw (same, full) at fine)

  -- What passes with no expected target passes with one that it names.
  retarget :
      (expected_target : Option String) (fs : Fields)
      → check_node_message dumps is_uuid loads sha256 none (obj fs) ≡ ok tt
      → check_field "target" fs (matches expected_target) ≡ ok tt
      → check_node_message dumps is_uuid loads sha256 expected_target (obj fs) ≡ ok tt
  unfolding check_node_message
  retarget expected_target fs h aimed =
      let kinds = one_of message_types (node_message_error "invalid message type") in
      let ends = one_of node_ids (node_message_error "invalid source or target") in
      let (exact, h₁) = >>-ok (exact_message (obj fs)) _ h in
      let (version, h₂) = >>-ok (check_field "version" fs is_version) _ h₁ in
      let (typed, h₃) = >>-ok (check_field "type" fs kinds) _ h₂ in
      let (known, h₄) = >>-ok (each_field ("source" ∷ "target" ∷ []) (obj fs) ends) _ h₃ in
      let (_, h₅) = >>-ok (check_field "target" fs (matches none)) _ h₄ in
      >>-both (exact_message (obj fs)) _ exact (
        >>-both (check_field "version" fs is_version) _ version (
          >>-both (check_field "type" fs kinds) _ typed (
            >>-both (each_field ("source" ∷ "target" ∷ []) (obj fs) ends) _ known
              (>>-both (check_field "target" fs (matches expected_target)) _ aimed h₅))))

  validate_object :
      (expected_target : Option String) (message checked : Value)
      → validate_node_message dumps is_uuid loads sha256 expected_target message ≡ ok checked
      → (fs : Fields) × (message ≡ obj fs)
        × (checked ≡ message)
        × (check_node_message dumps is_uuid loads sha256 expected_target message ≡ ok tt)
  unfolding validate_node_message check_node_message
  validate_object expected_target message checked h =
      let (u, passes, q) =
        bind_ok (check_node_message dumps is_uuid loads sha256 expected_target message) _ h in
      let (fs, o) = object_of message (>>-ok (exact_message message) _ passes).0 in
      (fs, o, cc, passes)

  dumped :
      (v : Value) (bytes : Bytes)
      → canonical_json dumps is_uuid loads sha256 v ≡ ok bytes
      → dumps v ≡ ok bytes
  unfolding canonical_json
  dumped v bytes h = elim (Result-cases (dumps v)) [
    | inl (b, e) ↦ ground arith
    | inr (x, e) ↦ absurd (ground arith)
  ]

  encoded :
      (message : Value) (wire : Bytes) (limit : ℕ)
      → encode_node_message dumps is_uuid loads sha256 message limit ≡ ok wire
      → (fs : Fields) × (message ≡ obj fs)
        × (check_node_message dumps is_uuid loads sha256 none message ≡ ok tt)
        × (dumps message ≡ ok wire)
        × (leb (length wire) limit ≡ true)
  unfolding encode_node_message
  encoded message wire limit e =
      let positive =
        require (ltb 0 limit) (node_message_error "max datagram size must be positive") in
      let (_, _, e₁) = bind_ok positive _ e in
      let (checked, valid, e₂) =
        bind_ok (validate_node_message dumps is_uuid loads sha256 none message) _ e₁ in
      let (fs, o, same, passes) = validate_object none message checked valid in
      let (bytes, written, e₃) = bind_ok (canonical_json dumps is_uuid loads sha256 checked) _ e₂ in
      let (small, q) = fitting bytes wire limit e₃ in
      (
        fs,
        o,
        passes,
        ap dumps (sym same) ∙ dumped checked bytes written ∙ ap ok (sym q),
        rw q small,
      )

  delivered :
      (expected_target : Option String) (message : Value) (wire : Bytes) (limit : ℕ)
      → leb (length wire) limit ≡ true
      → loads wire ≡ some message
      → check_node_message dumps is_uuid loads sha256 expected_target message ≡ ok tt
      → decode_node_message dumps is_uuid loads sha256 wire expected_target limit ≡ ok message
  unfolding decode_node_message validate_node_message
  delivered expected_target message wire limit small found passes =
      rw (decode_node_message, small, found, validate_node_message, passes) refl

  -- A message that `encode_node_message` writes within a limit is read back by a receiver with the
  -- same limit, where `loads` reads what `dumps` writes for it and it names the expected target.
  pub decode-encode :
      (expected_target : Option String) (message : Value) (wire : Bytes) (limit : ℕ)
      → ((bytes : Bytes) → dumps message ≡ ok bytes → loads bytes ≡ some message)
      → encode_node_message dumps is_uuid loads sha256 message limit ≡ ok wire
      → at_field "target" message (matches expected_target) ≡ ok tt
      → decode_node_message dumps is_uuid loads sha256 wire expected_target limit ≡ ok message
  decode-encode expected_target message wire limit reads e aimed =
      let (fs, o, passes, written, small) = encoded message wire limit e in
      delivered expected_target message wire limit small (reads wire written)
        (rw o (retarget expected_target fs (rw o at passes) (rw o at aimed)))

  -- A message that passes is an object with a known type, a UUID as its command id, a sequence of
  -- 32 bits, and a payload object that passes the checks of the type.
  pub node_message_fields :
      (expected_target : Option String) (message checked : Value)
      → validate_node_message dumps is_uuid loads sha256 expected_target message ≡ ok checked
      → (fs : Fields) × (kind id : String) × (n : ℕ) × (payload : Fields) × (message ≡ obj fs)
        × (field "type" fs ≡ some (str kind))
        × (is_in kind message_types ≡ true)
        × (field "command_id" fs ≡ some (str id))
        × (is_uuid id ≡ true)
        × (field "sequence" fs ≡ some (int (pos n)))
        × (n < 2 ^ 32)
        × (field "payload" fs ≡ some (obj payload))
        × (validate_node_payload kind (obj payload) ≡ ok tt)
  node_message_fields expected_target message checked h =
      let (fs, o, same, passes) = validate_object expected_target message checked h in
      let (kind, id, n, payload, a, b, c, d, q, r, u, w) =
        check_node_message_fields expected_target fs (rw o at passes) in
      (fs, kind, id, n, payload, o, a, b, c, d, q, r, u, w)
