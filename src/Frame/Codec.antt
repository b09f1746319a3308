-- ===== src/Frame/Codec.antt =====
-- shared_protocol/frame.py: frames as bytes. `json.dumps` and `json.loads` in UTF-8, `zlib.crc32`
-- and the sixteen bytes of a UUID are parameters.
use low_altitude_io_t_system.Common.{overflow_error}
use low_altitude_io_t_system.Common.{
  Option, Result, String, [], bind, drop, err, frame_error, leb, length, list_eq, ltb, nat_eq, ok,
  or_raise, pair_eq, require, string_eq, struct_error, take, value_error, ℕ, ◌%◌, ◌&&◌, ◌++◌, ◌+◌,
  ◌-◌, ◌==◌, ◌^◌, ◌∷◌,
}
use low_altitude_io_t_system.Common.Bytes.{from_be, to_be}
use low_altitude_io_t_system.Common.Value.{Fields, Value, obj}
use low_altitude_io_t_system.Auth.{Bytes}
use low_altitude_io_t_system.Frame.{Frame, MessageType, make_frame, type_code, type_of_code}
use low_altitude_io_t_system.Messages.{validate_payload}

abbrev pub frame_magic : Bytes
frame_magic = 76 ∷ 73 ∷ 79 ∷ 84 ∷ []

abbrev pub frame_version : ℕ
frame_version = 1

abbrev pub frame_header_size : ℕ
frame_header_size = 31

abbrev pub crc_size : ℕ
crc_size = 4

-- `struct.Struct(">4sBBB I 16s I").pack(…)`
unfoldable pub pack_frame_header : ℕ → ℕ → ℕ → ℕ → Bytes → ℕ → Bytes
pack_frame_header version raw_type flags sequence id size =
    frame_magic
    ++ (to_be 1 version
        ++ (to_be 1 raw_type ++ (to_be 1 flags ++ (to_be 4 sequence ++ (id ++ to_be 4 size)))))

-- The fields of the same format, read back.
pub record FrameHeader : Type 0 where
  pub tag : Bytes
  pub version : ℕ
  pub raw_type : ℕ
  pub flags : ℕ
  pub sequence : ℕ
  pub id : Bytes
  pub size : ℕ

abbrev behind_flags : Bytes → Bytes
behind_flags b = drop 1 (drop 1 (drop 1 (drop 4 b)))

unfoldable pub unpack_frame_header : Bytes → FrameHeader
unpack_frame_header b = record {
  tag = take 4 b;
  version = from_be (take 1 (drop 4 b));
  raw_type = from_be (take 1 (drop 1 (drop 4 b)));
  flags = from_be (take 1 (drop 1 (drop 1 (drop 4 b))));
  sequence = from_be (take 4 (behind_flags b));
  id = take 16 (drop 4 (behind_flags b));
  size = from_be (take 4 (drop 16 (drop 4 (behind_flags b))));
}

abbrev pub as_frame_error : {A : Type 0} → String → Result A → Result A
as_frame_error text (ok a) = ok a
as_frame_error text (err (overflow_error s)) = err (overflow_error s)
as_frame_error text (err x) = err (frame_error text)

module _ (dumps : Value → Result Bytes) (loads : Bytes → Option Value) (crc32 : Bytes → ℕ)
    (uuid_bytes : String → Bytes) (uuid_text : Bytes → String) where
  -- `_canonical_payload`
  unfoldable pub canonical_payload : MessageType → Fields → Result Bytes
  canonical_payload kind payload = bind (validate_payload kind payload) λ _.
      elim (dumps (obj payload)) [
        | ok bytes ↦ ok bytes
        | err x ↦ err (value_error "payload is not valid JSON")
      ]

  abbrev pub checksummed : Bytes → Bytes
  checksummed body = body ++ to_be 4 (crc32 body % 2 ^ 32)

  -- `encode_frame`; `pack` refuses what does not fit its field.
  unfoldable pub encode_frame : Frame → ℕ → Result Bytes
  unfolding canonical_payload pack_frame_header
  encode_frame f limit = bind (canonical_payload f.message_type f.payload) λ payload.
      bind (require (leb (length payload) limit) (frame_error "payload length exceeds limit")) λ _.
        bind
          (require (ltb f.flags 256 && ltb f.sequence (2 ^ 32) && ltb (length payload) (2 ^ 32))
            (struct_error "argument out of range"))
          λ _. ok (
            checksummed (
              pack_frame_header frame_version (type_code f.message_type) f.flags f.sequence
                (uuid_bytes f.command_id) (length payload)
              ++ payload))

  -- The frame of a header whose payload was read.
  unfoldable pub frame_of_payload : FrameHeader → MessageType → Value → Result Frame
  unfolding make_frame
  frame_of_payload h kind payload =
      bind (make_frame kind h.flags h.sequence (uuid_text h.id) payload)
        λ f. bind (validate_payload kind f.payload) λ _. ok f

  -- `decode_frame`
  unfoldable pub decode_frame : Bytes → ℕ → Result Frame
  decode_frame b limit =
      bind
        (require (leb (frame_header_size + crc_size) (length b)) (frame_error "frame is truncated"))
        λ _.
          let h = unpack_frame_header b in
          let body = take (length b - crc_size) b in
          let sum = from_be (drop (length b - crc_size) b) in
          bind (require (h.tag == frame_magic) (frame_error "bad magic")) λ _.
            bind (require (h.version == frame_version) (frame_error "unsupported version")) λ _.
              bind (require (leb h.size limit) (frame_error "payload length exceeds limit")) λ _.
                bind
                  (require (length b == frame_header_size + h.size + crc_size)
                    (frame_error "frame length mismatch"))
                  λ _. bind (require (crc32 body % 2 ^ 32 == sum) (frame_error "bad CRC")) λ _.
                    bind (as_frame_error "invalid type or JSON payload" (type_of_code h.raw_type))
                      λ kind.
                        bind
                          (or_raise (loads (drop frame_header_size body))
                            (frame_error "invalid type or JSON payload"))
                          λ payload.
                            as_frame_error "invalid frame payload" (frame_of_payload h kind payload)
