-- ===== src/Frame/Examples.antt =====
-- Concrete frames as bytes, for shared_protocol/frame.py.
use low_altitude_io_t_system.Common.{
  Option, Result, String, [], arith, list_eq, nat_eq, ok, pair_eq, refl, replicate, some, string_eq,
  ℕ, ◌%◌, ◌++◌, ◌<◌, ◌^◌, ◌∷◌, ◌≡◌, ◌≢◌,
}
use low_altitude_io_t_system.Common.Bytes.{from_be, to_be}
use low_altitude_io_t_system.Common.Value.{Value, end, entry, field, has_field, keys, obj, str}
use low_altitude_io_t_system.Auth.{Bytes}
use low_altitude_io_t_system.Frame.{Frame, command, type_code}
use low_altitude_io_t_system.Messages.{object_fields, string, validate_payload}
use low_altitude_io_t_system.Frame.Codec.{
  canonical_payload, decode_frame, encode_frame, pack_frame_header,
}
use low_altitude_io_t_system.Frame.RoundTrip.{decode_frame-encode_frame}
use low_altitude_io_t_system.Frame.Stream.{FrameDecoder, feed}
use low_altitude_io_t_system.Frame.Stream.Wire.{feed-wire}

abbrev arm_frame : Frame
arm_frame = record {
  message_type = command;
  flags = 3;
  sequence = 70_000;
  command_id = "c1";
  payload = entry "action" (str "arm") end;
}

-- Stand-ins for JSON, the checksum and the bytes of a UUID.
abbrev toy_dumps : Value → Result Bytes
toy_dumps v = ok (123 ∷ 125 ∷ [])

abbrev toy_loads : Bytes → Option Value
toy_loads bytes = some (obj arm_frame.payload)

abbrev toy_crc : Bytes → ℕ
toy_crc bytes = from_be bytes

abbrev toy_uuid_bytes : String → Bytes
toy_uuid_bytes s = replicate 16 9

abbrev toy_uuid_text : Bytes → String
toy_uuid_text bytes = "c1"

abbrev arm_wire : Bytes
arm_wire =
    let body : Bytes = pack_frame_header 1 1 3 70_000 (replicate 16 9) 2 ++ (123 ∷ 125 ∷ []) in
    body ++ to_be 4 (from_be body % 2 ^ 32)

arm_encoded :
    encode_frame toy_dumps toy_loads toy_crc toy_uuid_bytes toy_uuid_text arm_frame 1024
    ≡ ok arm_wire
unfolding encode_frame canonical_payload pack_frame_header validate_payload object_fields string
    field has_field keys type_code
arm_encoded = refl

decode_frame-encode_frame_example :
    decode_frame toy_dumps toy_loads toy_crc toy_uuid_bytes toy_uuid_text arm_wire 1024
    ≡ ok arm_frame
decode_frame-encode_frame_example =
    decode_frame-encode_frame toy_dumps toy_loads toy_crc toy_uuid_bytes toy_uuid_text arm_frame
      1024 arm_wire refl refl (λ bytes e. refl) arm_encoded

abbrev wire_frames : FrameDecoder
wire_frames = record { max_payload_length = 1024; buffer = [] }

arm_decoded :
    (limit : ℕ)
    → limit ≡ 1024
    → decode_frame toy_dumps toy_loads toy_crc toy_uuid_bytes toy_uuid_text arm_wire limit
      ≡ ok arm_frame
arm_decoded limit e = rw e (
    decode_frame-encode_frame toy_dumps toy_loads toy_crc toy_uuid_bytes toy_uuid_text arm_frame
      1024 arm_wire refl refl (λ bytes e. refl) arm_encoded)

feed-wire_example :
    feed toy_dumps toy_loads toy_crc toy_uuid_bytes toy_uuid_text wire_frames
      ((1 ∷ 2 ∷ []) ++ (arm_wire ++ ([] ++ (arm_wire ++ []))))
    ≡ (ok (arm_frame ∷ arm_frame ∷ []), wire_frames)
feed-wire_example =
    feed-wire toy_dumps toy_loads toy_crc toy_uuid_bytes toy_uuid_text wire_frames
      ((1 ∷ 2 ∷ [], arm_wire, arm_frame) ∷ ([], arm_wire, arm_frame) ∷ []) refl
      (
        (noise 1 (omega arith), (noise 2 (omega arith), tt)),
        arm_decoded 1024 refl,
        (tt, arm_decoded 1024 refl, tt),
      )
  where
    noise : (b : ℕ) → b < 76 → b ≢ 76
    noise b h e = absurd (omega arith)
