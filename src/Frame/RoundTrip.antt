-- ===== src/Frame/RoundTrip.antt =====
-- What `encode_frame` (shared_protocol/frame.py) writes, `decode_frame` reads.
use low_altitude_io_t_system.Common.{
  Option, Result, Result-cases, String, ap, append_assoc, arith, drop, drop-append_length, inl, inr,
  leb, length, length-append, list_eq, nat_eq, ok, pair_eq, refl, some, string_eq, take,
  take-append_length, true, ℕ, ◌%◌, ◌++◌, ◌+◌, ◌-◌, ◌<◌, ◌==◌, ◌^◌, ◌∙◌, ◌≡◌, ◌≤◌,
}
use low_altitude_io_t_system.Common.Bytes.{from_be, from_be-to_be, length-to_be, to_be}
use low_altitude_io_t_system.Common.Value.{Fields, Value, obj}
use low_altitude_io_t_system.Auth.{Bytes}
use low_altitude_io_t_system.Frame.{
  Frame, MessageType, ack, auth_challenge, auth_response, command, link_blocked, make_frame,
  mission_begin, mission_commit, mission_item, nack, status, type_code, type_of_code,
}
use low_altitude_io_t_system.Messages.{validate_payload}
use low_altitude_io_t_system.Frame.Codec.{
  FrameHeader, as_frame_error, canonical_payload, checksummed, crc_size, decode_frame, encode_frame,
  frame_header_size, frame_magic, frame_of_payload, frame_version, pack_frame_header,
  unpack_frame_header,
}

type_of_code-type_code : (kind : MessageType) → type_of_code (type_code kind) ≡ ok kind
unfolding type_of_code type_code
type_of_code-type_code command = refl
type_of_code-type_code mission_begin = refl
type_of_code-type_code mission_item = refl
type_of_code-type_code mission_commit = refl
type_of_code-type_code ack = refl
type_of_code-type_code nack = refl
type_of_code-type_code status = refl
type_of_code-type_code link_blocked = refl
type_of_code-type_code auth_challenge = refl
type_of_code-type_code auth_response = refl

type_code-lt : (kind : MessageType) → type_code kind < 256
unfolding type_code
type_code-lt command = omega arith
type_code-lt mission_begin = omega arith
type_code-lt mission_item = omega arith
type_code-lt mission_commit = omega arith
type_code-lt ack = omega arith
type_code-lt nack = omega arith
type_code-lt status = omega arith
type_code-lt link_blocked = omega arith
type_code-lt auth_challenge = omega arith
type_code-lt auth_response = omega arith

length-pack_frame_header :
    (v k f s size : ℕ) (id : Bytes)
    → length id ≡ 16
    → length (pack_frame_header v k f s id size) ≡ 31
unfolding pack_frame_header
length-pack_frame_header v k f s size id h = omega (
  arith,
  length-append (to_be 1 v) (to_be 1 k ++ (to_be 1 f ++ (to_be 4 s ++ (id ++ to_be 4 size)))),
  length-append (to_be 1 k) (to_be 1 f ++ (to_be 4 s ++ (id ++ to_be 4 size))),
  length-append (to_be 1 f) (to_be 4 s ++ (id ++ to_be 4 size)),
  length-append (to_be 4 s) (id ++ to_be 4 size),
  length-append id (to_be 4 size),
  length-to_be 1 v,
  length-to_be 1 k,
  length-to_be 1 f,
  length-to_be 4 s,
  length-to_be 4 size,
)

-- The header fields come back, whatever follows them.
unpack-pack_frame_header :
    (v k f s size : ℕ) (id rest : Bytes)
    → length id ≡ 16
    → v < 256
    → k < 256
    → f < 256
    → s < 2 ^ 32
    → size < 2 ^ 32
    → unpack_frame_header (pack_frame_header v k f s id size ++ rest) ≡ record {
      tag = frame_magic;
      version = v;
      raw_type = k;
      flags = f;
      sequence = s;
      id = id;
      size = size;
    }
unfolding pack_frame_header unpack_frame_header
unpack-pack_frame_header v k f s size id rest h hv hk hf hs hz =
    let a = to_be 1 v in
    let b = to_be 1 k in
    let c = to_be 1 f in
    let d = to_be 4 s in
    let e = to_be 4 size in
    let regroup : (a ++ (b ++ (c ++ (d ++ (id ++ e))))) ++ rest
        ≡ a ++ (b ++ (c ++ (d ++ (id ++ (e ++ rest))))) =
      simp append_assoc in
    rw
      (
        regroup,
        take-append_length 1 a (b ++ (c ++ (d ++ (id ++ (e ++ rest))))) (length-to_be 1 v),
        drop-append_length 1 a (b ++ (c ++ (d ++ (id ++ (e ++ rest))))) (length-to_be 1 v),
        take-append_length 1 b (c ++ (d ++ (id ++ (e ++ rest)))) (length-to_be 1 k),
        drop-append_length 1 b (c ++ (d ++ (id ++ (e ++ rest)))) (length-to_be 1 k),
        take-append_length 1 c (d ++ (id ++ (e ++ rest))) (length-to_be 1 f),
        drop-append_length 1 c (d ++ (id ++ (e ++ rest))) (length-to_be 1 f),
        take-append_length 4 d (id ++ (e ++ rest)) (length-to_be 4 s),
        drop-append_length 4 d (id ++ (e ++ rest)) (length-to_be 4 s),
        take-append_length 16 id (e ++ rest) h,
        drop-append_length 16 id (e ++ rest) h,
        take-append_length 4 e rest (length-to_be 4 size),
        from_be-to_be 1 v hv,
        from_be-to_be 1 k hk,
        from_be-to_be 1 f hf,
        from_be-to_be 4 s hs,
        from_be-to_be 4 size hz,
      )
      refl

module _ (dumps : Value → Result Bytes) (loads : Bytes → Option Value) (crc32 : Bytes → ℕ)
    (uuid_bytes : String → Bytes) (uuid_text : Bytes → String) where
  -- The body of an encoded frame, with the payload's bytes.
  abbrev body_of : Frame → Bytes → Bytes
  body_of f bytes =
      pack_frame_header frame_version (type_code f.message_type) f.flags f.sequence
        (uuid_bytes f.command_id) (length bytes)
      ++ bytes

  canonical_payload_cases :
      (kind : MessageType) (payload : Fields) (bytes : Bytes)
      → canonical_payload dumps loads crc32 uuid_bytes uuid_text kind payload ≡ ok bytes
      → (validate_payload kind payload ≡ ok tt) × (dumps (obj payload) ≡ ok bytes)
  unfolding canonical_payload
  canonical_payload_cases kind payload bytes e =
      elim (Result-cases (validate_payload kind payload)) [
        | inr (x, invalid) ↦ absurd (ground arith)
        | inl (u, valid) ↦ elim (Result-cases (dumps (obj payload))) [
          | inr (x, failed) ↦ absurd (ground arith)
          | inl (b, dumped) ↦ (valid, ground arith)
        ]
      ]

  encode_frame_cases :
      (f : Frame) (limit : ℕ) (wire : Bytes)
      → encode_frame dumps loads crc32 uuid_bytes uuid_text f limit ≡ ok wire
      → (bytes : Bytes) × (validate_payload f.message_type f.payload ≡ ok tt)
        × (dumps (obj f.payload) ≡ ok bytes)
        × (length bytes ≤ limit)
        × (f.flags < 256)
        × (f.sequence < 2 ^ 32)
        × (length bytes < 2 ^ 32)
        × (wire ≡ checksummed dumps loads crc32 uuid_bytes uuid_text (body_of f bytes))
  unfolding encode_frame
  encode_frame_cases f limit wire e =
      elim (Result-cases
        (canonical_payload dumps loads crc32 uuid_bytes uuid_text f.message_type f.payload)) [
          | inr (x, failed) ↦ absurd (ground arith)
          | inl (bytes, done) ↦
              let (valid, dumped) = canonical_payload_cases f.message_type f.payload bytes done in
              (
                bytes,
                valid,
                dumped,
                ground arith,
                ground arith,
                ground arith,
                ground arith,
                ground arith,
              )
        ]

  frame_of_payload_ok :
      (f : Frame) (size : ℕ)
      → f.flags < 256
      → f.sequence < 2 ^ 32
      → uuid_text (uuid_bytes f.command_id) ≡ f.command_id
      → validate_payload f.message_type f.payload ≡ ok tt
      → frame_of_payload dumps loads crc32 uuid_bytes uuid_text
          (record {
            tag = frame_magic;
            version = frame_version;
            raw_type = type_code f.message_type;
            flags = f.flags;
            sequence = f.sequence;
            id = uuid_bytes f.command_id;
            size = size;
          })
          f.message_type
          (obj f.payload)
        ≡ ok f
  unfolding frame_of_payload make_frame
  frame_of_payload_ok f size hf hs same valid =
      let flags : leb f.flags 0xff ≡ true = ground arith in
      let sequence : leb f.sequence 0xffff_ffff ≡ true = ground arith in
      rw (flags, sequence, same, valid) refl

  abbrev decodes : Bytes → ℕ → Result Frame
  decodes = decode_frame dumps loads crc32 uuid_bytes uuid_text

  -- The checks of `decode_frame` pass on bytes with these parts.
  decode_parts :
      (wire body sum : Bytes) (limit : ℕ) (h : FrameHeader) (kind : MessageType) (payload : Value)
      → unpack_frame_header wire ≡ h
      → take (length wire - crc_size) wire ≡ body
      → drop (length wire - crc_size) wire ≡ sum
      → length wire ≡ frame_header_size + h.size + crc_size
      → h.tag ≡ frame_magic
      → h.version ≡ frame_version
      → h.size ≤ limit
      → from_be sum ≡ crc32 body % 2 ^ 32
      → type_of_code h.raw_type ≡ ok kind
      → loads (drop frame_header_size body) ≡ some payload
      → decodes wire limit
        ≡ as_frame_error "invalid frame payload"
            (frame_of_payload dumps loads crc32 uuid_bytes uuid_text h kind payload)
  unfolding decode_frame
  decode_parts wire body sum limit h kind payload u t d l tag version small crc typed read =
      let long : leb (frame_header_size + crc_size) (length wire) ≡ true = ground arith in
      let fits : leb h.size limit ≡ true = ground arith in
      let exact : (length wire == frame_header_size + h.size + crc_size) ≡ true = ground arith in
      let equal : (crc32 body % 2 ^ 32 == from_be sum) ≡ true = ground arith in
      let tagged : (h.tag == frame_magic) ≡ true = (list_eq.beq_iff h.tag frame_magic).1 tag in
      let versioned : (h.version == frame_version) ≡ true = ground arith in
      rw (decode_frame, long, u, t, d, tagged, versioned, fits, exact, equal, typed, read) refl

  -- A frame that `encode_frame` writes within a limit is the frame that `decode_frame` reads with the
  -- same limit, where the sixteen bytes of its command id name that id and `loads` reads what `dumps`
  -- writes for its payload.
  pub decode_frame-encode_frame :
      (f : Frame) (limit : ℕ) (wire : Bytes)
      → length (uuid_bytes f.command_id) ≡ 16
      → uuid_text (uuid_bytes f.command_id) ≡ f.command_id
      → ((bytes : Bytes) → dumps (obj f.payload) ≡ ok bytes → loads bytes ≡ some (obj f.payload))
      → encode_frame dumps loads crc32 uuid_bytes uuid_text f limit ≡ ok wire
      → decode_frame dumps loads crc32 uuid_bytes uuid_text wire limit ≡ ok f
  decode_frame-encode_frame f limit wire sized same reads e =
      let (bytes, valid, dumped, small, hf, hs, hz, shape) = encode_frame_cases f limit wire e in
      let id = uuid_bytes f.command_id in
      let code = type_code f.message_type in
      let header : Bytes =
        pack_frame_header frame_version code f.flags f.sequence id (length bytes) in
      let body : Bytes = header ++ bytes in
      let crc = crc32 body % 2 ^ 32 in
      let sum : Bytes = to_be 4 crc in
      let long : length body ≡ 31 + length bytes = omega (
        arith,
        length-append header bytes,
        length-pack_frame_header frame_version code f.flags f.sequence (length bytes) id sized,
      ) in
      let cut : length (body ++ sum) - crc_size ≡ length body =
        omega (arith, length-append body sum, length-to_be 4 crc) in
      let whole : length (body ++ sum) ≡ frame_header_size + length bytes + crc_size =
        omega (arith, length-append body sum, length-to_be 4 crc, long) in
      let unpacked =
        ap unpack_frame_header (append_assoc header bytes sum)
        ∙ unpack-pack_frame_header frame_version code f.flags f.sequence (length bytes) id
            (bytes ++ sum) sized (omega arith) (type_code-lt f.message_type) hf hs hz in
      let front : take (length (body ++ sum) - crc_size) (body ++ sum) ≡ body =
        rw cut (take-append_length (length body) body sum refl) in
      let back : drop (length (body ++ sum) - crc_size) (body ++ sum) ≡ sum =
        rw cut (drop-append_length (length body) body sum refl) in
      let read : loads (drop frame_header_size body) ≡ some (obj f.payload) =
        ap loads (
          drop-append_length 31 header bytes (
            length-pack_frame_header frame_version code f.flags f.sequence (length bytes) id sized))
        ∙ reads bytes dumped in
      ap (λ w. decodes w limit) shape
      ∙ decode_parts (body ++ sum) body sum limit _ f.message_type (obj f.payload) unpacked front
          back whole refl refl small (from_be-to_be 4 crc (omega arith))
          (type_of_code-type_code f.message_type) read
      ∙ ap (as_frame_error "invalid frame payload")
          (frame_of_payload_ok f (length bytes) hf hs same valid)
