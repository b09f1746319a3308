-- ===== src/Frame/Stream/Wire.antt =====
-- A stream decoder reads off the wire what `decode_frame` reads.
use low_altitude_io_t_system.Common.{subst, sym, ap, ◌++◌, ◌∙◌}
use low_altitude_io_t_system.Frame.Stream.{feed_result}
use low_altitude_io_t_system.Common.{ok, none}
use low_altitude_io_t_system.Common.{
  List, Option, Result, Result-cases, String, [], ap, append-nil, arith, drop, drop-append_le,
  drop-append_length, false, inl, inr, length, length-append, length-drop, length-take, list_eq,
  ltb, nat_eq, ok, pair_eq, refl, some, string_eq, suc, sym, take, take-append_le,
  take-append_length, true, zero, ℕ, ◌++◌, ◌+◌, ◌<◌, ◌==◌, ◌∙◌, ◌∷◌, ◌≡◌, ◌≢◌, ◌≤◌,
}
use low_altitude_io_t_system.Common.Search.{find, find_first}
use low_altitude_io_t_system.Common.Value.{Value}
use low_altitude_io_t_system.Auth.{Bytes}
use low_altitude_io_t_system.Frame.{Frame, type_of_code}
use low_altitude_io_t_system.Frame.Codec.{
  FrameHeader, crc_size, decode_frame, frame_header_size, frame_magic, frame_version,
  unpack_frame_header,
}
use low_altitude_io_t_system.Frame.Stream.{
  FrameDecoder, feed, gives, returns, round, round_at, round_frame, round_from, take_frames,
}

-- The fields of the header are read from its first 31 bytes.
unpack_frame_header-append :
    (b x : Bytes) → 31 ≤ length b → unpack_frame_header (b ++ x) ≡ unpack_frame_header b
unfolding unpack_frame_header
unpack_frame_header-append b x h =
    let b4 = drop 4 b in
    let h4 : 27 ≤ length b4 = omega (arith, length-drop 4 b) in
    let b5 = drop 1 b4 in
    let h5 : 26 ≤ length b5 = omega (arith, length-drop 1 b4) in
    let b6 = drop 1 b5 in
    let h6 : 25 ≤ length b6 = omega (arith, length-drop 1 b5) in
    let b7 = drop 1 b6 in
    let h7 : 24 ≤ length b7 = omega (arith, length-drop 1 b6) in
    let b11 = drop 4 b7 in
    let h11 : 20 ≤ length b11 = omega (arith, length-drop 4 b7) in
    let b27 = drop 16 b11 in
    let h27 : 4 ≤ length b27 = omega (arith, length-drop 16 b11) in
    rw (
      take-append_le 4 b x (omega arith),
      drop-append_le 4 b x (omega arith),
      take-append_le 1 b4 x (omega arith),
      drop-append_le 1 b4 x (omega arith),
      take-append_le 1 b5 x (omega arith),
      drop-append_le 1 b5 x (omega arith),
      take-append_le 1 b6 x (omega arith),
      drop-append_le 1 b6 x (omega arith),
      take-append_le 4 b7 x (omega arith),
      drop-append_le 4 b7 x (omega arith),
      take-append_le 16 b11 x (omega arith),
      drop-append_le 16 b11 x (omega arith),
      take-append_le 4 b27 x (omega arith),
    )

-- Bytes with no `L`, so with no beginning of a magic in them.
abbrev pub IsNoise : Bytes → Type 0
IsNoise [] = Unit {0}
IsNoise (b ∷ bs) = (b ≢ 76) × IsNoise bs

find-noise :
    (noise e : Bytes)
    → IsNoise noise
    → take 4 e ≡ frame_magic
    → find frame_magic (noise ++ e) ≡ some (length noise)
unfolding find
find-noise [] e q t =
    let long = ap (λ (l : Bytes). length l) t in
    rw append-nil at
      (find_first frame_magic e [] t (omega arith) (omega (arith, long, length-take 4 e)))
find-noise (b ∷ bs) e q t =
    let other : (b == 76) ≡ false = ground arith in
    rw (find-noise bs e q.1 t) (rw other (ap some (omega arith)))

-- What a round needs to know of bytes that `decode_frame` accepts.
record IsFrame (limit : ℕ) (e : Bytes) : Type 0 where
  tagged : take 4 e ≡ frame_magic
  versioned : (unpack_frame_header e).version ≡ frame_version
  small : (unpack_frame_header e).size ≤ limit
  sized : length e ≡ frame_header_size + (unpack_frame_header e).size + crc_size
  typed : returns (type_of_code (unpack_frame_header e).raw_type) ≡ true

tag_lem : (e : Bytes) → (unpack_frame_header e).tag ≡ take 4 e
unfolding unpack_frame_header
tag_lem e = refl

module _ (dumps : Value → Result Bytes) (loads : Bytes → Option Value) (crc32 : Bytes → ℕ)
    (uuid_bytes : String → Bytes) (uuid_text : Bytes → String) where
  decode_frame-IsFrame :
      (limit : ℕ) (e : Bytes) (f : Frame)
      → decode_frame dumps loads crc32 uuid_bytes uuid_text e limit ≡ ok f
      → IsFrame limit e
  unfolding decode_frame
  decode_frame-IsFrame limit e f h = record {
    tagged =
        sym (tag_lem e)
        ∙ (list_eq.beq_iff (unpack_frame_header e).tag frame_magic).0 (ground arith);
    versioned = ground arith;
    small = ground arith;
    sized = ground arith;
    typed = elim (Result-cases (type_of_code (unpack_frame_header e).raw_type)) [
      | inl (kind, known) ↦ rw known refl
      | inr (x, unknown) ↦ absurd (ground arith)
    ];
  }

  -- The round on a frame whose magic is the first.
  round_from-IsFrame :
      (limit : ℕ) (e x : Bytes) (f : Frame)
      → IsFrame limit e
      → decode_frame dumps loads crc32 uuid_bytes uuid_text e limit ≡ ok f
      → round_from dumps loads crc32 uuid_bytes uuid_text limit (e ++ x) ≡ gives f x
  unfolding round_frame
  round_from-IsFrame limit e x f v read =
      let h : FrameHeader = unpack_frame_header e in
      let total = frame_header_size + h.size + crc_size in
      let long : 31 ≤ length e = omega (arith, v.sized) in
      let same = unpack_frame_header-append e x long in
      let grown = length-append e x in
      let size : length e ≡ total = v.sized in
      let header : ltb (length (e ++ x)) frame_header_size ≡ false = ground arith in
      let there : ltb (length (e ++ x)) total ≡ false = ground arith in
      let version : (h.version == frame_version) ≡ true =
        (nat_eq.beq_iff h.version frame_version).1 v.versioned in
      let small : ltb limit h.size ≡ false = ground (arith, v.small) in
      let tag : (h.tag == frame_magic) ≡ true =
        (list_eq.beq_iff h.tag frame_magic).1 (tag_lem e ∙ v.tagged) in
      rw
        (header, same, v.typed, tag, version, small, there, take-append_length total e x size, read)
        (rw (same, drop-append_length total e x size) refl)

  -- The same behind noise.
  round-IsFrame :
      (limit : ℕ) (noise e x : Bytes) (f : Frame)
      → IsNoise noise
      → decode_frame dumps loads crc32 uuid_bytes uuid_text e limit ≡ ok f
      → round dumps loads crc32 uuid_bytes uuid_text limit (noise ++ (e ++ x)) ≡ gives f x
  unfolding round
  round-IsFrame limit noise e x f q read =
      let v = decode_frame-IsFrame limit e f read in
      let front = take-append_le 4 e x (omega (arith, v.sized)) ∙ v.tagged in
      let on : round_at dumps loads crc32 uuid_bytes uuid_text limit (noise ++ (e ++ x))
            (find frame_magic (noise ++ (e ++ x)))
          ≡ round_from dumps loads crc32 uuid_bytes uuid_text limit
              (drop (length noise) (noise ++ (e ++ x))) =
        ap (λ o. round_at dumps loads crc32 uuid_bytes uuid_text limit (noise ++ (e ++ x)) o)
          (find-noise noise (e ++ x) q front) in
      on
      ∙ ap (λ b. round_from dumps loads crc32 uuid_bytes uuid_text limit b)
          (drop-append_length (length noise) noise (e ++ x) refl)
      ∙ round_from-IsFrame limit e x f v read

  -- Noise and the bytes of a frame, in turn.
  abbrev pub Part : Type 0
  Part = Bytes × Bytes × Frame

  abbrev pub wire : List Part → Bytes
  wire [] = []
  wire ((noise, e, f) ∷ parts) = noise ++ (e ++ wire parts)

  abbrev pub frames_of : List Part → List Frame
  frames_of [] = []
  frames_of ((noise, e, f) ∷ parts) = f ∷ frames_of parts

  -- The noise is noise, and `decode_frame` reads the frame from the bytes.
  abbrev pub AreParts : ℕ → List Part → Type 0
  AreParts limit [] = Unit {0}
  AreParts limit ((noise, e, f) ∷ parts) =
      IsNoise noise
      × (decode_frame dumps loads crc32 uuid_bytes uuid_text e limit ≡ ok f)
      × AreParts limit parts

  take_frames-wire :
      (n limit : ℕ) (parts : List Part)
      → AreParts limit parts
      → length (wire parts) < n
      → take_frames dumps loads crc32 uuid_bytes uuid_text n limit (wire parts)
        ≡ record { frames = frames_of parts; rest = []; raised = none }
  unfolding take_frames round find
  take_frames-wire zero limit parts v h = absurd (omega arith)
  take_frames-wire (suc n) limit [] v h = refl
  take_frames-wire (suc n) limit ((noise, e, f) ∷ parts) (q, read, v) h =
      let size = (decode_frame-IsFrame limit e f read).sized in
      let later : length (wire parts) < n =
        omega (arith, length-append noise (e ++ wire parts), length-append e (wire parts)) in
      rw (round-IsFrame limit noise e (wire parts) f q read, take_frames-wire n limit parts v later)
        refl

  -- From a stream of bytes that `decode_frame` accepts, with noise between them in which no magic
  -- can begin, a decoder with an empty buffer and the same limit takes the same frames, each once
  -- and in their order, and nothing stays in its buffer.
  pub feed-wire :
      (d : FrameDecoder) (parts : List Part)
      → d.buffer ≡ []
      → AreParts d.max_payload_length parts
      → feed dumps loads crc32 uuid_bytes uuid_text d (wire parts) ≡ (ok (frames_of parts), d)
  unfolding feed
  feed-wire d parts empty v =
      let b = d.buffer ++ wire parts in
      let all : b ≡ wire parts = ap (λ z. z ++ wire parts) empty in
      let taken : take_frames dumps loads crc32 uuid_bytes uuid_text (length b + 1)
            d.max_payload_length b
          ≡ record { frames = frames_of parts; rest = []; raised = none } =
        subst
          (λ z.
            take_frames dumps loads crc32 uuid_bytes uuid_text (length z + 1) d.max_payload_length z
            ≡ record { frames = frames_of parts; rest = []; raised = none })
          (sym all)
          (take_frames-wire (length (wire parts) + 1) d.max_payload_length parts v (omega arith)) in
      ap (feed_result d) taken
      ∙ ap (λ z. (ok (frames_of parts), record d { buffer = z })) (sym empty)
