-- ===== src/Frame/Stream.antt =====
-- shared_protocol/frame.py, class FrameDecoder: frames cut from a byte stream, with a scan forward
-- behind corrupt bytes.
mod Loop
pub mod Wire
use low_altitude_io_t_system.Common.{Error, frame_error}
use low_altitude_io_t_system.Common.{
  Bool, Bool-cases, Eq, List, Option, Result, String, [], drop, err, false, if◌then◌else◌, leb,
  length, list_eq, ltb, min, nat_eq, none, not, ok, pair_eq, some, string_eq, suc, take, take_last,
  true, value_error, zero, ℕ, ◌&&◌, ◌++◌, ◌+◌, ◌-◌, ◌==◌, ◌||◌, ◌∷◌, ◌≢◌,
}
use low_altitude_io_t_system.Common.Search.{find, find_from, later}
use low_altitude_io_t_system.Common.Int.{negsuc, pos, ℤ}
use low_altitude_io_t_system.Common.Value.{Value}
use low_altitude_io_t_system.Auth.{Bytes}
use low_altitude_io_t_system.Frame.{Frame, type_of_code}
use low_altitude_io_t_system.Frame.Codec.{
  crc_size, decode_frame, frame_header_size, frame_magic, frame_version, unpack_frame_header,
}

pub record FrameDecoder : Type 0 where
  pub max_payload_length : ℕ
  pub buffer : Bytes

-- `FrameDecoder(max_payload_length)`
unfoldable pub open_frame_decoder : ℤ → Result FrameDecoder
open_frame_decoder (pos n) = ok (record { max_payload_length = n; buffer = [] })
open_frame_decoder (negsuc n) = err (value_error "max_payload_length must be non-negative")

abbrev pub returns : {A : Type 0} → Result A → Bool
returns (ok a) = true
returns (err x) = false

-- `except FrameError`
abbrev pub is_frame_error : Error → Bool
is_frame_error (frame_error s) = true
is_frame_error x = false

-- One round of the loop of `feed`: it breaks, deletes bytes and goes on, takes a frame out, or raises
-- with the buffer as it is.
pub data Round : Type 0 where
  waits : Bytes → Round
  skips : Bytes → Round
  gives : Frame → Bytes → Round
  raises : Error → Bytes → Round

-- The place where a frame was read, or the rest of the scan.
abbrev pub found_or : Result (Option ℕ) → ℕ → Result Frame → Result (Option ℕ)
found_or on start (ok f) = ok (some start)
found_or on start (err x) = if is_frame_error x then on else err x

-- What the loop has taken out, what it leaves, and the exception that ended it.
pub record Taken : Type 0 where
  pub frames : List Frame
  pub rest : Bytes
  pub raised : Option Error

-- The rest of the loop behind a round.
abbrev pub after_round : (Bytes → Taken) → Round → Taken
after_round loop (waits kept) = record { frames = []; rest = kept; raised = none }
after_round loop (skips left) = loop left
after_round loop (gives f left) =
    let later = loop left in
    record { frames = f ∷ later.frames; rest = later.rest; raised = later.raised }
after_round loop (raises x kept) = record { frames = []; rest = kept; raised = some x }

-- What `feed` returns or raises, and the decoder afterwards; an exception takes the frames of the
-- call with it.
abbrev pub feed_result : FrameDecoder → Taken → Result (List Frame) × FrameDecoder
feed_result d t =
    let d' : FrameDecoder = record d { buffer = t.rest } in
    elim t.raised [ none ↦ (ok t.frames, d') | some x ↦ (err x, d') ]

module _ (dumps : Value → Result Bytes) (loads : Bytes → Option Value) (crc32 : Bytes → ℕ)
    (uuid_bytes : String → Bytes) (uuid_text : Bytes → String) where
  -- `_complete_frame_start_after_current` from a place on where the magic was found. Every round
  -- finds it further on, so the length of the buffer in rounds is enough.
  unfoldable pub complete_frame_start : ℕ → ℕ → Bytes → Option ℕ → Result (Option ℕ)
  complete_frame_start rounds limit b none = ok none
  complete_frame_start zero limit b (some start) = ok none
  complete_frame_start (suc rounds) limit b (some start) =
      let on = complete_frame_start rounds limit b (find_from frame_magic (start + 1) b) in
      let size = (unpack_frame_header (drop start b)).size in
      let total = frame_header_size + size + crc_size in
      let here =
        found_or on start
          (decode_frame dumps loads crc32 uuid_bytes uuid_text (take total (drop start b)) limit) in
      if ltb (length b - start) (frame_header_size + crc_size)
      then ok none
      else if leb size limit && leb total (length b - start)
      then here
      else on

  -- `_complete_frame_start_after_current`
  unfoldable pub complete_frame_start_after_current : ℕ → Bytes → Result (Option ℕ)
  unfolding complete_frame_start
  complete_frame_start_after_current limit b =
      complete_frame_start (length b) limit b (find_from frame_magic 1 b)

  -- A round from the magic on, where the header is there.
  unfoldable pub round_frame : ℕ → Bytes → Round
  round_frame limit b =
      let h = unpack_frame_header b in
      let total = frame_header_size + h.size + crc_size in
      if not (returns (type_of_code h.raw_type))
      then skips (drop 1 b)
      else if not (h.tag == frame_magic) || not (h.version == frame_version) || ltb limit h.size
      then skips (drop 1 b)
      else if ltb (length b) total
      then elim (complete_frame_start_after_current limit b) [
        | err x ↦ raises x b
        | ok none ↦ waits b
        | ok (some next) ↦ skips (drop next b)
      ]
      else elim (decode_frame dumps loads crc32 uuid_bytes uuid_text (take total b) limit) [
        | ok f ↦ gives f (drop total b)
        | err x ↦ if is_frame_error x then skips (drop 1 b) else raises x b
      ]

  abbrev pub round_from : ℕ → Bytes → Round
  round_from limit b = if ltb (length b) frame_header_size then waits b else round_frame limit b

  abbrev pub round_at : ℕ → Bytes → Option ℕ → Round
  round_at limit b none = waits (take_last (min (length b) (length frame_magic - 1)) b)
  round_at limit b (some start) = round_from limit (drop start b)

  unfoldable pub round : ℕ → Bytes → Round
  round limit b = round_at limit b (find frame_magic b)

  -- The loop; each round but the last shortens the buffer, so its length in rounds is enough.
  unfoldable pub take_frames : ℕ → ℕ → Bytes → Taken
  unfolding round
  take_frames zero limit b = record { frames = []; rest = b; raised = none }
  take_frames (suc rounds) limit b = after_round (take_frames rounds limit) (round limit b)

  -- `feed`
  unfoldable pub feed : FrameDecoder → Bytes → Result (List Frame) × FrameDecoder
  unfolding take_frames
  feed d chunk =
      let b = d.buffer ++ chunk in feed_result d (take_frames (length b + 1) d.max_payload_length b)
