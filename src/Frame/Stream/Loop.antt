-- ===== src/Frame/Stream/Loop.antt =====
-- The loop of FrameDecoder.feed: every round but the last shortens the buffer.
use low_altitude_io_t_system.Frame.Stream.{raises, is_frame_error}
use low_altitude_io_t_system.Common.{ok}
use low_altitude_io_t_system.Common.{
  Bool-cases, Option, Option-cases, Result, Result-cases, String, ap, arith, drop, inl, inr, leb,
  length, length-drop, list_eq, ltb, min, nat_eq, none, not, pair_eq, refl, some, string_eq, suc,
  take, true, zero, ℕ, ◌&&◌, ◌+◌, ◌-◌, ◌<◌, ◌==◌, ◌||◌, ◌∷◌, ◌≡◌, ◌≤◌,
}
use low_altitude_io_t_system.Common.Search.{find, find_from, find_from_bound}
use low_altitude_io_t_system.Common.Value.{Value}
use low_altitude_io_t_system.Auth.{Bytes}
use low_altitude_io_t_system.Frame.{type_of_code}
use low_altitude_io_t_system.Frame.Codec.{
  crc_size, decode_frame, frame_header_size, frame_magic, frame_version, unpack_frame_header,
}
use low_altitude_io_t_system.Frame.Stream.{
  Round, Taken, after_round, complete_frame_start, complete_frame_start_after_current, gives,
  returns, round, round_frame, skips, take_frames, waits,
}

abbrev pub Shortens : ℕ → Round → Type 0
Shortens n (waits kept) = length kept ≤ n
Shortens n (skips left) = length left < n
Shortens n (gives f left) = length left < n
Shortens n (raises x kept) = length kept ≤ n

after_round_ext :
    (f g : Bytes → Taken) (n : ℕ) (r : Round)
    → Shortens n r
    → ((l : Bytes) → length l < n → f l ≡ g l)
    → after_round f r ≡ after_round g r
after_round_ext f g n (waits kept) s same = refl
after_round_ext f g n (skips left) s same = same left s
after_round_ext f g n (gives p left) s same =
    ap (λ (t : Taken). record { frames = p ∷ t.frames; rest = t.rest; raised = t.raised })
      (same left s)
after_round_ext f g n (raises x kept) s same = refl

module _ (dumps : Value → Result Bytes) (loads : Bytes → Option Value) (crc32 : Bytes → ℕ)
    (uuid_bytes : String → Bytes) (uuid_text : Bytes → String) where
  -- The scan gives a place behind the one where it starts.
  complete_frame_start_bound :
      (rounds limit : ℕ) (b : Bytes) (o : Option ℕ) (low s : ℕ)
      → ((t : ℕ) → o ≡ some t → (low ≤ t) × (t < length b))
      → complete_frame_start dumps loads crc32 uuid_bytes uuid_text rounds limit b o ≡ ok (some s)
      → (low ≤ s) × (s < length b)
  unfolding complete_frame_start
  complete_frame_start_bound rounds limit b none low s at_o h = absurd (ground arith)
  complete_frame_start_bound zero limit b (some start) low s at_o h = absurd (ground arith)
  complete_frame_start_bound (suc rounds) limit b (some start) low s at_o h =
      let here = at_o start refl in
      let size = (unpack_frame_header (drop start b)).size in
      let total = frame_header_size + size + crc_size in
      let whole = leb size limit && leb total (length b - start) in
      let tried =
        decode_frame dumps loads crc32 uuid_bytes uuid_text (take total (drop start b)) limit in
      let further =
        complete_frame_start_bound rounds limit b (find_from frame_magic (start + 1) b) low s
          (λ t e.
            let next = find_from_bound frame_magic b (start + 1) t e (omega arith) in
            (omega arith, omega arith)) in
      elim (Bool-cases (ltb (length b - start) (frame_header_size + crc_size))) [
        | inl short ↦ absurd (ground arith)
        | inr long ↦ elim (Bool-cases whole) [
          | inr gone ↦ further (rw (long, gone) at h)
          | inl there ↦ elim (Result-cases tried) [
            | inl (f, read) ↦ let at_s : start ≡ s = ground arith in (omega arith, omega arith)
            | inr (x, bad) ↦ elim (Bool-cases (is_frame_error x)) [
              | inl frame ↦ further (rw (long, there, bad, frame) at h)
              | inr other ↦ absurd (ground arith)
            ]
          ]
        ]
      ]

  round_frame-Shortens :
      (limit : ℕ) (b : Bytes) (n : ℕ)
      → length b ≤ n
      → frame_header_size ≤ length b
      → Shortens n (round_frame dumps loads crc32 uuid_bytes uuid_text limit b)
  unfolding round_frame complete_frame_start_after_current
  round_frame-Shortens limit b n fits long =
      let h = unpack_frame_header b in
      let total = frame_header_size + h.size + crc_size in
      let one = length-drop 1 b in
      elim (Bool-cases (not (returns (type_of_code h.raw_type)))) [
        | inl unknown ↦ rw (unknown) (omega arith)
        | inr known ↦
            elim (Bool-cases (
              not (h.tag == frame_magic) || not (h.version == frame_version) || ltb limit h.size)) [
                | inl bad ↦ rw (known, bad) (omega arith)
                | inr good ↦ elim (Bool-cases (ltb (length b) total)) [
                  | inl short ↦
                      elim (Result-cases (
                        complete_frame_start_after_current dumps loads crc32 uuid_bytes uuid_text
                          limit b)) [
                            | inr (x, failed) ↦ rw (known, good, short, failed) fits
                            | inl (none, gone) ↦ rw (known, good, short, gone) fits
                            | inl (some s, found) ↦
                                let bound =
                                  complete_frame_start_bound (length b) limit b
                                    (find_from frame_magic 1 b) 1 s
                                    (λ t e. find_from_bound frame_magic b 1 t e (omega arith))
                                    found in
                                rw (known, good, short, found) (omega (arith, length-drop s b))
                          ]
                  | inr there ↦
                      elim (Result-cases (
                        decode_frame dumps loads crc32 uuid_bytes uuid_text (take total b) limit)) [
                          | inl (f, read) ↦
                              rw (known, good, there, read) (omega (arith, length-drop total b))
                          | inr (x, bad) ↦ elim (Bool-cases (is_frame_error x)) [
                            | inl frame ↦ rw (known, good, there, bad, frame) (omega arith)
                            | inr other ↦ rw (known, good, there, bad, other) fits
                          ]
                        ]
                ]
              ]
      ]

  round-Shortens :
      (limit : ℕ) (b : Bytes)
      → Shortens (length b) (round dumps loads crc32 uuid_bytes uuid_text limit b)
  unfolding round
  round-Shortens limit b = elim (Option-cases (find frame_magic b)) [
    | inl gone ↦
        rw gone (omega (arith, length-drop (length b - min (length b) (length frame_magic - 1)) b))
    | inr (s, found) ↦
        let kept : length (drop s b) ≤ length b = omega (arith, length-drop s b) in
        elim (Bool-cases (ltb (length (drop s b)) frame_header_size)) [
          | inl short ↦ rw (found, short) kept
          | inr long ↦
              rw (found, long)
                (round_frame-Shortens limit (drop s b) (length b) kept (ground arith))
        ]
  ]

  -- Rounds beyond the length of the buffer change nothing: the loop has ended by its `break`.
  pub take_frames_fuel :
      (n k limit : ℕ) (b : Bytes)
      → length b < n
      → length b < k
      → take_frames dumps loads crc32 uuid_bytes uuid_text n limit b
        ≡ take_frames dumps loads crc32 uuid_bytes uuid_text k limit b
  unfolding take_frames
  take_frames_fuel zero k limit b h h' = absurd (omega arith)
  take_frames_fuel (suc n) zero limit b h h' = absurd (omega arith)
  take_frames_fuel (suc n) (suc k) limit b h h' =
      after_round_ext (take_frames dumps loads crc32 uuid_bytes uuid_text n limit)
        (take_frames dumps loads crc32 uuid_bytes uuid_text k limit) (length b)
        (round dumps loads crc32 uuid_bytes uuid_text limit b) (round-Shortens limit b)
        (λ l s. take_frames_fuel n k limit l (omega arith) (omega arith))

  at_end :
      (n k limit : ℕ) (b : Bytes)
      → complete_frame_start dumps loads crc32 uuid_bytes uuid_text n limit b none
        ≡ complete_frame_start dumps loads crc32 uuid_bytes uuid_text k limit b none
  unfolding complete_frame_start
  at_end zero zero limit b = refl
  at_end zero (suc k) limit b = refl
  at_end (suc n) zero limit b = refl
  at_end (suc n) (suc k) limit b = refl

  -- So is the fuel of the scan enough.
  pub complete_frame_start_fuel :
      (n k limit : ℕ) (b : Bytes) (start : ℕ)
      → length b < n + start
      → length b < k + start
      → complete_frame_start dumps loads crc32 uuid_bytes uuid_text n limit b (some start)
        ≡ complete_frame_start dumps loads crc32 uuid_bytes uuid_text k limit b (some start)
  unfolding complete_frame_start
  complete_frame_start_fuel zero zero limit b start h h' = refl
  complete_frame_start_fuel zero (suc k) limit b start h h' =
      let past : ltb (length b - start) (frame_header_size + crc_size) ≡ true = ground arith in
      rw past refl
  complete_frame_start_fuel (suc n) zero limit b start h h' =
      let past : ltb (length b - start) (frame_header_size + crc_size) ≡ true = ground arith in
      rw past refl
  complete_frame_start_fuel (suc n) (suc k) limit b start h h' =
      elim (Option-cases (find_from frame_magic (start + 1) b)) [
        | inl gone ↦ rw gone (rw (at_end n k limit b) refl)
        | inr (t, found) ↦
            let bound = find_from_bound frame_magic b (start + 1) t found (omega arith) in
            rw found (rw (complete_frame_start_fuel n k limit b t (omega arith) (omega arith)) refl)
      ]
