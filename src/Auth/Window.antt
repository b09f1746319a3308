-- ===== src/Auth/Window.antt =====
-- The replay window of one session against the set of counters that it has received.
use low_altitude_io_t_system.Common.{
  ℕ, zero, suc, ◌+◌, ◌-◌, ◌*◌, ◌%◌, ◌^◌, ◌≤◌, ◌<◌, ◌≡◌, ap, ◌∙◌, ◌⊎◌, inl, inr, false, leb, ltb,
  Bool-cases, String, ok, err, replay_error, false, arith,
}
use low_altitude_io_t_system.Common.Bits.{
  bit, bit-mask, bit-shift_in, bit-zero_shift_in, bit-set_self, bit-set_ne, set-lt, bit-lt_two,
  pow_pos, pow_suc,
}
use low_altitude_io_t_system.Auth.{Session, slide, mark, receive}
use native.Mathlib.Nat.{mod-lt}

-- A counter that the session will not take again: it has left the window, or its bit is set.
abbrev pub Seen : ℕ → Session → ℕ → Type 0
Seen window s c = (c ≤ s.highest) × ((window ≤ s.highest - c) ⊎ (bit (s.highest - c) s.bitmap ≡ 1))

-- `bitmap & ~mask == 0`, and the highest counter is marked.
pub record IsWindow (window : ℕ) (s : Session) : Type 0 where
  pub in_mask : s.bitmap < 2 ^ window
  pub top_set : bit 0 s.bitmap ≡ 1

slid_bit : (w s j k b : ℕ) → 0 < s → j ≡ k + s → j < w → bit j ((b * 2 ^ s + 1) % 2 ^ w) ≡ bit k b
slid_bit w s j k b h e lt = bit-mask w j (b * 2 ^ s + 1) lt ∙ bit-shift_in s j k b h e

slid_top : (w s b : ℕ) → 0 < s → 0 < w → bit 0 ((b * 2 ^ s + 1) % 2 ^ w) ≡ 1
slid_top w s b h lt = bit-mask w 0 (b * 2 ^ s + 1) lt ∙ bit-zero_shift_in s b h

one_lt_pow : (w : ℕ) → 0 < w → 1 < 2 ^ w
one_lt_pow zero h = absurd (omega arith)
one_lt_pow (suc w) h = omega (arith, pow_suc w, pow_pos w)

module _ (window : ℕ) (positive : 0 < window) where
  slide_top : (s : Session) (c : ℕ) → s.highest < c → bit 0 (slide window s c).bitmap ≡ 1
  unfolding slide bit
  slide_top s c h = ground (arith, slid_top window (c - s.highest) s.bitmap)

  slide-Seen_self : (s : Session) (c : ℕ) → s.highest < c → Seen window (slide window s c) c
  slide-Seen_self s c h =
      let e : c - c ≡ 0 = omega arith in unfold slide in (omega arith, inr (rw e (slide_top s c h)))

  slide-Seen :
      (s : Session) (c d : ℕ) → s.highest < c → Seen window s d → Seen window (slide window s c) d
  unfolding slide
  slide-Seen s c d h seen =
      ground (arith, slid_bit window (c - s.highest) (c - d) (s.highest - d) s.bitmap)

  mark-Seen_self :
      (s t : Session) (c : ℕ) → c ≤ s.highest → mark window s c ≡ ok t → Seen window t c
  unfolding mark
  mark-Seen_self s t c h e =
      ground (arith, bit-set_self (s.highest - c) s.bitmap, bit-lt_two (s.highest - c) s.bitmap)

  mark-Seen :
      (s t : Session) (c d : ℕ)
      → c ≤ s.highest
      → mark window s c ≡ ok t
      → Seen window s d
      → Seen window t d
  unfolding mark
  mark-Seen s t c d h e seen = ground (
    arith,
    bit-set_self (s.highest - c) s.bitmap,
    bit-set_ne (s.highest - c) (s.highest - d) s.bitmap,
    bit-lt_two (s.highest - c) s.bitmap,
  )

  -- A counter that was taken is seen from then on.
  pub receive-Seen_self : (s t : Session) (c : ℕ) → receive window s c ≡ ok t → Seen window t c
  unfolding receive
  receive-Seen_self s t c e = ground (arith, slide-Seen_self s c, mark-Seen_self s t c)

  -- Whatever a session has seen, it has still seen after any later counter.
  pub receive-Seen :
      (s t : Session) (c d : ℕ) → receive window s c ≡ ok t → Seen window s d → Seen window t d
  unfolding receive
  receive-Seen s t c d e seen = ground (arith, slide-Seen s c d, mark-Seen s t c d)

  -- A seen counter is refused.
  pub receive-Seen_refused :
      (s : Session) (c : ℕ)
      → Seen window s c
      → (x : String) × (receive window s c ≡ err (replay_error x))
  unfolding receive mark
  receive-Seen_refused s c seen = elim (Bool-cases (leb window (s.highest - c))) [
    | inl out ↦ ("authenticated datagram is outside replay window", ground arith)
    | inr in_window ↦ ("authenticated datagram was already received", ground arith)
  ]

  -- Any other counter is taken.
  pub receive_fresh :
      (s : Session) (c : ℕ) → ¬ Seen window s c → (t : Session) × (receive window s c ≡ ok t)
  unfolding receive mark
  receive_fresh s c fresh = elim (Bool-cases (ltb s.highest c)) [
    | inl new ↦ (slide window s c, ground arith)
    | inr old ↦ (record s { bitmap = s.bitmap + 2 ^ (s.highest - c) }, unseen (omega_le old))
  ]
    where
      omega_le : ltb s.highest c ≡ false → c ≤ s.highest
      omega_le h = ground arith

      unseen :
          c ≤ s.highest
          → receive window s c ≡ ok (record s { bitmap = s.bitmap + 2 ^ (s.highest - c) })
      unseen h = ground (
        arith,
        λ (p : window ≤ s.highest - c). fresh (h, inl p),
        λ (p : bit (s.highest - c) s.bitmap ≡ 1). fresh (h, inr p),
      )

  slide-IsWindow :
      (s : Session) (c : ℕ) → s.highest < c → IsWindow window s → IsWindow window (slide window s c)
  slide-IsWindow s c h v = record {
    in_mask =
        unfold slide in
        ground (
          arith,
          one_lt_pow window positive,
          mod-lt (s.bitmap * 2 ^ (c - s.highest) + 1) (pow_pos window),
        );
    top_set = slide_top s c h;
  }

  mark-IsWindow :
      (s t : Session) (c : ℕ)
      → c ≤ s.highest
      → mark window s c ≡ ok t
      → IsWindow window s
      → IsWindow window t
  unfolding mark
  mark-IsWindow s t c h e v = ground (
    arith,
    v.in_mask,
    v.top_set,
    set-lt window (s.highest - c) s.bitmap,
    bit-set_ne (s.highest - c) 0 s.bitmap,
    bit-lt_two (s.highest - c) s.bitmap,
    λ (p : s.highest - c ≡ 0). ap (λ (k : ℕ). bit k s.bitmap) p,
    λ (p : 0 ≡ s.highest - c). p,
  )

  -- The bitmap stays inside the mask and keeps the highest counter's own bit.
  pub receive-IsWindow :
      (s t : Session) (c : ℕ) → IsWindow window s → receive window s c ≡ ok t → IsWindow window t
  unfolding receive
  receive-IsWindow s t c v e = ground (arith, slide-IsWindow s c, mark-IsWindow s t c)
