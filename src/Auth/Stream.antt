-- ===== src/Auth/Stream.antt =====
-- shared_protocol/auth.py, class AuthenticatedStreamDecoder: envelopes cut from a byte stream.
mod Chunks
pub mod Feed
pub mod Sealed
use low_altitude_io_t_system.Common.{
  Option, Result, List, [], bind, drop, if◌then◌else◌, leb, length, ltb, min, none, ok, require,
  some, suc, take, take_last, value_error, zero, ℕ, ◌++◌, ◌+◌, ◌-◌, ◌∷◌,
}
use low_altitude_io_t_system.Common.Search.{find}
use low_altitude_io_t_system.Auth.{Bytes, header_size, mac_size, magic, unpack_header}

pub record StreamDecoder : Type 0 where
  pub max_wire_bytes : ℕ
  pub buffer : Bytes
  pub rejected_size : ℕ

unfoldable pub open_decoder : ℕ → Result StreamDecoder
open_decoder max_wire_bytes =
    bind
      (require (leb (header_size + mac_size) max_wire_bytes)
        (value_error "max_wire_bytes is too small"))
      λ _. ok (record { max_wire_bytes = max_wire_bytes; buffer = []; rejected_size = 0 })

-- One round of the loop: it breaks with what stays in the buffer, drops a byte of an envelope that
-- is too large, or takes an envelope out.
pub data Cut : Type 0 where
  waits : Bytes → Cut
  rejects : Bytes → Cut
  gives : Bytes → Bytes → Cut

-- The round from the magic on.
unfoldable pub cut_envelope : ℕ → Bytes → Cut
cut_envelope max_wire_bytes b =
    if ltb (length b) header_size
    then waits b
    else let total = header_size + (unpack_header b).size + mac_size in
      if ltb max_wire_bytes total
      then rejects (drop 1 b)
      else if ltb (length b) total
      then waits b
      else gives (take total b) (drop total b)

-- The round on where `find` sees the magic; without it the last bytes stay, as they may begin one.
abbrev pub cut_at : ℕ → Bytes → Option ℕ → Cut
cut_at max_wire_bytes b none = waits (take_last (min (length b) (length magic - 1)) b)
cut_at max_wire_bytes b (some start) = cut_envelope max_wire_bytes (drop start b)

unfoldable pub cut : ℕ → Bytes → Cut
cut max_wire_bytes buffer = cut_at max_wire_bytes buffer (find magic buffer)

-- What the loop has taken out and counted, and what it leaves.
pub record Cuts : Type 0 where
  pub frames : List Bytes
  pub rejected : ℕ
  pub rest : Bytes

abbrev pub with_frame : Bytes → Cuts → Cuts
with_frame f c = record c { frames = f ∷ c.frames }

abbrev pub with_reject : Cuts → Cuts
with_reject c = record c { rejected = c.rejected + 1 }

-- The rest of the loop behind a round.
abbrev pub after_cut : (Bytes → Cuts) → Cut → Cuts
after_cut loop (waits kept) = record { frames = []; rejected = 0; rest = kept }
after_cut loop (rejects left) = with_reject (loop left)
after_cut loop (gives f left) = with_frame f (loop left)

-- The loop; each round but the last shortens the buffer, so its length in rounds is enough.
unfoldable pub cut_all : ℕ → ℕ → Bytes → Cuts
unfolding cut
cut_all zero max_wire_bytes b = record { frames = []; rejected = 0; rest = b }
cut_all (suc rounds) max_wire_bytes b =
    after_cut (cut_all rounds max_wire_bytes) (cut max_wire_bytes b)

unfoldable pub drain : ℕ → Bytes → Cuts
unfolding cut_all
drain max_wire_bytes b = cut_all (length b + 1) max_wire_bytes b

-- `feed`
unfoldable pub feed : StreamDecoder → Bytes → List Bytes × StreamDecoder
unfolding drain
feed d chunk =
    let c = drain d.max_wire_bytes (d.buffer ++ chunk) in
    (c.frames, record d { buffer = c.rest; rejected_size = d.rejected_size + c.rejected })
