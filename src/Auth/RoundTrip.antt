-- ===== src/Auth/RoundTrip.antt =====
-- What `seal` writes, `open_with_metadata` reads; what `snapshot` saves, the constructor restores.
use low_altitude_io_t_system.Common.{
  ℕ, ◌+◌, ◌-◌, ◌^◌, ◌≤◌, ◌<◌, ◌≡◌, refl, ap, ◌∙◌, List, [], ◌∷◌, ◌++◌, append_assoc, append-nil,
  length, take, drop, length-append, take-append_length, drop-append_length, none, some, ok, bind,
  nat_eq, list_eq, ◌==◌, beq_refl, arith, leb, true,
}
use low_altitude_io_t_system.Common.Bytes.{to_be, length-to_be, from_be-to_be}
use low_altitude_io_t_system.Common.Dict.{Dict, put, Unique, put_new, get-Unique_append}
use low_altitude_io_t_system.Auth.{
  Bytes, Codec, Session, accept_counter, magic, header_size, mac_size, max_payload_size,
  pack_header, unpack_header, seal, open_datagram, snapshot, open_codec, load_sessions,
}

length-pack_header :
    (nonce : Bytes) (k size : ℕ) → length nonce ≡ 16 → length (pack_header nonce k size) ≡ 32
unfolding pack_header
length-pack_header nonce k size h = omega (
  arith,
  length-append nonce (to_be 8 k ++ to_be 4 size),
  length-append (to_be 8 k) (to_be 4 size),
  length-to_be 8 k,
  length-to_be 4 size,
)

-- The header fields come back, whatever follows them.
unpack-pack_header :
    (nonce : Bytes) (k size : ℕ) (rest : Bytes)
    → length nonce ≡ 16
    → k < 2 ^ 64
    → size < 2 ^ 32
    → unpack_header (pack_header nonce k size ++ rest)
      ≡ record { tag = magic; nonce = nonce; counter = k; size = size }
unfolding pack_header unpack_header
unpack-pack_header nonce k size rest h hk hs =
    let a = to_be 8 k in
    let b = to_be 4 size in
    let regroup : (nonce ++ (a ++ b)) ++ rest ≡ nonce ++ (a ++ (b ++ rest)) = simp append_assoc in
    rw (
      regroup,
      take-append_length 16 nonce (a ++ (b ++ rest)) h,
      drop-append_length 16 nonce (a ++ (b ++ rest)) h,
      take-append_length 8 a (b ++ rest) (length-to_be 8 k),
      drop-append_length 8 a (b ++ rest) (length-to_be 8 k),
      take-append_length 4 b rest (length-to_be 4 size),
      from_be-to_be 8 k hk,
      from_be-to_be 4 size hs,
    )

-- Facts about a whole envelope, `header ++ payload ++ mac`.
module _ (nonce payload mac : Bytes) (k : ℕ) (h : length nonce ≡ 16)
    (hm : length mac ≡ mac_size) where
  abbrev pub body : Bytes
  body = pack_header nonce k (length payload) ++ payload

  length-body : length body ≡ 32 + length payload
  length-body = omega (
    arith,
    length-append (pack_header nonce k (length payload)) payload,
    length-pack_header nonce k (length payload) h,
  )

  pub length-envelope : length (body ++ mac) ≡ header_size + length payload + mac_size
  length-envelope = omega (arith, length-append body mac, length-body, hm)

  cut : length (body ++ mac) - mac_size ≡ length body
  cut = omega (arith, length-append body mac, hm)

  take-envelope : take (length (body ++ mac) - mac_size) (body ++ mac) ≡ body
  take-envelope = rw cut (take-append_length (length body) body mac refl)

  drop-envelope : drop (length (body ++ mac) - mac_size) (body ++ mac) ≡ mac
  drop-envelope = rw cut (drop-append_length (length body) body mac refl)

  drop-body : drop header_size body ≡ payload
  drop-body =
      drop-append_length 32 (pack_header nonce k (length payload)) payload
        (length-pack_header nonce k (length payload) h)

  pub unpack-envelope :
      k < 2 ^ 64
      → length payload < 2 ^ 32
      → unpack_header (body ++ mac)
        ≡ record { tag = magic; nonce = nonce; counter = k; size = length payload }
  unpack-envelope hk hs =
      ap unpack_header (append_assoc (pack_header nonce k (length payload)) payload mac)
      ∙ unpack-pack_header nonce k (length payload) (payload ++ mac) h hk hs

module _ (hmac_sha256 : Bytes → Bytes → Bytes) where
  pub seal_cases :
      (c : Codec) (payload datagram : Bytes)
      → (seal hmac_sha256 c payload).0 ≡ ok datagram
      → (length payload ≤ max_payload_size)
        × (c.counter < 2 ^ 64)
        × (datagram
            ≡ (pack_header c.nonce c.counter (length payload) ++ payload)
              ++ hmac_sha256 c.psk (pack_header c.nonce c.counter (length payload) ++ payload))
  unfolding seal
  seal_cases c payload d e = ground arith

  -- The receiver's checks pass on a datagram with these parts.
  open_parts :
      (c : Codec) (d payload body mac nonce : Bytes) (k size : ℕ)
      → unpack_header d ≡ record { tag = magic; nonce = nonce; counter = k; size = size }
      → take (length d - mac_size) d ≡ body
      → drop (length d - mac_size) d ≡ mac
      → length d ≡ header_size + size + mac_size
      → size ≤ max_payload_size
      → mac ≡ hmac_sha256 c.psk body
      → drop header_size body ≡ payload
      → open_datagram hmac_sha256 c d
        ≡ bind
            (accept_counter c nonce k)
            (λ after. ok (record { payload = payload; session_nonce = nonce; counter = k }, after))
  unfolding open_datagram
  open_parts c d payload body mac nonce k size u t dr l s m p =
      let long : leb (header_size + mac_size) (length d) ≡ true = ground arith in
      let small : leb size max_payload_size ≡ true = ground arith in
      let exact : (length d == header_size + size + mac_size) ≡ true = ground arith in
      rw long
        (rw u (rw small (rw exact (rw (dr, t, m) (rw (beq_refl (hmac_sha256 c.psk body)) (rw p))))))

-- A datagram sealed by a peer with the same key opens to its payload, the peer's session nonce and
-- counter, exactly if the replay window accepts that counter; otherwise it raises what the window
-- raises.
pub open-seal :
    (hmac_sha256 : Bytes → Bytes → Bytes)
    → ((key m : Bytes) → length (hmac_sha256 key m) ≡ 32)
    → (sender receiver : Codec) (payload datagram : Bytes) → length sender.nonce ≡ 16
    → receiver.psk ≡ sender.psk
    → (seal hmac_sha256 sender payload).0 ≡ ok datagram
    → open_datagram hmac_sha256 receiver datagram
      ≡ bind (accept_counter receiver sender.nonce sender.counter) (λ after. ok (
        record { payload = payload; session_nonce = sender.nonce; counter = sender.counter },
        after,
      ))
open-seal hmac sized a b payload d h key e =
    let (small, counter_fits, shape) = seal_cases hmac a payload d e in
    let n = a.nonce in
    let k = a.counter in
    let whole : Bytes = pack_header n k (length payload) ++ payload in
    let mac : Bytes = hmac a.psk whole in
    rw shape (
      open_parts hmac b (whole ++ mac) payload whole mac n k (length payload)
        (unpack-envelope n payload mac k h (sized a.psk whole) counter_fits (omega arith))
        (take-envelope n payload mac k h (sized a.psk whole))
        (drop-envelope n payload mac k h (sized a.psk whole))
        (length-envelope n payload mac k h (sized a.psk whole)) small (rw key)
        (drop-body n payload mac k h (sized a.psk whole)))

-- Every nonce has the size that `__init__` asks for.
abbrev pub Sized : List (Bytes × Session) → Type 0
Sized [] = Unit {0}
Sized ((nonce, s) ∷ rest) = (length nonce ≡ 16) × Sized rest

-- What the constructor's checks demand of a codec that is to be restored.
pub record IsPersistable (c : Codec) : Type 0 where
  pub key_long : 16 ≤ length c.psk
  pub nonce_sized : length c.nonce ≡ 16
  pub window_pos : 1 ≤ c.window
  pub window_le : c.window ≤ 4096
  pub room : 1 ≤ c.max_sessions
  pub bounded : length c.sessions ≤ c.max_sessions
  pub sized : Sized c.sessions
  pub unique : Unique c.sessions

load_sessions-append :
    (saved d : Dict Bytes Session)
    → Sized saved
    → Unique (d ++ saved)
    → load_sessions saved d ≡ ok (d ++ saved)
unfolding load_sessions
load_sessions-append [] d s u = rw append-nil
load_sessions-append ((n, x) ∷ saved) d (sn, s) u =
    let fits : (length n == 16) ≡ true = rw sn in
    let here : put n x d ≡ d ++ ((n, x) ∷ []) = put_new n x d (get-Unique_append n x d saved u) in
    let regroup : (d ++ ((n, x) ∷ [])) ++ saved ≡ d ++ ((n, x) ∷ saved) =
      append_assoc d ((n, x) ∷ []) saved in
    rw fits
      (rw here (load_sessions-append saved (d ++ ((n, x) ∷ [])) s (rw regroup u) ∙ ap ok regroup))

-- A codec that is built from a snapshot, with the same key and limits, is the codec that was saved:
-- counter, sessions and replay windows included.
pub open-snapshot :
    (urandom : Bytes) (c : Codec)
    → IsPersistable c
    → open_codec urandom c.psk none c.window c.max_sessions (some (snapshot c)) ≡ ok c
unfolding snapshot open_codec
open-snapshot urandom c v =
    let key : leb 16 (length c.psk) ≡ true = ground arith in
    let lo : leb 1 c.window ≡ true = ground arith in
    let hi : leb c.window 4096 ≡ true = ground arith in
    let room : leb 1 c.max_sessions ≡ true = ground arith in
    let few : leb (length c.sessions) c.max_sessions ≡ true = ground arith in
    rw key (
      rw v.nonce_sized
        (rw (lo, hi) (rw room (rw (load_sessions-append c.sessions [] v.sized v.unique) (rw few)))))
