-- ===== src/Auth/Stream/Sealed.antt =====
-- Sealed datagrams that travel over a byte stream come out whole.
use low_altitude_io_t_system.Common.{
  List, [], ap, append-nil, arith, drop-append_length, false, length, length-append, list_eq, ltb,
  nat_eq, ok, pair_eq, refl, string_eq, sym, take, take-append_length, ℕ, ◌++◌, ◌+◌, ◌∙◌, ◌∷◌, ◌≡◌,
  ◌≤◌,
}
use low_altitude_io_t_system.Common.Search.{find, find_first}
use low_altitude_io_t_system.Auth.{
  Bytes, Codec, Header, header_size, mac_size, magic, pack_header, seal, unpack_header,
}
use low_altitude_io_t_system.Auth.RoundTrip.{length-envelope, seal_cases, unpack-envelope}
use low_altitude_io_t_system.Auth.Stream.{
  StreamDecoder, after_cut, cut, cut_all, cut_envelope, drain, feed, gives, with_frame,
}
use low_altitude_io_t_system.Auth.Stream.Chunks.{unpack_header-append}
use low_altitude_io_t_system.Auth.Stream.Feed.{drain_step, feed-append}

-- A whole envelope that the decoder does not find too large.
pub record IsEnvelope (m : ℕ) (e : Bytes) : Type 0 where
  pub tagged : take 4 e ≡ magic
  pub sized : length e ≡ header_size + (unpack_header e).size + mac_size
  pub small : length e ≤ m

cut-envelope : (m : ℕ) (e x : Bytes) → IsEnvelope m e → cut m (e ++ x) ≡ gives e x
unfolding cut cut_envelope
cut-envelope m e x v =
    let long : 32 ≤ length e = omega (arith, v.sized) in
    let same = unpack_header-append e x long in
    let total = header_size + (unpack_header e).size + mac_size in
    let grown = length-append e x in
    let size : length e ≡ total = v.sized in
    let fits : ltb m total ≡ false = ground (arith, v.small) in
    let header : ltb (length (e ++ x)) header_size ≡ false = ground arith in
    let there : ltb (length (e ++ x)) total ≡ false = ground arith in
    rw
      (
        find_first magic e x v.tagged (omega arith) (omega arith),
        header,
        same,
        fits,
        there,
        take-append_length total e x size,
        drop-append_length total e x size,
      )
      refl

-- Bytes of several parts on one wire.
abbrev pub concat : List Bytes → Bytes
concat [] = []
concat (e ∷ es) = e ++ concat es

abbrev pub All {ℓ κ} : {A : Type ℓ} → (A → Type κ) → List A → Type κ
All P [] = Unit
All P (x ∷ xs) = P x × All P xs

drain-concat :
    (m : ℕ) (es : List Bytes)
    → All (IsEnvelope m) es
    → drain m (concat es) ≡ record { frames = es; rejected = 0; rest = [] }
unfolding drain cut_all cut find
drain-concat m [] v = refl
drain-concat m (e ∷ es) v =
    drain_step m (e ++ concat es)
    ∙ ap (λ c. after_cut (drain m) c) (cut-envelope m e (concat es) v.0)
    ∙ ap (λ c. with_frame e c) (drain-concat m es v.1)

-- `feed`, called with one chunk after another.
unfoldable pub feed_all : StreamDecoder → List Bytes → List Bytes × StreamDecoder
feed_all d [] = ([], d)
feed_all d (b ∷ chunks) =
    let (frames, d') = feed d b in let (rest, d'') = feed_all d' chunks in (frames ++ rest, d'')

-- Chunks that come one after another.
feed_all_cons :
    (d : StreamDecoder) (a : Bytes) (chunks : List Bytes)
    → feed d (a ++ concat chunks) ≡ feed_all d (a ∷ chunks)
unfolding feed_all
feed_all_cons d a [] = simp append-nil
feed_all_cons d a (b ∷ chunks) =
    feed-append d a (b ++ concat chunks)
    ∙ ap (λ (r : List Bytes × StreamDecoder). ((feed d a).0 ++ r.0, r.1))
        (feed_all_cons (feed d a).1 b chunks)

feed-concat :
    (d : StreamDecoder) (es : List Bytes)
    → d.buffer ≡ []
    → All (IsEnvelope d.max_wire_bytes) es
    → feed d (concat es) ≡ (es, d)
unfolding feed
feed-concat d es empty v = rw empty (rw (drain-concat d.max_wire_bytes es v) (ground arith))

no_envelope : (m : ℕ) (es : List Bytes) → All (IsEnvelope m) es → [] ≡ concat es → es ≡ []
no_envelope m [] v e = refl
no_envelope m (x ∷ es) v e =
    absurd (omega (arith, v.0.sized, length-append x (concat es), ap (λ (l : Bytes). length l) e))

tag_lem : (e : Bytes) → (unpack_header e).tag ≡ take 4 e
unfolding unpack_header
tag_lem e = refl

module _ (hmac_sha256 : Bytes → Bytes → Bytes)
    (mac_sized : (key m : Bytes) → length (hmac_sha256 key m) ≡ 32) where
  -- A datagram that some codec with a nonce of the right size has sealed.
  abbrev pub IsSealed : Bytes → Type 0
  IsSealed e =
      (c : Codec) × (payload : Bytes) × (length c.nonce ≡ 16)
      × ((seal hmac_sha256 c payload).0 ≡ ok e)

  IsSealed-IsEnvelope : (m : ℕ) (e : Bytes) → IsSealed e → length e ≤ m → IsEnvelope m e
  IsSealed-IsEnvelope m e (c, payload, h, sealed) small =
      let (fits, counter_fits, shape) = seal_cases hmac_sha256 c payload e sealed in
      let mac = hmac_sha256 c.psk (pack_header c.nonce c.counter (length payload) ++ payload) in
      let u =
        ap unpack_header shape
        ∙ unpack-envelope c.nonce payload mac c.counter h
            (mac_sized c.psk (pack_header c.nonce c.counter (length payload) ++ payload))
            counter_fits (omega arith) in
      let l =
        ap (λ (x : Bytes). length x) shape
        ∙ length-envelope c.nonce payload mac c.counter h
            (mac_sized c.psk (pack_header c.nonce c.counter (length payload) ++ payload)) in
      record {
        tagged = sym (tag_lem e) ∙ ap (λ (r : Header). r.tag) u;
        sized = rw u l;
        small = small;
      }

  All-IsEnvelope :
      (m : ℕ) (es : List Bytes)
      → All IsSealed es
      → All (λ (e : Bytes). length e ≤ m) es
      → All (IsEnvelope m) es
  All-IsEnvelope m [] s l = tt
  All-IsEnvelope m (e ∷ es) s l = (IsSealed-IsEnvelope m e s.0 l.0, All-IsEnvelope m es s.1 l.1)

  -- Datagrams that were sealed by any codecs and are no longer than the decoder's limit come out of
  -- a decoder with an empty buffer whole and in their order, in whatever chunks their bytes arrive,
  -- and the decoder ends as it began.
  pub feed_all-IsSealed :
      (d : StreamDecoder) (es chunks : List Bytes)
      → d.buffer ≡ []
      → All IsSealed es
      → All (λ (e : Bytes). length e ≤ d.max_wire_bytes) es
      → concat chunks ≡ concat es
      → feed_all d chunks ≡ (es, d)
  unfolding feed_all
  feed_all-IsSealed d es [] empty s l same =
      rw (no_envelope d.max_wire_bytes es (All-IsEnvelope d.max_wire_bytes es s l) same) refl
  feed_all-IsSealed d es (a ∷ chunks) empty s l same =
      sym (feed_all_cons d a chunks)
      ∙ ap (λ (b : Bytes). feed d b) same
      ∙ feed-concat d es empty (All-IsEnvelope d.max_wire_bytes es s l)
