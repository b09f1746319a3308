-- ===== src/Auth/Examples.antt =====
-- Concrete sessions, datagrams and streams of shared_protocol/auth.py.
use low_altitude_io_t_system.Common.{Error, runtime_error}
use low_altitude_io_t_system.Common.{
  List, Option, String, [], arith, bind, drop, err, length, list_eq, nat_eq, none, ok, pair_eq,
  refl, replay_error, replicate, some, string_eq, take, ℕ, ◌++◌, ◌∷◌, ◌≡◌, ◌≢◌, ◌≤◌,
}
use low_altitude_io_t_system.Common.Bytes.{from_be, length-to_be, to_be}
use low_altitude_io_t_system.Common.Dict.{evict, get, put_last}
use low_altitude_io_t_system.Common.Bits.{bit}
use low_altitude_io_t_system.Common.Search.{find}
use low_altitude_io_t_system.Auth.{
  Bytes, Codec, Session, accept_counter, mark, open_codec, open_datagram, pack_header, receive,
  seal, slide, snapshot,
}
use low_altitude_io_t_system.Auth.Replay.{IsCodec, Retained, accepted_once, run}
use low_altitude_io_t_system.Auth.RoundTrip.{IsPersistable, open-seal, open-snapshot}
use low_altitude_io_t_system.Auth.Persistent.{
  Event, Persistent, opens, released_all, released_all-Ascending, restarts, seals,
}
use low_altitude_io_t_system.Inbox.{lost, replaced, written}
use low_altitude_io_t_system.Transport.Receiver.Missing.{Ascending}
use low_altitude_io_t_system.Auth.Stream.{StreamDecoder, cut, cut_all, drain, feed}
use low_altitude_io_t_system.Auth.Stream.Feed.{feed-append}
use low_altitude_io_t_system.Auth.Stream.Sealed.{feed_all, feed_all-IsSealed}

-- A stand-in for the MAC, of the right size.
abbrev save_failure : Error
save_failure = runtime_error "save"

abbrev toy_mac : Bytes → Bytes → Bytes
toy_mac key m = to_be 32 (from_be m)

abbrev key : Bytes
key = replicate 16 7

abbrev nonce_a : Bytes
nonce_a = replicate 16 1

abbrev nonce_b : Bytes
nonce_b = replicate 16 2

abbrev sender : Codec
sender = record {
  psk = key;
  nonce = nonce_a;
  counter = 5;
  window = 8;
  max_sessions = 2;
  sessions = [];
}

abbrev receiver : Codec
receiver = record {
  psk = key;
  nonce = nonce_b;
  counter = 0;
  window = 8;
  max_sessions = 2;
  sessions = (nonce_a, record { highest = 4; bitmap = 3 }) ∷ [];
}

abbrev after_five : Codec
after_five = record receiver { sessions = (nonce_a, record { highest = 5; bitmap = 7 }) ∷ [] }

-- Counters of another session and a lower counter of the same one come between.
abbrev traffic : List (Bytes × ℕ)
traffic = (nonce_b, 9) ∷ (nonce_a, 2) ∷ (nonce_a, 4) ∷ (nonce_a, 7) ∷ []

receiver-IsPersistable : IsPersistable receiver
unfolding get
receiver-IsPersistable = record {
  key_long = omega arith;
  nonce_sized = refl;
  window_pos = omega arith;
  window_le = omega arith;
  room = omega arith;
  bounded = omega arith;
  sized = (refl, tt);
  unique = (refl, tt);
}

five_accepted : accept_counter receiver nonce_a 5 ≡ ok after_five
unfolding accept_counter receive slide get put_last
five_accepted = refl

known : {o : Option Session} (s : Session) → o ≡ some s → o ≢ none
known s e n = absurd (cc)

retained : Retained nonce_a after_five traffic
unfolding accept_counter receive slide mark get put_last evict bit
retained = (
  known (record { highest = 5; bitmap = 7 }) refl,
  (
    known (record { highest = 5; bitmap = 15 }) refl,
    (
      known (record { highest = 5; bitmap = 15 }) refl,
      (known (record { highest = 7; bitmap = 61 }) refl, tt),
    ),
  ),
)

receiver-IsCodec : IsCodec receiver
unfolding get
receiver-IsCodec = record { window_pos = omega arith; unique = (refl, tt) }

five_known : get nonce_a after_five.sessions ≢ none
unfolding get
five_known = known (record { highest = 5; bitmap = 7 }) refl

accepted_once_example :
    (x : String) × (accept_counter (run after_five traffic) nonce_a 5 ≡ err (replay_error x))
accepted_once_example =
    accepted_once receiver after_five nonce_a 5 traffic receiver-IsCodec five_accepted five_known
      retained

abbrev payload : Bytes
payload = 1 ∷ 2 ∷ 3 ∷ []

abbrev sealed : Bytes
sealed = let body : Bytes = pack_header nonce_a 5 3 ++ payload in body ++ toy_mac key body

sealed_eq : (seal toy_mac sender payload).0 ≡ ok sealed
unfolding seal
sealed_eq = refl

open-seal_example :
    open_datagram toy_mac receiver sealed
    ≡ bind
        (accept_counter receiver nonce_a 5)
        (λ after. ok (record { payload = payload; session_nonce = nonce_a; counter = 5 }, after))
open-seal_example =
    open-seal toy_mac (λ k m. length-to_be 32 (from_be m)) sender receiver payload sealed refl refl
      sealed_eq

open-snapshot_example : open_codec nonce_b key none 8 2 (some (snapshot receiver)) ≡ ok receiver
open-snapshot_example = open-snapshot nonce_b receiver receiver-IsPersistable

-- A session that has saved its counter once.
abbrev saved_once : Persistent
saved_once = record { codec = sender; disk = some (snapshot sender) }

-- A save that fails before it writes, one that fails after it, and a restart between seals.
abbrev life : List Event
life =
    seals written (1 ∷ [])
    ∷ seals (lost save_failure) (2 ∷ [])
    ∷ restarts nonce_b none
    ∷ seals (replaced save_failure) (3 ∷ [])
    ∷ restarts nonce_b none
    ∷ opens written (4 ∷ [])
    ∷ seals written (5 ∷ [])
    ∷ []

released_all-Ascending_example : Ascending 5 (released_all toy_mac life saved_once)
unfolding snapshot
released_all-Ascending_example =
    released_all-Ascending toy_mac life 5 saved_once (omega arith, omega arith)

abbrev wire_decoder : StreamDecoder
wire_decoder = record { max_wire_bytes = 65_535; buffer = []; rejected_size = 0 }

-- Without a magic in sight the last three bytes stay.
stream_resumes : (feed wire_decoder (9 ∷ 76 ∷ 73 ∷ [])).1.buffer ≡ 9 ∷ 76 ∷ 73 ∷ []
unfolding feed drain cut_all cut find
stream_resumes = refl

feed-append_example : feed wire_decoder ((9 ∷ 76 ∷ 73 ∷ []) ++ sealed) ≡ (
  (feed wire_decoder (9 ∷ 76 ∷ 73 ∷ [])).0
      ++ (feed (feed wire_decoder (9 ∷ 76 ∷ 73 ∷ [])).1 sealed).0,
  (feed (feed wire_decoder (9 ∷ 76 ∷ 73 ∷ [])).1 sealed).1,
)
feed-append_example = feed-append wire_decoder (9 ∷ 76 ∷ 73 ∷ []) sealed

sealed_short : length sealed ≤ wire_decoder.max_wire_bytes
unfolding pack_header to_be
sealed_short = omega arith

feed_all-IsSealed_example :
    feed_all wire_decoder (take 7 sealed ∷ drop 7 (sealed ++ sealed) ∷ [])
    ≡ (sealed ∷ sealed ∷ [], wire_decoder)
unfolding pack_header to_be
feed_all-IsSealed_example =
    feed_all-IsSealed toy_mac (λ k m. length-to_be 32 (from_be m)) wire_decoder
      (sealed ∷ sealed ∷ []) (take 7 sealed ∷ drop 7 (sealed ++ sealed) ∷ []) refl
      ((sender, payload, refl, sealed_eq), ((sender, payload, refl, sealed_eq), tt))
      (sealed_short, (sealed_short, tt)) refl
