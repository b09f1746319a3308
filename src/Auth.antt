-- ===== src/Auth.antt =====
-- shared_protocol/auth.py, class AuthenticatedDatagramCodec: the envelope of a LIOT datagram, its
-- MAC, and the replay window that the receiver keeps for each peer session.
pub mod Window
pub mod RoundTrip
pub mod Replay
pub mod Persistent
pub mod Stream
mod Examples
use low_altitude_io_t_system.Common.{
  ℕ, suc, ◌+◌, ◌-◌, ◌*◌, ◌/◌, ◌%◌, ◌^◌, ◌≡◌, Bool, true, false, ◌&&◌, not, Option, none, some, List,
  [], ◌∷◌, ◌++◌, map, length, take, drop, ltb, leb, if◌then◌else◌, ◌==◌, nat_eq, list_eq, Result,
  ok, err, Error, value_error, auth_error, replay_error, struct_error, bind, require,
}
use low_altitude_io_t_system.Common.Dict.{Dict, get, put_last, put, evict}
use low_altitude_io_t_system.Common.Bits.{bit}
use low_altitude_io_t_system.Common.Bytes.{to_be, from_be}

abbrev pub Bytes : Type 0
Bytes = List ℕ

-- `(highest, bitmap)`: bit `d` of the bitmap says that counter `highest - d` was received.
pub record Session : Type 0 where
  pub highest : ℕ
  pub bitmap : ℕ

-- A new highest counter shifts the window; the `elim` keeps a huge shift from being computed.
unfoldable pub slide : ℕ → Session → ℕ → Session
slide window s counter = record {
  highest = counter;
  bitmap = elim (leb window (counter - s.highest)) [
    | true ↦ 1
    | false ↦ (s.bitmap * 2 ^ (counter - s.highest) + 1) % 2 ^ window
  ];
}

-- The branch `counter <= highest`: outside the window, already received, or marked now.
unfoldable pub mark : ℕ → Session → ℕ → Result Session
unfolding bit
mark window s counter =
    let distance = s.highest - counter in
    elim (leb window distance) [
      | true ↦ err (replay_error "authenticated datagram is outside replay window")
      | false ↦
          if bit distance s.bitmap == 1
          then err (replay_error "authenticated datagram was already received")
          else ok (record s { bitmap = s.bitmap + 2 ^ distance })
    ]

unfoldable pub receive : ℕ → Session → ℕ → Result Session
unfolding slide mark
receive window s counter =
    if ltb s.highest counter then ok (slide window s counter) else mark window s counter

pub record Codec : Type 0 where
  pub psk : Bytes
  pub nonce : Bytes
  pub counter : ℕ
  pub window : ℕ
  pub max_sessions : ℕ
  pub sessions : Dict Bytes Session

-- `_accept_counter`; it writes nothing before it raises.
unfoldable pub accept_counter : Codec → Bytes → ℕ → Result Codec
accept_counter c nonce counter = elim (get nonce c.sessions) [
  | none ↦
      let fresh : Session = record { highest = counter; bitmap = 1 } in
      ok (record c { sessions = evict c.max_sessions (put_last nonce fresh c.sessions) })
  | some s ↦
      bind (receive c.window s counter)
        λ t. ok (record c { sessions = put_last nonce t c.sessions })
]

-- What `snapshot` persists; the nonces stay bytes here and are hex text in the JSON.
pub record Snapshot : Type 0 where
  pub session_nonce : Bytes
  pub counter : ℕ
  pub sessions : List (Bytes × Session)

unfoldable pub snapshot : Codec → Snapshot
snapshot c = record { session_nonce = c.nonce; counter = c.counter; sessions = c.sessions }

-- The loop of `__init__` over the persisted sessions.
unfoldable pub load_sessions :
    List (Bytes × Session) → Dict Bytes Session → Result (Dict Bytes Session)
load_sessions [] d = ok d
load_sessions ((nonce, s) ∷ rest) d =
    let more = load_sessions rest (put nonce s d) in
    if length nonce == 16 then more else err (value_error "persisted session nonce is invalid")

abbrev saved_counter : Option Snapshot → ℕ
saved_counter none = 0
saved_counter (some s) = s.counter

abbrev saved_sessions : Option Snapshot → List (Bytes × Session)
saved_sessions none = []
saved_sessions (some s) = s.sessions

-- `session_nonce`, the persisted one or `os.urandom(16)`; giving both of the first two is an error.
abbrev choose_nonce : Bytes → Option Bytes → Option Snapshot → Result Bytes
choose_nonce urandom none none = ok urandom
choose_nonce urandom (some nonce) none = ok nonce
choose_nonce urandom none (some s) = ok s.session_nonce
choose_nonce urandom (some nonce) (some s) =
    err (value_error "session_nonce and state are mutually exclusive")

-- `__init__` on a byte string key; `urandom` is what `os.urandom(16)` returns.
unfoldable pub open_codec : Bytes → Bytes → Option Bytes → ℕ → ℕ → Option Snapshot → Result Codec
open_codec urandom psk session_nonce window max_sessions state =
    bind (require (leb 16 (length psk)) (value_error "PSK must contain at least 16 bytes")) λ _.
      bind (choose_nonce urandom session_nonce state) λ nonce.
        bind
          (require (length nonce == 16) (value_error "session nonce must contain exactly 16 bytes"))
          λ _.
            bind
              (require (leb 1 window && leb window 4096)
                (value_error "replay_window must be between 1 and 4096"))
              λ _.
                bind (require (leb 1 max_sessions) (value_error "max_sessions must be positive"))
                  λ _. bind (load_sessions (saved_sessions state) []) λ sessions.
                    bind
                      (require (leb (length sessions) max_sessions)
                        (value_error "persisted sessions exceed max_sessions"))
                      λ _. ok (record {
                        psk = psk;
                        nonce = nonce;
                        counter = saved_counter state;
                        window = window;
                        max_sessions = max_sessions;
                        sessions = sessions;
                      })

abbrev pub magic : Bytes
magic = 76 ∷ 73 ∷ 65 ∷ 49 ∷ []

abbrev pub header_size : ℕ
header_size = 32

abbrev pub mac_size : ℕ
mac_size = 32

abbrev pub max_payload_size : ℕ
max_payload_size = 1024 * 1024

-- `struct.Struct(">4s16sQI").pack(MAGIC, nonce, counter, length)`
unfoldable pub pack_header : Bytes → ℕ → ℕ → Bytes
pack_header nonce counter size = magic ++ (nonce ++ (to_be 8 counter ++ to_be 4 size))

-- The fields of the same format, read back.
pub record Header : Type 0 where
  pub tag : Bytes
  pub nonce : Bytes
  pub counter : ℕ
  pub size : ℕ

unfoldable pub unpack_header : Bytes → Header
unpack_header bytes = record {
  tag = take 4 bytes;
  nonce = take 16 (drop 4 bytes);
  counter = from_be (take 8 (drop 16 (drop 4 bytes)));
  size = from_be (take 4 (drop 8 (drop 16 (drop 4 bytes))));
}

pub record Opened : Type 0 where
  pub payload : Bytes
  pub session_nonce : Bytes
  pub counter : ℕ

-- `hmac.new(key, body, hashlib.sha256).digest()` is a parameter.
module _ (hmac_sha256 : Bytes → Bytes → Bytes) where
  -- The counter moves on before `pack` may refuse it.
  unfoldable pub seal : Codec → Bytes → Result Bytes × Codec
  seal c payload =
      if ltb max_payload_size (length payload)
      then (err (value_error "authenticated payload exceeds limit"), c)
      else let next : Codec = record c { counter = c.counter + 1 } in
        let body : Bytes = pack_header c.nonce c.counter (length payload) ++ payload in
        if ltb c.counter (2 ^ 64)
        then (ok (body ++ hmac_sha256 c.psk body), next)
        else (err (struct_error "argument out of range"), next)

  -- `open_with_metadata`; nothing is written before the counter is accepted.
  unfoldable pub open_datagram : Codec → Bytes → Result (Opened × Codec)
  open_datagram c datagram =
      bind
        (require (leb (header_size + mac_size) (length datagram))
          (auth_error "authenticated datagram is truncated"))
        λ _.
          let h = unpack_header datagram in
          let body = take (length datagram - mac_size) datagram in
          let supplied = drop (length datagram - mac_size) datagram in
          bind (require (h.tag == magic) (auth_error "bad authenticated datagram magic")) λ _.
            bind
              (require (leb h.size max_payload_size)
                (auth_error "authenticated payload exceeds limit"))
              λ _.
                bind
                  (require (length datagram == header_size + h.size + mac_size)
                    (auth_error "authenticated datagram length mismatch"))
                  λ _.
                    bind
                      (require (supplied == hmac_sha256 c.psk body)
                        (auth_error "authenticated datagram MAC mismatch"))
                      λ _. bind (accept_counter c h.nonce h.counter) λ c'. ok (
                        record {
                          payload = drop header_size body;
                          session_nonce = h.nonce;
                          counter = h.counter;
                        },
                        c',
                      )
