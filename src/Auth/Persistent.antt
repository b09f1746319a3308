-- ===== src/Auth/Persistent.antt =====
-- shared_protocol/auth.py, class PersistentAuthSession: the snapshot is saved before a sealed
-- datagram or an opened payload is released.
use low_altitude_io_t_system.Common.{
  List, Result, Result-cases, [], Option, arith, bind, err, inl, inr, list_eq, nat_eq, none, ok,
  pair_eq, settle, some, string_eq, ℕ, ◌++◌, ◌+◌, ◌∷◌, ◌≡◌, ◌≤◌, ◌⊎◌, refl,
}
use low_altitude_io_t_system.Auth.{
  Bytes, Codec, Opened, Snapshot, accept_counter, choose_nonce, load_sessions, saved_counter,
  saved_sessions, open_codec, open_datagram, seal, snapshot, unpack_header,
}
use low_altitude_io_t_system.Transport.Receiver.Missing.{Ascending}
use low_altitude_io_t_system.Inbox.{Saving, lost, replaced, written}

pub record Persistent : Type 0 where
  pub codec : Codec
  pub disk : Option Snapshot

-- `self.store.save(self.codec.snapshot())`
unfoldable pub save_snapshot : Saving → Persistent → Result (Unit {0}) × Persistent
unfolding snapshot
save_snapshot written p = (ok tt, record p { disk = some (snapshot p.codec) })
save_snapshot (lost x) p = (err x, p)
save_snapshot (replaced x) p = (err x, record p { disk = some (snapshot p.codec) })

-- The nonce that the caller gives counts only where nothing was saved.
unfoldable pub offered_nonce : Option Bytes → Option Snapshot → Option Bytes
offered_nonce session_nonce none = session_nonce
offered_nonce session_nonce (some s) = none

-- The constructor on what the store loads, which is nothing before the first save.
unfoldable pub open_persistent :
    Bytes → Bytes → Option Bytes → ℕ → ℕ → Option Snapshot → Result Persistent
unfolding offered_nonce
open_persistent urandom psk session_nonce window max_sessions loaded =
    bind (open_codec urandom psk (offered_nonce session_nonce loaded) window max_sessions loaded)
      λ codec. ok (record { codec = codec; disk = loaded })

-- What happens to a session; a restart that cannot load leaves it as it is.
pub data Event : Type 0 where
  seals : Saving → Bytes → Event
  opens : Saving → Bytes → Event
  restarts : Bytes → Option Bytes → Event

module _ (hmac_sha256 : Bytes → Bytes → Bytes) where
  -- `seal`
  unfoldable pub seal_saved : Saving → Bytes → Persistent → Result Bytes × Persistent
  unfolding save_snapshot
  seal_saved saving payload p =
      let (sealed, c) = seal hmac_sha256 p.codec payload in
      elim sealed [
        | err x ↦ (err x, record p { codec = c })
        | ok datagram ↦
            let (saved, p') = save_snapshot saving (record p { codec = c }) in
            (bind saved (λ _. ok datagram), p')
      ]

  -- `open`
  unfoldable pub open_saved : Saving → Bytes → Persistent → Result Opened × Persistent
  unfolding save_snapshot
  open_saved saving datagram p = elim (open_datagram hmac_sha256 p.codec datagram) [
    | err x ↦ (err x, p)
    | ok (opened, c) ↦
        let (saved, p') = save_snapshot saving (record p { codec = c }) in
        (bind saved (λ _. ok opened), p')
  ]

  unfoldable pub after_event : Event → Persistent → Persistent
  after_event (seals saving payload) p = (seal_saved saving payload p).1
  after_event (opens saving datagram) p = (open_saved saving datagram p).1
  after_event (restarts urandom session_nonce) p =
      settle p (
        open_persistent urandom p.codec.psk session_nonce p.codec.window p.codec.max_sessions
          p.disk)

  -- The counter of the datagram that an event releases.
  unfoldable pub released : Event → Persistent → List ℕ
  released (seals saving payload) p = elim (seal_saved saving payload p).0 [
    | ok datagram ↦ p.codec.counter ∷ []
    | err x ↦ []
  ]
  released (opens saving datagram) p = []
  released (restarts urandom session_nonce) p = []

  unfoldable pub released_all : List Event → Persistent → List ℕ
  unfolding released after_event
  released_all [] p = []
  released_all (e ∷ es) p = released e p ++ released_all es (after_event e p)

  -- What is on disk is not ahead of the codec.
  abbrev pub Behind : ℕ → Persistent → Type 0
  Behind low p = (low ≤ saved_counter p.disk) × (saved_counter p.disk ≤ p.codec.counter)

  save-Behind :
      (saving : Saving) (low : ℕ) (p : Persistent)
      → Behind low p
      → Behind low (save_snapshot saving p).1
  unfolding save_snapshot
  save-Behind written low p (a, b) = (omega (arith, a, b), omega arith)
  save-Behind (lost x) low p v = v
  save-Behind (replaced x) low p (a, b) = (omega (arith, a, b), omega arith)

  seal-counter :
      (c : Codec) (payload datagram : Bytes)
      → (seal hmac_sha256 c payload).0 ≡ ok datagram
      → (seal hmac_sha256 c payload).1.counter ≡ c.counter + 1
  unfolding seal
  seal-counter c payload datagram e = ground arith

  seal-counter_le :
      (c : Codec) (payload : Bytes) → c.counter ≤ (seal hmac_sha256 c payload).1.counter
  unfolding seal
  seal-counter_le c payload = ground arith

  accept_counter-counter :
      (c c' : Codec) (n : Bytes) (k : ℕ) → accept_counter c n k ≡ ok c' → c'.counter ≡ c.counter
  unfolding accept_counter
  accept_counter-counter c c' n k e = ground arith

  open_datagram-counter :
      (c c' : Codec) (datagram : Bytes) (o : Opened)
      → open_datagram hmac_sha256 c datagram ≡ ok (o, c')
      → c'.counter ≡ c.counter
  unfolding open_datagram
  open_datagram-counter c c' datagram o e =
      let h = unpack_header datagram in
      elim (Result-cases (accept_counter c h.nonce h.counter)) [
        | inl (d, took) ↦
            let same = accept_counter-counter c d h.nonce h.counter took in ground arith
        | inr (x, refused) ↦ absurd (ground arith)
      ]

  open_codec-counter :
      (urandom psk : Bytes) (given : Option Bytes) (window max_sessions : ℕ)
      → (loaded : Option Snapshot) (c : Codec)
      → open_codec urandom psk given window max_sessions loaded ≡ ok c
      → c.counter ≡ saved_counter loaded
  unfolding open_codec
  open_codec-counter urandom psk given window max_sessions loaded c e =
      elim (Result-cases (choose_nonce urandom given loaded)) [
        | inl (nonce, chosen) ↦ elim (Result-cases (load_sessions (saved_sessions loaded) [])) [
          | inl (sessions, read) ↦ ground arith
          | inr (x, wrong) ↦ ground arith
        ]
        | inr (x, wrong) ↦ ground arith
      ]

  -- Where the constructor accepts a snapshot, it takes its counter.
  open_persistent-counter :
      (urandom psk : Bytes) (session_nonce : Option Bytes) (window max_sessions : ℕ)
      → (loaded : Option Snapshot) (p : Persistent)
      → open_persistent urandom psk session_nonce window max_sessions loaded ≡ ok p
      → (p.codec.counter ≡ saved_counter loaded) × (saved_counter p.disk ≡ saved_counter loaded)
  unfolding open_persistent
  open_persistent-counter urandom psk session_nonce window max_sessions loaded p e =
      let given = offered_nonce session_nonce loaded in
      elim (Result-cases (open_codec urandom psk given window max_sessions loaded)) [
        | inl (c, opened) ↦
            let same = open_codec-counter urandom psk given window max_sessions loaded c opened in
            (ground arith, ground arith)
        | inr (x, wrong) ↦ absurd (ground arith)
      ]

  restart-Behind :
      (urandom : Bytes) (session_nonce : Option Bytes) (low : ℕ) (p : Persistent)
      → Behind low p
      → Behind low (after_event (restarts urandom session_nonce) p)
  unfolding after_event
  restart-Behind urandom session_nonce low p (a, b) =
      elim (Result-cases (
        open_persistent urandom p.codec.psk session_nonce p.codec.window p.codec.max_sessions
          p.disk)) [
            | inl (q, opened) ↦
                let (same, kept) =
                  open_persistent-counter urandom p.codec.psk session_nonce p.codec.window
                    p.codec.max_sessions p.disk q opened in
                rw opened (omega arith, omega arith)
            | inr (x, wrong) ↦ rw wrong (a, b)
          ]

  open-Behind :
      (saving : Saving) (datagram : Bytes) (low : ℕ) (p : Persistent)
      → Behind low p
      → Behind low (after_event (opens saving datagram) p)
  unfolding after_event open_saved
  open-Behind saving datagram low p (a, b) =
      elim (Result-cases (open_datagram hmac_sha256 p.codec datagram)) [
        | inl ((o, c), opened) ↦
            let same = open_datagram-counter p.codec c datagram o opened in
            rw (opened, after_event, open_saved)
              (save-Behind saving low (record p { codec = c }) (a, omega arith))
        | inr (x, wrong) ↦ rw (wrong, after_event, open_saved) (a, b)
      ]

  seal-Behind :
      (saving : Saving) (payload : Bytes) (low : ℕ) (p : Persistent)
      → Behind low p
      → Behind low (after_event (seals saving payload) p)
  unfolding after_event seal_saved
  seal-Behind saving payload low p (a, b) =
      let more = seal-counter_le p.codec payload in
      let c = (seal hmac_sha256 p.codec payload).1 in
      elim (Result-cases (seal hmac_sha256 p.codec payload).0) [
        | inl (datagram, sealed) ↦
            rw (sealed, after_event, seal_saved)
              (save-Behind saving low (record p { codec = c }) (a, omega arith))
        | inr (x, wrong) ↦ rw (wrong, after_event, seal_saved) (a, omega arith)
      ]

  -- A datagram is released only once a later counter is on disk.
  seal-released :
      (saving : Saving) (payload : Bytes) (p : Persistent)
      → (released (seals saving payload) p ≡ [])
        ⊎ ((released (seals saving payload) p ≡ p.codec.counter ∷ [])
            × Behind (p.codec.counter + 1) (after_event (seals saving payload) p))
  unfolding released after_event seal_saved save_snapshot snapshot
  seal-released written payload p = elim (Result-cases (seal hmac_sha256 p.codec payload).0) [
    | inr (x, wrong) ↦ inl (rw (wrong, released, seal_saved) refl)
    | inl (datagram, sealed) ↦
        let next = seal-counter p.codec payload datagram sealed in
        inr (
          rw (sealed, released, seal_saved) refl,
          rw (sealed, after_event, seal_saved) (omega arith, omega arith),
        )
  ]
  seal-released (lost y) payload p = elim (Result-cases (seal hmac_sha256 p.codec payload).0) [
    | inr (x, wrong) ↦ inl (rw (wrong, released, seal_saved) refl)
    | inl (datagram, sealed) ↦ inl (rw (sealed, released, seal_saved) refl)
  ]
  seal-released (replaced y) payload p = elim (Result-cases (seal hmac_sha256 p.codec payload).0) [
    | inr (x, wrong) ↦ inl (rw (wrong, released, seal_saved) refl)
    | inl (datagram, sealed) ↦ inl (rw (sealed, released, seal_saved) refl)
  ]

  -- The counters of the datagrams that a session releases, over any sequence of seals, opens and
  -- restarts from what is on disk, and whatever becomes of each save, strictly increase from any
  -- bound that the saved counter has reached, where the saved counter is not ahead of the codec's.
  pub released_all-Ascending :
      (es : List Event) (low : ℕ) (p : Persistent)
      → Behind low p
      → Ascending low (released_all es p)
  unfolding released_all released
  released_all-Ascending [] low p v = tt
  released_all-Ascending (seals saving payload ∷ es) low p v =
      let e = seals saving payload in
      elim (seal-released saving payload p) [
        | inl quiet ↦
            rw quiet
              (released_all-Ascending es low (after_event e p) (seal-Behind saving payload low p v))
        | inr (sent, further) ↦ rw sent (
          omega (arith, v.0, v.1),
          released_all-Ascending es (p.codec.counter + 1) (after_event e p) further,
        )
      ]
  released_all-Ascending (opens saving datagram ∷ es) low p v =
      released_all-Ascending es low (after_event (opens saving datagram) p)
        (open-Behind saving datagram low p v)
  released_all-Ascending (restarts urandom session_nonce ∷ es) low p v =
      released_all-Ascending es low (after_event (restarts urandom session_nonce) p)
        (restart-Behind urandom session_nonce low p v)
