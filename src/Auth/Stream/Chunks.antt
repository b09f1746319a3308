-- ===== src/Auth/Stream/Chunks.antt =====
-- The stream decoder gives the same envelopes however the stream is cut into chunks.
use low_altitude_io_t_system.Common.{
  Bool-cases, Option-cases, [], arith, drop, drop-append_le, false, inl, inr, leb, length,
  length-append, length-drop, list_eq, ltb, min, nat_eq, none, pair_eq, refl, some, string_eq, suc,
  sym, take-append_le, take_last, ℕ, ◌++◌, ◌+◌, ◌-◌, ◌<◌, ◌∙◌, ◌∷◌, ◌≡◌, ◌≤◌, ◌⊎◌,
}
use low_altitude_io_t_system.Common.Search.{find, find-append, find-drop, find_bound, find_slide}
use low_altitude_io_t_system.Auth.{Bytes, header_size, mac_size, magic, unpack_header}
use low_altitude_io_t_system.Auth.Stream.{Cut, cut, cut_envelope, gives, rejects, waits}

-- The fields of the header are read from its first 32 bytes.
pub unpack_header-append : (b x : Bytes) → 32 ≤ length b → unpack_header (b ++ x) ≡ unpack_header b
unfolding unpack_header
unpack_header-append b x h =
    let b4 = drop 4 b in
    let h4 : 28 ≤ length b4 = omega (arith, length-drop 4 b) in
    let b20 = drop 16 b4 in
    let h20 : 12 ≤ length b20 = omega (arith, length-drop 16 b4) in
    let b28 = drop 8 b20 in
    let h28 : 4 ≤ length b28 = omega (arith, length-drop 8 b20) in
    rw (
      take-append_le 4 b x (omega arith),
      drop-append_le 4 b x (omega arith),
      take-append_le 16 b4 x (omega arith),
      drop-append_le 16 b4 x (omega arith),
      take-append_le 8 b20 x (omega arith),
      drop-append_le 8 b20 x (omega arith),
      take-append_le 4 b28 x (omega arith),
    )

-- A round that does not wait makes the same cut when more bytes stand behind.
abbrev pub more : Bytes → Cut → Cut
more x (waits kept) = waits (kept ++ x)
more x (rejects left) = rejects (left ++ x)
more x (gives f left) = gives f (left ++ x)

-- The loop goes on after such a round.
abbrev pub Goes : Cut → Type 0
Goes (waits kept) = ⊥
Goes (rejects left) = Unit {0}
Goes (gives f left) = Unit {0}

cut_envelope-append :
    (m : ℕ) (b x : Bytes)
    → (cut_envelope m b ≡ waits b)
      ⊎ ((cut_envelope m (b ++ x) ≡ more x (cut_envelope m b)) × Goes (cut_envelope m b))
unfolding cut_envelope
cut_envelope-append m b x = elim (Bool-cases (ltb (length b) header_size)) [
  | inl short ↦ inl (rw short refl)
  | inr long ↦
      let fits : 32 ≤ length b = ground arith in
      let grown = length-append b x in
      let same = unpack_header-append b x fits in
      let total = header_size + (unpack_header b).size + mac_size in
      let long' : ltb (length (b ++ x)) header_size ≡ false = ground arith in
      elim (Bool-cases (ltb m total)) [
        | inl big ↦ inr (
          rw (long, long', same, big, drop-append_le 1 b x (omega arith)) refl,
          rw (long, big) tt,
        )
        | inr small ↦ elim (Bool-cases (ltb (length b) total)) [
          | inl waiting ↦ inl (rw (long, small, waiting) refl)
          | inr there ↦
              let has : total ≤ length b = ground arith in
              let there' : ltb (length (b ++ x)) total ≡ false = ground arith in
              inr (
                rw
                  (
                    long,
                    long',
                    same,
                    small,
                    there,
                    there',
                    take-append_le total b x has,
                    drop-append_le total b x has,
                  )
                  (refl, tt))
        ]
      ]
]

-- Where the magic is not in sight, only the last three bytes matter.
abbrev tail : Bytes → Bytes
tail b = take_last (min (length b) (length magic - 1)) b

tail_cons : (c : ℕ) (cs : Bytes) → 3 ≤ length cs → tail (c ∷ cs) ≡ tail cs
tail_cons c cs h =
    let e : length (c ∷ cs) - min (length (c ∷ cs)) 3 ≡ suc (length cs - min (length cs) 3) =
      omega arith in
    rw e refl

tail_short : (b : Bytes) → length b ≤ 3 → tail b ≡ b
tail_short b h = let e : length b - min (length b) 3 ≡ 0 = omega arith in rw e refl

cut-drop_first :
    (m c : ℕ) (cs x : Bytes)
    → find magic (c ∷ cs) ≡ none
    → 3 ≤ length cs
    → cut m ((c ∷ cs) ++ x) ≡ cut m (cs ++ x)
unfolding cut
cut-drop_first m c cs x h long =
    let slid = (find_slide magic c cs x h (omega arith)).1 in
    elim (Option-cases (find magic (cs ++ x))) [
      | inl gone ↦ rw (slid, gone, tail_cons c (cs ++ x) (omega (arith, length-append cs x))) refl
      | inr (t, found) ↦ let e : t + 1 ≡ suc t = omega arith in rw (slid, found, e) refl
    ]

cut-tail : (m : ℕ) (b x : Bytes) → find magic b ≡ none → cut m (b ++ x) ≡ cut m (tail b ++ x)
cut-tail m [] x h = refl
cut-tail m (c ∷ cs) x h = elim (Bool-cases (leb 3 (length cs))) [
  | inl long ↦
      let l : 3 ≤ length cs = ground arith in
      let rest = (find_slide magic c cs x h (omega arith)).0 in
      rw (tail_cons c cs l) (cut-drop_first m c cs x h l ∙ cut-tail m cs x rest)
  | inr short ↦ rw (tail_short (c ∷ cs) (ground arith)) refl
]

cut-found :
    (m s : ℕ) (b x : Bytes)
    → find magic b ≡ some s
    → cut m (b ++ x) ≡ cut_envelope m (drop s b ++ x)
unfolding cut
cut-found m s b x h =
    let bound = find_bound magic b s h in
    rw (find-append magic b x s h, drop-append_le s b x (omega arith)) refl

-- A round that waits loses nothing that a later round would see; any other is not changed by what
-- stands behind.
pub cut-append :
    (m : ℕ) (b x : Bytes)
    → ((k : Bytes) × (cut m b ≡ waits k) × (cut m (b ++ x) ≡ cut m (k ++ x)))
      ⊎ ((cut m (b ++ x) ≡ more x (cut m b)) × Goes (cut m b))
unfolding cut
cut-append m b x = elim (Option-cases (find magic b)) [
  | inl gone ↦ inl (tail b, rw gone refl, cut-tail m b x gone)
  | inr (s, found) ↦
      let here = find-drop magic b s found in
      elim (cut_envelope-append m (drop s b) x) [
        | inl w ↦
            inl (
              drop s b,
              rw found w,
              cut-found m s b x found ∙ sym (cut-found m 0 (drop s b) x here),
            )
        | inr (same, goes) ↦ inr (cut-found m s b x found ∙ rw found same, rw found goes)
      ]
]

-- What a round leaves is no longer than what it found, and shorter if the loop goes on.
abbrev pub Shortens : ℕ → Cut → Type 0
Shortens n (waits kept) = length kept ≤ n
Shortens n (rejects left) = length left < n
Shortens n (gives f left) = length left < n

cut_envelope-Shortens : (m : ℕ) (b : Bytes) (n : ℕ) → length b ≤ n → Shortens n (cut_envelope m b)
unfolding cut_envelope
cut_envelope-Shortens m b n h =
    let total = header_size + (unpack_header b).size + mac_size in
    elim (Bool-cases (ltb (length b) header_size)) [
      | inl short ↦ rw short h
      | inr long ↦ elim (Bool-cases (ltb m total)) [
        | inl big ↦ rw (long, big) (ground (arith, length-drop 1 b))
        | inr small ↦ elim (Bool-cases (ltb (length b) total)) [
          | inl waiting ↦ rw (long, small, waiting) h
          | inr there ↦ rw (long, small, there) (ground (arith, length-drop total b))
        ]
      ]
    ]

pub cut-Shortens : (m : ℕ) (b : Bytes) → Shortens (length b) (cut m b)
unfolding cut
cut-Shortens m b = elim (Option-cases (find magic b)) [
  | inl gone ↦ rw gone (omega (arith, length-drop (length b - min (length b) (length magic - 1)) b))
  | inr (s, found) ↦
      rw found (cut_envelope-Shortens m (drop s b) (length b) (omega (arith, length-drop s b)))
]
