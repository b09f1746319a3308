-- ===== src/Common/Search.antt =====
-- `bytes.find`: where a pattern first stands in a byte string.
use low_altitude_io_t_system.Common.Tests.{if◌then◌else◌, Bool-cases, Option-cases}
use low_altitude_io_t_system.Common.Lists.{
  length, take, drop, take-append_le, length-drop, length-take,
}
use low_altitude_io_t_system.Common.Equality.{◌==◌, nat_eq, list_eq}
use Prim.Native.Nat.{ℕ, suc, ◌+◌, ◌≤◌, ◌<◌}
use mathlib.Core.Path.{◌≡◌, refl, ap, ◌∙◌}
use mathlib.Core.Bool.{true}
use mathlib.Core.Logic.{inl, inr}
use mathlib.Core.Option.{Option, none, some}
use mathlib.Core.List.{List, [], ◌∷◌, ◌++◌}
use native.Mathlib.Omega.{arith}

abbrev pub later : Option ℕ → Option ℕ
later none = none
later (some i) = some (i + 1)

-- `buffer.find(pattern)` of a pattern that is not empty; `none` is Python's -1.
unfoldable pub find : List ℕ → List ℕ → Option ℕ
find sought [] = none
find sought (b ∷ bs) =
    if take (length sought) (b ∷ bs) == sought then some 0 else later (find sought bs)

-- The test at one place: the pattern stands there.
take-eq :
    (sought b : List ℕ)
    → (take (length sought) b == sought) ≡ true
    → take (length sought) b ≡ sought
take-eq sought b h = (list_eq.beq_iff (take (length sought) b) sought).0 h

pub find_bound : (sought b : List ℕ) (s : ℕ) → find sought b ≡ some s → s + length sought ≤ length b
unfolding find
find_bound sought [] s h = absurd (ground arith)
find_bound sought (c ∷ cs) s h = elim (Bool-cases (take (length sought) (c ∷ cs) == sought)) [
  | inl here ↦
      let e = ap (λ (l : List ℕ). length l) (take-eq sought (c ∷ cs) here) in
      let first : s ≡ 0 = ground (arith, here) in
      omega (arith, e, length-take (length sought) (c ∷ cs), first)
  | inr on ↦ elim (Option-cases (find sought cs)) [
    | inl gone ↦ absurd (ground arith)
    | inr (t, found) ↦
        let rest = find_bound sought cs t found in
        let shifted : s ≡ t + 1 = ground arith in omega arith
  ]
]

-- More bytes do not move the first place.
pub find-append :
    (sought b x : List ℕ) (s : ℕ) → find sought b ≡ some s → find sought (b ++ x) ≡ some s
unfolding find
find-append sought [] x s h = absurd (ground arith)
find-append sought (c ∷ cs) x s h = elim (Bool-cases (take (length sought) (c ∷ cs) == sought)) [
  | inl here ↦
      let bound = find_bound sought (c ∷ cs) s h in
      let same = take-append_le (length sought) (c ∷ cs) x (omega arith) in
      rw (same, here) (rw here at h)
  | inr on ↦ elim (Option-cases (find sought cs)) [
    | inl gone ↦ absurd (ground arith)
    | inr (t, found) ↦
        let bound = find_bound sought cs t found in
        let same = take-append_le (length sought) (c ∷ cs) x (omega arith) in
        let rest = find-append sought cs x t found in rw (same, on, rest) (rw (on, found) at h)
  ]
]

-- Where nothing is found and a pattern fits, the first byte can go before more arrive.
pub find_slide :
    (sought : List ℕ) (c : ℕ) (cs x : List ℕ)
    → find sought (c ∷ cs) ≡ none
    → length sought ≤ length (c ∷ cs)
    → (find sought cs ≡ none) × (find sought ((c ∷ cs) ++ x) ≡ later (find sought (cs ++ x)))
unfolding find
find_slide sought c cs x h fits =
    let same = take-append_le (length sought) (c ∷ cs) x fits in
    elim (Bool-cases (take (length sought) (c ∷ cs) == sought)) [
      | inl here ↦ absurd (ground arith)
      | inr on ↦ elim (Option-cases (find sought cs)) [
        | inl gone ↦ (gone, rw (same, on) refl)
        | inr (t, found) ↦ absurd (ground arith)
      ]
    ]

-- At the place that was found the pattern stands first.
pub find-drop :
    (sought b : List ℕ) (s : ℕ) → find sought b ≡ some s → find sought (drop s b) ≡ some 0
unfolding find
find-drop sought [] s h = absurd (ground arith)
find-drop sought (c ∷ cs) s h = elim (Bool-cases (take (length sought) (c ∷ cs) == sought)) [
  | inl here ↦ let first : s ≡ 0 = ground (arith, here) in rw (first, here) refl
  | inr on ↦ elim (Option-cases (find sought cs)) [
    | inl gone ↦ absurd (ground arith)
    | inr (t, found) ↦
        let shifted : s ≡ suc t = ground arith in rw shifted (find-drop sought cs t found)
  ]
]

-- A pattern that stands first is found first, whatever follows.
pub find_first :
    (sought b x : List ℕ)
    → take (length sought) b ≡ sought
    → 0 < length sought
    → length sought ≤ length b
    → find sought (b ++ x) ≡ some 0
unfolding find
find_first sought [] x h pos fits = absurd (omega arith)
find_first sought (c ∷ cs) x h pos fits =
    let same : take (length sought) (c ∷ (cs ++ x)) ≡ sought =
      take-append_le (length sought) (c ∷ cs) x fits ∙ h in
    let here : (take (length sought) (c ∷ (cs ++ x)) == sought) ≡ true =
      (list_eq.beq_iff (take (length sought) (c ∷ (cs ++ x))) sought).1 same in
    rw here refl

abbrev pub shift_by : ℕ → Option ℕ → Option ℕ
shift_by k none = none
shift_by k (some i) = some (k + i)

-- `buffer.find(pattern, start)`
unfoldable pub find_from : List ℕ → ℕ → List ℕ → Option ℕ
find_from sought start b = shift_by start (find sought (drop start b))

pub find_from_bound :
    (sought b : List ℕ) (start s : ℕ)
    → find_from sought start b ≡ some s
    → 0 < length sought
    → (start ≤ s) × (s < length b)
unfolding find_from
find_from_bound sought b start s h pos = elim (Option-cases (find sought (drop start b))) [
  | inl gone ↦ absurd (ground arith)
  | inr (t, found) ↦
      let far = find_bound sought (drop start b) t found in
      let at_s : s ≡ start + t = ground arith in omega (arith, length-drop start b)
]
