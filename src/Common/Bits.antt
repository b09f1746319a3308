-- ===== src/Common/Bits.antt =====
-- Bits of unbounded Python integers: `x >> k & 1`, and what shifting, masking and setting do to it.
use Prim.Native.Nat.{ℕ, zero, suc, ◌+◌, ◌*◌, ◌/◌, ◌%◌, ◌^◌, ◌<◌}
use mathlib.Core.Path.{◌≡◌, refl, ap, ◌∙◌}
use mathlib.Core.Logic.{◌≢◌}
use native.Mathlib.Omega.{arith}
use native.Mathlib.Nat.{div-add-mod, mod-lt, mod-eq_of_lt, add-mul-mod_self_right}

-- `(x >> k) & 1`
unfoldable pub bit : ℕ → ℕ → ℕ
bit zero x = x % 2
bit (suc k) x = bit k (x / 2)

pub pow_suc : (k : ℕ) → 2 ^ suc k ≡ 2 * 2 ^ k
pow_suc k = omega arith

pub pow_pos : (k : ℕ) → 0 < 2 ^ k
pow_pos zero = omega arith
pow_pos (suc k) = omega (arith, pow_suc k, pow_pos k)

half-mod : (m x : ℕ) → 0 < m → x % (2 * m) ≡ 2 * (x / 2 % m) + x % 2
half-mod m x h =
    ap (λ t. t % (2 * m)) regroup
    ∙ add-mul-mod_self_right (2 * (x / 2 % m) + x % 2) (x / 2 / m) (2 * m)
    ∙ mod-eq_of_lt (omega (arith, mod-lt (x / 2) h))
  where
    regroup : x ≡ 2 * (x / 2 % m) + x % 2 + x / 2 / m * (2 * m)
    regroup = omega (arith, div-add-mod (x / 2) m)

mod-pow_suc : (w x : ℕ) → x % 2 ^ suc w ≡ 2 * (x / 2 % 2 ^ w) + x % 2
mod-pow_suc w x = rw (pow_suc w) (half-mod (2 ^ w) x (pow_pos w))

-- Masking by `(1 << w) - 1` keeps the bits below `w`.
pub bit-mask : (w k x : ℕ) → k < w → bit k (x % 2 ^ w) ≡ bit k x
unfolding bit
bit-mask zero k x h = absurd (omega arith)
bit-mask (suc w) zero x h = omega (arith, mod-pow_suc w x)
bit-mask (suc w) (suc k) x h = ap (bit k) halve ∙ bit-mask w k (x / 2) (omega arith)
  where
    halve : x % 2 ^ suc w / 2 ≡ x / 2 % 2 ^ w
    halve = omega (arith, mod-pow_suc w x)

halve-shift : (s x : ℕ) → x * 2 ^ suc s / 2 ≡ x * 2 ^ s
halve-shift s x = omega (arith, ap (λ (t : ℕ). x * t) (pow_suc s))

bit-shift : (s j k x : ℕ) → j ≡ k + s → bit j (x * 2 ^ s) ≡ bit k x
unfolding bit
bit-shift zero j k x e =
    let ej : j ≡ k = omega arith in let ex : x * 2 ^ 0 ≡ x = omega arith in rw (ej, ex)
bit-shift (suc s) zero k x e = absurd (omega arith)
bit-shift (suc s) (suc j) k x e = rw (halve-shift s x) (bit-shift s j k x (omega arith))

-- `(x << s) | 1` for a positive `s`: the old bits move up by `s`.
pub bit-shift_in : (s j k x : ℕ) → 0 < s → j ≡ k + s → bit j (x * 2 ^ s + 1) ≡ bit k x
unfolding bit
bit-shift_in zero j k x h e = absurd (omega arith)
bit-shift_in (suc s) zero k x h e = absurd (omega arith)
bit-shift_in (suc s) (suc j) k x h e =
    let halve : (x * 2 ^ suc s + 1) / 2 ≡ x * 2 ^ s =
      omega (arith, ap (λ (t : ℕ). x * t) (pow_suc s)) in
    rw halve (bit-shift s j k x (omega arith))

pub bit-zero_shift_in : (s x : ℕ) → 0 < s → bit 0 (x * 2 ^ s + 1) ≡ 1
unfolding bit
bit-zero_shift_in zero x h = absurd (omega arith)
bit-zero_shift_in (suc s) x h = omega (arith, ap (λ (t : ℕ). x * t) (pow_suc s))

halve-set : (d x : ℕ) → (x + 2 ^ suc d) / 2 ≡ x / 2 + 2 ^ d
halve-set d x = omega (arith, pow_suc d)

-- `x | (1 << d)` where bit `d` is clear sets that bit and no other.
pub bit-set_self : (d x : ℕ) → bit d x ≡ 0 → bit d (x + 2 ^ d) ≡ 1
unfolding bit
bit-set_self zero x h = omega arith
bit-set_self (suc d) x h = rw (halve-set d x) (bit-set_self d (x / 2) h)

pub bit-set_ne : (d k x : ℕ) → bit d x ≡ 0 → k ≢ d → bit k (x + 2 ^ d) ≡ bit k x
unfolding bit
bit-set_ne zero zero x h e = absurd (e refl)
bit-set_ne zero (suc k) x h e = let halve : (x + 1) / 2 ≡ x / 2 = omega arith in ap (bit k) halve
bit-set_ne (suc d) zero x h e = omega (arith, pow_suc d)
bit-set_ne (suc d) (suc k) x h e = rw (halve-set d x) (bit-set_ne d k (x / 2) h (λ p. e (ap suc p)))

pub set-lt : (w d x : ℕ) → d < w → x < 2 ^ w → bit d x ≡ 0 → x + 2 ^ d < 2 ^ w
unfolding bit
set-lt zero d x hd hx h = absurd (omega arith)
set-lt (suc w) zero x hd hx h = omega (arith, pow_suc w)
set-lt (suc w) (suc d) x hd hx h =
    omega
      (arith, pow_suc w, pow_suc d, set-lt w d (x / 2) (omega arith) (omega (arith, pow_suc w)) h)

pub bit-lt_two : (k x : ℕ) → bit k x < 2
unfolding bit
bit-lt_two zero x = omega arith
bit-lt_two (suc k) x = bit-lt_two k (x / 2)
