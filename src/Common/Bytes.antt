-- ===== src/Common/Bytes.antt =====
-- Byte strings as lists of numbers, and `struct`'s big-endian fields.
use Prim.Native.Nat.{ℕ, zero, suc, ◌+◌, ◌*◌, ◌/◌, ◌%◌, ◌^◌, ◌<◌}
use mathlib.Core.Path.{◌≡◌, refl, ap, ◌∙◌}
use mathlib.Core.List.{List, [], ◌∷◌}
use native.Mathlib.Omega.{arith}
use native.Mathlib.Nat.{mod-lt, mod-eq_of_lt, div-add-mod, add-mul-mod_self_left}
use low_altitude_io_t_system.Common.Lists.{length}

pow256_suc : (w : ℕ) → 256 ^ suc w ≡ 256 * 256 ^ w
pow256_suc w = omega arith

pow256_pos : (w : ℕ) → 0 < 256 ^ w
pow256_pos zero = omega arith
pow256_pos (suc w) = omega (arith, pow256_pos w, pow256_suc w)

-- `int.to_bytes(width, "big")`, as `struct.pack` writes the formats B, H, I and Q.
unfoldable pub to_be : ℕ → ℕ → List ℕ
to_be zero x = []
to_be (suc w) x = (x / 256 ^ w % 256) ∷ to_be w x

-- `int.from_bytes(bytes, "big")`, with what was read before.
unfoldable pub from_be_step : ℕ → List ℕ → ℕ
from_be_step acc [] = acc
from_be_step acc (b ∷ bs) = from_be_step (acc * 256 + b) bs

unfoldable pub from_be : List ℕ → ℕ
unfolding from_be_step
from_be bs = from_be_step 0 bs

pub length-to_be : (w x : ℕ) → length (to_be w x) ≡ w
unfolding to_be
length-to_be zero x = refl
length-to_be (suc w) x = ap suc (length-to_be w x)

mod-pow256_suc : (w x : ℕ) → x % 256 ^ suc w ≡ x / 256 ^ w % 256 * 256 ^ w + x % 256 ^ w
mod-pow256_suc w x =
    let p = 256 ^ w in
    let top : x / p ≡ 256 * (x / p / 256) + x / p % 256 = omega arith in
    let regroup : x ≡ x / p % 256 * p + x % p + 256 * p * (x / p / 256) =
      omega (arith, div-add-mod x p, ap (λ (t : ℕ). t * p) top) in
    let below : x / p % 256 * p + x % p < 256 * p =
      grind (arith, mod-lt x (pow256_pos w), mod-lt (x / p) {m = 256} (omega arith)) in
    rw (pow256_suc w) (
      ap (λ (t : ℕ). t % (256 * p)) regroup
      ∙ add-mul-mod_self_left (x / p % 256 * p + x % p) (256 * p) (x / p / 256)
      ∙ mod-eq_of_lt below)

from_be_step-to_be : (w acc x : ℕ) → from_be_step acc (to_be w x) ≡ acc * 256 ^ w + x % 256 ^ w
unfolding from_be_step to_be
from_be_step-to_be zero acc x = omega arith
from_be_step-to_be (suc w) acc x = omega (
  arith,
  mod-pow256_suc w x,
  from_be_step-to_be w (acc * 256 + x / 256 ^ w % 256) x,
  ap (λ (t : ℕ). acc * t) (pow256_suc w),
)

-- What fits the field comes back.
pub from_be-to_be : (w x : ℕ) → x < 256 ^ w → from_be (to_be w x) ≡ x
unfolding from_be
from_be-to_be w x h = omega (arith, from_be_step-to_be w 0 x, mod-eq_of_lt h)
