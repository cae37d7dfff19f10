-- ===== src/Prelude/Mask.antt =====
-- `x & (2 ^ k - 1)` as a remainder.
use Prim.Native.Nat.{
  ℕ, zero, suc, ◌+◌, ◌-◌, ◌*◌, ◌/◌, ◌%◌, ◌^◌, ◌≤◌, ◌<◌, min, bit_and, digits, bit_and-bitwise,
}
use mathlib.Core.Path.{◌≡◌, ap, ◌∙◌}
use native.Mathlib.Nat.{pow-suc, one-le-pow, add-mul-mod_self_right, mod-eq_of_lt}
use native.Mathlib.Omega.{arith}

mod_double : (a p : ℕ) → 0 < p → a % (p * 2) ≡ a / 2 % p * 2 + a % 2
mod_double a p h =
    let r = a / 2 % p * 2 + a % 2 in
    let e : a ≡ r + a / 2 / p * (p * 2) = grind arith in
    let small : r < p * 2 = omega arith in
    ap (λ t. t % (p * 2)) e ∙ add-mul-mod_self_right r (a / 2 / p) (p * 2) ∙ mod-eq_of_lt small

half_mask : (k : ℕ) → ((2 ^ suc k - 1) / 2 ≡ 2 ^ k - 1) × ((2 ^ suc k - 1) % 2 ≡ 1)
half_mask k = omega (arith, pow-suc 2 k, one-le-pow k 2)

zero_mod : (k : ℕ) → 0 ≡ 0 % 2 ^ k
zero_mod k = omega (arith, one-le-pow k 2)

-- Digit by digit, for every count of digits that is large enough.
mask_digits : (n k a : ℕ) → a ≤ n → digits (λ b. zero) min n a (2 ^ k - 1) ≡ a % 2 ^ k
mask_digits zero k zero h = zero_mod k
mask_digits zero k (suc a) h = absurd (omega arith)
mask_digits (suc n) k zero h = zero_mod k
mask_digits (suc n) zero (suc a) h = omega (arith, mask_digits n zero (suc a / 2) (omega arith))
mask_digits (suc n) (suc k) (suc a) h = rw (half_mask k).0 (
    rw (half_mask k).1 (
      rw (mask_digits n k (suc a / 2) (omega arith))
        (rw pow-suc (omega (arith, mod_double (suc a) (2 ^ k) (one-le-pow k 2 (omega arith)))))))

pub bit_and_mask : (k a : ℕ) → bit_and a (2 ^ k - 1) ≡ a % 2 ^ k
bit_and_mask k a = rw (bit_and-bitwise a (2 ^ k - 1)) (mask_digits a k a (omega arith))
