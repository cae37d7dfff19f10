-- ===== src/Prelude/Bits.antt =====
-- The bits of `x | y`, from the lowest up, and `x & (x - 1)`.
use Prim.Native.Nat.{
  ℕ, zero, suc, ◌+◌, ◌-◌, ◌*◌, ◌/◌, ◌%◌, ◌^◌, ◌≤◌, min, max, bit_and, bit_or, digits,
  bit_and-bitwise, bit_or-bitwise,
}
use mathlib.Core.Path.{◌≡◌, refl, sym, ap, ap₂, ◌∙◌}
use native.Mathlib.Nat.{pow-suc, one-le-pow, mul_comm, mul_assoc, div-div-eq-div-mul}
use native.Mathlib.Omega.{arith}

module _ (z : ℕ → ℕ) (f : ℕ → ℕ → ℕ) where
  -- More fuel than digits makes no difference.
  more_fuel : (n k a b : ℕ) → a ≤ n → digits z f (n + k) a b ≡ digits z f n a b
  more_fuel n k zero b h = zero_digits (n + k) n
    where
      zero_digits : (i j : ℕ) → digits z f i 0 b ≡ digits z f j 0 b
      zero_digits zero zero = refl
      zero_digits zero (suc j) = refl
      zero_digits (suc i) zero = refl
      zero_digits (suc i) (suc j) = refl
  more_fuel zero k (suc a) b h = absurd (omega arith)
  more_fuel (suc n) k (suc a) b h =
      let e : suc n + k ≡ suc (n + k) = omega arith in
      rw e
        (ap (λ t. t * 2 + f (suc a % 2) (b % 2)) (more_fuel n k (suc a / 2) (b / 2) (omega arith)))

  lowest :
      (a b : ℕ)
      → digits z f (suc a) (suc a) b
        ≡ digits z f (suc a / 2) (suc a / 2) (b / 2) * 2 + f (suc a % 2) (b % 2)
  lowest a b =
      let half = suc a / 2 in
      let spare : half + (a - half) ≡ a = omega arith in
      ap (λ t. t * 2 + f (suc a % 2) (b % 2))
        (ap (λ n. digits z f n half (b / 2)) (sym spare)
          ∙ more_fuel half (a - half) half (b / 2) (omega arith))

pub bit_or_low : (a b : ℕ) → bit_or a b ≡ bit_or (a / 2) (b / 2) * 2 + max (a % 2) (b % 2)
bit_or_low zero b = simp bit_or-bitwise (omega arith)
bit_or_low (suc a) b = simp bit_or-bitwise (lowest (λ y. y) max a b)

pub bit_and_low : (a b : ℕ) → bit_and a b ≡ bit_and (a / 2) (b / 2) * 2 + min (a % 2) (b % 2)
bit_and_low zero b = simp bit_and-bitwise (omega arith)
bit_and_low (suc a) b = simp bit_and-bitwise (lowest (λ y. zero) min a b)

bit_or-zero_below : (n a : ℕ) → a ≤ n → bit_or a 0 ≡ a
bit_or-zero_below n zero h = bit_or_low 0 0 ∙ refl
bit_or-zero_below zero (suc a) h = absurd (omega arith)
bit_or-zero_below (suc n) (suc a) h =
    omega (arith, bit_or_low (suc a) 0, bit_or-zero_below n (suc a / 2) (omega arith))

pub bit_or-zero : (a : ℕ) → bit_or a 0 ≡ a
bit_or-zero a = bit_or-zero_below a a (omega arith)

div_half : (a k : ℕ) → a / 2 ^ suc k ≡ a / 2 / 2 ^ k
div_half a k =
    ap (λ t. a / t) (pow-suc 2 k ∙ mul_comm (2 ^ k) 2) ∙ sym (div-div-eq-div-mul a 2 (2 ^ k))

-- `|` with ones in the low k bits.
pub bit_or-ones : (k a : ℕ) → bit_or a (2 ^ k - 1) ≡ a / 2 ^ k * 2 ^ k + (2 ^ k - 1)
bit_or-ones zero a = omega (arith, bit_or-zero a)
bit_or-ones (suc k) a =
    let p = one-le-pow k 2 (omega arith) in
    let double = pow-suc 2 k in
    let half : (2 ^ suc k - 1) / 2 ≡ 2 ^ k - 1 = omega arith in
    let odd : (2 ^ suc k - 1) % 2 ≡ 1 = omega arith in
    let rest = bit_or-ones k (a / 2) in
    bit_or_low a (2 ^ suc k - 1)
    ∙ ap₂ (λ x y. bit_or (a / 2) x * 2 + max (a % 2) y) half odd
    ∙ ground (arith, rest, div_half a k, mul_assoc (a / 2 / 2 ^ k) (2 ^ k) 2, double)

-- A shift to the right of `|`.
pub bit_or-shift : (j a b : ℕ) → bit_or a b / 2 ^ j ≡ bit_or (a / 2 ^ j) (b / 2 ^ j)
bit_or-shift zero a b =
    let whole : bit_or a b / 2 ^ 0 ≡ bit_or a b = omega arith in
    let left : a / 2 ^ 0 ≡ a = omega arith in
    let right : b / 2 ^ 0 ≡ b = omega arith in whole ∙ ap₂ bit_or (sym left) (sym right)
bit_or-shift (suc j) a b =
    let half : bit_or a b / 2 ≡ bit_or (a / 2) (b / 2) = omega (arith, bit_or_low a b) in
    div_half (bit_or a b) j
    ∙ ap (λ t. t / 2 ^ j) half
    ∙ bit_or-shift j (a / 2) (b / 2)
    ∙ ap₂ bit_or (sym (div_half a j)) (sym (div_half b j))
