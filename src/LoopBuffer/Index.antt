-- ===== src/LoopBuffer/Index.antt =====
-- Where the counters of a LoopBuffer point: the size is a power of two that divides 2 ^ 32, so a
-- counter that wraps keeps its place in the array.
use snet.Prelude.{
  ℕ, zero, suc, ◌+◌, ◌-◌, ◌*◌, ◌/◌, ◌%◌, ◌^◌, ◌≤◌, ◌<◌, ◌≡◌, ap, sym, ◌∙◌, bit_and, bit_and_mask,
  arith,
}
use native.Mathlib.Nat.{
  pow-suc, pow-le-pow_right, one-le-pow, add-mul-mod_self_right, mul_assoc, add-zero, mul-one,
}

pub record IsSize (size : ℕ) : Type 0 where
  pub bits : ℕ
  pub power : size ≡ 2 ^ bits
  pub small : bits ≤ 31

pub pow-add : (j k : ℕ) → 2 ^ (j + k) ≡ 2 ^ j * 2 ^ k
pow-add j zero = rw add-zero (sym (mul-one (2 ^ j)))
pow-add j (suc k) =
    let e : j + suc k ≡ suc (j + k) = omega arith in
    rw (e, pow-suc, pow-add j k, mul_assoc, ← pow-suc)

pub size_pos : {size : ℕ} → IsSize size → 0 < size
size_pos s = rw s.power (one-le-pow s.bits 2 (omega arith))

pub size_bound : {size : ℕ} → IsSize size → size ≤ 2 ^ 31
size_bound s = rw s.power (pow-le-pow_right (omega arith) s.small)

pub size-mask : {size : ℕ} (a : ℕ) → IsSize size → bit_and a (size - 1) ≡ a % size
size-mask a s = rw s.power (bit_and_mask s.bits a)

pub size-divides : {size : ℕ} → IsSize size → (q : ℕ) × (2 ^ 32 ≡ q * size)
size-divides s =
    let e : 32 ≡ 32 - s.bits + s.bits = omega (arith, s.small) in
    (2 ^ (32 - s.bits), rw s.power (ap (λ t. 2 ^ t) e ∙ pow-add (32 - s.bits) s.bits))

-- Reducing a counter to 32 bits keeps its index.
pub wrap-index : {size : ℕ} (a : ℕ) → IsSize size → a % 2 ^ 32 % size ≡ a % size
wrap-index {size} a s =
    let (q, e) = size-divides s in
    let c = a / 2 ^ 32 in
    let whole : a ≡ a % 2 ^ 32 + c * q * size = rw mul_assoc (rw (← e) (omega arith)) in
    sym (ap (λ t. t % size) whole ∙ add-mul-mod_self_right (a % 2 ^ 32) (c * q) size)
