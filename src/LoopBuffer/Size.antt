-- ===== src/LoopBuffer/Size.antt =====
-- `get_power_of_two` and `BufferSize` of loop_buffer.h: the size of the ring is a power of two.
use snet.Prelude.{
  ℕ, zero, suc, ◌+◌, ◌-◌, ◌*◌, ◌/◌, ◌%◌, ◌^◌, ◌≤◌, ◌<◌, ◌≡◌, refl, sym, ap, ap₂, ◌∙◌, ◌==◌, min,
  bit_and, bit_or, Bool-cases, inl, inr, bit_or-zero, bit_or-ones, bit_or-shift, bit_and_low, arith,
}
use native.Mathlib.Nat.{
  suc-mul, pow-suc, one-le-pow, pow-le-pow_right, div-div-eq-div-mul, div-eq_of_lt,
  mul-add-div_right, div-eq_of_lt-le,
}
use native.Mathlib.Decide.{dec_lt}
use snet.LoopBuffer.{u32, sub32, get_power_of_two, buffer_size}
use snet.LoopBuffer.Index.{IsSize, pow-add}

pred-mul : (e d : ℕ) → 0 < e → (e - 1) * d + d ≡ e * d
pred-mul zero d h = elim h [ ]
pred-mul (suc e) d h = let one_less : suc e - 1 ≡ e = omega arith in rw one_less (sym (suc-mul e d))

-- Ones above ones.
ones-append : (d e : ℕ) → (2 ^ e - 1) * 2 ^ d + (2 ^ d - 1) ≡ 2 ^ (e + d) - 1
ones-append d e =
    let p = one-le-pow d 2 (omega arith) in
    let q = one-le-pow e 2 (omega arith) in omega (arith, pow-add e d, pred-mul (2 ^ e) (2 ^ d) q)

-- A number with d + e ones, shifted to the right by d.
ones-shift : (d e : ℕ) → (2 ^ (e + d) - 1) / 2 ^ d ≡ 2 ^ e - 1
ones-shift d e =
    let p = one-le-pow d 2 (omega arith) in
    let low : (2 ^ d - 1) / 2 ^ d ≡ 0 = div-eq_of_lt (omega arith) in
    ap (λ t. t / 2 ^ d) (sym (ones-append d e))
    ∙ mul-add-div_right p (2 ^ e - 1) (2 ^ d - 1)
    ∙ omega (arith, low)

shift-shift : (x j k : ℕ) → x / 2 ^ j / 2 ^ k ≡ x / 2 ^ (j + k)
shift-shift x j k = div-div-eq-div-mul x (2 ^ j) (2 ^ k) ∙ ap (λ t. x / t) (sym (pow-add j k))

-- The number's top bits, all but the low r, are m ones. Then shifting it by m and joining both
-- gives up to m ones more.
smear :
    (r d e x : ℕ)
    → x / 2 ^ (r + d) ≡ 2 ^ (e + d) - 1
    → bit_or x (x / 2 ^ (e + d)) / 2 ^ r ≡ 2 ^ (e + d + d) - 1
smear r d e x top =
    let m = e + d in
    let below : x / 2 ^ m / 2 ^ r ≡ 2 ^ d - 1 =
      shift-shift x m r
      ∙ ap (λ t. x / 2 ^ t) (omega arith)
      ∙ sym (shift-shift x (r + d) e)
      ∙ ap (λ t. t / 2 ^ e) (top ∙ ap (λ t. 2 ^ t - 1) (omega arith))
      ∙ ones-shift e d in
    let above : x / 2 ^ r / 2 ^ d ≡ 2 ^ m - 1 = shift-shift x r d ∙ top in
    bit_or-shift r x (x / 2 ^ m)
    ∙ ap (bit_or (x / 2 ^ r)) below
    ∙ bit_or-ones d (x / 2 ^ r)
    ∙ ap (λ t. t * 2 ^ d + (2 ^ d - 1)) above
    ∙ ones-append d m

-- The top bits of a number of `bits` bits are s ones, or all of them are.
abbrev Stage : ℕ → ℕ → ℕ → Type 0
Stage bits s x = x / 2 ^ (bits - min s bits) ≡ 2 ^ min s bits - 1

stage : (bits s x : ℕ) → Stage bits s x → Stage bits (s + s) (bit_or x (x / 2 ^ s))
stage bits s x top = elim (dec_lt s bits) [
  | yes room ↦
      let d = min s (bits - s) in
      let e = s - d in
      let r = bits - (s + d) in
      let whole : e + d ≡ s = omega arith in
      let front : x / 2 ^ (r + d) ≡ 2 ^ (e + d) - 1 =
        ap (λ t. x / 2 ^ t) (omega arith) ∙ top ∙ ap (λ t. 2 ^ t - 1) (omega arith) in
      ap₂ (λ m t. bit_or x (x / 2 ^ m) / 2 ^ t) (sym whole) (omega arith)
      ∙ smear r d e x front
      ∙ ap (λ t. 2 ^ t - 1) (omega arith)
  | no all ↦
      let m₁ : min s bits ≡ bits = omega arith in
      let m₂ : min (s + s) bits ≡ bits = omega arith in
      let none_low : bits - min s bits ≡ 0 = omega arith in
      let still : bits - min (s + s) bits ≡ 0 = omega arith in
      let top' : x / 2 ^ 0 ≡ 2 ^ bits - 1 =
        ap (λ t. x / 2 ^ t) (sym none_low) ∙ top ∙ ap (λ t. 2 ^ t - 1) m₁ in
      let p = one-le-pow bits 2 (omega arith) in
      let wide : 2 ^ bits ≤ 2 ^ s = pow-le-pow_right (omega arith) (omega arith) in
      let small : x < 2 ^ s = omega arith in
      let same : bit_or x (x / 2 ^ s) ≡ x = ap (bit_or x) (div-eq_of_lt small) ∙ bit_or-zero x in
      ap₂ (λ y t. y / 2 ^ t) same still ∙ top' ∙ ap (λ t. 2 ^ t - 1) (sym m₂)
]

-- The number of bits.
record HasBits (x bits : ℕ) : Type 0 where
  some_bit : 0 < bits
  low : 2 ^ (bits - 1) ≤ x
  high : x < 2 ^ bits

find_bits : (k x : ℕ) → 0 < x → x < 2 ^ k → (bits : ℕ) × (bits ≤ k) × HasBits x bits
find_bits zero x h small = absurd (omega arith)
find_bits (suc k) x h small = elim (dec_lt x (2 ^ k)) [
  | yes less ↦ let (bits, le, b) = find_bits k x h less in (bits, omega arith, b)
  | no more ↦
      (suc k, omega arith, record { some_bit = omega arith; low = exact more; high = small })
]
  where
    exact : ¬ (x < 2 ^ k) → 2 ^ (suc k - 1) ≤ x
    exact more = let e : suc k - 1 ≡ k = omega arith in rw e (omega arith)

first-Stage : (bits x : ℕ) → HasBits x bits → Stage bits 1 x
first-Stage bits x b =
    let one : min 1 bits ≡ 1 = omega (arith, b.some_bit) in
    let rest : bits - min 1 bits ≡ bits - 1 = omega arith in
    let e : bits ≡ suc (bits - 1) = omega (arith, b.some_bit) in
    let double : 2 ^ bits ≡ 2 ^ (bits - 1) * 2 = ap (λ t. 2 ^ t) e ∙ pow-suc 2 (bits - 1) in
    let q : x / 2 ^ (bits - 1) ≡ 1 =
      div-eq_of_lt-le (2 ^ (bits - 1)) (omega (arith, b.low)) (omega (arith, b.high)) in
    ap (λ t. x / 2 ^ t) rest ∙ q ∙ ap (λ t. 2 ^ t - 1) (sym one)

-- All the bits of the number are ones after the five steps.
smeared :
    (bits x : ℕ)
    → bits ≤ 32
    → HasBits x bits
    → (let b = bit_or x (x / 2 ^ 1) in
        let c = bit_or b (b / 2 ^ 2) in
        let d = bit_or c (c / 2 ^ 4) in let e = bit_or d (d / 2 ^ 8) in bit_or e (e / 2 ^ 16))
      ≡ 2 ^ bits - 1
smeared bits x le h =
    let b = bit_or x (x / 2 ^ 1) in
    let c = bit_or b (b / 2 ^ 2) in
    let d = bit_or c (c / 2 ^ 4) in
    let e = bit_or d (d / 2 ^ 8) in
    let f = bit_or e (e / 2 ^ 16) in
    let s₁ = stage bits 1 x (first-Stage bits x h) in
    let s₂ = stage bits 2 b s₁ in
    let s₃ = stage bits 4 c s₂ in
    let s₄ = stage bits 8 d s₃ in
    let s₅ : Stage bits 32 f = stage bits 16 e s₄ in
    let all : min 32 bits ≡ bits = omega arith in
    let none_low : bits - min 32 bits ≡ 0 = omega arith in
    let whole : f ≡ f / 2 ^ 0 = omega arith in
    whole ∙ ap (λ t. f / 2 ^ t) (sym none_low) ∙ s₅ ∙ ap (λ t. 2 ^ t - 1) all

-- From 1 up to 2 ^ 31, `get_power_of_two` gives the least power of two that is no smaller: it is
-- less than twice the number.
pub get_power_of_two_lem :
    (n : ℕ)
    → 0 < n
    → n ≤ 2 ^ 31
    → (bits : ℕ) × (get_power_of_two n ≡ 2 ^ bits)
      × (bits ≤ 31)
      × (n ≤ 2 ^ bits)
      × (2 ^ bits < 2 * n)
unfolding get_power_of_two
get_power_of_two_lem zero h small = elim h [ ]
get_power_of_two_lem (suc zero) h small = (0, refl, omega arith, omega arith, omega arith)
get_power_of_two_lem (suc (suc m)) h small =
    let x = suc m in
    let (bits, le, b) = find_bits 31 x (omega arith) (omega arith) in
    let less : sub32 (suc (suc m)) 1 ≡ x = omega arith in
    let ones = smeared bits x (omega arith) b in
    let p = one-le-pow bits 2 (omega arith) in
    let wide : 2 ^ bits ≤ 2 ^ 31 = pow-le-pow_right (omega arith) le in
    let word : u32 (2 ^ bits - 1 + 1) ≡ 2 ^ bits = omega arith in
    let e : bits ≡ suc (bits - 1) = omega (arith, b.some_bit) in
    let double : 2 ^ bits ≡ 2 ^ (bits - 1) * 2 = ap (λ t. 2 ^ t) e ∙ pow-suc 2 (bits - 1) in
    (bits, rw (get_power_of_two, less, ones) word, le, omega (arith, b.high), omega (arith, b.low))

bit_and_self_below : (k n : ℕ) → n ≤ k → bit_and n n ≡ n
bit_and_self_below k zero le = bit_and_low 0 0 ∙ refl
bit_and_self_below zero (suc n) le = absurd (omega arith)
bit_and_self_below (suc k) (suc n) le =
    omega (arith, bit_and_low (suc n) (suc n), bit_and_self_below k (suc n / 2) (omega arith))

bit_and_self : (n : ℕ) → bit_and n n ≡ n
bit_and_self n = bit_and_self_below n n (omega arith)

-- `n & (n - 1)` is 0 only at powers of two.
power_below : (k n : ℕ) → n ≤ k → 0 < n → bit_and n (n - 1) ≡ 0 → (bits : ℕ) × (n ≡ 2 ^ bits)
power_below zero n le h e = absurd (omega arith)
power_below (suc k) n le h e = elim (dec_lt 0 (n % 2)) [
  | yes odd ↦
      let half : (n - 1) / 2 ≡ n / 2 = omega arith in
      let joined : bit_and (n / 2) (n / 2) ≡ 0 =
        ap (bit_and (n / 2)) (sym half) ∙ omega (arith, bit_and_low n (n - 1)) in
      (0, omega (arith, joined, bit_and_self (n / 2)))
  | no even ↦
      let half : (n - 1) / 2 ≡ n / 2 - 1 = omega arith in
      let joined : bit_and (n / 2) (n / 2 - 1) ≡ 0 =
        ap (bit_and (n / 2)) (sym half) ∙ omega (arith, bit_and_low n (n - 1)) in
      let (bits, p) = power_below k (n / 2) (omega arith) (omega arith) joined in
      (suc bits, omega (arith, p, pow-suc 2 bits))
]

short_power : (bits : ℕ) → 2 ^ bits ≤ 2 ^ 31 → bits ≤ 31
short_power bits h = elim (dec_lt 31 bits) [
  | no le ↦ omega arith
  | yes more ↦
      let over : 32 ≤ bits = omega arith in
      let wide : 2 ^ 32 ≤ 2 ^ bits = pow-le-pow_right (omega arith) over in absurd (omega arith)
]

-- The size of every buffer of 1 up to 2 ^ 31 bytes is a power of two, with room for as many bytes as
-- asked for and less than twice as many.
pub buffer_size-IsSize :
    (max_size : ℕ)
    → 0 < max_size
    → max_size ≤ 2 ^ 31
    → IsSize (buffer_size max_size)
      × (max_size ≤ buffer_size max_size)
      × (buffer_size max_size < 2 * max_size)
unfolding buffer_size
buffer_size-IsSize n h small = elim (Bool-cases (bit_and n (n - 1) == 0)) [
  | inl power ↦
      let e : bit_and n (n - 1) ≡ 0 = ground arith in
      let (bits, p) = power_below n n (omega arith) h e in
      rw power (
        record { bits = bits; power = p; small = short_power bits (omega (arith, p)) },
        omega arith,
        omega arith,
      )
  | inr other ↦
      let word : u32 n ≡ n = omega arith in
      let (bits, p, le, enough, less) = get_power_of_two_lem n h small in
      rw (other, word)
        (record { bits = bits; power = p; small = le }, omega (arith, p), omega (arith, p))
]
