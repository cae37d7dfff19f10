-- ===== src/Prelude/Int.antt =====
-- The C `int`: a number or the negative of one.
use Prim.Native.Nat.{ℕ}

-- `negsuc n` is -(n + 1).
pub data ℤ : Type 0 where
  pos : ℕ → ℤ
  negsuc : ℕ → ℤ

-- The number if it is positive, else 0; so `i > n` is `n < pos_part i`, and `i <= 0` is `pos_part i == 0`.
abbrev pub pos_part : ℤ → ℕ
pos_part (pos n) = n
pos_part (negsuc n) = 0

abbrev pub minus_one : ℤ
minus_one = negsuc 0
