-- ===== src/LoopBuffer/Inv.antt =====
-- The representation invariant of LoopBuffer, and what the operations keep of it.
use snet.Prelude.{ℕ, ◌+◌, ◌-◌, ◌%◌, ◌^◌, ◌≤◌, ◌<◌, ◌≡◌, List, length, Memory, arith}
use native.Mathlib.Nat.{mod-lt}
use snet.LoopBuffer.{
  LoopBuffer, sub32, new, data_len, peek, write_pos, read_pos, push, block_len, pop, commit, clear,
}
use snet.LoopBuffer.Index.{IsSize, size-mask, size_bound, size_pos}

-- The counters are 32-bit words, and no more is stored than the array holds.
pub record IsValid (size : ℕ) (b : LoopBuffer) : Type 0 where
  pub head_word : b.head < 2 ^ 32
  pub tail_word : b.tail < 2 ^ 32
  pub fits : sub32 b.tail b.head ≤ size

pub new-IsValid : (size : ℕ) (garbage : Memory) → IsValid size (new garbage)
unfolding new
new-IsValid size garbage = omega arith

pub clear-IsValid : (size : ℕ) (b : LoopBuffer) → IsValid size (clear size b)
unfolding clear
clear-IsValid size b = omega arith

module _ {size : ℕ} (s : IsSize size) (b : LoopBuffer) where
  pub read_pos_lem : read_pos size b ≡ b.head % size
  unfolding read_pos
  read_pos_lem = size-mask b.head s

  pub write_pos_lem : write_pos size b ≡ b.tail % size
  unfolding write_pos
  write_pos_lem = size-mask b.tail s

  pub read_pos-lt : read_pos size b < size
  read_pos-lt = rw read_pos_lem (mod-lt b.head (size_pos s))

  pub write_pos-lt : write_pos size b < size
  write_pos-lt = rw write_pos_lem (mod-lt b.tail (size_pos s))

module _ {size : ℕ} (s : IsSize size) {b : LoopBuffer} (v : IsValid size b) where
  -- `peek` does not wrap.
  pub peek_lem : peek size b ≡ size - data_len size b
  unfolding peek data_len
  peek_lem = omega (arith, size_bound s, v)

  pub data_len-push :
      (bytes : List ℕ)
      → length bytes ≤ peek size b
      → data_len size (push size b bytes).1 ≡ data_len size b + length bytes
  unfolding push data_len peek
  data_len-push bytes h = ground (arith, size_bound s)

  -- `push` keeps a ring valid, whether it writes or refuses.
  pub push-IsValid : (bytes : List ℕ) → IsValid size (push size b bytes).1
  unfolding push data_len peek
  push-IsValid bytes = ground (arith, size_bound s)

  pub commit-IsValid : (len : ℕ) → len ≤ data_len size b → IsValid size (commit size b len)
  unfolding commit data_len
  commit-IsValid len h = omega (arith, size_bound s, v)

  pub data_len-commit :
      (len : ℕ) → len ≤ data_len size b → data_len size (commit size b len) ≡ data_len size b - len
  unfolding commit data_len
  data_len-commit len h = omega (arith, size_bound s, v)

  pub block_len-le : block_len size b ≤ data_len size b
  unfolding block_len
  block_len-le = omega arith

  -- `pop` keeps a ring valid, whether it takes a block or idles.
  pub pop-IsValid : IsValid size (pop size b).2
  unfolding pop commit
  pop-IsValid = ground (arith, commit-IsValid (block_len size b) block_len-le, v)
