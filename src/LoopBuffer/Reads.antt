-- ===== src/LoopBuffer/Reads.antt =====
-- `pop`, `read` and `commit` of loop_buffer.h against the byte queue of the buffer's contents.
use snet.Prelude.{
  ℕ, zero, suc, ◌+◌, ◌-◌, ◌%◌, ◌≤◌, ◌<◌, ◌≡◌, refl, ap, ap₂, ◌∙◌, sym, [], ◌∷◌, ◌++◌, Memory, load,
  arith, none, some,
}
use native.Mathlib.Nat.{mod-add-mod, add-zero, mod_self}
use native.Mathlib.Decide.{dec_lt}
use snet.ByteQueue
use snet.LoopBuffer.{LoopBuffer, u32, data_len, read_pos, block_len, pop, commit}
use snet.LoopBuffer.Index.{IsSize, size_bound, wrap-index}
use snet.LoopBuffer.Window.{window, window-append, length-window, ring-index}
use snet.LoopBuffer.Inv.{
  IsValid, read_pos_lem, read_pos-lt, data_len-commit, block_len-le, pop-IsValid,
}
use snet.LoopBuffer.Writes.{contents, window-ext}

module _ (size : ℕ) where
  load-eq-window :
      (m : Memory) (p h k : ℕ)
      → ((d : ℕ) → d < k → p + d ≡ (h + d) % size)
      → load m p k ≡ window size m h k
  unfolding load
  load-eq-window m p h zero e = refl
  load-eq-window m p h (suc k) e =
      ap₂ ◌∷◌ (ap m (simp add-zero at (e 0 (omega arith))))
        (load-eq-window m (p + 1) (suc h) k shifted)
    where
      shifted : (d : ℕ) → d < k → p + 1 + d ≡ (suc h + d) % size
      shifted d lt =
          let q : suc h + d ≡ h + suc d = omega arith in
          rw q (omega (arith, e (suc d) (omega arith)))

module _ {size : ℕ} (s : IsSize size) {b : LoopBuffer} (v : IsValid size b) where
  -- The block at the read position is the front of the contents.
  block-window :
      (n : ℕ)
      → n ≤ block_len size b
      → load b.buffer (read_pos size b) n ≡ window size b.buffer b.head n
  unfolding block_len
  block-window n h = load-eq-window size b.buffer (read_pos size b) b.head n (λ d lt.
      rw (read_pos_lem s b)
        (ground (arith, ring-index size b.head d, size_bound s, read_pos_lem s b, read_pos-lt s b)))

  -- Taking `n` bytes off the head drops them from the front.
  contents-commit :
      (n : ℕ)
      → n ≤ data_len size b
      → contents size b ≡ window size b.buffer b.head n ++ contents size (commit size b n)
  unfolding commit
  contents-commit n h =
      let rest = data_len size b - n in
      let split : data_len size b ≡ n + rest = omega arith in
      ap (window size b.buffer b.head) split
      ∙ window-append size b.buffer b.head n rest
      ∙ ap (λ t. window size b.buffer b.head n ++ t)
          (window-ext size b.buffer b.buffer (b.head + n) (u32 (b.head + n)) rest same_index
            ∙ ap (window size b.buffer (u32 (b.head + n))) (sym (data_len-commit s v n h)))
    where
      same_index :
          (d : ℕ)
          → d < data_len size b - n
          → b.buffer ((b.head + n + d) % size) ≡ b.buffer ((u32 (b.head + n) + d) % size)
      same_index d lt = ap b.buffer (
          sym (mod-add-mod (b.head + n) size d)
          ∙ ap (λ x. (x + d) % size) (sym (wrap-index (b.head + n) s))
          ∙ mod-add-mod (u32 (b.head + n)) size d)

  block_len-pos : 0 < data_len size b → 0 < block_len size b
  unfolding block_len
  block_len-pos h = omega (arith, read_pos-lt s b, size_bound s)

  pop-idle : data_len size b ≡ 0 → pop size b ≡ (0, none, b)
  unfolding pop
  pop-idle h = rw h

  pop-block :
      0 < data_len size b
      → pop size b ≡ (
        block_len size b,
        some (window size b.buffer b.head (block_len size b)),
        commit size b (block_len size b),
      )
  unfolding pop commit
  pop-block h = ground (arith, block-window (block_len size b))

  -- On a valid ring `pop` hands over a block that is the front of the contents and keeps the rest,
  -- or idles, which it does only on an empty buffer.
  pub pop_refines :
      let (n, seen, b') = pop size b in ByteQueue.Pops (contents size b) n seen (contents size b')
  pop_refines = elim (dec_lt 0 (data_len size b)) [
    | yes h ↦ rw (pop-block h) (
        ByteQueue.Pops.block _ (sym (length-window size b.buffer b.head (block_len size b)))
          (block_len-pos h) refl (contents-commit (block_len size b) (block_len-le s v)))
    | no h ↦
        let e : data_len size b ≡ 0 = omega arith in
        let gone : contents size b ≡ [] = ap (window size b.buffer b.head) e in
        rw (pop-idle e) (ByteQueue.Pops.idle gone refl refl gone)
  ]

  pub data_len-pop : data_len size (pop size b).2 ≡ data_len size b - block_len size b
  data_len-pop = elim (dec_lt 0 (data_len size b)) [
    | yes h ↦ rw (pop-block h) (data_len-commit s v (block_len size b) (block_len-le s v))
    | no h ↦ let e : data_len size b ≡ 0 = omega arith in rw (pop-idle e) (omega arith)
  ]

  -- Where a block ended at the end of the array, the next starts at its beginning.
  pub read_pos-pop : size - read_pos size b < data_len size b → read_pos size (pop size b).2 ≡ 0
  unfolding commit block_len
  read_pos-pop h =
      let n = block_len size b in
      let whole : b.head % size + n ≡ size =
        omega (arith, read_pos_lem s b, read_pos-lt s b, size_bound s) in
      let h' : (pop size b).2.head ≡ u32 (b.head + n) =
        ap (λ r. r.2.head) (pop-block (omega arith)) in
      read_pos_lem s (pop size b).2
      ∙ ap (λ t. t % size) h'
      ∙ wrap-index (b.head + n) s
      ∙ sym (mod-add-mod b.head size n)
      ∙ ap (λ t. t % size) whole
      ∙ mod_self size

  pub rest-le_block : data_len size (pop size b).2 ≤ block_len size (pop size b).2
  unfolding block_len
  rest-le_block = elim (dec_lt (size - read_pos size b) (data_len size b)) [
    | yes h ↦
        omega (arith, read_pos-pop h, size_bound s, (pop-IsValid s v).fits, data_len-pop, v.fits)
    | no h ↦ omega (arith, data_len-pop, read_pos-lt s b, size_bound s)
  ]
