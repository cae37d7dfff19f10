-- ===== src/LoopBuffer/Writes.antt =====
-- `push` of loop_buffer.h against the byte queue of the buffer's contents.
use snet.Prelude.{
  ℕ, zero, suc, ◌+◌, ◌-◌, ◌%◌, ◌^◌, ◌≤◌, ◌<◌, ◌≡◌, refl, ap, ap₂, ◌∙◌, sym, List, [], ◌∷◌, ◌++◌,
  ◌⊎◌, inl, inr, length, Memory, get_or, arith, ltb, Bool-cases, true,
}
use native.Mathlib.Nat.{mod-add-mod, add-zero, add-mod_right}
use snet.ByteQueue
use snet.LoopBuffer.{LoopBuffer, sub32, u32, data_len, peek, write_pos, copy_in, push}
use snet.LoopBuffer.Index.{IsSize, size_bound, wrap-index}
use snet.LoopBuffer.Window.{
  window, window-append, length-window, ring-index, copy_in-new, copy_in-old,
}
use snet.LoopBuffer.Inv.{IsValid, peek_lem, write_pos_lem, write_pos-lt, data_len-push}

-- The bytes that are stored, oldest first.
abbrev pub contents : ℕ → LoopBuffer → List ℕ
contents size b = window size b.buffer b.head (data_len size b)

pub length-contents : (size : ℕ) (b : LoopBuffer) → length (contents size b) ≡ data_len size b
length-contents size b = length-window size b.buffer b.head (data_len size b)

module _ (size : ℕ) where
  pub window-ext :
      (m n : Memory) (h j k : ℕ)
      → ((d : ℕ) → d < k → m ((h + d) % size) ≡ n ((j + d) % size))
      → window size m h k ≡ window size n j k
  window-ext m n h j zero e = refl
  window-ext m n h j (suc k) e =
      ap₂ ◌∷◌ (simp add-zero at (e 0 (omega arith))) (window-ext m n (suc h) (suc j) k shifted)
    where
      shifted : (d : ℕ) → d < k → m ((suc h + d) % size) ≡ n ((suc j + d) % size)
      shifted d lt =
          let p : suc h + d ≡ h + suc d = omega arith in
          let q : suc j + d ≡ j + suc d = omega arith in rw (p, q) (e (suc d) (omega arith))

  window-eq :
      (m : Memory) (t : ℕ) (bytes : List ℕ)
      → ((d : ℕ) → d < length bytes → m ((t + d) % size) ≡ get_or bytes d 0)
      → window size m t (length bytes) ≡ bytes
  window-eq m t [] e = refl
  window-eq m t (x ∷ bytes) e =
      ap₂ ◌∷◌ (simp add-zero at (e 0 (omega arith))) (window-eq m (suc t) bytes shifted)
    where
      shifted : (d : ℕ) → d < length bytes → m ((suc t + d) % size) ≡ get_or bytes d 0
      shifted d lt = let p : suc t + d ≡ t + suc d = omega arith in rw p (e (suc d) (omega arith))

module _ {size : ℕ} (s : IsSize size) {b : LoopBuffer} (v : IsValid size b) where
  data_len-le : data_len size b ≤ size
  unfolding data_len
  data_len-le = v.fits

  -- The write position is that of the counter at the end of the contents.
  tail-index : (d e : ℕ) → b.head + data_len size b + d ≡ e → (b.tail + d) % size ≡ e % size
  unfolding data_len
  tail-index d e q =
      let n = sub32 b.tail b.head in
      let t : b.tail ≡ (b.head + n) % 2 ^ 32 = omega (arith, v) in
      sym (mod-add-mod b.tail size d)
      ∙ ap (λ x. (x % size + d) % size) t
      ∙ ap (λ x. (x + d) % size) (wrap-index (b.head + n) s)
      ∙ mod-add-mod (b.head + n) size d
      ∙ ap (λ x. x % size) q

  module _ (bytes : List ℕ) (fits : length bytes ≤ peek size b) where
    abbrev pub copied : Memory
    copied = copy_in size b.buffer (write_pos size b) bytes

    pub push-ok :
        push size b bytes
        ≡ (length bytes, record b { buffer = copied; tail = u32 (b.tail + length bytes) })
    unfolding push
    push-ok = ground arith

    place :
        (d : ℕ)
        → d < size
        → (((b.tail + d) % size ≡ write_pos size b + d) × (write_pos size b + d < size))
          ⊎ ((b.tail + d) % size + size ≡ write_pos size b + d)
    place d lt = rw (write_pos_lem s b) (ring-index size b.tail d lt)

    copied-old :
        (d : ℕ)
        → d < data_len size b
        → copied ((b.head + d) % size) ≡ b.buffer ((b.head + d) % size)
    copied-old d lt =
        let n = data_len size b in
        let back = size - n + d in
        let room : length bytes + n ≤ size = omega (arith, peek_lem s v, fits, data_len-le) in
        let e : (b.tail + back) % size ≡ (b.head + d) % size =
          tail-index back (b.head + d + size) (omega (arith, data_len-le))
          ∙ add-mod_right (b.head + d) size in
        rw (← e) (
          copy_in-old size b.buffer (write_pos size b) bytes (write_pos-lt s b) back _
            (size_bound s) (omega arith) (omega arith) (place back (omega arith)))

    copied-new :
        (d : ℕ)
        → d < length bytes
        → copied ((b.head + data_len size b + d) % size) ≡ get_or bytes d 0
    copied-new d lt =
        let room : length bytes ≤ size = omega (arith, peek_lem s v, fits) in
        rw (← tail-index d _ refl) (
          copy_in-new size b.buffer (write_pos size b) bytes (write_pos-lt s b) d _ (size_bound s)
            room lt (place d (omega arith)))

    -- An accepted `push` appends its bytes.
    pub contents-push : contents size (push size b bytes).1 ≡ contents size b ++ bytes
    contents-push =
        let n = data_len size b in
        let grown : data_len size (push size b bytes).1 ≡ n + length bytes =
          data_len-push s v bytes fits in
        let h : (push size b bytes).1.head ≡ b.head = ap (λ r. r.1.head) push-ok in
        let m : (push size b bytes).1.buffer ≡ copied = ap (λ r. r.1.buffer) push-ok in
        rw (grown, h, m)
          (window-append size copied b.head n (length bytes)
            ∙ ap₂ ◌++◌ (window-ext size copied b.buffer b.head b.head n copied-old)
                (window-eq size copied (b.head + n) bytes copied-new))

  -- A refused `push` returns 0 and changes nothing.
  pub push_refused :
      (bytes : List ℕ) → ltb (peek size b) (length bytes) ≡ true → push size b bytes ≡ (0, b)
  unfolding push
  push_refused bytes full = rw full

  space : size - length (contents size b) ≡ peek size b
  space = rw (length-contents size b) (sym (peek_lem s v))

  -- On a valid ring `push` answers as the queue of capacity `size` does, and leaves the queue's
  -- contents.
  pub push_refines :
      (bytes : List ℕ)
      → let (n, b') = push size b bytes in
        (n, contents size b') ≡ ByteQueue.push size (contents size b) bytes
  unfolding ByteQueue.push
  push_refines bytes = elim (Bool-cases (ltb (peek size b) (length bytes))) [
    | inl full ↦ rw (space, full, push_refused bytes full)
    | inr fits ↦
        let le : length bytes ≤ peek size b = ground arith in
        rw (space, fits) (λ i. ((push-ok bytes le i).0, contents-push bytes le i))
  ]
