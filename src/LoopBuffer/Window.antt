-- ===== src/LoopBuffer/Window.antt =====
-- The bytes of a ring from a counter on, and what a copy into the ring does to them.
use snet.Prelude.{
  ℕ, zero, suc, ◌+◌, ◌-◌, ◌%◌, ◌^◌, ◌≤◌, ◌<◌, ◌≡◌, refl, ap, ◌∙◌, sym, List, [], ◌∷◌, ◌++◌, ◌⊎◌,
  inl, inr, length, take, drop, length-take, length-drop, Memory, store, store-outside,
  store-inside, get_or, get_or-take, get_or-drop, arith,
}
use native.Mathlib.Nat.{
  mod-lt, mod-add-mod, mod-eq_of_lt, mod-eq-sub-mod, add-zero, zero-add, suc-add,
}
use native.Mathlib.Decide.{dec_lt}
use snet.LoopBuffer.{copy_in, sub32}

-- `n` bytes from the counter `h` on, going round at `size`.
abbrev pub window : ℕ → Memory → ℕ → ℕ → List ℕ
window size m h zero = []
window size m h (suc n) = m (h % size) ∷ window size m (suc h) n

pub length-window : (size : ℕ) (m : Memory) (h n : ℕ) → length (window size m h n) ≡ n
length-window size m h zero = refl
length-window size m h (suc n) = ap suc (length-window size m (suc h) n)

pub window-append :
    (size : ℕ) (m : Memory) (h n k : ℕ)
    → window size m h (n + k) ≡ window size m h n ++ window size m (h + n) k
window-append size m h zero k = simp (zero-add, add-zero)
window-append size m h (suc n) k =
    let e : h + suc n ≡ suc h + n = omega arith in
    rw (suc-add, e) (ap (λ t. m (h % size) ∷ t) (window-append size m (suc h) n k))

-- The index `d` places after the counter `t`.
pub ring-index :
    (size t d : ℕ)
    → d < size
    → (((t + d) % size ≡ t % size + d) × (t % size + d < size))
      ⊎ ((t + d) % size + size ≡ t % size + d)
ring-index size t d h = elim (dec_lt (t % size + d) size) [
  | yes p ↦ inl (sym (mod-add-mod t size d) ∙ mod-eq_of_lt p, p)
  | no p ↦ inr (
      omega (
        arith,
        mod-add-mod t size d,
        mod-eq-sub-mod {n = t % size + d} {m = size} (omega arith),
        mod-eq_of_lt {n = t % size + d - size} {m = size}
            (omega (arith, mod-lt t {m = size} (omega arith))),
      ))
]

module _ (size : ℕ) (m : Memory) (p : ℕ) (bytes : List ℕ) (in_range : p < size) where
  pub copy_in-new :
      (d i : ℕ)
      → size ≤ 2 ^ 31
      → length bytes ≤ size
      → d < length bytes
      → ((i ≡ p + d) × (p + d < size)) ⊎ (i + size ≡ p + d)
      → copy_in size m p bytes i ≡ get_or bytes d 0
  unfolding copy_in
  copy_in-new d i small fits lt at =
      let ts = sub32 size p in
      let first = take ts bytes in
      ground (
        arith,
        length-take ts bytes,
        length-drop ts bytes,
        store-inside (store m p first) 0 (drop ts bytes) i,
        store-outside (store m p first) 0 (drop ts bytes) i,
        store-inside m p first i,
        store-inside m p bytes i,
        get_or-take ts bytes (i - p) 0,
        get_or-drop ts bytes (i - 0) d 0,
      )

  pub copy_in-old :
      (d i : ℕ)
      → size ≤ 2 ^ 31
      → length bytes ≤ d
      → d < size
      → ((i ≡ p + d) × (p + d < size)) ⊎ (i + size ≡ p + d)
      → copy_in size m p bytes i ≡ m i
  unfolding copy_in
  copy_in-old d i small fits lt at =
      let ts = sub32 size p in
      let first = take ts bytes in
      ground (
        arith,
        length-take ts bytes,
        length-drop ts bytes,
        store-outside (store m p first) 0 (drop ts bytes) i,
        store-outside m p first i,
        store-outside m p bytes i,
      )
