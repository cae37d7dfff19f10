-- ===== src/Prelude/Blocks.antt =====
-- A C array of bytes as a function from its indices, with block reads and block writes.
use Prim.Native.Nat.{ℕ, zero, suc, ◌+◌, ◌-◌, ◌≤◌, ◌<◌}
use mathlib.Core.Path.{◌≡◌, refl, ap, ap₂, ◌∙◌, fun_ext}
use mathlib.Core.Bool.{◌&&◌}
use mathlib.Core.List.{List, [], ◌∷◌, ◌++◌}
use mathlib.Core.Logic.{◌⊎◌, inl, inr}
use native.Mathlib.Nat.{add-zero, zero-add, suc-add}
use native.Mathlib.Omega.{arith}
use snet.Prelude.Tests.{leb, ltb, if◌then◌else◌, Bool-cases}
use snet.Prelude.Lists.{length, get_or}

abbrev pub Memory : Type 0
Memory = ℕ → ℕ

-- `memcpy(&m[i], bytes, n)` for the n bytes of the list.
unfoldable pub store : Memory → ℕ → List ℕ → Memory
store m i bytes j = if leb i j && ltb j (i + length bytes) then get_or bytes (j - i) 0 else m j

-- The n bytes from `&m[i]` on.
unfoldable pub load : Memory → ℕ → ℕ → List ℕ
load m i zero = []
load m i (suc n) = m i ∷ load m (i + 1) n

pub load-length : (m : Memory) (i n : ℕ) → length (load m i n) ≡ n
unfolding load
load-length m i zero = refl
load-length m i (suc n) = ap suc (load-length m (i + 1) n)

pub store-outside :
    (m : Memory) (i : ℕ) (bytes : List ℕ) (j : ℕ)
    → (j < i) ⊎ (i + length bytes ≤ j)
    → store m i bytes j ≡ m j
unfolding store
store-outside m i bytes j h = ground arith

pub store-inside :
    (m : Memory) (i : ℕ) (bytes : List ℕ) (j : ℕ)
    → i ≤ j
    → j < i + length bytes
    → store m i bytes j ≡ get_or bytes (j - i) 0
unfolding store
store-inside m i bytes j h k = ground arith

-- Two memories that agree on a range load the same bytes from it.
pub load-ext :
    (m n : Memory) (i j k : ℕ) → ((d : ℕ) → d < k → m (i + d) ≡ n (j + d)) → load m i k ≡ load n j k
unfolding load
load-ext m n i j zero h = refl
load-ext m n i j (suc k) h =
    ap₂ ◌∷◌ (simp add-zero at (h 0 (omega arith))) (load-ext m n (i + 1) (j + 1) k shifted)
  where
    shifted : (d : ℕ) → d < k → m (i + 1 + d) ≡ n (j + 1 + d)
    shifted d lt =
        let e : i + 1 + d ≡ i + suc d = omega arith in
        let e' : j + 1 + d ≡ j + suc d = omega arith in rw (e, e') (h (suc d) (omega arith))

pub load-append : (m : Memory) (i n k : ℕ) → load m i (n + k) ≡ load m i n ++ load m (i + n) k
unfolding load
load-append m i zero k = rw (zero-add, add-zero)
load-append m i (suc n) k =
    let e : i + suc n ≡ i + 1 + n = omega arith in
    rw (suc-add, e) (ap (λ t. m i ∷ t) (load-append m (i + 1) n k))

pub get_or-load : (m : Memory) (i n j : ℕ) → j < n → get_or (load m i n) j 0 ≡ m (i + j)
unfolding load
get_or-load m i zero j h = elim h [ ]
get_or-load m i (suc n) zero h = ap m (omega arith)
get_or-load m i (suc n) (suc j) h =
    let e : i + 1 + j ≡ i + suc j = omega arith in get_or-load m (i + 1) n j (omega arith) ∙ ap m e

pub load-list :
    (m : Memory) (i : ℕ) (bytes : List ℕ)
    → ((d : ℕ) → d < length bytes → m (i + d) ≡ get_or bytes d 0)
    → load m i (length bytes) ≡ bytes
unfolding load
load-list m i [] h = refl
load-list m i (x ∷ bytes) h =
    ap₂ ◌∷◌ (simp add-zero at (h 0 (omega arith))) (load-list m (i + 1) bytes shifted)
  where
    shifted : (d : ℕ) → d < length bytes → m (i + 1 + d) ≡ get_or bytes d 0
    shifted d lt = let e : i + 1 + d ≡ i + suc d = omega arith in rw e (h (suc d) (omega arith))

-- What is stored is what is loaded.
pub load-store :
    (m : Memory) (i : ℕ) (bytes : List ℕ) → load (store m i bytes) i (length bytes) ≡ bytes
load-store m i bytes = load-list (store m i bytes) i bytes place
  where
    place : (d : ℕ) → d < length bytes → store m i bytes (i + d) ≡ get_or bytes d 0
    place d lt =
        store-inside m i bytes (i + d) (omega arith) (omega arith)
        ∙ ap (λ t. get_or bytes t 0) (omega arith)

-- Writing back what is there changes nothing.
pub store-load : (m : Memory) (i n : ℕ) → store m i (load m i n) ≡ m
store-load m i n = fun_ext same
  where
    same : (j : ℕ) → store m i (load m i n) j ≡ m j
    same j = elim (Bool-cases (leb i j && ltb j (i + n))) [
      | inl within ↦
          let le : i ≤ j = ground arith in
          let lt : j < i + length (load m i n) = ground (arith, load-length m i n) in
          let e : i + (j - i) ≡ j = omega arith in
          store-inside m i (load m i n) j le lt
          ∙ get_or-load m i n (j - i) (omega (arith, load-length m i n))
          ∙ ap m e
      | inr out ↦ store-outside m i (load m i n) j (ground (arith, load-length m i n))
    ]

-- A store leaves what lies before it.
pub load-store_before :
    (m : Memory) (i n at : ℕ) (bytes : List ℕ)
    → i + n ≤ at
    → load (store m at bytes) i n ≡ load m i n
load-store_before m i n at bytes h =
    load-ext (store m at bytes) m i i n
      (λ d lt. store-outside m at bytes (i + d) (inl (omega arith)))

pub load-shift : (m : Memory) (at n : ℕ) → load (λ j. m (at + j)) 0 n ≡ load m at n
load-shift m at n = load-ext (λ j. m (at + j)) m 0 at n (λ d lt. ap (λ t. m (at + t)) (omega arith))
