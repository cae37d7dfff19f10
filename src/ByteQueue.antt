-- ===== src/ByteQueue.antt =====
-- What LoopBuffer promises to its users: a queue of bytes with a capacity. A write is taken whole
-- or not at all; a read takes a block off the front.
use snet.Prelude.{ℕ, ◌-◌, ◌<◌, ◌≡◌, List, [], ◌++◌, Option, none, some, length, ltb, if◌then◌else◌}

unfoldable pub push : ℕ → List ℕ → List ℕ → ℕ × List ℕ
push cap q bytes =
    if ltb (cap - length q) (length bytes) then (0, q) else (length bytes, q ++ bytes)

-- A read of `q` that returns `n`, shows its caller `seen` and leaves `q'`.
pub data Pops (q : List ℕ) (n : ℕ) (seen : Option (List ℕ)) (q' : List ℕ) : Type 0 where
  idle : q ≡ [] → n ≡ 0 → seen ≡ none → q' ≡ [] → Pops q n seen q'
  block :
      (bytes : List ℕ)
      → n ≡ length bytes
      → 0 < n
      → seen ≡ some bytes
      → q ≡ bytes ++ q'
      → Pops q n seen q'
