-- ===== src/LoopBuffer/Stream.antt =====
-- Sequences of calls on a LoopBuffer: a writer and a reader in any order, `mpush`, and `read`
-- followed by `commit`.
use snet.Prelude.{
  ℕ, zero, suc, ◌-◌, ◌^◌, ◌≤◌, ◌<◌, ◌≡◌, refl, ap, ◌∙◌, sym, List, [], ◌∷◌, ◌++◌, length, arith,
  ltb, Option, none, some, concat, NoneEmpty, true, append_assoc, append-nil, length-append,
}
use snet.ByteQueue
use snet.LoopBuffer.{LoopBuffer, data_len, peek, push, mpush, pop, read, commit}
use snet.LoopBuffer.Index.{IsSize, size_bound}
use snet.LoopBuffer.Inv.{IsValid, push-IsValid, pop-IsValid, peek_lem, data_len-push}
use snet.LoopBuffer.Writes.{contents, push_refines, contents-push, push-ok}
use snet.LoopBuffer.Reads.{pop_refines, data_len-pop, rest-le_block}

-- What the writer and the reader ask for.
pub data Op : Type 0 where
  put : List ℕ → Op
  get : Op

abbrev pub shown : Option (List ℕ) → List ℕ
shown none = []
shown (some bytes) = bytes

-- The bytes that `push` took, by its answer: a refused push takes none.
abbrev pub taken : List ℕ → ℕ → List ℕ
taken bytes zero = []
taken bytes (suc n) = bytes

module _ (size : ℕ) where
  -- What went in, what came out, and the buffer after.
  pub run : LoopBuffer → List Op → List ℕ × List ℕ × LoopBuffer
  run b [] = ([], [], b)
  run b (put bytes ∷ ops) =
      let (n, b') = push size b bytes in
      let (written, got, b'') = run b' ops in (taken bytes n ++ written, got, b'')
  run b (get ∷ ops) =
      let (n, seen, b') = pop size b in
      let (written, got, b'') = run b' ops in (written, shown seen ++ got, b'')

-- One push, as an equation of contents.
taken-push :
    (size : ℕ) (q bytes : List ℕ)
    → (ByteQueue.push size q bytes).1 ≡ q ++ taken bytes (ByteQueue.push size q bytes).0
unfolding ByteQueue.push
taken-push size q [] = ground (arith, append-nil q)
taken-push size q (x ∷ bytes) = ground (arith, append-nil q)

contents-taken :
    {size : ℕ} {b : LoopBuffer} (s : IsSize size) (v : IsValid size b) (bytes : List ℕ)
    → contents size (push size b bytes).1 ≡ contents size b ++ taken bytes (push size b bytes).0
contents-taken {size} {b} s v bytes =
    let e = push_refines s v bytes in
    ap (λ r. r.1) e
    ∙ taken-push size (contents size b) bytes
    ∙ ap (λ r. contents size b ++ taken bytes r.0) (sym e)

shown-pop :
    {q q' : List ℕ} {n : ℕ} {seen : Option (List ℕ)}
    → ByteQueue.Pops q n seen q'
    → q ≡ shown seen ++ q'
shown-pop (ByteQueue.Pops.idle e _ s e') = rw (s, e, e')
shown-pop (ByteQueue.Pops.block bytes _ _ s e) = rw (s, e)

-- On a valid ring no byte is lost, doubled or reordered: whatever calls are made, what was stored
-- and what the pushes took is what the pops gave, followed by what is stored at the end.
pub run_fifo :
    {size : ℕ} (ops : List Op) {b : LoopBuffer}
    → IsSize size
    → IsValid size b
    → let (written, got, b') = run size b ops in
      contents size b ++ written ≡ got ++ contents size b'
unfolding run
run_fifo [] s v = append-nil _
run_fifo {size} (put bytes ∷ ops) {b} s v =
    sym (append_assoc (contents size b) _ _)
    ∙ ap (λ t. t ++ (run size (push size b bytes).1 ops).0) (sym (contents-taken s v bytes))
    ∙ run_fifo ops s (push-IsValid s v bytes)
run_fifo {size} (get ∷ ops) {b} s v =
    ap (λ t. t ++ (run size (pop size b).2 ops).0) (shown-pop (pop_refines s v))
    ∙ append_assoc (shown (pop size b).1) _ _
    ∙ ap (λ t. shown (pop size b).1 ++ t) (run_fifo ops s (pop-IsValid s v))
    ∙ sym (append_assoc (shown (pop size b).1) _ _)

-- On a valid ring, items that are not empty and fit together are pushed whole, in order, and
-- `mpush` returns how many bytes that is.
pub mpush_all :
    {size : ℕ} (items : List (List ℕ)) {b : LoopBuffer}
    → IsSize size
    → IsValid size b
    → NoneEmpty items
    → length (concat items) ≤ peek size b
    → let (ret, b') = mpush size b items in
      (ret ≡ length (concat items)) × (contents size b' ≡ contents size b ++ concat items)
unfolding mpush
mpush_all [] s v ne fits = (refl, sym (append-nil _))
mpush_all {size} (item ∷ rest) {b} s v ne fits =
    let joined = length-append item (concat rest) in
    let here : length item ≤ peek size b = omega arith in
    let v' = push-IsValid s v item in
    let room : peek size (push size b item).1 ≡ peek size b - length item =
      omega (arith, peek_lem s v', peek_lem s v, data_len-push s v item here) in
    let (count, bytes) = mpush_all rest s v' ne.1 (omega arith) in
    let ret : (push size b item).0 ≡ length item = ap (λ r. r.0) (push-ok s v item here) in
    let bound : peek size b < 2 ^ 32 = omega (arith, peek_lem s v, size_bound s) in
    let more : ltb 0 (push size b item).0 ≡ true = ground arith in
    rw more (
      omega arith,
      bytes
          ∙ ap (λ t. t ++ concat rest) (contents-push s v item here)
          ∙ append_assoc (contents size b) item (concat rest),
    )

-- On a valid ring `read` without a limit, followed by `commit` of what it returned, is `pop`.
pub read-commit :
    (size : ℕ) {b : LoopBuffer}
    → IsValid size b
    → pop size b ≡ (let (n, seen) = read size b 0 in (n, seen, commit size b n))
unfolding pop read commit
read-commit size v = ground arith

-- Two calls of `pop` are enough to empty a valid ring.
pub pop_twice :
    {size : ℕ} (b : LoopBuffer)
    → IsSize size
    → IsValid size b
    → data_len size (pop size (pop size b).2).2 ≡ 0
pop_twice {size} b s v =
    let v' = pop-IsValid s v in omega (arith, data_len-pop s v', rest-le_block s v)
