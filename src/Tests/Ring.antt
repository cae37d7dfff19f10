-- ===== src/Tests/Ring.antt =====
-- include/utils/loop_buffer.h on a ring of 8 bytes whose counters are about to wrap.
use snet.Prelude.{
  ℕ, ◌+◌, ◌*◌, ◌≤◌, ◌<◌, ◌≡◌, refl, List, [], ◌∷◌, ◌++◌, some, length, concat, arith, load,
}
use mathlib.Core.List.{map}
use snet.ByteQueue
use snet.LoopBuffer.{LoopBuffer, buffer_size, data_len, peek, push, pop}
use snet.LoopBuffer.Index.{IsSize}
use snet.LoopBuffer.Inv.{IsValid}
use snet.LoopBuffer.Writes.{contents, push_refines}
use snet.LoopBuffer.Reads.{pop_refines}
use snet.LoopBuffer.Size.{buffer_size-IsSize}
use snet.LoopBuffer.Stream.{Op, put, get, run, run_fifo}

size_of_1000 : buffer_size 1000 ≡ 1024
unfolding buffer_size
size_of_1000 = refl

size_of_8 : buffer_size 8 ≡ 8
unfolding buffer_size
size_of_8 = refl

abbrev eight-IsSize : IsSize 8
eight-IsSize = record { bits = 3; power = refl; small = omega arith }

-- Five bytes are stored, three at the end of the array and two at its start.
abbrev ring : LoopBuffer
ring = record { head = 4294967293; buffer = λ i. 10 + i; tail = 2 }

abbrev ring-IsValid : IsValid 8 ring
ring-IsValid = record { head_word = omega arith; tail_word = omega arith; fits = omega arith }

stored_bytes : contents 8 ring ≡ 15 ∷ 16 ∷ 17 ∷ 10 ∷ 11 ∷ []
unfolding data_len
stored_bytes = refl

first_block : (pop 8 ring).1 ≡ some (15 ∷ 16 ∷ 17 ∷ [])
unfolding pop load
first_block = refl

full_ring : (push 8 ring (1 ∷ 2 ∷ 3 ∷ 4 ∷ [])).0 ≡ 0
unfolding push
full_ring = refl

abbrev bytes : List ℕ
bytes = 1 ∷ 2 ∷ 3 ∷ []

push_refines_example :
    ((push 8 ring bytes).0, contents 8 (push 8 ring bytes).1)
    ≡ ByteQueue.push 8 (contents 8 ring) bytes
push_refines_example = push_refines eight-IsSize ring-IsValid bytes

pop_refines_example :
    ByteQueue.Pops (contents 8 ring) (pop 8 ring).0 (pop 8 ring).1 (contents 8 (pop 8 ring).2)
pop_refines_example = pop_refines eight-IsSize ring-IsValid

abbrev calls : List Op
calls = get ∷ put bytes ∷ put (4 ∷ 5 ∷ 6 ∷ 7 ∷ []) ∷ get ∷ get ∷ []

run_fifo_example :
    contents 8 ring ++ (run 8 ring calls).0
    ≡ (run 8 ring calls).1 ++ contents 8 (run 8 ring calls).2
run_fifo_example = run_fifo calls eight-IsSize ring-IsValid

abbrev items : List (List ℕ)
items = (1 ∷ []) ∷ (2 ∷ 3 ∷ []) ∷ []

items_fit : length (concat items) ≤ peek 8 ring
unfolding peek
items_fit = omega arith

buffer_size-IsSize_example :
    IsSize (buffer_size 1000) × (1000 ≤ buffer_size 1000) × (buffer_size 1000 < 2 * 1000)
buffer_size-IsSize_example = buffer_size-IsSize 1000 (omega arith) (omega arith)

-- A cipher that adds one to each byte.
abbrev shifted : List ℕ → List ℕ
shifted block = map (λ b. b + 1) block
