-- ===== src/LoopBuffer.antt =====
-- include/utils/loop_buffer.h: LoopBuffer, a byte ring for one reader and one writer. A method that
-- changes the object returns the new object; `Mutex` is NonMutex, so locks are no-ops. The array is
-- a function from its indices. Memory barriers and `wait`/`notify` have no effect on the state.
pub mod Index
pub mod Window
pub mod Inv
pub mod Writes
pub mod Reads
pub mod Stream
pub mod Size
pub mod Bounds
use snet.Prelude.{
  ℕ, zero, suc, ◌+◌, ◌-◌, ◌%◌, ◌/◌, ◌^◌, min, bit_and, bit_or, List, [], ◌∷◌, Option, none, some,
  Bool, Memory, store, load, length, take, drop, ltb, ◌==◌, if◌then◌else◌,
}

-- uint32_t
abbrev pub u32 : ℕ → ℕ
u32 n = n % 2 ^ 32

abbrev pub sub32 : ℕ → ℕ → ℕ
sub32 a b = (a + 2 ^ 32 - b) % 2 ^ 32

-- `get_power_of_two`. Its argument is a uint32_t, so `n--` wraps at 0, and so does `++n`.
unfoldable pub get_power_of_two : ℕ → ℕ
get_power_of_two n =
    let a = sub32 n 1 in
    let b = bit_or a (a / 2 ^ 1) in
    let c = bit_or b (b / 2 ^ 2) in
    let d = bit_or c (c / 2 ^ 4) in
    let e = bit_or d (d / 2 ^ 8) in let f = bit_or e (e / 2 ^ 16) in u32 (f + 1)

-- `BufferSize`; kMaxSize is a size_t that is at least 1.
unfoldable pub buffer_size : ℕ → ℕ
unfolding get_power_of_two
buffer_size max_size =
    if bit_and max_size (max_size - 1) == 0 then max_size else get_power_of_two (u32 max_size)

pub record LoopBuffer : Type 0 where
  pub head : ℕ
  pub buffer : Memory
  pub tail : ℕ

-- head and tail start at 0; the array's first contents are whatever the memory holds.
unfoldable pub new : Memory → LoopBuffer
new garbage = record { head = 0; buffer = garbage; tail = 0 }

-- The methods, over `BufferSize`.
module _ (size : ℕ) where
  -- tail - head, which `size()` returns
  unfoldable pub data_len : LoopBuffer → ℕ
  data_len b = sub32 b.tail b.head

  -- `peek`: the space left
  unfoldable pub peek : LoopBuffer → ℕ
  unfolding data_len
  peek b = sub32 size (data_len b)

  unfoldable pub write_pos : LoopBuffer → ℕ
  write_pos b = bit_and b.tail (size - 1)

  unfoldable pub read_pos : LoopBuffer → ℕ
  read_pos b = bit_and b.head (size - 1)

  -- The copy of `push`: two blocks where the data passes the end of the array, else one.
  unfoldable pub copy_in : Memory → ℕ → List ℕ → Memory
  copy_in m pos bytes =
      let tail_size = sub32 size pos in
      if ltb tail_size (length bytes)
      then store (store m pos (take tail_size bytes)) 0 (drop tail_size bytes)
      else store m pos bytes

  -- `push(data, dataLen)`: the bytes written are `data`, all or none.
  unfoldable pub push : LoopBuffer → List ℕ → ℕ × LoopBuffer
  unfolding peek write_pos copy_in
  push b bytes =
      let len = length bytes in
      if ltb (peek b) len then (0, b) else (
        len,
        record b { buffer = copy_in b.buffer (write_pos b) bytes; tail = u32 (b.tail + len) },
      )

  -- The overload with an encrypter, which rewrites in place each block that was copied.
  unfoldable pub push_encrypted : LoopBuffer → List ℕ → (List ℕ → List ℕ) → ℕ × LoopBuffer
  unfolding peek write_pos
  push_encrypted b bytes encrypter =
      let len = length bytes in
      let pos = write_pos b in
      let tail_size = sub32 size pos in
      let first = store b.buffer pos (encrypter (take tail_size bytes)) in
      let full = store first 0 (encrypter (drop tail_size bytes)) in
      let near = store b.buffer pos (encrypter bytes) in
      if ltb (peek b) len then (0, b) else (
        len,
        record b { buffer = if ltb tail_size len then full else near; tail = u32 (b.tail + len) },
      )

  -- `mpush`: one push for each item, until one returns 0.
  unfoldable pub mpush : LoopBuffer → List (List ℕ) → ℕ × LoopBuffer
  mpush b [] = (0, b)
  mpush b (item ∷ rest) =
      let (ret, b') = push b item in
      let (more, b'') = mpush b' rest in if ltb 0 ret then (u32 (ret + more), b'') else (0, b')

  -- The length of the block at `head`: what is stored, up to the end of the array.
  unfoldable pub block_len : LoopBuffer → ℕ
  unfolding data_len read_pos
  block_len b = min (data_len b) (sub32 size (read_pos b))

  -- `pop(handler)`: the number returned, the block that the handler is called with (`none` if it is
  -- not called), and the buffer after.
  unfoldable pub pop : LoopBuffer → ℕ × Option (List ℕ) × LoopBuffer
  unfolding data_len read_pos block_len
  pop b =
      let len = block_len b in
      if data_len b == 0
      then (0, none, b)
      else (len, some (load b.buffer (read_pos b) len), record b { head = u32 (b.head + len) })

  -- `read(handler, limit)` calls the handler and leaves the buffer.
  unfoldable pub read : LoopBuffer → ℕ → ℕ × Option (List ℕ)
  unfolding data_len read_pos block_len
  read b limit =
      let len = if ltb 0 limit then min (block_len b) limit else block_len b in
      if data_len b == 0 then (0, none) else (len, some (load b.buffer (read_pos b) len))

  -- `commit(len)`: the reader gives back what it has read.
  unfoldable pub commit : LoopBuffer → ℕ → LoopBuffer
  commit b len = record b { head = u32 (b.head + len) }

  unfoldable pub empty : LoopBuffer → Bool
  empty b = b.head == b.tail

  unfoldable pub clear : LoopBuffer → LoopBuffer
  clear b = record b { head = 0; tail = 0 }
