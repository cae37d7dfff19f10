-- ===== src/Tcp/Input.antt =====
-- The reading side of TcpConnection: `process_data` cuts the buffered bytes into packages, and
-- `do_read` fills the buffer from the socket.
use snet.Prelude.{
  ℕ, zero, suc, ◌+◌, ◌-◌, ℤ, pos, pos_part, minus_one, List, [], ◌∷◌, Option, none, some, ◌>>=◌,
  Bool, true, false, ◌||◌, Memory, store, load, length, ltb, ◌==◌, if◌then◌else◌,
}
use snet.Tcp.Types.{RecvResult, Conn, Kernel, Handler}
use snet.Tcp.Connection.{read_buffer_size, close}

-- The memory from an index on, as `&read_buffer[i]`.
abbrev pub from : Memory → ℕ → Memory
from m i j = m (i + j)

-- `memmove(read_buffer, &read_buffer[i], n)`
abbrev pub shift_down : Memory → ℕ → ℕ → Memory
shift_down m i n = store m 0 (load m i n)

module _ (handler : Handler) where
  -- The loop of `process_data` from `readPos` on: the connection and the last `readPos`, or no
  -- position if the package is too large for the buffer. The outer `none` means that the fuel ran out.
  unfoldable pub package_loop : ℕ → ℕ → Conn → Option (Conn × Option ℕ)
  package_loop zero at c = none
  package_loop (suc fuel) at c =
      let len = pos_part (handler.handle_package (from c.read_buffer at) c.read_pos) in
      let rest = package_loop fuel (at + len) (handler.handle_data (load c.read_buffer at len) c) in
      if ltb at c.read_pos
      then (if len == 0 || ltb (c.read_pos - at) len
          then (if ltb read_buffer_size len then some (close c, none) else some (c, some at))
          else rest)
      else some (c, some at)

  -- What follows the loop: the bytes left over move to the front.
  unfoldable pub keep_rest : Conn × Option ℕ → Bool × Conn
  keep_rest (c, none) = (false, c)
  keep_rest (c, some at) =
      let left = c.read_pos - at in
      (
        ltb 0 left,
        record c {
          read_buffer =
              if ltb at c.read_pos then shift_down c.read_buffer at left else c.read_buffer;
          read_pos = left;
        },
      )

  -- `process_data(nread)`, where the bytes are in the buffer already. Every round takes at least one
  -- byte, so one more round than there are bytes is enough.
  unfoldable pub process_data : ℕ → Conn → Option (Bool × Conn)
  unfolding keep_rest
  process_data nread c =
      let size = c.read_pos + nread in
      package_loop (suc size) 0 (record c { read_pos = size }) >>= λ end. some (keep_rest end)

  module _ (kernel : Kernel) where
    -- `do_read` once the bytes of this round are known; `again` is the call of itself.
    unfoldable pub after_recv : (Conn → Option (ℤ × Conn)) → List ℕ → Conn → Option (ℤ × Conn)
    after_recv again bytes c =
        let filled = record c { read_buffer = store c.read_buffer c.read_pos bytes } in
        elim (process_data (length bytes) filled) [
          | none ↦ none
          | some (true, c') ↦ elim (again c') [
            | none ↦ none
            | some (_, c'') ↦ some (pos (length bytes), c'')
          ]
          | some (false, c') ↦ some (pos (length bytes), c')
        ]

    unfoldable pub recv_answer : (Conn → Option (ℤ × Conn)) → RecvResult → Conn → Option (ℤ × Conn)
    unfolding after_recv
    recv_answer again RecvResult.would_block c = some (pos 0, c)
    recv_answer again RecvResult.failed c = some (minus_one, close c)
    recv_answer again (RecvResult.received []) c = some (minus_one, close c)
    recv_answer again (RecvResult.received (x ∷ bytes)) c = after_recv again (x ∷ bytes) c

    -- `do_read`, with what it returns. A full buffer is processed again without a call of `recv`.
    unfoldable pub do_read : ℕ → Conn → Option (ℤ × Conn)
    unfolding recv_answer after_recv
    do_read zero c = none
    do_read (suc fuel) c =
        let room = read_buffer_size - c.read_pos in
        if ltb 0 room
        then recv_answer (do_read fuel) (kernel.recv c.recvs room)
            (record c { recvs = c.recvs + 1 })
        else after_recv (do_read fuel) [] c
