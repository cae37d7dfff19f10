-- ===== src/Tcp/Whole.antt =====
-- A class whose packages are all that the buffer has, as TcpConnection's own `handle_package` says: one
-- block of bytes under `do_read` and `process_event` of tcp_connection.h.
use snet.Prelude.{
  ℕ, suc, ◌+◌, ◌-◌, ◌≤◌, ◌≡◌, refl, ap, ◌∙◌, ℤ, pos, pos_part, List, ◌∷◌, Option, some, ◌>>=◌, true,
  false, ltb, ◌||◌, ◌==◌, if◌then◌else◌, Memory, arith, length, store, load, load-store,
}
use snet.Tcp.Types.{RecvResult, Conn, Kernel, Handler, Events}
use snet.Tcp.Connection.{read_buffer_size, status_is_idle}
use snet.Tcp.Input.{
  from, shift_down, package_loop, keep_rest, process_data, after_recv, recv_answer, do_read,
}
use snet.Tcp.Lifecycle.{on_ready, settle, process_event}

-- The connection when a block has arrived in its empty buffer.
abbrev pub arrived : List ℕ → Conn → Conn
arrived bytes c = record c {
  read_buffer = store c.read_buffer c.read_pos bytes;
  read_pos = length bytes;
  recvs = c.recvs + 1;
}

module _ (handler : Handler)
    (whole : (m : Memory) (n : ℕ) → handler.handle_package m n ≡ pos n) where
  loop_first :
      (fuel k : ℕ) (c : Conn)
      → c.read_pos ≡ suc k
      → package_loop handler (suc fuel) 0 c
        ≡ package_loop handler fuel (suc k) (handler.handle_data (load c.read_buffer 0 (suc k)) c)
  unfolding package_loop
  loop_first fuel k c size =
      let len : pos_part (handler.handle_package (from c.read_buffer 0) c.read_pos) ≡ suc k =
        ap pos_part (whole _ _) ∙ size in
      let more : ltb 0 c.read_pos ≡ true = ground arith in
      let fits : (suc k == 0 || ltb (c.read_pos - 0) (suc k)) ≡ false = ground arith in
      let end : 0 + suc k ≡ suc k = omega arith in rw (package_loop, len, more, fits, end) refl

  loop_end :
      (fuel at : ℕ) (c : Conn)
      → c.read_pos ≤ at
      → package_loop handler (suc fuel) at c ≡ some (c, some at)
  unfolding package_loop
  loop_end fuel at c past =
      let done : ltb at c.read_pos ≡ false = ground arith in rw (package_loop, done) refl

  process_data-one :
      (k : ℕ) (c : Conn)
      → c.read_pos ≡ 0
      → let c₁ = record c { read_pos = suc k } in
        let next = handler.handle_data (load c.read_buffer 0 (suc k)) c₁ in
        next.read_pos ≡ suc k
        → process_data handler (suc k) c ≡ some (false, record next { read_pos = 0 })
  unfolding process_data keep_rest
  process_data-one k c empty kept =
      let c₁ = record c { read_pos = suc k } in
      let next = handler.handle_data (load c.read_buffer 0 (suc k)) c₁ in
      let size : c.read_pos + suc k ≡ suc k = omega arith in
      let ran : package_loop handler (suc (suc k)) 0 c₁ ≡ some (next, some (suc k)) =
        loop_first (suc k) k c₁ refl ∙ loop_end k (suc k) next (omega arith) in
      let done : ltb (suc k) next.read_pos ≡ false = ground arith in
      let left : next.read_pos - suc k ≡ 0 = omega arith in
      ap
        (λ n. package_loop handler (suc n) 0 (record c { read_pos = n }) >>= λ end.
          some (keep_rest handler end))
        size
      ∙ ap (λ t. t >>= λ end. some (keep_rest handler end)) ran
      ∙ (λ i. some (
        ltb 0 (left i),
        record next {
          read_buffer =
              if done i
              then shift_down next.read_buffer (suc k) (next.read_pos - suc k)
              else next.read_buffer;
          read_pos = left i;
        },
      ))

  -- What `handle_data` makes of the block that has arrived.
  abbrev pub handled : List ℕ → Conn → Conn
  handled bytes c = handler.handle_data bytes (arrived bytes c)

  module _ (kernel : Kernel) (fuel b : ℕ) (bytes : List ℕ) (c : Conn) where
    abbrev block : List ℕ
    block = b ∷ bytes

    after_recv-one :
        (again : Conn → Option (ℤ × Conn))
        → c.read_pos ≡ 0
        → (handled block c).read_pos ≡ length block
        → after_recv handler kernel again block (record c { recvs = c.recvs + 1 })
          ≡ some (pos (length block), record (handled block c) { read_pos = 0 })
    unfolding after_recv
    after_recv-one again empty kept =
        let filled = record c {
          recvs = c.recvs + 1;
          read_buffer = store c.read_buffer c.read_pos block;
        } in
        let loaded : load (store c.read_buffer c.read_pos block) 0 (length block) ≡ block =
          ap (λ p. load (store c.read_buffer p block) 0 (length block)) empty
          ∙ load-store c.read_buffer 0 block in
        let kept' = ap (λ t. (handler.handle_data t (arrived block c)).read_pos) loaded ∙ kept in
        let ran = process_data-one (length bytes) filled empty kept' in
        rw (after_recv, ran)
          (ap
            (λ t. some (
              pos (length block),
              record (handler.handle_data t (arrived block c)) { read_pos = 0 },
            ))
            loaded)

    do_read-one :
        c.read_pos ≡ 0
        → kernel.recv c.recvs read_buffer_size ≡ RecvResult.received block
        → (handled block c).read_pos ≡ length block
        → do_read handler kernel (suc fuel) c
          ≡ some (pos (length block), record (handled block c) { read_pos = 0 })
    unfolding do_read recv_answer
    do_read-one empty got kept =
        let room : read_buffer_size - c.read_pos ≡ read_buffer_size = omega arith in
        rw (do_read, room, got) (after_recv-one (do_read handler kernel fuel) empty kept)

    -- With an empty buffer, an open connection that has a block to read, and no room to send asked for,
    -- comes to the end of `process_event` with what `handle_data` makes of the block.
    pub process_event-one :
        (evts : Events)
        → evts.in_ ≡ true
        → evts.out ≡ false
        → status_is_idle c.status ≡ false
        → c.read_pos ≡ 0
        → kernel.recv c.recvs read_buffer_size ≡ RecvResult.received block
        → (handled block c).read_pos ≡ length block
        → process_event handler kernel (suc fuel) evts c
          ≡ some (settle handler evts.err (record (handled block c) { read_pos = 0 }))
    unfolding process_event on_ready
    process_event-one evts readable no_out started empty got kept =
        rw (process_event, readable, no_out, started, do_read-one empty got kept) refl
