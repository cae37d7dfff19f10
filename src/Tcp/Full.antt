-- ===== src/Tcp/Full.antt =====
-- A full input buffer without a whole package: `do_read` of tcp_connection.h calls itself for ever.
use snet.Prelude.{
  ℕ, zero, suc, ◌+◌, ◌-◌, ◌<◌, ◌≡◌, refl, ap, fun_ext, ◌∙◌, ◌>>=◌, store-outside, ℤ, pos_part, List,
  [], Option, none, some, true, false, Memory, ltb, arith, store, store-load, length,
}
use snet.Tcp.Types.{Conn, Kernel, Handler}
use snet.Tcp.Connection.{read_buffer_size}
use snet.Tcp.Input.{from, package_loop, keep_rest, process_data, after_recv, do_read}

store-nil : (m : Memory) (i j : ℕ) → store m i [] j ≡ m j
store-nil m i j = store-outside m i [] j (ground arith)

module _ (handler : Handler) (kernel : Kernel) where
  loop_stuck :
      (k : ℕ) (c : Conn)
      → 0 < c.read_pos
      → pos_part (handler.handle_package (from c.read_buffer 0) c.read_pos) ≡ 0
      → package_loop handler (suc k) 0 c ≡ some (c, some 0)
  unfolding package_loop
  loop_stuck k c some_bytes none_whole = ground arith

  -- Nothing is taken from the buffer, and all of it is kept where it is.
  stuck_round :
      (c : Conn)
      → c.read_pos ≡ read_buffer_size
      → pos_part (handler.handle_package c.read_buffer read_buffer_size) ≡ 0
      → (c' : Conn) × (process_data handler 0 c ≡ some (true, c'))
        × (c'.read_pos ≡ read_buffer_size)
        × (c'.read_buffer ≡ c.read_buffer)
  unfolding process_data keep_rest
  stuck_round c full none_whole =
      let m = c.read_buffer in
      let size = c.read_pos + 0 in
      let e : size ≡ read_buffer_size = omega arith in
      let here : from m 0 ≡ m = fun_ext (λ j. ap m (omega arith)) in
      let zero_len : pos_part (handler.handle_package (from m 0) size) ≡ 0 =
        (λ i. pos_part (handler.handle_package (here i) (e i))) ∙ none_whole in
      let c' = record c { read_pos = size } in
      let some_bytes : ltb 0 size ≡ true = ground arith in
      let left : ltb 0 (size - 0) ≡ true = ground arith in
      (
        (keep_rest handler (c', some 0)).1,
        ap (λ t. t >>= λ end. some (keep_rest handler end))
              (loop_stuck size c' (omega arith) zero_len)
            ∙ ap (λ b. some (b, (keep_rest handler (c', some 0)).1)) left,
        omega arith,
        rw some_bytes (store-load m 0 (size - 0)),
      )

  recursion_stuck :
      (again : Conn → Option (ℤ × Conn)) (bytes : List ℕ) (c c' : Conn)
      → process_data handler
          (length bytes)
          (record c { read_buffer = store c.read_buffer c.read_pos bytes })
        ≡ some (true, c')
      → again c' ≡ none
      → after_recv handler kernel again bytes c ≡ none
  unfolding after_recv
  recursion_stuck again bytes c c' run stuck = ground arith

  -- With no room left in the buffer and no package that `handle_package` accepts, no fuel is
  -- enough: `do_read` never returns.
  pub do_read_stuck :
      (fuel : ℕ) (c : Conn)
      → c.read_pos ≡ read_buffer_size
      → pos_part (handler.handle_package c.read_buffer read_buffer_size) ≡ 0
      → do_read handler kernel fuel c ≡ none
  unfolding do_read after_recv
  do_read_stuck zero c full none_whole = refl
  do_read_stuck (suc fuel) c full none_whole =
      let m = store c.read_buffer c.read_pos [] in
      let same : m ≡ c.read_buffer = fun_ext (λ j. store-nil c.read_buffer c.read_pos j) in
      let none_whole' : pos_part (handler.handle_package m read_buffer_size) ≡ 0 =
        ap (λ t. pos_part (handler.handle_package t read_buffer_size)) same ∙ none_whole in
      let (c', run, full', kept) = stuck_round (record c { read_buffer = m }) full none_whole' in
      let again =
        do_read_stuck fuel c' full'
          (ap (λ t. pos_part (handler.handle_package t read_buffer_size)) kept ∙ none_whole') in
      let no_room : ltb 0 (read_buffer_size - c.read_pos) ≡ false = ground arith in
      rw no_room (recursion_stuck (do_read handler kernel fuel) [] c c' run again)
