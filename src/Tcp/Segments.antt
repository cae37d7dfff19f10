-- ===== src/Tcp/Segments.antt =====
-- `process_data` of tcp_connection.h as a whole, and over all the segments of a stream.
use snet.Prelude.{
  ℕ, suc, ◌+◌, ◌-◌, ◌≤◌, ◌≡◌, refl, sym, ap, ◌∙◌, List, Option, some, ◌>>=◌, inl, inr, Bool, length,
  Memory, load, load-length, load-store, ltb, if◌then◌else◌, Bool-cases, arith,
}
use snet.Tcp.Types.{Conn, Handler}
use snet.Tcp.Connection.{read_buffer_size}
use snet.Tcp.Input.{shift_down, keep_rest, process_data}
use snet.Tcp.Framing.{Cut, Cut-cast, IsFraming, deliver, Ran, package_loop-Ran, deliver-input}

module _ {handler : Handler} {frame_len : List ℕ → Option ℕ} (f : IsFraming handler frame_len) where
  -- What `process_data` has done with the bytes that were waiting: the packages among them are
  -- delivered, the rest is at the front of the buffer.
  pub record Processed (bytes : List ℕ) (c : Conn) (run : Option (Bool × Conn)) : Type 0 where
    pub frames : List (List ℕ)
    pub rest : List ℕ
    pub memory : Memory
    pub cut : Cut frame_len bytes frames rest
    pub keeps : load memory 0 (length rest) ≡ rest
    pub result :
        run
        ≡ some (
          ltb 0 (length rest),
          record (deliver handler frames c) { read_buffer = memory; read_pos = length rest },
        )

  moved : (m : Memory) (at size : ℕ) → Memory
  moved m at size = if ltb at size then shift_down m at (size - at) else m

  load-moved :
      (m : Memory) (at size : ℕ) → load (moved m at size) 0 (size - at) ≡ load m at (size - at)
  unfolding moved load
  load-moved m at size = elim (Bool-cases (ltb at size)) [
    | inl some_left ↦ rw some_left (
        ap (load (shift_down m at (size - at)) 0) (sym (load-length m at (size - at)))
        ∙ load-store m 0 (load m at (size - at)))
    | inr all_taken ↦
        let e : size - at ≡ 0 = ground arith in
        rw all_taken (ap (load m 0) e ∙ ap (load m at) (sym e))
  ]

  Ran-Processed :
      (c : Conn) (size : ℕ) {run : Option (Conn × Option ℕ)}
      → Ran f 0 (record c { read_pos = size }) run
      → Processed (load c.read_buffer 0 size) c (run >>= λ end. some (keep_rest handler end))
  unfolding keep_rest moved
  Ran-Processed c size r =
      let left = load-length c.read_buffer r.stop (size - r.stop) in
      let memory = moved c.read_buffer r.stop size in
      record {
        frames = r.frames;
        rest = load c.read_buffer r.stop (size - r.stop);
        memory = memory;
        cut = Cut-cast r.cut (ap (load c.read_buffer 0) (omega arith)) refl;
        keeps = ap (load memory 0) left ∙ load-moved c.read_buffer r.stop size;
        result =
            ap (λ t. t >>= λ end. some (keep_rest handler end))
              (r.result
                ∙ ap (λ d. some (d, some r.stop)) (deliver-input f r.frames c c.read_buffer size))
            ∙ ap
                (λ (n : ℕ). some (
                  ltb 0 n,
                  record (deliver handler r.frames c) { read_buffer = memory; read_pos = n },
                ))
                (sym left);
      }

  -- `process_data` returns, has delivered the packages of the bytes in the buffer and keeps the rest.
  pub process_data-Processed :
      (nread : ℕ) (c : Conn)
      → c.read_pos + nread ≤ read_buffer_size
      → Processed (load c.read_buffer 0 (c.read_pos + nread)) c (process_data handler nread c)
  unfolding process_data
  process_data-Processed nread c fits =
      let size = c.read_pos + nread in
      Ran-Processed c size (
        package_loop-Ran f (suc size) 0 (record c { read_pos = size }) (omega arith) fits
          (omega arith))
