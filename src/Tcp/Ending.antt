-- ===== src/Tcp/Ending.antt =====
-- The loops of `process_event` of tcp_connection.h end: `do_read` until the socket has nothing left,
-- and `do_send`. The results do not depend on the fuel, if it is enough.
use snet.Prelude.{
  ℕ, zero, suc, ◌+◌, ◌-◌, ◌*◌, ◌≤◌, ◌<◌, ◌≡◌, refl, ap, ◌∙◌, ℤ, minus_one, ◌⊎◌, List, [], ◌∷◌,
  Option, some, ltb, if◌then◌else◌, Bool-cases, inl, inr, arith, length, store,
}
use snet.Tcp.Types.{RecvResult, Conn, Kernel, Handler}
use snet.Tcp.Connection.{read_buffer_size, close}
use snet.Tcp.Input.{after_recv, recv_answer, do_read}
use snet.Tcp.Reader.{IsReader, RunsDry, close-position, process_data-Rest}

module _ {handler : Handler} (reader : IsReader handler) {kernel : Kernel} {last : ℕ}
    (dry : RunsDry kernel last) where
  -- The calls of `do_read` that may follow: one for each call of `recv`, and one for a full buffer.
  abbrev pub calls_left : Conn → ℕ
  calls_left c = 2 * (last - c.recvs) + (if ltb c.read_pos read_buffer_size then 0 else 1)

  -- A result that any fuel above `bound` gives.
  pub record Returns (bound : ℕ) (f : ℕ → Option (ℤ × Conn)) : Type 0 where
    pub count : ℤ
    pub conn : Conn
    pub ran : (fuel : ℕ) → bound < fuel → f fuel ≡ some (count, conn)
    pub fits : conn.read_pos ≤ read_buffer_size

  after_recv-Returns :
      (k : ℕ) (bytes : List ℕ) (c : Conn)
      → c.read_pos + length bytes ≤ read_buffer_size
      → ((x : Conn)
          → x.recvs ≡ c.recvs
          → x.read_pos ≤ c.read_pos + length bytes
          → (c.read_pos + length bytes ≡ read_buffer_size → x.read_pos < read_buffer_size)
          → Returns k (λ fuel. do_read handler kernel fuel x))
      → Returns k (λ fuel. after_recv handler kernel (do_read handler kernel fuel) bytes c)
  unfolding after_recv
  after_recv-Returns k bytes c fits again =
      let filled = record c { read_buffer = store c.read_buffer c.read_pos bytes } in
      let p = process_data-Rest reader (length bytes) filled in
      elim (Bool-cases p.more) [
        | inr done ↦ record {
          count = ℤ.pos (length bytes);
          conn = p.conn;
          ran = λ fuel h. ground (arith, p.ran, done);
          fits = omega (arith, p.bound);
        }
        | inl more ↦
            let r = again p.conn p.count p.bound (p.room more) in
            record {
              count = ℤ.pos (length bytes);
              conn = r.conn;
              ran = λ fuel h. ground (arith, p.ran, more, r.ran fuel h);
              fits = r.fits;
            }
      ]

  recv-cases :
      (a : RecvResult)
      → ((n : ℤ) × (f : Conn → Conn) × ((again : Conn → Option (ℤ × Conn)) (c : Conn)
            → (recv_answer handler kernel again a c ≡ some (n, f c))
              × ((f c).read_pos ≡ c.read_pos)))
        ⊎ ((b : ℕ) × (bytes : List ℕ) × (a ≡ RecvResult.received (b ∷ bytes)))
  unfolding recv_answer
  recv-cases RecvResult.would_block = inl (ℤ.pos 0, λ c. c, λ again c. (refl, refl))
  recv-cases RecvResult.failed = inl (minus_one, close, λ again c. (refl, (close-position c).0))
  recv-cases (RecvResult.received []) =
      inl (minus_one, close, λ again c. (refl, (close-position c).0))
  recv-cases (RecvResult.received (b ∷ bytes)) = inr (b, bytes, refl)

  received_lem :
      (again : Conn → Option (ℤ × Conn)) (a : RecvResult) (b : ℕ) (bytes : List ℕ) (c : Conn)
      → a ≡ RecvResult.received (b ∷ bytes)
      → recv_answer handler kernel again a c ≡ after_recv handler kernel again (b ∷ bytes) c
  unfolding recv_answer
  received_lem again a b bytes c e = ap (λ t. recv_answer handler kernel again t c) e

  -- One more call in front.
  Returns-step :
      (k : ℕ) (f g : ℕ → Option (ℤ × Conn))
      → Returns k f
      → ((fuel : ℕ) → g (suc fuel) ≡ f fuel)
      → Returns (suc k) g
  Returns-step k f g r e = record {
    count = r.count;
    conn = r.conn;
    ran = λ fuel. go fuel;
    fits = r.fits;
  }
    where
      go : (fuel : ℕ) → suc k < fuel → g fuel ≡ some (r.count, r.conn)
      go zero h = absurd (omega arith)
      go (suc fuel) h = e fuel ∙ r.ran fuel (omega arith)

  pub do_read-Returns :
      (k : ℕ) (c : Conn)
      → c.read_pos ≤ read_buffer_size
      → calls_left c < k
      → Returns k (λ fuel. do_read handler kernel fuel c)
  unfolding do_read
  do_read-Returns zero c fits h = elim h [ ]
  do_read-Returns (suc k) c fits h =
      let room = read_buffer_size - c.read_pos in
      let next = record c { recvs = c.recvs + 1 } in
      let read = λ (fuel : ℕ). do_read handler kernel fuel in
      elim (Bool-cases (ltb 0 room)) [
        | inr full ↦
            Returns-step k (λ fuel. after_recv handler kernel (read fuel) [] c) _
              (after_recv-Returns k [] c (omega arith)
                (λ x same p q. do_read-Returns k x (omega (arith, p)) (ground (arith, same, p, q))))
              (λ fuel. ground arith)
        | inl some_room ↦ elim (recv-cases (kernel.recv c.recvs room)) [
          | inl (n, f, none_left) ↦
              Returns-step k (λ fuel. some (n, f next)) _
                (record {
                  count = n;
                  conn = f next;
                  ran = λ fuel m. refl;
                  fits = omega (arith, (none_left (read 0) next).1);
                })
                (λ fuel. rw some_room (none_left (read fuel) next).0)
          | inr (b, bytes, e) ↦
              let fewer = dry.no_more c.recvs room (b ∷ bytes) e in
              let early : c.recvs < last = ground (arith, dry.dry c.recvs room (b ∷ bytes)) in
              Returns-step k (λ fuel. after_recv handler kernel (read fuel) (b ∷ bytes) next) _
                (after_recv-Returns k (b ∷ bytes) next (ground (arith, fewer)) (λ x same p q.
                  do_read-Returns k x (ground (arith, p, fewer)) (ground (arith, same, p, q))))
                (λ fuel.
                  ap
                    (λ t.
                      if t
                      then recv_answer handler kernel (read fuel) (kernel.recv c.recvs room) next
                      else after_recv handler kernel (read fuel) [] c)
                    some_room
                  ∙ received_lem (read fuel) (kernel.recv c.recvs room) b bytes next e)
        ]
      ]
