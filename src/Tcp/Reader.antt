-- ===== src/Tcp/Reader.antt =====
-- What a class has to leave alone, so that the loops of `process_event` of tcp_connection.h end: the
-- input position, and what `process_data` leaves of the input.
use snet.Prelude.{
  ℕ, zero, suc, ◌+◌, ◌-◌, ◌≤◌, ◌<◌, ◌≡◌, refl, ap, ◌∙◌, pos_part, List, [], Option, none, some,
  ◌>>=◌, Bool, true, false, ltb, ◌||◌, ◌==◌, if◌then◌else◌, Memory, Bool-cases, Option-cases, inl,
  inr, arith, length, load,
}
use snet.Tcp.Types.{Effect, conn_open, conn_closed, RecvResult, Conn, Kernel, Handler, NetEvent}
use snet.Tcp.Connection.{
  log_effect, read_buffer_size, close, set_out, notify_send, status_is_closing,
}
use snet.Tcp.Lifecycle.{raise, on_ready, release, do_close, settle}
use snet.Tcp.Input.{from, package_loop, keep_rest, process_data}

-- A class whose methods leave the input of a connection alone, and which never waits for more of a
-- package when the input buffer is full.
pub record IsReader (handler : Handler) : Type 0 where
  pub position : (frame : List ℕ) (c : Conn) → (handler.handle_data frame c).read_pos ≡ c.read_pos
  pub count : (frame : List ℕ) (c : Conn) → (handler.handle_data frame c).recvs ≡ c.recvs
  pub event_position :
      (evt : NetEvent) (c : Conn) → (handler.handle_event evt c).read_pos ≡ c.read_pos
  pub full : (m : Memory) (n : ℕ) → read_buffer_size ≤ n → 0 < pos_part (handler.handle_package m n)

-- `recv(2)` stores no more than there is room for, and the socket has nothing left from the call
-- `last` on.
pub record RunsDry (kernel : Kernel) (last : ℕ) : Type 0 where
  pub no_more :
      (n room : ℕ) (bytes : List ℕ)
      → kernel.recv n room ≡ RecvResult.received bytes
      → length bytes ≤ room
  pub dry :
      (n room : ℕ) (bytes : List ℕ)
      → last ≤ n
      → kernel.recv n room ≡ RecvResult.received bytes
      → bytes ≡ []

pub close-position : (c : Conn) → ((close c).read_pos ≡ c.read_pos) × ((close c).recvs ≡ c.recvs)
unfolding close notify_send set_out
close-position c = ground arith

module _ {handler : Handler} (reader : IsReader handler) where
  pub on_ready-position : (c : Conn) → (on_ready handler c).read_pos ≡ c.read_pos
  unfolding on_ready raise
  on_ready-position c = ground (
    arith,
    reader.event_position NetEvent.connect
        (log_effect (Effect.raised NetEvent.connect) (record c { status = conn_open })),
  )

  release-position : (c : Conn) → (release handler c).read_pos ≡ c.read_pos
  unfolding release
  release-position c = ground arith

  raise-position : (evt : NetEvent) (c : Conn) → (raise handler evt c).read_pos ≡ c.read_pos
  unfolding raise
  raise-position evt c = reader.event_position evt (log_effect (Effect.raised evt) c)

  do_close-position : (c : Conn) → (do_close handler c).read_pos ≡ c.read_pos
  unfolding do_close
  do_close-position c =
      let marked = record c { status = conn_closed } in
      let c' = if c.has_worker then log_effect (Effect.del_event c.conn_sd) marked else marked in
      let kept : c'.read_pos ≡ c.read_pos = ground arith in
      elim (Bool-cases (status_is_closing c.status)) [
        | inr other ↦ rw other refl
        | inl closing ↦ rw closing (
            release-position (raise handler NetEvent.disconnect c')
            ∙ raise-position NetEvent.disconnect c'
            ∙ kept)
      ]

  pub settle-position : (err : Bool) (c : Conn) → (settle handler err c).read_pos ≡ c.read_pos
  unfolding settle
  settle-position true c = do_close-position (close c) ∙ (close-position c).0
  settle-position false c = do_close-position c

  -- Where the loop of packages ends, from the position `at` on.
  record LoopEnd (at : ℕ) (c : Conn) (r : Option (Conn × Option ℕ)) : Type 0 where
    conn : Conn
    end : Option ℕ
    ran : r ≡ some (conn, end)
    position : conn.read_pos ≡ c.read_pos
    count : conn.recvs ≡ c.recvs
    forward : (k : ℕ) → end ≡ some k → at ≤ k
    taken : (k : ℕ) → at ≡ 0 → c.read_pos ≡ read_buffer_size → end ≡ some k → 0 < k

  package_loop-LoopEnd :
      (fuel at : ℕ) (c : Conn)
      → c.read_pos - at < fuel
      → LoopEnd at c (package_loop handler fuel at c)
  unfolding package_loop
  package_loop-LoopEnd zero at c h = elim h [ ]
  package_loop-LoopEnd (suc fuel) at c h =
      let len = pos_part (handler.handle_package (from c.read_buffer at) c.read_pos) in
      let next = handler.handle_data (load c.read_buffer at len) c in
      let p = reader.position (load c.read_buffer at len) c in
      let q = reader.count (load c.read_buffer at len) c in
      let waits = reader.full (from c.read_buffer at) c.read_pos in
      elim (Bool-cases (ltb at c.read_pos)) [
        | inr done ↦ record {
          conn = c;
          end = some at;
          ran = rw done refl;
          position = refl;
          count = refl;
          forward = λ k e. ground arith;
          taken = λ k z f e. absurd (ground arith);
        }
        | inl more ↦ elim (Bool-cases (len == 0 || ltb (c.read_pos - at) len)) [
          | inr whole ↦
              let some_byte : 0 < len = ground arith in
              let r = package_loop-LoopEnd fuel (at + len) next (ground (arith, p)) in
              record {
                conn = r.conn;
                end = r.end;
                ran = rw (more, whole) r.ran;
                position = r.position ∙ p;
                count = r.count ∙ q;
                forward = λ k e. omega (arith, r.forward k e);
                taken = λ k z f e. omega (arith, r.forward k e);
              }
          | inl short ↦ elim (Bool-cases (ltb read_buffer_size len)) [
            | inl big ↦ record {
              conn = close c;
              end = none;
              ran = rw (more, short, big) refl;
              position = (close-position c).0;
              count = (close-position c).1;
              forward = λ k e. cc;
              taken = λ k z f e. cc;
            }
            | inr small ↦ record {
              conn = c;
              end = some at;
              ran = rw (more, short, small) refl;
              position = refl;
              count = refl;
              forward = λ k e. ground arith;
              taken = λ k z f e. absurd (ground arith);
            }
          ]
        ]
      ]

  -- What `process_data` leaves: no more than there was, and less than a full buffer if it reports
  -- that some is left.
  pub record Rest (size : ℕ) (c : Conn) (r : Option (Bool × Conn)) : Type 0 where
    pub more : Bool
    pub conn : Conn
    pub ran : r ≡ some (more, conn)
    pub count : conn.recvs ≡ c.recvs
    pub bound : conn.read_pos ≤ size
    pub room : more ≡ true → size ≡ read_buffer_size → conn.read_pos < read_buffer_size

  pub process_data-Rest :
      (nread : ℕ) (c : Conn) → Rest (c.read_pos + nread) c (process_data handler nread c)
  unfolding process_data keep_rest
  process_data-Rest nread c =
      let size = c.read_pos + nread in
      let l = package_loop-LoopEnd (suc size) 0 (record c { read_pos = size }) (omega arith) in
      let r = keep_rest handler (l.conn, l.end) in
      let same : process_data handler nread c ≡ some r =
        ap (λ t. t >>= λ end. some (keep_rest handler end)) l.ran in
      elim (Option-cases l.end) [
        | inl too_large ↦
            let whole : r ≡ (false, l.conn) =
              ap (λ end. keep_rest handler (l.conn, end)) too_large in
            record {
              more = false;
              conn = l.conn;
              ran = same ∙ ap some whole;
              count = l.count;
              bound = omega (arith, l.position);
              room = λ e f. cc;
            }
        | inr (at, stopped) ↦
            let part = keep_rest handler (l.conn, some at) in
            let whole : r ≡ part = ap (λ end. keep_rest handler (l.conn, end)) stopped in
            record {
              more = part.0;
              conn = part.1;
              ran = same ∙ ap some whole;
              count = l.count;
              bound = omega (arith, l.position);
              room = λ e f. ground (arith, l.position, l.taken at refl f stopped);
            }
      ]
