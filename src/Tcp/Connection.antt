-- ===== src/Tcp/Connection.antt =====
-- TcpConnection of include/tcp/tcp_connection.h. A method that changes the connection returns the
-- new one. The two mutually exclusive critical sections of the write mutex are single steps.
use snet.Prelude.{
  ℕ, zero, suc, ◌+◌, ◌%◌, ◌^◌, ◌-◌, ℤ, pos, negsuc, pos_part, minus_one, List, [], ◌∷◌, ◌++◌,
  Option, none, some, Bool, true, false, not, ◌&&◌, length, take, drop, ltb, if◌then◌else◌,
}
use snet.Tcp.Types.{
  ConnStatus, conn_idle, conn_open, conn_closing, Effect, SendResult, Conn, Kernel,
}

-- kReadBufferSize
abbrev pub read_buffer_size : ℕ
read_buffer_size = 8388608

abbrev pub log_effect : Effect → Conn → Conn
log_effect e c = record c { log = c.log ++ (e ∷ []) }

abbrev pub is_empty {ℓ} : {A : Type ℓ} → List A → Bool
is_empty [] = true
is_empty (x ∷ xs) = false

abbrev pub status_is_open : ConnStatus → Bool
status_is_open conn_open = true
status_is_open _ = false

abbrev pub status_is_idle : ConnStatus → Bool
status_is_idle conn_idle = true
status_is_idle _ = false

abbrev pub status_is_closing : ConnStatus → Bool
status_is_closing conn_closing = true
status_is_closing _ = false

-- `conn_status < CONN_CLOSING`
abbrev pub status_before_closing : ConnStatus → Bool
status_before_closing conn_idle = true
status_before_closing conn_open = true
status_before_closing _ = false

-- An unsigned 32-bit sum that is returned as int32_t.
unfoldable pub int32 : ℕ → ℤ
int32 n = if ltb n (2 ^ 31) then pos n else negsuc (2 ^ 32 - 1 - n)

-- `conn_sd > 0`
abbrev pub has_sd : Conn → Bool
has_sd c = ltb 0 (pos_part c.conn_sd)

unfoldable pub is_open : Conn → Bool
is_open c = has_sd c && status_is_open c.status

-- A change of `epoll_events` that is handed to the worker's `mod_event`.
unfoldable pub set_out : Bool → Conn → Conn
set_out flag c =
    let evts = record c.epoll_events { out = flag } in
    record c { epoll_events = evts; log = c.log ++ (Effect.mod_event c.conn_sd evts ∷ []) }

unfoldable pub notify_send : Conn → Conn
unfolding set_out
notify_send c = if c.has_worker then set_out true c else c

unfoldable pub close : Conn → Conn
unfolding notify_send
close c =
    if status_before_closing c.status then notify_send (record c { status = conn_closing }) else c

-- `init`: a descriptor that is not positive leaves `conn_sd` as it is.
unfoldable pub init : ℤ → List ℕ → ℕ → Bool → Conn → Conn
init fd host port passive c = record c {
  remote_host = host;
  remote_port = port;
  is_passive = passive;
  epoll_events = record { et = true; in_ = true; out = false; err = true };
  conn_sd = if ltb 0 (pos_part fd) then fd else c.conn_sd;
}

-- `write_data`: the number returned is the size of the whole buffer.
unfoldable pub write_data : List ℕ → Conn → ℕ × Conn
write_data bytes c =
    let all = c.send_buffer ++ bytes in (length all % 2 ^ 32, record c { send_buffer = all })

-- `mpush`: the items, until one `write_data` returns 0. The sum is kept in 32 bits.
unfoldable pub mpush : List (List ℕ) → Conn → ℕ × Conn
unfolding write_data
mpush [] c = (0, c)
mpush (item ∷ rest) c =
    let (len, c') = write_data item c in
    let (more, c'') = mpush rest c' in if ltb 0 len then ((len + more) % 2 ^ 32, c'') else (0, c')

module _ (kernel : Kernel) where
  -- One round of `do_send`; the flag says whether it calls itself again.
  unfoldable pub send_answer : SendResult → Conn → Conn × Bool
  unfolding set_out close
  send_answer SendResult.would_block c = (set_out true c, false)
  send_answer SendResult.failed c = (close c, false)
  send_answer (SendResult.sent n) c =
      if ltb 0 n && ltb n (length c.send_buffer)
      then (
        record c { send_buffer = drop n c.send_buffer; wire = c.wire ++ take n c.send_buffer },
        true,
      )
      else (record c { send_buffer = []; wire = c.wire ++ take n c.send_buffer }, false)

  unfoldable pub send_round : Conn → Conn × Bool
  unfolding set_out send_answer
  send_round c =
      if is_empty c.send_buffer
      then (set_out false c, false)
      else send_answer (kernel.send c.sends c.send_buffer) (record c { sends = c.sends + 1 })

  -- `do_send`; `none` means that the fuel ran out.
  unfoldable pub do_send : ℕ → Conn → Option Conn
  do_send zero c = none
  do_send (suc fuel) c =
      let (c', again) = send_round c in
      let rest = do_send fuel c' in if again then rest else some c'

  -- `msend` of the items, with what it returns. The fuel is that of `do_send`.
  unfoldable pub msend : ℕ → List (List ℕ) → Conn → Option (ℤ × Conn)
  unfolding is_open int32
  msend fuel items c =
      let writing = not (is_empty c.send_buffer) in
      let (count, c') = mpush items c in
      let sending = do_send fuel c' in
      if is_open c
      then (if writing
          then some (int32 count, c')
          else elim sending [ none ↦ none | some c'' ↦ some (int32 count, c'') ])
      else some (minus_one, c)
