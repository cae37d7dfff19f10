-- ===== src/Tcp/Emptied.antt =====
-- `do_send` and `msend` of tcp_connection.h over a kernel that never makes them wait.
use snet.Prelude.{
  ℕ, zero, suc, ◌+◌, ◌^◌, ◌<◌, ◌≡◌, ◌≢◌, refl, sym, ap, ◌∙◌, ℤ, Bool, List, [], ◌++◌, some, true,
  false, inl, inr, length, concat, Bool-cases, NoneEmpty, arith,
}
use snet.Tcp.Status.{times, times-append}
use snet.Tcp.Types.{SendResult, Events, Effect, Conn, Kernel}
use snet.Tcp.Connection.{is_empty, is_open, set_out, send_answer, send_round, do_send, mpush, msend}
use snet.Tcp.Sending.{TakesSome, send_round-Round, empty-nil, nonempty-ne, mpush-buffer}

-- What sending leaves alone: what is read, and how often the calls stand in the log that are not calls
-- of `mod_event`.
pub record Sends (c c' : Conn) : Type 0 where
  pub worker : c'.has_worker ≡ c.has_worker
  pub reconnect : c'.need_reconnect ≡ c.need_reconnect
  pub position : c'.read_pos ≡ c.read_pos
  pub unread : c'.read_buffer ≡ c.read_buffer
  pub counts :
      (p : Effect → Bool)
      → ((sd : ℤ) (evts : Events) → p (Effect.mod_event sd evts) ≡ false)
      → times p c'.log ≡ times p c.log

Sends-trans : {c d e : Conn} → Sends c d → Sends d e → Sends c e
Sends-trans s r = record {
  worker = r.worker ∙ s.worker;
  reconnect = r.reconnect ∙ s.reconnect;
  position = r.position ∙ s.position;
  unread = r.unread ∙ s.unread;
  counts = λ p h. r.counts p h ∙ s.counts p h;
}

set_out-Sends : (flag : Bool) (c : Conn) → Sends c (set_out flag c)
unfolding set_out
set_out-Sends flag c = record {
  worker = refl;
  reconnect = refl;
  position = refl;
  unread = refl;
  counts = λ p h.
      let evts = record c.epoll_events { out = flag } in
      let none_more : p (Effect.mod_event c.conn_sd evts) ≡ false = h c.conn_sd evts in
      ground (arith, none_more, times-append p c.log (Effect.mod_event c.conn_sd evts));
}

-- The kernel never answers EAGAIN nor another error to a block that is not empty.
pub record NeverBlocks (kernel : Kernel) : Type 0 where
  pub takes :
      (n : ℕ) (bytes : List ℕ) → bytes ≢ [] → (k : ℕ) × (kernel.send n bytes ≡ SendResult.sent k)

module _ (kernel : Kernel) (ok : TakesSome kernel) (free : NeverBlocks kernel) where
  -- A round leaves the status, and is the last one only if nothing is left.
  record Rounded (c : Conn) (r : Conn × Bool) : Type 0 where
    status : r.0.status ≡ c.status
    last : r.1 ≡ false → r.0.send_buffer ≡ []
    sends : Sends c r.0

  send_answer-Rounded :
      (k : ℕ) (c : Conn) → 0 < k → Rounded c (send_answer kernel (SendResult.sent k) c)
  unfolding send_answer
  send_answer-Rounded k c some_byte = record {
    status = ground arith;
    last = ground arith;
    sends = record {
      worker = ground arith;
      reconnect = ground arith;
      position = ground arith;
      unread = ground arith;
      counts = λ p h. ground arith;
    };
  }

  send_round-Rounded : (c : Conn) → Rounded c (send_round kernel c)
  unfolding send_round
  send_round-Rounded c = elim (Bool-cases (is_empty c.send_buffer)) [
    | inl e ↦
        let none_left = empty-nil c.send_buffer e in
        rw e (
          unfold set_out in
          record { status = refl; last = λ _. none_left; sends = set_out-Sends false c })
    | inr e ↦
        let some_left = nonempty-ne c.send_buffer e in
        let (k, sent) = free.takes c.sends c.send_buffer some_left in
        let r =
          send_answer-Rounded k (record c { sends = c.sends + 1 })
            (ok.some_byte _ _ k sent some_left) in
        rw (e, sent)
          (record {
            status = r.status;
            last = r.last;
            sends = record {
              worker = r.sends.worker;
              reconnect = r.sends.reconnect;
              position = r.sends.position;
              unread = r.sends.unread;
              counts = r.sends.counts;
            };
          })
  ]

  pub do_send-empties :
      (fuel : ℕ) (c : Conn)
      → length c.send_buffer < fuel
      → (c' : Conn) × (do_send kernel fuel c ≡ some c')
        × (c'.send_buffer ≡ [])
        × (c'.status ≡ c.status)
        × Sends c c'
  unfolding do_send
  do_send-empties zero c h = elim h [ ]
  do_send-empties (suc fuel) c h =
      let next = (send_round kernel c).0 in
      let r = send_round-Rounded c in
      elim (Bool-cases (send_round kernel c).1) [
        | inl again ↦
            let shorter = (send_round-Round kernel ok c).shorter again in
            let (c', done, empty, same, s) = do_send-empties fuel next (omega (arith, shorter)) in
            (c', rw again done, empty, same ∙ r.status, Sends-trans r.sends s)
        | inr stop ↦ (next, rw stop, r.last stop, r.status, r.sends)
      ]

  -- What `msend` of items leaves of an open connection on which nothing waits.
  pub msend-empties :
      (items : List (List ℕ)) (c c' : Conn) (n : ℤ)
      → is_open c ≡ true
      → c.send_buffer ≡ []
      → NoneEmpty items
      → length (c.send_buffer ++ concat items) < 2 ^ 32
      → msend kernel (suc (length (c.send_buffer ++ concat items))) items c ≡ some (n, c')
      → c'.send_buffer ≡ []
  unfolding msend
  msend-empties items c c' n opened idle ne small ran =
      let pushed = mpush-buffer items c ne small in
      let fuel = suc (length (c.send_buffer ++ concat items)) in
      let c₁ = (mpush items c).1 in
      let enough : length c₁.send_buffer < fuel = rw pushed (omega arith) in
      let none_wait : is_empty c.send_buffer ≡ true = ap is_empty idle in
      let (d, done, empty, same, s) = do_send-empties fuel c₁ enough in
      let last : d ≡ c' = ground (arith, ran, done, opened, none_wait) in
      ap (λ (x : Conn). x.send_buffer) (sym last) ∙ empty
