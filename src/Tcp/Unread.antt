-- ===== src/Tcp/Unread.antt =====
-- The sending side of TcpConnection neither reads nor changes the input buffer.
use snet.Prelude.{
  ℕ, zero, suc, ◌+◌, ◌≡◌, refl, List, [], ◌∷◌, some, ◌>>=◌, inl, inr, Memory, Bool-cases, arith,
}
use snet.Tcp.Types.{SendResult, Conn, Kernel}
use snet.Tcp.Connection.{
  is_empty, is_open, write_data, mpush, send_answer, send_round, do_send, msend,
}

module _ (m : Memory) (p : ℕ) where
  abbrev pub input : Conn → Conn
  input c = record c { read_buffer = m; read_pos = p }

  mpush-input :
      (items : List (List ℕ)) (c : Conn)
      → mpush items (input c) ≡ ((mpush items c).0, input (mpush items c).1)
  unfolding mpush
  mpush-input [] c = refl
  mpush-input (item ∷ rest) c =
      let c' = (write_data item c).1 in ground (arith, mpush-input rest c')

  module _ (kernel : Kernel) where
    answer-input :
        (a : SendResult) (c : Conn)
        → send_answer kernel a (input c)
          ≡ (input (send_answer kernel a c).0, (send_answer kernel a c).1)
    unfolding send_answer
    answer-input SendResult.would_block c = refl
    answer-input SendResult.failed c = ground arith
    answer-input (SendResult.sent n) c = ground arith

    round-input :
        (c : Conn)
        → send_round kernel (input c) ≡ (input (send_round kernel c).0, (send_round kernel c).1)
    unfolding send_round
    round-input c = elim (Bool-cases (is_empty c.send_buffer)) [
      | inl e ↦ rw e
      | inr e ↦
          rw e (answer-input (kernel.send c.sends c.send_buffer) (record c { sends = c.sends + 1 }))
    ]

    do_send-input :
        (fuel : ℕ) (c : Conn)
        → do_send kernel fuel (input c) ≡ do_send kernel fuel c >>= λ x. some (input x)
    unfolding do_send
    do_send-input zero c = refl
    do_send-input (suc fuel) c = elim (Bool-cases (send_round kernel c).1) [
      | inl again ↦ rw (round-input c, again) (do_send-input fuel (send_round kernel c).0)
      | inr stop ↦ rw (round-input c, stop)
    ]

    pub msend-input :
        (fuel : ℕ) (items : List (List ℕ)) (c : Conn)
        → msend kernel fuel items (input c)
          ≡ msend kernel fuel items c >>= λ r. some (r.0, input r.1)
    unfolding msend
    msend-input fuel items c = elim (Bool-cases (is_open c)) [
      | inr shut ↦ rw shut
      | inl ready ↦ elim (Bool-cases (is_empty c.send_buffer)) [
        | inr busy ↦ rw (ready, busy, mpush-input items c)
        | inl free ↦ ground (arith, mpush-input items c, do_send-input fuel (mpush items c).1)
      ]
    ]
