-- ===== src/Tcp/SendEnd.antt =====
-- `do_send` of tcp_connection.h comes to one end with enough fuel, and leaves the input alone.
use snet.Prelude.{
  ℕ, zero, suc, ◌+◌, ◌≤◌, ◌<◌, ◌≡◌, refl, sym, ap, ◌∙◌, ℤ, List, [], ◌∷◌, some, ltb, Bool-cases,
  Option-cases, inl, inr, arith, length,
}
use snet.Tcp.Types.{SendResult, Conn, Kernel}
use snet.Tcp.Connection.{
  close, set_out, notify_send, is_empty, send_answer, send_round, do_send, is_open, write_data,
  mpush, msend,
}
use snet.Tcp.Sending.{TakesSome, do_send_lem}

module _ (kernel : Kernel) where
  send_answer-position :
      (a : SendResult) (c : Conn) → (send_answer kernel a c).0.read_pos ≡ c.read_pos
  unfolding send_answer set_out close notify_send
  send_answer-position SendResult.would_block c = refl
  send_answer-position SendResult.failed c = ground arith
  send_answer-position (SendResult.sent n) c = ground arith

  send_round-position : (c : Conn) → (send_round kernel c).0.read_pos ≡ c.read_pos
  unfolding send_round set_out
  send_round-position c = elim (Bool-cases (is_empty c.send_buffer)) [
    | inl e ↦ rw e refl
    | inr e ↦ rw e (
        send_answer-position (kernel.send c.sends c.send_buffer) (record c { sends = c.sends + 1 }))
  ]

  pub do_send-position :
      (fuel : ℕ) (c c' : Conn) → do_send kernel fuel c ≡ some c' → c'.read_pos ≡ c.read_pos
  unfolding do_send
  do_send-position zero c c' e = cc
  do_send-position (suc fuel) c c' e =
      let next = (send_round kernel c).0 in
      elim (Bool-cases (send_round kernel c).1) [
        | inl again ↦
            let rest : do_send kernel fuel next ≡ some c' = ground arith in
            do_send-position fuel next c' rest ∙ send_round-position c
        | inr stop ↦
            let same : next ≡ c' = ground arith in
            ap (λ x. x.read_pos) (sym same) ∙ send_round-position c
      ]

  do_send-more :
      (fuel more : ℕ) (c c' : Conn)
      → fuel ≤ more
      → do_send kernel fuel c ≡ some c'
      → do_send kernel more c ≡ some c'
  unfolding do_send
  do_send-more zero more c c' h e = cc
  do_send-more (suc fuel) zero c c' h e = elim h [ ]
  do_send-more (suc fuel) (suc more) c c' h e = elim (Bool-cases (send_round kernel c).1) [
    | inl again ↦
        let rest : do_send kernel fuel (send_round kernel c).0 ≡ some c' = ground arith in
        rw again (do_send-more fuel more (send_round kernel c).0 c' (omega arith) rest)
    | inr stop ↦ rw stop (ground arith)
  ]

  -- `do_send` comes to one end, with any fuel above the number of bytes that wait.
  pub do_send-one :
      (c : Conn)
      → TakesSome kernel
      → (c' : Conn) × ((fuel : ℕ) → length c.send_buffer < fuel → do_send kernel fuel c ≡ some c')
  do_send-one c takes =
      let (c', sent, same, settled) =
        do_send_lem kernel takes (suc (length c.send_buffer)) c (omega arith) in
      (c', λ fuel h. do_send-more (suc (length c.send_buffer)) fuel c c' (omega arith) sent)

mpush-position : (items : List (List ℕ)) (c : Conn) → (mpush items c).1.read_pos ≡ c.read_pos
unfolding mpush write_data
mpush-position [] c = refl
mpush-position (item ∷ rest) c = elim (Bool-cases (ltb 0 (write_data item c).0)) [
  | inl e ↦ rw e (mpush-position rest (write_data item c).1)
  | inr e ↦ rw e refl
]

pub msend-position :
    (kernel : Kernel) (fuel : ℕ) (items : List (List ℕ)) (c c' : Conn) (n : ℤ)
    → msend kernel fuel items c ≡ some (n, c')
    → c'.read_pos ≡ c.read_pos
unfolding msend
msend-position kernel fuel items c c' n e =
    let c₁ = (mpush items c).1 in
    let pushed = mpush-position items c in
    elim (Bool-cases (is_open c)) [
      | inr shut ↦ let same : c ≡ c' = ground arith in ap (λ x. x.read_pos) (sym same)
      | inl ready ↦ elim (Bool-cases (is_empty c.send_buffer)) [
        | inr busy ↦ let same : c₁ ≡ c' = ground arith in ap (λ x. x.read_pos) (sym same) ∙ pushed
        | inl free ↦ elim (Option-cases (do_send kernel fuel c₁)) [
          | inl stuck ↦ absurd (ground arith)
          | inr (c₂, sent) ↦
              let same : c₂ ≡ c' = ground arith in
              ap (λ x. x.read_pos) (sym same) ∙ do_send-position kernel fuel c₁ c₂ sent ∙ pushed
        ]
      ]
    ]
