-- ===== src/Pipe/Side.antt =====
-- What sending leaves alone: which side of a pipe a connection is, and its input.
use snet.Prelude.{
  ℕ, zero, suc, ◌+◌, ◌≡◌, refl, sym, ap, ◌∙◌, List, [], ◌∷◌, ◌++◌, some, ltb, length, concat,
  Bool-cases, Option-cases, inl, inr, arith,
}
use snet.Tcp.Types.{Conn, Kernel, SendResult}
use snet.Tcp.Connection.{
  is_empty, set_out, close, notify_send, write_data, mpush, send_answer, send_round, do_send, msend,
}
use snet.Pipe.Connection.{send}
use snet.Pipe.Framing.{send-input}

-- Sending does not change which side a connection is.
answer_passive :
    (kernel : Kernel) (a : SendResult) (c : Conn)
    → (send_answer kernel a c).0.is_passive ≡ c.is_passive
unfolding send_answer set_out close notify_send
answer_passive kernel SendResult.would_block c = refl
answer_passive kernel SendResult.failed c = ground arith
answer_passive kernel (SendResult.sent n) c = ground arith

round_passive : (kernel : Kernel) (c : Conn) → (send_round kernel c).0.is_passive ≡ c.is_passive
unfolding send_round set_out
round_passive kernel c = elim (Bool-cases (is_empty c.send_buffer)) [
  | inl e ↦ rw e refl
  | inr e ↦
      rw e (
        answer_passive kernel (kernel.send c.sends c.send_buffer)
          (record c { sends = c.sends + 1 }))
]

do_send_passive :
    (kernel : Kernel) (fuel : ℕ) (c c' : Conn)
    → do_send kernel fuel c ≡ some c'
    → c'.is_passive ≡ c.is_passive
unfolding do_send
do_send_passive kernel zero c c' e = cc
do_send_passive kernel (suc fuel) c c' e = elim (Bool-cases (send_round kernel c).1) [
  | inl again ↦
      let rest : do_send kernel fuel (send_round kernel c).0 ≡ some c' = ground arith in
      do_send_passive kernel fuel (send_round kernel c).0 c' rest ∙ round_passive kernel c
  | inr stop ↦
      let same : (send_round kernel c).0 ≡ c' = ground arith in
      ap (λ x. x.is_passive) (sym same) ∙ round_passive kernel c
]

mpush_passive : (its : List (List ℕ)) (c : Conn) → (mpush its c).1.is_passive ≡ c.is_passive
unfolding mpush write_data
mpush_passive [] c = refl
mpush_passive (item ∷ rest) c =
    let next = mpush_passive rest (write_data item c).1 in
    elim (Bool-cases (ltb 0 (write_data item c).0)) [ inl e ↦ rw e next | inr e ↦ rw e refl ]

pub send_passive :
    (kernel : Kernel) (its : List (List ℕ)) (c : Conn)
    → (send kernel its c).is_passive ≡ c.is_passive
unfolding send msend
send_passive kernel its c =
    let c₁ = (mpush its c).1 in
    let fuel = suc (length (c.send_buffer ++ concat its)) in
    elim (Option-cases (do_send kernel fuel c₁)) [
      | inl e ↦ ground (arith, mpush_passive its c)
      | inr (c₂, e) ↦
          let sent = do_send_passive kernel fuel c₁ c₂ e in
          ground (arith, mpush_passive its c, sent)
    ]

-- Sending does not look at the input buffer.
pub send_position :
    (kernel : Kernel) (its : List (List ℕ)) (c : Conn) → (send kernel its c).read_pos ≡ c.read_pos
send_position kernel its c = ap (λ x. x.read_pos) (send-input c.read_buffer c.read_pos kernel its c)
