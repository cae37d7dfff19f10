-- ===== src/Tcp/Keeps.antt =====
-- What the methods of a TcpConnection other than `do_close` leave alone: its identity, and that it
-- is not closed. The list of its calls only grows.
use snet.Prelude.{
  ℕ, zero, suc, ◌+◌, ◌≡◌, ◌≢◌, refl, sym, ap, ◌∙◌, ℤ, List, [], ◌∷◌, ◌++◌, append-nil, append_assoc,
  some, Bool, true, false, ◌&&◌, ltb, if◌then◌else◌, Bool-cases, Option-cases, inl, inr, arith,
  length,
}
use mathlib.Core.Path.{subst}
use snet.Tcp.Types.{ConnStatus, conn_closing, conn_closed, Effect, SendResult, Conn, Kernel}
use snet.Tcp.Connection.{
  status_before_closing, is_empty, is_open, log_effect, set_out, notify_send, close, write_data,
  mpush, send_answer, send_round, do_send, msend,
}

pub record Keeps (c c' : Conn) : Type 0 where
  pub id : c'.conn_id ≡ c.conn_id
  pub factory : c'.has_factory ≡ c.has_factory
  pub reconnect : c'.need_reconnect ≡ c.need_reconnect
  pub not_closed : c.status ≢ conn_closed → c'.status ≢ conn_closed
  pub suffix : List Effect
  pub grows : c'.log ≡ c.log ++ suffix

pub Keeps-refl : (c : Conn) → Keeps c c
Keeps-refl c = record {
  id = refl;
  factory = refl;
  reconnect = refl;
  not_closed = λ h. h;
  suffix = [];
  grows = sym (append-nil c.log);
}

pub Keeps-trans : {c d e : Conn} → Keeps c d → Keeps d e → Keeps c e
Keeps-trans {c} p q = record {
  id = q.id ∙ p.id;
  factory = q.factory ∙ p.factory;
  reconnect = q.reconnect ∙ p.reconnect;
  not_closed = λ h. q.not_closed (p.not_closed h);
  suffix = p.suffix ++ q.suffix;
  grows = q.grows ∙ ap (λ t. t ++ q.suffix) p.grows ∙ append_assoc c.log p.suffix q.suffix;
}

pub if-Keeps : {c d e : Conn} (b : Bool) → Keeps c d → Keeps c e → Keeps c (if b then d else e)
if-Keeps true p q = p
if-Keeps false p q = q

-- A change of other fields.
pub keep-fields :
    (c c' : Conn)
    → c'.conn_id ≡ c.conn_id
    → c'.has_factory ≡ c.has_factory
    → c'.need_reconnect ≡ c.need_reconnect
    → c'.status ≡ c.status
    → c'.log ≡ c.log
    → Keeps c c'
keep-fields c c' i f r s l = record {
  id = i;
  factory = f;
  reconnect = r;
  not_closed = λ h e. h (sym s ∙ e);
  suffix = [];
  grows = l ∙ sym (append-nil c.log);
}

pub log_effect-Keeps : (e : Effect) (c : Conn) → Keeps c (log_effect e c)
log_effect-Keeps e c = record {
  id = refl;
  factory = refl;
  reconnect = refl;
  not_closed = λ h. h;
  suffix = e ∷ [];
  grows = refl;
}

set_out-Keeps : (flag : Bool) (c : Conn) → Keeps c (set_out flag c)
unfolding set_out
set_out-Keeps flag c = record {
  id = refl;
  factory = refl;
  reconnect = refl;
  not_closed = λ h. h;
  suffix = Effect.mod_event c.conn_sd (record c.epoll_events { out = flag }) ∷ [];
  grows = refl;
}

notify_send-Keeps : (c : Conn) → Keeps c (notify_send c)
unfolding notify_send
notify_send-Keeps c = if-Keeps c.has_worker (set_out-Keeps true c) (Keeps-refl c)

-- A change of the status to another than CONN_CLOSED.
pub status-Keeps : (s : ConnStatus) (c : Conn) → s ≢ conn_closed → Keeps c (record c { status = s })
status-Keeps s c ne = record {
  id = refl;
  factory = refl;
  reconnect = refl;
  not_closed = λ _. ne;
  suffix = [];
  grows = sym (append-nil c.log);
}

pub close-Keeps : (c : Conn) → Keeps c (close c)
unfolding close
close-Keeps c =
    if-Keeps (status_before_closing c.status)
      (Keeps-trans (status-Keeps conn_closing c (λ f. cc))
        (notify_send-Keeps (record c { status = conn_closing })))
      (Keeps-refl c)

module _ (kernel : Kernel) where
  answer-Keeps : (a : SendResult) (c : Conn) → Keeps c (send_answer kernel a c).0
  unfolding send_answer
  answer-Keeps SendResult.would_block c = set_out-Keeps true c
  answer-Keeps SendResult.failed c = close-Keeps c
  answer-Keeps (SendResult.sent n) c = elim (Bool-cases (ltb 0 n && ltb n (length c.send_buffer))) [
    | inl e ↦ rw e (keep-fields c _ refl refl refl refl refl)
    | inr e ↦ rw e (keep-fields c _ refl refl refl refl refl)
  ]

  round-Keeps : (c : Conn) → Keeps c (send_round kernel c).0
  unfolding send_round
  round-Keeps c = elim (Bool-cases (is_empty c.send_buffer)) [
    | inl e ↦ rw e (set_out-Keeps false c)
    | inr e ↦
        let next = record c { sends = c.sends + 1 } in
        rw e (
          Keeps-trans (keep-fields c next refl refl refl refl refl)
            (answer-Keeps (kernel.send c.sends c.send_buffer) next))
  ]

  pub do_send-Keeps : (fuel : ℕ) (c c' : Conn) → do_send kernel fuel c ≡ some c' → Keeps c c'
  unfolding do_send
  do_send-Keeps zero c c' e = cc
  do_send-Keeps (suc fuel) c c' e = elim (Bool-cases (send_round kernel c).1) [
    | inl again ↦
        let rest : do_send kernel fuel (send_round kernel c).0 ≡ some c' = ground arith in
        Keeps-trans (round-Keeps c) (do_send-Keeps fuel (send_round kernel c).0 c' rest)
    | inr stop ↦
        let same : (send_round kernel c).0 ≡ c' = ground arith in
        subst (Keeps c) same (round-Keeps c)
  ]

pub mpush-Keeps : (items : List (List ℕ)) (c : Conn) → Keeps c (mpush items c).1
unfolding mpush write_data
mpush-Keeps [] c = Keeps-refl c
mpush-Keeps (item ∷ rest) c =
    let c' = (write_data item c).1 in
    let first = keep-fields c c' refl refl refl refl refl in
    elim (Bool-cases (ltb 0 (write_data item c).0)) [
      | inl e ↦ rw e (Keeps-trans first (mpush-Keeps rest c'))
      | inr e ↦ rw e first
    ]

module _ (kernel : Kernel) where
  pub msend-Keeps :
      (fuel : ℕ) (items : List (List ℕ)) (c c' : Conn) (n : ℤ)
      → msend kernel fuel items c ≡ some (n, c')
      → Keeps c c'
  unfolding msend
  msend-Keeps fuel items c c' n e =
      let c₁ = (mpush items c).1 in
      let pushed = mpush-Keeps items c in
      elim (Bool-cases (is_open c)) [
        | inr shut ↦ let same : c ≡ c' = ground arith in subst (Keeps c) same (Keeps-refl c)
        | inl ready ↦ elim (Bool-cases (is_empty c.send_buffer)) [
          | inr busy ↦ let same : c₁ ≡ c' = ground arith in subst (Keeps c) same pushed
          | inl free ↦ elim (Option-cases (do_send kernel fuel c₁)) [
            | inl stuck ↦ absurd (ground arith)
            | inr (c₂, sent) ↦
                let same : c₂ ≡ c' = ground arith in
                Keeps-trans pushed (do_send-Keeps kernel fuel c₁ c' (sent ∙ ap some same))
          ]
        ]
      ]
