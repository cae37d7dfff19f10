-- ===== src/Tcp/Threads/Steps.antt =====
-- What one turn of a thread does to the connection.
use snet.Prelude.{
  Bool, true, false, if◌then◌else◌, [], ap, ◌+◌, ◌^◌, ◌≤◌, ◌<◌, ◌≡◌, refl, sym, ◌∙◌, ◌++◌, ◌⊎◌, inl,
  inr, length, append-nil, append_assoc, length-append, length-drop, concat, Bool-cases, arith,
}
use snet.Tcp.Types.{SendResult, Conn, Kernel}
use snet.Tcp.Connection.{
  is_empty, is_open, set_out, notify_send, close, status_before_closing, status_is_closing, mpush,
  send_answer, send_round,
}
use snet.Tcp.Sending.{TakesSome, stream, IsSettled, send_round-Round, mpush-buffer, nonempty-ne}
use snet.Tcp.Threads.{
  Stage, calling, pushing, sending, finished, marking, notifying, leaving, unwatching, raising,
  releasing, pushed, advance,
}
use snet.Tcp.Threads.Shut.{
  Shut, Shut-refl, mark-Shut, notify-Shut, leave-Shut, unwatch-Shut, raise-Shut, release-Shut,
}
use snet.Tcp.Threads.Sums.{bytes, busy, IsLegal}

send_answer-le :
    (kernel : Kernel) (a : SendResult) (c : Conn)
    → length (send_answer kernel a c).0.send_buffer ≤ length c.send_buffer
unfolding send_answer set_out close notify_send
send_answer-le kernel SendResult.would_block c = omega arith
send_answer-le kernel SendResult.failed c = ground arith
send_answer-le kernel (SendResult.sent n) c = ground (arith, length-drop n c.send_buffer)

send_round-le :
    (kernel : Kernel) (c : Conn) → length (send_round kernel c).0.send_buffer ≤ length c.send_buffer
unfolding send_round set_out
send_round-le kernel c = elim (Bool-cases (is_empty c.send_buffer)) [
  | inl e ↦ rw e (omega arith)
  | inr e ↦
      rw e (
        send_answer-le kernel (kernel.send c.sends c.send_buffer)
          (record c { sends = c.sends + 1 }))
]

-- One turn of a thread in stage s.
pub record Turned (s : Stage) (c : Conn) (r : Stage × Conn) : Type 0 where
  pub order : stream r.1 ≡ stream c ++ pushed s
  pub legal : IsLegal r.0
  pub room : length r.1.send_buffer + bytes r.0 ≤ length c.send_buffer + bytes s
  pub alive : IsSettled c ⊎ (busy s ≡ 1) → IsSettled r.1 ⊎ (busy r.0 ≡ 1)

-- A turn that closes, of a thread that pushes and sends nothing.
Shut-Turned :
    (s s' : Stage) (c t : Conn)
    → Shut c t
    → pushed s ≡ []
    → IsLegal s'
    → bytes s' ≡ 0
    → busy s ≡ 0
    → Turned s c (s', t)
Shut-Turned s s' c t h none_pushed legal none_left idle = record {
  order = h.kept ∙ sym (append-nil (stream c)) ∙ ap (λ xs. stream c ++ xs) (sym none_pushed);
  legal = legal;
  room = omega (arith, ap length h.buffer);
  alive = λ a. elim a [ inl set_ ↦ inl (h.outcome set_) | inr f ↦ absurd (omega arith) ];
}

-- The end of `close`.
next-Turned :
    (s : Stage) (ends : Bool) (c t : Conn)
    → Shut c t
    → pushed s ≡ []
    → busy s ≡ 0
    → Turned s c (if ends then leaving else finished, t)
next-Turned s true c t h p b = Shut-Turned s leaving c t h p tt refl b
next-Turned s false c t h p b = Shut-Turned s finished c t h p tt refl b

module _ (kernel : Kernel) (ok : TakesSome kernel) where
  pub advance-Turned :
      (s : Stage) (c : Conn)
      → IsLegal s
      → length c.send_buffer + bytes s < 2 ^ 32
      → Turned s c (advance kernel s c)
  unfolding advance
  advance-Turned finished c l small = record {
    order = sym (append-nil (stream c));
    legal = tt;
    room = omega arith;
    alive = λ h. h;
  }
  advance-Turned (marking ends) c l small = elim (Bool-cases (status_before_closing c.status)) [
    | inl e ↦ rw e (Shut-Turned (marking ends) (notifying ends) c _ (mark-Shut c) refl tt refl refl)
    | inr e ↦ rw e (next-Turned (marking ends) ends c c (Shut-refl c) refl refl)
  ]
  advance-Turned (notifying ends) c l small =
      next-Turned (notifying ends) ends c (notify_send c) (notify-Shut c) refl refl
  advance-Turned leaving c l small = elim (Bool-cases (status_is_closing c.status)) [
    | inl e ↦ rw e (Shut-Turned leaving unwatching c _ (leave-Shut c) refl tt refl refl)
    | inr e ↦ rw e (Shut-Turned leaving finished c c (Shut-refl c) refl tt refl refl)
  ]
  advance-Turned unwatching c l small =
      Shut-Turned unwatching raising c _ (unwatch-Shut c) refl tt refl refl
  advance-Turned raising c l small =
      Shut-Turned raising releasing c _ (raise-Shut c) refl tt refl refl
  advance-Turned releasing c l small =
      Shut-Turned releasing finished c _ (release-Shut c) refl tt refl refl
  advance-Turned (calling items) c l small = elim (Bool-cases (is_open c)) [
    | inl e ↦ rw e (record {
      order = sym (append-nil (stream c));
      legal = l;
      room = omega arith;
      alive = λ h. elim h [ inl set_ ↦ inl set_ | inr f ↦ absurd (omega arith) ];
    })
    | inr e ↦ rw e (record {
      order = sym (append-nil (stream c));
      legal = tt;
      room = omega arith;
      alive = λ h. elim h [ inl set_ ↦ inl set_ | inr f ↦ absurd (omega arith) ];
    })
  ]
  advance-Turned (pushing items) c l small =
      let size = length-append c.send_buffer (concat items) in
      let whole = mpush-buffer items c l (omega (arith, size)) in
      let c' = (mpush items c).1 in
      let order : stream c' ≡ stream c ++ concat items =
        rw whole (sym (append_assoc c.wire c.send_buffer (concat items))) in
      let room : length c'.send_buffer + 0 ≤ length c.send_buffer + length (concat items) =
        rw whole (omega (arith, size)) in
      elim (Bool-cases (is_empty c.send_buffer)) [
        | inl e ↦ rw e (record { order = order; legal = tt; room = room; alive = λ h. inr refl })
        | inr e ↦ rw e (record {
          order = order;
          legal = tt;
          room = room;
          alive = λ h. elim h [
            | inr f ↦ absurd (omega arith)
            | inl (inl f) ↦ absurd (nonempty-ne c.send_buffer e f)
            | inl (inr f) ↦ inl (inr (rw whole f))
          ];
        })
      ]
  advance-Turned sending c l small =
      let r = send_round-Round kernel ok c in
      let le = send_round-le kernel c in
      elim (Bool-cases (send_round kernel c).1) [
        | inl again ↦ rw again (record {
          order = r.same ∙ sym (append-nil (stream c));
          legal = tt;
          room = omega arith;
          alive = λ h. inr refl;
        })
        | inr stop ↦ rw stop (record {
          order = r.same ∙ sym (append-nil (stream c));
          legal = tt;
          room = omega arith;
          alive = λ h. inl (r.settled stop);
        })
      ]
