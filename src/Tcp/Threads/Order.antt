-- ===== src/Tcp/Threads/Order.antt =====
-- What holds between the turns of the threads.
use snet.Prelude.{
  ℕ, ◌+◌, ◌^◌, ◌<◌, ◌≡◌, refl, ap, sym, ◌∙◌, List, [], ◌∷◌, ◌++◌, some, ◌⊎◌, true, false, inl, inr,
  length, set, get_elem?, append-nil, append_assoc, concat, NoneEmpty, Option-cases, arith,
}
use snet.Tcp.Types.{Conn, Kernel}
use snet.Tcp.Sending.{TakesSome, stream, IsSettled}
use snet.Tcp.Threads.{
  Stage, calling, pushing, sending, finished, marking, notifying, leaving, unwatching, raising,
  releasing, Pool, Action, call, writable, shut, settled, turn, pushed, advance, take_turn, act,
  run,
}
use snet.Tcp.Threads.Sums.{
  total, total-set, total-get, bytes, busy, IsLegal, AllLegal, AllLegal-get, AllLegal-set,
}
use snet.Tcp.Threads.Steps.{advance-Turned}

-- What holds between the turns, where `start` was the stream of the connection at first and `future`
-- bytes may still be asked for.
pub record IsOrderly (start : List ℕ) (future : ℕ) (p : Pool) : Type 0 where
  pub order : stream p.conn ≡ start ++ p.given
  pub alive : IsSettled p.conn ⊎ (0 < total busy p.threads)
  pub legal : AllLegal p.threads
  pub room : length p.conn.send_buffer + (total bytes p.threads + future) < 2 ^ 32

-- The bytes that the calls ask to send.
abbrev pub wanted : List Action → ℕ
wanted [] = 0
wanted (call items ∷ schedule) = length (concat items) + wanted schedule
wanted (_ ∷ schedule) = wanted schedule

-- No call has an item that is empty.
abbrev pub AllWhole : List Action → Type 0
AllWhole [] = Unit
AllWhole (call items ∷ schedule) = NoneEmpty items × AllWhole schedule
AllWhole (_ ∷ schedule) = AllWhole schedule

module _ {start : List ℕ} {future : ℕ} where
  -- A thread that begins with nothing to push.
  begin-IsOrderly :
      (s : Stage) (p : Pool)
      → IsLegal s
      → bytes s ≡ 0
      → IsOrderly start future p
      → IsOrderly start future (record p { threads = s ∷ p.threads })
  unfolding total
  begin-IsOrderly s p legal none_left v = record {
    order = v.order;
    alive = elim v.alive [ inl h ↦ inl h | inr h ↦ inr (omega arith) ];
    legal = (legal, v.legal);
    room = omega (arith, v.room);
  }

  module _ (kernel : Kernel) (ok : TakesSome kernel) where
    take_turn-IsOrderly :
        (i : ℕ) (s : Stage) (p : Pool)
        → get_elem? p.threads i ≡ some s
        → IsOrderly start future p
        → IsOrderly start future (take_turn kernel i (some s) p)
    unfolding take_turn
    take_turn-IsOrderly i s p e v =
        let l = AllLegal-get p.threads i s v.legal e in
        let enough = total-get bytes p.threads i s e in
        let t = advance-Turned kernel ok s p.conn l (omega (arith, v.room)) in
        let s' = (advance kernel s p.conn).0 in
        let sum = total-set bytes p.threads i s s' e in
        let threads = total-set busy p.threads i s s' e in
        let own = total-get busy p.threads i s e in
        let still : busy s' ≡ 1 → 0 < total busy (set p.threads i s') = λ o. omega arith in
        let others : busy s ≡ 0 → 0 < total busy p.threads → 0 < total busy (set p.threads i s') =
          λ z h. omega arith in
        record {
          order =
              t.order ∙ ap (λ xs. xs ++ pushed s) v.order ∙ append_assoc start p.given (pushed s);
          alive = elim (alive-cases s v.alive) [
            | inl h ↦ elim (t.alive h) [ inl h' ↦ inl h' | inr h' ↦ inr (still h') ]
            | inr (z, h) ↦ inr (others z h)
          ];
          legal = AllLegal-set p.threads i s' v.legal t.legal;
          room = omega (arith, t.room, v.room);
        }
      where
        alive-cases :
            (s : Stage)
            → IsSettled p.conn ⊎ (0 < total busy p.threads)
            → (IsSettled p.conn ⊎ (busy s ≡ 1)) ⊎ ((busy s ≡ 0) × (0 < total busy p.threads))
        alive-cases s (inl h) = inl (inl h)
        alive-cases sending (inr h) = inl (inr refl)
        alive-cases (calling items) (inr h) = inr (refl, h)
        alive-cases (pushing items) (inr h) = inr (refl, h)
        alive-cases finished (inr h) = inr (refl, h)
        alive-cases (marking ends) (inr h) = inr (refl, h)
        alive-cases (notifying ends) (inr h) = inr (refl, h)
        alive-cases leaving (inr h) = inr (refl, h)
        alive-cases unwatching (inr h) = inr (refl, h)
        alive-cases raising (inr h) = inr (refl, h)
        alive-cases releasing (inr h) = inr (refl, h)

    turn-IsOrderly :
        (i : ℕ) (p : Pool)
        → IsOrderly start future p
        → IsOrderly start future (take_turn kernel i (get_elem? p.threads i) p)
    unfolding take_turn
    turn-IsOrderly i p v = elim (Option-cases (get_elem? p.threads i)) [
      | inl e ↦ rw (e, take_turn) v
      | inr (s, e) ↦ rw e (take_turn-IsOrderly i s p e v)
    ]

run-IsOrderly :
    (kernel : Kernel)
    → TakesSome kernel
    → (schedule : List Action) (p : Pool) (start : List ℕ) → AllWhole schedule
    → IsOrderly start (wanted schedule) p
    → IsOrderly start 0 (run kernel schedule p)
unfolding run act total
run-IsOrderly kernel ok [] p start w v = v
run-IsOrderly kernel ok (call items ∷ schedule) p start w v =
    run-IsOrderly kernel ok schedule _ start w.1 (record {
      order = v.order;
      alive = elim v.alive [ inl h ↦ inl h | inr h ↦ inr (omega arith) ];
      legal = (w.0, v.legal);
      room = omega (arith, v.room);
    })
run-IsOrderly kernel ok (writable ∷ schedule) p start w v =
    run-IsOrderly kernel ok schedule _ start w (record {
      order = v.order;
      alive = inr (omega arith);
      legal = (tt, v.legal);
      room = omega (arith, v.room);
    })
run-IsOrderly kernel ok (shut ∷ schedule) p start w v =
    run-IsOrderly kernel ok schedule _ start w (begin-IsOrderly (marking false) p tt refl v)
run-IsOrderly kernel ok (settled true ∷ schedule) p start w v =
    run-IsOrderly kernel ok schedule _ start w (begin-IsOrderly (marking true) p tt refl v)
run-IsOrderly kernel ok (settled false ∷ schedule) p start w v =
    run-IsOrderly kernel ok schedule _ start w (begin-IsOrderly leaving p tt refl v)
run-IsOrderly kernel ok (turn i ∷ schedule) p start w v =
    run-IsOrderly kernel ok schedule _ start w (turn-IsOrderly kernel ok i p v)

-- Whatever threads call `msend` and `close` while the worker ends events of one connection, in every
-- order of their turns: what the connection was given to send, on the wire and in the buffer, is what
-- it was given at first and then what the calls pushed, in the order in which they took the mutex; and
-- if bytes wait, the last call on epoll's set asked it to report when there is room, or the connection
-- is not open, or a thread is still in `do_send`. A round of `do_send` under the mutex is one turn,
-- and so is each step of `close` and `do_close`. At first no thread is on its way and the connection is
-- settled; no item is empty, fewer than 2 ^ 32 bytes wait and are asked for, and the kernel takes at
-- least one byte of a block and no more than the block.
pub run-stream :
    (kernel : Kernel)
    → TakesSome kernel
    → (schedule : List Action) (c : Conn) → IsSettled c
    → AllWhole schedule
    → length c.send_buffer + wanted schedule < 2 ^ 32
    → let p = run kernel schedule (record { conn = c; threads = []; given = [] }) in
      (stream p.conn ≡ stream c ++ p.given) × (IsSettled p.conn ⊎ (0 < total busy p.threads))
run-stream kernel ok schedule c h whole small =
    let v =
      run-IsOrderly kernel ok schedule (record { conn = c; threads = []; given = [] }) (stream c)
        whole
        (record {
          order = sym (append-nil (stream c));
          alive = inl h;
          legal = tt;
          room = unfold total in omega arith;
        }) in
    (v.order, v.alive)
