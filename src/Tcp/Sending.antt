-- ===== src/Tcp/Sending.antt =====
-- The sending side of TcpConnection: `msend` and `do_send` lose no byte and keep the order.
use snet.Prelude.{
  ℕ, zero, suc, ◌+◌, ◌%◌, ◌^◌, ◌≤◌, ◌<◌, ◌≡◌, ◌≢◌, ℤ, refl, sym, ◌∙◌, List, [], ◌∷◌, ◌++◌, some,
  Bool, true, false, ◌⊎◌, inl, inr, length, take, take_all, drop, take-append-drop, length-drop,
  length-append, append_assoc, append-nil, concat, NoneEmpty, ltb, Bool-cases, arith,
}
use snet.Tcp.Types.{SendResult, Effect, Conn, Kernel}
use snet.Tcp.Connection.{
  is_empty, is_open, status_is_open, set_out, close, notify_send, mpush, send_answer, send_round,
  int32, do_send, msend,
}

-- What `send(2)` promises: of a block that is not empty it takes at least one byte, and no more
-- than it was given.
pub record TakesSome (kernel : Kernel) : Type 0 where
  pub some_byte :
      (n : ℕ) (bytes : List ℕ) (k : ℕ)
      → kernel.send n bytes ≡ SendResult.sent k
      → bytes ≢ []
      → 0 < k
  pub no_more :
      (n : ℕ) (bytes : List ℕ) (k : ℕ) → kernel.send n bytes ≡ SendResult.sent k → k ≤ length bytes

-- All that a connection was given to send, in order: what the kernel has, then what waits.
abbrev pub stream : Conn → List ℕ
stream c = c.wire ++ c.send_buffer

-- Whether the last call of `mod_event` or `add_event` in a log asks for EPOLLOUT, or what was asked
-- before, if there is none.
unfoldable pub told : Bool → List Effect → Bool
told b [] = b
told b (Effect.mod_event sd evts ∷ log) = told evts.out log
told b (Effect.add_event sd evts ∷ log) = told evts.out log
told b (_ ∷ log) = told b log

pub told-append : (b : Bool) (xs ys : List Effect) → told b (xs ++ ys) ≡ told (told b xs) ys
unfolding told
told-append b [] ys = refl
told-append b (Effect.mod_event sd evts ∷ log) ys = told-append evts.out log ys
told-append b (Effect.add_event sd evts ∷ log) ys = told-append evts.out log ys
told-append b (Effect.del_event sd ∷ log) ys = told-append b log ys
told-append b (Effect.close_fd sd ∷ log) ys = told-append b log ys
told-append b (Effect.raised e ∷ log) ys = told-append b log ys
told-append b (Effect.post_remove n ∷ log) ys = told-append b log ys
told-append b (Effect.session id k ∷ log) ys = told-append b log ys
told-append b (Effect.null_session ∷ log) ys = told-append b log ys
told-append b (Effect.connect_to sd host port ∷ log) ys = told-append b log ys

pub set_out-told : (flag : Bool) (c : Conn) → told false (set_out flag c).log ≡ flag
unfolding set_out told
set_out-told flag c = told-append false c.log _

-- Nothing waits, or the last call on epoll's set asked it to report when there is room, or the
-- connection is not open.
abbrev pub IsSettled : Conn → Type 0
IsSettled c = (c.send_buffer ≡ []) ⊎ ((told false c.log ≡ true) ⊎ (status_is_open c.status ≡ false))

pub empty-nil : (bytes : List ℕ) → is_empty bytes ≡ true → bytes ≡ []
empty-nil [] e = refl
empty-nil (x ∷ bytes) e = cc

pub nonempty-ne : (bytes : List ℕ) → is_empty bytes ≡ false → bytes ≢ []
nonempty-ne [] e = cc
nonempty-ne (x ∷ bytes) e = λ f. cc

module _ (kernel : Kernel) (ok : TakesSome kernel) where
  -- A round that is repeated has shortened the buffer.
  pub record Round (c : Conn) (r : Conn × Bool) : Type 0 where
    pub same : stream r.0 ≡ stream c
    pub shorter : r.1 ≡ true → length r.0.send_buffer < length c.send_buffer
    pub settled : r.1 ≡ false → IsSettled r.0

  send_answer-Round :
      (c : Conn) (a : SendResult)
      → ((k : ℕ) → a ≡ SendResult.sent k → (0 < k) × (k ≤ length c.send_buffer))
      → Round c (send_answer kernel a c)
  unfolding send_answer set_out close notify_send
  send_answer-Round c SendResult.would_block h = record {
    same = refl;
    shorter = λ e. cc;
    settled = λ e. inr (inl (set_out-told true c));
  }
  send_answer-Round c SendResult.failed h = ground arith
  send_answer-Round c (SendResult.sent k) h =
      let bytes = c.send_buffer in
      ground (
        arith,
        h k refl,
        take-append-drop k bytes,
        length-drop k bytes,
        take_all k bytes,
        append_assoc c.wire (take k bytes) (drop k bytes),
        append-nil (c.wire ++ take k bytes),
      )

  pub send_round-Round : (c : Conn) → Round c (send_round kernel c)
  unfolding send_round set_out
  send_round-Round c = elim (Bool-cases (is_empty c.send_buffer)) [
    | inl e ↦
        let none_left = empty-nil c.send_buffer e in
        rw e (record { same = refl; shorter = λ f. cc; settled = λ _. inl none_left })
    | inr e ↦
        let some_left = nonempty-ne c.send_buffer e in
        let offered = kernel.send c.sends c.send_buffer in
        let r =
          send_answer-Round (record c { sends = c.sends + 1 }) offered
            (λ k q. (ok.some_byte _ _ k q some_left, ok.no_more _ _ k q)) in
        rw e (record { same = r.same; shorter = r.shorter; settled = r.settled })
  ]

  -- With more fuel than there are bytes `do_send` returns, if the kernel takes at least one byte of
  -- a block and no more than the block. What the connection was given is on the wire or still in
  -- the buffer, in order; and if some is still in the buffer of an open connection, epoll was asked
  -- to report when there is room.
  pub do_send_lem :
      (fuel : ℕ) (c : Conn)
      → length c.send_buffer < fuel
      → (c' : Conn) × (do_send kernel fuel c ≡ some c') × (stream c' ≡ stream c) × IsSettled c'
  unfolding do_send
  do_send_lem zero c h = elim h [ ]
  do_send_lem (suc fuel) c h =
      let r = send_round-Round c in
      let next = (send_round kernel c).0 in
      elim (Bool-cases (send_round kernel c).1) [
        | inl again ↦
            let (c', done, same, settled) =
              do_send_lem fuel next (omega (arith, r.shorter again)) in
            (c', rw again done, same ∙ r.same, settled)
        | inr stop ↦ (next, rw stop, r.same, r.settled stop)
      ]

-- Items that are not empty are appended whole, in order.
pub mpush-buffer :
    (items : List (List ℕ)) (c : Conn)
    → NoneEmpty items
    → length (c.send_buffer ++ concat items) < 2 ^ 32
    → (mpush items c).1 ≡ record c { send_buffer = c.send_buffer ++ concat items }
unfolding mpush
mpush-buffer [] c ne small = λ i. record c { send_buffer = sym (append-nil c.send_buffer) i }
mpush-buffer (item ∷ rest) c ne small =
    let bytes = c.send_buffer in
    let joined : (bytes ++ item) ++ concat rest ≡ bytes ++ (item ++ concat rest) =
      append_assoc bytes item (concat rest) in
    let c' = record c { send_buffer = bytes ++ item } in
    let sizes = length-append (bytes ++ item) (concat rest) in
    let size = length-append bytes item in
    let small' : length ((bytes ++ item) ++ concat rest) < 2 ^ 32 = rw joined small in
    let kept : ltb 0 (length (bytes ++ item) % 2 ^ 32) ≡ true = ground arith in
    rw kept (mpush-buffer rest c' ne.1 small' ∙ λ i. record c { send_buffer = joined i })

module _ (kernel : Kernel) (ok : TakesSome kernel) where
  -- `msend` on an open, settled connection returns, appends its items to what the connection was
  -- given to send, and leaves it settled. The items are not empty, the buffer stays below 2 ^ 32
  -- bytes, and the kernel takes at least one byte of a block and no more than the block.
  pub msend_lem :
      (items : List (List ℕ)) (c : Conn)
      → is_open c ≡ true
      → IsSettled c
      → NoneEmpty items
      → length (c.send_buffer ++ concat items) < 2 ^ 32
      → (n : ℤ) × (c' : Conn) × (msend kernel (suc (length (c.send_buffer ++ concat items))) items c
          ≡ some (n, c'))
        × (stream c' ≡ stream c ++ concat items)
        × IsSettled c'
  unfolding msend
  msend_lem items c opened settled ne small =
      let pushed = mpush-buffer items c ne small in
      let c₁ = (mpush items c).1 in
      let count = (mpush items c).0 in
      let given : stream c₁ ≡ stream c ++ concat items =
        rw pushed (sym (append_assoc c.wire c.send_buffer (concat items))) in
      let fuel = suc (length (c.send_buffer ++ concat items)) in
      let enough : length c₁.send_buffer < fuel = rw pushed (omega arith) in
      elim (Bool-cases (is_empty c.send_buffer)) [
        | inl idle ↦
            let (c', done, same, s) = do_send_lem kernel ok fuel c₁ enough in
            (int32 count, c', rw (opened, idle, done), same ∙ given, s)
        | inr busy ↦ (
          int32 count,
          c₁,
          rw (opened, busy),
          given,
          rw pushed
              (elim settled [ inl e ↦ absurd (nonempty-ne c.send_buffer busy e) | inr r ↦ inr r ]),
        )
      ]
