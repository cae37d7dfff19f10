-- ===== src/UserSession.antt =====
-- src/user_session.h: the session of demoserver.cpp and democlient.cpp, a class of
-- include/tcp/tcp_connection.h that sends back what it reads. `printf` is left out.
use mathlib.Core.Path.{subst}
use snet.Prelude.{
  ℕ, suc, ◌^◌, ◌<◌, ◌≡◌, refl, sym, ap, ◌∙◌, ℤ, pos, List, [], ◌∷◌, ◌++◌, none, some, true, false,
  if◌then◌else◌, inl, inr, concat, length, append-nil, Bool-cases, arith,
}
use snet.Tcp.Types.{conn_open, RecvResult, Events, Conn, Kernel, Handler}
use snet.Tcp.Connection.{status_is_idle, status_is_closing, is_open, read_buffer_size, msend}
use snet.Tcp.Lifecycle.{raise, release, do_close, settle, process_event}
use snet.Tcp.Sending.{TakesSome, IsSettled, stream, msend_lem}
use snet.Tcp.SendEnd.{msend-position}
use snet.Tcp.Whole.{arrived, process_event-one}

-- What a visit by epoll leaves of an open session: all that it was given to send, in order, with nothing
-- unread, and room to send asked for if some of it waits.
pub record Echoed (block : List ℕ) (c c' : Conn) : Type 0 where
  pub given : stream c' ≡ stream c ++ block
  pub settled : IsSettled c'
  pub empty : c'.read_pos ≡ c.read_pos

module _ (kernel : Kernel) where
  -- `send` of a block; where the fuel of `do_send` ran out the connection is as it was.
  unfoldable pub send : List ℕ → Conn → ℤ × Conn
  send bytes c =
      let fuel = suc (length (c.send_buffer ++ concat (bytes ∷ []))) in
      elim (msend kernel fuel (bytes ∷ []) c) [ none ↦ (pos 0, c) | some r ↦ r ]

  -- `handle_data`, with what it returns.
  unfoldable pub handle_data : List ℕ → Conn → ℤ × Conn
  handle_data bytes c = if c.is_passive then send bytes c else (pos (length bytes), c)

  -- UserSession overrides `handle_event` and `handle_data`.
  unfoldable pub user_session : Handler
  user_session = record {
    handle_package = λ m len. pos len;
    handle_data = λ bytes c. (handle_data bytes c).1;
    handle_event = λ evt c. c;
  }

  module _ (takes : TakesSome kernel) (b : ℕ) (bytes : List ℕ) where
    abbrev block : List ℕ
    block = b ∷ bytes

    send-Echoed :
        (c : Conn)
        → is_open c ≡ true
        → IsSettled c
        → length (c.send_buffer ++ block) < 2 ^ 32
        → Echoed block c (send block c).1
    unfolding send
    send-Echoed c opened settled fits =
        let one : concat (block ∷ []) ≡ block = append-nil block in
        let (n, c', sent, given, done) =
          msend_lem kernel takes (block ∷ []) c opened settled (omega arith, _) (rw one fits) in
        rw (send, sent)
          (record {
            given = given ∙ ap (λ t. stream c ++ t) one;
            settled = done;
            empty = msend-position kernel _ (block ∷ []) c c' n sent;
          })

    handle_data-Echoed :
        (c : Conn)
        → c.is_passive ≡ true
        → is_open c ≡ true
        → IsSettled c
        → length (c.send_buffer ++ block) < 2 ^ 32
        → Echoed block c (handle_data block c).1
    unfolding handle_data
    handle_data-Echoed c passive opened settled fits =
        subst (λ p. Echoed block c (if p then send block c else (pos (length block), c)).1)
          (sym passive) (send-Echoed c opened settled fits)

  do_close-Echoed :
      (block : List ℕ) (c d : Conn) → Echoed block c d → Echoed block c (do_close user_session d)
  unfolding do_close raise release user_session
  do_close-Echoed block c d e = elim (Bool-cases (status_is_closing d.status)) [
    | inr still ↦ rw still e
    | inl closing ↦ rw closing (record {
      given = ground (arith, e.given);
      settled = inr (inr (ground arith));
      empty = ground (arith, e.empty);
    })
  ]

  module _ (takes : TakesSome kernel) (fuel b : ℕ) (bytes : List ℕ) (c : Conn) where
    -- A block that epoll reports on an open, settled session that another side has opened, with nothing
    -- unread: `process_event` ends, with the block given to send once behind what was there, nothing
    -- unread, and what could not be sent at once waiting for room, unless the session is closed. The
    -- kernel takes some of what it is given, and the block fits.
    pub process_event-Echoed :
        (evts : Events)
        → evts.in_ ≡ true
        → evts.out ≡ false
        → evts.err ≡ false
        → c.is_passive ≡ true
        → is_open c ≡ true
        → c.status ≡ conn_open
        → c.read_pos ≡ 0
        → IsSettled c
        → length (c.send_buffer ++ (b ∷ bytes)) < 2 ^ 32
        → kernel.recv c.recvs read_buffer_size ≡ RecvResult.received (b ∷ bytes)
        → (c' : Conn) × (process_event user_session kernel (suc fuel) evts c ≡ some c')
          × Echoed (b ∷ bytes) c c'
    unfolding settle user_session is_open
    process_event-Echoed evts readable no_out no_err passive opened status empty settled fits got =
        let block = b ∷ bytes in
        let a = arrived block c in
        let e = handle_data-Echoed takes b bytes a passive opened settled fits in
        let h = (handle_data block a).1 in
        let d = record h { read_pos = 0 } in
        let clear : Echoed block c d = record {
          given = e.given;
          settled = e.settled;
          empty = sym empty;
        } in
        let started : status_is_idle c.status ≡ false = ap status_is_idle status in
        (
          do_close user_session d,
          process_event-one user_session (λ m n. refl) kernel fuel b bytes c evts readable no_out
                started empty got e.empty
              ∙ ap (λ t. some (settle user_session t d)) no_err,
          do_close-Echoed block c d clear,
        )
