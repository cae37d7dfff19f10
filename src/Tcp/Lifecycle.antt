-- ===== src/Tcp/Lifecycle.antt =====
-- How a TcpConnection is opened, driven by epoll and closed.
use snet.Prelude.{ℕ, ℤ, minus_one, Option, some, ◌>>=◌, Bool, true, if◌then◌else◌}
use mathlib.Core.Option
use snet.Tcp.Types.{
  conn_idle, conn_open, conn_closed, NetEvent, Events, Effect, Conn, Kernel, Handler,
}
use snet.Tcp.Connection.{log_effect, status_is_idle, status_is_closing, has_sd, close, do_send}
use snet.Tcp.Input.{do_read}

-- What the operating system answers to `do_connect`.
pub record ConnectAnswer : Type 0 where
  pub socket : ℤ
  pub address_ok : Bool
  pub connected : Bool

-- `do_connect`, with what it returns.
unfoldable pub do_connect : ConnectAnswer → Conn → ℤ × Conn
do_connect a c =
    let opened = record c { conn_sd = a.socket } in
    let tried = log_effect (Effect.connect_to a.socket c.remote_host c.remote_port) opened in
    let evts = record c.epoll_events { out = true } in
    if a.address_ok
    then (if a.connected
        then (
          a.socket,
          log_effect (Effect.add_event a.socket evts) (record tried { epoll_events = evts }),
        )
        else (minus_one, log_effect (Effect.close_fd a.socket) tried))
    else (minus_one, opened)

-- `if (b) f();`
abbrev pub when : Bool → (Conn → Option Conn) → Conn → Option Conn
when b f x = if b then f x else some x

module _ (handler : Handler) where
  -- `handle_event`, a virtual method; that it is called is logged.
  unfoldable pub raise : NetEvent → Conn → Conn
  raise evt c = handler.handle_event evt (log_effect (Effect.raised evt) c)

  unfoldable pub on_ready : Conn → Conn
  unfolding raise
  on_ready c =
      if status_is_idle c.status
      then raise NetEvent.connect (record c { status = conn_open })
      else c

  -- The end of `do_close`, after EVT_DISCONNECT: the descriptor is closed, and the factory is asked
  -- to forget the connection, unless it is to be connected again.
  unfoldable pub release : Conn → Conn
  release c =
      let c' =
        if has_sd c
        then record (log_effect (Effect.close_fd c.conn_sd) c) { conn_sd = minus_one }
        else c in
      if c.need_reconnect
      then record c { status = conn_idle }
      else (if c'.has_factory then log_effect (Effect.post_remove c'.conn_id) c' else c')

  unfoldable pub do_close : Conn → Conn
  unfolding raise release
  do_close c =
      let marked = record c { status = conn_closed } in
      let c' = if c.has_worker then log_effect (Effect.del_event c.conn_sd) marked else marked in
      if status_is_closing c.status then release (raise NetEvent.disconnect c') else c

  -- The end of `process_event`: an error closes, and what is closing is closed.
  unfoldable pub settle : Bool → Conn → Conn
  unfolding do_close
  settle err c = let c' = if err then close c else c in do_close c'

  -- `process_event` for the flags in `evts`: `none` means that a loop ran out of fuel.
  unfoldable pub process_event : Kernel → ℕ → Events → Conn → Option Conn
  unfolding on_ready settle
  process_event kernel fuel evts c = do
    c₁ ← when evts.in_ (λ x. Option.map (λ r. r.1) (do_read handler kernel fuel x)) (on_ready c)
    c₂ ← when evts.out (do_send kernel fuel) c₁
    some (settle evts.err c₂)
