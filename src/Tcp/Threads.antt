-- ===== src/Tcp/Threads.antt =====
-- Threads that call `msend` on one connection of include/tcp/tcp_connection.h while its worker
-- handles events. A turn of a thread is the test of `is_open`, what it does under the write mutex at
-- once (the push, or one round of `do_send`), or one step of `close` and `do_close`, which take no
-- mutex: a test and the status it sets, the flags that epoll is told, the call that leaves epoll's set,
-- EVT_DISCONNECT, and the end of `do_close`.
pub mod Sums
pub mod Steps
pub mod Shut
pub mod Order
use snet.Prelude.{
  ℕ, true, false, List, [], ◌∷◌, ◌++◌, Option, none, some, Bool, set, get_elem?, concat,
  if◌then◌else◌,
}
use snet.Tcp.Types.{conn_closing, conn_closed, NetEvent, Effect, Conn, Kernel}
use snet.Tcp.Connection.{
  is_empty, is_open, status_before_closing, status_is_closing, log_effect, notify_send, mpush,
  send_round,
}
use snet.Tcp.Lifecycle.{raise, release}
use snet.Tcp.Status.{default_handler}

-- Where a thread stands: before the test of `is_open`, before the push, before a round of `do_send`; in
-- `close`, before its test or before `notify_send`, with whether `do_close` follows; in `do_close`,
-- before its test, `del_event`, EVT_DISCONNECT or what comes after it; or at the end.
pub data Stage : Type 0 where
  calling pushing : List (List ℕ) → Stage
  sending finished : Stage
  marking notifying : Bool → Stage
  leaving unwatching raising releasing : Stage

-- The connection, the threads, and what was pushed, in the order in which it was.
pub record Pool : Type 0 where
  pub conn : Conn
  pub threads : List Stage
  pub given : List ℕ

-- What may happen next: a call of `msend` begins, the worker begins the `do_send` of an EPOLLOUT
-- event, a thread begins `close`, the worker begins the end of an event, or the thread at a place has
-- its turn.
pub data Action : Type 0 where
  call : List (List ℕ) → Action
  writable shut : Action
  settled : Bool → Action
  turn : ℕ → Action

-- What a turn adds to the bytes pushed.
abbrev pub pushed : Stage → List ℕ
pushed (pushing items) = concat items
pushed _ = []

module _ (kernel : Kernel) where
  unfoldable pub advance : Stage → Conn → Stage × Conn
  advance (calling items) c = (if is_open c then pushing items else finished, c)
  advance (pushing items) c =
      (if is_empty c.send_buffer then sending else finished, (mpush items c).1)
  advance sending c =
      let (c', again) = send_round kernel c in (if again then sending else finished, c')
  advance finished c = (finished, c)
  advance (marking ends) c =
      if status_before_closing c.status
      then (notifying ends, record c { status = conn_closing })
      else (if ends then leaving else finished, c)
  advance (notifying ends) c = (if ends then leaving else finished, notify_send c)
  advance leaving c =
      if status_is_closing c.status
      then (unwatching, record c { status = conn_closed })
      else (finished, c)
  advance unwatching c =
      (raising, if c.has_worker then log_effect (Effect.del_event c.conn_sd) c else c)
  advance raising c = (releasing, raise default_handler NetEvent.disconnect c)
  advance releasing c = (finished, release default_handler c)

  unfoldable pub take_turn : ℕ → Option Stage → Pool → Pool
  unfolding advance
  take_turn i none p = p
  take_turn i (some stage) p =
      let (stage', c) = advance stage p.conn in
      record p { conn = c; threads = set p.threads i stage'; given = p.given ++ pushed stage }

  unfoldable pub act : Action → Pool → Pool
  unfolding take_turn
  act (call items) p = record p { threads = calling items ∷ p.threads }
  act writable p = record p { threads = sending ∷ p.threads }
  act shut p = record p { threads = marking false ∷ p.threads }
  act (settled err) p = record p { threads = (if err then marking true else leaving) ∷ p.threads }
  act (turn i) p = take_turn i (get_elem? p.threads i) p

  unfoldable pub run : List Action → Pool → Pool
  unfolding act
  run [] p = p
  run (a ∷ schedule) p = run schedule (act a p)
