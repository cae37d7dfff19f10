-- ===== src/Tcp/Reconnect.antt =====
-- `enable_reconnect` of include/tcp/tcp_connection.h: a timer of the worker connects again what is
-- not open.
use snet.Prelude.{
  ℕ, suc, ◌+◌, ◌≡◌, pos, List, [], ◌∷◌, ◌++◌, Option, some, ◌>>=◌, Bool, true, false, if◌then◌else◌,
}
use snet.Timer.MinHeap.{StdHeap}
use snet.Timer.HeapTimer.{HeapTimer, TimerEnv, start_timer}
use snet.Tcp.Types.{conn_idle, conn_open, NetEvent, Events, Effect, Conn, Kernel}
use snet.Tcp.Connection.{is_open}
use snet.Tcp.Lifecycle.{ConnectAnswer, do_connect, process_event}
use snet.Tcp.Sending.{stream}
use snet.Tcp.Status.{default_handler, times, is_connect, is_disconnect, is_close}

-- `enable_reconnect`: the timer's handler is known by its number.
unfoldable pub enable_reconnect : StdHeap → TimerEnv → ℕ → ℕ → Conn → HeapTimer → Conn × HeapTimer
enable_reconnect std env handler interval c t =
    (record c { need_reconnect = true }, (start_timer std env handler interval true t).1)

-- The handler of that timer: it asks to be called again.
unfoldable pub on_timeout : ConnectAnswer → Conn → Bool × Conn
on_timeout a c = (true, if is_open c then c else (do_connect a c).1)

-- An event that reports an error only, and the first event of a descriptor that can be written to.
abbrev pub reset_event : Events
reset_event = record { et = true; in_ = false; out = false; err = true }

abbrev pub writable_event : Events
writable_event = record { et = true; in_ = false; out = true; err = false }

module _ (kernel : Kernel) (fuel : ℕ) where
  -- The peer resets the connection; the timer connects it again; its first event comes. `none` means
  -- that `do_send` ran out of fuel.
  unfoldable pub cycle : ConnectAnswer → Conn → Option Conn
  unfolding on_timeout
  cycle a c = do
    gone ← process_event default_handler kernel fuel reset_event c
    process_event default_handler kernel fuel writable_event (on_timeout a gone).1

  unfoldable pub cycles : List ConnectAnswer → Conn → Option Conn
  unfolding cycle
  cycles [] c = some c
  cycles (a ∷ answers) c = cycle a c >>= λ d. cycles answers d

-- The address is well formed, and the peer accepts.
pub record IsReached (a : ConnectAnswer) : Type 0 where
  pub sd : ℕ
  pub socket : a.socket ≡ pos (suc sd)
  pub address : a.address_ok ≡ true
  pub accepted : a.connected ≡ true

abbrev pub AllReached : List ConnectAnswer → Type 0
AllReached [] = Unit
AllReached (a ∷ answers) = IsReached a × AllReached answers

abbrev pub is_add : Effect → Bool
is_add (Effect.add_event sd evts) = true
is_add _ = false

-- The events of epoll that a connection asks for once it is connected.
abbrev asks : Conn → Events
asks c = record c.epoll_events { out = true }

-- An open connection of a worker that is to be connected again.
pub record IsKept (c : Conn) : Type 0 where
  pub opened : c.status ≡ conn_open
  pub worker : c.has_worker ≡ true
  pub reconnect : c.need_reconnect ≡ true

abbrev known : Conn → Conn
known c = record c { status = conn_open; has_worker = true; need_reconnect = true }

-- The connection after a reset.
abbrev gone : Conn → Conn
gone c = record c {
  status = conn_idle;
  epoll_events = asks c;
  log =
      ((c.log ++ (Effect.mod_event c.conn_sd (asks c) ∷ [])) ++ (Effect.del_event c.conn_sd ∷ []))
      ++ (Effect.raised NetEvent.disconnect ∷ []);
}

-- The connection after the timer's call, when the first event has been taken up.
abbrev back : ConnectAnswer → Conn → Conn
back a c = record c {
  conn_sd = a.socket;
  status = conn_open;
  epoll_events = asks c;
  log =
      ((c.log ++ (Effect.connect_to a.socket c.remote_host c.remote_port ∷ []))
        ++ (Effect.add_event a.socket (asks c) ∷ []))
      ++ (Effect.raised NetEvent.connect ∷ []);
}

-- A cycle brings an open connection back, with what waited sent to the new peer, and what it adds to
-- the log.
record Cycled (a : ConnectAnswer) (c t : Conn) : Type 0 where
  kept : IsKept t
  sent : t.send_buffer ≡ []
  given : stream t ≡ stream c
  unread : (t.read_pos ≡ c.read_pos) × (t.read_buffer ≡ c.read_buffer)
  ups : times is_connect t.log ≡ times is_connect c.log + 1
  downs : times is_disconnect t.log ≡ times is_disconnect c.log + 1
  adds : times is_add t.log ≡ times is_add c.log + 1
  shuts : times is_close t.log ≡ times is_close c.log
