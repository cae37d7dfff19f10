-- ===== src/Tcp/Connector.antt =====
-- TcpConnector of include/tcp/tcp_connector.h, over its factory, and the timer of `enable_reconnect` of
-- include/tcp/tcp_connection.h.
use snet.Prelude.{
  ℕ, ◌+◌, ◌%◌, ◌^◌, ◌≡◌, refl, ap, ◌∙◌, ℤ, minus_one, List, [], ◌∷◌, ◌&&◌, Option, none, some, Bool,
  true, false, Memory, ◌==◌, if◌then◌else◌, insert, lookup, lookup-insert, nat_key, arith,
}
use snet.Tcp.Types.{Effect, Events, Conn}
use snet.Tcp.Connection.{is_open, init}
use snet.Tcp.Lifecycle.{ConnectAnswer, do_connect}
use snet.Tcp.Factory.{
  Factory, Hooks, default_hooks, create, make_conn, new_conn, add_connection, find_connection,
}
use snet.Tcp.Listener.{connect}
use snet.Url
use snet.Url.{NetUrl, StdInt}
use snet.Url.Roundtrip.{IsDecimal, IsUrl, parse-encode}

-- `default_worker` says that the connector made its worker, and `worker_runs` that it was started.
pub record TcpConnector : Type 0 where
  pub factory : Factory
  pub is_running : Bool
  pub default_worker : Bool
  pub worker_runs : Bool
  pub need_reconnect : Bool

unfoldable pub new_connector : Bool → Factory → TcpConnector
new_connector own_worker f = record {
  factory = f;
  is_running = false;
  default_worker = own_worker;
  worker_runs = false;
  need_reconnect = true;
}

-- `start`, which returns true.
unfoldable pub start : TcpConnector → TcpConnector
start c = if c.default_worker then record c { worker_runs = true } else c

unfoldable pub stop : TcpConnector → TcpConnector
stop c = record c { is_running = false }

unfoldable pub enable_reconnect : Bool → TcpConnector → TcpConnector
enable_reconnect flag c = record c { need_reconnect = flag }

-- `add_connection` of a URL: the connection, what `do_connect` returned, and the connector; `none`
-- means that an exception is thrown.
unfoldable pub add_url :
    StdInt → Hooks → Memory → ConnectAnswer → List ℕ → TcpConnector → Option (ℕ × ℤ × TcpConnector)
add_url std hooks garbage answer url c =
    elim (Url.parse std url (record { protocol = []; host = []; port = 0; params = [] })) [
      | none ↦ none
      | some (ok, u) ↦
          let (place, ret, f) =
            connect hooks garbage c.need_reconnect answer u.host u.port c.factory in
          some (place, ret, record c { factory = f })
    ]

-- The function of the timer of a connection's `enable_reconnect`.
unfoldable pub reconnect : ConnectAnswer → Conn → Conn
reconnect answer c = if is_open c then c else (do_connect answer c).1

-- The flags that a connection is added to epoll with once it is connected.
abbrev pub connect_events : Events
connect_events = record { et = true; in_ = true; out = true; err = true }

-- The calls of an attempt to connect to a host and a port: `::connect` if the host is an address, then
-- epoll's set is asked to have the descriptor, or it is closed.
abbrev pub attempt : List ℕ → ℕ → ConnectAnswer → List Effect
attempt host port answer =
    if answer.address_ok
    then Effect.connect_to answer.socket host port
      ∷ (if answer.connected
          then Effect.add_event answer.socket connect_events
          else Effect.close_fd answer.socket)
      ∷ []
    else []

-- A new connection of a factory, found under its own id, that has tried to connect to a host and a
-- port, and what `do_connect` returned of it.
pub record Leads (host : List ℕ) (port : ℕ) (answer : ConnectAnswer) (place : ℕ) (ret : ℤ)
    (f : Factory) : Type 0 where
  pub found : find_connection (f.conns place).conn_id f ≡ some place
  pub active : (f.conns place).is_passive ≡ false
  pub remote_host : (f.conns place).remote_host ≡ host
  pub remote_port : (f.conns place).remote_port ≡ port
  pub descriptor : (f.conns place).conn_sd ≡ answer.socket
  pub calls : (f.conns place).log ≡ attempt host port answer
  pub returned : ret ≡ (if answer.address_ok && answer.connected then answer.socket else minus_one)

record Tried (answer : ConnectAnswer) (c : Conn) (r : ℤ × Conn) : Type 0 where
  id : r.1.conn_id ≡ c.conn_id
  passive : r.1.is_passive ≡ c.is_passive
  remote_host : r.1.remote_host ≡ c.remote_host
  remote_port : r.1.remote_port ≡ c.remote_port
  descriptor : r.1.conn_sd ≡ answer.socket
  returned : r.0 ≡ (if answer.address_ok && answer.connected then answer.socket else minus_one)

do_connect-Tried : (answer : ConnectAnswer) (c : Conn) → Tried answer c (do_connect answer c)
unfolding do_connect
do_connect-Tried answer c = ground arith

do_connect-calls :
    (answer : ConnectAnswer) (c : Conn)
    → c.log ≡ []
    → record c.epoll_events { out = true } ≡ connect_events
    → (do_connect answer c).1.log ≡ attempt c.remote_host c.remote_port answer
unfolding do_connect
do_connect-calls answer c silent asks = ground (arith, silent, asks)

pub connect-Leads :
    (garbage : Memory) (answer : ConnectAnswer) (again : Bool) (host : List ℕ) (port : ℕ)
    (f : Factory)
    → let (place, ret, f') = connect default_hooks garbage again answer host port f in
      Leads host port answer place ret f'
unfolding connect create default_hooks make_conn new_conn add_connection find_connection init
connect-Leads garbage answer again host port f =
    let place = f.next_conn in
    let id = (f.connection_index + 1) % 2 ^ 64 in
    let here : (place == place) ≡ true = ground arith in
    let same : (id == id) ≡ true = ground arith in
    let made = record (new_conn id garbage) {
      is_passive = false;
      has_factory = true;
      need_reconnect = again;
      has_worker = true;
      remote_host = host;
      remote_port = port;
      epoll_events = record { et = true; in_ = true; out = false; err = true };
    } in
    let t = do_connect-Tried answer made in
    let r = connect default_hooks garbage again answer host port f in
    let conn : r.2.conns r.0 ≡ (do_connect answer made).1 = rw here refl in
    let map : r.2.connection_map ≡ insert id place f.connection_map = rw here refl in
    let ret : r.1 ≡ (do_connect answer made).0 = rw here refl in
    record {
      found =
          ap (λ k. lookup k r.2.connection_map) (ap (λ (c : Conn). c.conn_id) conn ∙ t.id)
          ∙ ap (λ m. lookup id m) map
          ∙ lookup-insert id id place f.connection_map
          ∙ ap (λ b. if b then some place else lookup id f.connection_map) same;
      active = ap (λ (c : Conn). c.is_passive) conn ∙ t.passive;
      remote_host = ap (λ (c : Conn). c.remote_host) conn ∙ t.remote_host;
      remote_port = ap (λ (c : Conn). c.remote_port) conn ∙ t.remote_port;
      descriptor = ap (λ (c : Conn). c.conn_sd) conn ∙ t.descriptor;
      calls = ap (λ (c : Conn). c.log) conn ∙ do_connect-calls answer made refl refl;
      returned = ret ∙ t.returned;
    }

-- `add_connection` of a URL that `encode` wrote makes a connection of the connecting kind that the
-- factory finds under the connection's own id, and calls `::connect` on its descriptor with the host and
-- the port of the URL, if the host is an address; then the descriptor is given to epoll, or closed if
-- the call failed, and the descriptor or -1 is returned. Nothing is set on the factory, `stoi` reads
-- what `to_string` writes, and the URL can be written.
pub add_url-Leads :
    (std : StdInt) (garbage : Memory) (answer : ConnectAnswer) (u : NetUrl) (c : TcpConnector)
    → IsDecimal std
    → IsUrl u
    → (place : ℕ) × (ret : ℤ) × (c' : TcpConnector) × (add_url std default_hooks garbage answer
          (Url.encode std u)
          c
        ≡ some (place, ret, c'))
      × Leads u.host u.port answer place ret c'.factory
unfolding add_url
add_url-Leads std garbage answer u c d v =
    let blank : NetUrl = record { protocol = []; host = []; port = 0; params = [] } in
    let r = connect default_hooks garbage c.need_reconnect answer u.host u.port c.factory in
    (
      r.0,
      r.1,
      record c { factory = r.2 },
      rw (add_url, parse-encode d u blank v) refl,
      connect-Leads garbage answer c.need_reconnect u.host u.port c.factory,
    )
