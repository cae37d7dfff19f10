-- ===== src/Pipe/TcpPipe.antt =====
-- TcpPipe of include/pipe/tcp_pipe.h, with the sessions of PipeFactory. Sessions are known by number.
-- The listener's factory is the one that the connector shares.
use snet.Prelude.{
  chars, ℕ, ℤ, ◌+◌, ◌≡◌, refl, ap, ◌∙◌, List, Option, some, Bool, true, false, Memory, ltb, ◌==◌,
  not, ◌&&◌, bit_and, if◌then◌else◌, lookup, insert, lookup-insert, bytes_eq, bytes_eq_refl,
  bytes_key, nat_key, arith,
}
use snet.Tcp.Lifecycle.{ConnectAnswer}
use snet.Tcp.Factory.{Hooks, default_hooks}
use snet.Tcp.Listener.{Listener, connect}
use snet.Tcp.Connector.{Leads, connect-Leads}
use snet.Tcp.Listener.Socket
use snet.Tcp.Listener.Socket.{ListenAnswer, Started}

-- `user_session` of each connection, by its place; `client_running` says that the connector's worker
-- runs.
pub record TcpPipe : Type 0 where
  pub pipe_mode : ℕ
  pub pipe_map : List (List ℕ × ℕ)
  pub pipe_id : ℕ → List ℕ
  pub next_session : ℕ
  pub user_session : ℕ → Option ℕ
  pub tcp_server : Listener
  pub client_running : Bool

abbrev pub pipe_server_mode : ℕ
pipe_server_mode = 1

abbrev pub pipe_client_mode : ℕ
pipe_client_mode = 2

abbrev pub pipe_duet_mode : ℕ
pipe_duet_mode = 3

-- `pipe_mode & flag`
abbrev pub has_mode : ℕ → ℕ → Bool
has_mode mode flag = not (bit_and mode flag == 0)

-- `start`; the server listens on every interface, whatever the host.
unfoldable pub start : ListenAnswer → List ℕ → ℕ → ℕ → TcpPipe → Started × TcpPipe
start a host port mode p =
    let r = Socket.start a port (chars "0.0.0.0") p.tcp_server in
    let serves = has_mode mode pipe_server_mode && ltb 0 port in
    let p₁ = record p { pipe_mode = mode; tcp_server = if serves then r.1 else p.tcp_server } in
    let p₂ = if has_mode mode pipe_client_mode then record p₁ { client_running = true } else p₁ in
    if serves
    then elim r.0 [
      | Started.exited ↦ (Started.exited, p₁)
      | Started.listening ↦ (Started.listening, p₂)
    ]
    else (Started.listening, p₂)

-- `add_session` of PipeFactory
unfoldable pub add_session : List ℕ → ℕ → TcpPipe → TcpPipe
add_session id session p = record p { pipe_map = insert id session p.pipe_map }

-- `find_user_session` of PipeFactory; `none` is the null pointer.
unfoldable pub find_session : List ℕ → TcpPipe → Option ℕ
find_session id p = lookup id p.pipe_map

-- `add_local_pipe`: the session, and the pipe.
unfoldable pub add_local_pipe : List ℕ → TcpPipe → ℕ × TcpPipe
unfolding add_session
add_local_pipe id p =
    let session = p.next_session in
    let made = record p {
      next_session = session + 1;
      pipe_id = λ s. if s == session then id else p.pipe_id s;
    } in
    (session, add_session id session made)

-- `add_remote_pipe`: the session, and the pipe. The connector has a connection connected again.
unfoldable pub add_remote_pipe :
    Hooks → Memory → ConnectAnswer → List ℕ → List ℕ → ℕ → TcpPipe → ℕ × TcpPipe
unfolding add_local_pipe
add_remote_pipe hooks garbage answer id host port p =
    let (session, p₁) = add_local_pipe id p in
    let (place, ret, f) = connect hooks garbage true answer host port p₁.tcp_server.factory in
    (
      session,
      record p₁ {
        tcp_server = record p₁.tcp_server { factory = f };
        user_session = λ q. if q == place then some session else p₁.user_session q;
      },
    )

-- The newest connection has tried to connect to a host and a port, and carries a session.
pub record Serves (session : ℕ) (host : List ℕ) (port : ℕ) (answer : ConnectAnswer) (p : TcpPipe)
    : Type 0 where
  pub place : ℕ
  pub ret : ℤ
  pub leads : Leads host port answer place ret p.tcp_server.factory
  pub for_session : p.user_session place ≡ some session

-- `add_remote_pipe` makes a new session, which is then found under its pipe id, and leaves the
-- sessions of other ids; and a connection that carries the session, which the factory finds under the
-- connection's own id, and on whose descriptor `::connect` is called with the host and the port, if
-- the host is an address; then the descriptor is given to epoll, or closed if the call failed. Nothing
-- is set on the factory.
pub add_remote_pipe_lem :
    (garbage : Memory) (answer : ConnectAnswer) (id host : List ℕ) (port : ℕ) (p : TcpPipe)
    → let (session, p') = add_remote_pipe default_hooks garbage answer id host port p in
      (find_session id p' ≡ some session)
      × ((other : List ℕ)
          → bytes_eq id other ≡ false
          → find_session other p' ≡ find_session other p)
      × (p'.pipe_id session ≡ id)
      × Serves session host port answer p'
unfolding add_remote_pipe find_session
add_remote_pipe_lem garbage answer id host port p =
    let session = p.next_session in
    let here : (session == session) ≡ true = ground arith in
    let r = connect default_hooks garbage true answer host port p.tcp_server.factory in
    let place = r.0 in
    let itself : (place == place) ≡ true = ground arith in
    (
      lookup-insert id id session p.pipe_map
          ∙ ap (λ b. if b then some session else lookup id p.pipe_map) (bytes_eq_refl id),
      λ other ne.
          lookup-insert id other session p.pipe_map
          ∙ ap (λ b. if b then some session else lookup other p.pipe_map) ne,
      rw here refl,
      record {
        place = place;
        ret = r.1;
        leads = connect-Leads garbage answer true host port p.tcp_server.factory;
        for_session = rw itself refl;
      },
    )
