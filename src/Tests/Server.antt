-- ===== src/Tests/Server.antt =====
-- include/tcp/tcp_factory.h and tcp_listener.h: a factory with one connection, and three clients for
-- two workers.
use mathlib.Core.List.{map}
use snet.Tcp.Connection.{is_open}
use snet.Prelude.{
  ◌==◌, if◌then◌else◌, inl, inr, ℕ, ◌≡◌, refl, ℤ, pos, minus_one, false, List, [], ◌∷◌, none, some,
  true, Memory, arith, nat_key,
}
use snet.Tcp.Factory.{
  Factory, new_conn, IsFactory, default_hooks, create, release, find_connection, create-IsFactory,
}
use snet.Tcp.Listener.Socket.{
  ListenAnswer, Started, Owner, start_on, stop_it, own_all, IsGranted, closed, opening,
  own_all-open,
}
use snet.Tcp.Listener.Broadcast.{broadcast, AllTold, broadcast-AllTold}
use snet.Tests.Connections.{idle_conn, open_conn, slow_kernel, slow_kernel-TakesSome}
use snet.Http.Server as HttpServers
use snet.Http.Server.{HttpServer}
use snet.Url.Words.{Lacks}
use snet.Tests.Urls.{std, std-IsDecimal, url, url-IsUrl}
use snet.Url.{encode}
use snet.Tcp.Lifecycle.{ConnectAnswer}
use snet.Tcp.Connector.{TcpConnector, new_connector, add_url, Leads, add_url-Leads}
use snet.Tcp.Listener.{Listener, accept_all, turns, worker_of, accept_all_lem}

abbrev pub blank : Memory
blank i = 0

abbrev pub one_conn : Factory
one_conn = record {
  conns = λ p. new_conn 1025 blank;
  next_conn = 1;
  connection_map = (1025, 0) ∷ [];
  connection_index = 1025;
}

one_conn-IsFactory : IsFactory one_conn
unfolding IsFactory new_conn
one_conn-IsFactory cid p found = ground arith

create-IsFactory_example :
    let (p, f) = create default_hooks blank true one_conn in
    let cid = (f.conns p).conn_id in
    IsFactory f
    × (find_connection cid one_conn ≡ none)
    × (find_connection cid f ≡ some p)
    × (find_connection cid (release default_hooks p f) ≡ none)
    × IsFactory (release default_hooks p f)
create-IsFactory_example = create-IsFactory blank true one_conn one_conn-IsFactory (omega arith)

abbrev pub listener : Listener
listener = record {
  factory = one_conn;
  worker_index = 0;
  tcp_workers = 10 ∷ 20 ∷ [];
  listen_worker = 5;
  listen_sd = minus_one;
  is_running = false;
  listen_addr = [];
  running = λ w. true;
  calls = [];
  assigned = λ p. 0;
  added = [];
}

abbrev clients : List (ℤ × List ℕ × ℕ)
clients = (pos 8, [], 4000) ∷ (pos 9, [], 4001) ∷ (pos 11, [], 4002) ∷ []

three_turns : turns (10 ∷ 20 ∷ []) 0 3 ≡ 20 ∷ 10 ∷ 20 ∷ []
unfolding turns
three_turns = refl

accept_all_lem_example :
    map worker_of (accept_all default_hooks blank clients listener).added ≡ turns (10 ∷ 20 ∷ []) 0 3
accept_all_lem_example =
    accept_all_lem default_hooks blank clients listener (omega arith) (omega arith) (omega arith)

abbrev granted : ListenAnswer
granted = record { socket = pos 3; reuse_ok = true; bind_ok = true; listen_ok = true }

granted-IsGranted : IsGranted granted
granted-IsGranted = record { socket = 3; opened = refl; reuse = refl; bind = refl; listen = refl }

abbrev owner : List Owner
owner = start_on granted 80 [] ∷ stop_it ∷ start_on granted 81 [] ∷ stop_it ∷ []

own_all-open_example :
    (closed (own_all owner listener).calls ≡ 0) × ((own_all owner listener).is_running ≡ false)
own_all-open_example = own_all-open owner listener (granted-IsGranted, (granted-IsGranted, tt)) refl

-- A connection that is open and one that is not.
abbrev two_conns : Listener
two_conns = record listener {
  factory = record one_conn {
    conns = λ p. if p == 0 then open_conn else idle_conn;
    next_conn = 2;
    connection_map = (1025, 0) ∷ (1026, 1) ∷ [];
  };
}

open_conn-shut : is_open idle_conn ≡ false
unfolding is_open
open_conn-shut = refl

broadcast-AllTold_example :
    (l : Listener) × (broadcast slow_kernel (1 ∷ 2 ∷ 3 ∷ []) two_conns ≡ some l)
    × AllTold (1 ∷ 2 ∷ 3 ∷ []) two_conns.factory l.factory ((1025, 0) ∷ (1026, 1) ∷ [])
    × (l.factory.connection_map ≡ (1025, 0) ∷ (1026, 1) ∷ [])
broadcast-AllTold_example =
    broadcast-AllTold slow_kernel-TakesSome (1 ∷ 2 ∷ 3 ∷ []) (omega arith) two_conns
      ((λ e. omega arith, tt), (tt, tt)) (inr (inl refl, omega arith), (inl open_conn-shut, tt))

abbrev server : HttpServer
server = record { http_listener = listener; next_worker = 30 }

host-Lacks : Lacks 58 (104 ∷ []) × Lacks 63 (104 ∷ [])
unfolding Lacks
host-Lacks = ground arith

start_lem_example :
    HttpServers.start std granted 8 (104 ∷ []) server
    ≡ some (
      Started.listening,
      record server {
        http_listener = record listener {
          listen_addr = 104 ∷ [];
          listen_sd = pos 3;
          calls = opening granted 8 (104 ∷ []) listener;
        };
      },
    )
start_lem_example =
    HttpServers.start_lem std-IsDecimal granted 8 (104 ∷ []) server host-Lacks.0 host-Lacks.1
      (omega arith) (omega arith) granted-IsGranted

abbrev connector : TcpConnector
connector = new_connector true one_conn

abbrev unreachable : ConnectAnswer
unreachable = record { socket = pos 9; address_ok = true; connected = false }

add_url-Leads_example :
    (place : ℕ) × (ret : ℤ) × (c : TcpConnector) × (add_url std default_hooks blank unreachable
        (encode std url)
        connector
      ≡ some (place, ret, c))
    × Leads (104 ∷ []) 8 unreachable place ret c.factory
add_url-Leads_example = add_url-Leads std blank unreachable url connector std-IsDecimal url-IsUrl
