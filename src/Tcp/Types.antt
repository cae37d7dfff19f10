-- ===== src/Tcp/Types.antt =====
-- The types of include/tcp/tcp_connection.h and snet_handler.h, and what the operating system
-- answers. A descriptor, as any C int, may be -1.
use snet.Prelude.{ℕ, ℤ, List, Memory, Bool}

pub data ConnStatus : Type 0 where
  conn_idle conn_open conn_closing conn_closed : ConnStatus

-- The events of NetEvent that a connection raises.
pub data NetEvent : Type 0 where
  connect disconnect : NetEvent

-- The set of epoll flags in `epoll_events`.
pub record Events : Type 0 where
  pub et : Bool
  pub in_ : Bool
  pub out : Bool
  pub err : Bool

-- The calls on a user session of a pipe: `on_ready`, `handle_event` and `handle_message` with the
-- body and the user data of a message.
pub data SessionCall : Type 0 where
  on_ready : SessionCall
  handle_event : ℕ → SessionCall
  handle_message : List ℕ → ℕ → SessionCall

-- The calls that a connection makes on others, in order. `connect_to` is `::connect` to an address. A
-- session is known by its pipe id; a call through a null session pointer is undefined.
pub data Effect : Type 0 where
  mod_event : ℤ → Events → Effect
  add_event : ℤ → Events → Effect
  del_event : ℤ → Effect
  close_fd : ℤ → Effect
  raised : NetEvent → Effect
  post_remove : ℕ → Effect
  session : List ℕ → SessionCall → Effect
  null_session : Effect
  connect_to : ℤ → List ℕ → ℕ → Effect

-- `::send`: the count it returns, EAGAIN or EWOULDBLOCK, or another error.
pub data SendResult : Type 0 where
  sent : ℕ → SendResult
  would_block failed : SendResult

-- `::recv`: the bytes that it stores (none at the end of the stream), or an error.
pub data RecvResult : Type 0 where
  received : List ℕ → RecvResult
  would_block failed : RecvResult

-- TcpConnection. `wire` is what the kernel has taken so far; `sends` and `recvs` count the system
-- calls, so that each has an answer of its own.
pub record Conn : Type 0 where
  pub status : ConnStatus
  pub conn_sd : ℤ
  pub need_reconnect : Bool
  pub is_passive : Bool
  pub has_worker : Bool
  pub has_factory : Bool
  pub conn_id : ℕ
  pub remote_host : List ℕ
  pub remote_port : ℕ
  pub epoll_events : Events
  pub send_buffer : List ℕ
  pub read_buffer : Memory
  pub read_pos : ℕ
  pub wire : List ℕ
  pub sends : ℕ
  pub recvs : ℕ
  pub log : List Effect

-- What the kernel answers to the n-th call, for the bytes offered or the room given.
pub record Kernel : Type 0 where
  pub send : ℕ → List ℕ → SendResult
  pub recv : ℕ → ℕ → RecvResult

-- The virtual methods of a connection class. `handle_package` reads the buffer from a position on
-- and is told a length; the others may change the connection.
pub record Handler : Type 0 where
  pub handle_package : Memory → ℕ → ℤ
  pub handle_data : List ℕ → Conn → Conn
  pub handle_event : NetEvent → Conn → Conn
