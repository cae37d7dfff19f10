-- ===== src/Pipe/Connection.antt =====
-- PipeConnection of include/pipe/pipe_connection.h, PipeFactory's session map and PipeSession's
-- `on_ready`, as the virtual methods of a TcpConnection.
use snet.Prelude.{
  ℕ, suc, List, [], ◌∷◌, ◌++◌, Option, none, some, Bool, false, ◌||◌, length, take, drop, ltb, ◌==◌,
  if◌then◌else◌, concat, bytes_eq,
}
use snet.Tcp.Types.{Conn, Kernel, Handler, NetEvent, Effect, SessionCall}
use snet.Tcp.Connection.{log_effect, msend}
use snet.Pipe.Message.{
  head_size, get_le, at, encode_head, handle_package, pipe_msg_shake_hand, pipe_msg_heart_beat,
}

-- What a PipeConnection refers to: the ids under which the factory's `pipe_map` has a session that is
-- not null, and `user_session` by its pipe id, which may be null. Neither is changed by the connection.
pub record PipeEnv : Type 0 where
  pub pipe_map : List (List ℕ)
  pub user_session : Option (List ℕ)
  pub kernel : Kernel

-- `find_user_session`, tested for the null pointer: `pipe_map` lists the ids under which a session is
-- stored that is not null.
abbrev pub find_user_session : List ℕ → List (List ℕ) → Bool
find_user_session id [] = false
find_user_session id (key ∷ keys) = bytes_eq key id || find_user_session id keys

-- A `msend` whose result is ignored. The fuel is one more than the bytes that can wait.
unfoldable pub send : Kernel → List (List ℕ) → Conn → Conn
send kernel items c = elim (msend kernel (suc (length (c.send_buffer ++ concat items))) items c) [
  | none ↦ c
  | some (_, c') ↦ c'
]

-- The fields of a received message.
abbrev pub msg_length : List ℕ → ℕ
msg_length frame = get_le 4 (at frame) 0

abbrev pub msg_type : List ℕ → ℕ
msg_type frame = get_le 4 (at frame) 4

abbrev pub msg_user : List ℕ → ℕ
msg_user frame = get_le 8 (at frame) 8

abbrev pub msg_body : List ℕ → List ℕ
msg_body frame = take (msg_length frame) (drop head_size frame)

module _ (env : PipeEnv) where
  unfoldable pub send_heartbeat : List ℕ → Conn → Conn
  send_heartbeat msg c =
      send env.kernel (encode_head (length msg) pipe_msg_heart_beat 0 ∷ msg ∷ []) c

  unfoldable pub send_shakehand : List ℕ → Conn → Conn
  send_shakehand id c = send env.kernel (encode_head (length id) pipe_msg_shake_hand 0 ∷ id ∷ []) c

  unfoldable pub process_client_handshake : List ℕ → Conn → Conn
  process_client_handshake frame c =
      if ltb 0 (msg_length frame)
      then elim env.user_session [
        | none ↦ c
        | some id ↦ log_effect (Effect.session id SessionCall.on_ready) c
      ]
      else c

  unfoldable pub process_server_handshake : List ℕ → Conn → Conn
  process_server_handshake frame c =
      let id = msg_body frame in
      let ready =
        log_effect (Effect.session id (SessionCall.handle_event 1))
          (log_effect (Effect.session id SessionCall.on_ready) c) in
      if ltb 0 (msg_length frame)
      then send_shakehand id (if find_user_session id env.pipe_map then ready else c)
      else c

  -- The last lines of `handle_data`: a null `user_session` is dereferenced.
  unfoldable pub to_session : List ℕ → Conn → Conn
  to_session frame c = elim env.user_session [
    | none ↦ log_effect Effect.null_session c
    | some id ↦
        log_effect
          (Effect.session id (SessionCall.handle_message (msg_body frame) (msg_user frame))) c
  ]

  unfoldable pub handle_data : List ℕ → Conn → Conn
  handle_data frame c =
      if msg_type frame == pipe_msg_shake_hand
      then (if c.is_passive
          then process_server_handshake frame c
          else process_client_handshake frame c)
      else (if msg_type frame == pipe_msg_heart_beat
          then (if c.is_passive then send_heartbeat [] c else c)
          else to_session frame c)

  -- `handle_event`: the side that connects says which pipe it is.
  unfoldable pub handle_event : NetEvent → Conn → Conn
  handle_event NetEvent.disconnect c = c
  handle_event NetEvent.connect c = if c.is_passive then c else elim env.user_session [
    | none ↦ log_effect Effect.null_session c
    | some id ↦ send_shakehand id c
  ]

  unfoldable pub pipe_handler : Handler
  pipe_handler = record {
    handle_package = handle_package;
    handle_data = handle_data;
    handle_event = handle_event;
  }
