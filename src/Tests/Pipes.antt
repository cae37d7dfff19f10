-- ===== src/Tests/Pipes.antt =====
-- include/pipe: two messages that arrive in three segments.
use mathlib.Core.List.{map}
use snet.Prelude.{
  ℕ, ◌≡◌, refl, List, [], ◌∷◌, ◌++◌, none, some, true, false, pos, bytes_eq, length, take, drop,
  concat, Memory, load, arith,
}
use snet.Tcp.Framing.{IsFraming, pending}
use snet.Tcp.Stream.{HasRoom, feed, Fed, feed-Fed}
use snet.Tcp.Room.{total-HasRoom}
use snet.Pipe.Message.{PipeMsg, encode, frame_len}
use snet.Pipe.Connection.{PipeEnv, pipe_handler}
use snet.Pipe.Framing.{pipe-IsFraming, pipe-IsStable}
use snet.Pipe.Roundtrip.{IsMsg, AllForSession, call, pipe_roundtrip}
use snet.Pipe.TcpPipe.{TcpPipe, Serves, add_remote_pipe, find_session, add_remote_pipe_lem}
use snet.Tcp.Factory.{default_hooks}
use snet.Tcp.Lifecycle.{ConnectAnswer}
use snet.Tests.Connections.{open_conn, slow_kernel}
use snet.Tests.Server.{blank, listener}

abbrev id : List ℕ
id = 112 ∷ 49 ∷ []

abbrev env : PipeEnv
env = record { pipe_map = id ∷ []; user_session = some id; kernel = slow_kernel }

abbrev hello : PipeMsg
hello = record { type = 3; user = 77; body = 104 ∷ 105 ∷ [] }

abbrev bye : PipeMsg
bye = record { type = 9; user = 0; body = [] }

hello-IsMsg : IsMsg hello
hello-IsMsg = record { type_word = omega arith; user_word = omega arith; length_word = omega arith }

bye-IsMsg : IsMsg bye
bye-IsMsg = record { type_word = omega arith; user_word = omega arith; length_word = omega arith }

pipe-IsFraming_example : IsFraming (pipe_handler env) frame_len
pipe-IsFraming_example = pipe-IsFraming env

abbrev msgs : List PipeMsg
msgs = hello ∷ bye ∷ []

msgs-AllForSession : AllForSession msgs
unfolding AllForSession
msgs-AllForSession = (
  record { valid = hello-IsMsg; not_shake_hand = ground arith; not_heart_beat = ground arith },
  (record { valid = bye-IsMsg; not_shake_hand = ground arith; not_heart_beat = ground arith }, _),
)

abbrev stream : List ℕ
stream = concat (map encode msgs)

abbrev segments : List (List ℕ)
segments = take 5 stream ∷ take 20 (drop 5 stream) ∷ drop 25 stream ∷ []

segments-concat : concat segments ≡ stream
unfolding encode
segments-concat = refl

segments-length : length (concat segments) ≡ 34
unfolding encode
segments-length = refl

segments-HasRoom : HasRoom (pipe_handler env) segments open_conn
segments-HasRoom =
    total-HasRoom segments open_conn (pipe-IsFraming env) (omega (arith, segments-length))

pipe_roundtrip_example :
    (memory : Memory) × (feed (pipe_handler env) segments open_conn
      ≡ some (record open_conn { read_buffer = memory; log = call id hello ∷ call id bye ∷ [] }))
pipe_roundtrip_example =
    pipe_roundtrip env id refl msgs segments open_conn msgs-AllForSession segments-concat refl
      segments-HasRoom

nothing_waits : frame_len (pending open_conn) ≡ none
unfolding frame_len load
nothing_waits = refl

feed-Fed_example :
    Fed
      (pipe-IsFraming env)
      pipe-IsStable
      (pending open_conn ++ concat segments)
      open_conn
      (feed (pipe_handler env) segments open_conn)
feed-Fed_example =
    feed-Fed (pipe-IsFraming env) pipe-IsStable segments open_conn nothing_waits segments-HasRoom

abbrev answer : ConnectAnswer
answer = record { socket = pos 9; address_ok = true; connected = true }

abbrev no_pipe : TcpPipe
no_pipe = record {
  pipe_mode = 3;
  pipe_map = (120 ∷ [], 0) ∷ [];
  pipe_id = λ s. 120 ∷ [];
  next_session = 1;
  user_session = λ p. none;
  tcp_server = listener;
  client_running = true;
}

add_remote_pipe_lem_example :
    let (session, p) = add_remote_pipe default_hooks blank answer id (104 ∷ []) 9999 no_pipe in
    (find_session id p ≡ some session)
    × ((other : List ℕ)
        → bytes_eq id other ≡ false
        → find_session other p ≡ find_session other no_pipe)
    × (p.pipe_id session ≡ id)
    × Serves session (104 ∷ []) 9999 answer p
add_remote_pipe_lem_example = add_remote_pipe_lem blank answer id (104 ∷ []) 9999 no_pipe
