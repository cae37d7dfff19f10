-- ===== src/Tests/Meeting.antt =====
-- include/pipe: the two sides of a pipe meet, each message in two segments.
use snet.Prelude.{
  ℕ, ◌≡◌, refl, sym, ap, ◌∙◌, List, [], ◌∷◌, none, some, false, inl, take, drop, concat, length,
  arith,
}
use snet.Tcp.Types.{Conn, NetEvent}
use snet.Tcp.Connection.{is_open, msend, do_send, send_round, mpush}
use snet.Tcp.Stream.{feed}
use snet.Tcp.Sending.{stream}
use snet.Pipe.Message.{encode}
use snet.Pipe.Connection.{PipeEnv, pipe_handler, handle_event, send, send_shakehand}
use snet.Pipe.Handshake.{init, bind, status_after, shake}
use snet.Pipe.Meeting.{IsNew, Met, server-Met, handshake_lem}
use snet.Tests.Connections.{open_conn, slow_kernel, slow_kernel-TakesSome}

abbrev id : List ℕ
id = 112 ∷ 49 ∷ []

abbrev client : PipeEnv
client = record { pipe_map = []; user_session = some id; kernel = slow_kernel }

abbrev server : PipeEnv
server = record { pipe_map = id ∷ []; user_session = none; kernel = slow_kernel }

abbrev caller : Conn
caller = record open_conn { is_passive = false }

caller-IsNew : IsNew id caller
unfolding is_open
caller-IsNew = record {
  can = record { opened = refl; settled = inl refl; named = omega arith; small = omega arith };
  silent = refl;
  unread = refl;
}

open_conn-IsNew : IsNew id open_conn
unfolding is_open
open_conn-IsNew = record {
  can = record { opened = refl; settled = inl refl; named = omega arith; small = omega arith };
  silent = refl;
  unread = refl;
}

abbrev halves : List (List ℕ)
halves = take 5 (encode (shake id)) ∷ drop 5 (encode (shake id)) ∷ []

halves-concat : concat halves ≡ encode (shake id)
unfolding encode
halves-concat = refl

size : length (encode (shake id)) ≡ 18
unfolding encode
size = refl

said : stream (handle_event client NetEvent.connect caller) ≡ encode (shake id)
unfolding handle_event send_shakehand encode send msend do_send send_round mpush
said = refl

some-same : (x y : Conn) → some x ≡ some y → x ≡ y
some-same x y e = cc

met :
    Met client server slow_kernel-TakesSome slow_kernel-TakesSome id caller open_conn init
      (feed (pipe_handler server) halves open_conn)
met =
    server-Met client server slow_kernel-TakesSome slow_kernel-TakesSome id caller open_conn init
      halves halves-concat (omega (arith, size)) (omega arith) open_conn-IsNew refl refl

answered :
    (b' : Conn) → feed (pipe_handler server) halves open_conn ≡ some b' → concat halves ≡ stream b'
answered b' e =
    let same : met.conn ≡ b' = some-same met.conn b' (sym met.ran ∙ e) in
    halves-concat ∙ sym met.given ∙ ap stream same

handshake_lem_example :
    (a' b' : Conn) × (feed (pipe_handler server) halves open_conn ≡ some b')
    × (status_after id b'.log init ≡ bind)
    × (feed (pipe_handler client) halves (handle_event client NetEvent.connect caller) ≡ some a')
    × (status_after id a'.log init ≡ bind)
handshake_lem_example =
    handshake_lem client server slow_kernel-TakesSome slow_kernel-TakesSome id caller open_conn init
      init halves halves caller-IsNew refl refl open_conn-IsNew refl refl (omega arith)
      (halves-concat ∙ sym said) answered
