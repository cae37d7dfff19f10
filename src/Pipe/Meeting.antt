-- ===== src/Pipe/Meeting.antt =====
-- The handshake of include/pipe between two connections, whatever the segments of its bytes.
use mathlib.Core.List.{map}
use snet.Prelude.{
  inl, inr, ◌∙◌, ℕ, ◌+◌, ◌^◌, ◌≤◌, ◌<◌, ◌≡◌, refl, sym, ap, ◌∙◌, List, [], ◌∷◌, ◌++◌, Option, none,
  some, true, false, length, append-nil, concat, Memory, arith,
}
use snet.Tcp.Types.{Conn, Effect, SessionCall, NetEvent}
use snet.Tcp.Connection.{read_buffer_size, is_open, log_effect}
use snet.Tcp.Framing.{Cut-cast, deliver, pending}
use snet.Tcp.Stream.{feed, feed-Fed}
use snet.Tcp.Room.{total-HasRoom}
use snet.Tcp.Sending.{told, told-append, TakesSome, stream, IsSettled}
use snet.Tcp.Keeps.{Keeps-refl, Keeps-trans, log_effect-Keeps}
use snet.Pipe.Message.{PipeMsg, encode, frame_len}
use snet.Pipe.Connection.{
  PipeEnv, find_user_session, send_shakehand, handle_data, handle_event, pipe_handler,
}
use snet.Pipe.Framing.{pipe-IsFraming, pipe-IsStable}
use snet.Pipe.Roundtrip.{IsMsg, AllMsg, Cut-unique, Cut-encode, pending-nil, length-encode}
use snet.Pipe.Handshake.{
  PipeStatus, bind, status_after, ready-bound, shake, shake-IsMsg, CanShake, items, ready,
  send_shakehand-Shaken, connect_lem, server_lem, client_lem,
}
use snet.Pipe.Side.{send_passive, send_position}

-- One message that arrives in any segments is handed to `handle_data`.
one_message :
    (env : PipeEnv) (msg : PipeMsg) (segments : List (List ℕ)) (c : Conn)
    → IsMsg msg
    → concat segments ≡ encode msg
    → c.read_pos ≡ 0
    → length (encode msg) ≤ read_buffer_size
    → (memory : Memory) × (feed (pipe_handler env) segments c
        ≡ some (record (handle_data env (encode msg) c) { read_buffer = memory; read_pos = 0 }))
unfolding AllMsg deliver pipe_handler
one_message env msg segments c v sent start fits =
    let nothing : pending c ≡ [] = pending-nil c start in
    let short : frame_len (pending c) ≡ none = ap frame_len nothing ∙ (unfold frame_len in refl) in
    let room = total-HasRoom segments c (pipe-IsFraming env) (omega (arith, ap length sent)) in
    let r = feed-Fed (pipe-IsFraming env) pipe-IsStable segments c short room in
    let bytes : pending c ++ concat segments ≡ concat (map encode (msg ∷ [])) =
      ap (λ t. t ++ concat segments) nothing ∙ sent ∙ sym (append-nil (encode msg)) in
    let (frames, rest) = Cut-unique (Cut-cast r.cut bytes refl) (Cut-encode (msg ∷ []) (v, tt)) in
    (
      r.memory,
      r.result ∙ λ i. some (record (deliver (pipe_handler env) (frames i) c) {
        read_buffer = r.memory;
        read_pos = length (rest i);
      }),
    )

-- A side of a pipe before its handshake: it is open and settled, and nothing was sent or received.
pub record IsNew (id : List ℕ) (c : Conn) : Type 0 where
  pub can : CanShake id c
  pub silent : stream c ≡ []
  pub unread : c.read_pos ≡ 0

module _ (client server : PipeEnv) (client_ok : TakesSome client.kernel)
    (server_ok : TakesSome server.kernel) (id : List ℕ) (a b : Conn) where
  -- What the server makes of the bytes of the client.
  pub record Met (s : PipeStatus) (run : Option Conn) : Type 0 where
    pub conn : Conn
    pub ran : run ≡ some conn
    pub bound : status_after id conn.log s ≡ bind
    pub given : stream conn ≡ encode (shake id)
    pub settled : IsSettled conn

  told-ready : told false (ready id b).log ≡ told false b.log
  unfolding told
  told-ready =
      let up = b.log ++ (Effect.session id SessionCall.on_ready ∷ []) in
      told-append false up (Effect.session id (SessionCall.handle_event 1) ∷ [])
      ∙ told-append false b.log (Effect.session id SessionCall.on_ready ∷ [])

  ready-IsSettled : IsSettled b → IsSettled (ready id b)
  ready-IsSettled h = elim h [
    | inl none_wait ↦ inl none_wait
    | inr (inl asked) ↦ inr (inl (told-ready ∙ asked))
    | inr (inr shut) ↦ inr (inr shut)
  ]

  pub server-Met :
      (s : PipeStatus) (segments : List (List ℕ))
      → concat segments ≡ encode (shake id)
      → length (encode (shake id)) ≤ read_buffer_size
      → length id < 2 ^ 32
      → IsNew id b
      → b.is_passive ≡ true
      → find_user_session id server.pipe_map ≡ true
      → Met s (feed (pipe_handler server) segments b)
  server-Met s segments sent fits small v passive known =
      let (memory, ran) =
        one_message server (shake id) segments b (shake-IsMsg id small) sent v.unread fits in
      let can = v.can in
      let c = ready id b in
      let can' : CanShake id c = record {
        opened = unfold is_open in can.opened;
        settled = ready-IsSettled can.settled;
        named = can.named;
        small = can.small;
      } in
      let made = server_lem server id b can.named small passive known in
      let d = send_shakehand server id c in
      let shaken = send_shakehand-Shaken server server_ok id c can' in
      let up = log_effect (Effect.session id SessionCall.on_ready) b in
      let calls =
        Keeps-trans (log_effect-Keeps (Effect.session id (SessionCall.handle_event 1)) up)
          shaken.keeps in
      record {
        conn = record d { read_buffer = memory; read_pos = 0 };
        ran = ran ∙ ap (λ (x : Conn). some (record x { read_buffer = memory; read_pos = 0 })) made;
        bound = ready-bound id s b d calls;
        given = shaken.given ∙ ap (λ t. t ++ encode (shake id)) v.silent;
        settled = shaken.settled;
      }

  -- The client once its connection is up.
  abbrev pub greeting : Conn
  greeting = handle_event client NetEvent.connect a

  -- A client and a server that are new, of which the client has the session `id` and the server knows
  -- it, bind it on both sides, whatever the segments in which the bytes of each reach the other:
  -- the client's message when its connection is up makes the server's session ready, and the
  -- server's answer makes the client's ready. The message fits the input buffer, and each kernel
  -- takes at least one byte of a block and no more than the block.
  pub handshake_lem :
      (s s' : PipeStatus) (out back : List (List ℕ))
      → IsNew id a
      → a.is_passive ≡ false
      → client.user_session ≡ some id
      → IsNew id b
      → b.is_passive ≡ true
      → find_user_session id server.pipe_map ≡ true
      → 16 + length id ≤ read_buffer_size
      → concat out ≡ stream (handle_event client NetEvent.connect a)
      → ((b' : Conn) → feed (pipe_handler server) out b ≡ some b' → concat back ≡ stream b')
      → (a' b' : Conn) × (feed (pipe_handler server) out b ≡ some b')
        × (status_after id b'.log s ≡ bind)
        × (feed (pipe_handler client) back (handle_event client NetEvent.connect a) ≡ some a')
        × (status_after id a'.log s' ≡ bind)
  unfolding send_shakehand
  handshake_lem s s' out back va active mine vb passive known fits sent answered =
      let up = connect_lem client client_ok id a mine active in
      let first = send_shakehand-Shaken client client_ok id a va.can in
      let said : stream greeting ≡ encode (shake id) =
        ap stream up ∙ first.given ∙ ap (λ t. t ++ encode (shake id)) va.silent in
      let size : length (encode (shake id)) ≤ read_buffer_size =
        omega (arith, length-encode (shake id)) in
      let met = server-Met s out (sent ∙ said) size (omega arith) vb passive known in
      let (memory, ran) =
        one_message client (shake id) back greeting (shake-IsMsg id (omega arith))
          (answered met.conn met.ran ∙ met.given)
          (ap (λ x. x.read_pos) up ∙ send_position client.kernel (items id) a ∙ va.unread) size in
      let still : greeting.is_passive ≡ false =
        ap (λ x. x.is_passive) up ∙ send_passive client.kernel (items id) a ∙ active in
      let made = client_lem client id greeting va.can.named (omega arith) still mine in
      let c = log_effect (Effect.session id SessionCall.on_ready) greeting in
      (
        record c { read_buffer = memory; read_pos = 0 },
        met.conn,
        met.ran,
        met.bound,
        ran ∙ ap (λ (x : Conn). some (record x { read_buffer = memory; read_pos = 0 })) made,
        ready-bound id s' greeting c (Keeps-refl c),
      )
