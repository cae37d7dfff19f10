-- ===== src/Pipe/Framing.antt =====
-- PipeConnection's `handle_package` cuts the stream as the wire format says, although it is told a
-- length that may pass the end of the bytes.
use snet.Prelude.{
  ℕ, zero, suc, ◌+◌, ◌*◌, ◌≤◌, ◌<◌, ◌≡◌, pos_part, refl, ap, ap₂, ◌∙◌, List, [], ◌∷◌, ◌++◌, none,
  some, ◌⊎◌, inl, inr, length, get_or, get_or-load, length-append, Memory, load, load-length, ltb,
  Bool-cases, concat, arith,
}
use snet.Tcp.Types.{Conn, Kernel}
use snet.Tcp.Connection.{read_buffer_size}
use snet.Tcp.Framing.{IsFraming}
use snet.Tcp.Stream.{IsStable}
use snet.Tcp.Unread.{input, msend-input}
use snet.Pipe.Message.{get_le, at, handle_package, frame_len}
use snet.Pipe.Connection.{
  PipeEnv, find_user_session, msg_length, msg_body, send, send_heartbeat, send_shakehand,
  process_client_handshake, process_server_handshake, to_session, pipe_handler, handle_data,
}

-- A word is read alike from memories that agree on its bytes.
get_le-ext :
    (n : ℕ) (m k : Memory) (i : ℕ) → ((d : ℕ) → d < i + n → m d ≡ k d) → get_le n m i ≡ get_le n k i
get_le-ext zero m k i h = refl
get_le-ext (suc n) m k i h =
    ap₂ (λ a b. a + 256 * b) (h i (omega arith))
      (get_le-ext n m k (i + 1) (λ d lt. h d (omega arith)))

body_len-load : (m : Memory) (r : ℕ) → 16 ≤ r → get_le 4 (at (load m 0 r)) 0 ≡ get_le 4 m 0
body_len-load m r h =
    get_le-ext 4 (at (load m 0 r)) m 0
      (λ d lt. get_or-load m 0 r d (omega arith) ∙ ap m (omega arith))

handle_package-whole :
    (m : Memory) (len r n : ℕ)
    → r ≤ len
    → frame_len (load m 0 r) ≡ some n
    → (pos_part (handle_package m len) ≡ n) × (0 < n) × (n ≤ r)
unfolding handle_package frame_len
handle_package-whole m len r n le e = ground (arith, load-length m 0 r, body_len-load m r)

handle_package-partial :
    (m : Memory) (len r : ℕ)
    → r ≤ len
    → len ≤ read_buffer_size
    → frame_len (load m 0 r) ≡ none
    → ((pos_part (handle_package m len) ≡ 0) ⊎ (r < pos_part (handle_package m len)))
      × (pos_part (handle_package m len) ≤ read_buffer_size)
unfolding handle_package frame_len
handle_package-partial m len r le small e = ground (arith, load-length m 0 r, body_len-load m r)

get_or-append : (xs ys : List ℕ) (i : ℕ) → i < length xs → get_or (xs ++ ys) i 0 ≡ get_or xs i 0
get_or-append [] ys i h = elim h [ ]
get_or-append (x ∷ xs) ys zero h = refl
get_or-append (x ∷ xs) ys (suc i) h = get_or-append xs ys i (omega arith)

body_len-append :
    (bytes more : List ℕ)
    → 16 ≤ length bytes
    → get_le 4 (at (bytes ++ more)) 0 ≡ get_le 4 (at bytes) 0
body_len-append bytes more h =
    get_le-ext 4 (at (bytes ++ more)) (at bytes) 0
      (λ d lt. get_or-append bytes more d (omega arith))

stays_whole :
    (bytes more : List ℕ) (n : ℕ)
    → frame_len bytes ≡ some n
    → (frame_len (bytes ++ more) ≡ some n) × (n ≤ length bytes)
unfolding frame_len
stays_whole bytes more n e = ground (arith, length-append bytes more, body_len-append bytes more)

-- A whole message at the front of the bytes is the same message when more bytes follow.
pub pipe-IsStable : IsStable frame_len
pipe-IsStable = record { stable = stays_whole }

module _ (m : Memory) (p : ℕ) where
  pub send-input :
      (kernel : Kernel) (items : List (List ℕ)) (c : Conn)
      → send kernel items (input m p c) ≡ input m p (send kernel items c)
  unfolding send
  send-input kernel items c =
      let fuel = suc (length (c.send_buffer ++ concat items)) in
      ground (arith, msend-input m p kernel fuel items c)

  client-input :
      (env : PipeEnv) (frame : List ℕ) (c : Conn)
      → process_client_handshake env frame (input m p c)
        ≡ input m p (process_client_handshake env frame c)
  unfolding process_client_handshake
  client-input env frame c = ground arith

  session-input :
      (env : PipeEnv) (frame : List ℕ) (c : Conn)
      → to_session env frame (input m p c) ≡ input m p (to_session env frame c)
  unfolding to_session
  session-input env frame c = ground arith

  server-input :
      (env : PipeEnv) (frame : List ℕ) (c : Conn)
      → process_server_handshake env frame (input m p c)
        ≡ input m p (process_server_handshake env frame c)
  unfolding process_server_handshake send_shakehand
  server-input env frame c = elim (Bool-cases (ltb 0 (msg_length frame))) [
    | inr e ↦ rw e
    | inl e ↦ elim (Bool-cases (find_user_session (msg_body frame) env.pipe_map)) [
      | inl known ↦ rw (e, known) (send-input env.kernel _ _)
      | inr unknown ↦ rw (e, unknown) (send-input env.kernel _ c)
    ]
  ]

  heartbeat-input :
      (env : PipeEnv) (c : Conn)
      → send_heartbeat env [] (input m p c) ≡ input m p (send_heartbeat env [] c)
  unfolding send_heartbeat
  heartbeat-input env c = send-input env.kernel _ c

  handle_data-input :
      (env : PipeEnv) (frame : List ℕ) (c : Conn)
      → handle_data env frame (input m p c) ≡ input m p (handle_data env frame c)
  unfolding handle_data
  handle_data-input env frame c = ground (
    arith,
    client-input env frame c,
    server-input env frame c,
    heartbeat-input env c,
    session-input env frame c,
  )

-- `handle_package` cuts the buffered bytes as the wire format says, although it is told a length that
-- passes their end; `handle_data` neither reads nor changes the input buffer.
pub pipe-IsFraming : (env : PipeEnv) → IsFraming (pipe_handler env) frame_len
unfolding pipe_handler
pipe-IsFraming env = record {
  whole = λ m len r n le small e. handle_package-whole m len r n le e;
  partial = handle_package-partial;
  independent = λ frame c m p. handle_data-input m p env frame c;
}
