-- ===== src/Http/Connection.antt =====
-- include/http/http_connection.h and http_factory.h: routers and the dispatch of requests. Handlers
-- that a user registers are known by number. The decoder, and what a handler does, are parameters.
use snet.Prelude.{
  ℕ, suc, ◌<◌, ◌≡◌, refl, ap, ◌∙◌, ℤ, pos, negsuc, minus_one, List, [], ◌∷◌, ◌++◌, Option, none,
  some, true, false, ltb, ◌^◌, if◌then◌else◌, lookup, insert, bytes_key, length, concat, append-nil,
  length-append, chars, arith,
}
use snet.Tcp.Types.{Conn, Kernel}
use snet.Tcp.Connection.{status_before_closing, is_open, msend, close, notify_send, set_out}
use snet.Tcp.Sending.{TakesSome, IsSettled, stream, msend_lem}
use snet.Http.Message.{to_string}
use snet.Http.Encoder.{Message, EncoderEnv, encode_response}
use snet.Http.Response.{blank_response, new_response}

-- HttpHandler: a function for the request and the response, and one for the context.
pub record HttpHandler : Type 0 where
  pub http_handler : Option ℕ
  pub context_handler : Option ℕ

abbrev pub no_handler : HttpHandler
no_handler = record { http_handler = none; context_handler = none }

-- HttpFactory's routers.
pub record Routers : Type 0 where
  pub global_router : HttpHandler
  pub http_routers : List (List ℕ × HttpHandler)

-- `http_routers[path]`, which makes an entry if there is none.
abbrev pub entry : List ℕ → Routers → HttpHandler
entry path r = elim (lookup path r.http_routers) [ none ↦ no_handler | some h ↦ h ]

unfoldable pub register_router : List ℕ → HttpHandler → Routers → Routers
register_router path handler r = record r { http_routers = insert path handler r.http_routers }

unfoldable pub register_http : List ℕ → ℕ → Routers → Routers
unfolding register_router
register_http path handler r =
    register_router path (record (entry path r) { http_handler = some handler }) r

unfoldable pub register_context : List ℕ → ℕ → Routers → Routers
unfolding register_router
register_context path handler r =
    register_router path (record (entry path r) { context_handler = some handler }) r

-- What HttpConnection refers to. `parse` gives the length and the path that the decoder finds, and
-- `run` is the call of a handler, with what it returns.
pub record HttpEnv : Type 0 where
  pub encoder : EncoderEnv
  pub kernel : Kernel
  pub parse : List ℕ → ℕ × List ℕ
  pub run : ℕ → List ℕ → Conn → ℤ × Conn

module _ (env : HttpEnv) where
  -- `conn->send(data)`. The fuel is one more than the bytes that can wait.
  unfoldable pub send_text : List ℕ → Conn → ℤ × Conn
  send_text text c =
      elim (msend env.kernel (suc (length (c.send_buffer ++ concat (text ∷ [])))) (text ∷ []) c) [
        | none ↦ (minus_one, c)
        | some r ↦ r
      ]

  -- `write(rsp)`
  unfoldable pub write_response : Message → Conn → Conn
  unfolding send_text
  write_response rsp c =
      let c' = if is_open c then (send_text (encode_response env.encoder rsp) c).1 else c in
      close c'

  -- HttpHandler's `call`
  unfoldable pub call_handler : HttpHandler → List ℕ → Conn → ℤ × Conn
  unfolding send_text
  call_handler h bytes c = elim h.context_handler [
    | some f ↦ env.run f bytes c
    | none ↦ elim h.http_handler [
      | some f ↦ env.run f bytes c
      | none ↦ send_text (encode_response env.encoder (blank_response 200)) c
    ]
  ]

  -- `if (rst < 0) conn->write(HttpResponse(501));`
  unfoldable pub check_result : ℤ × Conn → Conn
  check_result (pos n, c) = c
  check_result (negsuc n, c) = write_response (new_response env.encoder 501 [] (chars "txt")) c

  -- `handle_data`, for the routers that are set, if any.
  unfoldable pub handle_data : Option Routers → List ℕ → Conn → Conn
  unfolding write_response call_handler check_result
  handle_data routers bytes c =
      let (msg_len, path) = env.parse bytes in
      if ltb 0 msg_len
      then elim routers [
        | none ↦ c
        | some r ↦ elim (lookup path r.http_routers) [
          | some h ↦ close (check_result (call_handler h bytes c))
          | none ↦ close (write_response (new_response env.encoder 404 [] (chars "txt")) c)
        ]
      ]
      else c

pub close-stream : (c : Conn) → stream (close c) ≡ stream c
unfolding close notify_send set_out
close-stream c = ground arith

module _ (env : HttpEnv) (ok : TakesSome env.kernel) where
  send_text_lem :
      (text : List ℕ) (c : Conn)
      → is_open c ≡ true
      → IsSettled c
      → 0 < length text
      → length (c.send_buffer ++ text) < 2 ^ 32
      → (n : ℤ) × (c' : Conn) × (send_text env text c ≡ (n, c')) × (stream c' ≡ stream c ++ text)
  unfolding send_text
  send_text_lem text c opened settled some_byte small =
      let whole : concat (text ∷ []) ≡ text = append-nil text in
      let (n, c', done, given, _) =
        msend_lem env.kernel ok (text ∷ []) c opened settled (some_byte, _) (rw whole small) in
      (n, c', rw (send_text, done) refl, given ∙ ap (λ t. stream c ++ t) whole)

pub close-shut : (c : Conn) → status_before_closing (close c).status ≡ false
unfolding close notify_send set_out
close-shut c = ground arith

pub encode_response-nonempty :
    (encoder : EncoderEnv) (m : Message) → 0 < length (encode_response encoder m)
unfolding encode_response
encode_response-nonempty encoder m = omega (arith, length-append (to_string m.status_code) _)

-- Small enough to be sent: what waits and the text are below 2 ^ 32 bytes.
abbrev pub FitsIn : Conn → List ℕ → Type 0
FitsIn c text = length (c.send_buffer ++ text) < 2 ^ 32

module _ (env : HttpEnv) (ok : TakesSome env.kernel) (c : Conn) where
  pub written-stream :
      (rsp : Message)
      → is_open c ≡ true
      → IsSettled c
      → FitsIn c (encode_response env.encoder rsp)
      → stream (write_response env rsp c) ≡ stream c ++ encode_response env.encoder rsp
  unfolding write_response
  written-stream rsp opened settled fits =
      let text = encode_response env.encoder rsp in
      let (n, c', sent, given) =
        send_text_lem env ok text c opened settled (encode_response-nonempty env.encoder rsp)
          fits in
      rw (write_response, opened, sent) (close-stream c' ∙ given)

module _ (env : HttpEnv) (ok : TakesSome env.kernel) (r : Routers) (bytes : List ℕ) (c : Conn) where
  -- A request that the decoder takes and whose path has no router is answered with a 404 response:
  -- on an open, settled connection its text, if it fits, is appended once to what is sent, and the
  -- connection is no longer open. The kernel takes at least one byte of a block and no more than
  -- the block.
  pub handle_data-not_found :
      0 < (env.parse bytes).0
      → lookup (env.parse bytes).1 r.http_routers ≡ none
      → is_open c ≡ true
      → IsSettled c
      → FitsIn c (encode_response env.encoder (new_response env.encoder 404 [] (chars "txt")))
      → let c' = handle_data env (some r) bytes c in
        (stream c'
          ≡ stream c ++ encode_response env.encoder (new_response env.encoder 404 [] (chars "txt")))
        × (status_before_closing c'.status ≡ false)
  unfolding handle_data
  handle_data-not_found taken none_found opened settled fits =
      let more : ltb 0 (env.parse bytes).0 ≡ true = ground arith in
      rw (more, none_found)
        (close-stream _ ∙ written-stream env ok c _ opened settled fits, close-shut _)
