-- ===== src/Http/Routing.antt =====
-- The routers of HttpFactory in http_factory.h and the connections of http_connection.h that use them,
-- and what else an HttpConnection sends. The factory's map is shared by a pointer, the global router
-- is copied.
use snet.Prelude.{
  ℕ, ◌<◌, ◌≡◌, ap, sym, ◌∙◌, ℤ, pos, negsuc, minus_one, List, [], ◌++◌, append-nil, chars, Option,
  none, some, Bool, true, false, ◌^◌, if◌then◌else◌, lookup, lookup-insert, bytes_eq_refl,
  bytes_key,
}
use snet.Tcp.Types.{Conn}
use snet.Tcp.Connection.{is_open, status_before_closing, close}
use snet.Tcp.Sending.{TakesSome, IsSettled, stream}
use snet.Http.Response.{new_response}
use snet.Http.Encoder.{Message, EncoderEnv, encode_request, encode_response}
use snet.Http.Decoder.{HttpParser, HttpDecoder, http_request}
use snet.Http.Decoder.Requests.{IsRequest}
use snet.Http.Connection.{
  HttpHandler, Routers, HttpEnv, no_handler, entry, register_context, send_text, check_result,
  handle_data, FitsIn, close-stream, close-shut, written-stream,
}
use snet.Http.Dispatch.{decode, handle_data-dispatch}

-- The members of an HttpConnection; `has_routers` says that `http_routers` points to the factory's map.
pub record HttpConnection : Type 0 where
  pub first_request : Option Message
  pub global_router : HttpHandler
  pub has_routers : Bool

unfoldable pub new_connection : Option Message → HttpConnection
new_connection req = record { first_request = req; global_router = no_handler; has_routers = false }

unfoldable pub init_routers : HttpHandler → HttpConnection → HttpConnection
init_routers router h = record h { global_router = router; has_routers = true }

-- `on_create` of HttpFactory
unfoldable pub on_create : Routers → HttpConnection → HttpConnection
unfolding init_routers
on_create r h = init_routers r.global_router h

-- `register_global_router`
unfoldable pub register_global : HttpHandler → Routers → Routers
register_global router r = record r { global_router = router }

unfoldable pub register_global_http : ℕ → Routers → Routers
register_global_http f r = record r {
  global_router = record r.global_router { http_handler = some f };
}

unfoldable pub register_global_context : ℕ → Routers → Routers
register_global_context f r = record r {
  global_router = record r.global_router { context_handler = some f };
}

module _ (env : HttpEnv) where
  -- `handle_data` of a connection of a factory with the routers `r`.
  unfoldable pub serve : Routers → HttpConnection → List ℕ → Conn → Conn
  serve r h bytes c = handle_data env (if h.has_routers then some r else none) bytes c

  -- `request` sends `to_string`, which is what the decoder of the request has as its body.
  unfoldable pub request : HttpDecoder → Conn → ℤ × Conn
  request d c = send_text env d.http_body c

  unfoldable pub send_first_request : HttpConnection → Conn → ℤ × Conn
  send_first_request h c = elim h.first_request [
    | none ↦ (minus_one, c)
    | some req ↦ send_text env (encode_request req) c
  ]

  -- `write` of a text
  unfoldable pub write_text : List ℕ → Conn → Conn
  write_text msg c = let c' = if is_open c then (send_text env msg c).1 else c in close c'

-- The text that is sent behind what a function sends itself: nothing if it returns a number that is not
-- negative, and a 501 response if it does.
abbrev pub closing_text : EncoderEnv → ℤ → List ℕ
closing_text encoder (pos n) = []
closing_text encoder (negsuc n) =
    encode_response encoder (new_response encoder 501 [] (chars "txt"))

checked_lem :
    (env : HttpEnv)
    → TakesSome env.kernel
    → (n : ℤ) (c : Conn) → is_open c ≡ true
    → IsSettled c
    → FitsIn c (closing_text env.encoder n)
    → stream (close (check_result env (n, c))) ≡ stream c ++ closing_text env.encoder n
unfolding check_result
checked_lem env ok (pos n) c opened settled fits = close-stream c ∙ sym (append-nil (stream c))
checked_lem env ok (negsuc n) c opened settled fits =
    close-stream _ ∙ written-stream env ok c _ opened settled fits

-- A function for the context that is registered for a path, before or after the connection is made,
-- is run once for a request for that path, in place of a function registered before. If it returns a
-- negative number, the text of a 501 response is given to send once behind what the function sent, and
-- nothing if not; then the connection is no longer open. The parser consumes some of at most
-- 2 ^ 32 - 1 bytes, the function leaves the connection open and settled, the text fits, and the kernel
-- takes some of what it is given.
pub serve-registered :
    (parser : HttpParser) (env : HttpEnv) (takes : TakesSome env.kernel) (r₀ r : Routers)
    (h : HttpConnection) (bytes url : List ℕ) (headers : List (List ℕ × List ℕ)) (method : ℕ)
    (parts : List (List ℕ)) (path : List ℕ) (f : ℕ) (c : Conn)
    → env.parse bytes ≡ decode parser bytes
    → IsRequest parser bytes url headers method parts path
    → 0 < parser.consumed http_request bytes
    → parser.consumed http_request bytes < 2 ^ 32
    → let (n, d) = env.run f bytes c in
      is_open d ≡ true
      → IsSettled d
      → FitsIn d (closing_text env.encoder n)
      → let c' = serve env (register_context path f r) (on_create r₀ h) bytes c in
        (stream c' ≡ stream d ++ closing_text env.encoder n)
        × (status_before_closing c'.status ≡ false)
unfolding serve on_create register_context
serve-registered parser env takes r₀ r h bytes url headers method parts path f c decodes q some_read
      word opened settled fits =
    let handler = record (entry path r) { context_handler = some f } in
    let routed : lookup path (register_context path f r).http_routers ≡ some handler =
      lookup-insert path path handler r.http_routers
      ∙ ap (λ b. if b then some handler else lookup path r.http_routers) (bytes_eq_refl path) in
    let run = env.run f bytes c in
    let e =
      handle_data-dispatch parser env (register_context path f r) bytes url headers method parts
        path f (entry path r).http_handler c decodes q some_read word routed in
    (
      ap stream e ∙ checked_lem env takes run.0 run.1 opened settled fits,
      ap (λ t. status_before_closing t.status) e ∙ close-shut (check_result env run),
    )
