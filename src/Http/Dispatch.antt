-- ===== src/Http/Dispatch.antt =====
-- From the bytes of a request to the handler of its path: http_decoder.h under http_connection.h.
use snet.Prelude.{
  ℕ, ◌<◌, ◌≡◌, refl, ap, ◌∙◌, List, Option, some, true, false, ltb, ◌%◌, ◌^◌, lookup, bytes_key,
  arith,
}
use snet.Tcp.Types.{Conn}
use snet.Tcp.Connection.{close}
use snet.Http.Decoder.{HttpParser, http_request, request_coder, new_decoder, parse_request}
use snet.Http.Decoder.Requests.{IsRequest, parse_request-Decoded}
use snet.Http.Connection.{Routers, HttpEnv, check_result, call_handler, handle_data}

-- `ctx->request.parse(data, dataLen)` and `ctx->request.path()` of a new context.
unfoldable pub decode : HttpParser → List ℕ → ℕ × List ℕ
decode parser bytes =
    let (msg_len, d) = parse_request parser request_coder bytes false new_decoder in
    (msg_len % 2 ^ 32, d.http_path)

decode_lem :
    (parser : HttpParser) (bytes url : List ℕ) (headers : List (List ℕ × List ℕ)) (method : ℕ)
    (parts : List (List ℕ)) (path : List ℕ)
    → IsRequest parser bytes url headers method parts path
    → decode parser bytes ≡ (parser.consumed http_request bytes % 2 ^ 32, path)
unfolding decode
decode_lem parser bytes url headers method parts path q =
    let (n, v) =
      parse_request-Decoded parser bytes url headers method parts path false new_decoder q in
    λ i. (n i % 2 ^ 32, v.path_cut i)

-- A request of which the parser consumes some of at most 2 ^ 32 - 1 bytes, and whose path has a
-- router with a function for the context, runs that function once, is answered with a 501 response
-- if it returns a negative number, and closes the connection. The other function of the router is
-- not called.
pub handle_data-dispatch :
    (parser : HttpParser) (env : HttpEnv) (r : Routers) (bytes url : List ℕ)
    (headers : List (List ℕ × List ℕ)) (method : ℕ) (parts : List (List ℕ)) (path : List ℕ) (f : ℕ)
    (other : Option ℕ) (c : Conn)
    → env.parse bytes ≡ decode parser bytes
    → IsRequest parser bytes url headers method parts path
    → 0 < parser.consumed http_request bytes
    → parser.consumed http_request bytes < 2 ^ 32
    → lookup path r.http_routers ≡ some (record { http_handler = other; context_handler = some f })
    → handle_data env (some r) bytes c ≡ close (check_result env (env.run f bytes c))
unfolding handle_data call_handler
handle_data-dispatch parser env r bytes url headers method parts path f other c decodes q some_read
      word routed =
    let parsed = decodes ∙ decode_lem parser bytes url headers method parts path q in
    let len : parser.consumed http_request bytes % 2 ^ 32 ≡ parser.consumed http_request bytes =
      omega arith in
    let more : ltb 0 (env.parse bytes).0 ≡ true = ground (arith, ap (λ r. r.0) parsed) in
    let at : (env.parse bytes).1 ≡ path = ap (λ r. r.1) parsed in
    let here = ap (λ p. lookup p r.http_routers) at ∙ routed in
    rw (handle_data, more, here, call_handler) refl
