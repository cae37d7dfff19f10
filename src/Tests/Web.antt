-- ===== src/Tests/Web.antt =====
-- include/http on a factory with one router, which has no function.
use snet.Prelude.{
  minus_one, min, none, false, true, if◌then◌else◌, ◌==◌, ℕ, ◌+◌, ◌≡◌, ◌≢◌, refl, pos, List, [],
  ◌∷◌, ◌++◌, some, lookup, bytes_key, length, chars, arith, inl,
}
use snet.Http.Message.{to_string, to_mime, http_method_string}
use snet.Http.Encoder.{
  Message, EncoderEnv, encode_response, encode_request, encode_headers, set_content,
}
use snet.Http.Response.{blank_response, new_response, write, html, write_lem}
use snet.Http.Connection.{register_context, Routers, HttpEnv, no_handler, FitsIn}
use snet.Http.Decoder.{
  HttpParser, ParserEvent, request_coder, new_decoder, parse_request, parse_as, execute, callback,
  parse_header_complete,
}
use snet.Http.Decoder.Requests.{request_events, IsRequest}
use snet.Tcp.Types.{RecvResult, Events, Conn}
use snet.Tcp.Lifecycle.{process_event}
use snet.Tcp.Emptied.{NeverBlocks}
use snet.Tcp.Sending.{TakesSome, stream}
use snet.Tcp.Connection.{status_before_closing}
use snet.Tcp.Keeps.{Keeps-refl}
use snet.Http.Serving.{http_handler}
use snet.Http.Exchange.{Answered, process_event-Answered}
use snet.Http.Routing.{new_connection, on_create, serve, closing_text, serve-registered}
use snet.Http.Dispatch.{decode}
use snet.Tests.Connections.{open_conn, open_conn-open, slow_kernel, slow_kernel-TakesSome}

abbrev encoder : EncoderEnv
encoder = record { size_text = λ n. (48 + n) ∷ []; date = chars "today" }

plain_mime : to_mime (chars "css") ≡ chars "text/plain"
unfolding to_mime
plain_mime = refl

abbrev get_index : Message
get_index = record (blank_response 0) {
  http_url = chars "/i";
  http_headers = (chars "Host", chars "h") ∷ [];
}

-- CR and LF end each line.
abbrev eol : List ℕ
eol = 13 ∷ 10 ∷ []

request_text :
    encode_request get_index ≡ chars "GET /i HTTP/1.1" ++ (eol ++ (chars "Host: h" ++ (eol ++ eol)))
unfolding encode_request http_method_string encode_headers
request_text = refl

hello-ne : chars "hello" ≢ []
hello-ne = λ e. cc

write_lem_example :
    let w =
      write encoder (some (λ text. pos (length text))) (chars "hello") 200 (blank_response 0) in
    (w.given ≡ some (encode_response encoder w.response))
    × (w.ret ≡ pos (length (encode_response encoder w.response)))
    × (w.response.status_code ≡ 200)
    × (w.response.content ≡ chars "hello")
    × (lookup (chars "Content-Length") w.response.http_headers ≡ some (53 ∷ []))
    × (lookup (chars "Content-Type") w.response.http_headers ≡ some html)
write_lem_example =
    write_lem encoder (λ text. pos (length text)) (chars "hello") 200 (blank_response 0) hello-ne

abbrev routers : Routers
routers = record { global_router = no_handler; http_routers = (chars "/i", no_handler) ∷ [] }

-- The decoder takes the whole input for the path.
abbrev env : HttpEnv
env = record {
  encoder = encoder;
  kernel = slow_kernel;
  parse = λ bytes. (length bytes, bytes);
  run = λ f bytes c. (pos 0, c);
}

not_found_fits :
    FitsIn open_conn (encode_response encoder (new_response encoder 404 [] (chars "txt")))
unfolding encode_response new_response to_string set_content encode_headers
not_found_fits = omega arith

ok_fits : FitsIn open_conn (encode_response encoder (blank_response 200))
unfolding encode_response to_string encode_headers
ok_fits = omega arith

abbrev hosts : List (List ℕ × List ℕ)
hosts = (chars "Host", chars "h") ∷ []

-- The callbacks, each one byte further on.
abbrev numbered : ℕ → List (ParserEvent × ℕ) → List (ParserEvent × ℕ)
numbered at [] = []
numbered at ((event, _) ∷ events) = (event, at) ∷ numbered (at + 1) events

-- A parser that takes the whole input for the URL of a request, with its path, and reports a header
-- and a body in two parts.
abbrev whole_parser : HttpParser
whole_parser = record {
  events = λ type bytes. numbered 1 (request_events 0 bytes hosts 1 (chars "ab" ∷ chars "c" ∷ []));
  consumed = λ type bytes. length bytes;
  upgrade = λ type bytes. false;
  parse_url = λ url. some (record { path_field = some (0, length url); query_field = none });
}

abbrev index : List ℕ
index = chars "/i"

index-IsRequest : IsRequest whole_parser index index hosts 1 (chars "ab" ∷ chars "c" ∷ []) index
index-IsRequest = record {
  info = record { path_field = some (0, 2); query_field = none };
  field = (0, 2);
  reported = λ at. refl;
  url_parsed = refl;
  has_path = refl;
  path_field = refl;
}

-- Of a body in two parts the second is kept.
body_in_parts :
    (parse_request whole_parser request_coder index false new_decoder).1.http_body ≡ chars "c"
unfolding parse_request parse_as execute callback parse_header_complete new_decoder
body_in_parts = refl

abbrev decoding : HttpEnv
decoding = record env { parse = decode whole_parser }

-- The bytes "/x" are there to be read, once.
abbrev arriving : HttpEnv
arriving = record env {
  kernel = record slow_kernel {
    recv = λ n room. if n == 0 then RecvResult.received (chars "/x") else RecvResult.would_block;
  };
}

arriving-TakesSome : TakesSome arriving.kernel
arriving-TakesSome = record {
  some_byte = slow_kernel-TakesSome.some_byte;
  no_more = slow_kernel-TakesSome.no_more;
}

arriving-NeverBlocks : NeverBlocks arriving.kernel
arriving-NeverBlocks = record { takes = λ n bytes ne. (min 2 (length bytes), refl) }

abbrev readable : Events
readable = record { et = true; in_ = true; out = false; err = false }

process_event-Answered_example :
    (c : Conn) × (process_event
        (http_handler arriving (some routers))
        arriving.kernel
        1
        readable
        open_conn
      ≡ some c)
    × Answered (encode_response encoder (new_response encoder 404 [] (chars "txt"))) open_conn c
process_event-Answered_example =
    process_event-Answered arriving arriving-TakesSome arriving-NeverBlocks
      (λ f bytes c. Keeps-refl c) routers 0 47 (120 ∷ []) open_conn readable refl refl
      open_conn-open refl refl refl refl refl not_found_fits refl (omega arith) refl refl

-- A function that fails.
abbrev failing : HttpEnv
failing = record decoding { run = λ f bytes c. (minus_one, c) }

failed_fits : FitsIn open_conn (closing_text encoder minus_one)
unfolding encode_response new_response to_string set_content encode_headers
failed_fits = omega arith

serve-registered_example :
    let c =
      serve failing
        (register_context index 7 routers)
        (on_create routers (new_connection none))
        index
        open_conn in
    (stream c ≡ stream open_conn ++ closing_text encoder minus_one)
    × (status_before_closing c.status ≡ false)
serve-registered_example =
    serve-registered whole_parser failing slow_kernel-TakesSome routers routers
      (new_connection none) index index hosts 1 (chars "ab" ∷ chars "c" ∷ []) index 7 open_conn refl
      index-IsRequest (omega arith) (omega arith) open_conn-open (inl refl) failed_fits
