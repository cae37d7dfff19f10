-- ===== src/Http/Decoder.antt =====
-- include/http/http_decoder.h: HttpDecoder for requests and for responses. The parser that it drives
-- is code of another project and a parameter: for an input it makes a row of callbacks and returns
-- how far it read. String views are the bytes that they show.
pub mod Requests
use snet.Prelude.{
  ℕ, zero, suc, ◌+◌, ◌-◌, ◌<◌, ◌≡◌, List, [], ◌∷◌, ◌++◌, Option, none, some, Bool, true, false,
  length, take, drop, ltb, bytes_eq, if◌then◌else◌,
}

-- enum http_parser_type
pub data ParserType : Type 0 where
  http_request http_response : ParserType

-- A callback of the parser with what it passes; `parser->method` and `parser->status_code` are read
-- in two of them.
pub data ParserEvent : Type 0 where
  on_message_begin on_message_complete on_chunk_header on_chunk_complete : ParserEvent
  on_url on_field on_value on_body : List ℕ → ParserEvent
  on_status : List ℕ → ℕ → ParserEvent
  on_headers_complete : ℕ → ParserEvent

-- `struct http_parser_url`: where the path and the query stand, if they are there.
pub record UrlInfo : Type 0 where
  pub path_field : Option (ℕ × ℕ)
  pub query_field : Option (ℕ × ℕ)

-- The parser: its callbacks in order, each with how far it had read, and what it returns if none of
-- them stops it; whether it saw an upgrade; and `http_parser_parse_url`, `none` for an error.
pub record HttpParser : Type 0 where
  pub events : ParserType → List ℕ → List (ParserEvent × ℕ)
  pub consumed : ParserType → List ℕ → ℕ
  pub upgrade : ParserType → List ℕ → Bool
  pub parse_url : List ℕ → Option UrlInfo

-- The class that the decoder belongs to.
pub data Coder : Type 0 where
  request_coder response_coder : Coder

-- HttpDecoder, with the fields of its message that it writes.
pub record HttpDecoder : Type 0 where
  pub request_url : List ℕ
  pub http_status : List ℕ
  pub http_body : List ℕ
  pub http_path : List ℕ
  pub http_query : List ℕ
  pub headers : List (List ℕ × List ℕ)
  pub raw_data : List ℕ
  pub header_key : List ℕ
  pub header_value : List ℕ
  pub input_data : List ℕ
  pub input_len : ℕ
  pub inplace_flag : Bool
  pub is_upgrade : Bool
  pub http_url : List ℕ
  pub method_value : ℕ
  pub status_code : ℕ

unfoldable pub new_decoder : HttpDecoder
new_decoder = record {
  request_url = [];
  http_status = [];
  http_body = [];
  http_path = [];
  http_query = [];
  headers = [];
  raw_data = [];
  header_key = [];
  header_value = [];
  input_data = [];
  input_len = 0;
  inplace_flag = false;
  is_upgrade = false;
  http_url = [];
  method_value = 0;
  status_code = 0;
}

abbrev pub slice : ℕ × ℕ → List ℕ → List ℕ
slice (off, len) url = take len (drop off url)

-- `parse_url` of HttpParseHelper; the callbacks give whether they returned 0.
unfoldable pub parse_url : Coder → List ℕ → HttpDecoder → Bool × HttpDecoder
parse_url request_coder url d = (true, record d { request_url = url; http_url = url })
parse_url response_coder url d = (true, d)

unfoldable pub parse_status : Coder → List ℕ → ℕ → HttpDecoder → Bool × HttpDecoder
parse_status request_coder text code d = (true, d)
parse_status response_coder text code d =
    (true, record d { http_status = text; status_code = code })

unfoldable pub parse_field : List ℕ → HttpDecoder → Bool × HttpDecoder
parse_field key d = (true, record d { header_key = key })

unfoldable pub parse_value : List ℕ → HttpDecoder → Bool × HttpDecoder
parse_value value d =
    (true, record d { header_value = value; headers = d.headers ++ ((d.header_key, value) ∷ []) })

unfoldable pub parse_body : List ℕ → HttpDecoder → Bool × HttpDecoder
parse_body body d = (true, record d { http_body = body })

module _ (parser : HttpParser) where
  abbrev set_query : Option (ℕ × ℕ) → HttpDecoder → HttpDecoder
  set_query none d = d
  set_query (some field) d = record d { http_query = slice field d.request_url }

  unfoldable pub parse_header_complete : Coder → ℕ → HttpDecoder → Bool × HttpDecoder
  parse_header_complete response_coder method d = (true, d)
  parse_header_complete request_coder method d = elim (parser.parse_url d.request_url) [
    | none ↦ (true, d)
    | some info ↦ elim info.path_field [
      | none ↦ (false, d)
      | some field ↦
          let d' = record d { http_path = slice field d.request_url } in
          (true, record (set_query info.query_field d') { method_value = method })
    ]
  ]

  -- The callback that `init_parser` sets for an event.
  unfoldable pub callback : Coder → ParserEvent → HttpDecoder → Bool × HttpDecoder
  unfolding parse_url parse_status parse_field parse_value parse_body parse_header_complete
  callback coder (on_url url) d = parse_url coder url d
  callback coder (on_status text code) d = parse_status coder text code d
  callback coder (on_body body) d = parse_body body d
  callback coder (on_field key) d = parse_field key d
  callback coder (on_value value) d = parse_value value d
  callback coder (on_headers_complete method) d = parse_header_complete coder method d
  callback coder on_message_begin d = (true, d)
  callback coder on_message_complete d = (true, d)
  callback coder on_chunk_header d = (true, d)
  callback coder on_chunk_complete d = (true, d)

  -- `http_parser_execute` over the callbacks: one that does not return 0 stops it.
  unfoldable pub execute : Coder → List (ParserEvent × ℕ) → ℕ → HttpDecoder → ℕ × HttpDecoder
  unfolding callback
  execute coder [] total d = (total, d)
  execute coder ((event, at) ∷ events) total d =
      let (ok, d') = callback coder event d in
      let rest = execute coder events total d' in if ok then rest else (at, d')

  -- `parse_request` and `parse_response`, which differ in what `init_parser` is told; the result is
  -- 32 bits wide only for the caller.
  unfoldable pub parse_as : ParserType → Coder → List ℕ → Bool → HttpDecoder → ℕ × HttpDecoder
  unfolding execute
  parse_as type coder bytes inplace d =
      let started = record d {
        inplace_flag = inplace;
        input_data = bytes;
        input_len = length bytes;
        is_upgrade = parser.upgrade type bytes;
        raw_data = if inplace then d.raw_data else bytes;
      } in
      let (msg_len, d') =
        execute coder (parser.events type bytes) (parser.consumed type bytes) started in
      let cut = if ltb msg_len (length bytes) then take msg_len d'.raw_data else d'.raw_data in
      (msg_len, if inplace then d' else record d' { raw_data = cut })

  unfoldable pub parse_request : Coder → List ℕ → Bool → HttpDecoder → ℕ × HttpDecoder
  unfolding parse_as
  parse_request = parse_as http_request

  unfoldable pub parse_response : Coder → List ℕ → Bool → HttpDecoder → ℕ × HttpDecoder
  unfolding parse_as
  parse_response = parse_as http_response

unfoldable pub is_websocket : HttpDecoder → Bool
is_websocket d = d.is_upgrade

-- `get_header`: the value of the first header with this name, or nothing.
abbrev pub find_header : List ℕ → List (List ℕ × List ℕ) → List ℕ
find_header key [] = []
find_header key ((k, v) ∷ headers) = if bytes_eq k key then v else find_header key headers

unfoldable pub get_header : List ℕ → HttpDecoder → List ℕ
get_header key d = find_header key d.headers
