-- ===== src/Http/Decoder/Requests.antt =====
-- What the decoder of http_decoder.h has of a request when the parser has made its callbacks.
use snet.Prelude.{
  ℕ, suc, ◌≡◌, refl, arith, Bool-cases, sym, ap, ◌∙◌, List, [], ◌∷◌, ◌++◌, append-nil, append_assoc,
  some, Bool, true, false, length, take, ltb, if◌then◌else◌, Option-cases, inl, inr,
}
use snet.Http.Decoder.{
  http_request, ParserEvent, on_message_begin, on_message_complete, on_url, on_field, on_value,
  on_body, on_headers_complete, UrlInfo, HttpParser, request_coder, HttpDecoder, slice, callback,
  parse_url, parse_field, parse_value, parse_body, parse_header_complete, execute, parse_as,
  parse_request,
}

-- The callbacks for the headers and the parts of the body, when the parser has read as far as `at`.
abbrev pub header_events : ℕ → List (List ℕ × List ℕ) → List (ParserEvent × ℕ)
header_events at [] = []
header_events at ((key, value) ∷ headers) =
    (on_field key, at) ∷ (on_value value, at) ∷ header_events at headers

abbrev pub body_events : ℕ → List (List ℕ) → List (ParserEvent × ℕ)
body_events at [] = []
body_events at (part ∷ parts) = (on_body part, at) ∷ body_events at parts

-- The same callbacks, all at one place.
abbrev pub placed : ℕ → List (ParserEvent × ℕ) → List (ParserEvent × ℕ)
placed at [] = []
placed at ((event, _) ∷ events) = (event, at) ∷ placed at events

-- The callbacks of a whole request.
abbrev pub request_events :
    ℕ → List ℕ → List (List ℕ × List ℕ) → ℕ → List (List ℕ) → List (ParserEvent × ℕ)
request_events at url headers method parts =
    (on_message_begin, at)
    ∷ (on_url url, at)
    ∷ (header_events at headers
        ++ ((on_headers_complete method, at)
            ∷ (body_events at parts ++ ((on_message_complete, at) ∷ []))))

-- The last part, or what was there before.
abbrev pub last_part : List ℕ → List (List ℕ) → List ℕ
last_part before [] = before
last_part before (part ∷ parts) = last_part part parts

module _ (parser : HttpParser) (total at : ℕ) where
  headers-run :
      (headers : List (List ℕ × List ℕ)) (rest : List (ParserEvent × ℕ)) (d : HttpDecoder)
      → (key value : List ℕ) × (execute parser request_coder
            (header_events at headers ++ rest)
            total
            d
          ≡ execute parser request_coder rest total
              (record d { header_key = key; header_value = value; headers = d.headers ++ headers }))
  unfolding execute callback parse_field parse_value
  headers-run [] rest d = (
    d.header_key,
    d.header_value,
    λ i.
        execute parser request_coder rest total
          (record d { headers = sym (append-nil d.headers) i }),
  )
  headers-run ((k, v) ∷ headers) rest d =
      let next = record d {
        header_key = k;
        header_value = v;
        headers = d.headers ++ ((k, v) ∷ []);
      } in
      let (key, value, e) = headers-run headers rest next in
      (
        key,
        value,
        e
            ∙ ap
                (λ (hs : List (List ℕ × List ℕ)).
                  execute parser request_coder rest total
                    (record d { header_key = key; header_value = value; headers = hs }))
                (append_assoc d.headers ((k, v) ∷ []) headers),
      )

  bodies-run :
      (parts : List (List ℕ)) (rest : List (ParserEvent × ℕ)) (d : HttpDecoder)
      → execute parser request_coder (body_events at parts ++ rest) total d
        ≡ execute parser request_coder rest total
            (record d { http_body = last_part d.http_body parts })
  unfolding execute callback parse_body
  bodies-run [] rest d = refl
  bodies-run (part ∷ parts) rest d = bodies-run parts rest (record d { http_body = part })

  -- `parse_header_complete` where the URL has a path.
  path-run :
      (method : ℕ) (info : UrlInfo) (field : ℕ × ℕ) (d : HttpDecoder)
      → parser.parse_url d.request_url ≡ some info
      → info.path_field ≡ some field
      → (query : List ℕ) × (parse_header_complete parser request_coder method d ≡ (
        true,
        record d {
          http_path = slice field d.request_url;
          http_query = query;
          method_value = method;
        },
      ))
  unfolding parse_header_complete
  path-run method info field d parsed path = elim (Option-cases info.query_field) [
    | inl none_there ↦ (d.http_query, rw (parse_header_complete, parsed, path, none_there) refl)
    | inr (q, there) ↦ (slice q d.request_url, rw (parse_header_complete, parsed, path, there) refl)
  ]

-- Where the parser stands at a callback is of no account while none of them stops it.
placed-run :
    (parser : HttpParser) (total : ℕ) (events : List (ParserEvent × ℕ)) (d d' : HttpDecoder)
    → execute parser request_coder (placed (suc total) events) total d ≡ (total, d')
    → execute parser request_coder events total d ≡ (total, d')
unfolding execute
placed-run parser total [] d d' e = e
placed-run parser total ((event, at) ∷ events) d d' e =
    elim (Bool-cases (callback parser request_coder event d).0) [
      | inl ok ↦
          rw ok (
            placed-run parser total events (callback parser request_coder event d).1 d'
              (rw ok at e))
      | inr stopped ↦
          let no : suc total ≡ total = ap (λ r. r.0) (rw stopped at e) in absurd (omega arith)
    ]

-- What the decoder holds after a request.
pub record Decoded (url : List ℕ) (headers : List (List ℕ × List ℕ)) (method : ℕ)
    (parts : List (List ℕ)) (path : List ℕ) (d d' : HttpDecoder) : Type 0 where
  pub url_kept : d'.http_url ≡ url
  pub path_cut : d'.http_path ≡ path
  pub headers_added : d'.headers ≡ d.headers ++ headers
  pub method_kept : d'.method_value ≡ method
  pub body_last : d'.http_body ≡ last_part d.http_body parts

module _ (parser : HttpParser) (total at : ℕ) where
  request-run :
      (url : List ℕ) (headers : List (List ℕ × List ℕ)) (method : ℕ) (parts : List (List ℕ))
      (info : UrlInfo) (field : ℕ × ℕ) (d : HttpDecoder)
      → parser.parse_url url ≡ some info
      → info.path_field ≡ some field
      → (d' : HttpDecoder) × (execute parser request_coder
            (request_events at url headers method parts)
            total
            d
          ≡ (total, d'))
        × Decoded url headers method parts (slice field url) d d'
  request-run url headers method parts info field d parsed path =
      let d₁ = record d { request_url = url; http_url = url } in
      let ending = body_events at parts ++ ((on_message_complete, at) ∷ []) in
      let (key, value, e₁) =
        headers-run parser total at headers ((on_headers_complete method, at) ∷ ending) d₁ in
      let d₂ = record d₁ {
        header_key = key;
        header_value = value;
        headers = d.headers ++ headers;
      } in
      let (query, e₂) = path-run parser total at method info field d₂ parsed path in
      let d₃ = record d₂ {
        http_path = slice field url;
        http_query = query;
        method_value = method;
      } in
      let d₄ = record d₃ { http_body = last_part d.http_body parts } in
      (
        d₄,
        started url (header_events at headers ++ ((on_headers_complete method, at) ∷ ending)) d
            ∙ e₁
            ∙ completed method ending d₂ d₃ e₂
            ∙ bodies-run parser total at parts ((on_message_complete, at) ∷ []) d₃
            ∙ ended d₄,
        record {
          url_kept = refl;
          path_cut = refl;
          headers_added = refl;
          method_kept = refl;
          body_last = refl;
        },
      )
    where
      started :
          (url : List ℕ) (rest : List (ParserEvent × ℕ)) (d : HttpDecoder)
          → execute parser request_coder ((on_message_begin, at) ∷ (on_url url, at) ∷ rest) total d
            ≡ execute parser request_coder rest total
                (record d { request_url = url; http_url = url })
      started url rest d = unfold execute in unfold callback in unfold parse_url in refl

      completed :
          (method : ℕ) (rest : List (ParserEvent × ℕ)) (d d' : HttpDecoder)
          → parse_header_complete parser request_coder method d ≡ (true, d')
          → execute parser request_coder ((on_headers_complete method, at) ∷ rest) total d
            ≡ execute parser request_coder rest total d'
      completed method rest d d' e = unfold execute in unfold callback in rw e refl

      ended :
          (d : HttpDecoder)
          → execute parser request_coder ((on_message_complete, at) ∷ []) total d ≡ (total, d)
      ended d = unfold execute in unfold callback in refl

-- The bytes are a request for `path`: what the parser reports of them, wherever it stands at each
-- callback.
pub record IsRequest (parser : HttpParser) (bytes url : List ℕ) (headers : List (List ℕ × List ℕ))
    (method : ℕ) (parts : List (List ℕ)) (path : List ℕ) : Type 0 where
  pub info : UrlInfo
  pub field : ℕ × ℕ
  pub reported :
      (at : ℕ)
      → placed at (parser.events http_request bytes) ≡ request_events at url headers method parts
  pub url_parsed : parser.parse_url url ≡ some info
  pub has_path : info.path_field ≡ some field
  pub path_field : slice field url ≡ path

pub parse_request-Decoded :
    (parser : HttpParser) (bytes url : List ℕ) (headers : List (List ℕ × List ℕ)) (method : ℕ)
    (parts : List (List ℕ)) (path : List ℕ) (inplace : Bool) (d : HttpDecoder)
    → IsRequest parser bytes url headers method parts path
    → let (n, d') = parse_request parser request_coder bytes inplace d in
      (n ≡ parser.consumed http_request bytes) × Decoded url headers method parts path d d'
unfolding parse_request parse_as
parse_request-Decoded parser bytes url headers method parts path inplace d q =
    let total = parser.consumed http_request bytes in
    let started = record d {
      inplace_flag = inplace;
      input_data = bytes;
      input_len = length bytes;
      is_upgrade = parser.upgrade http_request bytes;
      raw_data = if inplace then d.raw_data else bytes;
    } in
    let (d', e, v) =
      request-run parser total (suc total) url headers method parts q.info q.field started
        q.url_parsed q.has_path in
    let ran : execute parser request_coder (parser.events http_request bytes) total started
        ≡ (total, d') =
      placed-run parser total (parser.events http_request bytes) started d' (
        ap (λ evts. execute parser request_coder evts total started) (q.reported (suc total))
        ∙ e) in
    rw ran (
      refl,
      shown inplace d' (if ltb total (length bytes) then take total d'.raw_data else d'.raw_data)
          (record {
            url_kept = v.url_kept;
            path_cut = v.path_cut ∙ q.path_field;
            headers_added = v.headers_added;
            method_kept = v.method_kept;
            body_last = v.body_last;
          }),
    )
  where
    shown :
        (inplace : Bool) (d' : HttpDecoder) (raw : List ℕ)
        → Decoded url headers method parts path d d'
        → Decoded url headers method parts path d
            (if inplace then d' else record d' { raw_data = raw })
    shown true d' raw v = v
    shown false d' raw v = record {
      url_kept = v.url_kept;
      path_cut = v.path_cut;
      headers_added = v.headers_added;
      method_kept = v.method_kept;
      body_last = v.body_last;
    }
