-- ===== src/Http/Encoder.antt =====
-- include/http/http_encoder.h: the headers of a message and its text. The message that the encoder
-- points to is a record with it, as each message owns its encoder.
use snet.Prelude.{
  ℕ, ◌≡◌, refl, List, [], ◌∷◌, ◌++◌, some, Bool, true, false, ltb, ◌==◌, bytes_eq, if◌then◌else◌,
  bytes_key, lookup, length, chars, Bool-cases, inl, inr, bytes_eq→eq, bytes_eq_refl, sym, ap, ◌∙◌,
}
use snet.Http.Message.{HttpMethod, http_method_string, http_version_1_1, to_mime, to_string}

-- `std::map`: an association list in the order of its keys.
abbrev pub Headers : Type 0
Headers = List (List ℕ × List ℕ)

-- `operator<` of strings
abbrev pub bytes_lt : List ℕ → List ℕ → Bool
bytes_lt [] [] = false
bytes_lt [] (y ∷ ys) = true
bytes_lt (x ∷ xs) [] = false
bytes_lt (x ∷ xs) (y ∷ ys) = let rest = bytes_lt xs ys in if x == y then rest else ltb x y

-- `add_header`: `http_headers[key] = value`
unfoldable pub add_header : List ℕ → List ℕ → Headers → Headers
add_header key value [] = (key, value) ∷ []
add_header key value ((k, v) ∷ headers) =
    let rest = add_header key value headers in
    if bytes_eq k key
    then (key, value) ∷ headers
    else (if bytes_lt key k then (key, value) ∷ (k, v) ∷ headers else (k, v) ∷ rest)

unfoldable pub set_cookie : List ℕ → Headers → Headers
set_cookie v = add_header (chars "Cookie") v

unfoldable pub set_content_type : List ℕ → Headers → Headers
set_content_type v = add_header (chars "Content-Type") v

unfoldable pub set_host : List ℕ → Headers → Headers
set_host v = add_header (chars "Host") v

unfoldable pub set_agent : List ℕ → Headers → Headers
set_agent v = add_header (chars "User-Agent") v

-- The fields of HttpRequest and HttpResponse that the encoder reads and writes.
pub record Message : Type 0 where
  pub http_method : HttpMethod
  pub http_url : List ℕ
  pub status_code : ℕ
  pub content_type : List ℕ
  pub content : List ℕ
  pub http_headers : Headers

-- What the encoder takes from elsewhere: `std::to_string` of a size and the text of the date.
pub record EncoderEnv : Type 0 where
  pub size_text : ℕ → List ℕ
  pub date : List ℕ

abbrev pub crlf : List ℕ
crlf = 13 ∷ 10 ∷ []

-- The lines of the headers; a header without a name is left out.
unfoldable pub encode_headers : Headers → List ℕ
encode_headers [] = []
encode_headers ((key, value) ∷ headers) =
    let rest = encode_headers headers in
    if bytes_eq key [] then rest else key ++ (chars ": " ++ (value ++ (crlf ++ rest)))

-- `encode` of a request.
unfoldable pub encode_request : Message → List ℕ
encode_request m =
    http_method_string m.http_method
    ++ (chars " "
        ++ (m.http_url
            ++ (chars " "
                ++ (http_version_1_1
                    ++ (crlf ++ (encode_headers m.http_headers ++ (crlf ++ m.content)))))))

module _ (env : EncoderEnv) where
  -- `set_content`
  unfoldable pub set_content : List ℕ → List ℕ → Message → Message
  set_content [] type m = m
  set_content (c ∷ body) type m = record m {
    content_type = to_mime type;
    content = c ∷ body;
    http_headers =
        add_header (chars "Content-Length") (env.size_text (length (c ∷ body))) m.http_headers;
  }

  -- `encode` of a response.
  unfoldable pub encode_response : Message → List ℕ
  encode_response m =
      to_string m.status_code
      ++ (crlf
          ++ (encode_headers m.http_headers
              ++ (chars "Server: SNet Http Server v0.1"
                  ++ (crlf ++ (chars "Date: " ++ (env.date ++ (crlf ++ (crlf ++ m.content))))))))

-- `HttpRequest(method, url, content, type)`
unfoldable pub new_request : EncoderEnv → HttpMethod → List ℕ → List ℕ → List ℕ → Message
unfolding set_content
new_request env method url content type = set_content env content type (record {
  http_method = method;
  http_url = url;
  status_code = 0;
  content_type = [];
  content = [];
  http_headers = [];
})

bytes_eq_trans : (j k i : List ℕ) → bytes_eq j k ≡ true → bytes_eq j i ≡ bytes_eq k i
bytes_eq_trans j k i e = ap (λ t. bytes_eq t i) (bytes_eq→eq j k e)

-- After `add_header` the key has the value given, and every other key what it had.
pub lookup-add_header :
    (key i value : List ℕ) (headers : Headers)
    → lookup i (add_header key value headers)
      ≡ (if bytes_eq key i then some value else lookup i headers)
unfolding add_header
lookup-add_header key i value [] = refl
lookup-add_header key i value ((k, v) ∷ headers) = elim (Bool-cases (bytes_eq k key)) [
  | inl same ↦ rw (same, bytes_eq_trans k key i same) (twice (bytes_eq key i))
  | inr other ↦ elim (Bool-cases (bytes_lt key k)) [
    | inl before ↦ rw (other, before)
    | inr behind ↦ elim (Bool-cases (bytes_eq k i)) [
      | inl here ↦
          let ne : bytes_eq key i ≡ false = elim (Bool-cases (bytes_eq key i)) [
            | inr e ↦ e
            | inl e ↦
                let q : k ≡ key = bytes_eq→eq k i here ∙ sym (bytes_eq→eq key i e) in
                let h : bytes_eq k key ≡ true = ap (bytes_eq k) (sym q) ∙ bytes_eq_refl k in cc
          ] in
          rw (other, behind, here, ne)
      | inr there ↦ rw (other, behind, there) (lookup-add_header key i value headers)
    ]
  ]
]
  where
    twice :
        (b : Bool)
        → (if b then some value else lookup i headers)
          ≡ (if b then some value else (if b then some v else lookup i headers))
    twice true = refl
    twice false = refl
