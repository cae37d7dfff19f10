-- ===== src/Http/Response.antt =====
-- include/http/http_response.h and http_context.h: HttpResponse without its decoder. The function
-- `writer`, if it is set, takes the text of the response and returns a number.
use snet.Prelude.{
  ℕ, ◌≡◌, ◌≢◌, refl, ◌∙◌, ℤ, minus_one, List, [], ◌∷◌, Option, none, some, ◌==◌, bytes_key,
  if◌then◌else◌, lookup, length, chars,
}
use snet.Http.Message.{http_get}
use snet.Http.Encoder.{
  Message, EncoderEnv, add_header, set_content_type, set_content, encode_response,
  lookup-add_header,
}

-- What a call returns, the text that the writer was given, if it was called, and the response.
pub record Written : Type 0 where
  pub ret : ℤ
  pub given : Option (List ℕ)
  pub response : Message

abbrev pub blank_response : ℕ → Message
blank_response code = record {
  http_method = http_get;
  http_url = [];
  status_code = code;
  content_type = [];
  content = [];
  http_headers = [];
}

abbrev pub html : List ℕ
html = chars "text/html; charset=UTF-8"

module _ (env : EncoderEnv) where
  -- `HttpResponse(c, rsp, type)`
  unfoldable pub new_response : ℕ → List ℕ → List ℕ → Message
  new_response code rsp type = set_content env rsp type (blank_response code)

  module _ (writer : Option (List ℕ → ℤ)) where
    -- `writer(dump())`, or -1 without one, in which case the response is left alone.
    unfoldable pub give : Message → Message → Written
    give changed m = elim writer [
      | none ↦ record { ret = minus_one; given = none; response = m }
      | some f ↦
          let text = encode_response env changed in
          record { ret = f text; given = some text; response = changed }
    ]

    -- `write(msg, code)`
    unfoldable pub write : List ℕ → ℕ → Message → Written
    unfolding give
    write msg code m =
        let coded = record m { status_code = if m.status_code == 0 then code else m.status_code } in
        let filled = set_content env msg (chars "txt") coded in
        give (record filled { http_headers = set_content_type html filled.http_headers }) m

    -- `write()`
    unfoldable pub write_status : Message → Written
    unfolding give
    write_status m =
        give (record m { status_code = if m.status_code == 0 then 200 else m.status_code }) m

    -- `json(msg)` and `text(msg)`; neither reads `msg`.
    unfoldable pub json : List ℕ → Message → Written
    unfolding give
    json msg m =
        give
          (record m { http_headers = set_content_type (chars "application/json") m.http_headers }) m

    unfoldable pub text : List ℕ → Message → Written
    unfolding give
    text msg m = give (record m { http_headers = set_content_type html m.http_headers }) m

-- `write` of a body that is not empty hands the writer the text of the response and returns what
-- the writer does. The response has the body, its length and its type; a status that was set before
-- is kept, else it is the one given.
pub write_lem :
    (env : EncoderEnv) (f : List ℕ → ℤ) (msg : List ℕ) (code : ℕ) (m : Message)
    → msg ≢ []
    → let w = write env (some f) msg code m in
      let status = if m.status_code == 0 then code else m.status_code in
      (w.given ≡ some (encode_response env w.response))
      × (w.ret ≡ f (encode_response env w.response))
      × (w.response.status_code ≡ status)
      × (w.response.content ≡ msg)
      × (lookup (chars "Content-Length") w.response.http_headers
          ≡ some (env.size_text (length msg)))
      × (lookup (chars "Content-Type") w.response.http_headers ≡ some html)
unfolding write give set_content set_content_type
write_lem env f [] code m ne = absurd (ne refl)
write_lem env f (c ∷ msg) code m ne =
    let body = c ∷ msg in
    let sized = add_header (chars "Content-Length") (env.size_text (length body)) m.http_headers in
    (
      refl,
      refl,
      refl,
      refl,
      lookup-add_header (chars "Content-Type") (chars "Content-Length") html sized
          ∙ lookup-add_header (chars "Content-Length") (chars "Content-Length")
              (env.size_text (length body)) m.http_headers,
      lookup-add_header (chars "Content-Type") (chars "Content-Type") html sized,
    )
