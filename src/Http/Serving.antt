-- ===== src/Http/Serving.antt =====
-- HttpConnection of http_connection.h as a class of tcp_connection.h, and what it leaves alone of a
-- connection.
use snet.Prelude.{
  ℕ, suc, ◌<◌, ◌≡◌, refl, ◌∙◌, ℤ, pos, negsuc, List, [], ◌∷◌, ◌++◌, Option, none, some, true, ltb,
  if◌then◌else◌, lookup, bytes_key, Bool-cases, Option-cases, inl, inr, concat, length, arith,
}
use snet.Tcp.Types.{Conn, Handler}
use snet.Tcp.Connection.{is_open, msend}
use snet.Tcp.Keeps.{Keeps, Keeps-refl, Keeps-trans, if-Keeps, close-Keeps, msend-Keeps}
use snet.Tcp.Reading.{IsQuiet}
use snet.Tcp.Reader.{close-position}
use snet.Tcp.SendEnd.{msend-position}
use snet.Http.Encoder.{Message, encode_response}
use snet.Http.Connection.{
  HttpHandler, Routers, HttpEnv, send_text, write_response, call_handler, check_result, handle_data,
}

-- HttpConnection overrides `handle_data` only.
unfoldable pub http_handler : HttpEnv → Option Routers → Handler
http_handler env routers = record {
  handle_package = λ m len. pos len;
  handle_data = handle_data env routers;
  handle_event = λ evt c. c;
}

module _ (env : HttpEnv) where
  send_text-Keeps : (text : List ℕ) (c : Conn) → Keeps c (send_text env text c).1
  unfolding send_text
  send_text-Keeps text c =
      let fuel = suc (length (c.send_buffer ++ concat (text ∷ []))) in
      elim (Option-cases (msend env.kernel fuel (text ∷ []) c)) [
        | inl stuck ↦ rw (send_text, stuck) (Keeps-refl c)
        | inr ((n, c'), sent) ↦
            rw (send_text, sent) (msend-Keeps env.kernel fuel (text ∷ []) c c' n sent)
      ]

  write_response-Keeps : (rsp : Message) (c : Conn) → Keeps c (write_response env rsp c)
  unfolding write_response
  write_response-Keeps rsp c =
      let c' = if is_open c then (send_text env (encode_response env.encoder rsp) c).1 else c in
      Keeps-trans
        (if-Keeps (is_open c) (send_text-Keeps (encode_response env.encoder rsp) c) (Keeps-refl c))
        (close-Keeps c')

  -- The functions that a user registers leave the connection's identity alone.
  abbrev pub AreQuiet : Type 0
  AreQuiet = (f : ℕ) (bytes : List ℕ) (c : Conn) → Keeps c (env.run f bytes c).1

  module _ (quiet : AreQuiet) where
    call_handler-Keeps :
        (h : HttpHandler) (bytes : List ℕ) (c : Conn) → Keeps c (call_handler env h bytes c).1
    unfolding call_handler
    call_handler-Keeps h bytes c = elim (Option-cases h.context_handler) [
      | inr (f, e) ↦ rw e (quiet f bytes c)
      | inl e ↦ elim (Option-cases h.http_handler) [
        | inr (f, e') ↦ rw (e, e') (quiet f bytes c)
        | inl e' ↦ rw (e, e') (send_text-Keeps _ c)
      ]
    ]

    check_result-Keeps : (n : ℤ) (c : Conn) → Keeps c (check_result env (n, c))
    unfolding check_result
    check_result-Keeps (pos n) c = Keeps-refl c
    check_result-Keeps (negsuc n) c = write_response-Keeps _ c

    pub handle_data-Keeps :
        (routers : Option Routers) (bytes : List ℕ) (c : Conn)
        → Keeps c (handle_data env routers bytes c)
    unfolding handle_data
    handle_data-Keeps routers bytes c = elim (Bool-cases (ltb 0 (env.parse bytes).0)) [
      | inr nothing ↦ rw nothing (Keeps-refl c)
      | inl more ↦ elim (Option-cases routers) [
        | inl e ↦ rw (more, e) (Keeps-refl c)
        | inr (r, e) ↦ elim (Option-cases (lookup (env.parse bytes).1 r.http_routers)) [
          | inl e' ↦ rw (more, e, e') (Keeps-trans (write_response-Keeps _ c) (close-Keeps _))
          | inr (h, e') ↦
              let (n, c') = call_handler env h bytes c in
              rw (more, e, e')
                (Keeps-trans (Keeps-trans (call_handler-Keeps h bytes c) (check_result-Keeps n c'))
                  (close-Keeps _))
        ]
      ]
    ]

    pub http_handler-IsQuiet : (routers : Option Routers) → IsQuiet (http_handler env routers)
    unfolding http_handler
    http_handler-IsQuiet routers = record {
      event = λ evt c. Keeps-refl c;
      message = handle_data-Keeps routers;
    }

module _ (env : HttpEnv) where
  send_text-position : (text : List ℕ) (c : Conn) → (send_text env text c).1.read_pos ≡ c.read_pos
  unfolding send_text
  send_text-position text c =
      let fuel = suc (length (c.send_buffer ++ concat (text ∷ []))) in
      elim (Option-cases (msend env.kernel fuel (text ∷ []) c)) [
        | inl stuck ↦ rw (send_text, stuck) refl
        | inr ((n, c'), sent) ↦
            rw (send_text, sent) (msend-position env.kernel fuel (text ∷ []) c c' n sent)
      ]

  write_response-position :
      (rsp : Message) (c : Conn) → (write_response env rsp c).read_pos ≡ c.read_pos
  unfolding write_response
  write_response-position rsp c = elim (Bool-cases (is_open c)) [
    | inl e ↦ rw e ((close-position _).0 ∙ send_text-position _ c)
    | inr e ↦ rw e (close-position c).0
  ]

  pub not_found-position :
      (r : Routers) (bytes : List ℕ) (c : Conn)
      → 0 < (env.parse bytes).0
      → lookup (env.parse bytes).1 r.http_routers ≡ none
      → (handle_data env (some r) bytes c).read_pos ≡ c.read_pos
  unfolding handle_data
  not_found-position r bytes c taken none_found =
      let more : ltb 0 (env.parse bytes).0 ≡ true = ground arith in
      rw (more, none_found) ((close-position _).0 ∙ write_response-position _ c)
