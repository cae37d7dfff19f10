-- ===== src/Http/Exchange.antt =====
-- A request under `process_event`: http_connection.h as a class of tcp_connection.h.
use snet.Prelude.{
  ℕ, suc, ◌<◌, ◌^◌, sym, length, concat, append-nil, ltb, ◌≡◌, ◌≢◌, refl, ap, ◌∙◌, List, [], ◌∷◌,
  ◌++◌, Option, none, some, true, false, if◌then◌else◌, lookup, bytes_key, inl, inr, chars, arith,
}
use snet.Tcp.Types.{
  ConnStatus, conn_idle, conn_open, conn_closing, conn_closed, RecvResult, Effect, Events, NetEvent,
  Conn, Handler,
}
use snet.Tcp.Connection.{
  status_before_closing, status_is_idle, status_is_closing, is_open, read_buffer_size, log_effect,
  close, notify_send, set_out,
}
use snet.Tcp.Lifecycle.{raise, release, do_close, settle, process_event}
use snet.Tcp.Sending.{TakesSome, msend_lem}
use snet.Tcp.Emptied.{NeverBlocks, msend-empties}
use snet.Tcp.Keeps.{Keeps-trans, keep-fields}
use snet.Tcp.Closing.{Posts, Ends-before, settle-Ends}
use snet.Tcp.Whole.{arrived, process_event-one}
use snet.Http.Encoder.{encode_response}
use snet.Http.Response.{new_response}
use snet.Http.Connection.{
  Routers, HttpEnv, FitsIn, send_text, write_response, encode_response-nonempty, handle_data,
  handle_data-not_found,
}
use snet.Http.Serving.{
  http_handler, AreQuiet, handle_data-Keeps, http_handler-IsQuiet, not_found-position,
}

-- The status is neither CONN_IDLE, CONN_OPEN nor CONN_CLOSED.
only_closing :
    (s : ConnStatus)
    → status_before_closing s ≡ false
    → s ≢ conn_closed
    → status_is_closing s ≡ true
only_closing conn_idle e ne = cc
only_closing conn_open e ne = cc
only_closing conn_closing e ne = refl
only_closing conn_closed e ne = absurd (ne refl)

close-buffer : (c : Conn) → (close c).send_buffer ≡ c.send_buffer
unfolding close notify_send set_out
close-buffer c = ground arith

module _ (env : HttpEnv) (takes : TakesSome env.kernel) (free : NeverBlocks env.kernel) (c : Conn)
    (opened : is_open c ≡ true) (idle : c.send_buffer ≡ []) where
  send_text-empties :
      (text : List ℕ) → 0 < length text → FitsIn c text → (send_text env text c).1.send_buffer ≡ []
  unfolding send_text
  send_text-empties text some_byte fits =
      let small : length (c.send_buffer ++ concat (text ∷ [])) < 2 ^ 32 =
        rw (append-nil text) fits in
      let (n, c', sent, given, done) =
        msend_lem env.kernel takes (text ∷ []) c opened (inl idle) (some_byte, _) small in
      rw (send_text, sent)
        (msend-empties env.kernel takes free (text ∷ []) c c' n opened idle (some_byte, _) small
          sent)

  not_found-empties :
      (r : Routers) (bytes : List ℕ)
      → 0 < (env.parse bytes).0
      → lookup (env.parse bytes).1 r.http_routers ≡ none
      → FitsIn c (encode_response env.encoder (new_response env.encoder 404 [] (chars "txt")))
      → (handle_data env (some r) bytes c).send_buffer ≡ []
  unfolding handle_data write_response
  not_found-empties r bytes taken none_found fits =
      let more : ltb 0 (env.parse bytes).0 ≡ true = ground arith in
      let rsp = new_response env.encoder 404 [] (chars "txt") in
      let sent =
        send_text-empties (encode_response env.encoder rsp)
          (encode_response-nonempty env.encoder rsp) fits in
      rw (more, none_found, write_response, opened) (close-buffer _ ∙ close-buffer _ ∙ sent)

module _ (env : HttpEnv) (routers : Option Routers) where
  release-lasts :
      (c : Conn)
      → c.need_reconnect ≡ false
      → let d = release (http_handler env routers) c in (d.status ≡ c.status) × (d.wire ≡ c.wire)
  unfolding release
  release-lasts c no_more = ground arith

  do_close-lasts :
      (c : Conn)
      → status_is_closing c.status ≡ true
      → c.need_reconnect ≡ false
      → let d = do_close (http_handler env routers) c in
        (d.status ≡ conn_closed) × (d.wire ≡ c.wire)
  unfolding do_close raise http_handler
  do_close-lasts c closing no_more =
      let marked = record c { status = conn_closed } in
      let c' = if c.has_worker then log_effect (Effect.del_event c.conn_sd) marked else marked in
      let d = raise (http_handler env routers) NetEvent.disconnect c' in
      let (same, given) = release-lasts d (ground arith) in
      rw closing (same ∙ ground arith, given ∙ ground arith)

-- What becomes of a connection that is answered: it is closed, its worker is asked to have the factory
-- forget it, and the kernel has the whole text, once, behind what it had.
pub record Answered (text : List ℕ) (c c' : Conn) : Type 0 where
  pub delivered : c'.wire ≡ c.wire ++ text
  pub closed : c'.status ≡ conn_closed
  pub suffix : List Effect
  pub grows : c'.log ≡ c.log ++ suffix
  pub posted : Posts c.conn_id suffix

module _ (env : HttpEnv) (takes : TakesSome env.kernel) (free : NeverBlocks env.kernel)
    (quiet : AreQuiet env) (r : Routers) (fuel b : ℕ) (bytes : List ℕ) (c : Conn) where
  abbrev handler : Handler
  handler = http_handler env (some r)

  abbrev not_found_text : List ℕ
  not_found_text = encode_response env.encoder (new_response env.encoder 404 [] (chars "txt"))

  -- A request that arrives whole on an open connection with nothing unread and nothing waiting, and
  -- whose path has no router: `process_event` ends, the kernel has taken the whole text of a 404
  -- response, once, behind what it had, the connection is closed, and the factory is asked to forget
  -- it. The text fits, the decoder takes the request, `send` takes some of each block without an
  -- error or EAGAIN, the functions that are registered leave connections' identities alone, and the
  -- connection is not to be connected again.
  pub process_event-Answered :
      (evts : Events)
      → evts.in_ ≡ true
      → evts.out ≡ false
      → is_open c ≡ true
      → c.status ≡ conn_open
      → c.read_pos ≡ 0
      → c.need_reconnect ≡ false
      → c.has_factory ≡ true
      → c.send_buffer ≡ []
      → FitsIn c not_found_text
      → env.kernel.recv c.recvs read_buffer_size ≡ RecvResult.received (b ∷ bytes)
      → 0 < (env.parse (b ∷ bytes)).0
      → lookup (env.parse (b ∷ bytes)).1 r.http_routers ≡ none
      → evts.err ≡ false
      → (c' : Conn) × (process_event handler env.kernel (suc fuel) evts c ≡ some c')
        × Answered not_found_text c c'
  unfolding http_handler is_open settle
  process_event-Answered evts readable no_out opened status empty no_more owned idle fits got taken
        none_found no_err =
      let block = b ∷ bytes in
      let a = arrived block c in
      let h = handle_data env (some r) block a in
      let (given, shut) =
        handle_data-not_found env takes r block a taken none_found opened (inl idle) fits in
      let cleared = not_found-empties env takes free a opened idle r block taken none_found fits in
      let kept = not_found-position env r block a taken none_found in
      let k = handle_data-Keeps env quiet (some r) block a in
      let open_still : a.status ≢ conn_closed = λ e. ground arith in
      let d = record h { read_pos = 0 } in
      let closing = only_closing h.status shut (k.not_closed open_still) in
      let (closed, same) = do_close-lasts env (some r) d closing (k.reconnect ∙ no_more) in
      let ends =
        settle-Ends (http_handler-IsQuiet env quiet (some r)) false d (k.not_closed open_still)
          (k.reconnect ∙ no_more) (k.factory ∙ owned) in
      let before =
        Keeps-trans (keep-fields c a refl refl refl refl refl)
          (Keeps-trans k (keep-fields h d refl refl refl refl refl)) in
      let all = Ends-before before ends in
      let started : status_is_idle c.status ≡ false = ap status_is_idle status in
      (
        settle handler false d,
        process_event-one handler (λ m n. refl) env.kernel fuel b bytes c evts readable no_out
              started empty got kept
            ∙ ap (λ e. some (settle handler e d)) no_err,
        record {
          delivered =
              same
              ∙ sym (append-nil h.wire)
              ∙ ap (λ t. h.wire ++ t) (sym cleared)
              ∙ given
              ∙ ap (λ t. (c.wire ++ t) ++ not_found_text) idle
              ∙ ap (λ t. t ++ not_found_text) (append-nil c.wire);
          closed = closed;
          suffix = all.suffix;
          grows = all.grows;
          posted = elim all.open_or_posted [
            | inl still ↦ absurd (still closed)
            | inr posted ↦ posted
          ];
        },
      )
