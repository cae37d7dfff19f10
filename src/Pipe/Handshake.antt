-- ===== src/Pipe/Handshake.antt =====
-- The handshake of include/pipe, from the side that connects to the other and back, and the status
-- of the sessions of include/pipe/pipe_session.h.
use mathlib.Core.Path.{subst}
use snet.Prelude.{
  ℤ, ℕ, suc, ◌+◌, ◌^◌, ◌<◌, ◌≡◌, refl, sym, ap, ◌∙◌, List, [], ◌∷◌, ◌++◌, Option, none, some, true,
  false, ◌==◌, ltb, bytes_eq, bytes_eq_refl, if◌then◌else◌, length, append-nil, length-append,
  concat, arith,
}
use snet.Tcp.Types.{Conn, Effect, SessionCall, NetEvent, Kernel}
use snet.Tcp.Connection.{is_open, log_effect, msend}
use snet.Tcp.Sending.{TakesSome, stream, IsSettled, msend_lem}
use snet.Tcp.Keeps.{Keeps, msend-Keeps}
use snet.Pipe.Message.{PipeMsg, encode, encode_head, pipe_msg_shake_hand}
use snet.Pipe.Connection.{
  PipeEnv, find_user_session, msg_length, msg_type, send, send_shakehand, process_server_handshake,
  process_client_handshake, handle_data, handle_event,
}
use snet.Pipe.Roundtrip.{IsMsg, encode_fields, length-encode}

-- PipeStatus
pub data PipeStatus : Type 0 where
  init unbind bind : PipeStatus

-- `on_ready` of the session `id`, and every other call.
unfoldable pub on_call : List ℕ → Effect → PipeStatus → PipeStatus
on_call id (Effect.session j SessionCall.on_ready) s = if bytes_eq j id then bind else s
on_call id _ s = s

-- `pipe_status` of the session `id` after the calls of a connection.
unfoldable pub status_after : List ℕ → List Effect → PipeStatus → PipeStatus
unfolding on_call
status_after id [] s = s
status_after id (e ∷ log) s = status_after id log (on_call id e s)

status_after-append :
    (id : List ℕ) (log more : List Effect) (s : PipeStatus)
    → status_after id (log ++ more) s ≡ status_after id more (status_after id log s)
unfolding status_after
status_after-append id [] more s = refl
status_after-append id (e ∷ log) more s = status_after-append id log more (on_call id e s)

on_call-bind : (id : List ℕ) (e : Effect) → on_call id e bind ≡ bind
unfolding on_call
on_call-bind id (Effect.session j SessionCall.on_ready) = ground arith
on_call-bind id (Effect.session j (SessionCall.handle_event n)) = refl
on_call-bind id (Effect.session j (SessionCall.handle_message b u)) = refl
on_call-bind id (Effect.mod_event sd evts) = refl
on_call-bind id (Effect.add_event sd evts) = refl
on_call-bind id (Effect.del_event sd) = refl
on_call-bind id (Effect.close_fd sd) = refl
on_call-bind id (Effect.raised evt) = refl
on_call-bind id (Effect.post_remove cid) = refl
on_call-bind id Effect.null_session = refl
on_call-bind id (Effect.connect_to sd host port) = refl

-- A session that is bound stays so.
stays_bound : (id : List ℕ) (log : List Effect) → status_after id log bind ≡ bind
unfolding status_after
stays_bound id [] = refl
stays_bound id (e ∷ log) = ap (status_after id log) (on_call-bind id e) ∙ stays_bound id log

called :
    (id : List ℕ) (s : PipeStatus)
    → status_after id (Effect.session id SessionCall.on_ready ∷ []) s ≡ bind
unfolding status_after
called id s = ap (λ b. if b then bind else s) (bytes_eq_refl id)

-- After `on_ready`, whatever follows.
pub ready-bound :
    (id : List ℕ) (s : PipeStatus) (c c' : Conn)
    → Keeps (log_effect (Effect.session id SessionCall.on_ready) c) c'
    → status_after id c'.log s ≡ bind
ready-bound id s c c' k =
    let e = Effect.session id SessionCall.on_ready in
    ap (λ l. status_after id l s) k.grows
    ∙ status_after-append id (c.log ++ (e ∷ [])) k.suffix s
    ∙ ap (status_after id k.suffix)
        (status_after-append id c.log (e ∷ []) s ∙ called id (status_after id c.log s))
    ∙ stays_bound id k.suffix

-- The message of a handshake.
abbrev pub shake : List ℕ → PipeMsg
shake id = record { type = pipe_msg_shake_hand; user = 0; body = id }

-- The connection is open and settled, and the message fits.
pub record CanShake (id : List ℕ) (c : Conn) : Type 0 where
  pub opened : is_open c ≡ true
  pub settled : IsSettled c
  pub named : 0 < length id
  pub small : length c.send_buffer + (16 + length id) < 2 ^ 32

-- What was given to send has the message behind it.
pub record Shaken (id : List ℕ) (c c' : Conn) : Type 0 where
  pub given : stream c' ≡ stream c ++ encode (shake id)
  pub settled : IsSettled c'
  pub keeps : Keeps c c'

abbrev pub items : List ℕ → List (List ℕ)
items id = encode_head (length id) pipe_msg_shake_hand 0 ∷ id ∷ []

head-length : (n t u : ℕ) → length (encode_head n t u) ≡ 16
unfolding encode_head
head-length n t u = refl

concat-items : (id : List ℕ) → concat (items id) ≡ encode (shake id)
unfolding encode
concat-items id = ap (λ t. encode_head (length id) pipe_msg_shake_hand 0 ++ t) (append-nil id)

sent_by :
    (kernel : Kernel) (id : List ℕ) (c c' : Conn) (n : ℤ)
    → msend kernel (suc (length (c.send_buffer ++ concat (items id)))) (items id) c ≡ some (n, c')
    → send kernel (items id) c ≡ c'
unfolding send
sent_by kernel id c c' n e = rw (e, send) refl

-- By whether there is a session.
abbrev by_session : Conn → Option (List ℕ) → (List ℕ → Conn) → Conn
by_session c o f = elim o [ none ↦ log_effect Effect.null_session c | some id ↦ f id ]

module _ (env : PipeEnv) (ok : TakesSome env.kernel) where
  pub send_shakehand-Shaken :
      (id : List ℕ) (c : Conn) → CanShake id c → Shaken id c (send_shakehand env id c)
  unfolding send_shakehand
  send_shakehand-Shaken id c v =
      let head = head-length (length id) pipe_msg_shake_hand 0 in
      let joined = concat-items id in
      let size = length-append c.send_buffer (concat (items id)) in
      let whole : length (concat (items id)) ≡ 16 + length id =
        ap length joined ∙ length-encode (shake id) in
      let (n, c', sent, given, settled) =
        msend_lem env.kernel ok (items id) c v.opened v.settled (omega arith, (v.named, tt))
          (omega (arith, v.small)) in
      let same = sent_by env.kernel id c c' n sent in
      let done : Shaken id c c' = record {
        given = given ∙ ap (λ t. stream c ++ t) joined;
        settled = settled;
        keeps = msend-Keeps env.kernel _ (items id) c c' n sent;
      } in
      subst (Shaken id c) (sym same) done

  -- The side that connects sends its id.
  pub connect_lem :
      (id : List ℕ) (c : Conn)
      → env.user_session ≡ some id
      → c.is_passive ≡ false
      → handle_event env NetEvent.connect c ≡ send_shakehand env id c
  unfolding handle_event
  connect_lem id c bound active =
      ap (λ b. if b then c else by_session c env.user_session (λ x. send_shakehand env x c)) active
      ∙ ap (λ o. by_session c o (λ x. send_shakehand env x c)) bound

abbrev pub ready : List ℕ → Conn → Conn
ready id c =
    log_effect (Effect.session id (SessionCall.handle_event 1))
      (log_effect (Effect.session id SessionCall.on_ready) c)

pub shake-IsMsg : (id : List ℕ) → length id < 2 ^ 32 → IsMsg (shake id)
shake-IsMsg id small = record {
  type_word = omega arith;
  user_word = omega arith;
  length_word = small;
}

msg_length-encode : (msg : PipeMsg) → IsMsg msg → msg_length (encode msg) ≡ length msg.body
unfolding encode
msg_length-encode msg v = let small = v.length_word in omega arith

-- What each side does with the message of the other.
pub server_lem :
    (env : PipeEnv) (id : List ℕ) (c : Conn)
    → 0 < length id
    → length id < 2 ^ 32
    → c.is_passive ≡ true
    → find_user_session id env.pipe_map ≡ true
    → handle_data env (encode (shake id)) c ≡ send_shakehand env id (ready id c)
unfolding handle_data process_server_handshake
server_lem env id c named small passive known =
    let v = shake-IsMsg id small in
    let (type, user, body) = encode_fields (shake id) v in
    let size = msg_length-encode (shake id) v in
    let is_shake : (msg_type (encode (shake id)) == pipe_msg_shake_hand) ≡ true = ground arith in
    let longer : ltb 0 (msg_length (encode (shake id))) ≡ true = ground arith in
    rw (is_shake, passive, longer, body, known) refl

pub client_lem :
    (env : PipeEnv) (id : List ℕ) (c : Conn)
    → 0 < length id
    → length id < 2 ^ 32
    → c.is_passive ≡ false
    → env.user_session ≡ some id
    → handle_data env (encode (shake id)) c ≡ log_effect (Effect.session id SessionCall.on_ready) c
unfolding handle_data process_client_handshake
client_lem env id c named small active bound =
    let v = shake-IsMsg id small in
    let (type, user, body) = encode_fields (shake id) v in
    let size = msg_length-encode (shake id) v in
    let is_shake : (msg_type (encode (shake id)) == pipe_msg_shake_hand) ≡ true = ground arith in
    let longer : ltb 0 (msg_length (encode (shake id))) ≡ true = ground arith in
    rw is_shake (simp (active, longer, bound))
