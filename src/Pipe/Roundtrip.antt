-- ===== src/Pipe/Roundtrip.antt =====
-- From `msend(head, body)` on one side of a pipe to `handle_message` on the other.
use mathlib.Core.List.{map}
use snet.Prelude.{
  ℕ, ◌+◌, ◌^◌, ◌<◌, ◌≡◌, ◌≢◌, refl, sym, ap, ap₂, ◌∙◌, List, [], ◌∷◌, ◌++◌, Option, none, some,
  false, length, take, drop, length-append, append_assoc, append-nil, Memory, load, ◌==◌, concat,
  arith, take_all, drop_all, take-append, drop-append,
}
use snet.Tcp.Types.{Conn, Effect, SessionCall}
use snet.Tcp.Framing.{Cut, Cut-cast, deliver, pending}
use snet.Tcp.Stream.{HasRoom, feed, feed-Fed}
use snet.Pipe.Message.{
  PipeMsg, head_size, encode, frame_len, pipe_msg_shake_hand, pipe_msg_heart_beat,
}
use snet.Pipe.Connection.{
  PipeEnv, msg_type, msg_user, msg_body, pipe_handler, handle_data, to_session,
}
use snet.Pipe.Framing.{pipe-IsFraming, pipe-IsStable}

-- The fields fit into their integers.
pub record IsMsg (msg : PipeMsg) : Type 0 where
  pub type_word : msg.type < 2 ^ 32
  pub user_word : msg.user < 2 ^ 64
  pub length_word : length msg.body < 2 ^ 32

pub length-encode : (msg : PipeMsg) → length (encode msg) ≡ head_size + length msg.body
unfolding encode
length-encode msg = omega arith

-- The receiver reads the type, the user data and the body that the sender wrote, if they fit into
-- their integers.
pub encode_fields :
    (msg : PipeMsg)
    → IsMsg msg
    → (msg_type (encode msg) ≡ msg.type)
      × (msg_user (encode msg) ≡ msg.user)
      × (msg_body (encode msg) ≡ msg.body)
unfolding encode
encode_fields msg v = (omega arith, omega arith, take_all _ msg.body (omega arith))

frame_len-encode :
    (msg : PipeMsg) (more : List ℕ)
    → IsMsg msg
    → frame_len (encode msg ++ more) ≡ some (head_size + length msg.body)
unfolding frame_len encode
frame_len-encode msg more v = ground (arith, length-append msg.body more)

-- Two ways to cut a stream are the same.
pub Cut-unique :
    {frame_len : List ℕ → Option ℕ} {bytes rest rest' : List ℕ} {frames frames' : List (List ℕ)}
    → Cut frame_len bytes frames rest
    → Cut frame_len bytes frames' rest'
    → (frames ≡ frames') × (rest ≡ rest')
Cut-unique (Cut.done bytes e) (Cut.done _ e') = (refl, refl)
Cut-unique (Cut.done bytes e) (Cut.more n e' t cut) = cc
Cut-unique (Cut.more n e t cut) (Cut.done bytes e') = cc
Cut-unique {frame_len} {frames' = frames'} (Cut.more {bytes = bytes} n e t cut)
      (Cut.more n' e' t' cut') =
    let same : n' ≡ n = ground arith in
    let (fs, rs) = Cut-unique cut (Cut-cast cut' (ap (λ k. drop k bytes) same) refl) in
    (ap₂ ◌∷◌ (t ∙ sym (t' ∙ ap (λ k. take k bytes) same)) fs, rs)

unfoldable pub AllMsg : List PipeMsg → Type 0
AllMsg [] = Unit
AllMsg (msg ∷ msgs) = IsMsg msg × AllMsg msgs

-- A stream of encoded messages falls into just those messages.
pub Cut-encode :
    (msgs : List PipeMsg)
    → AllMsg msgs
    → Cut frame_len (concat (map encode msgs)) (map encode msgs) []
unfolding AllMsg
Cut-encode [] v = Cut.done [] (unfold frame_len in refl)
Cut-encode (msg ∷ msgs) v =
    let more = concat (map encode msgs) in
    let n = head_size + length msg.body in
    let len = length-encode msg in
    let front : take n (encode msg ++ more) ≡ encode msg =
      take-append n (encode msg) more (omega arith) ∙ take_all n (encode msg) (omega arith) in
    let behind : drop n (encode msg ++ more) ≡ more =
      drop-append n (encode msg) more (omega arith)
      ∙ ap (λ t. t ++ more) (drop_all n (encode msg) (omega arith)) in
    Cut.more n (frame_len-encode msg more v.0) (sym front)
      (Cut-cast (Cut-encode msgs v.1) (sym behind) refl)

-- The messages that `handle_data` passes to the session, on either side.
pub record IsForSession (msg : PipeMsg) : Type 0 where
  pub valid : IsMsg msg
  pub not_shake_hand : msg.type ≢ pipe_msg_shake_hand
  pub not_heart_beat : msg.type ≢ pipe_msg_heart_beat

unfoldable pub AllForSession : List PipeMsg → Type 0
AllForSession [] = Unit
AllForSession (msg ∷ msgs) = IsForSession msg × AllForSession msgs

AllForSession-AllMsg : (msgs : List PipeMsg) → AllForSession msgs → AllMsg msgs
unfolding AllForSession AllMsg
AllForSession-AllMsg [] v = v
AllForSession-AllMsg (msg ∷ msgs) v = (v.0.valid, AllForSession-AllMsg msgs v.1)

-- The call of `handle_message` that a message is meant for.
abbrev pub call : List ℕ → PipeMsg → Effect
call id msg = Effect.session id (SessionCall.handle_message msg.body msg.user)

pub pending-nil : (c : Conn) → c.read_pos ≡ 0 → pending c ≡ []
unfolding load
pending-nil c e = rw e

module _ (env : PipeEnv) (id : List ℕ) (bound : env.user_session ≡ some id) where
  handle_data-encode :
      (msg : PipeMsg) (c : Conn)
      → IsForSession msg
      → handle_data env (encode msg) c ≡ record c { log = c.log ++ (call id msg ∷ []) }
  unfolding handle_data to_session
  handle_data-encode msg c v =
      let (type, user, body) = encode_fields msg v.valid in
      let a : (msg_type (encode msg) == pipe_msg_shake_hand) ≡ false =
        ground (arith, v.not_shake_hand) in
      let b : (msg_type (encode msg) == pipe_msg_heart_beat) ≡ false =
        ground (arith, v.not_heart_beat) in
      rw (a, b, bound)
        (ap₂
          (λ (x : List ℕ) (y : ℕ). record c {
            log = c.log ++ (Effect.session id (SessionCall.handle_message x y) ∷ []);
          })
          body user)

  deliver-encode :
      (msgs : List PipeMsg) (c : Conn)
      → AllForSession msgs
      → deliver (pipe_handler env) (map encode msgs) c
        ≡ record c { log = c.log ++ map (call id) msgs }
  unfolding deliver pipe_handler AllForSession
  deliver-encode [] c v = λ i. record c { log = sym (append-nil c.log) i }
  deliver-encode (msg ∷ msgs) c v =
      ap (deliver (pipe_handler env) (map encode msgs)) (handle_data-encode msg c v.0)
      ∙ deliver-encode msgs (record c { log = c.log ++ (call id msg ∷ []) }) v.1
      ∙ λ i. record c { log = append_assoc c.log (call id msg ∷ []) (map (call id) msgs) i }

  -- Messages for the session that arrive in any segments for which there is room, on a pipe that
  -- has a session and no input waiting, make one call of the session for each message, in order,
  -- with its body and user data. Nothing else of the connection changes but the memory of its input
  -- buffer, which is empty again.
  pub pipe_roundtrip :
      (msgs : List PipeMsg) (segments : List (List ℕ)) (c : Conn)
      → AllForSession msgs
      → concat segments ≡ concat (map encode msgs)
      → c.read_pos ≡ 0
      → HasRoom (pipe_handler env) segments c
      → (memory : Memory) × (feed (pipe_handler env) segments c
          ≡ some
              (record c { read_buffer = memory; read_pos = 0; log = c.log ++ map (call id) msgs }))
  pipe_roundtrip msgs segments c v sent start room =
      let nothing : pending c ≡ [] = pending-nil c start in
      let short : frame_len (pending c) ≡ none =
        ap frame_len nothing ∙ (unfold frame_len in refl) in
      let r = feed-Fed (pipe-IsFraming env) pipe-IsStable segments c short room in
      let bytes : pending c ++ concat segments ≡ concat (map encode msgs) =
        ap (λ t. t ++ concat segments) nothing ∙ sent in
      let (frames, rest) =
        Cut-unique (Cut-cast r.cut bytes refl) (Cut-encode msgs (AllForSession-AllMsg msgs v)) in
      let delivered : deliver (pipe_handler env) r.frames c
          ≡ record c { log = c.log ++ map (call id) msgs } =
        ap (λ t. deliver (pipe_handler env) t c) frames ∙ deliver-encode msgs c v in
      (
        r.memory,
        r.result ∙ λ i.
            some (record (delivered i) { read_buffer = r.memory; read_pos = length (rest i) }),
      )
