-- ===== src/Pipe/Message.antt =====
-- The wire format of include/pipe/pipe_connection.h: PipeMsgHead, in the byte order of the machine
-- (little endian), then the body.
use snet.Prelude.{
  ℕ, zero, suc, ◌+◌, ◌*◌, ◌/◌, ◌%◌, ℤ, pos, List, [], ◌∷◌, ◌++◌, Option, none, some, length, get_or,
  Memory, ltb, if◌then◌else◌,
}

-- PipeMsgType
abbrev pub pipe_msg_shake_hand : ℕ
pipe_msg_shake_hand = 1

abbrev pub pipe_msg_heart_beat : ℕ
pipe_msg_heart_beat = 2

abbrev pub pipe_msg_data : ℕ
pipe_msg_data = 3

abbrev pub pipe_msg_ack : ℕ
pipe_msg_ack = 4

-- A message: the head's `type` and `data`, and the body, whose size is the head's `length`.
pub record PipeMsg : Type 0 where
  pub type : ℕ
  pub user : ℕ
  pub body : List ℕ

-- sizeof(PipeMsgHead)
abbrev pub head_size : ℕ
head_size = 16

-- The n bytes of an unsigned integer, lowest first, and back.
abbrev pub put_le : ℕ → ℕ → List ℕ
put_le zero x = []
put_le (suc n) x = (x % 256) ∷ put_le n (x / 256)

abbrev pub get_le : ℕ → Memory → ℕ → ℕ
get_le zero m i = 0
get_le (suc n) m i = m i + 256 * get_le n m (i + 1)

-- PipeMsgHead{length, type, data}
unfoldable pub encode_head : ℕ → ℕ → ℕ → List ℕ
encode_head len type user = put_le 4 len ++ put_le 4 type ++ put_le 8 user

-- The bytes of a message: the head, then the body.
unfoldable pub encode : PipeMsg → List ℕ
unfolding encode_head
encode msg = encode_head (length msg.body) msg.type msg.user ++ msg.body

-- `handle_package`: the size of the message at the front, or 0 if it is not there whole.
unfoldable pub handle_package : Memory → ℕ → ℤ
handle_package m len =
    let body_len = get_le 4 m 0 in
    if ltb len head_size
    then pos 0
    else (if ltb len (body_len + head_size) then pos 0 else pos (head_size + body_len))

-- The same of a list of bytes, as a specification.
abbrev pub at : List ℕ → Memory
at bytes i = get_or bytes i 0

unfoldable pub frame_len : List ℕ → Option ℕ
frame_len bytes =
    let body_len = get_le 4 (at bytes) 0 in
    if ltb (length bytes) head_size
    then none
    else (if ltb (length bytes) (body_len + head_size) then none else some (head_size + body_len))
