-- ===== src/Tcp/Room.antt =====
-- When the input buffer of a connection has room for the segments of a stream.
use snet.Prelude.{
  ℕ, ◌+◌, ◌≤◌, ◌≡◌, ap, ◌∙◌, sym, List, [], ◌∷◌, Option, none, some, Bool, length, length-drop,
  length-append, concat, store, load-length, arith,
}
use snet.Tcp.Types.{Conn, Handler}
use snet.Tcp.Connection.{read_buffer_size}
use snet.Tcp.Framing.{Cut, IsFraming}
use snet.Tcp.Segments.{process_data-Processed}
use snet.Tcp.Stream.{HasRoom}

pub Cut-length :
    {frame_len : List ℕ → Option ℕ} {bytes rest : List ℕ} {frames : List (List ℕ)}
    → Cut frame_len bytes frames rest
    → length rest ≤ length bytes
Cut-length (Cut.done bytes e) = omega arith
Cut-length (Cut.more {bytes = bytes} n e t cut) = omega (arith, Cut-length cut, length-drop n bytes)

read_pos_of : Option (Bool × Conn) → ℕ
read_pos_of none = 0
read_pos_of (some (more, c)) = c.read_pos

-- A stream that fits into the buffer as a whole has room, however it is cut into segments.
pub total-HasRoom :
    {handler : Handler} {frame_len : List ℕ → Option ℕ} (segments : List (List ℕ)) (c : Conn)
    → IsFraming handler frame_len
    → c.read_pos + length (concat segments) ≤ read_buffer_size
    → HasRoom handler segments c
unfolding HasRoom
total-HasRoom [] c f h = _
total-HasRoom {handler} (segment ∷ segments) c f h =
    let sizes = length-append segment (concat segments) in
    let c₀ = record c { read_buffer = store c.read_buffer c.read_pos segment } in
    let fits : c.read_pos + length segment ≤ read_buffer_size = omega arith in
    let p = process_data-Processed f (length segment) c₀ fits in
    (
      fits,
      λ c' more e.
          let at : c'.read_pos ≡ length p.rest =
            unfold read_pos_of in ap read_pos_of (sym e ∙ p.result) in
          let shrinks = Cut-length p.cut in
          let size = load-length c₀.read_buffer 0 (c.read_pos + length segment) in
          total-HasRoom segments c' f (omega arith),
    )
